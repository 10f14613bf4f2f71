-- ===== src/Graph/Resolve/Signals.antt =====
-- What the matchers of crates/brolga-graph/src/resolve.rs find about a pair of records.
-- The tests and conversions on characters are the standard library's, and so a parameter. An
-- `EntityKind` is only compared, and stands here as a number. `MatchSignal`'s `&'static str`s and the
-- `String`s are texts, as they are compared. Of a record, the markings and sources that the matchers
-- do not read are left out.
use brolga.Prelude.{
  ℕ, ◌+◌, Text, text_eq, codes, Bool, true, false, ◌&&◌, ◌||◌, List, [], ◌∷◌, ◌++◌, map, leb, ltb,
  ◌==◌, if◌then◌else◌, take,
}
use brolga.Prelude.TextMap.{TextMap, get}
use brolga.Graph.Resolve.{ResolutionState, is_alias, contains, is_same}

pub record Characters : Type 0 where
  pub is_alphanumeric : ℕ → Bool
  pub is_control : ℕ → Bool
  pub to_lowercase : ℕ → Text
  pub text_to_lowercase : Text → Text

pub data Strength : Type 0 where
  weak supporting decisive : Strength

unfoldable pub can_merge_alone : Strength → Bool
can_merge_alone decisive = true
can_merge_alone _ = false

-- The derived order.
abbrev pub rank : Strength → ℕ
rank weak = 0
rank supporting = 1
rank decisive = 2

pub record MatchSignal : Type 0 where
  pub matcher : Text
  pub strength : Strength
  pub score : ℕ
  pub reason : Text
  pub evidence : Text

pub record ResolvableRecord : Type 0 where
  pub id : Text
  pub kind : ℕ
  pub name : Text
  pub external_ids : TextMap Text

-- `str::len`, the bytes of the encoding in UTF-8.
abbrev len : Text → ℕ
len [] = 0
len (c ∷ s) =
    (if ltb c 128 then 1 else if ltb c 2048 then 2 else if ltb c 65536 then 3 else 4) + len s

module _ (u : Characters) where
  printable : Text → Text
  printable [] = []
  printable (c ∷ s) = let rest = printable s in if u.is_control c then rest else c ∷ rest

  unfoldable pub bounded : Text → Text
  unfolding printable
  bounded value = take 200 (printable value)

  unfoldable pub normalised : Text → Text
  normalised [] = []
  normalised (c ∷ s) =
      let rest = normalised s in if u.is_alphanumeric c then u.to_lowercase c ++ rest else rest

  extend_first : ℕ → List Text → List Text
  extend_first c [] = (c ∷ []) ∷ []
  extend_first c (p ∷ ps) = (c ∷ p) ∷ ps

  -- `split` at the characters that are not alphanumeric.
  split : Text → List Text
  unfolding extend_first
  split [] = [] ∷ []
  split (c ∷ s) =
      let rest = split s in if u.is_alphanumeric c then extend_first c rest else [] ∷ rest

  long : List Text → List Text
  long [] = []
  long (p ∷ ps) = let rest = long ps in if leb 4 (len p) then p ∷ rest else rest

  tokens : Text → List Text
  unfolding long split
  tokens value = map u.text_to_lowercase (long (split value))

  meets : List Text → List Text → Bool
  meets [] qs = false
  meets (p ∷ ps) qs = contains p qs || meets ps qs

  unfoldable pub shares_a_token : Text → Text → Bool
  unfolding tokens meets
  shares_a_token left right = meets (tokens left) (tokens right)

  -- The first signal of `resolve`.
  unfoldable pub identifier_signals : ResolvableRecord → ResolvableRecord → List MatchSignal
  unfolding bounded
  identifier_signals first second =
      if text_eq first.id second.id
      then record {
        matcher = codes "canonical-identifier";
        strength = decisive;
        score = 100;
        reason = codes "both records already resolve to the same canonical identifier";
        evidence = bounded first.id;
      }
        ∷ []
      else []

  -- The loop of `resolve` over the external identifiers of the first record.
  unfoldable pub external_signals : TextMap Text → TextMap Text → List MatchSignal
  unfolding bounded
  external_signals [] other = []
  external_signals ((namespace, value) ∷ m) other =
      let rest = external_signals m other in
      if is_same (get namespace other) value
      then record {
        matcher = codes "external-identifier";
        strength = decisive;
        score = 95;
        reason =
            codes
              "both records carry the same identifier in the same external namespace, assigned by that authority rather than inferred here";
        evidence = bounded (namespace ++ codes "=" ++ value);
      }
        ∷ rest
      else rest

  unfoldable pub alias_signals :
      ResolutionState → ResolvableRecord → ResolvableRecord → List MatchSignal
  unfolding bounded
  alias_signals s first second =
      if is_alias s first.id second.id
      then record {
        matcher = codes "declared-alias";
        strength = decisive;
        score = 90;
        reason =
            codes
              "an analyst declared these two names to denote one thing, and the declaration is recorded with who made it";
        evidence = bounded (first.name ++ codes " = " ++ second.name);
      }
        ∷ []
      else []

  unfoldable pub name_signals : ResolvableRecord → ResolvableRecord → List MatchSignal
  unfolding bounded
  name_signals first second =
      if first.kind == second.kind && text_eq (normalised first.name) (normalised second.name)
      then record {
        matcher = codes "normalised-name";
        strength = supporting;
        score = 60;
        reason =
            codes
              "the names match after normalisation, which is evidence a human should look and is never sufficient on its own";
        evidence = bounded (first.name ++ codes " ~ " ++ second.name);
      }
        ∷ []
      else if first.kind == second.kind && shares_a_token first.name second.name
      then record {
        matcher = codes "shared-name-token";
        strength = weak;
        score = 25;
        reason =
            codes
              "the names share a significant token, which is the weakest kind of hint and routinely wrong";
        evidence = bounded (first.name ++ codes " ~ " ++ second.name);
      }
        ∷ []
      else []
