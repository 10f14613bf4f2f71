-- ===== src/Graph/Resolve/Resolver.antt =====
-- crates/brolga-graph/src/resolve.rs, `Resolver`: what is concluded about a pair of records.
use Prim.Native.Nat.{min, max}
use brolga.Prelude.{
  ℕ, Text, text_eq, text_leb, Bool, true, false, ◌&&◌, ◌||◌, not, List, [], ◌∷◌, ◌++◌, ltb, ◌==◌,
  if◌then◌else◌, String,
}
use brolga.Graph.Resolve.{ResolutionState, is_rejected, is_pinned}
use brolga.Graph.Resolve.Signals.{
  Characters, can_merge_alone, rank, MatchSignal, ResolvableRecord, identifier_signals,
  external_signals, alias_signals, name_signals,
}

pub data ResolutionOutcome : Type 0 where
  distinct candidate merged rejected pinned : ResolutionOutcome

unfoldable pub unifies : ResolutionOutcome → Bool
unifies merged = true
unifies _ = false

unfoldable pub needs_review : ResolutionOutcome → Bool
needs_review candidate = true
needs_review _ = false

pub record ResolutionCandidate : Type 0 where
  pub left : Text
  pub right : Text
  pub outcome : ResolutionOutcome
  pub signals : List MatchSignal
  pub score : ℕ
  pub algorithm : String
  pub algorithm_version : ℕ

-- The comparison of `signals.sort_by`: strongest first, then by matcher, then by evidence.
abbrev pub comes_first : MatchSignal → MatchSignal → Bool
comes_first a b =
    ltb (rank b.strength) (rank a.strength)
    || (rank a.strength == rank b.strength
        && (not (text_leb b.matcher a.matcher)
            || (text_eq a.matcher b.matcher && text_leb a.evidence b.evidence)))

unfoldable pub place : MatchSignal → List MatchSignal → List MatchSignal
place a [] = a ∷ []
place a (b ∷ bs) = let rest = place a bs in if comes_first a b then a ∷ b ∷ bs else b ∷ rest

-- `sort_by`, which is stable.
unfoldable pub sorted : List MatchSignal → List MatchSignal
sorted [] = []
sorted (a ∷ rest) = place a (sorted rest)

-- The greatest score, or 0.
unfoldable pub greatest : List MatchSignal → ℕ
greatest [] = 0
greatest (a ∷ rest) = max a.score (greatest rest)

unfoldable pub any_decisive : List MatchSignal → Bool
any_decisive [] = false
any_decisive (a ∷ rest) = can_merge_alone a.strength || any_decisive rest

-- The function `candidate`.
abbrev pub candidate_of :
    ResolvableRecord
    → ResolvableRecord
    → ResolutionOutcome
    → List MatchSignal
    → ℕ
    → ResolutionCandidate
candidate_of first second outcome signals score = record {
  left = first.id;
  right = second.id;
  outcome = outcome;
  signals = signals;
  score = score;
  algorithm = "brolga.resolve.exact-and-declared";
  algorithm_version = 1;
}

abbrev pub outcome_of : Bool → Bool → List MatchSignal → ResolutionOutcome
outcome_of is_protected is_decisive [] = distinct
outcome_of is_protected is_decisive (a ∷ rest) =
    if is_protected then pinned else if is_decisive then merged else candidate

abbrev pub is_distinct : ResolutionOutcome → Bool
is_distinct distinct = true
is_distinct _ = false

-- The comparison of `out.sort_by`: by score from the highest, then by identifiers.
abbrev pub precedes : ResolutionCandidate → ResolutionCandidate → Bool
precedes a b =
    ltb b.score a.score
    || (a.score == b.score
        && (not (text_leb b.left a.left) || (text_eq a.left b.left && text_leb a.right b.right)))

unfoldable pub queue : ResolutionCandidate → List ResolutionCandidate → List ResolutionCandidate
queue a [] = a ∷ []
queue a (b ∷ bs) = let rest = queue a bs in if precedes a b then a ∷ b ∷ bs else b ∷ rest

-- `sort_by`, which is stable.
unfoldable pub ranked : List ResolutionCandidate → List ResolutionCandidate
ranked [] = []
ranked (a ∷ rest) = queue a (ranked rest)

module _ (u : Characters) (s : ResolutionState) where
  unfoldable pub signals_of : ResolvableRecord → ResolvableRecord → List MatchSignal
  signals_of first second = sorted (
      identifier_signals u first second
      ++ external_signals u first.external_ids second.external_ids
      ++ alias_signals u s first second
      ++ name_signals u first second)

  -- `resolve` of a pair in the order of identifiers.
  unfoldable pub resolve_ordered : ResolvableRecord → ResolvableRecord → ResolutionCandidate
  resolve_ordered first second =
      if is_rejected s first.id second.id
      then candidate_of first second rejected [] 0
      else let signals = signals_of first second in
        let score = min 100 (greatest signals) in
        let is_protected = is_pinned s first.id || is_pinned s second.id in
        candidate_of first second (outcome_of is_protected (any_decisive signals) signals) signals
          score

  unfoldable pub resolve : ResolvableRecord → ResolvableRecord → ResolutionCandidate
  resolve left right =
      if text_leb left.id right.id then resolve_ordered left right else resolve_ordered right left

  -- The conclusions of `resolve_all` on one record with those after it.
  unfoldable pub against : ResolvableRecord → List ResolvableRecord → List ResolutionCandidate
  against left [] = []
  against left (right ∷ records) =
      let rest = against left records in
      let concluded = resolve left right in
      if is_distinct concluded.outcome then rest else concluded ∷ rest

  unfoldable pub concluded_of : List ResolvableRecord → List ResolutionCandidate
  concluded_of [] = []
  concluded_of (left ∷ records) = against left records ++ concluded_of records

  unfoldable pub resolve_all : List ResolvableRecord → List ResolutionCandidate
  resolve_all records = ranked (concluded_of records)
