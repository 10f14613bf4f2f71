-- ===== src/Tests/Resolver.antt =====
-- Runs of `Resolver` of crates/brolga-graph/src/resolve.rs.
use brolga.Prelude.{
  ◌==◌, ◌||◌, ◌&&◌, leb, ◌≡◌, ◌↔◌, refl, false, codes, text_eq, text_leb, to_ascii_lowercase, [],
  ◌∷◌,
}
use brolga.Prelude.TextMap.{get}
use brolga.Graph.Resolve.{
  ok, ResolutionState, replay_from, is_rejected, is_pinned, is_alias, contains_pair, ordered,
  contains,
}
use brolga.Graph.Resolve.Signals.{
  Characters, ResolvableRecord, identifier_signals, external_signals, alias_signals, name_signals,
  normalised, bounded, can_merge_alone, shares_a_token,
}
use brolga.Graph.Resolve.Resolver.{
  candidate, merged, rejected, resolve, resolve_ordered, signals_of, sorted, place, any_decisive,
  greatest,
}
use brolga.Graph.Resolve.Decisive.{Identified, IsMap}
use brolga.Graph.Resolve.Outcome.{resolve-merged_iff, resolve_rejected}

-- The letters and digits of ASCII.
abbrev ascii : Characters
ascii = record {
  is_alphanumeric =
      λ c. (leb 48 c && leb c 57) || ((leb 65 c && leb c 90) || (leb 97 c && leb c 122));
  is_control = λ c. leb c 31;
  to_lowercase = λ c. to_ascii_lowercase (c ∷ []);
  text_to_lowercase = to_ascii_lowercase;
}

-- Two records of one authority's identifier, and one with no more than the name.
abbrev group : ResolvableRecord
group = record {
  id = codes "a";
  kind = 0;
  name = codes "APT28";
  external_ids = (codes "mitre", codes "G0007") ∷ [];
}

abbrev sofacy : ResolvableRecord
sofacy = record {
  id = codes "b";
  kind = 0;
  name = codes "Sofacy";
  external_ids = (codes "mitre", codes "G0007") ∷ [];
}

abbrev namesake : ResolvableRecord
namesake = record { id = codes "c"; kind = 0; name = codes "apt-28"; external_ids = [] }

abbrev undecided : ResolutionState
undecided = record { aliases = []; rejections = []; pins = []; merges = []; history = [] }

abbrev refused : ResolutionState
refused = record {
  aliases = [];
  rejections = (codes "a", codes "b") ∷ [];
  pins = [];
  merges = [];
  history = [];
}

group-IsMap : IsMap group.external_ids
unfolding get
group-IsMap = (refl, tt)

sofacy-IsMap : IsMap sofacy.external_ids
unfolding get
sofacy-IsMap = (refl, tt)

resolve-merged_iff_example : ((resolve ascii undecided group sofacy).outcome ≡ merged) ↔ (
    (is_rejected undecided group.id sofacy.id ≡ false)
    × (is_pinned undecided group.id ≡ false)
    × (is_pinned undecided sofacy.id ≡ false)
    × Identified undecided group sofacy)
resolve-merged_iff_example =
    resolve-merged_iff ascii undecided group sofacy group-IsMap sofacy-IsMap

replay_refused : replay_from (λ c. c == 32) refused [] ≡ ok refused
unfolding replay_from
replay_refused = refl

resolve_rejected_example : (resolve ascii refused group sofacy).outcome ≡ rejected
unfolding is_rejected contains_pair text_eq ordered text_leb
resolve_rejected_example =
    resolve_rejected ascii (λ c. c == 32) refused refused [] group sofacy tt replay_refused refl

-- The same authority's identifier merges two records, a name does not.
shared_identifier : (resolve ascii undecided group sofacy).outcome ≡ merged
unfolding resolve resolve_ordered text_leb is_rejected contains_pair signals_of sorted
    identifier_signals text_eq external_signals get alias_signals is_alias name_signals normalised
    to_ascii_lowercase place any_decisive greatest bounded can_merge_alone shares_a_token contains
    is_pinned ordered
shared_identifier = refl

same_name : (resolve ascii undecided group namesake).outcome ≡ candidate
unfolding resolve resolve_ordered text_leb is_rejected contains_pair signals_of sorted
    identifier_signals text_eq external_signals get alias_signals is_alias name_signals normalised
    to_ascii_lowercase place any_decisive greatest bounded can_merge_alone shares_a_token contains
    is_pinned ordered
same_name = refl

same_name_score : (resolve ascii undecided group namesake).score ≡ 60
unfolding resolve resolve_ordered text_leb is_rejected contains_pair signals_of sorted
    identifier_signals text_eq external_signals get alias_signals is_alias name_signals normalised
    to_ascii_lowercase place any_decisive greatest bounded can_merge_alone shares_a_token contains
    is_pinned ordered
same_name_score = refl
