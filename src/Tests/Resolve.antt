-- ===== src/Tests/Resolve.antt =====
-- Runs of crates/brolga-graph/src/resolve.rs.
use brolga.Prelude.{
  ℕ, ◌==◌, ◌≡◌, ◌≢◌, refl, inl, Bool, true, false, Text, codes, text_leb, text_eq, Option, none,
  some, [], ◌∷◌, arith,
}
use brolga.Prelude.TextMap.{get, insert}
use brolga.Graph.Resolve.{
  OperationKind, merge, ManualOperation, pinned, ok, err, ResolutionState, new, apply, replay,
  replay_from, is_pinned, canonical_identity, is_blank, perform, merged, contains, ordered,
}
use brolga.Graph.Resolve.Chain.{IsRoot}
use brolga.Graph.Resolve.Merging.{replay-IsRoot, remerge_forgets}
use brolga.Graph.Resolve.Pinned.{pin_stands}

abbrev is_space : ℕ → Bool
is_space c = c == 32

abbrev a : Text
a = codes "a"

abbrev b : Text
b = codes "b"

abbrev c : Text
c = codes "c"

abbrev decision : OperationKind → Text → Option Text → ManualOperation
decision kind left right = record {
  kind = kind;
  left = left;
  right = right;
  actor = codes "alice";
  policy_context = codes "case 7";
  note = none;
  withdraws = false;
}

abbrev c_into_a : ManualOperation
c_into_a = decision merge c (some a)

abbrev c_into_b : ManualOperation
c_into_b = decision merge b (some c)

abbrev after_first : ResolutionState
after_first = record {
  aliases = [];
  rejections = [];
  pins = [];
  merges = (c, a) ∷ [];
  history = c_into_a ∷ [];
}

abbrev after_both : ResolutionState
after_both = record {
  aliases = [];
  rejections = [];
  pins = [];
  merges = (c, b) ∷ [];
  history = c_into_a ∷ c_into_b ∷ [];
}

replay_first : replay is_space (c_into_a ∷ []) ≡ ok after_first
unfolding replay new replay_from apply is_blank perform merged contains insert ordered text_leb
replay_first = refl

replay-IsRoot_example :
    IsRoot after_first.merges (canonical_identity after_first c)
    × (text_leb (canonical_identity after_first c) c ≡ true)
    × (canonical_identity after_first (canonical_identity after_first c)
        ≡ canonical_identity after_first c)
replay-IsRoot_example = replay-IsRoot is_space (c_into_a ∷ []) after_first c replay_first

apply_first : apply is_space new c_into_a ≡ ok after_first
unfolding apply new is_blank perform merged contains insert ordered text_leb
apply_first = refl

apply_second : apply is_space after_first c_into_b ≡ ok after_both
unfolding apply is_blank perform merged contains insert text_eq ordered text_leb
apply_second = refl

replay_none : replay is_space [] ≡ ok new
unfolding replay new replay_from
replay_none = refl

-- The second merge replaces the first.
remerge_forgets_example :
    (canonical_identity after_first c ≡ canonical_identity after_first a)
    × (canonical_identity after_both a ≢ canonical_identity after_both c)
unfolding new get ordered text_leb
remerge_forgets_example =
    remerge_forgets is_space new after_first after_both c_into_a c_into_b a b c
      (λ k v e. ground arith) (inl refl) (inl refl) (λ e. ground arith) (λ e. ground arith)
      (λ e. ground arith) apply_first refl refl apply_second refl refl

abbrev refused_pair : ResolutionState
refused_pair = record {
  aliases = [];
  rejections = (a, b) ∷ [];
  pins = a ∷ [];
  merges = [];
  history = [];
}

abbrev refused_after : ResolutionState
refused_after = record {
  aliases = [];
  rejections = (a, b) ∷ [];
  pins = a ∷ [];
  merges = (c, b) ∷ [];
  history = c_into_b ∷ [];
}

replay_refused : replay_from is_space refused_pair (c_into_b ∷ []) ≡ ok refused_after
unfolding replay_from apply is_blank perform merged contains text_eq insert ordered text_leb
replay_refused = refl

pin_stands_example : (is_pinned refused_after a ≡ true) × (canonical_identity refused_after a ≡ a)
unfolding is_pinned contains text_eq get
pin_stands_example =
    pin_stands is_space refused_pair refused_after (c_into_b ∷ []) a
      ((λ w. ground (arith, w.0)), tt) replay_refused refl refl

-- A pin refuses a merge that another analyst asks for.
merge_of_pinned : apply is_space refused_pair c_into_a ≡ err (pinned a)
unfolding apply is_blank perform merged contains text_eq
merge_of_pinned = refl
