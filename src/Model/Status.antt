-- ===== src/Model/Status.antt =====
-- crates/brolga-model/src/status.rs, `LifecycleStatus`.
use brolga.Prelude.{ℕ, ◌≡◌, refl, Bool, true, false, some, List, [], ◌∷◌, Text, codes, text_eq}
use brolga.Model.Vocabulary.{Vocabulary, find_named, nth}

pub data LifecycleStatus : Type 0 where
  active revoked superseded expired deprecated : LifecycleStatus

abbrev pub all : List LifecycleStatus
all = active ∷ revoked ∷ superseded ∷ expired ∷ deprecated ∷ []

abbrev pub as_str : LifecycleStatus → Text
as_str active = codes "active"
as_str revoked = codes "revoked"
as_str superseded = codes "superseded"
as_str expired = codes "expired"
as_str deprecated = codes "deprecated"

-- The derived order, as that of a number.
abbrev pub rank : LifecycleStatus → ℕ
rank active = 0
rank revoked = 1
rank superseded = 2
rank expired = 3
rank deprecated = 4

unfoldable pub is_current : LifecycleStatus → Bool
is_current active = true
is_current deprecated = true
is_current _ = false

pub LifecycleStatus-named : (a : LifecycleStatus) → find_named as_str (as_str a) all ≡ some a
unfolding text_eq
LifecycleStatus-named active = refl
LifecycleStatus-named revoked = refl
LifecycleStatus-named superseded = refl
LifecycleStatus-named expired = refl
LifecycleStatus-named deprecated = refl

pub LifecycleStatus-ranked : (a : LifecycleStatus) → nth all (rank a) ≡ some a
LifecycleStatus-ranked active = refl
LifecycleStatus-ranked revoked = refl
LifecycleStatus-ranked superseded = refl
LifecycleStatus-ranked expired = refl
LifecycleStatus-ranked deprecated = refl

abbrev pub lifecycle_statuses : Vocabulary LifecycleStatus
lifecycle_statuses = record {
  all = all;
  as_str = as_str;
  rank = rank;
  named = LifecycleStatus-named;
  ranked = LifecycleStatus-ranked;
}
