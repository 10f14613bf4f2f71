-- ===== src/Security/Cancel.antt =====
-- crates/brolga-security/src/cancel.rs: cancellation tokens.
-- A token is an `Arc<Inner>`, shared by its clones and by its children: here an address in a heap
-- of `Inner`s, the latest first, so that the address of an entry is the number of entries behind
-- it. A parent is allocated before its child, so its address is looked for among those. A `Relaxed`
-- load reads the latest store; `Instant`s are numbers, and `Instant::checked_add`, the platform's,
-- is a parameter.
pub mod Inherit
pub mod History
use brolga.Prelude.{
  ℕ, ◌-◌, Bool, true, false, ◌||◌, Option, none, some, List, [], ◌∷◌, leb, ◌==◌, if◌then◌else◌,
  length, is_some,
}
use Prim.Native.Nat.{min}

pub data Cancelled : Type 0 where
  requested deadline_exceeded : Cancelled

pub record Inner : Type 0 where
  pub cancelled : Bool
  pub deadline : Option ℕ
  pub parent : Option ℕ

abbrev pub Heap : Type 0
Heap = List Inner

-- What a test on the parent gives, if there is one.
abbrev pub at_parent {ℓ} : {A : Type ℓ} → A → (ℕ → A) → Option ℕ → A
at_parent a f none = a
at_parent a f (some p) = f p

-- `Inner::is_cancelled`: this flag, or one further up.
unfoldable pub is_flagged : Heap → ℕ → Bool
is_flagged [] t = false
is_flagged (i ∷ h) t = elim (t == length h) [
  | true ↦ i.cancelled || at_parent false (is_flagged h) i.parent
  | false ↦ is_flagged h t
]

abbrev pub earlier : Option ℕ → Option ℕ → Option ℕ
earlier (some own) (some inherited) = some (min own inherited)
earlier (some only) none = some only
earlier none (some only) = some only
earlier none none = none

-- `Inner::effective_deadline`: the earliest of this deadline and those further up.
unfoldable pub effective_deadline : Heap → ℕ → Option ℕ
effective_deadline [] t = none
effective_deadline (i ∷ h) t = elim (t == length h) [
  | true ↦ earlier i.deadline (at_parent none (effective_deadline h) i.parent)
  | false ↦ effective_deadline h t
]

-- `Arc::new(Inner { .. })`: the new heap and the token's address.
alloc : Inner → Heap → Heap × ℕ
alloc i h = (i ∷ h, length h)

unfoldable pub never_cancelled : Heap → Heap × ℕ
unfolding alloc
never_cancelled = alloc (record { cancelled = false; deadline = none; parent = none })

module _ (checked_add : ℕ → ℕ → Option ℕ) where
  unfoldable pub with_budget : ℕ → ℕ → Heap → Heap × ℕ
  unfolding alloc
  with_budget now budget =
      alloc (record { cancelled = false; deadline = checked_add now budget; parent = none })

  unfoldable pub child_with_budget : ℕ → ℕ → ℕ → Heap → Heap × ℕ
  unfolding alloc
  child_with_budget t now budget =
      alloc (record { cancelled = false; deadline = checked_add now budget; parent = some t })

unfoldable pub child : ℕ → Heap → Heap × ℕ
unfolding alloc
child t = alloc (record { cancelled = false; deadline = none; parent = some t })

-- `cancel`: the store to the shared flag.
unfoldable pub cancel : ℕ → Heap → Heap
cancel t [] = []
cancel t (i ∷ h) = if t == length h then record i { cancelled = true } ∷ h else i ∷ cancel t h

unfoldable pub already_cancelled : Heap → Heap × ℕ
unfolding never_cancelled cancel
already_cancelled h = let (h', t) = never_cancelled h in (cancel t h', t)

abbrev pub is_past : ℕ → Option ℕ → Bool
is_past now none = false
is_past now (some deadline) = leb deadline now

unfoldable pub reason : Heap → ℕ → ℕ → Option Cancelled
reason h now t =
    if is_flagged h t
    then some requested
    else if is_past now (effective_deadline h t)
    then some deadline_exceeded
    else none

unfoldable pub is_cancelled : Heap → ℕ → ℕ → Bool
is_cancelled h now t = is_some (reason h now t)

-- `remaining`: what `checked_duration_since` gives, and zero once the deadline has passed.
unfoldable pub remaining : Heap → ℕ → ℕ → Option ℕ
remaining h now t = elim (effective_deadline h t) [ none ↦ none | some d ↦ some (d - now) ]

unfoldable pub has_deadline : Heap → ℕ → Bool
has_deadline h t = is_some (effective_deadline h t)
