-- ===== src/Security/Cancel/Inherit.antt =====
-- How cancellation and deadlines spread along the tree of tokens of
-- crates/brolga-security/src/cancel.rs: down, never up, and never later.
use brolga.Prelude.{
  ℕ, ◌<◌, ◌≡◌, refl, ◌↔◌, Bool, true, false, ◌||◌, Option, none, some, [], ◌∷◌, arith, ◌==◌,
  if◌then◌else◌, length, Option-cases, inl, inr, ◌≢◌,
}
use brolga.Security.Cancel.{
  Inner, Heap, at_parent, earlier, is_past, requested, deadline_exceeded, is_flagged,
  effective_deadline, cancel, reason, remaining, child_with_budget, child, is_cancelled,
}

-- Whether `t` is `u` or an ancestor of it.
pub is_above : Heap → ℕ → ℕ → Bool
is_above [] t u = false
is_above (i ∷ h) t u = elim (u == length h) [
  | true ↦ t == u || at_parent false (is_above h t) i.parent
  | false ↦ is_above h t u
]

pub length-cancel : (t : ℕ) (h : Heap) → length (cancel t h) ≡ length h
unfolding cancel
length-cancel t [] = refl
length-cancel t (i ∷ h) = ground (arith, length-cancel t h)

is_above-lt : (h : Heap) (t u : ℕ) → is_above h t u ≡ true → t < length h
unfolding is_above
is_above-lt [] t u e = cc
is_above-lt (i ∷ h) t u e = elim (Option-cases i.parent) [
  | inl q ↦ ground (arith, is_above-lt h t u)
  | inr (p, q) ↦ ground (arith, is_above-lt h t u, is_above-lt h t p)
]

-- After `cancel t`, a token is flagged exactly when it was before or `t` is it or an ancestor of it.
pub is_flagged-cancel :
    (h : Heap) (t u : ℕ) → is_flagged (cancel t h) u ≡ (is_flagged h u || is_above h t u)
unfolding is_flagged cancel is_above
is_flagged-cancel [] t u = refl
is_flagged-cancel (i ∷ h) t u = elim (Option-cases i.parent) [
  | inl q ↦ ground (arith, is_flagged-cancel h t u, length-cancel t h, is_above-lt h t u)
  | inr (p, q) ↦ ground (
    arith,
    is_flagged-cancel h t u,
    is_flagged-cancel h t p,
    length-cancel t h,
    is_above-lt h t u,
    is_above-lt h t p,
  )
]

pub effective_deadline-cancel :
    (h : Heap) (t u : ℕ) → effective_deadline (cancel t h) u ≡ effective_deadline h u
unfolding effective_deadline cancel
effective_deadline-cancel [] t u = refl
effective_deadline-cancel (i ∷ h) t u = elim (Option-cases i.parent) [
  | inl q ↦ ground (arith, effective_deadline-cancel h t u, length-cancel t h)
  | inr (p, q) ↦
      ground
        (arith, effective_deadline-cancel h t u, effective_deadline-cancel h t p, length-cancel t h)
]

-- Cancelling `t` gives the reason `requested` to `t` and to every token below it, whatever their
-- deadlines, and leaves the reason of every other token as it was, at any time.
pub reason-cancel :
    (h : Heap) (now t u : ℕ)
    → reason (cancel t h) now u ≡ (if is_above h t u then some requested else reason h now u)
unfolding reason
reason-cancel h now t u =
    rw (is_flagged-cancel h t u, effective_deadline-cancel h t u) (ground arith)

-- A new entry changes nothing for the tokens that exist.
pub alloc_keeps :
    (i : Inner) (h : Heap) (u : ℕ)
    → u < length h
    → (is_flagged (i ∷ h) u ≡ is_flagged h u)
      × (effective_deadline (i ∷ h) u ≡ effective_deadline h u)
unfolding is_flagged effective_deadline
alloc_keeps i h u b = (ground arith, ground arith)

is_past-earlier :
    (now : ℕ) (a b : Option ℕ) → is_past now (earlier a b) ≡ (is_past now a || is_past now b)
is_past-earlier now none none = refl
is_past-earlier now none (some b) = refl
is_past-earlier now (some a) none = ground arith
is_past-earlier now (some a) (some b) = ground arith

pub is_cancelled-eq :
    (h : Heap) (now t : ℕ)
    → is_cancelled h now t ≡ (is_flagged h t || is_past now (effective_deadline h t))
unfolding is_cancelled reason
is_cancelled-eq h now t = ground arith

-- For a child with a budget, of a token that exists: at any later look it is cancelled exactly when
-- its parent is or its own deadline has passed; the parent stands as it stood.
child_with_budget-is_cancelled :
    (checked_add : ℕ → ℕ → Option ℕ) (h : Heap) (t now budget later : ℕ)
    → t < length h
    → let (h', c) = child_with_budget checked_add t now budget h in
      (is_cancelled h' later c ≡ (is_cancelled h later t || is_past later (checked_add now budget)))
      × (is_cancelled h' later t ≡ is_cancelled h later t)
unfolding child_with_budget is_flagged effective_deadline
child_with_budget-is_cancelled add h t now budget later b =
    let h' : Heap = (child_with_budget add t now budget h).0 in
    ground (
      arith,
      is_cancelled-eq h' later (length h),
      is_cancelled-eq h' later t,
      is_cancelled-eq h later t,
      is_past-earlier later (add now budget) (effective_deadline h t),
    )

-- A child without a budget of a token that exists has no deadline of its own: it is cancelled
-- exactly when its parent is, and cancelling it leaves the parent as it was.
pub child-is_cancelled :
    (h : Heap) (t later : ℕ)
    → t < length h
    → let (h', c) = child t h in
      (is_cancelled h' later c ≡ is_cancelled h later t)
      × (is_cancelled (cancel c h') later t ≡ is_cancelled h later t)
unfolding child is_flagged effective_deadline cancel
child-is_cancelled h t later b =
    let h' : Heap = (child t h).0 in
    ground (
      arith,
      is_cancelled-eq h' later (length h),
      is_cancelled-eq (cancel (length h) h') later t,
      is_cancelled-eq h later t,
      is_past-earlier later none (effective_deadline h t),
    )

-- For a token that nobody cancelled: it reports its deadline as exceeded exactly when it has no
-- time remaining, and reports no reason exactly when it has some or has no deadline.
pub remaining_iff :
    (h : Heap) (now t : ℕ)
    → is_flagged h t ≡ false
    → ((reason h now t ≡ some deadline_exceeded) ↔ (remaining h now t ≡ some 0))
      × ((reason h now t ≡ none) ↔ (remaining h now t ≢ some 0))
unfolding reason remaining
remaining_iff h now t f = elim (Option-cases (effective_deadline h t)) [
  | inl e ↦ ((λ q. ground arith, λ q. ground arith), (λ q. ground arith, λ q. ground arith))
  | inr (d, e) ↦ ((λ q. ground arith, λ q. ground arith), (λ q p. ground arith, λ q. ground arith))
]
