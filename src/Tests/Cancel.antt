-- ===== src/Tests/Cancel.antt =====
-- Runs of crates/brolga-security/src/cancel.rs.
use brolga.Prelude.{
  ℕ, ◌+◌, ◌≡◌, refl, true, false, Option, none, some, [], ◌∷◌, arith, if◌then◌else◌,
}
use brolga.Security.Cancel.{
  Heap, requested, deadline_exceeded, is_flagged, effective_deadline, child, cancel, reason,
  is_cancelled,
}
use brolga.Security.Cancel.Inherit.{is_above, reason-cancel}
use brolga.Security.Cancel.History.{here, next, fork, stop, stays_cancelled}

abbrev add_instant : ℕ → ℕ → Option ℕ
add_instant now budget = some (now + budget)

-- A token, its child with a budget of 50 from time 10, and an unrelated token.
abbrev family : Heap
family =
    record { cancelled = false; deadline = none; parent = none }
    ∷ record { cancelled = false; deadline = some 60; parent = some 0 }
    ∷ record { cancelled = false; deadline = none; parent = none }
    ∷ []

stops_child : reason (cancel 0 family) 20 1 ≡ some requested
unfolding reason cancel is_flagged effective_deadline
stops_child = refl

deadline_passes : reason family 60 1 ≡ some deadline_exceeded
unfolding reason is_flagged effective_deadline
deadline_passes = refl

reason-cancel_example :
    reason (cancel 0 family) 20 1
    ≡ (if is_above family 0 1 then some requested else reason family 20 1)
reason-cancel_example = reason-cancel family 20 0 1

stays_cancelled_example : is_cancelled (cancel 2 (child 1 family).0) 80 1 ≡ true
unfolding is_cancelled reason is_flagged effective_deadline
stays_cancelled_example =
    stays_cancelled add_instant family _ 1 60 80 (omega arith) (omega arith)
      (next (next here (fork 1 (omega arith))) (stop 2)) refl
