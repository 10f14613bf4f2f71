-- ===== src/Security/Cancel/History.antt =====
-- Any sequence of operations on tokens of crates/brolga-security/src/cancel.rs, by any of their
-- holders and in any order: a token that was cancelled stays so.
use brolga.Prelude.{ℕ, ◌≤◌, ◌<◌, ◌≡◌, ◌∙◌, true, Option, none, some, ◌∷◌, arith, length}
use brolga.Security.Cancel.{
  Inner, Heap, never_cancelled, with_budget, child_with_budget, child, cancel, is_flagged,
  effective_deadline, is_past, is_cancelled,
}
use brolga.Security.Cancel.Inherit.{
  alloc_keeps, is_flagged-cancel, effective_deadline-cancel, length-cancel, is_cancelled-eq,
}

-- What a holder of tokens may do; a parent must exist.
pub data Step (checked_add : ℕ → ℕ → Option ℕ) (h : Heap) : Heap → Type 0 where
  start : Step checked_add h (never_cancelled h).0
  start_budget : (now budget : ℕ) → Step checked_add h (with_budget checked_add now budget h).0
  fork : (t : ℕ) → t < length h → Step checked_add h (child t h).0
  fork_budget :
      (t now budget : ℕ)
      → t < length h
      → Step checked_add h (child_with_budget checked_add t now budget h).0
  stop : (t : ℕ) → Step checked_add h (cancel t h)

pub data Reach (checked_add : ℕ → ℕ → Option ℕ) (h : Heap) : Heap → Type 0 where
  here : Reach checked_add h h
  next : {k l : Heap} → Reach checked_add h k → Step checked_add k l → Reach checked_add h l

-- What a later heap keeps of a token.
record Keeps (h k : Heap) (u : ℕ) : Type 0 where
  still_there : u < length k
  flag : is_flagged h u ≡ true → is_flagged k u ≡ true
  deadline : effective_deadline k u ≡ effective_deadline h u

alloc-Keeps : (i : Inner) (h : Heap) (u : ℕ) → u < length h → Keeps h (i ∷ h) u
alloc-Keeps i h u b = ground (arith, alloc_keeps i h u b)

Step-Keeps :
    {add : ℕ → ℕ → Option ℕ} {h k : Heap} (u : ℕ) → Step add h k → u < length h → Keeps h k u
unfolding never_cancelled with_budget child child_with_budget
Step-Keeps {h = h} u start b = alloc-Keeps _ h u b
Step-Keeps {h = h} u (start_budget now budget) b = alloc-Keeps _ h u b
Step-Keeps {h = h} u (fork t p) b = alloc-Keeps _ h u b
Step-Keeps {h = h} u (fork_budget t now budget p) b = alloc-Keeps _ h u b
Step-Keeps {h = h} u (stop t) b =
    ground (arith, is_flagged-cancel h t u, effective_deadline-cancel h t u, length-cancel t h)

Reach-Keeps :
    {add : ℕ → ℕ → Option ℕ} {h k : Heap} (u : ℕ) → Reach add h k → u < length h → Keeps h k u
Reach-Keeps u here b = ground arith
Reach-Keeps {h = h} u (next {k = k} {l = l} r s) b =
    let p = Reach-Keeps u r b in
    let q = Step-Keeps u s p.still_there in
    record {
      still_there = q.still_there;
      flag = λ f. q.flag (p.flag f);
      deadline = q.deadline ∙ p.deadline;
    }

is_past_mono :
    {now later : ℕ} (d : Option ℕ) → now ≤ later → is_past now d ≡ true → is_past later d ≡ true
is_past_mono none h p = p
is_past_mono (some d) h p = ground arith

-- Whatever operations follow, and however the tokens are shared, a token that exists and reports
-- itself cancelled reports itself cancelled at every later time.
pub stays_cancelled :
    (checked_add : ℕ → ℕ → Option ℕ) (h k : Heap) (u now later : ℕ)
    → u < length h
    → now ≤ later
    → Reach checked_add h k
    → is_cancelled h now u ≡ true
    → is_cancelled k later u ≡ true
stays_cancelled add h k u now later b le r c =
    let p = Reach-Keeps u r b in
    ground (
      arith,
      p.flag,
      p.deadline,
      is_cancelled-eq h now u,
      is_cancelled-eq k later u,
      is_past_mono {now = now} {later = later} (effective_deadline h u) le,
    )
