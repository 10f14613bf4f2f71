-- ===== src/Connectors/Sync/Rounds.antt =====
-- A `loop` as its round, run on fuel, and the rule that proves what it returns.
use brolga.Prelude.{ℕ, zero, suc, Option, none, some}

pub data Round (S O : Type 0) : Type 0 where
  done : O → Round S O
  again : S → Round S O

-- That the loop returned, with this of what it returned.
abbrev pub Returns : {O : Type 0} → (O → Type 0) → Option O → Type 0
Returns P none = ⊥
Returns P (some o) = P o

module _ {S O : Type 0} where
  abbrev pub continue : (S → Option O) → Round S O → Option O
  continue k (done o) = some o
  continue k (again s) = k s

  unfoldable pub rounds : (S → Round S O) → ℕ → S → Option O
  rounds round zero s = none
  rounds round (suc n) s = continue (rounds round n) (round s)

  abbrev pub Leads : (O → Type 0) → (S → Type 0) → Round S O → Type 0
  Leads P Next (done o) = P o
  Leads P Next (again s) = Next s

  Leads-Returns :
      (P : O → Type 0) (Next : S → Type 0) (k : S → Option O) (r : Round S O)
      → ((s : S) → Next s → Returns P (k s))
      → Leads P Next r
      → Returns P (continue k r)
  Leads-Returns P Next k (done o) f h = h
  Leads-Returns P Next k (again s) f h = f s h

  -- `Inv n` is what holds before a round that n more may follow.
  pub rounds-Returns :
      (P : O → Type 0) (Inv : ℕ → S → Type 0) (round : S → Round S O)
      → ((s : S) → Inv zero s → ⊥)
      → ((n : ℕ) (s : S) → Inv (suc n) s → Leads P (Inv n) (round s))
      → (n : ℕ) (s : S) → Inv n s
      → Returns P (rounds round n s)
  unfolding rounds
  rounds-Returns P Inv round stop keeps zero s h = stop s h
  rounds-Returns P Inv round stop keeps (suc n) s h =
      Leads-Returns P (Inv n) (rounds round n) (round s) (rounds-Returns P Inv round stop keeps n)
        (keeps n s h)

pub Returns-map :
    {O : Type 0} (P Q : O → Type 0) (o : Option O)
    → ((x : O) → P x → Q x)
    → Returns P o
    → Returns Q o
Returns-map P Q none f h = h
Returns-map P Q (some x) f h = f x h
