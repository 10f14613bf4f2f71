-- ===== src/Graph/Budget/Fit.antt =====
-- crates/brolga-graph/src/budget.rs, `fit` and `exceeds`.
use brolga.Prelude.{
  ℕ, suc, ◌-◌, String, str_eq, Bool, true, false, ◌&&◌, not, Option, none, some, List, [], ◌∷◌,
  ◌++◌, leb, ltb, if◌then◌else◌, length, saturating_add,
}
use Prim.Native.Nat.{min}
use brolga.Prelude.{u64_max}
use brolga.Graph.Budget.{
  Dimension, tokens, bytes, objects, relationships, time, Limits, TokenEstimator,
  required_does_not_fit, deadline_before_required, Result, ok, err, Item, Spend, Fitted, contains,
}

-- The local variables of `fit`'s loop.
pub record Fitting : Type 0 where
  pub used_tokens : ℕ
  pub used_bytes : ℕ
  pub used_objects : ℕ
  pub used_relationships : ℕ
  pub kept : List String
  pub dropped : List (String × Dimension)
  pub binding : List Dimension
  pub closed : List (String × Dimension)

unfoldable pub start : Fitting
start = record {
  used_tokens = 0;
  used_bytes = 0;
  used_objects = 0;
  used_relationships = 0;
  kept = [];
  dropped = [];
  binding = [];
  closed = [];
}

abbrev pub lookup : String → List (String × Dimension) → Option Dimension
lookup k [] = none
lookup k ((j, d) ∷ m) = if str_eq j k then some d else lookup k m

-- Whether `used + more` passes a limit, if there is one.
abbrev pub over : Option ℕ → ℕ → ℕ → Bool
over none used more = false
over (some limit) used more = ltb limit (saturating_add used more)

-- What a limit leaves.
abbrev pub left : Option ℕ → ℕ → ℕ
left none used = 0
left (some limit) used = limit - used

-- Which budget an item would exceed, with what it needs and what remains.
unfoldable pub exceeds : Item → Limits → Fitting → Option (Dimension × ℕ × ℕ)
exceeds i l s =
    if over l.tokens s.used_tokens i.tokens
    then some (tokens, i.tokens, left l.tokens s.used_tokens)
    else if over l.bytes s.used_bytes i.bytes
    then some (bytes, i.bytes, left l.bytes s.used_bytes)
    else if over l.objects s.used_objects 1
    then some (objects, 1, left l.objects s.used_objects)
    else if i.is_relationship && over l.relationships s.used_relationships 1
    then some (relationships, 1, left l.relationships s.used_relationships)
    else none

-- The deadline that has passed, if one has.
abbrev pub missed : Option ℕ → ℕ → Option ℕ
missed none elapsed = none
missed (some limit_ms) elapsed = if leb limit_ms elapsed then some limit_ms else none

unfoldable pub keep : Item → Fitting → Fitting
keep i s = record s {
  used_tokens = saturating_add s.used_tokens i.tokens;
  used_bytes = saturating_add s.used_bytes i.bytes;
  used_objects = saturating_add s.used_objects 1;
  used_relationships =
      if i.is_relationship then saturating_add s.used_relationships 1 else s.used_relationships;
  kept = s.kept ++ i.id ∷ [];
}

unfoldable pub drop : Item → Dimension → Fitting → Fitting
drop i d s = record s { dropped = s.dropped ++ (i.id, d) ∷ [] }

-- The body of the loop after the deadline and the closed sections: the budgets.
unfoldable pub weigh : Limits → Fitting → Item → Result Fitting
unfolding keep drop
weigh l s i = elim (exceeds i l s) [
  | none ↦ ok (keep i s)
  | some (d, needed, available) ↦
      if i.required
      then err (required_does_not_fit i.id d needed available)
      else ok (drop i d (record s { binding = d ∷ s.binding; closed = (i.section, d) ∷ s.closed }))
]

-- The body of the loop after the deadline.
unfoldable pub admit : Limits → Fitting → Item → Result Fitting
unfolding weigh drop
admit l s i = elim (lookup i.section s.closed) [
  | some d ↦ if i.required then weigh l s i else ok (drop i d s)
  | none ↦ weigh l s i
]

-- One round of the loop, at a reading of the clock.
unfoldable pub step : Limits → ℕ → Fitting → Item → Result Fitting
unfolding admit drop
step l elapsed s i = elim (missed l.time_ms elapsed) [
  | some limit_ms ↦
      if i.required
      then err (deadline_before_required limit_ms)
      else ok (drop i time (record s { binding = time ∷ s.binding }))
  | none ↦ admit l s i
]

-- The rounds, from reading number `n` on.
unfoldable pub rounds : Limits → (ℕ → ℕ) → ℕ → Fitting → List Item → Result Fitting
rounds l clock n s [] = ok s
rounds l clock n s (i ∷ is) = elim (step l (clock n) s i) [
  | ok t ↦ rounds l clock (suc n) t is
  | err e ↦ err e
]

abbrev pub select : Bool → List Item → List Item
select b [] = []
select b (i ∷ is) =
    if (if b then i.required else not i.required) then i ∷ select b is else select b is

-- Required items first, each part in its given order.
unfoldable pub ordered : List Item → List Item
ordered items = select true items ++ select false items

abbrev pub spend_of : Limits → ℕ → Fitting → List (Dimension × Spend)
spend_of l elapsed s =
    (
      tokens,
      record {
        requested = l.tokens;
        estimated = s.used_tokens;
        binding = contains tokens s.binding;
      },
    )
    ∷ (
      bytes,
      record { requested = l.bytes; estimated = s.used_bytes; binding = contains bytes s.binding },
    )
    ∷ (
      objects,
      record {
        requested = l.objects;
        estimated = s.used_objects;
        binding = contains objects s.binding;
      },
    )
    ∷ (
      relationships,
      record {
        requested = l.relationships;
        estimated = s.used_relationships;
        binding = contains relationships s.binding;
      },
    )
    ∷ (
      time,
      record {
        requested = l.time_ms;
        estimated = min u64_max elapsed;
        binding = contains time s.binding;
      },
    )
    ∷ []

abbrev pub report : Limits → TokenEstimator → ℕ → Fitting → Fitted
report l estimator elapsed s = record {
  kept = s.kept;
  dropped = s.dropped;
  spend = spend_of l elapsed s;
  estimator = estimator.name;
  exact = estimator.is_exact;
}

unfoldable pub fit : List Item → Limits → TokenEstimator → (ℕ → ℕ) → Result Fitted
fit items l estimator clock = elim (rounds l clock 0 start (ordered items)) [
  | ok s ↦ ok (report l estimator (clock (length items)) s)
  | err e ↦ err e
]
