-- ===== src/Graph/Budget.antt =====
-- crates/brolga-graph/src/budget.rs: fitting a pack into explicit limits.
-- `started.elapsed()` is read once for each item and once at the end: `clock n` is the reading
-- number `n`, in whole milliseconds. A `BTreeMap<Dimension, bool>` that only ever holds `true` is the
-- list of its keys, and a map from sections is a list of pairs.
pub mod Fit
pub mod Loop
pub mod Required
pub mod Afford
pub mod Report
pub mod Sections
use Prim.Native.Nat.{min}
use brolga.Prelude.{
  ℕ, ◌+◌, ◌-◌, ◌/◌, String, Text, Bool, true, false, ◌||◌, Option, none, List, [], ◌∷◌, ◌==◌,
  if◌then◌else◌, u64_max, length, ◌≡◌, refl, ◌⊎◌, inl, inr,
}

pub data Dimension : Type 0 where
  tokens bytes objects relationships depth time : Dimension

-- `Dimension`'s derived order and equality.
abbrev pub rank : Dimension → ℕ
rank tokens = 0
rank bytes = 1
rank objects = 2
rank relationships = 3
rank depth = 4
rank time = 5

abbrev pub dimension_eq : Dimension → Dimension → Bool
dimension_eq d e = rank d == rank e

pub record Limits : Type 0 where
  pub tokens : Option ℕ
  pub bytes : Option ℕ
  pub objects : Option ℕ
  pub relationships : Option ℕ
  pub depth : Option ℕ
  pub time_ms : Option ℕ

abbrev pub unlimited : Limits
unlimited = record {
  tokens = none;
  bytes = none;
  objects = none;
  relationships = none;
  depth = none;
  time_ms = none;
}

pub data BudgetFailure : Type 0 where
  required_does_not_fit : String → Dimension → ℕ → ℕ → BudgetFailure
  deadline_before_required : ℕ → BudgetFailure

pub data Result {ℓ} (A : Type ℓ) : Type ℓ where
  ok : A → Result A
  err : BudgetFailure → Result A

pub ok-injective {ℓ} : {A : Type ℓ} {a b : A} → ok a ≡ ok b → a ≡ b
ok-injective h = cc

pub Result-cases {ℓ} :
    {A : Type ℓ} (r : Result A) → ((a : A) × (r ≡ ok a)) ⊎ ((e : BudgetFailure) × (r ≡ err e))
Result-cases (ok a) = inl (a, refl)
Result-cases (err e) = inr (e, refl)

pub record Item : Type 0 where
  pub id : String
  pub section : String
  pub bytes : ℕ
  pub tokens : ℕ
  pub is_relationship : Bool
  pub required : Bool

-- A tokeniser; a deployment may supply its own.
pub record TokenEstimator : Type 0 where
  pub estimate : Text → ℕ
  pub name : String
  pub is_exact : Bool

abbrev pub bytes_per_token : ℕ
bytes_per_token = 4

-- `HeuristicTokens`: the text's bytes by `BYTES_PER_TOKEN`, rounded up by `div_ceil`.
unfoldable pub heuristic_tokens : TokenEstimator
heuristic_tokens = record {
  estimate = λ text. (min u64_max (length text) + (bytes_per_token - 1)) / bytes_per_token;
  name = "heuristic.bytes_per_token";
  is_exact = false;
}

-- `Item::measure`, of the bytes of the serialised text.
unfoldable pub measure : String → String → Text → TokenEstimator → Item
measure id section text estimator = record {
  id = id;
  section = section;
  bytes = min u64_max (length text);
  tokens = estimator.estimate text;
  is_relationship = false;
  required = false;
}

pub record Spend : Type 0 where
  pub requested : Option ℕ
  pub estimated : ℕ
  pub binding : Bool

pub record Fitted : Type 0 where
  pub kept : List String
  pub dropped : List (String × Dimension)
  pub spend : List (Dimension × Spend)
  pub estimator : String
  pub exact : Bool

abbrev pub contains : Dimension → List Dimension → Bool
contains d [] = false
contains d (e ∷ es) = dimension_eq e d || contains d es

binding_of : List (Dimension × Spend) → List Dimension
binding_of [] = []
binding_of ((d, s) ∷ rest) = let more = binding_of rest in if s.binding then d ∷ more else more

-- `Fitted::binding`
unfoldable pub binding : Fitted → List Dimension
unfolding binding_of
binding f = binding_of f.spend

-- `Fitted::is_truncated`
unfoldable pub is_truncated : Fitted → Bool
is_truncated f = elim f.dropped [ [] ↦ false | _ ∷ _ ↦ true ]
