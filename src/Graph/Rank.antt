-- ===== src/Graph/Rank.antt =====
-- crates/brolga-graph/src/rank.rs: which candidates a section of a pack keeps.
-- A `BTreeMap<Factor, u8>` is the function of its lookup. Texts that only say a number or two are
-- kept as those numbers.
pub mod Plan
pub mod Scores
pub mod Sorting
pub mod Inert
pub mod Placed
pub mod Kept
pub mod Ascending
pub mod Groups
pub mod Clusters
pub mod Represented
pub mod Claims
use brolga.Prelude.{
  u32_max, ℕ, zero, suc, ◌+◌, ◌-◌, ◌*◌, ◌/◌, ◌^◌, Bool, true, false, ◌&&◌, ◌||◌, not, Option, none,
  some, List, [], ◌∷◌, map, Text, codes, text_eq, text_leb, leb, ltb, ◌==◌, if◌then◌else◌,
}
use Prim.Native.Nat.{min}

pub data Factor : Type 0 where
  confidence freshness corroboration novelty quality actionability cost : Factor

abbrev pub factors : List Factor
factors = confidence ∷ freshness ∷ corroboration ∷ novelty ∷ quality ∷ actionability ∷ cost ∷ []

unfoldable pub as_str : Factor → Text
as_str confidence = codes "confidence"
as_str freshness = codes "freshness"
as_str corroboration = codes "corroboration"
as_str novelty = codes "novelty"
as_str quality = codes "quality"
as_str actionability = codes "actionability"
as_str cost = codes "cost"

abbrev pub is_cost : Factor → Bool
is_cost cost = true
is_cost _ = false

-- The derived equality.
abbrev pub factor_eq : Factor → Factor → Bool
factor_eq confidence confidence = true
factor_eq freshness freshness = true
factor_eq corroboration corroboration = true
factor_eq novelty novelty = true
factor_eq quality quality = true
factor_eq actionability actionability = true
factor_eq cost cost = true
factor_eq _ _ = false

abbrev pub FactorMap : Type 0
FactorMap = Factor → Option ℕ

abbrev pub factor_insert : Factor → ℕ → FactorMap → FactorMap
factor_insert f v m g = if factor_eq f g then some v else m g

abbrev pub or_zero : Option ℕ → ℕ
or_zero none = 0
or_zero (some v) = v

pub record FactorWeights : Type 0 where
  pub weights : FactorMap

abbrev balanced_weight : Factor → ℕ
balanced_weight confidence = 90
balanced_weight corroboration = 80
balanced_weight freshness = 70
balanced_weight actionability = 60
balanced_weight quality = 50
balanced_weight novelty = 40
balanced_weight cost = 30

abbrev pub balanced : FactorWeights
balanced = record { weights = λ f. some (balanced_weight f) }

-- `FactorWeights::none`
abbrev pub no_weights : FactorWeights
no_weights = record { weights = λ f. some 0 }

-- `FactorWeights::with`
abbrev pub with_weight : Factor → ℕ → FactorWeights → FactorWeights
with_weight f w ws = record { weights = factor_insert f (min w 100) ws.weights }

abbrev pub weight : FactorWeights → Factor → ℕ
weight ws f = or_zero (ws.weights f)

abbrev pub weigh_nothing : FactorWeights → List Factor → Bool
weigh_nothing ws [] = true
weigh_nothing ws (f ∷ fs) = weight ws f == 0 && weigh_nothing ws fs

unfoldable pub is_inert : FactorWeights → Bool
is_inert ws = weigh_nothing ws factors

-- Why a record was excluded is that it ranked below the limit of this many.
pub data Verdict : Type 0 where
  included : Verdict
  excluded : (keep : ℕ) → Verdict
  protected : (reason : Text) → Verdict
  clustered : (representative : Text) → Verdict

abbrev pub is_kept : Verdict → Bool
is_kept included = true
is_kept (protected reason) = true
is_kept (excluded keep) = false
is_kept (clustered representative) = false

pub record Ranked : Type 0 where
  pub id : Text
  pub score : ℕ
  pub factors : List (Factor × ℕ)
  pub verdict : Verdict

pub record Candidate : Type 0 where
  pub id : Text
  pub factors : FactorMap
  pub protected : Option Text
  pub cluster_key : Option Text

-- `Candidate::new`
abbrev pub new_candidate : Text → Candidate
new_candidate id = record { id = id; factors = λ f. none; protected = none; cluster_key = none }

abbrev pub with_factor : Factor → ℕ → Candidate → Candidate
with_factor f v c = record c { factors = factor_insert f (min v 100) c.factors }

-- `Candidate::protected`
abbrev pub protect : Text → Candidate → Candidate
protect reason c = record c { protected = some reason }

abbrev pub in_cluster : Text → Candidate → Candidate
in_cluster key c = record c { cluster_key = some key }

abbrev pub u32_add : ℕ → ℕ → ℕ
u32_add a b = min u32_max (a + b)

abbrev pub u32_mul : ℕ → ℕ → ℕ
u32_mul a b = min u32_max (a * b)

abbrev pub raw : Candidate → Factor → ℕ
raw c f = or_zero (c.factors f)

-- A cheap record scores where an expensive one does not.
abbrev pub value_of : Candidate → Factor → ℕ
value_of c f = if is_cost f then 100 - raw c f else raw c f

-- The loop over the factors, from these sums on.
unfoldable pub weigh : Candidate → FactorWeights → List Factor → ℕ → ℕ → ℕ × ℕ
weigh c ws [] total divisor = (total, divisor)
weigh c ws (f ∷ fs) total divisor =
    let skipped = weigh c ws fs total divisor in
    let counted =
      weigh c ws fs (u32_add total (u32_mul (value_of c f) (weight ws f)))
        (u32_add divisor (weight ws f)) in
    if weight ws f == 0 then skipped else counted

-- `u8::try_from(mean).unwrap_or(100)`, of a mean that is 0 with no weights.
abbrev pub mean_of : ℕ × ℕ → ℕ
mean_of (total, divisor) =
    if divisor == 0 then 0 else if leb (total / divisor) 255 then total / divisor else 100

unfoldable pub score_of : Candidate → FactorWeights → ℕ
unfolding weigh
score_of c ws = mean_of (weigh c ws factors 0 0)

abbrev pub complete_factors : Candidate → List (Factor × ℕ)
complete_factors c = map (λ f. (f, raw c f)) factors
