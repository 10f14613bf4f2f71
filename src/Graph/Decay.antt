-- ===== src/Graph/Decay.antt =====
-- crates/brolga-graph/src/decay.rs: how the standing of a record falls with its age.
-- An age is a `u32`, a number here; the conversions between widths that cannot fail are left out.
pub mod Falling
pub mod Policy
pub mod Evaluator
pub mod Ledger
pub mod Standing
pub mod Anchors
use Prim.Native.Nat.{min, max}
use brolga.Prelude.{
  ℕ, ◌-◌, ◌*◌, ◌/◌, ◌%◌, ◌^◌, Bool, true, false, ltb, if◌then◌else◌, saturating_mul,
}

pub record DecayProfile : Type 0 where
  pub half_life_days : ℕ
  pub floor : ℕ
  pub never : Bool

unfoldable pub half_life : ℕ → ℕ → DecayProfile
half_life half_life_days floor = record {
  half_life_days = if ltb half_life_days 1 then 1 else half_life_days;
  floor = if ltb floor 1 then 1 else if ltb 100 floor then 100 else floor;
  never = false;
}

unfoldable pub never : DecayProfile
never = record { half_life_days = 0; floor = 100; never = true }

-- `100_u64.checked_shr(shift).unwrap_or(0)`
unfoldable pub shifted : ℕ → ℕ
shifted shift = if ltb shift 64 then 100 / 2 ^ shift else 0

-- What is left after whole half-lives and a remainder of one.
unfoldable pub interpolated : ℕ → ℕ → ℕ → ℕ
interpolated upper remainder half_life =
    let within = saturating_mul (upper - upper / 2) remainder / half_life in
    min 100 (upper - within)

unfoldable pub standing_after : DecayProfile → ℕ → ℕ
standing_after p age =
    if p.never
    then 100
    else let half_life = max p.half_life_days 1 in
      max (interpolated (shifted (age / half_life)) (age % half_life) half_life) p.floor
