-- ===== src/Security/Limits.antt =====
-- crates/brolga-security/src/limits.rs: resource limits and the ranges that they must lie in.
-- A `u64` is a number; a range check returns the error's fields. One child for each group of
-- limits, each with a constant for every `Bounds`, `defaults` and `validated`.
pub mod Input
pub mod Archive
pub mod Xml
pub mod Response
pub mod Resource
pub mod Validation
use brolga.Prelude.{ℕ, String, ◌||◌, ltb, if◌then◌else◌}

pub record LimitOutOfRange : Type 0 where
  pub name : String
  pub value : ℕ
  pub min : ℕ
  pub max : ℕ

pub data Checked {ℓ} (A : Type ℓ) : Type ℓ where
  ok : A → Checked A
  err : LimitOutOfRange → Checked A

infixl 5 ◌>>=◌ ◌>>◌
abbrev pub ◌>>=◌ {ℓ κ} : {A : Type ℓ} {B : Type κ} → Checked A → (A → Checked B) → Checked B
ok a >>= f = f a
err e >>= f = err e

abbrev pub ◌>>◌ {ℓ κ} : {A : Type ℓ} {B : Type κ} → Checked A → Checked B → Checked B
m >> k = m >>= λ _. k

pub record Bounds : Type 0 where
  pub name : String
  pub min : ℕ
  pub max : ℕ
  pub default : ℕ

unfoldable pub check : Bounds → ℕ → Checked ℕ
check b value =
    if ltb value b.min || ltb b.max value
    then err (record { name = b.name; value = value; min = b.min; max = b.max })
    else ok value
