-- ===== src/Graph/Decay/Falling.antt =====
-- The curve of crates/brolga-graph/src/decay.rs falls with age, and never below its floor.
use Prim.Native.Nat.{max}
use native.Mathlib.Nat.{
  zero-div, zero-mod, le-div_iff_mul-le, div-mul-le_self, mod-lt, div-add-mod, div-le_self,
  mul-le-mul_left, mul_assoc, mul_comm, two-pow-succ, one-le-pow, div-le_of_le-mul,
}
use brolga.Prelude.{
  ℕ, zero, suc, ◌-◌, ◌*◌, ◌/◌, ◌%◌, ◌^◌, ◌≤◌, ◌<◌, ◌≡◌, refl, ap, ◌∙◌, inl, inr, true, ltb,
  Bool-cases, arith, saturating_mul,
}
use brolga.Graph.Decay.{DecayProfile, half_life, shifted, interpolated, standing_after}

div_mono : (k m n : ℕ) → 0 < k → m ≤ n → m / k ≤ n / k
div_mono k m n p h =
    (le-div_iff_mul-le {k = k} {x = m / k} {y = n} p).1 (omega (arith, div-mul-le_self m k))

-- Of two steps, the later one leaves at most half.
shifted-half : (n : ℕ) → shifted (suc n) ≤ shifted n / 2
unfolding shifted
shifted-half n = elim (Bool-cases (ltb (suc n) 64)) [
  | inl q ↦
      let q' : ltb n 64 ≡ true = ground arith in
      let x = 100 / 2 ^ suc n in
      let le : x * 2 ^ suc n ≤ 100 = div-mul-le_self 100 (2 ^ suc n) in
      let e : x * 2 * 2 ^ n ≡ x * 2 ^ suc n =
        mul_assoc x 2 (2 ^ n) ∙ ap (λ y. x * y) (omega (arith, two-pow-succ n)) in
      let le' : x * 2 * 2 ^ n ≤ 100 = omega (arith, le, e) in
      rw (q, q')
        ((le-div_iff_mul-le {k = 2} {x = x} {y = 100 / 2 ^ n} (omega arith)).1 (
          (le-div_iff_mul-le {k = 2 ^ n} {x = x * 2} {y = 100} (one-le-pow n 2 (omega arith))).1
            le'))
  | inr q ↦ rw q (omega arith)
]

shifted_lt : (m n : ℕ) → m < n → shifted n ≤ shifted m / 2
shifted_lt m zero h = absurd (omega arith)
shifted_lt m (suc n) h = elim (Bool-cases (ltb m n)) [
  | inl q ↦ omega (arith, shifted_lt m n (ground arith), shifted-half n)
  | inr q ↦ let e : m ≡ n = ground arith in rw e (shifted-half n)
]

-- Within a half-life no more is lost than that half-life takes.
lost-le : (d r h : ℕ) → 0 < h → r ≤ h → saturating_mul d r / h ≤ d
lost-le d r h p q =
    div-le_of_le-mul h {m = saturating_mul d r} {n = d}
      (omega (arith, mul-le-mul_left {m = r} {n = h} d q, mul_comm d h))

interpolated_mono :
    (upper r s h : ℕ) → 0 < h → r ≤ s → interpolated upper s h ≤ interpolated upper r h
unfolding interpolated
interpolated_mono upper r s h p q =
    let d = upper - upper / 2 in
    let le : saturating_mul d r / h ≤ saturating_mul d s / h =
      div_mono h (saturating_mul d r) (saturating_mul d s) p
        (omega (arith, mul-le-mul_left {m = r} {n = s} d q)) in
    omega (arith, le)

interpolated-le : (upper r h : ℕ) → interpolated upper r h ≤ upper
unfolding interpolated
interpolated-le upper r h = omega arith

le-interpolated : (upper r h : ℕ) → upper ≤ 100 → 0 < h → r ≤ h → upper / 2 ≤ interpolated upper r h
unfolding interpolated
le-interpolated upper r h u p q = let le = lost-le (upper - upper / 2) r h p q in omega (arith, le)

shifted-le : (n : ℕ) → shifted n ≤ 100
unfolding shifted
shifted-le n = elim (Bool-cases (ltb n 64)) [
  | inl q ↦ rw q (div-le_self 100 (2 ^ n))
  | inr q ↦ rw q (omega arith)
]

-- The curve before the floor.
curve_falls :
    (h a b : ℕ)
    → 0 < h
    → a ≤ b
    → interpolated (shifted (b / h)) (b % h) h ≤ interpolated (shifted (a / h)) (a % h) h
curve_falls h a b p q = elim (Bool-cases (ltb (a / h) (b / h))) [
  | inl l ↦
      let x = interpolated-le (shifted (b / h)) (b % h) h in
      let y = shifted_lt (a / h) (b / h) (ground arith) in
      let r : a % h ≤ h = omega (arith, mod-lt a {m = h} p) in
      let z = le-interpolated (shifted (a / h)) (a % h) h (shifted-le (a / h)) p r in
      omega (arith, x, y, z)
  | inr l ↦
      let m = div_mono h a b p q in
      let e : b / h ≡ a / h = ground (arith, m) in
      let r : a % h ≤ b % h = omega (arith, div-add-mod a h, div-add-mod b h, ap (λ y. h * y) e) in
      rw e (interpolated_mono (shifted (a / h)) (a % h) (b % h) h p r)
]

-- The standing of a record never rises as it ages, whatever the profile.
pub standing_falls : (p : DecayProfile) (a b : ℕ) → a ≤ b → standing_after p b ≤ standing_after p a
unfolding standing_after
standing_falls p a b q = elim (Bool-cases p.never) [
  | inl n ↦ rw n (omega arith)
  | inr n ↦
      let c = curve_falls (max p.half_life_days 1) a b (omega arith) q in rw n (omega (arith, c))
]

fresh : (h : ℕ) → interpolated (shifted (0 / h)) (0 % h) h ≡ 100
unfolding interpolated shifted
fresh h = rw (zero-div h, zero-mod h, zero-div h) refl

bounded_curve :
    (h f n r : ℕ)
    → f ≤ 100
    → (f ≤ max (interpolated (shifted n) r h) f) × (max (interpolated (shifted n) r h) f ≤ 100)
bounded_curve h f n r q =
    (omega arith, omega (arith, interpolated-le (shifted n) r h, shifted-le n, q))

clamped : (floor : ℕ) → (1 ≤ (half_life 1 floor).floor) × ((half_life 1 floor).floor ≤ 100)
unfolding half_life
clamped floor = (ground arith, ground arith)

-- A profile of a half-life gives every age a standing from its floor, which is at least 1, to 100, and
-- 100 to a record of no age.
pub standing_bounds :
    (half_life_days floor age : ℕ)
    → let p = half_life half_life_days floor in
      (1 ≤ p.floor)
      × (p.floor ≤ standing_after p age)
      × (standing_after p age ≤ 100)
      × (standing_after p 0 ≡ 100)
unfolding standing_after half_life
standing_bounds half_life_days floor age =
    let p = half_life half_life_days floor in
    let h = max p.half_life_days 1 in
    let (lo, hi) = clamped floor in
    let (above, below) = bounded_curve h p.floor (age / h) (age % h) hi in
    (lo, above, below, rw (fresh h) (omega (arith, hi)))
