-- ===== src/Math/Sqrt.antt =====
-- Proofs: the Newton square root of utils/math.rs, its rounds and its result.
use native.Mathlib.Nat.{mul-le-mul_left, mul-le-mul_right}
use omnipair_rs.Base.{
  ℕ, zero, suc, ◌+◌, ◌-◌, ◌*◌, ◌/◌, ◌≤◌, ◌<◌, ◌≡◌, ◌⊎◌, inl, inr, sym, some, arith, ltb, ltb→lt,
  ltb→le, Bool-cases,
}
use mathlib.Core.Path.{subst}
use omnipair_rs.Word.{u128}
use omnipair_rs.Math.{sqrt, sqrt_loop}
use omnipair_rs.Math.Rounding.{div_bounds, div-lt_of_mul}

le_total : (a b : ℕ) → (a ≤ b) ⊎ (b ≤ a)
le_total a b = omega arith

square_lem : (a d : ℕ) → a * (a + d + d) ≤ (a + d) * (a + d)
square_lem a d = omega arith

square_gap : (a m : ℕ) → a ≤ m → a * (m + (m - a)) ≤ m * m
square_gap a m h =
    let e : m ≡ a + (m - a) = omega arith in
    let f : m + (m - a) ≡ a + (m - a) + (m - a) = omega arith in
    subst (λ s. a * (m + (m - a)) ≤ s * s) (sym e)
      (subst (λ t. a * t ≤ (a + (m - a)) * (a + (m - a))) (sym f) (square_lem a (m - a)))

add_gap : (a b m : ℕ) → a ≤ m → a + b ≤ 2 * m → b ≤ m + (m - a)
add_gap a b m low h = omega arith

-- The product of two numbers is at most the square of their mean.
mul-le-mean : (a b m : ℕ) → a + b ≤ 2 * m → a * b ≤ m * m
mul-le-mean a b m h = elim (le_total a m) [
  | inl low ↦ omega (arith, mul-le-mul_left a (add_gap a b m low h), square_gap a m low)
  | inr high ↦
      let low : b ≤ m = omega arith in
      omega (arith, mul-le-mul_left b (add_gap b a m low (omega arith)), square_gap b m low)
]

-- One step of Newton's method from any z stays above the root.
step_above : (y z : ℕ) → 0 < z → let x = (y / z + z) / 2 in y < (x + 1) * (x + 1)
step_above y z pos_z =
    let x = (y / z + z) / 2 in
    omega (arith, (div_bounds y z pos_z).1, mul-le-mean (y / z + 1) z (x + 1) (omega arith))

-- Where the step does not fall, the square is not above y.
step_below : (y z : ℕ) → 0 < z → z ≤ (y / z + z) / 2 → z * z ≤ y
step_below y z pos_z h =
    let q : z ≤ y / z = omega arith in omega (arith, (div_bounds y z pos_z).0, mul-le-mul_right z q)

-- `r` is the integer square root of `y`.
abbrev pub IsRoot : ℕ → ℕ → Type 0
IsRoot y z = (z * z ≤ y) × (y < (z + 1) * (z + 1))

-- The quotient and the divisor of a round add up to at most y.
round_fits : (y x : ℕ) → 1 < x → x ≤ y / 2 → y / x + x ≤ y
round_fits y x big low =
    let two_q : y / x * 2 ≤ y / x * x = mul-le-mul_left (y / x) big in
    omega (arith, div_bounds y x (omega arith), two_q)

-- One round of the loop.
sqrt_loop_step :
    (fuel y z x : ℕ)
    → x < z
    → 0 < x
    → y / x + x < u128
    → sqrt_loop (suc fuel) y z x ≡ sqrt_loop fuel y x ((y / x + x) / 2)
unfolding sqrt_loop
sqrt_loop_step fuel y z x falls pos_x fits = ground arith

sqrt_loop_end : (fuel y z x : ℕ) → z ≤ x → sqrt_loop (suc fuel) y z x ≡ some z
unfolding sqrt_loop
sqrt_loop_end fuel y z x h = ground arith

above_one : (y x : ℕ) → 3 < y → y < (x + 1) * (x + 1) → 1 < x
above_one y zero big h = absurd (omega arith)
above_one y (suc zero) big h = absurd (omega arith)
above_one y (suc (suc x)) big h = omega arith

sqrt_loop_lem :
    (fuel y z : ℕ)
    → 3 < y
    → y < u128
    → 0 < z
    → z ≤ y / 2 + 1
    → z < fuel
    → y < (z + 1) * (z + 1)
    → (r : ℕ) × (sqrt_loop fuel y z ((y / z + z) / 2) ≡ some r) × IsRoot y r
sqrt_loop_lem zero y z big small pos_z low enough above = absurd (omega arith)
sqrt_loop_lem (suc fuel) y z big small pos_z low enough above =
    let x = (y / z + z) / 2 in
    let next = step_above y z pos_z in
    elim (Bool-cases (ltb x z)) [
      | inl falls ↦
          let lt : x < z = ltb→lt _ _ falls in
          let two : 1 < x = above_one y x big next in
          let fits = round_fits y x two (omega arith) in
          rw (sqrt_loop_step fuel y z x lt (omega arith) (omega arith))
            (sqrt_loop_lem fuel y x big small (omega arith) (omega arith) (omega arith) next)
      | inr stops ↦
          let le : z ≤ x = ltb→le _ _ stops in
          (z, sqrt_loop_end fuel y z x le, (step_below y z pos_z le, above))
    ]

two_le : (n : ℕ) → 2 ≤ n + 1 + 1
two_le n = omega arith

round_fits_start : (y : ℕ) → 3 < y → y / (y / 2 + 1) + (y / 2 + 1) ≤ y
round_fits_start y big = omega (arith, div-lt_of_mul 2 (y / 2 + 1) y (omega arith) (omega arith))

above_start : (y : ℕ) → y < (y / 2 + 1 + 1) * (y / 2 + 1 + 1)
above_start y = omega (arith, mul-le-mul_left (y / 2 + 1 + 1) (two_le (y / 2)))

sqrt_start : (y : ℕ) → 3 < y → y < u128 → sqrt y ≡ sqrt_loop (suc y) y y (y / 2 + 1)
unfolding sqrt
sqrt_start y big small = ground arith

sqrt_small : (y : ℕ) → y ≤ 3 → (r : ℕ) × (sqrt y ≡ some r) × IsRoot y r
unfolding sqrt
sqrt_small zero h = (0, ground arith, ground arith)
sqrt_small (suc y) h = (1, ground arith, ground arith)

-- `sqrt` of a `u128` never fails, and returns the largest number whose square is not above it.
pub sqrt_lem : (y : ℕ) → y < u128 → (r : ℕ) × (sqrt y ≡ some r) × IsRoot y r
sqrt_lem y small = elim (Bool-cases (ltb 3 y)) [
  | inl test ↦
      let big : 3 < y = ltb→lt _ _ test in
      let x = y / 2 + 1 in
      let x_lt : x < y = omega arith in
      let fits = round_fits_start y big in
      rw (sqrt_start y big small, sqrt_loop_step y y y x x_lt (omega arith) (omega arith))
        (sqrt_loop_lem y y x big small (omega arith) (omega arith) x_lt (above_start y))
  | inr test ↦ sqrt_small y (ltb→le _ _ test)
]
