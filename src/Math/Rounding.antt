-- ===== src/Math/Rounding.antt =====
-- Proofs: rounding up and down, `ceil_div` of utils/math.rs and `/`, and the products that bound
-- them.
use native.Mathlib.Nat.{
  div-mul-le_self, lt-div-mul-add, le-div_iff_mul-le, div-lt_iff_lt-mul, lt_of_mul-lt-mul_right,
}
use omnipair_rs.Base.{ℕ, ◌+◌, ◌-◌, ◌*◌, ◌/◌, ◌≤◌, ◌<◌, ◌≡◌, some, arith}
use omnipair_rs.Math.{ceil_div}

-- A floor is at most the exact quotient, and within one of it.
pub div_bounds : (a b : ℕ) → 0 < b → (a / b * b ≤ a) × (a < (a / b + 1) * b)
div_bounds a b h = (div-mul-le_self a b, omega (arith, lt-div-mul-add {a = a} {b = b} h))

ceil_div-eq : (a b : ℕ) {c : ℕ} → ceil_div a b ≡ some c → (0 < b) × (c ≡ (a + (b - 1)) / b)
unfolding ceil_div
ceil_div-eq a b h = ground arith

-- `ceil_div` rounds up: it is at least the exact quotient, and less than one above it.
pub ceil_div_bounds :
    (a b : ℕ) {c : ℕ} → ceil_div a b ≡ some c → (0 < b) × (a ≤ c * b) × (c * b < a + b)
ceil_div_bounds a b {c} h =
    let (pos_b, e) = ceil_div-eq a b h in
    let (low, high) = div_bounds (a + (b - 1)) b pos_b in
    (pos_b, rw e (omega arith), rw e (omega arith))

pub le_of_mul : (a b c : ℕ) → 0 < b → a * b ≤ c → a ≤ c / b
le_of_mul a b c h p = (le-div_iff_mul-le h).1 p

pub div-lt_of_mul : (a b c : ℕ) → 0 < b → c < a * b → c / b < a
div-lt_of_mul a b c h p = (div-lt_iff_lt-mul h).1 p

-- A ceiling is the least number of multiples that covers.
pub ceil_div-le : (a b c : ℕ) {q : ℕ} → ceil_div a b ≡ some q → a ≤ c * b → q ≤ c
ceil_div-le a b c {q} h p =
    let (_, _, close) = ceil_div_bounds a b h in
    let step : q * b < (c + 1) * b = omega arith in
    omega (arith, lt_of_mul-lt-mul_right b {m = q} {n = c + 1} step)
