-- ===== src/Curve/Product.antt =====
-- Proofs: the quotes of the curve (utils/gamm_math.rs) and the product of the reserves.
use native.Mathlib.Nat.{mul-le-mul_right, le_of_mul-le-mul_right, div-le_of_le-mul, mul-le-mul}
use omnipair_rs.Base.{ℕ, ◌+◌, ◌-◌, ◌*◌, ◌/◌, ◌≤◌, ◌<◌, ◌≡◌, ◌↔◌, sym, some, arith}
use mathlib.Core.Path.{subst}
use omnipair_rs.Word.{u64, u128}
use omnipair_rs.Outcome.{ok}
use omnipair_rs.Math.{ceil_div}
use omnipair_rs.Math.Rounding.{div_bounds, ceil_div_bounds, ceil_div-le, le_of_mul}
use omnipair_rs.Curve.{calculate_amount_out, calculate_amount_in}

pub calculate_amount_out-eq :
    (x y dx : ℕ) {dy : ℕ}
    → calculate_amount_out x y dx ≡ ok dy
    → (0 < x + dx) × (dy ≡ dx * y / (x + dx)) × (dy < u64)
unfolding calculate_amount_out
calculate_amount_out-eq x y dx h = ground arith

pub calculate_amount_out_ok :
    (x y dx : ℕ)
    → 0 < x + dx
    → x + dx < u128
    → dx * y < u128
    → dx * y / (x + dx) < u64
    → calculate_amount_out x y dx ≡ ok (dx * y / (x + dx))
unfolding calculate_amount_out
calculate_amount_out_ok x y dx p a b c = ground arith

pub calculate_amount_in-eq :
    (x y dy : ℕ) {dx : ℕ}
    → calculate_amount_in x y dy ≡ ok dx
    → (dy ≤ y) × (ceil_div (dy * x) (y - dy) ≡ some dx) × (dx < u64)
unfolding calculate_amount_in
calculate_amount_in-eq x y dy h = ground arith

-- The two ways to compare a trade with the product, over the reserve `r` that is left.
spread : (x dx r dy : ℕ) → dy * (x + dx) ≤ dx * (r + dy) → x * (r + dy) ≤ (x + dx) * r
spread x dx r dy h = omega arith

gather : (x dx r dy : ℕ) → dy * x ≤ dx * r → dy * (x + dx) ≤ dx * (r + dy)
gather x dx r dy h = omega arith

ungather : (x dx r dy : ℕ) → dy * (x + dx) ≤ dx * (r + dy) → dy * x ≤ dx * r
ungather x dx r dy h = omega arith

-- A trade pays out at most the reserve, and never lowers the product of the reserves.
pub amount_out_keeps_k :
    (x y dx : ℕ) {dy : ℕ}
    → calculate_amount_out x y dx ≡ ok dy
    → (dy ≤ y) × (x * y ≤ (x + dx) * (y - dy))
amount_out_keeps_k x y dx {dy} h =
    let (pos_d, e, _) = calculate_amount_out-eq x y dx h in
    let paid : dy * (x + dx) ≤ dx * y = rw e ((div_bounds (dx * y) (x + dx) pos_d).0) in
    let le : dy ≤ y = le_of_mul-le-mul_right {m = dy} {n = y} (omega arith) pos_d in
    let whole : y ≡ y - dy + dy = omega arith in
    (
      le,
      subst (λ t. x * t ≤ (x + dx) * (y - dy)) (sym whole)
          (spread x dx (y - dy) dy (subst (λ t. dy * (x + dx) ≤ dx * t) whole paid)),
    )

-- When `calculate_amount_in` returns `dx` for the output `dy`, a trade of `dx'` that succeeds
-- pays at least `dy` exactly when `dx'` is at least `dx`.
pub amount_in_least :
    (x y dy dx' : ℕ) {dx out : ℕ}
    → calculate_amount_in x y dy ≡ ok dx
    → calculate_amount_out x y dx' ≡ ok out
    → (dy ≤ out) ↔ (dx ≤ dx')
amount_in_least x y dy dx' {dx} {out} buy sell =
    let (le, ceil, _) = calculate_amount_in-eq x y dy buy in
    let (pos_d, e, _) = calculate_amount_out-eq x y dx' sell in
    let (pos_r, enough, _) = ceil_div_bounds (dy * x) (y - dy) ceil in
    let whole : y ≡ y - dy + dy = omega arith in
    (
      λ h.
          let paid : out * (x + dx') ≤ dx' * y = rw e ((div_bounds (dx' * y) (x + dx') pos_d).0) in
          let cover : dy * (x + dx') ≤ dx' * y = omega (arith, mul-le-mul_right (x + dx') h) in
          let left =
            ungather x dx' (y - dy) dy (subst (λ t. dy * (x + dx') ≤ dx' * t) whole cover) in
          ceil_div-le (dy * x) (y - dy) dx' ceil left,
      λ h.
          let cover : dy * x ≤ dx' * (y - dy) = omega (arith, mul-le-mul_right (y - dy) h) in
          let paid = gather x dx' (y - dy) dy cover in
          rw e (
            le_of_mul dy (x + dx') (dx' * y) pos_d
              (subst (λ t. dy * (x + dx') ≤ dx' * t) (sym whole) paid)),
    )

pub small_product : (a b : ℕ) → a < u64 → b < u64 → a * b < u128
small_product a b ha hb =
    omega (
      arith,
      mul-le-mul {n₁ = a} {m₁ = b} {n₂ = u64 - 1} {m₂ = u64 - 1} (omega arith) (omega arith),
    )

-- For reserves that fit a u64, the input reserve not empty, the amount that
-- `calculate_amount_in` returns can be traded, and the trade pays at least the output that was
-- asked for.
pub amount_in_sells :
    (x y dy : ℕ) {dx : ℕ}
    → x < u64
    → y < u64
    → 0 < x
    → calculate_amount_in x y dy ≡ ok dx
    → (out : ℕ) × (calculate_amount_out x y dx ≡ ok out) × (dy ≤ out)
amount_in_sells x y dy {dx} hx hy pos_x buy =
    let (_, _, hd) = calculate_amount_in-eq x y dy buy in
    let small = div-le_of_le-mul (x + dx) {m = dx * y} {n = y} (omega arith) in
    let sell =
      calculate_amount_out_ok x y dx (omega arith) (omega arith) (small_product dx y hd hy)
        (omega arith) in
    (dx * y / (x + dx), sell, (amount_in_least x y dy dx buy sell).1 (omega arith))
