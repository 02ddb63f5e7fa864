-- ===== src/Position/Threshold.antt =====
-- Proofs: what the liquidation price (state/user_position.rs) is the threshold of.
use native.Mathlib.Nat.{
  pow-zero, pow-suc, one-le-pow, le_of_mul-le-mul_right, mul-le-mul, mul-le-mul_right,
  mul-le-mul_left, lt_of_mul-lt-mul_right,
}
use omnipair_rs.Base.{
  zero, suc, min, leb, ◌^◌, refl, ap, ◌∙◌, inl, inr, Bool-cases, ℕ, ◌+◌, ◌-◌, ◌*◌, ◌/◌, ◌≤◌, ◌<◌,
  ◌≡◌, ◌↔◌, arith,
}
use omnipair_rs.Word.{u64, u128, max_word, saturating_mul}
use omnipair_rs.Outcome.{ok, chain}
use omnipair_rs.Constants.{nad, bps_denominator}
use omnipair_rs.Math.Rounding.{div_bounds}
use omnipair_rs.Position.Price.{decimal_factors, price_of, price_at}

-- A price of `price_of` below the largest word is the quotient, rounded up.
price_of_bounds :
    (num den : ℕ)
    → 0 < den
    → num + den ≤ u128
    → price_of num den < max_word u64
    → (num ≤ price_of num den * den) × (price_of num den * den < num + den)
unfolding price_of
price_of_bounds num den pos fits below =
    let (low, high) = div_bounds (num + (den - 1)) den pos in
    let exact : price_of num den ≡ (num + (den - 1)) / den = ground arith in
    rw exact (omega arith, omega arith)

-- A product that fits has all its parts fit.
unsaturated :
    (a b c : ℕ)
    → 0 < c
    → a * b * c < u128
    → saturating_mul u128 (saturating_mul u128 a b) c ≡ a * b * c
unsaturated a b c pos fits =
    let more : a * b * 1 ≤ a * b * c = mul-le-mul_left (a * b) pos in
    let small : saturating_mul u128 a b ≡ a * b = omega arith in rw small (omega arith)

threshold_lem :
    (num den price q : ℕ)
    → num ≤ price * den
    → price * den < num + den
    → (num ≤ q * den) ↔ (price ≤ q)
threshold_lem num den price q low high = (
  λ reached.
      let less : price * den < (q + 1) * den = omega arith in
      omega (arith, lt_of_mul-lt-mul_right den {m = price} {n = q + 1} less),
  λ le. let more = mul-le-mul_right den le in omega arith,
)

-- The factors are the powers of the differences of the decimals, one of which is 0.
factors_lem :
    (c d : ℕ) {num_factor den_factor : ℕ}
    → decimal_factors c d ≡ ok (num_factor, den_factor)
    → (num_factor ≡ 10 ^ (c - d)) × (den_factor ≡ 10 ^ (d - c))
unfolding decimal_factors
factors_lem c d {num_factor} {den_factor} h = elim (Bool-cases (leb d c)) [
  | inl le ↦
      let none_less : d - c ≡ 0 = ground arith in
      let one : 10 ^ (d - c) ≡ 1 = rw none_less refl in (ground arith, rw one (ground arith))
  | inr more ↦
      let none_less : c - d ≡ 0 = ground arith in
      let one : 10 ^ (c - d) ≡ 1 = rw none_less refl in (rw one (ground arith), ground arith)
]

pow_add : (a n m : ℕ) → a ^ (n + m) ≡ a ^ n * a ^ m
pow_add a n zero = let e : n + zero ≡ n = omega arith in rw (e, pow-zero a) (omega arith)
pow_add a n (suc m) =
    let e = pow_add a n m in
    let next : n + suc m ≡ suc (n + m) = omega arith in
    let e1 : a ^ (n + suc m) ≡ a ^ (n + m) * a = rw next (pow-suc a (n + m)) in
    let e2 : a ^ suc m ≡ a ^ m * a = pow-suc a m in rw (e1, e2, e) (omega arith)

pow_pos : (n : ℕ) → 0 < 10 ^ n
pow_pos n = one-le-pow n 10 (omega arith)

-- Both powers share the lower one.
pow_split :
    (c d : ℕ) → (10 ^ c ≡ 10 ^ (c - d) * 10 ^ min c d) × (10 ^ d ≡ 10 ^ (d - c) * 10 ^ min c d)
pow_split c d =
    let e : c ≡ c - d + min c d = omega arith in
    let e' : d ≡ d - c + min c d = omega arith in
    (
      ap (λ (n : ℕ). 10 ^ n) e ∙ pow_add 10 (c - d) (min c d),
      ap (λ (n : ℕ). 10 ^ n) e' ∙ pow_add 10 (d - c) (min c d),
    )

-- A common factor of both sides of the comparison.
scaled_lem : (x y g : ℕ) {p : Type 0} → 0 < g → (x ≤ y) ↔ p → (x * g ≤ y * g) ↔ p
scaled_lem x y g pos (to, from) = (
  λ le. to (le_of_mul-le-mul_right {m = x} {n = y} {k = g} le pos),
  λ h. mul-le-mul_right g (from h),
)

-- The threshold, with the factors that the code computes.
factored_iff :
    (debt collateral cf_bps collateral_decimals debt_decimals q : ℕ)
    {num_factor den_factor price : ℕ}
    → decimal_factors collateral_decimals debt_decimals ≡ ok (num_factor, den_factor)
    → 0 < cf_bps
    → 0 < collateral * den_factor
    → debt * num_factor * nad * bps_denominator + collateral * den_factor * cf_bps < u128
    → price_at debt collateral cf_bps collateral_decimals debt_decimals ≡ ok price
    → price < max_word u64
    → (debt * num_factor * nad * bps_denominator ≤ q * (collateral * den_factor * cf_bps))
      ↔ (price ≤ q)
unfolding price_at
factored_iff debt collateral cf_bps cd dd q {num_factor = nf} {den_factor = df} {price = price}
      factors pos_cf pos fits h below =
    let num = debt * nf * nad * bps_denominator in
    let den = collateral * df * cf_bps in
    let pos_den : 1 * 1 ≤ den =
      mul-le-mul {n₁ = 1} {m₁ = 1} {n₂ = collateral * df} {m₂ = cf_bps} pos pos_cf in
    let e_num : saturating_mul u128 (saturating_mul u128 (saturating_mul u128 debt nf) nad)
          bps_denominator
        ≡ num =
      omega arith in
    let e_den : saturating_mul u128 (saturating_mul u128 collateral df) cf_bps ≡ den =
      unsaturated collateral df cf_bps pos_cf (omega arith) in
    let e : price_of num den ≡ price = ground (arith, e_num, e_den) in
    let (low, high) = price_of_bounds num den (omega arith) (omega arith) (rw e below) in
    threshold_lem num den price q (rw (← e) low) (rw (← e) high)

-- The liquidation price is the threshold of the prices at which the collateral, at the liquidation
-- factor, is worth the debt: for tokens of c and d decimals, when the scaled debt and the scaled
-- collateral together fit a u128 and the price is below the largest u64, debt * 10^c * NAD * BPS is
-- at most q * collateral * 10^d * factor exactly for the prices q that are at least the result.
pub price_at_iff :
    (debt collateral cf_bps c d q : ℕ) {price : ℕ}
    → 0 < cf_bps
    → 0 < collateral
    → debt * 10 ^ (c - d) * nad * bps_denominator + collateral * 10 ^ (d - c) * cf_bps < u128
    → price_at debt collateral cf_bps c d ≡ ok price
    → price < max_word u64
    → (debt * 10 ^ c * nad * bps_denominator ≤ q * (collateral * 10 ^ d * cf_bps)) ↔ (price ≤ q)
unfolding price_at
price_at_iff debt collateral cf_bps c d q {price} pos_cf pos_coll fits h below =
    let ((nf, df), factors, _) = chain (decimal_factors c d) _ h in
    let (en, ed) = factors_lem c d factors in
    let (ec, ed') = pow_split c d in
    let g = 10 ^ min c d in
    let pos_g : 0 < g = pow_pos (min c d) in
    let pos_df : 0 < df = rw ed (pow_pos (d - c)) in
    let pos : 1 * 1 ≤ collateral * df =
      mul-le-mul {n₁ = 1} {m₁ = 1} {n₂ = collateral} {m₂ = df} pos_coll pos_df in
    let iff =
      factored_iff debt collateral cf_bps c d q factors pos_cf (omega arith) (rw (en, ed) fits) h
        below in
    let num = debt * nf * nad * bps_denominator in
    let den = collateral * df * cf_bps in
    let e_num : debt * 10 ^ c * nad * bps_denominator ≡ num * g = rw (ec, ← en) (omega arith) in
    let e_den : q * (collateral * 10 ^ d * cf_bps) ≡ q * den * g = rw (ed', ← ed) (omega arith) in
    rw (e_num, e_den) (scaled_lem num (q * den) g pos_g iff)
