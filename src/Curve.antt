-- ===== src/Curve.antt =====
-- programs/omnipair/src/utils/gamm_math.rs: the constant product curve, the virtual reserves at the
-- pessimistic price, and the borrow limit with its collateral factors.
pub mod Product
pub mod Limit
use omnipair_rs.Base.{
  ℕ, ◌+◌, ◌-◌, ◌*◌, ◌/◌, ◌^◌, min, max, Bool, Option, none, some, ltb, ◌==◌, ◌||◌, ◌&&◌, true,
  false, if◌then◌else◌,
}
use omnipair_rs.Word.{
  u16, u64, u128, max_word, checked_add, checked_mul, checked_sub, checked_div, try_into,
  saturating_mul, cast, unwrap_or,
}
use omnipair_rs.Outcome.{
  Result, ok, err, fails, ◌>>=◌, ok_or, overflow, denominator_overflow, output_amount_overflow,
}
use omnipair_rs.Constants.{
  nad, bps_denominator, max_collateral_factor_bps, ltv_buffer_bps, min_liquidity,
}
use omnipair_rs.Math.{ceil_div, sqrt}

-- `CPCurve::calculate_amount_out`.
unfoldable pub calculate_amount_out : ℕ → ℕ → ℕ → Result ℕ
calculate_amount_out reserve_in reserve_out amount_in = do
  denominator ← ok_or (checked_add u128 reserve_in amount_in) denominator_overflow
  product ← ok_or (checked_mul u128 amount_in reserve_out) output_amount_overflow
  quotient ← ok_or (checked_div product denominator) output_amount_overflow
  ok_or (try_into u64 quotient) output_amount_overflow

-- `CPCurve::calculate_amount_in`.
unfoldable pub calculate_amount_in : ℕ → ℕ → ℕ → Result ℕ
calculate_amount_in reserve_in reserve_out amount_out = do
  denominator ← ok_or (checked_sub reserve_out amount_out) denominator_overflow
  numerator ← ok_or (checked_mul u128 amount_out reserve_in) output_amount_overflow
  quotient ← ok_or (ceil_div numerator denominator) output_amount_overflow
  ok_or (try_into u64 quotient) output_amount_overflow

-- The product of the two reserves times `m / d`, in the order of steps that the source takes: where
-- the product with `m` overflows, `second` is multiplied after the division.
split_product : ℕ → ℕ → ℕ → ℕ → Result ℕ
split_product first second m d = do
  scaled ← ok_or (checked_mul u128 first m) overflow
  partial ← ok_or (checked_div scaled d) denominator_overflow
  ok_or (checked_mul u128 partial second) overflow

divided_product : Option ℕ → ℕ → ℕ → ℕ → ℕ → Result ℕ
divided_product (some v) first second m d = ok_or (checked_div v d) denominator_overflow
divided_product none first second m d = split_product first second m d

unfoldable pub scaled_product : ℕ → ℕ → ℕ → ℕ → Result ℕ
unfolding split_product divided_product
scaled_product first second m d = do
  k ← ok_or (checked_mul u128 first second) overflow
  divided_product (checked_mul u128 k m) first second m d

-- `construct_virtual_reserves_at_pessimistic_price`.
unfoldable pub virtual_reserves : ℕ → ℕ → ℕ → ℕ → Result (ℕ × ℕ)
virtual_reserves collateral_spot debt_spot collateral_ema collateral_directional =
    let price = min collateral_directional collateral_ema in
    let rooted = do
      x_squared ← scaled_product collateral_spot debt_spot nad price
      x_root ← ok_or (sqrt x_squared) overflow
      x ← ok_or (try_into u64 x_root) overflow
      y_squared ← scaled_product debt_spot collateral_spot price nad
      y_root ← ok_or (sqrt y_squared) overflow
      y ← ok_or (try_into u64 y_root) overflow
      ok (x, y)
    in if ltb collateral_spot min_liquidity || ltb debt_spot min_liquidity
      then ok (0, 0)
      else if price == 0
      then ok (collateral_spot, debt_spot)
      else rooted

-- `calculate_utilized_collateral_with_impact`.
unfoldable pub utilized_collateral : ℕ → ℕ → ℕ → ℕ → ℕ → Result ℕ
utilized_collateral total_debt collateral_reserve debt_reserve directional ema = do
  (x, y) ← virtual_reserves collateral_reserve debt_reserve ema directional
  calculate_amount_in x y total_debt

-- `calculate_max_allowed_total_debt`.
unfoldable pub max_allowed_total_debt : ℕ → ℕ → ℕ → ℕ → ℕ → ℕ → Result ℕ
max_allowed_total_debt utilized user_collateral collateral_reserve debt_reserve directional ema = do
  (x, y) ← virtual_reserves collateral_reserve debt_reserve ema directional
  total ← ok_or (checked_add u64 utilized user_collateral) overflow
  calculate_amount_out x y total

-- The collateral factor before its caps: the fixed one, or the one that the curve allows.
unfoldable pub base_cf_bps : Option ℕ → ℕ → ℕ → ℕ → ℕ → ℕ → ℕ → ℕ → Result ℕ
base_cf_bps (some fixed_cf) collateral value ema directional collateral_reserve debt_reserve debt =
    ok fixed_cf
base_cf_bps none collateral value ema directional collateral_reserve debt_reserve debt = do
  utilized ← utilized_collateral debt collateral_reserve debt_reserve directional ema
  allowed ←
      max_allowed_total_debt utilized collateral collateral_reserve debt_reserve directional ema
  let user_max_debt = unwrap_or 0 (checked_sub allowed debt)
  ok (
      cast u64
        (unwrap_or 0 (checked_div (saturating_mul u128 user_max_debt bps_denominator) value)))

-- The liquidation factor: the divergence cap on a fixed factor, the 85% cap on a dynamic one.
unfoldable pub liquidation_cf : Option ℕ → ℕ → ℕ → ℕ → Result ℕ
liquidation_cf (some fixed_cf) base ema directional = do
  shrunk ← ok_or (checked_div (saturating_mul u128 directional base) ema) denominator_overflow
  ok (cast u16 (max (min base shrunk) 100))
liquidation_cf none base ema directional = ok (cast u16 (min base max_collateral_factor_bps))

-- The borrow limit's factor, the liquidation factor less the LTV buffer (on `u32`).
unfoldable pub max_allowed_cf : ℕ → ℕ
max_allowed_cf liquidation =
    cast u16
      (saturating_mul (2 ^ 32) liquidation (bps_denominator - ltv_buffer_bps) / bps_denominator)

-- The value of the collateral at the factor.
unfoldable pub borrow_limit : ℕ → ℕ → ℕ
borrow_limit value cf_bps =
    min (unwrap_or 0 (checked_div (saturating_mul u128 value cf_bps) bps_denominator))
      (max_word u64)

-- `fixed_cf_bps` is `None`.
abbrev pub is_unset : Option ℕ → Bool
is_unset none = true
is_unset (some cf) = false

-- The limit on collateral of a known value, the second half of `pessimistic_max_debt`.
unfoldable pub limit_at_value : ℕ → ℕ → ℕ → ℕ → ℕ → ℕ → ℕ → Option ℕ → Result (ℕ × ℕ × ℕ)
limit_at_value value collateral ema directional collateral_reserve debt_reserve debt fixed_cf = do
  base ← base_cf_bps fixed_cf collateral value ema directional collateral_reserve debt_reserve debt
  liquidation ← liquidation_cf fixed_cf base ema directional
  let allowed = max_allowed_cf liquidation
  ok (borrow_limit value allowed, allowed, liquidation)

-- The value of collateral sold on the virtual reserves.
unfoldable pub value_with_impact : ℕ → ℕ → ℕ → ℕ → ℕ → Result ℕ
value_with_impact collateral ema directional collateral_reserve debt_reserve = do
  (x, y) ← virtual_reserves collateral_reserve debt_reserve ema directional
  calculate_amount_out x y collateral

-- `pessimistic_max_debt`: the borrow limit, the factor that it uses, and the liquidation factor.
unfoldable pub pessimistic_max_debt : ℕ → ℕ → ℕ → ℕ → ℕ → ℕ → Option ℕ → Result (ℕ × ℕ × ℕ)
pessimistic_max_debt collateral ema directional collateral_reserve debt_reserve debt fixed_cf =
    let valued = do
      value ← value_with_impact collateral ema directional collateral_reserve debt_reserve
      if is_unset fixed_cf && debt_reserve == 0
          then ok (0, 0, 0)
          else limit_at_value value collateral ema directional collateral_reserve debt_reserve debt
              fixed_cf
    in if collateral == 0 || ema == 0 || directional == 0 then ok (0, 0, 0) else valued
