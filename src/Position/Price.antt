-- ===== src/Position/Price.antt =====
-- programs/omnipair/src/state/user_position.rs: `get_liquidation_price`. The same computation stands in
-- instructions/emit_value.rs.
use omnipair_rs.Base.{ℕ, ◌-◌, ◌^◌, min, leb, ◌==◌, ◌||◌, if◌then◌else◌, Pubkey}
use omnipair_rs.Word.{
  u64, u128, max_word, checked_div, try_into, saturating_add, saturating_sub, saturating_mul,
  unwrap_or,
}
use omnipair_rs.Outcome.{Result, ok, ◌>>=◌, unwrap}
use omnipair_rs.Constants.{nad, bps_denominator}
use omnipair_rs.Pair.{Pair}
use omnipair_rs.Position.{UserPosition, calculate_debt, liquidation_cf_bps}

-- The factors that bring two tokens to the same number of decimals.
unfoldable pub decimal_factors : ℕ → ℕ → Result (ℕ × ℕ)
decimal_factors collateral_decimals debt_decimals =
    let up = do
      factor ← unwrap (try_into u128 (10 ^ (collateral_decimals - debt_decimals)))
      ok (factor, 1)
    in let down = do
      factor ← unwrap (try_into u128 (10 ^ (debt_decimals - collateral_decimals)))
      ok (1, factor)
      in if leb debt_decimals collateral_decimals then up else down

-- The division, rounded up and held to a u64.
unfoldable pub price_of : ℕ → ℕ → ℕ
price_of num den =
    if den == 0
    then max_word u64
    else min
        (unwrap_or (max_word u128)
          (checked_div (saturating_add u128 num (saturating_sub den 1)) den))
        (max_word u64)

-- The price of the collateral at which a debt reaches the liquidation factor.
unfoldable pub price_at : ℕ → ℕ → ℕ → ℕ → ℕ → Result ℕ
price_at debt collateral cf_bps collateral_decimals debt_decimals = do
  (num_factor, den_factor) ← decimal_factors collateral_decimals debt_decimals
  let num =
      saturating_mul u128 (saturating_mul u128 (saturating_mul u128 debt num_factor) nad)
        bps_denominator
  let den = saturating_mul u128 (saturating_mul u128 collateral den_factor) cf_bps
  ok (price_of num den)

-- `get_liquidation_price`.
unfoldable pub liquidation_price : Pubkey → UserPosition → Pair → Result ℕ
liquidation_price debt_token u p = do
  let is_token0 = debt_token == p.token0
  debt ←
      (if is_token0
        then calculate_debt u.debt0_shares p.side0.total_debt p.side0.total_debt_shares
        else calculate_debt u.debt1_shares p.side1.total_debt p.side1.total_debt_shares)
  let collateral = if is_token0 then u.collateral1 else u.collateral0
  let cf_bps = liquidation_cf_bps debt_token p u
  let price =
      (if is_token0
        then price_at debt collateral cf_bps p.side1.token_decimals p.side0.token_decimals
        else price_at debt collateral cf_bps p.side0.token_decimals p.side1.token_decimals)
  if debt == 0 then ok 0 else if collateral == 0 || cf_bps == 0 then ok (max_word u64) else price
