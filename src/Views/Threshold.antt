-- ===== src/Views/Threshold.antt =====
-- Proofs: the view of the liquidation limit (instructions/emit_value.rs) and the liquidation that it
-- announces (instructions/lending/liquidate.rs).
use native.Mathlib.Nat.{mul-le-mul_left}
use omnipair_rs.Base.{
  ℕ, ◌*◌, ◌/◌, ◌≤◌, ◌<◌, ◌≡◌, ◌≢◌, ◌↔◌, inl, inr, Bool, ltb, ltb→lt, ltb→le, arith, Bool-cases,
}
use omnipair_rs.Word.{u64, u128}
use omnipair_rs.Outcome.{ok, err, fails, not_undercollateralized, Result-cases}
use omnipair_rs.Constants.{bps_denominator}
use omnipair_rs.Curve.{virtual_reserves, calculate_amount_in, value_with_impact}
use omnipair_rs.Pair.{Side, Pair, ema_price_nad}
use omnipair_rs.Position.{calculate_debt}
use omnipair_rs.Lending.Liquidate.{
  write_off_of, shares_to_writeoff, debt_to_writeoff, collateral_to_seize,
}
use omnipair_rs.Lending.Seizure.{healthy_is_refused}
use omnipair_rs.Lending.Safety.{value-word}
use omnipair_rs.Views.{value_or_nothing, liquidation_limit}

-- The computations after the test of the debt fail with other codes.
shares_code :
    (insolvent : Bool) (own : ℕ)
    → shares_to_writeoff insolvent own ≢ err (fails not_undercollateralized)
unfolding shares_to_writeoff
shares_code insolvent own e = ground arith

debt_code :
    (shares user_debt : ℕ) (d : Side)
    → debt_to_writeoff shares user_debt d ≢ err (fails not_undercollateralized)
unfolding debt_to_writeoff
debt_code shares user_debt d e = ground arith

amount_code : (x y debt : ℕ) → calculate_amount_in x y debt ≢ err (fails not_undercollateralized)
unfolding calculate_amount_in
amount_code x y debt e = ground arith

seizure_code :
    (base collateral : ℕ)
    → collateral_to_seize base collateral ≢ err (fails not_undercollateralized)
unfolding collateral_to_seize
seizure_code base collateral e = ground arith

module _ (slot : ℕ) (p : Pair) (c d : Side) (collateral own cf_bps : ℕ) where
  limit_lem :
      {ema value : ℕ}
      → ema_price_nad slot p c d ≡ ok ema
      → value_with_impact collateral ema ema c.reserve d.reserve ≡ ok value
      → value < u64
      → 0 < collateral
      → 0 < cf_bps
      → cf_bps ≤ bps_denominator
      → liquidation_limit slot p c d collateral cf_bps ≡ ok (value * cf_bps / bps_denominator)
  unfolding liquidation_limit value_or_nothing value_with_impact
  limit_lem {ema} {value} priced valued word pos_c pos_cf most =
      let small : value * cf_bps ≤ value * bps_denominator = mul-le-mul_left value most in
      elim (Result-cases (virtual_reserves c.reserve d.reserve ema ema)) [
        | inr (e, bad) ↦ ground arith
        | inl ((x, y), virtual) ↦ ground arith
      ]

  reached_lem :
      {user_debt ema value : ℕ}
      → calculate_debt own d.total_debt d.total_debt_shares ≡ ok user_debt
      → ema_price_nad slot p c d ≡ ok ema
      → value_with_impact collateral ema ema c.reserve d.reserve ≡ ok value
      → value * cf_bps < u128
      → value * cf_bps / bps_denominator ≤ user_debt
      → write_off_of slot p c d collateral own cf_bps ≢ err (fails not_undercollateralized)
  unfolding write_off_of value_with_impact
  reached_lem {user_debt} {ema} {value} owed priced valued fits reached refused =
      elim (Result-cases (virtual_reserves c.reserve d.reserve ema ema)) [
        | inr (e, bad) ↦ ground arith
        | inl ((x, y), virtual) ↦
            elim (Result-cases (shares_to_writeoff (ltb value user_debt) own)) [
              | inr (e, bad) ↦ ground (arith, shares_code (ltb value user_debt) own)
              | inl (shares, counted) ↦ elim (Result-cases (debt_to_writeoff shares user_debt d)) [
                | inr (e, bad) ↦ ground (arith, debt_code shares user_debt d)
                | inl (debt, written) ↦ elim (Result-cases (calculate_amount_in x y debt)) [
                  | inr (e, bad) ↦ ground (arith, amount_code x y debt)
                  | inl (base, priced_in) ↦ ground (arith, seizure_code base collateral)
                ]
              ]
            ]
      ]

  -- The view of the liquidation limit is exact: for collateral and a liquidation factor of at most
  -- 100% that are not 0, where the debt, the price and the value of the collateral can be computed,
  -- the view has a result, and `liquidate` refuses the position as not undercollateralized exactly
  -- when its debt is below this result.
  pub liquidation_limit_iff :
      {user_debt ema value : ℕ}
      → calculate_debt own d.total_debt d.total_debt_shares ≡ ok user_debt
      → ema_price_nad slot p c d ≡ ok ema
      → value_with_impact collateral ema ema c.reserve d.reserve ≡ ok value
      → 0 < collateral
      → 0 < cf_bps
      → cf_bps ≤ bps_denominator
      → (limit : ℕ) × (liquidation_limit slot p c d collateral cf_bps ≡ ok limit)
        × ((user_debt < limit)
            ↔ (write_off_of slot p c d collateral own cf_bps ≡ err (fails not_undercollateralized)))
  liquidation_limit_iff {user_debt} {ema} {value} owed priced valued pos_c pos_cf most =
      let word = value-word collateral c.reserve d.reserve ema ema valued in
      let small : value * cf_bps ≤ value * bps_denominator = mul-le-mul_left value most in
      let limit = value * cf_bps / bps_denominator in
      (
        limit,
        limit_lem priced valued word pos_c pos_cf most,
        (
          λ below.
              healthy_is_refused slot p c d collateral own cf_bps owed priced valued (omega arith)
                below,
          λ refused. elim (Bool-cases (ltb user_debt limit)) [
            | inl test ↦ ltb→lt _ _ test
            | inr test ↦
                absurd (reached_lem owed priced valued (omega arith) (ltb→le _ _ test) refused)
          ],
        ),
      )
