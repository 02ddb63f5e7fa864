-- ===== src/Lending/Safety.antt =====
-- Proofs: the borrow limit (utils/gamm_math.rs) and the liquidation test
-- (instructions/lending/liquidate.rs).
use native.Mathlib.Nat.{mul-le-mul_left}
use omnipair_rs.Base.{
  ℕ, ◌+◌, ◌*◌, ◌/◌, min, ◌≤◌, ◌<◌, ◌≡◌, inl, inr, Option, none, some, arith, refl,
}
use omnipair_rs.Word.{u16, u64}
use omnipair_rs.Outcome.{ok, err, fails, not_undercollateralized, Result-cases}
use omnipair_rs.Constants.{bps_denominator}
use omnipair_rs.Math.Rounding.{le_of_mul}
use omnipair_rs.Curve.{
  virtual_reserves, calculate_amount_out, value_with_impact, liquidation_cf, pessimistic_max_debt,
}
use omnipair_rs.Curve.Product.{calculate_amount_out-eq}
use omnipair_rs.Curve.Limit.{pessimistic_max_debt-IsLimited, limit-le-liquidation}
use omnipair_rs.Pair.{Side, Pair, ema_price_nad}
use omnipair_rs.Position.{calculate_debt}
use omnipair_rs.Lending.Liquidate.{write_off_of}
use omnipair_rs.Lending.Seizure.{healthy_is_refused}

liquidation_cf-word :
    (fixed_cf : Option ℕ) (base ema directional : ℕ) {cf : ℕ}
    → liquidation_cf fixed_cf base ema directional ≡ ok cf
    → cf < u16
unfolding liquidation_cf
liquidation_cf-word none base ema directional h = ground arith
liquidation_cf-word (some fixed) base ema directional h = ground arith

-- The pessimistic price is the symmetric one, unless the directional one is lower.
virtual_at_ema :
    (x y ema directional : ℕ)
    → ema ≤ directional
    → virtual_reserves x y ema directional ≡ virtual_reserves x y ema ema
unfolding virtual_reserves
virtual_at_ema x y ema directional le =
    let e : min directional ema ≡ min ema ema = omega arith in rw e refl

value_at_ema :
    (collateral x y ema directional : ℕ)
    → ema ≤ directional
    → value_with_impact collateral ema directional x y ≡ value_with_impact collateral ema ema x y
unfolding value_with_impact
value_at_ema collateral x y ema directional le = rw (virtual_at_ema x y ema directional le) refl

pub value-word :
    (collateral x y ema directional : ℕ) {value : ℕ}
    → value_with_impact collateral ema directional x y ≡ ok value
    → value < u64
unfolding value_with_impact
value-word collateral x y ema directional {value} h =
    elim (Result-cases (virtual_reserves x y ema directional)) [
      | inr (e, bad) ↦ ground arith
      | inl ((a, b), virtual) ↦
          let sold : calculate_amount_out a b collateral ≡ ok value = ground arith in
          (calculate_amount_out-eq a b collateral sold).2
    ]

-- While the directional price is not below the symmetric one, a debt of at most the borrow limit
-- is not liquidated at the liquidation factor that comes with this limit: at the same reserves
-- and symmetric price `liquidate` refuses it, for every limit of at least 19 units.
pub borrowed_is_safe :
    (slot : ℕ) (p : Pair) (c d : Side) (collateral own ema directional debt : ℕ)
    (fixed_cf : Option ℕ) {limit allowed cf user_debt : ℕ}
    → pessimistic_max_debt collateral ema directional c.reserve d.reserve debt fixed_cf
      ≡ ok (limit, allowed, cf)
    → ema ≤ directional
    → 19 ≤ limit
    → ema_price_nad slot p c d ≡ ok ema
    → calculate_debt own d.total_debt d.total_debt_shares ≡ ok user_debt
    → user_debt ≤ limit
    → write_off_of slot p c d collateral own cf ≡ err (fails not_undercollateralized)
borrowed_is_safe slot p c d collateral own ema directional debt fixed_cf {limit} {allowed} {cf}
      {user_debt} h rising enough priced owed within =
    elim (pessimistic_max_debt-IsLimited collateral ema directional c.reserve d.reserve debt
      fixed_cf _ h) [
        | inl nothing ↦ ground arith
        | inr (value, valued, (base, based, factor, _, _)) ↦
            let (scaled, _) =
              limit-le-liquidation collateral ema directional c.reserve d.reserve debt fixed_cf h
                valued in
            let small_cf = liquidation_cf-word fixed_cf base ema directional factor in
            let small_value = value-word collateral c.reserve d.reserve ema directional valued in
            let narrow : cf ≤ u16 = omega arith in
            let product = mul-le-mul_left value narrow in
            let above : limit + 1 ≤ value * cf / bps_denominator =
              le_of_mul (limit + 1) bps_denominator (value * cf) (omega arith) (omega arith) in
            healthy_is_refused slot p c d collateral own cf owed priced
              (rw (value_at_ema collateral c.reserve d.reserve ema directional rising) at valued)
              (omega arith) (omega arith)
      ]
