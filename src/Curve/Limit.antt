-- ===== src/Curve/Limit.antt =====
-- Proofs: the borrow limit of `pessimistic_max_debt` (utils/gamm_math.rs) against the liquidation
-- threshold.
use native.Mathlib.Nat.{mul-le-mul_left}
use omnipair_rs.Math.Rounding.{le_of_mul}
use omnipair_rs.Base.{
  ℕ, ◌+◌, ◌-◌, ◌*◌, ◌/◌, ◌≤◌, ◌<◌, ◌≡◌, ◌⊎◌, inl, inr, Option, none, some, arith, Bool-cases, ◌==◌,
  ◌||◌, ◌&&◌,
}
use omnipair_rs.Word.{u16}
use omnipair_rs.Outcome.{ok, Result-cases}
use omnipair_rs.Constants.{bps_denominator, ltv_buffer_bps, max_collateral_factor_bps}
use omnipair_rs.Curve.{
  value_with_impact, limit_at_value, pessimistic_max_debt, base_cf_bps, liquidation_cf, is_unset,
  max_allowed_cf, borrow_limit,
}

max_allowed_cf-le :
    (cf : ℕ) → max_allowed_cf cf * bps_denominator ≤ cf * (bps_denominator - ltv_buffer_bps)
unfolding max_allowed_cf
max_allowed_cf-le cf = omega arith

borrow_limit-le : (value cf : ℕ) → borrow_limit value cf * bps_denominator ≤ value * cf
unfolding borrow_limit
borrow_limit-le value cf = ground arith

liquidation_cf_dynamic :
    (base ema directional : ℕ) {cf : ℕ}
    → liquidation_cf none base ema directional ≡ ok cf
    → cf ≤ max_collateral_factor_bps
unfolding liquidation_cf
liquidation_cf_dynamic base ema directional h = ground arith

liquidation_cf_fixed :
    (fixed base ema directional : ℕ) {cf : ℕ}
    → base < u16
    → liquidation_cf (some fixed) base ema directional ≡ ok cf
    → (100 ≤ cf) × (cf ≤ base + 100)
unfolding liquidation_cf
liquidation_cf_fixed fixed base ema directional small h = ground arith

module _ (collateral ema directional collateral_reserve debt_reserve debt : ℕ) where
  -- What a successful call has computed: nothing is lent, or the value of the collateral on the
  -- virtual reserves is scaled by the two factors.
  abbrev pub IsLimited : Option ℕ → ℕ → ℕ × ℕ × ℕ → Type 0
  IsLimited fixed_cf value (limit, allowed, liquidation) =
      (base : ℕ) × (base_cf_bps fixed_cf collateral value ema directional collateral_reserve
          debt_reserve debt
        ≡ ok base)
      × (liquidation_cf fixed_cf base ema directional ≡ ok liquidation)
      × (allowed ≡ max_allowed_cf liquidation)
      × (limit ≡ borrow_limit value allowed)

  limit_at_value-IsLimited :
      (value : ℕ) (fixed_cf : Option ℕ) (r : ℕ × ℕ × ℕ)
      → limit_at_value value collateral ema directional collateral_reserve debt_reserve debt
          fixed_cf
        ≡ ok r
      → IsLimited fixed_cf value r
  unfolding limit_at_value
  limit_at_value-IsLimited value fixed_cf r h =
      let base_call =
        base_cf_bps fixed_cf collateral value ema directional collateral_reserve debt_reserve
          debt in
      elim (Result-cases base_call) [
        | inr (e, bad) ↦ ground arith
        | inl (base, based) ↦ elim (Result-cases (liquidation_cf fixed_cf base ema directional)) [
          | inr (e, bad) ↦ ground arith
          | inl (liquidation, capped) ↦ (base, based, ground arith, ground arith, ground arith)
        ]
      ]

  pub pessimistic_max_debt-IsLimited :
      (fixed_cf : Option ℕ) (r : ℕ × ℕ × ℕ)
      → pessimistic_max_debt collateral ema directional collateral_reserve debt_reserve debt
          fixed_cf
        ≡ ok r
      → (r ≡ (0, 0, 0))
        ⊎ ((value : ℕ) × (value_with_impact collateral ema directional collateral_reserve
                debt_reserve
              ≡ ok value)
            × IsLimited fixed_cf value r)
  unfolding pessimistic_max_debt
  pessimistic_max_debt-IsLimited fixed_cf r h =
      elim (Bool-cases (collateral == 0 || ema == 0 || directional == 0)) [
        | inl nothing ↦ inl (ground arith)
        | inr priced ↦
            elim (Result-cases
              (value_with_impact collateral ema directional collateral_reserve debt_reserve)) [
                | inr (e, bad) ↦ ground arith
                | inl (value, valued) ↦ elim (Bool-cases (is_unset fixed_cf && debt_reserve == 0)) [
                  | inl empty ↦ inl (ground arith)
                  | inr lends ↦
                      inr (value, valued, limit_at_value-IsLimited value fixed_cf r (ground arith))
                ]
              ]
      ]

  scaled_limit :
      (fixed_cf : Option ℕ) {limit allowed liquidation value : ℕ}
      → pessimistic_max_debt collateral ema directional collateral_reserve debt_reserve debt
          fixed_cf
        ≡ ok (limit, allowed, liquidation)
      → value_with_impact collateral ema directional collateral_reserve debt_reserve ≡ ok value
      → limit * (bps_denominator * bps_denominator)
        ≤ value * liquidation * (bps_denominator - ltv_buffer_bps)
  scaled_limit fixed_cf {limit} {allowed} {liquidation} {value} h valued =
      elim (pessimistic_max_debt-IsLimited fixed_cf _ h) [
        | inl nothing ↦ let none_lent : limit ≡ 0 = ground arith in omega arith
        | inr (v, valued', (base, _, _, e_allowed, e_limit)) ↦
            let same : value ≡ v = ground arith in
            let low = borrow_limit-le v allowed in
            let cap : allowed * bps_denominator ≤ liquidation * (bps_denominator - ltv_buffer_bps) =
              rw e_allowed (max_allowed_cf-le liquidation) in
            let more = mul-le-mul_left v cap in rw (same, e_limit) (omega arith)
      ]

  -- For the same value of the collateral, the borrow limit is at most 95% of this value at the
  -- liquidation factor, and at most the threshold that `liquidate` computes from them.
  pub limit-le-liquidation :
      (fixed_cf : Option ℕ) {limit allowed liquidation value : ℕ}
      → pessimistic_max_debt collateral ema directional collateral_reserve debt_reserve debt
          fixed_cf
        ≡ ok (limit, allowed, liquidation)
      → value_with_impact collateral ema directional collateral_reserve debt_reserve ≡ ok value
      → (limit * (bps_denominator * bps_denominator)
          ≤ value * liquidation * (bps_denominator - ltv_buffer_bps))
        × (limit ≤ value * liquidation / bps_denominator)
  limit-le-liquidation fixed_cf {limit} {allowed} {liquidation} {value} h valued =
      let scaled = scaled_limit fixed_cf h valued in
      (scaled, le_of_mul limit bps_denominator (value * liquidation) (omega arith) (omega arith))
