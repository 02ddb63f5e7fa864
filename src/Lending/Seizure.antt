-- ===== src/Lending/Seizure.antt =====
-- Proofs: the threshold, the amounts and the accounting of a liquidation
-- (instructions/lending/liquidate.rs).
use native.Mathlib.Nat.{mul-le-mul_right, div-le_of_le-mul}
use omnipair_rs.Base.{
  ℕ, ◌+◌, ◌*◌, ◌/◌, ◌≤◌, ◌<◌, ◌≡◌, inl, inr, Bool, true, ltb, arith, Option-cases,
}
use omnipair_rs.Word.{u64, u128}
use omnipair_rs.Outcome.{ok, err, fails, not_undercollateralized, Result-cases}
use omnipair_rs.Constants.{bps_denominator}
use omnipair_rs.Math.{ceil_div}
use omnipair_rs.Pair.{Side, Pair, ema_price_nad}
use omnipair_rs.Pair.Accounting.{IsBalanced}
use omnipair_rs.Curve.{
  virtual_reserves, calculate_amount_out, calculate_amount_in, value_with_impact,
}
use omnipair_rs.Position.{
  calculate_debt, decrease_debt_on, shares_to_burn, settle, sync_debt, write_off,
}
use omnipair_rs.Position.Shares.{calculate_debt-eq}
use omnipair_rs.Math.Rounding.{ceil_div_bounds, le_of_mul}
use omnipair_rs.Lending.Liquidate.{
  WriteOff, write_off_of, shares_to_writeoff, debt_to_writeoff, collateral_to_seize, absorb,
}

-- Half of the shares, rounded up, or all of an insolvent position.
pub shares_to_writeoff-le :
    (insolvent : Bool) (own : ℕ) {shares : ℕ}
    → shares_to_writeoff insolvent own ≡ ok shares
    → (shares ≤ own) × (insolvent ≡ true → shares ≡ own)
unfolding shares_to_writeoff
shares_to_writeoff-le insolvent own h = (ground arith, λ e. ground arith)

debt_to_writeoff-le :
    (shares user_debt : ℕ) (s : Side) {debt : ℕ}
    → debt_to_writeoff shares user_debt s ≡ ok debt
    → debt ≤ user_debt
unfolding debt_to_writeoff
debt_to_writeoff-le shares user_debt s h = ground arith

collateral_to_seize-le :
    (base collateral : ℕ) {seized : ℕ}
    → collateral_to_seize base collateral ≡ ok seized
    → seized ≤ collateral
unfolding collateral_to_seize
collateral_to_seize-le base collateral h =
    elim (Option-cases (ceil_div (base * 10_300) bps_denominator)) [
      | inl bad ↦ ground arith
      | inr (c, e) ↦ ground arith
    ]

-- The steps of `write_off_of` that it took, with their results.
abbrev pub IsWriteOff : ℕ → Pair → Side → Side → ℕ → ℕ → ℕ → WriteOff → Type 0
IsWriteOff slot p c d collateral own cf_bps w =
    (ema : ℕ) × (calculate_debt own d.total_debt d.total_debt_shares ≡ ok w.user_debt)
    × (ema_price_nad slot p c d ≡ ok ema)
    × (value_with_impact collateral ema ema c.reserve d.reserve ≡ ok w.value)
    × (w.value * cf_bps / bps_denominator ≤ w.user_debt)
    × (shares_to_writeoff (ltb w.value w.user_debt) own ≡ ok w.shares)
    × (debt_to_writeoff w.shares w.user_debt d ≡ ok w.debt)
    × (collateral_to_seize w.collateral_base collateral ≡ ok w.collateral_final)

module _ (slot : ℕ) (p : Pair) (c d : Side) (collateral own cf_bps : ℕ) where
  pub write_off_of-IsWriteOff :
      (w : WriteOff)
      → write_off_of slot p c d collateral own cf_bps ≡ ok w
      → IsWriteOff slot p c d collateral own cf_bps w
  unfolding write_off_of value_with_impact
  write_off_of-IsWriteOff w h =
      elim (Result-cases (calculate_debt own d.total_debt d.total_debt_shares)) [
        | inr (e, bad) ↦ ground arith
        | inl (user_debt, owed) ↦ elim (Result-cases (ema_price_nad slot p c d)) [
          | inr (e, bad) ↦ ground arith
          | inl (ema, priced) ↦ elim (Result-cases (virtual_reserves c.reserve d.reserve ema ema)) [
            | inr (e, bad) ↦ ground arith
            | inl ((x, y), virtual) ↦ elim (Result-cases (calculate_amount_out x y collateral)) [
              | inr (e, bad) ↦ ground arith
              | inl (value, valued) ↦
                  elim (Result-cases (shares_to_writeoff (ltb value user_debt) own)) [
                    | inr (e, bad) ↦ ground arith
                    | inl (shares, counted) ↦
                        elim (Result-cases (debt_to_writeoff shares user_debt d)) [
                          | inr (e, bad) ↦ ground arith
                          | inl (debt, written) ↦
                              elim (Result-cases (calculate_amount_in x y debt)) [
                                | inr (e, bad) ↦ ground arith
                                | inl (base, priced_in) ↦
                                    elim (Result-cases (collateral_to_seize base collateral)) [
                                      | inr (e, bad) ↦ ground arith
                                      | inl (seized, taken) ↦ (
                                        ema,
                                        ground arith,
                                        priced,
                                        ground arith,
                                        ground arith,
                                        ground arith,
                                        ground arith,
                                        ground arith,
                                      )
                                    ]
                              ]
                        ]
                  ]
            ]
          ]
        ]
      ]

  -- A liquidation is refused while the debt is below the collateral's value at the liquidation
  -- factor, if the product of this value and the factor fits a u128.
  pub healthy_is_refused :
      {user_debt ema value : ℕ}
      → calculate_debt own d.total_debt d.total_debt_shares ≡ ok user_debt
      → ema_price_nad slot p c d ≡ ok ema
      → value_with_impact collateral ema ema c.reserve d.reserve ≡ ok value
      → value * cf_bps < u128
      → user_debt < value * cf_bps / bps_denominator
      → write_off_of slot p c d collateral own cf_bps ≡ err (fails not_undercollateralized)
  unfolding write_off_of value_with_impact
  healthy_is_refused {user_debt} {ema} {value} owed priced valued fits healthy =
      elim (Result-cases (virtual_reserves c.reserve d.reserve ema ema)) [
        | inr (e, bad) ↦ ground arith
        | inl ((x, y), virtual) ↦ ground arith
      ]

  -- A liquidation takes at most what the position has: at most its shares, and all of them when
  -- it owes more than its collateral's value, at most its debt, at most its collateral; and only
  -- when the debt has reached the collateral's value at the liquidation factor. The value is what
  -- the whole collateral brings at the symmetric average price, with its impact on the price.
  pub write_off_of_bounds :
      {w : WriteOff}
      → write_off_of slot p c d collateral own cf_bps ≡ ok w
      → (calculate_debt own d.total_debt d.total_debt_shares ≡ ok w.user_debt)
        × ((ema : ℕ) × (ema_price_nad slot p c d ≡ ok ema)
            × (value_with_impact collateral ema ema c.reserve d.reserve ≡ ok w.value))
        × (w.value * cf_bps / bps_denominator ≤ w.user_debt)
        × (w.shares ≤ own)
        × (w.value < w.user_debt → w.shares ≡ own)
        × (w.debt ≤ w.user_debt)
        × (w.collateral_final ≤ collateral)
  write_off_of_bounds {w} h =
      let (ema, owed, priced, valued, reached, counted, written, taken) =
        write_off_of-IsWriteOff w h in
      let (le, all) = shares_to_writeoff-le (ltb w.value w.user_debt) own counted in
      (
        owed,
        (ema, priced, valued),
        reached,
        le,
        λ insolvent. all (ground arith),
        debt_to_writeoff-le w.shares w.user_debt d written,
        collateral_to_seize-le w.collateral_base collateral taken,
      )

-- The floor that is written off for at most all shares of the side: the exact quotient, which is at
-- most the debt, and all of it for all shares.
written_lem :
    (s : Side) (own shares : ℕ) {user_debt debt : ℕ}
    → 0 < s.total_debt_shares
    → s.total_debt < u64
    → own ≤ s.total_debt_shares
    → shares ≤ own
    → calculate_debt own s.total_debt s.total_debt_shares ≡ ok user_debt
    → debt_to_writeoff shares user_debt s ≡ ok debt
    → (debt ≡ shares * s.total_debt / s.total_debt_shares)
      × (debt ≤ s.total_debt)
      × (shares ≡ s.total_debt_shares → debt ≡ s.total_debt)
unfolding debt_to_writeoff
written_lem s own shares {user_debt} {debt} pos_s fits own_le le owed h =
    let whole = mul-le-mul_right s.total_debt own_le in
    let less = mul-le-mul_right s.total_debt le in
    let part : shares * s.total_debt / s.total_debt_shares ≤ s.total_debt =
      div-le_of_le-mul s.total_debt_shares {m = shares * s.total_debt} {n = s.total_debt}
        (omega arith) in
    elim (calculate_debt-eq own s.total_debt s.total_debt_shares owed) [
      | inl (empty, _) ↦ omega (arith, empty)
      | inr (_, ceil) ↦
          let (_, cover, _) = ceil_div_bounds (own * s.total_debt) s.total_debt_shares ceil in
          let below : shares * s.total_debt / s.total_debt_shares ≤ user_debt =
            div-le_of_le-mul s.total_debt_shares {m = shares * s.total_debt} {n = user_debt}
              (omega arith) in
          let exact : debt ≡ shares * s.total_debt / s.total_debt_shares = ground arith in
          (
            exact,
            omega arith,
            λ all.
                let full : s.total_debt ≤ shares * s.total_debt / s.total_debt_shares =
                  le_of_mul s.total_debt s.total_debt_shares (shares * s.total_debt) pos_s
                    (rw all (omega arith)) in
                omega arith,
          )
    ]

-- If r_virtual = r_cash + r_debt holds on the debt side, the user has at most all of its shares,
-- and at most the user's shares are written off with the debt that the code computes for them,
-- it holds after the liquidation: the reserve loses exactly the debt that is written off, the
-- cash stays, and the user and the side lose these shares.
pub write_off-IsBalanced :
    (s : Side) (own shares : ℕ) {user_debt debt own' : ℕ} {s' : Side}
    → IsBalanced s
    → 0 < s.total_debt_shares
    → s.total_debt < u64
    → own ≤ s.total_debt_shares
    → shares ≤ own
    → calculate_debt own s.total_debt s.total_debt_shares ≡ ok user_debt
    → debt_to_writeoff shares user_debt s ≡ ok debt
    → decrease_debt_on s own debt (write_off shares) ≡ ok (s', own')
    → IsBalanced s'
      × (s'.reserve + debt ≡ s.reserve)
      × (s'.cash_reserve ≡ s.cash_reserve)
      × (own' + shares ≡ own)
      × (s'.total_debt_shares + shares ≡ s.total_debt_shares)
unfolding decrease_debt_on shares_to_burn settle sync_debt
write_off-IsBalanced s own shares balanced pos_s fits own_le le owed written h =
    let (_, small, all) = written_lem s own shares pos_s fits own_le le owed written in ground arith

-- If r_virtual = r_cash + r_debt holds on the collateral side, it holds after a liquidation: the
-- reserve gains what goes to it, the collateral loses what is seized, debt and shares stay.
pub absorb-IsBalanced :
    (seized to_reserves : ℕ) (s : Side) {s' : Side}
    → IsBalanced s
    → absorb seized to_reserves s ≡ ok s'
    → IsBalanced s'
      × (s'.reserve ≡ s.reserve + to_reserves)
      × (s'.total_collateral + seized ≡ s.total_collateral)
      × (s'.total_debt ≡ s.total_debt)
      × (s'.total_debt_shares ≡ s.total_debt_shares)
unfolding absorb
absorb-IsBalanced seized to_reserves s balanced h = ground arith
