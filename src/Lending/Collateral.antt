-- ===== src/Lending/Collateral.antt =====
-- programs/omnipair/src/instructions/lending/add_collateral.rs and remove_collateral.rs: the
-- instructions `add_collateral` and `remove_collateral`.
use omnipair_rs.Base.{ℕ, Bool, true, false, not, ltb, leb, ◌==◌, ◌&&◌, ◌||◌, if◌then◌else◌, Pubkey}
use omnipair_rs.Word.{u64, max_word, checked_add, checked_sub}
use omnipair_rs.Outcome.{
  Result, ok, ◌>>=◌, ◌>>◌, require, ok_or, unwrap, amount_zero, insufficient_balance_for_collateral,
  reduce_only_has_debt, overflow, borrowing_power_exceeded,
}
use omnipair_rs.RateModel.{RateModel}
use omnipair_rs.Futarchy.{FutarchyAuthority, is_reduce_only}
use omnipair_rs.Pair.{Pair, update, max_debt_and_cf_bps}
use omnipair_rs.Position.{UserPosition, initialize, is_initialized, set_liquidation_cf}
use omnipair_rs.Token.{TokenProgram, transfer}
use omnipair_rs.Breaker.{Sysvar, ProgramIds, require_no_same_tx_liquidity_delta}
use omnipair_rs.Int.{neg_as_i64}
use omnipair_rs.Lending.{CollateralAccounts, debt_on, collateral_on}

-- The collateral of a position and of the pair, more or less, on the side of token 0 or of token 1.
unfoldable pub deposit_collateral : Bool → ℕ → UserPosition → Pair → Result (UserPosition × Pair)
deposit_collateral true amount u p = do
  total ← unwrap (checked_add u64 p.side0.total_collateral amount)
  own ← unwrap (checked_add u64 u.collateral0 amount)
  ok (
    record u { collateral0 = own },
    record p { side0 = record (p.side0) { total_collateral = total } },
  )
deposit_collateral false amount u p = do
  total ← unwrap (checked_add u64 p.side1.total_collateral amount)
  own ← unwrap (checked_add u64 u.collateral1 amount)
  ok (
    record u { collateral1 = own },
    record p { side1 = record (p.side1) { total_collateral = total } },
  )

unfoldable pub withdraw_collateral : Bool → ℕ → UserPosition → Pair → Result (UserPosition × Pair)
withdraw_collateral true amount u p = do
  total ← unwrap (checked_sub p.side0.total_collateral amount)
  own ← unwrap (checked_sub u.collateral0 amount)
  ok (
    record u { collateral0 = own },
    record p { side0 = record (p.side0) { total_collateral = total } },
  )
withdraw_collateral false amount u p = do
  total ← unwrap (checked_sub p.side1.total_collateral amount)
  own ← unwrap (checked_sub u.collateral1 amount)
  ok (
    record u { collateral1 = own },
    record p { side1 = record (p.side1) { total_collateral = total } },
  )

-- The largest word withdraws all, when nothing is owed.
unfoldable pub withdraw_amount : ℕ → ℕ → ℕ → ℕ
withdraw_amount requested debt collateral =
    if requested == max_word u64 && debt == 0 then collateral else requested

-- `CommonAdjustCollateral::validate_remove`; the debt is in the other token.
unfoldable pub validate_remove :
    ℕ
    → ProgramIds
    → Pubkey
    → Sysvar
    → FutarchyAuthority
    → CollateralAccounts
    → ℕ
    → UserPosition
    → Pair
    → Result (Unit {0})
validate_remove slot ids pair_key sysvar authority a requested u p = do
  require_no_same_tx_liquidity_delta ids pair_key sysvar
  require (ltb 0 requested) amount_zero
  let is_token0 = a.user_collateral_token_account_mint == p.token0
  let collateral = collateral_on is_token0 u
  debt ← debt_on (not is_token0) u p
  require (not (is_reduce_only authority p.reduce_only) || debt == 0) reduce_only_has_debt
  let amount = withdraw_amount requested debt collateral
  require (ltb 0 amount) amount_zero
  require (leb amount collateral) insufficient_balance_for_collateral
  let covered = do
    remaining ← ok_or (checked_sub collateral amount) overflow
    (limit, _, _) ← max_debt_and_cf_bps slot p (if is_token0 then p.token0 else p.token1) remaining
    require (leb debt limit) borrowing_power_exceeded
  if ltb 0 debt then covered else ok tt

module _ (t : TokenProgram) where
  open t use {Ledger, balance}

  -- `AddCollateral::validate_add`.
  unfoldable pub validate_add : CollateralAccounts → ℕ → Ledger → Result (Unit {0})
  validate_add a amount l = do
    require (ltb 0 amount) amount_zero
    require (leb amount (balance l a.user_collateral_token_account))
        insufficient_balance_for_collateral

  -- `AddCollateral::handle_add_collateral`, for a user and a pair, the position's bump given.
  unfoldable pub handle_add_collateral :
      Pubkey
      → Pubkey
      → ℕ
      → CollateralAccounts
      → ℕ
      → UserPosition
      → Pair
      → Ledger
      → Result (UserPosition × Pair × Ledger)
  handle_add_collateral user pair_key bump a amount u p l = do
    let own = if is_initialized u then u else initialize user pair_key bump u
    paid ← transfer t a.user_collateral_token_account a.collateral_vault amount l
    (secured, q) ←
        deposit_collateral (a.user_collateral_token_account_mint == p.token0) amount own p
    ok (secured, q, paid)

  -- The instruction: `update_and_validate_add`, then the handler.
  unfoldable pub add_collateral :
      ℕ
      → RateModel
      → FutarchyAuthority
      → Pubkey
      → Pubkey
      → ℕ
      → CollateralAccounts
      → ℕ
      → UserPosition
      → Pair
      → Ledger
      → Result (UserPosition × Pair × Ledger)
  add_collateral slot m authority user pair_key bump a amount u p l = do
    current ← update slot m authority.revenue_share.interest_bps p
    validate_add a amount l
    handle_add_collateral user pair_key bump a amount u current l

  -- `CommonAdjustCollateral::handle_remove_collateral`; the event has the negative of the amount,
  -- which can overflow.
  unfoldable pub handle_remove_collateral :
      ℕ
      → CollateralAccounts
      → ℕ
      → UserPosition
      → Pair
      → Ledger
      → Result (UserPosition × Pair × Ledger)
  handle_remove_collateral slot a requested u p l = do
    let is_token0 = a.user_collateral_token_account_mint == p.token0
    let collateral = collateral_on is_token0 u
    debt ← debt_on (not is_token0) u p
    let amount = withdraw_amount requested debt collateral
    require (ltb 0 amount) amount_zero
    require (leb amount collateral) insufficient_balance_for_collateral
    paid ← transfer t a.collateral_vault a.user_collateral_token_account amount l
    (released, q) ← withdraw_collateral is_token0 amount u p
    (_, _, cf) ←
        max_debt_and_cf_bps slot q (if is_token0 then q.token0 else q.token1)
          (collateral_on is_token0 released)
    reported ← neg_as_i64 amount
    ok (set_liquidation_cf (if is_token0 then q.token1 else q.token0) q cf released, q, paid)

  -- The instruction: `update_and_validate_remove`, then the handler.
  unfoldable pub remove_collateral :
      ℕ
      → RateModel
      → ProgramIds
      → Pubkey
      → Sysvar
      → FutarchyAuthority
      → CollateralAccounts
      → ℕ
      → UserPosition
      → Pair
      → Ledger
      → Result (UserPosition × Pair × Ledger)
  remove_collateral slot m ids pair_key sysvar authority a requested u p l = do
    current ← update slot m authority.revenue_share.interest_bps p
    validate_remove slot ids pair_key sysvar authority a requested u current
    handle_remove_collateral slot a requested u current l
