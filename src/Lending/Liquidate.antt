-- ===== src/Lending/Liquidate.antt =====
-- programs/omnipair/src/instructions/lending/liquidate.rs: the instruction `liquidate`.
use omnipair_rs.Base.{ℕ, ◌+◌, ◌/◌, min, Bool, ltb, leb, ◌==◌, if◌then◌else◌, Pubkey}
use omnipair_rs.Word.{
  u64, u128, checked_add, checked_mul, checked_sub, checked_div, try_into, saturating_add, cast,
}
use omnipair_rs.Outcome.{
  Result, ok, ◌>>=◌, ◌>>◌, require, ok_or, unwrap, invalid_vault, debt_math_overflow,
  not_undercollateralized, user_position_not_initialized, zero_debt_amount,
}
use omnipair_rs.Constants.{
  bps_denominator, close_factor_bps, liquidation_penalty_bps, liquidation_incentive_bps,
}
use omnipair_rs.Math.{ceil_div}
use omnipair_rs.Curve.{virtual_reserves, calculate_amount_out, calculate_amount_in}
use omnipair_rs.RateModel.{RateModel}
use omnipair_rs.Futarchy.{FutarchyAuthority}
use omnipair_rs.Pair.{Side, Pair, update, get_token_y, ema_price_nad, max_debt_and_cf_bps}
use omnipair_rs.Position.{
  UserPosition, is_initialized, liquidation_cf_bps, set_liquidation_cf, calculate_debt,
  decrease_debt, write_off,
}
use omnipair_rs.Token.{TokenProgram, transfer}
use omnipair_rs.Int.{neg_as_i64}
use omnipair_rs.Lending.{collateral_on}

pub record LiquidateAccounts : Type 0 where
  pub pair : Pubkey
  pub collateral_vault : Pubkey
  pub collateral_vault_mint : Pubkey
  pub collateral_token_mint : Pubkey
  pub reserve_vault : Pubkey
  pub reserve_vault_mint : Pubkey
  pub reserve_vault_owner : Pubkey
  pub caller_token_account : Pubkey

-- `Liquidate::validate`.
unfoldable pub validate_liquidate : LiquidateAccounts → UserPosition → Pair → Result (Unit {0})
validate_liquidate a u p = do
  require (is_initialized u) user_position_not_initialized
  require (ltb 0 (if a.collateral_token_mint == p.token0 then u.debt1_shares else u.debt0_shares))
      zero_debt_amount

-- The debt shares that are written off: all of an insolvent position, half of another, rounded up.
unfoldable pub shares_to_writeoff : Bool → ℕ → Result ℕ
shares_to_writeoff is_insolvent own =
    let partial = do
      product ← ok_or (checked_mul u128 own close_factor_bps) debt_math_overflow
      half ← ok_or (ceil_div product bps_denominator) debt_math_overflow
      ok (min own half)
    in if is_insolvent then ok own else partial

-- The debt of these shares, rounded down.
unfoldable pub debt_to_writeoff : ℕ → ℕ → Side → Result ℕ
debt_to_writeoff shares user_debt s =
    let owed = do
      product ← ok_or (checked_mul u128 shares s.total_debt) debt_math_overflow
      debt ← ok_or (checked_div product s.total_debt_shares) debt_math_overflow
      ok (min user_debt (cast u64 debt))
    in if s.total_debt_shares == 0 then ok 0 else owed

-- The collateral that is taken: what the written-off debt costs, with the penalty, if there is as much.
unfoldable pub collateral_to_seize : ℕ → ℕ → Result ℕ
collateral_to_seize base collateral = do
  product ←
      ok_or (checked_mul u128 base (bps_denominator + liquidation_penalty_bps)) debt_math_overflow
  with_penalty ← ok_or (ceil_div product bps_denominator) debt_math_overflow
  ok_or (try_into u64 (min with_penalty collateral)) debt_math_overflow

-- The caller's share of the collateral that is taken.
unfoldable pub incentive : ℕ → ℕ → Result ℕ
incentive base seized = do
  product ← ok_or (checked_mul u128 base liquidation_incentive_bps) debt_math_overflow
  share ← ok_or (try_into u64 (product / bps_denominator)) debt_math_overflow
  ok (min share seized)

-- What a liquidation takes from a position.
pub record WriteOff : Type 0 where
  pub user_debt : ℕ
  pub value : ℕ
  pub shares : ℕ
  pub debt : ℕ
  pub collateral_base : ℕ
  pub collateral_final : ℕ

-- The first half of `handle_liquidate`, for collateral on side `c` and debt on side `d`.
unfoldable pub write_off_of : ℕ → Pair → Side → Side → ℕ → ℕ → ℕ → Result WriteOff
write_off_of slot p c d collateral own cf_bps = do
  user_debt ← calculate_debt own d.total_debt d.total_debt_shares
  ema ← ema_price_nad slot p c d
  (x, y) ← virtual_reserves c.reserve d.reserve ema ema
  value ← calculate_amount_out x y collateral
  product ← ok_or (checked_mul u128 value cf_bps) debt_math_overflow
  require (leb (product / bps_denominator) user_debt) not_undercollateralized
  shares ← shares_to_writeoff (ltb value user_debt) own
  debt ← debt_to_writeoff shares user_debt d
  base ← calculate_amount_in x y debt
  seized ← collateral_to_seize base collateral
  ok (record {
    user_debt = user_debt;
    value = value;
    shares = shares;
    debt = debt;
    collateral_base = base;
    collateral_final = seized;
  })

-- The collateral side after a liquidation: the seized collateral leaves, what the caller does not get
-- is liquidity.
unfoldable pub absorb : ℕ → ℕ → Side → Result Side
absorb seized to_reserves s = do
  total ← unwrap (checked_sub s.total_collateral seized)
  new_reserve ← unwrap (checked_add u64 s.reserve to_reserves)
  ok (record s {
    total_collateral = total;
    reserve = new_reserve;
    cash_reserve = saturating_add u64 s.cash_reserve to_reserves;
  })

unfoldable pub seize : Bool → ℕ → ℕ → UserPosition → Pair → Result (UserPosition × Pair)
seize is_token0 seized to_reserves u p = do
  own ← unwrap (checked_sub (collateral_on is_token0 u) seized)
  s ← absorb seized to_reserves (if is_token0 then p.side0 else p.side1)
  ok (
      if is_token0
      then (record u { collateral0 = own }, record p { side0 = s })
      else (record u { collateral1 = own }, record p { side1 = s }))

module _ (t : TokenProgram) where
  open t use {Ledger}

  -- `Liquidate::handle_liquidate`; for the events, the written-off debt is negated
  -- and the price is computed again, which can fail.
  unfoldable pub handle_liquidate :
      ℕ → LiquidateAccounts → UserPosition → Pair → Ledger → Result (UserPosition × Pair × Ledger)
  handle_liquidate slot a u p l = do
    require (a.collateral_vault_mint == a.collateral_token_mint) invalid_vault
    require (a.reserve_vault_mint == a.collateral_token_mint) invalid_vault
    require (a.reserve_vault_owner == a.pair) invalid_vault
    let is_token0 = a.collateral_token_mint == p.token0
    let debt_token = if is_token0 then p.token1 else p.token0
    let cf = liquidation_cf_bps debt_token p u
    w ←
        (if is_token0
          then write_off_of slot p p.side0 p.side1 u.collateral0 u.debt1_shares cf
          else write_off_of slot p p.side1 p.side0 u.collateral1 u.debt0_shares cf)
    let collateral_token = get_token_y p debt_token
    post ←
        ok_or (checked_sub (collateral_on (collateral_token == p.token0) u) w.collateral_final)
          debt_math_overflow
    (_, _, new_cf) ← max_debt_and_cf_bps slot p collateral_token post
    caller_incentive ← incentive w.collateral_base w.collateral_final
    to_reserves ← ok_or (checked_sub w.collateral_final caller_incentive) debt_math_overflow
    (relieved, q) ← decrease_debt debt_token w.debt (write_off w.shares) u p
    let marked = set_liquidation_cf debt_token q new_cf relieved
    paid ← transfer t a.collateral_vault a.caller_token_account caller_incentive l
    moved ← transfer t a.collateral_vault a.reserve_vault to_reserves paid
    (after, r) ← seize is_token0 w.collateral_final to_reserves marked q
    adjusted ← neg_as_i64 w.debt
    reported ←
        (if is_token0
          then ema_price_nad slot r r.side0 r.side1
          else ema_price_nad slot r r.side1 r.side0)
    ok (after, r, moved)

  -- The instruction: `update_and_validate_liquidate`, then the handler.
  unfoldable pub liquidate :
      ℕ
      → RateModel
      → FutarchyAuthority
      → LiquidateAccounts
      → UserPosition
      → Pair
      → Ledger
      → Result (UserPosition × Pair × Ledger)
  liquidate slot m authority a u p l = do
    current ← update slot m authority.revenue_share.interest_bps p
    validate_liquidate a u current
    handle_liquidate slot a u current l
