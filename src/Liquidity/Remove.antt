-- ===== src/Liquidity/Remove.antt =====
-- programs/omnipair/src/instructions/liquidity/remove_liquidity.rs: the instruction
-- `remove_liquidity`, with the debt coverage that must be left.
use omnipair_rs.Base.{ℕ, ltb, leb, ◌==◌, ◌&&◌, if◌then◌else◌, Pubkey}
use omnipair_rs.Word.{u128, checked_sub, checked_mul}
use omnipair_rs.Outcome.{
  Result, ok, ◌>>=◌, ◌>>◌, require, ok_or, amount_zero, insufficient_liquidity,
  insufficient_balance, liquidity_math_overflow, slippage_exceeded, insufficient_cash_reserve0,
  insufficient_cash_reserve1, reserve_underflow, supply_underflow, cash_reserve_underflow,
  insufficient_post_withdraw_debt_coverage, debt_math_overflow,
}
use omnipair_rs.Constants.{
  bps_denominator, liquidity_withdrawal_fee_bps, post_withdraw_debt_coverage_bps,
}
use omnipair_rs.Math.{ceil_div}
use omnipair_rs.Curve.{virtual_reserves, calculate_amount_in}
use omnipair_rs.RateModel.{RateModel}
use omnipair_rs.Futarchy.{FutarchyAuthority}
use omnipair_rs.Pair.{Pair, update, ema_price_nad, directional_ema_price_nad}
use omnipair_rs.Swap.{fee_of}
use omnipair_rs.Token.{TokenProgram, transfer, token_burn}
use omnipair_rs.Breaker.{
  Sysvar, ProgramIds, remove_liquidity, require_top_level, require_no_same_tx_add_liquidity,
}
use omnipair_rs.Liquidity.{LiquidityAccounts, reserve_share}

pub record RemoveLiquidityArgs : Type 0 where
  pub liquidity_in : ℕ
  pub min_amount0_out : ℕ
  pub min_amount1_out : ℕ

-- `required_collateral_with_impact`.
unfoldable pub required_collateral : ℕ → ℕ → ℕ → ℕ → ℕ → Result ℕ
required_collateral debt collateral_spot debt_spot ema directional =
    let needed = do
      require (ltb 0 ema && ltb 0 directional) insufficient_post_withdraw_debt_coverage
      (x, y) ← virtual_reserves collateral_spot debt_spot ema directional
      require (ltb 0 x && ltb debt y) insufficient_post_withdraw_debt_coverage
      calculate_amount_in x y debt
    in if debt == 0 then ok 0 else needed

-- `with_debt_coverage_buffer`.
unfoldable pub with_debt_coverage_buffer : ℕ → Result ℕ
with_debt_coverage_buffer amount = do
  product ← ok_or (checked_mul u128 amount post_withdraw_debt_coverage_bps) debt_math_overflow
  ok_or (ceil_div product bps_denominator) debt_math_overflow

-- `validate_post_withdraw_debt_coverage_with_prices`.
unfoldable pub validate_coverage_with_prices :
    (post_reserve0 post_reserve1 debt0 debt1 ema0 directional0 ema1 directional1 : ℕ)
    → Result (Unit {0})
validate_coverage_with_prices post0 post1 debt0 debt1 ema0 directional0 ema1 directional1 = do
  required1 ← required_collateral debt0 post1 post0 ema1 directional1
  required0 ← required_collateral debt1 post0 post1 ema0 directional0
  buffered1 ← with_debt_coverage_buffer required1
  require (leb buffered1 post1) insufficient_post_withdraw_debt_coverage
  buffered0 ← with_debt_coverage_buffer required0
  require (leb buffered0 post0) insufficient_post_withdraw_debt_coverage

-- `validate_post_withdraw_debt_coverage`, at the prices before the withdrawal.
unfoldable pub validate_coverage : ℕ → Pair → ℕ → ℕ → Result (Unit {0})
validate_coverage slot p post0 post1 = do
  ema0 ← ema_price_nad slot p p.side0 p.side1
  directional0 ← directional_ema_price_nad slot p p.side0 p.side1
  ema1 ← ema_price_nad slot p p.side1 p.side0
  directional1 ← directional_ema_price_nad slot p p.side1 p.side0
  validate_coverage_with_prices post0 post1 p.side0.total_debt p.side1.total_debt ema0 directional0
      ema1 directional1

-- The share of a side that is paid out, less the withdrawal fee.
unfoldable pub withdrawn : ℕ → ℕ → ℕ → Result ℕ
withdrawn liquidity reserve total_supply = do
  gross ← reserve_share liquidity reserve total_supply
  fee ← fee_of gross liquidity_withdrawal_fee_bps
  ok_or (checked_sub gross fee) liquidity_math_overflow

-- The amounts that are paid out, and the pair after them.
pub record Withdrawal : Type 0 where
  pub amount0 : ℕ
  pub amount1 : ℕ
  pub pair : Pair

unfoldable pub remove_from_pair : ℕ → RemoveLiquidityArgs → Pair → Result Withdrawal
remove_from_pair slot args p = do
  out0 ← withdrawn args.liquidity_in p.side0.reserve p.total_supply
  out1 ← withdrawn args.liquidity_in p.side1.reserve p.total_supply
  require (leb args.min_amount0_out out0) slippage_exceeded
  require (leb args.min_amount1_out out1) slippage_exceeded
  require (leb out0 p.side0.cash_reserve) insufficient_cash_reserve0
  require (leb out1 p.side1.cash_reserve) insufficient_cash_reserve1
  post0 ← ok_or (checked_sub p.side0.reserve out0) reserve_underflow
  post1 ← ok_or (checked_sub p.side1.reserve out1) reserve_underflow
  validate_coverage slot p post0 post1
  supply ← ok_or (checked_sub p.total_supply args.liquidity_in) supply_underflow
  cash0 ← ok_or (checked_sub p.side0.cash_reserve out0) cash_reserve_underflow
  cash1 ← ok_or (checked_sub p.side1.cash_reserve out1) cash_reserve_underflow
  ok (record {
    amount0 = out0;
    amount1 = out1;
    pair = record p {
      side0 = record (p.side0) { reserve = post0; cash_reserve = cash0 };
      side1 = record (p.side1) { reserve = post1; cash_reserve = cash1 };
      total_supply = supply;
    };
  })

module _ (t : TokenProgram) where
  open t use {Ledger, balance}

  -- `validate_remove`.
  unfoldable pub validate_remove :
      ProgramIds
      → Pubkey
      → Sysvar
      → LiquidityAccounts
      → RemoveLiquidityArgs
      → Pair
      → Ledger
      → Result (Unit {0})
  validate_remove ids pair_key sysvar a args p l = do
    require_top_level ids pair_key sysvar remove_liquidity
    require_no_same_tx_add_liquidity ids pair_key sysvar
    require (ltb 0 args.liquidity_in) amount_zero
    require (leb args.liquidity_in p.total_supply) insufficient_liquidity
    require (leb args.liquidity_in (balance l a.user_lp)) insufficient_balance

  -- `handle_remove`.
  unfoldable pub handle_remove :
      ℕ → LiquidityAccounts → RemoveLiquidityArgs → Pair → Ledger → Result (Pair × Ledger)
  handle_remove slot a args p l = do
    removed ← remove_from_pair slot args p
    paid0 ← transfer t a.reserve0_vault a.user_token0 removed.amount0 l
    paid1 ← transfer t a.reserve1_vault a.user_token1 removed.amount1 paid0
    burnt ← token_burn t p.lp_mint a.user_lp args.liquidity_in paid1
    let q = removed.pair
    reported0 ← reserve_share (balance burnt a.user_lp) q.side0.reserve q.total_supply
    reported1 ← reserve_share (balance burnt a.user_lp) q.side1.reserve q.total_supply
    ok (q, burnt)

  -- The instruction: `update_and_validate_remove`, then the handler.
  unfoldable pub remove :
      ℕ
      → RateModel
      → ProgramIds
      → Pubkey
      → Sysvar
      → FutarchyAuthority
      → LiquidityAccounts
      → RemoveLiquidityArgs
      → Pair
      → Ledger
      → Result (Pair × Ledger)
  remove slot m ids pair_key sysvar authority a args p l = do
    current ← update slot m authority.revenue_share.interest_bps p
    validate_remove ids pair_key sysvar a args current l
    handle_remove slot a args current l
