-- ===== src/Liquidity/Add.antt =====
-- programs/omnipair/src/instructions/liquidity/add_liquidity.rs: the instruction `add_liquidity`.
use omnipair_rs.Base.{ℕ, min, not, ltb, leb, ◌&&◌, Pubkey}
use omnipair_rs.Word.{u64, checked_add, try_into}
use omnipair_rs.Outcome.{
  Result, ok, ◌>>=◌, ◌>>◌, require, ok_or, reduce_only_mode, amount_zero, insufficient_amount0_in,
  insufficient_amount1_in, slippage_exceeded, reserve_overflow, supply_overflow,
  liquidity_conversion_overflow,
}
use omnipair_rs.RateModel.{RateModel}
use omnipair_rs.Futarchy.{FutarchyAuthority, is_reduce_only}
use omnipair_rs.Pair.{Side, Pair, update}
use omnipair_rs.Token.{TokenProgram, transfer, token_mint_to}
use omnipair_rs.Breaker.{Sysvar, ProgramIds, add_liquidity, require_top_level}
use omnipair_rs.Liquidity.{LiquidityAccounts, checked_share, reserve_share, reserve_share_up}

pub record AddLiquidityArgs : Type 0 where
  pub amount0_in : ℕ
  pub amount1_in : ℕ
  pub min_liquidity_out : ℕ

-- The LP tokens that a deposit is worth, by the scarcer of the two amounts.
unfoldable pub minted_liquidity : AddLiquidityArgs → Pair → Result ℕ
minted_liquidity args p = do
  liquidity0 ← checked_share args.amount0_in p.total_supply p.side0.reserve
  liquidity1 ← checked_share args.amount1_in p.total_supply p.side1.reserve
  ok_or (try_into u64 (min liquidity0 liquidity1)) liquidity_conversion_overflow

-- A deposit raises the virtual and the cash reserve of a side.
unfoldable pub deposit : ℕ → Side → Result Side
deposit amount s = do
  new_reserve ← ok_or (checked_add u64 s.reserve amount) reserve_overflow
  new_cash ← ok_or (checked_add u64 s.cash_reserve amount) reserve_overflow
  ok (record s { reserve = new_reserve; cash_reserve = new_cash })

-- The amounts that are used, and the pair with them.
pub record Deposit : Type 0 where
  pub amount0 : ℕ
  pub amount1 : ℕ
  pub liquidity : ℕ
  pub pair : Pair

unfoldable pub add_to_pair : AddLiquidityArgs → Pair → Result Deposit
add_to_pair args p = do
  minted ← minted_liquidity args p
  require (leb args.min_liquidity_out minted) slippage_exceeded
  used0 ← reserve_share_up minted p.side0.reserve p.total_supply
  used1 ← reserve_share_up minted p.side1.reserve p.total_supply
  new0 ← deposit used0 p.side0
  new1 ← deposit used1 p.side1
  supply ← ok_or (checked_add u64 p.total_supply minted) supply_overflow
  ok (record {
    amount0 = used0;
    amount1 = used1;
    liquidity = minted;
    pair = record p { side0 = new0; side1 = new1; total_supply = supply };
  })

module _ (t : TokenProgram) where
  open t use {Ledger, balance}

  -- `validate_add`.
  unfoldable pub validate_add :
      ProgramIds
      → Pubkey
      → Sysvar
      → FutarchyAuthority
      → LiquidityAccounts
      → AddLiquidityArgs
      → Pair
      → Ledger
      → Result (Unit {0})
  validate_add ids pair_key sysvar authority a args p l = do
    require_top_level ids pair_key sysvar add_liquidity
    require (not (is_reduce_only authority p.reduce_only)) reduce_only_mode
    require (ltb 0 args.amount0_in && ltb 0 args.amount1_in) amount_zero
    require (leb args.amount0_in (balance l a.user_token0)) insufficient_amount0_in
    require (leb args.amount1_in (balance l a.user_token1)) insufficient_amount1_in

  -- `handle_add`; the value of the user's LP tokens is computed for the event, and can fail.
  unfoldable pub handle_add :
      LiquidityAccounts → AddLiquidityArgs → Pair → Ledger → Result (Pair × Ledger)
  handle_add a args p l = do
    added ← add_to_pair args p
    paid0 ← transfer t a.user_token0 a.reserve0_vault added.amount0 l
    paid1 ← transfer t a.user_token1 a.reserve1_vault added.amount1 paid0
    minted ← token_mint_to t p.lp_mint a.user_lp added.liquidity paid1
    let q = added.pair
    reported0 ← reserve_share (balance minted a.user_lp) q.side0.reserve q.total_supply
    reported1 ← reserve_share (balance minted a.user_lp) q.side1.reserve q.total_supply
    ok (q, minted)

  -- The instruction: `update_and_validate_add`, then the handler.
  unfoldable pub add :
      ℕ
      → RateModel
      → ProgramIds
      → Pubkey
      → Sysvar
      → FutarchyAuthority
      → LiquidityAccounts
      → AddLiquidityArgs
      → Pair
      → Ledger
      → Result (Pair × Ledger)
  add slot m ids pair_key sysvar authority a args p l = do
    current ← update slot m authority.revenue_share.interest_bps p
    validate_add ids pair_key sysvar authority a args current l
    handle_add a args current l
