-- ===== src/Lending/Borrow.antt =====
-- programs/omnipair/src/instructions/lending/borrow.rs: the instruction `borrow`.
use omnipair_rs.Base.{ℕ, not, ltb, leb, ◌==◌, if◌then◌else◌, Pubkey}
use omnipair_rs.Word.{u64, max_word, checked_add, checked_sub}
use omnipair_rs.Outcome.{
  Result, ok, ◌>>=◌, ◌>>◌, require, ok_or, amount_zero, reduce_only_mode, debt_math_overflow,
  borrowing_power_exceeded, insufficient_cash_reserve0, insufficient_cash_reserve1,
}
use omnipair_rs.RateModel.{RateModel}
use omnipair_rs.Futarchy.{FutarchyAuthority, is_reduce_only}
use omnipair_rs.Pair.{Pair, update, get_token_y, max_debt_and_cf_bps}
use omnipair_rs.Position.{UserPosition, increase_debt, set_liquidation_cf}
use omnipair_rs.Token.{TokenProgram, transfer}
use omnipair_rs.Breaker.{Sysvar, ProgramIds, require_no_same_tx_liquidity_delta}
use omnipair_rs.Lending.{DebtAccounts, debt_on, collateral_on}

-- The largest word asks for all that the limit leaves.
unfoldable pub resolve_borrow_amount : ℕ → ℕ → ℕ → Result ℕ
resolve_borrow_amount requested limit debt = do
  amount ←
      (if requested == max_word u64
        then ok_or (checked_sub limit debt) debt_math_overflow
        else ok requested)
  require (ltb 0 amount) amount_zero
  ok amount

-- `Borrow::validate_borrow`.
unfoldable pub validate_borrow :
    ProgramIds → Pubkey → Sysvar → FutarchyAuthority → ℕ → Pair → Result (Unit {0})
validate_borrow ids pair_key sysvar authority requested p = do
  require_no_same_tx_liquidity_delta ids pair_key sysvar
  require (not (is_reduce_only authority p.reduce_only)) reduce_only_mode
  require (ltb 0 requested) amount_zero

-- What `handle_borrow` settles before it pays: the amount, and the new liquidation factor.
unfoldable pub borrow_terms : ℕ → Pubkey → ℕ → UserPosition → Pair → Result (ℕ × ℕ)
borrow_terms slot debt_token requested u p = do
  let is_token0 = debt_token == p.token0
  debt ← debt_on is_token0 u p
  let collateral_token = get_token_y p debt_token
  (limit, _, cf) ←
      max_debt_and_cf_bps slot p collateral_token (collateral_on (collateral_token == p.token0) u)
  amount ← resolve_borrow_amount requested limit debt
  new_debt ← ok_or (checked_add u64 debt amount) debt_math_overflow
  require (leb new_debt limit) borrowing_power_exceeded
  require (leb amount (if is_token0 then p.side0.cash_reserve else p.side1.cash_reserve))
      (if is_token0 then insufficient_cash_reserve0 else insufficient_cash_reserve1)
  ok (amount, cf)

module _ (t : TokenProgram) where
  open t use {Ledger}

  -- `Borrow::handle_borrow`.
  unfoldable pub handle_borrow :
      ℕ → DebtAccounts → ℕ → UserPosition → Pair → Ledger → Result (UserPosition × Pair × Ledger)
  handle_borrow slot a requested u p l = do
    (amount, cf) ← borrow_terms slot a.reserve_token_mint requested u p
    paid ← transfer t a.reserve_vault a.user_reserve_token_account amount l
    (indebted, q) ← increase_debt a.reserve_token_mint amount u p
    ok (set_liquidation_cf a.reserve_token_mint q cf indebted, q, paid)

  -- The instruction: `update_and_validate_borrow`, then the handler.
  unfoldable pub borrow :
      ℕ
      → RateModel
      → ProgramIds
      → Pubkey
      → Sysvar
      → FutarchyAuthority
      → DebtAccounts
      → ℕ
      → UserPosition
      → Pair
      → Ledger
      → Result (UserPosition × Pair × Ledger)
  borrow slot m ids pair_key sysvar authority a requested u p l = do
    current ← update slot m authority.revenue_share.interest_bps p
    validate_borrow ids pair_key sysvar authority requested current
    handle_borrow slot a requested u current l
