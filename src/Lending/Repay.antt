-- ===== src/Lending/Repay.antt =====
-- programs/omnipair/src/instructions/lending/repay.rs: the instruction `repay`.
use omnipair_rs.Base.{ℕ, ltb, leb, ◌==◌, if◌then◌else◌}
use omnipair_rs.Word.{u64, max_word}
use omnipair_rs.Outcome.{
  Result, ok, ◌>>=◌, ◌>>◌, require, amount_zero, insufficient_balance, insufficient_debt,
  zero_debt_amount,
}
use omnipair_rs.RateModel.{RateModel}
use omnipair_rs.Futarchy.{FutarchyAuthority}
use omnipair_rs.Pair.{Pair, update}
use omnipair_rs.Position.{UserPosition, decrease_debt, repayment}
use omnipair_rs.Token.{TokenProgram, transfer}
use omnipair_rs.Int.{neg_as_i64}
use omnipair_rs.Lending.{DebtAccounts, debt_on}

module _ (t : TokenProgram) where
  open t use {Ledger, balance}

  -- `CommonAdjustDebt::validate_repay`: the largest word repays everything.
  unfoldable pub validate_repay :
      DebtAccounts → ℕ → UserPosition → Pair → Ledger → Result (Unit {0})
  validate_repay a requested u p l = do
    require (ltb 0 requested) amount_zero
    debt ← debt_on (a.user_reserve_token_account_mint == p.token0) u p
    let amount = if requested == max_word u64 then debt else requested
    require (leb amount (balance l a.user_reserve_token_account)) insufficient_balance
    require (leb amount debt) insufficient_debt
    require (ltb 0 debt) zero_debt_amount

  -- `CommonAdjustDebt::handle_repay`; the event has the negative of the amount, which can overflow.
  unfoldable pub handle_repay :
      DebtAccounts → ℕ → UserPosition → Pair → Ledger → Result (UserPosition × Pair × Ledger)
  handle_repay a requested u p l = do
    amount ←
        (if requested == max_word u64
          then debt_on (a.user_reserve_token_account_mint == p.token0) u p
          else ok requested)
    paid ← transfer t a.user_reserve_token_account a.reserve_vault amount l
    (relieved, q) ← decrease_debt a.reserve_token_mint amount repayment u p
    reported ← neg_as_i64 amount
    ok (relieved, q, paid)

  -- The instruction: `update_and_validate_repay`, then the handler.
  unfoldable pub repay :
      ℕ
      → RateModel
      → FutarchyAuthority
      → DebtAccounts
      → ℕ
      → UserPosition
      → Pair
      → Ledger
      → Result (UserPosition × Pair × Ledger)
  repay slot m authority a requested u p l = do
    current ← update slot m authority.revenue_share.interest_bps p
    validate_repay a requested u current l
    handle_repay a requested u current l
