-- ===== src/Tests/Debts.antt =====
-- Examples for debt shares.
use omnipair_rs.Base.{ℕ, ◌-◌, ◌*◌, ◌^◌, ◌≤◌, ◌<◌, ◌≡◌, refl, arith}
use omnipair_rs.Outcome.{ok, err, fails, debt_share_division_overflow}
use omnipair_rs.Math.{ceil_div}
use omnipair_rs.Pair.{Side}
use omnipair_rs.Position.{
  repayment, mint_shares, shares_for, increase_debt_on, shares_to_burn, settle, sync_debt,
  decrease_debt_on, calculate_debt,
}
use omnipair_rs.Position.Shares.{increase_debt_on-share_price, repay_share_price, repay_all_clears}
use omnipair_rs.Tests.{value_or, side_b}

abbrev lent : Side × ℕ
lent = value_or (side_b, 0) (increase_debt_on side_b 20_000_000_000 777)

lent-eq : increase_debt_on side_b 20_000_000_000 777 ≡ ok lent
unfolding increase_debt_on mint_shares shares_for ceil_div
lent-eq = refl

lent-fits : lent.0.total_debt_shares < 2 ^ 128 - 1
unfolding increase_debt_on mint_shares shares_for ceil_div
lent-fits = omega arith

increase_debt_on-share_price_example :
    lent.0.total_debt * 100_000_000_000 ≤ 100_000 * lent.0.total_debt_shares
increase_debt_on-share_price_example =
    increase_debt_on-share_price side_b 20_000_000_000 777 (omega arith) lent-fits lent-eq

abbrev repaid : Side × ℕ
repaid = value_or (side_b, 0) (decrease_debt_on side_b 20_000_000_000 20_000 repayment)

repaid-eq : decrease_debt_on side_b 20_000_000_000 20_000 repayment ≡ ok repaid
unfolding decrease_debt_on shares_to_burn settle sync_debt
repaid-eq = refl

owed-eq : calculate_debt 20_000_000_000 100_000 100_000_000_000 ≡ ok 20_000
unfolding calculate_debt ceil_div
owed-eq = refl

repay_share_price_example :
    repaid.0.total_debt * 100_000_000_000 ≤ 100_000 * repaid.0.total_debt_shares
repay_share_price_example = repay_share_price side_b 20_000_000_000 20_000 (omega arith) repaid-eq

repay_all_clears_example : repaid.1 ≡ 0
repay_all_clears_example =
    repay_all_clears side_b 20_000_000_000 (omega arith) (omega arith) owed-eq repaid-eq

-- Two users with a million shares each owe 3 units together; one repays 1 and the other 2, as
-- `calculate_debt` allows each, and shares are left without a debt.
abbrev two_loans : Side
two_loans = record side_b { total_debt = 3; total_debt_shares = 2_000_000 }

abbrev one_loan : Side × ℕ
one_loan = value_or (side_b, 0) (decrease_debt_on two_loans 1_000_000 1 repayment)

orphans_arise :
    (value_or (side_b, 0) (decrease_debt_on one_loan.0 1_000_000 2 repayment)).0.total_debt_shares
    ≡ 333_334
unfolding decrease_debt_on shares_to_burn settle sync_debt
orphans_arise = refl

orphans_owe_nothing :
    (value_or (side_b, 0) (decrease_debt_on one_loan.0 1_000_000 2 repayment)).0.total_debt ≡ 0
unfolding decrease_debt_on shares_to_burn settle sync_debt
orphans_owe_nothing = refl

abbrev orphaned : Side
orphaned = record side_b { total_debt = 0; total_debt_shares = 333_334 }

-- No loan is possible any more.
orphans_block_loans : increase_debt_on orphaned 0 5 ≡ err (fails debt_share_division_overflow)
unfolding increase_debt_on mint_shares shares_for ceil_div
orphans_block_loans = refl
