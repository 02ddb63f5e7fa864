-- ===== src/System/Sides.antt =====
-- Proofs: every change of a side that an instruction makes keeps its accounts.
use omnipair_rs.Base.{ℕ, ◌+◌, ◌≤◌, ◌<◌, ◌≡◌, arith}
use omnipair_rs.Word.{u64, u128, max_word}
use omnipair_rs.Outcome.{ErrorCode, ok}
use omnipair_rs.Pair.{Side}
use omnipair_rs.Pair.Accounting.{IsBalanced, IsUpdated}
use omnipair_rs.Position.{
  increase_debt_on, decrease_debt_on, mint_shares, DebtDecreaseReason, repayment, write_off, settle,
  sync_debt, shares_to_burn, calculate_debt,
}
use omnipair_rs.Position.Shares.{
  increase_debt_on-IsBalanced, increase_debt_on-others, repay-IsBalanced,
}
use omnipair_rs.Swap.Invariant.{swap_sides-IsBalanced}
use omnipair_rs.Swap.{SwapArgs, swap_sides}
use omnipair_rs.Liquidity.Add.{deposit}
use omnipair_rs.Lending.Flashloan.{earn}
use omnipair_rs.Lending.Liquidate.{debt_to_writeoff, absorb}
use omnipair_rs.Lending.Seizure.{write_off-IsBalanced, absorb-IsBalanced}
use omnipair_rs.System.Accounts.{IsAccounted}

module _ (shares collateral : ℕ) (s s' : Side) where
  pub updated-IsAccounted :
      (spot : ℕ)
      → IsUpdated spot s s'
      → s'.reserve < max_word u64
      → IsAccounted shares collateral s
      → IsAccounted shares collateral s'
  updated-IsAccounted spot (balance, _, _, e_shares, e_collateral, _, free) below
        (b, _, s_eq, c_eq, empty) =
      (
        balance b below,
        omega arith,
        omega arith,
        omega arith,
        λ none_left. free (empty (omega arith)),
      )

  -- A change of the reserve and the cash alone.
  pub moved-IsAccounted :
      IsBalanced s'
      → s'.reserve ≤ max_word u64
      → s'.total_debt ≡ s.total_debt
      → s'.total_debt_shares ≡ s.total_debt_shares
      → s'.total_collateral ≡ s.total_collateral
      → IsAccounted shares collateral s
      → IsAccounted shares collateral s'
  moved-IsAccounted b fits e_debt e_shares e_collateral (_, _, s_eq, c_eq, empty) =
      (b, fits, omega arith, omega arith, λ none_left. omega (arith, empty (omega arith)))

  pub earned-IsAccounted :
      (fee : ℕ)
      → earn fee s ≡ s'
      → s'.reserve < max_word u64
      → IsAccounted shares collateral s
      → IsAccounted shares collateral s'
  unfolding earn
  earned-IsAccounted fee e below (b, fits, s_eq, c_eq, empty) = ground arith

  pub deposited-IsAccounted :
      (amount : ℕ)
      → deposit amount s ≡ ok s'
      → IsAccounted shares collateral s
      → IsAccounted shares collateral s'
  unfolding deposit
  deposited-IsAccounted amount h (b, fits, s_eq, c_eq, empty) = ground arith

  borrowed_lem :
      (own amount : ℕ) {own' : ℕ}
      → increase_debt_on s own amount ≡ ok (s', own')
      → (s'.total_collateral ≡ s.total_collateral) × (0 < s'.total_debt_shares)
  unfolding increase_debt_on mint_shares
  borrowed_lem own amount h = (ground arith, ground arith)

  -- A loan to a user with `own` of the shares, `rest` being the others'.
  pub borrowed-IsAccounted :
      (rest own amount own' : ℕ)
      → shares ≡ rest + own
      → increase_debt_on s own amount ≡ ok (s', own')
      → s'.total_debt_shares < max_word u128
      → IsAccounted shares collateral s
      → IsAccounted (rest + own') collateral s'
  borrowed-IsAccounted rest own amount own' e h below (b, fits, s_eq, c_eq, empty) =
      let (b', e_r, e_d, _) =
        increase_debt_on-IsBalanced s own amount {s' = s'} {own' = own'} b (omega arith) h in
      let (_, others) =
        increase_debt_on-others s own amount {s' = s'} {own' = own'} (omega arith) below h in
      let (e_c, some_left) = borrowed_lem own amount h in
      (b', omega arith, omega arith, omega arith, λ none_left. omega arith)

  decreased_lem :
      (own amount : ℕ) (reason : DebtDecreaseReason) {own' : ℕ}
      → decrease_debt_on s own amount reason ≡ ok (s', own')
      → (s'.total_collateral ≡ s.total_collateral) × (s'.total_debt_shares ≡ 0 → s'.total_debt ≡ 0)
  unfolding decrease_debt_on settle sync_debt shares_to_burn
  decreased_lem own amount repayment h = (ground arith, λ none_left. ground arith)
  decreased_lem own amount (write_off exact) h = (ground arith, λ none_left. ground arith)

  -- A repayment of at most the debt.
  pub repaid-IsAccounted :
      (rest own amount own' : ℕ)
      → shares ≡ rest + own
      → 0 < s.total_debt_shares
      → amount ≤ s.total_debt
      → decrease_debt_on s own amount repayment ≡ ok (s', own')
      → IsAccounted shares collateral s
      → IsAccounted (rest + own') collateral s'
  repaid-IsAccounted rest own amount own' e pos_s le h (b, fits, s_eq, c_eq, empty) =
      let (b', e_r, _, others) =
        repay-IsBalanced s own amount {s' = s'} {own' = own'} b (omega arith) (omega arith) pos_s le
          h in
      let (e_c, cleared) = decreased_lem own amount repayment {own' = own'} h in
      (b', omega arith, omega arith, omega arith, cleared)

  -- A write-off of some of the user's shares with the debt that the code computes for them.
  pub written-IsAccounted :
      (rest own amount own' written owed : ℕ)
      → shares ≡ rest + own
      → 0 < own
      → written ≤ own
      → calculate_debt own s.total_debt s.total_debt_shares ≡ ok owed
      → debt_to_writeoff written owed s ≡ ok amount
      → decrease_debt_on s own amount (write_off written) ≡ ok (s', own')
      → IsAccounted shares collateral s
      → IsAccounted (rest + own') collateral s'
  written-IsAccounted rest own amount own' written owed e pos le owes w h
        (b, fits, s_eq, c_eq, empty) =
      let (b', e_r, _, e_own, e_total) =
        write_off-IsBalanced s own written {s' = s'} b (omega arith) (omega arith) (omega arith) le
          owes w h in
      let (e_c, cleared) = decreased_lem own amount (write_off written) {own' = own'} h in
      (b', omega arith, omega arith, omega arith, cleared)

  -- The seized collateral leaves the side.
  pub absorbed-IsAccounted :
      (rest own own' seized to_reserves : ℕ)
      → collateral ≡ rest + own
      → own' + seized ≡ own
      → absorb seized to_reserves s ≡ ok s'
      → IsAccounted shares collateral s
      → IsAccounted shares (rest + own') s'
  unfolding absorb
  absorbed-IsAccounted rest own own' seized to_reserves e left h (b, fits, s_eq, c_eq, empty) =
      let (b', _, e_c, e_d, e_s) = absorb-IsBalanced seized to_reserves s {s' = s'} b h in
      (b', ground arith, omega arith, omega arith, λ none_left. omega (arith, empty (omega arith)))

pub swapped-IsAccounted :
    (fee_bps futarchy_bps : ℕ) (args : SwapArgs) (short : ErrorCode)
    (shares_i shares_o collateral_i collateral_o : ℕ) (i o i' o' : Side) {out : ℕ}
    → swap_sides fee_bps futarchy_bps args short i o ≡ ok (i', o', out)
    → IsAccounted shares_i collateral_i i
    → IsAccounted shares_o collateral_o o
    → IsAccounted shares_i collateral_i i' × IsAccounted shares_o collateral_o o'
unfolding swap_sides
swapped-IsAccounted fee_bps futarchy_bps args short si so ci co i o i' o' h si_ok so_ok =
    let (bi, bo, _, _, _, _) =
      swap_sides-IsBalanced fee_bps futarchy_bps args short i o si_ok.0 so_ok.0 h in
    (
      moved-IsAccounted si ci i i' bi (ground arith) (ground arith) (ground arith) (ground arith)
          si_ok,
      moved-IsAccounted so co o o' bo (ground arith) (ground arith) (ground arith) (ground arith)
          so_ok,
    )
