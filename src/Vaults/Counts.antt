-- ===== src/Vaults/Counts.antt =====
-- Proofs: what the operations of a position (state/user_position.rs) and the handlers of
-- instructions/lending do to what a pair counts, and what they leave alone.
use omnipair_rs.Base.{
  ℕ, ◌+◌, ◌≤◌, ◌≡◌, inl, inr, Bool, true, false, not, ◌==◌, if◌then◌else◌, arith, Pubkey,
  Bool-cases,
}
use omnipair_rs.Outcome.{ok}
use omnipair_rs.Pair.{Pair}
use omnipair_rs.Position.{
  UserPosition, repayment, write_off, increase_debt, increase_debt_on, decrease_debt,
  decrease_debt_on, settle, sync_debt, mint_shares,
}
use omnipair_rs.Swap.Backing.{cash_on}
use omnipair_rs.Lending.Collateral.{deposit_collateral, withdraw_collateral}
use omnipair_rs.Lending.Liquidate.{seize, absorb}
use omnipair_rs.Vaults.{IsSame}

abbrev pub collateral_in : Bool → Pair → ℕ
collateral_in b p = if b then p.side0.total_collateral else p.side1.total_collateral

-- What the pair counts in the collateral vaults, or in the reserve vaults, stays.
abbrev pub SameCollateral : Pair → Pair → Type 0
SameCollateral p q =
    (q.side0.total_collateral ≡ p.side0.total_collateral)
    × (q.side1.total_collateral ≡ p.side1.total_collateral)

abbrev pub SameCash : Pair → Pair → Type 0
SameCash p q =
    (q.side0.cash_reserve ≡ p.side0.cash_reserve) × (q.side1.cash_reserve ≡ p.side1.cash_reserve)

pub increase_rest :
    (b : Bool) (token : Pubkey) (amount : ℕ) (u w : UserPosition) (p q : Pair)
    → (token == p.token0) ≡ b
    → increase_debt token amount u p ≡ ok (w, q)
    → (cash_on b q + amount ≡ cash_on b p)
      × (cash_on (not b) q ≡ cash_on (not b) p)
      × SameCollateral p q
      × IsSame p q
unfolding increase_debt increase_debt_on mint_shares
increase_rest true token amount u w p q side h = ground arith
increase_rest false token amount u w p q side h = ground arith

pub repay_rest :
    (b : Bool) (token : Pubkey) (amount : ℕ) (u w : UserPosition) (p q : Pair)
    → (token == p.token0) ≡ b
    → decrease_debt token amount repayment u p ≡ ok (w, q)
    → (cash_on b q ≤ cash_on b p + amount)
      × (cash_on (not b) q ≡ cash_on (not b) p)
      × SameCollateral p q
      × IsSame p q
unfolding decrease_debt decrease_debt_on settle sync_debt
repay_rest true token amount u w p q side h = ground arith
repay_rest false token amount u w p q side h = ground arith

pub write_off_rest :
    (token : Pubkey) (amount shares : ℕ) (u w : UserPosition) (p q : Pair)
    → decrease_debt token amount (write_off shares) u p ≡ ok (w, q)
    → SameCash p q × SameCollateral p q × IsSame p q
unfolding decrease_debt decrease_debt_on settle sync_debt
write_off_rest token amount shares u w p q h = elim (Bool-cases (token == p.token0)) [
  | inl first ↦ ground arith
  | inr second ↦ ground arith
]

pub deposit_rest :
    (b : Bool) (amount : ℕ) (u w : UserPosition) (p q : Pair)
    → deposit_collateral b amount u p ≡ ok (w, q)
    → (collateral_in b q ≡ collateral_in b p + amount)
      × (collateral_in (not b) q ≡ collateral_in (not b) p)
      × SameCash p q
      × IsSame p q
unfolding deposit_collateral
deposit_rest true amount u w p q h = ground arith
deposit_rest false amount u w p q h = ground arith

pub withdraw_rest :
    (b : Bool) (amount : ℕ) (u w : UserPosition) (p q : Pair)
    → withdraw_collateral b amount u p ≡ ok (w, q)
    → (collateral_in b q + amount ≡ collateral_in b p)
      × (collateral_in (not b) q ≡ collateral_in (not b) p)
      × SameCash p q
      × IsSame p q
unfolding withdraw_collateral
withdraw_rest true amount u w p q h = ground arith
withdraw_rest false amount u w p q h = ground arith

pub seize_rest :
    (b : Bool) (seized to_reserves : ℕ) (u w : UserPosition) (p q : Pair)
    → seize b seized to_reserves u p ≡ ok (w, q)
    → (collateral_in b q + seized ≡ collateral_in b p)
      × (collateral_in (not b) q ≡ collateral_in (not b) p)
      × (cash_on b q ≤ cash_on b p + to_reserves)
      × (cash_on (not b) q ≡ cash_on (not b) p)
      × IsSame p q
unfolding seize absorb
seize_rest true seized to_reserves u w p q h = ground arith
seize_rest false seized to_reserves u w p q h = ground arith
