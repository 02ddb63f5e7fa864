-- ===== src/Futarchy/Claim.antt =====
-- programs/omnipair/src/instructions/futarchy/claim_protocol_fees.rs: the instruction
-- `claim_protocol_fees`, which pays out what the reserve vaults hold beyond the cash reserves.
use omnipair_rs.Base.{ℕ, ◌/◌, Pubkey}
use omnipair_rs.Word.{u64, u128, checked_mul, saturating_sub, cast}
use omnipair_rs.Outcome.{
  Result, ok, ◌>>=◌, ◌>>◌, require, ok_or, invalid_distribution, fee_math_overflow,
}
use omnipair_rs.Constants.{bps_denominator}
use omnipair_rs.Futarchy.{RevenueDistribution, FutarchyAuthority, is_valid}
use omnipair_rs.RateModel.{RateModel}
use omnipair_rs.Pair.{Pair, update}
use omnipair_rs.Token.{TokenProgram, transfer}

-- A reserve vault and the recipients' accounts of its token.
pub record ClaimAccounts : Type 0 where
  pub reserve_vault : Pubkey
  pub futarchy_treasury : Pubkey
  pub buybacks_vault : Pubkey
  pub team_treasury : Pubkey

-- What each recipient gets of one token.
pub record Claim : Type 0 where
  pub futarchy : ℕ
  pub buybacks : ℕ
  pub team : ℕ

-- A recipient's share, rounded down.
unfoldable pub share_of : ℕ → ℕ → Result ℕ
share_of claimable bps = do
  product ← ok_or (checked_mul u128 claimable bps) fee_math_overflow
  ok (cast u64 (product / bps_denominator))

-- The futarchy treasury gets the remainder.
unfoldable pub split_claim : RevenueDistribution → ℕ → Result Claim
split_claim d claimable = do
  buybacks_amount ← share_of claimable d.buybacks_vault_bps
  team_amount ← share_of claimable d.team_treasury_bps
  ok (record {
    futarchy = saturating_sub (saturating_sub claimable buybacks_amount) team_amount;
    buybacks = buybacks_amount;
    team = team_amount;
  })

module _ (t : TokenProgram) where
  open t use {Ledger, balance}

  -- The transfers of one token.
  unfoldable pub pay_claim : ClaimAccounts → Claim → Ledger → Result Ledger
  pay_claim a c l = do
    l1 ← transfer t a.reserve_vault a.futarchy_treasury c.futarchy l
    l2 ← transfer t a.reserve_vault a.buybacks_vault c.buybacks l1
    transfer t a.reserve_vault a.team_treasury c.team l2

  -- `handle_claim`, on the accounts of token 0 and of token 1.
  unfoldable pub handle_claim :
      FutarchyAuthority → ClaimAccounts → ClaimAccounts → Pair → Ledger → Result Ledger
  handle_claim authority a0 a1 p l = do
    require (is_valid authority.revenue_distribution) invalid_distribution
    claim0 ←
        split_claim authority.revenue_distribution
          (saturating_sub (balance l a0.reserve_vault) p.side0.cash_reserve)
    claim1 ←
        split_claim authority.revenue_distribution
          (saturating_sub (balance l a1.reserve_vault) p.side1.cash_reserve)
    paid ← pay_claim a0 claim0 l
    pay_claim a1 claim1 paid

  -- The instruction: `update`, then the handler.
  unfoldable pub claim_protocol_fees :
      ℕ
      → RateModel
      → FutarchyAuthority
      → ClaimAccounts
      → ClaimAccounts
      → Pair
      → Ledger
      → Result (Pair × Ledger)
  claim_protocol_fees slot m authority a0 a1 p l = do
    current ← update slot m authority.revenue_share.interest_bps p
    paid ← handle_claim authority a0 a1 current l
    ok (current, paid)
