-- ===== src/Tests/Protocol.antt =====
-- Examples for the protocol's revenue.
use omnipair_rs.Base.{ℕ, ◌≡◌, some, none, refl, arith, Pubkey}
use omnipair_rs.Outcome.{ok}
use omnipair_rs.Futarchy.{FutarchyAuthority, is_valid}
use omnipair_rs.Futarchy.Admin.{
  UpdateProtocolRevenueArgs, update_protocol_revenue, update_swap_bps, update_interest_bps,
  update_distribution,
}
use omnipair_rs.Futarchy.Claim.{ClaimAccounts, share_of, split_claim, pay_claim, handle_claim}
use omnipair_rs.Futarchy.Revenue.{claim_leaves_cash}
use omnipair_rs.Token.{transfer}
use omnipair_rs.Tests.{value_or, split, protocol, pair_ab, tokens, tokens-IsTokenProgram, ledger}

abbrev changes : UpdateProtocolRevenueArgs
changes = record { swap_bps = some 2_000; interest_bps = none; revenue_distribution = some split }

abbrev changed : FutarchyAuthority
changed = record protocol { revenue_share = record { swap_bps = 2_000; interest_bps = 1_000 } }

changed-eq : update_protocol_revenue changes protocol ≡ ok changed
unfolding update_protocol_revenue update_swap_bps update_interest_bps update_distribution is_valid
changed-eq = refl

abbrev claim_accounts : ClaimAccounts
claim_accounts = record {
  reserve_vault = 51;
  futarchy_treasury = 71;
  buybacks_vault = 72;
  team_treasury = 73;
}

abbrev claim_accounts1 : ClaimAccounts
claim_accounts1 = record {
  reserve_vault = 52;
  futarchy_treasury = 81;
  buybacks_vault = 82;
  team_treasury = 83;
}

abbrev after_claim : Pubkey → ℕ
after_claim =
    value_or ledger (handle_claim tokens protocol claim_accounts claim_accounts1 pair_ab ledger)

after_claim-eq :
    handle_claim tokens protocol claim_accounts claim_accounts1 pair_ab ledger ≡ ok after_claim
unfolding handle_claim is_valid split_claim share_of pay_claim transfer
after_claim-eq = refl

claim_leaves_cash_example : (after_claim 51 ≡ 900_000) × (after_claim 52 ≡ 1_900_000)
claim_leaves_cash_example =
    claim_leaves_cash tokens tokens-IsTokenProgram protocol claim_accounts claim_accounts1 pair_ab
      ledger (omega arith) (omega arith) (omega arith) (omega arith) (λ e. omega arith)
      (
        (λ e. omega arith, λ e. omega arith, λ e. omega arith),
        (λ e. omega arith, λ e. omega arith, λ e. omega arith),
      )
      (
        (λ e. omega arith, λ e. omega arith, λ e. omega arith),
        (λ e. omega arith, λ e. omega arith, λ e. omega arith),
      )
      after_claim-eq
