-- ===== src/Vaults/Debts.antt =====
-- Proofs: the instructions on debts (borrow, repay and liquidate of lib.rs), from their account
-- constraints to their ends, leave the vaults of a pair with what the pair counts.
use omnipair_rs.Base.{ℕ, ◌≡◌, refl, ◌==◌, Pubkey}
use omnipair_rs.Outcome.{ok}
use omnipair_rs.RateModel.{RateModel}
use omnipair_rs.Futarchy.{FutarchyAuthority}
use omnipair_rs.Pair.{Pair, update}
use omnipair_rs.Position.{UserPosition}
use omnipair_rs.Token.{TokenProgram}
use omnipair_rs.Breaker.{ProgramIds, Sysvar}
use omnipair_rs.Lending.{DebtAccounts}
use omnipair_rs.Lending.Borrow
use omnipair_rs.Lending.Repay
use omnipair_rs.Lending.Liquidate
use omnipair_rs.Lending.Liquidate.{LiquidateAccounts}
use omnipair_rs.Accounts.{Chain}
use omnipair_rs.Accounts.Positions.{
  DebtContext, LiquidateContext, adjust_debt_accounts, borrow_accounts, liquidate_accounts,
}
use omnipair_rs.System.Phases.{phases}
use omnipair_rs.Vaults.{Vaults, Identity, AreApart, AreVaultsOf, IsTokenLedger}
use omnipair_rs.Vaults.Positions.{handle_borrow-IsBacked, handle_repay-IsBacked}
use omnipair_rs.Vaults.Seizures.{handle_liquidate-IsBacked}
use omnipair_rs.Vaults.Addresses.{outside_lem, reserve_lem, collateral_lem}
use omnipair_rs.Vaults.Checked.{repay_checks, borrow_checks, liquidate_checks}
use omnipair_rs.Vaults.Solvency.{IsSolvent, updated_lem, ends}

module _ (t : TokenProgram) (laws : IsTokenLedger t) (v : Vaults) (apart : AreApart v)
    (i : Identity) (c : Chain) (of : AreVaultsOf c i v) (slot : ℕ) (m : RateModel)
    (authority : FutarchyAuthority) (p : Pair) where
  open t use {Ledger, balance}

  pub borrow-IsSolvent :
      (ids : ProgramIds) (key : Pubkey) (sysvar : Sysvar) (x : DebtContext) (a : DebtAccounts)
      (requested : ℕ) (u w u' : UserPosition) (q : Pair) (l l' : Ledger)
      → borrow_accounts c i.key p authority ids x w ≡ ok a
      → Borrow.borrow t slot m ids key sysvar authority a requested u p l ≡ ok (u', q, l')
      → IsSolvent t i v p l
      → IsSolvent t i v q l'
  unfolding Borrow.borrow
  borrow-IsSolvent ids key sysvar x a requested u w u' q l l' checked h solvent =
      let (r, updated, valid, done) =
        phases (update slot m authority.revenue_share.interest_bps p)
          (λ r. Borrow.validate_borrow ids key sysvar authority requested r)
          (λ r. Borrow.handle_borrow t slot a requested u r l) h in
      let (now, token0) = updated_lem t laws v apart i slot m authority p l updated solvent in
      let (at, token) = borrow_checks c i v of p solvent.0 authority ids x w a checked in
      let b = a.reserve_token_mint == p.token0 in
      let e =
        reserve_lem c i v of p solvent.0 b a.reserve_token_mint a.reserve_vault refl token at in
      ends t i v q r l l' now (
        handle_borrow-IsBacked t laws v apart b slot a requested u u' r q l l' (rw token0 refl) e
          done now.1)

  pub repay-IsSolvent :
      (x : DebtContext) (a : DebtAccounts) (requested : ℕ) (u w u' : UserPosition) (q : Pair)
      (l l' : Ledger)
      → adjust_debt_accounts c i.key p authority x w ≡ ok a
      → Repay.repay t slot m authority a requested u p l ≡ ok (u', q, l')
      → IsSolvent t i v p l
      → IsSolvent t i v q l'
  unfolding Repay.repay
  repay-IsSolvent x a requested u w u' q l l' checked h solvent =
      let (r, updated, valid, done) =
        phases (update slot m authority.revenue_share.interest_bps p)
          (λ r. Repay.validate_repay t a requested u r l)
          (λ r. Repay.handle_repay t a requested u r l) h in
      let (now, token0) = updated_lem t laws v apart i slot m authority p l updated solvent in
      let (signs, at, token, owns) = repay_checks c i v of p solvent.0 authority x w a checked in
      let b = a.reserve_token_mint == p.token0 in
      let e =
        reserve_lem c i v of p solvent.0 b a.reserve_token_mint a.reserve_vault refl token at in
      ends t i v q r l l' now (
        handle_repay-IsBacked t laws v apart b a requested u u' r q l l' (rw token0 refl) e
          (outside_lem c i v of a.user_reserve_token_account x.user owns signs) done now.1)

  pub liquidate-IsSolvent :
      (x : LiquidateContext) (a : LiquidateAccounts) (u w u' : UserPosition) (q : Pair)
      (l l' : Ledger)
      → liquidate_accounts c i.key p authority x w ≡ ok a
      → Liquidate.liquidate t slot m authority a u p l ≡ ok (u', q, l')
      → IsSolvent t i v p l
      → IsSolvent t i v q l'
  unfolding Liquidate.liquidate
  liquidate-IsSolvent x a u w u' q l l' checked h solvent =
      let (r, updated, valid, done) =
        phases (update slot m authority.revenue_share.interest_bps p)
          (λ r. Liquidate.validate_liquidate a u r) (λ r. Liquidate.handle_liquidate t slot a u r l)
          h in
      let (now, token0) = updated_lem t laws v apart i slot m authority p l updated solvent in
      let (at_c, at_r, token) = liquidate_checks c i v of p solvent.0 authority x w a checked in
      let mint = a.collateral_token_mint in
      let b = mint == p.token0 in
      let e_c = collateral_lem c i v of p solvent.0 b mint a.collateral_vault refl token at_c in
      let e_r = reserve_lem c i v of p solvent.0 b mint a.reserve_vault refl token at_r in
      ends t i v q r l l' now (
        handle_liquidate-IsBacked t laws v apart b slot a u u' r q l l' (rw token0 refl) e_c e_r
          done now.1)
