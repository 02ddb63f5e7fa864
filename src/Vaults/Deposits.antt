-- ===== src/Vaults/Deposits.antt =====
-- Proofs: the instructions on collateral (add_collateral and remove_collateral of lib.rs), from their
-- account constraints to their ends, leave the vaults of a pair with what the pair counts.
use omnipair_rs.Base.{
  ℕ, ◌≡◌, ◌∙◌, refl, sym, inl, inr, Bool, true, false, not, ◌<◌, ◌||◌, ltb, leb, ◌==◌, Option-cases,
  arith, Pubkey,
}
use omnipair_rs.Outcome.{ok, chain, require, amount_zero, insufficient_balance_for_collateral}
use omnipair_rs.RateModel.{RateModel}
use omnipair_rs.Futarchy.{FutarchyAuthority}
use omnipair_rs.Pair.{Pair, update}
use omnipair_rs.Position.{UserPosition}
use omnipair_rs.Token.{TokenProgram, transfer}
use omnipair_rs.Breaker.{ProgramIds, Sysvar}
use omnipair_rs.Lending.{CollateralAccounts, debt_on, collateral_on}
use omnipair_rs.Lending.Collateral
use omnipair_rs.Accounts.{Chain}
use omnipair_rs.Accounts.Positions.{
  CollateralContext, add_collateral_accounts, adjust_collateral_accounts,
}
use omnipair_rs.System.Phases.{phases}
use omnipair_rs.Vaults.{
  Vaults, Identity, HasIdentity, AreApart, AreVaultsOf, IsTokenLedger, KeepsMints, collateral_of,
}
use omnipair_rs.Vaults.Positions.{handle_add_collateral-IsBacked, handle_remove_collateral-IsBacked}
use omnipair_rs.Vaults.Addresses.{outside_lem, collateral_lem}
use omnipair_rs.Vaults.Checked.{add_collateral_checks, adjust_collateral_checks}
use omnipair_rs.Vaults.Solvency.{IsSolvent, updated_lem, ends}

module _ (t : TokenProgram) (laws : IsTokenLedger t) (v : Vaults) (apart : AreApart v)
    (i : Identity) (c : Chain) (of : AreVaultsOf c i v) (slot : ℕ) (m : RateModel)
    (authority : FutarchyAuthority) (p : Pair) where
  open t use {Ledger, balance}

  -- A transfer of something is between accounts of one mint.
  mints_lem :
      (from to : Pubkey) (amount : ℕ) (l l' : Ledger)
      → KeepsMints t c
      → 0 < amount
      → transfer t from to amount l ≡ ok l'
      → c.token_mint from ≡ c.token_mint to
  unfolding transfer
  mints_lem from to amount l l' mints some_amount h =
      elim (Option-cases (t.transfer_checked from to amount l)) [
        | inl bad ↦ ground arith
        | inr (l1, moved) ↦ mints from to amount l l1 moved
      ]

  -- So the user's account is of the token of the vault.
  side_lem :
      (b : Bool) (mint user_mint vault token0 : Pubkey)
      → HasIdentity i p
      → (mint == p.token0) ≡ b
      → (mint == p.token0 || mint == p.token1) ≡ true
      → vault ≡ collateral_of b v
      → user_mint ≡ c.token_mint vault
      → token0 ≡ p.token0
      → (user_mint == token0) ≡ b
  side_lem true mint user_mint vault token0 (e0, e1, _) side token at same e =
      let of_vault : c.token_mint vault ≡ i.token0 = rw at of.of_token0 in ground arith
  side_lem false mint user_mint vault token0 (e0, e1, _) side token at same e =
      let of_vault : c.token_mint vault ≡ i.token1 = rw at of.of_token1 in ground arith

  -- What the handlers pay.
  deposit_paid :
      (user key : Pubkey) (bump : ℕ) (a : CollateralAccounts) (amount : ℕ) (u u' : UserPosition)
      (r q : Pair) (l l' : Ledger)
      → Collateral.handle_add_collateral t user key bump a amount u r l ≡ ok (u', q, l')
      → (paid : Ledger) × (transfer t a.user_collateral_token_account a.collateral_vault amount l
          ≡ ok paid)
  unfolding Collateral.handle_add_collateral
  deposit_paid user key bump a amount u u' r q l l' h =
      let (paid, sent, _) =
        chain (transfer t a.user_collateral_token_account a.collateral_vault amount l) _ h in
      (paid, sent)

  positive : (n : ℕ) → require (ltb 0 n) amount_zero ≡ ok tt → 0 < n
  positive n h = ground arith

  withdrawal_paid :
      (a : CollateralAccounts) (requested : ℕ) (u u' : UserPosition) (r q : Pair) (l l' : Ledger)
      → Collateral.handle_remove_collateral t slot a requested u r l ≡ ok (u', q, l')
      → (amount : ℕ) × (paid : Ledger) × (0 < amount)
        × (transfer t a.collateral_vault a.user_collateral_token_account amount l ≡ ok paid)
  unfolding Collateral.handle_remove_collateral
  withdrawal_paid a requested u u' r q l l' h =
      let b = a.user_collateral_token_account_mint == r.token0 in
      let (debt, owes, h1) = chain (debt_on (not b) u r) _ h in
      let amount = Collateral.withdraw_amount requested debt (collateral_on b u) in
      let (_, some_amount, h2) = chain (require (ltb 0 amount) amount_zero) _ h1 in
      let (_, _, h3) =
        chain (require (leb amount (collateral_on b u)) insufficient_balance_for_collateral) _ h2 in
      let (paid, sent, _) =
        chain (transfer t a.collateral_vault a.user_collateral_token_account amount l) _ h3 in
      (amount, paid, positive amount some_amount, sent)

  pub add_collateral-IsSolvent :
      (user key : Pubkey) (bump : ℕ) (x : CollateralContext) (a : CollateralAccounts) (amount : ℕ)
      (u w u' : UserPosition) (q : Pair) (l l' : Ledger)
      → KeepsMints t c
      → add_collateral_accounts c i.key p authority x w ≡ ok a
      → Collateral.add_collateral t slot m authority user key bump a amount u p l ≡ ok (u', q, l')
      → IsSolvent t i v p l
      → IsSolvent t i v q l'
  unfolding Collateral.add_collateral Collateral.validate_add
  add_collateral-IsSolvent user key bump x a amount u w u' q l l' mints checked h solvent =
      let (r, updated, valid, done) =
        phases (update slot m authority.revenue_share.interest_bps p)
          (λ r. Collateral.validate_add t a amount l)
          (λ r. Collateral.handle_add_collateral t user key bump a amount u r l) h in
      let (now, token0) = updated_lem t laws v apart i slot m authority p l updated solvent in
      let (signs, at, token, owns, mint) =
        add_collateral_checks c i v of p solvent.0 authority x w a checked in
      let b = x.collateral_token_mint == p.token0 in
      let e =
        collateral_lem c i v of p solvent.0 b x.collateral_token_mint a.collateral_vault refl token
          at in
      let pos : 0 < amount = ground arith in
      let (paid, sent) = deposit_paid user key bump a amount u u' r q l l' done in
      let one =
        mints_lem a.user_collateral_token_account a.collateral_vault amount l paid mints pos sent in
      let side =
        side_lem b x.collateral_token_mint a.user_collateral_token_account_mint a.collateral_vault
          r.token0 solvent.0 refl token e (mint ∙ one) token0 in
      ends t i v q r l l' now (
        handle_add_collateral-IsBacked t laws v apart b user key bump a amount u u' r q l l' side e
          (outside_lem c i v of a.user_collateral_token_account x.user owns signs) done now.1)

  pub remove_collateral-IsSolvent :
      (ids : ProgramIds) (key : Pubkey) (sysvar : Sysvar) (x : CollateralContext)
      (a : CollateralAccounts) (requested : ℕ) (u w u' : UserPosition) (q : Pair) (l l' : Ledger)
      → KeepsMints t c
      → adjust_collateral_accounts c i.key p authority ids x w ≡ ok a
      → Collateral.remove_collateral t slot m ids key sysvar authority a requested u p l
        ≡ ok (u', q, l')
      → IsSolvent t i v p l
      → IsSolvent t i v q l'
  unfolding Collateral.remove_collateral
  remove_collateral-IsSolvent ids key sysvar x a requested u w u' q l l' mints checked h solvent =
      let (r, updated, valid, done) =
        phases (update slot m authority.revenue_share.interest_bps p)
          (λ r. Collateral.validate_remove slot ids key sysvar authority a requested u r)
          (λ r. Collateral.handle_remove_collateral t slot a requested u r l) h in
      let (now, token0) = updated_lem t laws v apart i slot m authority p l updated solvent in
      let (at, token, mint) =
        adjust_collateral_checks c i v of p solvent.0 authority ids x w a checked in
      let b = x.collateral_token_mint == p.token0 in
      let e =
        collateral_lem c i v of p solvent.0 b x.collateral_token_mint a.collateral_vault refl token
          at in
      let (amount, paid, pos, sent) = withdrawal_paid a requested u u' r q l l' done in
      let one =
        mints_lem a.collateral_vault a.user_collateral_token_account amount l paid mints pos sent in
      let side =
        side_lem b x.collateral_token_mint a.user_collateral_token_account_mint a.collateral_vault
          r.token0 solvent.0 refl token e (mint ∙ sym one) token0 in
      ends t i v q r l l' now (
        handle_remove_collateral-IsBacked t laws v apart b slot a requested u u' r q l l' side e
          done now.1)
