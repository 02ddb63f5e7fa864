-- ===== src/Vaults/Checked.antt =====
-- Proofs: what the account constraints of each instruction (`#[account(...)]`) give about the accounts
-- that pass.
use omnipair_rs.Base.{◌≡◌, true, ◌==◌, arith}
use omnipair_rs.Outcome.{ok, chain, guarded, ok-injective, require, invalid_instructions_sysvar}
use omnipair_rs.Futarchy.{FutarchyAuthority}
use omnipair_rs.Futarchy.Claim.{ClaimAccounts}
use omnipair_rs.Pair.{Pair}
use omnipair_rs.Position.{UserPosition}
use omnipair_rs.Breaker.{ProgramIds}
use omnipair_rs.Swap.{SwapAccounts}
use omnipair_rs.Liquidity.{LiquidityAccounts}
use omnipair_rs.Lending.{DebtAccounts, CollateralAccounts}
use omnipair_rs.Lending.Flashloan.{FlashloanAccounts}
use omnipair_rs.Lending.Liquidate.{LiquidateAccounts}
use omnipair_rs.Accounts.{
  Chain, constraint, reserve_vault_account, collateral_vault_account, reserve_vault_accounts,
  is_token,
}
use omnipair_rs.Accounts.Pools.{
  SwapContext, LiquidityContext, FlashloanContext, ClaimContext, swap_accounts, liquidity_accounts,
  flashloan_accounts, claim_accounts,
}
use omnipair_rs.Accounts.Positions.{
  CollateralContext, DebtContext, LiquidateContext, position_account, new_position_account,
  collateral_accounts, add_collateral_accounts, adjust_collateral_accounts, adjust_debt_accounts,
  borrow_accounts, liquidate_accounts,
}
use omnipair_rs.Vaults.{Vaults, Identity, HasIdentity, AreVaultsOf}
use omnipair_rs.Vaults.Addresses.{constraint_lem}

module _ (c : Chain) (i : Identity) (v : Vaults) (of : AreVaultsOf c i v) where
  module _ (p : Pair) (same : HasIdentity i p) where
    module _ (authority : FutarchyAuthority) where
      -- `Swap`.
      pub swap_checks :
          (x : SwapContext) (a : SwapAccounts)
          → swap_accounts c i.key p authority x ≡ ok a
          → (c.is_signer x.user ≡ true)
            × (reserve_vault_account c i.key p x.token_in_mint a.token_in_vault ≡ ok tt)
            × (reserve_vault_account c i.key p x.token_out_mint a.token_out_vault ≡ ok tt)
            × (is_token c i.key p x.token_in_mint ≡ true)
            × (is_token c i.key p x.token_out_mint ≡ true)
            × (a.user_token_in_mint ≡ x.token_in_mint)
            × (c.token_authority a.user_token_in ≡ x.user)
      unfolding swap_accounts
      swap_checks x a h = (
        ground arith,
        ground arith,
        ground arith,
        ground arith,
        ground arith,
        ground arith,
        ground arith,
      )

      -- `AdjustLiquidity` and `RemoveLiquidity`.
      pub liquidity_checks :
          (ids : ProgramIds) (x : LiquidityContext) (a : LiquidityAccounts)
          → liquidity_accounts c i.key p authority ids x ≡ ok a
          → (c.is_signer x.user ≡ true)
            × (reserve_vault_accounts c i.key p a.reserve0_vault a.reserve1_vault ≡ ok tt)
            × (c.token_authority a.user_token0 ≡ x.user)
            × (c.token_authority a.user_token1 ≡ x.user)
            × (c.token_authority a.user_lp ≡ x.user)
      unfolding liquidity_accounts
      liquidity_checks ids x a h =
          (ground arith, ground arith, ground arith, ground arith, ground arith)

      -- `Flashloan`.
      pub flashloan_checks :
          (x : FlashloanContext) (a : FlashloanAccounts)
          → flashloan_accounts c i.key p authority x ≡ ok a
          → reserve_vault_accounts c i.key p a.reserve0_vault a.reserve1_vault ≡ ok tt
      unfolding flashloan_accounts
      flashloan_checks x a h = ground arith

      -- `ClaimProtocolFees`.
      pub claim_checks :
          (x : ClaimContext) (a0 a1 : ClaimAccounts)
          → claim_accounts c i.key p authority x ≡ ok (a0, a1)
          → reserve_vault_accounts c i.key p a0.reserve_vault a1.reserve_vault ≡ ok tt
      unfolding claim_accounts
      claim_checks x a0 a1 h = ground arith

      -- `AddCollateral` and `CommonAdjustCollateral`.
      collateral_checks :
          (x : CollateralContext) (a : CollateralAccounts)
          → collateral_accounts c i.key p authority x ≡ ok a
          → (collateral_vault_account c i.key p x.collateral_token_mint a.collateral_vault ≡ ok tt)
            × (is_token c i.key p x.collateral_token_mint ≡ true)
            × (c.token_authority a.user_collateral_token_account ≡ x.user)
            × (a.user_collateral_token_account_mint ≡ c.token_mint a.user_collateral_token_account)
      unfolding collateral_accounts
      collateral_checks x a h = (ground arith, ground arith, ground arith, ground arith)

      pub add_collateral_checks :
          (x : CollateralContext) (u : UserPosition) (a : CollateralAccounts)
          → add_collateral_accounts c i.key p authority x u ≡ ok a
          → (c.is_signer x.user ≡ true)
            × (collateral_vault_account c i.key p x.collateral_token_mint a.collateral_vault
                ≡ ok tt)
            × (is_token c i.key p x.collateral_token_mint ≡ true)
            × (c.token_authority a.user_collateral_token_account ≡ x.user)
            × (a.user_collateral_token_account_mint ≡ c.token_mint a.user_collateral_token_account)
      unfolding add_collateral_accounts
      add_collateral_checks x u a h =
          let (signs, h1) = guarded (constraint (c.is_signer x.user)) _ h in
          let (_, h2) =
            guarded (new_position_account c i.key p authority x.user_position x.user u) _ h1 in
          let (vault, token, owns, mint) = collateral_checks x a h2 in
          (constraint_lem _ signs, vault, token, owns, mint)

      pub adjust_collateral_checks :
          (ids : ProgramIds) (x : CollateralContext) (u : UserPosition) (a : CollateralAccounts)
          → adjust_collateral_accounts c i.key p authority ids x u ≡ ok a
          → (collateral_vault_account c i.key p x.collateral_token_mint a.collateral_vault ≡ ok tt)
            × (is_token c i.key p x.collateral_token_mint ≡ true)
            × (a.user_collateral_token_account_mint ≡ c.token_mint a.user_collateral_token_account)
      unfolding adjust_collateral_accounts
      adjust_collateral_checks ids x u a h =
          let (_, h1) = guarded (constraint (c.is_signer x.user)) _ h in
          let (_, h2) =
            guarded (position_account c i.key p authority x.user_position x.user u) _ h1 in
          let (a', taken, h3) = chain (collateral_accounts c i.key p authority x) _ h2 in
          let (_, h4) =
            guarded
              (require (x.instructions_sysvar == ids.instructions_sysvar)
                invalid_instructions_sysvar)
              _ h3 in
          let e = ok-injective h4 in
          let (vault, token, _, mint) = collateral_checks x a' taken in
          rw (← e) (vault, token, mint)

      -- `CommonAdjustDebt` and `Borrow`.
      pub repay_checks :
          (x : DebtContext) (u : UserPosition) (a : DebtAccounts)
          → adjust_debt_accounts c i.key p authority x u ≡ ok a
          → (c.is_signer x.user ≡ true)
            × (reserve_vault_account c i.key p a.reserve_token_mint a.reserve_vault ≡ ok tt)
            × (is_token c i.key p a.reserve_token_mint ≡ true)
            × (c.token_authority a.user_reserve_token_account ≡ x.user)
      unfolding adjust_debt_accounts
      repay_checks x u a h = (ground arith, ground arith, ground arith, ground arith)

      pub borrow_checks :
          (ids : ProgramIds) (x : DebtContext) (u : UserPosition) (a : DebtAccounts)
          → borrow_accounts c i.key p authority ids x u ≡ ok a
          → (reserve_vault_account c i.key p a.reserve_token_mint a.reserve_vault ≡ ok tt)
            × (is_token c i.key p a.reserve_token_mint ≡ true)
      unfolding borrow_accounts
      borrow_checks ids x u a h = (ground arith, ground arith)

      -- `Liquidate`.
      pub liquidate_checks :
          (x : LiquidateContext) (u : UserPosition) (a : LiquidateAccounts)
          → liquidate_accounts c i.key p authority x u ≡ ok a
          → (collateral_vault_account c i.key p a.collateral_token_mint a.collateral_vault ≡ ok tt)
            × (reserve_vault_account c i.key p a.collateral_token_mint a.reserve_vault ≡ ok tt)
            × (is_token c i.key p a.collateral_token_mint ≡ true)
      unfolding liquidate_accounts
      liquidate_checks x u a h = (ground arith, ground arith, ground arith)
