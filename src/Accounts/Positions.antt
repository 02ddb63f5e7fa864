-- ===== src/Accounts/Positions.antt =====
-- The account constraints of the instructions on a position: instructions/lending/common.rs,
-- add_collateral.rs, borrow.rs and liquidate.rs. Anchor checks the signers first.
use omnipair_rs.Base.{◌==◌, ◌||◌, Pubkey}
use omnipair_rs.Outcome.{
  Result, ok, ◌>>=◌, ◌>>◌, require, invalid_mint, invalid_vault, invalid_instructions_sysvar,
}
use omnipair_rs.Futarchy.{FutarchyAuthority}
use omnipair_rs.Pair.{Pair}
use omnipair_rs.Position.{UserPosition, default_key}
use omnipair_rs.Breaker.{ProgramIds}
use omnipair_rs.Lending.{DebtAccounts, CollateralAccounts}
use omnipair_rs.Lending.Liquidate.{LiquidateAccounts}
use omnipair_rs.Accounts.{
  Chain, gamm_position, has_seeds, constraint, common_accounts, reserve_vault_account,
  collateral_vault_account, is_token,
}

-- `AddCollateral` and, with the sysvar, `CommonAdjustCollateral`.
pub record CollateralContext : Type 0 where
  pub user_position : Pubkey
  pub rate_model : Pubkey
  pub futarchy_authority : Pubkey
  pub collateral_vault : Pubkey
  pub user_collateral_token_account : Pubkey
  pub collateral_token_mint : Pubkey
  pub user : Pubkey
  pub instructions_sysvar : Pubkey

-- `CommonAdjustDebt` and, with the sysvar, `Borrow`.
pub record DebtContext : Type 0 where
  pub user_position : Pubkey
  pub rate_model : Pubkey
  pub futarchy_authority : Pubkey
  pub reserve_vault : Pubkey
  pub user_reserve_token_account : Pubkey
  pub reserve_token_mint : Pubkey
  pub user : Pubkey
  pub instructions_sysvar : Pubkey

pub record LiquidateContext : Type 0 where
  pub user_position : Pubkey
  pub rate_model : Pubkey
  pub futarchy_authority : Pubkey
  pub collateral_vault : Pubkey
  pub caller_token_account : Pubkey
  pub collateral_token_mint : Pubkey
  pub reserve_vault : Pubkey
  pub position_owner : Pubkey
  pub payer : Pubkey

module _ (c : Chain) (pair_key : Pubkey) (p : Pair) (authority : FutarchyAuthority) where
  -- The position of the user who signs.
  unfoldable pub position_account : Pubkey → Pubkey → UserPosition → Result (Unit {0})
  position_account key user u = do
    constraint (has_seeds c (gamm_position pair_key user) u.bump key)
    constraint (u.owner == user)
    constraint (u.pair == pair_key)

  -- A position that is created where there is none, at the bump that is found.
  unfoldable pub new_position_account : Pubkey → Pubkey → UserPosition → Result (Unit {0})
  new_position_account key user u = do
    let seeds = gamm_position pair_key user
    constraint (has_seeds c seeds (c.find_bump seeds) key)
    constraint (u.owner == default_key || u.owner == user)
    constraint (u.pair == default_key || u.pair == pair_key)

  -- The vault and the user's account: its mint is compared with the pair's tokens only.
  unfoldable pub collateral_accounts : CollateralContext → Result CollateralAccounts
  collateral_accounts x = do
    let mint = c.token_mint x.user_collateral_token_account
    common_accounts c pair_key p x.rate_model x.futarchy_authority authority
    collateral_vault_account c pair_key p x.collateral_token_mint x.collateral_vault
    constraint (is_token c pair_key p mint)
    constraint (c.token_authority x.user_collateral_token_account == x.user)
    require (is_token c pair_key p x.collateral_token_mint) invalid_mint
    ok (record {
      collateral_vault = x.collateral_vault;
      user_collateral_token_account = x.user_collateral_token_account;
      user_collateral_token_account_mint = mint;
    })

  -- `AddCollateral`.
  unfoldable pub add_collateral_accounts :
      CollateralContext → UserPosition → Result CollateralAccounts
  add_collateral_accounts x u = do
    constraint (c.is_signer x.user)
    new_position_account x.user_position x.user u
    collateral_accounts x

  -- `CommonAdjustCollateral`.
  unfoldable pub adjust_collateral_accounts :
      ProgramIds → CollateralContext → UserPosition → Result CollateralAccounts
  adjust_collateral_accounts ids x u = do
    constraint (c.is_signer x.user)
    position_account x.user_position x.user u
    accounts ← collateral_accounts x
    require (x.instructions_sysvar == ids.instructions_sysvar) invalid_instructions_sysvar
    ok accounts

  abbrev pub debt_accounts_of : DebtContext → DebtAccounts
  debt_accounts_of x = record {
    reserve_vault = x.reserve_vault;
    user_reserve_token_account = x.user_reserve_token_account;
    user_reserve_token_account_mint = c.token_mint x.user_reserve_token_account;
    reserve_token_mint = x.reserve_token_mint;
  }

  -- `CommonAdjustDebt`.
  unfoldable pub adjust_debt_accounts : DebtContext → UserPosition → Result DebtAccounts
  adjust_debt_accounts x u = do
    constraint (c.is_signer x.user)
    position_account x.user_position x.user u
    common_accounts c pair_key p x.rate_model x.futarchy_authority authority
    reserve_vault_account c pair_key p x.reserve_token_mint x.reserve_vault
    constraint (is_token c pair_key p (c.token_mint x.user_reserve_token_account))
    constraint (c.token_authority x.user_reserve_token_account == x.user)
    require (is_token c pair_key p x.reserve_token_mint) invalid_mint
    ok (debt_accounts_of x)

  -- `Borrow`.
  unfoldable pub borrow_accounts : ProgramIds → DebtContext → UserPosition → Result DebtAccounts
  borrow_accounts ids x u = do
    constraint (c.is_signer x.user)
    position_account x.user_position x.user u
    common_accounts c pair_key p x.rate_model x.futarchy_authority authority
    reserve_vault_account c pair_key p x.reserve_token_mint x.reserve_vault
    require (c.token_mint x.user_reserve_token_account == x.reserve_token_mint) invalid_mint
    constraint (c.token_authority x.user_reserve_token_account == x.user)
    require (is_token c pair_key p x.reserve_token_mint) invalid_mint
    require (x.instructions_sysvar == ids.instructions_sysvar) invalid_instructions_sysvar
    ok (debt_accounts_of x)

  -- `Liquidate`: anybody may call it, and be paid to any account of the collateral's mint.
  unfoldable pub liquidate_accounts : LiquidateContext → UserPosition → Result LiquidateAccounts
  liquidate_accounts x u = do
    constraint (c.is_signer x.payer)
    constraint (has_seeds c (gamm_position pair_key x.position_owner) u.bump x.user_position)
    common_accounts c pair_key p x.rate_model x.futarchy_authority authority
    collateral_vault_account c pair_key p x.collateral_token_mint x.collateral_vault
    constraint (c.token_mint x.caller_token_account == c.token_mint x.collateral_vault)
    require (is_token c pair_key p x.collateral_token_mint) invalid_vault
    reserve_vault_account c pair_key p x.collateral_token_mint x.reserve_vault
    constraint (x.position_owner == u.owner)
    ok (record {
      pair = pair_key;
      collateral_vault = x.collateral_vault;
      collateral_vault_mint = c.token_mint x.collateral_vault;
      collateral_token_mint = x.collateral_token_mint;
      reserve_vault = x.reserve_vault;
      reserve_vault_mint = c.token_mint x.reserve_vault;
      reserve_vault_owner = c.token_authority x.reserve_vault;
      caller_token_account = x.caller_token_account;
    })
