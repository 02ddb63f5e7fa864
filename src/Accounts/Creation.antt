-- ===== src/Accounts/Creation.antt =====
-- The account constraints of the instructions that create accounts:
-- instructions/liquidity/initialize.rs and instructions/futarchy/init_futarchy_authority.rs. An account
-- that Anchor creates (`init`) is at the address of its seeds and the bump that is found.
use omnipair_rs.Base.{ℕ, ◌==◌, Pubkey}
use omnipair_rs.Outcome.{Result, ok, ◌>>◌, require, invalid_recipient, invalid_token_program}
use omnipair_rs.Futarchy.{FutarchyAuthority}
use omnipair_rs.Liquidity.Bootstrap.{InitializeAccounts}
use omnipair_rs.Accounts.{
  Chain, Seeds, gamm_pair, futarchy_authority, metadata, reserve_vault, collateral_vault,
  pair_rate_model, program_data, has_seeds, constraint,
}

pub record InitializeContext : Type 0 where
  pub deployer : Pubkey
  pub token0_mint : Pubkey
  pub token1_mint : Pubkey
  pub pair : Pubkey
  pub futarchy_authority : Pubkey
  pub rate_model : Pubkey
  pub lp_mint : Pubkey
  pub lp_token_metadata : Pubkey
  pub deployer_lp_token_account : Pubkey
  pub reserve0_vault : Pubkey
  pub reserve1_vault : Pubkey
  pub collateral0_vault : Pubkey
  pub collateral1_vault : Pubkey
  pub deployer_token0_account : Pubkey
  pub deployer_token1_account : Pubkey
  pub team_treasury : Pubkey
  pub team_treasury_wsol_account : Pubkey

module _ (c : Chain) where
  -- `seeds = [...], bump`, without a bump that is given.
  unfoldable pub found_account : Seeds → Pubkey → Result (Unit {0})
  found_account seeds key = constraint (has_seeds c seeds (c.find_bump seeds) key)

  -- An account of a mint and an authority.
  unfoldable pub token_account : Pubkey → Pubkey → Pubkey → Result (Unit {0})
  token_account mint owner key = do
    constraint (c.token_mint key == mint)
    constraint (c.token_authority key == owner)

  -- The accounts that `InitializeAndBootstrap` creates.
  unfoldable pub accounts_to_create : ℕ → InitializeContext → Result (Unit {0})
  accounts_to_create params_hash x = do
    found_account (gamm_pair x.token0_mint x.token1_mint params_hash) x.pair
    found_account (pair_rate_model x.pair) x.rate_model
    found_account (reserve_vault x.pair x.token0_mint) x.reserve0_vault
    found_account (reserve_vault x.pair x.token1_mint) x.reserve1_vault
    found_account (collateral_vault x.pair x.token0_mint) x.collateral0_vault
    found_account (collateral_vault x.pair x.token1_mint) x.collateral1_vault

  -- `InitializeAndBootstrap`, with the hash of the parameters.
  unfoldable pub initialize_accounts :
      ℕ → FutarchyAuthority → InitializeContext → Result InitializeAccounts
  initialize_accounts params_hash authority x = do
    let team = authority.recipients.team_treasury
    constraint (c.is_signer x.deployer)
    accounts_to_create params_hash x
    constraint (has_seeds c futarchy_authority authority.bump x.futarchy_authority)
    require (c.program_of x.lp_mint == c.token_program) invalid_token_program
    found_account (metadata x.lp_mint) x.lp_token_metadata
    token_account x.token0_mint x.deployer x.deployer_token0_account
    token_account x.token1_mint x.deployer x.deployer_token1_account
    require (x.team_treasury == team) invalid_recipient
    constraint (c.token_mint x.team_treasury_wsol_account == c.native_mint)
    require (c.token_authority x.team_treasury_wsol_account == team) invalid_recipient
    require (c.program_of x.team_treasury_wsol_account == c.token_program) invalid_token_program
    ok (record {
      deployer = x.deployer;
      pair = x.pair;
      token0_mint = x.token0_mint;
      token1_mint = x.token1_mint;
      decimals0 = c.mint_decimals x.token0_mint;
      decimals1 = c.mint_decimals x.token1_mint;
      rate_model = x.rate_model;
      lp_mint = x.lp_mint;
      deployer_token0 = x.deployer_token0_account;
      deployer_token1 = x.deployer_token1_account;
      deployer_lp = x.deployer_lp_token_account;
      reserve0_vault = x.reserve0_vault;
      reserve1_vault = x.reserve1_vault;
      team_treasury_wsol_account = x.team_treasury_wsol_account;
      pair_bump = c.find_bump (gamm_pair x.token0_mint x.token1_mint params_hash);
      vault_bumps = record {
        reserve0 = c.find_bump (reserve_vault x.pair x.token0_mint);
        reserve1 = c.find_bump (reserve_vault x.pair x.token1_mint);
        collateral0 = c.find_bump (collateral_vault x.pair x.token0_mint);
        collateral1 = c.find_bump (collateral_vault x.pair x.token1_mint);
      };
    })

  -- `InitFutarchyAuthority`: the last account is the loader's, of this program.
  unfoldable pub init_authority_accounts : Pubkey → Pubkey → Pubkey → Result (Unit {0})
  init_authority_accounts deployer key loaded = do
    constraint (c.is_signer deployer)
    found_account futarchy_authority key
    found_account program_data loaded
