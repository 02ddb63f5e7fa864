-- ===== src/Accounts/Pools.antt =====
-- The account constraints of the instructions on the pair: instructions/spot/swap.rs,
-- instructions/liquidity/common.rs and remove_liquidity.rs, instructions/lending/flashloan.rs and
-- instructions/futarchy/claim_protocol_fees.rs. The account of the pair is the one at its key. Anchor
-- checks the signers first.
use omnipair_rs.Base.{Bool, ◌==◌, Pubkey}
use omnipair_rs.Outcome.{
  Result, ok, ◌>>◌, require, invalid_mint, invalid_token_account, invalid_recipient,
  invalid_instructions_sysvar,
}
use omnipair_rs.Futarchy.{FutarchyAuthority}
use omnipair_rs.Futarchy.Claim.{ClaimAccounts}
use omnipair_rs.Pair.{Pair}
use omnipair_rs.Swap.{SwapAccounts}
use omnipair_rs.Breaker.{ProgramIds}
use omnipair_rs.Liquidity.{LiquidityAccounts}
use omnipair_rs.Lending.Flashloan.{FlashloanAccounts}
use omnipair_rs.Accounts.{
  Chain, constraint, common_accounts, reserve_vault_account, reserve_vault_accounts, is_token,
}

pub record SwapContext : Type 0 where
  pub rate_model : Pubkey
  pub futarchy_authority : Pubkey
  pub token_in_vault : Pubkey
  pub token_out_vault : Pubkey
  pub user_token_in_account : Pubkey
  pub user_token_out_account : Pubkey
  pub token_in_mint : Pubkey
  pub token_out_mint : Pubkey
  pub user : Pubkey

-- `AdjustLiquidity` and `RemoveLiquidity`, which have the same accounts.
pub record LiquidityContext : Type 0 where
  pub rate_model : Pubkey
  pub futarchy_authority : Pubkey
  pub reserve0_vault : Pubkey
  pub reserve1_vault : Pubkey
  pub user_token0_account : Pubkey
  pub user_token1_account : Pubkey
  pub token0_mint : Pubkey
  pub token1_mint : Pubkey
  pub lp_mint : Pubkey
  pub user_lp_token_account : Pubkey
  pub user : Pubkey
  pub instructions_sysvar : Pubkey

pub record FlashloanContext : Type 0 where
  pub rate_model : Pubkey
  pub futarchy_authority : Pubkey
  pub reserve0_vault : Pubkey
  pub reserve1_vault : Pubkey
  pub token0_mint : Pubkey
  pub token1_mint : Pubkey
  pub receiver_token0_account : Pubkey
  pub receiver_token1_account : Pubkey
  pub user : Pubkey

-- The recipients' accounts of one token.
pub record Recipients : Type 0 where
  pub futarchy_treasury : Pubkey
  pub buybacks_vault : Pubkey
  pub team_treasury : Pubkey

pub record ClaimContext : Type 0 where
  pub caller : Pubkey
  pub rate_model : Pubkey
  pub futarchy_authority : Pubkey
  pub reserve0_vault : Pubkey
  pub reserve1_vault : Pubkey
  pub token0_mint : Pubkey
  pub token1_mint : Pubkey
  pub recipients : Recipients
  pub accounts0 : Recipients
  pub accounts1 : Recipients

module _ (c : Chain) (pair_key : Pubkey) (p : Pair) (authority : FutarchyAuthority) where
  -- `Swap`.
  unfoldable pub swap_accounts : SwapContext → Result SwapAccounts
  swap_accounts x = do
    constraint (c.is_signer x.user)
    common_accounts c pair_key p x.rate_model x.futarchy_authority authority
    reserve_vault_account c pair_key p x.token_in_mint x.token_in_vault
    reserve_vault_account c pair_key p x.token_out_mint x.token_out_vault
    require (c.token_mint x.user_token_in_account == x.token_in_mint) invalid_token_account
    constraint (c.token_authority x.user_token_in_account == x.user)
    require (c.token_mint x.user_token_out_account == x.token_out_mint) invalid_token_account
    constraint (c.token_authority x.user_token_out_account == x.user)
    require (is_token c pair_key p x.token_in_mint) invalid_mint
    require (is_token c pair_key p x.token_out_mint) invalid_mint
    ok (record {
      token_in_vault = x.token_in_vault;
      token_out_vault = x.token_out_vault;
      user_token_in = x.user_token_in_account;
      user_token_out = x.user_token_out_account;
      token_in_vault_mint = c.token_mint x.token_in_vault;
      token_out_vault_mint = c.token_mint x.token_out_vault;
      user_token_in_mint = c.token_mint x.user_token_in_account;
    })

  -- `AdjustLiquidity`, and `RemoveLiquidity` likewise.
  unfoldable pub liquidity_accounts : ProgramIds → LiquidityContext → Result LiquidityAccounts
  liquidity_accounts ids x = do
    constraint (c.is_signer x.user)
    common_accounts c pair_key p x.rate_model x.futarchy_authority authority
    reserve_vault_accounts c pair_key p x.reserve0_vault x.reserve1_vault
    constraint (c.token_mint x.user_token0_account == p.token0)
    constraint (c.token_authority x.user_token0_account == x.user)
    constraint (c.token_mint x.user_token1_account == p.token1)
    constraint (c.token_authority x.user_token1_account == x.user)
    require (x.token0_mint == p.token0) invalid_mint
    require (x.token1_mint == p.token1) invalid_mint
    require (x.lp_mint == p.lp_mint) invalid_mint
    constraint (x.user_lp_token_account == c.associated_token x.user x.lp_mint)
    constraint (c.token_authority x.user_lp_token_account == x.user)
    constraint (c.token_mint x.user_lp_token_account == x.lp_mint)
    require (x.instructions_sysvar == ids.instructions_sysvar) invalid_instructions_sysvar
    ok (record {
      reserve0_vault = x.reserve0_vault;
      reserve1_vault = x.reserve1_vault;
      user_token0 = x.user_token0_account;
      user_token1 = x.user_token1_account;
      user_lp = x.user_lp_token_account;
    })

  -- `Flashloan`: the receiver's accounts may be anybody's.
  unfoldable pub flashloan_accounts : FlashloanContext → Result FlashloanAccounts
  flashloan_accounts x = do
    constraint (c.is_signer x.user)
    common_accounts c pair_key p x.rate_model x.futarchy_authority authority
    reserve_vault_accounts c pair_key p x.reserve0_vault x.reserve1_vault
    require (x.token0_mint == p.token0) invalid_mint
    require (x.token1_mint == p.token1) invalid_mint
    constraint (c.token_mint x.receiver_token0_account == p.token0)
    constraint (c.token_mint x.receiver_token1_account == p.token1)
    ok (record {
      reserve0_vault = x.reserve0_vault;
      reserve1_vault = x.reserve1_vault;
      receiver_token0_account = x.receiver_token0_account;
      receiver_token1_account = x.receiver_token1_account;
    })

  -- An `associated_token` of `ClaimProtocolFees`, which is created where there is none.
  abbrev recipient_account : Pubkey → Pubkey → Pubkey → Bool
  recipient_account owner mint account = account == c.associated_token owner mint

  -- `ClaimProtocolFees`: the vault and the recipients' accounts of token 0, and of token 1.
  unfoldable pub claim_accounts : ClaimContext → Result (ClaimAccounts × ClaimAccounts)
  claim_accounts x = do
    constraint (c.is_signer x.caller)
    common_accounts c pair_key p x.rate_model x.futarchy_authority authority
    reserve_vault_accounts c pair_key p x.reserve0_vault x.reserve1_vault
    constraint (x.token0_mint == p.token0)
    constraint (x.token1_mint == p.token1)
    constraint (
        recipient_account x.recipients.futarchy_treasury x.token0_mint
          x.accounts0.futarchy_treasury)
    constraint (
        recipient_account x.recipients.futarchy_treasury x.token1_mint
          x.accounts1.futarchy_treasury)
    require (x.recipients.futarchy_treasury == authority.recipients.futarchy_treasury)
        invalid_recipient
    constraint
        (recipient_account x.recipients.buybacks_vault x.token0_mint x.accounts0.buybacks_vault)
    constraint
        (recipient_account x.recipients.buybacks_vault x.token1_mint x.accounts1.buybacks_vault)
    require (x.recipients.buybacks_vault == authority.recipients.buybacks_vault) invalid_recipient
    constraint
        (recipient_account x.recipients.team_treasury x.token0_mint x.accounts0.team_treasury)
    constraint
        (recipient_account x.recipients.team_treasury x.token1_mint x.accounts1.team_treasury)
    require (x.recipients.team_treasury == authority.recipients.team_treasury) invalid_recipient
    ok (
      record {
        reserve_vault = x.reserve0_vault;
        futarchy_treasury = x.accounts0.futarchy_treasury;
        buybacks_vault = x.accounts0.buybacks_vault;
        team_treasury = x.accounts0.team_treasury;
      },
      record {
        reserve_vault = x.reserve1_vault;
        futarchy_treasury = x.accounts1.futarchy_treasury;
        buybacks_vault = x.accounts1.buybacks_vault;
        team_treasury = x.accounts1.team_treasury;
      },
    )
