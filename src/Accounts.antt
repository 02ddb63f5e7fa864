-- ===== src/Accounts.antt =====
-- The account constraints (`#[account(...)]`) of the instructions of programs/omnipair/src/instructions,
-- as Anchor checks them before an instruction runs: seeds, addresses, mints, authorities and signers.
pub mod Pools
pub mod Positions
pub mod Admin
pub mod Creation
use omnipair_rs.Base.{ℕ, Bool, true, false, Option, none, some, ◌==◌, ◌||◌, Pubkey}
use omnipair_rs.Outcome.{Result, ok, err, external, ◌>>◌, require, invalid_mint}
use omnipair_rs.Futarchy.{FutarchyAuthority}
use omnipair_rs.Pair.{Pair, get_reserve_vault_bump, get_collateral_vault_bump}

-- The seeds of the program's addresses, one constructor for each prefix in constants.rs, and those of
-- the program's data, which the loader keeps. Metadata is at an address of the metadata program.
pub data Seeds : Type 0 where
  gamm_pair : (token0 token1 : Pubkey) (params_hash : ℕ) → Seeds
  gamm_position : (pair user : Pubkey) → Seeds
  futarchy_authority : Seeds
  metadata : (lp_mint : Pubkey) → Seeds
  reserve_vault collateral_vault : (pair mint : Pubkey) → Seeds
  pair_rate_model : (pair : Pubkey) → Seeds
  program_data : Seeds

-- What Anchor and the runtime answer: the address of seeds and a bump, `none` where there is none; the
-- bump that `find_program_address` finds; the mint and the authority of a token account; the decimals
-- of a mint; the program that owns an account; the associated token account of an authority and a mint;
-- and whether an address signed the transaction. The last three are constants of the programs.
pub record Chain : Type 0 where
  pub create_program_address : Seeds → ℕ → Option Pubkey
  pub find_bump : Seeds → ℕ
  pub token_mint : Pubkey → Pubkey
  pub token_authority : Pubkey → Pubkey
  pub mint_decimals : Pubkey → ℕ
  pub program_of : Pubkey → Pubkey
  pub associated_token : Pubkey → Pubkey → Pubkey
  pub is_signer : Pubkey → Bool
  pub reduce_only_emergency_authority : Pubkey
  pub token_program : Pubkey
  pub native_mint : Pubkey

-- A constraint without an error code of its own fails with an error of Anchor.
abbrev pub constraint : Bool → Result (Unit {0})
constraint true = ok tt
constraint false = err external

abbrev pub is_address : Option Pubkey → Pubkey → Bool
is_address none key = false
is_address (some address) key = address == key

module _ (c : Chain) where
  -- `seeds = [...], bump = ...`.
  abbrev pub has_seeds : Seeds → ℕ → Pubkey → Bool
  has_seeds seeds bump key = is_address (c.create_program_address seeds bump) key

  module _ (pair_key : Pubkey) (p : Pair) where
    -- The accounts with which the structures begin: the pair, its rate model, and the authority.
    unfoldable pub pair_account : Result (Unit {0})
    pair_account =
        constraint (has_seeds (gamm_pair p.token0 p.token1 p.params_hash) p.bump pair_key)

    unfoldable pub common_accounts : Pubkey → Pubkey → FutarchyAuthority → Result (Unit {0})
    common_accounts rate_model authority_key authority = do
      pair_account
      constraint (rate_model == p.rate_model)
      constraint (has_seeds futarchy_authority authority.bump authority_key)

    -- The vaults of a mint that is given.
    unfoldable pub reserve_vault_account : Pubkey → Pubkey → Result (Unit {0})
    reserve_vault_account mint vault =
        constraint (has_seeds (reserve_vault pair_key mint) (get_reserve_vault_bump p mint) vault)

    unfoldable pub collateral_vault_account : Pubkey → Pubkey → Result (Unit {0})
    collateral_vault_account mint vault =
        constraint
          (has_seeds (collateral_vault pair_key mint) (get_collateral_vault_bump p mint) vault)

    -- The reserve vaults of both tokens.
    unfoldable pub reserve_vault_accounts : Pubkey → Pubkey → Result (Unit {0})
    reserve_vault_accounts vault0 vault1 = do
      constraint (has_seeds (reserve_vault pair_key p.token0) p.vault_bumps.reserve0 vault0)
      constraint (has_seeds (reserve_vault pair_key p.token1) p.vault_bumps.reserve1 vault1)

    abbrev pub is_token : Pubkey → Bool
    is_token mint = mint == p.token0 || mint == p.token1
