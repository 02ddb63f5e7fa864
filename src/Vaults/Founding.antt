-- ===== src/Vaults/Founding.antt =====
-- Proofs: what the account constraints of `InitializeAndBootstrap` (instructions/liquidity/initialize.rs)
-- give: the vaults that are filled are those of the pair, and the deployer pays from none of them; and
-- the creation of the LP mint leaves the vaults alone.
use omnipair_rs.Base.{ℕ, ◌≡◌, ◌∙◌, List, not, ◌==◌, true, arith, Pubkey}
use omnipair_rs.Outcome.{ok, chain, guarded, require, invalid_mint_len, account_not_empty}
use omnipair_rs.Token.{TokenProgram, or_external}
use omnipair_rs.Liquidity.LpMint.{Programs, or_unreadable, check_lp_mint, create_lp_mint}
use omnipair_rs.Vaults.Loans.{called_lem}
use omnipair_rs.Futarchy.{FutarchyAuthority}
use omnipair_rs.Liquidity.Bootstrap.{InitializeAccounts}
use omnipair_rs.Accounts.{Chain, reserve_vault, has_seeds}
use omnipair_rs.Accounts.Creation.{
  InitializeContext, found_account, token_account, accounts_to_create, initialize_accounts,
}
use omnipair_rs.Vaults.{Vaults, Identity, AreVaultsOf, IsOutside, Keep, Raises}
use omnipair_rs.Vaults.Addresses.{address_lem, outside_lem}

-- The identity of the pair that is created at a key.
abbrev pub identity_of : Pubkey → InitializeAccounts → Identity
identity_of key a = record {
  key = key;
  token0 = a.token0_mint;
  token1 = a.token1_mint;
  bumps = a.vault_bumps;
}

module _ (c : Chain) (params_hash : ℕ) (authority : FutarchyAuthority) (x : InitializeContext)
    (a : InitializeAccounts) where
  created_lem :
      accounts_to_create c params_hash x ≡ ok tt
      → (has_seeds c
            (reserve_vault x.pair x.token0_mint)
            (c.find_bump (reserve_vault x.pair x.token0_mint))
            x.reserve0_vault
          ≡ true)
        × (has_seeds c
              (reserve_vault x.pair x.token1_mint)
              (c.find_bump (reserve_vault x.pair x.token1_mint))
              x.reserve1_vault
            ≡ true)
  unfolding accounts_to_create found_account
  created_lem h = (ground arith, ground arith)

  checks_lem :
      initialize_accounts c params_hash authority x ≡ ok a
      → (accounts_to_create c params_hash x ≡ ok tt)
        × (c.is_signer x.deployer ≡ true)
        × (c.token_authority a.deployer_token0 ≡ x.deployer)
        × (c.token_authority a.deployer_token1 ≡ x.deployer)
  unfolding initialize_accounts token_account
  checks_lem h = (ground arith, ground arith, ground arith, ground arith)

  fields_lem :
      initialize_accounts c params_hash authority x ≡ ok a
      → (a.reserve0_vault ≡ x.reserve0_vault)
        × (a.reserve1_vault ≡ x.reserve1_vault)
        × (a.token0_mint ≡ x.token0_mint)
        × (a.token1_mint ≡ x.token1_mint)
        × (a.vault_bumps.reserve0 ≡ c.find_bump (reserve_vault x.pair x.token0_mint))
        × (a.vault_bumps.reserve1 ≡ c.find_bump (reserve_vault x.pair x.token1_mint))
  unfolding initialize_accounts token_account
  fields_lem h =
      (ground arith, ground arith, ground arith, ground arith, ground arith, ground arith)

  pub founded_lem :
      (v : Vaults)
      → initialize_accounts c params_hash authority x ≡ ok a
      → AreVaultsOf c (identity_of x.pair a) v
      → (a.reserve0_vault ≡ v.reserve0)
        × (a.reserve1_vault ≡ v.reserve1)
        × IsOutside v a.deployer_token0
        × IsOutside v a.deployer_token1
  founded_lem v h of =
      let (made, signs, owns0, owns1) = checks_lem h in
      let (f0, f1, t0, t1, b0, b1) = fields_lem h in
      let (s0, s1) = created_lem made in
      let outside = outside_lem c (identity_of x.pair a) v of in
      (
        f0 ∙ address_lem _ x.reserve0_vault v.reserve0 s0 (rw (← b0, ← t0) of.at_reserve0),
        f1 ∙ address_lem _ x.reserve1_vault v.reserve1 s1 (rw (← b1, ← t1) of.at_reserve1),
        outside a.deployer_token0 x.deployer owns0 signs,
        outside a.deployer_token1 x.deployer owns1 signs,
      )

module _ (t : TokenProgram) (v : Vaults) where
  open t use {Ledger, balance}

  -- The programs that create the LP mint, the deployer's account of it and its metadata take nothing
  -- from the vaults.
  abbrev pub AreSparing : Programs Ledger → Type 0
  AreSparing programs =
      ((mint authority : Pubkey) (decimals : ℕ)
        → Raises t v (programs.initialize_mint2 mint authority decimals))
      × ((account authority mint : Pubkey)
          → Raises t v (programs.create_idempotent account authority mint))
      × ((mint authority : Pubkey) (name symbol uri : List ℕ)
          → Raises t v (programs.create_metadata mint authority name symbol uri))

  pub create_lp_mint-Keep :
      (programs : Programs Ledger) (pair mint deployer deployer_lp : Pubkey)
      (name symbol uri : List ℕ) (l l' : Ledger)
      → AreSparing programs
      → create_lp_mint t programs pair mint deployer deployer_lp name symbol uri l ≡ ok l'
      → Keep t v l l'
  unfolding create_lp_mint
  create_lp_mint-Keep programs pair mint deployer deployer_lp name symbol uri l l'
        (mints, accounts, datas) h =
      let (_, h1) = guarded (require (programs.data_len l mint == 82) invalid_mint_len) _ h in
      let (before, _, h2) = chain (or_unreadable (programs.unpack_unchecked l mint)) _ h1 in
      let (_, h3) = guarded (require (not before.is_initialized) account_not_empty) _ h2 in
      let (l1, e1, h4) = chain (or_external t (programs.initialize_mint2 mint pair 9 l)) _ h3 in
      let (minted, _, h5) = chain (or_unreadable (programs.unpack l1 mint)) _ h4 in
      let (_, h6) = guarded (check_lp_mint t programs pair minted) _ h5 in
      let (l2, e2, h7) =
        chain (or_external t (programs.create_idempotent deployer_lp deployer mint l1)) _ h6 in
      let k1 = mints mint pair 9 l l1 (called_lem t _ e1) in
      let k2 = accounts deployer_lp deployer mint l1 l2 (called_lem t _ e2) in
      let k3 = datas mint pair name symbol uri l2 l' (called_lem t _ h7) in
      (omega arith, omega arith, omega arith, omega arith)
