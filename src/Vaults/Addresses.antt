-- ===== src/Vaults/Addresses.antt =====
-- Proofs: the accounts at the addresses that the constraints ask for are the vaults of the pair, and
-- the accounts of a user who signs are none of them (`#[account(...)]`).
use omnipair_rs.Base.{
  ◌≡◌, ◌≢◌, ◌∙◌, refl, sym, ap, Bool, true, false, Option, none, some, ◌==◌, arith, Pubkey,
}
use omnipair_rs.Outcome.{ok, guarded}
use omnipair_rs.Pair.{Pair, get_reserve_vault_bump, get_collateral_vault_bump}
use omnipair_rs.Accounts.{
  Chain, reserve_vault, collateral_vault, has_seeds, is_address, constraint, reserve_vault_account,
  collateral_vault_account, reserve_vault_accounts, is_token,
}
use omnipair_rs.Vaults.{
  Vaults, Identity, HasIdentity, AreVaultsOf, IsOutside, reserve_of, collateral_of,
}

pub address_lem :
    (o : Option Pubkey) (key vault : Pubkey)
    → is_address o key ≡ true
    → o ≡ some vault
    → key ≡ vault
address_lem none key vault h e = ground arith
address_lem (some address) key vault h e = ground arith

pub constraint_lem : (b : Bool) → constraint b ≡ ok tt → b ≡ true
constraint_lem true h = refl
constraint_lem false h = ground arith

module _ (c : Chain) (i : Identity) (v : Vaults) (of : AreVaultsOf c i v) where
  -- An account of a signer.
  pub outside_lem :
      (account user : Pubkey)
      → c.token_authority account ≡ user
      → c.is_signer user ≡ true
      → IsOutside v account
  outside_lem account user owns signs =
      let (o0, o1, o2, o3) = of.owned in
      let unsigned = of.unsigned in
      (
        λ e. differ v.reserve0 o0 e,
        λ e. differ v.reserve1 o1 e,
        λ e. differ v.collateral0 o2 e,
        λ e. differ v.collateral1 o3 e,
      )
    where
      differ : (vault : Pubkey) → c.token_authority vault ≡ i.key → account ≢ vault
      differ vault owned e =
          let same : user ≡ i.key = sym owns ∙ (ap c.token_authority e ∙ owned) in
          let both : c.is_signer user ≡ false = rw same of.unsigned in ground arith

  module _ (p : Pair) (same : HasIdentity i p) where
    -- The vaults at the addresses of a token.
    pub reserve_lem :
        (b : Bool) (mint key : Pubkey)
        → (mint == p.token0) ≡ b
        → is_token c i.key p mint ≡ true
        → reserve_vault_account c i.key p mint key ≡ ok tt
        → key ≡ reserve_of b v
    unfolding reserve_vault_account get_reserve_vault_bump
    reserve_lem true mint key side token h =
        let (e0, _, eb) = same in
        let at : has_seeds c (reserve_vault i.key mint) (get_reserve_vault_bump p mint) key ≡ true =
          constraint_lem _ h in
        let e : mint ≡ i.token0 = ground arith in
        let bump : get_reserve_vault_bump p mint ≡ i.bumps.reserve0 = ground arith in
        let found : c.create_program_address (reserve_vault i.key mint)
              (get_reserve_vault_bump p mint)
            ≡ some v.reserve0 =
          rw (bump, e) of.at_reserve0 in
        address_lem _ key v.reserve0 at found
    reserve_lem false mint key side token h =
        let (_, e1, eb) = same in
        let at : has_seeds c (reserve_vault i.key mint) (get_reserve_vault_bump p mint) key ≡ true =
          constraint_lem _ h in
        let e : mint ≡ i.token1 = ground arith in
        let bump : get_reserve_vault_bump p mint ≡ i.bumps.reserve1 = ground arith in
        let found : c.create_program_address (reserve_vault i.key mint)
              (get_reserve_vault_bump p mint)
            ≡ some v.reserve1 =
          rw (bump, e) of.at_reserve1 in
        address_lem _ key v.reserve1 at found

    pub collateral_lem :
        (b : Bool) (mint key : Pubkey)
        → (mint == p.token0) ≡ b
        → is_token c i.key p mint ≡ true
        → collateral_vault_account c i.key p mint key ≡ ok tt
        → key ≡ collateral_of b v
    unfolding collateral_vault_account get_collateral_vault_bump
    collateral_lem true mint key side token h =
        let (e0, _, eb) = same in
        let at : has_seeds c (collateral_vault i.key mint) (get_collateral_vault_bump p mint) key
            ≡ true =
          constraint_lem _ h in
        let e : mint ≡ i.token0 = ground arith in
        let bump : get_collateral_vault_bump p mint ≡ i.bumps.collateral0 = ground arith in
        let found : c.create_program_address (collateral_vault i.key mint)
              (get_collateral_vault_bump p mint)
            ≡ some v.collateral0 =
          rw (bump, e) of.at_collateral0 in
        address_lem _ key v.collateral0 at found
    collateral_lem false mint key side token h =
        let (_, e1, eb) = same in
        let at : has_seeds c (collateral_vault i.key mint) (get_collateral_vault_bump p mint) key
            ≡ true =
          constraint_lem _ h in
        let e : mint ≡ i.token1 = ground arith in
        let bump : get_collateral_vault_bump p mint ≡ i.bumps.collateral1 = ground arith in
        let found : c.create_program_address (collateral_vault i.key mint)
              (get_collateral_vault_bump p mint)
            ≡ some v.collateral1 =
          rw (bump, e) of.at_collateral1 in
        address_lem _ key v.collateral1 at found

    pub reserves_lem :
        (key0 key1 : Pubkey)
        → reserve_vault_accounts c i.key p key0 key1 ≡ ok tt
        → (key0 ≡ v.reserve0) × (key1 ≡ v.reserve1)
    unfolding reserve_vault_accounts
    reserves_lem key0 key1 h =
        let (e0, e1, eb) = same in
        let (at0, at1) = guarded _ _ h in
        let found0 : c.create_program_address (reserve_vault i.key p.token0) p.vault_bumps.reserve0
            ≡ some v.reserve0 =
          rw (e0, eb) of.at_reserve0 in
        let found1 : c.create_program_address (reserve_vault i.key p.token1) p.vault_bumps.reserve1
            ≡ some v.reserve1 =
          rw (e1, eb) of.at_reserve1 in
        (
          address_lem _ key0 v.reserve0 (constraint_lem _ at0) found0,
          address_lem _ key1 v.reserve1 (constraint_lem _ at1) found1,
        )
