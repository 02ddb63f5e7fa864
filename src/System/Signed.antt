-- ===== src/System/Signed.antt =====
-- Proofs: who signs a request (programs/omnipair/src/lib.rs) that succeeds.
use omnipair_rs.Base.{◌≡◌, ◌⊎◌, true, Pubkey}
use omnipair_rs.Outcome.{Result, ok}
use omnipair_rs.Position.{UserPosition, default_key}
use omnipair_rs.Token.{TokenProgram}
use omnipair_rs.Accounts.{Chain}
use omnipair_rs.System.{State}
use omnipair_rs.System.Dispatch.{Env, find}
use omnipair_rs.System.Request.{Request, existing, or_new}

-- The position that a user has, which belongs to the user.
abbrev Owns : Pubkey → Pubkey → Result UserPosition → Type 0
Owns user pair found = (u : UserPosition) × (found ≡ ok u) × (u.owner ≡ user) × (u.pair ≡ pair)

-- A position of the user for the pair; a new one has the key 0 in place of either.
abbrev IsOwnOrNew : Pubkey → Pubkey → UserPosition → Type 0
IsOwnOrNew user pair u =
    ((u.owner ≡ user) ⊎ (u.owner ≡ default_key)) × ((u.pair ≡ pair) ⊎ (u.pair ≡ default_key))

module _ (t : TokenProgram) (c : Chain) (e : Env) where
  open t use {Ledger}

  -- The signers of a request, and the accounts that are theirs.
  abbrev IsSigned : Request Ledger → State Ledger → Type 0
  IsSigned (Request.claim_protocol_fees x) s = c.is_signer x.caller ≡ true
  IsSigned (Request.set_pair_reduce_only signer flag) s =
      (c.is_signer signer ≡ true) × (signer ≡ c.reduce_only_emergency_authority)
  IsSigned (Request.set_pair_rate_model signer key model) s =
      (c.is_signer signer ≡ true) × (signer ≡ e.authority.authority)
  IsSigned (Request.add_liquidity x args) s =
      (c.is_signer x.user ≡ true)
      × (c.token_authority x.user_token0_account ≡ x.user)
      × (c.token_authority x.user_token1_account ≡ x.user)
  IsSigned (Request.remove_liquidity x args) s =
      (c.is_signer x.user ≡ true) × (c.token_authority x.user_lp_token_account ≡ x.user)
  IsSigned (Request.swap x args) s =
      (c.is_signer x.user ≡ true) × (c.token_authority x.user_token_in_account ≡ x.user)
  IsSigned (Request.add_collateral x amount) s =
      (c.is_signer x.user ≡ true)
      × (c.token_authority x.user_collateral_token_account ≡ x.user)
      × IsOwnOrNew x.user e.pair_key (or_new (find x.user s.positions))
  IsSigned (Request.remove_collateral x amount) s =
      (c.is_signer x.user ≡ true) × Owns x.user e.pair_key (existing (find x.user s.positions))
  IsSigned (Request.borrow x amount) s =
      (c.is_signer x.user ≡ true) × Owns x.user e.pair_key (existing (find x.user s.positions))
  IsSigned (Request.repay x amount) s =
      (c.is_signer x.user ≡ true)
      × (c.token_authority x.user_reserve_token_account ≡ x.user)
      × Owns x.user e.pair_key (existing (find x.user s.positions))
  IsSigned (Request.liquidate x) s = c.is_signer x.payer ≡ true
  IsSigned (Request.flashloan native_mint sync_native callback x args) s = c.is_signer x.user ≡ true
