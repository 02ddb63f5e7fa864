-- ===== src/Liquidity/LpMint.antt =====
-- programs/omnipair/src/instructions/liquidity/initialize.rs: the parts of `initialize` that call other
-- programs: the fee for a new pair, and the LP mint with its checks. The other programs, the hash and
-- the build are parameters.
use omnipair_rs.Base.{
  ℕ, Bool, true, false, not, Option, none, some, List, [], ◌∷◌, ◌==◌, ◌&&◌, Pubkey,
}
use omnipair_rs.Outcome.{
  Result, ok, err, external, ◌>>=◌, ◌>>◌, require, ok_or, unwrap, invalid_lp_mint_key,
  invalid_mint_len, account_not_empty, invalid_mint_authority, frozen_lp_mint, non_zero_supply,
  wrong_lp_decimals,
}
use omnipair_rs.Constants.{pair_creation_fee_lamports}
use omnipair_rs.Token.{TokenProgram, or_external}

-- The data of a mint, as spl_token unpacks it.
pub record Mint : Type 0 where
  pub is_initialized : Bool
  pub mint_authority : Option Pubkey
  pub freeze_authority : Option Pubkey
  pub supply : ℕ
  pub decimals : ℕ

-- What `initialize` calls: the hash; whether the build is that of production; the text of a key; and
-- the system program, the token program, the associated token program and the metadata program.
pub record Programs (Ledger : Type 0) : Type 0 where
  pub hash : List ℕ → ℕ
  pub is_production : Bool
  pub to_string : Pubkey → List ℕ
  pub system_transfer : (from to : Pubkey) (lamports : ℕ) → Ledger → Option Ledger
  pub sync_native : (account : Pubkey) → Ledger → Option Ledger
  pub data_len : Ledger → Pubkey → ℕ
  pub unpack_unchecked : Ledger → Pubkey → Option Mint
  pub unpack : Ledger → Pubkey → Option Mint
  pub initialize_mint2 : (mint authority : Pubkey) (decimals : ℕ) → Ledger → Option Ledger
  pub create_idempotent : (account authority mint : Pubkey) → Ledger → Option Ledger
  pub create_metadata :
      (mint authority : Pubkey) (name symbol uri : List ℕ) → Ledger → Option Ledger

-- The last four bytes of a text, if it has as many.
unfoldable pub last_4 : List ℕ → Option (List ℕ)
last_4 [] = none
last_4 (a ∷ []) = none
last_4 (a ∷ b ∷ []) = none
last_4 (a ∷ b ∷ c ∷ []) = none
last_4 (a ∷ b ∷ c ∷ d ∷ []) = some (a ∷ b ∷ c ∷ d ∷ [])
last_4 (a ∷ b ∷ c ∷ d ∷ e ∷ rest) = last_4 (b ∷ c ∷ d ∷ e ∷ rest)

-- "omLP".
unfoldable pub is_omlp : List ℕ → Bool
is_omlp (a ∷ b ∷ c ∷ d ∷ []) = a == 111 && (b == 109 && (c == 76 && d == 80))
is_omlp _ = false

-- The check of the LP mint's key, in production only.
unfoldable pub validate_lp_mint_key : Bool → List ℕ → Result (Unit {0})
validate_lp_mint_key false key = ok tt
validate_lp_mint_key true key = do
  last ← ok_or (last_4 key) invalid_lp_mint_key
  require (is_omlp last) invalid_lp_mint_key

abbrev pub or_unreadable : Option Mint → Result Mint
or_unreadable none = err external
or_unreadable (some m) = ok m

abbrev is_absent : Option Pubkey → Bool
is_absent none = true
is_absent (some key) = false

module _ (t : TokenProgram) (programs : Programs (t.Ledger)) where
  open t use {Ledger}
  open programs use {
    system_transfer, sync_native, data_len, unpack_unchecked, unpack, initialize_mint2,
    create_idempotent, create_metadata,
  }

  -- The fee for the creation of a pair, from the deployer to the team's wrapped SOL.
  unfoldable pub collect_creation_fee : (deployer treasury : Pubkey) → Ledger → Result Ledger
  collect_creation_fee deployer treasury l = do
    paid ← or_external t (system_transfer deployer treasury pair_creation_fee_lamports l)
    or_external t (sync_native treasury paid)

  -- The checks of the LP mint after its initialisation.
  unfoldable pub check_lp_mint : (pair : Pubkey) → Mint → Result (Unit {0})
  check_lp_mint pair m = do
    authority ← unwrap m.mint_authority
    require (authority == pair) invalid_mint_authority
    require (is_absent m.freeze_authority) frozen_lp_mint
    require (m.supply == 0) non_zero_supply
    require (m.decimals == 9) wrong_lp_decimals

  -- The LP mint, the deployer's account of it, and its metadata.
  unfoldable pub create_lp_mint :
      (pair lp_mint deployer deployer_lp : Pubkey) (name symbol uri : List ℕ)
      → Ledger
      → Result Ledger
  create_lp_mint pair lp_mint deployer deployer_lp name symbol uri l = do
    require (data_len l lp_mint == 82) invalid_mint_len
    before ← or_unreadable (unpack_unchecked l lp_mint)
    require (not before.is_initialized) account_not_empty
    l1 ← or_external t (initialize_mint2 lp_mint pair 9 l)
    mint ← or_unreadable (unpack l1 lp_mint)
    check_lp_mint pair mint
    l2 ← or_external t (create_idempotent deployer_lp deployer lp_mint l1)
    or_external t (create_metadata lp_mint pair name symbol uri l2)
