-- ===== src/Token.antt =====
-- programs/omnipair/src/utils/token.rs: the wrappers of the token programs. The programs themselves
-- are not part of the repository: they are a parameter, with the laws that the handlers rely on.
pub mod Moves
use omnipair_rs.Base.{ℕ, ◌+◌, ◌≡◌, ◌≢◌, Option, none, some, ◌==◌, if◌then◌else◌, Pubkey}
use omnipair_rs.Outcome.{Result, ok, err, external}

-- The token programs over the balances of all token accounts; `none` is an error of theirs.
pub record TokenProgram : Type 1 where
  pub Ledger : Type 0
  pub balance : Ledger → Pubkey → ℕ
  pub transfer_checked : Pubkey → Pubkey → ℕ → Ledger → Option Ledger
  pub mint_to : Pubkey → Pubkey → ℕ → Ledger → Option Ledger
  pub burn : Pubkey → Pubkey → ℕ → Ledger → Option Ledger

-- A transfer between two accounts moves the amount, and touches no third account. The mints that the
-- program accepts charge no transfer fee.
pub record IsTokenProgram (t : TokenProgram) : Type 0 where
  pub debits :
      (from to : Pubkey) (amount : ℕ) (l l' : t.Ledger)
      → from ≢ to
      → t.transfer_checked from to amount l ≡ some l'
      → t.balance l' from + amount ≡ t.balance l from
  pub credits :
      (from to : Pubkey) (amount : ℕ) (l l' : t.Ledger)
      → from ≢ to
      → t.transfer_checked from to amount l ≡ some l'
      → t.balance l' to ≡ t.balance l to + amount
  pub others :
      (from to third : Pubkey) (amount : ℕ) (l l' : t.Ledger)
      → third ≢ from
      → third ≢ to
      → t.transfer_checked from to amount l ≡ some l'
      → t.balance l' third ≡ t.balance l third

module _ (t : TokenProgram) where
  open t use {Ledger, transfer_checked, mint_to, burn}

  abbrev pub or_external : Option Ledger → Result Ledger
  or_external (some l) = ok l
  or_external none = err external

  -- `transfer_from_user_to_vault`, `transfer_from_vault_to_user` and `transfer_from_vault_to_vault`: a
  -- transfer of nothing is skipped.
  unfoldable pub transfer : Pubkey → Pubkey → ℕ → Ledger → Result Ledger
  transfer from to amount l =
      if amount == 0 then ok l else or_external (transfer_checked from to amount l)

  -- `token_mint_to` and `token_burn`.
  unfoldable pub token_mint_to : Pubkey → Pubkey → ℕ → Ledger → Result Ledger
  token_mint_to mint to amount l =
      if amount == 0 then ok l else or_external (mint_to mint to amount l)

  unfoldable pub token_burn : Pubkey → Pubkey → ℕ → Ledger → Result Ledger
  token_burn mint from amount l =
      if amount == 0 then ok l else or_external (burn mint from amount l)
