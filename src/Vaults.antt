-- ===== src/Vaults.antt =====
-- The token accounts that a pair owns (programs/omnipair/src/instructions/liquidity/initialize.rs): for
-- each token a reserve vault and a collateral vault. What the token programs and the runtime promise
-- about them is stated here; the proofs that the vaults hold what the pair counts are in the children.
pub mod Transfers
pub mod Payments
pub mod Pools
pub mod Counts
pub mod Positions
pub mod Seizures
pub mod Payouts
pub mod Loans
pub mod Addresses
pub mod Checked
pub mod Solvency
pub mod Trades
pub mod Debts
pub mod Deposits
pub mod Solvent
pub mod Histories
pub mod Founding
pub mod Creation
use omnipair_rs.Base.{ℕ, ◌+◌, ◌≤◌, ◌≡◌, ◌≢◌, Bool, false, Option, some, if◌then◌else◌, Pubkey}
use omnipair_rs.Pair.{Pair, VaultBumps}
use omnipair_rs.Token.{TokenProgram, IsTokenProgram}
use omnipair_rs.Accounts.{Chain, reserve_vault, collateral_vault}

pub record Vaults : Type 0 where
  pub reserve0 : Pubkey
  pub reserve1 : Pubkey
  pub collateral0 : Pubkey
  pub collateral1 : Pubkey

-- The part of a pair from which the vaults are derived.
pub record Identity : Type 0 where
  pub key : Pubkey
  pub token0 : Pubkey
  pub token1 : Pubkey
  pub bumps : VaultBumps

abbrev pub HasIdentity : Identity → Pair → Type 0
HasIdentity i p = (p.token0 ≡ i.token0) × (p.token1 ≡ i.token1) × (p.vault_bumps ≡ i.bumps)

-- The identity of a pair that an instruction leaves as it was.
abbrev pub IsSame : Pair → Pair → Type 0
IsSame p q = (q.token0 ≡ p.token0) × (q.token1 ≡ p.token1) × (q.vault_bumps ≡ p.vault_bumps)

-- The four vaults are four accounts: their seeds differ.
abbrev pub AreApart : Vaults → Type 0
AreApart v =
    (v.reserve0 ≢ v.reserve1)
    × (v.collateral0 ≢ v.collateral1)
    × (v.reserve0 ≢ v.collateral0)
    × (v.reserve0 ≢ v.collateral1)
    × (v.reserve1 ≢ v.collateral0)
    × (v.reserve1 ≢ v.collateral1)

-- What `initialize` has made of the vaults: they are at the addresses of their seeds, of the pair's
-- tokens, and owned by the pair, which has no private key and signs no transaction.
pub record AreVaultsOf (c : Chain) (i : Identity) (v : Vaults) : Type 0 where
  pub at_reserve0 :
      c.create_program_address (reserve_vault i.key i.token0) i.bumps.reserve0 ≡ some v.reserve0
  pub at_reserve1 :
      c.create_program_address (reserve_vault i.key i.token1) i.bumps.reserve1 ≡ some v.reserve1
  pub at_collateral0 :
      c.create_program_address (collateral_vault i.key i.token0) i.bumps.collateral0
      ≡ some v.collateral0
  pub at_collateral1 :
      c.create_program_address (collateral_vault i.key i.token1) i.bumps.collateral1
      ≡ some v.collateral1
  pub of_token0 : c.token_mint v.collateral0 ≡ i.token0
  pub of_token1 : c.token_mint v.collateral1 ≡ i.token1
  pub owned :
      (c.token_authority v.reserve0 ≡ i.key)
      × (c.token_authority v.reserve1 ≡ i.key)
      × (c.token_authority v.collateral0 ≡ i.key)
      × (c.token_authority v.collateral1 ≡ i.key)
  pub unsigned : c.is_signer i.key ≡ false

-- The token program: a transfer from an account to itself changes nothing, minting lowers no balance,
-- and burning lowers that of its account only.
pub record IsTokenLedger (t : TokenProgram) : Type 0 where
  pub moves : IsTokenProgram t
  pub itself :
      (account k : Pubkey) (amount : ℕ) (l l' : t.Ledger)
      → t.transfer_checked account account amount l ≡ some l'
      → t.balance l' k ≡ t.balance l k
  pub mints :
      (mint to k : Pubkey) (amount : ℕ) (l l' : t.Ledger)
      → t.mint_to mint to amount l ≡ some l'
      → t.balance l k ≤ t.balance l' k
  pub burns :
      (mint from k : Pubkey) (amount : ℕ) (l l' : t.Ledger)
      → k ≢ from
      → t.burn mint from amount l ≡ some l'
      → t.balance l' k ≡ t.balance l k

-- It transfers between accounts of one mint only.
abbrev pub KeepsMints : TokenProgram → Chain → Type 0
KeepsMints t c =
    (from to : Pubkey) (amount : ℕ) (l l' : t.Ledger)
    → t.transfer_checked from to amount l ≡ some l'
    → c.token_mint from ≡ c.token_mint to

-- An account that is none of the vaults.
abbrev pub IsOutside : Vaults → Pubkey → Type 0
IsOutside v k = (k ≢ v.reserve0) × (k ≢ v.reserve1) × (k ≢ v.collateral0) × (k ≢ v.collateral1)

-- The vaults of token 0, or of token 1.
abbrev pub reserve_of : Bool → Vaults → Pubkey
reserve_of b v = if b then v.reserve0 else v.reserve1

abbrev pub collateral_of : Bool → Vaults → Pubkey
collateral_of b v = if b then v.collateral0 else v.collateral1

-- The reserve vaults hold the cash that the pair counts, and the collateral vaults the collateral.
abbrev pub IsBacked : (t : TokenProgram) → Vaults → Pair → t.Ledger → Type 0
IsBacked t v p l =
    (p.side0.cash_reserve ≤ t.balance l v.reserve0)
    × (p.side1.cash_reserve ≤ t.balance l v.reserve1)
    × (p.side0.total_collateral ≤ t.balance l v.collateral0)
    × (p.side1.total_collateral ≤ t.balance l v.collateral1)

-- No vault holds less.
abbrev pub Keep : (t : TokenProgram) → Vaults → t.Ledger → t.Ledger → Type 0
Keep t v l l' =
    (t.balance l v.reserve0 ≤ t.balance l' v.reserve0)
    × (t.balance l v.reserve1 ≤ t.balance l' v.reserve1)
    × (t.balance l v.collateral0 ≤ t.balance l' v.collateral0)
    × (t.balance l v.collateral1 ≤ t.balance l' v.collateral1)

-- What the source relies on in a flash loan: synchronising wrapped SOL lowers no balance, and the
-- receiver, which the pair does not sign for, takes nothing from the collateral vaults.
abbrev pub Raises : (t : TokenProgram) → Vaults → (t.Ledger → Option t.Ledger) → Type 0
Raises t v f = (l l' : t.Ledger) → f l ≡ some l' → Keep t v l l'

abbrev pub Spares : (t : TokenProgram) → Vaults → (t.Ledger → Option t.Ledger) → Type 0
Spares t v f =
    (l l' : t.Ledger)
    → f l ≡ some l'
    → (t.balance l v.collateral0 ≤ t.balance l' v.collateral0)
      × (t.balance l v.collateral1 ≤ t.balance l' v.collateral1)
