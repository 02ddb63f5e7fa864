-- ===== src/Breaker.antt =====
-- programs/omnipair/src/utils/liquidity_delta_circuit_breaker.rs: the checks that no liquidity is added
-- or removed in the transaction of a borrow, and that liquidity is changed by a top-level instruction.
pub mod Scan
pub mod Deltas
use omnipair_rs.Base.{
  ℕ, zero, suc, ◌+◌, ◌*◌, Bool, true, false, not, Option, none, some, List, [], ◌∷◌, ltb, ◌==◌,
  ◌&&◌, ◌||◌, if◌then◌else◌, Pubkey,
}
use omnipair_rs.Outcome.{
  Result, ok, err, fails, ◌>>=◌, ◌>>◌, require, ok_or, invalid_instructions_sysvar,
  liquidity_delta_circuit_breaker, liquidity_delta_circuit_breaker_cpi,
}

-- An instruction of the transaction: its program, its data, and the keys of its accounts.
pub record Instruction : Type 0 where
  pub program_id : Pubkey
  pub data_bytes : List ℕ
  pub accounts : List Pubkey

-- The instructions sysvar as the runtime's library reads it: the loaders are not part of the
-- repository; `none` is an error of theirs.
pub record Sysvar : Type 0 where
  pub key : Pubkey
  pub load_current_index : Option ℕ
  pub load_instruction_at : ℕ → Option Instruction
  pub bytes : Option (List ℕ)

-- `crate::ID` and `sysvar::instructions::ID`, which the build provides.
pub record ProgramIds : Type 0 where
  pub program : Pubkey
  pub instructions_sysvar : Pubkey

pub data LiquidityDeltaInstruction : Type 0 where
  add_liquidity remove_liquidity : LiquidityDeltaInstruction

abbrev pub add_liquidity_discriminator : List ℕ
add_liquidity_discriminator = 0xb5 ∷ 0x9d ∷ 0x59 ∷ 0x43 ∷ 0x8f ∷ 0xb6 ∷ 0x34 ∷ 0x48 ∷ []

abbrev pub remove_liquidity_discriminator : List ℕ
remove_liquidity_discriminator = 0x50 ∷ 0x55 ∷ 0xd1 ∷ 0x48 ∷ 0x18 ∷ 0xce ∷ 0xb1 ∷ 0x6c ∷ []

-- Equality of byte strings.
unfoldable pub bytes_eq : List ℕ → List ℕ → Bool
bytes_eq [] [] = true
bytes_eq (a ∷ as') (b ∷ bs) = a == b && bytes_eq as' bs
bytes_eq _ _ = false

-- `data.get(..n)`.
unfoldable pub prefix? : ℕ → List ℕ → Option (List ℕ)
prefix? zero xs = some []
prefix? (suc n) [] = none
prefix? (suc n) (x ∷ xs) = elim (prefix? n xs) [ none ↦ none | some ys ↦ some (x ∷ ys) ]

unfoldable pub discriminator_matches : List ℕ → LiquidityDeltaInstruction → Bool
discriminator_matches d add_liquidity = bytes_eq d add_liquidity_discriminator
discriminator_matches d remove_liquidity = bytes_eq d remove_liquidity_discriminator

unfoldable pub first_account_is : Pubkey → List Pubkey → Bool
first_account_is pair [] = false
first_account_is pair (a ∷ as') = a == pair

-- The discriminator of an instruction of this program passes a test, and its first account is the pair.
unfoldable pub targets : (List ℕ → Bool) → Pubkey → Pubkey → Instruction → Bool
targets test id pair ix =
    ix.program_id == id
    && elim (prefix? 8 ix.data_bytes) [ none ↦ false | some d ↦ test d ]
    && first_account_is pair ix.accounts

-- `is_same_pair_liquidity_delta`.
unfoldable pub is_same_pair_liquidity_delta : Pubkey → Pubkey → Bool → Instruction → Bool
is_same_pair_liquidity_delta id pair include_remove =
    targets
      (λ d.
        discriminator_matches d add_liquidity
        || (include_remove && bytes_eq d remove_liquidity_discriminator))
      id pair

-- `is_expected_same_pair_liquidity_delta`.
unfoldable pub is_expected_same_pair_liquidity_delta :
    Pubkey → Pubkey → LiquidityDeltaInstruction → Instruction → Bool
is_expected_same_pair_liquidity_delta id pair expected =
    targets (λ d. discriminator_matches d expected) id pair

-- `load_instruction_count`: the first two bytes, little-endian.
unfoldable pub load_instruction_count : Option (List ℕ) → Result ℕ
load_instruction_count (some (a ∷ b ∷ rest)) = ok (a + 256 * b)
load_instruction_count _ = err (fails invalid_instructions_sysvar)

-- The loop of `require_no_matching_liquidity_delta` over the indices from `index`, `left` to go.
unfoldable pub scan : (Instruction → Bool) → (ℕ → Option Instruction) → ℕ → ℕ → Result (Unit {0})
scan is_match load zero index = ok tt
scan is_match load (suc left) index =
    let rest = scan is_match load left (index + 1) in
    elim (load index) [
      | none ↦ err (fails invalid_instructions_sysvar)
      | some ix ↦ if is_match ix then err (fails liquidity_delta_circuit_breaker) else rest
    ]

module _ (ids : ProgramIds) (pair : Pubkey) (sysvar : Sysvar) where
  -- `require_no_matching_liquidity_delta`.
  unfoldable pub require_no_matching : Bool → Result (Unit {0})
  require_no_matching include_remove = do
    require (sysvar.key == ids.instructions_sysvar) invalid_instructions_sysvar
    n ← load_instruction_count sysvar.bytes
    scan (is_same_pair_liquidity_delta ids.program pair include_remove) sysvar.load_instruction_at n
        0

  -- `require_no_same_tx_liquidity_delta`.
  unfoldable pub require_no_same_tx_liquidity_delta : Result (Unit {0})
  require_no_same_tx_liquidity_delta = require_no_matching true

  -- `require_no_same_tx_add_liquidity`.
  unfoldable pub require_no_same_tx_add_liquidity : Result (Unit {0})
  require_no_same_tx_add_liquidity = require_no_matching false

  -- `require_top_level_liquidity_delta_ix`.
  unfoldable pub require_top_level : LiquidityDeltaInstruction → Result (Unit {0})
  require_top_level expected = do
    require (sysvar.key == ids.instructions_sysvar) invalid_instructions_sysvar
    index ← ok_or sysvar.load_current_index invalid_instructions_sysvar
    current ← ok_or (sysvar.load_instruction_at index) invalid_instructions_sysvar
    require (is_expected_same_pair_liquidity_delta ids.program pair expected current)
        liquidity_delta_circuit_breaker_cpi
