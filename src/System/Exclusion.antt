-- ===== src/System/Exclusion.antt =====
-- Proofs: the circuit breaker (utils/liquidity_delta_circuit_breaker.rs) between the borrow and the
-- liquidity instructions of one transaction.
use omnipair_rs.Base.{ℕ, ◌<◌, ◌≡◌, ◌≢◌, inl, inr, true, some, arith, Option-cases, Pubkey}
use mathlib.Core.Path.{subst}
use omnipair_rs.Outcome.{ok, ◌>>◌, chain, guarded}
use omnipair_rs.RateModel.{RateModel}
use omnipair_rs.Futarchy.{FutarchyAuthority}
use omnipair_rs.Pair.{Pair, update}
use omnipair_rs.Position.{UserPosition}
use omnipair_rs.Token.{TokenProgram}
use omnipair_rs.Breaker.{
  Instruction, Sysvar, ProgramIds, LiquidityDeltaInstruction, add_liquidity, remove_liquidity,
  require_no_same_tx_liquidity_delta, require_top_level, is_same_pair_liquidity_delta,
  is_expected_same_pair_liquidity_delta, targets, discriminator_matches, load_instruction_count,
}
use omnipair_rs.Breaker.Scan.{IsHarmless, scanned_iff}
use omnipair_rs.Liquidity.{LiquidityAccounts}
use omnipair_rs.Liquidity.Add
use omnipair_rs.Liquidity.Add.{AddLiquidityArgs}
use omnipair_rs.Liquidity.Remove
use omnipair_rs.Liquidity.Remove.{RemoveLiquidityArgs}
use omnipair_rs.Lending.{DebtAccounts}
use omnipair_rs.Lending.Borrow.{borrow}
use omnipair_rs.Lending.Guards.{borrow_guards}

-- The sysvar while the instruction of an index runs.
abbrev pub running : ℕ → Sysvar → Sysvar
running index s = record s { load_current_index = some index }

-- The liquidity instruction that the one guard expects is one that the other forbids.
expected-delta :
    (id pair : Pubkey) (expected : LiquidityDeltaInstruction) (ix : Instruction)
    → is_expected_same_pair_liquidity_delta id pair expected ix ≡ true
    → is_same_pair_liquidity_delta id pair true ix ≡ true
unfolding is_expected_same_pair_liquidity_delta is_same_pair_liquidity_delta targets
    discriminator_matches
expected-delta id pair add_liquidity ix h = ground arith
expected-delta id pair remove_liquidity ix h = ground arith

-- What the guard of the liquidity instructions has found.
top_level_lem :
    (ids : ProgramIds) (pair : Pubkey) (s : Sysvar) (index : ℕ)
    (expected : LiquidityDeltaInstruction)
    → require_top_level ids pair (running index s) expected ≡ ok tt
    → (ix : Instruction) × (s.key ≡ ids.instructions_sysvar)
      × (s.load_instruction_at index ≡ some ix)
      × (is_expected_same_pair_liquidity_delta ids.program pair expected ix ≡ true)
unfolding require_top_level
top_level_lem ids pair s index expected h = elim (Option-cases (s.load_instruction_at index)) [
  | inl missing ↦ ground arith
  | inr (ix, there) ↦ (ix, ground arith, there, ground arith)
]

exclusive :
    (ids : ProgramIds) (pair : Pubkey) (s : Sysvar) (n index : ℕ)
    (expected : LiquidityDeltaInstruction)
    → load_instruction_count s.bytes ≡ ok n
    → index < n
    → require_no_same_tx_liquidity_delta ids pair s ≡ ok tt
    → require_top_level ids pair (running index s) expected ≢ ok tt
unfolding require_no_same_tx_liquidity_delta
exclusive ids pair s n index expected counted below free h =
    let (ix, real, there, is_it) = top_level_lem ids pair s index expected h in
    let harmless = (scanned_iff ids pair s true n real counted).0 free index below in
    let quiet =
      subst (IsHarmless (is_same_pair_liquidity_delta ids.program pair true)) there harmless in
    let loud = expected-delta ids.program pair expected ix is_it in ground arith

module _ (t : TokenProgram) (slot : ℕ) (m : RateModel) (ids : ProgramIds) (pair_key : Pubkey)
    (authority : FutarchyAuthority) (s : Sysvar) where
  add_guards :
      (a : LiquidityAccounts) (args : AddLiquidityArgs) (p : Pair) (l : t.Ledger)
      {r : Pair × t.Ledger}
      → Add.add t slot m ids pair_key s authority a args p l ≡ ok r
      → require_top_level ids pair_key s add_liquidity ≡ ok tt
  unfolding Add.add Add.validate_add
  add_guards a args p l h =
      let (c, updated, rest) =
        chain (update slot m authority.revenue_share.interest_bps p)
          (λ c.
            Add.validate_add t ids pair_key s authority a args c l >> Add.handle_add t a args c l)
          h in
      let (valid, handled) =
        guarded (Add.validate_add t ids pair_key s authority a args c l)
          (Add.handle_add t a args c l) rest in
      let (done, passed, others) = chain (require_top_level ids pair_key s add_liquidity) _ valid in
      passed

  remove_guards :
      (a : LiquidityAccounts) (args : RemoveLiquidityArgs) (p : Pair) (l : t.Ledger)
      {r : Pair × t.Ledger}
      → Remove.remove t slot m ids pair_key s authority a args p l ≡ ok r
      → require_top_level ids pair_key s remove_liquidity ≡ ok tt
  unfolding Remove.remove Remove.validate_remove
  remove_guards a args p l h =
      let (c, updated, rest) =
        chain (update slot m authority.revenue_share.interest_bps p)
          (λ c.
            Remove.validate_remove t ids pair_key s a args c l
            >> Remove.handle_remove t slot a args c l)
          h in
      let (valid, handled) =
        guarded (Remove.validate_remove t ids pair_key s a args c l)
          (Remove.handle_remove t slot a args c l) rest in
      let (done, passed, others) =
        chain (require_top_level ids pair_key s remove_liquidity) _ valid in
      passed

-- A borrow from a pair excludes a change of its liquidity in the same transaction, before it or
-- after it: if a borrow succeeds in a transaction of n instructions, then neither the addition nor
-- the removal of liquidity succeeds for the same pair as any of them, whatever the states of the
-- pair and of the ledger in which it runs.
pub borrow_excludes_deltas :
    (t : TokenProgram) (slot : ℕ) (m : RateModel) (ids : ProgramIds) (pair_key : Pubkey)
    (s : Sysvar) (authority : FutarchyAuthority) (a : DebtAccounts) (requested : ℕ)
    (u : UserPosition) (p : Pair) (l : t.Ledger) {r : UserPosition × Pair × t.Ledger} (n index : ℕ)
    (la : LiquidityAccounts) (added : AddLiquidityArgs) (removed : RemoveLiquidityArgs) (p' : Pair)
    (l' : t.Ledger) (r' : Pair × t.Ledger)
    → borrow t slot m ids pair_key s authority a requested u p l ≡ ok r
    → load_instruction_count s.bytes ≡ ok n
    → index < n
    → (Add.add t slot m ids pair_key (running index s) authority la added p' l' ≢ ok r')
      × (Remove.remove t slot m ids pair_key (running index s) authority la removed p' l' ≢ ok r')
borrow_excludes_deltas t slot m ids pair_key s authority a requested u p l n index la added removed
      p' l' r' lent counted below =
    let (_, free, _) = borrow_guards t slot m ids pair_key s authority a requested u p l lent in
    (
      (λ h.
          exclusive ids pair_key s n index add_liquidity counted below free
            (add_guards t slot m ids pair_key authority (running index s) la added p' l' h)),
      (λ h.
          exclusive ids pair_key s n index remove_liquidity counted below free
            (remove_guards t slot m ids pair_key authority (running index s) la removed p' l' h)),
    )
