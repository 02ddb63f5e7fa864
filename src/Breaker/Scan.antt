-- ===== src/Breaker/Scan.antt =====
-- Proofs: the loop of utils/liquidity_delta_circuit_breaker.rs over the instructions.
use omnipair_rs.Base.{
  ℕ, zero, suc, ◌+◌, ◌≤◌, ◌<◌, ◌≡◌, ◌↔◌, inl, inr, refl, Bool, false, Option, none, some, arith,
  Option-cases, Bool-cases, ◌==◌, ◌≢◌, Pubkey,
}
use mathlib.Core.Path.{subst}
use omnipair_rs.Outcome.{ok}
use omnipair_rs.Breaker.{
  Instruction, Sysvar, ProgramIds, scan, require_no_matching, load_instruction_count,
  is_same_pair_liquidity_delta,
}

-- An instruction is there, and does not match.
abbrev pub IsHarmless : (Instruction → Bool) → Option Instruction → Type 0
IsHarmless is_match none = ⊥
IsHarmless is_match (some ix) = is_match ix ≡ false

-- So are the instructions below an index.
abbrev pub AreHarmless : (Instruction → Bool) → (ℕ → Option Instruction) → ℕ → Type 0
AreHarmless is_match load n = (i : ℕ) → i < n → IsHarmless is_match (load i)

module _ (is_match : Instruction → Bool) (load : ℕ → Option Instruction) where
  scan_head :
      (left index : ℕ)
      → scan is_match load (suc left) index ≡ ok tt
      → IsHarmless is_match (load index) × (scan is_match load left (index + 1) ≡ ok tt)
  unfolding scan
  scan_head left index h = elim (Option-cases (load index)) [
    | inl missing ↦ ground arith
    | inr (ix, there) ↦ rw there (elim (Bool-cases (is_match ix)) [
      | inl hit ↦ ground arith
      | inr free ↦ (free, ground arith)
    ])
  ]

  scan_cons :
      (left index : ℕ)
      → IsHarmless is_match (load index)
      → scan is_match load left (index + 1) ≡ ok tt
      → scan is_match load (suc left) index ≡ ok tt
  unfolding scan
  scan_cons left index harmless rest = ground arith

  scan_sound :
      (left index : ℕ)
      → scan is_match load left index ≡ ok tt
      → (i : ℕ) → index ≤ i
      → i < index + left
      → IsHarmless is_match (load i)
  scan_sound zero index h i low high = absurd (omega arith)
  scan_sound (suc left) index h i low high =
      let (harmless, rest) = scan_head left index h in
      elim (Bool-cases (index == i)) [
        | inl here ↦
            let same : index ≡ i = ground arith in
            subst (λ (j : ℕ). IsHarmless is_match (load j)) same harmless
        | inr later ↦
            let apart : index ≢ i = ground arith in
            scan_sound left (index + 1) rest i (omega arith) (omega arith)
      ]

  scan_complete :
      (left index : ℕ)
      → ((i : ℕ) → index ≤ i → i < index + left → IsHarmless is_match (load i))
      → scan is_match load left index ≡ ok tt
  unfolding scan
  scan_complete zero index all = refl
  scan_complete (suc left) index all =
      scan_cons left index (all index (omega arith) (omega arith))
        (scan_complete left (index + 1) (λ i low high. all i (omega arith) (omega arith)))

-- The guard over the real sysvar, by the code's test on an instruction.
pub scanned_iff :
    (ids : ProgramIds) (pair : Pubkey) (sysvar : Sysvar) (include_remove : Bool) (n : ℕ)
    → sysvar.key ≡ ids.instructions_sysvar
    → load_instruction_count sysvar.bytes ≡ ok n
    → (require_no_matching ids pair sysvar include_remove ≡ ok tt)
      ↔ AreHarmless
          (is_same_pair_liquidity_delta ids.program pair include_remove)
          sysvar.load_instruction_at
          n
unfolding require_no_matching
scanned_iff ids pair sysvar include_remove n real counted =
    let is_match = is_same_pair_liquidity_delta ids.program pair include_remove in
    let e : require_no_matching ids pair sysvar include_remove
        ≡ scan is_match sysvar.load_instruction_at n 0 =
      ground arith in
    rw e (
      λ passed i high. scan_sound is_match _ n 0 passed i (omega arith) (omega arith),
      λ all. scan_complete is_match _ n 0 (λ i low high. all i (omega arith)),
    )
