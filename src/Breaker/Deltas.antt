-- ===== src/Breaker/Deltas.antt =====
-- Proofs: which instructions utils/liquidity_delta_circuit_breaker.rs lets into a transaction, by a
-- description of their program, data and accounts.
use omnipair_rs.Base.{
  ℕ, zero, suc, ◌<◌, ◌≡◌, ◌↔◌, ◌⊎◌, inl, inr, refl, sym, ap, ◌∙◌, Bool, true, false, Option, none,
  some, List, [], ◌∷◌, ◌++◌, arith, Option-cases, Bool-cases, Pubkey,
}
use mathlib.Core.Path.{subst}
use omnipair_rs.Outcome.{ok}
use omnipair_rs.Breaker.{
  Instruction, Sysvar, ProgramIds, add_liquidity_discriminator, remove_liquidity_discriminator,
  bytes_eq, prefix?, discriminator_matches, first_account_is, targets, is_same_pair_liquidity_delta,
  require_no_matching, load_instruction_count,
}
use omnipair_rs.Breaker.Scan.{IsHarmless, scanned_iff}

-- An instruction of a program whose data begins with a discriminator and whose first account is the
-- pair.
abbrev pub IsDelta : List ℕ → Pubkey → Pubkey → Instruction → Type 0
IsDelta discriminator id pair ix =
    (ix.program_id ≡ id)
    × ((rest : List ℕ) × (ix.data_bytes ≡ discriminator ++ rest))
    × ((others : List Pubkey) × (ix.accounts ≡ pair ∷ others))

-- No liquidity of the pair is added, nor, where removals count, removed.
abbrev pub IsAllowed : Bool → Pubkey → Pubkey → Instruction → Type 0
IsAllowed true id pair ix =
    (IsDelta add_liquidity_discriminator id pair ix → ⊥)
    × (IsDelta remove_liquidity_discriminator id pair ix → ⊥)
IsAllowed false id pair ix = IsDelta add_liquidity_discriminator id pair ix → ⊥

bytes_eq_lem : (a b : List ℕ) → bytes_eq a b ≡ true → a ≡ b
unfolding bytes_eq
bytes_eq_lem [] [] h = refl
bytes_eq_lem [] (y ∷ ys) h = ground arith
bytes_eq_lem (x ∷ xs) [] h = ground arith
bytes_eq_lem (x ∷ xs) (y ∷ ys) h =
    let first : x ≡ y = ground arith in
    let rest = bytes_eq_lem xs ys (ground arith) in rw (first, rest) refl

bytes_eq_refl : (a : List ℕ) → bytes_eq a a ≡ true
unfolding bytes_eq
bytes_eq_refl [] = refl
bytes_eq_refl (x ∷ xs) = let rest = bytes_eq_refl xs in ground arith

prefix_lem :
    (n : ℕ) (xs : List ℕ) {d : List ℕ} → prefix? n xs ≡ some d → (rest : List ℕ) × (xs ≡ d ++ rest)
unfolding prefix?
prefix_lem zero xs {d} h = let e : [] ≡ d = ground arith in (xs, rw (← e) refl)
prefix_lem (suc n) [] {d} h = ground arith
prefix_lem (suc n) (x ∷ xs) {d} h = elim (Option-cases (prefix? n xs)) [
  | inl short ↦ ground arith
  | inr (ys, found) ↦
      let (rest, e) = prefix_lem n xs found in
      let whole : x ∷ ys ≡ d = ground arith in (rest, rw (← whole, e) refl)
]

-- The parts of the test on an instruction.
targets_parts :
    (test : List ℕ → Bool) (id pair : Pubkey) (ix : Instruction)
    → targets test id pair ix ≡ true
    → (ix.program_id ≡ id)
      × ((d : List ℕ) × (prefix? 8 ix.data_bytes ≡ some d) × (test d ≡ true))
      × (first_account_is pair ix.accounts ≡ true)
unfolding targets
targets_parts test id pair ix h = elim (Option-cases (prefix? 8 ix.data_bytes)) [
  | inl short ↦ ground arith
  | inr (d, found) ↦ (ground arith, (d, found, ground arith), ground arith)
]

first_account_lem :
    (pair : Pubkey) (accounts : List Pubkey)
    → first_account_is pair accounts ≡ true
    → (others : List Pubkey) × (accounts ≡ pair ∷ others)
unfolding first_account_is
first_account_lem pair [] h = ground arith
first_account_lem pair (a ∷ others) h = let e : a ≡ pair = ground arith in (others, rw e refl)

-- An instruction with a known discriminator passes every test that this discriminator passes.
IsDelta-targets :
    (test : List ℕ → Bool) (discriminator : List ℕ) (id pair : Pubkey) (ix : Instruction)
    → ((rest : List ℕ) → prefix? 8 (discriminator ++ rest) ≡ some discriminator)
    → test discriminator ≡ true
    → IsDelta discriminator id pair ix
    → targets test id pair ix ≡ true
unfolding targets first_account_is
IsDelta-targets test discriminator id pair ix cut passes (e, (rest, bytes), (others, first)) =
    let found : prefix? 8 ix.data_bytes ≡ some discriminator = rw bytes (cut rest) in ground arith

cut_add :
    (rest : List ℕ)
    → prefix? 8 (add_liquidity_discriminator ++ rest) ≡ some add_liquidity_discriminator
unfolding prefix?
cut_add rest = refl

cut_remove :
    (rest : List ℕ)
    → prefix? 8 (remove_liquidity_discriminator ++ rest) ≡ some remove_liquidity_discriminator
unfolding prefix?
cut_remove rest = refl

module _ (id pair : Pubkey) (ix : Instruction) where
  -- The code's test finds one of the two.
  matched_lem :
      (include_remove : Bool)
      → is_same_pair_liquidity_delta id pair include_remove ix ≡ true
      → IsDelta add_liquidity_discriminator id pair ix
        ⊎ ((include_remove ≡ true) × IsDelta remove_liquidity_discriminator id pair ix)
  unfolding is_same_pair_liquidity_delta discriminator_matches
  matched_lem include_remove h =
      let (program, (d, found, passes), first) = targets_parts _ id pair ix h in
      let (rest, bytes) = prefix_lem 8 ix.data_bytes found in
      let paired = first_account_lem pair ix.accounts first in
      elim (Bool-cases (bytes_eq d add_liquidity_discriminator)) [
        | inl added ↦
            let e = bytes_eq_lem d add_liquidity_discriminator added in
            inl (program, (rest, bytes ∙ ap (λ (k : List ℕ). k ++ rest) e), paired)
        | inr other ↦
            let removed : bytes_eq d remove_liquidity_discriminator ≡ true = ground arith in
            let e = bytes_eq_lem d remove_liquidity_discriminator removed in
            inr (ground arith, (program, (rest, bytes ∙ ap (λ (k : List ℕ). k ++ rest) e), paired))
      ]

  add_matches :
      (include_remove : Bool)
      → IsDelta add_liquidity_discriminator id pair ix
      → is_same_pair_liquidity_delta id pair include_remove ix ≡ true
  unfolding is_same_pair_liquidity_delta discriminator_matches
  add_matches include_remove =
      IsDelta-targets _ add_liquidity_discriminator id pair ix cut_add
        (let e = bytes_eq_refl add_liquidity_discriminator in ground arith)

  remove_matches :
      IsDelta remove_liquidity_discriminator id pair ix
      → is_same_pair_liquidity_delta id pair true ix ≡ true
  unfolding is_same_pair_liquidity_delta discriminator_matches
  remove_matches =
      IsDelta-targets _ remove_liquidity_discriminator id pair ix cut_remove
        (let e = bytes_eq_refl remove_liquidity_discriminator in ground arith)

  -- The code's test is false exactly for the allowed instructions.
  IsAllowed-iff :
      (include_remove : Bool)
      → (is_same_pair_liquidity_delta id pair include_remove ix ≡ false)
        ↔ IsAllowed include_remove id pair ix
  IsAllowed-iff true = (
    λ free. (
      λ added. let hit = add_matches true added in ground arith,
      λ removed. let hit = remove_matches removed in ground arith,
    ),
    λ (no_add, no_remove). elim (Bool-cases (is_same_pair_liquidity_delta id pair true ix)) [
      | inr free ↦ free
      | inl hit ↦ elim (matched_lem true hit) [
        | inl added ↦ absurd (no_add added)
        | inr (_, removed) ↦ absurd (no_remove removed)
      ]
    ],
  )
  IsAllowed-iff false = (
    λ free added. let hit = add_matches false added in ground arith,
    λ no_add. elim (Bool-cases (is_same_pair_liquidity_delta id pair false ix)) [
      | inr free ↦ free
      | inl hit ↦ elim (matched_lem false hit) [
        | inl added ↦ absurd (no_add added)
        | inr (counts, _) ↦ ground arith
      ]
    ],
  )

-- An instruction that is there and does not match.
seen_lem :
    (id pair : Pubkey) (include_remove : Bool) (o : Option Instruction)
    → IsHarmless (is_same_pair_liquidity_delta id pair include_remove) o
    → (ix : Instruction) × (o ≡ some ix) × IsAllowed include_remove id pair ix
seen_lem id pair include_remove none h = absurd h
seen_lem id pair include_remove (some ix) h =
    (ix, refl, (IsAllowed-iff id pair ix include_remove).0 h)

-- When the sysvar is the real one and its count can be read, the guard passes exactly when each of the
-- counted instructions can be loaded and is not one of this program that begins with the discriminator
-- of add_liquidity, or, where removals count, of remove_liquidity, and has the pair as its first
-- account.
pub require_no_matching_iff :
    (ids : ProgramIds) (pair : Pubkey) (sysvar : Sysvar) (include_remove : Bool) (n : ℕ)
    → sysvar.key ≡ ids.instructions_sysvar
    → load_instruction_count sysvar.bytes ≡ ok n
    → (require_no_matching ids pair sysvar include_remove ≡ ok tt) ↔ (
        (i : ℕ)
        → i < n
        → (ix : Instruction) × (sysvar.load_instruction_at i ≡ some ix)
          × IsAllowed include_remove ids.program pair ix)
require_no_matching_iff ids pair sysvar include_remove n real counted =
    let (sound, complete) = scanned_iff ids pair sysvar include_remove n real counted in
    (
      λ passed i below. seen_lem ids.program pair include_remove _ (sound passed i below),
      λ all. complete (λ i below.
          let (ix, there, allowed) = all i below in
          subst (IsHarmless (is_same_pair_liquidity_delta ids.program pair include_remove))
            (sym there) ((IsAllowed-iff ids.program pair ix include_remove).1 allowed)),
    )
