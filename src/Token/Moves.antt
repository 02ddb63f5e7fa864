-- ===== src/Token/Moves.antt =====
-- Proofs: the balances after a transfer of the wrappers (utils/token.rs).
use omnipair_rs.Base.{ℕ, ◌+◌, ◌≡◌, ◌≢◌, inl, inr, ◌==◌, Pubkey, arith, Bool-cases, Option-cases}
use omnipair_rs.Outcome.{ok}
use omnipair_rs.Token.{TokenProgram, IsTokenProgram, transfer}

module _ (t : TokenProgram) (laws : IsTokenProgram t) (from to : Pubkey) (amount : ℕ) (l : t.Ledger)
    {l' : t.Ledger} where
  pub transfer_debits :
      from ≢ to
      → transfer t from to amount l ≡ ok l'
      → t.balance l' from + amount ≡ t.balance l from
  unfolding transfer
  transfer_debits apart h = elim (Bool-cases (amount == 0)) [
    | inl nothing ↦ ground arith
    | inr some_amount ↦ elim (Option-cases (t.transfer_checked from to amount l)) [
      | inl bad ↦ ground arith
      | inr (l1, moved) ↦ let debited = laws.debits from to amount l l1 apart moved in ground arith
    ]
  ]

  pub transfer_credits :
      from ≢ to → transfer t from to amount l ≡ ok l' → t.balance l' to ≡ t.balance l to + amount
  unfolding transfer
  transfer_credits apart h = elim (Bool-cases (amount == 0)) [
    | inl nothing ↦ ground arith
    | inr some_amount ↦ elim (Option-cases (t.transfer_checked from to amount l)) [
      | inl bad ↦ ground arith
      | inr (l1, moved) ↦
          let credited = laws.credits from to amount l l1 apart moved in ground arith
    ]
  ]

  pub transfer_others :
      (third : Pubkey)
      → third ≢ from
      → third ≢ to
      → transfer t from to amount l ≡ ok l'
      → t.balance l' third ≡ t.balance l third
  unfolding transfer
  transfer_others third not_from not_to h = elim (Bool-cases (amount == 0)) [
    | inl nothing ↦ ground arith
    | inr some_amount ↦ elim (Option-cases (t.transfer_checked from to amount l)) [
      | inl bad ↦ ground arith
      | inr (l1, moved) ↦
          let kept = laws.others from to third amount l l1 not_from not_to moved in ground arith
    ]
  ]
