-- ===== src/Vaults/Transfers.antt =====
-- Proofs: what the wrappers of utils/token.rs do to the vaults of a pair.
use omnipair_rs.Base.{
  ℕ, ◌+◌, ◌≤◌, ◌≡◌, ◌≢◌, sym, inl, inr, ◌==◌, Pubkey, arith, Bool-cases, Option-cases,
}
use omnipair_rs.Outcome.{ok}
use omnipair_rs.Token.{TokenProgram, transfer, token_mint_to, token_burn}
use omnipair_rs.Token.Moves.{transfer_debits, transfer_credits, transfer_others}
use omnipair_rs.Vaults.{Vaults, IsTokenLedger, IsOutside, Keep}

module _ (t : TokenProgram) (laws : IsTokenLedger t) where
  open t use {Ledger, balance}

  module _ (from to : Pubkey) (amount : ℕ) (l l' : Ledger) where
    -- Only the account that pays may hold less.
    pub transfer_keeps :
        (k : Pubkey) → k ≢ from → transfer t from to amount l ≡ ok l' → balance l k ≤ balance l' k
    transfer_keeps k apart h = elim (Bool-cases (k == to)) [
      | inl paid ↦
          let e : k ≡ to = ground arith in
          let gained =
            transfer_credits t laws.moves from to amount l (λ q. apart (ground arith)) h in
          rw e (omega arith)
      | inr other ↦
          let same = transfer_others t laws.moves from to amount l k apart (λ q. ground arith) h in
          omega arith
    ]

    -- It pays at most the amount.
    pub transfer_draws :
        transfer t from to amount l ≡ ok l' → balance l from ≤ balance l' from + amount
    unfolding transfer
    transfer_draws h = elim (Bool-cases (from == to)) [
      | inl same ↦ elim (Bool-cases (amount == 0)) [
        | inl nothing ↦ ground arith
        | inr some_amount ↦ elim (Option-cases (t.transfer_checked from to amount l)) [
          | inl bad ↦ ground arith
          | inr (l1, moved) ↦
              let e : from ≡ to = ground arith in
              let e1 : l1 ≡ l' = ground arith in
              let still = laws.itself from from amount l l1 (ground arith) in
              rw (← e1) (omega arith)
        ]
      ]
      | inr other ↦
          let lost = transfer_debits t laws.moves from to amount l (λ q. ground arith) h in
          omega arith
    ]

    -- A transfer from an account that is no vault.
    pub transfer_in :
        (v : Vaults) → IsOutside v from → transfer t from to amount l ≡ ok l' → Keep t v l l'
    transfer_in v (o0, o1, o2, o3) h = (
      transfer_keeps v.reserve0 (λ q. o0 (sym q)) h,
      transfer_keeps v.reserve1 (λ q. o1 (sym q)) h,
      transfer_keeps v.collateral0 (λ q. o2 (sym q)) h,
      transfer_keeps v.collateral1 (λ q. o3 (sym q)) h,
    )

    pub transfer_gains :
        from ≢ to → transfer t from to amount l ≡ ok l' → balance l to + amount ≤ balance l' to
    transfer_gains apart h =
        let gained = transfer_credits t laws.moves from to amount l apart h in omega arith

  -- What is minted or burnt is not in the vaults.
  pub mint_keeps :
      (v : Vaults) (mint to : Pubkey) (amount : ℕ) (l l' : Ledger)
      → token_mint_to t mint to amount l ≡ ok l'
      → Keep t v l l'
  unfolding token_mint_to
  mint_keeps v mint to amount l l' h = elim (Bool-cases (amount == 0)) [
    | inl nothing ↦ ground arith
    | inr some_amount ↦ elim (Option-cases (t.mint_to mint to amount l)) [
      | inl bad ↦ ground arith
      | inr (l1, minted) ↦
          let e : l1 ≡ l' = ground arith in
          rw (← e) (
            laws.mints mint to v.reserve0 amount l l1 minted,
            laws.mints mint to v.reserve1 amount l l1 minted,
            laws.mints mint to v.collateral0 amount l l1 minted,
            laws.mints mint to v.collateral1 amount l l1 minted,
          )
    ]
  ]

  pub burn_keeps :
      (v : Vaults) (mint from : Pubkey) (amount : ℕ) (l l' : Ledger)
      → IsOutside v from
      → token_burn t mint from amount l ≡ ok l'
      → Keep t v l l'
  unfolding token_burn
  burn_keeps v mint from amount l l' (o0, o1, o2, o3) h = elim (Bool-cases (amount == 0)) [
    | inl nothing ↦ ground arith
    | inr some_amount ↦ elim (Option-cases (t.burn mint from amount l)) [
      | inl bad ↦ ground arith
      | inr (l1, burnt) ↦
          let e : l1 ≡ l' = ground arith in
          let b0 = laws.burns mint from v.reserve0 amount l l1 (λ q. o0 (sym q)) burnt in
          let b1 = laws.burns mint from v.reserve1 amount l l1 (λ q. o1 (sym q)) burnt in
          let b2 = laws.burns mint from v.collateral0 amount l l1 (λ q. o2 (sym q)) burnt in
          let b3 = laws.burns mint from v.collateral1 amount l l1 (λ q. o3 (sym q)) burnt in
          rw (← e) (omega arith, omega arith, omega arith, omega arith)
    ]
  ]
