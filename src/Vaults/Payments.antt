-- ===== src/Vaults/Payments.antt =====
-- Proofs: a payment out of one vault leaves the others (utils/token.rs).
use omnipair_rs.Base.{ℕ, ◌≤◌, ◌≡◌, ◌≢◌, sym, Pubkey}
use omnipair_rs.Outcome.{ok}
use omnipair_rs.Pair.{Pair}
use omnipair_rs.Token.{TokenProgram, transfer}
use omnipair_rs.Vaults.{Vaults, AreApart, IsTokenLedger, IsBacked, IsSame}
use omnipair_rs.Vaults.Transfers.{transfer_keeps}

module _ (t : TokenProgram) (laws : IsTokenLedger t) (v : Vaults) (apart : AreApart v) where
  open t use {Ledger, balance}

  -- The end of a handler's chain.
  pub ended :
      (p q r : Pair) (l l' : Ledger)
      → r ≡ q
      → l ≡ l'
      → IsBacked t v r l × IsSame p r
      → IsBacked t v q l' × IsSame p q
  ended p q r l l' e e' h = rw (← e, ← e') h

  -- A transfer out of a reserve vault leaves the other three.
  pub reserve0_pays :
      (to : Pubkey) (amount : ℕ) (l l' : Ledger)
      → transfer t v.reserve0 to amount l ≡ ok l'
      → (balance l v.reserve1 ≤ balance l' v.reserve1)
        × (balance l v.collateral0 ≤ balance l' v.collateral0)
        × (balance l v.collateral1 ≤ balance l' v.collateral1)
  reserve0_pays to amount l l' h =
      let (r01, _, r0c0, r0c1, _, _) = apart in
      let keeps = λ (k : Pubkey) (other : k ≢ v.reserve0).
        transfer_keeps t laws v.reserve0 to amount l l' k other h in
      (
        keeps v.reserve1 (λ q. r01 (sym q)),
        keeps v.collateral0 (λ q. r0c0 (sym q)),
        keeps v.collateral1 (λ q. r0c1 (sym q)),
      )

  pub reserve1_pays :
      (to : Pubkey) (amount : ℕ) (l l' : Ledger)
      → transfer t v.reserve1 to amount l ≡ ok l'
      → (balance l v.reserve0 ≤ balance l' v.reserve0)
        × (balance l v.collateral0 ≤ balance l' v.collateral0)
        × (balance l v.collateral1 ≤ balance l' v.collateral1)
  reserve1_pays to amount l l' h =
      let (r01, _, _, _, r1c0, r1c1) = apart in
      let keeps = λ (k : Pubkey) (other : k ≢ v.reserve1).
        transfer_keeps t laws v.reserve1 to amount l l' k other h in
      (
        keeps v.reserve0 r01,
        keeps v.collateral0 (λ q. r1c0 (sym q)),
        keeps v.collateral1 (λ q. r1c1 (sym q)),
      )

  -- A transfer out of a collateral vault leaves the other three.
  pub collateral0_pays :
      (to : Pubkey) (amount : ℕ) (l l' : Ledger)
      → transfer t v.collateral0 to amount l ≡ ok l'
      → (balance l v.reserve0 ≤ balance l' v.reserve0)
        × (balance l v.reserve1 ≤ balance l' v.reserve1)
        × (balance l v.collateral1 ≤ balance l' v.collateral1)
  collateral0_pays to amount l l' h =
      let (_, c01, r0c0, _, r1c0, _) = apart in
      let keeps = λ (k : Pubkey) (other : k ≢ v.collateral0).
        transfer_keeps t laws v.collateral0 to amount l l' k other h in
      (keeps v.reserve0 r0c0, keeps v.reserve1 r1c0, keeps v.collateral1 (λ q. c01 (sym q)))

  pub collateral1_pays :
      (to : Pubkey) (amount : ℕ) (l l' : Ledger)
      → transfer t v.collateral1 to amount l ≡ ok l'
      → (balance l v.reserve0 ≤ balance l' v.reserve0)
        × (balance l v.reserve1 ≤ balance l' v.reserve1)
        × (balance l v.collateral0 ≤ balance l' v.collateral0)
  collateral1_pays to amount l l' h =
      let (_, c01, _, r0c1, _, r1c1) = apart in
      let keeps = λ (k : Pubkey) (other : k ≢ v.collateral1).
        transfer_keeps t laws v.collateral1 to amount l l' k other h in
      (keeps v.reserve0 r0c1, keeps v.reserve1 r1c1, keeps v.collateral0 c01)
