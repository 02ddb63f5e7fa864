-- ===== src/Vaults/Loans.antt =====
-- Proofs: a flash loan (instructions/lending/flashloan.rs) leaves the vaults of a pair with what the
-- pair counts.
use omnipair_rs.Base.{
  ℕ, ◌+◌, ◌≤◌, ◌≡◌, refl, inl, inr, Option, none, some, leb, ◌==◌, arith, Pubkey, Bool-cases,
  Option-cases,
}
use omnipair_rs.Word.{u64, checked_add}
use omnipair_rs.Outcome.{
  Result, ok, ◌>>◌, chain, require, unwrap, insufficient_amount0, insufficient_amount1,
}
use omnipair_rs.Constants.{flashloan_fee_bps}
use omnipair_rs.Pair.{Side, Pair}
use omnipair_rs.Token.{TokenProgram, transfer, or_external}
use omnipair_rs.Swap.{fee_of}
use omnipair_rs.Lending.Flashloan.{
  FlashloanArgs, FlashloanAccounts, earn, sync_native_if_wsol, handle_flashloan,
}
use omnipair_rs.Vaults.{Vaults, AreApart, IsTokenLedger, IsBacked, IsSame, Keep, Raises, Spares}
use omnipair_rs.Vaults.Payments.{ended, reserve0_pays, reserve1_pays}

pub called_lem :
    (t : TokenProgram) (o : Option t.Ledger) {l : t.Ledger} → or_external t o ≡ ok l → o ≡ some l
called_lem t none h = ground arith
called_lem t (some l) h = ground arith

module _ (t : TokenProgram) (laws : IsTokenLedger t) (v : Vaults) (apart : AreApart v) where
  open t use {Ledger, balance}

  earn_lem : (fee : ℕ) (s : Side) → (earn fee s).cash_reserve ≤ s.cash_reserve + fee
  unfolding earn
  earn_lem fee s = ground arith

  earn_rest : (fee : ℕ) (s : Side) → (earn fee s).total_collateral ≡ s.total_collateral
  unfolding earn
  earn_rest fee s = refl

  sync_keeps :
      (native_mint : Pubkey) (sync_native : Pubkey → Ledger → Option Ledger) (account mint : Pubkey)
      (l l' : Ledger)
      → ((account : Pubkey) → Raises t v (sync_native account))
      → sync_native_if_wsol t native_mint sync_native account mint l ≡ ok l'
      → Keep t v l l'
  unfolding sync_native_if_wsol
  sync_keeps native_mint sync_native account mint l l' raises h =
      elim (Bool-cases (mint == native_mint)) [
        | inr other ↦ ground arith
        | inl wrapped ↦ elim (Option-cases (sync_native account l)) [
          | inl bad ↦ ground arith
          | inr (l1, synced) ↦
              let e : l1 ≡ l' = ground arith in
              let kept = raises account l l1 synced in rw (← e) kept
        ]
      ]

  sum_lem : (held fee : ℕ) {r : ℕ} → unwrap (checked_add u64 held fee) ≡ ok r → r ≡ held + fee
  sum_lem held fee h = ground arith

  -- The checks after the callback.
  loan_end :
      (fee0 fee1 r0 r1 : ℕ) (vault0 vault1 : Pubkey) (p q : Pair) (l l' : Ledger)
      → ◌≡◌ {A = Result (Pair × Ledger)}
          (require (leb r0 (balance l vault0)) insufficient_amount0
            >> (require (leb r1 (balance l vault1)) insufficient_amount1
                >> ok (record p { side0 = earn fee0 p.side0; side1 = earn fee1 p.side1 }, l)))
          (ok (q, l'))
      → (record p { side0 = earn fee0 p.side0; side1 = earn fee1 p.side1 } ≡ q)
        × (l ≡ l')
        × (r0 ≤ balance l vault0)
        × (r1 ≤ balance l vault1)
  loan_end fee0 fee1 r0 r1 vault0 vault1 p q l l' h =
      elim (Bool-cases (leb r0 (balance l vault0))) [
        | inr little ↦ ground arith
        | inl much ↦ elim (Bool-cases (leb r1 (balance l vault1))) [
          | inr little ↦ ground arith
          | inl more ↦ (ground arith, ground arith, ground arith, ground arith)
        ]
      ]

  kept_both : (l l1 l2 : Ledger) → Keep t v l l1 → Keep t v l1 l2 → Keep t v l l2
  kept_both l l1 l2 k k' = (omega arith, omega arith, omega arith, omega arith)

  back_lem :
      (key vault : Pubkey) (fee r : ℕ) (l l' : Ledger)
      → key ≡ vault
      → r ≡ balance l key + fee
      → r ≤ balance l' key
      → balance l vault + fee ≤ balance l' vault
  back_lem key vault fee r l l' e sum back = rw (← e) (omega arith)

  le_chain : {a b c d : ℕ} → a ≤ b → b ≤ c → c ≤ d → a ≤ d
  le_chain h h1 h2 = omega arith

  -- The pair counts no more than its fees, which the checks have found in the vaults.
  loan_backs :
      (fee0 fee1 : ℕ) (p : Pair) (l synced returned : Ledger)
      → Keep t v l synced
      → balance synced v.reserve0 + fee0 ≤ balance returned v.reserve0
      → balance synced v.reserve1 + fee1 ≤ balance returned v.reserve1
      → balance synced v.collateral0 ≤ balance returned v.collateral0
      → balance synced v.collateral1 ≤ balance returned v.collateral1
      → IsBacked t v p l
      → IsBacked t v (record p { side0 = earn fee0 p.side0; side1 = earn fee1 p.side1 }) returned
  loan_backs fee0 fee1 p l synced returned kept more0 more1 c0 c1 backed =
      let le0 = earn_lem fee0 p.side0 in
      let le1 = earn_lem fee1 p.side1 in
      let same0 = earn_rest fee0 p.side0 in
      let same1 = earn_rest fee1 p.side1 in (omega arith, omega arith, omega arith, omega arith)

  -- A flash loan from the reserve vaults, to whomever.
  pub handle_flashloan-IsBacked :
      (native_mint : Pubkey) (sync_native : Pubkey → Ledger → Option Ledger)
      (callback : Ledger → Option Ledger) (a : FlashloanAccounts) (args : FlashloanArgs)
      (p q : Pair) (l l' : Ledger)
      → ((account : Pubkey) → Raises t v (sync_native account))
      → Spares t v callback
      → a.reserve0_vault ≡ v.reserve0
      → a.reserve1_vault ≡ v.reserve1
      → handle_flashloan t native_mint sync_native callback a args p l ≡ ok (q, l')
      → IsBacked t v p l
      → IsBacked t v q l' × IsSame p q
  unfolding handle_flashloan
  handle_flashloan-IsBacked native_mint sync_native callback a args p q l l' raises spares e0 e1 h
        backed =
      let (fee0, _, h1) = chain (fee_of args.amount0 flashloan_fee_bps) _ h in
      let (fee1, _, h2) = chain (fee_of args.amount1 flashloan_fee_bps) _ h1 in
      let (l1, synced0, h3) =
        chain (sync_native_if_wsol t native_mint sync_native a.reserve0_vault p.token0 l) _ h2 in
      let (l2, synced1, h4) =
        chain (sync_native_if_wsol t native_mint sync_native a.reserve1_vault p.token1 l1) _ h3 in
      let (l3, sent0, h5) =
        chain (transfer t a.reserve0_vault a.receiver_token0_account args.amount0 l2) _ h4 in
      let (l4, sent1, h6) =
        chain (transfer t a.reserve1_vault a.receiver_token1_account args.amount1 l3) _ h5 in
      let (l5, called, h7) = chain (or_external t (callback l4)) _ h6 in
      let (r0, sum0, h8) =
        chain (unwrap (checked_add u64 (balance l2 a.reserve0_vault) fee0)) _ h7 in
      let (r1, sum1, h9) =
        chain (unwrap (checked_add u64 (balance l2 a.reserve1_vault) fee1)) _ h8 in
      let kept0 =
        sync_keeps native_mint sync_native a.reserve0_vault p.token0 l l1 raises synced0 in
      let kept1 =
        sync_keeps native_mint sync_native a.reserve1_vault p.token1 l1 l2 raises synced1 in
      let first : transfer t v.reserve0 a.receiver_token0_account args.amount0 l2 ≡ ok l3 =
        rw (← e0) sent0 in
      let second : transfer t v.reserve1 a.receiver_token1_account args.amount1 l3 ≡ ok l4 =
        rw (← e1) sent1 in
      let (_, k0, k1) =
        reserve0_pays t laws v apart a.receiver_token0_account args.amount0 l2 l3 first in
      let (_, j0, j1) =
        reserve1_pays t laws v apart a.receiver_token1_account args.amount1 l3 l4 second in
      let s0 = sum_lem (balance l2 a.reserve0_vault) fee0 sum0 in
      let s1 = sum_lem (balance l2 a.reserve1_vault) fee1 sum1 in
      let (c0, c1) = spares l4 l5 (called_lem t (callback l4) called) in
      let (e_q, e_l, back0, back1) =
        loan_end fee0 fee1 r0 r1 a.reserve0_vault a.reserve1_vault p q l5 l' h9 in
      let same0 : balance l2 v.reserve0 + fee0 ≤ balance l5 v.reserve0 =
        back_lem a.reserve0_vault v.reserve0 fee0 r0 l2 l5 e0 s0 back0 in
      let same1 : balance l2 v.reserve1 + fee1 ≤ balance l5 v.reserve1 =
        back_lem a.reserve1_vault v.reserve1 fee1 r1 l2 l5 e1 s1 back1 in
      ended t laws v apart p q _ l5 l' e_q e_l (
        loan_backs fee0 fee1 p l l2 l5 (kept_both l l1 l2 kept0 kept1) same0 same1
            (le_chain k0 j0 c0) (le_chain k1 j1 c1) backed,
        (refl, refl, refl),
      )
