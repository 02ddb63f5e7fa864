-- ===== src/Receiver/Shortfall.antt =====
-- Proofs: the example receiver (examples/flashloan_receiver) in a flash loan
-- (instructions/lending/flashloan.rs).
use omnipair_rs.Base.{
  ℕ, ◌+◌, ◌*◌, ◌≤◌, ◌<◌, ◌≡◌, ◌≢◌, inl, inr, sym, arith, ◌⊎◌, Option, some, Option-cases, Pubkey,
}
use omnipair_rs.Word.{u64}
use omnipair_rs.Outcome.{ok, Result-cases}
use omnipair_rs.Constants.{flashloan_fee_bps, bps_denominator}
use omnipair_rs.Math.{ceil_div}
use omnipair_rs.Math.Rounding.{ceil_div_bounds}
use omnipair_rs.Pair.{Pair}
use omnipair_rs.Swap.{fee_of}
use omnipair_rs.Token.{TokenProgram, IsTokenProgram, transfer}
use omnipair_rs.Token.Moves.{transfer_debits, transfer_others}
use omnipair_rs.Lending.Flashloan.{
  FlashloanArgs, FlashloanAccounts, sync_native_if_wsol, handle_flashloan,
}
use omnipair_rs.Receiver.{give_back, flash_loan_callback}

-- What a return adds to the vault.
give_back-credits :
    (t : TokenProgram) (laws : IsTokenProgram t) (from to : Pubkey) (amount : ℕ) (l l' : t.Ledger)
    → from ≢ to
    → give_back t from to amount l ≡ some l'
    → t.balance l' to ≡ t.balance l to + amount
unfolding give_back
give_back-credits t laws from to amount l l' apart h =
    ground (arith, laws.credits from to amount l l' apart)

give_back-others :
    (t : TokenProgram) (laws : IsTokenProgram t) (from to third : Pubkey) (amount : ℕ)
    (l l' : t.Ledger)
    → third ≢ from
    → third ≢ to
    → give_back t from to amount l ≡ some l'
    → t.balance l' third ≡ t.balance l third
unfolding give_back
give_back-others t laws from to third amount l l' d1 d2 h =
    ground (arith, laws.others from to third amount l l' d1 d2)

fee_of-pos :
    (amount : ℕ) {fee : ℕ}
    → 0 < amount
    → amount < u64
    → fee_of amount flashloan_fee_bps ≡ ok fee
    → 0 < fee
unfolding fee_of
fee_of-pos amount {fee} pos word h =
    elim (Option-cases (ceil_div (amount * flashloan_fee_bps) bps_denominator)) [
      | inl bad ↦ ground arith
      | inr (c, e) ↦
          let (_, low, high) = ceil_div_bounds (amount * flashloan_fee_bps) bps_denominator e in
          ground arith
    ]

-- The parts of a flash loan that succeeds.
loan_parts :
    (t : TokenProgram) (native_mint : Pubkey) (sync_native : Pubkey → t.Ledger → Option t.Ledger)
    (callback : t.Ledger → Option t.Ledger) (a : FlashloanAccounts) (args : FlashloanArgs)
    (p : Pair) (l : t.Ledger) (r : Pair × t.Ledger)
    → handle_flashloan t native_mint sync_native callback a args p l ≡ ok r
    → (fee0 fee1 : ℕ) × (synced lent0 lent back : t.Ledger) × (fee_of args.amount0 flashloan_fee_bps
        ≡ ok fee0)
      × (fee_of args.amount1 flashloan_fee_bps ≡ ok fee1)
      × (transfer t a.reserve0_vault a.receiver_token0_account args.amount0 synced ≡ ok lent0)
      × (transfer t a.reserve1_vault a.receiver_token1_account args.amount1 lent0 ≡ ok lent)
      × (callback lent ≡ some back)
      × (t.balance synced a.reserve0_vault + fee0 ≤ t.balance back a.reserve0_vault)
      × (t.balance synced a.reserve1_vault + fee1 ≤ t.balance back a.reserve1_vault)
unfolding handle_flashloan
loan_parts t native_mint sync_native callback a args p l r h =
    elim (Result-cases (fee_of args.amount0 flashloan_fee_bps)) [
      | inr (e, bad) ↦ ground arith
      | inl (fee0, f0) ↦ elim (Result-cases (fee_of args.amount1 flashloan_fee_bps)) [
        | inr (e, bad) ↦ ground arith
        | inl (fee1, f1) ↦
            elim (Result-cases
              (sync_native_if_wsol t native_mint sync_native a.reserve0_vault p.token0 l)) [
                | inr (e, bad) ↦ ground arith
                | inl (synced0, y0) ↦
                    elim (Result-cases (
                      sync_native_if_wsol t native_mint sync_native a.reserve1_vault p.token1
                        synced0)) [
                          | inr (e, bad) ↦ ground arith
                          | inl (synced, y1) ↦
                              elim (Result-cases (
                                transfer t a.reserve0_vault a.receiver_token0_account args.amount0
                                  synced)) [
                                    | inr (e, bad) ↦ ground arith
                                    | inl (lent0, s0) ↦
                                        elim (Result-cases (
                                          transfer t a.reserve1_vault a.receiver_token1_account
                                            args.amount1 lent0)) [
                                              | inr (e, bad) ↦ ground arith
                                              | inl (lent, s1) ↦
                                                  elim (Option-cases (callback lent)) [
                                                    | inl bad ↦ ground arith
                                                    | inr (back, called) ↦ (
                                                      fee0,
                                                      fee1,
                                                      synced,
                                                      lent0,
                                                      lent,
                                                      back,
                                                      f0,
                                                      f1,
                                                      s0,
                                                      s1,
                                                      called,
                                                      ground arith,
                                                      ground arith,
                                                    )
                                                  ]
                                            ]
                                  ]
                        ]
              ]
      ]
    ]

-- The callback of the example, for the vaults and the receiving accounts of the loan.
abbrev pub callback_of :
    (t : TokenProgram) → FlashloanAccounts → FlashloanArgs → t.Ledger → Option t.Ledger
callback_of t a args =
    flash_loan_callback t
      (record {
        receiver_token0_account = a.receiver_token0_account;
        receiver_token1_account = a.receiver_token1_account;
        token0_vault = a.reserve0_vault;
        token1_vault = a.reserve1_vault;
      })
      (record { amount0 = args.amount0; amount1 = args.amount1 })

-- The vaults and the receiving accounts are four accounts.
abbrev pub IsApart : FlashloanAccounts → Type 0
IsApart a =
    (a.reserve0_vault ≢ a.reserve1_vault)
    × (a.receiver_token0_account ≢ a.reserve0_vault)
    × (a.receiver_token0_account ≢ a.reserve1_vault)
    × (a.receiver_token1_account ≢ a.reserve0_vault)
    × (a.receiver_token1_account ≢ a.reserve1_vault)

module _ (t : TokenProgram) (laws : IsTokenProgram t) (a : FlashloanAccounts) (args : FlashloanArgs)
    (apart : IsApart a) where
  -- What is lent comes back, and no more.
  returned_lem :
      (l lent0 lent back0 back : t.Ledger)
      → transfer t a.reserve0_vault a.receiver_token0_account args.amount0 l ≡ ok lent0
      → transfer t a.reserve1_vault a.receiver_token1_account args.amount1 lent0 ≡ ok lent
      → give_back t a.receiver_token0_account a.reserve0_vault args.amount0 lent ≡ some back0
      → give_back t a.receiver_token1_account a.reserve1_vault args.amount1 back0 ≡ some back
      → (t.balance back a.reserve0_vault ≡ t.balance l a.reserve0_vault)
        × (t.balance back a.reserve1_vault ≡ t.balance l a.reserve1_vault)
  returned_lem l lent0 lent back0 back s0 s1 g0 g1 =
      let (v, r00, r01, r10, r11) = apart in
      let out0 =
        transfer_debits t laws a.reserve0_vault a.receiver_token0_account args.amount0 l
          (λ e. r00 (sym e)) s0 in
      let kept1 =
        transfer_others t laws a.reserve0_vault a.receiver_token0_account args.amount0 l
          a.reserve1_vault (λ e. v (sym e)) (λ e. r01 (sym e)) s0 in
      let out1 =
        transfer_debits t laws a.reserve1_vault a.receiver_token1_account args.amount1 lent0
          (λ e. r11 (sym e)) s1 in
      let kept0 =
        transfer_others t laws a.reserve1_vault a.receiver_token1_account args.amount1 lent0
          a.reserve0_vault v (λ e. r10 (sym e)) s1 in
      let in0 = give_back-credits t laws _ a.reserve0_vault args.amount0 lent back0 r00 g0 in
      let still1 =
        give_back-others t laws a.receiver_token0_account a.reserve0_vault a.reserve1_vault
          args.amount0 lent back0 (λ e. r01 (sym e)) (λ e. v (sym e)) g0 in
      let in1 = give_back-credits t laws _ a.reserve1_vault args.amount1 back0 back r11 g1 in
      let still0 =
        give_back-others t laws a.receiver_token1_account a.reserve1_vault a.reserve0_vault
          args.amount1 back0 back (λ e. r10 (sym e)) v g1 in
      (omega arith, omega arith)

  callback_parts :
      (l back : t.Ledger)
      → callback_of t a args l ≡ some back
      → (back0 : t.Ledger) × (give_back t a.receiver_token0_account a.reserve0_vault args.amount0 l
          ≡ some back0)
        × (give_back t a.receiver_token1_account a.reserve1_vault args.amount1 back0 ≡ some back)
  unfolding flash_loan_callback
  callback_parts l back h =
      elim (Option-cases (give_back t a.receiver_token0_account a.reserve0_vault args.amount0 l)) [
        | inl bad ↦ ground arith
        | inr (back0, g0) ↦ (back0, g0, ground arith)
      ]

  -- The vaults are short of the fees after the callback.
  short_lem :
      (fee0 fee1 : ℕ) (synced lent0 lent back : t.Ledger)
      → (0 < args.amount0) ⊎ (0 < args.amount1)
      → args.amount0 < u64
      → args.amount1 < u64
      → fee_of args.amount0 flashloan_fee_bps ≡ ok fee0
      → fee_of args.amount1 flashloan_fee_bps ≡ ok fee1
      → transfer t a.reserve0_vault a.receiver_token0_account args.amount0 synced ≡ ok lent0
      → transfer t a.reserve1_vault a.receiver_token1_account args.amount1 lent0 ≡ ok lent
      → callback_of t a args lent ≡ some back
      → (t.balance back a.reserve0_vault < t.balance synced a.reserve0_vault + fee0)
        ⊎ (t.balance back a.reserve1_vault < t.balance synced a.reserve1_vault + fee1)
  short_lem fee0 fee1 synced lent0 lent back some_lent word0 word1 f0 f1 s0 s1 called =
      let (back0, g0, g1) = callback_parts lent back called in
      let (same0, same1) = returned_lem synced lent0 lent back0 back s0 s1 g0 g1 in
      elim some_lent [
        | inl first ↦ let fee = fee_of-pos args.amount0 first word0 f0 in inl (omega arith)
        | inr second ↦ let fee = fee_of-pos args.amount1 second word1 f1 in inr (omega arith)
      ]

  -- A flash loan to the example receiver never succeeds: it returns what it was lent, but not the
  -- fee, which is at least 1 for every amount that is lent. This holds of every token program whose
  -- transfers move the amount, for amounts that fit a u64 and vaults and receiving accounts that
  -- are four accounts.
  pub example_receiver_fails :
      (native_mint : Pubkey) (sync_native : Pubkey → t.Ledger → Option t.Ledger) (p : Pair)
      (l : t.Ledger) (r : Pair × t.Ledger)
      → (0 < args.amount0) ⊎ (0 < args.amount1)
      → args.amount0 < u64
      → args.amount1 < u64
      → handle_flashloan t native_mint sync_native (callback_of t a args) a args p l ≢ ok r
  example_receiver_fails native_mint sync_native p l r some_lent word0 word1 h =
      let (fee0, fee1, synced, lent0, lent, back, f0, f1, s0, s1, called, paid0, paid1) =
        loan_parts t native_mint sync_native (callback_of t a args) a args p l r h in
      elim (short_lem fee0 fee1 synced lent0 lent back some_lent word0 word1 f0 f1 s0 s1 called) [
        | inl short ↦ omega arith
        | inr short ↦ omega arith
      ]
