-- ===== src/System/Pools.antt =====
-- Proofs: the instructions on the pair alone keep its accounts.
use omnipair_rs.Base.{ℕ, ◌≡◌, refl, sym, inl, inr, arith, Bool, true, false, ◌==◌, Option, Pubkey}
use mathlib.Core.Path.{subst}
use omnipair_rs.Outcome.{ok, Result-cases, insufficient_cash_reserve0, insufficient_cash_reserve1}
use omnipair_rs.Constants.{flashloan_fee_bps}
use omnipair_rs.Futarchy.{FutarchyAuthority}
use omnipair_rs.RateModel.{RateModel}
use omnipair_rs.Pair.{Pair, update, spot_price_nad}
use omnipair_rs.Pair.Accounting.{update-IsElapsed}
use omnipair_rs.Token.{TokenProgram, transfer}
use omnipair_rs.Swap.{
  SwapArgs, SwapAccounts, fee_of, swap_sides, swap_pair, checked_swap, handle_swap,
}
use omnipair_rs.Liquidity.{LiquidityAccounts}
use omnipair_rs.Liquidity.Add.{AddLiquidityArgs, Deposit, add_to_pair, handle_add}
use omnipair_rs.Liquidity.Remove.{RemoveLiquidityArgs, Withdrawal, remove_from_pair, handle_remove}
use omnipair_rs.Liquidity.Share.{added_lem}
use omnipair_rs.Liquidity.Dilution.{removed_lem}
use omnipair_rs.Lending.Flashloan.{FlashloanArgs, FlashloanAccounts, earn, handle_flashloan}
use omnipair_rs.System.{IsBelow}
use omnipair_rs.System.Accounts.{IsSound}
use omnipair_rs.System.Sides.{
  updated-IsAccounted, moved-IsAccounted, earned-IsAccounted, deposited-IsAccounted,
  swapped-IsAccounted,
}

-- A flash loan changes the pair by its two fees.
flashloan_parts :
    (t : TokenProgram) (native_mint : Pubkey) (sync_native : Pubkey → t.Ledger → Option t.Ledger)
    (callback : t.Ledger → Option t.Ledger) (a : FlashloanAccounts) (args : FlashloanArgs)
    (p q : Pair) (l l' : t.Ledger)
    → handle_flashloan t native_mint sync_native callback a args p l ≡ ok (q, l')
    → (fee0 fee1 : ℕ) × (record p { side0 = earn fee0 p.side0; side1 = earn fee1 p.side1 } ≡ q)
unfolding handle_flashloan
flashloan_parts t native_mint sync_native callback a args p q l l' h =
    elim (Result-cases (fee_of args.amount0 flashloan_fee_bps)) [
      | inr (e, bad) ↦ ground arith
      | inl (fee0, charged0) ↦ elim (Result-cases (fee_of args.amount1 flashloan_fee_bps)) [
        | inr (e, bad) ↦ ground arith
        | inl (fee1, charged1) ↦ (fee0, fee1, ground arith)
      ]
    ]

module _ (shares0 shares1 collateral0 collateral1 : ℕ) where
  pub update-IsSound :
      (slot : ℕ) (m : RateModel) (interest_bps : ℕ) (p q : Pair)
      → update slot m interest_bps p ≡ ok q
      → IsBelow q
      → IsSound shares0 shares1 collateral0 collateral1 p
      → IsSound shares0 shares1 collateral0 collateral1 q
  update-IsSound slot m interest_bps p q h below (ordered, a0, a1) =
      let (up0, up1, _, _, _, e0, e1) = update-IsElapsed slot m interest_bps p h in
      (
        rw (e0, e1) ordered,
        updated-IsAccounted shares0 collateral0 p.side0 q.side0 (spot_price_nad p.side0 p.side1) up0
            below.0 a0,
        updated-IsAccounted shares1 collateral1 p.side1 q.side1 (spot_price_nad p.side1 p.side0) up1
            below.1 a1,
      )

  swap_pair-IsSound :
      (futarchy_bps : ℕ) (args : SwapArgs) (is_token0_in : Bool) (p q : Pair) {out : ℕ}
      → swap_pair futarchy_bps args is_token0_in p ≡ ok (q, out)
      → IsSound shares0 shares1 collateral0 collateral1 p
      → IsSound shares0 shares1 collateral0 collateral1 q
  unfolding swap_pair
  swap_pair-IsSound bps args true p q h (ordered, a0, a1) =
      elim (Result-cases
        (swap_sides p.swap_fee_bps bps args insufficient_cash_reserve1 p.side0 p.side1)) [
          | inr (e, bad) ↦ ground arith
          | inl ((i, o, out), done) ↦
              let e_q : record p { side0 = i; side1 = o } ≡ q = ground arith in
              let (kept0, kept1) =
                swapped-IsAccounted p.swap_fee_bps bps args insufficient_cash_reserve1 _ _ _ _
                  p.side0 p.side1 i o done a0 a1 in
              rw (← e_q) (ordered, kept0, kept1)
        ]
  swap_pair-IsSound bps args false p q h (ordered, a0, a1) =
      elim (Result-cases
        (swap_sides p.swap_fee_bps bps args insufficient_cash_reserve0 p.side1 p.side0)) [
          | inr (e, bad) ↦ ground arith
          | inl ((i, o, out), done) ↦
              let e_q : record p { side0 = o; side1 = i } ≡ q = ground arith in
              let (kept1, kept0) =
                swapped-IsAccounted p.swap_fee_bps bps args insufficient_cash_reserve0 _ _ _ _
                  p.side1 p.side0 i o done a1 a0 in
              rw (← e_q) (ordered, kept0, kept1)
        ]

  added_pair-IsSound :
      (args : AddLiquidityArgs) (p : Pair) (d : Deposit)
      → add_to_pair args p ≡ ok d
      → IsSound shares0 shares1 collateral0 collateral1 p
      → IsSound shares0 shares1 collateral0 collateral1 d.pair
  added_pair-IsSound args p d h (ordered, a0, a1) =
      let (_, _, _, d0, d1, _, _, (e0, e1)) = added_lem args p d h in
      (
        rw (e0, e1) ordered,
        deposited-IsAccounted shares0 collateral0 p.side0 d.pair.side0 d.amount0 d0 a0,
        deposited-IsAccounted shares1 collateral1 p.side1 d.pair.side1 d.amount1 d1 a1,
      )

  removed_pair-IsSound :
      (slot : ℕ) (args : RemoveLiquidityArgs) (p : Pair) (w : Withdrawal)
      → remove_from_pair slot args p ≡ ok w
      → IsSound shares0 shares1 collateral0 collateral1 p
      → IsSound shares0 shares1 collateral0 collateral1 w.pair
  removed_pair-IsSound slot args p w h (ordered, a0, a1) =
      let (_, _, r0, r1, c0, c1, _, d0, d1, _, (e0, e1, s0, s1, k0, k1)) =
        removed_lem slot args p w h in
      (
        rw (e0, e1) ordered,
        moved-IsAccounted shares0 collateral0 p.side0 w.pair.side0 (omega (arith, r0, c0, d0, a0.0))
            (omega (arith, r0, a0.1)) d0 s0 k0 a0,
        moved-IsAccounted shares1 collateral1 p.side1 w.pair.side1 (omega (arith, r1, c1, d1, a1.0))
            (omega (arith, r1, a1.1)) d1 s1 k1 a1,
      )

  module _ (t : TokenProgram) where
    open t use {Ledger}

    pub handle_swap-IsSound :
        (authority : FutarchyAuthority) (a : SwapAccounts) (args : SwapArgs) (p q : Pair)
        (l l' : Ledger)
        → handle_swap t authority a args p l ≡ ok (q, l')
        → IsSound shares0 shares1 collateral0 collateral1 p
        → IsSound shares0 shares1 collateral0 collateral1 q
    unfolding handle_swap checked_swap
    handle_swap-IsSound authority a args p q l l' h sound =
        let b = a.user_token_in_mint == p.token0 in
        let bps = authority.revenue_share.swap_bps in
        elim (Result-cases (swap_pair bps args b p)) [
          | inr (e, bad) ↦ ground arith
          | inl ((r, out), swapped) ↦
              elim (Result-cases (transfer t a.user_token_in a.token_in_vault args.amount_in l)) [
                | inr (e, bad) ↦ ground arith
                | inl (paid, sent) ↦
                    elim (Result-cases (transfer t a.token_out_vault a.user_token_out out paid)) [
                      | inr (e, bad) ↦ ground arith
                      | inl (received, got) ↦
                          let e_q : r ≡ q = ground arith in
                          rw (← e_q) (swap_pair-IsSound bps args b p r swapped sound)
                    ]
              ]
        ]

    pub handle_add-IsSound :
        (a : LiquidityAccounts) (args : AddLiquidityArgs) (p q : Pair) (l l' : Ledger)
        → handle_add t a args p l ≡ ok (q, l')
        → IsSound shares0 shares1 collateral0 collateral1 p
        → IsSound shares0 shares1 collateral0 collateral1 q
    unfolding handle_add
    handle_add-IsSound a args p q l l' h sound = elim (Result-cases (add_to_pair args p)) [
      | inr (e, bad) ↦ ground arith
      | inl (d, more) ↦
          let e_q : d.pair ≡ q = ground arith in rw (← e_q) (added_pair-IsSound args p d more sound)
    ]

    pub handle_remove-IsSound :
        (slot : ℕ) (a : LiquidityAccounts) (args : RemoveLiquidityArgs) (p q : Pair) (l l' : Ledger)
        → handle_remove t slot a args p l ≡ ok (q, l')
        → IsSound shares0 shares1 collateral0 collateral1 p
        → IsSound shares0 shares1 collateral0 collateral1 q
    unfolding handle_remove
    handle_remove-IsSound slot a args p q l l' h sound =
        elim (Result-cases (remove_from_pair slot args p)) [
          | inr (e, bad) ↦ ground arith
          | inl (w, less) ↦
              let e_q : w.pair ≡ q = ground arith in
              rw (← e_q) (removed_pair-IsSound slot args p w less sound)
        ]

    pub handle_flashloan-IsSound :
        (native_mint : Pubkey) (sync_native : Pubkey → Ledger → Option Ledger)
        (callback : Ledger → Option Ledger) (a : FlashloanAccounts) (args : FlashloanArgs)
        (p q : Pair) (l l' : Ledger)
        → handle_flashloan t native_mint sync_native callback a args p l ≡ ok (q, l')
        → IsBelow q
        → IsSound shares0 shares1 collateral0 collateral1 p
        → IsSound shares0 shares1 collateral0 collateral1 q
    handle_flashloan-IsSound native_mint sync_native callback a args p q l l' h below
          (ordered, a0, a1) =
        let (fee0, fee1, e_q) =
          flashloan_parts t native_mint sync_native callback a args p q l l' h in
        let done : Pair = record p { side0 = earn fee0 p.side0; side1 = earn fee1 p.side1 } in
        let fits = subst IsBelow (sym e_q) below in
        let kept0 = earned-IsAccounted _ _ p.side0 (earn fee0 p.side0) fee0 refl fits.0 a0 in
        let kept1 = earned-IsAccounted _ _ p.side1 (earn fee1 p.side1) fee1 refl fits.1 a1 in
        subst (IsSound shares0 shares1 collateral0 collateral1) e_q (ordered, kept0, kept1)
