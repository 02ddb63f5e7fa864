-- ===== src/Swap/Backing.antt =====
-- Proofs: the reserve vaults and the cash reserves in a swap (instructions/spot/swap.rs).
use omnipair_rs.Base.{
  ℕ, ◌+◌, ◌≤◌, ◌≡◌, ◌≢◌, inl, inr, sym, Bool, true, false, not, ◌==◌, if◌then◌else◌, arith,
}
use omnipair_rs.Outcome.{
  ErrorCode, ok, Result-cases, insufficient_cash_reserve0, insufficient_cash_reserve1,
}
use omnipair_rs.Futarchy.{FutarchyAuthority}
use omnipair_rs.Pair.{Side, Pair}
use omnipair_rs.Token.{TokenProgram, IsTokenProgram, transfer}
use omnipair_rs.Token.Moves.{transfer_debits, transfer_credits, transfer_others}
use omnipair_rs.Swap.{SwapArgs, SwapAccounts, swap_sides, swap_pair, checked_swap, handle_swap}

-- The cash of side 0, or of side 1.
abbrev pub cash_on : Bool → Pair → ℕ
cash_on b p = if b then p.side0.cash_reserve else p.side1.cash_reserve

cash_lem :
    (swap_fee_bps futarchy_bps : ℕ) (args : SwapArgs) (short : ErrorCode) (i o : Side)
    {i' o' : Side} {out : ℕ}
    → swap_sides swap_fee_bps futarchy_bps args short i o ≡ ok (i', o', out)
    → (i'.cash_reserve ≤ i.cash_reserve + args.amount_in) × (o'.cash_reserve + out ≡ o.cash_reserve)
unfolding swap_sides
cash_lem swap_fee_bps futarchy_bps args short i o h = ground arith

pub pair_cash_lem :
    (futarchy_bps : ℕ) (args : SwapArgs) (b : Bool) (p : Pair) {q : Pair} {out : ℕ}
    → swap_pair futarchy_bps args b p ≡ ok (q, out)
    → (cash_on b q ≤ cash_on b p + args.amount_in) × (cash_on (not b) q + out ≡ cash_on (not b) p)
unfolding swap_pair
pair_cash_lem futarchy_bps args true p h =
    elim (Result-cases
      (swap_sides p.swap_fee_bps futarchy_bps args insufficient_cash_reserve1 p.side0 p.side1)) [
        | inr (e, bad) ↦ ground arith
        | inl ((i, o, out), swapped) ↦
            let cash =
              cash_lem p.swap_fee_bps futarchy_bps args insufficient_cash_reserve1 p.side0 p.side1
                swapped in
            ground arith
      ]
pair_cash_lem futarchy_bps args false p h =
    elim (Result-cases
      (swap_sides p.swap_fee_bps futarchy_bps args insufficient_cash_reserve0 p.side1 p.side0)) [
        | inr (e, bad) ↦ ground arith
        | inl ((i, o, out), swapped) ↦
            let cash =
              cash_lem p.swap_fee_bps futarchy_bps args insufficient_cash_reserve0 p.side1 p.side0
                swapped in
            ground arith
      ]

-- If the two vaults hold at least the cash that the pair counts, they still do after a swap,
-- provided that the input account is not the input vault, the output account is not the output
-- vault, and the vaults are different from each other and from the other account of the user.
swap_keeps_backing :
    (t : TokenProgram) (laws : IsTokenProgram t) (authority : FutarchyAuthority) (a : SwapAccounts)
    (args : SwapArgs) (p : Pair) (l : t.Ledger) {q : Pair} {l' : t.Ledger}
    → a.user_token_in ≢ a.token_in_vault
    → a.token_out_vault ≢ a.user_token_out
    → a.token_in_vault ≢ a.token_out_vault
    → a.token_out_vault ≢ a.user_token_in
    → a.token_in_vault ≢ a.user_token_out
    → let b = a.user_token_in_mint == p.token0 in
      cash_on b p ≤ t.balance l a.token_in_vault
      → cash_on (not b) p ≤ t.balance l a.token_out_vault
      → handle_swap t authority a args p l ≡ ok (q, l')
      → (cash_on b q ≤ t.balance l' a.token_in_vault)
        × (cash_on (not b) q ≤ t.balance l' a.token_out_vault)
unfolding handle_swap checked_swap
swap_keeps_backing t laws authority a args p l {q} {l'} d1 d2 d3 d4 d5 in_backed out_backed h =
    let b = a.user_token_in_mint == p.token0 in
    let bps = authority.revenue_share.swap_bps in
    elim (Result-cases (swap_pair bps args b p)) [
      | inr (e, bad) ↦ ground arith
      | inl ((r, out), swapped) ↦
          elim (Result-cases (transfer t a.user_token_in a.token_in_vault args.amount_in l)) [
            | inr (e, bad) ↦ ground arith
            | inl (paid, sent) ↦
                let received : transfer t a.token_out_vault a.user_token_out out paid ≡ ok l' =
                  ground arith in
                let same : r ≡ q = ground arith in
                let credited =
                  transfer_credits t laws a.user_token_in a.token_in_vault args.amount_in l d1
                    sent in
                let kept_out =
                  transfer_others t laws a.user_token_in a.token_in_vault args.amount_in l
                    a.token_out_vault d4 (λ e. d3 (sym e)) sent in
                let debited =
                  transfer_debits t laws a.token_out_vault a.user_token_out out paid d2 received in
                let kept_in =
                  transfer_others t laws a.token_out_vault a.user_token_out out paid
                    a.token_in_vault d3 d5 received in
                let cash = pair_cash_lem bps args b p swapped in
                rw (sym same) (omega arith, omega arith)
          ]
    ]
