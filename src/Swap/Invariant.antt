-- ===== src/Swap/Invariant.antt =====
-- Proofs: the reserves of a swap (instructions/spot/swap.rs): their product and their accounting.
use native.Mathlib.Nat.{mul-le-mul_left, mul-le-mul_right}
use omnipair_rs.Base.{
  ℕ, ◌+◌, ◌-◌, ◌*◌, ◌≤◌, ◌<◌, ◌≡◌, inl, inr, Bool, true, false, arith, Option-cases,
}
use omnipair_rs.Word.{u128}
use omnipair_rs.Outcome.{
  ErrorCode, ok, Result-cases, insufficient_cash_reserve0, insufficient_cash_reserve1,
}
use omnipair_rs.Constants.{bps_denominator}
use omnipair_rs.Math.{ceil_div}
use omnipair_rs.Math.Rounding.{ceil_div-le}
use omnipair_rs.Curve.{calculate_amount_out}
use omnipair_rs.Curve.Product.{amount_out_keeps_k}
use omnipair_rs.Pair.{Side, Pair}
use omnipair_rs.Pair.Accounting.{IsBalanced}
use omnipair_rs.Swap.{SwapArgs, fee_of, swap_sides, swap_pair, checked_swap}

-- A fee of at most the whole is at most the amount.
fee_of-le :
    (amount bps : ℕ) {fee : ℕ} → bps ≤ bps_denominator → fee_of amount bps ≡ ok fee → fee ≤ amount
unfolding fee_of
fee_of-le amount bps {fee} le h = elim (Option-cases (ceil_div (amount * bps) bps_denominator)) [
  | inl bad ↦ ground arith
  | inr (c, e) ↦
      let cap = ceil_div-le (amount * bps) bps_denominator amount e (mul-le-mul_left amount le) in
      ground arith
]

module _ (swap_fee_bps futarchy_bps : ℕ) (args : SwapArgs) (short : ErrorCode) (i o : Side)
    {i' o' : Side} {out : ℕ} where
  -- If r_virtual = r_cash + r_debt holds on both sides, it holds after a swap; no debt moves,
  -- the cash that pays falls by the output, and the output is at least the minimum.
  pub swap_sides-IsBalanced :
      IsBalanced i
      → IsBalanced o
      → swap_sides swap_fee_bps futarchy_bps args short i o ≡ ok (i', o', out)
      → IsBalanced i'
        × IsBalanced o'
        × (i'.total_debt ≡ i.total_debt)
        × (o'.total_debt ≡ o.total_debt)
        × (o'.cash_reserve + out ≡ o.cash_reserve)
        × (args.min_amount_out ≤ out)
  unfolding swap_sides
  swap_sides-IsBalanced bi bo h = ground arith

  pub quoted :
      swap_sides swap_fee_bps futarchy_bps args short i o ≡ ok (i', o', out)
      → (fee futarchy_fee : ℕ) × (fee_of args.amount_in swap_fee_bps ≡ ok fee)
        × (fee_of fee futarchy_bps ≡ ok futarchy_fee)
        × (fee ≤ args.amount_in)
        × (calculate_amount_out i.reserve o.reserve (args.amount_in - fee) ≡ ok out)
        × (i'.reserve ≡ i.reserve + (args.amount_in - futarchy_fee))
        × (o'.reserve ≡ o.reserve - out)
  unfolding swap_sides
  quoted h = elim (Result-cases (fee_of args.amount_in swap_fee_bps)) [
    | inr (e, bad) ↦ ground arith
    | inl (fee, paid) ↦ elim (Result-cases (fee_of fee futarchy_bps)) [
      | inr (e, bad) ↦ ground arith
      | inl (futarchy_fee, shared) ↦
          (fee, futarchy_fee, paid, shared, ground arith, ground arith, ground arith, ground arith)
    ]
  ]

  -- If the protocol's share of the swap fee is at most the whole fee, a swap that succeeds does
  -- not lower the product of the reserves.
  pub swap_sides_keeps_k :
      futarchy_bps ≤ bps_denominator
      → swap_sides swap_fee_bps futarchy_bps args short i o ≡ ok (i', o', out)
      → i.reserve * o.reserve ≤ i'.reserve * o'.reserve
  swap_sides_keeps_k share h =
      let (fee, futarchy_fee, _, shared, le, sold, e_in, e_out) = quoted h in
      let less = fee_of-le fee futarchy_bps share shared in
      let (_, keeps) = amount_out_keeps_k i.reserve o.reserve (args.amount_in - fee) sold in
      let more : i.reserve + (args.amount_in - fee) ≤ i'.reserve = omega arith in
      let grown = mul-le-mul_right (o.reserve - out) more in rw e_out (omega arith)

-- Both directions of `swap_pair` keep the product.
swap_pair_keeps_k :
    (futarchy_bps : ℕ) (args : SwapArgs) (is_token0_in : Bool) (p : Pair) {q : Pair} {out : ℕ}
    → futarchy_bps ≤ bps_denominator
    → swap_pair futarchy_bps args is_token0_in p ≡ ok (q, out)
    → p.side0.reserve * p.side1.reserve ≤ q.side0.reserve * q.side1.reserve
unfolding swap_pair
swap_pair_keeps_k futarchy_bps args true p {q} {out} share h =
    elim (Result-cases
      (swap_sides p.swap_fee_bps futarchy_bps args insufficient_cash_reserve1 p.side0 p.side1)) [
        | inr (e, bad) ↦ ground arith
        | inl ((i, o, paid), swapped) ↦
            let keeps =
              swap_sides_keeps_k p.swap_fee_bps futarchy_bps args insufficient_cash_reserve1 p.side0
                p.side1 share swapped in
            ground arith
      ]
swap_pair_keeps_k futarchy_bps args false p {q} {out} share h =
    elim (Result-cases
      (swap_sides p.swap_fee_bps futarchy_bps args insufficient_cash_reserve0 p.side1 p.side0)) [
        | inr (e, bad) ↦ ground arith
        | inl ((i, o, paid), swapped) ↦
            let keeps =
              swap_sides_keeps_k p.swap_fee_bps futarchy_bps args insufficient_cash_reserve0 p.side1
                p.side0 share swapped in
            let moved : (q.side0.reserve ≡ o.reserve) × (q.side1.reserve ≡ i.reserve) =
              ground arith in
            rw (moved.0, moved.1) (omega arith)
      ]

-- If the protocol's share of the fee is at most the whole fee, the swap itself succeeds, and the
-- product of the reserves after it fits a u128, then the check of the product passes and the
-- result is that of the swap.
pub checked_swap_never_broken :
    (futarchy_bps : ℕ) (args : SwapArgs) (is_token0_in : Bool) (p : Pair) {r : Pair × ℕ}
    → futarchy_bps ≤ bps_denominator
    → swap_pair futarchy_bps args is_token0_in p ≡ ok r
    → r.0.side0.reserve * r.0.side1.reserve < u128
    → checked_swap futarchy_bps args is_token0_in p ≡ ok r
unfolding checked_swap
checked_swap_never_broken futarchy_bps args is_token0_in p {r} share h fits =
    let keeps = swap_pair_keeps_k futarchy_bps args is_token0_in p {q = r.0} {out = r.1} share h in
    ground arith
