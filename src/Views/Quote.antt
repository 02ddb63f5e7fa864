-- ===== src/Views/Quote.antt =====
-- Proofs: the view of a swap's output (instructions/emit_value.rs) and the swap
-- (instructions/spot/swap.rs).
use omnipair_rs.Base.{
  ℕ, ◌≤◌, ◌≡◌, refl, inl, inr, Bool, true, false, Option, none, some, ◌==◌, arith, Pubkey,
}
use omnipair_rs.Outcome.{
  ErrorCode, ok, ◌>>=◌, ◌>>◌, chain, guarded, Result-cases, insufficient_cash_reserve0,
  insufficient_cash_reserve1,
}
use omnipair_rs.RateModel.{RateModel}
use omnipair_rs.Futarchy.{FutarchyAuthority}
use omnipair_rs.Pair.{Side, Pair, update}
use omnipair_rs.Token.{TokenProgram, transfer}
use omnipair_rs.Swap.{
  SwapArgs, SwapAccounts, swap_sides, swap_pair, checked_swap, validate_swap, handle_swap, swap,
}
use omnipair_rs.Swap.Invariant.{quoted}
use omnipair_rs.Views.{
  from_u64, from_optional_u64, swap_quote, EmitValueArgs, View, quote, pair_view, view_pair_data,
}

-- The view's question for a swap.
abbrev pub asked : Pubkey → ℕ → EmitValueArgs
asked token amount = record { amount = some amount; token_mint = some token; debt_amount = none }

-- The view's answer: the output and the fee.
abbrev pub answer : ℕ → ℕ → Option View
answer out fee = some (from_u64 out, from_u64 fee, from_optional_u64 none)

sides_quoted :
    (swap_fee_bps futarchy_bps : ℕ) (args : SwapArgs) (short : ErrorCode) (i o : Side)
    {i' o' : Side} {out : ℕ}
    → swap_sides swap_fee_bps futarchy_bps args short i o ≡ ok (i', o', out)
    → (fee : ℕ) × (quote swap_fee_bps i o args.amount_in ≡ ok (out, fee))
unfolding quote
sides_quoted swap_fee_bps futarchy_bps args short i o {i'} {o'} {out} h =
    let (fee, _, charged, _, le, sold, _, _) =
      quoted swap_fee_bps futarchy_bps args short i o {i' = i'} {o' = o'} {out = out} h in
    (fee, ground arith)

sides_minimum :
    (swap_fee_bps futarchy_bps : ℕ) (args : SwapArgs) (short : ErrorCode) (i o : Side)
    {i' o' : Side} {out : ℕ}
    → swap_sides swap_fee_bps futarchy_bps args short i o ≡ ok (i', o', out)
    → args.min_amount_out ≤ out
unfolding swap_sides
sides_minimum swap_fee_bps futarchy_bps args short i o h = ground arith

module _ (slot : ℕ) (m : RateModel) (futarchy_bps : ℕ) (args : SwapArgs) (token : Pubkey)
    (p : Pair) where
  pair_quoted :
      (is_token0_in : Bool) {r : Pair × ℕ}
      → (token == p.token0) ≡ is_token0_in
      → swap_pair futarchy_bps args is_token0_in p ≡ ok r
      → (fee : ℕ) × (pair_view slot m swap_quote (asked token args.amount_in) p
          ≡ ok (answer r.1 fee))
        × (args.min_amount_out ≤ r.1)
  unfolding swap_pair pair_view
  pair_quoted true {r} test h =
      let ((i, o, out), swapped, done) =
        chain
          (swap_sides p.swap_fee_bps futarchy_bps args insufficient_cash_reserve1 p.side0 p.side1)
          (λ x. ok (record p { side0 = x.0; side1 = x.1 }, x.2)) h in
      let (fee, e) =
        sides_quoted p.swap_fee_bps futarchy_bps args insufficient_cash_reserve1 p.side0 p.side1
          swapped in
      let least =
        sides_minimum p.swap_fee_bps futarchy_bps args insufficient_cash_reserve1 p.side0 p.side1
          swapped in
      let same : out ≡ r.1 = ground arith in (fee, ground arith, ground arith)
  pair_quoted false {r} test h =
      let ((i, o, out), swapped, done) =
        chain
          (swap_sides p.swap_fee_bps futarchy_bps args insufficient_cash_reserve0 p.side1 p.side0)
          (λ x. ok (record p { side0 = x.1; side1 = x.0 }, x.2)) h in
      let (fee, e) =
        sides_quoted p.swap_fee_bps futarchy_bps args insufficient_cash_reserve0 p.side1 p.side0
          swapped in
      let least =
        sides_minimum p.swap_fee_bps futarchy_bps args insufficient_cash_reserve0 p.side1 p.side0
          swapped in
      let same : out ≡ r.1 = ground arith in (fee, ground arith, ground arith)

checked_lem :
    (futarchy_bps : ℕ) (args : SwapArgs) (is_token0_in : Bool) (p : Pair) {r : Pair × ℕ}
    → checked_swap futarchy_bps args is_token0_in p ≡ ok r
    → swap_pair futarchy_bps args is_token0_in p ≡ ok r
unfolding checked_swap
checked_lem futarchy_bps args is_token0_in p {r} h =
    elim (Result-cases (swap_pair futarchy_bps args is_token0_in p)) [
      | inr (e, bad) ↦ ground arith
      | inl (s, done) ↦ ground arith
    ]

-- A swap that succeeds pays what the view of the pair quotes, in the same slot, for its amount and
-- its token: the view of the pair before the swap returns an output and a fee, the output is at
-- least the minimum, and the ledger after the swap is the one before it with the input moved from
-- the user to the one vault and then the quoted output from the other vault to the user.
pub swap_as_quoted :
    (t : TokenProgram) (slot : ℕ) (m : RateModel) (authority : FutarchyAuthority) (a : SwapAccounts)
    (args : SwapArgs) (p : Pair) (l : t.Ledger) {q : Pair} {l' : t.Ledger}
    → swap t slot m authority a args p l ≡ ok (q, l')
    → (out fee : ℕ) × (paid : t.Ledger) × (view_pair_data slot m authority swap_quote
          (asked a.user_token_in_mint args.amount_in)
          p
        ≡ ok (answer out fee))
      × (args.min_amount_out ≤ out)
      × (transfer t a.user_token_in a.token_in_vault args.amount_in l ≡ ok paid)
      × (transfer t a.token_out_vault a.user_token_out out paid ≡ ok l')
unfolding swap handle_swap view_pair_data
swap_as_quoted t slot m authority a args p l {q} {l'} h =
    let bps = authority.revenue_share.swap_bps in
    let (c, updated, rest) =
      chain (update slot m authority.revenue_share.interest_bps p)
        (λ c. validate_swap t a args c l >> handle_swap t authority a args c l) h in
    let (valid, handled) =
      guarded (validate_swap t a args c l) (handle_swap t authority a args c l) rest in
    let (r, checked, moves) =
      chain (checked_swap bps args (a.user_token_in_mint == c.token0) c)
        (λ r. transfer t a.user_token_in a.token_in_vault args.amount_in l >>= λ paid.
          transfer t a.token_out_vault a.user_token_out r.1 paid >>= λ received. ok (r.0, received))
        handled in
    let (paid, first, last) =
      chain (transfer t a.user_token_in a.token_in_vault args.amount_in l)
        (λ paid.
          transfer t a.token_out_vault a.user_token_out r.1 paid >>= λ received. ok (r.0, received))
        moves in
    let (received, second, ends) =
      chain (transfer t a.token_out_vault a.user_token_out r.1 paid)
        (λ received. ok (r.0, received)) last in
    let swapped = checked_lem bps args (a.user_token_in_mint == c.token0) c {r = r} checked in
    let (fee, shown, least) =
      pair_quoted slot m bps args a.user_token_in_mint c (a.user_token_in_mint == c.token0) {r = r}
        refl swapped in
    (r.1, fee, paid, ground arith, least, first, ground arith)
