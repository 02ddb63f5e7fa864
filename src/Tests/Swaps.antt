-- ===== src/Tests/Swaps.antt =====
-- Examples for the curve and the swap.
use omnipair_rs.Base.{ℕ, ◌+◌, ◌-◌, ◌*◌, ◌≤◌, ◌<◌, ◌≡◌, ◌↔◌, true, refl, arith, Pubkey}
use omnipair_rs.Word.{u128}
use omnipair_rs.Outcome.{ok, insufficient_cash_reserve1}
use omnipair_rs.Pair.{Side, Pair}
use omnipair_rs.Curve.{calculate_amount_out, calculate_amount_in}
use omnipair_rs.Curve.Product.{amount_out_keeps_k, amount_in_least}
use omnipair_rs.Swap.{
  SwapArgs, SwapAccounts, fee_of, swap_sides, swap_pair, checked_swap, handle_swap,
}
use omnipair_rs.Swap.Invariant.{swap_sides_keeps_k, checked_swap_never_broken}
use omnipair_rs.Tests.{value_or, side_a, side_b, pair_ab, protocol, tokens, ledger}
use omnipair_rs.Math.{ceil_div}
use omnipair_rs.Token.{transfer}

abbrev pub order : SwapArgs
order = record { amount_in = 10_000; min_amount_out = 15_000 }

abbrev swapped : Side × Side × ℕ
swapped =
    value_or (side_a, side_b, 0)
      (swap_sides 30 1_000 order insufficient_cash_reserve1 side_a side_b)

swapped-eq : swap_sides 30 1_000 order insufficient_cash_reserve1 side_a side_b ≡ ok swapped
unfolding swap_sides fee_of ceil_div calculate_amount_out
swapped-eq = refl

swap_sides_keeps_k_example : side_a.reserve * side_b.reserve ≤ swapped.0.reserve * swapped.1.reserve
swap_sides_keeps_k_example =
    swap_sides_keeps_k 30 1_000 order insufficient_cash_reserve1 side_a side_b (omega arith)
      swapped-eq

abbrev pair_swapped : Pair × ℕ
pair_swapped = value_or (pair_ab, 0) (swap_pair 1_000 order true pair_ab)

pair_swapped-eq : swap_pair 1_000 order true pair_ab ≡ ok pair_swapped
unfolding swap_pair swap_sides fee_of ceil_div calculate_amount_out
pair_swapped-eq = refl

pair_swapped-fits : pair_swapped.0.side0.reserve * pair_swapped.0.side1.reserve < u128
unfolding swap_pair swap_sides fee_of ceil_div calculate_amount_out
pair_swapped-fits = omega arith

checked_swap_never_broken_example : checked_swap 1_000 order true pair_ab ≡ ok pair_swapped
checked_swap_never_broken_example =
    checked_swap_never_broken 1_000 order true pair_ab (omega arith) pair_swapped-eq
      pair_swapped-fits

abbrev pub accounts : SwapAccounts
accounts = record {
  token_in_vault = 51;
  token_out_vault = 52;
  user_token_in = 53;
  user_token_out = 54;
  token_in_vault_mint = 10;
  token_out_vault_mint = 20;
  user_token_in_mint = 10;
}

abbrev after_swap : Pair × (Pubkey → ℕ)
after_swap = value_or (pair_ab, ledger) (handle_swap tokens protocol accounts order pair_ab ledger)

after_swap-eq : handle_swap tokens protocol accounts order pair_ab ledger ≡ ok after_swap
unfolding handle_swap checked_swap transfer swap_pair swap_sides fee_of ceil_div
    calculate_amount_out
after_swap-eq = refl

sold-eq : calculate_amount_out 1_000 2_000 10 ≡ ok 19
unfolding calculate_amount_out
sold-eq = refl

bought-eq : calculate_amount_in 1_000 2_000 19 ≡ ok 10
unfolding calculate_amount_in ceil_div
bought-eq = refl

amount_out_keeps_k_example : (19 ≤ 2_000) × (1_000 * 2_000 ≤ (1_000 + 10) * (2_000 - 19))
amount_out_keeps_k_example = amount_out_keeps_k 1_000 2_000 10 sold-eq

amount_in_least_example : (19 ≤ 19) ↔ (10 ≤ 10)
amount_in_least_example = amount_in_least 1_000 2_000 19 10 bought-eq sold-eq
