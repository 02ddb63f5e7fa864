-- ===== src/Tests/Quotes.antt =====
-- Examples for the quote of a swap.
use omnipair_rs.Base.{ℕ, ◌≤◌, ◌≡◌, refl, Pubkey}
use omnipair_rs.Outcome.{ok}
use omnipair_rs.Math.{ceil_div}
use omnipair_rs.Curve.{calculate_amount_out}
use omnipair_rs.Pair.{Pair, update, snap, spot_price_nad}
use omnipair_rs.Token.{transfer}
use omnipair_rs.Swap.{fee_of, swap_sides, swap_pair, checked_swap, validate_swap, handle_swap, swap}
use omnipair_rs.Views.{swap_quote, quote, pair_view, view_pair_data}
use omnipair_rs.Views.Quote.{asked, answer, swap_as_quoted}
use omnipair_rs.Tests.{value_or, model, pair_ab, protocol, tokens, ledger}
use omnipair_rs.Tests.Swaps.{order, accounts}

abbrev after : Pair × (Pubkey → ℕ)
after = value_or (pair_ab, ledger) (swap tokens 100 model protocol accounts order pair_ab ledger)

after-eq : swap tokens 100 model protocol accounts order pair_ab ledger ≡ ok after
unfolding swap update snap spot_price_nad validate_swap handle_swap checked_swap transfer swap_pair
    swap_sides fee_of ceil_div calculate_amount_out
after-eq = refl

swap_as_quoted_example :
    (out fee : ℕ) × (paid : Pubkey → ℕ) × (view_pair_data 100 model protocol swap_quote
        (asked 10 10_000)
        pair_ab
      ≡ ok (answer out fee))
    × (15_000 ≤ out)
    × (transfer tokens 53 51 10_000 ledger ≡ ok paid)
    × (transfer tokens 52 54 out paid ≡ ok (after.1))
swap_as_quoted_example =
    swap_as_quoted tokens 100 model protocol accounts order pair_ab ledger {q = after.0}
      {l' = after.1} after-eq

-- The quote for 10000 units of token 0, of which 30 are the fee.
quote_shown :
    view_pair_data 100 model protocol swap_quote (asked 10 10_000) pair_ab ≡ ok (answer 19_743 30)
unfolding view_pair_data pair_view quote update snap spot_price_nad fee_of ceil_div
    calculate_amount_out
quote_shown = refl
