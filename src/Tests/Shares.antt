-- ===== src/Tests/Shares.antt =====
-- Examples for the LP shares.
use omnipair_rs.Base.{◌*◌, ◌≤◌, ◌≡◌, refl}
use omnipair_rs.Outcome.{ok}
use omnipair_rs.Math.{ceil_div, sqrt, sqrt_loop, compute_ema, slots_to_ms}
use omnipair_rs.Curve.{scaled_product, virtual_reserves, calculate_amount_in}
use omnipair_rs.Pair.{spot_price_nad, ema_price_nad, directional_ema_price_nad}
use omnipair_rs.Swap.{fee_of}
use omnipair_rs.Liquidity.{checked_share, reserve_share, reserve_share_up}
use omnipair_rs.Liquidity.Add.{AddLiquidityArgs, Deposit, minted_liquidity, deposit, add_to_pair}
use omnipair_rs.Liquidity.Remove.{
  RemoveLiquidityArgs, Withdrawal, required_collateral, with_debt_coverage_buffer,
  validate_coverage_with_prices, validate_coverage, withdrawn, remove_from_pair,
}
use omnipair_rs.Liquidity.Bootstrap.{first_liquidity}
use omnipair_rs.Liquidity.Dilution.{add_never_dilutes, remove_never_dilutes, add_remove_no_profit}
use omnipair_rs.Tests.{value_or, pair_ab}

abbrev pub offer : AddLiquidityArgs
offer = record { amount0_in = 10_000; amount1_in = 30_000; min_liquidity_out = 14_000 }

abbrev no_deposit : Deposit
no_deposit = record { amount0 = 0; amount1 = 0; liquidity = 0; pair = pair_ab }

abbrev added : Deposit
added = value_or no_deposit (add_to_pair offer pair_ab)

added-eq : add_to_pair offer pair_ab ≡ ok added
unfolding add_to_pair minted_liquidity deposit checked_share reserve_share_up ceil_div
added-eq = refl

add_never_dilutes_example :
    (1_000_000 * added.pair.total_supply ≤ added.pair.side0.reserve * 1_414_213)
    × (2_000_000 * added.pair.total_supply ≤ added.pair.side1.reserve * 1_414_213)
add_never_dilutes_example = add_never_dilutes offer pair_ab added-eq

abbrev pub request : RemoveLiquidityArgs
request = record { liquidity_in = 14_142; min_amount0_out = 9_000; min_amount1_out = 18_000 }

abbrev no_withdrawal : Withdrawal
no_withdrawal = record { amount0 = 0; amount1 = 0; pair = pair_ab }

abbrev removed : Withdrawal
removed = value_or no_withdrawal (remove_from_pair 100 request pair_ab)

removed-eq : remove_from_pair 100 request pair_ab ≡ ok removed
unfolding remove_from_pair withdrawn reserve_share checked_share fee_of validate_coverage
    validate_coverage_with_prices required_collateral with_debt_coverage_buffer ema_price_nad
    directional_ema_price_nad spot_price_nad compute_ema slots_to_ms virtual_reserves scaled_product
    sqrt sqrt_loop calculate_amount_in ceil_div
removed-eq = refl

remove_never_dilutes_example :
    (1_000_000 * removed.pair.total_supply ≤ removed.pair.side0.reserve * 1_414_213)
    × (2_000_000 * removed.pair.total_supply ≤ removed.pair.side1.reserve * 1_414_213)
remove_never_dilutes_example = remove_never_dilutes 100 request pair_ab removed-eq

added-liquidity : 14_142 ≡ added.liquidity
unfolding add_to_pair minted_liquidity deposit checked_share reserve_share_up ceil_div
added-liquidity = refl

abbrev back : Withdrawal
back = value_or no_withdrawal (remove_from_pair 100 request added.pair)

back-eq : remove_from_pair 100 request added.pair ≡ ok back
unfolding add_to_pair minted_liquidity deposit reserve_share_up remove_from_pair withdrawn
    reserve_share checked_share fee_of validate_coverage validate_coverage_with_prices
    required_collateral with_debt_coverage_buffer ema_price_nad directional_ema_price_nad
    spot_price_nad compute_ema slots_to_ms virtual_reserves scaled_product sqrt sqrt_loop
    calculate_amount_in ceil_div
back-eq = refl

add_remove_no_profit_example : (back.amount0 ≤ added.amount0) × (back.amount1 ≤ added.amount1)
add_remove_no_profit_example =
    add_remove_no_profit 100 offer request pair_ab added-eq added-liquidity back-eq

founded-eq : first_liquidity 1_000_000 2_000_000 ≡ ok 1_413_213
unfolding first_liquidity sqrt sqrt_loop
founded-eq = refl
