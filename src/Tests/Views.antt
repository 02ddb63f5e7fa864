-- ===== src/Tests/Views.antt =====
-- Examples for the views, the round trips, the encoding of the parameters and the example receiver.
use omnipair_rs.Base.{
  ℕ, ◌*◌, ◌^◌, ◌≤◌, ◌<◌, ◌≡◌, ◌≢◌, ◌↔◌, inl, refl, arith, Option, none, some, [],
}
use omnipair_rs.Outcome.{ok, err, fails, panics, not_undercollateralized}
use omnipair_rs.Word.{unwrap_or}
use omnipair_rs.Math.{ceil_div, sqrt, sqrt_loop, compute_ema, slots_to_ms}
use omnipair_rs.Math.Normalize.{scale, normalize_two_values_to_nad, normalize_two_values_to_scale}
use omnipair_rs.Curve.{scaled_product, virtual_reserves, calculate_amount_out}
use omnipair_rs.RateModel.{validate_util_bounds, validate_rate_params}
use omnipair_rs.Pair.{Side, spot_price_nad, ema_price_nad, directional_ema_price_nad}
use omnipair_rs.Position.{
  calculate_debt, increase_debt_on, decrease_debt_on, mint_shares, shares_for, shares_to_burn,
  settle, sync_debt, repayment,
}
use omnipair_rs.Position.Price.{decimal_factors, price_of, price_at}
use omnipair_rs.Position.Threshold.{price_at_iff}
use omnipair_rs.Liquidity.Bootstrap.{
  InitializeArgs, to_le_bytes, hash_data, validate_fixed_cf, validate_rate,
}
use omnipair_rs.Liquidity.Encoding.{hash_data-injective}
use omnipair_rs.Lending.Flashloan.{handle_flashloan}
use omnipair_rs.Lending.Liquidate.{write_off_of}
use omnipair_rs.Lending.RoundTrip.{repay_of_borrow}
use omnipair_rs.Receiver.Shortfall.{callback_of, example_receiver_fails}
use omnipair_rs.Views.{value_or_nothing, is_liquidatable, liquidation_limit}
use omnipair_rs.Views.Threshold.{liquidation_limit_iff}
use omnipair_rs.Tests.{value_or, side_a, side_b, pair_ab, tokens, tokens-IsTokenProgram, ledger}
use omnipair_rs.Tests.Loans.{priced-eq, owed-eq, value-eq, flashloan_accounts, loan, synced}

-- The collateral of 50000 units is worth 95238; at a factor of 85% the limit is 80952.
limit_shown : liquidation_limit 100 pair_ab side_a side_b 50_000 8_500 ≡ ok 80_952
unfolding liquidation_limit value_or_nothing ema_price_nad spot_price_nad compute_ema slots_to_ms
    virtual_reserves scaled_product sqrt sqrt_loop calculate_amount_out
limit_shown = refl

liquidation_limit_iff_example :
    (limit : ℕ) × (liquidation_limit 100 pair_ab side_a side_b 50_000 8_500 ≡ ok limit)
    × ((20_000 < limit) ↔ (
        write_off_of 100 pair_ab side_a side_b 50_000 20_000_000_000 8_500
        ≡ err (fails not_undercollateralized)))
liquidation_limit_iff_example =
    liquidation_limit_iff 100 pair_ab side_a side_b 50_000 20_000_000_000 8_500 owed-eq priced-eq
      value-eq (omega arith) (omega arith) (omega arith)

-- At half the directional price the view already flags a debt of 50000 units, below the limit.
abbrev falling : Side
falling = record side_a {
  last_price_ema = record { symmetric = 2_000_000_000; directional = 1_000_000_000 };
}

abbrev owing : Side
owing = record side_b { total_debt = 50_000; total_debt_shares = 50_000 }

flagged_early : is_liquidatable 100 pair_ab falling owing 50_000 50_000 8_500 ≡ ok 1
unfolding is_liquidatable value_or_nothing calculate_debt ceil_div ema_price_nad
    directional_ema_price_nad spot_price_nad compute_ema slots_to_ms virtual_reserves scaled_product
    sqrt sqrt_loop calculate_amount_out
flagged_early = refl

refused_still :
    write_off_of 100 pair_ab falling owing 50_000 50_000 8_500 ≡ err (fails not_undercollateralized)
unfolding write_off_of calculate_debt ceil_div ema_price_nad spot_price_nad compute_ema slots_to_ms
    virtual_reserves scaled_product sqrt sqrt_loop calculate_amount_out
refused_still = refl

price-eq : price_at 20_000 50_000 8_500 9 6 ≡ ok 470_588_235_295
unfolding price_at decimal_factors price_of
price-eq = refl

price_at_iff_example :
    (20_000 * 10 ^ 9 * 1_000_000_000 * 10_000 ≤ 500_000_000_000 * (50_000 * 10 ^ 6 * 8_500))
    ↔ (470_588_235_295 ≤ 500_000_000_000)
price_at_iff_example =
    price_at_iff 20_000 50_000 8_500 9 6 500_000_000_000 (omega arith) (omega arith) (omega arith)
      price-eq (omega arith)

abbrev params : Option ℕ → Option ℕ → InitializeArgs
params min_rate initial = record {
  swap_fee_bps = 30;
  half_life = 60_000;
  fixed_cf_bps = none;
  target_util_start_bps = some 3_000;
  target_util_end_bps = none;
  rate_half_life_ms = none;
  min_rate_bps = min_rate;
  max_rate_bps = none;
  initial_rate_bps = initial;
  params_hash = 9;
  version = 1;
  amount0_in = 1_000_000;
  amount1_in = 4_000_000;
  min_liquidity_out = 1;
  lp_name = [];
  lp_symbol = [];
  lp_uri = [];
}

rate_floor : validate_rate (params none none) ≡ ok tt
unfolding validate_rate validate_util_bounds validate_rate_params
rate_floor = refl

no_rate_floor : validate_rate (params (some 0) (some 50)) ≡ ok tt
unfolding validate_rate validate_util_bounds validate_rate_params
no_rate_floor = refl

cf-valid : validate_fixed_cf none ≡ ok tt
unfolding validate_fixed_cf
cf-valid = refl

-- A pair with the default floor of 1% and one without a floor, which starts at another rate, have the
-- same hash.
same_bytes : hash_data (params none none) ≡ hash_data (params (some 0) (some 50))
unfolding hash_data to_le_bytes
same_bytes = refl

hash_data-injective_example :
    (30 ≡ (params none none).swap_fee_bps)
    × (60_000 ≡ (params none none).half_life)
    × ((params none none).fixed_cf_bps ≡ none)
    × ((params none none).target_util_start_bps ≡ some 3_000)
    × ((params none none).target_util_end_bps ≡ none)
    × ((params none none).rate_half_life_ms ≡ none)
    × (unwrap_or 0 (params none none).min_rate_bps ≡ 0)
    × (unwrap_or 0 (params none none).max_rate_bps ≡ 0)
hash_data-injective_example =
    hash_data-injective (params none none) (params (some 0) (some 50))
      (
        omega arith,
        omega arith,
        omega arith,
        omega arith,
        omega arith,
        omega arith,
        omega arith,
        omega arith,
      )
      (
        omega arith,
        omega arith,
        omega arith,
        omega arith,
        omega arith,
        omega arith,
        omega arith,
        omega arith,
      )
      cf-valid cf-valid rate_floor no_rate_floor same_bytes

abbrev lent : Side
lent = record side_b {
  cash_reserve = 1_893_000;
  total_debt = 107_000;
  total_debt_shares = 107_000_000_000;
}

lent-eq : increase_debt_on side_b 20_000_000_000 7_000 ≡ ok (lent, 27_000_000_000)
unfolding increase_debt_on mint_shares shares_for ceil_div
lent-eq = refl

abbrev unlent : Side × ℕ
unlent = value_or (side_b, 0) (decrease_debt_on lent 27_000_000_000 7_000 repayment)

unlent-eq : decrease_debt_on lent 27_000_000_000 7_000 repayment ≡ ok (unlent.0, unlent.1)
unfolding decrease_debt_on shares_to_burn settle sync_debt
unlent-eq = refl

repay_of_borrow_example :
    (20_000_000_000 ≤ unlent.1)
    × (unlent.0.total_debt ≡ 100_000)
    × (unlent.0.cash_reserve ≡ 1_900_000)
    × (unlent.0.reserve ≡ 2_000_000)
repay_of_borrow_example =
    repay_of_borrow side_b 20_000_000_000 7_000 refl (omega arith) (omega arith) (omega arith)
      (omega arith) lent-eq unlent-eq

example_receiver_fails_example :
    handle_flashloan tokens 77 synced
      (callback_of tokens flashloan_accounts loan)
      flashloan_accounts
      loan
      pair_ab
      ledger
    ≢ ok (pair_ab, ledger)
example_receiver_fails_example =
    example_receiver_fails tokens tokens-IsTokenProgram flashloan_accounts loan
      (λ e. omega arith, λ e. omega arith, λ e. omega arith, λ e. omega arith, λ e. omega arith) 77
      synced pair_ab ledger (pair_ab, ledger) (inl (omega arith)) (omega arith) (omega arith)

-- A token of 29 decimals or more makes the normalisation panic.
normalize_panics : normalize_two_values_to_nad 1 29 1 ≡ err panics
unfolding normalize_two_values_to_nad normalize_two_values_to_scale scale
normalize_panics = refl

-- A value that would overflow is divided instead: 10 ^ 11 units of a token without decimals become 100.
normalize_divides :
    normalize_two_values_to_nad (10 ^ 11) 0 1 ≡ ok (record { scaled_a = 100; scaled_b = 1 })
unfolding normalize_two_values_to_nad normalize_two_values_to_scale scale
normalize_divides = refl
