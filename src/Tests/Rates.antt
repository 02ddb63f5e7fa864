-- ===== src/Tests/Rates.antt =====
-- Examples for the interest rate and the update of a pair.
use omnipair_rs.Base.{◌/◌, ◌*◌, ◌≤◌, ◌<◌, ℕ, ◌≡◌, inl, refl, arith}
use omnipair_rs.Outcome.{ok, err, panics}
use omnipair_rs.Math.{
  ceil_div, decay, taylor_exp, exp_magnitude, taylor_sum, raise, compute_ema, slots_to_ms,
}
use omnipair_rs.Int.{as_i64, neg_i64}
use omnipair_rs.RateModel.{
  RateModel, bps_to_nad, new, calculate_rate, rate_up, rate_down, flat_rate, moved_rate, split_rate,
  time_to_reach, ceil_or_floor, per_year,
}
use omnipair_rs.Constants.{nad}
use omnipair_rs.Int.{pos}
use omnipair_rs.RateModel.{scale_up, scale_down}
use omnipair_rs.RateModel.Reduction.{reduced_lem}
use omnipair_rs.RateModel.Bounds.{IsRate, calculate_rate-IsRate}
use omnipair_rs.RateModel.Totality.{calculate_rate_total, slow_model_panics}
use omnipair_rs.Pair.{
  Pair, update, elapse, update_prices, update_debt, accrue, snap, utilization, spot_price_nad,
}
use omnipair_rs.Pair.Accounting.{IsElapsed, update-IsElapsed}
use omnipair_rs.Tests.{value_or, model, pair_ab}

abbrev high : ℕ × ℕ
high = value_or (0, 0) (calculate_rate model 20_000_000 86_400_000 900_000_000)

high-eq : calculate_rate model 20_000_000 86_400_000 900_000_000 ≡ ok high
unfolding calculate_rate rate_up moved_rate per_year decay taylor_exp exp_magnitude taylor_sum raise
    as_i64 neg_i64 ceil_div
high-eq = refl

calculate_rate-IsRate_example : IsRate model 20_000_000 900_000_000 high.0
calculate_rate-IsRate_example =
    calculate_rate-IsRate model 20_000_000 86_400_000 900_000_000 (omega arith) (omega arith)
      (omega arith) (omega arith) (omega arith) (omega arith) high-eq

calculate_rate_total_example :
    (r : ℕ × ℕ) × (calculate_rate model 20_000_000 86_400_000 100_000_000 ≡ ok r)
calculate_rate_total_example =
    calculate_rate_total model 20_000_000 86_400_000 100_000_000 (omega arith) (omega arith)
      (omega arith) (omega arith) (omega arith)

-- A half-life of thirty days, the longest that is allowed.
abbrev slow_model : RateModel
slow_model = record {
  exp_rate = 0;
  target_util_start = 300_000_000;
  target_util_end = 500_000_000;
  half_life_ms = 2_592_000_000;
  min_rate = 10_000_000;
  max_rate = 0;
  initial_rate = 20_000_000;
}

slow_model-eq : new 3_000 5_000 2_592_000_000 100 0 200 ≡ ok slow_model
unfolding new bps_to_nad
slow_model-eq = refl

slow_model_panics_example : calculate_rate slow_model 20_000_000 400 900_000_000 ≡ err panics
slow_model_panics_example =
    slow_model_panics 3_000 5_000 2_592_000_000 100 200 20_000_000 400 900_000_000 (omega arith)
      slow_model-eq (omega arith) (omega arith) (inl (omega arith))

abbrev day_later : Pair
day_later = value_or pair_ab (update 216_100 model 1_000 pair_ab)

day_later-eq : update 216_100 model 1_000 pair_ab ≡ ok day_later
unfolding update elapse update_prices update_debt accrue snap utilization spot_price_nad
    calculate_rate rate_up rate_down flat_rate moved_rate split_rate time_to_reach ceil_or_floor
    per_year decay taylor_exp exp_magnitude taylor_sum raise as_i64 neg_i64 ceil_div compute_ema
    slots_to_ms
day_later-eq = refl

update-IsElapsed_example : IsElapsed 216_100 pair_ab day_later
update-IsElapsed_example = update-IsElapsed 216_100 model 1_000 pair_ab day_later-eq

-- The smallest ratio that is not 0.
reduced_lem_example :
    (nad / 2 ≤ (scale_down 64 (scale_up 64 1 (pos 0)).0 (scale_up 64 1 (pos 0)).1).0)
    × ((scale_down 64 (scale_up 64 1 (pos 0)).0 (scale_up 64 1 (pos 0)).1).0 < nad * 2)
reduced_lem_example = reduced_lem 1 (omega arith) (omega arith)
