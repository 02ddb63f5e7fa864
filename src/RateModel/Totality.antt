-- ===== src/RateModel/Totality.antt =====
-- Proofs: where `calculate_rate` (state/rate_model.rs) returns a rate, and where it aborts.
use native.Mathlib.Nat.{mul-le-mul, mul-le-mul_left, mul-le-mul_right, div-le_self}
use omnipair_rs.Base.{
  ℕ, ◌-◌, ◌*◌, ◌/◌, ◌^◌, min, max, ◌≤◌, ◌<◌, ◌≡◌, inl, inr, ◌⊎◌, arith, Option-cases,
}
use omnipair_rs.Word.{u64, u128, saturating_mul}
use omnipair_rs.Outcome.{ok, err, panics, Result-cases}
use omnipair_rs.Constants.{nad, natural_log_of_two_nad}
use omnipair_rs.Math.{decay, ceil_div}
use omnipair_rs.Math.Rounding.{ceil_div-le, div-lt_of_mul}
use omnipair_rs.Math.Exp.{decay_bounds, decay_zero}
use omnipair_rs.RateModel.{
  RateModel, bps_to_nad, new, time_to_reach, ceil_or_floor, per_year, moved_rate, split_rate,
  rate_up, rate_down, calculate_rate, clamp_u64,
}

moved_rate_total :
    (low high rate exp_rate : ℕ)
    → 0 < exp_rate
    → (r : ℕ × ℕ) × (moved_rate low high rate exp_rate ≡ ok r)
unfolding moved_rate
moved_rate_total low high rate exp_rate pos =
    let integral = saturating_mul u128 (high - low) nad / exp_rate in
    ((clamp_u64 rate, clamp_u64 (per_year integral)), ground arith)

time_to_reach_total :
    (low high exp_rate : ℕ) → 0 < exp_rate → (t : ℕ) × (time_to_reach low high exp_rate ≡ ok t)
unfolding time_to_reach
time_to_reach_total low high exp_rate pos = elim (Result-cases (time_to_reach low high exp_rate)) [
  | inl (t, e) ↦ (t, e)
  | inr (e, bad) ↦ ground arith
]

ceil_or_floor-le : (a b : ℕ) → 0 < b → (c : ℕ) × (ceil_or_floor a b ≡ ok c) × (c ≤ a)
unfolding ceil_or_floor
ceil_or_floor-le a b pos =
    let least = div-le_self a b in
    let one : 1 ≤ b = pos in
    let more = mul-le-mul_left a one in
    elim (Option-cases (ceil_div a b)) [
      | inl none_fits ↦ (a / b, ground arith, least)
      | inr (c, e) ↦ (c, ground arith, ceil_div-le a b a e (omega arith))
    ]

split_rate_total :
    (low high bound exp_rate dt : ℕ)
    → 0 < exp_rate
    → high < u64
    → bound < u64
    → dt < 2 ^ 63
    → (r : ℕ × ℕ) × (split_rate low high bound exp_rate dt ≡ ok r)
unfolding split_rate
split_rate_total low high bound exp_rate dt pos small_high small_bound small_dt =
    let (time, e_time) = time_to_reach_total low high exp_rate pos in
    let (part, e_part, le) = ceil_or_floor-le (saturating_mul u128 (high - low) nad) exp_rate pos in
    let tail : bound * (dt - min time dt) ≤ (2 ^ 64) * (2 ^ 63) =
      mul-le-mul {n₁ = bound} {m₁ = dt - min time dt} {n₂ = 2 ^ 64} {m₂ = 2 ^ 63} (omega arith)
        (omega arith) in
    elim (Result-cases (split_rate low high bound exp_rate dt)) [
      | inl (r, e) ↦ (r, e)
      | inr (e, bad) ↦ ground arith
    ]

rate_up_total :
    (m : RateModel) (last gd dt : ℕ)
    → 0 < m.exp_rate
    → m.max_rate < u64
    → dt < 2 ^ 63
    → (r : ℕ × ℕ) × (rate_up m last gd dt ≡ ok r)
unfolding rate_up
rate_up_total m last gd dt pos fits_max small =
    let curr = saturating_mul u128 last nad / max gd 1 in
    let (_, moved) = moved_rate_total last curr curr m.exp_rate pos in
    let (_, split) =
      split_rate_total last m.max_rate m.max_rate m.exp_rate dt pos fits_max fits_max small in
    elim (Result-cases (rate_up m last gd dt)) [ inl (r, e) ↦ (r, e) | inr (e, bad) ↦ ground arith ]

rate_down_total :
    (m : RateModel) (last gd dt : ℕ)
    → 0 < m.exp_rate
    → last < u64
    → m.min_rate < u64
    → dt < 2 ^ 63
    → (r : ℕ × ℕ) × (rate_down m last gd dt ≡ ok r)
unfolding rate_down
rate_down_total m last gd dt pos fits fits_min small =
    let curr = saturating_mul u128 last gd / nad in
    let (_, moved) = moved_rate_total curr last curr m.exp_rate pos in
    let (_, split) =
      split_rate_total m.min_rate last m.min_rate m.exp_rate dt pos fits fits_min small in
    elim (Result-cases (rate_down m last gd dt)) [
      | inl (r, e) ↦ (r, e)
      | inr (e, bad) ↦ ground arith
    ]

-- `calculate_rate` returns a rate for every utilisation, if the model's exponential rate is not
-- 0 and the rates and the exponent fit their words.
pub calculate_rate_total :
    (m : RateModel) (last_rate dt util : ℕ)
    → 0 < m.exp_rate
    → last_rate < u64
    → m.min_rate < u64
    → m.max_rate < u64
    → m.exp_rate * dt < 2 ^ 63
    → (r : ℕ × ℕ) × (calculate_rate m last_rate dt util ≡ ok r)
unfolding calculate_rate
calculate_rate_total m last_rate dt util pos fits fits_min fits_max exponent =
    let last = max last_rate m.min_rate in
    let one : 1 ≤ m.exp_rate = pos in
    let some_time = mul-le-mul_right dt one in
    let (gd, e, le) = decay_bounds (saturating_mul u128 m.exp_rate dt) (omega arith) in
    let (_, up) = rate_up_total m last gd dt pos fits_max (omega arith) in
    let (_, down) = rate_down_total m last gd dt pos (omega arith) fits_min (omega arith) in
    elim (Result-cases (calculate_rate m last_rate dt util)) [
      | inl (r, done) ↦ (r, done)
      | inr (f, bad) ↦ ground arith
    ]

-- A half-life of more than 693147180 ms gives a model whose exponential rate is 0.
new-exp_rate :
    (start_bps end_bps half_life min_bps max_bps initial_bps : ℕ) {m : RateModel}
    → natural_log_of_two_nad < half_life
    → new start_bps end_bps half_life min_bps max_bps initial_bps ≡ ok m
    → m.exp_rate ≡ 0
unfolding new
new-exp_rate start_bps end_bps half_life min_bps max_bps initial_bps long h =
    let small : natural_log_of_two_nad / half_life < 1 =
      div-lt_of_mul 1 half_life natural_log_of_two_nad (omega arith) (omega arith) in
    ground arith

new_lem :
    (start_bps end_bps half_life min_bps initial_bps : ℕ) {m : RateModel}
    → new start_bps end_bps half_life min_bps 0 initial_bps ≡ ok m
    → (m.max_rate ≡ 0) × (m.min_rate < u64)
unfolding new bps_to_nad
new_lem start_bps end_bps half_life min_bps initial_bps h = ground arith

stuck_lem :
    (m : RateModel) (last dt : ℕ)
    → m.exp_rate ≡ 0
    → m.max_rate ≡ 0
    → m.min_rate ≤ last
    → last < u64
    → (rate_up m last nad dt ≡ err panics) × (rate_down m last nad dt ≡ err panics)
unfolding rate_up rate_down moved_rate
stuck_lem m last dt zero_rate uncapped floor fits =
    let same : saturating_mul u128 last nad / nad ≡ last = omega arith in
    (ground arith, ground arith)

-- A model that `new` makes without a cap and with a half-life of more than 693147180 ms aborts
-- in `calculate_rate` whenever the utilisation is outside its band, time has passed, and the
-- last rate fits a u64.
pub slow_model_panics :
    (start_bps end_bps half_life min_bps initial_bps last_rate dt util : ℕ) {m : RateModel}
    → natural_log_of_two_nad < half_life
    → new start_bps end_bps half_life min_bps 0 initial_bps ≡ ok m
    → last_rate < u64
    → 0 < dt
    → (m.target_util_end < util) ⊎ (util < m.target_util_start)
    → calculate_rate m last_rate dt util ≡ err panics
unfolding calculate_rate
slow_model_panics start_bps end_bps half_life min_bps initial_bps last_rate dt util {m} long made
      fits later outside =
    let zero_rate = new-exp_rate start_bps end_bps half_life min_bps 0 initial_bps long made in
    let (uncapped, fits_min) = new_lem start_bps end_bps half_life min_bps initial_bps made in
    let last = max last_rate m.min_rate in
    let (up, down) = stuck_lem m last dt zero_rate uncapped (omega arith) (omega arith) in
    let still : saturating_mul u128 m.exp_rate dt ≡ 0 = rw zero_rate (omega arith) in
    let kept : decay (saturating_mul u128 m.exp_rate dt) ≡ ok nad = rw still decay_zero in
    ground arith
