-- ===== src/RateModel.antt =====
-- programs/omnipair/src/state/rate_model.rs: the interest rate model. Rates, utilisation and the
-- integral are NAD-scaled; `calculate_rate` works on `u128`.
pub mod Bounds
pub mod Totality
pub mod Reduction
use omnipair_rs.Base.{
  ℕ, zero, suc, ◌+◌, ◌-◌, ◌*◌, ◌/◌, ◌^◌, min, max, Bool, true, false, not, Option, none, some, ltb,
  leb, ◌==◌, ◌&&◌, ◌||◌, if◌then◌else◌,
}
use omnipair_rs.Word.{
  u64, u128, max_word, checked_add, checked_div, try_into, saturating_add, saturating_mul, cast,
  unwrap_or,
}
use omnipair_rs.Int.{ℤ, pos, negsuc, sub_ℕ, ◌+ℤ◌, ◌-ℤ◌, ◌*ℤ◌, ◌/ℤ◌}
use omnipair_rs.Outcome.{Result, ok, err, panics, ◌>>=◌, unwrap}
use omnipair_rs.Constants.{
  nad, bps_denominator, natural_log_of_two_nad, milliseconds_per_year, min_target_util_bps,
  max_target_util_bps, min_rate_half_life_ms, max_rate_half_life_ms, max_allowed_rate_bps,
  min_initial_rate_bps, max_initial_rate_bps,
}
use omnipair_rs.Math.{ceil_div, decay}

pub record RateModel : Type 0 where
  pub exp_rate : ℕ
  pub target_util_start : ℕ
  pub target_util_end : ℕ
  pub half_life_ms : ℕ
  pub min_rate : ℕ
  pub max_rate : ℕ
  pub initial_rate : ℕ

unfoldable pub bps_to_nad : ℕ → ℕ
bps_to_nad bps = cast u64 (nad * bps / bps_denominator)

-- `RateModel::new`, which divides by the half-life.
unfoldable pub new : ℕ → ℕ → ℕ → ℕ → ℕ → ℕ → Result RateModel
new start_bps end_bps half_life min_bps max_bps initial_bps = do
  rate ← unwrap (checked_div natural_log_of_two_nad half_life)
  ok (record {
    exp_rate = rate;
    target_util_start = bps_to_nad start_bps;
    target_util_end = bps_to_nad end_bps;
    half_life_ms = half_life;
    min_rate = bps_to_nad min_bps;
    max_rate = if max_bps == 0 then 0 else bps_to_nad max_bps;
    initial_rate = bps_to_nad initial_bps;
  })

unfoldable pub validate_util_bounds : ℕ → ℕ → Bool
validate_util_bounds start_bps end_bps =
    ltb start_bps end_bps && leb min_target_util_bps start_bps && leb end_bps max_target_util_bps

-- `validate_rate_params`, its early returns in order.
unfoldable pub validate_rate_params : ℕ → ℕ → ℕ → ℕ → Bool
validate_rate_params half_life min_bps max_bps initial_bps =
    if ltb half_life min_rate_half_life_ms || ltb max_rate_half_life_ms half_life
    then false
    else if ltb max_allowed_rate_bps min_bps
    then false
    else if ltb 0 max_bps && (ltb max_allowed_rate_bps max_bps || ltb max_bps min_bps)
    then false
    else if ltb initial_bps min_initial_rate_bps || ltb max_initial_rate_bps initial_bps
    then false
    else if ltb initial_bps min_bps
    then false
    else if ltb 0 max_bps && ltb max_bps initial_bps
    then false
    else true

-- The two loops of `ln_nad` that bring `z` into [NAD / 2, 2 NAD), with the power of two kept in `k`.
pub scale_up : ℕ → ℕ → ℤ → ℕ × ℤ
scale_up zero z k = (z, k)
scale_up (suc fuel) z k =
    let rest = scale_up fuel (saturating_mul u128 z 2) (k -ℤ pos 1) in
    if ltb z (nad / 2) then rest else (z, k)

pub scale_down : ℕ → ℕ → ℤ → ℕ × ℤ
scale_down zero z k = (z, k)
scale_down (suc fuel) z k =
    let rest = scale_down fuel (z / 2) (k +ℤ pos 1) in if leb (nad * 2) z then rest else (z, k)

-- The series of `ln_nad` at the reduced value. On `i128` nothing overflows, as |v| is below NAD.
ln_series : ℕ → ℤ
ln_series z =
    let v = sub_ℕ z nad *ℤ pos nad /ℤ max (z + nad) 1 in
    let v2 = v *ℤ v /ℤ nad in
    let v3 = v2 *ℤ v /ℤ nad in
    let v5 = v3 *ℤ v2 /ℤ nad in
    let v7 = v5 *ℤ v2 /ℤ nad in
    let v9 = v7 *ℤ v2 /ℤ nad in v +ℤ v3 /ℤ 3 +ℤ v5 /ℤ 5 +ℤ v7 /ℤ 7 +ℤ v9 /ℤ 9

-- `ln_nad` of a positive number; 64 rounds reduce every `u64`.
unfoldable pub ln_nad : ℕ → ℤ
unfolding scale_up scale_down ln_series ◌+ℤ◌ ◌-ℤ◌ ◌*ℤ◌ ◌/ℤ◌
ln_nad x =
    let (z, k) = scale_up 64 x (pos 0) in
    let (z', k') = scale_down 64 z k in pos 2 *ℤ ln_series z' +ℤ k' *ℤ pos natural_log_of_two_nad

-- `t as u128` of a quotient that is clamped at 0.
abbrev clamp_time : ℤ → ℕ
clamp_time (pos n) = n
clamp_time (negsuc n) = 0

-- `time_to_reach_closed_form` from `low` to `high`, which the caller orders by the direction; it
-- panics on a zero rate.
unfoldable pub time_to_reach : ℕ → ℕ → ℕ → Result ℕ
time_to_reach low high exp_rate =
    let ratio = saturating_mul u128 high nad / max low 1 in
    let capped = unwrap_or (max_word u64) (try_into u64 ratio) in
    let time = if exp_rate == 0 then err panics else ok (clamp_time (ln_nad capped /ℤ exp_rate)) in
    if leb high low then ok 0 else if capped == 0 then ok 0 else time

-- `ceil_div(a, b).unwrap_or(a / b)`, whose division is made in any case.
unfoldable pub ceil_or_floor : ℕ → ℕ → Result ℕ
ceil_or_floor a b = do floor ← unwrap (checked_div a b); ok (unwrap_or floor (ceil_div a b))

-- The integral over the year, from NAD milliseconds.
unfoldable pub per_year : ℕ → ℕ
per_year a = unwrap_or (a / milliseconds_per_year) (ceil_div a milliseconds_per_year)

abbrev pub clamp_u64 : ℕ → ℕ
clamp_u64 a = min a (max_word u64)

-- A rate that stays where it is.
unfoldable pub flat_rate : ℕ → ℕ → ℕ × ℕ
flat_rate rate dt = (clamp_u64 rate, clamp_u64 (per_year (saturating_mul u128 rate dt)))

-- A rate that moved from `low` to `high` or back inside the window.
unfoldable pub moved_rate : ℕ → ℕ → ℕ → ℕ → Result (ℕ × ℕ)
moved_rate low high rate exp_rate = do
  integral ← unwrap (checked_div (saturating_mul u128 (high - low) nad) exp_rate)
  ok (clamp_u64 rate, clamp_u64 (per_year integral))

-- A rate that reached the bound inside the window: an exponential part and a flat tail.
unfoldable pub split_rate : ℕ → ℕ → ℕ → ℕ → ℕ → Result (ℕ × ℕ)
split_rate low high bound exp_rate dt = do
  time ← time_to_reach low high exp_rate
  exp_part ← ceil_or_floor (saturating_mul u128 (high - low) nad) exp_rate
  total ← unwrap (checked_add u128 exp_part (saturating_mul u128 bound (dt - min time dt)))
  ok (clamp_u64 bound, clamp_u64 (per_year total))

-- Above the band: growth, with the optional cap.
unfoldable pub rate_up : RateModel → ℕ → ℕ → ℕ → Result (ℕ × ℕ)
rate_up m last gd dt =
    let curr = saturating_mul u128 last nad / max gd 1 in
    if ltb 0 m.max_rate && ltb m.max_rate curr
    then if leb m.max_rate last
      then ok (flat_rate m.max_rate dt)
      else split_rate last m.max_rate m.max_rate m.exp_rate dt
    else moved_rate last curr curr m.exp_rate

-- Below the band: decay, down to the floor.
unfoldable pub rate_down : RateModel → ℕ → ℕ → ℕ → Result (ℕ × ℕ)
rate_down m last gd dt =
    let curr = saturating_mul u128 last gd / nad in
    if leb m.min_rate curr
    then moved_rate curr last curr m.exp_rate
    else if leb last m.min_rate
    then ok (flat_rate m.min_rate dt)
    else split_rate m.min_rate last m.min_rate m.exp_rate dt

-- `calculate_rate`: the new rate and the integral of the rate over the elapsed time.
unfoldable pub calculate_rate : RateModel → ℕ → ℕ → ℕ → Result (ℕ × ℕ)
calculate_rate m last_rate dt last_util =
    let last = max last_rate m.min_rate in
    let moved = do
      gd ← decay (saturating_mul u128 m.exp_rate dt)
      if ltb m.target_util_end last_util
          then rate_up m last gd dt
          else if ltb last_util m.target_util_start
          then rate_down m last gd dt
          else ok (flat_rate last dt)
    in if dt == 0 then ok (last_rate, 0) else moved
