-- ===== src/Math/Exp.antt =====
-- Proofs: bounds of `taylor_exp` and of the moving average (utils/math.rs).
use native.Mathlib.Nat.{mul-le-mul_left, mul-le-mul_right}
use omnipair_rs.Base.{
  ℕ, zero, suc, ◌+◌, ◌-◌, ◌*◌, ◌/◌, ◌%◌, ◌^◌, ◌≤◌, ◌<◌, ◌≡◌, inl, inr, refl, some, arith, ltb,
  Bool-cases, ◌&&◌, min, max,
}
use omnipair_rs.Word.{
  u64, u128, unwrap_or, checked_add, checked_mul, checked_div, and_then, max_word,
}
use omnipair_rs.Int.{pos, negsuc, as_i64, neg_i64}
use omnipair_rs.Outcome.{ok}
use omnipair_rs.Constants.{nad, natural_log_of_two_nad, target_ms_per_slot, taylor_terms}
use omnipair_rs.Math.{taylor_sum, raise, exp_magnitude, taylor_exp, decay, compute_ema, slots_to_ms}
use omnipair_rs.Math.Rounding.{le_of_mul, div_bounds, div-lt_of_mul}

abbrev Above : ℕ → ℕ → Type 0
Above low n = (low ≤ n) × (n < u128)

le-taylor_sum :
    (left i reduced scale term sum : ℕ)
    → sum < u128
    → Above sum (taylor_sum left i reduced scale term sum)
unfolding taylor_sum
le-taylor_sum zero i reduced scale term sum h = omega arith
le-taylor_sum (suc left) i reduced scale term sum h =
    let next =
      unwrap_or 0 (and_then (checked_mul u128 term reduced) λ t. checked_div t (i * scale)) in
    let more = unwrap_or (max_word u128) (checked_add u128 sum next) in
    let grows : Above sum more = more_lem sum next h in
    let rest = le-taylor_sum left (i + 1) reduced scale next more grows.1 in omega arith
  where
    more_lem : (s n : ℕ) → s < u128 → Above s (unwrap_or (max_word u128) (checked_add u128 s n))
    more_lem s n p = ground arith

raise_step :
    (sum scale result : ℕ)
    → 0 < scale
    → scale ≤ sum
    → result < u128
    → Above result (
        unwrap_or (max_word u128) (and_then (checked_mul u128 result sum) λ r. checked_div r scale))
raise_step sum scale result pos_s le h =
    let up = le_of_mul result scale (result * sum) pos_s (mul-le-mul_left result le) in
    let low = div_bounds (result * sum) scale pos_s in ground arith

le-raise :
    (n sum scale result : ℕ)
    → 0 < scale
    → scale ≤ sum
    → result < u128
    → Above result (raise n sum scale result)
unfolding raise
le-raise zero sum scale result pos_s le h = omega arith
le-raise (suc n) sum scale result pos_s le h =
    let one = raise_step sum scale result pos_s le h in
    let rest = le-raise n sum scale _ pos_s le one.1 in omega arith

-- e^x is at least one for a magnitude x.
pub le-exp_magnitude :
    (abs_x scale precision : ℕ)
    → 0 < scale
    → scale < u128
    → scale ≤ exp_magnitude abs_x scale precision
unfolding exp_magnitude
le-exp_magnitude abs_x scale precision pos_s small =
    let sum = le-taylor_sum precision 1 (abs_x / 10) scale scale scale small in
    (le-raise 10 _ scale scale pos_s sum.0 small).0

pub decay_zero : decay 0 ≡ ok nad
unfolding decay taylor_exp neg_i64 as_i64 exp_magnitude taylor_sum raise
decay_zero = refl

reciprocal-le : (e : ℕ) → nad ≤ e → (nad * nad / e ≤ nad) × (0 < e)
reciprocal-le e h =
    (omega (arith, div-lt_of_mul (nad + 1) e (nad * nad) (omega arith) (omega arith)), omega arith)

neg-as_i64 : (n : ℕ) → suc n < 2 ^ 63 → neg_i64 (as_i64 (suc n)) ≡ ok (negsuc n)
unfolding neg_i64 as_i64
neg-as_i64 n h = ground arith

neg_negsuc : (n : ℕ) → suc n < 2 ^ 63 → neg_i64 (negsuc n) ≡ ok (pos (suc n))
unfolding neg_i64
neg_negsuc n h = ground arith

taylor_exp_neg :
    (n : ℕ) → suc n < 2 ^ 63 → (a : ℕ) × (taylor_exp (negsuc n) nad taylor_terms ≡ ok a) × (a ≤ nad)
unfolding taylor_exp
taylor_exp_neg n h =
    let e = exp_magnitude (suc n) nad taylor_terms in
    let low : nad ≤ e = le-exp_magnitude (suc n) nad taylor_terms (omega arith) (omega arith) in
    let (small, pos_e) = reciprocal-le e low in
    rw (neg_negsuc n h) (nad * nad / e % u64, ground arith, omega arith)

-- `taylor_exp(-x)` lies between 0 and 1 for every x that fits an `i64`, and does not panic.
pub decay_bounds : (x : ℕ) → x < 2 ^ 63 → (a : ℕ) × (decay x ≡ ok a) × (a ≤ nad)
unfolding decay
decay_bounds zero h = (nad, decay_zero, omega arith)
decay_bounds (suc n) h = rw (neg-as_i64 n h) (taylor_exp_neg n h)

-- A weighted mean lies between its two values.
weigh_low : (p q low k a : ℕ) → low ≤ p → low ≤ q → low * (k + a) ≤ p * k + q * a
weigh_low p q low k a hp hq = omega (arith, mul-le-mul_right k hp, mul-le-mul_right a hq)

weigh_high : (p q high k a : ℕ) → p ≤ high → q ≤ high → p * k + q * a ≤ high * (k + a)
weigh_high p q high k a hp hq = omega (arith, mul-le-mul_right k hp, mul-le-mul_right a hq)

mix_bounds :
    (last_ema input a : ℕ)
    → a ≤ nad
    → let mix = (input * (nad - a) + last_ema * a) / nad in
      (min last_ema input ≤ mix) × (mix ≤ max last_ema input)
mix_bounds last_ema input a h =
    let low =
      weigh_low input last_ema (min last_ema input) (nad - a) a (omega arith) (omega arith) in
    let high =
      weigh_high input last_ema (max last_ema input) (nad - a) a (omega arith) (omega arith) in
    let whole : nad - a + a ≡ nad = omega arith in
    let low' : min last_ema input * nad ≤ input * (nad - a) + last_ema * a = rw whole at low in
    let high' : input * (nad - a) + last_ema * a ≤ max last_ema input * nad = rw whole at high in
    (omega arith, omega arith)

pub slots_to_ms-eq :
    (start slot : ℕ)
    → start ≤ slot
    → (slot - start) * target_ms_per_slot < u64
    → slots_to_ms start slot ≡ some ((slot - start) * target_ms_per_slot)
unfolding slots_to_ms
slots_to_ms-eq start slot order fits = ground arith

module _ (slot last_ema last_update input half_life : ℕ) where
  -- The moving average is computed without a panic, and lies between the last average and the
  -- new input, if these, the elapsed time and its exponent fit their words and the clock has not
  -- gone back.
  pub compute_ema_bounds :
      last_ema < u64
      → input < u64
      → last_update ≤ slot
      → (slot - last_update) * target_ms_per_slot < u64
      → (slot - last_update) * target_ms_per_slot * natural_log_of_two_nad / half_life < 2 ^ 63
      → (r : ℕ) × (compute_ema slot last_ema last_update input half_life ≡ ok r)
        × (min last_ema input ≤ r)
        × (r ≤ max last_ema input)
  unfolding compute_ema
  compute_ema_bounds hl hi order fits exponent =
      let dt = (slot - last_update) * target_ms_per_slot in
      let (a, e, le) = decay_bounds _ exponent in
      let (low, high) = mix_bounds last_ema input a le in
      elim (Bool-cases (ltb 0 dt && ltb 0 half_life)) [
        | inl runs ↦ (
          (input * (nad - a) + last_ema * a) / nad % u64,
          rw (slots_to_ms-eq last_update slot order fits, runs, e) (ground arith),
          omega arith,
          omega arith,
        )
        | inr still ↦ (
          last_ema,
          rw (slots_to_ms-eq last_update slot order fits, still) refl,
          omega arith,
          omega arith,
        )
      ]
