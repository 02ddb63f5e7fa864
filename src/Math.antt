-- ===== src/Math.antt =====
-- programs/omnipair/src/utils/math.rs: slots, ceiling division, the Newton square root, the Taylor
-- exponential and the exponential moving average.
pub mod Rounding
pub mod Sqrt
pub mod Normalize
pub mod Exp
use omnipair_rs.Base.{
  ℕ, zero, suc, ◌+◌, ◌-◌, ◌*◌, ◌/◌, ◌%◌, ◌^◌, Bool, true, false, Option, none, some, ltb, ◌==◌,
  ◌&&◌, if◌then◌else◌,
}
use omnipair_rs.Word.{
  u64, u128, max_word, checked_add, checked_mul, checked_sub, checked_div, cast, unwrap_or,
  and_then,
}
use omnipair_rs.Outcome.{Result, ok, err, panics, ◌>>=◌, unwrap}
use omnipair_rs.Int.{ℤ, pos, negsuc, as_i64, neg_i64}
use omnipair_rs.Constants.{nad, target_ms_per_slot, natural_log_of_two_nad, taylor_terms}

-- `slots_to_ms`.
unfoldable pub slots_to_ms : ℕ → ℕ → Option ℕ
slots_to_ms start_slot end_slot =
    and_then (checked_sub end_slot start_slot) λ n. checked_mul u64 n target_ms_per_slot

-- `ceil_div` on `u128`: `none` on a zero divisor and where `a + b - 1` overflows.
unfoldable pub ceil_div : ℕ → ℕ → Option ℕ
ceil_div a b = if b == 0 then none else and_then (checked_add u128 a (b - 1)) λ n. checked_div n b

-- The loop of `SqrtU128::sqrt`. It returns the last `z`; `none` is an overflow, or too little fuel.
unfoldable pub sqrt_loop : ℕ → ℕ → ℕ → ℕ → Option ℕ
sqrt_loop zero y z x = none
sqrt_loop (suc fuel) y z x = elim (ltb x z) [
  | true ↦ elim (checked_div y x) [
    | none ↦ none
    | some q ↦ elim (checked_add u128 q x) [ none ↦ none | some s ↦ sqrt_loop fuel y x (s / 2) ]
  ]
  | false ↦ some z
]

-- `SqrtU128::sqrt`. The fuel `y + 1` is enough, since `z` falls in every round.
unfoldable pub sqrt : ℕ → Option ℕ
sqrt y =
    let start = and_then (checked_add u128 (y / 2) 1) (sqrt_loop (suc y) y y) in
    if ltb 3 y then start else if y == 0 then some 0 else some 1

-- The terms of the series, `i` running to `precision`; `left` rounds remain.
unfoldable pub taylor_sum : ℕ → ℕ → ℕ → ℕ → ℕ → ℕ → ℕ
taylor_sum zero i reduced_x scale term sum = sum
taylor_sum (suc left) i reduced_x scale term sum =
    let next =
      unwrap_or 0 (and_then (checked_mul u128 term reduced_x) λ t. checked_div t (i * scale)) in
    taylor_sum left (i + 1) reduced_x scale next
      (unwrap_or (max_word u128) (checked_add u128 sum next))

-- The `n` products that undo the range reduction.
unfoldable pub raise : ℕ → ℕ → ℕ → ℕ → ℕ
raise zero sum scale result = result
raise (suc n) sum scale result =
    raise n sum scale
      (unwrap_or (max_word u128) (and_then (checked_mul u128 result sum) λ r. checked_div r scale))

-- e^(x / scale) of a magnitude, before the reciprocal of a negative exponent is taken.
unfoldable pub exp_magnitude : ℕ → ℕ → ℕ → ℕ
exp_magnitude abs_x scale precision =
    raise 10 (taylor_sum precision 1 (abs_x / 10) scale scale scale) scale scale

-- `taylor_exp`: e^(x / scale), scaled. Negating `i64::MIN` and a zero result under the reciprocal
-- panic.
unfoldable pub taylor_exp : ℤ → ℕ → ℕ → Result ℕ
taylor_exp (pos n) scale precision = ok (cast u64 (exp_magnitude n scale precision))
taylor_exp (negsuc n) scale precision = do
  pos_x ← neg_i64 (negsuc n)
  result ← unwrap (checked_div (scale * scale) (exp_magnitude (suc n) scale precision))
  ok (cast u64 result)

-- The share of the last value that is kept after `dt` milliseconds: `taylor_exp(-(x as i64), NAD, ..)`.
unfoldable pub decay : ℕ → Result ℕ
decay x = do neg_x ← neg_i64 (as_i64 x); taylor_exp neg_x nad taylor_terms

-- `compute_ema` at the current slot `slot`.
unfoldable pub compute_ema : ℕ → ℕ → ℕ → ℕ → ℕ → Result ℕ
compute_ema slot last_ema last_update input half_life = do
  dt ← unwrap (slots_to_ms last_update slot)
  let fresh = do
    alpha ← decay (dt * natural_log_of_two_nad / half_life)
    keep ← unwrap (checked_sub nad alpha)
    ok (cast u64 ((input * keep + last_ema * alpha) / nad))
  if ltb 0 dt && ltb 0 half_life then fresh else ok last_ema
