-- ===== src/Math/Normalize.antt =====
-- programs/omnipair/src/utils/math.rs: the normalisation of two values to nine decimals.
use omnipair_rs.Base.{ℕ, ◌-◌, ◌^◌, Option, none, some, leb, ◌==◌, if◌then◌else◌}
use omnipair_rs.Word.{u64, checked_mul, checked_div, try_into, and_then}
use omnipair_rs.Outcome.{Result, ok, ◌>>=◌, unwrap}
use omnipair_rs.Constants.{nad_decimals}

pub record NormalizedTwoValues : Type 0 where
  pub scaled_a : ℕ
  pub scaled_b : ℕ

-- `or_else`.
abbrev or_else : Option ℕ → Option ℕ → Option ℕ
or_else none other = other
or_else (some a) other = some a

-- `scale`, of a value of a token with so many decimals.
unfoldable pub scale : ℕ → ℕ → Option ℕ
scale value decimals =
    let up =
      and_then (try_into u64 (10 ^ (nad_decimals - decimals)))
        (λ factor. or_else (checked_mul u64 value factor) (checked_div value factor)) in
    let down =
      and_then (try_into u64 (10 ^ (decimals - nad_decimals)))
        (λ factor. checked_div value factor) in
    if decimals == nad_decimals then some value else if leb decimals nad_decimals then up else down

unfoldable pub normalize_two_values_to_scale : ℕ → ℕ → ℕ → ℕ → Result NormalizedTwoValues
normalize_two_values_to_scale a a_decimals b b_decimals = do
  scaled_a ← unwrap (scale a a_decimals)
  scaled_b ← unwrap (scale b b_decimals)
  ok (record { scaled_a = scaled_a; scaled_b = scaled_b })

unfoldable pub normalize_two_values_to_nad : ℕ → ℕ → ℕ → Result NormalizedTwoValues
normalize_two_values_to_nad a a_decimals b =
    normalize_two_values_to_scale a a_decimals b nad_decimals
