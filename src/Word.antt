-- ===== src/Word.antt =====
-- Rust's arithmetic on unsigned words, a word of type `u64` or `u128` being a number below the
-- modulus that is given first. Checked operations return `none` where the result does not fit.
use omnipair_rs.Base.{
  ℕ, ◌+◌, ◌-◌, ◌*◌, ◌/◌, ◌%◌, ◌^◌, min, Option, none, some, ltb, leb, ◌==◌, if◌then◌else◌,
}

abbrev pub u16 : ℕ
u16 = 2 ^ 16

abbrev pub u64 : ℕ
u64 = 2 ^ 64

abbrev pub u128 : ℕ
u128 = 2 ^ 128

-- The largest word.
abbrev pub max_word : ℕ → ℕ
max_word w = w - 1

abbrev pub checked_add : ℕ → ℕ → ℕ → Option ℕ
checked_add w a b = if ltb (a + b) w then some (a + b) else none

abbrev pub checked_mul : ℕ → ℕ → ℕ → Option ℕ
checked_mul w a b = if ltb (a * b) w then some (a * b) else none

abbrev pub checked_sub : ℕ → ℕ → Option ℕ
checked_sub a b = if leb b a then some (a - b) else none

abbrev pub checked_div : ℕ → ℕ → Option ℕ
checked_div a b = if b == 0 then none else some (a / b)

-- `w::try_from(a)`.
abbrev pub try_into : ℕ → ℕ → Option ℕ
try_into w a = if ltb a w then some a else none

-- `-` of the source is truncated only in `saturating_sub`, which is `-` on ℕ.
abbrev pub saturating_sub : ℕ → ℕ → ℕ
saturating_sub a b = a - b

abbrev pub saturating_add : ℕ → ℕ → ℕ → ℕ
saturating_add w a b = min (a + b) (max_word w)

abbrev pub saturating_mul : ℕ → ℕ → ℕ → ℕ
saturating_mul w a b = min (a * b) (max_word w)

-- `a as w`, which drops the high bits.
abbrev pub cast : ℕ → ℕ → ℕ
cast w a = a % w

abbrev pub unwrap_or : ℕ → Option ℕ → ℕ
unwrap_or d none = d
unwrap_or d (some a) = a

abbrev pub and_then : Option ℕ → (ℕ → Option ℕ) → Option ℕ
and_then none f = none
and_then (some a) f = f a
