-- ===== src/Int.antt =====
-- Signed words: `i64` and `i128` values as integers, with the casts and the truncating division that
-- the source uses on them.
use omnipair_rs.Base.{ℕ, suc, ◌+◌, ◌-◌, ◌*◌, ◌/◌, ◌%◌, ◌^◌, ltb, leb, ◌==◌, if◌then◌else◌}
use omnipair_rs.Word.{u64}
use omnipair_rs.Outcome.{Result, ok, err, panics}

-- `negsuc n` is -(n + 1).
pub data ℤ : Type 0 where
  pos : ℕ → ℤ
  negsuc : ℕ → ℤ

abbrev pub pos_part : ℤ → ℕ
pos_part (pos n) = n
pos_part (negsuc n) = 0

abbrev pub neg_part : ℤ → ℕ
neg_part (pos n) = 0
neg_part (negsuc n) = suc n

-- a - b, as an integer.
abbrev pub sub_ℕ : ℕ → ℕ → ℤ
sub_ℕ a b = if leb b a then pos (a - b) else negsuc (b - a - 1)

infixl 65 ◌+ℤ◌ ◌-ℤ◌
infixl 70 ◌*ℤ◌ ◌/ℤ◌
unfoldable pub ◌+ℤ◌ : ℤ → ℤ → ℤ
a +ℤ b = sub_ℕ (pos_part a + pos_part b) (neg_part a + neg_part b)

unfoldable pub ◌-ℤ◌ : ℤ → ℤ → ℤ
a -ℤ b = sub_ℕ (pos_part a + neg_part b) (neg_part a + pos_part b)

unfoldable pub ◌*ℤ◌ : ℤ → ℤ → ℤ
a *ℤ b =
    sub_ℕ (pos_part a * pos_part b + neg_part a * neg_part b)
      (pos_part a * neg_part b + neg_part a * pos_part b)

-- Division by a positive number, which truncates towards zero.
unfoldable pub ◌/ℤ◌ : ℤ → ℕ → ℤ
pos n /ℤ d = pos (n / d)
negsuc n /ℤ d = sub_ℕ 0 (suc n / d)

-- `x as i64` of an unsigned word: the low 64 bits, read in two's complement.
unfoldable pub as_i64 : ℕ → ℤ
as_i64 x = if ltb (x % u64) (2 ^ 63) then pos (x % u64) else negsuc (u64 - x % u64 - 1)

-- `-x` on `i64`, which overflows at the least value.
unfoldable pub neg_i64 : ℤ → Result ℤ
neg_i64 (pos n) = ok (sub_ℕ 0 n)
neg_i64 (negsuc n) = if n == 2 ^ 63 - 1 then err panics else ok (pos (suc n))

-- `-(a as i64)` for a `u64`: the cast makes 2^63 the least `i64`, whose negation overflows.
abbrev pub neg_as_i64 : ℕ → Result ℤ
neg_as_i64 a =
    if a == 2 ^ 63
    then err panics
    else (if ltb a (2 ^ 63) then ok (sub_ℕ 0 a) else ok (pos (u64 - a)))
