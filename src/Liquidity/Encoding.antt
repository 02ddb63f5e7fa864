-- ===== src/Liquidity/Encoding.antt =====
-- Proofs: what the hashed bytes of the parameters determine (instructions/liquidity/initialize.rs).
use native.Mathlib.Nat.{pow-suc}
use omnipair_rs.Base.{
  ℕ, zero, suc, ◌/◌, ◌%◌, ◌^◌, ◌<◌, ◌≡◌, refl, ap, Option, none, some, List, [], ◌++◌, arith,
}
use omnipair_rs.Word.{u16, u64, unwrap_or}
use omnipair_rs.Outcome.{ok}
use omnipair_rs.Constants
use omnipair_rs.Constants.{default_rate_half_life_ms, default_max_rate_bps}
use omnipair_rs.RateModel.{validate_util_bounds, validate_rate_params}
use omnipair_rs.Liquidity.Bootstrap.{
  InitializeArgs, to_le_bytes, hash_data, validate_fixed_cf, validate_rate,
}

-- Two numbers of `n` bytes with equal bytes are equal, and so is what follows the bytes.
bytes_split :
    (n a b : ℕ) (xs ys : List ℕ)
    → a < 256 ^ n
    → b < 256 ^ n
    → to_le_bytes n a ++ xs ≡ to_le_bytes n b ++ ys
    → (a ≡ b) × (xs ≡ ys)
unfolding to_le_bytes
bytes_split zero a b xs ys fa fb e = (omega arith, e)
bytes_split (suc n) a b xs ys fa fb e =
    let whole = pow-suc 256 n in
    let low : a % 256 ≡ b % 256 = ground arith in
    let tail : to_le_bytes n (a / 256) ++ xs ≡ to_le_bytes n (b / 256) ++ ys = ground arith in
    let (high, rest) = bytes_split n (a / 256) (b / 256) xs ys (omega arith) (omega arith) tail in
    (omega arith, rest)

-- The fields of the arguments are words.
abbrev pub IsWords : InitializeArgs → Type 0
IsWords args =
    (args.swap_fee_bps < u16)
    × (args.half_life < u64)
    × (unwrap_or 0 args.fixed_cf_bps < u16)
    × (unwrap_or 0 args.target_util_start_bps < u64)
    × (unwrap_or 0 args.target_util_end_bps < u64)
    × (unwrap_or 0 args.rate_half_life_ms < u64)
    × (unwrap_or 0 args.min_rate_bps < u64)
    × (unwrap_or 0 args.max_rate_bps < u64)

fixed_cf_lem :
    (o o' : Option ℕ)
    → validate_fixed_cf o ≡ ok tt
    → validate_fixed_cf o' ≡ ok tt
    → unwrap_or 0 o ≡ unwrap_or 0 o'
    → o ≡ o'
unfolding validate_fixed_cf
fixed_cf_lem none none h h' e = refl
fixed_cf_lem none (some b) h h' e = ground arith
fixed_cf_lem (some a) none h h' e = ground arith
fixed_cf_lem (some a) (some b) h h' e = ap some e

-- Two optional words that are 0 only if they are not given.
given_lem :
    (o o' : Option ℕ) (d : ℕ)
    → 0 < unwrap_or d o
    → 0 < unwrap_or d o'
    → unwrap_or 0 o ≡ unwrap_or 0 o'
    → o ≡ o'
given_lem none none d h h' e = refl
given_lem none (some b) d h h' e = ground arith
given_lem (some a) none d h h' e = ground arith
given_lem (some a) (some b) d h h' e = ap some e

-- The bounds that the validation gives.
rate_lem :
    (args : InitializeArgs)
    → validate_rate args ≡ ok tt
    → (0 < unwrap_or Constants.target_util_start_bps args.target_util_start_bps)
      × (0 < unwrap_or Constants.target_util_end_bps args.target_util_end_bps)
      × (0 < unwrap_or default_rate_half_life_ms args.rate_half_life_ms)
unfolding validate_rate validate_util_bounds validate_rate_params
rate_lem args h = (ground arith, ground arith, ground arith)

-- What `hash_data` writes, field by field.
fields_lem :
    (args other : InitializeArgs)
    → IsWords args
    → IsWords other
    → hash_data args ≡ hash_data other
    → (args.swap_fee_bps ≡ other.swap_fee_bps)
      × (args.half_life ≡ other.half_life)
      × (unwrap_or 0 args.fixed_cf_bps ≡ unwrap_or 0 other.fixed_cf_bps)
      × (unwrap_or 0 args.target_util_start_bps ≡ unwrap_or 0 other.target_util_start_bps)
      × (unwrap_or 0 args.target_util_end_bps ≡ unwrap_or 0 other.target_util_end_bps)
      × (unwrap_or 0 args.rate_half_life_ms ≡ unwrap_or 0 other.rate_half_life_ms)
      × (unwrap_or 0 args.min_rate_bps ≡ unwrap_or 0 other.min_rate_bps)
      × (unwrap_or 0 args.max_rate_bps ≡ unwrap_or 0 other.max_rate_bps)
unfolding hash_data
fields_lem args other (f1, f2, f3, f4, f5, f6, f7, f8) (g1, g2, g3, g4, g5, g6, g7, g8) e =
    let (_, r1) =
      bytes_split 1 Constants.version Constants.version _ _ (omega arith) (omega arith) e in
    let (e1, r2) =
      bytes_split 2 args.swap_fee_bps other.swap_fee_bps _ _ (omega arith) (omega arith) r1 in
    let (e2, r3) =
      bytes_split 8 args.half_life other.half_life _ _ (omega arith) (omega arith) r2 in
    let (e3, r4) =
      bytes_split 2 (unwrap_or 0 args.fixed_cf_bps) (unwrap_or 0 other.fixed_cf_bps) _ _
        (omega arith) (omega arith) r3 in
    let (e4, r5) =
      bytes_split 8 (unwrap_or 0 args.target_util_start_bps)
        (unwrap_or 0 other.target_util_start_bps) _ _ (omega arith) (omega arith) r4 in
    let (e5, r6) =
      bytes_split 8 (unwrap_or 0 args.target_util_end_bps) (unwrap_or 0 other.target_util_end_bps) _
        _ (omega arith) (omega arith) r5 in
    let (e6, r7) =
      bytes_split 8 (unwrap_or 0 args.rate_half_life_ms) (unwrap_or 0 other.rate_half_life_ms) _ _
        (omega arith) (omega arith) r6 in
    let (e7, r8) =
      bytes_split 8 (unwrap_or 0 args.min_rate_bps) (unwrap_or 0 other.min_rate_bps) _ _
        (omega arith) (omega arith) r7 in
    let ends : to_le_bytes 8 (unwrap_or 0 args.max_rate_bps) ++ []
        ≡ to_le_bytes 8 (unwrap_or 0 other.max_rate_bps) ++ [] =
      ap (λ bytes. bytes ++ []) r8 in
    let (e8, _) =
      bytes_split 8 (unwrap_or 0 args.max_rate_bps) (unwrap_or 0 other.max_rate_bps) [] []
        (omega arith) (omega arith) ends in
    (e1, e2, e3, e4, e5, e6, e7, e8)

-- The hashed bytes determine the parameters of a pair that they bind: for arguments of machine words
-- whose fixed factor and rate parameters are valid, equal bytes mean the same swap fee, half-life,
-- fixed collateral factor, target band and half-life of the rate, whether these are given or left to
-- their defaults, and the same floor and ceiling of the rate, a floor that is not given counting as 0.
pub hash_data-injective :
    (args other : InitializeArgs)
    → IsWords args
    → IsWords other
    → validate_fixed_cf args.fixed_cf_bps ≡ ok tt
    → validate_fixed_cf other.fixed_cf_bps ≡ ok tt
    → validate_rate args ≡ ok tt
    → validate_rate other ≡ ok tt
    → hash_data args ≡ hash_data other
    → (args.swap_fee_bps ≡ other.swap_fee_bps)
      × (args.half_life ≡ other.half_life)
      × (args.fixed_cf_bps ≡ other.fixed_cf_bps)
      × (args.target_util_start_bps ≡ other.target_util_start_bps)
      × (args.target_util_end_bps ≡ other.target_util_end_bps)
      × (args.rate_half_life_ms ≡ other.rate_half_life_ms)
      × (unwrap_or 0 args.min_rate_bps ≡ unwrap_or 0 other.min_rate_bps)
      × (unwrap_or default_max_rate_bps args.max_rate_bps
          ≡ unwrap_or default_max_rate_bps other.max_rate_bps)
hash_data-injective args other words words' cf cf' rates rates' e =
    let (e1, e2, e3, e4, e5, e6, e7, e8) = fields_lem args other words words' e in
    let (p1, p2, p3) = rate_lem args rates in
    let (q1, q2, q3) = rate_lem other rates' in
    (
      e1,
      e2,
      fixed_cf_lem _ _ cf cf' e3,
      given_lem _ _ Constants.target_util_start_bps p1 q1 e4,
      given_lem _ _ Constants.target_util_end_bps p2 q2 e5,
      given_lem _ _ default_rate_half_life_ms p3 q3 e6,
      e7,
      e8,
    )
