-- ===== src/Position.antt =====
-- programs/omnipair/src/state/user_position.rs: a user's position in a pair, with its debt kept as
-- shares of the pair's debt. The two branches of the source on the debt token are one function on the
-- side of the pair (`Pair.antt`) and the user's shares of it.
pub mod Shares
pub mod Price
pub mod Threshold
use omnipair_rs.Base.{
  ℕ, zero, suc, ◌+◌, ◌-◌, ◌*◌, ◌/◌, ◌^◌, min, Bool, true, false, Option, none, some, ltb, leb, not,
  ◌==◌, ◌&&◌, ◌||◌, if◌then◌else◌, Pubkey,
}
use omnipair_rs.Word.{
  u16, u64, u128, max_word, checked_add, checked_mul, checked_sub, checked_div, try_into,
  saturating_add, saturating_sub, saturating_mul, cast, unwrap_or,
}
use omnipair_rs.Outcome.{
  Result, ok, err, ◌>>=◌, ◌>>◌, require, ok_or, amount_zero, debt_math_overflow,
  debt_share_math_overflow, debt_share_division_overflow, debt_utilization_overflow,
  cash_reserve_underflow,
}
use omnipair_rs.Constants.{nad, bps_denominator, ltv_buffer_bps, debt_share_scale}
use omnipair_rs.Math.{ceil_div}
use omnipair_rs.Pair.{Side, Pair, ema_price_nad}

pub data DebtDecreaseReason : Type 0 where
  repayment : DebtDecreaseReason
  write_off : ℕ → DebtDecreaseReason

pub record UserPosition : Type 0 where
  pub owner : Pubkey
  pub pair : Pubkey
  pub collateral0_liquidation_cf_bps : ℕ
  pub collateral1_liquidation_cf_bps : ℕ
  pub collateral0 : ℕ
  pub collateral1 : ℕ
  pub debt0_shares : ℕ
  pub debt1_shares : ℕ
  pub bump : ℕ

-- `Pubkey::default()`.
abbrev pub default_key : Pubkey
default_key = 0

-- `UserPosition::initialize`.
unfoldable pub initialize : Pubkey → Pubkey → ℕ → UserPosition → UserPosition
initialize user pair_key b u = record u {
  owner = user;
  pair = pair_key;
  bump = b;
  collateral0_liquidation_cf_bps = 0;
  collateral1_liquidation_cf_bps = 0;
}

unfoldable pub is_initialized : UserPosition → Bool
is_initialized u = not (u.owner == default_key) && not (u.pair == default_key)

unfoldable pub set_liquidation_cf : Pubkey → Pair → ℕ → UserPosition → UserPosition
set_liquidation_cf debt_token p cf u =
    if debt_token == p.token1
    then record u { collateral0_liquidation_cf_bps = cf }
    else record u { collateral1_liquidation_cf_bps = cf }

-- `get_liquidation_cf_bps`.
unfoldable pub liquidation_cf_bps : Pubkey → Pair → UserPosition → ℕ
liquidation_cf_bps debt_token p u =
    if debt_token == p.token1
    then u.collateral0_liquidation_cf_bps
    else u.collateral1_liquidation_cf_bps

-- `get_max_cf_bps_for_debt_token`.
unfoldable pub max_cf_bps : Pubkey → Pair → UserPosition → ℕ
unfolding liquidation_cf_bps
max_cf_bps debt_token p u = cast u16 (
    saturating_mul (2 ^ 32) (liquidation_cf_bps debt_token p u) (bps_denominator - ltv_buffer_bps)
    / bps_denominator)

-- The shares that a new debt mints.
unfoldable pub shares_for : Side → ℕ → Result ℕ
shares_for s amount = do
  product ← ok_or (checked_mul u128 amount s.total_debt_shares) debt_share_math_overflow
  ok_or (ceil_div product s.total_debt) debt_share_division_overflow

-- A branch of `increase_debt` before the debt and the cash move: the first loan sets the scale.
unfoldable pub mint_shares : Side → ℕ → ℕ → Result (Side × ℕ)
mint_shares s own amount =
    let first = do
      shares ← ok_or (checked_mul u128 amount debt_share_scale) debt_share_math_overflow
      ok (record s { total_debt_shares = shares }, shares)
    in let later = do
      shares ← shares_for s amount
      ok (
        record s { total_debt_shares = saturating_add u128 s.total_debt_shares shares },
        saturating_add u128 own shares,
      )
      in if s.total_debt_shares == 0 then first else later

-- A branch of `increase_debt`.
unfoldable pub increase_debt_on : Side → ℕ → ℕ → Result (Side × ℕ)
increase_debt_on s own amount = do
  require (ltb 0 amount) amount_zero
  (minted, shares) ← mint_shares s own amount
  cash ← ok_or (checked_sub s.cash_reserve amount) cash_reserve_underflow
  ok (
    record minted { total_debt = saturating_add u64 s.total_debt amount; cash_reserve = cash },
    shares,
  )

-- The shares that a decrease burns, before they are held to the user's own.
unfoldable pub shares_to_burn : DebtDecreaseReason → Side → ℕ → Result ℕ
shares_to_burn (write_off exact) s amount = ok exact
shares_to_burn repayment s amount = do
  product ← ok_or (checked_mul u128 amount s.total_debt_shares) debt_share_math_overflow
  ok_or (checked_div product s.total_debt) debt_share_division_overflow

-- What is repaid is cash again; what is written off leaves the virtual reserve.
unfoldable pub settle : DebtDecreaseReason → ℕ → Side → Side
settle repayment amount s = record s { cash_reserve = saturating_add u64 s.cash_reserve amount }
settle (write_off exact) amount s = record s {
  reserve = unwrap_or 1 (checked_sub s.reserve amount);
}

-- The debt is reset when no shares are left.
unfoldable pub sync_debt : Side → Side
sync_debt s =
    if s.total_debt_shares == 0 && ltb 0 s.total_debt then record s { total_debt = 0 } else s

-- A branch of `decrease_debt`.
unfoldable pub decrease_debt_on : Side → ℕ → ℕ → DebtDecreaseReason → Result (Side × ℕ)
decrease_debt_on s own amount reason = do
  burnt ← shares_to_burn reason s amount
  let shares = min burnt own
  let smaller = record s {
    total_debt_shares = saturating_sub s.total_debt_shares shares;
    total_debt = saturating_sub s.total_debt amount;
  }
  ok (sync_debt (settle reason amount smaller), saturating_sub own shares)

-- `increase_debt`: the branch on the debt token.
unfoldable pub increase_debt : Pubkey → ℕ → UserPosition → Pair → Result (UserPosition × Pair)
increase_debt debt_token amount u p =
    let on0 = do
      (s, shares) ← increase_debt_on p.side0 u.debt0_shares amount
      ok (record u { debt0_shares = shares }, record p { side0 = s })
    in let on1 = do
      (s, shares) ← increase_debt_on p.side1 u.debt1_shares amount
      ok (record u { debt1_shares = shares }, record p { side1 = s })
      in if debt_token == p.token0 then on0 else on1

-- `decrease_debt`: the branch on the debt token.
unfoldable pub decrease_debt :
    Pubkey → ℕ → DebtDecreaseReason → UserPosition → Pair → Result (UserPosition × Pair)
decrease_debt debt_token amount reason u p =
    let on0 = do
      (s, shares) ← decrease_debt_on p.side0 u.debt0_shares amount reason
      ok (record u { debt0_shares = shares }, record p { side0 = s })
    in let on1 = do
      (s, shares) ← decrease_debt_on p.side1 u.debt1_shares amount reason
      ok (record u { debt1_shares = shares }, record p { side1 = s })
      in if debt_token == p.token0 then on0 else on1

-- `calculate_debt0` and `calculate_debt1`: what a number of shares owes.
unfoldable pub calculate_debt : ℕ → ℕ → ℕ → Result ℕ
calculate_debt own total_debt total_shares =
    let owed = do
      product ← ok_or (checked_mul u128 own total_debt) debt_math_overflow
      debt ← ok_or (ceil_div product total_shares) debt_share_division_overflow
      ok_or (try_into u64 debt) debt_share_division_overflow
    in if total_shares == 0 then ok 0 else owed

-- What the position owes of a token.
unfoldable pub debt_of : Pubkey → UserPosition → Pair → Result ℕ
debt_of debt_token u p =
    if debt_token == p.token0
    then calculate_debt u.debt0_shares p.side0.total_debt p.side0.total_debt_shares
    else calculate_debt u.debt1_shares p.side1.total_debt p.side1.total_debt_shares

-- `get_remaining_borrow_limit`, from the value of the collateral at the symmetric price.
unfoldable pub remaining_borrow_limit : ℕ → Pubkey → ℕ → UserPosition → Pair → Result ℕ
remaining_borrow_limit slot debt_token cf_bps u p = do
  let is_token0 = debt_token == p.token0
  price ←
      (if is_token0
        then ema_price_nad slot p p.side1 p.side0
        else ema_price_nad slot p p.side0 p.side1)
  product ←
      ok_or (checked_mul u128 (if is_token0 then u.collateral1 else u.collateral0) price)
        debt_math_overflow
  scaled ←
      ok_or
        (checked_mul u128 (product / nad)
          (saturating_mul u128 cf_bps (bps_denominator - ltv_buffer_bps) / bps_denominator))
        debt_math_overflow
  ok_or (try_into u64 (scaled / bps_denominator)) debt_math_overflow

-- `get_debt_utilization_bps`.
unfoldable pub debt_utilization_bps : ℕ → Pubkey → UserPosition → Pair → Result ℕ
debt_utilization_bps slot debt_token u p = do
  debt ← debt_of debt_token u p
  let used = do
    limit ← remaining_borrow_limit slot debt_token (max_cf_bps debt_token p u) u p
    if limit == 0
        then ok (max_word u64)
        else ok_or (checked_div (saturating_mul u64 debt bps_denominator) limit)
            debt_utilization_overflow
  if debt == 0 then ok 0 else used
