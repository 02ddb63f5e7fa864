-- ===== src/Views.antt =====
-- programs/omnipair/src/instructions/emit_value.rs: the views. A view updates a copy of the pair and logs
-- three values; `none` is a view that logs nothing. How the values are printed is left out.
pub mod Threshold
pub mod Quote
use omnipair_rs.Base.{ℕ, ◌+◌, ◌*◌, ◌/◌, Option, none, some, leb, ◌==◌, ◌||◌, if◌then◌else◌, Pubkey}
use omnipair_rs.Word.{u64, u128, max_word, checked_sub, saturating_mul, cast}
use omnipair_rs.Outcome.{
  Result, ok, err, fails, panics, external, ◌>>=◌, ok_or, argument_missing, fee_math_overflow,
}
use omnipair_rs.Constants.{bps_denominator}
use omnipair_rs.Curve.{virtual_reserves, calculate_amount_out}
use omnipair_rs.RateModel.{RateModel}
use omnipair_rs.Futarchy.{FutarchyAuthority}
use omnipair_rs.Pair
use omnipair_rs.Pair.{
  Side, Pair, update, get_token_y, spot_price_nad, ema_price_nad, directional_ema_price_nad,
  max_debt_and_cf_bps,
}
use omnipair_rs.Position.{UserPosition, calculate_debt, liquidation_cf_bps, debt_utilization_bps}
use omnipair_rs.Position.Price.{price_at, liquidation_price}
use omnipair_rs.Swap.{fee_of}
use omnipair_rs.Lending.{collateral_on}

pub data OptionalUint : Type 0 where
  from_u64 from_u128 from_u16 : ℕ → OptionalUint
  from_optional_u64 from_optional_u128 from_optional_u16 : Option ℕ → OptionalUint

pub record EmitValueArgs : Type 0 where
  pub amount : Option ℕ
  pub token_mint : Option Pubkey
  pub debt_amount : Option ℕ

pub data PairViewKind : Type 0 where
  ema_price0_nad ema_price1_nad spot_price0_nad spot_price1_nad product_k rates : PairViewKind
  borrow_limit_and_cf_bps reserves cash_reserves swap_quote : PairViewKind
  simulate_liquidation_price : PairViewKind

pub data UserPositionViewKind : Type 0 where
  user_dynamic_borrow_limit user_dynamic_collateral_factor_bps : UserPositionViewKind
  user_liquidation_cf_bps user_debt_utilization_bps user_liquidation_price : UserPositionViewKind
  user_debt_with_interest user_is_liquidatable : UserPositionViewKind
  user_collateral_value_with_impact user_liquidation_borrow_limit : UserPositionViewKind

-- `unwrap` of a result, and `unwrap_or`, which keeps a panic.
abbrev pub expect {ℓ} : {A : Type ℓ} → Result A → Result A
expect (ok a) = ok a
expect (err (fails code)) = err panics
expect (err panics) = err panics
expect (err external) = err panics

abbrev pub recover {ℓ} : {A : Type ℓ} → A → Result A → Result A
recover d (ok a) = ok a
recover d (err (fails code)) = ok d
recover d (err panics) = err panics
recover d (err external) = ok d

abbrev pub View : Type 0
View = OptionalUint × OptionalUint × OptionalUint

abbrev empty : OptionalUint
empty = from_optional_u64 none

abbrev one_u64 : ℕ → Option View
one_u64 a = some (from_u64 a, empty, empty)

abbrev two_u64 : ℕ → ℕ → Option View
two_u64 a b = some (from_u64 a, from_u64 b, empty)

-- `SwapQuote`: the output of a swap, and its fee.
unfoldable pub quote : ℕ → Side → Side → ℕ → Result (ℕ × ℕ)
quote swap_fee_bps i o amount_in = do
  swap_fee ← fee_of amount_in swap_fee_bps
  after_fee ← ok_or (checked_sub amount_in swap_fee) fee_math_overflow
  out ← calculate_amount_out i.reserve o.reserve after_fee
  ok (out, swap_fee)

-- `SimulateLiquidationPrice`: the price at which a new position would be liquidated.
unfoldable pub simulate : ℕ → ℕ → Pubkey → ℕ → Pair → Result (Option View)
simulate slot collateral token debt p =
    let simulated = do
      (_, _, cf_bps) ← max_debt_and_cf_bps slot p token collateral
      let priced = do
        price ←
            (if token == p.token0
              then price_at debt collateral cf_bps p.side0.token_decimals p.side1.token_decimals
              else price_at debt collateral cf_bps p.side1.token_decimals p.side0.token_decimals)
        ok (some (from_u64 price, from_u16 cf_bps, empty))
      if collateral == 0 || cf_bps == 0 then ok (one_u64 (max_word u64)) else priced
    in if debt == 0 then ok none else simulated

-- The branches of `ViewPairData::handle_view_data`, on the updated pair.
unfoldable pub pair_view :
    ℕ → RateModel → PairViewKind → EmitValueArgs → Pair → Result (Option View)
pair_view slot m ema_price0_nad args p = do
  price ← ema_price_nad slot p p.side0 p.side1
  ok (one_u64 price)
pair_view slot m ema_price1_nad args p = do
  price ← ema_price_nad slot p p.side1 p.side0
  ok (one_u64 price)
pair_view slot m spot_price0_nad args p = ok (one_u64 (spot_price_nad p.side0 p.side1))
pair_view slot m spot_price1_nad args p = ok (one_u64 (spot_price_nad p.side1 p.side0))
pair_view slot m product_k args p = ok (some (from_u128 (Pair.k p), empty, empty))
pair_view slot m rates args p = do
  (rate0, rate1) ← expect (Pair.get_rates slot m p)
  ok (two_u64 rate0 rate1)
pair_view slot m borrow_limit_and_cf_bps args p = do
  collateral ← ok_or args.amount argument_missing
  token ← ok_or args.token_mint argument_missing
  (limit, max_cf, liquidation_cf) ← expect (max_debt_and_cf_bps slot p token collateral)
  ok (some (from_u64 limit, from_u16 max_cf, from_u16 liquidation_cf))
pair_view slot m reserves args p = ok (two_u64 p.side0.reserve p.side1.reserve)
pair_view slot m cash_reserves args p = ok (two_u64 p.side0.cash_reserve p.side1.cash_reserve)
pair_view slot m swap_quote args p = do
  amount_in ← ok_or args.amount argument_missing
  token_in ← ok_or args.token_mint argument_missing
  (out, fee) ←
      (if token_in == p.token0
        then quote p.swap_fee_bps p.side0 p.side1 amount_in
        else quote p.swap_fee_bps p.side1 p.side0 amount_in)
  ok (two_u64 out fee)
pair_view slot m simulate_liquidation_price args p = do
  collateral ← ok_or args.amount argument_missing
  token ← ok_or args.token_mint argument_missing
  debt ← ok_or args.debt_amount argument_missing
  simulate slot collateral token debt p

-- The limits on what the user has as collateral for a debt token.
unfoldable pub own_limits : ℕ → Pubkey → UserPosition → Pair → Result (ℕ × ℕ × ℕ)
own_limits slot debt_token u p =
    let collateral_token = get_token_y p debt_token in
    expect
      (max_debt_and_cf_bps slot p collateral_token (collateral_on (collateral_token == p.token0) u))

-- The value of the collateral on side `c` in the token of side `d`, at two prices; where the virtual
-- reserves fail, at the reserves, and where the quote fails, nothing.
unfoldable pub value_or_nothing : ℕ → ℕ → Side → Side → ℕ → Result ℕ
value_or_nothing ema directional c d collateral = do
  (x, y) ← recover (c.reserve, d.reserve) (virtual_reserves c.reserve d.reserve ema directional)
  recover 0 (calculate_amount_out x y collateral)

-- `UserIsLiquidatable` for collateral on side `c` and debt on side `d`.
unfoldable pub is_liquidatable : ℕ → Pair → Side → Side → ℕ → ℕ → ℕ → Result ℕ
is_liquidatable slot p c d collateral own cf_bps = do
  debt ← recover 0 (calculate_debt own d.total_debt d.total_debt_shares)
  let tested = do
    ema ← ema_price_nad slot p c d
    directional ← directional_ema_price_nad slot p c d
    value ← value_or_nothing ema directional c d collateral
    ok (if leb (saturating_mul u128 value cf_bps / bps_denominator) debt then 1 else 0)
  if debt == 0 || collateral == 0 then ok 0 else tested

-- `UserCollateralValueWithImpact`.
unfoldable pub collateral_value : ℕ → Pair → Side → Side → ℕ → Result ℕ
collateral_value slot p c d collateral =
    let valued = do ema ← ema_price_nad slot p c d; value_or_nothing ema ema c d collateral
    in if collateral == 0 then ok 0 else valued

-- `UserLiquidationBorrowLimit`: the position is liquidatable when its debt is at least this.
unfoldable pub liquidation_limit : ℕ → Pair → Side → Side → ℕ → ℕ → Result ℕ
liquidation_limit slot p c d collateral cf_bps =
    let limited = do
      ema ← ema_price_nad slot p c d
      value ← value_or_nothing ema ema c d collateral
      ok (cast u64 (saturating_mul u128 value cf_bps / bps_denominator))
    in if collateral == 0 || cf_bps == 0 then ok 0 else limited

-- The branches of `ViewUserPositionData::handle_view_data`, on the updated pair.
unfoldable pub user_view : ℕ → UserPositionViewKind → UserPosition → Pair → Result (Option View)
user_view slot user_dynamic_borrow_limit u p = do
  (limit0, _, _) ← own_limits slot p.token0 u p
  (limit1, _, _) ← own_limits slot p.token1 u p
  ok (two_u64 limit0 limit1)
user_view slot user_dynamic_collateral_factor_bps u p = do
  (_, cf0, _) ← own_limits slot p.token0 u p
  (_, cf1, _) ← own_limits slot p.token1 u p
  ok (some (from_u16 cf0, from_u16 cf1, empty))
user_view slot user_liquidation_cf_bps u p = ok (
    some (
      from_u16 (liquidation_cf_bps p.token0 p u),
      from_u16 (liquidation_cf_bps p.token1 p u),
      empty,
    ))
user_view slot user_debt_utilization_bps u p = do
  used0 ← expect (debt_utilization_bps slot p.token0 u p)
  used1 ← expect (debt_utilization_bps slot p.token1 u p)
  ok (two_u64 used0 used1)
user_view slot user_liquidation_price u p = do
  price0 ← expect (liquidation_price p.token0 u p)
  price1 ← expect (liquidation_price p.token1 u p)
  ok (two_u64 price0 price1)
user_view slot user_debt_with_interest u p = do
  debt0 ← expect (calculate_debt u.debt0_shares p.side0.total_debt p.side0.total_debt_shares)
  debt1 ← expect (calculate_debt u.debt1_shares p.side1.total_debt p.side1.total_debt_shares)
  ok (two_u64 debt0 debt1)
user_view slot user_is_liquidatable u p = do
  flag0 ←
      is_liquidatable slot p p.side0 p.side1 u.collateral0 u.debt1_shares
        (liquidation_cf_bps p.token1 p u)
  flag1 ←
      is_liquidatable slot p p.side1 p.side0 u.collateral1 u.debt0_shares
        (liquidation_cf_bps p.token0 p u)
  ok (two_u64 flag0 flag1)
user_view slot user_collateral_value_with_impact u p = do
  value0 ← collateral_value slot p p.side0 p.side1 u.collateral0
  value1 ← collateral_value slot p p.side1 p.side0 u.collateral1
  ok (two_u64 value0 value1)
user_view slot user_liquidation_borrow_limit u p = do
  limit0 ← liquidation_limit slot p p.side0 p.side1 u.collateral0 (liquidation_cf_bps p.token1 p u)
  limit1 ← liquidation_limit slot p p.side1 p.side0 u.collateral1 (liquidation_cf_bps p.token0 p u)
  ok (two_u64 limit0 limit1)

-- `ViewPairData::handle_view_data` and `ViewUserPositionData::handle_view_data`.
unfoldable pub view_pair_data :
    ℕ → RateModel → FutarchyAuthority → PairViewKind → EmitValueArgs → Pair → Result (Option View)
view_pair_data slot m authority getter args p = do
  current ← update slot m authority.revenue_share.interest_bps p
  pair_view slot m getter args current

unfoldable pub view_user_position_data :
    ℕ
    → RateModel
    → FutarchyAuthority
    → UserPositionViewKind
    → UserPosition
    → Pair
    → Result (Option View)
view_user_position_data slot m authority getter u p = do
  current ← update slot m authority.revenue_share.interest_bps p
  user_view slot getter u current
