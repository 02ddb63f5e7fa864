-- ===== src/Pair.antt =====
-- programs/omnipair/src/state/pair.rs: the state of a pair. The fields that the source writes twice,
-- with the suffixes 0 and 1, are a record `Side` each, and code that it writes twice, the suffixes
-- exchanged, is one function on a side; side 0 runs first. Events are left out.
pub mod Accounting
use omnipair_rs.Base.{
  ℕ, ◌+◌, ◌-◌, ◌*◌, ◌/◌, min, Bool, true, false, Option, none, some, ltb, ◌==◌, ◌&&◌, if◌then◌else◌,
  Pubkey,
}
use omnipair_rs.Word.{
  u64, u128, max_word, checked_add, checked_mul, checked_sub, try_into, saturating_add, unwrap_or,
}
use omnipair_rs.Outcome.{Result, ok, err, ◌>>=◌, ok_or, unwrap, debt_math_overflow}
use omnipair_rs.Constants.{nad, bps_denominator, directional_ema_half_life_ms, min_liquidity}
use omnipair_rs.Math.{ceil_div, compute_ema, slots_to_ms}
use omnipair_rs.RateModel.{RateModel, calculate_rate}
use omnipair_rs.Curve.{pessimistic_max_debt}

-- `LastPriceEMA`.
pub record LastPriceEma : Type 0 where
  pub symmetric : ℕ
  pub directional : ℕ

pub record VaultBumps : Type 0 where
  pub reserve0 : ℕ
  pub reserve1 : ℕ
  pub collateral0 : ℕ
  pub collateral1 : ℕ

-- `reserve` is the virtual reserve, `cash_reserve` what of it is not lent.
pub record Side : Type 0 where
  pub reserve : ℕ
  pub cash_reserve : ℕ
  pub last_price_ema : LastPriceEma
  pub last_rate : ℕ
  pub total_debt : ℕ
  pub total_debt_shares : ℕ
  pub total_collateral : ℕ
  pub token_decimals : ℕ

pub record Pair : Type 0 where
  pub token0 : Pubkey
  pub token1 : Pubkey
  pub lp_mint : Pubkey
  pub rate_model : Pubkey
  pub swap_fee_bps : ℕ
  pub half_life : ℕ
  pub fixed_cf_bps : Option ℕ
  pub side0 : Side
  pub side1 : Side
  pub last_update : ℕ
  pub total_supply : ℕ
  pub params_hash : ℕ
  pub version : ℕ
  pub bump : ℕ
  pub vault_bumps : VaultBumps
  pub reduce_only : Bool

abbrev pub new_side : ℕ → ℕ → Side
new_side decimals rate = record {
  reserve = 0;
  cash_reserve = 0;
  last_price_ema = record { symmetric = 0; directional = 0 };
  last_rate = rate;
  total_debt = 0;
  total_debt_shares = 0;
  total_collateral = 0;
  token_decimals = decimals;
}

-- `Pair::initialize`.
unfoldable pub initialize :
    (token0 token1 lp_mint decimals0 decimals1 rate_model swap_fee_bps half_life : ℕ)
    → Option ℕ
    → (slot params_hash version bump : ℕ) → VaultBumps
    → ℕ
    → Pair
initialize t0 t1 mint d0 d1 model fee half fixed_cf slot hash ver b bumps rate = record {
  token0 = t0;
  token1 = t1;
  lp_mint = mint;
  rate_model = model;
  swap_fee_bps = fee;
  half_life = half;
  fixed_cf_bps = fixed_cf;
  side0 = new_side d0 rate;
  side1 = new_side d1 rate;
  last_update = slot;
  total_supply = min_liquidity;
  params_hash = hash;
  version = ver;
  bump = b;
  vault_bumps = bumps;
  reduce_only = false;
}

unfoldable pub k : Pair → ℕ
k p = p.side0.reserve * p.side1.reserve

-- `get_token_y`, which `get_collateral_token` and `get_debt_token` call.
unfoldable pub get_token_y : Pair → Pubkey → Pubkey
get_token_y p x = if x == p.token0 then p.token1 else p.token0

-- `spot_price0_nad` and `spot_price1_nad`: the price of a side's token in the other one.
unfoldable pub spot_price_nad : Side → Side → ℕ
spot_price_nad own other =
    if own.reserve == 0
    then 0
    else unwrap_or (max_word u64) (try_into u64 (other.reserve * nad / own.reserve))

-- `ema_price0_nad` and `ema_price1_nad` at a slot.
unfoldable pub ema_price_nad : ℕ → Pair → Side → Side → Result ℕ
ema_price_nad slot p own other =
    let ema =
      compute_ema slot own.last_price_ema.symmetric p.last_update (spot_price_nad own other)
        p.half_life in
    if own.reserve == 0 then ok 0 else ema

-- `directional_ema_price0_nad` and `directional_ema_price1_nad`.
unfoldable pub directional_ema_price_nad : ℕ → Pair → Side → Side → Result ℕ
directional_ema_price_nad slot p own other =
    let ema =
      compute_ema slot own.last_price_ema.directional p.last_update (spot_price_nad own other)
        directional_ema_half_life_ms in
    if own.reserve == 0 then ok 0 else ema

-- The utilisation of a side, as `update` and `get_rates` compute it.
unfoldable pub utilization : Side → ℕ
utilization s =
    if s.reserve == 0
    then 0
    else unwrap_or (max_word u64) (try_into u64 (s.total_debt * nad / s.reserve))

-- `get_rates`.
unfoldable pub get_rates : ℕ → RateModel → Pair → Result (ℕ × ℕ)
get_rates slot m p = do
  let dt = unwrap_or 0 (slots_to_ms p.last_update slot)
  (rate0, _) ← calculate_rate m p.side0.last_rate dt (utilization p.side0)
  (rate1, _) ← calculate_rate m p.side1.last_rate dt (utilization p.side1)
  ok (rate0, rate1)

unfoldable pub is_initialized : Pair → Bool
is_initialized p = ltb 0 p.side0.reserve && ltb 0 p.side1.reserve && ltb 0 p.total_supply

-- The limit of `get_max_debt_and_cf_bps_for_collateral` for collateral on one side and debt on the
-- other.
unfoldable pub max_debt_on : ℕ → Pair → Side → Side → ℕ → Result (ℕ × ℕ × ℕ)
max_debt_on slot p collateral_side debt_side amount = do
  ema ← ema_price_nad slot p collateral_side debt_side
  directional ← directional_ema_price_nad slot p collateral_side debt_side
  pessimistic_max_debt amount ema directional collateral_side.reserve debt_side.reserve
      debt_side.total_debt p.fixed_cf_bps

-- `get_max_debt_and_cf_bps_for_collateral`.
unfoldable pub max_debt_and_cf_bps : ℕ → Pair → Pubkey → ℕ → Result (ℕ × ℕ × ℕ)
max_debt_and_cf_bps slot p collateral_token amount =
    if collateral_token == p.token0
    then max_debt_on slot p p.side0 p.side1 amount
    else max_debt_on slot p p.side1 p.side0 amount

unfoldable pub get_reserve_vault_bump : Pair → Pubkey → ℕ
get_reserve_vault_bump p reserve_token_mint =
    if reserve_token_mint == p.token0 then p.vault_bumps.reserve0 else p.vault_bumps.reserve1

unfoldable pub get_collateral_vault_bump : Pair → Pubkey → ℕ
get_collateral_vault_bump p collateral_token_mint =
    if collateral_token_mint == p.token0
    then p.vault_bumps.collateral0
    else p.vault_bumps.collateral1

-- The first step of `update`, made also within one slot: the directional average falls with the spot
-- price at once.
unfoldable pub snap : ℕ → Side → Side
snap spot s = record s {
  last_price_ema = record (s.last_price_ema) {
    directional = min s.last_price_ema.directional spot;
  };
}

-- The price averages of `update`, when time has passed.
unfoldable pub update_prices : ℕ → Pair → ℕ → Side → Result Side
update_prices slot p spot s = do
  new_symmetric ← compute_ema slot s.last_price_ema.symmetric p.last_update spot p.half_life
  new_ema ←
      compute_ema slot s.last_price_ema.directional p.last_update spot directional_ema_half_life_ms
  ok (record s {
    last_price_ema = record {
      symmetric = new_symmetric;
      directional = if ltb spot new_ema then spot else new_ema;
    };
  })

-- Interest on the debt of a side: what the borrowers owe more, and where it goes.
unfoldable pub accrue : ℕ → ℕ → Side → Result Side
accrue interest_bps integral s = do
  total_interest ← ok_or (ceil_div (s.total_debt * integral) nad) debt_math_overflow
  product ← unwrap (checked_mul u128 total_interest interest_bps)
  let protocol_fee = unwrap_or (max_word u64) (try_into u64 (product / bps_denominator))
  let lp_interest = unwrap_or (max_word u64) (try_into u64 total_interest)
  borrower_cost ← unwrap (checked_add u128 total_interest protocol_fee)
  cost ← unwrap (try_into u64 borrower_cost)
  new_debt ← unwrap (checked_add u64 s.total_debt cost)
  let covered = min protocol_fee s.cash_reserve
  gain ← unwrap (checked_add u64 lp_interest (protocol_fee - covered))
  ok (record s {
    total_debt = new_debt;
    reserve = saturating_add u64 s.reserve gain;
    cash_reserve = s.cash_reserve - covered;
  })

-- The rate and the interest of `update` on one side.
unfoldable pub update_debt : RateModel → ℕ → ℕ → Side → Result Side
update_debt m interest_bps dt s = do
  (rate, integral) ← calculate_rate m s.last_rate dt (utilization s)
  accrue interest_bps integral (record s { last_rate = rate })

-- `update`, given the current slot and the interest share of the futarchy authority.
unfoldable pub elapse : ℕ → RateModel → ℕ → ℕ → ℕ → Pair → Result Pair
elapse slot m interest_bps spot0 spot1 p = do
  dt ← unwrap (slots_to_ms p.last_update slot)
  let moved = do
    priced0 ← update_prices slot p spot0 p.side0
    priced1 ← update_prices slot p spot1 p.side1
    new0 ← update_debt m interest_bps dt priced0
    new1 ← update_debt m interest_bps dt priced1
    ok (record p { side0 = new0; side1 = new1; last_update = slot })
  if ltb 0 dt then moved else ok (record p { last_update = slot })

unfoldable pub update : ℕ → RateModel → ℕ → Pair → Result Pair
unfolding elapse
update slot m interest_bps p =
    let spot0 = spot_price_nad p.side0 p.side1 in
    let spot1 = spot_price_nad p.side1 p.side0 in
    let snapped = record p { side0 = snap spot0 p.side0; side1 = snap spot1 p.side1 } in
    if ltb p.last_update slot then elapse slot m interest_bps spot0 spot1 snapped else ok snapped
