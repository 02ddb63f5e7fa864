-- ===== src/Liquidity/Bootstrap.antt =====
-- programs/omnipair/src/instructions/liquidity/initialize.rs: the instruction `initialize`, which
-- creates a pair with its rate model and its first liquidity.
use omnipair_rs.Base.{
  ℕ, zero, suc, ◌/◌, ◌%◌, Bool, true, false, Option, none, some, List, [], ◌∷◌, ◌++◌, ltb, leb,
  ◌==◌, ◌&&◌, Pubkey,
}
use omnipair_rs.Word.{u64, u128, checked_add, checked_mul, checked_sub, try_into, unwrap_or}
use omnipair_rs.Outcome.{
  Result, ok, ◌>>=◌, ◌>>◌, require, ok_or, invalid_token_order, invalid_version,
  invalid_swap_fee_bps, invalid_half_life, invalid_argument, invalid_util_bounds,
  invalid_rate_params, invalid_params_hash, amount_zero, insufficient_amount0_in,
  insufficient_amount1_in, invalid_lp_name, invalid_lp_symbol, invalid_lp_uri,
  liquidity_math_overflow, liquidity_sqrt_overflow, liquidity_underflow,
  liquidity_conversion_overflow, slippage_exceeded, reserve_overflow, supply_overflow,
}
use omnipair_rs.Constants
use omnipair_rs.Constants.{
  bps_denominator, min_half_life_ms, max_half_life_ms, default_rate_half_life_ms,
  default_min_rate_bps, default_max_rate_bps, default_initial_rate_bps, min_liquidity,
}
use omnipair_rs.Math.{sqrt}
use omnipair_rs.RateModel.{RateModel, new, validate_util_bounds, validate_rate_params}
use omnipair_rs.Pair.{Side, Pair, VaultBumps, initialize, spot_price_nad}
use omnipair_rs.Token.{TokenProgram, transfer, token_mint_to}
use omnipair_rs.Liquidity.LpMint.{
  Programs, validate_lp_mint_key, collect_creation_fee, create_lp_mint,
}
use omnipair_rs.Liquidity.{reserve_share}

-- Strings are lists of bytes.
pub record InitializeArgs : Type 0 where
  pub swap_fee_bps : ℕ
  pub half_life : ℕ
  pub fixed_cf_bps : Option ℕ
  pub target_util_start_bps : Option ℕ
  pub target_util_end_bps : Option ℕ
  pub rate_half_life_ms : Option ℕ
  pub min_rate_bps : Option ℕ
  pub max_rate_bps : Option ℕ
  pub initial_rate_bps : Option ℕ
  pub params_hash : ℕ
  pub version : ℕ
  pub amount0_in : ℕ
  pub amount1_in : ℕ
  pub min_liquidity_out : ℕ
  pub lp_name : List ℕ
  pub lp_symbol : List ℕ
  pub lp_uri : List ℕ

-- The accounts of `InitializeAndBootstrap`, the decimals of the mints, and the bumps.
pub record InitializeAccounts : Type 0 where
  pub deployer : Pubkey
  pub pair : Pubkey
  pub token0_mint : Pubkey
  pub token1_mint : Pubkey
  pub decimals0 : ℕ
  pub decimals1 : ℕ
  pub rate_model : Pubkey
  pub lp_mint : Pubkey
  pub deployer_token0 : Pubkey
  pub deployer_token1 : Pubkey
  pub deployer_lp : Pubkey
  pub reserve0_vault : Pubkey
  pub reserve1_vault : Pubkey
  pub team_treasury_wsol_account : Pubkey
  pub pair_bump : ℕ
  pub vault_bumps : VaultBumps

-- `to_le_bytes` of a number of `n` bytes.
unfoldable pub to_le_bytes : ℕ → ℕ → List ℕ
to_le_bytes zero a = []
to_le_bytes (suc n) a = a % 256 ∷ to_le_bytes n (a / 256)

-- `len() <= n`.
unfoldable pub fits : ℕ → List ℕ → Bool
fits n [] = true
fits zero (b ∷ bs) = false
fits (suc n) (b ∷ bs) = fits n bs

unfoldable pub is_ascii : List ℕ → Bool
is_ascii [] = true
is_ascii (b ∷ bs) = ltb b 128 && is_ascii bs

-- `starts_with`.
unfoldable pub starts_with : List ℕ → List ℕ → Bool
starts_with [] bs = true
starts_with (c ∷ cs) [] = false
starts_with (c ∷ cs) (b ∷ bs) = c == b && starts_with cs bs

abbrev http : List ℕ
http = 104 ∷ 116 ∷ 116 ∷ 112 ∷ []

-- The bytes whose hash identifies the parameters.
unfoldable pub hash_data : InitializeArgs → List ℕ
hash_data args =
    to_le_bytes 1 Constants.version
    ++ (to_le_bytes 2 args.swap_fee_bps
        ++ (to_le_bytes 8 args.half_life
            ++ (to_le_bytes 2 (unwrap_or 0 args.fixed_cf_bps)
                ++ (to_le_bytes 8 (unwrap_or 0 args.target_util_start_bps)
                    ++ (to_le_bytes 8 (unwrap_or 0 args.target_util_end_bps)
                        ++ (to_le_bytes 8 (unwrap_or 0 args.rate_half_life_ms)
                            ++ (to_le_bytes 8 (unwrap_or 0 args.min_rate_bps)
                                ++ to_le_bytes 8 (unwrap_or 0 args.max_rate_bps))))))))

-- The fixed collateral factor, when there is one, is between 1% and 100%.
unfoldable pub validate_fixed_cf : Option ℕ → Result (Unit {0})
validate_fixed_cf none = ok tt
validate_fixed_cf (some cf) = do
  require (leb cf bps_denominator) invalid_argument
  require (leb 100 cf) invalid_argument

-- The parameters of the rate model, with their defaults.
unfoldable pub validate_rate : InitializeArgs → Result (Unit {0})
validate_rate args = do
  require
      (validate_util_bounds (unwrap_or Constants.target_util_start_bps args.target_util_start_bps)
        (unwrap_or Constants.target_util_end_bps args.target_util_end_bps))
      invalid_util_bounds
  require
      (validate_rate_params (unwrap_or default_rate_half_life_ms args.rate_half_life_ms)
        (unwrap_or default_min_rate_bps args.min_rate_bps)
        (unwrap_or default_max_rate_bps args.max_rate_bps)
        (unwrap_or default_initial_rate_bps args.initial_rate_bps))
      invalid_rate_params

unfoldable pub rate_model_of : InitializeArgs → Result RateModel
rate_model_of args =
    new (unwrap_or Constants.target_util_start_bps args.target_util_start_bps)
      (unwrap_or Constants.target_util_end_bps args.target_util_end_bps)
      (unwrap_or default_rate_half_life_ms args.rate_half_life_ms)
      (unwrap_or default_min_rate_bps args.min_rate_bps)
      (unwrap_or default_max_rate_bps args.max_rate_bps)
      (unwrap_or default_initial_rate_bps args.initial_rate_bps)

-- `sqrt(amount0_in * amount1_in) - MIN_LIQUIDITY`.
unfoldable pub first_liquidity : ℕ → ℕ → Result ℕ
first_liquidity amount0 amount1 = do
  product ← ok_or (checked_mul u128 amount0 amount1) liquidity_math_overflow
  root ← ok_or (sqrt product) liquidity_sqrt_overflow
  liquidity ← ok_or (checked_sub root min_liquidity) liquidity_underflow
  ok_or (try_into u64 liquidity) liquidity_conversion_overflow

-- The reserves are the deposit, all of it in cash, and the averages start at the spot price.
unfoldable pub bootstrap : ℕ → ℕ → ℕ → Pair → Result Pair
bootstrap amount0 amount1 liquidity p = do
  new0 ← ok_or (checked_add u64 p.side0.reserve amount0) reserve_overflow
  new1 ← ok_or (checked_add u64 p.side1.reserve amount1) reserve_overflow
  supply ← ok_or (checked_add u64 p.total_supply liquidity) supply_overflow
  let s0 : Side = record (p.side0) { reserve = new0; cash_reserve = new0 }
  let s1 : Side = record (p.side1) { reserve = new1; cash_reserve = new1 }
  let spot0 = spot_price_nad s0 s1
  let spot1 = spot_price_nad s1 s0
  ok (record p {
    side0 = record s0 { last_price_ema = record { symmetric = spot0; directional = spot0 } };
    side1 = record s1 { last_price_ema = record { symmetric = spot1; directional = spot1 } };
    total_supply = supply;
  })

module _ (t : TokenProgram) where
  open t use {Ledger, balance}

  module _ (programs : Programs Ledger) where
    -- `InitializeAndBootstrap::validate`.
    unfoldable pub validate_initialize :
        InitializeAccounts → InitializeArgs → Ledger → Result (Unit {0})
    validate_initialize a args l = do
      require (ltb a.token0_mint a.token1_mint) invalid_token_order
      require (args.version == Constants.version) invalid_version
      require (leb args.swap_fee_bps (bps_denominator / 2)) invalid_swap_fee_bps
      require (leb min_half_life_ms args.half_life) invalid_half_life
      require (leb args.half_life max_half_life_ms) invalid_half_life
      validate_fixed_cf args.fixed_cf_bps
      validate_rate args
      require (programs.hash (hash_data args) == args.params_hash) invalid_params_hash
      require (ltb 0 args.amount0_in && ltb 0 args.amount1_in) amount_zero
      require (leb args.amount0_in (balance l a.deployer_token0)) insufficient_amount0_in
      require (leb args.amount1_in (balance l a.deployer_token1)) insufficient_amount1_in
      validate_lp_mint_key programs.is_production (programs.to_string a.lp_mint)
      require (fits 32 args.lp_name) invalid_lp_name
      require (is_ascii args.lp_name) invalid_lp_name
      require (fits 10 args.lp_symbol) invalid_lp_symbol
      require (is_ascii args.lp_symbol) invalid_lp_symbol
      require (fits 200 args.lp_uri) invalid_lp_uri
      require (starts_with http args.lp_uri) invalid_lp_uri

    -- `handle_initialize` at a slot; the deployer's shares are computed for the event, and can fail.
    unfoldable pub handle_initialize :
        ℕ → InitializeAccounts → InitializeArgs → Ledger → Result (RateModel × Pair × Ledger)
    handle_initialize slot a args l = do
      charged ← collect_creation_fee t programs a.deployer a.team_treasury_wsol_account l
      m ← rate_model_of args
      let p =
          initialize a.token0_mint a.token1_mint a.lp_mint a.decimals0 a.decimals1 a.rate_model
            args.swap_fee_bps args.half_life args.fixed_cf_bps slot args.params_hash args.version
            a.pair_bump a.vault_bumps m.initial_rate
      paid0 ← transfer t a.deployer_token0 a.reserve0_vault args.amount0_in charged
      paid1 ← transfer t a.deployer_token1 a.reserve1_vault args.amount1_in paid0
      created ←
          create_lp_mint t programs a.pair a.lp_mint a.deployer a.deployer_lp args.lp_name
            args.lp_symbol args.lp_uri paid1
      liquidity ← first_liquidity args.amount0_in args.amount1_in
      require (leb args.min_liquidity_out liquidity) slippage_exceeded
      minted ← token_mint_to t a.lp_mint a.deployer_lp liquidity created
      q ← bootstrap args.amount0_in args.amount1_in liquidity p
      reported0 ← reserve_share liquidity q.side0.reserve q.total_supply
      reported1 ← reserve_share liquidity q.side1.reserve q.total_supply
      ok (m, q, minted)

    -- The instruction.
    unfoldable pub initialize_and_bootstrap :
        ℕ → InitializeAccounts → InitializeArgs → Ledger → Result (RateModel × Pair × Ledger)
    initialize_and_bootstrap slot a args l = do
      validate_initialize a args l
      handle_initialize slot a args l
