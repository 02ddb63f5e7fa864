-- ===== src/Tests/Runs.antt =====
-- Examples for the runs of the program: a pair is created, a user opens a position, deposits 50000 units
-- of token 0 and borrows 5000 units of token 1.
use omnipair_rs.Base.{
  Bool, ℕ, ◌+◌, ◌≤◌, ◌≡◌, refl, ◌==◌, if◌then◌else◌, true, false, Option, some, none, List, [], ◌∷◌,
  Pubkey, arith,
}
use omnipair_rs.Outcome.{ok}
use omnipair_rs.Math.{ceil_div, sqrt, sqrt_loop, compute_ema, slots_to_ms}
use omnipair_rs.Curve.{
  calculate_amount_out, calculate_amount_in, scaled_product, virtual_reserves, utilized_collateral,
  max_allowed_total_debt, base_cf_bps, liquidation_cf, max_allowed_cf, borrow_limit, limit_at_value,
  value_with_impact, pessimistic_max_debt,
}
use omnipair_rs.RateModel.{RateModel, new, validate_util_bounds, validate_rate_params, bps_to_nad}
use omnipair_rs.Futarchy.{is_reduce_only}
use omnipair_rs.Pair.{
  Pair, initialize, spot_price_nad, ema_price_nad, directional_ema_price_nad, max_debt_on,
  max_debt_and_cf_bps, get_token_y,
}
use omnipair_rs.Position
use omnipair_rs.Position.{
  UserPosition, calculate_debt, increase_debt, increase_debt_on, mint_shares, shares_for,
  set_liquidation_cf,
}
use omnipair_rs.Token.{transfer, token_mint_to}
use omnipair_rs.Breaker.{
  require_no_same_tx_liquidity_delta, require_no_matching, load_instruction_count, scan,
  is_same_pair_liquidity_delta, targets, bytes_eq, prefix?, discriminator_matches, first_account_is,
}
use omnipair_rs.Liquidity.{reserve_share}
use omnipair_rs.Liquidity.LpMint.{
  Mint, Programs, last_4, is_omlp, validate_lp_mint_key, collect_creation_fee, check_lp_mint,
  create_lp_mint,
}
use omnipair_rs.Liquidity.Bootstrap.{
  InitializeAccounts, InitializeArgs, to_le_bytes, fits, is_ascii, starts_with, hash_data,
  validate_fixed_cf, validate_rate, rate_model_of, first_liquidity, bootstrap, validate_initialize,
  handle_initialize, initialize_and_bootstrap,
}
use omnipair_rs.Lending.{DebtAccounts, CollateralAccounts, debt_on, collateral_on}
use omnipair_rs.Lending.Borrow.{borrow_terms, resolve_borrow_amount, validate_borrow, handle_borrow}
use omnipair_rs.Lending.Collateral.{deposit_collateral, handle_add_collateral, validate_add}
use omnipair_rs.System.{opened, secured, borrowed, fresh, at, Reach, here, next}
use omnipair_rs.System.Accounts.{IsSoundFor}
use omnipair_rs.System.Reachable.{initialized-IsSound, reachable-IsSound, positions_within, side_on}
use omnipair_rs.Tests.{value_or, model, protocol, sysvar, ids, tokens, ledger, moved}

abbrev pub created_accounts : InitializeAccounts
created_accounts = record {
  deployer = 7;
  pair = 8;
  token0_mint = 10;
  token1_mint = 20;
  decimals0 = 6;
  decimals1 = 6;
  rate_model = 40;
  lp_mint = 30;
  deployer_token0 = 71;
  deployer_token1 = 72;
  deployer_lp = 73;
  reserve0_vault = 51;
  reserve1_vault = 52;
  team_treasury_wsol_account = 74;
  pair_bump = 255;
  vault_bumps = record { reserve0 = 1; reserve1 = 2; collateral0 = 3; collateral1 = 4 };
}

abbrev pub created_args : InitializeArgs
created_args = record {
  swap_fee_bps = 30;
  half_life = 60_000;
  fixed_cf_bps = none;
  target_util_start_bps = none;
  target_util_end_bps = none;
  rate_half_life_ms = none;
  min_rate_bps = none;
  max_rate_bps = none;
  initial_rate_bps = none;
  params_hash = 9;
  version = 1;
  amount0_in = 1_000_000;
  amount1_in = 4_000_000;
  min_liquidity_out = 1;
  lp_name = 79 ∷ [];
  lp_symbol = 79 ∷ [];
  lp_uri = 104 ∷ 116 ∷ 116 ∷ 112 ∷ [];
}

abbrev pub nine : List ℕ → ℕ
nine bytes = 9

abbrev pub granted : (Pubkey → ℕ) → Option (Pubkey → ℕ)
granted l = some l

-- A mint of the pair, once it is initialised.
abbrev lp_data : Bool → Mint
lp_data initialized = record {
  is_initialized = initialized;
  mint_authority = some 8;
  freeze_authority = none;
  supply = 0;
  decimals = 9;
}

abbrev pub programs : Programs (Pubkey → ℕ)
programs = record {
  hash = nine;
  is_production = true;
  to_string = λ key. 49 ∷ 111 ∷ 109 ∷ 76 ∷ 80 ∷ [];
  system_transfer = λ from to lamports l. granted l;
  sync_native = λ account l. granted l;
  data_len = λ l key. 82;
  unpack_unchecked = λ l key. some (lp_data false);
  unpack = λ l key. some (lp_data true);
  initialize_mint2 = λ mint authority decimals l. granted l;
  create_idempotent = λ account authority mint l. granted l;
  create_metadata = λ mint authority name symbol uri l. granted l;
}

abbrev pub new_model : RateModel
new_model = value_or model (rate_model_of created_args)

abbrev paid_in : Pubkey → ℕ
paid_in = moved 72 52 4_000_000 (moved 71 51 1_000_000 ledger)

abbrev pub new_ledger : Pubkey → ℕ
new_ledger k = if k == 73 then paid_in k + 1_999_000 else paid_in k

abbrev pub secured_ledger : Pubkey → ℕ
secured_ledger = moved 53 55 50_000 new_ledger

abbrev pub lent_ledger : Pubkey → ℕ
lent_ledger = moved 52 54 5_000 secured_ledger

abbrev pub new_pair : Pair
new_pair = record {
  token0 = 10;
  token1 = 20;
  lp_mint = 30;
  rate_model = 40;
  swap_fee_bps = 30;
  half_life = 60_000;
  fixed_cf_bps = none;
  side0 = record {
    reserve = 1_000_000;
    cash_reserve = 1_000_000;
    last_price_ema = record { symmetric = 4_000_000_000; directional = 4_000_000_000 };
    last_rate = 20_000_000;
    total_debt = 0;
    total_debt_shares = 0;
    total_collateral = 0;
    token_decimals = 6;
  };
  side1 = record {
    reserve = 4_000_000;
    cash_reserve = 4_000_000;
    last_price_ema = record { symmetric = 250_000_000; directional = 250_000_000 };
    last_rate = 20_000_000;
    total_debt = 0;
    total_debt_shares = 0;
    total_collateral = 0;
    token_decimals = 6;
  };
  last_update = 100;
  total_supply = 2_000_000;
  params_hash = 9;
  version = 1;
  bump = 255;
  vault_bumps = record { reserve0 = 1; reserve1 = 2; collateral0 = 3; collateral1 = 4 };
  reduce_only = false;
}

abbrev pub secured_pair : Pair
secured_pair = record new_pair { side0 = record (new_pair.side0) { total_collateral = 50_000 } }

abbrev pub lent_pair : Pair
lent_pair = record secured_pair {
  side1 = record (new_pair.side1) {
    cash_reserve = 3_995_000;
    total_debt = 5_000;
    total_debt_shares = 5_000_000_000;
  };
}

abbrev pub saver : UserPosition
saver = record fresh { owner = 7; pair = 8; collateral0 = 50_000; bump = 254 }

abbrev pub borrower : UserPosition
borrower = record saver { collateral0_liquidation_cf_bps = 8_500; debt1_shares = 5_000_000_000 }

created-eq :
    initialize_and_bootstrap tokens programs 100 created_accounts created_args ledger
    ≡ ok (new_model, new_pair, new_ledger)
unfolding initialize_and_bootstrap validate_initialize handle_initialize validate_fixed_cf
    validate_rate rate_model_of first_liquidity bootstrap initialize new validate_util_bounds
    validate_rate_params bps_to_nad sqrt sqrt_loop spot_price_nad reserve_share transfer
    token_mint_to to_le_bytes fits is_ascii starts_with hash_data last_4 is_omlp
    validate_lp_mint_key collect_creation_fee check_lp_mint create_lp_mint
created-eq = refl

abbrev pub deposit_accounts : CollateralAccounts
deposit_accounts = record {
  collateral_vault = 55;
  user_collateral_token_account = 53;
  user_collateral_token_account_mint = 10;
}

after_deposit-eq :
    handle_add_collateral tokens 7 8 254 deposit_accounts 50_000 fresh new_pair new_ledger
    ≡ ok (saver, secured_pair, secured_ledger)
unfolding handle_add_collateral transfer deposit_collateral Position.is_initialized
    Position.initialize
after_deposit-eq = refl

abbrev pub loan_accounts : DebtAccounts
loan_accounts = record {
  reserve_vault = 52;
  user_reserve_token_account = 54;
  user_reserve_token_account_mint = 20;
  reserve_token_mint = 20;
}

after_loan-eq :
    handle_borrow tokens 100 loan_accounts 5_000 saver secured_pair secured_ledger
    ≡ ok (borrower, lent_pair, lent_ledger)
unfolding handle_borrow transfer increase_debt increase_debt_on mint_shares shares_for
    set_liquidation_cf borrow_terms resolve_borrow_amount debt_on collateral_on calculate_debt
    get_token_y max_debt_and_cf_bps max_debt_on ema_price_nad directional_ema_price_nad
    spot_price_nad compute_ema slots_to_ms pessimistic_max_debt value_with_impact limit_at_value
    virtual_reserves scaled_product sqrt sqrt_loop utilized_collateral max_allowed_total_debt
    base_cf_bps liquidation_cf max_allowed_cf borrow_limit calculate_amount_out calculate_amount_in
    ceil_div
after_loan-eq = refl

loan_valid : validate_borrow ids 8 sysvar protocol 5_000 secured_pair ≡ ok tt
unfolding validate_borrow is_reduce_only require_no_same_tx_liquidity_delta require_no_matching
    load_instruction_count scan is_same_pair_liquidity_delta targets prefix? bytes_eq
    discriminator_matches first_account_is
loan_valid = refl

deposit_valid : validate_add tokens deposit_accounts 50_000 new_ledger ≡ ok tt
unfolding validate_add
deposit_valid = refl

run :
    Reach tokens
      (at tokens [] new_pair new_ledger)
      (at tokens (borrower ∷ []) lent_pair lent_ledger)
run =
    next
      (next (next here opened (omega arith, omega arith, omega arith, omega arith))
        (secured [] [] fresh saver 7 8 254 deposit_accounts 50_000 deposit_valid after_deposit-eq)
        (omega arith, omega arith, omega arith, omega arith))
      (borrowed [] [] saver borrower 100 ids 8 sysvar protocol loan_accounts 5_000 loan_valid
        after_loan-eq)
      (omega arith, omega arith, omega arith, omega arith)

reachable-IsSound_example : IsSoundFor (borrower ∷ []) lent_pair
reachable-IsSound_example =
    reachable-IsSound tokens programs 100 created_accounts created_args ledger created-eq run

new_pair-IsSound : IsSoundFor [] new_pair
new_pair-IsSound =
    initialized-IsSound tokens programs 100 created_accounts created_args ledger created-eq

owed-eq : debt_on false borrower lent_pair ≡ ok 5_000
unfolding debt_on calculate_debt ceil_div
owed-eq = refl

positions_within_example :
    (5_000 ≤ (side_on false lent_pair).total_debt)
    × (collateral_on false borrower ≤ (side_on false lent_pair).total_collateral)
positions_within_example = positions_within tokens [] [] borrower false new_pair-IsSound run owed-eq
