-- ===== src/Tests/Custody.antt =====
-- Examples for the vaults: a pair is created, another program pays into a vault, a user deposits 50000
-- units of token 0 and borrows 5000 units of token 1.
use mathlib.Core.Path.{subst}
use omnipair_rs.Base.{
  ℕ, ◌+◌, ◌-◌, ◌≡◌, refl, Option, some, none, List, [], ◌∷◌, leb, ◌==◌, ◌||◌, not, if◌then◌else◌,
  Pubkey, arith,
}
use omnipair_rs.Outcome.{ok}
use omnipair_rs.Math.{ceil_div, sqrt, sqrt_loop, compute_ema, slots_to_ms}
use omnipair_rs.Curve.{
  calculate_amount_out, calculate_amount_in, scaled_product, virtual_reserves, utilized_collateral,
  max_allowed_total_debt, base_cf_bps, liquidation_cf, max_allowed_cf, borrow_limit, limit_at_value,
  value_with_impact, pessimistic_max_debt,
}
use omnipair_rs.Futarchy.{is_reduce_only}
use omnipair_rs.Pair.{
  initialize, spot_price_nad, ema_price_nad, directional_ema_price_nad, max_debt_on,
  max_debt_and_cf_bps, get_token_y, update, snap, get_reserve_vault_bump, get_collateral_vault_bump,
}
use omnipair_rs.Position
use omnipair_rs.Position.{
  is_initialized, calculate_debt, increase_debt, increase_debt_on, mint_shares, shares_for,
  set_liquidation_cf,
}
use omnipair_rs.Breaker.{
  require_no_same_tx_liquidity_delta, require_no_matching, load_instruction_count, scan,
  is_same_pair_liquidity_delta, targets, bytes_eq, prefix?, discriminator_matches, first_account_is,
}
use omnipair_rs.Lending.{debt_on, collateral_on}
use omnipair_rs.Lending.Borrow.{
  borrow_terms, resolve_borrow_amount, validate_borrow, handle_borrow, borrow,
}
use omnipair_rs.Lending.Collateral
use omnipair_rs.Lending.Collateral.{deposit_collateral, handle_add_collateral, add_collateral}
use omnipair_rs.RateModel.{new, validate_util_bounds, validate_rate_params, bps_to_nad}
use omnipair_rs.Token.{TokenProgram, transfer, token_mint_to}
use omnipair_rs.Liquidity.{reserve_share}
use omnipair_rs.Liquidity.LpMint.{
  last_4, is_omlp, validate_lp_mint_key, collect_creation_fee, check_lp_mint, create_lp_mint,
}
use omnipair_rs.Liquidity.Bootstrap.{
  to_le_bytes, fits, is_ascii, starts_with, hash_data, validate_fixed_cf, validate_rate,
  rate_model_of, first_liquidity, bootstrap, validate_initialize, handle_initialize,
  initialize_and_bootstrap,
}
use omnipair_rs.Accounts.{
  Chain, Seeds, gamm_pair, gamm_position, futarchy_authority, metadata, reserve_vault,
  collateral_vault, pair_rate_model, program_data, pair_account, common_accounts,
  reserve_vault_account, collateral_vault_account,
}
use omnipair_rs.Accounts.Creation.{
  InitializeContext, found_account, token_account, accounts_to_create, initialize_accounts,
}
use omnipair_rs.Accounts.Positions.{
  CollateralContext, DebtContext, position_account, new_position_account, collateral_accounts,
  add_collateral_accounts, borrow_accounts,
}
use omnipair_rs.System.{at}
use omnipair_rs.System.Dispatch.{execute, find}
use omnipair_rs.System.Request
use omnipair_rs.System.History.{Event, requested, elsewhere, after, replay}
use omnipair_rs.Vaults.{
  Vaults, AreApart, AreVaultsOf, IsTokenLedger, KeepsMints, IsBacked, Keep, Raises,
}
use omnipair_rs.Vaults.Histories.{AreAllowed}
use omnipair_rs.Vaults.Founding.{identity_of}
use omnipair_rs.Vaults.Creation.{vaults_back_pair}
use omnipair_rs.Tests.{protocol, moved, ledger}
use omnipair_rs.Tests.Runs.{
  borrower, lent_pair, granted, programs, new_ledger, new_pair, new_model, created_accounts,
  created_args,
}
use omnipair_rs.Tests.Dispatched.{now}

-- Accounts of token 0, of token 1, and others.
mint_of : Pubkey → Pubkey
mint_of k =
    if k == 51 || (k == 53 || (k == 55 || k == 71))
    then 10
    else (if k == 52 || (k == 54 || (k == 56 || k == 72)) then 20 else 30)

-- A token program that compares mints, and leaves an account that pays itself alone.
abbrev spl : TokenProgram
spl = record {
  Ledger = Pubkey → ℕ;
  balance = λ l k. l k;
  transfer_checked = λ from to amount l.
      if not (mint_of from == mint_of to) || not (leb amount (l from))
      then none
      else some (if from == to then l else moved from to amount l);
  mint_to = λ mint to amount l. some (λ k. if k == to then l k + amount else l k);
  burn = λ mint from amount l.
      if leb amount (l from) then some (λ k. if k == from then l k - amount else l k) else none;
}

spl-IsTokenLedger : IsTokenLedger spl
spl-IsTokenLedger = record {
  moves = record {
    debits = λ from to amount l l' apart h. ground arith;
    credits = λ from to amount l l' apart h. ground arith;
    others = λ from to third amount l l' not_from not_to h. ground arith;
  };
  itself = λ account k amount l l' h. ground arith;
  mints = λ mint to k amount l l' h. ground arith;
  burns = λ mint from k amount l l' other h. ground arith;
}

abbrev vaults : Vaults
vaults = record { reserve0 = 51; reserve1 = 52; collateral0 = 55; collateral1 = 56 }

abbrev address : Seeds → ℕ → Option Pubkey
address (gamm_pair token0 token1 params_hash) bump = some 8
address (gamm_position pair user) bump = some 90
address futarchy_authority bump = some 91
address (metadata lp_mint) bump = some 94
address (pair_rate_model pair) bump = some 40
address program_data bump = some 95
address (reserve_vault pair mint) bump = some (if mint == 10 then 51 else 52)
address (collateral_vault pair mint) bump = some (if mint == 10 then 55 else 56)

abbrev bump_of : Seeds → ℕ
bump_of (gamm_pair token0 token1 params_hash) = 255
bump_of (reserve_vault pair mint) = if mint == 10 then 1 else 2
bump_of (collateral_vault pair mint) = if mint == 10 then 3 else 4
bump_of seeds = 254

-- User 7 signs, for accounts 53, 54, 71 and 72.
abbrev chain : Chain
chain = record {
  create_program_address = address;
  find_bump = bump_of;
  token_mint = mint_of;
  token_authority = λ k.
      if k == 53 || (k == 54 || (k == 71 || k == 72))
      then 7
      else (if k == 74 then protocol.recipients.team_treasury else 8);
  mint_decimals = λ k. 6;
  program_of = λ k. 6;
  associated_token = λ owner mint. 73;
  is_signer = λ k. k == 7;
  reduce_only_emergency_authority = 4;
  token_program = 6;
  native_mint = 30;
}

keeps : KeepsMints spl chain
keeps from to amount l l' h = ground arith

apart : AreApart vaults
apart = (omega arith, omega arith, omega arith, omega arith, omega arith, omega arith)

of_pair : AreVaultsOf chain (identity_of 8 created_accounts) vaults
unfolding mint_of
of_pair = record {
  at_reserve0 = refl;
  at_reserve1 = refl;
  at_collateral0 = refl;
  at_collateral1 = refl;
  of_token0 = refl;
  of_token1 = refl;
  owned = (refl, refl, refl, refl);
  unsigned = refl;
}

-- User 7 creates the pair.
abbrev creation_context : InitializeContext
creation_context = record {
  deployer = 7;
  token0_mint = 10;
  token1_mint = 20;
  pair = 8;
  futarchy_authority = 91;
  rate_model = 40;
  lp_mint = 30;
  lp_token_metadata = 94;
  deployer_lp_token_account = 73;
  reserve0_vault = 51;
  reserve1_vault = 52;
  collateral0_vault = 55;
  collateral1_vault = 56;
  deployer_token0_account = 71;
  deployer_token1_account = 72;
  team_treasury = protocol.recipients.team_treasury;
  team_treasury_wsol_account = 74;
}

created_accounts-eq :
    initialize_accounts chain created_args.params_hash protocol creation_context
    ≡ ok created_accounts
unfolding initialize_accounts accounts_to_create found_account token_account mint_of
created_accounts-eq = refl

abbrev gift : Pubkey → ℕ
gift k = if k == 51 then new_ledger k + 5 else new_ledger k

abbrev deposit_context : CollateralContext
deposit_context = record {
  user_position = 90;
  rate_model = 40;
  futarchy_authority = 91;
  collateral_vault = 55;
  user_collateral_token_account = 53;
  collateral_token_mint = 10;
  user = 7;
  instructions_sysvar = 99;
}

abbrev loan_context : DebtContext
loan_context = record {
  user_position = 90;
  rate_model = 40;
  futarchy_authority = 91;
  reserve_vault = 52;
  user_reserve_token_account = 54;
  reserve_token_mint = 20;
  user = 7;
  instructions_sysvar = 99;
}

abbrev events : List (Event (Pubkey → ℕ))
events =
    elsewhere gift
    ∷ requested chain now (Request.add_collateral deposit_context 50_000)
    ∷ requested chain now (Request.borrow loan_context 5_000)
    ∷ []

new_pair-eq :
    initialize_and_bootstrap spl programs 100 created_accounts created_args ledger
    ≡ ok (new_model, new_pair, new_ledger)
unfolding initialize_and_bootstrap validate_initialize handle_initialize validate_fixed_cf
    validate_rate rate_model_of first_liquidity bootstrap initialize new validate_util_bounds
    validate_rate_params bps_to_nad sqrt sqrt_loop spot_price_nad reserve_share transfer
    token_mint_to to_le_bytes fits is_ascii starts_with hash_data mint_of last_4 is_omlp
    validate_lp_mint_key collect_creation_fee check_lp_mint create_lp_mint
new_pair-eq = refl

allowed :
    AreAllowed spl spl-IsTokenLedger vaults apart
      (identity_of 8 created_accounts)
      events
      (at spl [] new_pair new_ledger)
allowed = (
  (omega arith, omega arith, omega arith, omega arith),
  ((of_pair, keeps, refl, tt), ((of_pair, keeps, refl, tt), tt)),
)

granted-Raises : Raises spl vaults granted
granted-Raises l l' h =
    let same : l ≡ l' = ground arith in
    subst (Keep spl vaults l) same (omega arith, omega arith, omega arith, omega arith)

vaults_back_pair_example :
    IsBacked spl vaults
      (replay spl events (at spl [] new_pair new_ledger)).pair
      (replay spl events (at spl [] new_pair new_ledger)).ledger
vaults_back_pair_example =
    vaults_back_pair spl spl-IsTokenLedger vaults apart chain protocol creation_context programs 100
      created_accounts created_args ledger new_ledger new_model new_pair events created_accounts-eq
      of_pair (λ _ _ _. granted-Raises, λ _ _ _. granted-Raises, λ _ _ _ _ _. granted-Raises)
      new_pair-eq allowed

-- Both requests succeed.
replayed-eq :
    replay spl events (at spl [] new_pair new_ledger)
    ≡ at spl (borrower ∷ []) lent_pair (moved 52 54 5_000 (moved 53 55 50_000 gift))
unfolding replay after Request.process Request.resolve add_collateral_accounts new_position_account
    collateral_accounts borrow_accounts position_account common_accounts pair_account
    collateral_vault_account reserve_vault_account get_collateral_vault_bump get_reserve_vault_bump
    mint_of execute find add_collateral handle_add_collateral deposit_collateral is_initialized
    Position.initialize Collateral.validate_add borrow handle_borrow transfer increase_debt
    increase_debt_on mint_shares shares_for set_liquidation_cf borrow_terms resolve_borrow_amount
    debt_on collateral_on calculate_debt get_token_y max_debt_and_cf_bps max_debt_on ema_price_nad
    directional_ema_price_nad spot_price_nad compute_ema slots_to_ms pessimistic_max_debt
    value_with_impact limit_at_value virtual_reserves scaled_product sqrt sqrt_loop
    utilized_collateral max_allowed_total_debt base_cf_bps liquidation_cf max_allowed_cf
    borrow_limit calculate_amount_out calculate_amount_in ceil_div update snap validate_borrow
    is_reduce_only require_no_same_tx_liquidity_delta require_no_matching load_instruction_count
    scan is_same_pair_liquidity_delta targets prefix? bytes_eq discriminator_matches
    first_account_is
replayed-eq = refl
