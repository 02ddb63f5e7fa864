-- ===== src/Tests/Loans.antt =====
-- Examples for lending.
use omnipair_rs.Base.{
  ℕ, ◌+◌, ◌-◌, ◌*◌, ◌/◌, ◌≤◌, ◌<◌, ◌≡◌, refl, arith, true, false, Option, some, none, Pubkey,
}
use omnipair_rs.Outcome.{ok, err, fails, not_undercollateralized}
use omnipair_rs.Math.{ceil_div, sqrt, sqrt_loop, compute_ema, slots_to_ms}
use omnipair_rs.Curve.{
  calculate_amount_out, calculate_amount_in, scaled_product, virtual_reserves, utilized_collateral,
  max_allowed_total_debt, base_cf_bps, liquidation_cf, max_allowed_cf, borrow_limit, limit_at_value,
  value_with_impact, pessimistic_max_debt,
}
use omnipair_rs.Futarchy.{is_reduce_only}
use omnipair_rs.Pair.{
  Side, Pair, spot_price_nad, ema_price_nad, directional_ema_price_nad, max_debt_on,
  max_debt_and_cf_bps, get_token_y, update, snap,
}
use omnipair_rs.Position.{
  UserPosition, calculate_debt, increase_debt, increase_debt_on, mint_shares, shares_for,
  set_liquidation_cf, decrease_debt_on, shares_to_burn, settle, sync_debt, write_off,
}
use omnipair_rs.Swap.{fee_of}
use omnipair_rs.Token.{transfer}
use omnipair_rs.Breaker.{
  require_no_same_tx_liquidity_delta, require_no_matching, load_instruction_count, scan,
  is_same_pair_liquidity_delta, targets, bytes_eq, prefix?, discriminator_matches, first_account_is,
}
use omnipair_rs.Lending.{DebtAccounts, CollateralAccounts, debt_on, collateral_on}
use omnipair_rs.Lending.Borrow.{
  borrow_terms, resolve_borrow_amount, borrow, validate_borrow, handle_borrow,
}
use omnipair_rs.Lending.Collateral.{validate_remove, withdraw_amount}
use omnipair_rs.Lending.Liquidate.{
  WriteOff, shares_to_writeoff, debt_to_writeoff, collateral_to_seize, write_off_of, absorb,
}
use omnipair_rs.Lending.Flashloan.{
  FlashloanArgs, FlashloanAccounts, earn, sync_native_if_wsol, handle_flashloan,
}
use omnipair_rs.Lending.Terms.{IsCovered, borrow_terms-IsCovered}
use omnipair_rs.Lending.Seizure.{write_off_of_bounds}
use omnipair_rs.Lending.Safety.{borrowed_is_safe}
use omnipair_rs.Lending.Guards.{validate_remove_covers, flashloan_repaid, HasEarned}
use omnipair_rs.Tests.{
  value_or, side_a, side_b, pair_ab, debtor, model, protocol, sysvar, ids, tokens, ledger,
}

pub priced-eq : ema_price_nad 100 pair_ab side_a side_b ≡ ok 2_000_000_000
unfolding ema_price_nad spot_price_nad compute_ema slots_to_ms
priced-eq = refl

pub owed-eq : calculate_debt 20_000_000_000 100_000 100_000_000_000 ≡ ok 20_000
unfolding calculate_debt ceil_div
owed-eq = refl

limit-eq :
    pessimistic_max_debt 50_000 2_000_000_000 2_000_000_000 1_000_000 2_000_000 100_000 none
    ≡ ok (76_904, 8_075, 8_500)
unfolding pessimistic_max_debt value_with_impact limit_at_value virtual_reserves scaled_product sqrt
    sqrt_loop utilized_collateral max_allowed_total_debt base_cf_bps liquidation_cf max_allowed_cf
    borrow_limit calculate_amount_out calculate_amount_in ceil_div
limit-eq = refl

pub value-eq : value_with_impact 50_000 2_000_000_000 2_000_000_000 1_000_000 2_000_000 ≡ ok 95_238
unfolding value_with_impact virtual_reserves scaled_product sqrt sqrt_loop calculate_amount_out
value-eq = refl

borrowed_is_safe_example :
    write_off_of 100 pair_ab side_a side_b 50_000 20_000_000_000 8_500
    ≡ err (fails not_undercollateralized)
borrowed_is_safe_example =
    borrowed_is_safe 100 pair_ab side_a side_b 50_000 20_000_000_000 2_000_000_000 2_000_000_000
      100_000 none limit-eq (omega arith) (omega arith) priced-eq owed-eq (omega arith)

granted-eq : borrow_terms 100 20 5_000 debtor pair_ab ≡ ok (5_000, 8_500)
unfolding borrow_terms resolve_borrow_amount debt_on collateral_on calculate_debt get_token_y
    max_debt_and_cf_bps max_debt_on ema_price_nad directional_ema_price_nad spot_price_nad
    compute_ema slots_to_ms pessimistic_max_debt value_with_impact limit_at_value virtual_reserves
    scaled_product sqrt sqrt_loop utilized_collateral max_allowed_total_debt base_cf_bps
    liquidation_cf max_allowed_cf borrow_limit calculate_amount_out calculate_amount_in ceil_div
granted-eq = refl

borrow_terms-IsCovered_example : IsCovered 100 20 5_000 debtor pair_ab 5_000 8_500
borrow_terms-IsCovered_example = borrow_terms-IsCovered 100 20 5_000 debtor pair_ab granted-eq

-- At a liquidation factor of 10% the same position is liquidated: half of its shares.
abbrev write_off_ab : WriteOff
write_off_ab = record {
  user_debt = 20_000;
  value = 95_238;
  shares = 10_000_000_000;
  debt = 10_000;
  collateral_base = 5_026;
  collateral_final = 5_177;
}

write_off-eq : write_off_of 100 pair_ab side_a side_b 50_000 20_000_000_000 1_000 ≡ ok write_off_ab
unfolding write_off_of calculate_debt ema_price_nad spot_price_nad compute_ema slots_to_ms
    virtual_reserves scaled_product sqrt sqrt_loop calculate_amount_out calculate_amount_in ceil_div
    shares_to_writeoff debt_to_writeoff collateral_to_seize
write_off-eq = refl

write_off_of_bounds_example :
    (calculate_debt 20_000_000_000 100_000 100_000_000_000 ≡ ok 20_000)
    × ((ema : ℕ) × (ema_price_nad 100 pair_ab side_a side_b ≡ ok ema)
        × (value_with_impact 50_000 ema ema 1_000_000 2_000_000 ≡ ok 95_238))
    × (95_238 * 1_000 / 10_000 ≤ 20_000)
    × (10_000_000_000 ≤ 20_000_000_000)
    × (95_238 < 20_000 → write_off_ab.shares ≡ 20_000_000_000)
    × (10_000 ≤ 20_000)
    × (5_177 ≤ 50_000)
write_off_of_bounds_example =
    write_off_of_bounds 100 pair_ab side_a side_b 50_000 20_000_000_000 1_000 write_off-eq

written-eq : debt_to_writeoff 10_000_000_000 20_000 side_b ≡ ok 10_000
unfolding debt_to_writeoff
written-eq = refl

abbrev relieved : Side
relieved = record side_b {
  reserve = 1_990_000;
  total_debt = 90_000;
  total_debt_shares = 90_000_000_000;
}

relieved-eq :
    decrease_debt_on side_b 20_000_000_000 10_000 (write_off 10_000_000_000)
    ≡ ok (relieved, 10_000_000_000)
unfolding decrease_debt_on shares_to_burn settle sync_debt
relieved-eq = refl

abbrev absorbed : Side
absorbed = record side_a { reserve = 1_005_152; cash_reserve = 905_152; total_collateral = 44_823 }

absorbed-eq : absorb 5_177 5_152 side_a ≡ ok absorbed
unfolding absorb
absorbed-eq = refl

abbrev pub debt_accounts : DebtAccounts
debt_accounts = record {
  reserve_vault = 52;
  user_reserve_token_account = 54;
  user_reserve_token_account_mint = 20;
  reserve_token_mint = 20;
}

abbrev pub after_borrow : UserPosition × Pair × (Pubkey → ℕ)
after_borrow =
    value_or (debtor, pair_ab, ledger)
      (borrow tokens 100 model ids 8 sysvar protocol debt_accounts 5_000 debtor pair_ab ledger)

pub after_borrow-eq :
    borrow tokens 100 model ids 8 sysvar protocol debt_accounts 5_000 debtor pair_ab ledger
    ≡ ok after_borrow
unfolding borrow validate_borrow handle_borrow transfer increase_debt increase_debt_on mint_shares
    shares_for set_liquidation_cf update snap is_reduce_only require_no_same_tx_liquidity_delta
    require_no_matching load_instruction_count scan is_same_pair_liquidity_delta targets prefix?
    bytes_eq discriminator_matches first_account_is borrow_terms resolve_borrow_amount debt_on
    collateral_on calculate_debt get_token_y max_debt_and_cf_bps max_debt_on ema_price_nad
    directional_ema_price_nad spot_price_nad compute_ema slots_to_ms pessimistic_max_debt
    value_with_impact limit_at_value virtual_reserves scaled_product sqrt sqrt_loop
    utilized_collateral max_allowed_total_debt base_cf_bps liquidation_cf max_allowed_cf
    borrow_limit calculate_amount_out calculate_amount_in ceil_div
after_borrow-eq = refl

abbrev collateral_accounts : CollateralAccounts
collateral_accounts = record {
  collateral_vault = 55;
  user_collateral_token_account = 53;
  user_collateral_token_account_mint = 10;
}

allowed-eq :
    validate_remove 100 ids 8 sysvar protocol collateral_accounts 10_000 debtor pair_ab ≡ ok tt
unfolding validate_remove withdraw_amount is_reduce_only require_no_same_tx_liquidity_delta
    require_no_matching load_instruction_count scan is_same_pair_liquidity_delta targets prefix?
    bytes_eq discriminator_matches first_account_is debt_on collateral_on calculate_debt
    max_debt_and_cf_bps max_debt_on ema_price_nad directional_ema_price_nad spot_price_nad
    compute_ema slots_to_ms pessimistic_max_debt value_with_impact limit_at_value virtual_reserves
    scaled_product sqrt sqrt_loop utilized_collateral max_allowed_total_debt base_cf_bps
    liquidation_cf max_allowed_cf borrow_limit calculate_amount_out calculate_amount_in ceil_div
allowed-eq = refl

validate_remove_covers_example :
    (debt : ℕ) × (debt_on false debtor pair_ab ≡ ok debt)
    × (0 < withdraw_amount 10_000 debt (collateral_on true debtor))
    × (withdraw_amount 10_000 debt (collateral_on true debtor) ≤ collateral_on true debtor)
    × (is_reduce_only protocol false ≡ true → debt ≡ 0)
    × (0 < debt
        → (limit allowed cf : ℕ) × (max_debt_and_cf_bps 100 pair_ab 10
              (collateral_on true debtor - withdraw_amount 10_000 debt (collateral_on true debtor))
            ≡ ok (limit, allowed, cf))
          × (debt ≤ limit))
validate_remove_covers_example =
    validate_remove_covers 100 ids 8 sysvar protocol collateral_accounts 10_000 debtor pair_ab
      allowed-eq

abbrev pub flashloan_accounts : FlashloanAccounts
flashloan_accounts = record {
  reserve0_vault = 51;
  reserve1_vault = 52;
  receiver_token0_account = 61;
  receiver_token1_account = 62;
}

abbrev pub loan : FlashloanArgs
loan = record { amount0 = 10_000; amount1 = 0 }

abbrev pub synced : Pubkey → (Pubkey → ℕ) → Option (Pubkey → ℕ)
synced account l = some l

-- The receiver pays back the loan and the fee of 5 units.
abbrev pays_back : (Pubkey → ℕ) → Option (Pubkey → ℕ)
pays_back l = tokens.transfer_checked 61 51 10_005 l

abbrev after_loan : Pair × (Pubkey → ℕ)
after_loan =
    value_or (pair_ab, ledger)
      (handle_flashloan tokens 77 synced pays_back flashloan_accounts loan pair_ab ledger)

after_loan-eq :
    handle_flashloan tokens 77 synced pays_back flashloan_accounts loan pair_ab ledger
    ≡ ok after_loan
unfolding handle_flashloan earn sync_native_if_wsol fee_of transfer ceil_div
after_loan-eq = refl

flashloan_repaid_example :
    (fee0 fee1 : ℕ) × (synced0 synced1 : Pubkey → ℕ) × (fee_of 10_000 5 ≡ ok fee0)
    × (fee_of 0 5 ≡ ok fee1)
    × (sync_native_if_wsol tokens 77 synced 51 10 ledger ≡ ok synced0)
    × (sync_native_if_wsol tokens 77 synced 52 20 synced0 ≡ ok synced1)
    × (synced1 51 + fee0 ≤ after_loan.1 51)
    × (synced1 52 + fee1 ≤ after_loan.1 52)
    × HasEarned fee0 side_a after_loan.0.side0
    × HasEarned fee1 side_b after_loan.0.side1
flashloan_repaid_example =
    flashloan_repaid tokens 77 synced pays_back flashloan_accounts loan pair_ab ledger after_loan-eq
