-- ===== src/Tests/Dispatched.antt =====
-- Examples for the dispatch of instructions, on the pair and the position of the runs.
use omnipair_rs.Base.{◌≡◌, refl, ap, sym, ◌∙◌, [], ◌∷◌, arith}
use mathlib.Core.Path.{subst}
use omnipair_rs.Outcome.{ok}
use omnipair_rs.Math.{ceil_div, sqrt, sqrt_loop, compute_ema, slots_to_ms}
use omnipair_rs.Curve.{
  calculate_amount_out, calculate_amount_in, scaled_product, virtual_reserves, utilized_collateral,
  max_allowed_total_debt, base_cf_bps, liquidation_cf, max_allowed_cf, borrow_limit, limit_at_value,
  value_with_impact, pessimistic_max_debt,
}
use omnipair_rs.Futarchy.{is_reduce_only}
use omnipair_rs.Pair.{
  spot_price_nad, ema_price_nad, directional_ema_price_nad, max_debt_on, max_debt_and_cf_bps,
  get_token_y, update, snap,
}
use omnipair_rs.Position.{
  calculate_debt, increase_debt, increase_debt_on, mint_shares, shares_for, set_liquidation_cf,
}
use omnipair_rs.Token.{transfer}
use omnipair_rs.Breaker.{
  require_no_same_tx_liquidity_delta, require_no_matching, load_instruction_count, scan,
  is_same_pair_liquidity_delta, targets, bytes_eq, prefix?, discriminator_matches, first_account_is,
}
use omnipair_rs.Lending.{debt_on, collateral_on}
use omnipair_rs.Lending.Borrow.{
  borrow_terms, resolve_borrow_amount, validate_borrow, handle_borrow, borrow,
}
use omnipair_rs.System.{at, Reach, IsBelow}
use omnipair_rs.System.Dispatch
use omnipair_rs.System.Dispatch.{Env, execute, find}
use omnipair_rs.System.Phases.{UpdatesBelow}
use omnipair_rs.System.Refine.{execute_refines}
use omnipair_rs.Tests.{value_or, model, protocol, sysvar, ids, tokens}
use omnipair_rs.Tests.Runs.{
  secured_ledger, lent_ledger, secured_pair, lent_pair, saver, borrower, loan_accounts,
}

abbrev pub now : Env
now = record {
  slot = 100;
  rate_model = model;
  authority = protocol;
  ids = ids;
  pair_key = 8;
  sysvar = sysvar;
}

updated-eq : update 100 model 1_000 secured_pair ≡ ok secured_pair
unfolding update snap spot_price_nad
updated-eq = refl

updates_below : UpdatesBelow now secured_pair
updates_below c h =
    let same : secured_pair ≡ c = ap (value_or secured_pair) (sym updated-eq ∙ h) in
    subst IsBelow same (omega arith, omega arith, omega arith, omega arith)

executed-eq :
    execute tokens now
      (Dispatch.borrow 7 loan_accounts 5_000)
      (at tokens (saver ∷ []) secured_pair secured_ledger)
    ≡ ok (at tokens (borrower ∷ []) lent_pair lent_ledger)
unfolding execute find borrow handle_borrow transfer increase_debt increase_debt_on mint_shares
    shares_for set_liquidation_cf borrow_terms resolve_borrow_amount debt_on collateral_on
    calculate_debt get_token_y max_debt_and_cf_bps max_debt_on ema_price_nad
    directional_ema_price_nad spot_price_nad compute_ema slots_to_ms pessimistic_max_debt
    value_with_impact limit_at_value virtual_reserves scaled_product sqrt sqrt_loop
    utilized_collateral max_allowed_total_debt base_cf_bps liquidation_cf max_allowed_cf
    borrow_limit calculate_amount_out calculate_amount_in ceil_div update snap validate_borrow
    is_reduce_only require_no_same_tx_liquidity_delta require_no_matching load_instruction_count
    scan is_same_pair_liquidity_delta targets prefix? bytes_eq discriminator_matches
    first_account_is
executed-eq = refl

execute_refines_example :
    Reach tokens
      (at tokens (saver ∷ []) secured_pair secured_ledger)
      (at tokens (borrower ∷ []) lent_pair lent_ledger)
execute_refines_example =
    execute_refines tokens now (Dispatch.borrow 7 loan_accounts 5_000) (saver ∷ []) secured_pair
      secured_ledger tt (omega arith, omega arith, omega arith, omega arith) updates_below
      (omega arith, omega arith, omega arith, omega arith) executed-eq
