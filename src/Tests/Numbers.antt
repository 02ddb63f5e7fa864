-- ===== src/Tests/Numbers.antt =====
-- Examples for the numbers, the borrow limit and the circuit breaker.
use omnipair_rs.Base.{ℕ, ◌<◌, ◌-◌, ◌*◌, ◌/◌, ◌≤◌, ◌≡◌, ◌↔◌, min, max, true, some, refl, arith}
use omnipair_rs.Outcome.{ok}
use omnipair_rs.Math.{ceil_div, sqrt, sqrt_loop, compute_ema}
use omnipair_rs.Math.Sqrt.{IsRoot, sqrt_lem}
use omnipair_rs.Math.Exp.{compute_ema_bounds}
use omnipair_rs.Curve.{
  calculate_amount_out, scaled_product, virtual_reserves, liquidation_cf, base_cf_bps,
  max_allowed_cf, borrow_limit, limit_at_value, value_with_impact, pessimistic_max_debt,
}
use omnipair_rs.Curve.Limit.{limit-le-liquidation}
use omnipair_rs.Breaker.{Instruction, load_instruction_count, require_no_matching}
use omnipair_rs.Breaker.Deltas.{IsAllowed, require_no_matching_iff}
use omnipair_rs.Tests.{sysvar, ids}

sqrt_lem_example : (r : ℕ) × (sqrt 2_000_000_000_000 ≡ some r) × IsRoot 2_000_000_000_000 r
sqrt_lem_example = sqrt_lem 2_000_000_000_000 (omega arith)

compute_ema_bounds_example :
    (r : ℕ) × (compute_ema 150 2_000_000_000 100 1_000_000_000 60_000 ≡ ok r)
    × (min 2_000_000_000 1_000_000_000 ≤ r)
    × (r ≤ max 2_000_000_000 1_000_000_000)
compute_ema_bounds_example =
    compute_ema_bounds 150 2_000_000_000 100 1_000_000_000 60_000 (omega arith) (omega arith)
      (omega arith) (omega arith) (omega arith)

-- A fixed factor of 80%, with the directional price 10% below the symmetric one.
fixed-eq :
    pessimistic_max_debt 50_000 2_000_000_000 1_800_000_000 1_000_000 2_000_000 100_000 (some 8_000)
    ≡ ok (58_772, 6_840, 7_200)
unfolding pessimistic_max_debt value_with_impact limit_at_value virtual_reserves scaled_product sqrt
    sqrt_loop base_cf_bps liquidation_cf max_allowed_cf borrow_limit calculate_amount_out ceil_div
fixed-eq = refl

value-eq : value_with_impact 50_000 2_000_000_000 1_800_000_000 1_000_000 2_000_000 ≡ ok 85_924
unfolding value_with_impact virtual_reserves scaled_product sqrt sqrt_loop calculate_amount_out
value-eq = refl

limit-le-liquidation_example :
    (58_772 * (10_000 * 10_000) ≤ 85_924 * 7_200 * (10_000 - 500))
    × (58_772 ≤ 85_924 * 7_200 / 10_000)
limit-le-liquidation_example =
    limit-le-liquidation 50_000 2_000_000_000 1_800_000_000 1_000_000 2_000_000 100_000 (some 8_000)
      fixed-eq value-eq

counted-eq : load_instruction_count sysvar.bytes ≡ ok 1
unfolding load_instruction_count
counted-eq = refl

require_no_matching_iff_example : (require_no_matching ids 8 sysvar true ≡ ok tt) ↔ (
    (i : ℕ)
    → i < 1
    → (ix : Instruction) × (sysvar.load_instruction_at i ≡ some ix) × IsAllowed true 6 8 ix)
require_no_matching_iff_example = require_no_matching_iff ids 8 sysvar true 1 refl counted-eq
