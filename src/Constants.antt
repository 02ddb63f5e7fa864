-- ===== src/Constants.antt =====
-- The constants of programs/omnipair/src/constants.rs that the modelled code reads.
use omnipair_rs.Base.{ℕ, ◌*◌}

abbrev pub nad : ℕ
nad = 1_000_000_000

abbrev pub nad_decimals : ℕ
nad_decimals = 9

abbrev pub bps_denominator : ℕ
bps_denominator = 10_000

abbrev pub close_factor_bps : ℕ
close_factor_bps = 5_000

abbrev pub max_collateral_factor_bps : ℕ
max_collateral_factor_bps = 8_500

abbrev pub ltv_buffer_bps : ℕ
ltv_buffer_bps = 500

abbrev pub flashloan_fee_bps : ℕ
flashloan_fee_bps = 5

abbrev pub liquidation_incentive_bps : ℕ
liquidation_incentive_bps = 50

abbrev pub liquidation_penalty_bps : ℕ
liquidation_penalty_bps = 300

abbrev pub liquidity_withdrawal_fee_bps : ℕ
liquidity_withdrawal_fee_bps = 100

abbrev pub post_withdraw_debt_coverage_bps : ℕ
post_withdraw_debt_coverage_bps = 11_500

abbrev pub directional_ema_half_life_ms : ℕ
directional_ema_half_life_ms = 3_000

abbrev pub target_ms_per_slot : ℕ
target_ms_per_slot = 400

abbrev pub min_half_life_ms : ℕ
min_half_life_ms = 60_000

abbrev pub max_half_life_ms : ℕ
max_half_life_ms = 43_200_000

abbrev pub taylor_terms : ℕ
taylor_terms = 5

abbrev pub natural_log_of_two_nad : ℕ
natural_log_of_two_nad = 693_147_180

abbrev pub min_liquidity : ℕ
min_liquidity = 1_000

abbrev pub max_allowed_rate_bps : ℕ
max_allowed_rate_bps = 100_000

abbrev pub min_initial_rate_bps : ℕ
min_initial_rate_bps = 10

abbrev pub max_initial_rate_bps : ℕ
max_initial_rate_bps = 10_000

abbrev pub ms_per_day : ℕ
ms_per_day = 86_400_000

abbrev pub default_rate_half_life_ms : ℕ
default_rate_half_life_ms = 3 * ms_per_day

abbrev pub min_rate_half_life_ms : ℕ
min_rate_half_life_ms = 3_600_000

abbrev pub max_rate_half_life_ms : ℕ
max_rate_half_life_ms = 2_592_000_000

abbrev pub debt_share_scale : ℕ
debt_share_scale = 1_000_000

abbrev pub milliseconds_per_year : ℕ
milliseconds_per_year = 31_536_000_000

abbrev pub min_target_util_bps : ℕ
min_target_util_bps = 100

abbrev pub max_target_util_bps : ℕ
max_target_util_bps = 10_000

abbrev pub default_initial_rate_bps : ℕ
default_initial_rate_bps = 200

abbrev pub default_min_rate_bps : ℕ
default_min_rate_bps = 100

abbrev pub default_max_rate_bps : ℕ
default_max_rate_bps = 0

abbrev pub target_util_start_bps : ℕ
target_util_start_bps = 3_000

abbrev pub target_util_end_bps : ℕ
target_util_end_bps = 5_000

abbrev pub version : ℕ
version = 1

abbrev pub pair_creation_fee_lamports : ℕ
pair_creation_fee_lamports = 200_000_000
