-- ===== src/Futarchy/Admin.antt =====
-- programs/omnipair/src/instructions/futarchy: the instructions of the protocol's authority. Their
-- accounts and signers are checked before (Accounts.Admin).
use omnipair_rs.Base.{ℕ, Bool, Option, some, none, leb, ◌==◌, Pubkey}
use omnipair_rs.Word.{u16, checked_add}
use omnipair_rs.Outcome.{
  Result, ok, ◌>>=◌, ◌>>◌, require, ok_or, invalid_swap_fee_bps, invalid_interest_fee_bps,
  invalid_distribution, invalid_deployer, fee_math_overflow, invalid_util_bounds,
  invalid_rate_params,
}
use omnipair_rs.Constants.{bps_denominator}
use omnipair_rs.Futarchy.{
  RevenueShare, RevenueRecipients, RevenueDistribution, FutarchyAuthority, is_valid, initialize,
}
use omnipair_rs.RateModel.{RateModel, new, validate_util_bounds, validate_rate_params}
use omnipair_rs.Pair.{Pair}

pub record UpdateProtocolRevenueArgs : Type 0 where
  pub swap_bps : Option ℕ
  pub interest_bps : Option ℕ
  pub revenue_distribution : Option RevenueDistribution

pub record UpdateRevenueRecipientsArgs : Type 0 where
  pub futarchy_treasury : Option Pubkey
  pub buybacks_vault : Option Pubkey
  pub team_treasury : Option Pubkey

pub record CreateRateModelArgs : Type 0 where
  pub target_util_start_bps : ℕ
  pub target_util_end_bps : ℕ
  pub half_life_ms : ℕ
  pub min_rate_bps : ℕ
  pub max_rate_bps : ℕ
  pub initial_rate_bps : ℕ

-- `handle_init`, from the program's upgrade authority; `none` is a program that has none, or whose
-- data cannot be read.
unfoldable pub init_futarchy_authority :
    Option Pubkey
    → Pubkey
    → Pubkey
    → RevenueShare
    → RevenueRecipients
    → RevenueDistribution
    → ℕ
    → Result FutarchyAuthority
init_futarchy_authority upgrade_authority deployer key share recipients distribution bump = do
  expected ← ok_or upgrade_authority invalid_deployer
  require (deployer == expected) invalid_deployer
  require (leb share.swap_bps bps_denominator) invalid_swap_fee_bps
  require (leb share.interest_bps bps_denominator) invalid_interest_fee_bps
  first ←
      ok_or (checked_add u16 distribution.futarchy_treasury_bps distribution.buybacks_vault_bps)
        fee_math_overflow
  total ← ok_or (checked_add u16 first distribution.team_treasury_bps) fee_math_overflow
  require (total == bps_denominator) invalid_distribution
  initialize key share recipients distribution bump

-- `handle_update` of `UpdateFutarchyAuthority`.
unfoldable pub update_futarchy_authority : Pubkey → FutarchyAuthority → FutarchyAuthority
update_futarchy_authority new_authority a = record a { authority = new_authority }

-- The three parts of `handle_update` of `UpdateProtocolRevenue`.
unfoldable pub update_swap_bps : Option ℕ → FutarchyAuthority → Result FutarchyAuthority
update_swap_bps none a = ok a
update_swap_bps (some bps) a = do
  require (leb bps bps_denominator) invalid_swap_fee_bps
  ok (record a { revenue_share = record (a.revenue_share) { swap_bps = bps } })

unfoldable pub update_interest_bps : Option ℕ → FutarchyAuthority → Result FutarchyAuthority
update_interest_bps none a = ok a
update_interest_bps (some bps) a = do
  require (leb bps bps_denominator) invalid_interest_fee_bps
  ok (record a { revenue_share = record (a.revenue_share) { interest_bps = bps } })

unfoldable pub update_distribution :
    Option RevenueDistribution → FutarchyAuthority → Result FutarchyAuthority
update_distribution none a = ok a
update_distribution (some d) a = do
  require (is_valid d) invalid_distribution
  ok (record a { revenue_distribution = d })

unfoldable pub update_protocol_revenue :
    UpdateProtocolRevenueArgs → FutarchyAuthority → Result FutarchyAuthority
update_protocol_revenue args a = do
  b ← update_swap_bps args.swap_bps a
  c ← update_interest_bps args.interest_bps b
  update_distribution args.revenue_distribution c

abbrev given : Option Pubkey → Pubkey → Pubkey
given none old = old
given (some key) old = key

-- `handle_update` of `UpdateRevenueRecipients`.
unfoldable pub update_revenue_recipients :
    UpdateRevenueRecipientsArgs → FutarchyAuthority → FutarchyAuthority
update_revenue_recipients args a = record a {
  recipients = record {
    futarchy_treasury = given args.futarchy_treasury a.recipients.futarchy_treasury;
    buybacks_vault = given args.buybacks_vault a.recipients.buybacks_vault;
    team_treasury = given args.team_treasury a.recipients.team_treasury;
  };
}

unfoldable pub set_global_reduce_only : Bool → FutarchyAuthority → FutarchyAuthority
set_global_reduce_only flag a = record a { global_reduce_only = flag }

unfoldable pub set_pair_reduce_only : Bool → Pair → Pair
set_pair_reduce_only flag p = record p { reduce_only = flag }

unfoldable pub set_pair_rate_model : Pubkey → Pair → Pair
set_pair_rate_model new_rate_model p = record p { rate_model = new_rate_model }

-- `CreateRateModel::validate`, then `handle_create_rate_model`.
unfoldable pub create_rate_model : CreateRateModelArgs → Result RateModel
create_rate_model args = do
  require (validate_util_bounds args.target_util_start_bps args.target_util_end_bps)
      invalid_util_bounds
  require
      (validate_rate_params args.half_life_ms args.min_rate_bps args.max_rate_bps
        args.initial_rate_bps)
      invalid_rate_params
  new args.target_util_start_bps args.target_util_end_bps args.half_life_ms args.min_rate_bps
      args.max_rate_bps args.initial_rate_bps
