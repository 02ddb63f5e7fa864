-- ===== src/Futarchy.antt =====
-- programs/omnipair/src/state/futarchy_authority.rs: the protocol's authority, its revenue and the
-- global reduce-only switch.
pub mod Admin
pub mod Claim
pub mod Revenue
use omnipair_rs.Base.{ℕ, ◌+◌, min, Bool, false, ◌==◌, ◌||◌, Pubkey}
use omnipair_rs.Word.{u16, saturating_add}
use omnipair_rs.Outcome.{Result, ok, ◌>>=◌, ◌>>◌, require, invalid_distribution}

pub record RevenueShare : Type 0 where
  pub swap_bps : ℕ
  pub interest_bps : ℕ

pub record RevenueRecipients : Type 0 where
  pub futarchy_treasury : Pubkey
  pub buybacks_vault : Pubkey
  pub team_treasury : Pubkey

pub record RevenueDistribution : Type 0 where
  pub futarchy_treasury_bps : ℕ
  pub buybacks_vault_bps : ℕ
  pub team_treasury_bps : ℕ

pub record FutarchyAuthority : Type 0 where
  pub version : ℕ
  pub authority : Pubkey
  pub recipients : RevenueRecipients
  pub revenue_share : RevenueShare
  pub revenue_distribution : RevenueDistribution
  pub global_reduce_only : Bool
  pub bump : ℕ

-- `RevenueDistribution::is_valid`, on saturating `u16` sums.
unfoldable pub is_valid : RevenueDistribution → Bool
is_valid d =
    saturating_add u16 (saturating_add u16 d.futarchy_treasury_bps d.buybacks_vault_bps)
      d.team_treasury_bps
    == 10_000

-- `FutarchyAuthority::validate`.
unfoldable pub validate : FutarchyAuthority → Result (Unit {0})
validate a = require (is_valid a.revenue_distribution) invalid_distribution

unfoldable pub is_reduce_only : FutarchyAuthority → Bool → Bool
is_reduce_only a pair_reduce_only = a.global_reduce_only || pair_reduce_only

-- `FutarchyAuthority::initialize`.
unfoldable pub initialize :
    Pubkey → RevenueShare → RevenueRecipients → RevenueDistribution → ℕ → Result FutarchyAuthority
initialize key share recipients distribution bump = do
  require (is_valid distribution) invalid_distribution
  ok (record {
    version = 1;
    authority = key;
    recipients = recipients;
    revenue_share = share;
    revenue_distribution = distribution;
    global_reduce_only = false;
    bump = bump;
  })
