-- ===== src/Accounts/Admin.antt =====
-- The account constraints of the authority's instructions (instructions/futarchy) and of the views
-- (instructions/emit_value.rs).
use omnipair_rs.Base.{◌==◌, Pubkey}
use omnipair_rs.Outcome.{
  Result, ◌>>◌, require, invalid_futarchy_authority, invalid_reduce_only_authority,
  invalid_rate_model, invalid_pair,
}
use omnipair_rs.Futarchy.{FutarchyAuthority}
use omnipair_rs.Pair.{Pair}
use omnipair_rs.Position.{UserPosition}
use omnipair_rs.Accounts.{Chain, futarchy_authority, has_seeds, constraint, pair_account}

module _ (c : Chain) where
  -- The account of the authority, at the bump that it keeps.
  unfoldable pub authority_account : Pubkey → FutarchyAuthority → Result (Unit {0})
  authority_account key authority = constraint (has_seeds c futarchy_authority authority.bump key)

  -- The same at the bump that is found.
  unfoldable pub found_authority_account : Pubkey → Result (Unit {0})
  found_authority_account key =
      constraint (has_seeds c futarchy_authority (c.find_bump futarchy_authority) key)

  -- The signer is the authority.
  unfoldable pub authority_signer : Pubkey → FutarchyAuthority → Result (Unit {0})
  authority_signer signer authority = do
    constraint (c.is_signer signer)
    require (signer == authority.authority) invalid_futarchy_authority

  -- `UpdateFutarchyAuthority` and `CreateRateModel`.
  unfoldable pub update_authority_accounts : Pubkey → Pubkey → FutarchyAuthority → Result (Unit {0})
  update_authority_accounts signer key authority = do
    authority_signer signer authority
    authority_account key authority

  -- `UpdateProtocolRevenue` and `UpdateRevenueRecipients`.
  unfoldable pub update_revenue_accounts : Pubkey → Pubkey → FutarchyAuthority → Result (Unit {0})
  update_revenue_accounts signer key authority = do
    authority_signer signer authority
    found_authority_account key

  -- The signer is the emergency authority.
  unfoldable pub emergency_signer : Pubkey → Result (Unit {0})
  emergency_signer signer = do
    constraint (c.is_signer signer)
    require (signer == c.reduce_only_emergency_authority) invalid_reduce_only_authority

  -- `SetGlobalReduceOnly`.
  unfoldable pub set_global_reduce_only_accounts :
      Pubkey → Pubkey → FutarchyAuthority → Result (Unit {0})
  set_global_reduce_only_accounts signer key authority = do
    emergency_signer signer
    authority_account key authority

  -- `SetPairReduceOnly`.
  unfoldable pub set_pair_reduce_only_accounts : Pubkey → Pubkey → Pair → Result (Unit {0})
  set_pair_reduce_only_accounts signer pair_key p = do
    emergency_signer signer
    pair_account c pair_key p

  -- `SetPairRateModel`; the new model is any account of its type.
  unfoldable pub set_pair_rate_model_accounts :
      Pubkey → Pubkey → FutarchyAuthority → Pubkey → Pair → Result (Unit {0})
  set_pair_rate_model_accounts signer key authority pair_key p = do
    authority_signer signer authority
    authority_account key authority
    pair_account c pair_key p

  -- `ViewPairData`, for a rate model.
  unfoldable pub view_pair_accounts : Pubkey → Pubkey → FutarchyAuthority → Pair → Result (Unit {0})
  view_pair_accounts rate_model key authority p = do
    require (rate_model == p.rate_model) invalid_rate_model
    authority_account key authority

  -- `ViewUserPositionData`, for a pair and a rate model.
  unfoldable pub view_position_accounts :
      Pubkey → Pubkey → Pubkey → FutarchyAuthority → UserPosition → Pair → Result (Unit {0})
  view_position_accounts pair_key rate_model key authority u p = do
    require (u.pair == pair_key) invalid_pair
    require (rate_model == p.rate_model) invalid_rate_model
    authority_account key authority
