-- ===== src/Lending.antt =====
-- programs/omnipair/src/instructions/lending: what the lending instructions share. A handler takes the
-- user's position, the pair and the token balances, and returns all three.
pub mod Borrow
pub mod Repay
pub mod Collateral
pub mod Liquidate
pub mod Flashloan
pub mod Terms
pub mod Seizure
pub mod Guards
pub mod Safety
pub mod RoundTrip
use omnipair_rs.Base.{ℕ, Bool, ◌==◌, if◌then◌else◌, Pubkey}
use omnipair_rs.Outcome.{Result}
use omnipair_rs.Pair.{Pair}
use omnipair_rs.Position.{UserPosition, calculate_debt}

-- The accounts of `Borrow` and `CommonAdjustDebt` that the code uses, and the mints that it compares.
pub record DebtAccounts : Type 0 where
  pub reserve_vault : Pubkey
  pub user_reserve_token_account : Pubkey
  pub user_reserve_token_account_mint : Pubkey
  pub reserve_token_mint : Pubkey

-- The accounts of `AddCollateral` and `CommonAdjustCollateral` that the code uses.
pub record CollateralAccounts : Type 0 where
  pub collateral_vault : Pubkey
  pub user_collateral_token_account : Pubkey
  pub user_collateral_token_account_mint : Pubkey

-- What the user owes of token 0, or of token 1.
unfoldable pub debt_on : Bool → UserPosition → Pair → Result ℕ
debt_on is_token0 u p =
    if is_token0
    then calculate_debt u.debt0_shares p.side0.total_debt p.side0.total_debt_shares
    else calculate_debt u.debt1_shares p.side1.total_debt p.side1.total_debt_shares

-- The user's collateral in token 0, or in token 1.
unfoldable pub collateral_on : Bool → UserPosition → ℕ
collateral_on is_token0 u = if is_token0 then u.collateral0 else u.collateral1
