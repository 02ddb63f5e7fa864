-- ===== src/Liquidity.antt =====
-- programs/omnipair/src/instructions/liquidity: what adding and removing liquidity share.
pub mod Add
pub mod Remove
pub mod LpMint
pub mod Bootstrap
pub mod Founding
pub mod Encoding
pub mod Share
pub mod Dilution
use omnipair_rs.Base.{ℕ, ◌*◌, ◌/◌, Pubkey}
use omnipair_rs.Word.{u64, u128, checked_add, checked_mul, checked_div, checked_sub, try_into}
use omnipair_rs.Outcome.{
  ErrorCode, Result, ok, ◌>>=◌, ok_or, liquidity_math_overflow, liquidity_conversion_overflow,
}
use omnipair_rs.Math.{ceil_div}

-- The token accounts of `AdjustLiquidity` and `RemoveLiquidity`.
pub record LiquidityAccounts : Type 0 where
  pub reserve0_vault : Pubkey
  pub reserve1_vault : Pubkey
  pub user_token0 : Pubkey
  pub user_token1 : Pubkey
  pub user_lp : Pubkey

-- `a * b / d` on `u128`.
unfoldable pub checked_share : ℕ → ℕ → ℕ → Result ℕ
checked_share a b d = do
  product ← ok_or (checked_mul u128 a b) liquidity_math_overflow
  ok_or (checked_div product d) liquidity_math_overflow

-- The share of a reserve that LP tokens stand for, rounded down.
unfoldable pub reserve_share : ℕ → ℕ → ℕ → Result ℕ
unfolding checked_share
reserve_share liquidity reserve total_supply = do
  share ← checked_share liquidity reserve total_supply
  ok_or (try_into u64 share) liquidity_conversion_overflow

-- The same, rounded up.
unfoldable pub reserve_share_up : ℕ → ℕ → ℕ → Result ℕ
reserve_share_up liquidity reserve total_supply = do
  product ← ok_or (checked_mul u128 liquidity reserve) liquidity_math_overflow
  share ← ok_or (ceil_div product total_supply) liquidity_math_overflow
  ok_or (try_into u64 share) liquidity_conversion_overflow
