-- ===== src/Swap.antt =====
-- programs/omnipair/src/instructions/spot/swap.rs: the swap instruction.
pub mod Invariant
pub mod Backing
use omnipair_rs.Base.{
  ℕ, ◌+◌, ◌-◌, ◌*◌, Bool, true, false, not, Option, ltb, leb, ◌==◌, if◌then◌else◌, Pubkey,
}
use omnipair_rs.Word.{u64, u128, checked_add, checked_mul, checked_sub, saturating_add, cast}
use omnipair_rs.Outcome.{
  ErrorCode, Result, ok, err, ◌>>=◌, ◌>>◌, require, ok_or, amount_zero, insufficient_balance,
  invalid_vault_same_account, invalid_token_account, invariant_overflow, fee_math_overflow,
  overflow, slippage_exceeded, insufficient_cash_reserve0, insufficient_cash_reserve1,
  broken_invariant,
}
use omnipair_rs.Constants.{bps_denominator}
use omnipair_rs.Math.{ceil_div}
use omnipair_rs.Curve.{calculate_amount_out}
use omnipair_rs.RateModel.{RateModel}
use omnipair_rs.Futarchy.{FutarchyAuthority}
use omnipair_rs.Pair.{Side, Pair, update}
use omnipair_rs.Token.{TokenProgram, transfer}

pub record SwapArgs : Type 0 where
  pub amount_in : ℕ
  pub min_amount_out : ℕ

-- The token accounts of the instruction, and the mints of those whose mint the code compares.
pub record SwapAccounts : Type 0 where
  pub token_in_vault : Pubkey
  pub token_out_vault : Pubkey
  pub user_token_in : Pubkey
  pub user_token_out : Pubkey
  pub token_in_vault_mint : Pubkey
  pub token_out_vault_mint : Pubkey
  pub user_token_in_mint : Pubkey

-- A share of an amount in basis points, rounded up, as every fee is computed.
unfoldable pub fee_of : ℕ → ℕ → Result ℕ
fee_of amount bps = do
  product ← ok_or (checked_mul u128 amount bps) fee_math_overflow
  fee ← ok_or (ceil_div product bps_denominator) fee_math_overflow
  ok (cast u64 fee)

-- The reserves after a swap from side `i` to side `o`, and the amount that is paid out; `short` is the
-- error of the side that pays.
unfoldable pub swap_sides : ℕ → ℕ → SwapArgs → ErrorCode → Side → Side → Result (Side × Side × ℕ)
swap_sides swap_fee_bps futarchy_bps args short i o = do
  swap_fee ← fee_of args.amount_in swap_fee_bps
  futarchy_fee ← fee_of swap_fee futarchy_bps
  after_fee ← ok_or (checked_sub args.amount_in swap_fee) fee_math_overflow
  amount_out ← calculate_amount_out i.reserve o.reserve after_fee
  with_lp_fee ← ok_or (checked_sub args.amount_in futarchy_fee) overflow
  new_in ← ok_or (checked_add u64 i.reserve with_lp_fee) overflow
  new_out ← ok_or (checked_sub o.reserve amount_out) overflow
  require (leb args.min_amount_out amount_out) slippage_exceeded
  require (leb amount_out o.cash_reserve) short
  ok (
    record i { reserve = new_in; cash_reserve = saturating_add u64 i.cash_reserve with_lp_fee },
    record o { reserve = new_out; cash_reserve = o.cash_reserve - amount_out },
    amount_out,
  )

-- The pair after a swap, in either direction.
unfoldable pub swap_pair : ℕ → SwapArgs → Bool → Pair → Result (Pair × ℕ)
swap_pair futarchy_bps args true p = do
  (i, o, out) ←
      swap_sides p.swap_fee_bps futarchy_bps args insufficient_cash_reserve1 p.side0 p.side1
  ok (record p { side0 = i; side1 = o }, out)
swap_pair futarchy_bps args false p = do
  (i, o, out) ←
      swap_sides p.swap_fee_bps futarchy_bps args insufficient_cash_reserve0 p.side1 p.side0
  ok (record p { side0 = o; side1 = i }, out)

-- The products of the reserves before and after, and the check between them.
unfoldable pub checked_swap : ℕ → SwapArgs → Bool → Pair → Result (Pair × ℕ)
checked_swap futarchy_bps args is_token0_in p = do
  last_k ← ok_or (checked_mul u128 p.side0.reserve p.side1.reserve) invariant_overflow
  (q, out) ← swap_pair futarchy_bps args is_token0_in p
  new_k ← ok_or (checked_mul u128 q.side0.reserve q.side1.reserve) overflow
  require (leb last_k new_k) broken_invariant
  ok (q, out)

module _ (t : TokenProgram) where
  open t use {Ledger, balance}

  -- `Swap::validate`.
  unfoldable pub validate_swap : SwapAccounts → SwapArgs → Pair → Ledger → Result (Unit {0})
  validate_swap a args p l = do
    require (ltb 0 args.amount_in) amount_zero
    require (leb args.amount_in (balance l a.user_token_in)) insufficient_balance
    require (not (a.token_in_vault == a.token_out_vault)) invalid_vault_same_account
    let is_token0_in = a.user_token_in_mint == p.token0
    require (a.token_in_vault_mint == (if is_token0_in then p.token0 else p.token1))
        invalid_token_account
    require (a.token_out_vault_mint == (if is_token0_in then p.token1 else p.token0))
        invalid_token_account

  -- `Swap::handle_swap`.
  unfoldable pub handle_swap :
      FutarchyAuthority → SwapAccounts → SwapArgs → Pair → Ledger → Result (Pair × Ledger)
  handle_swap authority a args p l = do
    (q, out) ←
        checked_swap authority.revenue_share.swap_bps args (a.user_token_in_mint == p.token0) p
    paid ← transfer t a.user_token_in a.token_in_vault args.amount_in l
    received ← transfer t a.token_out_vault a.user_token_out out paid
    ok (q, received)

  -- The instruction: `update_and_validate_swap`, then the handler.
  unfoldable pub swap :
      ℕ
      → RateModel
      → FutarchyAuthority
      → SwapAccounts
      → SwapArgs
      → Pair
      → Ledger
      → Result (Pair × Ledger)
  swap slot m authority a args p l = do
    current ← update slot m authority.revenue_share.interest_bps p
    validate_swap a args current l
    handle_swap authority a args current l
