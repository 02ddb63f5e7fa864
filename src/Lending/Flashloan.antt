-- ===== src/Lending/Flashloan.antt =====
-- programs/omnipair/src/instructions/lending/flashloan.rs: the instruction `flashloan`. The receiver's
-- callback, the token program's `sync_native` and the mint of wrapped SOL are parameters.
use omnipair_rs.Base.{ℕ, not, Option, ltb, leb, ◌==◌, ◌||◌, if◌then◌else◌, Pubkey}
use omnipair_rs.Word.{u64, checked_add, saturating_add}
use omnipair_rs.Outcome.{
  Result, ok, ◌>>=◌, ◌>>◌, require, unwrap, amount_zero, borrow_exceeds_reserve,
  insufficient_amount0, insufficient_amount1,
}
use omnipair_rs.Constants.{flashloan_fee_bps}
use omnipair_rs.RateModel.{RateModel}
use omnipair_rs.Futarchy.{FutarchyAuthority}
use omnipair_rs.Pair.{Side, Pair, update}
use omnipair_rs.Swap.{fee_of}
use omnipair_rs.Token.{TokenProgram, transfer, or_external}

pub record FlashloanArgs : Type 0 where
  pub amount0 : ℕ
  pub amount1 : ℕ

pub record FlashloanAccounts : Type 0 where
  pub reserve0_vault : Pubkey
  pub reserve1_vault : Pubkey
  pub receiver_token0_account : Pubkey
  pub receiver_token1_account : Pubkey

-- `Flashloan::validate`.
unfoldable pub validate_flashloan : FlashloanArgs → Pair → Result (Unit {0})
validate_flashloan args p = do
  require (ltb 0 args.amount0 || ltb 0 args.amount1) amount_zero
  require (not (ltb 0 args.amount0) || leb args.amount0 p.side0.cash_reserve) borrow_exceeds_reserve
  require (not (ltb 0 args.amount1) || leb args.amount1 p.side1.cash_reserve) borrow_exceeds_reserve

-- The fee is liquidity.
unfoldable pub earn : ℕ → Side → Side
earn fee s = record s {
  reserve = saturating_add u64 s.reserve fee;
  cash_reserve = saturating_add u64 s.cash_reserve fee;
}

module _ (t : TokenProgram) where
  open t use {Ledger, balance}

  module _ (native_mint : Pubkey) (sync_native : Pubkey → Ledger → Option Ledger) where
    -- `sync_native_if_wsol`, for an account of a mint.
    unfoldable pub sync_native_if_wsol : Pubkey → Pubkey → Ledger → Result Ledger
    sync_native_if_wsol account mint l =
        if mint == native_mint then or_external t (sync_native account l) else ok l

    module _ (callback : Ledger → Option Ledger) where
      -- `Flashloan::handle_flashloan`.
      unfoldable pub handle_flashloan :
          FlashloanAccounts → FlashloanArgs → Pair → Ledger → Result (Pair × Ledger)
      handle_flashloan a args p l = do
        fee0 ← fee_of args.amount0 flashloan_fee_bps
        fee1 ← fee_of args.amount1 flashloan_fee_bps
        synced0 ← sync_native_if_wsol a.reserve0_vault p.token0 l
        synced ← sync_native_if_wsol a.reserve1_vault p.token1 synced0
        lent0 ← transfer t a.reserve0_vault a.receiver_token0_account args.amount0 synced
        lent ← transfer t a.reserve1_vault a.receiver_token1_account args.amount1 lent0
        returned ← or_external t (callback lent)
        required0 ← unwrap (checked_add u64 (balance synced a.reserve0_vault) fee0)
        required1 ← unwrap (checked_add u64 (balance synced a.reserve1_vault) fee1)
        require (leb required0 (balance returned a.reserve0_vault)) insufficient_amount0
        require (leb required1 (balance returned a.reserve1_vault)) insufficient_amount1
        ok (record p { side0 = earn fee0 p.side0; side1 = earn fee1 p.side1 }, returned)

      -- The instruction: `update_and_validate`, then the handler.
      unfoldable pub flashloan :
          ℕ
          → RateModel
          → FutarchyAuthority
          → FlashloanAccounts
          → FlashloanArgs
          → Pair
          → Ledger
          → Result (Pair × Ledger)
      flashloan slot m authority a args p l = do
        current ← update slot m authority.revenue_share.interest_bps p
        validate_flashloan args current
        handle_flashloan a args current l
