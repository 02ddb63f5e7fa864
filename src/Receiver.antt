-- ===== src/Receiver.antt =====
-- examples/flashloan_receiver/src/lib.rs: the example of a program that takes flash loans. The token
-- program is a parameter; a failure of the callback is `none`.
pub mod Shortfall
use omnipair_rs.Base.{ℕ, Option, none, some, ltb, leb, if◌then◌else◌, Pubkey}
use omnipair_rs.Token.{TokenProgram}

pub record FlashLoanCallback : Type 0 where
  pub receiver_token0_account : Pubkey
  pub receiver_token1_account : Pubkey
  pub token0_vault : Pubkey
  pub token1_vault : Pubkey

-- What the callback reads of `FlashLoanCallbackData`.
pub record FlashLoanCallbackData : Type 0 where
  pub amount0 : ℕ
  pub amount1 : ℕ

module _ (t : TokenProgram) where
  open t use {Ledger, balance, transfer_checked}

  -- The return of one token, if it was borrowed.
  unfoldable pub give_back : Pubkey → Pubkey → ℕ → Ledger → Option Ledger
  give_back from to amount l = if ltb 0 amount then transfer_checked from to amount l else some l

  -- `flash_loan_callback`.
  unfoldable pub flash_loan_callback :
      FlashLoanCallback → FlashLoanCallbackData → Ledger → Option Ledger
  flash_loan_callback a d l =
      let returned : Option Ledger =
        elim (give_back a.receiver_token0_account a.token0_vault d.amount0 l) [
          | none ↦ none
          | some returned0 ↦ give_back a.receiver_token1_account a.token1_vault d.amount1 returned0
        ] in
      if leb d.amount0 (balance l a.receiver_token0_account)
      then if leb d.amount1 (balance l a.receiver_token1_account) then returned else none
      else none
