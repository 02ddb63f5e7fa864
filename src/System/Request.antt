-- ===== src/System/Request.antt =====
-- The entry of an instruction (programs/omnipair/src/lib.rs): Anchor checks the account constraints, on
-- the state before the instruction, and the instruction runs with the accounts that pass.
use omnipair_rs.Base.{ℕ, Bool, Option, none, some, List, Pubkey}
use omnipair_rs.Outcome.{Result, ok, err, external, ◌>>=◌, ◌>>◌}
use omnipair_rs.Position.{UserPosition}
use omnipair_rs.Token.{TokenProgram}
use omnipair_rs.Swap.{SwapArgs}
use omnipair_rs.Liquidity.Add.{AddLiquidityArgs}
use omnipair_rs.Liquidity.Remove.{RemoveLiquidityArgs}
use omnipair_rs.Lending.Flashloan.{FlashloanArgs}
use omnipair_rs.Accounts.{Chain, gamm_position}
use omnipair_rs.Accounts.Pools.{
  SwapContext, LiquidityContext, FlashloanContext, ClaimContext, swap_accounts, liquidity_accounts,
  flashloan_accounts, claim_accounts,
}
use omnipair_rs.Accounts.Positions.{
  CollateralContext, DebtContext, LiquidateContext, add_collateral_accounts,
  adjust_collateral_accounts, adjust_debt_accounts, borrow_accounts, liquidate_accounts,
}
use omnipair_rs.Accounts.Admin.{set_pair_reduce_only_accounts, set_pair_rate_model_accounts}
use omnipair_rs.System.{State, fresh}
use omnipair_rs.System.Dispatch
use omnipair_rs.System.Dispatch.{Env, Instruction, find, execute}

-- An instruction with the accounts that its caller names.
pub data Request (Ledger : Type 0) : Type 0 where
  claim_protocol_fees : ClaimContext → Request Ledger
  set_pair_reduce_only : (signer : Pubkey) → Bool → Request Ledger
  set_pair_rate_model : (signer authority_key new_rate_model : Pubkey) → Request Ledger
  add_liquidity : LiquidityContext → AddLiquidityArgs → Request Ledger
  remove_liquidity : LiquidityContext → RemoveLiquidityArgs → Request Ledger
  swap : SwapContext → SwapArgs → Request Ledger
  add_collateral remove_collateral : CollateralContext → ℕ → Request Ledger
  borrow repay : DebtContext → ℕ → Request Ledger
  liquidate : LiquidateContext → Request Ledger
  flashloan :
      Pubkey
      → (Pubkey → Ledger → Option Ledger)
      → (Ledger → Option Ledger)
      → FlashloanContext
      → FlashloanArgs
      → Request Ledger

-- The position of a user as the accounts name it, which must exist.
abbrev pub existing :
    Option (List UserPosition × UserPosition × List UserPosition) → Result UserPosition
existing none = err external
existing (some (before, u, after)) = ok u

-- The same, or a new one.
abbrev pub or_new : Option (List UserPosition × UserPosition × List UserPosition) → UserPosition
or_new none = fresh
or_new (some (before, u, after)) = u

module _ (t : TokenProgram) (c : Chain) (e : Env) where
  open t use {Ledger}

  -- The instruction, if the constraints hold.
  unfoldable pub resolve : Request Ledger → State Ledger → Result (Instruction Ledger)
  resolve (claim_protocol_fees x) s = do
    (a0, a1) ← claim_accounts c e.pair_key s.pair e.authority x
    ok (Dispatch.claim_protocol_fees a0 a1)
  resolve (set_pair_reduce_only signer flag) s = do
    set_pair_reduce_only_accounts c signer e.pair_key s.pair
    ok (Dispatch.set_pair_reduce_only flag)
  resolve (set_pair_rate_model signer authority_key model) s = do
    set_pair_rate_model_accounts c signer authority_key e.authority e.pair_key s.pair
    ok (Dispatch.set_pair_rate_model model)
  resolve (add_liquidity x args) s = do
    a ← liquidity_accounts c e.pair_key s.pair e.authority e.ids x
    ok (Dispatch.add_liquidity a args)
  resolve (remove_liquidity x args) s = do
    a ← liquidity_accounts c e.pair_key s.pair e.authority e.ids x
    ok (Dispatch.remove_liquidity a args)
  resolve (swap x args) s = do
    a ← swap_accounts c e.pair_key s.pair e.authority x
    ok (Dispatch.swap a args)
  resolve (add_collateral x amount) s = do
    a ← add_collateral_accounts c e.pair_key s.pair e.authority x (or_new (find x.user s.positions))
    let bump = c.find_bump (gamm_position e.pair_key x.user)
    ok (Dispatch.add_collateral x.user bump a amount)
  resolve (remove_collateral x amount) s = do
    u ← existing (find x.user s.positions)
    a ← adjust_collateral_accounts c e.pair_key s.pair e.authority e.ids x u
    ok (Dispatch.remove_collateral x.user a amount)
  resolve (borrow x amount) s = do
    u ← existing (find x.user s.positions)
    a ← borrow_accounts c e.pair_key s.pair e.authority e.ids x u
    ok (Dispatch.borrow x.user a amount)
  resolve (repay x amount) s = do
    u ← existing (find x.user s.positions)
    a ← adjust_debt_accounts c e.pair_key s.pair e.authority x u
    ok (Dispatch.repay x.user a amount)
  resolve (liquidate x) s = do
    u ← existing (find x.position_owner s.positions)
    a ← liquidate_accounts c e.pair_key s.pair e.authority x u
    ok (Dispatch.liquidate x.position_owner a)
  resolve (flashloan native_mint sync_native callback x args) s = do
    a ← flashloan_accounts c e.pair_key s.pair e.authority x
    ok (Dispatch.flashloan native_mint sync_native callback a args)

  -- The whole instruction.
  unfoldable pub process : Request Ledger → State Ledger → Result (State Ledger)
  process request s = do i ← resolve request s; execute t e i s

-- What a transaction leaves behind: nothing, where its instruction fails.
abbrev pub settled {ℓ} : {A : Type ℓ} → A → Result A → A
settled s (ok s') = s'
settled s (err failure) = s
