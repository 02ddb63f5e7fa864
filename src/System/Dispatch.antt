-- ===== src/System/Dispatch.antt =====
-- programs/omnipair/src/lib.rs: the instructions of the program that touch a pair, each with the accounts
-- and arguments that it reads, and their dispatch. A position is found by its owner, from whom its
-- address is derived.
use omnipair_rs.Base.{ℕ, Bool, Option, none, some, List, [], ◌∷◌, ◌++◌, ◌==◌, if◌then◌else◌, Pubkey}
use omnipair_rs.Outcome.{Result, ok, err, external, ◌>>=◌}
use omnipair_rs.RateModel.{RateModel}
use omnipair_rs.Futarchy.{FutarchyAuthority}
use omnipair_rs.Futarchy.Admin
use omnipair_rs.Futarchy.Claim
use omnipair_rs.Futarchy.Claim.{ClaimAccounts}
use omnipair_rs.Pair.{Pair}
use omnipair_rs.Position.{UserPosition}
use omnipair_rs.Token.{TokenProgram}
use omnipair_rs.Breaker.{Sysvar, ProgramIds}
use omnipair_rs.Swap
use omnipair_rs.Swap.{SwapArgs, SwapAccounts}
use omnipair_rs.Liquidity.{LiquidityAccounts}
use omnipair_rs.Liquidity.Add
use omnipair_rs.Liquidity.Add.{AddLiquidityArgs}
use omnipair_rs.Liquidity.Remove
use omnipair_rs.Liquidity.Remove.{RemoveLiquidityArgs}
use omnipair_rs.Lending.{DebtAccounts, CollateralAccounts}
use omnipair_rs.Lending.Borrow
use omnipair_rs.Lending.Repay
use omnipair_rs.Lending.Collateral
use omnipair_rs.Lending.Liquidate
use omnipair_rs.Lending.Liquidate.{LiquidateAccounts}
use omnipair_rs.Lending.Flashloan
use omnipair_rs.Lending.Flashloan.{FlashloanArgs, FlashloanAccounts}
use omnipair_rs.System.{State, fresh, at}

-- What every instruction is given: the clock, the accounts that it only reads, and the transaction.
pub record Env : Type 0 where
  pub slot : ℕ
  pub rate_model : RateModel
  pub authority : FutarchyAuthority
  pub ids : ProgramIds
  pub pair_key : Pubkey
  pub sysvar : Sysvar

pub data Instruction (Ledger : Type 0) : Type 0 where
  claim_protocol_fees : ClaimAccounts → ClaimAccounts → Instruction Ledger
  set_pair_reduce_only : Bool → Instruction Ledger
  set_pair_rate_model : Pubkey → Instruction Ledger
  add_liquidity : LiquidityAccounts → AddLiquidityArgs → Instruction Ledger
  remove_liquidity : LiquidityAccounts → RemoveLiquidityArgs → Instruction Ledger
  swap : SwapAccounts → SwapArgs → Instruction Ledger
  add_collateral : Pubkey → ℕ → CollateralAccounts → ℕ → Instruction Ledger
  remove_collateral : Pubkey → CollateralAccounts → ℕ → Instruction Ledger
  borrow : Pubkey → DebtAccounts → ℕ → Instruction Ledger
  repay : Pubkey → DebtAccounts → ℕ → Instruction Ledger
  liquidate : Pubkey → LiquidateAccounts → Instruction Ledger
  flashloan :
      Pubkey
      → (Pubkey → Ledger → Option Ledger)
      → (Ledger → Option Ledger)
      → FlashloanAccounts
      → FlashloanArgs
      → Instruction Ledger

abbrev behind :
    UserPosition
    → Option (List UserPosition × UserPosition × List UserPosition)
    → Option (List UserPosition × UserPosition × List UserPosition)
behind u none = none
behind u (some (before, v, after)) = some (u ∷ before, v, after)

-- The position of a user, between the others.
unfoldable pub find :
    Pubkey → List UserPosition → Option (List UserPosition × UserPosition × List UserPosition)
find user [] = none
find user (u ∷ us) =
    let rest = find user us in if u.owner == user then some ([], u, us) else behind u rest

module _ (t : TokenProgram) where
  open t use {Ledger}

  -- An instruction on the pair alone.
  abbrev pub with_pair : List UserPosition → Result (Pair × Ledger) → Result (State Ledger)
  with_pair us r = do (q, l) ← r; ok (at t us q l)

  -- An instruction on the position of a user, which fails where there is none.
  abbrev pub with_position :
      Option (List UserPosition × UserPosition × List UserPosition)
      → (UserPosition → Result (UserPosition × Pair × Ledger))
      → Result (State Ledger)
  with_position none f = err external
  with_position (some (before, u, after)) f = do
    (v, q, l) ← f u
    ok (at t (before ++ (v ∷ after)) q l)

  -- `init_if_needed`: the position is created where there is none.
  abbrev pub or_fresh :
      List UserPosition
      → Option (List UserPosition × UserPosition × List UserPosition)
      → List UserPosition × UserPosition × List UserPosition
  or_fresh us none = ([], fresh, us)
  or_fresh us (some found) = found

  unfoldable pub execute : Env → Instruction Ledger → State Ledger → Result (State Ledger)
  execute e (claim_protocol_fees a0 a1) s =
      with_pair s.positions
        (Claim.claim_protocol_fees t e.slot e.rate_model e.authority a0 a1 s.pair s.ledger)
  execute e (set_pair_reduce_only flag) s =
      ok (at t s.positions (Admin.set_pair_reduce_only flag s.pair) s.ledger)
  execute e (set_pair_rate_model key) s =
      ok (at t s.positions (Admin.set_pair_rate_model key s.pair) s.ledger)
  execute e (add_liquidity a args) s =
      with_pair s.positions
        (Add.add t e.slot e.rate_model e.ids e.pair_key e.sysvar e.authority a args s.pair s.ledger)
  execute e (remove_liquidity a args) s = with_pair s.positions (
      Remove.remove t e.slot e.rate_model e.ids e.pair_key e.sysvar e.authority a args s.pair
        s.ledger)
  execute e (swap a args) s =
      with_pair s.positions (Swap.swap t e.slot e.rate_model e.authority a args s.pair s.ledger)
  execute e (add_collateral user bump a amount) s =
      with_position (some (or_fresh s.positions (find user s.positions))) (λ u.
        Collateral.add_collateral t e.slot e.rate_model e.authority user e.pair_key bump a amount u
          s.pair s.ledger)
  execute e (remove_collateral user a requested) s = with_position (find user s.positions) (λ u.
      Collateral.remove_collateral t e.slot e.rate_model e.ids e.pair_key e.sysvar e.authority a
        requested u s.pair s.ledger)
  execute e (borrow user a requested) s = with_position (find user s.positions) (λ u.
      Borrow.borrow t e.slot e.rate_model e.ids e.pair_key e.sysvar e.authority a requested u s.pair
        s.ledger)
  execute e (repay user a requested) s =
      with_position (find user s.positions)
        (λ u. Repay.repay t e.slot e.rate_model e.authority a requested u s.pair s.ledger)
  execute e (liquidate user a) s =
      with_position (find user s.positions)
        (λ u. Liquidate.liquidate t e.slot e.rate_model e.authority a u s.pair s.ledger)
  execute e (flashloan native_mint sync_native callback a args) s = with_pair s.positions (
      Flashloan.flashloan t native_mint sync_native callback e.slot e.rate_model e.authority a args
        s.pair s.ledger)
