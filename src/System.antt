-- ===== src/System.antt =====
-- programs/omnipair/src/lib.rs: the instructions of the program as a step relation on the state of one
-- pair: its positions, the pair, and the token balances. Every instruction of lib.rs that touches a
-- pair is `update`, a validation and a handler: the first is a step of its own, the other two are
-- another. An instruction that fails leaves the state as it was, and is no step.
pub mod Accounts
pub mod Sides
pub mod Debts
pub mod Deposits
pub mod Seizures
pub mod Pools
pub mod Reachable
pub mod Dispatch
pub mod Request
pub mod History
pub mod Signed
pub mod Phases
pub mod Refine
pub mod Exclusion
use omnipair_rs.Base.{ℕ, ◌+◌, ◌<◌, ◌≡◌, Bool, Option, none, List, [], ◌∷◌, ◌++◌, Pubkey}
use omnipair_rs.Word.{u64, u128, max_word}
use omnipair_rs.Outcome.{ok}
use omnipair_rs.RateModel.{RateModel}
use omnipair_rs.Futarchy.{FutarchyAuthority}
use omnipair_rs.Futarchy.Admin.{set_pair_reduce_only, set_pair_rate_model}
use omnipair_rs.Futarchy.Claim.{ClaimAccounts, handle_claim}
use omnipair_rs.Pair.{Pair, update}
use omnipair_rs.Position.{UserPosition}
use omnipair_rs.Token.{TokenProgram}
use omnipair_rs.Breaker.{Sysvar, ProgramIds}
use omnipair_rs.Swap.{SwapArgs, SwapAccounts, validate_swap, handle_swap}
use omnipair_rs.Liquidity.{LiquidityAccounts}
use omnipair_rs.Liquidity.Add.{AddLiquidityArgs, handle_add}
use omnipair_rs.Liquidity.Add
use omnipair_rs.Liquidity.Remove.{RemoveLiquidityArgs, handle_remove}
use omnipair_rs.Liquidity.Remove
use omnipair_rs.Lending.{DebtAccounts, CollateralAccounts}
use omnipair_rs.Lending.Borrow.{validate_borrow, handle_borrow}
use omnipair_rs.Lending.Repay.{validate_repay, handle_repay}
use omnipair_rs.Lending.Collateral.{handle_add_collateral, handle_remove_collateral}
use omnipair_rs.Lending.Collateral
use omnipair_rs.Lending.Liquidate.{LiquidateAccounts, validate_liquidate, handle_liquidate}
use omnipair_rs.Lending.Flashloan.{
  FlashloanArgs, FlashloanAccounts, validate_flashloan, handle_flashloan,
}

pub record State (Ledger : Type 0) : Type 0 where
  pub positions : List UserPosition
  pub pair : Pair
  pub ledger : Ledger

-- A position as `init_if_needed` creates it, before `UserPosition::initialize`.
abbrev pub fresh : UserPosition
fresh = record {
  owner = 0;
  pair = 0;
  collateral0_liquidation_cf_bps = 0;
  collateral1_liquidation_cf_bps = 0;
  collateral0 = 0;
  collateral1 = 0;
  debt0_shares = 0;
  debt1_shares = 0;
  bump = 0;
}

-- No counter that saturates has reached its largest word.
abbrev pub IsBelow : Pair → Type 0
IsBelow p =
    (p.side0.reserve < max_word u64)
    × (p.side1.reserve < max_word u64)
    × (p.side0.total_debt_shares < max_word u128)
    × (p.side1.total_debt_shares < max_word u128)

module _ (t : TokenProgram) where
  open t use {Ledger}

  abbrev pub at : List UserPosition → Pair → Ledger → State Ledger
  at us p l = record { positions = us; pair = p; ledger = l }

  -- The steps. An instruction on a position replaces it among the others, `before` and `after`.
  pub data Step : State Ledger → State Ledger → Type 0 where
    elapsed :
        {us : List UserPosition} {p q : Pair} {l : Ledger} (slot : ℕ) (m : RateModel)
        (interest_bps : ℕ)
        → update slot m interest_bps p ≡ ok q
        → Step (at us p l) (at us q l)
    swapped :
        {us : List UserPosition} {p q : Pair} {l l' : Ledger} (authority : FutarchyAuthority)
        (a : SwapAccounts) (args : SwapArgs)
        → validate_swap t a args p l ≡ ok tt
        → handle_swap t authority a args p l ≡ ok (q, l')
        → Step (at us p l) (at us q l')
    added :
        {us : List UserPosition} {p q : Pair} {l l' : Ledger} (ids : ProgramIds) (key : Pubkey)
        (sysvar : Sysvar) (authority : FutarchyAuthority) (a : LiquidityAccounts)
        (args : AddLiquidityArgs)
        → Add.validate_add t ids key sysvar authority a args p l ≡ ok tt
        → handle_add t a args p l ≡ ok (q, l')
        → Step (at us p l) (at us q l')
    removed :
        {us : List UserPosition} {p q : Pair} {l l' : Ledger} (slot : ℕ) (ids : ProgramIds)
        (key : Pubkey) (sysvar : Sysvar) (a : LiquidityAccounts) (args : RemoveLiquidityArgs)
        → Remove.validate_remove t ids key sysvar a args p l ≡ ok tt
        → handle_remove t slot a args p l ≡ ok (q, l')
        → Step (at us p l) (at us q l')
    lent :
        {us : List UserPosition} {p q : Pair} {l l' : Ledger} (native_mint : Pubkey)
        (sync_native : Pubkey → Ledger → Option Ledger) (callback : Ledger → Option Ledger)
        (a : FlashloanAccounts) (args : FlashloanArgs)
        → validate_flashloan args p ≡ ok tt
        → handle_flashloan t native_mint sync_native callback a args p l ≡ ok (q, l')
        → Step (at us p l) (at us q l')
    claimed :
        {us : List UserPosition} {p : Pair} {l l' : Ledger} (authority : FutarchyAuthority)
        (a0 a1 : ClaimAccounts)
        → handle_claim t authority a0 a1 p l ≡ ok l'
        → Step (at us p l) (at us p l')
    reduce_only_set :
        {us : List UserPosition} {p : Pair} {l : Ledger} (flag : Bool)
        → Step (at us p l) (at us (set_pair_reduce_only flag p) l)
    rate_model_set :
        {us : List UserPosition} {p : Pair} {l : Ledger} (key : Pubkey)
        → Step (at us p l) (at us (set_pair_rate_model key p) l)
    opened :
        {us : List UserPosition} {p : Pair} {l : Ledger} → Step (at us p l) (at (fresh ∷ us) p l)
    borrowed :
        {p q : Pair} {l l' : Ledger} (before after : List UserPosition) (u u' : UserPosition)
        (slot : ℕ) (ids : ProgramIds) (key : Pubkey) (sysvar : Sysvar)
        (authority : FutarchyAuthority) (a : DebtAccounts) (requested : ℕ)
        → validate_borrow ids key sysvar authority requested p ≡ ok tt
        → handle_borrow t slot a requested u p l ≡ ok (u', q, l')
        → Step (at (before ++ (u ∷ after)) p l) (at (before ++ (u' ∷ after)) q l')
    -- The token program transfers between accounts of one mint only.
    repaid :
        {p q : Pair} {l l' : Ledger} (before after : List UserPosition) (u u' : UserPosition)
        (a : DebtAccounts) (requested : ℕ)
        → a.user_reserve_token_account_mint ≡ a.reserve_token_mint
        → validate_repay t a requested u p l ≡ ok tt
        → handle_repay t a requested u p l ≡ ok (u', q, l')
        → Step (at (before ++ (u ∷ after)) p l) (at (before ++ (u' ∷ after)) q l')
    secured :
        {p q : Pair} {l l' : Ledger} (before after : List UserPosition) (u u' : UserPosition)
        (user key : Pubkey) (bump : ℕ) (a : CollateralAccounts) (amount : ℕ)
        → Collateral.validate_add t a amount l ≡ ok tt
        → handle_add_collateral t user key bump a amount u p l ≡ ok (u', q, l')
        → Step (at (before ++ (u ∷ after)) p l) (at (before ++ (u' ∷ after)) q l')
    released :
        {p q : Pair} {l l' : Ledger} (before after : List UserPosition) (u u' : UserPosition)
        (slot : ℕ) (ids : ProgramIds) (key : Pubkey) (sysvar : Sysvar)
        (authority : FutarchyAuthority) (a : CollateralAccounts) (requested : ℕ)
        → Collateral.validate_remove slot ids key sysvar authority a requested u p ≡ ok tt
        → handle_remove_collateral t slot a requested u p l ≡ ok (u', q, l')
        → Step (at (before ++ (u ∷ after)) p l) (at (before ++ (u' ∷ after)) q l')
    liquidated :
        {p q : Pair} {l l' : Ledger} (before after : List UserPosition) (u u' : UserPosition)
        (slot : ℕ) (a : LiquidateAccounts)
        → validate_liquidate a u p ≡ ok tt
        → handle_liquidate t slot a u p l ≡ ok (u', q, l')
        → Step (at (before ++ (u ∷ after)) p l) (at (before ++ (u' ∷ after)) q l')

  -- The states that steps reach, through states below the largest words.
  pub data Reach (s : State Ledger) : State Ledger → Type 0 where
    here : Reach s s
    next : {r u : State Ledger} → Reach s r → Step r u → IsBelow u.pair → Reach s u
