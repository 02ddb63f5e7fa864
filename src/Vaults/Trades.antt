-- ===== src/Vaults/Trades.antt =====
-- Proofs: swaps, changes of liquidity, flash loans and the claim of protocol fees (swap, add_liquidity,
-- remove_liquidity, flashloan and claim_protocol_fees of lib.rs), from their account constraints to
-- their ends, leave the vaults of a pair with what the pair counts.
use mathlib.Core.Path.{subst}
use omnipair_rs.Base.{ℕ, ◌≡◌, ◌≢◌, refl, Option, ◌==◌, arith, Pubkey}
use omnipair_rs.Outcome.{ok, ◌>>=◌, chain, ok-injective}
use omnipair_rs.RateModel.{RateModel}
use omnipair_rs.Futarchy.{FutarchyAuthority}
use omnipair_rs.Futarchy.Claim
use omnipair_rs.Futarchy.Claim.{ClaimAccounts, handle_claim}
use omnipair_rs.Pair.{Pair, update}
use omnipair_rs.Token.{TokenProgram}
use omnipair_rs.Breaker.{ProgramIds, Sysvar}
use omnipair_rs.Swap
use omnipair_rs.Swap.{SwapArgs, SwapAccounts, validate_swap, handle_swap}
use omnipair_rs.Liquidity.{LiquidityAccounts}
use omnipair_rs.Liquidity.Add
use omnipair_rs.Liquidity.Add.{AddLiquidityArgs}
use omnipair_rs.Liquidity.Remove
use omnipair_rs.Liquidity.Remove.{RemoveLiquidityArgs}
use omnipair_rs.Lending.Flashloan
use omnipair_rs.Lending.Flashloan.{FlashloanArgs, FlashloanAccounts}
use omnipair_rs.Accounts.{Chain}
use omnipair_rs.Accounts.Pools.{
  SwapContext, LiquidityContext, FlashloanContext, ClaimContext, swap_accounts, liquidity_accounts,
  flashloan_accounts, claim_accounts,
}
use omnipair_rs.System.Phases.{phases}
use omnipair_rs.Vaults.{Vaults, Identity, AreApart, AreVaultsOf, IsTokenLedger, Raises, Spares}
use omnipair_rs.Vaults.Pools.{handle_swap-IsBacked, handle_add-IsBacked, handle_remove-IsBacked}
use omnipair_rs.Vaults.Payouts.{handle_claim-IsBacked}
use omnipair_rs.Vaults.Loans.{handle_flashloan-IsBacked}
use omnipair_rs.Vaults.Addresses.{outside_lem, reserve_lem, reserves_lem}
use omnipair_rs.Vaults.Checked.{swap_checks, liquidity_checks, flashloan_checks, claim_checks}
use omnipair_rs.Vaults.Solvency.{other_side, IsSolvent, updated_lem, ends}

module _ (t : TokenProgram) (laws : IsTokenLedger t) (v : Vaults) (apart : AreApart v)
    (i : Identity) (c : Chain) (of : AreVaultsOf c i v) (slot : ℕ) (m : RateModel)
    (authority : FutarchyAuthority) (p : Pair) where
  open t use {Ledger, balance}

  pub swap-IsSolvent :
      (x : SwapContext) (a : SwapAccounts) (args : SwapArgs) (q : Pair) (l l' : Ledger)
      → swap_accounts c i.key p authority x ≡ ok a
      → Swap.swap t slot m authority a args p l ≡ ok (q, l')
      → IsSolvent t i v p l
      → IsSolvent t i v q l'
  unfolding Swap.swap validate_swap
  swap-IsSolvent x a args q l l' checked h solvent =
      let (r, updated, valid, done) =
        phases (update slot m authority.revenue_share.interest_bps p)
          (λ r. validate_swap t a args r l) (λ r. handle_swap t authority a args r l) h in
      let (now, token0) = updated_lem t laws v apart i slot m authority p l updated solvent in
      let (signs, at_in, at_out, is_in, is_out, mint, owns) =
        swap_checks c i v of p solvent.0 authority x a checked in
      let b = x.token_in_mint == p.token0 in
      let e_in =
        reserve_lem c i v of p solvent.0 b x.token_in_mint a.token_in_vault refl is_in at_in in
      let e_out =
        reserve_lem c i v of p solvent.0 (x.token_out_mint == p.token0) x.token_out_mint
          a.token_out_vault refl is_out at_out in
      let differ : a.token_in_vault ≢ a.token_out_vault = λ e. ground arith in
      let side : (a.user_token_in_mint == r.token0) ≡ b = rw (mint, token0) refl in
      ends t i v q r l l' now (
        handle_swap-IsBacked t laws v apart authority a args b r q l l' side e_in
          (other_side v b (x.token_out_mint == p.token0) a.token_in_vault a.token_out_vault e_in
            e_out differ)
          (outside_lem c i v of a.user_token_in x.user owns signs) done now.1)

  pub add-IsSolvent :
      (ids : ProgramIds) (key : Pubkey) (sysvar : Sysvar) (x : LiquidityContext)
      (a : LiquidityAccounts) (args : AddLiquidityArgs) (q : Pair) (l l' : Ledger)
      → liquidity_accounts c i.key p authority ids x ≡ ok a
      → Add.add t slot m ids key sysvar authority a args p l ≡ ok (q, l')
      → IsSolvent t i v p l
      → IsSolvent t i v q l'
  unfolding Add.add
  add-IsSolvent ids key sysvar x a args q l l' checked h solvent =
      let (r, updated, valid, done) =
        phases (update slot m authority.revenue_share.interest_bps p)
          (λ r. Add.validate_add t ids key sysvar authority a args r l)
          (λ r. Add.handle_add t a args r l) h in
      let (now, _) = updated_lem t laws v apart i slot m authority p l updated solvent in
      let (signs, at, owns0, owns1, _) =
        liquidity_checks c i v of p solvent.0 authority ids x a checked in
      let (e0, e1) = reserves_lem c i v of p solvent.0 a.reserve0_vault a.reserve1_vault at in
      ends t i v q r l l' now (
        handle_add-IsBacked t laws v apart a args r q l l' e0 e1
          (outside_lem c i v of a.user_token0 x.user owns0 signs)
          (outside_lem c i v of a.user_token1 x.user owns1 signs) done now.1)

  pub remove-IsSolvent :
      (ids : ProgramIds) (key : Pubkey) (sysvar : Sysvar) (x : LiquidityContext)
      (a : LiquidityAccounts) (args : RemoveLiquidityArgs) (q : Pair) (l l' : Ledger)
      → liquidity_accounts c i.key p authority ids x ≡ ok a
      → Remove.remove t slot m ids key sysvar authority a args p l ≡ ok (q, l')
      → IsSolvent t i v p l
      → IsSolvent t i v q l'
  unfolding Remove.remove
  remove-IsSolvent ids key sysvar x a args q l l' checked h solvent =
      let (r, updated, valid, done) =
        phases (update slot m authority.revenue_share.interest_bps p)
          (λ r. Remove.validate_remove t ids key sysvar a args r l)
          (λ r. Remove.handle_remove t slot a args r l) h in
      let (now, _) = updated_lem t laws v apart i slot m authority p l updated solvent in
      let (signs, at, _, _, owns) =
        liquidity_checks c i v of p solvent.0 authority ids x a checked in
      let (e0, e1) = reserves_lem c i v of p solvent.0 a.reserve0_vault a.reserve1_vault at in
      ends t i v q r l l' now (
        handle_remove-IsBacked t laws v apart slot a args r q l l' e0 e1
          (outside_lem c i v of a.user_lp x.user owns signs) done now.1)

  pub flashloan-IsSolvent :
      (native_mint : Pubkey) (sync_native : Pubkey → Ledger → Option Ledger)
      (callback : Ledger → Option Ledger) (x : FlashloanContext) (a : FlashloanAccounts)
      (args : FlashloanArgs) (q : Pair) (l l' : Ledger)
      → ((account : Pubkey) → Raises t v (sync_native account))
      → Spares t v callback
      → flashloan_accounts c i.key p authority x ≡ ok a
      → Flashloan.flashloan t native_mint sync_native callback slot m authority a args p l
        ≡ ok (q, l')
      → IsSolvent t i v p l
      → IsSolvent t i v q l'
  unfolding Flashloan.flashloan
  flashloan-IsSolvent native_mint sync_native callback x a args q l l' raises spares checked h
        solvent =
      let (r, updated, valid, done) =
        phases (update slot m authority.revenue_share.interest_bps p)
          (λ r. Flashloan.validate_flashloan args r)
          (λ r. Flashloan.handle_flashloan t native_mint sync_native callback a args r l) h in
      let (now, _) = updated_lem t laws v apart i slot m authority p l updated solvent in
      let at = flashloan_checks c i v of p solvent.0 authority x a checked in
      let (e0, e1) = reserves_lem c i v of p solvent.0 a.reserve0_vault a.reserve1_vault at in
      ends t i v q r l l' now (
        handle_flashloan-IsBacked t laws v apart native_mint sync_native callback a args r q l l'
          raises spares e0 e1 done now.1)

  pub claim-IsSolvent :
      (x : ClaimContext) (a0 a1 : ClaimAccounts) (q : Pair) (l l' : Ledger)
      → claim_accounts c i.key p authority x ≡ ok (a0, a1)
      → Claim.claim_protocol_fees t slot m authority a0 a1 p l ≡ ok (q, l')
      → IsSolvent t i v p l
      → IsSolvent t i v q l'
  unfolding Claim.claim_protocol_fees
  claim-IsSolvent x a0 a1 q l l' checked h solvent =
      let (r, updated, h1) =
        chain (update slot m authority.revenue_share.interest_bps p)
          (λ r. handle_claim t authority a0 a1 r l >>= λ paid. ok (r, paid)) h in
      let (paid, done, h2) = chain (handle_claim t authority a0 a1 r l) (λ paid. ok (r, paid)) h1 in
      let same = ok-injective h2 in
      let (now, _) = updated_lem t laws v apart i slot m authority p l updated solvent in
      let at = claim_checks c i v of p solvent.0 authority x a0 a1 checked in
      let (e0, e1) = reserves_lem c i v of p solvent.0 a0.reserve_vault a1.reserve_vault at in
      let backed = handle_claim-IsBacked t laws v apart authority a0 a1 r l paid e0 e1 done now.1 in
      subst (λ (z : Pair × Ledger). IsSolvent t i v z.0 z.1) same (now.0, backed)
