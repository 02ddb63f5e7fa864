-- ===== src/Vaults/Solvent.antt =====
-- Proofs: a request (programs/omnipair/src/lib.rs) leaves the vaults of a pair with what the pair
-- counts.
use mathlib.Core.Path.{subst}
use omnipair_rs.Base.{Pubkey, ◌≡◌, refl, arith, some, List, ◌∷◌, ◌++◌}
use omnipair_rs.Outcome.{Result, ok, err, ◌>>=◌, chain, ok-injective}
use omnipair_rs.Pair.{Pair}
use omnipair_rs.Position.{UserPosition}
use omnipair_rs.Token.{TokenProgram}
use omnipair_rs.Futarchy.Admin
use omnipair_rs.Lending.Collateral
use omnipair_rs.Accounts.{Chain, gamm_position}
use omnipair_rs.Accounts.Pools.{
  swap_accounts, liquidity_accounts, flashloan_accounts, claim_accounts,
}
use omnipair_rs.Accounts.Positions.{
  add_collateral_accounts, adjust_collateral_accounts, adjust_debt_accounts, borrow_accounts,
  liquidate_accounts,
}
use omnipair_rs.Accounts.Admin.{set_pair_reduce_only_accounts, set_pair_rate_model_accounts}
use omnipair_rs.System.{State, at}
use omnipair_rs.System.Dispatch
use omnipair_rs.System.Dispatch.{Env, Instruction, find, execute, or_fresh, with_position}
use omnipair_rs.System.Request.{
  Request, claim_protocol_fees, set_pair_reduce_only, set_pair_rate_model, add_liquidity,
  remove_liquidity, swap, add_collateral, remove_collateral, borrow, repay, liquidate, flashloan,
  existing, or_new, resolve, process,
}
use omnipair_rs.System.History.{after}
use omnipair_rs.System.Phases.{with_pair_lem, with_position_lem}
use omnipair_rs.Vaults.{
  Vaults, Identity, AreApart, AreVaultsOf, IsTokenLedger, KeepsMints, Raises, Spares,
}
use omnipair_rs.Vaults.Solvency.{IsSolvent}
use omnipair_rs.Vaults.Trades.{
  swap-IsSolvent, add-IsSolvent, remove-IsSolvent, flashloan-IsSolvent, claim-IsSolvent,
}
use omnipair_rs.Vaults.Debts.{borrow-IsSolvent, repay-IsSolvent, liquidate-IsSolvent}
use omnipair_rs.Vaults.Deposits.{add_collateral-IsSolvent, remove_collateral-IsSolvent}

-- The parts of a request that succeeds.
resolved_lem {ℓ κ} :
    {A : Type ℓ} {J : Type 0} {S : Type κ} (r : Result A) (f : A → J) (run : J → Result S) {s : S}
    → ((r >>= λ a. ok (f a)) >>= run) ≡ ok s
    → (a : A) × (r ≡ ok a) × (run (f a) ≡ ok s)
resolved_lem (err e) f run h = ground arith
resolved_lem (ok a) f run h = (a, refl, h)

owned_lem {ℓ κ} :
    {A : Type ℓ} {J : Type 0} {S : Type κ} (o : Result UserPosition) (r : UserPosition → Result A)
    (f : A → J) (run : J → Result S) {s : S}
    → ((o >>= λ u. r u >>= λ a. ok (f a)) >>= run) ≡ ok s
    → (u : UserPosition) × (a : A) × (r u ≡ ok a) × (run (f a) ≡ ok s)
owned_lem (err e) r f run h = ground arith
owned_lem (ok u) r f run h =
    let (a, checked, rest) = resolved_lem (r u) f run h in (u, a, checked, rest)

-- An instruction on a position that is there.
found_lem :
    (t : TokenProgram) (found : List UserPosition × UserPosition × List UserPosition)
    (f : UserPosition → Result (UserPosition × Pair × t.Ledger)) {s : State t.Ledger}
    → with_position t (some found) f ≡ ok s
    → (u u' : UserPosition) × (q : Pair) × (l : t.Ledger) × (us : List UserPosition) × (f u
        ≡ ok (u', q, l))
      × (at t us q l ≡ s)
found_lem t (before, u, after) f h =
    let ((u', q, l), done, rest) =
      chain (f u) (λ x. ok (at t (before ++ (x.0 ∷ after)) x.1 x.2)) h in
    (u, u', q, l, before ++ (u' ∷ after), done, ok-injective rest)

module _ (t : TokenProgram) (laws : IsTokenLedger t) (v : Vaults) (apart : AreApart v)
    (i : Identity) where
  open t use {Ledger, balance}

  -- A state whose pair has its vaults behind it.
  abbrev pub IsBackedState : State Ledger → Type 0
  IsBackedState s = IsSolvent t i v s.pair s.ledger

  -- What a flash loan calls is restrained.
  abbrev pub IsTrusted : Request Ledger → Type 0
  IsTrusted (flashloan native_mint sync_native callback x args) =
      ((account : Pubkey) → Raises t v (sync_native account)) × Spares t v callback
  IsTrusted _ = Unit {0}

  module _ (c : Chain) (of : AreVaultsOf c i v) (mints : KeepsMints t c) (e : Env)
      (key : e.pair_key ≡ i.key) where
    -- A request that succeeds keeps the vaults behind the pair.
    pub process-IsBacked :
        (request : Request Ledger) (s s' : State Ledger)
        → IsTrusted request
        → process t c e request s ≡ ok s'
        → IsBackedState s
        → IsBackedState s'
    unfolding process resolve execute Admin.set_pair_reduce_only Admin.set_pair_rate_model
    process-IsBacked (swap x args) s s' trusted h solvent =
        let (a, checked, run) =
          resolved_lem (swap_accounts c e.pair_key s.pair e.authority x) (λ a. Dispatch.swap a args)
            (λ j. execute t e j s) h in
        let (q, l', done, ends) = with_pair_lem t s.positions _ run in
        let kept =
          swap-IsSolvent t laws v apart i c of e.slot e.rate_model e.authority s.pair x a args q
            s.ledger l' (subst (λ k. swap_accounts c k s.pair e.authority x ≡ ok a) key checked)
            done solvent in
        subst IsBackedState ends kept
    process-IsBacked (add_liquidity x args) s s' trusted h solvent =
        let (a, checked, run) =
          resolved_lem (liquidity_accounts c e.pair_key s.pair e.authority e.ids x)
            (λ a. Dispatch.add_liquidity a args) (λ j. execute t e j s) h in
        let (q, l', done, ends) = with_pair_lem t s.positions _ run in
        let kept =
          add-IsSolvent t laws v apart i c of e.slot e.rate_model e.authority s.pair e.ids
            e.pair_key e.sysvar x a args q s.ledger l'
            (subst (λ k. liquidity_accounts c k s.pair e.authority e.ids x ≡ ok a) key checked) done
            solvent in
        subst IsBackedState ends kept
    process-IsBacked (remove_liquidity x args) s s' trusted h solvent =
        let (a, checked, run) =
          resolved_lem (liquidity_accounts c e.pair_key s.pair e.authority e.ids x)
            (λ a. Dispatch.remove_liquidity a args) (λ j. execute t e j s) h in
        let (q, l', done, ends) = with_pair_lem t s.positions _ run in
        let kept =
          remove-IsSolvent t laws v apart i c of e.slot e.rate_model e.authority s.pair e.ids
            e.pair_key e.sysvar x a args q s.ledger l'
            (subst (λ k. liquidity_accounts c k s.pair e.authority e.ids x ≡ ok a) key checked) done
            solvent in
        subst IsBackedState ends kept
    process-IsBacked (flashloan native_mint sync_native callback x args) s s' trusted h solvent =
        let (a, checked, run) =
          resolved_lem (flashloan_accounts c e.pair_key s.pair e.authority x)
            (λ a. Dispatch.flashloan native_mint sync_native callback a args) (λ j. execute t e j s)
            h in
        let (q, l', done, ends) = with_pair_lem t s.positions _ run in
        let kept =
          flashloan-IsSolvent t laws v apart i c of e.slot e.rate_model e.authority s.pair
            native_mint sync_native callback x a args q s.ledger l' trusted.0 trusted.1
            (subst (λ k. flashloan_accounts c k s.pair e.authority x ≡ ok a) key checked) done
            solvent in
        subst IsBackedState ends kept
    process-IsBacked (claim_protocol_fees x) s s' trusted h solvent =
        let ((a0, a1), checked, run) =
          resolved_lem (claim_accounts c e.pair_key s.pair e.authority x)
            (λ a. Dispatch.claim_protocol_fees (a.0) (a.1)) (λ j. execute t e j s) h in
        let (q, l', done, ends) = with_pair_lem t s.positions _ run in
        let kept =
          claim-IsSolvent t laws v apart i c of e.slot e.rate_model e.authority s.pair x a0 a1 q
            s.ledger l'
            (subst (λ k. claim_accounts c k s.pair e.authority x ≡ ok (a0, a1)) key checked) done
            solvent in
        subst IsBackedState ends kept
    process-IsBacked (set_pair_reduce_only signer flag) s s' trusted h solvent =
        let (_, _, run) =
          resolved_lem (set_pair_reduce_only_accounts c signer e.pair_key s.pair)
            (λ done. Dispatch.set_pair_reduce_only flag) (λ j. execute t e j s) h in
        subst IsBackedState (ok-injective run) solvent
    process-IsBacked (set_pair_rate_model signer authority_key model) s s' trusted h solvent =
        let (_, _, run) =
          resolved_lem
            (set_pair_rate_model_accounts c signer authority_key e.authority e.pair_key s.pair)
            (λ done. Dispatch.set_pair_rate_model model) (λ j. execute t e j s) h in
        subst IsBackedState (ok-injective run) solvent
    process-IsBacked (remove_collateral x amount) s s' trusted h solvent =
        let (w, a, checked, run) =
          owned_lem (existing (find x.user s.positions))
            (λ w. adjust_collateral_accounts c e.pair_key s.pair e.authority e.ids x w)
            (λ a. Dispatch.remove_collateral x.user a amount) (λ j. execute t e j s) h in
        let (_, _, u, u', q, l', _, done, ends) = with_position_lem t x.user s.positions _ run in
        let kept =
          remove_collateral-IsSolvent t laws v apart i c of e.slot e.rate_model e.authority s.pair
            e.ids e.pair_key e.sysvar x a amount u w u' q s.ledger l' mints
            (subst (λ k. adjust_collateral_accounts c k s.pair e.authority e.ids x w ≡ ok a) key
              checked)
            done solvent in
        subst IsBackedState ends kept
    process-IsBacked (borrow x amount) s s' trusted h solvent =
        let (w, a, checked, run) =
          owned_lem (existing (find x.user s.positions))
            (λ w. borrow_accounts c e.pair_key s.pair e.authority e.ids x w)
            (λ a. Dispatch.borrow x.user a amount) (λ j. execute t e j s) h in
        let (_, _, u, u', q, l', _, done, ends) = with_position_lem t x.user s.positions _ run in
        let kept =
          borrow-IsSolvent t laws v apart i c of e.slot e.rate_model e.authority s.pair e.ids
            e.pair_key e.sysvar x a amount u w u' q s.ledger l'
            (subst (λ k. borrow_accounts c k s.pair e.authority e.ids x w ≡ ok a) key checked) done
            solvent in
        subst IsBackedState ends kept
    process-IsBacked (repay x amount) s s' trusted h solvent =
        let (w, a, checked, run) =
          owned_lem (existing (find x.user s.positions))
            (λ w. adjust_debt_accounts c e.pair_key s.pair e.authority x w)
            (λ a. Dispatch.repay x.user a amount) (λ j. execute t e j s) h in
        let (_, _, u, u', q, l', _, done, ends) = with_position_lem t x.user s.positions _ run in
        let kept =
          repay-IsSolvent t laws v apart i c of e.slot e.rate_model e.authority s.pair x a amount u
            w u' q s.ledger l'
            (subst (λ k. adjust_debt_accounts c k s.pair e.authority x w ≡ ok a) key checked) done
            solvent in
        subst IsBackedState ends kept
    process-IsBacked (liquidate x) s s' trusted h solvent =
        let (w, a, checked, run) =
          owned_lem (existing (find x.position_owner s.positions))
            (λ w. liquidate_accounts c e.pair_key s.pair e.authority x w)
            (λ a. Dispatch.liquidate x.position_owner a) (λ j. execute t e j s) h in
        let (_, _, u, u', q, l', _, done, ends) =
          with_position_lem t x.position_owner s.positions _ run in
        let kept =
          liquidate-IsSolvent t laws v apart i c of e.slot e.rate_model e.authority s.pair x a u w
            u' q s.ledger l'
            (subst (λ k. liquidate_accounts c k s.pair e.authority x w ≡ ok a) key checked) done
            solvent in
        subst IsBackedState ends kept
    process-IsBacked (add_collateral x amount) s s' trusted h solvent =
        let w = or_new (find x.user s.positions) in
        let bump = c.find_bump (gamm_position e.pair_key x.user) in
        let (a, checked, run) =
          resolved_lem (add_collateral_accounts c e.pair_key s.pair e.authority x w)
            (λ a. Dispatch.add_collateral x.user bump a amount) (λ j. execute t e j s) h in
        let (u, u', q, l', us, done, ends) =
          found_lem t (or_fresh t s.positions (find x.user s.positions))
            (λ u.
              Collateral.add_collateral t e.slot e.rate_model e.authority x.user e.pair_key bump a
                amount u s.pair s.ledger)
            run in
        let kept =
          add_collateral-IsSolvent t laws v apart i c of e.slot e.rate_model e.authority s.pair
            x.user e.pair_key bump x a amount u w u' q s.ledger l' mints
            (subst (λ k. add_collateral_accounts c k s.pair e.authority x w ≡ ok a) key checked)
            done solvent in
        subst IsBackedState ends kept
