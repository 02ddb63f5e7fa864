-- ===== src/System/Refine.antt =====
-- Proofs: the instructions, as lib.rs dispatches them, go by steps.
use mathlib.Core.Path.{subst}
use omnipair_rs.Base.{◌≡◌, ◌∙◌, sym, inl, inr, arith, Option-cases, some, List, []}
use omnipair_rs.Outcome.{ok, ◌>>=◌, chain}
use omnipair_rs.Pair.{Pair, update}
use omnipair_rs.Position.{UserPosition}
use omnipair_rs.Token.{TokenProgram}
use omnipair_rs.Futarchy.Admin
use omnipair_rs.Futarchy.Claim
use omnipair_rs.Futarchy.Claim.{handle_claim}
use omnipair_rs.Swap
use omnipair_rs.Swap.{validate_swap, handle_swap}
use omnipair_rs.Liquidity.Add
use omnipair_rs.Liquidity.Remove
use omnipair_rs.Lending.Borrow
use omnipair_rs.Lending.Repay
use omnipair_rs.Lending.Collateral
use omnipair_rs.Lending.Liquidate
use omnipair_rs.Lending.Flashloan
use omnipair_rs.System.{
  State, swapped, added, removed, lent, claimed, reduce_only_set, rate_model_set, opened, borrowed,
  repaid, released, liquidated, fresh, at, IsBelow, Reach, here, next,
}
use omnipair_rs.System.Accounts.{IsSoundFor}
use omnipair_rs.System.Reachable.{Reach-IsSound}
use omnipair_rs.System.Dispatch.{
  Env, Instruction, claim_protocol_fees, set_pair_reduce_only, set_pair_rate_model, add_liquidity,
  remove_liquidity, swap, add_collateral, remove_collateral, borrow, repay, liquidate, flashloan,
  find, with_position, or_fresh, execute,
}
use omnipair_rs.System.Phases.{
  phases, find_lem, with_pair_lem, with_position_lem, two_steps, UpdatesBelow, secured_run,
}

module _ (t : TokenProgram) where
  open t use {Ledger}

  -- The token accounts of a repayment are of one mint: the token program makes no other transfer.
  abbrev pub HasOneMint : Instruction Ledger → Type 0
  HasOneMint (repay user a requested) = a.user_reserve_token_account_mint ≡ a.reserve_token_mint
  HasOneMint _ = Unit {0}

  -- The dispatched instructions refine the steps: an instruction that succeeds reaches its end state
  -- by steps, if the counters that saturate stay below their largest words before it, after its update
  -- of the pair, and after it, and if, for a repayment, the token accounts are of one mint.
  pub execute_refines :
      (e : Env) (i : Instruction Ledger) (us : List UserPosition) (p : Pair) (l : Ledger)
      {r : State Ledger}
      → HasOneMint i
      → IsBelow p
      → UpdatesBelow e p
      → IsBelow r.pair
      → execute t e i (at t us p l) ≡ ok r
      → Reach t (at t us p l) r
  unfolding execute Swap.swap Add.add Remove.remove Flashloan.flashloan Claim.claim_protocol_fees
      Borrow.borrow Repay.repay Collateral.add_collateral Collateral.remove_collateral
      Liquidate.liquidate
  execute_refines e (claim_protocol_fees a0 a1) us p l fit below updates ends_below h =
      let (q, l', done, ends) = with_pair_lem t us _ h in
      let (c, updated, rest) =
        chain (update e.slot e.rate_model e.authority.revenue_share.interest_bps p)
          (λ c. handle_claim t e.authority a0 a1 c l >>= λ paid. ok (c, paid)) done in
      let (paid, handled, same) =
        chain (handle_claim t e.authority a0 a1 c l) (λ paid. ok (c, paid)) rest in
      let e_state : at t us c paid ≡ at t us q l' = ground arith in
      two_steps t e here updated (updates c updated) (claimed e.authority a0 a1 handled)
        (e_state ∙ ends) ends_below
  execute_refines e (set_pair_reduce_only flag) us p l {r} fit below updates ends_below h =
      let ends : at t us (Admin.set_pair_reduce_only flag p) l ≡ r = ground arith in
      subst (Reach t _) ends (
        next here (reduce_only_set flag)
          (subst (λ (z : State Ledger). IsBelow z.pair) (sym ends) ends_below))
  execute_refines e (set_pair_rate_model key) us p l {r} fit below updates ends_below h =
      let ends : at t us (Admin.set_pair_rate_model key p) l ≡ r = ground arith in
      subst (Reach t _) ends (
        next here (rate_model_set key)
          (subst (λ (z : State Ledger). IsBelow z.pair) (sym ends) ends_below))
  execute_refines e (add_liquidity a args) us p l fit below updates ends_below h =
      let (q, l', done, ends) = with_pair_lem t us _ h in
      let (c, updated, valid, handled) =
        phases (update e.slot e.rate_model e.authority.revenue_share.interest_bps p)
          (λ c. Add.validate_add t e.ids e.pair_key e.sysvar e.authority a args c l)
          (λ c. Add.handle_add t a args c l) done in
      two_steps t e here updated (updates c updated)
        (added e.ids e.pair_key e.sysvar e.authority a args valid handled) ends ends_below
  execute_refines e (remove_liquidity a args) us p l fit below updates ends_below h =
      let (q, l', done, ends) = with_pair_lem t us _ h in
      let (c, updated, valid, handled) =
        phases (update e.slot e.rate_model e.authority.revenue_share.interest_bps p)
          (λ c. Remove.validate_remove t e.ids e.pair_key e.sysvar a args c l)
          (λ c. Remove.handle_remove t e.slot a args c l) done in
      two_steps t e here updated (updates c updated)
        (removed e.slot e.ids e.pair_key e.sysvar a args valid handled) ends ends_below
  execute_refines e (swap a args) us p l fit below updates ends_below h =
      let (q, l', done, ends) = with_pair_lem t us _ h in
      let (c, updated, valid, handled) =
        phases (update e.slot e.rate_model e.authority.revenue_share.interest_bps p)
          (λ c. validate_swap t a args c l) (λ c. handle_swap t e.authority a args c l) done in
      two_steps t e here updated (updates c updated) (swapped e.authority a args valid handled) ends
        ends_below
  execute_refines e (flashloan native_mint sync_native callback a args) us p l fit below updates
        ends_below h =
      let (q, l', done, ends) = with_pair_lem t us _ h in
      let (c, updated, valid, handled) =
        phases (update e.slot e.rate_model e.authority.revenue_share.interest_bps p)
          (λ c. Flashloan.validate_flashloan args c)
          (λ c. Flashloan.handle_flashloan t native_mint sync_native callback a args c l) done in
      two_steps t e here updated (updates c updated)
        (lent native_mint sync_native callback a args valid handled) ends ends_below
  execute_refines e (remove_collateral user a requested) us p l {r} fit below updates ends_below h =
      let (before, after, u, v, q, l', starts, done, ends) = with_position_lem t user us _ h in
      let (c, updated, valid, handled) =
        phases (update e.slot e.rate_model e.authority.revenue_share.interest_bps p)
          (λ c.
            Collateral.validate_remove e.slot e.ids e.pair_key e.sysvar e.authority a requested u c)
          (λ c. Collateral.handle_remove_collateral t e.slot a requested u c l) done in
      subst (λ ws. Reach t (at t ws p l) r) (sym starts)
        (two_steps t e here updated (updates c updated)
          (released before after u v e.slot e.ids e.pair_key e.sysvar e.authority a requested valid
            handled)
          ends ends_below)
  execute_refines e (borrow user a requested) us p l {r} fit below updates ends_below h =
      let (before, after, u, v, q, l', starts, done, ends) = with_position_lem t user us _ h in
      let (c, updated, valid, handled) =
        phases (update e.slot e.rate_model e.authority.revenue_share.interest_bps p)
          (λ c. Borrow.validate_borrow e.ids e.pair_key e.sysvar e.authority requested c)
          (λ c. Borrow.handle_borrow t e.slot a requested u c l) done in
      subst (λ ws. Reach t (at t ws p l) r) (sym starts)
        (two_steps t e here updated (updates c updated)
          (borrowed before after u v e.slot e.ids e.pair_key e.sysvar e.authority a requested valid
            handled)
          ends ends_below)
  execute_refines e (repay user a requested) us p l {r} fit below updates ends_below h =
      let (before, after, u, v, q, l', starts, done, ends) = with_position_lem t user us _ h in
      let (c, updated, valid, handled) =
        phases (update e.slot e.rate_model e.authority.revenue_share.interest_bps p)
          (λ c. Repay.validate_repay t a requested u c l)
          (λ c. Repay.handle_repay t a requested u c l) done in
      subst (λ ws. Reach t (at t ws p l) r) (sym starts)
        (two_steps t e here updated (updates c updated)
          (repaid before after u v a requested fit valid handled) ends ends_below)
  execute_refines e (liquidate user a) us p l {r} fit below updates ends_below h =
      let (before, after, u, v, q, l', starts, done, ends) = with_position_lem t user us _ h in
      let (c, updated, valid, handled) =
        phases (update e.slot e.rate_model e.authority.revenue_share.interest_bps p)
          (λ c. Liquidate.validate_liquidate a u c)
          (λ c. Liquidate.handle_liquidate t e.slot a u c l) done in
      subst (λ ws. Reach t (at t ws p l) r) (sym starts)
        (two_steps t e here updated (updates c updated)
          (liquidated before after u v e.slot a valid handled) ends ends_below)
  execute_refines e (add_collateral user bump a amount) us p l {r} fit below updates ends_below h =
      let deposit = λ (w : UserPosition).
        Collateral.add_collateral t e.slot e.rate_model e.authority user e.pair_key bump a amount w
          p l in
      elim (Option-cases (find user us)) [
        | inl missing ↦
            let done =
              subst (λ o. with_position t (some (or_fresh t us o)) deposit ≡ ok r) missing h in
            secured_run t e user bump a amount [] us fresh p l (next here opened below) updates
              ends_below done
        | inr ((before, u, after), found) ↦
            let done =
              subst (λ o. with_position t (some (or_fresh t us o)) deposit ≡ ok r) found h in
            let run =
              secured_run t e user bump a amount before after u p l here updates ends_below done in
            subst (λ ws. Reach t (at t ws p l) r) (sym (find_lem user us found)) run
      ]

  -- An instruction that succeeds keeps the accounts of the pair and its positions, under the same
  -- conditions: on both sides r_virtual = r_cash + r_debt in one word, the debt shares and the
  -- collateral of the pair are the sums over its positions, and without shares there is no debt.
  pub execute-IsSound :
      (e : Env) (i : Instruction Ledger) (us : List UserPosition) (p : Pair) (l : Ledger)
      {r : State Ledger}
      → HasOneMint i
      → IsBelow p
      → UpdatesBelow e p
      → IsBelow r.pair
      → IsSoundFor us p
      → execute t e i (at t us p l) ≡ ok r
      → IsSoundFor r.positions r.pair
  execute-IsSound e i us p l fit below updates ends_below sound h =
      Reach-IsSound t {s = at t us p l} sound
        (execute_refines e i us p l fit below updates ends_below h)
