-- ===== src/System/Reachable.antt =====
-- Proofs: the accounts of a pair in every state that instructions reach.
use omnipair_rs.Base.{
  ℕ, ◌≤◌, ◌<◌, ◌≡◌, List, [], ◌∷◌, ◌++◌, Bool, true, false, refl, inl, inr, arith,
}
use omnipair_rs.Futarchy.Admin.{set_pair_reduce_only, set_pair_rate_model}
use omnipair_rs.Outcome.{ok, Result-cases}
use omnipair_rs.RateModel.{RateModel}
use omnipair_rs.Pair.{Side, Pair, initialize}
use omnipair_rs.Position.{UserPosition}
use omnipair_rs.Position.Shares.{calculate_debt-le}
use omnipair_rs.Liquidity.LpMint.{Programs}
use omnipair_rs.Liquidity.Bootstrap.{
  InitializeAccounts, InitializeArgs, rate_model_of, first_liquidity, bootstrap,
  validate_initialize, handle_initialize, initialize_and_bootstrap,
}
use omnipair_rs.Lending.{debt_on, collateral_on}
use omnipair_rs.Token.{TokenProgram}
use omnipair_rs.System.{
  State, Step, elapsed, swapped, added, removed, lent, claimed, reduce_only_set, rate_model_set,
  opened, borrowed, repaid, secured, released, liquidated, IsBelow, fresh, at, Reach, here, next,
}
use omnipair_rs.System.Accounts.{IsSoundFor, focus, unfocus}
use omnipair_rs.System.Pools.{
  update-IsSound, handle_swap-IsSound, handle_add-IsSound, handle_remove-IsSound,
  handle_flashloan-IsSound,
}
use omnipair_rs.System.Debts.{handle_borrow-IsSound, handle_repay-IsSound}
use omnipair_rs.System.Deposits.{handle_add_collateral-IsSound, handle_remove_collateral-IsSound}
use omnipair_rs.System.Seizures.{handle_liquidate-IsSound}

-- A new position holds nothing.
opened_lem : (us : List UserPosition) (p : Pair) → IsSoundFor us p → IsSoundFor (fresh ∷ us) p
opened_lem us p sound = ground arith

bootstrap_lem :
    (amount0 amount1 liquidity : ℕ) (p q : Pair)
    → p.token0 < p.token1
    → p.side0.total_debt ≡ 0
    → p.side0.total_debt_shares ≡ 0
    → p.side0.total_collateral ≡ 0
    → p.side1.total_debt ≡ 0
    → p.side1.total_debt_shares ≡ 0
    → p.side1.total_collateral ≡ 0
    → bootstrap amount0 amount1 liquidity p ≡ ok q
    → IsSoundFor [] q
unfolding bootstrap
bootstrap_lem amount0 amount1 liquidity p q ordered d0 s0 c0 d1 s1 c1 h = ground arith

-- Nobody owes anything in a pair that was just created.
pub initialized-IsSound :
    (t : TokenProgram) (programs : Programs (t.Ledger)) (slot : ℕ) (a : InitializeAccounts)
    (args : InitializeArgs) (l : t.Ledger) {m : RateModel} {p : Pair} {l' : t.Ledger}
    → initialize_and_bootstrap t programs slot a args l ≡ ok (m, p, l')
    → IsSoundFor [] p
unfolding initialize_and_bootstrap validate_initialize handle_initialize initialize
initialized-IsSound t programs slot a args l {m} {p} {l'} h =
    elim (Result-cases (rate_model_of args)) [
      | inr (e, bad) ↦ ground arith
      | inl (model, made) ↦ elim (Result-cases (first_liquidity args.amount0_in args.amount1_in)) [
        | inr (e, bad) ↦ ground arith
        | inl (liquidity, rooted) ↦
            let p0 =
              initialize a.token0_mint a.token1_mint a.lp_mint a.decimals0 a.decimals1 a.rate_model
                args.swap_fee_bps args.half_life args.fixed_cf_bps slot args.params_hash
                args.version a.pair_bump a.vault_bumps model.initial_rate in
            elim (Result-cases (bootstrap args.amount0_in args.amount1_in liquidity p0)) [
              | inr (e, bad) ↦ ground arith
              | inl (q, filled) ↦
                  let e_q : q ≡ p = ground arith in
                  let ordered : a.token0_mint < a.token1_mint = ground arith in
                  rw (← e_q) (
                    bootstrap_lem args.amount0_in args.amount1_in liquidity p0 q ordered refl refl
                      refl refl refl refl filled)
            ]
      ]
    ]

-- The side of token 0, or of token 1, and the debt shares of a position on it.
abbrev pub side_on : Bool → Pair → Side
side_on true p = p.side0
side_on false p = p.side1

abbrev pub shares_on : Bool → UserPosition → ℕ
shares_on true u = u.debt0_shares
shares_on false u = u.debt1_shares

module _ (t : TokenProgram) where
  open t use {Ledger}

  -- Every instruction keeps the accounts.
  pub Step-IsSound :
      {s r : State Ledger}
      → Step t s r
      → IsBelow r.pair
      → IsSoundFor s.positions s.pair
      → IsSoundFor r.positions r.pair
  unfolding set_pair_reduce_only set_pair_rate_model
  Step-IsSound (elapsed slot m bps h) below sound =
      update-IsSound _ _ _ _ slot m bps _ _ h below sound
  Step-IsSound (swapped authority a args valid h) below sound =
      handle_swap-IsSound _ _ _ _ t authority a args _ _ _ _ h sound
  Step-IsSound (added ids key sysvar authority a args valid h) below sound =
      handle_add-IsSound _ _ _ _ t a args _ _ _ _ h sound
  Step-IsSound (removed slot ids key sysvar a args valid h) below sound =
      handle_remove-IsSound _ _ _ _ t slot a args _ _ _ _ h sound
  Step-IsSound (lent native_mint sync_native callback a args valid h) below sound =
      handle_flashloan-IsSound _ _ _ _ t native_mint sync_native callback a args _ _ _ _ h below
        sound
  Step-IsSound (claimed authority a0 a1 h) below sound = sound
  Step-IsSound (reduce_only_set flag) below sound = sound
  Step-IsSound (rate_model_set key) below sound = sound
  Step-IsSound (opened {us = us} {p = p}) below sound = opened_lem us p sound
  Step-IsSound
        (borrowed {p = p} {q = q} before after u u' slot ids key sysvar authority a requested valid
          h)
        below sound =
      unfocus before after u' q (
        handle_borrow-IsSound _ _ _ _ t slot a requested u u' _ _ _ _ h below
          (focus before after u p sound))
  Step-IsSound (repaid {p = p} {q = q} before after u u' a requested one_mint valid h) below sound =
      unfocus before after u' q (
        handle_repay-IsSound _ _ _ _ t a requested u u' _ _ _ _ one_mint valid h
          (focus before after u p sound))
  Step-IsSound (secured {p = p} {q = q} before after u u' user key bump a amount valid h) below
        sound =
      unfocus before after u' q (
        handle_add_collateral-IsSound _ _ _ _ t user key bump a amount u u' _ _ _ _ h
          (focus before after u p sound))
  Step-IsSound
        (released {p = p} {q = q} before after u u' slot ids key sysvar authority a requested valid
          h)
        below sound =
      unfocus before after u' q (
        handle_remove_collateral-IsSound _ _ _ _ t slot a requested u u' _ _ _ _ h
          (focus before after u p sound))
  Step-IsSound (liquidated {p = p} {q = q} before after u u' slot a valid h) below sound =
      unfocus before after u' q (
        handle_liquidate-IsSound _ _ _ _ t slot a u u' _ _ _ _ valid h
          (focus before after u p sound))

  -- Instructions keep the accounts of a pair, as long as the reserves and the share totals stay
  -- below their largest words: on both sides r_virtual = r_cash + r_debt in one word, the debt
  -- shares and the collateral of the pair are the sums over its positions, and without shares
  -- there is no debt.
  pub Reach-IsSound :
      {s r : State Ledger}
      → IsSoundFor s.positions s.pair
      → Reach t s r
      → IsSoundFor r.positions r.pair
  Reach-IsSound sound here = sound
  Reach-IsSound sound (next path step below) = Step-IsSound step below (Reach-IsSound sound path)

  -- Every state that instructions reach from a pair that `initialize` created, with the reserves
  -- and the share totals below their largest words throughout, has sound accounts: on both sides
  -- r_virtual = r_cash + r_debt in one word, the debt shares and the collateral of the pair are
  -- the sums over its positions, and without shares there is no debt.
  pub reachable-IsSound :
      (programs : Programs Ledger) (slot : ℕ) (a : InitializeAccounts) (args : InitializeArgs)
      (l : Ledger) {m : RateModel} {p : Pair} {l' : Ledger} {r : State Ledger}
      → initialize_and_bootstrap t programs slot a args l ≡ ok (m, p, l')
      → Reach t (at t [] p l') r
      → IsSoundFor r.positions r.pair
  reachable-IsSound programs slot a args l h path =
      Reach-IsSound (initialized-IsSound t programs slot a args l h) path

  -- In every state that instructions reach from a state with sound accounts, with the reserves
  -- and the share totals below their largest words, no position owes more than the debt of the
  -- side, nor has more collateral than the side counts.
  pub positions_within :
      {s : State Ledger} {q : Pair} {l : Ledger} (before after : List UserPosition)
      (u : UserPosition) (b : Bool) {owed : ℕ}
      → IsSoundFor s.positions s.pair
      → Reach t s (at t (before ++ (u ∷ after)) q l)
      → debt_on b u q ≡ ok owed
      → (owed ≤ (side_on b q).total_debt) × (collateral_on b u ≤ (side_on b q).total_collateral)
  unfolding debt_on collateral_on
  positions_within {q = q} before after u true sound path owes =
      let (_, (_, _, s0, c0, _), _) = focus before after u q (Reach-IsSound sound path) in
      (calculate_debt-le u.debt0_shares _ _ (omega arith) owes, omega arith)
  positions_within {q = q} before after u false sound path owes =
      let (_, _, (_, _, s1, c1, _)) = focus before after u q (Reach-IsSound sound path) in
      (calculate_debt-le u.debt1_shares _ _ (omega arith) owes, omega arith)
