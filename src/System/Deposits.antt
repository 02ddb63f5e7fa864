-- ===== src/System/Deposits.antt =====
-- Proofs: the instructions on collateral keep the accounts of the pair.
use omnipair_rs.Base.{
  ℕ, ◌≡◌, inl, inr, arith, Bool, true, false, not, Bool-cases, ◌==◌, if◌then◌else◌, Pubkey,
}
use omnipair_rs.Outcome.{ok, Result-cases}
use omnipair_rs.Pair.{Pair, max_debt_and_cf_bps}
use omnipair_rs.Position.{UserPosition, set_liquidation_cf, initialize, is_initialized}
use omnipair_rs.Token.{TokenProgram, transfer}
use omnipair_rs.Lending.{CollateralAccounts, debt_on, collateral_on}
use omnipair_rs.Lending.Collateral.{
  deposit_collateral, withdraw_collateral, withdraw_amount, handle_add_collateral,
  handle_remove_collateral,
}
use omnipair_rs.System.Accounts.{IsSoundWith}
use omnipair_rs.System.Debts.{marked_lem}

module _ (rest0 rest1 others0 others1 : ℕ) where
  deposited_lem :
      (is_token0 : Bool) (amount : ℕ) (u v : UserPosition) (p q : Pair)
      → deposit_collateral is_token0 amount u p ≡ ok (v, q)
      → IsSoundWith rest0 rest1 others0 others1 u p
      → IsSoundWith rest0 rest1 others0 others1 v q
  unfolding deposit_collateral
  deposited_lem true amount u v p q h (ordered, a0, a1) = ground arith
  deposited_lem false amount u v p q h (ordered, a0, a1) = ground arith

  withdrawn_lem :
      (is_token0 : Bool) (amount : ℕ) (u v : UserPosition) (p q : Pair)
      → withdraw_collateral is_token0 amount u p ≡ ok (v, q)
      → IsSoundWith rest0 rest1 others0 others1 u p
      → IsSoundWith rest0 rest1 others0 others1 v q
  unfolding withdraw_collateral
  withdrawn_lem true amount u v p q h (ordered, a0, a1) = ground arith
  withdrawn_lem false amount u v p q h (ordered, a0, a1) = ground arith

  opened_lem :
      (user key : Pubkey) (bump : ℕ) (u : UserPosition) (p : Pair)
      → IsSoundWith rest0 rest1 others0 others1 u p
      → IsSoundWith rest0 rest1 others0 others1
          (if is_initialized u then u else initialize user key bump u)
          p
  unfolding initialize
  opened_lem user key bump u p h = elim (Bool-cases (is_initialized u)) [
    | inl opened ↦ rw opened h
    | inr unused ↦ rw unused h
  ]

  module _ (t : TokenProgram) where
    open t use {Ledger}

    pub handle_add_collateral-IsSound :
        (user key : Pubkey) (bump : ℕ) (a : CollateralAccounts) (amount : ℕ) (u u' : UserPosition)
        (p q : Pair) (l l' : Ledger)
        → handle_add_collateral t user key bump a amount u p l ≡ ok (u', q, l')
        → IsSoundWith rest0 rest1 others0 others1 u p
        → IsSoundWith rest0 rest1 others0 others1 u' q
    unfolding handle_add_collateral
    handle_add_collateral-IsSound user key bump a amount u u' p q l l' h sound =
        let own = if is_initialized u then u else initialize user key bump u in
        let b = a.user_collateral_token_account_mint == p.token0 in
        elim (Result-cases
          (transfer t a.user_collateral_token_account a.collateral_vault amount l)) [
            | inr (e, bad) ↦ ground arith
            | inl (paid, sent) ↦ elim (Result-cases (deposit_collateral b amount own p)) [
              | inr (e, bad) ↦ ground arith
              | inl ((v, r), more) ↦
                  let e_u : v ≡ u' = ground arith in
                  let e_q : r ≡ q = ground arith in
                  rw (← e_u, ← e_q)
                    (deposited_lem b amount own v p r more (opened_lem user key bump u p sound))
            ]
          ]

    pub handle_remove_collateral-IsSound :
        (slot : ℕ) (a : CollateralAccounts) (requested : ℕ) (u u' : UserPosition) (p q : Pair)
        (l l' : Ledger)
        → handle_remove_collateral t slot a requested u p l ≡ ok (u', q, l')
        → IsSoundWith rest0 rest1 others0 others1 u p
        → IsSoundWith rest0 rest1 others0 others1 u' q
    unfolding handle_remove_collateral
    handle_remove_collateral-IsSound slot a requested u u' p q l l' h sound =
        let b = a.user_collateral_token_account_mint == p.token0 in
        elim (Result-cases (debt_on (not b) u p)) [
          | inr (e, bad) ↦ ground arith
          | inl (debt, owes) ↦
              let amount = withdraw_amount requested debt (collateral_on b u) in
              elim (Result-cases
                (transfer t a.collateral_vault a.user_collateral_token_account amount l)) [
                  | inr (e, bad) ↦ ground arith
                  | inl (paid, sent) ↦ elim (Result-cases (withdraw_collateral b amount u p)) [
                    | inr (e, bad) ↦ ground arith
                    | inl ((v, r), less) ↦
                        elim (Result-cases (
                          max_debt_and_cf_bps slot r (if b then r.token0 else r.token1)
                            (collateral_on b v))) [
                              | inr (e, bad) ↦ ground arith
                              | inl ((limit, allowed, cf), limits) ↦
                                  let token = if b then r.token1 else r.token0 in
                                  let e_u : set_liquidation_cf token r cf v ≡ u' = ground arith in
                                  let e_q : r ≡ q = ground arith in
                                  rw (← e_u, ← e_q)
                                    (marked_lem rest0 rest1 others0 others1 token r r cf v
                                      (withdrawn_lem b amount u v p r less sound))
                            ]
                  ]
                ]
        ]
