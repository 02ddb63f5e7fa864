-- ===== src/System/Seizures.antt =====
-- Proofs: a liquidation keeps the accounts of the pair.
use omnipair_rs.Base.{
  ℕ, ◌-◌, ◌<◌, ◌≡◌, refl, inl, inr, arith, Bool, true, false, ltb, ◌==◌, if◌then◌else◌,
}
use omnipair_rs.Outcome.{ok, Result-cases}
use omnipair_rs.Pair.{Pair, max_debt_and_cf_bps, get_token_y}
use omnipair_rs.Position.{
  UserPosition, decrease_debt, write_off, set_liquidation_cf, liquidation_cf_bps,
}
use omnipair_rs.Token.{TokenProgram}
use omnipair_rs.Lending.{collateral_on}
use omnipair_rs.Lending.Liquidate.{
  LiquidateAccounts, WriteOff, validate_liquidate, write_off_of, incentive, absorb, seize,
  handle_liquidate,
}
use omnipair_rs.Lending.Seizure.{write_off_of-IsWriteOff, shares_to_writeoff-le}
use omnipair_rs.System.Accounts.{IsSoundWith}
use omnipair_rs.System.Sides.{written-IsAccounted, absorbed-IsAccounted}
use omnipair_rs.System.Debts.{marked_lem, decreased_lem}

module _ (rest0 rest1 others0 others1 : ℕ) where
  seized_lem :
      (is_token0 : Bool) (seized to_reserves : ℕ) (u v : UserPosition) (p q : Pair)
      → seize is_token0 seized to_reserves u p ≡ ok (v, q)
      → IsSoundWith rest0 rest1 others0 others1 u p
      → IsSoundWith rest0 rest1 others0 others1 v q
  unfolding seize collateral_on
  seized_lem true seized to_reserves u v p q h (ordered, a0, a1) =
      elim (Result-cases (absorb seized to_reserves p.side0)) [
        | inr (e, bad) ↦ ground arith
        | inl (s, taken) ↦
            let e_u : record u { collateral0 = u.collateral0 - seized } ≡ v = ground arith in
            let e_q : record p { side0 = s } ≡ q = ground arith in
            let kept =
              absorbed-IsAccounted _ _ p.side0 s others0 u.collateral0 (u.collateral0 - seized)
                seized to_reserves refl (ground arith) taken a0 in
            rw (← e_u, ← e_q) (ordered, kept, a1)
      ]
  seized_lem false seized to_reserves u v p q h (ordered, a0, a1) =
      elim (Result-cases (absorb seized to_reserves p.side1)) [
        | inr (e, bad) ↦ ground arith
        | inl (s, taken) ↦
            let e_u : record u { collateral1 = u.collateral1 - seized } ≡ v = ground arith in
            let e_q : record p { side1 = s } ≡ q = ground arith in
            let kept =
              absorbed-IsAccounted _ _ p.side1 s others1 u.collateral1 (u.collateral1 - seized)
                seized to_reserves refl (ground arith) taken a1 in
            rw (← e_u, ← e_q) (ordered, a0, kept)
      ]

  -- The write-off of a debt in the other token than the collateral's.
  written_lem :
      (slot cf : ℕ) (is_token0 : Bool) (w : WriteOff) (u v : UserPosition) (p q : Pair)
      → (if is_token0
          then write_off_of slot p p.side0 p.side1 u.collateral0 u.debt1_shares cf
          else write_off_of slot p p.side1 p.side0 u.collateral1 u.debt0_shares cf)
        ≡ ok w
      → 0 < (if is_token0 then u.debt1_shares else u.debt0_shares)
      → decrease_debt (if is_token0 then p.token1 else p.token0) w.debt (write_off w.shares) u p
        ≡ ok (v, q)
      → IsSoundWith rest0 rest1 others0 others1 u p
      → IsSoundWith rest0 rest1 others0 others1 v q
  written_lem slot cf true w u v p q h some_shares less (ordered, a0, a1) =
      let (_, owes, _, _, _, counted, written, _) =
        write_off_of-IsWriteOff slot p p.side0 p.side1 u.collateral0 u.debt1_shares cf w h in
      let (le, _) = shares_to_writeoff-le (ltb w.value w.user_debt) u.debt1_shares counted in
      decreased_lem rest0 rest1 others0 others1 p.token1 w.debt (write_off w.shares) u v p q less
        (λ s own zero_side done. ground arith)
        (λ s own one_side done.
          written-IsAccounted _ _ p.side1 s rest1 u.debt1_shares w.debt own w.shares w.user_debt
            refl some_shares le owes written done a1)
        (ordered, a0, a1)
  written_lem slot cf false w u v p q h some_shares less (ordered, a0, a1) =
      let (_, owes, _, _, _, counted, written, _) =
        write_off_of-IsWriteOff slot p p.side1 p.side0 u.collateral1 u.debt0_shares cf w h in
      let (le, _) = shares_to_writeoff-le (ltb w.value w.user_debt) u.debt0_shares counted in
      decreased_lem rest0 rest1 others0 others1 p.token0 w.debt (write_off w.shares) u v p q less
        (λ s own zero_side done.
          written-IsAccounted _ _ p.side0 s rest0 u.debt0_shares w.debt own w.shares w.user_debt
            refl some_shares le owes written done a0)
        (λ s own one_side done. ground arith) (ordered, a0, a1)

  module _ (t : TokenProgram) where
    open t use {Ledger}

    -- The parts of a liquidation that change the accounts.
    liquidation_parts :
        (slot : ℕ) (a : LiquidateAccounts) (u u' : UserPosition) (p q : Pair) (l l' : Ledger)
        → handle_liquidate t slot a u p l ≡ ok (u', q, l')
        → let b = a.collateral_token_mint == p.token0 in
          let token = if b then p.token1 else p.token0 in
          let cf = liquidation_cf_bps token p u in
          (w : WriteOff) × (v : UserPosition) × (r : Pair) × (new_cf to_reserves : ℕ) × ((if b
              then write_off_of slot p p.side0 p.side1 u.collateral0 u.debt1_shares cf
              else write_off_of slot p p.side1 p.side0 u.collateral1 u.debt0_shares cf)
            ≡ ok w)
          × (decrease_debt token w.debt (write_off w.shares) u p ≡ ok (v, r))
          × (seize b w.collateral_final to_reserves (set_liquidation_cf token r new_cf v) r
              ≡ ok (u', q))
    unfolding handle_liquidate
    liquidation_parts slot a u u' p q l l' h =
        let b = a.collateral_token_mint == p.token0 in
        let token = if b then p.token1 else p.token0 in
        let cf = liquidation_cf_bps token p u in
        let collateral_token = get_token_y p token in
        elim (Result-cases (
          if b
          then write_off_of slot p p.side0 p.side1 u.collateral0 u.debt1_shares cf
          else write_off_of slot p p.side1 p.side0 u.collateral1 u.debt0_shares cf)) [
            | inr (e, bad) ↦ ground arith
            | inl (w, written) ↦
                let post = collateral_on (collateral_token == p.token0) u - w.collateral_final in
                elim (Result-cases (max_debt_and_cf_bps slot p collateral_token post)) [
                  | inr (e, bad) ↦ ground arith
                  | inl ((limit, allowed, new_cf), limits) ↦
                      elim (Result-cases (incentive w.collateral_base w.collateral_final)) [
                        | inr (e, bad) ↦ ground arith
                        | inl (share, counted) ↦
                            elim (Result-cases
                              (decrease_debt token w.debt (write_off w.shares) u p)) [
                                | inr (e, bad) ↦ ground arith
                                | inl ((v, r), less) ↦
                                    let to_reserves = w.collateral_final - share in
                                    let marked = set_liquidation_cf token r new_cf v in
                                    elim (Result-cases
                                      (seize b w.collateral_final to_reserves marked r)) [
                                        | inr (e, bad) ↦ ground arith
                                        | inl ((after, end), taken) ↦ (
                                          w,
                                          v,
                                          r,
                                          new_cf,
                                          to_reserves,
                                          written,
                                          less,
                                          ground arith,
                                        )
                                      ]
                              ]
                      ]
                ]
          ]

    pub handle_liquidate-IsSound :
        (slot : ℕ) (a : LiquidateAccounts) (u u' : UserPosition) (p q : Pair) (l l' : Ledger)
        → validate_liquidate a u p ≡ ok tt
        → handle_liquidate t slot a u p l ≡ ok (u', q, l')
        → IsSoundWith rest0 rest1 others0 others1 u p
        → IsSoundWith rest0 rest1 others0 others1 u' q
    unfolding validate_liquidate
    handle_liquidate-IsSound slot a u u' p q l l' valid h sound =
        let b = a.collateral_token_mint == p.token0 in
        let token = if b then p.token1 else p.token0 in
        let cf = liquidation_cf_bps token p u in
        let (w, v, r, new_cf, to_reserves, written, less, taken) =
          liquidation_parts slot a u u' p q l l' h in
        let relieved = written_lem slot cf b w u v p r written (ground arith) less sound in
        seized_lem b w.collateral_final to_reserves (set_liquidation_cf token r new_cf v) u' r q
          taken (marked_lem rest0 rest1 others0 others1 token r r new_cf v relieved)
