-- ===== src/System/Debts.antt =====
-- Proofs: the instructions on a position keep the accounts of the pair.
use omnipair_rs.Base.{
  ℕ, ◌+◌, ◌≤◌, ◌<◌, ◌≡◌, refl, sym, inl, inr, arith, true, false, Bool-cases, ◌==◌, if◌then◌else◌,
  Pubkey,
}
use mathlib.Core.Path.{subst}
use omnipair_rs.Word.{u64, u128, max_word}
use omnipair_rs.Outcome.{ok, Result-cases}
use omnipair_rs.Pair.{Side, Pair}
use omnipair_rs.Position.{
  DebtDecreaseReason, UserPosition, increase_debt, increase_debt_on, decrease_debt,
  decrease_debt_on, repayment, set_liquidation_cf, calculate_debt,
}
use omnipair_rs.Token.{TokenProgram, transfer}
use omnipair_rs.Lending.{DebtAccounts, debt_on}
use omnipair_rs.Lending.Borrow.{borrow_terms, handle_borrow}
use omnipair_rs.Lending.Repay.{validate_repay, handle_repay}
use omnipair_rs.Position.Shares.{calculate_debt-eq, calculate_debt-le}
use omnipair_rs.System.{IsBelow}
use omnipair_rs.System.Accounts.{IsAccounted, IsSoundWith}
use omnipair_rs.System.Sides.{borrowed-IsAccounted, repaid-IsAccounted}

-- What a user with at most all shares owes, when it is something.
owed_lem :
    (own : ℕ) (s : Side) (amount : ℕ) {owed : ℕ}
    → own ≤ s.total_debt_shares
    → calculate_debt own s.total_debt s.total_debt_shares ≡ ok owed
    → 0 < owed
    → amount ≤ owed
    → (0 < s.total_debt_shares) × (amount ≤ s.total_debt)
owed_lem own s amount le owes pos small =
    let most = calculate_debt-le own s.total_debt s.total_debt_shares le owes in
    elim (calculate_debt-eq own s.total_debt s.total_debt_shares owes) [
      | inl (_, nothing) ↦ omega arith
      | inr (some_shares, _) ↦ (some_shares, omega arith)
    ]

module _ (rest0 rest1 others0 others1 : ℕ) where
  -- The liquidation factor is not part of the accounts.
  pub marked_lem :
      (token : Pubkey) (r p : Pair) (cf : ℕ) (u : UserPosition)
      → IsSoundWith rest0 rest1 others0 others1 u p
      → IsSoundWith rest0 rest1 others0 others1 (set_liquidation_cf token r cf u) p
  unfolding set_liquidation_cf
  marked_lem token r p cf u h = elim (Bool-cases (token == r.token1)) [
    | inl first ↦ rw first h
    | inr second ↦ rw second h
  ]

  increased_lem :
      (token : Pubkey) (amount : ℕ) (u v : UserPosition) (p q : Pair)
      → increase_debt token amount u p ≡ ok (v, q)
      → IsBelow q
      → IsSoundWith rest0 rest1 others0 others1 u p
      → IsSoundWith rest0 rest1 others0 others1 v q
  unfolding increase_debt
  increased_lem token amount u v p q h below (ordered, a0, a1) =
      elim (Bool-cases (token == p.token0)) [
        | inl zero_side ↦ elim (Result-cases (increase_debt_on p.side0 u.debt0_shares amount)) [
          | inr (e, bad) ↦ ground arith
          | inl ((s, own), grown) ↦
              let e_u : record u { debt0_shares = own } ≡ v = ground arith in
              let e_q : record p { side0 = s } ≡ q = ground arith in
              let fits : s.total_debt_shares < max_word u128 =
                subst (λ (r : Pair). r.side0.total_debt_shares < max_word u128) (sym e_q) below.2 in
              let kept =
                borrowed-IsAccounted _ _ p.side0 s rest0 u.debt0_shares amount own refl grown fits
                  a0 in
              rw (← e_u, ← e_q) (ordered, kept, a1)
        ]
        | inr one_side ↦ elim (Result-cases (increase_debt_on p.side1 u.debt1_shares amount)) [
          | inr (e, bad) ↦ ground arith
          | inl ((s, own), grown) ↦
              let e_u : record u { debt1_shares = own } ≡ v = ground arith in
              let e_q : record p { side1 = s } ≡ q = ground arith in
              let fits : s.total_debt_shares < max_word u128 =
                subst (λ (r : Pair). r.side1.total_debt_shares < max_word u128) (sym e_q) below.3 in
              let kept =
                borrowed-IsAccounted _ _ p.side1 s rest1 u.debt1_shares amount own refl grown fits
                  a1 in
              rw (← e_u, ← e_q) (ordered, a0, kept)
        ]
      ]

  -- `decrease_debt` keeps the accounts of the pair if its branch keeps those of the side.
  pub decreased_lem :
      (token : Pubkey) (amount : ℕ) (reason : DebtDecreaseReason) (u v : UserPosition) (p q : Pair)
      → decrease_debt token amount reason u p ≡ ok (v, q)
      → ((s : Side) (own : ℕ)
          → (token == p.token0) ≡ true
          → decrease_debt_on p.side0 u.debt0_shares amount reason ≡ ok (s, own)
          → IsAccounted (rest0 + own) (others0 + u.collateral0) s)
      → ((s : Side) (own : ℕ)
          → (token == p.token0) ≡ false
          → decrease_debt_on p.side1 u.debt1_shares amount reason ≡ ok (s, own)
          → IsAccounted (rest1 + own) (others1 + u.collateral1) s)
      → IsSoundWith rest0 rest1 others0 others1 u p
      → IsSoundWith rest0 rest1 others0 others1 v q
  unfolding decrease_debt
  decreased_lem token amount reason u v p q h keep0 keep1 (ordered, a0, a1) =
      elim (Bool-cases (token == p.token0)) [
        | inl zero_side ↦
            elim (Result-cases (decrease_debt_on p.side0 u.debt0_shares amount reason)) [
              | inr (e, bad) ↦ ground arith
              | inl ((s, own), less) ↦
                  let e_u : record u { debt0_shares = own } ≡ v = ground arith in
                  let e_q : record p { side0 = s } ≡ q = ground arith in
                  let kept = keep0 s own zero_side less in rw (← e_u, ← e_q) (ordered, kept, a1)
            ]
        | inr one_side ↦
            elim (Result-cases (decrease_debt_on p.side1 u.debt1_shares amount reason)) [
              | inr (e, bad) ↦ ground arith
              | inl ((s, own), less) ↦
                  let e_u : record u { debt1_shares = own } ≡ v = ground arith in
                  let e_q : record p { side1 = s } ≡ q = ground arith in
                  let kept = keep1 s own one_side less in rw (← e_u, ← e_q) (ordered, a0, kept)
            ]
      ]

  -- A repayment of at most what the user owes of the token.
  repaid_lem :
      (token : Pubkey) (amount owed : ℕ) (u v : UserPosition) (p q : Pair)
      → debt_on (token == p.token0) u p ≡ ok owed
      → 0 < owed
      → amount ≤ owed
      → decrease_debt token amount repayment u p ≡ ok (v, q)
      → IsSoundWith rest0 rest1 others0 others1 u p
      → IsSoundWith rest0 rest1 others0 others1 v q
  unfolding debt_on
  repaid_lem token amount owed u v p q owes pos le h (ordered, a0, a1) =
      decreased_lem token amount repayment u v p q h
        (λ s own zero_side less.
          let (pos_s, small) =
            owed_lem u.debt0_shares p.side0 amount (ground arith) (ground arith) pos le in
          repaid-IsAccounted _ _ p.side0 s rest0 u.debt0_shares amount own refl pos_s small less a0)
        (λ s own one_side less.
          let (pos_s, small) =
            owed_lem u.debt1_shares p.side1 amount (ground arith) (ground arith) pos le in
          repaid-IsAccounted _ _ p.side1 s rest1 u.debt1_shares amount own refl pos_s small less a1)
        (ordered, a0, a1)

  module _ (t : TokenProgram) where
    open t use {Ledger}

    pub handle_borrow-IsSound :
        (slot : ℕ) (a : DebtAccounts) (requested : ℕ) (u u' : UserPosition) (p q : Pair)
        (l l' : Ledger)
        → handle_borrow t slot a requested u p l ≡ ok (u', q, l')
        → IsBelow q
        → IsSoundWith rest0 rest1 others0 others1 u p
        → IsSoundWith rest0 rest1 others0 others1 u' q
    unfolding handle_borrow
    handle_borrow-IsSound slot a requested u u' p q l l' h below sound =
        elim (Result-cases (borrow_terms slot a.reserve_token_mint requested u p)) [
          | inr (e, bad) ↦ ground arith
          | inl ((amount, cf), terms) ↦
              elim (Result-cases
                (transfer t a.reserve_vault a.user_reserve_token_account amount l)) [
                  | inr (e, bad) ↦ ground arith
                  | inl (paid, sent) ↦
                      elim (Result-cases (increase_debt a.reserve_token_mint amount u p)) [
                        | inr (e, bad) ↦ ground arith
                        | inl ((v, r), grown) ↦
                            let e_q : r ≡ q = ground arith in
                            let e_u : set_liquidation_cf a.reserve_token_mint r cf v ≡ u' =
                              ground arith in
                            let kept =
                              increased_lem a.reserve_token_mint amount u v p r grown
                                (subst IsBelow (sym e_q) below) sound in
                            rw (← e_u, ← e_q) (marked_lem a.reserve_token_mint r r cf v kept)
                      ]
                ]
        ]

    -- The amount of a repayment is at most what the user owes.
    repay_parts :
        (a : DebtAccounts) (requested : ℕ) (u u' : UserPosition) (p q : Pair) (l l' : Ledger)
        → validate_repay t a requested u p l ≡ ok tt
        → handle_repay t a requested u p l ≡ ok (u', q, l')
        → (owed amount : ℕ) × (debt_on (a.user_reserve_token_account_mint == p.token0) u p
            ≡ ok owed)
          × (0 < owed)
          × (amount ≤ owed)
          × (decrease_debt a.reserve_token_mint amount repayment u p ≡ ok (u', q))
    unfolding handle_repay validate_repay
    repay_parts a requested u u' p q l l' valid h =
        elim (Result-cases (debt_on (a.user_reserve_token_account_mint == p.token0) u p)) [
          | inr (e, bad) ↦ ground arith
          | inl (owed, owes) ↦
              let amount = if requested == max_word u64 then owed else requested in
              elim (Result-cases
                (transfer t a.user_reserve_token_account a.reserve_vault amount l)) [
                  | inr (e, bad) ↦ ground arith
                  | inl (paid, sent) ↦
                      elim (Result-cases
                        (decrease_debt a.reserve_token_mint amount repayment u p)) [
                          | inr (e, bad) ↦ ground arith
                          | inl ((v, r), less) ↦
                              (owed, amount, owes, ground arith, ground arith, ground arith)
                        ]
                ]
        ]

    pub handle_repay-IsSound :
        (a : DebtAccounts) (requested : ℕ) (u u' : UserPosition) (p q : Pair) (l l' : Ledger)
        → a.user_reserve_token_account_mint ≡ a.reserve_token_mint
        → validate_repay t a requested u p l ≡ ok tt
        → handle_repay t a requested u p l ≡ ok (u', q, l')
        → IsSoundWith rest0 rest1 others0 others1 u p
        → IsSoundWith rest0 rest1 others0 others1 u' q
    handle_repay-IsSound a requested u u' p q l l' one_mint valid h sound =
        let (owed, amount, owes, pos, le, less) = repay_parts a requested u u' p q l l' valid h in
        repaid_lem a.reserve_token_mint amount owed u u' p q
          (subst (λ (mint : Pubkey). debt_on (mint == p.token0) u p ≡ ok owed) one_mint owes) pos le
          less sound
