-- ===== src/Vaults/Positions.antt =====
-- Proofs: the instructions on a position (instructions/lending) leave the vaults of a pair with what the
-- pair counts.
use omnipair_rs.Base.{
  ℕ, ◌+◌, ◌≤◌, ◌≡◌, Bool, true, false, not, ◌==◌, ltb, leb, if◌then◌else◌, arith, Pubkey,
}
use omnipair_rs.Word.{u64, max_word}
use omnipair_rs.Outcome.{ok, chain, require, amount_zero, insufficient_balance_for_collateral}
use omnipair_rs.Pair.{Pair, max_debt_and_cf_bps}
use omnipair_rs.Position.{
  UserPosition, is_initialized, initialize, repayment, increase_debt, decrease_debt,
}
use omnipair_rs.Token.{TokenProgram, transfer}
use omnipair_rs.Swap.Backing.{cash_on}
use omnipair_rs.Lending.{DebtAccounts, CollateralAccounts, debt_on, collateral_on}
use omnipair_rs.Lending.Borrow.{borrow_terms, handle_borrow}
use omnipair_rs.Lending.Repay.{handle_repay}
use omnipair_rs.Lending.Collateral.{
  deposit_collateral, withdraw_collateral, withdraw_amount, handle_add_collateral,
  handle_remove_collateral,
}
use omnipair_rs.Vaults.{
  Vaults, AreApart, IsTokenLedger, IsOutside, IsBacked, IsSame, reserve_of, collateral_of,
}
use omnipair_rs.Vaults.Transfers.{transfer_in, transfer_gains, transfer_draws}
use omnipair_rs.Vaults.Payments.{
  ended, reserve0_pays, reserve1_pays, collateral0_pays, collateral1_pays,
}
use omnipair_rs.Vaults.Counts.{
  collateral_in, SameCollateral, SameCash, increase_rest, repay_rest, deposit_rest, withdraw_rest,
}

module _ (t : TokenProgram) (laws : IsTokenLedger t) (v : Vaults) (apart : AreApart v) where
  open t use {Ledger, balance}

  -- A payment into or out of a vault, counted by the pair.
  reserve_pays_out :
      (b : Bool) (to : Pubkey) (amount : ℕ) (p q : Pair) (l l' : Ledger)
      → transfer t (reserve_of b v) to amount l ≡ ok l'
      → cash_on b q + amount ≡ cash_on b p
      → cash_on (not b) q ≡ cash_on (not b) p
      → SameCollateral p q
      → IsBacked t v p l
      → IsBacked t v q l'
  reserve_pays_out true to amount p q l l' h e e' same backed =
      let less = transfer_draws t laws v.reserve0 to amount l l' h in
      let others = reserve0_pays t laws v apart to amount l l' h in
      (omega arith, omega arith, omega arith, omega arith)
  reserve_pays_out false to amount p q l l' h e e' same backed =
      let less = transfer_draws t laws v.reserve1 to amount l l' h in
      let others = reserve1_pays t laws v apart to amount l l' h in
      (omega arith, omega arith, omega arith, omega arith)

  collateral_pays_out :
      (b : Bool) (to : Pubkey) (amount : ℕ) (p q : Pair) (l l' : Ledger)
      → transfer t (collateral_of b v) to amount l ≡ ok l'
      → collateral_in b q + amount ≡ collateral_in b p
      → collateral_in (not b) q ≡ collateral_in (not b) p
      → SameCash p q
      → IsBacked t v p l
      → IsBacked t v q l'
  collateral_pays_out true to amount p q l l' h e e' same backed =
      let less = transfer_draws t laws v.collateral0 to amount l l' h in
      let others = collateral0_pays t laws v apart to amount l l' h in
      (omega arith, omega arith, omega arith, omega arith)
  collateral_pays_out false to amount p q l l' h e e' same backed =
      let less = transfer_draws t laws v.collateral1 to amount l l' h in
      let others = collateral1_pays t laws v apart to amount l l' h in
      (omega arith, omega arith, omega arith, omega arith)

  reserve_is_paid :
      (b : Bool) (from : Pubkey) (amount : ℕ) (p q : Pair) (l l' : Ledger)
      → IsOutside v from
      → transfer t from (reserve_of b v) amount l ≡ ok l'
      → cash_on b q ≤ cash_on b p + amount
      → cash_on (not b) q ≡ cash_on (not b) p
      → SameCollateral p q
      → IsBacked t v p l
      → IsBacked t v q l'
  reserve_is_paid true from amount p q l l' outside h e e' same backed =
      let kept = transfer_in t laws from v.reserve0 amount l l' v outside h in
      let more = transfer_gains t laws from v.reserve0 amount l l' outside.0 h in
      (omega arith, omega arith, omega arith, omega arith)
  reserve_is_paid false from amount p q l l' outside h e e' same backed =
      let kept = transfer_in t laws from v.reserve1 amount l l' v outside h in
      let more = transfer_gains t laws from v.reserve1 amount l l' outside.1 h in
      (omega arith, omega arith, omega arith, omega arith)

  collateral_is_paid :
      (b : Bool) (from : Pubkey) (amount : ℕ) (p q : Pair) (l l' : Ledger)
      → IsOutside v from
      → transfer t from (collateral_of b v) amount l ≡ ok l'
      → collateral_in b q ≡ collateral_in b p + amount
      → collateral_in (not b) q ≡ collateral_in (not b) p
      → SameCash p q
      → IsBacked t v p l
      → IsBacked t v q l'
  collateral_is_paid true from amount p q l l' outside h e e' same backed =
      let kept = transfer_in t laws from v.collateral0 amount l l' v outside h in
      let more = transfer_gains t laws from v.collateral0 amount l l' outside.2 h in
      (omega arith, omega arith, omega arith, omega arith)
  collateral_is_paid false from amount p q l l' outside h e e' same backed =
      let kept = transfer_in t laws from v.collateral1 amount l l' v outside h in
      let more = transfer_gains t laws from v.collateral1 amount l l' outside.3 h in
      (omega arith, omega arith, omega arith, omega arith)

  -- A loan, from the vault of its token.
  pub handle_borrow-IsBacked :
      (b : Bool) (slot : ℕ) (a : DebtAccounts) (requested : ℕ) (u u' : UserPosition) (p q : Pair)
      (l l' : Ledger)
      → (a.reserve_token_mint == p.token0) ≡ b
      → a.reserve_vault ≡ reserve_of b v
      → handle_borrow t slot a requested u p l ≡ ok (u', q, l')
      → IsBacked t v p l
      → IsBacked t v q l' × IsSame p q
  unfolding handle_borrow
  handle_borrow-IsBacked b slot a requested u u' p q l l' side vault h backed =
      let ((amount, cf), terms, h1) =
        chain (borrow_terms slot a.reserve_token_mint requested u p) _ h in
      let (l1, sent, h2) =
        chain (transfer t a.reserve_vault a.user_reserve_token_account amount l) _ h1 in
      let ((w, r), grown, h3) = chain (increase_debt a.reserve_token_mint amount u p) _ h2 in
      let e_q : r ≡ q = ground arith in
      let e_l : l1 ≡ l' = ground arith in
      let paid : transfer t (reserve_of b v) a.user_reserve_token_account amount l ≡ ok l1 =
        rw (← vault) sent in
      let (c, c', same, kept) = increase_rest b a.reserve_token_mint amount u w p r side grown in
      ended t laws v apart p q r l1 l' e_q e_l (
        reserve_pays_out b a.user_reserve_token_account amount p r l l1 paid c c' same backed,
        kept,
      )

  -- A repayment, into the vault of its token, from an account that is no vault.
  pub handle_repay-IsBacked :
      (b : Bool) (a : DebtAccounts) (requested : ℕ) (u u' : UserPosition) (p q : Pair)
      (l l' : Ledger)
      → (a.reserve_token_mint == p.token0) ≡ b
      → a.reserve_vault ≡ reserve_of b v
      → IsOutside v a.user_reserve_token_account
      → handle_repay t a requested u p l ≡ ok (u', q, l')
      → IsBacked t v p l
      → IsBacked t v q l' × IsSame p q
  unfolding handle_repay
  handle_repay-IsBacked b a requested u u' p q l l' side vault outside h backed =
      let (amount, meant, h1) =
        chain
          (if requested == max_word u64
            then debt_on (a.user_reserve_token_account_mint == p.token0) u p
            else ok requested)
          _ h in
      let (l1, sent, h2) =
        chain (transfer t a.user_reserve_token_account a.reserve_vault amount l) _ h1 in
      let ((w, r), less, h3) =
        chain (decrease_debt a.reserve_token_mint amount repayment u p) _ h2 in
      let e_q : r ≡ q = ground arith in
      let e_l : l1 ≡ l' = ground arith in
      let paid : transfer t a.user_reserve_token_account (reserve_of b v) amount l ≡ ok l1 =
        rw (← vault) sent in
      let (c, c', same, kept) = repay_rest b a.reserve_token_mint amount u w p r side less in
      ended t laws v apart p q r l1 l' e_q e_l (
        reserve_is_paid b a.user_reserve_token_account amount p r l l1 outside paid c c' same
            backed,
        kept,
      )

  -- A deposit of collateral, into the vault of its token, from an account that is no vault.
  pub handle_add_collateral-IsBacked :
      (b : Bool) (user key : Pubkey) (bump : ℕ) (a : CollateralAccounts) (amount : ℕ)
      (u u' : UserPosition) (p q : Pair) (l l' : Ledger)
      → (a.user_collateral_token_account_mint == p.token0) ≡ b
      → a.collateral_vault ≡ collateral_of b v
      → IsOutside v a.user_collateral_token_account
      → handle_add_collateral t user key bump a amount u p l ≡ ok (u', q, l')
      → IsBacked t v p l
      → IsBacked t v q l' × IsSame p q
  unfolding handle_add_collateral
  handle_add_collateral-IsBacked b user key bump a amount u u' p q l l' side vault outside h
        backed =
      let own = if is_initialized u then u else initialize user key bump u in
      let (l1, sent, h1) =
        chain (transfer t a.user_collateral_token_account a.collateral_vault amount l) _ h in
      let ((w, r), more, h2) =
        chain (deposit_collateral (a.user_collateral_token_account_mint == p.token0) amount own p) _
          h1 in
      let e_q : r ≡ q = ground arith in
      let e_l : l1 ≡ l' = ground arith in
      let paid : transfer t a.user_collateral_token_account (collateral_of b v) amount l ≡ ok l1 =
        rw (← vault) sent in
      let more' : deposit_collateral b amount own p ≡ ok (w, r) = rw (← side) more in
      let (c, c', same, kept) = deposit_rest b amount own w p r more' in
      ended t laws v apart p q r l1 l' e_q e_l (
        collateral_is_paid b a.user_collateral_token_account amount p r l l1 outside paid c c' same
            backed,
        kept,
      )

  -- A withdrawal of collateral, from the vault of its token.
  pub handle_remove_collateral-IsBacked :
      (b : Bool) (slot : ℕ) (a : CollateralAccounts) (requested : ℕ) (u u' : UserPosition)
      (p q : Pair) (l l' : Ledger)
      → (a.user_collateral_token_account_mint == p.token0) ≡ b
      → a.collateral_vault ≡ collateral_of b v
      → handle_remove_collateral t slot a requested u p l ≡ ok (u', q, l')
      → IsBacked t v p l
      → IsBacked t v q l' × IsSame p q
  unfolding handle_remove_collateral
  handle_remove_collateral-IsBacked b slot a requested u u' p q l l' side vault h backed =
      let is_token0 = a.user_collateral_token_account_mint == p.token0 in
      let (debt, owes, h1) = chain (debt_on (not is_token0) u p) _ h in
      let amount = withdraw_amount requested debt (collateral_on is_token0 u) in
      let (_, _, h2) = chain (require (ltb 0 amount) amount_zero) _ h1 in
      let (_, _, h3) =
        chain (require (leb amount (collateral_on is_token0 u)) insufficient_balance_for_collateral)
          _ h2 in
      let (l1, sent, h4) =
        chain (transfer t a.collateral_vault a.user_collateral_token_account amount l) _ h3 in
      let ((w, r), less, h5) = chain (withdraw_collateral is_token0 amount u p) _ h4 in
      let (limits, limited, h6) =
        chain
          (max_debt_and_cf_bps slot r (if is_token0 then r.token0 else r.token1)
            (collateral_on is_token0 w))
          _ h5 in
      let e_q : r ≡ q = ground arith in
      let e_l : l1 ≡ l' = ground arith in
      let paid : transfer t (collateral_of b v) a.user_collateral_token_account amount l ≡ ok l1 =
        rw (← vault) sent in
      let less' : withdraw_collateral b amount u p ≡ ok (w, r) = rw (← side) less in
      let (c, c', same, kept) = withdraw_rest b amount u w p r less' in
      ended t laws v apart p q r l1 l' e_q e_l (
        collateral_pays_out b a.user_collateral_token_account amount p r l l1 paid c c' same backed,
        kept,
      )
