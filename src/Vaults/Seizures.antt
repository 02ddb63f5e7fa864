-- ===== src/Vaults/Seizures.antt =====
-- Proofs: a liquidation (instructions/lending/liquidate.rs) leaves the vaults of a pair with what the
-- pair counts.
use omnipair_rs.Base.{
  ℕ, ◌+◌, ◌≤◌, ◌≡◌, sym, ap, ◌∙◌, Bool, true, false, not, ◌==◌, if◌then◌else◌, arith, Pubkey,
}
use omnipair_rs.Word.{checked_sub}
use omnipair_rs.Outcome.{
  Result, ok, ◌>>=◌, chain, guarded, ok-injective, require, ok_or, invalid_vault,
  debt_math_overflow,
}
use omnipair_rs.Pair.{Pair, get_token_y, ema_price_nad, max_debt_and_cf_bps}
use omnipair_rs.Position.{
  UserPosition, write_off, decrease_debt, liquidation_cf_bps, set_liquidation_cf,
}
use omnipair_rs.Int.{neg_as_i64}
use omnipair_rs.Token.{TokenProgram, transfer}
use omnipair_rs.Swap.Backing.{cash_on}
use omnipair_rs.Lending.{collateral_on}
use omnipair_rs.Lending.Liquidate.{
  LiquidateAccounts, WriteOff, write_off_of, incentive, seize, handle_liquidate,
}
use omnipair_rs.Vaults.{
  Vaults, AreApart, IsTokenLedger, IsBacked, IsSame, reserve_of, collateral_of,
}
use omnipair_rs.Vaults.Transfers.{transfer_gains, transfer_draws}
use omnipair_rs.Vaults.Counts.{collateral_in, SameCash, SameCollateral, seize_rest, write_off_rest}
use omnipair_rs.Vaults.Payments.{ended, collateral0_pays, collateral1_pays}

split_lem :
    (whole share rest : ℕ)
    → ok_or (checked_sub whole share) debt_math_overflow ≡ ok rest
    → share + rest ≡ whole
split_lem whole share rest h = ground arith

module _ (t : TokenProgram) (laws : IsTokenLedger t) (v : Vaults) (apart : AreApart v) where
  open t use {Ledger, balance}

  -- The seized collateral leaves its vault, one part for the caller, the other for the reserve vault
  -- of the same token.
  seizure_moves :
      (b : Bool) (caller : Pubkey) (share rest : ℕ) (l l1 l2 : Ledger)
      → transfer t (collateral_of b v) caller share l ≡ ok l1
      → transfer t (collateral_of b v) (reserve_of b v) rest l1 ≡ ok l2
      → (balance l (reserve_of b v) + rest ≤ balance l2 (reserve_of b v))
        × (balance l (reserve_of (not b) v) ≤ balance l2 (reserve_of (not b) v))
        × (balance l (collateral_of b v) ≤ balance l2 (collateral_of b v) + (share + rest))
        × (balance l (collateral_of (not b) v) ≤ balance l2 (collateral_of (not b) v))
  seizure_moves true caller share rest l l1 l2 first second =
      let (_, _, r0c0, _, _, _) = apart in
      let others = collateral0_pays t laws v apart caller share l l1 first in
      let less = transfer_draws t laws v.collateral0 caller share l l1 first in
      let more_others = collateral0_pays t laws v apart v.reserve0 rest l1 l2 second in
      let more_less = transfer_draws t laws v.collateral0 v.reserve0 rest l1 l2 second in
      let gained =
        transfer_gains t laws v.collateral0 v.reserve0 rest l1 l2 (λ q. r0c0 (sym q)) second in
      (omega arith, omega arith, omega arith, omega arith)
  seizure_moves false caller share rest l l1 l2 first second =
      let (_, _, _, _, _, r1c1) = apart in
      let others = collateral1_pays t laws v apart caller share l l1 first in
      let less = transfer_draws t laws v.collateral1 caller share l l1 first in
      let more_others = collateral1_pays t laws v apart v.reserve1 rest l1 l2 second in
      let more_less = transfer_draws t laws v.collateral1 v.reserve1 rest l1 l2 second in
      let gained =
        transfer_gains t laws v.collateral1 v.reserve1 rest l1 l2 (λ q. r1c1 (sym q)) second in
      (omega arith, omega arith, omega arith, omega arith)

  seizure_backs :
      (b : Bool) (p r q : Pair) (caller : Pubkey) (seized share rest : ℕ) (l l1 l2 : Ledger)
      → transfer t (collateral_of b v) caller share l ≡ ok l1
      → transfer t (collateral_of b v) (reserve_of b v) rest l1 ≡ ok l2
      → share + rest ≡ seized
      → SameCash p r
      → SameCollateral p r
      → collateral_in b q + seized ≡ collateral_in b r
      → collateral_in (not b) q ≡ collateral_in (not b) r
      → cash_on b q ≤ cash_on b r + rest
      → cash_on (not b) q ≡ cash_on (not b) r
      → IsBacked t v p l
      → IsBacked t v q l2
  seizure_backs true p r q caller seized share rest l l1 l2 first second parts cash collateral c c'
        d d' backed =
      let moves = seizure_moves true caller share rest l l1 l2 first second in
      (omega arith, omega arith, omega arith, omega arith)
  seizure_backs false p r q caller seized share rest l l1 l2 first second parts cash collateral c c'
        d d' backed =
      let moves = seizure_moves false caller share rest l l1 l2 first second in
      (omega arith, omega arith, omega arith, omega arith)

  -- The second half of the handler, from the caller's share and the new factor.
  settlement_backs :
      (b is_token0 : Bool) (slot : ℕ) (a : LiquidateAccounts) (token : Pubkey) (w : WriteOff)
      (share new_cf : ℕ) (u u' : UserPosition) (p q : Pair) (l l' : Ledger)
      → is_token0 ≡ b
      → a.collateral_vault ≡ collateral_of b v
      → a.reserve_vault ≡ reserve_of b v
      → ◌≡◌ {A = Result (UserPosition × Pair × Ledger)}
          (do
            rest ← ok_or (checked_sub w.collateral_final share) debt_math_overflow
            (relieved, r) ← decrease_debt token w.debt (write_off w.shares) u p
            let marked = set_liquidation_cf token r new_cf relieved
            paid ← transfer t a.collateral_vault a.caller_token_account share l
            moved ← transfer t a.collateral_vault a.reserve_vault rest paid
            (after, end) ← seize is_token0 w.collateral_final rest marked r
            adjusted ← neg_as_i64 w.debt
            reported ←
                (if is_token0
                  then ema_price_nad slot end end.side0 end.side1
                  else ema_price_nad slot end end.side1 end.side0)
            ok (after, end, moved))
          (ok (u', q, l'))
      → IsBacked t v p l
      → IsBacked t v q l' × IsSame p q
  settlement_backs b is_token0 slot a token w share new_cf u u' p q l l' side e_c e_r h backed =
      let (rest, taken, h1) =
        chain (ok_or (checked_sub w.collateral_final share) debt_math_overflow) _ h in
      let ((relieved, r), less, h2) =
        chain (decrease_debt token w.debt (write_off w.shares) u p) _ h1 in
      let marked = set_liquidation_cf token r new_cf relieved in
      let (l1, sent, h3) =
        chain (transfer t a.collateral_vault a.caller_token_account share l) _ h2 in
      let (l2, moved, h4) = chain (transfer t a.collateral_vault a.reserve_vault rest l1) _ h3 in
      let ((after, end), seized, h5) =
        chain (seize is_token0 w.collateral_final rest marked r) _ h4 in
      let (_, _, h5a) = chain (neg_as_i64 w.debt) _ h5 in
      let (_, _, h6) =
        chain
          (if is_token0
            then ema_price_nad slot end end.side0 end.side1
            else ema_price_nad slot end end.side1 end.side0)
          (λ reported. ok (after, end, l2)) h5a in
      let same = ok-injective h6 in
      let e_q : end ≡ q = ap (λ (x : UserPosition × Pair × Ledger). x.1) same in
      let e_l : l2 ≡ l' = ap (λ (x : UserPosition × Pair × Ledger). x.2) same in
      let parts = split_lem w.collateral_final share rest taken in
      let first : transfer t (collateral_of b v) a.caller_token_account share l ≡ ok l1 =
        rw (← e_c) sent in
      let second : transfer t (collateral_of b v) (reserve_of b v) rest l1 ≡ ok l2 =
        rw (← e_c, ← e_r) moved in
      let seized' : seize b w.collateral_final rest marked r ≡ ok (after, end) =
        rw (← side) seized in
      let (cash, collateral, kept) = write_off_rest token w.debt w.shares u relieved p r less in
      let (c, c', d, d', kept') = seize_rest b w.collateral_final rest marked after r end seized' in
      ended t laws v apart p q end l2 l' e_q e_l (
        seizure_backs b p r end a.caller_token_account w.collateral_final share rest l l1 l2 first
            second parts cash collateral c c' d d' backed,
        (kept'.0 ∙ kept.0, kept'.1 ∙ kept.1, kept'.2 ∙ kept.2),
      )

  -- A liquidation with the vaults of one token, whoever the caller's account belongs to.
  pub handle_liquidate-IsBacked :
      (b : Bool) (slot : ℕ) (a : LiquidateAccounts) (u u' : UserPosition) (p q : Pair)
      (l l' : Ledger)
      → (a.collateral_token_mint == p.token0) ≡ b
      → a.collateral_vault ≡ collateral_of b v
      → a.reserve_vault ≡ reserve_of b v
      → handle_liquidate t slot a u p l ≡ ok (u', q, l')
      → IsBacked t v p l
      → IsBacked t v q l' × IsSame p q
  unfolding handle_liquidate
  handle_liquidate-IsBacked b slot a u u' p q l l' side e_c e_r h backed =
      let is_token0 = a.collateral_token_mint == p.token0 in
      let token = if is_token0 then p.token1 else p.token0 in
      let cf = liquidation_cf_bps token p u in
      let collateral_token = get_token_y p token in
      let (_, h1) =
        guarded (require (a.collateral_vault_mint == a.collateral_token_mint) invalid_vault) _ h in
      let (_, h2) =
        guarded (require (a.reserve_vault_mint == a.collateral_token_mint) invalid_vault) _ h1 in
      let (_, h3) = guarded (require (a.reserve_vault_owner == a.pair) invalid_vault) _ h2 in
      let (w, _, h4) =
        chain
          (if is_token0
            then write_off_of slot p p.side0 p.side1 u.collateral0 u.debt1_shares cf
            else write_off_of slot p p.side1 p.side0 u.collateral1 u.debt0_shares cf)
          _ h3 in
      let (post, _, h5) =
        chain
          (ok_or (checked_sub (collateral_on (collateral_token == p.token0) u) w.collateral_final)
            debt_math_overflow)
          _ h4 in
      let ((limit, allowed, new_cf), _, h6) =
        chain (max_debt_and_cf_bps slot p collateral_token post) _ h5 in
      let (share, _, h7) = chain (incentive w.collateral_base w.collateral_final) _ h6 in
      settlement_backs b is_token0 slot a token w share new_cf u u' p q l l' side e_c e_r h7 backed
