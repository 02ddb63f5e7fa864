-- ===== src/Lending/Guards.antt =====
-- Proofs: the guards of borrowing, of withdrawing collateral and of flash loans
-- (instructions/lending).
use mathlib.Core.Path.{subst}
use omnipair_rs.Base.{
  refl, ap, ℕ, ◌+◌, ◌-◌, ◌≤◌, ◌<◌, min, leb, ◌≡◌, inl, inr, true, false, not, ◌==◌, if◌then◌else◌,
  Pubkey, Option, arith,
}
use omnipair_rs.Word.{u64, max_word, checked_add}
use omnipair_rs.Outcome.{
  Result, ErrorCode, unwrap, require, ok-injective, insufficient_amount0, insufficient_amount1, ok,
  ◌>>=◌, ◌>>◌, chain, Result-cases,
}
use omnipair_rs.RateModel.{RateModel}
use omnipair_rs.Futarchy.{FutarchyAuthority, is_reduce_only}
use omnipair_rs.Pair.{Side, Pair, update, max_debt_and_cf_bps}
use omnipair_rs.Position.{UserPosition}
use omnipair_rs.Breaker.{Sysvar, ProgramIds, require_no_same_tx_liquidity_delta}
use omnipair_rs.Lending.{DebtAccounts, CollateralAccounts, debt_on, collateral_on}
use omnipair_rs.Lending.Borrow.{borrow, validate_borrow}
use omnipair_rs.Lending.Collateral.{validate_remove, withdraw_amount}
use omnipair_rs.Lending.Flashloan.{
  FlashloanArgs, FlashloanAccounts, handle_flashloan, earn, sync_native_if_wsol,
}
use omnipair_rs.Swap.{fee_of}
use omnipair_rs.Token.{TokenProgram, transfer, or_external}
use omnipair_rs.Constants.{flashloan_fee_bps}
use omnipair_rs.Pair.Accounting.{update-IsElapsed}

-- A borrow succeeds only outside the reduce-only mode, be it global or the pair's, where the
-- circuit breaker finds no liquidity change of the pair in the transaction, and for a request
-- that is not 0.
pub borrow_guards :
    (t : TokenProgram) (slot : ℕ) (m : RateModel) (ids : ProgramIds) (pair_key : Pubkey)
    (sysvar : Sysvar) (authority : FutarchyAuthority) (a : DebtAccounts) (requested : ℕ)
    (u : UserPosition) (p : Pair) (l : t.Ledger) {r : UserPosition × Pair × t.Ledger}
    → borrow t slot m ids pair_key sysvar authority a requested u p l ≡ ok r
    → (is_reduce_only authority p.reduce_only ≡ false)
      × (require_no_same_tx_liquidity_delta ids pair_key sysvar ≡ ok tt)
      × (0 < requested)
unfolding borrow validate_borrow
borrow_guards t slot m ids pair_key sysvar authority a requested u p l h =
    elim (Result-cases (update slot m authority.revenue_share.interest_bps p)) [
      | inr (e, bad) ↦ ground arith
      | inl (q, updated) ↦
          elim (Result-cases (require_no_same_tx_liquidity_delta ids pair_key sysvar)) [
            | inr (e, bad) ↦ ground arith
            | inl (passed, alone) ↦
                let (_, _, _, _, kept, _, _) =
                  update-IsElapsed slot m authority.revenue_share.interest_bps p updated in
                (ground arith, alone, ground arith)
          ]
    ]

-- What `validate_remove` lets a user withdraw is a positive amount of at most the collateral; if
-- the user owes the other token, the debt is within the limit on the collateral that remains; in
-- reduce-only mode nothing is owed.
pub validate_remove_covers :
    (slot : ℕ) (ids : ProgramIds) (pair_key : Pubkey) (sysvar : Sysvar)
    (authority : FutarchyAuthority) (a : CollateralAccounts) (requested : ℕ) (u : UserPosition)
    (p : Pair)
    → validate_remove slot ids pair_key sysvar authority a requested u p ≡ ok tt
    → let is_token0 = a.user_collateral_token_account_mint == p.token0 in
      let collateral = collateral_on is_token0 u in
      (debt : ℕ) × (debt_on (not is_token0) u p ≡ ok debt)
      × (0 < withdraw_amount requested debt collateral)
      × (withdraw_amount requested debt collateral ≤ collateral)
      × (is_reduce_only authority p.reduce_only ≡ true → debt ≡ 0)
      × (0 < debt
          → (limit allowed cf : ℕ) × (max_debt_and_cf_bps slot p
                (if is_token0 then p.token0 else p.token1)
                (collateral - withdraw_amount requested debt collateral)
              ≡ ok (limit, allowed, cf))
            × (debt ≤ limit))
unfolding validate_remove
validate_remove_covers slot ids pair_key sysvar authority a requested u p h =
    let is_token0 = a.user_collateral_token_account_mint == p.token0 in
    let collateral = collateral_on is_token0 u in
    elim (Result-cases (debt_on (not is_token0) u p)) [
      | inr (e, bad) ↦ ground arith
      | inl (debt, owed) ↦ (
        debt,
        owed,
        ground arith,
        ground arith,
        λ reducing. ground arith,
        λ positive.
            elim (Result-cases (
              max_debt_and_cf_bps slot p (if is_token0 then p.token0 else p.token1)
                (collateral - withdraw_amount requested debt collateral))) [
                  | inr (e, bad) ↦ ground arith
                  | inl ((limit, allowed, cf), limited) ↦
                      (limit, allowed, cf, limited, ground arith)
                ],
      )
    ]

-- A fee that is added to the reserve and to the cash, up to the largest word, and nothing else.
abbrev pub HasEarned : ℕ → Side → Side → Type 0
HasEarned fee s s' =
    (s'.reserve ≡ min (s.reserve + fee) (max_word u64))
    × (s'.cash_reserve ≡ min (s.cash_reserve + fee) (max_word u64))
    × (s'.total_debt ≡ s.total_debt)
    × (s'.total_debt_shares ≡ s.total_debt_shares)
    × (s'.total_collateral ≡ s.total_collateral)

earn-HasEarned : (fee : ℕ) (s : Side) → HasEarned fee s (earn fee s)
unfolding earn
earn-HasEarned fee s = (omega arith, omega arith, refl, refl, refl)

required_lem :
    (held fee r back : ℕ) (code : ErrorCode)
    → unwrap (checked_add u64 held fee) ≡ ok r
    → require (leb r back) code ≡ ok tt
    → held + fee ≤ back
required_lem held fee r back code e h = ground arith

-- The checks after the callback, on the balances before and after it.
loan_end :
    {Ledger : Type 0} (fee0 fee1 held0 held1 back0 back1 : ℕ) (p q : Pair) (l l' : Ledger)
    → ◌≡◌ {A = Result (Pair × Ledger)}
        (do
          required0 ← unwrap (checked_add u64 held0 fee0)
          required1 ← unwrap (checked_add u64 held1 fee1)
          require (leb required0 back0) insufficient_amount0
          require (leb required1 back1) insufficient_amount1
          ok (record p { side0 = earn fee0 p.side0; side1 = earn fee1 p.side1 }, l))
        (ok (q, l'))
    → (held0 + fee0 ≤ back0)
      × (held1 + fee1 ≤ back1)
      × (record p { side0 = earn fee0 p.side0; side1 = earn fee1 p.side1 } ≡ q)
      × (l ≡ l')
loan_end {Ledger = Ledger} fee0 fee1 held0 held1 back0 back1 p q l l' h =
    let (r0, e0, h1) = chain (unwrap (checked_add u64 held0 fee0)) _ h in
    let (r1, e1, h2) = chain (unwrap (checked_add u64 held1 fee1)) _ h1 in
    let (_, c0, h3) = chain (require (leb r0 back0) insufficient_amount0) _ h2 in
    let (_, c1, h4) = chain (require (leb r1 back1) insufficient_amount1) _ h3 in
    let same = ok-injective h4 in
    (
      required_lem held0 fee0 r0 back0 insufficient_amount0 e0 c0,
      required_lem held1 fee1 r1 back1 insufficient_amount1 e1 c1,
      ap (λ (x : Pair × Ledger). x.0) same,
      ap (λ (x : Pair × Ledger). x.1) same,
    )

-- A flash loan that succeeds, whatever its callback does, leaves each reserve vault with at least the
-- fee and the balance that it had once wrapped SOL was synchronised, before the tokens were lent; and
-- the reserve and the cash reserve of each side grow by exactly the fee, up to the largest word, while
-- the debt, its shares and the collateral stay.
pub flashloan_repaid :
    (t : TokenProgram) (native_mint : Pubkey) (sync_native : Pubkey → t.Ledger → Option t.Ledger)
    (callback : t.Ledger → Option t.Ledger) (a : FlashloanAccounts) (args : FlashloanArgs)
    (p : Pair) (l : t.Ledger) {q : Pair} {l' : t.Ledger}
    → handle_flashloan t native_mint sync_native callback a args p l ≡ ok (q, l')
    → (fee0 fee1 : ℕ) × (synced0 synced : t.Ledger) × (fee_of args.amount0 flashloan_fee_bps
        ≡ ok fee0)
      × (fee_of args.amount1 flashloan_fee_bps ≡ ok fee1)
      × (sync_native_if_wsol t native_mint sync_native a.reserve0_vault p.token0 l ≡ ok synced0)
      × (sync_native_if_wsol t native_mint sync_native a.reserve1_vault p.token1 synced0
          ≡ ok synced)
      × (t.balance synced a.reserve0_vault + fee0 ≤ t.balance l' a.reserve0_vault)
      × (t.balance synced a.reserve1_vault + fee1 ≤ t.balance l' a.reserve1_vault)
      × HasEarned fee0 p.side0 q.side0
      × HasEarned fee1 p.side1 q.side1
unfolding handle_flashloan
flashloan_repaid t native_mint sync_native callback a args p l {q} {l'} h =
    let (fee0, charged0, h1) = chain (fee_of args.amount0 flashloan_fee_bps) _ h in
    let (fee1, charged1, h2) = chain (fee_of args.amount1 flashloan_fee_bps) _ h1 in
    let (synced0, s0, h3) =
      chain (sync_native_if_wsol t native_mint sync_native a.reserve0_vault p.token0 l) _ h2 in
    let (synced, s1, h4) =
      chain (sync_native_if_wsol t native_mint sync_native a.reserve1_vault p.token1 synced0) _
        h3 in
    let (lent0, _, h5) =
      chain (transfer t a.reserve0_vault a.receiver_token0_account args.amount0 synced) _ h4 in
    let (lent, _, h6) =
      chain (transfer t a.reserve1_vault a.receiver_token1_account args.amount1 lent0) _ h5 in
    let (returned, _, h7) = chain (or_external t (callback lent)) _ h6 in
    let (kept0, kept1, e_q, e_l) =
      loan_end fee0 fee1 (t.balance synced a.reserve0_vault) (t.balance synced a.reserve1_vault)
        (t.balance returned a.reserve0_vault) (t.balance returned a.reserve1_vault) p q returned l'
        h7 in
    (
      fee0,
      fee1,
      synced0,
      synced,
      charged0,
      charged1,
      s0,
      s1,
      subst
          (λ (k : t.Ledger).
            t.balance synced a.reserve0_vault + fee0 ≤ t.balance k a.reserve0_vault)
          e_l kept0,
      subst
          (λ (k : t.Ledger).
            t.balance synced a.reserve1_vault + fee1 ≤ t.balance k a.reserve1_vault)
          e_l kept1,
      subst (λ (r : Pair). HasEarned fee0 p.side0 r.side0) e_q (earn-HasEarned fee0 p.side0),
      subst (λ (r : Pair). HasEarned fee1 p.side1 r.side1) e_q (earn-HasEarned fee1 p.side1),
    )
