-- ===== src/Pair/Accounting.antt =====
-- Proofs: the accounting of `update` (state/pair.rs).
use omnipair_rs.Base.{
  ℕ, ◌+◌, ◌≤◌, ◌<◌, ◌≡◌, min, max, inl, inr, some, ltb, arith, Bool-cases, Option-cases, ◌*◌,
}
use omnipair_rs.Word.{u64, max_word}
use omnipair_rs.Outcome.{ok, Result-cases}
use omnipair_rs.RateModel.{RateModel, calculate_rate}
use omnipair_rs.Constants.{nad, directional_ema_half_life_ms}
use omnipair_rs.Math.{ceil_div, compute_ema, slots_to_ms}
use mathlib.Core.Path.{subst}
use omnipair_rs.Pair.{
  Side, Pair, accrue, snap, update_prices, update_debt, utilization, elapse, update, spot_price_nad,
}

-- r_virtual = r_cash + r_debt.
abbrev pub IsBalanced : Side → Type 0
IsBalanced s = s.reserve ≡ s.cash_reserve + s.total_debt

-- Interest keeps the balance of a side, up to the largest word at which the reserve is capped, never
-- lowers its debt, and takes cash for the protocol alone.
pub accrue-IsBalanced :
    (interest_bps integral : ℕ) (s : Side) {s' : Side}
    → IsBalanced s
    → accrue interest_bps integral s ≡ ok s'
    → (s'.reserve ≡ min (s'.cash_reserve + s'.total_debt) (max_word u64))
      × (s.total_debt ≤ s'.total_debt)
      × (s'.cash_reserve ≤ s.cash_reserve)
      × (s'.total_debt_shares ≡ s.total_debt_shares)
unfolding accrue
accrue-IsBalanced interest_bps integral s balanced h = ground arith

-- What an update does to a side, `spot` being its spot price before it: r_virtual = r_cash + r_debt is
-- kept unless the reserve reaches the largest word; the debt does not fall, and stays 0 if it is 0;
-- shares and collateral stay; and the directional average is at most the spot price.
abbrev pub IsUpdated : ℕ → Side → Side → Type 0
IsUpdated spot s s' =
    (IsBalanced s → s'.reserve < max_word u64 → IsBalanced s')
    × (s.total_debt ≤ s'.total_debt)
    × (s'.cash_reserve ≤ s.cash_reserve)
    × (s'.total_debt_shares ≡ s.total_debt_shares)
    × (s'.total_collateral ≡ s.total_collateral)
    × (s'.last_price_ema.directional ≤ spot)
    × (s.total_debt ≡ 0 → s'.total_debt ≡ 0)

snap-IsUpdated : (spot : ℕ) (s : Side) → IsUpdated spot s (snap spot s)
unfolding snap
snap-IsUpdated spot s = ground arith

no_interest : (integral : ℕ) → ceil_div (0 * integral) nad ≡ some 0
unfolding ceil_div
no_interest integral = ground arith

accrue_nothing :
    (interest_bps integral : ℕ) (s : Side) {s' : Side}
    → s.total_debt ≡ 0
    → accrue interest_bps integral s ≡ ok s'
    → s'.total_debt ≡ 0
unfolding accrue
accrue_nothing interest_bps integral s {s'} free h =
    let nothing : ceil_div (s.total_debt * integral) nad ≡ some 0 =
      rw free (no_interest integral) in
    ground arith

accrue-IsUpdated :
    (spot interest_bps integral : ℕ) (s0 s s' : Side)
    → IsUpdated spot s0 s
    → s.reserve ≡ s0.reserve
    → s.cash_reserve ≡ s0.cash_reserve
    → s.total_debt ≡ s0.total_debt
    → accrue interest_bps integral s ≡ ok s'
    → IsUpdated spot s0 s'
unfolding accrue
accrue-IsUpdated spot interest_bps integral s0 s s' before e1 e2 e3 h = (
  λ b f. ground arith,
  ground arith,
  ground arith,
  ground arith,
  ground arith,
  ground arith,
  λ free. accrue_nothing interest_bps integral s (omega arith) h,
)

priced_lem :
    (slot : ℕ) (p : Pair) (spot : ℕ) (s : Side) {priced : Side}
    → update_prices slot p spot s ≡ ok priced
    → (priced.reserve ≡ s.reserve)
      × (priced.cash_reserve ≡ s.cash_reserve)
      × (priced.total_debt ≡ s.total_debt)
      × (priced.total_debt_shares ≡ s.total_debt_shares)
      × (priced.total_collateral ≡ s.total_collateral)
      × (priced.last_price_ema.directional ≤ spot)
unfolding update_prices
priced_lem slot p spot s {priced} h =
    elim (Result-cases
      (compute_ema slot s.last_price_ema.symmetric p.last_update spot p.half_life)) [
        | inr (e, bad) ↦ ground arith
        | inl (symmetric, first) ↦
            elim (Result-cases (
              compute_ema slot s.last_price_ema.directional p.last_update spot
                directional_ema_half_life_ms)) [
                  | inr (e, bad) ↦ ground arith
                  | inl (directional, second) ↦ elim (Bool-cases (ltb spot directional)) [
                    | inl above ↦ ground arith
                    | inr below ↦ ground arith
                  ]
                ]
      ]

side_lem :
    (slot : ℕ) (p : Pair) (m : RateModel) (interest_bps dt spot : ℕ) (s priced s' : Side)
    → update_prices slot p spot (snap spot s) ≡ ok priced
    → update_debt m interest_bps dt priced ≡ ok s'
    → IsUpdated spot s s'
unfolding update_debt snap
side_lem slot p m interest_bps dt spot s priced s' h r =
    let (e1, e2, e3, e4, e5, low) = priced_lem slot p spot (snap spot s) h in
    elim (Result-cases (calculate_rate m priced.last_rate dt (utilization priced))) [
      | inr (e, bad) ↦ ground arith
      | inl ((rate, integral), rated) ↦
          let marked : Side = record priced { last_rate = rate } in
          let before : IsUpdated spot s marked =
            (λ b f. omega arith, omega arith, omega arith, e4, e5, low, λ free. omega arith) in
          accrue-IsUpdated spot interest_bps integral s marked s' before e1 e2 e3 (ground arith)
    ]

-- Both sides of a pair after an update, and its clock.
abbrev pub IsElapsed : ℕ → Pair → Pair → Type 0
IsElapsed slot p q =
    IsUpdated (spot_price_nad p.side0 p.side1) p.side0 q.side0
    × IsUpdated (spot_price_nad p.side1 p.side0) p.side1 q.side1
    × (q.last_update ≡ max p.last_update slot)
    × (q.total_supply ≡ p.total_supply)
    × (q.reduce_only ≡ p.reduce_only)
    × (q.token0 ≡ p.token0)
    × (q.token1 ≡ p.token1)

elapse-IsElapsed :
    (slot : ℕ) (m : RateModel) (interest_bps : ℕ) (p q : Pair)
    → p.last_update < slot
    → let spot0 = spot_price_nad p.side0 p.side1 in
      let spot1 = spot_price_nad p.side1 p.side0 in
      elapse slot m interest_bps spot0 spot1
          (record p { side0 = snap spot0 p.side0; side1 = snap spot1 p.side1 })
        ≡ ok q
      → IsElapsed slot p q
unfolding elapse
elapse-IsElapsed slot m interest_bps p q later h =
    let spot0 = spot_price_nad p.side0 p.side1 in
    let spot1 = spot_price_nad p.side1 p.side0 in
    let snapped : Pair = record p { side0 = snap spot0 p.side0; side1 = snap spot1 p.side1 } in
    let still0 = snap-IsUpdated spot0 p.side0 in
    let still1 = snap-IsUpdated spot1 p.side1 in
    elim (Option-cases (slots_to_ms p.last_update slot)) [
      | inl bad ↦ ground arith
      | inr (dt, timed) ↦ elim (Bool-cases (ltb 0 dt)) [
        | inr none_passed ↦
            let same0 : snap spot0 p.side0 ≡ q.side0 = ground arith in
            let same1 : snap spot1 p.side1 ≡ q.side1 = ground arith in
            (
              subst (IsUpdated spot0 p.side0) same0 still0,
              subst (IsUpdated spot1 p.side1) same1 still1,
              ground arith,
              ground arith,
              ground arith,
              ground arith,
              ground arith,
            )
        | inl passed ↦ elim (Result-cases (update_prices slot snapped spot0 snapped.side0)) [
          | inr (e, bad) ↦ ground arith
          | inl (priced0, f0) ↦
              elim (Result-cases (update_prices slot snapped spot1 snapped.side1)) [
                | inr (e, bad) ↦ ground arith
                | inl (priced1, f1) ↦ elim (Result-cases (update_debt m interest_bps dt priced0)) [
                  | inr (e, bad) ↦ ground arith
                  | inl (new0, r0) ↦ elim (Result-cases (update_debt m interest_bps dt priced1)) [
                    | inr (e, bad) ↦ ground arith
                    | inl (new1, r1) ↦
                        let done0 =
                          side_lem slot snapped m interest_bps dt spot0 p.side0 priced0 new0 f0
                            r0 in
                        let done1 =
                          side_lem slot snapped m interest_bps dt spot1 p.side1 priced1 new1 f1
                            r1 in
                        let (e0, e1, clock, supply, mode, token0, token1) : (new0 ≡ q.side0)
                            × (new1 ≡ q.side1)
                            × (q.last_update ≡ max p.last_update slot)
                            × (q.total_supply ≡ p.total_supply)
                            × (q.reduce_only ≡ p.reduce_only)
                            × (q.token0 ≡ p.token0)
                            × (q.token1 ≡ p.token1) =
                          (
                            ground arith,
                            ground arith,
                            ground arith,
                            ground arith,
                            ground arith,
                            ground arith,
                            ground arith,
                          ) in
                        (
                          subst (IsUpdated spot0 p.side0) e0 done0,
                          subst (IsUpdated spot1 p.side1) e1 done1,
                          clock,
                          supply,
                          mode,
                          token0,
                          token1,
                        )
                  ]
                ]
              ]
        ]
      ]
    ]

-- An update that succeeds moves the clock to the slot, unless it is already later, changes
-- neither the supply nor the mode nor the tokens, and on both sides keeps r_virtual = r_cash + r_debt unless
-- the reserve reaches the largest word, never lowers the debt and keeps it 0 if it is 0, leaves shares and collateral
-- alone, never raises the cash, and leaves no directional average above the spot price before
-- the update.
pub update-IsElapsed :
    (slot : ℕ) (m : RateModel) (interest_bps : ℕ) (p : Pair) {q : Pair}
    → update slot m interest_bps p ≡ ok q
    → IsElapsed slot p q
unfolding update
update-IsElapsed slot m interest_bps p {q} h =
    let spot0 = spot_price_nad p.side0 p.side1 in
    let spot1 = spot_price_nad p.side1 p.side0 in
    elim (Bool-cases (ltb p.last_update slot)) [
      | inl later ↦ elapse-IsElapsed slot m interest_bps p q (ground arith) (ground arith)
      | inr same ↦
          let same0 : snap spot0 p.side0 ≡ q.side0 = ground arith in
          let same1 : snap spot1 p.side1 ≡ q.side1 = ground arith in
          (
            subst (IsUpdated spot0 p.side0) same0 (snap-IsUpdated spot0 p.side0),
            subst (IsUpdated spot1 p.side1) same1 (snap-IsUpdated spot1 p.side1),
            ground arith,
            ground arith,
            ground arith,
            ground arith,
            ground arith,
          )
    ]
