-- ===== src/Lending/Terms.antt =====
-- Proofs: the terms of a borrow (instructions/lending/borrow.rs).
use omnipair_rs.Base.{
  ℕ, ◌⊎◌, Bool-cases, ◌+◌, ◌≤◌, ◌<◌, ◌≡◌, sym, inl, inr, ◌==◌, if◌then◌else◌, Pubkey, arith,
}
use omnipair_rs.Word.{u64, max_word}
use omnipair_rs.Outcome.{ok, Result-cases}
use omnipair_rs.Pair.{Pair, get_token_y, max_debt_and_cf_bps}
use omnipair_rs.Position.{UserPosition}
use omnipair_rs.Lending.{debt_on, collateral_on}
use omnipair_rs.Lending.Borrow.{borrow_terms, resolve_borrow_amount}

-- The old debt and the amount are within the limit on the user's collateral, the amount is positive
-- and is there in cash, the liquidation factor is the one that comes with the limit, and the amount is
-- the requested one, or for the largest word all that the limit leaves.
abbrev pub IsCovered : ℕ → Pubkey → ℕ → UserPosition → Pair → ℕ → ℕ → Type 0
IsCovered slot debt_token requested u p amount cf =
    let is_token0 = debt_token == p.token0 in
    let collateral_token = get_token_y p debt_token in
    (debt limit allowed : ℕ) × (debt_on is_token0 u p ≡ ok debt)
    × (max_debt_and_cf_bps slot p collateral_token (collateral_on (collateral_token == p.token0) u)
        ≡ ok (limit, allowed, cf))
    × (0 < amount)
    × (debt + amount ≤ limit)
    × (amount ≤ (if is_token0 then p.side0.cash_reserve else p.side1.cash_reserve))
    × (((requested ≡ max_word u64) × (debt + amount ≡ limit)) ⊎ (amount ≡ requested))

-- A borrow that is granted is covered: its amount is positive and in the cash reserve, the old
-- debt and the amount are within the limit on the user's collateral, the recorded liquidation
-- factor comes with this limit, and the amount is the requested one, or all that the limit
-- leaves when the largest word is requested.
pub borrow_terms-IsCovered :
    (slot debt_token requested : ℕ) (u : UserPosition) (p : Pair) {amount cf : ℕ}
    → borrow_terms slot debt_token requested u p ≡ ok (amount, cf)
    → IsCovered slot debt_token requested u p amount cf
unfolding borrow_terms resolve_borrow_amount
borrow_terms-IsCovered slot debt_token requested u p {amount} {cf} h =
    let is_token0 = debt_token == p.token0 in
    let token = get_token_y p debt_token in
    elim (Result-cases (debt_on is_token0 u p)) [
      | inr (e, bad) ↦ ground arith
      | inl (debt, owed) ↦
          elim (Result-cases
            (max_debt_and_cf_bps slot p token (collateral_on (token == p.token0) u))) [
              | inr (e, bad) ↦ ground arith
              | inl ((limit, allowed, factor), limited) ↦
                  let asked : ((requested ≡ max_word u64) × (debt + amount ≡ limit))
                      ⊎ (amount ≡ requested) =
                    elim (Bool-cases (requested == max_word u64)) [
                      | inl all ↦ inl (ground arith)
                      | inr some_of_it ↦ inr (ground arith)
                    ] in
                  let same : factor ≡ cf = ground arith in
                  (
                    debt,
                    limit,
                    allowed,
                    owed,
                    rw (sym same) limited,
                    ground arith,
                    ground arith,
                    ground arith,
                    asked,
                  )
            ]
    ]
