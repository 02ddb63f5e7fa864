-- ===== src/Liquidity/Dilution.antt =====
-- Proofs: the value of an LP share when liquidity is added and removed (instructions/liquidity).
use native.Mathlib.Nat.{le_of_mul-le-mul_right}
use mathlib.Core.Path.{subst}
use omnipair_rs.Base.{ℕ, ◌+◌, ◌-◌, ◌*◌, ◌≤◌, ◌<◌, ◌≡◌, ap, inl, inr, arith}
use omnipair_rs.Outcome.{ok, Result-cases}
use omnipair_rs.Pair.{Pair}
use omnipair_rs.Pair.Accounting.{IsBalanced}
use omnipair_rs.Liquidity.Add.{AddLiquidityArgs, Deposit, add_to_pair}
use omnipair_rs.Liquidity.Remove.{
  RemoveLiquidityArgs, Withdrawal, withdrawn, validate_coverage, remove_from_pair,
}
use omnipair_rs.Liquidity.Share.{withdrawn_bound, minted_lem, used_lem, added_lem, deposit_lem}

-- Adding liquidity takes no more of either token than is offered, mints no less than the user
-- asks for, and keeps r_virtual = r_cash + r_debt on both sides if it holds before.
pub add_to_pair-IsBalanced :
    (args : AddLiquidityArgs) (p : Pair) {d : Deposit}
    → IsBalanced p.side0
    → IsBalanced p.side1
    → add_to_pair args p ≡ ok d
    → (d.amount0 ≤ args.amount0_in)
      × (d.amount1 ≤ args.amount1_in)
      × (args.min_liquidity_out ≤ d.liquidity)
      × IsBalanced d.pair.side0
      × IsBalanced d.pair.side1
add_to_pair-IsBalanced args p {d} b0 b1 h =
    let (m, u0, u1, d0, d1, supply, least, _) = added_lem args p d h in
    let (m0, m1) = minted_lem args p m in
    let (le0, _) = used_lem args.amount0_in d.liquidity p.side0.reserve p.total_supply m0 u0 in
    let (le1, _) = used_lem args.amount1_in d.liquidity p.side1.reserve p.total_supply m1 u1 in
    let e0 = deposit_lem d.amount0 p.side0 d0 in
    let e1 = deposit_lem d.amount1 p.side1 d1 in (le0, le1, least, omega arith, omega arith)

-- When liquidity is added, both reserves grow at least in proportion to the supply of LP tokens:
-- what a token is worth in either reserve does not fall.
pub add_never_dilutes :
    (args : AddLiquidityArgs) (p : Pair) {d : Deposit}
    → add_to_pair args p ≡ ok d
    → (p.side0.reserve * d.pair.total_supply ≤ d.pair.side0.reserve * p.total_supply)
      × (p.side1.reserve * d.pair.total_supply ≤ d.pair.side1.reserve * p.total_supply)
add_never_dilutes args p {d} h =
    let (m, u0, u1, d0, d1, supply, least, _) = added_lem args p d h in
    let (m0, m1) = minted_lem args p m in
    let (_, cover0) = used_lem args.amount0_in d.liquidity p.side0.reserve p.total_supply m0 u0 in
    let (_, cover1) = used_lem args.amount1_in d.liquidity p.side1.reserve p.total_supply m1 u1 in
    let (e0, _, _) = deposit_lem d.amount0 p.side0 d0 in
    let (e1, _, _) = deposit_lem d.amount1 p.side1 d1 in
    (rw (supply, e0) (omega arith), rw (supply, e1) (omega arith))

-- The parts of a withdrawal.
pub removed_lem :
    (slot : ℕ) (args : RemoveLiquidityArgs) (p : Pair) (w : Withdrawal)
    → remove_from_pair slot args p ≡ ok w
    → (withdrawn args.liquidity_in p.side0.reserve p.total_supply ≡ ok w.amount0)
      × (withdrawn args.liquidity_in p.side1.reserve p.total_supply ≡ ok w.amount1)
      × (w.pair.side0.reserve + w.amount0 ≡ p.side0.reserve)
      × (w.pair.side1.reserve + w.amount1 ≡ p.side1.reserve)
      × (w.pair.side0.cash_reserve + w.amount0 ≡ p.side0.cash_reserve)
      × (w.pair.side1.cash_reserve + w.amount1 ≡ p.side1.cash_reserve)
      × (w.pair.total_supply + args.liquidity_in ≡ p.total_supply)
      × (w.pair.side0.total_debt ≡ p.side0.total_debt)
      × (w.pair.side1.total_debt ≡ p.side1.total_debt)
      × (validate_coverage slot p w.pair.side0.reserve w.pair.side1.reserve ≡ ok tt)
      × ((w.pair.token0 ≡ p.token0)
          × (w.pair.token1 ≡ p.token1)
          × (w.pair.side0.total_debt_shares ≡ p.side0.total_debt_shares)
          × (w.pair.side1.total_debt_shares ≡ p.side1.total_debt_shares)
          × (w.pair.side0.total_collateral ≡ p.side0.total_collateral)
          × (w.pair.side1.total_collateral ≡ p.side1.total_collateral))
unfolding remove_from_pair
removed_lem slot args p w h =
    elim (Result-cases (withdrawn args.liquidity_in p.side0.reserve p.total_supply)) [
      | inr (e, bad) ↦ ground arith
      | inl (out0, o0) ↦
          elim (Result-cases (withdrawn args.liquidity_in p.side1.reserve p.total_supply)) [
            | inr (e, bad) ↦ ground arith
            | inl (out1, o1) ↦
                elim (Result-cases
                  (validate_coverage slot p (p.side0.reserve - out0) (p.side1.reserve - out1))) [
                    | inr (e, bad) ↦ ground arith
                    | inl (passed, covered) ↦ (
                      ground arith,
                      ground arith,
                      ground arith,
                      ground arith,
                      ground arith,
                      ground arith,
                      ground arith,
                      ground arith,
                      ground arith,
                      ground arith,
                      (
                        ground arith,
                        ground arith,
                        ground arith,
                        ground arith,
                        ground arith,
                        ground arith,
                      ),
                    )
                  ]
          ]
    ]

-- A withdrawal keeps r_virtual = r_cash + r_debt on both sides if it holds before, touches no
-- debt, and leaves reserves that pass the debt coverage test.
pub remove_from_pair-IsBalanced :
    (slot : ℕ) (args : RemoveLiquidityArgs) (p : Pair) {w : Withdrawal}
    → IsBalanced p.side0
    → IsBalanced p.side1
    → remove_from_pair slot args p ≡ ok w
    → IsBalanced w.pair.side0
      × IsBalanced w.pair.side1
      × (w.pair.side0.total_debt ≡ p.side0.total_debt)
      × (w.pair.side1.total_debt ≡ p.side1.total_debt)
      × (validate_coverage slot p w.pair.side0.reserve w.pair.side1.reserve ≡ ok tt)
remove_from_pair-IsBalanced slot args p {w} b0 b1 h =
    let (_, _, r0, r1, c0, c1, _, e0, e1, covered, _) = removed_lem slot args p w h in
    (omega arith, omega arith, e0, e1, covered)

kept_share :
    (reserve reserve' supply supply' liquidity out : ℕ)
    → reserve' + out ≡ reserve
    → supply' + liquidity ≡ supply
    → out * supply ≤ liquidity * reserve
    → reserve * supply' ≤ reserve' * supply
kept_share reserve reserve' supply supply' liquidity out e s le =
    let whole = ap (λ (z : ℕ). z * supply) e in
    let shares = ap (λ (z : ℕ). reserve * z) s in omega (arith, le, whole, shares)

-- When liquidity is removed, both reserves fall at most in proportion to the supply of LP
-- tokens: what a token is worth in either reserve does not fall.
pub remove_never_dilutes :
    (slot : ℕ) (args : RemoveLiquidityArgs) (p : Pair) {w : Withdrawal}
    → remove_from_pair slot args p ≡ ok w
    → (p.side0.reserve * w.pair.total_supply ≤ w.pair.side0.reserve * p.total_supply)
      × (p.side1.reserve * w.pair.total_supply ≤ w.pair.side1.reserve * p.total_supply)
remove_never_dilutes slot args p {w} h =
    let (o0, o1, r0, r1, _, _, s, _, _, _, _) = removed_lem slot args p w h in
    let (_, le0) = withdrawn_bound args.liquidity_in p.side0.reserve p.total_supply o0 in
    let (_, le1) = withdrawn_bound args.liquidity_in p.side1.reserve p.total_supply o1 in
    (
      kept_share p.side0.reserve w.pair.side0.reserve p.total_supply w.pair.total_supply
          args.liquidity_in w.amount0 r0 s le0,
      kept_share p.side1.reserve w.pair.side1.reserve p.total_supply w.pair.total_supply
          args.liquidity_in w.amount1 r1 s le1,
    )

back_lem :
    (liquidity reserve supply used out reserve' supply' : ℕ)
    → 0 < supply'
    → reserve' ≡ reserve + used
    → supply' ≡ supply + liquidity
    → liquidity * reserve ≤ used * supply
    → out * supply' ≤ liquidity * reserve'
    → out ≤ used
back_lem liquidity reserve supply used out reserve' supply' pos e s cover le =
    let grown = ap (λ (z : ℕ). liquidity * z) e in
    let total = ap (λ (z : ℕ). used * z) s in
    let most : out * supply' ≤ used * supply' = omega (arith, le, cover, grown, total) in
    le_of_mul-le-mul_right {m = out} {n = used} {k = supply'} most pos

-- Liquidity that is added and then all removed again from the resulting pair returns no more of
-- either token than was paid in.
pub add_remove_no_profit :
    (slot : ℕ) (args : AddLiquidityArgs) (back : RemoveLiquidityArgs) (p : Pair) {d : Deposit}
    {w : Withdrawal}
    → add_to_pair args p ≡ ok d
    → back.liquidity_in ≡ d.liquidity
    → remove_from_pair slot back d.pair ≡ ok w
    → (w.amount0 ≤ d.amount0) × (w.amount1 ≤ d.amount1)
add_remove_no_profit slot args back p {d} {w} h same r =
    let (m, u0, u1, d0, d1, supply, least, _) = added_lem args p d h in
    let (m0, m1) = minted_lem args p m in
    let (_, cover0) = used_lem args.amount0_in d.liquidity p.side0.reserve p.total_supply m0 u0 in
    let (_, cover1) = used_lem args.amount1_in d.liquidity p.side1.reserve p.total_supply m1 u1 in
    let (e0, _, _) = deposit_lem d.amount0 p.side0 d0 in
    let (e1, _, _) = deposit_lem d.amount1 p.side1 d1 in
    let (o0, o1, _, _, _, _, _, _, _, _, _) = removed_lem slot back d.pair w r in
    let (pos, le0) =
      withdrawn_bound back.liquidity_in d.pair.side0.reserve d.pair.total_supply o0 in
    let (_, le1) = withdrawn_bound back.liquidity_in d.pair.side1.reserve d.pair.total_supply o1 in
    (
      back_lem d.liquidity p.side0.reserve p.total_supply d.amount0 w.amount0 d.pair.side0.reserve
          d.pair.total_supply pos e0 supply cover0
          (subst (λ n. w.amount0 * d.pair.total_supply ≤ n * d.pair.side0.reserve) same le0),
      back_lem d.liquidity p.side1.reserve p.total_supply d.amount1 w.amount1 d.pair.side1.reserve
          d.pair.total_supply pos e1 supply cover1
          (subst (λ n. w.amount1 * d.pair.total_supply ≤ n * d.pair.side1.reserve) same le1),
    )
