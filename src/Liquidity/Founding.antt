-- ===== src/Liquidity/Founding.antt =====
-- Proofs: the first liquidity of a pair (instructions/liquidity/initialize.rs).
use omnipair_rs.Base.{ℕ, ◌+◌, ◌*◌, ◌<◌, ◌≡◌, inl, inr, arith, Option-cases}
use omnipair_rs.Word.{u128}
use omnipair_rs.Outcome.{ok}
use omnipair_rs.Constants.{min_liquidity}
use omnipair_rs.Math.{sqrt}
use omnipair_rs.Math.Sqrt.{IsRoot, sqrt_lem}
use omnipair_rs.Pair.{Pair, spot_price_nad}
use omnipair_rs.Pair.Accounting.{IsBalanced}
use omnipair_rs.Liquidity.Bootstrap.{first_liquidity, bootstrap}

-- The first LP tokens, with the minimum that nobody owns, are the root of the product of the
-- deposits, rounded down.
pub first_liquidity-IsRoot :
    (amount0 amount1 : ℕ) {liquidity : ℕ}
    → first_liquidity amount0 amount1 ≡ ok liquidity
    → IsRoot (amount0 * amount1) (liquidity + min_liquidity)
unfolding first_liquidity
first_liquidity-IsRoot amount0 amount1 {liquidity} h =
    elim (Option-cases (sqrt (amount0 * amount1))) [
      | inl bad ↦ ground arith
      | inr (root, e) ↦
          let fits : amount0 * amount1 < u128 = ground arith in
          let (r, e_r, is_root) = sqrt_lem (amount0 * amount1) fits in
          let same : liquidity + min_liquidity ≡ r = ground arith in rw same is_root
    ]

-- The pair starts with r_virtual = r_cash + r_debt and no debt on both sides, with the deposits as its
-- reserves, the minimum liquidity besides the minted, and all price averages at the spot price.
pub bootstrap-IsBalanced :
    (amount0 amount1 liquidity : ℕ) (p : Pair) {q : Pair}
    → p.side0.reserve ≡ 0
    → p.side1.reserve ≡ 0
    → p.side0.total_debt ≡ 0
    → p.side1.total_debt ≡ 0
    → bootstrap amount0 amount1 liquidity p ≡ ok q
    → IsBalanced q.side0
      × IsBalanced q.side1
      × (q.side0.reserve ≡ amount0)
      × (q.side1.reserve ≡ amount1)
      × (q.total_supply ≡ p.total_supply + liquidity)
      × (q.side0.last_price_ema.symmetric ≡ spot_price_nad q.side0 q.side1)
      × (q.side1.last_price_ema.symmetric ≡ spot_price_nad q.side1 q.side0)
      × (q.side0.last_price_ema.directional ≡ q.side0.last_price_ema.symmetric)
      × (q.side1.last_price_ema.directional ≡ q.side1.last_price_ema.symmetric)
unfolding bootstrap spot_price_nad
bootstrap-IsBalanced amount0 amount1 liquidity p e0 e1 d0 d1 h = ground arith
