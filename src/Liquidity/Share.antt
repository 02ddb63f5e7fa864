-- ===== src/Liquidity/Share.antt =====
-- Proofs: the parts of adding and removing liquidity (instructions/liquidity) and their rounding.
use native.Mathlib.Nat.{mul-le-mul_right, div-mul-le_self}
use omnipair_rs.Base.{ℕ, ◌+◌, ◌*◌, ◌/◌, ◌≤◌, ◌<◌, ◌≡◌, inl, inr, some, arith, Option-cases}
use omnipair_rs.Outcome.{ok, Result-cases}
use omnipair_rs.Constants.{liquidity_withdrawal_fee_bps}
use omnipair_rs.Math.{ceil_div}
use omnipair_rs.Math.Rounding.{ceil_div_bounds, ceil_div-le}
use omnipair_rs.Pair.{Side, Pair}
use omnipair_rs.Swap.{fee_of}
use omnipair_rs.Liquidity.{checked_share, reserve_share, reserve_share_up}
use omnipair_rs.Liquidity.Add.{AddLiquidityArgs, Deposit, minted_liquidity, deposit, add_to_pair}
use omnipair_rs.Liquidity.Remove.{withdrawn}

share_up_lem :
    (liquidity reserve supply : ℕ) {share : ℕ}
    → reserve_share_up liquidity reserve supply ≡ ok share
    → ceil_div (liquidity * reserve) supply ≡ some share
unfolding reserve_share_up
share_up_lem liquidity reserve supply {share} h =
    elim (Option-cases (ceil_div (liquidity * reserve) supply)) [
      | inl bad ↦ ground arith
      | inr (c, e) ↦ ground arith
    ]

pub share_lem :
    (liquidity reserve supply : ℕ) {share : ℕ}
    → reserve_share liquidity reserve supply ≡ ok share
    → (0 < supply) × (share ≡ liquidity * reserve / supply)
unfolding reserve_share checked_share
share_lem liquidity reserve supply h = ground arith

withdrawn_lem :
    (liquidity reserve supply : ℕ) {out : ℕ}
    → withdrawn liquidity reserve supply ≡ ok out
    → (0 < supply) × (out ≤ liquidity * reserve / supply)
unfolding withdrawn
withdrawn_lem liquidity reserve supply {out} h =
    elim (Result-cases (reserve_share liquidity reserve supply)) [
      | inr (e, bad) ↦ ground arith
      | inl (gross, shared) ↦
          let (pos, e) = share_lem liquidity reserve supply shared in
          elim (Result-cases (fee_of gross liquidity_withdrawal_fee_bps)) [
            | inr (e, bad) ↦ ground arith
            | inl (fee, charged) ↦ (pos, ground arith)
          ]
    ]

pub withdrawn_bound :
    (liquidity reserve supply : ℕ) {out : ℕ}
    → withdrawn liquidity reserve supply ≡ ok out
    → (0 < supply) × (out * supply ≤ liquidity * reserve)
withdrawn_bound liquidity reserve supply h =
    let (pos, le) = withdrawn_lem liquidity reserve supply h in
    (pos, omega (arith, mul-le-mul_right supply le, div-mul-le_self (liquidity * reserve) supply))

-- LP tokens are minted for at most the share that either amount buys.
pub minted_lem :
    (args : AddLiquidityArgs) (p : Pair) {minted : ℕ}
    → minted_liquidity args p ≡ ok minted
    → (minted ≤ args.amount0_in * p.total_supply / p.side0.reserve)
      × (minted ≤ args.amount1_in * p.total_supply / p.side1.reserve)
unfolding minted_liquidity checked_share
minted_lem args p h = ground arith

-- What a deposit of one side is: no more than what is offered, at least the share that is minted.
pub used_lem :
    (amount minted reserve supply : ℕ) {used : ℕ}
    → minted ≤ amount * supply / reserve
    → reserve_share_up minted reserve supply ≡ ok used
    → (used ≤ amount) × (minted * reserve ≤ used * supply)
used_lem amount minted reserve supply le h =
    let ceil = share_up_lem minted reserve supply h in
    let (_, cover, _) = ceil_div_bounds (minted * reserve) supply ceil in
    let floor = div-mul-le_self (amount * supply) reserve in
    let part = mul-le-mul_right reserve le in
    (ceil_div-le (minted * reserve) supply amount ceil (omega arith), cover)

-- The parts of a deposit.
pub added_lem :
    (args : AddLiquidityArgs) (p : Pair) (d : Deposit)
    → add_to_pair args p ≡ ok d
    → (minted_liquidity args p ≡ ok d.liquidity)
      × (reserve_share_up d.liquidity p.side0.reserve p.total_supply ≡ ok d.amount0)
      × (reserve_share_up d.liquidity p.side1.reserve p.total_supply ≡ ok d.amount1)
      × (deposit d.amount0 p.side0 ≡ ok d.pair.side0)
      × (deposit d.amount1 p.side1 ≡ ok d.pair.side1)
      × (d.pair.total_supply ≡ p.total_supply + d.liquidity)
      × (args.min_liquidity_out ≤ d.liquidity)
      × ((d.pair.token0 ≡ p.token0) × (d.pair.token1 ≡ p.token1))
unfolding add_to_pair
added_lem args p d h = elim (Result-cases (minted_liquidity args p)) [
  | inr (e, bad) ↦ ground arith
  | inl (minted, m) ↦ elim (Result-cases (reserve_share_up minted p.side0.reserve p.total_supply)) [
    | inr (e, bad) ↦ ground arith
    | inl (used0, u0) ↦
        elim (Result-cases (reserve_share_up minted p.side1.reserve p.total_supply)) [
          | inr (e, bad) ↦ ground arith
          | inl (used1, u1) ↦ elim (Result-cases (deposit used0 p.side0)) [
            | inr (e, bad) ↦ ground arith
            | inl (s0, d0) ↦ elim (Result-cases (deposit used1 p.side1)) [
              | inr (e, bad) ↦ ground arith
              | inl (s1, d1) ↦ (
                ground arith,
                ground arith,
                ground arith,
                ground arith,
                ground arith,
                ground arith,
                ground arith,
                (ground arith, ground arith),
              )
            ]
          ]
        ]
  ]
]

pub deposit_lem :
    (amount : ℕ) (s : Side) {s' : Side}
    → deposit amount s ≡ ok s'
    → (s'.reserve ≡ s.reserve + amount)
      × (s'.cash_reserve ≡ s.cash_reserve + amount)
      × (s'.total_debt ≡ s.total_debt)
unfolding deposit
deposit_lem amount s h = ground arith
