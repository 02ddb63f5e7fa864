-- ===== src/Vaults/Pools.antt =====
-- Proofs: swaps (instructions/spot/swap.rs) and liquidity (instructions/liquidity) leave the vaults of a
-- pair with what the pair counts.
use omnipair_rs.Base.{ℕ, ◌+◌, ◌≤◌, ◌≡◌, inl, inr, Bool, true, false, not, ◌==◌, arith}
use omnipair_rs.Outcome.{ok, Result-cases, chain}
use omnipair_rs.Futarchy.{FutarchyAuthority}
use omnipair_rs.Pair.{Pair}
use omnipair_rs.Token.{TokenProgram, transfer, token_mint_to, token_burn}
use omnipair_rs.Swap.{SwapArgs, SwapAccounts, swap_sides, swap_pair, checked_swap, handle_swap}
use omnipair_rs.Swap.Backing.{cash_on, pair_cash_lem}
use omnipair_rs.Liquidity.{LiquidityAccounts}
use omnipair_rs.Liquidity.Add.{AddLiquidityArgs, Deposit, deposit, add_to_pair, handle_add}
use omnipair_rs.Liquidity.Remove.{RemoveLiquidityArgs, Withdrawal, remove_from_pair, handle_remove}
use omnipair_rs.Liquidity.Dilution.{removed_lem}
use omnipair_rs.Vaults.{Vaults, AreApart, IsTokenLedger, IsOutside, IsBacked, IsSame, reserve_of}
use omnipair_rs.Vaults.Transfers.{
  transfer_in, transfer_gains, transfer_draws, mint_keeps, burn_keeps,
}
use omnipair_rs.Vaults.Payments.{ended, reserve0_pays, reserve1_pays}

-- A swap moves no collateral.
swap_pair_rest :
    (bps : ℕ) (args : SwapArgs) (b : Bool) (p : Pair) {q : Pair} {out : ℕ}
    → swap_pair bps args b p ≡ ok (q, out)
    → (q.side0.total_collateral ≡ p.side0.total_collateral)
      × (q.side1.total_collateral ≡ p.side1.total_collateral)
      × IsSame p q
unfolding swap_pair swap_sides
swap_pair_rest bps args true p h = ground arith
swap_pair_rest bps args false p h = ground arith

-- What a deposit of liquidity does to the cash, and what it leaves alone.
add_rest :
    (args : AddLiquidityArgs) (p : Pair) (d : Deposit)
    → add_to_pair args p ≡ ok d
    → (d.pair.side0.cash_reserve ≡ p.side0.cash_reserve + d.amount0)
      × (d.pair.side1.cash_reserve ≡ p.side1.cash_reserve + d.amount1)
      × (d.pair.side0.total_collateral ≡ p.side0.total_collateral)
      × (d.pair.side1.total_collateral ≡ p.side1.total_collateral)
      × IsSame p d.pair
unfolding add_to_pair deposit
add_rest args p d h = ground arith

remove_rest :
    (slot : ℕ) (args : RemoveLiquidityArgs) (p : Pair) (w : Withdrawal)
    → remove_from_pair slot args p ≡ ok w
    → IsSame p w.pair
unfolding remove_from_pair
remove_rest slot args p w h = ground arith

module _ (t : TokenProgram) (laws : IsTokenLedger t) (v : Vaults) (apart : AreApart v) where
  open t use {Ledger, balance}

  -- The input goes to one reserve vault, the output leaves the other.
  swap_moves :
      (b : Bool) (a : SwapAccounts) (amount out : ℕ) (l paid l' : Ledger)
      → a.token_in_vault ≡ reserve_of b v
      → a.token_out_vault ≡ reserve_of (not b) v
      → IsOutside v a.user_token_in
      → transfer t a.user_token_in a.token_in_vault amount l ≡ ok paid
      → transfer t a.token_out_vault a.user_token_out out paid ≡ ok l'
      → (balance l (reserve_of b v) + amount ≤ balance l' (reserve_of b v))
        × (balance l (reserve_of (not b) v) ≤ balance l' (reserve_of (not b) v) + out)
        × (balance l v.collateral0 ≤ balance l' v.collateral0)
        × (balance l v.collateral1 ≤ balance l' v.collateral1)
  swap_moves true a amount out l paid l' e_in e_out outside sent received =
      let first : transfer t a.user_token_in v.reserve0 amount l ≡ ok paid = rw (← e_in) sent in
      let second : transfer t v.reserve1 a.user_token_out out paid ≡ ok l' =
        rw (← e_out) received in
      let (_, k1, k2, k3) =
        transfer_in t laws a.user_token_in v.reserve0 amount l paid v outside first in
      let gained = transfer_gains t laws a.user_token_in v.reserve0 amount l paid outside.0 first in
      let drawn = transfer_draws t laws v.reserve1 a.user_token_out out paid l' second in
      let (j0, j2, j3) = reserve1_pays t laws v apart a.user_token_out out paid l' second in
      (omega arith, omega arith, omega arith, omega arith)
  swap_moves false a amount out l paid l' e_in e_out outside sent received =
      let first : transfer t a.user_token_in v.reserve1 amount l ≡ ok paid = rw (← e_in) sent in
      let second : transfer t v.reserve0 a.user_token_out out paid ≡ ok l' =
        rw (← e_out) received in
      let (k0, _, k2, k3) =
        transfer_in t laws a.user_token_in v.reserve1 amount l paid v outside first in
      let gained = transfer_gains t laws a.user_token_in v.reserve1 amount l paid outside.1 first in
      let drawn = transfer_draws t laws v.reserve0 a.user_token_out out paid l' second in
      let (j1, j2, j3) = reserve0_pays t laws v apart a.user_token_out out paid l' second in
      (omega arith, omega arith, omega arith, omega arith)

  swap_backs :
      (b : Bool) (p q : Pair) (amount out : ℕ) (l l' : Ledger)
      → (cash_on b q ≤ cash_on b p + amount) × (cash_on (not b) q + out ≡ cash_on (not b) p)
      → (q.side0.total_collateral ≡ p.side0.total_collateral)
        × (q.side1.total_collateral ≡ p.side1.total_collateral)
      → (balance l (reserve_of b v) + amount ≤ balance l' (reserve_of b v))
        × (balance l (reserve_of (not b) v) ≤ balance l' (reserve_of (not b) v) + out)
        × (balance l v.collateral0 ≤ balance l' v.collateral0)
        × (balance l v.collateral1 ≤ balance l' v.collateral1)
      → IsBacked t v p l
      → IsBacked t v q l'
  swap_backs true p q amount out l l' cash same moves backed =
      (omega arith, omega arith, omega arith, omega arith)
  swap_backs false p q amount out l l' cash same moves backed =
      (omega arith, omega arith, omega arith, omega arith)

  -- A swap between the reserve vaults, paid from an account that is no vault.
  pub handle_swap-IsBacked :
      (authority : FutarchyAuthority) (a : SwapAccounts) (args : SwapArgs) (b : Bool) (p q : Pair)
      (l l' : Ledger)
      → (a.user_token_in_mint == p.token0) ≡ b
      → a.token_in_vault ≡ reserve_of b v
      → a.token_out_vault ≡ reserve_of (not b) v
      → IsOutside v a.user_token_in
      → handle_swap t authority a args p l ≡ ok (q, l')
      → IsBacked t v p l
      → IsBacked t v q l' × IsSame p q
  unfolding handle_swap checked_swap
  handle_swap-IsBacked authority a args b p q l l' side e_in e_out outside h backed =
      let bps = authority.revenue_share.swap_bps in
      elim (Result-cases (swap_pair bps args b p)) [
        | inr (e, bad) ↦ ground arith
        | inl ((r, out), swapped) ↦
            elim (Result-cases (transfer t a.user_token_in a.token_in_vault args.amount_in l)) [
              | inr (e, bad) ↦ ground arith
              | inl (paid, sent) ↦
                  let received : transfer t a.token_out_vault a.user_token_out out paid ≡ ok l' =
                    ground arith in
                  let same : r ≡ q = ground arith in
                  let moves =
                    swap_moves b a args.amount_in out l paid l' e_in e_out outside sent received in
                  let (c0, c1, kept) = swap_pair_rest bps args b p swapped in
                  rw (← same) (
                    swap_backs b p r args.amount_in out l l' (pair_cash_lem bps args b p swapped)
                        (c0, c1) moves backed,
                    kept,
                  )
            ]
      ]

  -- A deposit of liquidity, from accounts that are no vaults.
  pub handle_add-IsBacked :
      (a : LiquidityAccounts) (args : AddLiquidityArgs) (p q : Pair) (l l' : Ledger)
      → a.reserve0_vault ≡ v.reserve0
      → a.reserve1_vault ≡ v.reserve1
      → IsOutside v a.user_token0
      → IsOutside v a.user_token1
      → handle_add t a args p l ≡ ok (q, l')
      → IsBacked t v p l
      → IsBacked t v q l' × IsSame p q
  unfolding handle_add
  handle_add-IsBacked a args p q l l' e0 e1 outside0 outside1 h backed =
      let (d, added, h1) = chain (add_to_pair args p) _ h in
      let (l0, sent0, h2) = chain (transfer t a.user_token0 a.reserve0_vault d.amount0 l) _ h1 in
      let (l1, sent1, h3) = chain (transfer t a.user_token1 a.reserve1_vault d.amount1 l0) _ h2 in
      let (l2, minted, h4) = chain (token_mint_to t p.lp_mint a.user_lp d.liquidity l1) _ h3 in
      let e_q : d.pair ≡ q = ground arith in
      let e_l : l2 ≡ l' = ground arith in
      let first : transfer t a.user_token0 v.reserve0 d.amount0 l ≡ ok l0 = rw (← e0) sent0 in
      let second : transfer t a.user_token1 v.reserve1 d.amount1 l0 ≡ ok l1 = rw (← e1) sent1 in
      let kept = transfer_in t laws a.user_token0 v.reserve0 d.amount0 l l0 v outside0 first in
      let more = transfer_gains t laws a.user_token0 v.reserve0 d.amount0 l l0 outside0.0 first in
      let kept1 = transfer_in t laws a.user_token1 v.reserve1 d.amount1 l0 l1 v outside1 second in
      let more1 =
        transfer_gains t laws a.user_token1 v.reserve1 d.amount1 l0 l1 outside1.1 second in
      let still = mint_keeps t laws v p.lp_mint a.user_lp d.liquidity l1 l2 minted in
      let (c0, c1, same0, same1, same) = add_rest args p d added in
      ended t laws v apart p q d.pair l2 l' e_q e_l
        ((omega arith, omega arith, omega arith, omega arith), same)

  -- A withdrawal of liquidity, whose LP tokens are burnt from an account that is no vault.
  pub handle_remove-IsBacked :
      (slot : ℕ) (a : LiquidityAccounts) (args : RemoveLiquidityArgs) (p q : Pair) (l l' : Ledger)
      → a.reserve0_vault ≡ v.reserve0
      → a.reserve1_vault ≡ v.reserve1
      → IsOutside v a.user_lp
      → handle_remove t slot a args p l ≡ ok (q, l')
      → IsBacked t v p l
      → IsBacked t v q l' × IsSame p q
  unfolding handle_remove
  handle_remove-IsBacked slot a args p q l l' e0 e1 outside h backed =
      let (w, removed, h1) = chain (remove_from_pair slot args p) _ h in
      let (l0, sent0, h2) = chain (transfer t a.reserve0_vault a.user_token0 w.amount0 l) _ h1 in
      let (l1, sent1, h3) = chain (transfer t a.reserve1_vault a.user_token1 w.amount1 l0) _ h2 in
      let (l2, burnt, h4) = chain (token_burn t p.lp_mint a.user_lp args.liquidity_in l1) _ h3 in
      let e_q : w.pair ≡ q = ground arith in
      let e_l : l2 ≡ l' = ground arith in
      let first : transfer t v.reserve0 a.user_token0 w.amount0 l ≡ ok l0 = rw (← e0) sent0 in
      let second : transfer t v.reserve1 a.user_token1 w.amount1 l0 ≡ ok l1 = rw (← e1) sent1 in
      let (k1, k2, k3) = reserve0_pays t laws v apart a.user_token0 w.amount0 l l0 first in
      let less = transfer_draws t laws v.reserve0 a.user_token0 w.amount0 l l0 first in
      let (j0, j2, j3) = reserve1_pays t laws v apart a.user_token1 w.amount1 l0 l1 second in
      let less1 = transfer_draws t laws v.reserve1 a.user_token1 w.amount1 l0 l1 second in
      let still = burn_keeps t laws v p.lp_mint a.user_lp args.liquidity_in l1 l2 outside burnt in
      let (_, _, _, _, c0, c1, _, _, _, _, (_, _, _, _, same0, same1)) =
        removed_lem slot args p w removed in
      let same = remove_rest slot args p w removed in
      ended t laws v apart p q w.pair l2 l' e_q e_l
        ((omega arith, omega arith, omega arith, omega arith), same)
