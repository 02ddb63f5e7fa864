-- ===== src/Vaults/Creation.antt =====
-- Proofs: the vaults of a pair from its creation on (instructions/liquidity/initialize.rs).
use mathlib.Core.Path.{subst}
use omnipair_rs.Base.{ℕ, ◌+◌, ◌≡◌, refl, arith, List, [], leb, Pubkey}
use omnipair_rs.Outcome.{
  Result, ok, ◌>>=◌, ◌>>◌, chain, guarded, ok-injective, require, slippage_exceeded,
}
use omnipair_rs.RateModel.{RateModel}
use omnipair_rs.Pair.{Pair, initialize}
use omnipair_rs.Token.{TokenProgram, transfer, token_mint_to}
use omnipair_rs.Liquidity.{reserve_share}
use omnipair_rs.Liquidity.LpMint.{Programs, collect_creation_fee, create_lp_mint}
use omnipair_rs.Liquidity.Bootstrap.{
  InitializeAccounts, InitializeArgs, rate_model_of, first_liquidity, bootstrap,
  validate_initialize, handle_initialize, initialize_and_bootstrap,
}
use omnipair_rs.System.{at}
use omnipair_rs.System.History.{Event, replay}
use omnipair_rs.Vaults.{
  Vaults, IsSame, AreApart, AreVaultsOf, IsTokenLedger, IsOutside, IsBacked, Keep,
}
use omnipair_rs.Futarchy.{FutarchyAuthority}
use omnipair_rs.Accounts.{Chain}
use omnipair_rs.Accounts.Creation.{InitializeContext, initialize_accounts}
use omnipair_rs.Vaults.Founding.{AreSparing, create_lp_mint-Keep, identity_of, founded_lem}
use omnipair_rs.Vaults.Transfers.{transfer_in, transfer_gains, mint_keeps}
use omnipair_rs.Vaults.Solvency.{IsSolvent}
use omnipair_rs.Vaults.Histories.{AreAllowed, replay-IsBacked}

-- The deposit is the cash, and there is no collateral.
bootstrap_rest :
    (amount0 amount1 liquidity : ℕ) (p q : Pair)
    → bootstrap amount0 amount1 liquidity p ≡ ok q
    → (q.side0.cash_reserve ≡ p.side0.reserve + amount0)
      × (q.side1.cash_reserve ≡ p.side1.reserve + amount1)
      × (q.side0.total_collateral ≡ p.side0.total_collateral)
      × (q.side1.total_collateral ≡ p.side1.total_collateral)
      × IsSame p q
unfolding bootstrap
bootstrap_rest amount0 amount1 liquidity p q h = ground arith

empty_lem :
    (amount0 amount1 : ℕ) (p q : Pair)
    → (p.side0.reserve ≡ 0)
      × (p.side1.reserve ≡ 0)
      × (p.side0.total_collateral ≡ 0)
      × (p.side1.total_collateral ≡ 0)
    → q.side0.cash_reserve ≡ p.side0.reserve + amount0
    → q.side1.cash_reserve ≡ p.side1.reserve + amount1
    → q.side0.total_collateral ≡ p.side0.total_collateral
    → q.side1.total_collateral ≡ p.side1.total_collateral
    → (q.side0.cash_reserve ≡ amount0)
      × (q.side1.cash_reserve ≡ amount1)
      × (q.side0.total_collateral ≡ 0)
      × (q.side1.total_collateral ≡ 0)
empty_lem amount0 amount1 p q empty e0 e1 e2 e3 =
    (omega arith, omega arith, omega arith, omega arith)

module _ (t : TokenProgram) (laws : IsTokenLedger t) (v : Vaults) where
  open t use {Ledger, balance}

  -- The deployer's transfers, the creation of the mint, and the first LP tokens.
  deposit_backs :
      (a : InitializeAccounts) (amount0 amount1 liquidity : ℕ) (q : Pair) (l l1 l2 l3 l4 : Ledger)
      → a.reserve0_vault ≡ v.reserve0
      → a.reserve1_vault ≡ v.reserve1
      → IsOutside v a.deployer_token0
      → IsOutside v a.deployer_token1
      → transfer t a.deployer_token0 a.reserve0_vault amount0 l ≡ ok l1
      → transfer t a.deployer_token1 a.reserve1_vault amount1 l1 ≡ ok l2
      → Keep t v l2 l3
      → token_mint_to t a.lp_mint a.deployer_lp liquidity l3 ≡ ok l4
      → (q.side0.cash_reserve ≡ amount0)
        × (q.side1.cash_reserve ≡ amount1)
        × (q.side0.total_collateral ≡ 0)
        × (q.side1.total_collateral ≡ 0)
      → IsBacked t v q l4
  deposit_backs a amount0 amount1 liquidity q l l1 l2 l3 l4 e0 e1 out0 out1 sent0 sent1 kept minted
        counted =
      let first : transfer t a.deployer_token0 v.reserve0 amount0 l ≡ ok l1 = rw (← e0) sent0 in
      let second : transfer t a.deployer_token1 v.reserve1 amount1 l1 ≡ ok l2 = rw (← e1) sent1 in
      let more0 = transfer_gains t laws a.deployer_token0 v.reserve0 amount0 l l1 out0.0 first in
      let still = transfer_in t laws a.deployer_token1 v.reserve1 amount1 l1 l2 v out1 second in
      let more1 = transfer_gains t laws a.deployer_token1 v.reserve1 amount1 l1 l2 out1.1 second in
      let last = mint_keeps t laws v a.lp_mint a.deployer_lp liquidity l3 l4 minted in
      (omega arith, omega arith, omega arith, omega arith)

  -- The handler from the transfers on, for the pair that is about to be filled.
  filled_backs :
      (programs : Programs Ledger) (a : InitializeAccounts) (args : InitializeArgs)
      (model m : RateModel) (p0 p : Pair) (l l' : Ledger)
      → a.reserve0_vault ≡ v.reserve0
      → a.reserve1_vault ≡ v.reserve1
      → IsOutside v a.deployer_token0
      → IsOutside v a.deployer_token1
      → AreSparing t v programs
      → (p0.side0.reserve ≡ 0)
        × (p0.side1.reserve ≡ 0)
        × (p0.side0.total_collateral ≡ 0)
        × (p0.side1.total_collateral ≡ 0)
      → ◌≡◌ {A = Result (RateModel × Pair × Ledger)}
          (do
            paid0 ← transfer t a.deployer_token0 a.reserve0_vault args.amount0_in l
            paid1 ← transfer t a.deployer_token1 a.reserve1_vault args.amount1_in paid0
            created ←
                create_lp_mint t programs a.pair a.lp_mint a.deployer a.deployer_lp args.lp_name
                  args.lp_symbol args.lp_uri paid1
            liquidity ← first_liquidity args.amount0_in args.amount1_in
            require (leb args.min_liquidity_out liquidity) slippage_exceeded
            minted ← token_mint_to t a.lp_mint a.deployer_lp liquidity created
            q ← bootstrap args.amount0_in args.amount1_in liquidity p0
            reported0 ← reserve_share liquidity q.side0.reserve q.total_supply
            reported1 ← reserve_share liquidity q.side1.reserve q.total_supply
            ok (model, q, minted))
          (ok (m, p, l'))
      → IsBacked t v p l' × IsSame p0 p
  filled_backs programs a args model m p0 p l l' e0 e1 out0 out1 raises empty h =
      let (l1, sent0, h1) =
        chain (transfer t a.deployer_token0 a.reserve0_vault args.amount0_in l) _ h in
      let (l2, sent1, h2) =
        chain (transfer t a.deployer_token1 a.reserve1_vault args.amount1_in l1) _ h1 in
      let (l3, created, h3) =
        chain
          (create_lp_mint t programs a.pair a.lp_mint a.deployer a.deployer_lp args.lp_name
            args.lp_symbol args.lp_uri l2)
          _ h2 in
      let (liquidity, _, h4) = chain (first_liquidity args.amount0_in args.amount1_in) _ h3 in
      let (_, h5) =
        guarded (require (leb args.min_liquidity_out liquidity) slippage_exceeded) _ h4 in
      let (l4, minted, h6) = chain (token_mint_to t a.lp_mint a.deployer_lp liquidity l3) _ h5 in
      let (q, filled, h7) = chain (bootstrap args.amount0_in args.amount1_in liquidity p0) _ h6 in
      let (_, _, h8) = chain (reserve_share liquidity q.side0.reserve q.total_supply) _ h7 in
      let (_, _, h9) =
        chain (reserve_share liquidity q.side1.reserve q.total_supply) (λ shown. ok (model, q, l4))
          h8 in
      let same = ok-injective h9 in
      let (cash0, cash1, coll0, coll1, kept) =
        bootstrap_rest args.amount0_in args.amount1_in liquidity p0 q filled in
      let spared =
        create_lp_mint-Keep t v programs a.pair a.lp_mint a.deployer a.deployer_lp args.lp_name
          args.lp_symbol args.lp_uri l2 l3 raises created in
      let counted = empty_lem args.amount0_in args.amount1_in p0 q empty cash0 cash1 coll0 coll1 in
      let backed =
        deposit_backs a args.amount0_in args.amount1_in liquidity q l l1 l2 l3 l4 e0 e1 out0 out1
          sent0 sent1 spared minted counted in
      subst (λ (z : RateModel × Pair × Ledger). IsBacked t v z.1 z.2 × IsSame p0 z.1) same
        (backed, kept)

  initialized-IsSolvent :
      (key : Pubkey) (programs : Programs Ledger) (slot : ℕ) (a : InitializeAccounts)
      (args : InitializeArgs) (l l' : Ledger) (m : RateModel) (p : Pair)
      → a.reserve0_vault ≡ v.reserve0
      → a.reserve1_vault ≡ v.reserve1
      → IsOutside v a.deployer_token0
      → IsOutside v a.deployer_token1
      → AreSparing t v programs
      → initialize_and_bootstrap t programs slot a args l ≡ ok (m, p, l')
      → IsSolvent t (identity_of key a) v p l'
  unfolding initialize_and_bootstrap handle_initialize initialize
  initialized-IsSolvent key programs slot a args l l' m p e0 e1 out0 out1 raises h =
      let (_, h0) = guarded (validate_initialize t programs a args l) _ h in
      let (charged, _, h1) =
        chain (collect_creation_fee t programs a.deployer a.team_treasury_wsol_account l) _ h0 in
      let (model, _, h2) = chain (rate_model_of args) _ h1 in
      let p0 =
        initialize a.token0_mint a.token1_mint a.lp_mint a.decimals0 a.decimals1 a.rate_model
          args.swap_fee_bps args.half_life args.fixed_cf_bps slot args.params_hash args.version
          a.pair_bump a.vault_bumps model.initial_rate in
      let (backed, kept) =
        filled_backs programs a args model m p0 p charged l' e0 e1 out0 out1 raises
          (refl, refl, refl, refl) h2 in
      (kept, backed)

  -- The reserve vaults of a pair hold its cash reserves, and its collateral vaults its collateral,
  -- from its creation on, whatever is requested of the program about this pair and whatever other
  -- programs do in between, provided that the token program keeps its laws and transfers between
  -- accounts of one mint only; that the vaults are four accounts, at their addresses and owned by the
  -- pair, which signs for nobody; that the programs which create the LP mint take nothing from the
  -- vaults; that synchronising wrapped SOL in a flash loan lowers no vault and its receiver takes
  -- nothing from the collateral vaults; and that other programs take nothing from the vaults.
  pub vaults_back_pair :
      (apart : AreApart v) (c : Chain) (authority : FutarchyAuthority) (x : InitializeContext)
      (programs : Programs Ledger) (slot : ℕ) (a : InitializeAccounts) (args : InitializeArgs)
      (l l' : Ledger) (m : RateModel) (p : Pair) (events : List (Event Ledger))
      → initialize_accounts c args.params_hash authority x ≡ ok a
      → AreVaultsOf c (identity_of x.pair a) v
      → AreSparing t v programs
      → initialize_and_bootstrap t programs slot a args l ≡ ok (m, p, l')
      → AreAllowed t laws v apart (identity_of x.pair a) events (at t [] p l')
      → IsBacked t v (replay t events (at t [] p l')).pair (replay t events (at t [] p l')).ledger
  vaults_back_pair apart c authority x programs slot a args l l' m p events checked of raises
        created allowed =
      let (e0, e1, out0, out1) = founded_lem c args.params_hash authority x a v checked of in
      (replay-IsBacked t laws v apart (identity_of x.pair a) events (at t [] p l') allowed (
        initialized-IsSolvent x.pair programs slot a args l l' m p e0 e1 out0 out1 raises
          created)).1
