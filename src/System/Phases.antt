-- ===== src/System/Phases.antt =====
-- Proofs: an instruction that succeeds ran its phases one after another, on a position that it found.
use mathlib.Core.Path.{subst}
use omnipair_rs.Base.{
  ℕ, ◌≡◌, refl, sym, ap, inl, inr, arith, Bool-cases, Option-cases, some, List, [], ◌∷◌, ◌++◌, ◌==◌,
  Pubkey,
}
use omnipair_rs.Outcome.{Result, ok, err, ◌>>=◌, ◌>>◌, Result-cases, chain, guarded, ok-injective}
use omnipair_rs.Pair.{Pair, update}
use omnipair_rs.Position.{UserPosition}
use omnipair_rs.Token.{TokenProgram}
use omnipair_rs.Lending.{CollateralAccounts}
use omnipair_rs.Lending.Collateral
use omnipair_rs.System.{State, Step, elapsed, secured, at, IsBelow, Reach, next}
use omnipair_rs.System.Dispatch.{Env, find, with_pair, with_position}

-- The three phases of an instruction.
pub phases {ℓ} :
    {B : Type ℓ} (u : Result Pair) (v : Pair → Result (Unit {0})) (f : Pair → Result B) {b : B}
    → (u >>= λ p. v p >> f p) ≡ ok b
    → (p : Pair) × (u ≡ ok p) × (v p ≡ ok tt) × (f p ≡ ok b)
phases u v f h =
    let (p, updated, rest) = chain u (λ q. v q >> f q) h in
    let (valid, done) = guarded (v p) (f p) rest in (p, updated, valid, done)

pub find_lem :
    (user : Pubkey) (us : List UserPosition) {before after : List UserPosition} {u : UserPosition}
    → find user us ≡ some (before, u, after)
    → us ≡ before ++ (u ∷ after)
unfolding find
find_lem user [] h = ground arith
find_lem user (v ∷ us) {before} {after} {u} h = elim (Bool-cases (v.owner == user)) [
  | inl mine ↦ ground arith
  | inr other ↦ elim (Option-cases (find user us)) [
    | inl missing ↦ ground arith
    | inr ((front, w, back), found) ↦
        let here = find_lem user us {before = front} {after = back} {u = w} found in
        ground (arith, ap (λ (ws : List UserPosition). v ∷ ws) here)
  ]
]

-- An update from here leaves the counters below their largest words.
abbrev pub UpdatesBelow : Env → Pair → Type 0
UpdatesBelow e p =
    (c : Pair)
    → update e.slot e.rate_model e.authority.revenue_share.interest_bps p ≡ ok c
    → IsBelow c

module _ (t : TokenProgram) where
  open t use {Ledger}

  -- The instruction on the pair ends in the state that its result gives.
  pub with_pair_lem :
      (us : List UserPosition) (r : Result (Pair × Ledger)) {s : State Ledger}
      → with_pair t us r ≡ ok s
      → (q : Pair) × (l : Ledger) × (r ≡ ok (q, l)) × (at t us q l ≡ s)
  with_pair_lem us (err e) h = ground arith
  with_pair_lem us (ok (q, l)) h = (q, l, refl, ground arith)

  pub with_position_lem :
      (user : Pubkey) (us : List UserPosition)
      (f : UserPosition → Result (UserPosition × Pair × Ledger)) {s : State Ledger}
      → with_position t (find user us) f ≡ ok s
      → (before after : List UserPosition) × (u v : UserPosition) × (q : Pair) × (l : Ledger) × (us
          ≡ before ++ (u ∷ after))
        × (f u ≡ ok (v, q, l))
        × (at t (before ++ (v ∷ after)) q l ≡ s)
  with_position_lem user us f h = elim (Option-cases (find user us)) [
    | inl missing ↦ ground arith
    | inr ((before, u, after), found) ↦ elim (Result-cases (f u)) [
      | inr (e, bad) ↦ ground arith
      | inl ((v, q, l), done) ↦
          (before, after, u, v, q, l, find_lem user us found, done, ground arith)
    ]
  ]

  -- An update, and a step from where it leaves the pair.
  pub two_steps :
      {s : State Ledger} {us : List UserPosition} {p c : Pair} {l : Ledger} {r r' : State Ledger}
      (e : Env)
      → Reach t s (at t us p l)
      → update e.slot e.rate_model e.authority.revenue_share.interest_bps p ≡ ok c
      → IsBelow c
      → Step t (at t us c l) r
      → r ≡ r'
      → IsBelow r'.pair
      → Reach t s r'
  two_steps {s = s} e path updated below step ends end_below = subst (Reach t s) ends (
      next
        (next path (elapsed e.slot e.rate_model e.authority.revenue_share.interest_bps updated)
          below)
        step (subst (λ (z : State Ledger). IsBelow z.pair) (sym ends) end_below))

  -- The deposit to one of the positions.
  pub secured_run :
      (e : Env) (user : Pubkey) (bump : ℕ) (a : CollateralAccounts) (amount : ℕ)
      (before after : List UserPosition) (u : UserPosition) (p : Pair) (l : Ledger)
      {s r : State Ledger}
      → Reach t s (at t (before ++ (u ∷ after)) p l)
      → UpdatesBelow e p
      → IsBelow r.pair
      → with_position t (some (before, u, after)) (λ w.
        Collateral.add_collateral t e.slot e.rate_model e.authority user e.pair_key bump a amount w
          p l)
        ≡ ok r
      → Reach t s r
  unfolding Collateral.add_collateral
  secured_run e user bump a amount before after u p l {s} {r} path updates ends_below h =
      let (found, done, ends) =
        chain
          (Collateral.add_collateral t e.slot e.rate_model e.authority user e.pair_key bump a amount
            u p l)
          (λ w. ok (at t (before ++ (w.0 ∷ after)) w.1 w.2)) h in
      let (c, updated, valid, handled) =
        phases (update e.slot e.rate_model e.authority.revenue_share.interest_bps p)
          (λ c. Collateral.validate_add t a amount l)
          (λ c. Collateral.handle_add_collateral t user e.pair_key bump a amount u c l) done in
      let e_state : at t (before ++ (found.0 ∷ after)) found.1 found.2 ≡ r = ok-injective ends in
      two_steps e path updated (updates c updated)
        (secured before after u found.0 user e.pair_key bump a amount valid handled) e_state
        ends_below
