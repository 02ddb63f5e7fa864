-- ===== src/System/Accounts.antt =====
-- What the totals of a side stand for: every debt share and all collateral of the pair belong to one of
-- its positions (state/pair.rs and state/user_position.rs).
use omnipair_rs.Base.{ℕ, ◌+◌, ◌≤◌, ◌<◌, ◌≡◌, List, [], ◌∷◌, ◌++◌, arith}
use omnipair_rs.Word.{u64, max_word}
use omnipair_rs.Pair.{Side, Pair}
use omnipair_rs.Pair.Accounting.{IsBalanced}
use omnipair_rs.Position.{UserPosition}

-- The sum of a field over the positions.
abbrev pub sum : (UserPosition → ℕ) → List UserPosition → ℕ
sum field [] = 0
sum field (u ∷ us) = field u + sum field us

pub sum-append :
    (field : UserPosition → ℕ) (before after : List UserPosition) (u : UserPosition)
    → sum field (before ++ (u ∷ after)) ≡ sum field before + sum field after + field u
sum-append field [] after u = omega arith
sum-append field (v ∷ before) after u = omega (arith, sum-append field before after u)

-- A side on which the positions hold so many shares and so much collateral: r_virtual = r_cash + r_debt
-- in one word, the totals are the positions', and without a share there is no debt.
abbrev pub IsAccounted : ℕ → ℕ → Side → Type 0
IsAccounted shares collateral s =
    IsBalanced s
    × (s.reserve ≤ max_word u64)
    × (s.total_debt_shares ≡ shares)
    × (s.total_collateral ≡ collateral)
    × (s.total_debt_shares ≡ 0 → s.total_debt ≡ 0)

-- Both sides of a pair of two different tokens.
abbrev pub IsSound : ℕ → ℕ → ℕ → ℕ → Pair → Type 0
IsSound shares0 shares1 collateral0 collateral1 p =
    (p.token0 < p.token1)
    × IsAccounted shares0 collateral0 p.side0
    × IsAccounted shares1 collateral1 p.side1

-- A pair whose positions are the ones listed.
abbrev pub IsSoundFor : List UserPosition → Pair → Type 0
IsSoundFor us =
    IsSound (sum (λ u. u.debt0_shares) us) (sum (λ u. u.debt1_shares) us)
      (sum (λ u. u.collateral0) us) (sum (λ u. u.collateral1) us)

-- A pair with one position and others that hold so much.
abbrev pub IsSoundWith : ℕ → ℕ → ℕ → ℕ → UserPosition → Pair → Type 0
IsSoundWith rest0 rest1 others0 others1 u =
    IsSound (rest0 + u.debt0_shares) (rest1 + u.debt1_shares) (others0 + u.collateral0)
      (others1 + u.collateral1)

module _ (before after : List UserPosition) (u : UserPosition) (p : Pair) where
  abbrev pub rest : (UserPosition → ℕ) → ℕ
  rest field = sum field before + sum field after

  -- One position among the others.
  pub focus :
      IsSoundFor (before ++ (u ∷ after)) p
      → IsSoundWith
          (rest (λ v. v.debt0_shares))
          (rest (λ v. v.debt1_shares))
          (rest (λ v. v.collateral0))
          (rest (λ v. v.collateral1))
          u
          p
  focus (ordered, (b0, f0, s0, c0, e0), (b1, f1, s1, c1, e1)) = (
    ordered,
    (
      b0,
      f0,
      omega (arith, s0, sum-append (λ v. v.debt0_shares) before after u),
      omega (arith, c0, sum-append (λ v. v.collateral0) before after u),
      e0,
    ),
    (
      b1,
      f1,
      omega (arith, s1, sum-append (λ v. v.debt1_shares) before after u),
      omega (arith, c1, sum-append (λ v. v.collateral1) before after u),
      e1,
    ),
  )

  pub unfocus :
      IsSoundWith
        (rest (λ v. v.debt0_shares))
        (rest (λ v. v.debt1_shares))
        (rest (λ v. v.collateral0))
        (rest (λ v. v.collateral1))
        u
        p
      → IsSoundFor (before ++ (u ∷ after)) p
  unfocus (ordered, (b0, f0, s0, c0, e0), (b1, f1, s1, c1, e1)) = (
    ordered,
    (
      b0,
      f0,
      omega (arith, s0, sum-append (λ v. v.debt0_shares) before after u),
      omega (arith, c0, sum-append (λ v. v.collateral0) before after u),
      e0,
    ),
    (
      b1,
      f1,
      omega (arith, s1, sum-append (λ v. v.debt1_shares) before after u),
      omega (arith, c1, sum-append (λ v. v.collateral1) before after u),
      e1,
    ),
  )
