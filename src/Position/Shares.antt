-- ===== src/Position/Shares.antt =====
-- Proofs: the accounting of debt shares (state/user_position.rs) in loans and repayments.
use native.Mathlib.Nat.{mul-le-mul_right, div-mul-le_self, mul-sub, mul-lt-mul_of_pos_right}
use omnipair_rs.Base.{
  ℕ, ◌+◌, ◌-◌, ◌*◌, ◌/◌, ◌≤◌, ◌<◌, ◌≡◌, min, inl, inr, ◌⊎◌, ap, ltb, ltb→lt, ltb→le, some,
  Option-cases, arith, Bool-cases, ◌==◌,
}
use omnipair_rs.Word.{u64, u128, max_word}
use omnipair_rs.Outcome.{ok}
use omnipair_rs.Math.{ceil_div}
use omnipair_rs.Math.Rounding.{ceil_div_bounds, ceil_div-le, le_of_mul, div-lt_of_mul}
use omnipair_rs.Pair.{Side}
use omnipair_rs.Pair.Accounting.{IsBalanced}
use omnipair_rs.Position.{
  repayment, increase_debt_on, decrease_debt_on, mint_shares, shares_for, shares_to_burn, settle,
  sync_debt, calculate_debt,
}

min_le : (a b : ℕ) → min a b ≤ a
min_le a b = omega arith

-- d' ≤ d - a and b * d ≤ a * t give d' * t ≤ d * (t - b).
share_gap : (d t a b d' : ℕ) → a ≤ d → b * d ≤ a * t → d' * t ≤ (d - a) * t → d' * t ≤ d * (t - b)
share_gap d t a b d' le burn debt = rw (mul-sub d t b) (omega (arith, sub-mul_lem d a t le))
  where
    sub-mul_lem : (d a t : ℕ) → a ≤ d → (d - a) * t + a * t ≡ d * t
    sub-mul_lem d a t le =
        let e : d ≡ d - a + a = omega arith in omega (arith, ap (λ (z : ℕ). z * t) e)

-- A part of the debt stands for a part of the shares only.
part_of_shares : (a t d : ℕ) → 0 < t → a ≤ d → (a ≡ d) ⊎ (a * t / d < t)
part_of_shares a t d pos_t le = elim (Bool-cases (ltb a d)) [
  | inl test ↦
      let less : a < d = ltb→lt _ _ test in
      let prod = mul-lt-mul_of_pos_right less pos_t in
      inr (div-lt_of_mul t d (a * t) (omega arith) (omega arith))
  | inr test ↦ let ge : d ≤ a = ltb→le _ _ test in inl (omega arith)
]

module _ (s : Side) (own amount : ℕ) {s' : Side} {own' : ℕ} where
  -- A loan keeps r_virtual = r_cash + r_debt, if it holds before and the reserve fits a u64: the
  -- virtual reserve stays, the debt grows and the cash falls by the amount.
  pub increase_debt_on-IsBalanced :
      IsBalanced s
      → s.reserve < u64
      → increase_debt_on s own amount ≡ ok (s', own')
      → IsBalanced s'
        × (s'.reserve ≡ s.reserve)
        × (s'.total_debt ≡ s.total_debt + amount)
        × (s'.cash_reserve + amount ≡ s.cash_reserve)
  unfolding increase_debt_on mint_shares
  increase_debt_on-IsBalanced balanced fits h = ground arith

  -- If the user has at most all shares of the side, and these stay below the largest u128, a
  -- loan adds as many shares to the side as to the user, so that all other shares stay.
  pub increase_debt_on-others :
      own ≤ s.total_debt_shares
      → s'.total_debt_shares < max_word u128
      → increase_debt_on s own amount ≡ ok (s', own')
      → (own' ≤ s'.total_debt_shares) × (s'.total_debt_shares + own ≡ s.total_debt_shares + own')
  unfolding increase_debt_on mint_shares
  increase_debt_on-others le fits h = ground arith

  pub minted_lem :
      0 < s.total_debt_shares
      → increase_debt_on s own amount ≡ ok (s', own')
      → (minted : ℕ) × (ceil_div (amount * s.total_debt_shares) s.total_debt ≡ some minted)
        × (s'.total_debt_shares ≡ min (s.total_debt_shares + minted) (max_word u128))
        × (own' ≡ min (own + minted) (max_word u128))
        × (s'.total_debt ≤ s.total_debt + amount)
  unfolding increase_debt_on mint_shares shares_for
  minted_lem pos_s h = elim (Option-cases (ceil_div (amount * s.total_debt_shares) s.total_debt)) [
    | inl bad ↦ ground arith
    | inr (minted, e) ↦ (minted, e, ground arith, ground arith, ground arith)
  ]

  -- A loan on a side that has shares, and whose shares stay below the largest u128, does not
  -- raise what a share owes: debt after times shares before is at most debt before times shares
  -- after.
  pub increase_debt_on-share_price :
      0 < s.total_debt_shares
      → s'.total_debt_shares < max_word u128
      → increase_debt_on s own amount ≡ ok (s', own')
      → s'.total_debt * s.total_debt_shares ≤ s.total_debt * s'.total_debt_shares
  increase_debt_on-share_price pos_s fits h =
      let (minted, e, total, _, debt) = minted_lem pos_s h in
      let (_, cover, _) = ceil_div_bounds (amount * s.total_debt_shares) s.total_debt e in
      let whole : s'.total_debt_shares ≡ s.total_debt_shares + minted = omega arith in
      let more = mul-le-mul_right s.total_debt_shares debt in rw whole (omega arith)

  pub burnt_lem :
      decrease_debt_on s own amount repayment ≡ ok (s', own')
      → amount ≤ s.total_debt
      → let burnt = min (amount * s.total_debt_shares / s.total_debt) own in
        (0 < s.total_debt)
        × (s'.total_debt_shares ≡ s.total_debt_shares - burnt)
        × (own' ≡ own - burnt)
        × (s'.total_debt ≤ s.total_debt - amount)
        × (s'.reserve ≡ s.reserve)
        × (s'.cash_reserve ≡ min (s.cash_reserve + amount) (max_word u64))
  unfolding decrease_debt_on shares_to_burn settle sync_debt
  burnt_lem h le = ground arith

  -- While shares are left, the debt falls by the amount that is repaid.
  pub remaining_debt :
      decrease_debt_on s own amount repayment ≡ ok (s', own')
      → 0 < s'.total_debt_shares
      → s'.total_debt ≡ s.total_debt - amount
  unfolding decrease_debt_on shares_to_burn settle sync_debt
  remaining_debt h left = ground arith

  -- A repayment of at most the debt does not raise what a share owes: debt after times shares
  -- before is at most debt before times shares after.
  pub repay_share_price :
      amount ≤ s.total_debt
      → decrease_debt_on s own amount repayment ≡ ok (s', own')
      → s'.total_debt * s.total_debt_shares ≤ s.total_debt * s'.total_debt_shares
  repay_share_price le h =
      let (pos_d, total, _, debt, _, _) = burnt_lem h le in
      let floor = div-mul-le_self (amount * s.total_debt_shares) s.total_debt in
      let burnt = min (amount * s.total_debt_shares / s.total_debt) own in
      let some_burnt : burnt * s.total_debt ≤ amount * s.total_debt_shares = omega (
        arith,
        mul-le-mul_right s.total_debt (min_le (amount * s.total_debt_shares / s.total_debt) own),
      ) in
      let more = mul-le-mul_right s.total_debt_shares debt in
      rw total
        (share_gap s.total_debt s.total_debt_shares amount burnt s'.total_debt le some_burnt more)

  -- A repayment of at most the debt, by a user with at most all shares of a side that has
  -- shares, keeps r_virtual = r_cash + r_debt if it holds before and the reserve fits a u64; the
  -- reserve stays, and the side loses as many shares as the user.
  pub repay-IsBalanced :
      IsBalanced s
      → s.reserve < u64
      → own ≤ s.total_debt_shares
      → 0 < s.total_debt_shares
      → amount ≤ s.total_debt
      → decrease_debt_on s own amount repayment ≡ ok (s', own')
      → IsBalanced s'
        × (s'.reserve ≡ s.reserve)
        × (own' ≤ s'.total_debt_shares)
        × (s'.total_debt_shares + own ≡ s.total_debt_shares + own')
  unfolding decrease_debt_on shares_to_burn settle sync_debt
  repay-IsBalanced balanced fits le pos_s owed h =
      let part = part_of_shares amount s.total_debt_shares s.total_debt pos_s owed in ground arith

pub calculate_debt-eq :
    (own debt shares : ℕ) {owed : ℕ}
    → calculate_debt own debt shares ≡ ok owed
    → ((shares ≡ 0) × (owed ≡ 0)) ⊎ ((0 < shares) × (ceil_div (own * debt) shares ≡ some owed))
unfolding calculate_debt
calculate_debt-eq own debt shares h = elim (Bool-cases (shares == 0)) [
  | inl empty ↦ inl (ground arith)
  | inr filled ↦ inr (ground arith)
]

-- What a user with at most all shares owes is at most the debt of the side.
pub calculate_debt-le :
    (own debt shares : ℕ) {owed : ℕ}
    → own ≤ shares
    → calculate_debt own debt shares ≡ ok owed
    → owed ≤ debt
calculate_debt-le own debt shares {owed} le h = elim (calculate_debt-eq own debt shares h) [
  | inl (_, nothing) ↦ omega arith
  | inr (_, ceil) ↦
      ceil_div-le (own * debt) shares debt ceil (omega (arith, mul-le-mul_right debt le))
]

-- A user who has at most all shares of a side with a debt, and repays what `calculate_debt`
-- says, has no shares left.
pub repay_all_clears :
    (s : Side) (own : ℕ) {owed own' : ℕ} {s' : Side}
    → own ≤ s.total_debt_shares
    → 0 < s.total_debt
    → calculate_debt own s.total_debt s.total_debt_shares ≡ ok owed
    → decrease_debt_on s own owed repayment ≡ ok (s', own')
    → own' ≡ 0
repay_all_clears s own {owed} {own'} {s'} le pos_d h r =
    let (_, _, left, _, _, _) = burnt_lem s own owed r (calculate_debt-le own _ _ le h) in
    elim (calculate_debt-eq own s.total_debt s.total_debt_shares h) [
      | inl (empty, _) ↦ omega arith
      | inr (_, ceil) ↦
          let (_, cover, _) = ceil_div_bounds (own * s.total_debt) s.total_debt_shares ceil in
          let all : own ≤ owed * s.total_debt_shares / s.total_debt =
            le_of_mul own s.total_debt (owed * s.total_debt_shares) pos_d cover in
          omega arith
    ]
