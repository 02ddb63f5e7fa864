-- ===== src/Lending/RoundTrip.antt =====
-- Proofs: a loan that is repaid at once (state/user_position.rs).
use native.Mathlib.Nat.{div-le_of_le-mul}
use mathlib.Core.Path.{subst}
use omnipair_rs.Base.{ℕ, ◌+◌, ◌*◌, ◌/◌, ◌≤◌, ◌<◌, ◌≡◌, sym, arith}
use omnipair_rs.Word.{u64, u128, max_word}
use omnipair_rs.Outcome.{ok}
use omnipair_rs.Math.Rounding.{ceil_div_bounds}
use omnipair_rs.Pair.{Side}
use omnipair_rs.Pair.Accounting.{IsBalanced}
use omnipair_rs.Position.{increase_debt_on, decrease_debt_on, repayment}
use omnipair_rs.Position.Shares.{minted_lem, burnt_lem, remaining_debt, increase_debt_on-IsBalanced}

-- Shares that the amount is worth after they were minted for it.
burn_lem : (a t d m : ℕ) → 0 < d + a → a * t ≤ m * d → a * (t + m) / (d + a) ≤ m
burn_lem a t d m pos cover = div-le_of_le-mul (d + a) {m = a * (t + m)} {n = m} (omega arith)

module _ (s : Side) (own amount : ℕ) {s' s'' : Side} {own' own'' : ℕ} where
  -- Who borrows and repays the same amount at once does not gain: on a balanced side with shares
  -- that stay below their largest word, the debt, the cash and the reserve are what they were, and
  -- the user has no fewer shares of the debt than before.
  pub repay_of_borrow :
      IsBalanced s
      → s.reserve < u64
      → 0 < s.total_debt_shares
      → s'.total_debt_shares < max_word u128
      → own' < max_word u128
      → increase_debt_on s own amount ≡ ok (s', own')
      → decrease_debt_on s' own' amount repayment ≡ ok (s'', own'')
      → (own ≤ own'')
        × (s''.total_debt ≡ s.total_debt)
        × (s''.cash_reserve ≡ s.cash_reserve)
        × (s''.reserve ≡ s.reserve)
  repay_of_borrow balanced fits pos below below' h r =
      let (m, e, total, mine, _) = minted_lem s own amount {s' = s'} {own' = own'} pos h in
      let (_, e_r, e_d, e_c) =
        increase_debt_on-IsBalanced s own amount {s' = s'} {own' = own'} balanced fits h in
      let (pos_d, rest, left, debt, same, cash) =
        burnt_lem s' own' amount {s' = s''} {own' = own''} r (omega arith) in
      let (_, cover, _) = ceil_div_bounds (amount * s.total_debt_shares) s.total_debt e in
      let small : amount * s'.total_debt_shares / s'.total_debt ≤ m =
        let grown : s'.total_debt_shares ≡ s.total_debt_shares + m = omega arith in
        let part = burn_lem amount s.total_debt_shares s.total_debt m (omega arith) cover in
        subst (λ n. amount * n / s'.total_debt ≤ m) (sym grown)
          (subst (λ n. amount * (s.total_debt_shares + m) / n ≤ m) (sym e_d) part) in
      let kept = remaining_debt s' own' amount {s' = s''} {own' = own''} r (omega arith) in
      (omega arith, omega arith, omega arith, omega arith)
