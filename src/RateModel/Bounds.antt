-- ===== src/RateModel/Bounds.antt =====
-- Proofs: the floor, the cap and the direction of the rate (state/rate_model.rs).
use native.Mathlib.Nat.{mul-le-mul_left, div-le_of_le-mul}
use omnipair_rs.Base.{
  ℕ, ◌*◌, ◌/◌, ◌^◌, max, ◌≤◌, ◌<◌, ◌≡◌, inl, inr, ◌⊎◌, ltb, leb, ◌&&◌, arith, Bool-cases,
}
use omnipair_rs.Word.{u64, u128, saturating_mul}
use omnipair_rs.Outcome.{ok}
use omnipair_rs.Constants.{nad}
use omnipair_rs.Math.Rounding.{le_of_mul}
use omnipair_rs.Math.Exp.{decay_bounds}
use omnipair_rs.RateModel.{
  RateModel, flat_rate, moved_rate, split_rate, rate_up, rate_down, calculate_rate, clamp_u64,
}

flat_rate-eq : (rate dt : ℕ) {r i : ℕ} → flat_rate rate dt ≡ (r, i) → r ≡ clamp_u64 rate
unfolding flat_rate
flat_rate-eq rate dt h = ground arith

moved_rate-eq :
    (low high rate exp_rate : ℕ) {r i : ℕ}
    → moved_rate low high rate exp_rate ≡ ok (r, i)
    → r ≡ clamp_u64 rate
unfolding moved_rate
moved_rate-eq low high rate exp_rate h = ground arith

split_rate-eq :
    (low high bound exp_rate dt : ℕ) {r i : ℕ}
    → split_rate low high bound exp_rate dt ≡ ok (r, i)
    → r ≡ clamp_u64 bound
unfolding split_rate
split_rate-eq low high bound exp_rate dt h = ground arith

-- Growth by the reciprocal of a factor of at most one.
grown_lem : (last gd : ℕ) → last < u64 → gd ≤ nad → last ≤ saturating_mul u128 last nad / max gd 1
grown_lem last gd fits le =
    let factor : max gd 1 ≤ nad = omega arith in
    let below = mul-le-mul_left last factor in
    le_of_mul last (max gd 1) (saturating_mul u128 last nad) (omega arith) (omega arith)

shrunk_lem : (last gd : ℕ) → gd ≤ nad → saturating_mul u128 last gd / nad ≤ last
shrunk_lem last gd le =
    let below = mul-le-mul_left last le in
    div-le_of_le-mul nad {m = saturating_mul u128 last gd} {n = last} (omega arith)

-- The rate above the band: the cap, where it is exceeded, and else the grown rate.
rate_up-eq :
    (m : RateModel) (last gd dt : ℕ) {r i : ℕ}
    → rate_up m last gd dt ≡ ok (r, i)
    → let curr = saturating_mul u128 last nad / max gd 1 in
      ((0 < m.max_rate) × (m.max_rate < curr) × (r ≡ clamp_u64 m.max_rate))
      ⊎ ((0 < m.max_rate → curr ≤ m.max_rate) × (r ≡ clamp_u64 curr))
unfolding rate_up flat_rate moved_rate split_rate
rate_up-eq m last gd dt {r} {i} h =
    let curr = saturating_mul u128 last nad / max gd 1 in
    elim (Bool-cases (ltb 0 m.max_rate && ltb m.max_rate curr)) [
      | inr free ↦
          let e : r ≡ clamp_u64 curr =
            moved_rate-eq last curr curr m.exp_rate {i = i} (ground arith) in
          inr (λ capped. ground arith, e)
      | inl capped ↦ elim (Bool-cases (leb m.max_rate last)) [
        | inl over ↦ inl (ground arith)
        | inr under ↦
            let e : r ≡ clamp_u64 m.max_rate =
              split_rate-eq last m.max_rate m.max_rate m.exp_rate dt {i = i} (ground arith) in
            inl (ground arith)
      ]
    ]

-- The rate below the band: the shrunk rate, or the floor.
rate_down-eq :
    (m : RateModel) (last gd dt : ℕ) {r i : ℕ}
    → rate_down m last gd dt ≡ ok (r, i)
    → let curr = saturating_mul u128 last gd / nad in
      ((m.min_rate ≤ curr) × (r ≡ clamp_u64 curr))
      ⊎ ((curr < m.min_rate) × (r ≡ clamp_u64 m.min_rate))
unfolding rate_down flat_rate moved_rate split_rate
rate_down-eq m last gd dt {r} {i} h =
    let curr = saturating_mul u128 last gd / nad in
    elim (Bool-cases (leb m.min_rate curr)) [
      | inl above ↦
          let e : r ≡ clamp_u64 curr =
            moved_rate-eq curr last curr m.exp_rate {i = i} (ground arith) in
          inl (ground arith)
      | inr below ↦ elim (Bool-cases (leb last m.min_rate)) [
        | inl floor ↦ inr (ground arith)
        | inr high ↦
            let e : r ≡ clamp_u64 m.min_rate =
              split_rate-eq m.min_rate last m.min_rate m.exp_rate dt {i = i} (ground arith) in
            inr (ground arith)
      ]
    ]

-- What `calculate_rate` promises of a new rate, `last` being the old one, raised to the floor.
abbrev pub IsRate : RateModel → ℕ → ℕ → ℕ → Type 0
IsRate m last util r =
    (m.min_rate ≤ r)
    × (0 < m.max_rate → last ≤ m.max_rate → r ≤ m.max_rate)
    × (m.target_util_end < util → (0 < m.max_rate → last ≤ m.max_rate) → last ≤ r)
    × (util ≤ m.target_util_end → r ≤ last)

-- After some time, the new rate is at least the floor, and at most the cap if there is one and
-- the old rate, raised to the floor, was; it is not lower than the old one while the utilisation
-- is above the band and the old rate is not above a cap, and not higher while the utilisation is
-- not above the band. The rates and the exponent fit their words, and the cap is not below the
-- floor.
pub calculate_rate-IsRate :
    (m : RateModel) (last_rate dt util : ℕ) {r i : ℕ}
    → last_rate < u64
    → m.min_rate < u64
    → m.max_rate < u64
    → (0 < m.max_rate → m.min_rate ≤ m.max_rate)
    → 0 < dt
    → m.exp_rate * dt < 2 ^ 63
    → calculate_rate m last_rate dt util ≡ ok (r, i)
    → IsRate m (max last_rate m.min_rate) util r
unfolding calculate_rate flat_rate
calculate_rate-IsRate m last_rate dt util {r} {i} fits fits_min fits_max order later exponent h =
    let last = max last_rate m.min_rate in
    let (gd, e, le) = decay_bounds (saturating_mul u128 m.exp_rate dt) (omega arith) in
    let grown : last ≤ saturating_mul u128 last nad / max gd 1 =
      grown_lem last gd (omega arith) le in
    let shrunk : saturating_mul u128 last gd / nad ≤ last = shrunk_lem last gd le in
    elim (Bool-cases (ltb m.target_util_end util)) [
      | inl over ↦ elim (rate_up-eq m last gd dt {r = r} {i = i} (ground arith)) [
        | inl (cap, above, e_r) ↦
            (ground arith, λ c a. ground arith, λ u c. ground arith, λ u. ground arith)
        | inr (free, e_r) ↦
            (ground arith, λ c a. ground arith, λ u c. ground arith, λ u. ground arith)
      ]
      | inr not_over ↦ elim (Bool-cases (ltb util m.target_util_start)) [
        | inl under ↦ elim (rate_down-eq m last gd dt {r = r} {i = i} (ground arith)) [
          | inl (above, e_r) ↦
              (ground arith, λ c a. ground arith, λ u c. ground arith, λ u. ground arith)
          | inr (floor, e_r) ↦
              (ground arith, λ c a. ground arith, λ u c. ground arith, λ u. ground arith)
        ]
        | inr inside ↦ (ground arith, λ c a. ground arith, λ u c. ground arith, λ u. ground arith)
      ]
    ]
