-- ===== src/RateModel/Reduction.antt =====
-- Proofs: the range reduction of `ln_nad` (state/rate_model.rs).
use native.Mathlib.Nat.{pow-suc}
use omnipair_rs.Base.{
  ℕ, zero, suc, ◌*◌, ◌/◌, ◌^◌, ◌≤◌, ◌<◌, ◌≡◌, max, ap, ltb→lt, ltb→le, leb→le, inl, inr, ltb, leb,
  arith, Bool-cases,
}
use omnipair_rs.Word.{u64, u128, saturating_mul}
use omnipair_rs.Int.{ℤ, pos, ◌+ℤ◌, ◌-ℤ◌}
use omnipair_rs.Constants.{nad}
use omnipair_rs.RateModel.{scale_up, scale_down}

-- Doubling reaches half of NAD, and goes no further than NAD or the start.
scale_up_lem :
    (fuel z : ℕ) (k : ℤ)
    → z < u64
    → nad / 2 ≤ z * 2 ^ fuel
    → (nad / 2 ≤ (scale_up fuel z k).0) × ((scale_up fuel z k).0 ≤ max z nad)
unfolding scale_up
scale_up_lem zero z k fits enough = ground arith
scale_up_lem (suc fuel) z k fits enough = elim (Bool-cases (ltb z (nad / 2))) [
  | inl low ↦
      let doubled : saturating_mul u128 z 2 ≡ z * 2 = omega (arith, ltb→lt z (nad / 2) low) in
      let power = pow-suc 2 fuel in
      let still : nad / 2 ≤ z * 2 * 2 ^ fuel = omega (arith, ap (λ (n : ℕ). z * n) power) in
      let rest =
        scale_up_lem fuel (z * 2) (k -ℤ pos 1) (omega (arith, ltb→lt z (nad / 2) low)) still in
      rw (low, doubled) (rest.0, omega (arith, ltb→lt z (nad / 2) low))
  | inr high ↦ rw high (omega (arith, ltb→le z (nad / 2) high), omega arith)
]

-- Halving gets below twice NAD, and not below half of NAD.
scale_down_lem :
    (fuel z : ℕ) (k : ℤ)
    → nad / 2 ≤ z
    → z < nad * 2 * 2 ^ fuel
    → (nad / 2 ≤ (scale_down fuel z k).0) × ((scale_down fuel z k).0 < nad * 2)
unfolding scale_down
scale_down_lem zero z k above enough = ground arith
scale_down_lem (suc fuel) z k above enough = elim (Bool-cases (leb (nad * 2) z)) [
  | inl high ↦
      let power = pow-suc 2 fuel in
      let still : z / 2 < nad * 2 * 2 ^ fuel = omega (arith, power) in
      let rest =
        scale_down_lem fuel (z / 2) (k +ℤ pos 1) (omega (arith, leb→le (nad * 2) z high)) still in
      rw high rest
  | inr low ↦ rw low (ground arith)
]

-- The 64 rounds of each loop of `ln_nad` are enough: they bring every positive u64 to at least half of
-- NAD and below twice NAD, where the source's loops end.
pub reduced_lem :
    (x : ℕ)
    → 0 < x
    → x < u64
    → let up = scale_up 64 x (pos 0) in
      let down = scale_down 64 up.0 up.1 in (nad / 2 ≤ down.0) × (down.0 < nad * 2)
reduced_lem x positive fits =
    let up = scale_up 64 x (pos 0) in
    let (low, high) = scale_up_lem 64 x (pos 0) fits (omega arith) in
    scale_down_lem 64 up.0 up.1 low (omega arith)
