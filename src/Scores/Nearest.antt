-- ===== src/Scores/Nearest.antt =====
-- The conversion of a score takes the nearest integer.
use mathlib.Core.Logic.{◌⊎◌, inl, inr}
use texo.Base.{lt→ltb, ℕ, ◌≡◌, ◌+◌, ◌*◌, ◌-◌, ◌/◌, ◌^◌, ◌≤◌, ◌<◌, false, arith}
use Prim.Native.Nat.{min}
use native.Mathlib.Nat.{pow-le-pow_right, div-mul-le_self, lt-div-mul-add, div-lt_iff_lt-mul}
use texo.Scores.{F32, ppm_scale, mantissa, saturate, scaled, unit_interval_to_ppm}

-- `q` is a nearest integer to `n / d`: they are at most half of one apart.
abbrev pub IsNearest : ℕ → ℕ → ℕ → Type 0
IsNearest q n d = (2 * (q * d) ≤ 2 * n + d) × (2 * n ≤ 2 * (q * d) + d)

half_apart :
    (n d m : ℕ) → m ≤ n + d / 2 → n + d / 2 < m + d → (2 * m ≤ 2 * n + d) × (2 * n ≤ 2 * m + d)
half_apart n d m h k = (omega arith, omega arith)

div-IsNearest : (n d : ℕ) → 0 < d → IsNearest ((n + d / 2) / d) n d
div-IsNearest n d h =
    half_apart n d ((n + d / 2) / d * d) (div-mul-le_self (n + d / 2) d) (lt-div-mul-add h)

quotient_bounded : (n d : ℕ) → 0 < d → n ≤ 1000000 * d → (n + d / 2) / d ≤ 1000000
quotient_bounded n d h k = below_next ((div-lt_iff_lt-mul {y = 1000001} h).1 (omega arith))
  where
    below_next : (n + d / 2) / d < 1000001 → (n + d / 2) / d ≤ 1000000
    below_next l = omega arith

large_power : (s : ℕ) → 24 ≤ s → 2 ^ 24 ≤ 2 ^ s
large_power s h = pow-le-pow_right (omega arith) h

huge_power : (s : ℕ) → 64 ≤ s → 2 ^ 64 ≤ 2 ^ s
huge_power s h = pow-le-pow_right (omega arith) h

power_bounded : (s : ℕ) → s < 64 → 2 ^ s ≤ 2 ^ 63
power_bounded s h = pow-le-pow_right (omega arith) {j = 63} (omega arith)

saturate_small : (n : ℕ) → n ≤ 18446744073709551615 → saturate n ≡ n
saturate_small n h = omega arith

within_scale : (n : ℕ) → n ≤ 1000000 → min n 1000000 ≡ n
within_scale n h = omega arith

scaled_division :
    (n d : ℕ)
    → n ≤ 16777216000000
    → 16777216 ≤ d
    → d ≤ 9223372036854775808
    → min (saturate (saturate n + d / 2) / d) 1000000 ≡ (n + d / 2) / d
scaled_division n d h k l =
    rw (saturate_small n (omega arith), saturate_small (n + d / 2) (omega arith))
      (within_scale ((n + d / 2) / d) (quotient_bounded n d (omega arith) (omega arith)))

-- Nothing saturates.
scaled_eq :
    (score : F32) (s : ℕ)
    → F32.fraction score < 2 ^ 23
    → 24 ≤ s
    → s < 64
    → scaled score s ≡ (mantissa score * ppm_scale + 2 ^ s / 2) / 2 ^ s
unfolding scaled
scaled_eq score s f h k = rw (lt→ltb s 64 k) (
    scaled_division (mantissa score * ppm_scale) (2 ^ s) (omega arith) (large_power s h)
      (power_bounded s k))

split_at : (s : ℕ) → (64 ≤ s) ⊎ (s < 64)
split_at s = ground arith

refused-IsNearest : (n d : ℕ) → n ≤ 16777216000000 → 18446744073709551616 ≤ d → IsNearest 0 n d
refused-IsNearest n d h k = (omega arith, omega arith)

scaled_refused : (score : F32) (s : ℕ) → 64 ≤ s → scaled score s ≡ 0
unfolding scaled
scaled_refused score s h = ground arith

scaled-IsNearest :
    (score : F32) (s : ℕ)
    → F32.fraction score < 2 ^ 23
    → 24 ≤ s
    → IsNearest (scaled score s) (mantissa score * ppm_scale) (2 ^ s)
scaled-IsNearest score s f h = elim (split_at s) [
  | inl k ↦
      rw (scaled_refused score s k)
        (refused-IsNearest (mantissa score * ppm_scale) (2 ^ s) (omega arith) (huge_power s k))
  | inr k ↦
      rw (scaled_eq score s f h k)
        (div-IsNearest (mantissa score * ppm_scale) (2 ^ s) (positive (large_power s h)))
]
  where
    positive : 2 ^ 24 ≤ 2 ^ s → 0 < 2 ^ s
    positive l = omega arith

unit_interval_to_ppm_eq :
    (score : F32)
    → F32.sign score ≡ false
    → 1 ≤ F32.exponent score
    → F32.exponent score < 127
    → unit_interval_to_ppm score ≡ scaled score (150 - F32.exponent score)
unfolding unit_interval_to_ppm
unit_interval_to_ppm_eq score h k l = ground arith

-- The parts per million of a normal number strictly between zero and one are a nearest integer to
-- a million times the number, which is its mantissa with the leading bit over two to the power of
-- the shift: the two are at most half of one apart.
pub unit_interval_to_ppm-IsNearest :
    (score : F32)
    → F32.sign score ≡ false
    → 1 ≤ F32.exponent score
    → F32.exponent score < 127
    → F32.fraction score < 2 ^ 23
    → IsNearest
        (unit_interval_to_ppm score)
        (mantissa score * ppm_scale)
        (2 ^ (150 - F32.exponent score))
unit_interval_to_ppm-IsNearest score h k l f =
    rw (unit_interval_to_ppm_eq score h k l)
      (scaled-IsNearest score (150 - F32.exponent score) f (omega arith))
