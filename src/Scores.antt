-- ===== src/Scores.antt =====
-- src/semantics/score.rs: scores of a model as integer parts per million.
pub mod Nearest
use texo.Base.{
  ℕ, ◌+◌, ◌*◌, ◌-◌, ◌/◌, ◌^◌, Bool, true, false, ◌&&◌, ◌==◌, not, ltb, leb, if◌then◌else◌,
}
use Prim.Native.Nat.{min}

-- The fields of an IEEE 754 number of 32 bits, from `to_bits`: eight bits of exponent and
-- twenty-three of fraction.
pub record F32 : Type 0 where
  pub sign : Bool
  pub exponent : ℕ
  pub fraction : ℕ

abbrev pub ppm_scale : ℕ
ppm_scale = 1000000

abbrev pub is_nan : F32 → Bool
is_nan score = (F32.exponent score == 255) && not (F32.fraction score == 0)

abbrev pub is_zero : F32 → Bool
is_zero score = (F32.exponent score == 0) && (F32.fraction score == 0)

-- `score <= 0.0` of a number: a negative one or a zero.
abbrev pub at_most_zero : F32 → Bool
at_most_zero score = if F32.sign score then true else is_zero score

-- `score >= 1.0` of a number that is not negative.
abbrev pub at_least_one : F32 → Bool
at_least_one score = leb 127 (F32.exponent score)

abbrev pub saturate : ℕ → ℕ
saturate n = min n (2 ^ 64 - 1)

-- `bits & 0x7f_ffff | 1 << 23`: the fraction leaves the bit clear.
abbrev pub mantissa : F32 → ℕ
mantissa score = 2 ^ 23 + F32.fraction score

-- The division rounds half up. A shift by 64 bits or more is refused.
unfoldable pub scaled : F32 → ℕ → ℕ
scaled score shift =
    if ltb shift 64
    then min (saturate (saturate (mantissa score * ppm_scale) + 2 ^ shift / 2) / 2 ^ shift)
        ppm_scale
    else 0

-- The shift is `23 - (exponent - 127)`, refused where it is negative.
unfoldable pub unit_interval_to_ppm : F32 → ℕ
unfolding scaled
unit_interval_to_ppm score =
    if is_nan score
    then 0
    else if at_most_zero score
    then 0
    else if at_least_one score
    then ppm_scale
    else if F32.exponent score == 0
    then 0
    else if leb (F32.exponent score) 150
    then scaled score (150 - F32.exponent score)
    else 0
