-- ===== src/Base/Decimal.antt =====
-- Rust's `u64::from_str` and `str::split` on a one-byte character, over the bytes of a string.
use Prim.Native.Nat.{ℕ, zero, suc, ◌+◌, ◌-◌, ◌*◌, ◌/◌, ◌%◌, ◌^◌, ◌≤◌, ◌<◌}
use mathlib.Core.Path.{◌≡◌, refl, sym, ap, ◌∙◌}
use mathlib.Core.Logic.{inl, inr, ◌≢◌}
use mathlib.Core.Bool.{true, false}
use mathlib.Core.Option.{Option, none, some}
use mathlib.Core.List.{List, [], ◌∷◌, ◌++◌}
use native.Mathlib.Omega.{arith}
use texo.Base.Tests.{ltb, leb, ◌==◌, ==_iff, if◌then◌else◌, Bool-cases}
use texo.Base.Lists.{All}
use texo.Base.Text.{Text, decimal, decimal_from, is_ascii_digit}

-- The largest `u64`.
abbrev pub largest_u64 : ℕ
largest_u64 = 2 ^ 64 - 1

-- The loop over the digits; a digit that does not fit is an error, as `checked_mul` and
-- `checked_add` find it.
unfoldable pub parse_digits : Text → ℕ → Option ℕ
parse_digits [] value = some value
parse_digits (c ∷ s) value =
    let next = value * 10 + (c - 48) in
    let rest = parse_digits s next in
    if is_ascii_digit c then (if leb next largest_u64 then rest else none) else none

abbrev pub parse_number : Text → Option ℕ
parse_number [] = none
parse_number (c ∷ s) = parse_digits (c ∷ s) 0

-- One plus sign may stand before the digits.
abbrev pub strip_plus : Text → Text
strip_plus [] = []
strip_plus (c ∷ s) = if c == 43 then s else c ∷ s

unfoldable pub parse_u64 : Text → Option ℕ
unfolding parse_digits
parse_u64 s = parse_number (strip_plus s)

abbrev pub IsDigit : ℕ → Type 0
IsDigit c = is_ascii_digit c ≡ true

digit_of : (n : ℕ) → is_ascii_digit (48 + n % 10) ≡ true
unfolding is_ascii_digit
digit_of n = ground arith

parse_step :
    (n value : ℕ) (acc : Text)
    → value * 10 + n % 10 ≤ largest_u64
    → parse_digits ((48 + n % 10) ∷ acc) value ≡ parse_digits acc (value * 10 + n % 10)
unfolding parse_digits
parse_step n value acc h =
    let same_digit : 48 + n % 10 - 48 ≡ n % 10 = omega arith in
    rw (same_digit, digit_of n) (ground arith)

parse-decimal_from :
    (fuel n : ℕ) (acc : Text)
    → n < fuel
    → n ≤ largest_u64
    → parse_digits (decimal_from fuel n acc) 0 ≡ parse_digits acc n
unfolding decimal_from
parse-decimal_from zero n acc h k = absurd (omega arith)
parse-decimal_from (suc fuel) n acc h k = elim (Bool-cases (ltb n 10)) [
  | inl small ↦
      let whole : 0 * 10 + n % 10 ≡ n = ground arith in
      rw small (parse_step n 0 acc (omega arith) ∙ ap (parse_digits acc) whole)
  | inr large ↦
      let big : 10 ≤ n = ground arith in
      let whole : n / 10 * 10 + n % 10 ≡ n = omega arith in
      rw large (
        parse-decimal_from fuel (n / 10) ((48 + n % 10) ∷ acc) (omega arith) (omega arith)
        ∙ parse_step n (n / 10) acc (omega arith)
        ∙ ap (parse_digits acc) whole)
]

decimal_from-IsDigit :
    (fuel n : ℕ) (acc : Text)
    → All IsDigit acc
    → n < fuel
    → All IsDigit (decimal_from fuel n acc) × (decimal_from fuel n acc ≢ [])
unfolding decimal_from
decimal_from-IsDigit zero n acc a h = absurd (omega arith)
decimal_from-IsDigit (suc fuel) n acc a h = elim (Bool-cases (ltb n 10)) [
  | inl small ↦ rw small ((digit_of n, a), λ e. cc)
  | inr large ↦
      let big : 10 ≤ n = ground arith in
      rw large
        (decimal_from-IsDigit fuel (n / 10) ((48 + n % 10) ∷ acc) (digit_of n, a) (omega arith))
]

pub decimal-IsDigit : (n : ℕ) → All IsDigit (decimal n) × (decimal n ≢ [])
unfolding decimal
decimal-IsDigit n = decimal_from-IsDigit (suc n) n [] tt (omega arith)

plus-not_digit : (c : ℕ) → (c == 43) ≡ true → IsDigit c → ⊥
unfolding is_ascii_digit
plus-not_digit c e d = ground arith

-- A list of digits has no sign to strip.
parse_u64-digits : (s : Text) → All IsDigit s → s ≢ [] → parse_u64 s ≡ parse_digits s 0
unfolding parse_u64
parse_u64-digits [] a h = absurd (h refl)
parse_u64-digits (c ∷ s) a h = elim (Bool-cases (c == 43)) [
  | inl plus ↦ absurd (plus-not_digit c plus a.0)
  | inr other ↦ rw other refl
]

-- A number that is printed is read back.
pub parse-decimal : (n : ℕ) → n ≤ largest_u64 → parse_u64 (decimal n) ≡ some n
unfolding decimal parse_digits
parse-decimal n h =
    let digits = decimal-IsDigit n in
    parse_u64-digits (decimal n) digits.0 digits.1 ∙ parse-decimal_from (suc n) n [] (omega arith) h

-- A number that is read fits.
parse_digits-fits :
    (s : Text) (value n : ℕ) → value ≤ largest_u64 → parse_digits s value ≡ some n → n ≤ largest_u64
unfolding parse_digits
parse_digits-fits [] value n h e = ground arith
parse_digits-fits (c ∷ s) value n h e = elim (Bool-cases (is_ascii_digit c)) [
  | inr other ↦ ground arith
  | inl digit ↦ elim (Bool-cases (leb (value * 10 + (c - 48)) largest_u64)) [
    | inr large ↦ ground arith
    | inl small ↦ parse_digits-fits s (value * 10 + (c - 48)) n (ground arith) (ground arith)
  ]
]

-- `str::split` on a character.
abbrev pub into_first : ℕ → List Text → List Text
into_first c [] = []
into_first c (field ∷ fields) = (c ∷ field) ∷ fields

unfoldable pub split : ℕ → Text → List Text
split sep [] = [] ∷ []
split sep (c ∷ s) = let rest = split sep s in if c == sep then [] ∷ rest else into_first c rest

-- The fields with the separator between them.
abbrev pub join_fields : ℕ → List Text → Text
join_fields sep [] = []
join_fields sep (field ∷ []) = field
join_fields sep (field ∷ next ∷ fields) = field ++ (sep ∷ join_fields sep (next ∷ fields))

abbrev pub IsField : ℕ → Text → Type 0
IsField sep field = All (λ c. (c == sep) ≡ false) field

join_into :
    (sep c : ℕ) (fields : List Text)
    → fields ≢ []
    → join_fields sep (into_first c fields) ≡ c ∷ join_fields sep fields
join_into sep c [] h = absurd (h refl)
join_into sep c (field ∷ []) h = refl
join_into sep c (field ∷ next ∷ fields) h = refl

into_some : (c : ℕ) (fields : List Text) → fields ≢ [] → into_first c fields ≢ []
into_some c [] h e = h e
into_some c (field ∷ fields) h e = cc

split_some : (sep : ℕ) (s : Text) → split sep s ≢ []
unfolding split
split_some sep [] e = cc
split_some sep (c ∷ s) e = elim (Bool-cases (c == sep)) [
  | inl here ↦ ground arith
  | inr other ↦ into_some c (split sep s) (split_some sep s) (ground arith)
]

join_after :
    (sep : ℕ) (fields : List Text)
    → fields ≢ []
    → join_fields sep ([] ∷ fields) ≡ sep ∷ join_fields sep fields
join_after sep [] h = absurd (h refl)
join_after sep (field ∷ fields) h = refl

pub join-split : (sep : ℕ) (s : Text) → join_fields sep (split sep s) ≡ s
unfolding split
join-split sep [] = refl
join-split sep (c ∷ s) = elim (Bool-cases (c == sep)) [
  | inl here ↦
      let e : c ≡ sep = (==_iff c sep).0 here in
      rw here (
        join_after sep (split sep s) (split_some sep s)
        ∙ ap (λ (t : Text). sep ∷ t) (join-split sep s)
        ∙ ap (λ (b : ℕ). b ∷ s) (sym e))
  | inr other ↦ rw other (
      join_into sep c (split sep s) (split_some sep s)
      ∙ ap (λ (t : Text). c ∷ t) (join-split sep s))
]

pub split-field : (sep : ℕ) (field : Text) → IsField sep field → split sep field ≡ field ∷ []
unfolding split
split-field sep [] a = refl
split-field sep (c ∷ field) a = rw (a.0, split-field sep field a.1) refl

pub split-append :
    (sep : ℕ) (field s : Text)
    → IsField sep field
    → split sep (field ++ (sep ∷ s)) ≡ field ∷ split sep s
unfolding split
split-append sep [] s a = ground arith
split-append sep (c ∷ field) s a = rw (a.0, split-append sep field s a.1) refl

digit-IsApart :
    (sep c : ℕ) → is_ascii_digit sep ≡ false → is_ascii_digit c ≡ true → (c == sep) ≡ false
unfolding is_ascii_digit
digit-IsApart sep c h d = ground arith

parse_digits-IsField :
    (sep : ℕ) (s : Text) (value n : ℕ)
    → is_ascii_digit sep ≡ false
    → parse_digits s value ≡ some n
    → IsField sep s
unfolding parse_digits
parse_digits-IsField sep [] value n h e = tt
parse_digits-IsField sep (c ∷ s) value n h e = elim (Bool-cases (is_ascii_digit c)) [
  | inr other ↦ ground arith
  | inl digit ↦ elim (Bool-cases (leb (value * 10 + (c - 48)) largest_u64)) [
    | inr large ↦ ground arith
    | inl small ↦ (
      digit-IsApart sep c h digit,
      parse_digits-IsField sep s (value * 10 + (c - 48)) n h (ground arith),
    )
  ]
]

-- A text that is read as a number has no full stop, and the number fits.
parse_number_lem : (s : Text) (n : ℕ) → parse_number s ≡ some n → IsField 46 s × (n ≤ largest_u64)
unfolding is_ascii_digit
parse_number_lem [] n e = cc
parse_number_lem (c ∷ s) n e =
    (parse_digits-IsField 46 (c ∷ s) 0 n (refl) e, parse_digits-fits (c ∷ s) 0 n (omega arith) e)

pub parse_u64-IsField : (s : Text) (n : ℕ) → parse_u64 s ≡ some n → IsField 46 s × (n ≤ largest_u64)
unfolding parse_u64
parse_u64-IsField [] n e = cc
parse_u64-IsField (c ∷ s) n e = elim (Bool-cases (c == 43)) [
  | inl plus ↦
      let h = parse_number_lem s n (ground arith) in
      let apart : (c == 46) ≡ false = ground arith in ((apart, h.0), h.1)
  | inr other ↦ parse_number_lem (c ∷ s) n (ground arith)
]
