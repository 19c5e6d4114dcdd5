-- ===== src/Extract/Faithfulness.antt =====
-- src/extract/faithfulness.rs: a proposed claim must be grounded in the words of its source.
use texo.Base.{
  ℕ, ◌+◌, ◌*◌, ◌/◌, ◌%◌, ◌^◌, ◌≤◌, ◌<◌, ◌≡◌, ◌↔◌, ◌≢◌, refl, Bool, true, false, Bool-cases, List,
  [], ◌∷◌, ◌++◌, if◌then◌else◌, ltb, leb, filter, fold, length, All, arith, inl, inr,
}
use native.Mathlib.Nat.{div-le_of_le-mul, le-div_iff_mul-le}
use texo.Base.Text.{Text, text_ord}
use texo.Base.Chars.{Unicode, chars}
use texo.Base.Map.{BTreeSet, insert, contains_key}

abbrev min_token_len : ℕ
min_token_len = 2

abbrev pub default_grounding_threshold_ppm : ℕ
default_grounding_threshold_ppm = 600000

pub record Faithfulness : Type 0 where
  pub grounded : Bool
  pub recall_ppm : ℕ

module _ (u : Unicode) where
  open u use {is_alphanumeric, text_lowercase}

  -- The maximal runs of letters and digits, each as its characters; empty ones are among them.
  abbrev pub runs : List Text → List Text → List (List Text)
  runs run [] = run ∷ []
  runs run (ch ∷ cs) = elim (is_alphanumeric ch) [
    | true ↦ runs (run ++ (ch ∷ [])) cs
    | false ↦ run ∷ runs [] cs
  ]

  abbrev pub text_of : List Text → Text
  text_of [] = []
  text_of (ch ∷ run) = ch ++ text_of run

  abbrev pub add_run : BTreeSet Text → List Text → BTreeSet Text
  add_run set run = insert set (text_lowercase (text_of run)) tt

  unfoldable pub content_tokens : Text → BTreeSet Text
  content_tokens text =
      fold add_run []
        (filter (λ (run : List Text). leb min_token_len (length run)) (runs [] (chars text)))

-- How many of the tokens the source has.
abbrev pub present : BTreeSet Text → BTreeSet Text → ℕ
present [] source = 0
present ((token, done) ∷ claim) source =
    (if contains_key source token then 1 else 0) + present claim source

-- `u32::try_from(n).unwrap_or(1_000_000)`.
abbrev to_u32 : ℕ → ℕ
to_u32 n = if ltb n (2 ^ 32) then n else 1000000

-- The product wraps around at 64 bits.
abbrev pub recall : ℕ → ℕ → ℕ
recall found total = to_u32 (found * 1000000 % 2 ^ 64 / total)

abbrev pub assess_tokens : BTreeSet Text → BTreeSet Text → ℕ → Faithfulness
assess_tokens [] source threshold_ppm = record { grounded = false; recall_ppm = 0 }
assess_tokens (token ∷ claim) source threshold_ppm =
    let recall_ppm = recall (present (token ∷ claim) source) (length (token ∷ claim)) in
    record { grounded = leb threshold_ppm recall_ppm; recall_ppm = recall_ppm }

unfoldable pub assess_faithfulness : Unicode → Text → Text → ℕ → Faithfulness
assess_faithfulness u claim_text source_text threshold_ppm =
    assess_tokens (content_tokens u claim_text) (content_tokens u source_text) threshold_ppm

abbrev pub IsIn : BTreeSet Text → Text × Unit {0} → Type 0
IsIn source (token, done) = contains_key source token ≡ true

present-le : (claim source : BTreeSet Text) → present claim source ≤ length claim
present-le [] source = omega arith
present-le ((token, done) ∷ claim) source = ground (arith, present-le claim source)

present_all :
    (claim source : BTreeSet Text) → (present claim source ≡ length claim) ↔ All (IsIn source) claim
present_all [] source = (λ e. tt, λ a. refl)
present_all ((token, done) ∷ claim) source = (
  λ e. elim (Bool-cases (contains_key source token)) [
    | inl inside ↦ (inside, (present_all claim source).0 (ground arith))
    | inr outside ↦ absurd (ground (arith, present-le claim source))
  ],
  λ a. ground (arith, a.0, (present_all claim source).1 a.1),
)

recall_quotient :
    (found total : ℕ)
    → found ≤ total
    → total * 1000000 < 2 ^ 64
    → recall found total ≡ found * 1000000 / total
recall_quotient found total h fits =
    let wrapped : found * 1000000 % 2 ^ 64 ≡ found * 1000000 = omega arith in
    let small : found * 1000000 / total ≤ 1000000 = div-le_of_le-mul total (omega arith) in
    rw wrapped (ground (arith, small))

recall-le :
    (found total : ℕ)
    → found ≤ total
    → 0 < total
    → total * 1000000 < 2 ^ 64
    → (recall found total ≤ 1000000) × ((recall found total ≡ 1000000) ↔ (found ≡ total))
recall-le found total h k fits =
    let small : found * 1000000 / total ≤ 1000000 = div-le_of_le-mul total (omega arith) in
    let whole = recall_quotient found total h fits in
    (
      omega (arith, whole, small),
      (
        λ e.
            let full : 1000000 * total ≤ found * 1000000 =
              (le-div_iff_mul-le k).0 (omega (arith, whole, e)) in
            omega (arith, full),
        λ e.
            let full : 1000000 ≤ found * 1000000 / total =
              (le-div_iff_mul-le k).1 (omega (arith, e)) in
            omega (arith, whole, small, full),
      ),
    )

assess_tokens_lem :
    (claim source : BTreeSet Text) (threshold_ppm : ℕ)
    → length claim * 1000000 < 2 ^ 64
    → let f = assess_tokens claim source threshold_ppm in
      (Faithfulness.recall_ppm f ≤ 1000000)
      × ((Faithfulness.recall_ppm f ≡ 1000000) ↔ ((claim ≢ []) × All (IsIn source) claim))
      × ((Faithfulness.grounded f ≡ true)
          ↔ ((claim ≢ []) × (threshold_ppm ≤ Faithfulness.recall_ppm f)))
assess_tokens_lem [] source threshold_ppm fits = (
  omega arith,
  (λ e. absurd (omega (arith, e)), λ a. absurd (a.0 refl)),
  (λ e. cc, λ a. absurd (a.0 refl)),
)
assess_tokens_lem (token ∷ claim) source threshold_ppm fits =
    let all : BTreeSet Text = token ∷ claim in
    let r =
      recall-le (present all source) (length all) (present-le all source) (omega arith) fits in
    (
      r.0,
      (
        λ e. (λ n. cc, (present_all all source).0 (r.1.0 e)),
        λ a. r.1.1 ((present_all all source).1 a.1),
      ),
      (λ e. (λ n. cc, ground (arith, e)), λ a. ground (arith, a.1)),
    )

-- For a claim of fewer than eighteen trillion tokens: its recall is at most a million, and is a
-- million exactly when the claim has a token and the source has all of them; and it is grounded
-- exactly when it has a token and its recall reaches the threshold.
pub assess_faithfulness_lem :
    (u : Unicode) (claim_text source_text : Text) (threshold_ppm : ℕ)
    → length (content_tokens u claim_text) * 1000000 < 2 ^ 64
    → let claim = content_tokens u claim_text in
      let f = assess_faithfulness u claim_text source_text threshold_ppm in
      (Faithfulness.recall_ppm f ≤ 1000000)
      × ((Faithfulness.recall_ppm f ≡ 1000000)
          ↔ ((claim ≢ []) × All (IsIn (content_tokens u source_text)) claim))
      × ((Faithfulness.grounded f ≡ true)
          ↔ ((claim ≢ []) × (threshold_ppm ≤ Faithfulness.recall_ppm f)))
unfolding assess_faithfulness
assess_faithfulness_lem u claim_text source_text threshold_ppm fits =
    assess_tokens_lem (content_tokens u claim_text) (content_tokens u source_text) threshold_ppm
      fits
