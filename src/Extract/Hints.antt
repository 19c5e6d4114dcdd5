-- ===== src/Extract/Hints.antt =====
-- src/extract/hints.rs: the subject, the predicate and the object that a line hints at.
pub mod Bounds
use texo.Base.{
  ℕ, Bool, true, false, Option, none, some, List, [], ◌∷◌, ◌++◌, ◌||◌, not, ltb, map, filter,
  if◌then◌else◌, length, take, ◌==◌, ◌≤◌, All, arith, inl, inr, Bool-cases,
}
use texo.Base.Text.{Text, bytes, is_empty, text_eq, to_ascii_lowercase, is_ascii_alphanumeric}
use texo.Base.Space.{trim, split_whitespace}
use texo.Words.{contains_word, contains_phrase, normalize_line}
use texo.Extract.Heuristics.{is_claim_line}

pub record ClaimHints : Type 0 where
  pub subject_hint : Text
  pub predicate_hint : Text
  pub object_hint : Text
  pub confidence_ppm : ℕ

abbrev pub default_confidence_ppm : ℕ
default_confidence_ppm = 500000

abbrev pub keywords : List (Text × ℕ)
keywords =
    (bytes "decided", 900000)
    ∷ (bytes "decision", 900000)
    ∷ (bytes "changed", 900000)
    ∷ (bytes "owner", 800000)
    ∷ (bytes "owns", 800000)
    ∷ (bytes "process", 800000)
    ∷ (bytes "approval", 800000)
    ∷ (bytes "is", 650000)
    ∷ (bytes "are", 650000)
    ∷ (bytes "uses", 650000)
    ∷ (bytes "use", 650000)
    ∷ (bytes "must", 650000)
    ∷ (bytes "should", 650000)
    ∷ (bytes "moved", 650000)
    ∷ (bytes "replaced", 650000)
    ∷ (bytes "no longer", 650000)
    ∷ (bytes "deprecated", 650000)
    ∷ (bytes "deploy", 650000)
    ∷ (bytes "release", 650000)
    ∷ (bytes "friday", 700000)
    ∷ (bytes "tuesday", 700000)
    ∷ (bytes "monday", 700000)
    ∷ (bytes "wednesday", 700000)
    ∷ (bytes "thursday", 700000)
    ∷ []

-- The first keyword that occurs decides.
abbrev pub first_keyword : Text → List (Text × ℕ) → ℕ × Bool
first_keyword lower [] = (default_confidence_ppm, false)
first_keyword lower ((needle, ppm) ∷ rest) =
    let later = first_keyword lower rest in
    if contains_phrase lower needle then (ppm, true) else later

unfoldable pub detect_confidence : Text → ℕ × Bool
detect_confidence lower = first_keyword lower keywords

unfoldable pub detect_predicate : Text → Text
detect_predicate lower =
    if contains_word lower (bytes "uses") || contains_word lower (bytes "use")
    then bytes "uses"
    else if contains_word lower (bytes "is")
    then bytes "is"
    else if contains_word lower (bytes "must")
    then bytes "must"
    else if contains_word lower (bytes "should")
    then bytes "should"
    else if contains_word lower (bytes "owns") || contains_word lower (bytes "owner")
    then bytes "owns"
    else if contains_word lower (bytes "changed")
        || (contains_word lower (bytes "moved") || contains_word lower (bytes "replaced"))
    then bytes "changed"
    else bytes "unknown"

-- `join("-")`.
abbrev pub join_dashes : List Text → Text
join_dashes [] = []
join_dashes (word ∷ []) = word
join_dashes (word ∷ next ∷ words) = word ++ (bytes "-" ++ join_dashes (next ∷ words))

-- `usize::clamp`.
abbrev clamp : ℕ → ℕ → ℕ → ℕ
clamp n low high = if ltb n low then low else if ltb high n then high else n

unfoldable pub slugify_words : Text → ℕ → ℕ → Text
slugify_words text low high =
    let words = take high (split_whitespace text) in
    join_dashes (
      filter (λ (word : Text). ltb 0 (length word))
        (map (filter is_ascii_alphanumeric) (take (clamp (length words) low high) words)))

unfoldable pub detect_subject : Text → Text → Text
unfolding slugify_words
detect_subject lower normalized =
    if contains_word lower (bytes "deploy") || contains_word lower (bytes "deploys")
    then bytes "deploy-process"
    else if contains_word lower (bytes "release") || contains_word lower (bytes "releases")
    then bytes "release-process"
    else if contains_word lower (bytes "owner") || contains_word lower (bytes "owns")
    then bytes "ownership"
    else if contains_word lower (bytes "approval")
    then bytes "approval-process"
    else slugify_words normalized 3 6

abbrev pub days : List Text
days = bytes "monday" ∷ bytes "tuesday" ∷ bytes "wednesday" ∷ bytes "thursday" ∷ bytes "friday" ∷ []

abbrev pub first_day : Text → List Text → Option Text
first_day normalized [] = none
first_day normalized (day ∷ rest) =
    let later = first_day normalized rest in
    if contains_word normalized day then some day else later

abbrev pub after_prefix : Text → Text → Option Text
after_prefix text [] = some text
after_prefix [] (p ∷ needle) = none
after_prefix (b ∷ text) (p ∷ needle) =
    let rest = after_prefix text needle in if b == p then rest else none

abbrev first_of : Option Text → Option Text → Option Text
first_of none later = later
first_of (some rest) later = some rest

-- What follows the first occurrence that `str::find` gives.
abbrev pub after_first : Text → Text → Option Text
after_first [] needle = after_prefix [] needle
after_first (b ∷ text) needle = first_of (after_prefix (b ∷ text) needle) (after_first text needle)

abbrev pub object_after : Text → Option Text → Text
object_after normalized none = normalized
object_after normalized (some after) =
    let rest = trim after in if is_empty rest then normalized else rest

abbrev pub object_of : Text → Text → Option Text → Text
object_of normalized predicate (some day) = day
object_of normalized predicate none =
    if text_eq predicate (bytes "unknown")
    then normalized
    else object_after normalized (after_first normalized predicate)

unfoldable pub detect_object : Text → Text → Text
detect_object normalized predicate = object_of normalized predicate (first_day normalized days)

abbrev pub hints_of : Text → Text → ClaimHints
hints_of line normalized =
    let lower = map to_ascii_lowercase line in
    let predicate = detect_predicate lower in
    record {
      subject_hint = detect_subject lower normalized;
      predicate_hint = predicate;
      object_hint = detect_object normalized predicate;
      confidence_ppm = (detect_confidence lower).0;
    }

unfoldable pub hints_from_line_normalized : Text → Text → Option ClaimHints
unfolding detect_confidence detect_predicate detect_subject detect_object is_claim_line
hints_from_line_normalized line normalized =
    if not (is_claim_line line)
    then none
    else if is_empty normalized
    then none
    else some (hints_of line normalized)

unfoldable pub hints_from_line : Text → Option ClaimHints
unfolding hints_from_line_normalized normalize_line
hints_from_line line = hints_from_line_normalized line (normalize_line line)
