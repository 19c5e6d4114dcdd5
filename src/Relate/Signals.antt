-- ===== src/Relate/Signals.antt =====
-- src/relate/heuristic.rs: what signals a contradiction between two claims on a subject.
use texo.Base.{
  ℕ, zero, suc, ◌≡◌, ◌-◌, Bool, true, false, Option, none, some, List, [], ◌∷◌, ◌++◌, ◌&&◌, not,
  ltb, if◌then◌else◌, length, any, unwrap_or, arith, refl, ap,
}
use texo.Base.Text.{Text, text_ord, text_eq, bytes, is_empty, starts_with}
use texo.Base.Order.{same_comm}
use texo.Claims.Card.{ClaimCard}
use texo.Words.{contains_word, contains_replacement_signal}

abbrev contradiction_subjects : List Text
contradiction_subjects =
    bytes "deploy-process"
    ∷ bytes "release-process"
    ∷ bytes "approval-process"
    ∷ bytes "ownership"
    ∷ []

abbrev schedule_days : List Text
schedule_days =
    bytes "monday" ∷ bytes "tuesday" ∷ bytes "wednesday" ∷ bytes "thursday" ∷ bytes "friday" ∷ []

-- `str::replace`, from left to right; `skip` bytes of a match are still open.
unfoldable pub replace_from : ℕ → Text → Text → Text → Text
replace_from skip from to [] = []
replace_from (suc skip) from to (c ∷ s) = replace_from skip from to s
replace_from zero from to (c ∷ s) = elim (starts_with (c ∷ s) from) [
  | true ↦ to ++ replace_from (length from - 1) from to s
  | false ↦ c ∷ replace_from zero from to s
]

unfoldable pub strip_not : Text → Text
unfolding replace_from
strip_not s = replace_from zero (bytes "not ") [] (replace_from zero (bytes " not ") (bytes " ") s)

unfoldable pub negation_mismatch : ClaimCard → ClaimCard → Bool
negation_mismatch a b = elim (contains_word a.normalized_text (bytes "not")) [
  | true ↦ elim (contains_word b.normalized_text (bytes "not")) [
    | true ↦ false
    | false ↦ text_eq (strip_not a.normalized_text) (strip_not b.normalized_text)
  ]
  | false ↦ elim (contains_word b.normalized_text (bytes "not")) [
    | true ↦ text_eq (strip_not a.normalized_text) (strip_not b.normalized_text)
    | false ↦ false
  ]
]

-- `iter().find`.
abbrev find_day : Text → List Text → Option Text
find_day object [] = none
find_day object (day ∷ days) = elim (contains_word object day) [
  | true ↦ some day
  | false ↦ find_day object days
]

abbrev days_differ : Option Text → Option Text → Bool
days_differ (some left) (some right) = not (text_eq left right)
days_differ _ _ = false

unfoldable pub schedule_object_clash : Text → Text → Text → Bool
schedule_object_clash a_object b_object subject =
    if not (text_eq subject (bytes "deploy-process"))
      && not (text_eq subject (bytes "release-process"))
    then false
    else days_differ (find_day a_object schedule_days) (find_day b_object schedule_days)

-- `abs_diff`.
abbrev pub abs_diff : ℕ → ℕ → ℕ
abs_diff a b = if ltb a b then b - a else a - b

unfoldable pub confidence_gap : ClaimCard → ClaimCard → Bool
confidence_gap a b =
    ltb 250000 (abs_diff a.confidence_ppm b.confidence_ppm)
    && not (text_eq a.normalized_text b.normalized_text)

abbrev replaces : ClaimCard → Bool
replaces a =
    if contains_replacement_signal a.text
    then true
    else contains_replacement_signal a.normalized_text

abbrev hint : Option Text → Text
hint h = unwrap_or h []

-- The tests on the hints, behind the tests on the texts.
abbrev objects_signal : ClaimCard → ClaimCard → Text → Bool
objects_signal a b subject =
    let a_object = hint a.object_hint in
    let b_object = hint b.object_hint in
    if text_eq (hint a.predicate_hint) (bytes "owns")
      && (text_eq (hint b.predicate_hint) (bytes "owns") && not (text_eq a_object b_object))
    then true
    else if schedule_object_clash a_object b_object subject
    then true
    else if confidence_gap a b
    then true
    else any (λ s. text_eq s subject) contradiction_subjects
      && (not (text_eq a_object b_object) && (not (is_empty a_object) && not (is_empty b_object)))

abbrev predicates_signal : Text → Text → Bool
predicates_signal a_predicate b_predicate =
    not (text_eq a_predicate b_predicate)
    && (if text_eq a_predicate (bytes "changed")
        then true
        else text_eq b_predicate (bytes "changed"))

unfoldable pub has_contradiction_signal : ClaimCard → ClaimCard → Text → Bool
unfolding schedule_object_clash confidence_gap negation_mismatch
has_contradiction_signal a b subject =
    if replaces a
    then true
    else if replaces b
    then true
    else if negation_mismatch a b
    then true
    else if predicates_signal (hint a.predicate_hint) (hint b.predicate_hint)
    then true
    else objects_signal a b subject

text_eq_comm : (a b : Text) → text_eq a b ≡ text_eq b a
text_eq_comm a b = same_comm a b

negation_mismatch_comm : (a b : ClaimCard) → negation_mismatch a b ≡ negation_mismatch b a
unfolding negation_mismatch
negation_mismatch_comm a b =
    ground (arith, text_eq_comm (strip_not a.normalized_text) (strip_not b.normalized_text))

confidence_gap_comm : (a b : ClaimCard) → confidence_gap a b ≡ confidence_gap b a
unfolding confidence_gap
confidence_gap_comm a b = ground (arith, text_eq_comm a.normalized_text b.normalized_text)

days_differ_comm : (x y : Option Text) → days_differ x y ≡ days_differ y x
days_differ_comm none none = refl
days_differ_comm none (some y) = refl
days_differ_comm (some x) none = refl
days_differ_comm (some x) (some y) = ap not (text_eq_comm x y)

schedule_object_clash_comm :
    (x y subject : Text) → schedule_object_clash x y subject ≡ schedule_object_clash y x subject
unfolding schedule_object_clash
schedule_object_clash_comm x y subject =
    ground (arith, days_differ_comm (find_day x schedule_days) (find_day y schedule_days))

predicates_signal_comm : (x y : Text) → predicates_signal x y ≡ predicates_signal y x
predicates_signal_comm x y = ground (arith, text_eq_comm x y)

objects_signal_comm :
    (a b : ClaimCard) (subject : Text) → objects_signal a b subject ≡ objects_signal b a subject
objects_signal_comm a b subject = ground (
  arith,
  text_eq_comm (hint a.object_hint) (hint b.object_hint),
  confidence_gap_comm a b,
  schedule_object_clash_comm (hint a.object_hint) (hint b.object_hint) subject,
)

-- A contradiction between two claims does not depend on which of them stands first.
pub has_contradiction_signal_comm :
    (a b : ClaimCard) (subject : Text)
    → has_contradiction_signal a b subject ≡ has_contradiction_signal b a subject
unfolding has_contradiction_signal
has_contradiction_signal_comm a b subject = ground (
  arith,
  negation_mismatch_comm a b,
  predicates_signal_comm (hint a.predicate_hint) (hint b.predicate_hint),
  objects_signal_comm a b subject,
)
