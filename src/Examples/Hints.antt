-- ===== src/Examples/Hints.antt =====
-- Lines of Markdown with what they hint at: the tests of src/extract/hints.rs and heuristics.rs.
use texo.Base.{◌≡◌, refl, true, false, some, ◌↔◌, ◌⊎◌, none}
use texo.Base.Text.{
  bytes, compare_text, to_ascii_lowercase, is_ascii_uppercase, is_ascii_lowercase, is_ascii_digit,
  is_ascii_alphanumeric, starts_with, Text, is_empty,
}
use texo.Base.Space.{trim, split_whitespace}
use texo.Words.{words, contains_word, contains_any, contains_phrase, normalize_line}
use texo.Extract.Heuristics.{is_claim_line}
use texo.Extract.Hints.Bounds.{IsHinted, hints_from_line_lem}
use texo.Extract.Hints.{
  ClaimHints, detect_confidence, detect_object, hints_from_line, default_confidence_ppm,
}

short_heading : is_claim_line (bytes "# OK") ≡ false
unfolding is_claim_line trim starts_with
short_heading = refl

policy_heading : is_claim_line (bytes "## Deploy process") ≡ true
unfolding is_claim_line trim starts_with to_ascii_lowercase is_ascii_uppercase
policy_heading = refl

bare_marker : is_claim_line (bytes "- ") ≡ false
unfolding is_claim_line trim starts_with
bare_marker = refl

friday_hints :
    hints_from_line (bytes "Deploys happen on Friday.")
    ≡ some (record {
      subject_hint = bytes "deploy-process";
      predicate_hint = bytes "unknown";
      object_hint = bytes "friday";
      confidence_ppm = 700000;
    })
unfolding hints_from_line normalize_line contains_word contains_any contains_phrase words trim
    split_whitespace starts_with to_ascii_lowercase is_ascii_uppercase is_ascii_lowercase
    is_ascii_digit is_ascii_alphanumeric compare_text
friday_hints = refl

owns_object :
    detect_object (bytes "billing owns the payments domain") (bytes "owns")
    ≡ bytes "the payments domain"
unfolding detect_object contains_word words trim to_ascii_lowercase is_ascii_uppercase
    is_ascii_lowercase is_ascii_digit is_ascii_alphanumeric compare_text
owns_object = refl

last_owns : detect_object (bytes "the team owns") (bytes "owns") ≡ bytes "the team owns"
unfolding detect_object contains_word words trim to_ascii_lowercase is_ascii_uppercase
    is_ascii_lowercase is_ascii_digit is_ascii_alphanumeric compare_text
last_owns = refl

undecided :
    detect_confidence (bytes "scheduling remains undecided") ≡ (default_confidence_ppm, false)
unfolding detect_confidence contains_word contains_phrase words trim split_whitespace
    to_ascii_lowercase is_ascii_uppercase is_ascii_lowercase is_ascii_digit is_ascii_alphanumeric
    compare_text
undecided = refl

abbrev deploys : Text
deploys = bytes "Deploys happen on Friday."

hints_from_line_lem_example :
    ((hints_from_line deploys ≡ none)
      ↔ ((is_claim_line deploys ≡ false) ⊎ (is_empty (normalize_line deploys) ≡ true)))
    × ((hints : ClaimHints) → hints_from_line deploys ≡ some hints → IsHinted hints)
hints_from_line_lem_example = hints_from_line_lem deploys
