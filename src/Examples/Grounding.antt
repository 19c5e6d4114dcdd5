-- ===== src/Examples/Grounding.antt =====
-- A claim against the span that it was read from.
use texo.Base.{◌≤◌, ◌≡◌, ◌≢◌, ◌↔◌, refl, true, [], arith, length, All}
use texo.Base.Text.{
  bytes, compare_text, to_ascii_lowercase, is_ascii_uppercase, is_ascii_lowercase, is_ascii_digit,
  is_ascii_alphanumeric,
}
use texo.Base.Chars.{chars}
use texo.Base.Map.{insert}
use texo.Extract.Faithfulness.{
  Faithfulness, content_tokens, assess_faithfulness, assess_faithfulness_lem,
  default_grounding_threshold_ppm, IsIn,
}
use texo.Examples.Plans.{ascii}

abbrev assessed : Faithfulness
assessed =
    assess_faithfulness ascii (bytes "Bob owns it") (bytes "Now Bob owns it, all.")
      default_grounding_threshold_ppm

few : length (content_tokens ascii (bytes "Bob owns it")) ≡ 3
unfolding content_tokens insert chars compare_text to_ascii_lowercase is_ascii_uppercase
    is_ascii_lowercase is_ascii_digit is_ascii_alphanumeric
few = refl

assess_faithfulness_lem_example :
    (Faithfulness.recall_ppm assessed ≤ 1000000)
    × ((Faithfulness.recall_ppm assessed ≡ 1000000) ↔ (
        (content_tokens ascii (bytes "Bob owns it") ≢ [])
        × All
            (IsIn (content_tokens ascii (bytes "Now Bob owns it, all.")))
            (content_tokens ascii (bytes "Bob owns it"))))
    × ((Faithfulness.grounded assessed ≡ true) ↔ (
        (content_tokens ascii (bytes "Bob owns it") ≢ [])
        × (default_grounding_threshold_ppm ≤ Faithfulness.recall_ppm assessed)))
assess_faithfulness_lem_example =
    assess_faithfulness_lem ascii (bytes "Bob owns it") (bytes "Now Bob owns it, all.")
      default_grounding_threshold_ppm (omega (arith, few))
