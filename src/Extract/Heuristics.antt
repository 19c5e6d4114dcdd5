-- ===== src/Extract/Heuristics.antt =====
-- src/extract/heuristics.rs: which lines of a Markdown file may become claims.
use texo.Base.{
  ℕ, Bool, true, false, List, [], ◌∷◌, ◌&&◌, ◌||◌, ltb, leb, ◌==◌, map, any, if◌then◌else◌, length,
}
use texo.Base.Text.{Text, bytes, is_empty, to_ascii_lowercase, starts_with}
use texo.Base.Space.{trim}
use texo.Words.{contains_any}

-- `trim_start_matches` of one ASCII character.
abbrev pub trim_start_matches : Text → ℕ → Text
trim_start_matches [] ch = []
trim_start_matches (b ∷ text) ch =
    let rest = trim_start_matches text ch in if b == ch then rest else b ∷ text

-- `str::contains`.
abbrev pub contains : Text → Text → Bool
contains [] needle = is_empty needle
contains (b ∷ text) needle =
    let rest = contains text needle in if starts_with (b ∷ text) needle then true else rest

abbrev pub hash_mark : ℕ
hash_mark = 35

abbrev pub star : ℕ
star = 42

abbrev pub plus : ℕ
plus = 43

abbrev pub dash : ℕ
dash = 45

abbrev pub heading_needles : List Text
heading_needles =
    bytes "process"
    ∷ bytes "deploy"
    ∷ bytes "release"
    ∷ bytes "owner"
    ∷ bytes "approval"
    ∷ bytes "policy"
    ∷ bytes "decision"
    ∷ []

abbrev pub claim_signals : List Text
claim_signals =
    bytes "is"
    ∷ bytes "are"
    ∷ bytes "uses"
    ∷ bytes "use"
    ∷ bytes "must"
    ∷ bytes "should"
    ∷ bytes "owner"
    ∷ bytes "owns"
    ∷ bytes "process"
    ∷ bytes "decided"
    ∷ bytes "decision"
    ∷ bytes "moved"
    ∷ bytes "changed"
    ∷ bytes "replaced"
    ∷ bytes "no longer"
    ∷ bytes "deprecated"
    ∷ bytes "deploy"
    ∷ bytes "deploys"
    ∷ bytes "release"
    ∷ bytes "releases"
    ∷ bytes "approval"
    ∷ bytes "friday"
    ∷ bytes "tuesday"
    ∷ bytes "monday"
    ∷ bytes "wednesday"
    ∷ bytes "thursday"
    ∷ []

unfoldable pub has_claim_signal : Text → Bool
has_claim_signal line = contains_any line claim_signals

unfoldable pub is_list_marker_only : Text → Bool
is_list_marker_only line =
    is_empty
      (trim (trim_start_matches (trim_start_matches (trim_start_matches line dash) star) plus))

abbrev pub title_of : Text → Text
title_of trimmed = trim (trim_start_matches trimmed hash_mark)

-- A heading of the second level or deeper.
abbrev pub is_claim_heading : Text → Bool
is_claim_heading title =
    leb 4 (length title)
    && any (λ (needle : Text). contains (map to_ascii_lowercase title) needle) heading_needles

-- The tests behind the headings.
abbrev pub is_claim_text : Text → Text → Bool
is_claim_text line trimmed =
    if is_list_marker_only trimmed
    then false
    else if starts_with trimmed (bytes "Decision:") || starts_with trimmed (bytes "decision:")
    then true
    else if starts_with trimmed (bytes "- ") || starts_with trimmed (bytes "* ")
    then has_claim_signal (trim (trim_start_matches (trim_start_matches trimmed dash) star))
    else has_claim_signal line

unfoldable pub is_claim_line : Text → Bool
unfolding is_list_marker_only has_claim_signal
is_claim_line line =
    let trimmed = trim line in
    if is_empty trimmed
    then false
    else if starts_with trimmed (bytes "##")
    then is_claim_heading (title_of trimmed)
    else if starts_with trimmed (bytes "#") && ltb (length (title_of trimmed)) 4
    then false
    else is_claim_text line trimmed
