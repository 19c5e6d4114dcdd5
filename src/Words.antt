-- ===== src/Words.antt =====
-- src/extract/word_match.rs, src/extract/normalize.rs and src/lexicon.rs: matching of whole words
-- and phrases.
pub mod Case
use texo.Base.{
  ℕ, zero, suc, ◌≡◌, refl, sym, ap, ap₂, ◌∙◌, Bool, true, false, List, [], ◌∷◌, ◌++◌, map, ◌&&◌,
  not, ltb, leb, ◌==◌, if◌then◌else◌, length, take, any, arith,
}
use texo.Base.Text.{
  Text, text_ord, text_eq, bytes, is_empty, is_ascii_alphanumeric, to_ascii_lowercase,
}
use texo.Base.Space.{trim, split_whitespace}

abbrev push_word : Text → List Text → List Text
push_word word words = if is_empty word then words else word ∷ words

words_from : Text → Text → List Text
words_from word [] = push_word word []
words_from word (c ∷ text) = elim (is_ascii_alphanumeric c) [
  | true ↦ words_from (word ++ (c ∷ [])) text
  | false ↦ push_word word (words_from [] text)
]

-- `words`: the maximal runs of ASCII letters and digits. A byte of another character is none.
unfoldable pub words : Text → List Text
unfolding words_from
words text = words_from [] text

-- `eq_ignore_ascii_case`.
abbrev pub eq_ignore_ascii_case : Text → Text → Bool
eq_ignore_ascii_case a b = text_eq (map to_ascii_lowercase a) (map to_ascii_lowercase b)

unfoldable pub contains_word : Text → Text → Bool
contains_word text needle =
    let wanted = trim needle in
    if is_empty wanted then false else any (λ word. eq_ignore_ascii_case word wanted) (words text)

-- `windows(n)`: the runs of `n` neighbours.
abbrev pub windows : ℕ → List Text → List (List Text)
windows n [] = []
windows n (w ∷ ws) =
    let rest = windows n ws in if leb n (length (w ∷ ws)) then take n (w ∷ ws) ∷ rest else rest

-- `window.iter().zip(wanted).all(…)`.
abbrev pub run_matches : List Text → List Text → Bool
run_matches [] wanted = true
run_matches (w ∷ window) [] = true
run_matches (w ∷ window) (x ∷ wanted) = eq_ignore_ascii_case w x && run_matches window wanted

-- `contains_phrase`, behind `split_whitespace`.
unfoldable pub contains_run : Text → List Text → Bool
unfolding contains_word
contains_run text [] = false
contains_run text (needle ∷ []) = contains_word text needle
contains_run text (x ∷ y ∷ needle) =
    let haystack = words text in
    let wanted = x ∷ y ∷ needle in
    if ltb (length haystack) (length wanted)
    then false
    else any (λ window. run_matches window wanted) (windows (length wanted) haystack)

unfoldable pub contains_phrase : Text → Text → Bool
unfolding contains_run
contains_phrase text phrase = contains_run text (split_whitespace phrase)

unfoldable pub contains_any : Text → List Text → Bool
contains_any text needles =
    let haystack = words text in
    any
      (λ needle.
        let wanted = split_whitespace needle in
        ltb 0 (length wanted)
        && any (λ window. run_matches window wanted) (windows (length wanted) haystack))
      needles

abbrev pub replacement_signals : List Text
replacement_signals =
    bytes "moved"
    ∷ bytes "changed"
    ∷ bytes "now"
    ∷ bytes "no longer"
    ∷ bytes "replaced"
    ∷ bytes "instead"
    ∷ bytes "new process"
    ∷ bytes "as of"
    ∷ bytes "decided"
    ∷ []

unfoldable pub contains_replacement_signal : Text → Bool
unfolding contains_phrase
contains_replacement_signal text = any (λ signal. contains_phrase text signal) replacement_signals

abbrev join_words : List Text → Text → Text
join_words [] out = out
join_words (word ∷ words) out =
    join_words words ((if is_empty out then out else out ++ (b' ' ∷ [])) ++ word)

unfoldable pub normalize_line : Text → Text
normalize_line line = join_words (split_whitespace (map to_ascii_lowercase (trim line))) []
