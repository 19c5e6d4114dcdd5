-- ===== src/Words/Case.antt =====
-- Matching does not see the case of the text.
use texo.Base.{
  ℕ, zero, suc, ◌≡◌, refl, sym, ap, ap₂, ◌∙◌, Bool, true, false, List, [], ◌∷◌, ◌++◌, map, length,
  take, any, ltb, arith, if◌then◌else◌, ◌&&◌,
}
use texo.Base.Text.{
  Text, text_ord, text_eq, is_empty, is_ascii_alphanumeric, to_ascii_lowercase,
  to_ascii_lowercase_idem, is_ascii_alphanumeric-lower,
}
use texo.Base.Space.{trim, split_whitespace}
use texo.Words.{
  words, words_from, push_word, eq_ignore_ascii_case, contains_word, windows, run_matches,
  contains_run, contains_phrase, contains_replacement_signal, replacement_signals,
}

-- A text in lower case.
abbrev pub lower : Text → Text
lower s = map to_ascii_lowercase s

lower_idem : (s : Text) → lower (lower s) ≡ lower s
lower_idem [] = refl
lower_idem (c ∷ s) = ap₂ (λ d t. d ∷ t) (to_ascii_lowercase_idem c) (lower_idem s)

lower-append : (s t : Text) → lower (s ++ t) ≡ lower s ++ lower t
lower-append [] t = refl
lower-append (c ∷ s) t = ap (λ r. to_ascii_lowercase c ∷ r) (lower-append s t)

push_word-lower :
    (w : Text) (ws : List Text) → push_word (lower w) (map lower ws) ≡ map lower (push_word w ws)
push_word-lower [] ws = refl
push_word-lower (c ∷ w) ws = refl

words_from-lower :
    (word text : Text) → words_from (lower word) (lower text) ≡ map lower (words_from word text)
unfolding words_from
words_from-lower word [] = push_word-lower word []
words_from-lower word (c ∷ text) =
    rw (is_ascii_alphanumeric-lower c, words_from)
      (elim (is_ascii_alphanumeric c)
        as (λ (b : Bool).
          (elim b [
            | true ↦ words_from (lower word ++ (to_ascii_lowercase c ∷ [])) (lower text)
            | false ↦ push_word (lower word) (words_from [] (lower text))
          ])
          ≡ map lower (elim b [
            | true ↦ words_from (word ++ (c ∷ [])) text
            | false ↦ push_word word (words_from [] text)
          ])) [
            | true ↦
                ap (λ w. words_from w (lower text)) (sym (lower-append word (c ∷ [])))
                ∙ words_from-lower (word ++ (c ∷ [])) text
            | false ↦
                ap (push_word (lower word)) (words_from-lower [] text)
                ∙ push_word-lower word (words_from [] text)
          ])

words-lower : (text : Text) → words (lower text) ≡ map lower (words text)
unfolding words
words-lower text = words_from-lower [] text

eq_ignore_ascii_case-lower :
    (w x : Text) → eq_ignore_ascii_case (lower w) x ≡ eq_ignore_ascii_case w x
eq_ignore_ascii_case-lower w x = ap (λ s. text_eq s (lower x)) (lower_idem w)

any-map_lower :
    {A B : Type 0} (p : A → Bool) (q : B → Bool) (f : B → A) (ws : List B)
    → ((w : B) → p (f w) ≡ q w)
    → any p (map f ws) ≡ any q ws
any-map_lower p q f [] h = refl
any-map_lower p q f (w ∷ ws) h = ground (arith, h w, any-map_lower p q f ws)

same_any : (p q : Text → Bool) (ws : List Text) → ((w : Text) → p w ≡ q w) → any p ws ≡ any q ws
same_any p q [] h = refl
same_any p q (w ∷ ws) h = ground (arith, h w, same_any p q ws)

-- A word is found in a text as it is in lower case.
pub contains_word-lower :
    (text needle : Text) → contains_word (lower text) needle ≡ contains_word text needle
unfolding contains_word
contains_word-lower text needle =
    let found =
      ap (any (λ word. eq_ignore_ascii_case word (trim needle))) (words-lower text)
      ∙ any-map_lower (λ word. eq_ignore_ascii_case word (trim needle))
          (λ word. eq_ignore_ascii_case word (trim needle)) lower (words text)
          (λ w. eq_ignore_ascii_case-lower w (trim needle)) in
    ap (λ b. if is_empty (trim needle) then false else b) found

length-lower : (ws : List Text) → length (map lower ws) ≡ length ws
length-lower [] = refl
length-lower (w ∷ ws) = ap suc (length-lower ws)

take-lower : (n : ℕ) (ws : List Text) → take n (map lower ws) ≡ map lower (take n ws)
take-lower zero ws = refl
take-lower (suc n) [] = refl
take-lower (suc n) (w ∷ ws) = ap (λ r. lower w ∷ r) (take-lower n ws)

windows-lower : (n : ℕ) (ws : List Text) → windows n (map lower ws) ≡ map (map lower) (windows n ws)
windows-lower n [] = refl
windows-lower n (w ∷ ws) =
    ground (arith, windows-lower n ws, length-lower ws, take-lower n (w ∷ ws))

run_matches-lower :
    (window wanted : List Text) → run_matches (map lower window) wanted ≡ run_matches window wanted
run_matches-lower [] wanted = refl
run_matches-lower (w ∷ window) [] = refl
run_matches-lower (w ∷ window) (x ∷ wanted) =
    ap₂ (λ a b. a && b) (eq_ignore_ascii_case-lower w x) (run_matches-lower window wanted)

contains_run-lower :
    (text : Text) (needle : List Text) → contains_run (lower text) needle ≡ contains_run text needle
unfolding contains_run
contains_run-lower text [] = refl
contains_run-lower text (x ∷ []) = contains_word-lower text x
contains_run-lower text (x ∷ y ∷ needle) =
    let wanted = x ∷ y ∷ needle in
    let n = length wanted in
    ap
      (λ ws.
        if ltb (length ws) n
        then false
        else any (λ window. run_matches window wanted) (windows n ws))
      (words-lower text)
    ∙ ap₂ (λ k b. if ltb k n then false else b) (length-lower (words text))
        (ap (any (λ window. run_matches window wanted)) (windows-lower n (words text))
          ∙ any-map_lower (λ window. run_matches window wanted)
              (λ window. run_matches window wanted) (map lower) (windows n (words text))
              (λ window. run_matches-lower window wanted))

-- Whether a text carries replacement wording does not depend on the case of its letters: a claim's
-- text and its lower case always agree.
pub replacement_signal_ignores_case :
    (text : Text)
    → contains_replacement_signal (map to_ascii_lowercase text) ≡ contains_replacement_signal text
unfolding contains_replacement_signal contains_phrase
replacement_signal_ignores_case text =
    same_any (λ signal. contains_run (lower text) (split_whitespace signal))
      (λ signal. contains_run text (split_whitespace signal)) replacement_signals
      (λ signal. contains_run-lower text (split_whitespace signal))
