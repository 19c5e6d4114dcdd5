-- ===== src/Base/Space.antt =====
-- White space in Rust's strings: `trim` and `split_whitespace` over UTF-8 bytes.
use Prim.Native.Nat.{ℕ, zero, suc}
use mathlib.Core.Bool.{Bool, true, false, ◌&&◌, ◌||◌}
use mathlib.Core.List.{List, [], ◌∷◌, ◌++◌}
use texo.Base.Tests.{leb, ◌==◌, if◌then◌else◌}
use texo.Base.Text.{Text, is_empty}

-- `char::is_whitespace`: the width in UTF-8 of a white-space character at the head, or 0.
abbrev pub whitespace_width : Text → ℕ
whitespace_width [] = 0
whitespace_width (a ∷ []) = if (leb 9 a && leb a 13) || a == 32 then 1 else 0
whitespace_width (a ∷ b ∷ []) =
    if (leb 9 a && leb a 13) || a == 32
    then 1
    else if a == 0xc2 && (b == 0x85 || b == 0xa0)
    then 2
    else 0
whitespace_width (a ∷ b ∷ c ∷ rest) =
    if (leb 9 a && leb a 13) || a == 32
    then 1
    else if a == 0xc2 && (b == 0x85 || b == 0xa0)
    then 2
    else if a == 0xe1 && (b == 0x9a && c == 0x80)
    then 3
    else if a == 0xe2 && (b == 0x80 && (leb 0x80 c && leb c 0x8a))
    then 3
    else if a == 0xe2 && (b == 0x80 && (c == 0xa8 || (c == 0xa9 || c == 0xaf)))
    then 3
    else if a == 0xe2 && (b == 0x81 && c == 0x9f)
    then 3
    else if a == 0xe3 && (b == 0x80 && c == 0x80)
    then 3
    else 0

-- `value.trim().is_empty()`: nothing but white space; `skip` bytes of a character are still open.
unfoldable pub is_blank : ℕ → Text → Bool
is_blank skip [] = true
is_blank (suc skip) (b ∷ rest) = is_blank skip rest
is_blank zero (b ∷ rest) = elim (whitespace_width (b ∷ rest)) [
  | zero ↦ false
  | suc w ↦ is_blank w rest
]

-- `trim_start` and `trim_end`; a white-space character never begins inside another character.
trim_start : ℕ → Text → Text
trim_start skip [] = []
trim_start (suc skip) (b ∷ rest) = trim_start skip rest
trim_start zero (b ∷ rest) = elim (whitespace_width (b ∷ rest)) [
  | zero ↦ b ∷ rest
  | suc w ↦ trim_start w rest
]

trim_end : Text → Text
unfolding is_blank
trim_end [] = []
trim_end (b ∷ rest) = let kept = trim_end rest in if is_blank zero (b ∷ rest) then [] else b ∷ kept

unfoldable pub trim : Text → Text
unfolding trim_start trim_end
trim s = trim_end (trim_start zero s)

abbrev push_word : Text → List Text → List Text
push_word word words = if is_empty word then words else word ∷ words

split_from : ℕ → Text → Text → List Text
split_from skip word [] = push_word word []
split_from (suc skip) word (b ∷ rest) = split_from skip word rest
split_from zero word (b ∷ rest) = elim (whitespace_width (b ∷ rest)) [
  | zero ↦ split_from zero (word ++ (b ∷ [])) rest
  | suc w ↦ push_word word (split_from w [] rest)
]

unfoldable pub split_whitespace : Text → List Text
unfolding split_from
split_whitespace s = split_from zero [] s
