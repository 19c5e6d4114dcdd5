-- ===== src/Base/Chars.antt =====
-- The characters of a Rust string, each as its UTF-8 bytes. The classes and the lower case of
-- characters are tables of Rust's library: `Unicode` stands for them.
use Prim.Native.Nat.{ℕ}
use mathlib.Core.Bool.{Bool, ◌&&◌}
use mathlib.Core.List.{List, [], ◌∷◌}
use texo.Base.Tests.{leb, if◌then◌else◌}
use texo.Base.Text.{Text}

pub record Unicode : Type 0 where
  pub is_alphanumeric : Text → Bool
  pub is_lowercase : Text → Bool
  pub to_lowercase : Text → Text
  -- `str::to_lowercase`.
  pub text_lowercase : Text → Text

-- A byte that goes on with a character.
abbrev pub is_continuation : ℕ → Bool
is_continuation byte = leb 0x80 byte && leb byte 0xbf

abbrev pub push_byte : ℕ → List Text → List Text
push_byte byte [] = (byte ∷ []) ∷ []
push_byte byte ([] ∷ cs) = (byte ∷ []) ∷ cs
push_byte byte ((b ∷ c) ∷ cs) =
    if is_continuation b then (byte ∷ b ∷ c) ∷ cs else (byte ∷ []) ∷ (b ∷ c) ∷ cs

unfoldable pub chars : Text → List Text
chars [] = []
chars (byte ∷ s) = push_byte byte (chars s)
