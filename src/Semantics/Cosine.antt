-- ===== src/Semantics/Cosine.antt =====
-- src/semantics/traits.rs: the similarity of two embeddings.
use texo.Base.{Bool, List, [], ◌∷◌, ◌==◌, if◌then◌else◌, length, ◌||◌, not}
use texo.Scores.{F32}

-- The arithmetic of `f32`, as the hardware rounds it.
pub record Floats : Type 0 where
  pub zero : F32
  pub add : F32 → F32 → F32
  pub mul : F32 → F32 → F32
  pub div : F32 → F32 → F32
  pub sqrt : F32 → F32
  pub equal : F32 → F32 → Bool
  pub at_least : F32 → F32 → Bool

module _ (f : Floats) where
  open f use {add, mul, div, sqrt, equal}

  -- The loop over `a.iter().zip(b.iter())`, on the sums `dot`, `norm_a` and `norm_b`.
  abbrev pub sums : List F32 → List F32 → F32 → F32 → F32 → F32 × F32 × F32
  sums [] b dot norm_a norm_b = (dot, norm_a, norm_b)
  sums (x ∷ a) [] dot norm_a norm_b = (dot, norm_a, norm_b)
  sums (x ∷ a) (y ∷ b) dot norm_a norm_b =
      sums a b (add dot (mul x y)) (add norm_a (mul x x)) (add norm_b (mul y y))

  abbrev ratio : F32 × F32 × F32 → F32
  ratio (dot, norm_a, norm_b) =
      if equal norm_a f.zero || equal norm_b f.zero
      then f.zero
      else div dot (mul (sqrt norm_a) (sqrt norm_b))

  unfoldable pub cosine_similarity : List F32 → List F32 → F32
  cosine_similarity a b =
      if (length a == 0) || not (length a == length b)
      then f.zero
      else ratio (sums a b f.zero f.zero f.zero)
