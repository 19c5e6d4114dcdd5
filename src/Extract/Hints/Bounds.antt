-- ===== src/Extract/Hints/Bounds.antt =====
-- When a line gives hints, and what they are never without.
use texo.Base.{
  ℕ, ◌≤◌, ◌≡◌, ◌↔◌, ◌⊎◌, refl, Bool, true, false, not, Option, none, some, List, [], ◌∷◌, All,
  Bool-cases, subst, map, inl, inr, arith, if◌then◌else◌,
}
use mathlib.Core.Option.{some-injective}
use texo.Base.Text.{Text, bytes, is_empty, text_eq, to_ascii_lowercase}
use texo.Base.Space.{trim}
use texo.Words.{contains_word, contains_phrase, normalize_line}
use texo.Extract.Heuristics.{is_claim_line}
use texo.Extract.Hints.{
  ClaimHints, keywords, first_keyword, detect_confidence, detect_predicate, days, first_day,
  after_first, object_after, object_of, detect_object, hints_of, hints_from_line_normalized,
  hints_from_line,
}

abbrev Within : ℕ → Type 0
Within ppm = (500000 ≤ ppm) × (ppm ≤ 900000)

first_keyword-Within :
    (lower : Text) (table : List (Text × ℕ))
    → All (λ (row : Text × ℕ). Within row.1) table
    → Within (first_keyword lower table).0
first_keyword-Within lower [] a = (omega arith, omega arith)
first_keyword-Within lower ((needle, ppm) ∷ rest) a =
    elim (Bool-cases (contains_phrase lower needle)) [
      | inl h ↦ rw h a.0
      | inr h ↦ rw h (first_keyword-Within lower rest a.1)
    ]

detect_confidence-Within : (lower : Text) → Within (detect_confidence lower).0
unfolding detect_confidence
detect_confidence-Within lower = first_keyword-Within lower keywords (ground arith)

-- A text that is not empty.
abbrev IsText : Text → Type 0
IsText s = is_empty s ≡ false

abbrev IsTextIf : Option Text → Type 0
IsTextIf none = Unit
IsTextIf (some s) = IsText s

first_day-IsText :
    (normalized : Text) (table : List Text)
    → All IsText table
    → IsTextIf (first_day normalized table)
first_day-IsText normalized [] a = tt
first_day-IsText normalized (day ∷ rest) a = elim (Bool-cases (contains_word normalized day)) [
  | inl h ↦ rw h a.0
  | inr h ↦ rw h (first_day-IsText normalized rest a.1)
]

object_after-IsText :
    (normalized : Text) (after : Option Text)
    → IsText normalized
    → IsText (object_after normalized after)
object_after-IsText normalized none h = h
object_after-IsText normalized (some after) h = elim (Bool-cases (is_empty (trim after))) [
  | inl blank ↦ rw blank h
  | inr kept ↦ rw kept kept
]

object_of-IsText :
    (normalized predicate : Text) (day : Option Text)
    → IsText normalized
    → IsTextIf day
    → IsText (object_of normalized predicate day)
object_of-IsText normalized predicate (some day) h d = d
object_of-IsText normalized predicate none h d =
    elim (Bool-cases (text_eq predicate (bytes "unknown"))) [
      | inl e ↦ rw e h
      | inr e ↦ rw e (object_after-IsText normalized (after_first normalized predicate) h)
    ]

detect_object-IsText :
    (normalized predicate : Text) → IsText normalized → IsText (detect_object normalized predicate)
unfolding detect_object
detect_object-IsText normalized predicate h =
    object_of-IsText normalized predicate (first_day normalized days) h
      (first_day-IsText normalized days (ground arith))

-- What the hints of a line never are without.
abbrev pub IsHinted : ClaimHints → Type 0
IsHinted h =
    (500000 ≤ h.confidence_ppm) × (h.confidence_ppm ≤ 900000) × (is_empty h.object_hint ≡ false)

gate : Bool → Bool → ClaimHints → Option ClaimHints
gate is_claim blank h = if not is_claim then none else if blank then none else some h

gate_lem :
    (is_claim blank : Bool) (h : ClaimHints)
    → (blank ≡ false → IsHinted h)
    → ((gate is_claim blank h ≡ none) ↔ ((is_claim ≡ false) ⊎ (blank ≡ true)))
      × ((hints : ClaimHints) → gate is_claim blank h ≡ some hints → IsHinted hints)
unfolding gate
gate_lem false blank h good = ((λ e. inl refl, λ e. refl), λ hints e. absurd (cc e))
gate_lem true true h good = ((λ e. inr refl, λ e. refl), λ hints e. absurd (cc e))
gate_lem true false h good = (
  (λ e. absurd (cc e), λ e. elim e [ inl f ↦ absurd (cc f) | inr f ↦ absurd (cc f) ]),
  λ hints e. subst IsHinted (some-injective h hints e) (good refl),
)

-- A line gives no hints exactly if it is no claim line or its normalized text is empty; and the hints
-- of a line have a confidence from 500,000 to 900,000 parts per million and an object.
pub hints_from_line_lem :
    (line : Text)
    → ((hints_from_line line ≡ none)
        ↔ ((is_claim_line line ≡ false) ⊎ (is_empty (normalize_line line) ≡ true)))
      × ((hints : ClaimHints) → hints_from_line line ≡ some hints → IsHinted hints)
unfolding hints_from_line hints_from_line_normalized gate
hints_from_line_lem line =
    let normalized = normalize_line line in
    let lower = map to_ascii_lowercase line in
    gate_lem (is_claim_line line) (is_empty normalized) (hints_of line normalized) λ whole.
      let (low, high) = detect_confidence-Within lower in
      (low, high, detect_object-IsText normalized (detect_predicate lower) whole)
