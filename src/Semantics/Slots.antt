-- ===== src/Semantics/Slots.antt =====
-- `outcomes[index] = Some(outcome)` on a vector of results, one slot to a job.
use texo.Base.{
  ℕ, zero, suc, ◌<◌, ◌≡◌, ◌≢◌, refl, ap, Option, some, List, [], ◌∷◌, arith, length, get_elem?,
}

-- Rust panics past the end; every index of a pass is in range.
abbrev pub set_outcome : {R : Type 0} → List (Option R) → ℕ → R → List (Option R)
set_outcome [] index outcome = []
set_outcome (o ∷ outcomes) zero outcome = some outcome ∷ outcomes
set_outcome (o ∷ outcomes) (suc index) outcome = o ∷ set_outcome outcomes index outcome

pub set_other :
    {R : Type 0} (outcomes : List (Option R)) (i j : ℕ) (outcome : R)
    → i ≢ j
    → get_elem? (set_outcome outcomes i outcome) j ≡ get_elem? outcomes j
set_other [] i j outcome h = refl
set_other (o ∷ outcomes) zero zero outcome h = absurd (h refl)
set_other (o ∷ outcomes) zero (suc j) outcome h = refl
set_other (o ∷ outcomes) (suc i) zero outcome h = refl
set_other (o ∷ outcomes) (suc i) (suc j) outcome h =
    set_other outcomes i j outcome (λ e. h (ap suc e))

pub set_here :
    {R : Type 0} (outcomes : List (Option R)) (i : ℕ) (outcome : R)
    → i < length outcomes
    → get_elem? (set_outcome outcomes i outcome) i ≡ some (some outcome)
set_here [] i outcome h = absurd (omega arith)
set_here (o ∷ outcomes) zero outcome h = refl
set_here (o ∷ outcomes) (suc i) outcome h = set_here outcomes i outcome (omega arith)

pub length-set :
    {R : Type 0} (outcomes : List (Option R)) (i : ℕ) (outcome : R)
    → length (set_outcome outcomes i outcome) ≡ length outcomes
length-set [] i outcome = refl
length-set (o ∷ outcomes) zero outcome = refl
length-set (o ∷ outcomes) (suc i) outcome = ap suc (length-set outcomes i outcome)
