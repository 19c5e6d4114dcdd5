-- ===== src/Claims/Walk.antt =====
-- Walks in a state machine that is given by its edges, as `CLAIM_EDGES` and `CONFLICT_EDGES` are.
use texo.Base.{ℕ, Bool, true, List, [], ◌∷◌, ◌&&◌, ◌==◌, any}

abbrev pub has_edge : List (ℕ × ℕ) → ℕ → ℕ → Bool
has_edge edges from to = any (λ e. (e.0 == from) && (e.1 == to)) edges

-- From the state, through the states of the list in turn, along the edges.
abbrev pub walks : List (ℕ × ℕ) → ℕ → List ℕ → Bool
walks edges from [] = true
walks edges from (to ∷ rest) = has_edge edges from to && walks edges to rest
