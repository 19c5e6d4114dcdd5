-- ===== src/Semantics/Pairs/Space.antt =====
-- The global sequence of pairs of claims: where a page starts in it, and how its loop walks on.
use texo.Base.{
  ℕ, zero, suc, ◌+◌, ◌-◌, ◌*◌, ◌≤◌, ◌<◌, ◌≡◌, refl, sym, ap, ap₂, ◌∙◌, Option, none, some, List, [],
  ◌∷◌, ◌++◌, ok, ltb, leb, Bool-cases, length, get_elem?, drop, length-append, arith, inl, inr,
  unwrap_or, if◌then◌else◌,
}
use texo.Workspace.Types.{u64_max}
use texo.Semantics.Pairs.{
  Position, pair_count, seek_row, seek_from, seek_pair, next_pair, first_pair, indices_from,
}

-- The pairs of `left` with `count` members from `right` on.
abbrev pub row : ℕ → ℕ → ℕ → List (ℕ × ℕ)
row left right zero = []
row left right (suc count) = (left, right) ∷ row left (right + 1) count

-- The `rows` rows from `left` on, of which each is one shorter than the row before.
abbrev pub triangle : ℕ → ℕ → List (ℕ × ℕ)
triangle zero left = []
triangle (suc rows) left = row left (left + 1) (suc rows) ++ triangle rows (left + 1)

-- Every pair of two of `n` claims once, the earlier claim first.
abbrev pub all_pairs : ℕ → List (ℕ × ℕ)
all_pairs n = triangle (n - 1) 0

-- The one cluster of all claims.
abbrev pub cluster_of : ℕ → List (List ℕ)
cluster_of n = indices_from n 0 ∷ []

-- What the loop has still to visit.
abbrev pub remaining : ℕ → Option Position → List (ℕ × ℕ)
remaining n none = []
remaining n (some (cluster_idx, left, right)) =
    row left right (n - right) ++ triangle (n - left - 2) (left + 1)

abbrev pub InRange : ℕ → Option Position → Type 0
InRange n none = Unit
InRange n (some (cluster_idx, left, right)) = (cluster_idx ≡ 0) × (left < right) × (right < n)

pub length-indices : (n first : ℕ) → length (indices_from n first) ≡ n
length-indices zero first = refl
length-indices (suc n) first = ap suc (length-indices n (first + 1))

get-indices : (n first i : ℕ) → i < n → get_elem? (indices_from n first) i ≡ some (first + i)
get-indices zero first i h = absurd (omega arith)
get-indices (suc n) first zero h = ap some (omega arith)
get-indices (suc n) first (suc i) h =
    get-indices n (first + 1) i (omega arith) ∙ ap some (omega arith)

pub member-indices : (n i : ℕ) → i < n → unwrap_or (get_elem? (indices_from n 0) i) 0 ≡ i
member-indices n i h = rw (get-indices n 0 i h) (omega arith)

length-row : (left right count : ℕ) → length (row left right count) ≡ count
length-row left right zero = refl
length-row left right (suc count) = ap suc (length-row left (right + 1) count)

double-triangle : (rows left : ℕ) → 2 * length (triangle rows left) ≡ rows * (rows + 1)
double-triangle zero left = refl
double-triangle (suc rows) left = grind (
  arith,
  length-append (row left (left + 1 + 1) rows) (triangle rows (left + 1)),
  length-row left (left + 1 + 1) rows,
  double-triangle rows (left + 1),
)

row_cong :
    (left right right' count count' : ℕ) (rest : List (ℕ × ℕ))
    → right ≡ right'
    → count ≡ count'
    → row left right count ++ rest ≡ row left right' count' ++ rest
row_cong left right right' count count' rest e h = ap₂ (λ (r c : ℕ). row left r c ++ rest) e h

tail_cong :
    (left right count count' rows rows' : ℕ)
    → count ≡ count'
    → rows ≡ rows'
    → row left right count ++ triangle rows (left + 1)
      ≡ row left right count' ++ triangle rows' (left + 1)
tail_cong left right count count' rows rows' e h =
    ap₂ (λ (c r : ℕ). row left right c ++ triangle r (left + 1)) e h

drop-row :
    (left right count offset : ℕ) (rest : List (ℕ × ℕ))
    → offset ≤ count
    → drop offset (row left right count ++ rest)
      ≡ row left (right + offset) (count - offset) ++ rest
drop-row left right count zero rest h =
    row_cong left right (right + 0) count (count - 0) rest (omega arith) (omega arith)
drop-row left right zero (suc offset) rest h = absurd (omega arith)
drop-row left right (suc count) (suc offset) rest h =
    drop-row left (right + 1) count offset rest (omega arith)
    ∙ row_cong left (right + 1 + offset) (right + suc offset) (count - offset)
        (suc count - suc offset) rest (omega arith) (omega arith)

drop-past-row :
    (left right count offset : ℕ) (rest : List (ℕ × ℕ))
    → count ≤ offset
    → drop offset (row left right count ++ rest) ≡ drop (offset - count) rest
drop-past-row left right zero offset rest h = ap (λ (i : ℕ). drop i rest) (omega arith)
drop-past-row left right (suc count) zero rest h = absurd (omega arith)
drop-past-row left right (suc count) (suc offset) rest h =
    drop-past-row left (right + 1) count offset rest (omega arith)
    ∙ ap (λ (i : ℕ). drop i rest) (omega arith)

module _ (n : ℕ) where
  -- Seeking in the rows from `left` on gives the position of what is behind `offset` pairs of them.
  seek-row :
      (rows left offset : ℕ)
      → rows + left + 1 ≡ n
      → offset < length (triangle rows left)
      → (position : Position) × (seek_row rows 0 left n offset ≡ ok position)
        × (remaining n (some position) ≡ drop offset (triangle rows left))
        × InRange n (some position)
  unfolding seek_row
  seek-row zero left offset e h = absurd (omega arith)
  seek-row (suc rows) left offset e h = elim (Bool-cases (ltb offset (n - left - 1))) [
    | inl within ↦ (
      (0, left, left + 1 + offset),
      rw within,
      within_row rows left offset e (ground arith),
      (refl, ground arith, ground arith),
    )
    | inr past ↦
        let ih =
          seek-row rows (left + 1) (offset - (n - left - 1)) (omega arith)
            (below_rows rows left offset e h (ground arith)) in
        (ih.0, rw past ih.1, ih.2 ∙ past_row rows left offset e (ground arith), ih.3)
  ]
    where
      within_row :
          (rows left offset : ℕ)
          → suc rows + left + 1 ≡ n
          → offset < suc rows
          → row left (left + 1 + offset) (n - (left + 1 + offset))
              ++ triangle (n - left - 2) (left + 1)
            ≡ drop offset (triangle (suc rows) left)
      within_row rows left offset e h =
          ap₂ (λ (c t : ℕ). row left (left + 1 + offset) c ++ triangle t (left + 1)) (omega arith)
            (omega arith)
          ∙ sym
              (drop-row left (left + 1) (suc rows) offset (triangle rows (left + 1)) (omega arith))

      past_row :
          (rows left offset : ℕ)
          → suc rows + left + 1 ≡ n
          → suc rows ≤ offset
          → drop (offset - (n - left - 1)) (triangle rows (left + 1))
            ≡ drop offset (triangle (suc rows) left)
      past_row rows left offset e h =
          ap (λ (d : ℕ). drop d (triangle rows (left + 1))) (omega arith)
          ∙ sym (
              drop-past-row left (left + 1) (suc rows) offset (triangle rows (left + 1))
                (omega arith))

      below_rows :
          (rows left offset : ℕ)
          → suc rows + left + 1 ≡ n
          → offset < length (triangle (suc rows) left)
          → suc rows ≤ offset
          → offset - (n - left - 1) < length (triangle rows (left + 1))
      below_rows rows left offset e h k = omega (
        arith,
        length-append (row left (left + 1 + 1) rows) (triangle rows (left + 1)),
        length-row left (left + 1 + 1) rows,
      )

  next_pair_lem :
      (left right : ℕ)
      → next_pair (cluster_of n) 0 left right ≡ (
          if ltb (right + 1) n
          then some (0, left, right + 1)
          else if ltb (left + 2) n
          then some (0, left + 1, left + 2)
          else none)
  unfolding next_pair first_pair
  next_pair_lem left right = rw (length-indices n 0)

  -- The pair of a position, and the pairs behind it.
  pub next-remaining :
      (left right : ℕ)
      → left < right
      → right < n
      → (remaining n (some (0, left, right))
          ≡ (left, right) ∷ remaining n (next_pair (cluster_of n) 0 left right))
        × InRange n (next_pair (cluster_of n) 0 left right)
  next-remaining left right h k = elim (Bool-cases (ltb (right + 1) n)) [
    | inl across ↦
        rw (next_pair_lem left right, across)
          (
            tail_cong left right (n - right) (suc (n - (right + 1))) (n - left - 2) (n - left - 2)
                (omega arith) refl,
            (refl, omega arith, ground arith),
          )
    | inr down ↦ elim (Bool-cases (ltb (left + 2) n)) [
      | inl more ↦
          rw (next_pair_lem left right, down, more)
            (
              tail_cong left right (n - right) 1 (n - left - 2) (suc (n - (left + 1) - 2))
                    (ground arith) (ground arith)
                  ∙ ap (λ (ps : List (ℕ × ℕ)). (left, right) ∷ ps)
                      (row_cong (left + 1) (left + 1 + 1) (left + 2) (suc (n - (left + 1) - 2))
                        (n - (left + 2)) (triangle (n - (left + 1) - 2) (left + 1 + 1))
                        (omega arith) (ground arith)),
              (refl, omega arith, ground arith),
            )
      | inr last ↦
          rw (next_pair_lem left right, down, last)
            (tail_cong left right (n - right) 1 (n - left - 2) 0 (ground arith) (ground arith), tt)
    ]
  ]

  -- As many pairs as `pair_count` says, where its product does not saturate.
  pub pair_count_lem : n * (n - 1) ≤ u64_max → pair_count n ≡ length (all_pairs n)
  unfolding pair_count
  pair_count_lem h = omega (arith, doubled n)
    where
      doubled : (k : ℕ) → 2 * length (all_pairs k) ≡ k * (k - 1)
      doubled zero = refl
      doubled (suc k) = grind (arith, double-triangle k 0)

  pub pair_count-le : pair_count n ≤ u64_max
  unfolding pair_count
  pair_count-le = omega arith

  drop_past : (offset : ℕ) (ps : List (ℕ × ℕ)) → length ps ≤ offset → drop offset ps ≡ []
  drop_past zero [] h = refl
  drop_past zero (p ∷ ps) h = absurd (omega arith)
  drop_past (suc offset) [] h = refl
  drop_past (suc offset) (p ∷ ps) h = drop_past offset ps (omega arith)

  pub seek-remaining :
      (offset : ℕ)
      → 2 ≤ n
      → n * (n - 1) ≤ u64_max
      → (remaining n (seek_pair (cluster_of n) offset) ≡ drop offset (all_pairs n))
        × InRange n (seek_pair (cluster_of n) offset)
  unfolding seek_pair seek_from
  seek-remaining offset h fits = elim (Bool-cases (leb (length (all_pairs n)) offset)) [
    | inl past ↦
        rw (length-indices n 0, pair_count_lem fits, past, seek_from)
          (sym (drop_past offset (all_pairs n) (ground arith)), tt)
    | inr within ↦
        let found = seek-row (n - 1) 0 offset (omega arith) (ground arith) in
        let sought : seek_row (length (indices_from n 0) - 1) 0 0 (length (indices_from n 0)) offset
            ≡ ok found.0 =
          rw (length-indices n 0) found.1 in
        rw (length-indices n 0, pair_count_lem fits, within, seek_from, sought) (found.2, found.3)
  ]
