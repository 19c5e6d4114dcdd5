-- ===== src/Journal/Through.antt =====
-- The page loop of the historical replays, which ends at the first entry past a frontier:
-- `for entry in &page { if entry.global_sequence() > frontier { break 'pages; } … }`.
pub mod Loop
use mathlib.Core.Option
use texo.Base.{
  ℕ, zero, suc, ◌+◌, ◌-◌, ◌≡◌, ◌≤◌, ◌<◌, refl, sym, ap, ◌∙◌, subst, Bool, true, false, Option, none,
  some, List, [], ◌∷◌, ◌++◌, append_assoc, ltb, leb, take, drop, take-append-drop, last?, filter,
  All, fold, fold-append, length, length-drop, arith, Bool-cases, inl, inr, ◌⊎◌, All-take, All-drop,
  leb→le, filter-append, ltb→lt,
}
use texo.Base.Text.{Text}
use texo.Journal.{IndexEntry, IsSequenced, last_seq, behind}
use texo.Journal.Paging.{
  Flow, next, stop, fail, page_limit, page_loop, next_page, last_seq-append, last_seq-le,
  IsSequenced-prefix, IsSequenced-suffix,
}

module _ {ℓ} {S : Type ℓ} (frontier : ℕ) (visit : S → IndexEntry → Flow S) where
  unfoldable pub through : S → List IndexEntry → Flow S
  through s [] = next s
  through s (entry ∷ page) = elim (ltb frontier entry.global_sequence) [
    | true ↦ stop s
    | false ↦ elim (visit s entry) [
      | next s' ↦ through s' page
      | stop s' ↦ stop s'
      | fail what s' ↦ fail what s'
    ]
  ]

-- The entries at or below a frontier.
abbrev pub upto : ℕ → List IndexEntry → List IndexEntry
upto frontier log = filter (λ e. leb e.global_sequence frontier) log

pub upto_high :
    (xs : List IndexEntry) (frontier n : ℕ)
    → IsSequenced n xs
    → frontier ≤ n
    → upto frontier xs ≡ []
upto_high [] frontier n h k = refl
upto_high (e ∷ xs) frontier n h k =
    let rest = upto_high xs frontier e.global_sequence h.1 (omega arith) in ground (arith, rest)

-- Up to the last sequence of a prefix stands the prefix.
pub upto-split :
    (pre suf : List IndexEntry) (n : ℕ)
    → IsSequenced n (pre ++ suf)
    → upto (last_seq n pre) (pre ++ suf) ≡ pre
upto-split [] suf n h = upto_high suf n n h (omega arith)
upto-split (e ∷ pre) suf n h =
    let rest = upto-split pre suf e.global_sequence h.1 in
    let low =
      last_seq-le pre e.global_sequence (IsSequenced-prefix pre suf e.global_sequence h.1) in
    ground (arith, rest)

module _ {ℓ κ} {S : Type ℓ} {T : Type κ} (frontier : ℕ) (visit : S → IndexEntry → Flow S)
    (seen : S → T) (step : T → IndexEntry → T) (Good : IndexEntry → Type 0)
    (visits : (s : S) (e : IndexEntry)
      → Good e
      → (s' : S) × (visit s e ≡ next s') × (seen s' ≡ step (seen s) e)) where
  abbrev pub Passes : S → List IndexEntry → ℕ → Type (ℓ ⊔ κ)
  Passes s page n =
      (s' : S) × ((through frontier visit s page ≡ next s')
        ⊎ (through frontier visit s page ≡ stop s') × (frontier < last_seq n page))
      × (seen s' ≡ fold step (seen s) (upto frontier page))

  through_past :
      (s : S) (e : IndexEntry) (page : List IndexEntry)
      → ltb frontier e.global_sequence ≡ true
      → IsSequenced e.global_sequence page
      → Passes s (e ∷ page) 0
  unfolding through
  through_past s e page past h = (
    s,
    inr (rw (past, through), omega (arith, last_seq-le page e.global_sequence h, ltb→lt _ _ past)),
    ap (fold step (seen s))
        (sym (upto_high (e ∷ page) frontier frontier (ltb→lt _ _ past, h) (omega arith))),
  )

  through_on :
      (s s' : S) (e : IndexEntry) (page : List IndexEntry)
      → ltb frontier e.global_sequence ≡ false
      → visit s e ≡ next s'
      → seen s' ≡ step (seen s) e
      → Passes s' page e.global_sequence
      → Passes s (e ∷ page) 0
  unfolding through
  through_on s s' e page low visited seen' (s'', ends, seen'') =
      let same : through frontier visit s (e ∷ page) ≡ through frontier visit s' page =
        rw (low, through) (rw (visited, through) refl) in
      (
        s'',
        elim ends [ inl n ↦ inl (same ∙ n) | inr (t, far) ↦ inr (same ∙ t, far) ],
        seen'' ∙ ap (λ t. fold step t (upto frontier page)) seen' ∙ ground arith,
      )

  pub through_lem :
      (page : List IndexEntry) (s : S) (n : ℕ)
      → IsSequenced n page
      → All Good page
      → Passes s page n
  unfolding through
  through_lem [] s n h good = (s, inl refl, refl)
  through_lem (e ∷ page) s n h good = elim (Bool-cases (ltb frontier e.global_sequence)) [
    | inl past ↦ through_past s e page past h.1
    | inr low ↦
        (let (s', visited, seen') = visits s e good.0 in
          through_on s s' e page low visited seen'
            (through_lem page s' e.global_sequence h.1 good.1))
  ]
