-- ===== src/Topology/Chain.antt =====
-- src/topology.rs: the last loop of `validate_all`, which follows the sources of every journal.
use texo.Base.{
  ℕ, zero, suc, ◌≡◌, ◌≤◌, ◌<◌, refl, sym, ap, ◌∙◌, subst, Bool, true, false, Option, none, some,
  List, [], ◌∷◌, inl, inr, length, arith, any, filter, not, Option-cases, Bool-cases, All,
}
use mathlib.Core.Option.{some-injective}
use texo.Base.Order.{same, same_iff, same_comm}
use texo.Base.Text.{Text, text_ord, text_eq}
use texo.Base.Map.{BTreeMap, get}
use texo.Topology.{JournalEntry}

-- `journals.get(cursor).and_then(|entry| entry.source_journal.as_deref())`.
unfoldable pub source_of : BTreeMap Text JournalEntry → Text → Option Text
source_of journals cursor = elim (get journals cursor) [
  | none ↦ none
  | some entry ↦ entry.source_journal
]

-- Membership in the set of the journals that were passed.
abbrev pub seen_before : List Text → Text → Bool
seen_before seen cursor = any (λ s. text_eq s cursor) seen

-- The `while let` of one start: true when it runs to a journal without a source, false when it
-- meets one again. The fuel is one more than there are journals.
unfoldable pub follow : ℕ → BTreeMap Text JournalEntry → List Text → Text → Option Bool
unfolding source_of
follow zero journals seen cursor = none
follow (suc fuel) journals seen cursor = elim (source_of journals cursor) [
  | none ↦ some true
  | some source ↦ elim (seen_before seen cursor) [
    | true ↦ some false
    | false ↦ follow fuel journals (cursor ∷ seen) source
  ]
]

-- From `cursor` it is `n` sources up to a journal that has none.
pub data Chain (journals : BTreeMap Text JournalEntry) : Text → ℕ → Type 0 where
  ends : {cursor : Text} → source_of journals cursor ≡ none → Chain journals cursor 0
  via :
      {cursor source : Text} {n : ℕ}
      → source_of journals cursor ≡ some source
      → Chain journals source n
      → Chain journals cursor (suc n)

-- The journals that a loop has not passed.
unseen : BTreeMap Text JournalEntry → List Text → ℕ
unseen journals seen = length (filter (λ j. not (seen_before seen j.0)) journals)

unseen-le :
    (journals : BTreeMap Text JournalEntry) (seen : List Text)
    → unseen journals seen ≤ length journals
unfolding unseen
unseen-le [] seen = omega arith
unseen-le (j ∷ journals) seen = ground (arith, unseen-le journals seen)

unseen_more :
    (journals : BTreeMap Text JournalEntry) (seen : List Text) (cursor : Text)
    → unseen journals (cursor ∷ seen) ≤ unseen journals seen
unfolding unseen
unseen_more [] seen cursor = omega arith
unseen_more (j ∷ journals) seen cursor = ground (arith, unseen_more journals seen cursor)

-- Passing a declared journal leaves fewer.
unseen_drops :
    (journals : BTreeMap Text JournalEntry) (seen : List Text) (cursor : Text)
    (entry : JournalEntry)
    → get journals cursor ≡ some entry
    → seen_before seen cursor ≡ false
    → unseen journals (cursor ∷ seen) < unseen journals seen
unfolding unseen get
unseen_drops [] seen cursor entry h k = cc h
unseen_drops ((j, e) ∷ journals) seen cursor entry h k = elim (Bool-cases (text_eq j cursor)) [
  | inl same ↦
      (let at : j ≡ cursor = (same_iff j cursor).0 same in
        let again : text_eq cursor j ≡ true = (same_iff cursor j).1 (sym at) in
        let fresh : seen_before seen j ≡ false = ap (seen_before seen) at ∙ k in
        ground (arith, unseen_more journals seen cursor))
  | inr other ↦ ground (arith, unseen_drops journals seen cursor entry, same_comm cursor j)
]

source_declared :
    (journals : BTreeMap Text JournalEntry) (cursor source : Text)
    → source_of journals cursor ≡ some source
    → (entry : JournalEntry) × (get journals cursor ≡ some entry)
unfolding source_of
source_declared journals cursor source h = elim (Option-cases (get journals cursor)) [
  | inl absent ↦ ground arith
  | inr (entry, has) ↦ (entry, has)
]

-- A chain's length is one number.
Chain-unique :
    (journals : BTreeMap Text JournalEntry) (cursor : Text) (m n : ℕ)
    → Chain journals cursor m
    → Chain journals cursor n
    → m ≡ n
Chain-unique journals cursor m n (Chain.ends e) (Chain.ends f) = refl
Chain-unique journals cursor m n (Chain.ends e) (Chain.via f c) = cc (e, f)
Chain-unique journals cursor m n (Chain.via e b) (Chain.ends f) = cc (e, f)
Chain-unique journals cursor m n (Chain.via {source = s} {n = i} e b)
      (Chain.via {source = t} {n = j} f c) =
    let same : s ≡ t = some-injective s t (sym e ∙ f) in
    ap suc (Chain-unique journals t i j (subst (λ x. Chain journals x i) same b) c)

-- Any start ends or meets a journal again, within the fuel.
follow_total :
    (fuel : ℕ) (journals : BTreeMap Text JournalEntry) (seen : List Text) (cursor : Text)
    → unseen journals seen < fuel
    → (b : Bool) × (follow fuel journals seen cursor ≡ some b)
unfolding follow
follow_total zero journals seen cursor h = absurd (omega arith)
follow_total (suc fuel) journals seen cursor h = elim (Option-cases (source_of journals cursor)) [
  | inl none_here ↦ (true, rw (none_here, follow) refl)
  | inr (source, has) ↦ elim (Bool-cases (seen_before seen cursor)) [
    | inl again ↦ (false, rw (has, follow) (rw (again, follow) refl))
    | inr new ↦
        (let (entry, declared) = source_declared journals cursor source has in
          let (b, rest) =
            follow_total fuel journals (cursor ∷ seen) source
              (omega (arith, unseen_drops journals seen cursor entry declared new)) in
          (b, rw (has, follow) (rw (new, follow) rest)))
  ]
]

-- What passes has a chain.
pub follow-Chain :
    (fuel : ℕ) (journals : BTreeMap Text JournalEntry) (seen : List Text) (cursor : Text)
    → follow fuel journals seen cursor ≡ some true
    → (n : ℕ) × Chain journals cursor n
unfolding follow
follow-Chain zero journals seen cursor h = cc h
follow-Chain (suc fuel) journals seen cursor h = elim (Option-cases (source_of journals cursor)) [
  | inl none_here ↦ (0, Chain.ends none_here)
  | inr (source, has) ↦
      (let (n, rest) = follow-Chain fuel journals (cursor ∷ seen) source (ground arith) in
        (suc n, Chain.via has rest))
]

-- What stands before the cursor of a chain has a longer chain.
abbrev Behind : BTreeMap Text JournalEntry → ℕ → Text → Type 0
Behind journals n s = (m : ℕ) × Chain journals s m × (n < m)

Behind-suc :
    (journals : BTreeMap Text JournalEntry) (n : ℕ) (seen : List Text)
    → All (Behind journals (suc n)) seen
    → All (Behind journals n) seen
Behind-suc journals n [] h = tt
Behind-suc journals n (s ∷ seen) h =
    ((h.0.0, h.0.1, omega (arith, h.0.2)), Behind-suc journals n seen h.1)

new_cursor :
    (journals : BTreeMap Text JournalEntry) (n : ℕ) (cursor : Text) (seen : List Text)
    → Chain journals cursor n
    → All (Behind journals n) seen
    → seen_before seen cursor ≡ false
new_cursor journals n cursor [] c h = refl
new_cursor journals n cursor (s ∷ seen) c ((m, b, far), h) =
    let rest = new_cursor journals n cursor seen c h in
    elim (Bool-cases (text_eq s cursor)) [
      | inl level ↦ absurd (
          let eq =
            Chain-unique journals cursor m n
              (subst (λ x. Chain journals x m) ((same_iff s cursor).0 level) b) c in
          omega (arith, eq, far))
      | inr other ↦ ground arith
    ]

-- A chain passes.
Chain-follow :
    (fuel : ℕ) (journals : BTreeMap Text JournalEntry) (seen : List Text) (cursor : Text) (n : ℕ)
    → Chain journals cursor n
    → All (Behind journals n) seen
    → unseen journals seen < fuel
    → follow fuel journals seen cursor ≡ some true
unfolding follow
Chain-follow zero journals seen cursor n c h k = absurd (omega arith)
Chain-follow (suc fuel) journals seen cursor n (Chain.ends e) h k = rw (e, follow) refl
Chain-follow (suc fuel) journals seen cursor n (Chain.via {source = s} {n = i} e c) h k =
    let new = new_cursor journals (suc i) cursor seen (Chain.via e c) h in
    let (entry, declared) = source_declared journals cursor s e in
    rw (e, follow)
      (rw (new, follow)
        (Chain-follow fuel journals (cursor ∷ seen) s i c
          ((suc i, Chain.via e c, omega arith), Behind-suc journals i seen h)
          (omega (arith, unseen_drops journals seen cursor entry declared new))))

-- The fuel of `validate_chains` is enough for every start.
pub follow_fuel :
    (journals : BTreeMap Text JournalEntry) (cursor : Text)
    → (b : Bool) × (follow (suc (length journals)) journals [] cursor ≡ some b)
follow_fuel journals cursor =
    follow_total (suc (length journals)) journals [] cursor (omega (arith, unseen-le journals []))

pub Chain-follow_fuel :
    (journals : BTreeMap Text JournalEntry) (cursor : Text) (n : ℕ)
    → Chain journals cursor n
    → follow (suc (length journals)) journals [] cursor ≡ some true
Chain-follow_fuel journals cursor n c =
    Chain-follow (suc (length journals)) journals [] cursor n c tt
      (omega (arith, unseen-le journals []))
