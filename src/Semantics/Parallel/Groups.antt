-- ===== src/Semantics/Parallel/Groups.antt =====
-- The first loop of a parallel page: which slots it fills, and which groups it makes.
use texo.Base.{
  ℕ, zero, suc, ◌+◌, ◌<◌, ◌≡◌, ◌≢◌, refl, sym, ap, ◌∙◌, true, false, Bool-cases, Option, none, some,
  List, [], ◌∷◌, ◌++◌, ◌==◌, ==_iff, arith, All, All-append, ◌⊎◌, inl, inr, length, get_elem?,
  unwrap_or, Option-cases,
}
use texo.Base.Text.{text_ord}
use texo.Base.Pairs.{pair_ord}
use texo.Base.Map.{get, IsOrdered, insert-IsOrdered}
use texo.Semantics.{Claims, PairOutcome, PendingPair, Relater}
use texo.Semantics.Pairs.{Settled}
use texo.Semantics.Acquire.{known}
use texo.Semantics.Slots.{set_here, set_other, length-set}
use texo.Semantics.Parallel.Members.{
  covered, AllGroups, is_member-last, covered-insert_self, grown, covered-insert_of,
  AllGroups-insert, AllGroups-get,
}
use texo.Semantics.Parallel.{Texts, Groups, Grouped, group_known, group_pairs, texts_of}

module _ (claims : Claims) (relate : Relater) (settled : Settled) (pending : List PendingPair) where
  -- What is known of a pair before any call.
  abbrev pub known_at : ℕ → Option PairOutcome
  known_at j = elim (get_elem? pending j) [
    | some pair ↦ known claims relate settled pair
    | none ↦ none
  ]

  -- A member is a pair with the texts of its group, of which nothing is known.
  abbrev pub IsMember : Texts → ℕ → Type 0
  IsMember texts j =
      (pair : PendingPair) × (get_elem? pending j ≡ some pair)
      × (texts_of claims relate settled pair ≡ texts)
      × (known claims relate settled pair ≡ none)

  abbrev pub IsGroup : Texts → List ℕ → Type 0
  IsGroup texts members = All (IsMember texts) members × (members ≢ [])

  -- The pairs that are left stand behind the index.
  abbrev pub Behind : ℕ → List PendingPair → Type 0
  Behind index rest = (k : ℕ) → get_elem? pending (index + k) ≡ get_elem? rest k

  Behind-suc :
      (index : ℕ) (pair : PendingPair) (rest : List PendingPair)
      → Behind index (pair ∷ rest)
      → Behind (suc index) rest
  Behind-suc index pair rest h k =
      let e : suc index + k ≡ index + suc k = omega arith in rw e (h (suc k))

  abbrev step : Grouped → ℕ → PendingPair → Option PairOutcome → Grouped
  step s index pair found = group_known claims relate settled s index pair found

  abbrev pub known_of : PendingPair → Option PairOutcome
  known_of pair = known claims relate settled pair

  abbrev pub after : ℕ → List PendingPair → Grouped → Grouped
  after index rest s = group_pairs claims relate settled index rest s

  -- The group of the texts, if it is there, or none.
  grown-IsGroup :
      (groups : Groups) (index : ℕ) (texts : Texts)
      → AllGroups IsGroup groups
      → IsMember texts index
      → IsGroup texts (grown groups texts index)
  grown-IsGroup groups index texts all m = elim (Option-cases (get groups texts)) [
    | inl absent ↦ rw absent ((m, tt), λ e. cc)
    | inr (members, e) ↦ rw e (
      All-append (IsMember texts) members (index ∷ [])
          (AllGroups-get IsGroup texts members groups e all).0 (m, tt),
      snoc members,
    )
  ]
    where
      snoc : (members : List ℕ) → (members ++ (index ∷ [])) ≢ []
      snoc [] e = cc
      snoc (member ∷ members) e = cc

  step-IsGroup :
      (s : Grouped) (index : ℕ) (pair : PendingPair) (found : Option PairOutcome)
      → get_elem? pending index ≡ some pair
      → known_of pair ≡ found
      → AllGroups IsGroup s.groups
      → AllGroups IsGroup (Grouped.groups (step s index pair found))
  step-IsGroup s index pair (some outcome) at e all = all
  step-IsGroup s index pair none at e all =
      AllGroups-insert IsGroup (texts_of claims relate settled pair)
        (grown s.groups (texts_of claims relate settled pair) index) s.groups
        (grown-IsGroup s.groups index (texts_of claims relate settled pair) all (pair, at, refl, e))
        all

  step-IsOrdered :
      (s : Grouped) (index : ℕ) (pair : PendingPair) (found : Option PairOutcome)
      → IsOrdered s.groups
      → IsOrdered (Grouped.groups (step s index pair found))
  step-IsOrdered s index pair (some outcome) h = h
  step-IsOrdered s index pair none h = insert-IsOrdered s.groups _ _ h

  step-length :
      (s : Grouped) (index : ℕ) (pair : PendingPair) (found : Option PairOutcome)
      → length (Grouped.outcomes (step s index pair found)) ≡ length s.outcomes
  step-length s index pair (some outcome) = length-set s.outcomes index outcome
  step-length s index pair none = refl

  step-other :
      (s : Grouped) (index j : ℕ) (pair : PendingPair) (found : Option PairOutcome)
      → (found ≡ none) ⊎ (index ≢ j)
      → get_elem? (Grouped.outcomes (step s index pair found)) j ≡ get_elem? s.outcomes j
  step-other s index j pair none h = refl
  step-other s index j pair (some outcome) (inl e) = cc
  step-other s index j pair (some outcome) (inr apart) = set_other s.outcomes index j outcome apart

  step-covered :
      (s : Grouped) (index j : ℕ) (pair : PendingPair) (found : Option PairOutcome)
      → covered j s.groups ≡ true
      → covered j (Grouped.groups (step s index pair found)) ≡ true
  step-covered s index j pair (some outcome) h = h
  step-covered s index j pair none h =
      covered-insert_of (texts_of claims relate settled pair) index j s.groups h

  pub after-IsGroup :
      (index : ℕ) (rest : List PendingPair) (s : Grouped)
      → Behind index rest
      → AllGroups IsGroup s.groups
      → AllGroups IsGroup (Grouped.groups (after index rest s))
  after-IsGroup index [] s b all = all
  after-IsGroup index (pair ∷ rest) s b all =
      let at : get_elem? pending index ≡ some pair =
        let e : index ≡ index + 0 = omega arith in rw e (b 0) in
      after-IsGroup (suc index) rest _ (Behind-suc index pair rest b)
        (step-IsGroup s index pair (known_of pair) at refl all)

  pub after-IsOrdered :
      (index : ℕ) (rest : List PendingPair) (s : Grouped)
      → IsOrdered s.groups
      → IsOrdered (Grouped.groups (after index rest s))
  after-IsOrdered index [] s h = h
  after-IsOrdered index (pair ∷ rest) s h =
      after-IsOrdered (suc index) rest _ (step-IsOrdered s index pair (known_of pair) h)

  pub after-length :
      (index : ℕ) (rest : List PendingPair) (s : Grouped)
      → length (Grouped.outcomes (after index rest s)) ≡ length s.outcomes
  after-length index [] s = refl
  after-length index (pair ∷ rest) s =
      after-length (suc index) rest _ ∙ step-length s index pair (known_of pair)

  pub after-early :
      (index j : ℕ) (rest : List PendingPair) (s : Grouped)
      → j < index
      → get_elem? (Grouped.outcomes (after index rest s)) j ≡ get_elem? s.outcomes j
  after-early index j [] s h = refl
  after-early index j (pair ∷ rest) s h =
      after-early (suc index) j rest _ (omega arith)
      ∙ step-other s index j pair (known_of pair) (inr (λ e. absurd (omega arith)))

  after-covered :
      (index j : ℕ) (rest : List PendingPair) (s : Grouped)
      → covered j s.groups ≡ true
      → covered j (Grouped.groups (after index rest s)) ≡ true
  after-covered index j [] s h = h
  after-covered index j (pair ∷ rest) s h =
      after-covered (suc index) j rest _ (step-covered s index j pair (known_of pair) h)

  step-here :
      (s : Grouped) (index : ℕ) (pair : PendingPair) (found : Option PairOutcome)
      (outcome : PairOutcome)
      → found ≡ some outcome
      → index < length s.outcomes
      → get_elem? (Grouped.outcomes (step s index pair found)) index ≡ some (some outcome)
  step-here s index pair none outcome e h = cc
  step-here s index pair (some o) outcome e h = set_here s.outcomes index o h ∙ ap some e

  step-member :
      (s : Grouped) (index : ℕ) (pair : PendingPair) (found : Option PairOutcome)
      → found ≡ none
      → covered index (Grouped.groups (step s index pair found)) ≡ true
  step-member s index pair (some o) e = cc
  step-member s index pair none e =
      covered-insert_self (texts_of claims relate settled pair)
        (grown s.groups (texts_of claims relate settled pair) index) index s.groups
        (is_member-last index (unwrap_or (get s.groups (texts_of claims relate settled pair)) []))

  some_injective : (a b : PendingPair) → some a ≡ some b → a ≡ b
  some_injective a b e = cc

  -- A pair of which something is known has it in its slot.
  pub after-known :
      (index k : ℕ) (rest : List PendingPair) (s : Grouped) (pair : PendingPair)
      (outcome : PairOutcome)
      → get_elem? rest k ≡ some pair
      → known_of pair ≡ some outcome
      → index + k < length s.outcomes
      → get_elem? (Grouped.outcomes (after index rest s)) (index + k) ≡ some (some outcome)
  after-known index k [] s pair outcome at e h = cc
  after-known index zero (first ∷ rest) s pair outcome at e h =
      let here : index + 0 ≡ index = omega arith in
      rw here (
        after-early (suc index) index rest (step s index first (known_of first)) (omega arith)
        ∙ step-here s index first (known_of first) outcome
            (ap known_of (some_injective first pair at) ∙ e) (omega arith))
  after-known index (suc k) (first ∷ rest) s pair outcome at e h =
      let shift : index + suc k ≡ suc index + k = omega arith in
      rw shift (
        after-known (suc index) k rest (step s index first (known_of first)) pair outcome at e
          (omega (arith, step-length s index first (known_of first))))

  -- A pair of which nothing is known is a member of a group.
  pub after-member :
      (index k : ℕ) (rest : List PendingPair) (s : Grouped) (pair : PendingPair)
      → get_elem? rest k ≡ some pair
      → known_of pair ≡ none
      → covered (index + k) (Grouped.groups (after index rest s)) ≡ true
  after-member index k [] s pair at e = cc
  after-member index zero (first ∷ rest) s pair at e =
      let here : index + 0 ≡ index = omega arith in
      rw here (
        after-covered (suc index) index rest (step s index first (known_of first)) (
          step-member s index first (known_of first)
            (ap known_of (some_injective first pair at) ∙ e)))
  after-member index (suc k) (first ∷ rest) s pair at e =
      let shift : index + suc k ≡ suc index + k = omega arith in
      rw shift (after-member (suc index) k rest (step s index first (known_of first)) pair at e)

  pub known_at-some :
      (j : ℕ) (pair : PendingPair) → get_elem? pending j ≡ some pair → known_at j ≡ known_of pair
  known_at-some j pair e = rw (e, known_at)

  -- A slot of a pair of which nothing is known stays as it was.
  pub after-unknown :
      (index j : ℕ) (rest : List PendingPair) (s : Grouped)
      → Behind index rest
      → known_at j ≡ none
      → get_elem? (Grouped.outcomes (after index rest s)) j ≡ get_elem? s.outcomes j
  after-unknown index j [] s b h = refl
  after-unknown index j (pair ∷ rest) s b h =
      after-unknown (suc index) j rest _ (Behind-suc index pair rest b) h
      ∙ step-other s index j pair (known_of pair) (where_else (Bool-cases (index == j)))
    where
      at_index : get_elem? pending index ≡ some pair
      at_index = let e : index ≡ index + 0 = omega arith in rw e (b 0)

      false≢true : false ≡ true → ⊥
      false≢true e = cc

      where_else :
          ((index == j) ≡ true) ⊎ ((index == j) ≡ false) → (known_of pair ≡ none) ⊎ (index ≢ j)
      where_else (inr other) = inr (λ e. false≢true (sym other ∙ (==_iff index j).1 e))
      where_else (inl here) =
          inl (sym (known_at-some index pair at_index) ∙ ap known_at ((==_iff index j).0 here) ∙ h)
