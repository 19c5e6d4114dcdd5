-- ===== src/Semantics/Parallel/Members.antt =====
-- The groups of a parallel page as a map from texts to their members.
use texo.Base.{
  ℕ, ◌≡◌, Bool, true, false, Bool-cases, some, List, [], ◌∷◌, ◌++◌, ◌==◌, if◌then◌else◌, arith, inl,
  inr, unwrap_or, subst,
}
use texo.Base.Order.{Ord, same, same_iff, Ordering-cases}
use texo.Base.Text.{text_ord}
use texo.Base.Pairs.{pair_ord}
use texo.Base.Map.{BTreeMap, get, insert}

-- Whether an index is a member of some group.
abbrev pub is_member : ℕ → List ℕ → Bool
is_member j [] = false
is_member j (m ∷ ms) = if m == j then true else is_member j ms

module _ {K : Type 0} where
  abbrev pub covered : ℕ → BTreeMap K (List ℕ) → Bool
  covered j [] = false
  covered j ((texts, members) ∷ groups) = if is_member j members then true else covered j groups

  -- A predicate at every group.
  abbrev pub AllGroups {κ} : (K → List ℕ → Type κ) → BTreeMap K (List ℕ) → Type κ
  AllGroups P [] = Unit
  AllGroups P ((k, members) ∷ groups) = P k members × AllGroups P groups

pub is_member-last : (j : ℕ) (ms : List ℕ) → is_member j (ms ++ (j ∷ [])) ≡ true
is_member-last j [] = ground arith
is_member-last j (m ∷ ms) = ground (arith, is_member-last j ms)

is_member-left :
    (j i : ℕ) (ms : List ℕ) → is_member j ms ≡ true → is_member j (ms ++ (i ∷ [])) ≡ true
is_member-left j i [] h = cc
is_member-left j i (m ∷ ms) h = ground (arith, is_member-left j i ms)

module _ {K : Type 0} ⦃o : Ord K⦄ where
  pub covered-insert_self :
      (k : K) (members : List ℕ) (j : ℕ) (groups : BTreeMap K (List ℕ))
      → is_member j members ≡ true
      → covered j (insert groups k members) ≡ true
  unfolding insert
  covered-insert_self k members j [] h = rw h
  covered-insert_self k members j ((t, ms) ∷ groups) h =
      ground (arith, covered-insert_self k members j groups)

  -- The group of a key, empty where there is none, with one more member.
  abbrev pub grown : BTreeMap K (List ℕ) → K → ℕ → List ℕ
  grown groups k i = unwrap_or (get groups k) [] ++ (i ∷ [])

  -- A group that grows covers what was covered.
  pub covered-insert_of :
      (k : K) (i j : ℕ) (groups : BTreeMap K (List ℕ))
      → covered j groups ≡ true
      → covered j (insert groups k (grown groups k i)) ≡ true
  unfolding insert get
  covered-insert_of k i j [] h = cc
  covered-insert_of k i j ((t, ms) ∷ groups) h = elim (Ordering-cases (o.cmp k t)) [
    | inl below ↦ rw (below, insert) (ground arith)
    | inr (inl level) ↦
        let found : same t k ≡ true = ground (arith, o.cmp_flip k t) in
        rw (level, found, insert) (ground (arith, is_member-left j i ms))
    | inr (inr above) ↦
        let elsewhere : same t k ≡ false = ground (arith, o.cmp_flip k t) in
        rw (above, elsewhere, insert) (ground (arith, covered-insert_of k i j groups))
  ]

  module _ {κ} (P : K → List ℕ → Type κ) where
    pub AllGroups-insert :
        (k : K) (members : List ℕ) (groups : BTreeMap K (List ℕ))
        → P k members
        → AllGroups P groups
        → AllGroups P (insert groups k members)
    unfolding insert
    AllGroups-insert k members [] p a = (p, tt)
    AllGroups-insert k members ((t, ms) ∷ groups) p a = elim (Ordering-cases (o.cmp k t)) [
      | inl below ↦ rw (below, insert) (p, a)
      | inr (inl level) ↦ rw (level, insert) (p, a.1)
      | inr (inr above) ↦ rw (above, insert) (a.0, AllGroups-insert k members groups p a.1)
    ]

    pub AllGroups-get :
        (k : K) (members : List ℕ) (groups : BTreeMap K (List ℕ))
        → get groups k ≡ some members
        → AllGroups P groups
        → P k members
    unfolding get
    AllGroups-get k members [] e a = cc
    AllGroups-get k members ((t, ms) ∷ groups) e a = elim (Bool-cases (same t k)) [
      | inl here ↦
          let equal : ms ≡ members = ground arith in
          subst (λ (q : K). P q members) ((same_iff t k).0 here)
            (subst (λ (m : List ℕ). P t m) equal a.0)
      | inr other ↦ AllGroups-get k members groups (ground arith) a.1
    ]
