-- ===== src/Semantics/Parallel/Fan.antt =====
-- The second loop of a parallel page: the outcome of each group goes to all of its members.
use texo.Base.{
  ℕ, ◌<◌, ◌≡◌, ◌≢◌, refl, sym, ap, ◌∙◌, true, false, Bool-cases, Option, some, List, [], ◌∷◌, ◌==◌,
  ==_iff, if◌then◌else◌, arith, All, inl, inr, length, get_elem?, unwrap_or, fold, subst,
}
use Prim.Native.Nat.{Ordering}
use texo.Base.Number.{number_ord}
use texo.Base.Order.{cmp, cmp_refl, same, same_iff}
use texo.Base.Text.{text_ord}
use texo.Base.Pairs.{pair_ord}
use texo.Base.Map.{BTreeMap, get, remove, get-remove_other, IsOrdered, Above}
use texo.Semantics.{Claims, PairOutcome, PendingPair, Relater}
use texo.Semantics.Pairs.{Settled}
use texo.Semantics.Acquire.{judge, answer, budget_exhausted}
use texo.Semantics.Workers.{outcome_at}
use texo.Semantics.Parallel.{Texts, Groups, first_member, spread, fan_out, texts_of}
use texo.Semantics.Slots.{length-set, set_here, set_other, set_outcome}
use texo.Semantics.Parallel.Members.{is_member, covered, AllGroups}
use texo.Semantics.Parallel.Groups.{IsMember, IsGroup}

false≢true : false ≡ true → ⊥
false≢true e = cc

module _ (claims : Claims) (relate : Relater) (settled : Settled) (pending : List PendingPair) where
  -- What the judge answers on two texts.
  abbrev judge_texts : Texts → PairOutcome
  judge_texts texts = answer claims relate (relate texts.0 texts.1)

  member-outcome :
      (texts : Texts) (j : ℕ)
      → IsMember claims relate settled pending texts j
      → outcome_at claims relate pending j ≡ judge_texts texts
  unfolding judge
  member-outcome texts j m = rw (m.1, outcome_at) (ap judge_texts m.2)

  pub is_member-IsMember :
      (members : List ℕ) (j : ℕ) (texts : Texts)
      → is_member j members ≡ true
      → All (IsMember claims relate settled pending texts) members
      → IsMember claims relate settled pending texts j
  is_member-IsMember [] j texts h a = absurd (false≢true h)
  is_member-IsMember (m ∷ members) j texts h a = elim (Bool-cases (m == j)) [
    | inl here ↦ subst (IsMember claims relate settled pending texts) ((==_iff m j).0 here) a.0
    | inr other ↦ is_member-IsMember members j texts (ground arith) a.1
  ]

  length-spread :
      (o : PairOutcome) (members : List ℕ) (outcomes : List (Option PairOutcome))
      → length (fold (spread claims relate settled o) outcomes members) ≡ length outcomes
  length-spread o [] outcomes = refl
  length-spread o (m ∷ members) outcomes =
      length-spread o members (set_outcome outcomes m o) ∙ length-set outcomes m o

  get-spread :
      (o : PairOutcome) (members : List ℕ) (outcomes : List (Option PairOutcome)) (j : ℕ)
      → j < length outcomes
      → get_elem? (fold (spread claims relate settled o) outcomes members) j
        ≡ (if is_member j members then some (some o) else get_elem? outcomes j)
  get-spread o [] outcomes j h = refl
  get-spread o (m ∷ members) outcomes j h =
      get-spread o members (set_outcome outcomes m o) j (omega (arith, length-set outcomes m o))
      ∙ elim (Bool-cases (m == j)) [
        | inl here ↦
            let at : get_elem? (set_outcome outcomes m o) j ≡ some (some o) =
              let e : m ≡ j = (==_iff m j).0 here in
              subst (λ (i : ℕ). get_elem? (set_outcome outcomes m o) i ≡ some (some o)) e
                (set_here outcomes m o (omega arith)) in
            rw (at, here) (ground arith)
        | inr other ↦
            rw (other, set_other outcomes m j o (λ e. false≢true (sym other ∙ (==_iff m j).1 e)))
              refl
      ]

  -- The outcome of the first member of each group is among the results.
  abbrev pub HasHead : BTreeMap ℕ PairOutcome → Texts → List ℕ → Type 0
  HasHead results texts members =
      get results (first_member members)
      ≡ some (outcome_at claims relate pending (first_member members))

  head-IsMember :
      (texts : Texts) (members : List ℕ)
      → IsGroup claims relate settled pending texts members
      → IsMember claims relate settled pending texts (first_member members)
  head-IsMember texts [] g = absurd (g.1 refl)
  head-IsMember texts (m ∷ members) g = (g.0).0

  apart_texts : (t u : Texts) → cmp t u ≡ Ordering.lt → t ≢ u
  apart_texts t u below e = cc (below, cmp_refl t, ap (λ (v : Texts). cmp t v) e)

  some_injective : {a b : PendingPair} → some a ≡ some b → a ≡ b
  some_injective e = cc

  -- Groups of different texts have different first members.
  heads_apart :
      (t u : Texts) (ms ns : List ℕ)
      → cmp t u ≡ Ordering.lt
      → IsGroup claims relate settled pending t ms
      → IsGroup claims relate settled pending u ns
      → same {A = ℕ} (first_member ms) (first_member ns) ≡ false
  heads_apart t u ms ns below g k = elim (Bool-cases (same (first_member ms) (first_member ns))) [
    | inr apart ↦ apart
    | inl level ↦
        let e : first_member ms ≡ first_member ns =
          (same_iff (first_member ms) (first_member ns)).0 level in
        let one : IsMember claims relate settled pending t (first_member ms) =
          head-IsMember t ms g in
        let two : IsMember claims relate settled pending u (first_member ns) =
          head-IsMember u ns k in
        let equal : one.0 ≡ two.0 = some_injective (sym one.1 ∙ ap (get_elem? pending) e ∙ two.1) in
        absurd
          (apart_texts t u below (sym one.2 ∙ ap (texts_of claims relate settled) equal ∙ two.2))
  ]

  HasHead-remove :
      (t : Texts) (ms : List ℕ) (groups : Groups) (results : BTreeMap ℕ PairOutcome)
      → Above t groups
      → IsGroup claims relate settled pending t ms
      → AllGroups (IsGroup claims relate settled pending) groups
      → AllGroups (HasHead results) groups
      → AllGroups (HasHead (remove results (first_member ms))) groups
  HasHead-remove t ms [] results above g all has = tt
  HasHead-remove t ms ((u, ns) ∷ groups) results above g all has = (
    get-remove_other results (first_member ms) (first_member ns)
          (heads_apart t u ms ns above.0 g all.0)
        ∙ has.0,
    HasHead-remove t ms groups results above.1 g all.1 has.1,
  )

  -- The slot of each member gets what a live call gives for it.
  pub get-fan_out :
      (groups : Groups) (results : BTreeMap ℕ PairOutcome) (outcomes : List (Option PairOutcome))
      (j : ℕ)
      → IsOrdered groups
      → AllGroups (IsGroup claims relate settled pending) groups
      → AllGroups (HasHead results) groups
      → j < length outcomes
      → get_elem? (fan_out claims relate settled groups results outcomes) j ≡ (
          if covered j groups
          then some (some (outcome_at claims relate pending j))
          else get_elem? outcomes j)
  get-fan_out [] results outcomes j ordered all has h = refl
  get-fan_out ((t, ms) ∷ groups) results outcomes j ordered all has h =
      get-fan_out groups (remove results (first_member ms))
        (fold (spread claims relate settled o) outcomes ms) j ordered.1 all.1
        (HasHead-remove t ms groups results ordered.0 all.0 all.1 has.1)
        (omega (arith, length-spread o ms outcomes))
      ∙ elim (Bool-cases (is_member j ms)) [
        | inl inside ↦ rw (spread_at, inside, one_outcome inside) (ground arith)
        | inr outside ↦ rw (spread_at, outside) refl
      ]
    where
      o : PairOutcome
      o = unwrap_or (get results (first_member ms)) (PairOutcome.failed budget_exhausted)

      spread_at :
          get_elem? (fold (spread claims relate settled o) outcomes ms) j
          ≡ (if is_member j ms then some (some o) else get_elem? outcomes j)
      spread_at = get-spread o ms outcomes j h

      one_outcome : is_member j ms ≡ true → o ≡ outcome_at claims relate pending j
      one_outcome inside = rw (has.0) (
          member-outcome t (first_member ms) (head-IsMember t ms all.0)
          ∙ sym (member-outcome t j (is_member-IsMember ms j t inside (all.0).0)))

  pub length-fan_out :
      (groups : Groups) (results : BTreeMap ℕ PairOutcome) (outcomes : List (Option PairOutcome))
      → length (fan_out claims relate settled groups results outcomes) ≡ length outcomes
  length-fan_out [] results outcomes = refl
  length-fan_out ((t, ms) ∷ groups) results outcomes =
      let o : PairOutcome =
        unwrap_or (get results (first_member ms)) (PairOutcome.failed budget_exhausted) in
      length-fan_out groups (remove results (first_member ms))
        (fold (spread claims relate settled o) outcomes ms)
      ∙ length-spread o ms outcomes
