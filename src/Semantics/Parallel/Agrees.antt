-- ===== src/Semantics/Parallel/Agrees.antt =====
-- A parallel page and a sequential one give each pair the same outcome.
use texo.Base.{
  ℕ, zero, suc, ◌+◌, ◌<◌, ◌≡◌, refl, ap, ◌∙◌, true, false, Bool-cases, Option, none, some, List, [],
  ◌∷◌, arith, inl, inr, length, get_elem?, map, unwrap_or, if◌then◌else◌, ltb, subst,
}
use mathlib.Core.List.{Memᴰ}
use texo.Base.Number.{number_ord}
use texo.Base.Order.{cmp}
use texo.Base.Sort.{Mem-sort_by}
use texo.Semantics.{Claims, PairOutcome, PendingPair, Relater}
use texo.Semantics.Pairs.{Settled}
use texo.Semantics.Acquire.{known, acquire_sequential, acquire_each, budget_exhausted}
use texo.Semantics.Workers.{Pool, Reach, IsDone, collected, outcome_at}
use texo.Semantics.Workers.Conserved.{count}
use texo.Semantics.Workers.Results.{results_collected}
use texo.Semantics.Parallel.{
  Texts, Groups, Grouped, no_outcomes, grouped, first_member, heads, representatives,
  acquire_parallel, acquired,
}
use texo.Semantics.Parallel.Members.{is_member, covered, AllGroups}
use texo.Semantics.Parallel.Groups.{
  IsMember, IsGroup, after-IsGroup, after-IsOrdered, after-length, after-known, after-member,
}
use texo.Semantics.Parallel.Fan.{HasHead, get-fan_out, length-fan_out, is_member-IsMember}

-- The outcome in a slot; a slot that nothing filled is a call that was not made.
abbrev fill : Option PairOutcome → PairOutcome
fill slot = unwrap_or slot (PairOutcome.failed budget_exhausted)

length-no_outcomes : (pending : List PendingPair) → length (no_outcomes pending) ≡ length pending
length-no_outcomes [] = refl
length-no_outcomes (pair ∷ pending) = ap suc (length-no_outcomes pending)

count-Mem : (job : ℕ) (jobs : List ℕ) → Memᴰ job jobs → ltb 0 (count job jobs) ≡ true
count-Mem job [] m = elim m [ ]
count-Mem job (x ∷ xs) (Memᴰ.head e) = ground arith
count-Mem job (x ∷ xs) (Memᴰ.tail m) = ground (arith, count-Mem job xs m)

zero_add : (n : ℕ) → 0 + n ≡ n
zero_add n = omega arith

get_elem?-length :
    (pending : List PendingPair) (j : ℕ) (pair : PendingPair)
    → get_elem? pending j ≡ some pair
    → j < length pending
get_elem?-length [] j pair e = cc
get_elem?-length (p ∷ pending) zero pair e = omega arith
get_elem?-length (p ∷ pending) (suc j) pair e = omega (arith, get_elem?-length pending j pair e)

module _ (claims : Claims) (relate : Relater) (settled : Settled) where
  -- A slot of each list against the pair that stands there.
  agree :
      (slots : List (Option PairOutcome)) (pending : List PendingPair)
      → length slots ≡ length pending
      → ((j : ℕ) (pair : PendingPair)
          → get_elem? pending j ≡ some pair
          → get_elem? slots j ≡ some (some (acquire_sequential claims relate settled pair false)))
      → map fill slots ≡ acquire_each claims relate settled pending (λ k. false)
  agree [] [] h each = refl
  agree [] (pair ∷ pending) h each = absurd (omega (arith, h))
  agree (slot ∷ slots) [] h each = absurd (omega (arith, h))
  agree (slot ∷ slots) (pair ∷ pending) h each =
      let first : slot ≡ some (acquire_sequential claims relate settled pair false) =
        cc (each 0 pair refl) in
      rw (first, agree slots pending (omega (arith, h)) (λ j p e. each (suc j) p e)) refl

module _ (claims : Claims) (relate : Relater) (settled : Settled) (pending : List PendingPair) where
  groups_of : Groups
  groups_of = Grouped.groups (grouped claims relate settled pending)

  behind : (k : ℕ) → get_elem? pending (0 + k) ≡ get_elem? pending k
  behind k = ap (get_elem? pending) (zero_add k)

  unknown_known :
      (one two : PendingPair) (o : PairOutcome) (j : ℕ)
      → get_elem? pending j ≡ some one
      → get_elem? pending j ≡ some two
      → known claims relate settled one ≡ none
      → known claims relate settled two ≡ some o
      → ⊥
  unknown_known one two o j a b e f = cc (a, b, e, f)

  covered-IsMember :
      (j : ℕ) (groups : Groups)
      → AllGroups (IsGroup claims relate settled pending) groups
      → covered j groups ≡ true
      → (texts : Texts) × IsMember claims relate settled pending texts j
  covered-IsMember j [] all h = cc
  covered-IsMember j ((texts, members) ∷ groups) all h = elim (Bool-cases (is_member j members)) [
    | inl inside ↦
        (texts, is_member-IsMember claims relate settled pending members j texts inside (all.0).0)
    | inr outside ↦ covered-IsMember j groups all.1 (ground arith)
  ]

  module _ (capacity : ℕ) where
    heads_answered :
        {n : ℕ} {s : Pool PairOutcome} (groups : Groups)
        → Reach
            (PairOutcome.failed budget_exhausted)
            (outcome_at claims relate pending)
            capacity
            (representatives claims relate settled pending)
            n
            s
        → IsDone s
        → s.expired ≡ false
        → ((job : ℕ)
            → Memᴰ job (heads claims relate settled groups)
            → Memᴰ job (
                heads claims relate settled
                  (Grouped.groups (grouped claims relate settled pending))))
        → AllGroups (HasHead claims relate settled pending (collected s)) groups
    unfolding representatives
    heads_answered [] r done still inside = tt
    heads_answered ((texts, members) ∷ groups) r done still inside = (
      (results_collected (PairOutcome.failed budget_exhausted) (outcome_at claims relate pending)
              capacity (representatives claims relate settled pending) (first_member members) r
              done).1
            still
          ∙ rw
              (count-Mem (first_member members) (representatives claims relate settled pending) (
                Mem-sort_by (cmp {A = ℕ}) (first_member members)
                  (heads claims relate settled
                    (Grouped.groups (grouped claims relate settled pending)))
                  (inside (first_member members) (Memᴰ.head refl))))
              refl,
      heads_answered groups r done still (λ job m. inside job (Memᴰ.tail m)),
    )

    -- What the two loops leave in the slot of a pair.
    slot_value :
        (j : ℕ) (pair : PendingPair) (found : Option PairOutcome)
        → get_elem? pending j ≡ some pair
        → known claims relate settled pair ≡ found
        → (if covered j (Grouped.groups (grouped claims relate settled pending))
            then some (some (outcome_at claims relate pending j))
            else get_elem? (Grouped.outcomes (grouped claims relate settled pending)) j)
          ≡ some (some (acquire_sequential claims relate settled pair false))
    unfolding acquire_sequential
    slot_value j pair none at e =
        let inside : covered j (Grouped.groups (grouped claims relate settled pending)) ≡ true =
          subst
            (λ (i : ℕ). covered i (Grouped.groups (grouped claims relate settled pending)) ≡ true)
            (zero_add j) (after-member claims relate settled pending 0 j pending _ pair at e) in
        rw (inside, e, outcome_at, at) refl
    slot_value j pair (some o) at e =
        elim (Bool-cases (covered j (Grouped.groups (grouped claims relate settled pending)))) [
          | inl inside ↦
              let m : (texts : Texts) × IsMember claims relate settled pending texts j =
                covered-IsMember j (Grouped.groups (grouped claims relate settled pending))
                  (after-IsGroup claims relate settled pending 0 pending _ behind tt) inside in
              absurd (unknown_known (m.1).0 pair o j ((m.1).1) at ((m.1).3) e)
          | inr outside ↦
              rw (outside, e)
                (subst
                  (λ (i : ℕ).
                    get_elem? (Grouped.outcomes (grouped claims relate settled pending)) i
                    ≡ some (some o))
                  (zero_add j)
                  (after-known claims relate settled pending 0 j pending _ pair o at e (
                    omega (arith, length-no_outcomes pending, get_elem?-length pending j pair at))))
        ]

    -- When the threads have answered every representative of a page and the time was not over, the
    -- parallel page gives each pair exactly the outcome that the sequential loop gives it with no
    -- deadline: known verdicts and failures stay, and pairs with the same texts share one call.
    pub acquired-acquire_each :
        {n : ℕ} {s : Pool PairOutcome}
        → Reach
            (PairOutcome.failed budget_exhausted)
            (outcome_at claims relate pending)
            capacity
            (representatives claims relate settled pending)
            n
            s
        → IsDone s
        → s.expired ≡ false
        → acquired claims relate settled pending (collected s)
          ≡ acquire_each claims relate settled pending (λ k. false)
    unfolding acquire_parallel
    acquired-acquire_each {s} r done still =
        agree claims relate settled (acquire_parallel claims relate settled pending (collected s))
          pending
          (length-fan_out claims relate settled pending g.groups (collected s) g.outcomes
            ∙ length_outcomes)
          slot
      where
        g : Grouped
        g = grouped claims relate settled pending

        length_outcomes : length g.outcomes ≡ length pending
        length_outcomes =
            after-length claims relate settled pending 0 pending _ ∙ length-no_outcomes pending

        slot :
            (j : ℕ) (pair : PendingPair)
            → get_elem? pending j ≡ some pair
            → get_elem? (acquire_parallel claims relate settled pending (collected s)) j
              ≡ some (some (acquire_sequential claims relate settled pair false))
        slot j pair at =
            get-fan_out claims relate settled pending g.groups (collected s) g.outcomes j
              (after-IsOrdered claims relate settled pending 0 pending _ tt)
              (after-IsGroup claims relate settled pending 0 pending _ behind tt)
              (heads_answered g.groups r done still (λ job m. m))
              (omega (arith, length_outcomes, get_elem?-length pending j pair at))
            ∙ slot_value j pair (known claims relate settled pair) at refl
