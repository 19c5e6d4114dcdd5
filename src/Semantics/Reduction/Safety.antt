-- ===== src/Semantics/Reduction/Safety.antt =====
-- What a reduction publishes: no claim that lacks evidence, and no conflict of a replaced claim.
use texo.Base.{
  ℕ, ◌≡◌, ◌≢◌, refl, ap, Bool, true, false, List, [], ◌∷◌, ◌||◌, All, All-append, fold, fold_inv,
  inl, inr, Bool-cases,
}
use texo.Base.Text.{Text, text_ord}
use texo.Base.Map.{
  BTreeMap, BTreeSet, insert, contains_key, contains_key-insert_self, contains_key-insert_of,
}
use texo.Base.Sort.{by_key, All-sort_by}
use texo.Semantics.{
  Claims, ConflictEntry, HeldDecision, PendingPair, PairOutcome, SupersessionEdge, UnresolvedPair,
  id_at,
}
use texo.Semantics.Policy.{RelateTemporalPolicy}
use texo.Semantics.Reduction.Rows.{judgments_of, unresolved_of, collect-rows}
use texo.Semantics.Reduction.{PairReduction, collect_pair_reduction, zip}
use texo.Semantics.Reduction.Decide.{
  Replaced, Contested, ReducedOutcome, RelatedClaims, replace_claim, reduce_supersessions,
  reduce_conflict, reduce_conflicts, conflict_entry, settle_conflict, tainted_of, taint_pair,
  taint_claim, decide, reduce_outcomes, edge_order,
}

-- A claim is in a set of claims.
abbrev Has : BTreeSet Text → Text → Type 0
Has s id = contains_key s id ≡ true

abbrev Lacks : BTreeSet Text → Text → Type 0
Lacks s id = contains_key s id ≡ false

apart : (s : BTreeSet Text) (a b : Text) → Has s a → Lacks s b → a ≢ b
apart s a b h k e = cc (ap (contains_key s) e)

-- An edge is of a claim that is in `superseded` and not tainted.
abbrev Noted : BTreeSet Text → BTreeSet Text → SupersessionEdge → Type 0
Noted tainted superseded edge = Has superseded edge.0 × Lacks tainted edge.0

All-Noted :
    (tainted superseded : BTreeSet Text) (id : Text) (edges : List SupersessionEdge)
    → All (Noted tainted superseded) edges
    → All (Noted tainted (insert superseded id tt)) edges
All-Noted tainted superseded id [] a = tt
All-Noted tainted superseded id (edge ∷ edges) a = (
  (contains_key-insert_of superseded id edge.0 tt (a.0).0, (a.0).1),
  All-Noted tainted superseded id edges a.1,
)

-- A conflict is of two claims that are neither tainted nor superseded.
abbrev Open : BTreeSet Text → BTreeSet Text → ConflictEntry → Type 0
Open tainted superseded entry =
    Lacks tainted (ConflictEntry.claim_a entry)
    × Lacks tainted (ConflictEntry.claim_b entry)
    × Lacks superseded (ConflictEntry.claim_a entry)
    × Lacks superseded (ConflictEntry.claim_b entry)

module _ (claims : Claims) (tainted : BTreeSet Text) where
  abbrev EdgesNoted : Replaced → Type 0
  EdgesNoted s = All (Noted tainted s.superseded) s.supersessions

  replace_claim-EdgesNoted :
      (s : Replaced) (w : ℕ × ℕ) → EdgesNoted s → EdgesNoted (replace_claim claims tainted s w)
  unfolding replace_claim
  replace_claim-EdgesNoted s (old, new) noted =
      elim (Bool-cases (contains_key tainted (id_at claims old))) [
        | inl held ↦ rw held noted
        | inr free ↦ rw free (
            All-append (Noted tainted (insert s.superseded (id_at claims old) tt)) s.supersessions _
              (All-Noted tainted s.superseded (id_at claims old) s.supersessions noted)
              ((contains_key-insert_self s.superseded (id_at claims old) tt, free), tt))
      ]

  pub reduce_supersessions-Noted :
      (winners : BTreeMap ℕ ℕ) → EdgesNoted (reduce_supersessions claims tainted winners)
  unfolding reduce_supersessions
  reduce_supersessions-Noted winners =
      let start : Replaced = record { superseded = []; supersessions = []; held = [] } in
      let found : Replaced = fold (replace_claim claims tainted) start winners in
      All-sort_by edge_order (Noted tainted found.superseded) found.supersessions (
        fold_inv EdgesNoted (replace_claim claims tainted) replace_claim-EdgesNoted winners start
          tt)

  module _ (hash : Text → Text) (superseded : BTreeSet Text) where
    abbrev ConflictsOpen : Contested → Type 0
    ConflictsOpen s = All (Open tainted superseded) s.conflicts

    settle_conflict-ConflictsOpen :
        (s : Contested) (entry : ConflictEntry)
        → ConflictsOpen s
        → ConflictsOpen (settle_conflict claims tainted hash superseded s entry)
    settle_conflict-ConflictsOpen s entry fine =
        elim (Bool-cases (
          contains_key tainted (ConflictEntry.claim_a entry)
          || contains_key tainted (ConflictEntry.claim_b entry))) [
            | inl held ↦ rw held fine
            | inr untainted ↦
                elim (Bool-cases (
                  contains_key superseded (ConflictEntry.claim_a entry)
                  || contains_key superseded (ConflictEntry.claim_b entry))) [
                    | inl replaced ↦ rw (untainted, replaced) fine
                    | inr current ↦
                        rw (untainted, current)
                          (All-append (Open tainted superseded) s.conflicts _ fine (
                            (
                              (neither _ _ untainted).0,
                              (neither _ _ untainted).1,
                              (neither _ _ current).0,
                              (neither _ _ current).1,
                            ),
                            tt,
                          ))
                  ]
          ]
      where
        neither : (a b : Bool) → (a || b) ≡ false → (a ≡ false) × (b ≡ false)
        neither true b h = cc
        neither false b h = (refl, h)

    reduce_conflict-ConflictsOpen :
        (s : Contested) (pair : ℕ × ℕ)
        → ConflictsOpen s
        → ConflictsOpen (reduce_conflict claims tainted hash superseded s pair)
    unfolding reduce_conflict
    reduce_conflict-ConflictsOpen s (i, j) fine =
        let entry = conflict_entry claims tainted hash superseded i j in
        elim (Bool-cases (contains_key s.seen (ConflictEntry.conflict_id entry))) [
          | inl old ↦ rw old fine
          | inr new ↦ rw new (settle_conflict-ConflictsOpen _ entry fine)
        ]

    pub reduce_conflicts-Open :
        (conflict_pairs : List (ℕ × ℕ)) (held : List HeldDecision)
        → ConflictsOpen (reduce_conflicts claims tainted hash superseded conflict_pairs held)
    unfolding reduce_conflicts
    reduce_conflicts-Open conflict_pairs held =
        let start : Contested = record { seen = []; conflicts = []; held = held } in
        let found : Contested =
          fold (reduce_conflict claims tainted hash superseded) start conflict_pairs in
        All-sort_by (by_key ConflictEntry.conflict_id) (Open tainted superseded) found.conflicts (
          fold_inv ConflictsOpen (reduce_conflict claims tainted hash superseded)
            reduce_conflict-ConflictsOpen conflict_pairs start tt)

-- Both claims of an unresolved pair are tainted.
abbrev Tainted : BTreeSet Text → UnresolvedPair → Type 0
Tainted tainted pair =
    Has tainted (UnresolvedPair.old_claim pair) × Has tainted (UnresolvedPair.new_claim pair)

taint_pairs-Has :
    (pairs : List UnresolvedPair) (s : BTreeSet Text) (id : Text)
    → Has s id
    → Has (fold taint_pair s pairs) id
taint_pairs-Has [] s id h = h
taint_pairs-Has (pair ∷ pairs) s id h = taint_pairs-Has pairs (taint_pair s pair) id (
    contains_key-insert_of _ (UnresolvedPair.new_claim pair) id tt
      (contains_key-insert_of s (UnresolvedPair.old_claim pair) id tt h))

taint_claims-Has :
    (claims : Claims) (indices : BTreeSet ℕ) (s : BTreeSet Text) (id : Text)
    → Has s id
    → Has (fold (taint_claim claims) s indices) id
taint_claims-Has claims [] s id h = h
taint_claims-Has claims ((index, done) ∷ indices) s id h =
    taint_claims-Has claims indices (insert s (id_at claims index) tt) id
      (contains_key-insert_of s (id_at claims index) id tt h)

taint_pairs-Tainted :
    (pairs : List UnresolvedPair) (s : BTreeSet Text)
    → All (Tainted (fold taint_pair s pairs)) pairs
taint_pairs-Tainted [] s = tt
taint_pairs-Tainted (pair ∷ pairs) s = (
  (
    taint_pairs-Has pairs (taint_pair s pair) (UnresolvedPair.old_claim pair) (
        contains_key-insert_of _ (UnresolvedPair.new_claim pair) (UnresolvedPair.old_claim pair) tt
          (contains_key-insert_self s (UnresolvedPair.old_claim pair) tt)),
    taint_pairs-Has pairs (taint_pair s pair) (UnresolvedPair.new_claim pair)
        (contains_key-insert_self _ (UnresolvedPair.new_claim pair) tt),
  ),
  taint_pairs-Tainted pairs (taint_pair s pair),
)

-- A stronger predicate at every element.
All-map {ℓ κ μ} :
    {A : Type ℓ} (P : A → Type κ) (Q : A → Type μ)
    → ((a : A) → P a → Q a)
    → (xs : List A) → All P xs
    → All Q xs
All-map P Q step [] h = tt
All-map P Q step (x ∷ xs) h = (step x h.0, All-map P Q step xs h.1)

tainted_of-Tainted :
    (claims : Claims) (r : PairReduction) → All (Tainted (tainted_of claims r)) r.unresolved
unfolding tainted_of
tainted_of-Tainted claims r =
    let pairs = fold taint_pair [] r.unresolved in
    All-map (Tainted pairs) (Tainted (fold (taint_claim claims) pairs r.ambiguous_winners))
      (λ (pair : UnresolvedPair) (h : Tainted pairs pair). (
        taint_claims-Has claims r.ambiguous_winners pairs (UnresolvedPair.old_claim pair) h.0,
        taint_claims-Has claims r.ambiguous_winners pairs (UnresolvedPair.new_claim pair) h.1,
      ))
      r.unresolved (taint_pairs-Tainted r.unresolved [])

-- The claim is not one of the pair.
abbrev pub NotOf : Text → UnresolvedPair → Type 0
NotOf id pair = (UnresolvedPair.old_claim pair ≢ id) × (UnresolvedPair.new_claim pair ≢ id)

-- The replacement is of a claim whose pairs all have verdicts.
abbrev pub IsEvident : ReducedOutcome → SupersessionEdge → Type 0
IsEvident o edge = All (NotOf edge.0) (ReducedOutcome.unresolved o)

-- The conflict is of two claims whose pairs all have verdicts, and of which none is replaced.
abbrev pub IsCurrentConflict : ReducedOutcome → ConflictEntry → Type 0
IsCurrentConflict o entry =
    All (NotOf (ConflictEntry.claim_a entry)) (ReducedOutcome.unresolved o)
    × All (NotOf (ConflictEntry.claim_b entry)) (ReducedOutcome.unresolved o)
    × All
        (λ (edge : SupersessionEdge).
          (edge.0 ≢ ConflictEntry.claim_a entry) × (edge.0 ≢ ConflictEntry.claim_b entry))
        (RelatedClaims.supersessions (ReducedOutcome.related o))

module _ (hash : Text → Text) (claims : Claims) (r : PairReduction) where
  abbrev tainted : BTreeSet Text
  tainted = tainted_of claims r

  abbrev replaced : Replaced
  replaced = reduce_supersessions claims tainted r.winners

  untouched : (id : Text) → Lacks tainted id → All (NotOf id) r.unresolved
  untouched id free =
      All-map (Tainted tainted) (NotOf id)
        (λ (pair : UnresolvedPair) (h : Tainted tainted pair). (
          apart tainted (UnresolvedPair.old_claim pair) id h.0 free,
          apart tainted (UnresolvedPair.new_claim pair) id h.1 free,
        ))
        r.unresolved (tainted_of-Tainted claims r)

  decide_safe :
      All
        (IsEvident (decide hash claims r))
        (RelatedClaims.supersessions (ReducedOutcome.related (decide hash claims r)))
      × All
          (IsCurrentConflict (decide hash claims r))
          (RelatedClaims.conflicts (ReducedOutcome.related (decide hash claims r)))
  unfolding decide
  decide_safe = (
    All-map (Noted tainted replaced.superseded) (IsEvident (decide hash claims r))
        (λ (edge : SupersessionEdge) (h : Noted tainted replaced.superseded edge).
          untouched edge.0 h.1)
        replaced.supersessions noted,
    All-map (Open tainted replaced.superseded) (IsCurrentConflict (decide hash claims r))
        (λ (entry : ConflictEntry) (h : Open tainted replaced.superseded entry). (
          untouched (ConflictEntry.claim_a entry) h.0,
          untouched (ConflictEntry.claim_b entry) h.1,
          All-map (Noted tainted replaced.superseded)
              (λ (edge : SupersessionEdge).
                (edge.0 ≢ ConflictEntry.claim_a entry) × (edge.0 ≢ ConflictEntry.claim_b entry))
              (λ (edge : SupersessionEdge) (k : Noted tainted replaced.superseded edge). (
                apart replaced.superseded edge.0 (ConflictEntry.claim_a entry) k.0 h.2,
                apart replaced.superseded edge.0 (ConflictEntry.claim_b entry) k.0 h.3,
              ))
              replaced.supersessions noted,
        ))
        contested.conflicts
        (reduce_conflicts-Open claims tainted hash replaced.superseded r.conflict_pairs
          replaced.held),
  )
    where
      noted : All (Noted tainted replaced.superseded) replaced.supersessions
      noted = reduce_supersessions-Noted claims tainted r.winners

      contested : Contested
      contested =
          reduce_conflicts claims tainted hash replaced.superseded r.conflict_pairs replaced.held

-- What a reduction of rows returns: the verdicts and the failures in order; and of its decisions,
-- each replacement is of a claim that no pair without a verdict names, and each conflict is of two
-- claims that no pair without a verdict names and that no published replacement replaces.
pub reduce_outcomes_safe :
    (hash : Text → Text) (claims : Claims) (pending : List PendingPair)
    (outcomes : List PairOutcome) (temporal : RelateTemporalPolicy)
    → let o = reduce_outcomes hash claims pending outcomes temporal in
      (RelatedClaims.judgments (ReducedOutcome.related o) ≡ judgments_of (zip pending outcomes))
      × (ReducedOutcome.unresolved o ≡ unresolved_of claims temporal (zip pending outcomes))
      × All (IsEvident o) (RelatedClaims.supersessions (ReducedOutcome.related o))
      × All (IsCurrentConflict o) (RelatedClaims.conflicts (ReducedOutcome.related o))
unfolding reduce_outcomes
reduce_outcomes_safe hash claims pending outcomes temporal =
    let rows = zip pending outcomes in
    let safe = decide_safe hash claims (collect_pair_reduction claims temporal rows) in
    let lists = collect-rows claims temporal rows in (lists.0, lists.1, safe.0, safe.1)
