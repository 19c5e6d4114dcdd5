-- ===== src/Semantics/Reduction/Rows.antt =====
-- The judgments and the unresolved pairs of a reduction, row by row.
use texo.Base.{
  ℕ, ◌≡◌, refl, sym, ap, ◌∙◌, Bool, true, false, Option, none, some, List, [], ◌∷◌, ◌++◌,
  append_assoc, append-nil, fold,
}
use texo.Base.Map.{get}
use texo.Base.Number.{number_ord}
use texo.Events.Settlement.{ClaimRelation}
use texo.Semantics.{
  Claims, PendingPair, PairJudgment, PairOutcome, RelationVerdict, UnresolvedPair, view_at,
}
use texo.Semantics.Policy.{RelateTemporalPolicy}
use texo.Semantics.Reduction.{
  PairReduction, SuccessorOrder, reduce_pair, add_successor, add_relation, contest, against, win_if,
  collect_pair_reduction, empty_reduction, compare_successors, unresolved_pair, is_newer,
}

abbrev pub judgments_of : List (PendingPair × PairOutcome) → List PairJudgment
judgments_of [] = []
judgments_of ((pair, PairOutcome.judged verdict reused) ∷ rows) =
    record {
      older_claim = PendingPair.older pair;
      newer_claim = PendingPair.newer pair;
      verdict = verdict;
      reused_authority = reused;
    }
    ∷ judgments_of rows
judgments_of ((pair, PairOutcome.failed failure) ∷ rows) = judgments_of rows

module _ (claims : Claims) (temporal : RelateTemporalPolicy) where
  abbrev pub unresolved_of : List (PendingPair × PairOutcome) → List UnresolvedPair
  unresolved_of [] = []
  unresolved_of ((pair, PairOutcome.judged verdict reused) ∷ rows) = unresolved_of rows
  unresolved_of ((pair, PairOutcome.failed failure) ∷ rows) =
      unresolved_pair (PendingPair.older pair) (PendingPair.newer pair)
        (view_at claims (PendingPair.old_idx pair)) (view_at claims (PendingPair.new_idx pair))
        failure
      ∷ unresolved_of rows

  abbrev SameLists : PairReduction → PairReduction → Type 0
  SameLists r s = (r.judgments ≡ s.judgments) × (r.unresolved ≡ s.unresolved)

  win_if-SameLists :
      (b : Bool) (r : PairReduction) (old new : ℕ)
      → SameLists (win_if claims temporal b r old new) r
  win_if-SameLists true r old new = (refl, refl)
  win_if-SameLists false r old new = (refl, refl)

  contest-SameLists :
      (r : PairReduction) (old new cur : ℕ) (order : SuccessorOrder)
      → SameLists (contest claims temporal r old new cur order) r
  contest-SameLists r old new cur SuccessorOrder.candidate = (refl, refl)
  contest-SameLists r old new cur SuccessorOrder.current = (refl, refl)
  contest-SameLists r old new cur SuccessorOrder.ambiguous =
      win_if-SameLists (is_newer claims temporal new cur) _ old new

  against-SameLists :
      (r : PairReduction) (old new : ℕ) (found : Option ℕ)
      → SameLists (against claims temporal r old new found) r
  against-SameLists r old new none = (refl, refl)
  against-SameLists r old new (some cur) =
      contest-SameLists r old new cur (compare_successors claims temporal cur new)

  add_relation-SameLists :
      (r : PairReduction) (pair : PendingPair) (relation : ClaimRelation)
      → SameLists (add_relation claims temporal r pair relation) r
  unfolding add_successor
  add_relation-SameLists r pair ClaimRelation.supersedes =
      against-SameLists r (PendingPair.old_idx pair) (PendingPair.new_idx pair)
        (get r.winners (PendingPair.old_idx pair))
  add_relation-SameLists r pair ClaimRelation.conflict = (refl, refl)
  add_relation-SameLists r pair ClaimRelation.duplicate = (refl, refl)
  add_relation-SameLists r pair ClaimRelation.unrelated = (refl, refl)

  fold-rows :
      (rows : List (PendingPair × PairOutcome)) (r : PairReduction)
      → let s = fold (reduce_pair claims temporal) r rows in
        (s.judgments ≡ r.judgments ++ judgments_of rows)
        × (s.unresolved ≡ r.unresolved ++ unresolved_of rows)
  unfolding reduce_pair
  fold-rows [] r = (sym (append-nil r.judgments), sym (append-nil r.unresolved))
  fold-rows ((pair, PairOutcome.judged verdict reused) ∷ rows) r =
      let judgment : PairJudgment = record {
        older_claim = PendingPair.older pair;
        newer_claim = PendingPair.newer pair;
        verdict = verdict;
        reused_authority = reused;
      } in
      let noted : PairReduction = record r { judgments = r.judgments ++ (judgment ∷ []) } in
      let same = add_relation-SameLists noted pair (RelationVerdict.relation verdict) in
      let rest =
        fold-rows rows
          (add_relation claims temporal noted pair (RelationVerdict.relation verdict)) in
      (
        rest.0
            ∙ ap (λ (js : List PairJudgment). js ++ judgments_of rows) same.0
            ∙ append_assoc r.judgments (judgment ∷ []) (judgments_of rows),
        rest.1 ∙ ap (λ (us : List UnresolvedPair). us ++ unresolved_of rows) same.1,
      )
  fold-rows ((pair, PairOutcome.failed failure) ∷ rows) r =
      let rest =
        fold-rows rows (reduce_pair claims temporal r (pair, PairOutcome.failed failure)) in
      (rest.0, rest.1 ∙ append_assoc r.unresolved _ (unresolved_of rows))

  -- The judgments are the verdicts and the unresolved pairs are the failures, each in order.
  pub collect-rows :
      (rows : List (PendingPair × PairOutcome))
      → (PairReduction.judgments (collect_pair_reduction claims temporal rows) ≡ judgments_of rows)
        × (PairReduction.unresolved (collect_pair_reduction claims temporal rows)
            ≡ unresolved_of rows)
  unfolding collect_pair_reduction
  collect-rows rows = fold-rows rows empty_reduction
