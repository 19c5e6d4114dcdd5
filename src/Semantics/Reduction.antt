-- ===== src/Semantics/Reduction.antt =====
-- src/semantics/pipeline/reduction.rs: replacements and conflicts, derived from the verdicts.
pub mod Decide
pub mod Safety
pub mod Rows
pub mod Newest
use texo.Base.{
  ℕ, zero, suc, min, max, Bool, true, false, Option, none, some, List, [], ◌∷◌, ◌++◌, if◌then◌else◌,
  ◌||◌, not, ltb, fold, map,
}
use Prim.Native.Nat.{Ordering}
use texo.Base.Order.{Ord, le, cmp, then_with}
use texo.Base.Text.{Text, bytes, text_ord, decimal}
use texo.Base.Number.{number_ord}
use texo.Base.Pairs.{pair_ord}
use texo.Base.Map.{BTreeMap, BTreeSet, get, insert, contains_key}
use texo.Base.Sort.{sort_by, by_key}
use texo.Events.Ids.{conflict_id_from_pair}
use texo.Events.Payloads.{TemporalRelation}
use texo.Events.Settlement.{ClaimRelation}
use texo.Semantics.{
  Claims, ClaimView, ConflictStatus, ConflictEntry, HeldDecision, PairFailureView, PairJudgment,
  PairOutcome, PendingPair, RelationVerdict, SupersessionEdge, UnresolvedPair, id_at, view_at,
  sequence_rank,
}
use texo.Semantics.Policy.{RelateTemporalPolicy, compare_claims}

pub record PairReduction : Type 0 where
  pub winners : BTreeMap ℕ ℕ
  pub ambiguous_winners : BTreeSet ℕ
  pub conflict_pairs : List (ℕ × ℕ)
  pub judgments : List PairJudgment
  pub unresolved : List UnresolvedPair

abbrev pub empty_reduction : PairReduction
empty_reduction = record {
  winners = [];
  ambiguous_winners = [];
  conflict_pairs = [];
  judgments = [];
  unresolved = [];
}

pub data SuccessorOrder : Type 0 where
  current candidate ambiguous : SuccessorOrder

-- `{path}:{line}`.
abbrev pub reference_of : ClaimView → Text
reference_of view = ClaimView.source_path view ++ (bytes ":" ++ decimal (ClaimView.line_start view))

unfoldable pub unresolved_pair :
    Text → Text → ClaimView → ClaimView → PairFailureView → UnresolvedPair
unresolved_pair old_claim new_claim old_view new_view failure = record {
  old_claim = old_claim;
  new_claim = new_claim;
  old_ref = reference_of old_view;
  new_ref = reference_of new_view;
  failure = failure;
}

module _ (claims : Claims) (temporal : RelateTemporalPolicy) where
  -- `(rank, index)`, by which the newest of several successors is chosen.
  abbrev pub newness : ℕ → ℕ × ℕ
  newness index = (sequence_rank (view_at claims index), index)

  abbrev pub is_newer : ℕ → ℕ → Bool
  is_newer new cur = not (le {A = ℕ × ℕ} (newness new) (newness cur))

  abbrev by_sequence : ℕ → ℕ → SuccessorOrder
  by_sequence cur new =
      if is_newer new cur then SuccessorOrder.candidate else SuccessorOrder.current

  abbrev order_of : ℕ → ℕ → Option TemporalRelation → SuccessorOrder
  order_of cur new none = by_sequence cur new
  order_of cur new (some TemporalRelation.same) = by_sequence cur new
  order_of cur new (some TemporalRelation.before) = SuccessorOrder.candidate
  order_of cur new (some TemporalRelation.after) = SuccessorOrder.current
  order_of cur new (some TemporalRelation.concurrent) = SuccessorOrder.ambiguous
  order_of cur new (some TemporalRelation.unknown) = SuccessorOrder.ambiguous

  unfoldable pub compare_successors : ℕ → ℕ → SuccessorOrder
  compare_successors cur new =
      order_of cur new (compare_claims temporal (id_at claims cur) (id_at claims new))

  abbrev pub win : PairReduction → ℕ → ℕ → PairReduction
  win r old new = record r { winners = insert r.winners old new }

  abbrev pub win_if : Bool → PairReduction → ℕ → ℕ → PairReduction
  win_if true r old new = win r old new
  win_if false r old new = r

  -- The new successor `new` of `old` against the one that was found before.
  abbrev pub contest : PairReduction → ℕ → ℕ → ℕ → SuccessorOrder → PairReduction
  contest r old new cur SuccessorOrder.candidate = win r old new
  contest r old new cur SuccessorOrder.current = r
  contest r old new cur SuccessorOrder.ambiguous =
      let noted = record r { ambiguous_winners = insert r.ambiguous_winners old tt } in
      win_if (is_newer new cur) noted old new

  abbrev pub against : PairReduction → ℕ → ℕ → Option ℕ → PairReduction
  against r old new none = win r old new
  against r old new (some cur) = contest r old new cur (compare_successors cur new)

  unfoldable pub add_successor : PairReduction → ℕ → ℕ → PairReduction
  unfolding compare_successors
  add_successor r old new = against r old new (get r.winners old)

  abbrev pub add_relation : PairReduction → PendingPair → ClaimRelation → PairReduction
  add_relation r pair ClaimRelation.supersedes =
      add_successor r (PendingPair.old_idx pair) (PendingPair.new_idx pair)
  add_relation r pair ClaimRelation.conflict = record r {
    conflict_pairs =
        r.conflict_pairs
        ++ ((
          min (PendingPair.old_idx pair) (PendingPair.new_idx pair),
          max (PendingPair.old_idx pair) (PendingPair.new_idx pair),
        )
            ∷ []);
  }
  add_relation r pair ClaimRelation.duplicate = r
  add_relation r pair ClaimRelation.unrelated = r

  -- The body of the loop over the pairs and their outcomes.
  unfoldable pub reduce_pair : PairReduction → PendingPair × PairOutcome → PairReduction
  unfolding add_successor unresolved_pair
  reduce_pair r (pair, PairOutcome.failed failure) = record r {
    unresolved =
        r.unresolved
        ++ (unresolved_pair (PendingPair.older pair) (PendingPair.newer pair)
              (view_at claims (PendingPair.old_idx pair))
              (view_at claims (PendingPair.new_idx pair)) failure
            ∷ []);
  }
  reduce_pair r (pair, PairOutcome.judged verdict reused) =
      add_relation
        (record r {
          judgments =
              r.judgments
              ++ (record {
                older_claim = PendingPair.older pair;
                newer_claim = PendingPair.newer pair;
                verdict = verdict;
                reused_authority = reused;
              }
                  ∷ []);
        })
        pair (RelationVerdict.relation verdict)

  unfoldable pub collect_pair_reduction : List (PendingPair × PairOutcome) → PairReduction
  unfolding reduce_pair
  collect_pair_reduction rows = fold reduce_pair empty_reduction rows

-- `pending.into_iter().zip(outcomes)`.
abbrev pub zip {ℓ κ} : {A : Type ℓ} {B : Type κ} → List A → List B → List (A × B)
zip [] ys = []
zip (x ∷ xs) [] = []
zip (x ∷ xs) (y ∷ ys) = (x, y) ∷ zip xs ys
