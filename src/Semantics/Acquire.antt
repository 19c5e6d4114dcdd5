-- ===== src/Semantics/Acquire.antt =====
-- src/semantics/pipeline/candidate.rs, src/semantics/pipeline/runtime.rs: the verdict of a pair,
-- acquired on the calling thread.
use texo.Base.{
  ℕ, suc, Bool, true, false, Option, none, some, List, [], ◌∷◌, Result, ok, err, if◌then◌else◌,
}
use texo.Base.Text.{Text, text_ord}
use texo.Base.Pairs.{pair_ord}
use texo.Base.Map.{get}
use texo.Events.Settlement.{RelationFailureClass}
use texo.Semantics.{
  Claims, ClaimView, RelationVerdict, PairFailureView, PairOutcome, PendingPair, ApiFailureKind,
  BackendError, SemanticsError, Relater, view_at,
}
use texo.Semantics.Pairs.{Settled}

abbrev pub failure_of : RelationFailureClass → ℕ → PairFailureView
failure_of class attempts = record {
  class = class;
  endpoint = none;
  status = none;
  attempts = attempts;
}

abbrev pub budget_exhausted : PairFailureView
budget_exhausted = failure_of RelationFailureClass.budget_exhausted 0

abbrev pub generic_pair_failure : PairFailureView
generic_pair_failure = failure_of RelationFailureClass.transport 1

abbrev class_of_api : ApiFailureKind → RelationFailureClass
class_of_api ApiFailureKind.http_status = RelationFailureClass.http_status
class_of_api ApiFailureKind.transport = RelationFailureClass.transport
class_of_api ApiFailureKind.deadline_exceeded = RelationFailureClass.deadline
class_of_api ApiFailureKind.bad_response_json = RelationFailureClass.parse

abbrev endpoint_failure : RelationFailureClass → Text → PairFailureView
endpoint_failure class endpoint = record (failure_of class 1) { endpoint = some endpoint }

abbrev classify_backend : BackendError → PairFailureView
classify_backend (BackendError.http provider source) = record {
  class = class_of_api source.kind;
  endpoint = some source.endpoint;
  status = source.status;
  attempts = source.attempts;
}
classify_backend (BackendError.truncated endpoint finish_reason max_tokens) =
    endpoint_failure RelationFailureClass.truncated endpoint
classify_backend (BackendError.parse endpoint what) =
    endpoint_failure RelationFailureClass.parse endpoint
classify_backend (BackendError.unexpected_response endpoint detail) =
    endpoint_failure RelationFailureClass.parse endpoint

-- With the feature `openrouter`.
unfoldable pub classify_pair_failure : SemanticsError → PairFailureView
classify_pair_failure (SemanticsError.backend (some backend)) = classify_backend backend
classify_pair_failure (SemanticsError.backend none) = generic_pair_failure
classify_pair_failure (SemanticsError.dimension_mismatch expected actual) = generic_pair_failure
classify_pair_failure (SemanticsError.result_count_mismatch expected actual) = generic_pair_failure

module _ (claims : Claims) (relate : Relater) where
  abbrev pub answer : Result SemanticsError RelationVerdict → PairOutcome
  answer (ok verdict) = PairOutcome.judged verdict false
  answer (err what) = PairOutcome.failed (classify_pair_failure what)

  -- The live call of the judge on the raw texts of a pair.
  unfoldable pub judge : PendingPair → PairOutcome
  judge pair = answer (
      relate (ClaimView.text (view_at claims (PendingPair.old_idx pair)))
        (ClaimView.text (view_at claims (PendingPair.new_idx pair))))

  module _ (settled : Settled) where
    -- The journal's verdict, or the failure of the source order, before any call.
    abbrev pub known : PendingPair → Option PairOutcome
    known pair = elim (get settled (PendingPair.older pair, PendingPair.newer pair)) [
      | some verdict ↦ some (PairOutcome.judged verdict true)
      | none ↦ elim (PendingPair.temporal_failure pair) [
        | some class ↦ some (PairOutcome.failed (failure_of class 0))
        | none ↦ none
      ]
    ]

    abbrev live : Option PairOutcome → PendingPair → Bool → PairOutcome
    live (some outcome) pair expired = outcome
    live none pair expired = if expired then PairOutcome.failed budget_exhausted else judge pair

    -- `expired` is what the clock says when it is read.
    unfoldable pub acquire_sequential : PendingPair → Bool → PairOutcome
    acquire_sequential pair expired = live (known pair) pair expired

    -- The sequential loop over the pairs of a page; the clock is read once at each.
    abbrev pub acquire_each : List PendingPair → (ℕ → Bool) → List PairOutcome
    acquire_each [] clock = []
    acquire_each (pair ∷ pending) clock =
        acquire_sequential pair (clock 0) ∷ acquire_each pending (λ k. clock (suc k))
