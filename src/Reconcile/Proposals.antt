-- ===== src/Reconcile/Proposals.antt =====
-- src/reconcile.rs: the proposals of a model for the candidates of a plan, acquired by threads that
-- work as those of a pass over pairs of claims.
pub mod Order
use texo.Base.{
  ℕ, zero, suc, min, max, Bool, Option, none, some, List, [], ◌∷◌, ◌++◌, Result, ok, err, fold,
  length, get_elem?, unwrap_or,
}
use texo.Base.Text.{Text}
use texo.Semantics.{RelationVerdict, PairFailureView, SemanticsError, Relater}
use texo.Semantics.Acquire.{budget_exhausted, classify_pair_failure}
use texo.Semantics.Pairs.{indices_from}
use texo.Semantics.Workers.{Pool}
use texo.Semantics.Slots.{set_outcome, set_here, set_other, length-set}
use texo.Reconcile.{ReconcileCandidate}

pub record CandidateProposal : Type 0 where
  pub candidate : ReconcileCandidate
  pub verdict : RelationVerdict

pub record UnresolvedCandidate : Type 0 where
  pub candidate : ReconcileCandidate
  pub failure : PairFailureView

pub record ProposalBatch : Type 0 where
  pub proposals : List CandidateProposal
  pub unresolved : List UnresolvedCandidate

abbrev pub no_proposals : ProposalBatch
no_proposals = record { proposals = []; unresolved = [] }

-- A verdict, or why there is none.
abbrev pub Answer : Type 0
Answer = Result PairFailureView RelationVerdict

abbrev pub answer_of : Result SemanticsError RelationVerdict → Answer
answer_of (ok verdict) = ok verdict
answer_of (err what) = err (classify_pair_failure what)

abbrev pub budget_failure : PairFailureView
budget_failure = budget_exhausted

abbrev pub worker_count : ℕ → ℕ → ℕ
worker_count concurrency candidates = min (max 1 (min 16 concurrency)) candidates

abbrev pub job_list : List ReconcileCandidate → List ℕ
job_list candidates = indices_from (length candidates) 0

abbrev pub no_answers : List ReconcileCandidate → List (Option Answer)
no_answers [] = []
no_answers (candidate ∷ candidates) = none ∷ no_answers candidates

abbrev pub take_result : List (Option Answer) → ℕ × Answer → List (Option Answer)
take_result answers (index, answer) = set_outcome answers index answer

abbrev pub add_answer : ProposalBatch → ReconcileCandidate → Answer → ProposalBatch
add_answer batch candidate (ok verdict) = record batch {
  proposals = batch.proposals ++ (record { candidate = candidate; verdict = verdict } ∷ []);
}
add_answer batch candidate (err failure) = record batch {
  unresolved = batch.unresolved ++ (record { candidate = candidate; failure = failure } ∷ []);
}

-- The loop over the candidates and their answers.
abbrev pub batch_from :
    ProposalBatch → List ReconcileCandidate → List (Option Answer) → ProposalBatch
batch_from batch [] answers = batch
batch_from batch (candidate ∷ candidates) [] = batch
batch_from batch (candidate ∷ candidates) (answer ∷ answers) =
    batch_from (add_answer batch candidate (unwrap_or answer (err budget_failure))) candidates
      answers

module _ (relate : Relater) where
  -- What a live call gives.
  abbrev pub ask : ReconcileCandidate → Answer
  ask candidate =
      answer_of (
        relate (ReconcileCandidate.claim_text candidate) (ReconcileCandidate.code_prompt candidate))

  abbrev pub ask_at : List ReconcileCandidate → ℕ → Answer
  ask_at candidates index = elim (get_elem? candidates index) [
    | some candidate ↦ ask candidate
    | none ↦ err budget_failure
  ]

-- What the operating system says when it creates no thread.
abbrev pub IoError : Type 0
IoError = Text

-- The batch that the results of the threads give.
abbrev pub finish_batch :
    List ReconcileCandidate → Result IoError (Pool Answer) → Result IoError ProposalBatch
finish_batch candidates (err what) = err what
finish_batch candidates (ok pool) =
    ok (batch_from no_proposals candidates (fold take_result (no_answers candidates) pool.results))

-- `threads` gives the state in which so many threads end for the jobs, or why a thread could not be
-- created.
unfoldable pub acquire_proposals :
    List ReconcileCandidate
    → ℕ
    → (ℕ → List ℕ → Result IoError (Pool Answer))
    → Result IoError ProposalBatch
acquire_proposals [] concurrency threads = ok no_proposals
acquire_proposals (candidate ∷ candidates) concurrency threads =
    let all = candidate ∷ candidates in
    finish_batch all (threads (worker_count concurrency (length all)) (job_list all))
