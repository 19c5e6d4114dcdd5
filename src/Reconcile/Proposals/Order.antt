-- ===== src/Reconcile/Proposals/Order.antt =====
-- The batch that the threads leave against the answers that the model gives in turn.
use texo.Base.{
  ℕ, zero, suc, ◌+◌, ◌<◌, ◌≡◌, refl, sym, ap, ◌∙◌, subst, true, false, Bool-cases, Option, some,
  List, [], ◌∷◌, ◌++◌, append-nil, append_assoc, Result, ok, err, ◌==◌, ==_iff, arith, inl, inr,
  All, length, get_elem?, fold, if◌then◌else◌, ltb,
}
use texo.Semantics.{Relater, RelationVerdict, SemanticsError}
use texo.Semantics.Acquire.{classify_pair_failure}
use texo.Semantics.Pairs.{indices_from}
use texo.Semantics.Workers.{Pool, Reach, IsDone}
use texo.Semantics.Workers.Conserved.{count, keys_of, IsLive, Reach-IsTimely}
use texo.Semantics.Workers.Results.{results_collected}
use texo.Semantics.Slots.{set_outcome, set_here, set_other, length-set}
use texo.Reconcile.{ReconcileCandidate}
use texo.Reconcile.Proposals.{
  CandidateProposal, UnresolvedCandidate, ProposalBatch, Answer, answer_of, no_proposals,
  budget_failure, worker_count, job_list, no_answers, take_result, add_answer, batch_from, ask,
  ask_at, acquire_proposals, finish_batch, IoError,
}

length-no_answers :
    (candidates : List ReconcileCandidate) → length (no_answers candidates) ≡ length candidates
length-no_answers [] = refl
length-no_answers (c ∷ candidates) = ap suc (length-no_answers candidates)

length-taken :
    (results : List (ℕ × Answer)) (answers : List (Option Answer))
    → length (fold take_result answers results) ≡ length answers
length-taken [] answers = refl
length-taken ((j, o) ∷ results) answers =
    length-taken results (set_outcome answers j o) ∙ length-set answers j o

count-indices : (n first j : ℕ) → j < n → 0 < count (first + j) (indices_from n first)
count-indices zero first j h = absurd (omega arith)
count-indices (suc n) first zero h = ground arith
count-indices (suc n) first (suc j) h =
    let shift : first + suc j ≡ first + 1 + j = omega arith in
    let later = count-indices n (first + 1) j (omega arith) in
    let moved : 0 < count (first + suc j) (indices_from n (first + 1)) =
      subst (λ (k : ℕ). 0 < count k (indices_from n (first + 1))) (sym shift) later in
    omega (arith, moved)

false≢true : false ≡ true → ⊥
false≢true e = cc

module _ (relate : Relater) (candidates : List ReconcileCandidate) (capacity : ℕ) where
  get-taken :
      (results : List (ℕ × Answer)) (answers : List (Option Answer)) (j : ℕ)
      → j < length answers
      → All (IsLive (err budget_failure) (ask_at relate candidates) capacity) results
      → get_elem? (fold take_result answers results) j ≡ (
          if ltb 0 (count j (keys_of results))
          then some (some (ask_at relate candidates j))
          else get_elem? answers j)
  get-taken [] answers j h live = refl
  get-taken ((i, o) ∷ results) answers j h live =
      get-taken results (set_outcome answers i o) j (omega (arith, length-set answers i o)) live.1
      ∙ elim (Bool-cases (i == j)) [
        | inl here ↦
            let e : i ≡ j = (==_iff i j).0 here in
            let at : get_elem? (set_outcome answers i o) j
                ≡ some (some (ask_at relate candidates j)) =
              subst
                (λ (k : ℕ).
                  get_elem? (set_outcome answers i o) k ≡ some (some (ask_at relate candidates k)))
                e
                (set_here answers i o (omega arith) ∙ ap (λ (r : Answer). some (some r)) live.0) in
            rw (at) (ground (arith, here))
        | inr other ↦
            let e : (i == j) ≡ true → false ≡ true = λ k. sym other ∙ k in
            rw (set_other answers i j o (λ k. false≢true (e ((==_iff i j).1 k))))
              (ground (arith, other))
      ]

-- Asking for the candidates in turn.
abbrev ask_each : Relater → ProposalBatch → List ReconcileCandidate → ProposalBatch
ask_each relate batch [] = batch
ask_each relate batch (candidate ∷ candidates) =
    ask_each relate (add_answer batch candidate (ask relate candidate)) candidates

agree :
    (relate : Relater) (batch : ProposalBatch) (candidates : List ReconcileCandidate)
    (answers : List (Option Answer))
    → length answers ≡ length candidates
    → ((j : ℕ) (c : ReconcileCandidate)
        → get_elem? candidates j ≡ some c
        → get_elem? answers j ≡ some (some (ask relate c)))
    → batch_from batch candidates answers ≡ ask_each relate batch candidates
agree relate batch [] answers h each = refl
agree relate batch (c ∷ candidates) [] h each = absurd (omega (arith, h))
agree relate batch (c ∷ candidates) (a ∷ answers) h each =
    let first : a ≡ some (ask relate c) = cc (each 0 c refl) in
    rw first (
      agree relate (add_answer batch c (ask relate c)) candidates answers (omega (arith, h))
        (λ j d e. each (suc j) d e))

get_elem?-length :
    (candidates : List ReconcileCandidate) (j : ℕ) (c : ReconcileCandidate)
    → get_elem? candidates j ≡ some c
    → j < length candidates
get_elem?-length [] j c e = cc
get_elem?-length (d ∷ candidates) zero c e = omega arith
get_elem?-length (d ∷ candidates) (suc j) c e = omega (arith, get_elem?-length candidates j c e)

batch_lem :
    (relate : Relater) (candidates : List ReconcileCandidate) (capacity : ℕ) {n : ℕ}
    {s : Pool Answer}
    → Reach (err budget_failure) (ask_at relate candidates) capacity (job_list candidates) n s
    → IsDone s
    → s.expired ≡ false
    → batch_from no_proposals candidates (fold take_result (no_answers candidates) s.results)
      ≡ ask_each relate no_proposals candidates
batch_lem relate candidates capacity {n} {s} r done still =
    agree relate no_proposals candidates (fold take_result (no_answers candidates) s.results)
      (length-taken s.results (no_answers candidates) ∙ length-no_answers candidates) slot
  where
    asked : (j : ℕ) → j < length candidates → ltb 0 (count j (keys_of s.results)) ≡ true
    asked j h =
        let answered =
          (results_collected (err budget_failure) (ask_at relate candidates) capacity
            (job_list candidates) j r done).0 in
        let here = count-indices (length candidates) 0 j h in
        let e : 0 + j ≡ j = omega arith in
        let given : 0 < count j (job_list candidates) =
          subst (λ (k : ℕ). 0 < count k (job_list candidates)) e here in
        rw answered (ground (arith, given))

    slot :
        (j : ℕ) (c : ReconcileCandidate)
        → get_elem? candidates j ≡ some c
        → get_elem? (fold take_result (no_answers candidates) s.results) j
          ≡ some (some (ask relate c))
    slot j c at =
        let inside = get_elem?-length candidates j c at in
        get-taken relate candidates capacity s.results (no_answers candidates) j
          (omega (arith, inside, length-no_answers candidates))
          (Reach-IsTimely (err budget_failure) (ask_at relate candidates) capacity
            (job_list candidates) r still)
        ∙ rw (asked j inside, ask_at, at) refl

-- The verdict that the model gives for a candidate, if any.
abbrev pub proposal_of :
    ReconcileCandidate → Result SemanticsError RelationVerdict → List CandidateProposal
proposal_of c (ok verdict) = record { candidate = c; verdict = verdict } ∷ []
proposal_of c (err what) = []

-- The failure of the model at a candidate, if any.
abbrev pub failure_of :
    ReconcileCandidate → Result SemanticsError RelationVerdict → List UnresolvedCandidate
failure_of c (ok verdict) = []
failure_of c (err what) = record { candidate = c; failure = classify_pair_failure what } ∷ []

abbrev pub proposed : Relater → List ReconcileCandidate → List CandidateProposal
proposed relate [] = []
proposed relate (c ∷ candidates) =
    proposal_of c (relate c.claim_text c.code_prompt) ++ proposed relate candidates

abbrev pub refused : Relater → List ReconcileCandidate → List UnresolvedCandidate
refused relate [] = []
refused relate (c ∷ candidates) =
    failure_of c (relate c.claim_text c.code_prompt) ++ refused relate candidates

added :
    (batch : ProposalBatch) (c : ReconcileCandidate) (r : Result SemanticsError RelationVerdict)
    → let after = add_answer batch c (answer_of r) in
      (after.proposals ≡ batch.proposals ++ proposal_of c r)
      × (after.unresolved ≡ batch.unresolved ++ failure_of c r)
added batch c (ok verdict) = (refl, sym (append-nil batch.unresolved))
added batch c (err what) = (sym (append-nil batch.proposals), refl)

-- Whether asking in turn leaves the two lists behind those of the batch.
abbrev IsSplit : Relater → ProposalBatch → List ReconcileCandidate → ProposalBatch → Type 0
IsSplit relate batch candidates after =
    (after.proposals ≡ batch.proposals ++ proposed relate candidates)
    × (after.unresolved ≡ batch.unresolved ++ refused relate candidates)

ask_each-IsSplit :
    (relate : Relater) (candidates : List ReconcileCandidate) (batch : ProposalBatch)
    → IsSplit relate batch candidates (ask_each relate batch candidates)
ask_each-IsSplit relate [] batch =
    (sym (append-nil batch.proposals), sym (append-nil batch.unresolved))
ask_each-IsSplit relate (c ∷ candidates) batch =
    let r = relate c.claim_text c.code_prompt in
    let (proposals, unresolved) =
      ask_each-IsSplit relate candidates (add_answer batch c (ask relate c)) in
    let (one, other) = added batch c r in
    (
      proposals
          ∙ ap (λ xs. xs ++ proposed relate candidates) one
          ∙ append_assoc batch.proposals (proposal_of c r) (proposed relate candidates),
      unresolved
          ∙ ap (λ xs. xs ++ refused relate candidates) other
          ∙ append_assoc batch.unresolved (failure_of c r) (refused relate candidates),
    )

-- When every thread could be created, all have ended and the time was not over, a batch is returned
-- that has exactly the verdicts that the model gives for the candidates and exactly its failures, each
-- in the candidates' order.
pub acquire_proposals_lem :
    (relate : Relater) (candidates : List ReconcileCandidate) (concurrency : ℕ)
    (threads : ℕ → List ℕ → Result IoError (Pool Answer)) {n : ℕ} {s : Pool Answer}
    → Reach
        (err budget_failure)
        (ask_at relate candidates)
        (worker_count concurrency (length candidates))
        (job_list candidates)
        n
        s
    → threads (worker_count concurrency (length candidates)) (job_list candidates) ≡ ok s
    → IsDone s
    → s.expired ≡ false
    → (batch : ProposalBatch) × (acquire_proposals candidates concurrency threads ≡ ok batch)
      × (batch.proposals ≡ proposed relate candidates)
      × (batch.unresolved ≡ refused relate candidates)
unfolding acquire_proposals
acquire_proposals_lem relate [] concurrency threads r run done still =
    (no_proposals, refl, refl, refl)
acquire_proposals_lem relate (c ∷ candidates) concurrency threads {s = s} r run done still =
    let all : List ReconcileCandidate = c ∷ candidates in
    let e = batch_lem relate all (worker_count concurrency (length all)) r done still in
    let (proposals, unresolved) = ask_each-IsSplit relate all no_proposals in
    (
      ask_each relate no_proposals all,
      ap (finish_batch all) run ∙ ap (λ (b : ProposalBatch). ok b) e,
      proposals,
      unresolved,
    )
