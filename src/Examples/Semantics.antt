-- ===== src/Examples/Semantics.antt =====
-- Three claims of a pass, two of which have the same text, and the theorems on pages of their pairs.
use texo.Base.{
  ℕ, ◌+◌, ◌*◌, ◌≤◌, ◌≡◌, ◌⊎◌, refl, Bool, true, false, none, some, List, [], ◌∷◌, ◌==◌, leb, length,
  ok, arith, All, map, if◌then◌else◌, ltb,
}
use texo.Base.Text.{Text, bytes, text_eq, compare_text}
use texo.Base.Map.{get, insert}
use texo.Base.Sort.{sort_by}
use texo.Base.Pairs.{compare_pair}
use texo.Base.Number.{number_ord}
use texo.Events.Settlement.{ClaimRelation}
use texo.Scores.{F32}
use texo.Semantics.{
  Claims, ClaimStatus, ClaimView, PairOutcome, PendingPair, Relater, Embedder, claim_at,
}
use texo.Semantics.Cosine.{Floats}
use texo.Semantics.Policy.{no_policy}
use texo.Semantics.Pairs.Space.{all_pairs}
use texo.Semantics.Pairs.Paging.{candidates, all_pages, pages_cover}
use texo.Semantics.Acquire.{acquire_each, acquire_sequential, judge, budget_exhausted}
use texo.Semantics.Workers.{
  Pool, Step, Reach, Worker, Caller, AllFinished, IsDone, collected, outcome_at, start,
}
use texo.Semantics.Workers.Conserved.{count, keys_of}
use texo.Semantics.Workers.Progress.{CanStep, threads_end}
use texo.Semantics.Workers.Results.{results_collected}
use texo.Semantics.Reduction.{collect_pair_reduction, PairReduction, zip}
use texo.Semantics.Reduction.Decide.{reduce_outcomes, RelatedClaims, ReducedOutcome}
use texo.Semantics.Reduction.Rows.{judgments_of, unresolved_of}
use texo.Semantics.Reduction.Safety.{IsEvident, IsCurrentConflict, reduce_outcomes_safe}
use texo.Semantics.Reduction.Newest.{IsNewest, winners-IsNewest}
use texo.Semantics.Outcome.{PageCompletion, finish_page}
use texo.Semantics.Outcome.Completion.{IsResumption, resumption_of, finish_page-IsResumption}
use texo.Semantics.Parallel.{acquired, representatives}
use texo.Semantics.Parallel.Agrees.{acquired-acquire_each}

abbrev word : ℕ → F32
word n = record { sign = false; exponent = 127; fraction = n }

-- Numbers that are added and multiplied by their fractions.
abbrev floats : Floats
floats = record {
  zero = record { sign = false; exponent = 0; fraction = 0 };
  add = λ a b. word (F32.fraction a + F32.fraction b);
  mul = λ a b. word (F32.fraction a * F32.fraction b);
  div = λ a b. a;
  sqrt = λ a. a;
  equal = λ a b. F32.fraction a == F32.fraction b;
  at_least = λ a b. leb (F32.fraction b) (F32.fraction a);
}

abbrev claim : Text → Text → ℕ → Text × ClaimView
claim id text sequence = (
  id,
  record {
    claim_id = id;
    workspace_id = bytes "demo";
    source_id = bytes "src_1";
    source_path = bytes "notes.md";
    line_start = 1;
    line_end = 1;
    text = text;
    normalized_text = id;
    subject_hint = bytes "deploy";
    predicate_hint = [];
    object_hint = [];
    confidence_ppm = 900000;
    extractor_kind = bytes "markdown";
    status = ClaimStatus.current;
    receipt = record { sequence = sequence };
    supersedes = [];
    superseded_by = none;
  },
)

abbrev claims : Claims
claims =
    claim (bytes "a") (bytes "daily") 1
    ∷ claim (bytes "b") (bytes "daily") 2
    ∷ claim (bytes "c") (bytes "hourly") 3
    ∷ []

abbrev embedding : List F32
embedding = word 2 ∷ []

abbrev embed_batch : Embedder
embed_batch texts = ok (map (λ text. embedding) texts)

-- A text that differs replaces the older one.
abbrev relate : Relater
relate older newer = ok (record {
  relation = if text_eq older newer then ClaimRelation.duplicate else ClaimRelation.supersedes;
  score = word 1;
})

pages_cover_example :
    all_pages floats claims [] no_policy embed_batch (word 1) 2 4 0
    ≡ some (
        candidates floats claims [] no_policy
          (embedding ∷ embedding ∷ embedding ∷ [])
          (word 1)
          0
          (all_pairs 3))
pages_cover_example =
    pages_cover floats claims [] no_policy embed_batch (embedding ∷ embedding ∷ embedding ∷ [])
      (word 1) 2 4 (omega arith) (omega arith) refl (omega arith) (omega arith)

abbrev pending_at : ℕ → ℕ → Text → Text → ℕ → PendingPair
pending_at i j older newer at = record {
  old_idx = i;
  new_idx = j;
  older = older;
  newer = newer;
  temporal_failure = none;
  cursor = at;
}

-- The pairs of the third claim with each of the others.
abbrev page : List PendingPair
page = pending_at 0 2 (bytes "a") (bytes "c") 1 ∷ pending_at 1 2 (bytes "b") (bytes "c") 2 ∷ []

abbrev replaces : PairOutcome
replaces = PairOutcome.judged (record { relation = ClaimRelation.supersedes; score = word 1 }) false

-- The second pair has no verdict.
abbrev cut : List PairOutcome
cut = replaces ∷ PairOutcome.failed budget_exhausted ∷ []

abbrev no_hash : Text → Text
no_hash text = text

reduce_outcomes_safe_example :
    let o = reduce_outcomes no_hash claims page cut no_policy in
    (RelatedClaims.judgments (ReducedOutcome.related o) ≡ judgments_of (zip page cut))
    × (ReducedOutcome.unresolved o ≡ unresolved_of claims no_policy (zip page cut))
    × All (IsEvident o) (RelatedClaims.supersessions (ReducedOutcome.related o))
    × All (IsCurrentConflict o) (RelatedClaims.conflicts (ReducedOutcome.related o))
reduce_outcomes_safe_example = reduce_outcomes_safe no_hash claims page cut no_policy

winners-IsNewest_example :
    IsNewest claims no_policy
      (get (PairReduction.winners (collect_pair_reduction claims no_policy (zip page cut))) 0)
      (2 ∷ [])
winners-IsNewest_example = winners-IsNewest claims no_policy (zip page cut) 0 refl

abbrev last_page : PageCompletion
last_page = record {
  settled = [];
  claim_clusters = 0 ∷ 0 ∷ 0 ∷ [];
  examined_pairs = 3;
  candidate_pair_budget = 3;
  next_cursor = none;
}

resumed : resumption_of (finish_page no_hash claims no_policy page cut last_page) ≡ some 2
unfolding finish_page
resumed = refl

finish_page-IsResumption_example :
    IsResumption
      (zip page cut)
      none
      (resumption_of (finish_page no_hash claims no_policy page cut last_page))
finish_page-IsResumption_example =
    finish_page-IsResumption no_hash claims no_policy page cut last_page

-- The two pairs have the same texts: the first stands for both.
jobs : representatives claims relate [] page ≡ 0 ∷ []
unfolding representatives insert get sort_by claim_at compare_pair compare_text
jobs = refl

abbrev pool : Caller → Bool → List ℕ → List ℕ → Worker → List (ℕ × PairOutcome) → Pool PairOutcome
pool caller job_tx unsent channel worker results = record {
  unsent = unsent;
  channel = channel;
  workers = worker ∷ [];
  results = results;
  caller = caller;
  job_tx = job_tx;
  result_tx = false;
  expired = false;
}

abbrev live : ℕ → PairOutcome
live = outcome_at claims relate page

abbrev ended : Pool PairOutcome
ended = pool Caller.returned false [] [] Worker.finished ((0, live 0) ∷ [])

-- One worker is sent the job, takes it, asks and answers.
run :
    Reach
      (PairOutcome.failed budget_exhausted)
      live
      1
      (representatives claims relate [] page)
      8
      ended
unfolding representatives insert get sort_by claim_at compare_pair compare_text
run =
    let answers = (0, live 0) ∷ [] in
    let sending =
      Reach.next
        (Reach.next Reach.here
          (Step.started (start (PairOutcome.failed budget_exhausted) live 1 (0 ∷ [])) refl))
        (Step.send (pool Caller.sending true (0 ∷ []) [] Worker.idle []) 0 [] refl refl
          (omega arith)) in
    let receiving =
      Reach.next
        (Reach.next sending
          (Step.sent (pool Caller.sending true [] (0 ∷ []) Worker.idle []) refl refl))
        (Step.receive (pool Caller.collecting false [] (0 ∷ []) Worker.idle []) 0 0 [] refl refl) in
    let answering =
      Reach.next
        (Reach.next receiving
          (Step.begin (pool Caller.collecting false [] [] (Worker.holding 0) []) 0 0 refl refl))
        (Step.reply (pool Caller.collecting false [] [] (Worker.judging 0) []) 0 0 refl) in
    Reach.next
      (Reach.next answering
        (Step.disconnect (pool Caller.collecting false [] [] Worker.idle answers) 0 refl refl refl))
      (Step.collect (pool Caller.collecting false [] [] Worker.finished answers) refl refl tt)

threads_end_example :
    ((IsDone ended
        × (Pool.unsent ended ≡ [])
        × (Pool.channel ended ≡ [])
        × AllFinished (Pool.workers ended))
      ⊎ CanStep (PairOutcome.failed budget_exhausted) live 1 ended)
    × (8 ≤ 4 * length (representatives claims relate [] page) + 1 + 4)
threads_end_example =
    threads_end (PairOutcome.failed budget_exhausted) live 1 (representatives claims relate [] page)
      (omega arith) run

results_collected_example :
    (count 0 (keys_of ((0, live 0) ∷ [])) ≡ count 0 (representatives claims relate [] page))
    × (false ≡ false
        → get (collected ended) 0 ≡ (
            if ltb 0 (count 0 (representatives claims relate [] page))
            then some (live 0)
            else none))
results_collected_example =
    results_collected (PairOutcome.failed budget_exhausted) live 1
      (representatives claims relate [] page) 0 run refl

acquired-acquire_each_example :
    acquired claims relate [] page (collected ended)
    ≡ acquire_each claims relate [] page (λ k. false)
acquired-acquire_each_example = acquired-acquire_each claims relate [] page 1 run refl refl

-- Both pairs get the verdict of the one call.
shared : acquire_each claims relate [] page (λ k. false) ≡ replaces ∷ replaces ∷ []
unfolding acquire_sequential get judge claim_at compare_pair compare_text
shared = refl
