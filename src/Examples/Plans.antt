-- ===== src/Examples/Plans.antt =====
-- Two claims, a small index of code, and the plan of what a model is asked.
use texo.Base.{ℕ, ◌≡◌, ◌↔◌, refl, Bool, true, false, ok, err, List, [], ◌∷◌, take, map, arith}
use texo.Base.Text.{
  Text, text_ord, bytes, to_ascii_lowercase, is_ascii_uppercase, is_ascii_digit, is_ascii_lowercase,
  is_ascii_alphanumeric, compare_text,
}
use texo.Base.Chars.{Unicode, chars}
use texo.Base.Space.{split_whitespace}
use texo.Base.Map.{keys, insert}
use texo.Base.Decimal.{split}
use texo.Events.Payloads.{AnalysisQuality}
use texo.Events.Settlement.{ClaimRelation}
use texo.Knowledge.Code.{CodeOccurrence, CodeIndexArtifact, CodeIndexFormat}
use texo.Semantics.{Relater}
use texo.Semantics.Workers.{Pool, Worker, Caller, Step, Reach, start}
use texo.Reconcile.Proposals.{ProposalBatch, Answer, budget_failure, ask_at, acquire_proposals}
use texo.Reconcile.Proposals.Order.{proposed, refused, acquire_proposals_lem}
use texo.Reconcile.{ReconcileCandidate, candidate, ReconcileClaim, default_limits, tokens}
use texo.Reconcile.Paths.{is_code_path, file_name, extension, is_wellknown_source_basename}
use texo.Reconcile.Plan.{CandidatePlan, ranked_of, plan_candidates}
use texo.Reconcile.Plan.Bounds.{everything, kept, plan_candidates_lem}

abbrev pub head_is : (ℕ → Bool) → Text → Bool
head_is test [] = false
head_is test (c ∷ s) = test c

-- The characters of ASCII.
abbrev pub ascii : Unicode
ascii = record {
  is_alphanumeric = head_is is_ascii_alphanumeric;
  is_lowercase = head_is is_ascii_lowercase;
  to_lowercase = map to_ascii_lowercase;
  text_lowercase = map to_ascii_lowercase;
}

abbrev no_hash : Text → Text
no_hash text = text

abbrev retries : ReconcileClaim
retries = record {
  claim_id = bytes "claim_a";
  text = bytes "Retries are limited";
  subject_hint = bytes "retries";
  predicate_hint = [];
  object_hint = [];
}

abbrev occurrence : Text → Text → CodeOccurrence
occurrence symbol path = record {
  symbol = symbol;
  display_name = symbol;
  roles = [];
  path = path;
  byte_range = record { start = 0; end = 28 };
  line_range = record { start = 1; end = 1 };
  source_digest_hex = bytes "aa";
  excerpt = symbol;
  context = symbol;
  context_byte_range = record { start = 0; end = 28 };
  context_line_range = record { start = 1; end = 1 };
  analyzer_fingerprint = bytes "lexical";
  analysis_quality = AnalysisQuality.lexical;
}

abbrev artifact : CodeIndexArtifact
artifact = record {
  schema = bytes "texo.code-index.v1";
  snapshot_id = bytes "snapshot_1";
  index_id = bytes "code_index_1";
  format = CodeIndexFormat.lexical;
  analyzer_fingerprint = bytes "lexical";
  occurrences =
      occurrence (bytes "maxRetries") (bytes "src/config.rs")
      ∷ occurrence (bytes "retries") (bytes "docs/retries.md")
      ∷ [];
  coverage = record {
    analysis_quality = AnalysisQuality.lexical;
    sources_examined = 1;
    occurrences = 2;
    truncated = false;
    gaps = [];
  };
}

plan_candidates_lem_example :
    (CandidatePlan.candidates (plan_candidates ascii no_hash (retries ∷ []) artifact default_limits)
      ≡ take 256 (kept 4 (ranked_of ascii no_hash artifact (retries ∷ []))))
    × ((CandidatePlan.truncated
            (plan_candidates ascii no_hash (retries ∷ []) artifact default_limits)
          ≡ false)
        ↔ (CandidatePlan.candidates
              (plan_candidates ascii no_hash (retries ∷ []) artifact default_limits)
            ≡ everything (ranked_of ascii no_hash artifact (retries ∷ []))))
plan_candidates_lem_example =
    plan_candidates_lem ascii no_hash (retries ∷ []) artifact default_limits

code_path : is_code_path (bytes "src/Config.RS") ≡ true
unfolding is_code_path file_name extension is_wellknown_source_basename split compare_text
    to_ascii_lowercase is_ascii_uppercase
code_path = refl

prose_path : is_code_path (bytes "docs/retries.md") ≡ false
unfolding is_code_path file_name extension is_wellknown_source_basename split compare_text
    to_ascii_lowercase is_ascii_uppercase
prose_path = refl

make_path : is_code_path (bytes "tools/Makefile") ≡ true
unfolding is_code_path file_name extension is_wellknown_source_basename split compare_text
    to_ascii_lowercase is_ascii_uppercase
make_path = refl

-- A word is cut where a capital follows a small letter, and stop words are left out.
cut_words :
    keys (tokens ascii (bytes "maxRetries not for Use")) ≡ bytes "max" ∷ bytes "retries" ∷ []
unfolding tokens chars split_whitespace insert compare_text to_ascii_lowercase is_ascii_uppercase
    is_ascii_lowercase is_ascii_digit is_ascii_alphanumeric
cut_words = refl

abbrev candidates : List ReconcileCandidate
candidates =
    candidate no_hash retries (bytes "snapshot_1")
      (occurrence (bytes "maxRetries") (bytes "src/config.rs")) 5
    ∷ []

abbrev duplicates : Relater
duplicates older newer = ok (record {
  relation = ClaimRelation.duplicate;
  score = record { sign = false; exponent = 126; fraction = 3355443 };
})

abbrev pool : Caller → Bool → List ℕ → List ℕ → Worker → List (ℕ × Answer) → Pool Answer
pool caller job_tx unsent channel worker results = record {
  unsent = unsent;
  channel = channel;
  workers = worker ∷ [];
  results = results;
  caller = caller;
  job_tx = job_tx;
  result_tx = false;
  expired = false;
}

abbrev live : ℕ → Answer
live = ask_at duplicates candidates

abbrev ended : Pool Answer
ended = pool Caller.returned false [] [] Worker.finished ((0, live 0) ∷ [])

-- One thread is sent the job, takes it, asks and answers.
asked : Reach (err budget_failure) live 1 (0 ∷ []) 8 ended
asked =
    let answers = (0, live 0) ∷ [] in
    let sending =
      Reach.next
        (Reach.next Reach.here (Step.started (start (err budget_failure) live 1 (0 ∷ [])) refl))
        (Step.send (pool Caller.sending true (0 ∷ []) [] Worker.idle []) 0 [] refl refl
          (omega arith)) in
    let receiving =
      Reach.next
        (Reach.next sending
          (Step.sent (pool Caller.sending true [] (0 ∷ []) Worker.idle []) refl refl))
        (Step.receive (pool Caller.collecting false [] (0 ∷ []) Worker.idle []) 0 0 [] refl refl) in
    let answering =
      Reach.next
        (Reach.next receiving
          (Step.begin (pool Caller.collecting false [] [] (Worker.holding 0) []) 0 0 refl refl))
        (Step.reply (pool Caller.collecting false [] [] (Worker.judging 0) []) 0 0 refl) in
    Reach.next
      (Reach.next answering
        (Step.disconnect (pool Caller.collecting false [] [] Worker.idle answers) 0 refl refl refl))
      (Step.collect (pool Caller.collecting false [] [] Worker.finished answers) refl refl tt)

acquire_proposals_lem_example :
    (batch : ProposalBatch) × (acquire_proposals candidates 4 (λ workers jobs. ok ended) ≡ ok batch)
    × (ProposalBatch.proposals batch ≡ proposed duplicates candidates)
    × (ProposalBatch.unresolved batch ≡ refused duplicates candidates)
acquire_proposals_lem_example =
    acquire_proposals_lem duplicates candidates 4 (λ workers jobs. ok ended) asked refl refl refl
