-- ===== src/Reconcile.antt =====
-- src/reconcile.rs, src/reconcile/domain.rs: the pairs of a claim and an occurrence of code that a
-- model is asked about, and the policy that accepts its answers.
pub mod Paths
pub mod Plan
pub mod Proposals
use texo.Base.{
  ℕ, ◌+◌, ◌*◌, min, Bool, true, false, Option, none, some, List, [], ◌∷◌, ◌++◌, Result, ok, err,
  ◌>>=◌, if◌then◌else◌, ltb, leb, ◌||◌, ◌&&◌, not, length, fold, filter, any, map, unwrap_or,
}
use texo.Base.Text.{Text, bytes, text_ord, text_eq, decimal}
use texo.Base.Chars.{Unicode, chars}
use texo.Base.Space.{split_whitespace}
use texo.Base.Map.{BTreeMap, BTreeSet, insert, contains_key, keys}
use texo.Scores.{F32, unit_interval_to_ppm}
use texo.Events.Payloads.{
  AnalysisQuality, EvidenceOccurrence, EvidenceSourceKind, EvidenceStance, ByteRange, LineRange,
}
use texo.Events.Settlement.{ClaimRelation}
use texo.Semantics.{RelationVerdict}
use texo.Workspace.Types.{u64_max}
use texo.Knowledge.{derive_id}
use texo.Knowledge.Code.{CodeOccurrence}

pub record ReconcileLimits : Type 0 where
  pub per_claim : ℕ
  pub total : ℕ
  pub min_score_ppm : ℕ

abbrev pub default_limits : ReconcileLimits
default_limits = record { per_claim = 4; total = 256; min_score_ppm = 700000 }

pub record ReconcileClaim : Type 0 where
  pub claim_id : Text
  pub text : Text
  pub subject_hint : Text
  pub predicate_hint : Text
  pub object_hint : Text

pub record ReconcileCandidate : Type 0 where
  pub claim_id : Text
  pub claim_text : Text
  pub occurrence : EvidenceOccurrence
  pub code_prompt : Text
  pub rank : ℕ

abbrev stop_words : List Text
stop_words =
    bytes "and"
    ∷ bytes "are"
    ∷ bytes "for"
    ∷ bytes "from"
    ∷ bytes "into"
    ∷ bytes "not"
    ∷ bytes "our"
    ∷ bytes "the"
    ∷ bytes "this"
    ∷ bytes "that"
    ∷ bytes "use"
    ∷ bytes "uses"
    ∷ bytes "with"
    ∷ []

abbrev is_token : Text → Bool
is_token token = leb 3 (length token) && not (any (text_eq token) stop_words)

abbrev is_ascii_uppercase_char : Text → Bool
is_ascii_uppercase_char [] = false
is_ascii_uppercase_char (c ∷ []) = leb b'A' c && leb c b'Z'
is_ascii_uppercase_char (c ∷ d ∷ s) = false

module _ (u : Unicode) where
  open u use {is_alphanumeric, is_lowercase, to_lowercase}

  -- A space before a capital that follows a small letter.
  abbrev pub boundary : Text → Bool → Text
  boundary ch previous_lower =
      if is_ascii_uppercase_char ch && previous_lower then bytes " " else []

  -- The loop over the characters, with what it pushes.
  abbrev pub normalized_from : Bool → List Text → Text
  normalized_from previous_lower [] = []
  normalized_from previous_lower (ch ∷ cs) =
      boundary ch previous_lower
      ++ ((if is_alphanumeric ch then to_lowercase ch else bytes " ")
          ++ normalized_from (if is_alphanumeric ch then is_lowercase ch else false) cs)

  abbrev pub add_token : BTreeSet Text → Text → BTreeSet Text
  add_token set token = insert set token tt

  unfoldable pub tokens : Text → BTreeSet Text
  tokens text =
      fold add_token [] (filter is_token (split_whitespace (normalized_from false (chars text))))

  abbrev pub spaced : Text → Text → Text
  spaced a b = a ++ (bytes " " ++ b)

  unfoldable pub claim_tokens : ReconcileClaim → BTreeSet Text
  unfolding tokens
  claim_tokens claim = tokens (
      spaced (ReconcileClaim.text claim) (
        spaced (ReconcileClaim.subject_hint claim)
          (spaced (ReconcileClaim.predicate_hint claim) (ReconcileClaim.object_hint claim))))

  -- `a.intersection(&b).count()`.
  abbrev pub shared : BTreeSet Text → BTreeSet Text → ℕ
  shared [] b = 0
  shared ((token, done) ∷ a) b = (if contains_key b token then 1 else 0) + shared a b

  unfoldable pub candidate_rank : BTreeSet Text → CodeOccurrence → ℕ
  unfolding tokens
  candidate_rank claim_set code =
      let names =
        shared claim_set
          (tokens (spaced (CodeOccurrence.symbol code) (CodeOccurrence.display_name code))) in
      let context =
        shared claim_set
          (tokens (spaced (CodeOccurrence.path code) (CodeOccurrence.context code))) in
      min u64_max (min u64_max (names * 4) + context)

abbrev source_kind_of : AnalysisQuality → EvidenceSourceKind
source_kind_of AnalysisQuality.precise = EvidenceSourceKind.scip
source_kind_of AnalysisQuality.syntactic = EvidenceSourceKind.syntax
source_kind_of AnalysisQuality.lexical = EvidenceSourceKind.lexical
source_kind_of AnalysisQuality.unavailable = EvidenceSourceKind.lexical

abbrev policy_version : Text
policy_version = bytes "evidence-reconcile-v1"

-- The separator U+001F and a field.
abbrev field : Text → Text
field value = 31 ∷ value

module _ (hash : Text → Text) where
  abbrev occurrence_of : Text → CodeOccurrence → EvidenceOccurrence
  occurrence_of snapshot_id code = record {
    occurrence_id = derive_id (bytes "EvidenceOccurrenceId") (bytes "evidence_") hash (
        bytes "texo.code.evidence.v1"
        ++ (field snapshot_id
            ++ (field (CodeOccurrence.symbol code)
                ++ (field (CodeOccurrence.path code)
                    ++ (field (decimal (ByteRange.start (CodeOccurrence.context_byte_range code)))
                        ++ (field (decimal (ByteRange.end (CodeOccurrence.context_byte_range code)))
                            ++ field (CodeOccurrence.source_digest_hex code)))))));
    snapshot_id = snapshot_id;
    source_kind = source_kind_of (CodeOccurrence.analysis_quality code);
    path = CodeOccurrence.path code;
    byte_range = CodeOccurrence.context_byte_range code;
    line_range = CodeOccurrence.context_line_range code;
    git_blob = none;
    source_digest_hex = CodeOccurrence.source_digest_hex code;
    excerpt = CodeOccurrence.context code;
    analyzer_fingerprint = CodeOccurrence.analyzer_fingerprint code;
    analysis_quality = CodeOccurrence.analysis_quality code;
  }

  unfoldable pub candidate : ReconcileClaim → Text → CodeOccurrence → ℕ → ReconcileCandidate
  candidate claim snapshot_id code rank = record {
    claim_id = ReconcileClaim.claim_id claim;
    claim_text = ReconcileClaim.text claim;
    occurrence = occurrence_of snapshot_id code;
    code_prompt =
        policy_version
        ++ (bytes "\nCode evidence for symbol `"
            ++ (CodeOccurrence.symbol code
                ++ (bytes "` at "
                    ++ (CodeOccurrence.path code
                        ++ (bytes ":"
                            ++ (decimal (LineRange.start (CodeOccurrence.context_line_range code))
                                ++ (bytes ":\n" ++ CodeOccurrence.context code)))))));
    rank = rank;
  }

abbrev stance_of : ClaimRelation → Option EvidenceStance
stance_of ClaimRelation.duplicate = some EvidenceStance.supports
stance_of ClaimRelation.supersedes = some EvidenceStance.contradicts
stance_of ClaimRelation.conflict = some EvidenceStance.contradicts
stance_of ClaimRelation.unrelated = none

abbrev with_score : ℕ → Option EvidenceStance → Option (EvidenceStance × ℕ)
with_score score_ppm none = none
with_score score_ppm (some stance) = some (stance, score_ppm)

unfoldable pub accept_proposal : RelationVerdict → ℕ → Option (EvidenceStance × ℕ)
accept_proposal verdict min_score_ppm =
    let score_ppm = unit_interval_to_ppm (RelationVerdict.score verdict) in
    if ltb score_ppm min_score_ppm
    then none
    else with_score score_ppm (stance_of (RelationVerdict.relation verdict))

pub record KnowledgeReconcileInput : Type 0 where
  pub observed_at_ms : ℕ
  pub max_per_claim : Option ℕ
  pub max_candidates : Option ℕ
  pub min_score_ppm : Option ℕ
  pub budget_secs : Option ℕ
  pub concurrency : Option ℕ

abbrev within : ℕ → ℕ → Bool
within n most = leb 1 n && leb n most

-- The error is that of an operation's input, whose text is fixed.
unfoldable pub validated : KnowledgeReconcileInput → Result (Unit {0}) (ReconcileLimits × ℕ × ℕ)
validated input =
    let per_claim = unwrap_or (KnowledgeReconcileInput.max_per_claim input) 4 in
    let total = unwrap_or (KnowledgeReconcileInput.max_candidates input) 256 in
    let score = unwrap_or (KnowledgeReconcileInput.min_score_ppm input) 700000 in
    let budget = unwrap_or (KnowledgeReconcileInput.budget_secs input) 900 in
    let threads = unwrap_or (KnowledgeReconcileInput.concurrency input) 4 in
    if not (within per_claim 16)
      || (not (within total 1024)
          || (ltb 1000000 score || (not (within budget 3600) || not (within threads 16))))
    then err tt
    else ok
        (record { per_claim = per_claim; total = total; min_score_ppm = score }, budget, threads)
