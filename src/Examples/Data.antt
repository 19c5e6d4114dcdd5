-- ===== src/Examples/Data.antt =====
-- A small journal of one workspace, held by a store that is a list.
use texo.Base.{ℕ, true, false, none, some, List, [], ◌∷◌, ◌==◌, ok, take}
use texo.Base.Text.{Text, bytes}
use texo.Events.Payloads.{
  Event, kind_of, SourceObservedV2, ClaimRecordedV2, ClaimSupersededV2, ConflictOpenedV2,
  ConflictResolvedV2, TransitionRecordV1, ClaimEvidenceLinkedV1, EvidenceOccurrence, EvidenceStance,
  EvidenceLinkMethod, EvidenceSourceKind, AnalysisQuality, SourceSnapshotRelationV1,
  TemporalRelation,
}
use texo.Journal.{IndexEntry, JournalRead, behind}

abbrev pub demo : Text
demo = bytes "demo"

abbrev moved : TransitionRecordV1
moved = record {
  schema_version = 1;
  machine = bytes "texo.claim.v2";
  previous_state = 1;
  next_state = 2;
  transition_id_hex = bytes "00";
  causes = [];
}

abbrev pub recorded : Text → Text → ℕ → ClaimRecordedV2
recorded id text at = record {
  claim_id = id;
  workspace_id = demo;
  source_id = bytes "src_1";
  source_path = bytes "notes.md";
  line_start = 1;
  line_end = 1;
  char_start = 0;
  char_end = 20;
  text = text;
  normalized_text = text;
  subject_hint = some (bytes "deploy-process");
  predicate_hint = none;
  object_hint = none;
  confidence_ppm = 900000;
  extractor_kind = bytes "markdown";
  extractor_model = [];
  prompt_version = bytes "v1";
  observed_at_ms = at;
}

abbrev pub superseded : Text → Text → ClaimSupersededV2
superseded old new = record {
  old_claim_id = old;
  new_claim_id = new;
  workspace_id = demo;
  reason = bytes "moved";
  decided_by = bytes "heuristic";
  observed_at_ms = 30;
  transition = moved;
}

abbrev pub opened : Text → Text → ConflictOpenedV2
opened a b = record {
  conflict_id = bytes "conflict_x";
  workspace_id = demo;
  claim_a = a;
  claim_b = b;
  reason = bytes "days differ";
  detector = bytes "heuristic";
  observed_at_ms = 40;
  transition = moved;
}

abbrev pub resolved : Text → ConflictResolvedV2
resolved how = record {
  conflict_id = bytes "conflict_x";
  workspace_id = demo;
  resolution = how;
  resolved_by = bytes "alice";
  observed_at_ms = 50;
  transition = moved;
}

abbrev pub observed : ℕ → SourceObservedV2
observed at = record {
  source_id = bytes "src_1";
  workspace_id = demo;
  source_kind = bytes "markdown";
  path = bytes "notes.md";
  body_hash_hex = bytes "ab";
  observed_at_ms = at;
}

abbrev pub snapshot_order : SourceSnapshotRelationV1
snapshot_order = record {
  workspace_id = demo;
  repository_id = bytes "repo";
  left_snapshot_id = bytes "left";
  right_snapshot_id = bytes "right";
  left_commit = bytes "c1";
  right_commit = bytes "c2";
  relation = TemporalRelation.before;
  observed_at_ms = 60;
}

abbrev pub linked : ClaimEvidenceLinkedV1
linked = record {
  workspace_id = demo;
  claim_id = bytes "claim_b";
  occurrence_id = bytes "occ_1";
  stance = EvidenceStance.supports;
  method = EvidenceLinkMethod.deterministic;
  observed_at_ms = 65;
}

abbrev pub occurrence : EvidenceOccurrence
occurrence = record {
  occurrence_id = bytes "occ_1";
  snapshot_id = bytes "left";
  source_kind = EvidenceSourceKind.markdown;
  path = bytes "notes.md";
  byte_range = record { start = 0; end = 20 };
  line_range = record { start = 1; end = 1 };
  git_blob = none;
  source_digest_hex = bytes "ab";
  excerpt = bytes "deploys moved to monday";
  analyzer_fingerprint = bytes "markdown";
  analysis_quality = AnalysisQuality.lexical;
}

abbrev find : List (ℕ × Event) → ℕ → Event
find [] n = Event.other n
find ((m, event) ∷ events) n = elim (m == n) [ true ↦ event | false ↦ find events n ]

-- The events by their identities, which are their sequences here.
abbrev pub event_at : ℕ → Event
event_at = find (
    (1, Event.source_observed (observed 10))
    ∷ (2, Event.claim_recorded (recorded (bytes "claim_a") (bytes "deploys happen on friday") 20))
    ∷ (3, Event.claim_recorded (recorded (bytes "claim_b") (bytes "deploys moved to monday") 25))
    ∷ (5, Event.claim_superseded (superseded (bytes "claim_a") (bytes "claim_b")))
    ∷ (6, Event.source_snapshot_relation snapshot_order)
    ∷ (11, Event.claim_evidence_linked linked)
    ∷ (
      12,
      Event.evidence_occurrence_recorded
          (record { workspace_id = demo; occurrence = occurrence; observed_at_ms = 70 }),
    )
    ∷ [])

abbrev entry : ℕ → Text → IndexEntry
entry n entity = record {
  global_sequence = n;
  event_id = n;
  event_kind = kind_of (event_at n);
  entity = entity;
}

abbrev pub payload : IndexEntry → Event
payload e = event_at e.event_id

-- The journal when it was shorter, and what came behind it.
abbrev pub early : List IndexEntry
early =
    entry 1 (bytes "source:src_1")
    ∷ entry 2 (bytes "claim:claim_a")
    ∷ entry 3 (bytes "claim:claim_b")
    ∷ []

abbrev pub late : List IndexEntry
late =
    entry 5 (bytes "claim:claim_a")
    ∷ entry 6 (bytes "source-relation:left:right")
    ∷ entry 9 (bytes "session:s")
    ∷ []

abbrev pub latest : List IndexEntry
latest = entry 11 (bytes "evidence:link") ∷ entry 12 (bytes "evidence:x") ∷ []

abbrev pub store_of : List IndexEntry → JournalRead
store_of log = record {
  query_entries_after = λ region after limit. take limit (behind after log);
  read_raw = λ id. ok (event_at id);
  entity_generation = λ entity. some 2;
}
