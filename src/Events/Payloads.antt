-- ===== src/Events/Payloads.antt =====
-- src/events/payloads.rs (with payloads/campaign.rs and payloads/session.rs): the payloads that
-- the projections fold. Strings are byte strings; `u32` and `u64` fields are plain numbers.
-- `Event` is a stored event after BatPak's decoder: the payload under its event kind.
use texo.Base.{ℕ, Option, List}
use texo.Base.Text.{Text}
use texo.Events.Settlement.{CampaignPhase, SettledRelation, RelationFailureClass}

pub record SourceObservedV2 : Type 0 where
  pub source_id : Text
  pub workspace_id : Text
  pub source_kind : Text
  pub path : Text
  pub body_hash_hex : Text
  pub observed_at_ms : ℕ

pub record ClaimRecordedV2 : Type 0 where
  pub claim_id : Text
  pub workspace_id : Text
  pub source_id : Text
  pub source_path : Text
  pub line_start : ℕ
  pub line_end : ℕ
  pub char_start : ℕ
  pub char_end : ℕ
  pub text : Text
  pub normalized_text : Text
  pub subject_hint : Option Text
  pub predicate_hint : Option Text
  pub object_hint : Option Text
  pub confidence_ppm : ℕ
  pub extractor_kind : Text
  pub extractor_model : Text
  pub prompt_version : Text
  pub observed_at_ms : ℕ

-- src/events/machines.rs: the cause and the record of a transition.
pub record TransitionCauseV1 : Type 0 where
  pub lane : ℕ
  pub key : Text

pub record TransitionRecordV1 : Type 0 where
  pub schema_version : ℕ
  pub machine : Text
  pub previous_state : ℕ
  pub next_state : ℕ
  pub transition_id_hex : Text
  pub causes : List TransitionCauseV1

pub record ClaimSupersededV2 : Type 0 where
  pub old_claim_id : Text
  pub new_claim_id : Text
  pub workspace_id : Text
  pub reason : Text
  pub decided_by : Text
  pub observed_at_ms : ℕ
  pub transition : TransitionRecordV1

pub record ConflictOpenedV2 : Type 0 where
  pub conflict_id : Text
  pub workspace_id : Text
  pub claim_a : Text
  pub claim_b : Text
  pub reason : Text
  pub detector : Text
  pub observed_at_ms : ℕ
  pub transition : TransitionRecordV1

pub record OnboardingCompiledV2 : Type 0 where
  pub doc_id : Text
  pub workspace_id : Text
  pub output_path : Text
  pub source_claim_ids : List Text
  pub replayed_through_sequence : ℕ
  pub compiled_at_ms : ℕ

pub record ConflictResolvedV2 : Type 0 where
  pub conflict_id : Text
  pub workspace_id : Text
  pub resolution : Text
  pub resolved_by : Text
  pub observed_at_ms : ℕ
  pub transition : TransitionRecordV1

pub record WorkspaceInitializedV2 : Type 0 where
  pub workspace_id : Text
  pub schema : Text
  pub config_digest_hex : Text
  pub created_at_ms : ℕ

pub record SessionTurnV1 : Type 0 where
  pub session_id : Text
  pub workspace_id : Text
  pub speaker : Text
  pub text : Text
  pub turn_no : ℕ
  pub observed_at_ms : ℕ

pub record RelationJudgedV1 : Type 0 where
  pub workspace_id : Text
  pub older_claim : Text
  pub newer_claim : Text
  pub relation : SettledRelation
  pub score_ppm : ℕ
  pub judge_fingerprint : Text
  pub cache_key_hex : Text
  pub observed_at_ms : ℕ

pub record RelationDeferredV1 : Type 0 where
  pub workspace_id : Text
  pub older_claim : Text
  pub newer_claim : Text
  pub failure_class : RelationFailureClass
  pub attempts : ℕ
  pub observed_at_ms : ℕ

pub data TemporalRelation : Type 0 where
  same before after concurrent unknown : TemporalRelation

pub record SourceSnapshotRelationV1 : Type 0 where
  pub workspace_id : Text
  pub repository_id : Text
  pub left_snapshot_id : Text
  pub right_snapshot_id : Text
  pub left_commit : Text
  pub right_commit : Text
  pub relation : TemporalRelation
  pub observed_at_ms : ℕ

pub record RelationCampaignCheckpointV1 : Type 0 where
  pub workspace_id : Text
  pub evaluated_basis_digest_hex : Text
  pub result_basis_digest_hex : Text
  pub candidate_policy_digest_hex : Text
  pub phase : CampaignPhase
  pub observed_at_ms : ℕ

pub data GitObjectFormat : Type 0 where
  sha1 sha256 : GitObjectFormat

pub record GitObjectId : Type 0 where
  pub format : GitObjectFormat
  pub hex : Text

pub record ByteRange : Type 0 where
  pub start : ℕ
  pub end : ℕ

pub record LineRange : Type 0 where
  pub start : ℕ
  pub end : ℕ

pub data AnalysisQuality : Type 0 where
  precise syntactic lexical unavailable : AnalysisQuality

pub data EvidenceSourceKind : Type 0 where
  markdown git_blob worktree_overlay scip syntax lexical : EvidenceSourceKind

pub data EvidenceStance : Type 0 where
  supports contradicts mentions : EvidenceStance

pub data EvidenceLinkMethod : Type 0 where
  deterministic semantic_policy : EvidenceLinkMethod

pub record EvidenceOccurrence : Type 0 where
  pub occurrence_id : Text
  pub snapshot_id : Text
  pub source_kind : EvidenceSourceKind
  pub path : Text
  pub byte_range : ByteRange
  pub line_range : LineRange
  pub git_blob : Option GitObjectId
  pub source_digest_hex : Text
  pub excerpt : Text
  pub analyzer_fingerprint : Text
  pub analysis_quality : AnalysisQuality

pub record EvidenceOccurrenceRecordedV1 : Type 0 where
  pub workspace_id : Text
  pub occurrence : EvidenceOccurrence
  pub observed_at_ms : ℕ

pub record ClaimEvidenceLinkedV1 : Type 0 where
  pub workspace_id : Text
  pub claim_id : Text
  pub occurrence_id : Text
  pub stance : EvidenceStance
  pub method : EvidenceLinkMethod
  pub observed_at_ms : ℕ

pub record EvidenceReconciliationAcceptedV1 : Type 0 where
  pub workspace_id : Text
  pub claim_id : Text
  pub occurrence_id : Text
  pub stance : EvidenceStance
  pub score_ppm : ℕ
  pub judge_fingerprint : Text
  pub cache_key_hex : Text
  pub policy_version : Text
  pub observed_at_ms : ℕ

-- `EventKind`, of the events that the projections look at.
pub data EventKind : Type 0 where
  source_observed claim_recorded claim_superseded conflict_opened conflict_resolved : EventKind
  source_snapshot_relation : EventKind
  evidence_occurrence_recorded claim_evidence_linked evidence_reconciliation_accepted : EventKind
  other : ℕ → EventKind

pub data Event : Type 0 where
  source_observed : SourceObservedV2 → Event
  claim_recorded : ClaimRecordedV2 → Event
  claim_superseded : ClaimSupersededV2 → Event
  conflict_opened : ConflictOpenedV2 → Event
  conflict_resolved : ConflictResolvedV2 → Event
  source_snapshot_relation : SourceSnapshotRelationV1 → Event
  evidence_occurrence_recorded : EvidenceOccurrenceRecordedV1 → Event
  claim_evidence_linked : ClaimEvidenceLinkedV1 → Event
  evidence_reconciliation_accepted : EvidenceReconciliationAcceptedV1 → Event
  other : ℕ → Event

-- `<P as EventPayload>::KIND` of an event's payload.
abbrev pub kind_of : Event → EventKind
kind_of (Event.source_observed _) = EventKind.source_observed
kind_of (Event.claim_recorded _) = EventKind.claim_recorded
kind_of (Event.claim_superseded _) = EventKind.claim_superseded
kind_of (Event.conflict_opened _) = EventKind.conflict_opened
kind_of (Event.conflict_resolved _) = EventKind.conflict_resolved
kind_of (Event.source_snapshot_relation _) = EventKind.source_snapshot_relation
kind_of (Event.evidence_occurrence_recorded _) = EventKind.evidence_occurrence_recorded
kind_of (Event.claim_evidence_linked _) = EventKind.claim_evidence_linked
kind_of (Event.evidence_reconciliation_accepted _) = EventKind.evidence_reconciliation_accepted
kind_of (Event.other k) = EventKind.other k
