-- ===== src/Knowledge/Code.antt =====
-- src/knowledge.rs, src/knowledge/contracts.rs: the occurrences of symbols that a code index lists.
use texo.Base.{ℕ, Bool, Option, List}
use texo.Base.Text.{Text}
use texo.Events.Payloads.{ByteRange, LineRange, AnalysisQuality}

pub data CodeIndexFormat : Type 0 where
  scip syntax lexical : CodeIndexFormat

pub data CodeOccurrenceRole : Type 0 where
  definition reference imported write read generated test : CodeOccurrenceRole
  forward_definition implementation : CodeOccurrenceRole

pub record CodeOccurrence : Type 0 where
  pub symbol : Text
  pub display_name : Text
  pub roles : List CodeOccurrenceRole
  pub path : Text
  pub byte_range : ByteRange
  pub line_range : LineRange
  pub source_digest_hex : Text
  pub excerpt : Text
  pub context : Text
  pub context_byte_range : ByteRange
  pub context_line_range : LineRange
  pub analyzer_fingerprint : Text
  pub analysis_quality : AnalysisQuality

pub data CoverageGapKind : Type 0 where
  source_snapshot_unavailable code_index_unavailable budget_exceeded : CoverageGapKind
  shallow_history missing_object gitlink symlink lfs_pointer : CoverageGapKind
  unsupported_encoding source_too_large unsupported_language : CoverageGapKind
  worktree_conflict analysis_incomplete out_of_scope : CoverageGapKind

pub record CoverageGap : Type 0 where
  pub path : Option Text
  pub kind : CoverageGapKind

pub record KnowledgeCoverage : Type 0 where
  pub analysis_quality : AnalysisQuality
  pub sources_examined : ℕ
  pub occurrences : ℕ
  pub truncated : Bool
  pub gaps : List CoverageGap

pub record CodeIndexArtifact : Type 0 where
  pub schema : Text
  pub snapshot_id : Text
  pub index_id : Text
  pub format : CodeIndexFormat
  pub analyzer_fingerprint : Text
  pub occurrences : List CodeOccurrence
  pub coverage : KnowledgeCoverage
