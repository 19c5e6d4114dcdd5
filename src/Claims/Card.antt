-- ===== src/Claims/Card.antt =====
-- src/claims/card.rs: the claim card and its event handlers.
pub mod Lifecycle
use texo.Base.{ℕ, zero, Bool, Option, none, some, List, [], ◌∷◌, ◌++◌, ◌==◌, if◌then◌else◌, is_some}
use texo.Base.Text.{Text, bytes, decimal}
use texo.Events.Payloads.{Event, ClaimRecordedV2, ClaimSupersededV2}

pub record ClaimCard : Type 0 where
  pub phase : ℕ
  pub claim_id : Text
  pub workspace_id : Text
  pub source_id : Text
  pub source_path : Text
  pub line_start : ℕ
  pub line_end : ℕ
  pub char_start : ℕ
  pub char_end : ℕ
  pub text : Text
  pub normalized_text : Text
  pub subject_hint : Option Text
  pub predicate_hint : Option Text
  pub object_hint : Option Text
  pub confidence_ppm : ℕ
  pub extractor_kind : Text
  pub extractor_model : Text
  pub prompt_version : Text
  pub observed_at_ms : ℕ
  pub superseded_by : Option Text
  pub superseded_reason : Text
  pub superseded_decided_by : Text
  pub anomalies : List Text

-- `ClaimCard::default()`.
abbrev pub default : ClaimCard
default = record {
  phase = 0;
  claim_id = [];
  workspace_id = [];
  source_id = [];
  source_path = [];
  line_start = 0;
  line_end = 0;
  char_start = 0;
  char_end = 0;
  text = [];
  normalized_text = [];
  subject_hint = none;
  predicate_hint = none;
  object_hint = none;
  confidence_ppm = 0;
  extractor_kind = [];
  extractor_model = [];
  prompt_version = [];
  observed_at_ms = 0;
  superseded_by = none;
  superseded_reason = [];
  superseded_decided_by = [];
  anomalies = [];
}

-- `self.anomalies.push(what)`.
abbrev push_anomaly : ClaimCard → Text → ClaimCard
push_anomaly card what = record card { anomalies = card.anomalies ++ what ∷ [] }

unfoldable pub on_recorded : ClaimCard → ClaimRecordedV2 → ClaimCard
on_recorded card event =
    let card = if card.phase == 0 then card else push_anomaly card (bytes "duplicate-record") in
    record card {
      phase = 1;
      claim_id = event.claim_id;
      workspace_id = event.workspace_id;
      source_id = event.source_id;
      source_path = event.source_path;
      line_start = event.line_start;
      line_end = event.line_end;
      char_start = event.char_start;
      char_end = event.char_end;
      text = event.text;
      normalized_text = event.normalized_text;
      subject_hint = event.subject_hint;
      predicate_hint = event.predicate_hint;
      object_hint = event.object_hint;
      confidence_ppm = event.confidence_ppm;
      extractor_kind = event.extractor_kind;
      extractor_model = event.extractor_model;
      prompt_version = event.prompt_version;
      observed_at_ms = event.observed_at_ms;
    }

unfoldable pub on_superseded : ClaimCard → ClaimSupersededV2 → ClaimCard
on_superseded card event =
    let card =
      if card.phase == 1
      then card
      else push_anomaly card (bytes "supersede-from-" ++ decimal card.phase) in
    if is_some card.superseded_by
    then push_anomaly card (bytes "duplicate-supersede")
    else record card {
      phase = 2;
      superseded_by = some event.new_claim_id;
      superseded_reason = event.reason;
      superseded_decided_by = event.decided_by;
    }

-- The dispatch of `#[batpak(event = …, handler = …)]`: an event of another kind does nothing.
unfoldable pub apply_event : ClaimCard → Event → ClaimCard
unfolding on_recorded on_superseded
apply_event card (Event.claim_recorded event) = on_recorded card event
apply_event card (Event.claim_superseded event) = on_superseded card event
apply_event card _ = card
