-- ===== src/Claims/Conflict.antt =====
-- src/claims/conflict.rs: the conflict card and its event handlers.
pub mod Lifecycle
use texo.Base.{ℕ, List, [], ◌∷◌, ◌++◌, ◌==◌, if◌then◌else◌}
use texo.Base.Text.{Text, bytes, decimal, text_eq}
use texo.Events.Payloads.{Event, ConflictOpenedV2, ConflictResolvedV2}

pub record ConflictCard : Type 0 where
  pub phase : ℕ
  pub conflict_id : Text
  pub workspace_id : Text
  pub claim_a : Text
  pub claim_b : Text
  pub reason : Text
  pub detector : Text
  pub resolution : Text
  pub resolved_by : Text
  pub opened_at_ms : ℕ
  pub resolved_at_ms : ℕ
  pub anomalies : List Text

-- `ConflictCard::default()`.
abbrev pub default : ConflictCard
default = record {
  phase = 0;
  conflict_id = [];
  workspace_id = [];
  claim_a = [];
  claim_b = [];
  reason = [];
  detector = [];
  resolution = [];
  resolved_by = [];
  opened_at_ms = 0;
  resolved_at_ms = 0;
  anomalies = [];
}

abbrev push_anomaly : ConflictCard → Text → ConflictCard
push_anomaly card what = record card { anomalies = card.anomalies ++ what ∷ [] }

unfoldable pub on_opened : ConflictCard → ConflictOpenedV2 → ConflictCard
on_opened card event =
    let card = if card.phase == 0 then card else push_anomaly card (bytes "duplicate-open") in
    record card {
      phase = 1;
      conflict_id = event.conflict_id;
      workspace_id = event.workspace_id;
      claim_a = event.claim_a;
      claim_b = event.claim_b;
      reason = event.reason;
      detector = event.detector;
      opened_at_ms = event.observed_at_ms;
    }

-- The `match` on the resolution: it may note an anomaly, and gives the next phase.
abbrev settle_phase : ConflictCard → Text → ConflictCard
settle_phase card resolution =
    if text_eq resolution (bytes "resolved")
    then record card { phase = 2 }
    else if text_eq resolution (bytes "ignored")
    then record card { phase = 3 }
    else push_anomaly card (bytes "unknown-resolution")

unfoldable pub on_resolved : ConflictCard → ConflictResolvedV2 → ConflictCard
on_resolved card event =
    let card =
      if card.phase == 1
      then card
      else push_anomaly card (bytes "resolve-from-" ++ decimal card.phase) in
    let card = settle_phase card event.resolution in
    record card {
      conflict_id = event.conflict_id;
      workspace_id = event.workspace_id;
      resolution = event.resolution;
      resolved_by = event.resolved_by;
      resolved_at_ms = event.observed_at_ms;
    }

unfoldable pub apply_event : ConflictCard → Event → ConflictCard
unfolding on_opened on_resolved
apply_event card (Event.conflict_opened event) = on_opened card event
apply_event card (Event.conflict_resolved event) = on_resolved card event
apply_event card _ = card
