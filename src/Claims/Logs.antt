-- ===== src/Claims/Logs.antt =====
-- src/claims/timeline.rs, session_log.rs, compile_log.rs and campaign.rs: the projections that
-- keep a log, or the latest of a kind of event.
use texo.Base.{
  ℕ, Option, some, List, [], ◌∷◌, ◌++◌, map, fold, arith, append_assoc, append-nil, compare, subst,
  Ordering,
}
use texo.Base.Text.{Text, bytes}
use texo.Base.Sort.{sort_by, sort_by-perm, sort_by-IsSorted, IsSorted, IsTotal}
use mathlib.Core.List.{Perm}
use mathlib.Core.List.Perm
use texo.Events.Payloads.{
  Event, ClaimRecordedV2, ClaimSupersededV2, SessionTurnV1, OnboardingCompiledV2,
  WorkspaceInitializedV2, RelationCampaignCheckpointV1,
}

pub record TimelineEntry : Type 0 where
  pub kind : Text
  pub observed_at_ms : ℕ
  pub summary : Text

pub record ClaimTimeline : Type 0 where
  pub entries : List TimelineEntry

abbrev recorded_entry : ClaimRecordedV2 → TimelineEntry
recorded_entry event = record {
  kind = bytes "recorded";
  observed_at_ms = event.observed_at_ms;
  summary = event.claim_id;
}

abbrev superseded_entry : ClaimSupersededV2 → TimelineEntry
superseded_entry event = record {
  kind = bytes "superseded";
  observed_at_ms = event.observed_at_ms;
  summary = event.old_claim_id ++ (bytes " -> " ++ event.new_claim_id);
}

-- `ClaimTimeline::on_recorded` and `on_superseded`, under the dispatch by event kind.
unfoldable timeline_event : ClaimTimeline → Event → ClaimTimeline
timeline_event self (Event.claim_recorded e) = record {
  entries = self.entries ++ recorded_entry e ∷ [];
}
timeline_event self (Event.claim_superseded e) = record {
  entries = self.entries ++ superseded_entry e ∷ [];
}
timeline_event self _ = self

pub record TurnEntry : Type 0 where
  pub session_id : Text
  pub workspace_id : Text
  pub speaker : Text
  pub text : Text
  pub turn_no : ℕ
  pub observed_at_ms : ℕ

pub record SessionLog : Type 0 where
  pub turns : List TurnEntry

abbrev pub turn_entry : SessionTurnV1 → TurnEntry
turn_entry event = record {
  session_id = event.session_id;
  workspace_id = event.workspace_id;
  speaker = event.speaker;
  text = event.text;
  turn_no = event.turn_no;
  observed_at_ms = event.observed_at_ms;
}

abbrev pub by_turn_no : TurnEntry → TurnEntry → Ordering
by_turn_no left right = compare left.turn_no right.turn_no

-- `self.turns.push(…); self.turns.sort_by_key(|turn| turn.turn_no)`.
unfoldable pub on_turn : SessionLog → SessionTurnV1 → SessionLog
on_turn self event = record { turns = sort_by by_turn_no (self.turns ++ turn_entry event ∷ []) }

pub record CompileEntry : Type 0 where
  pub output_path : Text
  pub replayed_through_sequence : ℕ
  pub compiled_at_ms : ℕ

pub record CompileLog : Type 0 where
  pub compiles : List CompileEntry

abbrev compile_entry : OnboardingCompiledV2 → CompileEntry
compile_entry event = record {
  output_path = event.output_path;
  replayed_through_sequence = event.replayed_through_sequence;
  compiled_at_ms = event.compiled_at_ms;
}

unfoldable on_compiled : CompileLog → OnboardingCompiledV2 → CompileLog
on_compiled self event = record { compiles = self.compiles ++ compile_entry event ∷ [] }

pub record WorkspaceCard : Type 0 where
  pub workspace_id : Text
  pub schema : Text
  pub config_digest_hex : Text
  pub created_at_ms : ℕ

unfoldable on_initialized : WorkspaceCard → WorkspaceInitializedV2 → WorkspaceCard
on_initialized self event = record {
  workspace_id = event.workspace_id;
  schema = event.schema;
  config_digest_hex = event.config_digest_hex;
  created_at_ms = event.created_at_ms;
}

pub record CampaignCard : Type 0 where
  pub latest : Option RelationCampaignCheckpointV1

unfoldable on_checkpoint : CampaignCard → RelationCampaignCheckpointV1 → CampaignCard
on_checkpoint self event = record { latest = some event }

by_turn_no-IsTotal : IsTotal by_turn_no
by_turn_no-IsTotal = record { flips = λ a b. ground arith; chains = λ a b d h k. ground arith }

turns-perm :
    (es : List SessionTurnV1) (log : SessionLog)
    → Perm (fold on_turn log es).turns (log.turns ++ map turn_entry es)
unfolding on_turn
turns-perm [] log = rw append-nil (Perm.refl log.turns)
turns-perm (e ∷ es) log = Perm.trans (turns-perm es (on_turn log e)) (
    subst (λ l. Perm (sort_by by_turn_no (log.turns ++ turn_entry e ∷ []) ++ map turn_entry es) l)
      (append_assoc log.turns (turn_entry e ∷ []) (map turn_entry es))
      (Perm.append_right (map turn_entry es)
        (sort_by-perm by_turn_no (log.turns ++ turn_entry e ∷ []))))

turns-IsSorted :
    (es : List SessionTurnV1) (log : SessionLog)
    → IsSorted by_turn_no log.turns
    → IsSorted by_turn_no (fold on_turn log es).turns
unfolding on_turn
turns-IsSorted [] log h = h
turns-IsSorted (e ∷ es) log h =
    turns-IsSorted es (on_turn log e)
      (sort_by-IsSorted by_turn_no-IsTotal (log.turns ++ turn_entry e ∷ []))

-- However the turns of a session arrive, its log has each of them once, in the order of their
-- turn numbers.
pub turns_ordered :
    (es : List SessionTurnV1)
    → let log = fold on_turn (record { turns = [] }) es in
      IsSorted by_turn_no log.turns × Perm log.turns (map turn_entry es)
turns_ordered es =
    (turns-IsSorted es (record { turns = [] }) tt, turns-perm es (record { turns = [] }))
