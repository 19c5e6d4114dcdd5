-- ===== src/Examples/Cards.antt =====
-- The cards at small histories.
use mathlib.Core.List.{Perm}
use mathlib.Core.List.Perm
use texo.Base.{ℕ, ◌≡◌, ◌↔◌, refl, true, some, List, [], ◌∷◌, ◌++◌, head?, fold, inl}
use texo.Base.Text.{Text, bytes, decimal, compare_text}
use texo.Base.Sort.{IsSorted}
use texo.Events.Payloads.{Event, TransitionCauseV1, SessionTurnV1, RelationJudgedV1}
use texo.Events.Settlement.{SettledRelation, RelationFailureClass}
use texo.Events.Machines.{
  claim_edges, conflict_edges, transition_id, transition_id_lem, to_be_bytes, concat,
}
use texo.Events.Ids.{claim_id_from_parts, claim_id_shared}
use texo.Claims.Walk.{walks}
use texo.Claims.Card
use texo.Claims.Card.{ClaimCard}
use texo.Claims.Card.Lifecycle
use texo.Claims.Card.Lifecycle.{anomalies-iff-walk, replaced_final, recorded_again_revives}
use texo.Claims.Conflict
use texo.Claims.Conflict.Lifecycle as ConflictLifecycle
use texo.Claims.Conflict.Lifecycle.{conflict_anomalies-iff-walk}
use texo.Claims.Source
use texo.Claims.Source.{u32_max, observations-replay}
use texo.Claims.Settlement as Settlement
use texo.Claims.Settlement.{
  SettlementEvent, judged, deferred, judgments, deferrals, first_judgment_rules,
}
use texo.Claims.Logs.{on_turn, turn_entry, by_turn_no, turns_ordered}
use texo.Examples.Data.{demo, recorded, superseded, opened, resolved, observed}

abbrev a_recorded : Event
a_recorded = Event.claim_recorded (recorded (bytes "claim_a") (bytes "deploys happen on friday") 20)

abbrev a_superseded : Event
a_superseded = Event.claim_superseded (superseded (bytes "claim_a") (bytes "claim_b"))

anomalies-iff-walk_example :
    ((Lifecycle.replay_from Card.default (a_recorded ∷ a_superseded ∷ a_recorded ∷ [])).anomalies
      ≡ [])
    ↔ (walks claim_edges 0 (1 ∷ 2 ∷ 1 ∷ []) ≡ true)
anomalies-iff-walk_example = anomalies-iff-walk (a_recorded ∷ a_superseded ∷ a_recorded ∷ [])

abbrev replaced : ClaimCard
replaced = record Card.default {
  phase = 2;
  claim_id = bytes "claim_a";
  superseded_by = some (bytes "claim_b");
  superseded_reason = bytes "moved";
}

replaced_final_example :
    let card = Lifecycle.replay_from replaced (a_recorded ∷ a_superseded ∷ []) in
    (card.superseded_by ≡ some (bytes "claim_b"))
    × (card.superseded_reason ≡ bytes "moved")
    × (card.superseded_decided_by ≡ [])
replaced_final_example =
    replaced_final (a_recorded ∷ a_superseded ∷ []) replaced (bytes "claim_b") refl

recorded_again_revives_example :
    let card = Lifecycle.replay_from (Card.apply_event replaced a_recorded) (a_superseded ∷ []) in
    (card.superseded_by ≡ some (bytes "claim_b")) × (card.phase ≡ 1)
recorded_again_revives_example =
    recorded_again_revives replaced
      (recorded (bytes "claim_a") (bytes "deploys happen on friday") 20) (bytes "claim_b")
      (a_superseded ∷ []) refl

abbrev conflict_history : List Event
conflict_history =
    Event.conflict_opened (opened (bytes "claim_a") (bytes "claim_b"))
    ∷ Event.conflict_resolved (resolved (bytes "resolved"))
    ∷ []

conflict_anomalies-iff-walk_example :
    ((ConflictLifecycle.replay_from Conflict.default conflict_history).anomalies ≡ [])
    ↔ (walks conflict_edges 0 (ConflictLifecycle.targets conflict_history) ≡ true)
conflict_anomalies-iff-walk_example = conflict_anomalies-iff-walk conflict_history

observations-replay_example :
    (fold Source.apply_event Source.default (
      Event.source_observed (observed 1)
      ∷ a_recorded
      ∷ Event.source_observed (observed 2)
      ∷ [])).observations
    ≡ 2
observations-replay_example =
    observations-replay
      (Event.source_observed (observed 1) ∷ a_recorded ∷ Event.source_observed (observed 2) ∷ [])

abbrev judged_as : SettledRelation → RelationJudgedV1
judged_as relation = record {
  workspace_id = demo;
  older_claim = bytes "claim_a";
  newer_claim = bytes "claim_b";
  relation = relation;
  score_ppm = 900000;
  judge_fingerprint = bytes "judge";
  cache_key_hex = bytes "00";
  observed_at_ms = 1;
}

abbrev verdicts : List SettlementEvent
verdicts =
    deferred (record {
      workspace_id = demo;
      older_claim = bytes "claim_a";
      newer_claim = bytes "claim_b";
      failure_class = RelationFailureClass.deadline;
      attempts = 2;
      observed_at_ms = 0;
    })
    ∷ judged (judged_as SettledRelation.supersedes)
    ∷ judged (judged_as SettledRelation.conflicts)
    ∷ []

first_judgment_rules_example :
    let card = fold Settlement.apply_event Settlement.default verdicts in
    (card.authoritative ≡ head? (judgments verdicts))
    × (card.later_judgments ≡ Settlement.judgment (judged_as SettledRelation.conflicts) ∷ [])
    × (card.deferrals ≡ deferrals verdicts)
first_judgment_rules_example = first_judgment_rules verdicts

abbrev turn : ℕ → SessionTurnV1
turn n = record {
  session_id = bytes "s";
  workspace_id = demo;
  speaker = bytes "user";
  text = bytes "hello";
  turn_no = n;
  observed_at_ms = n;
}

turns_ordered_example :
    let log = fold on_turn (record { turns = [] }) (turn 2 ∷ turn 1 ∷ []) in
    IsSorted by_turn_no log.turns × Perm log.turns (turn_entry (turn 2) ∷ turn_entry (turn 1) ∷ [])
turns_ordered_example = turns_ordered (turn 2 ∷ turn 1 ∷ [])

abbrev cause : Text → TransitionCauseV1
cause key = record { lane = 0; key = key }

abbrev sorted_keys : List Text
sorted_keys = bytes "a" ∷ bytes "b" ∷ []

sorted_keys-IsSorted : IsSorted compare_text sorted_keys
unfolding compare_text
sorted_keys-IsSorted = ((inl refl, tt), (tt, tt))

transition_id_lem_example :
    transition_id
      (λ t. t)
      (bytes "m")
      (bytes "e")
      0
      1
      (cause (bytes "b") ∷ cause (bytes "a") ∷ [])
      7
    ≡ bytes "m"
      ++ (bytes "e" ++ (to_be_bytes 0 ++ (to_be_bytes 1 ++ (concat sorted_keys ++ to_be_bytes 7))))
transition_id_lem_example =
    transition_id_lem (λ t. t) (bytes "m") (bytes "e") 0 1
      (cause (bytes "b") ∷ cause (bytes "a") ∷ []) sorted_keys 7 sorted_keys-IsSorted
      (Perm.swap (bytes "a") (bytes "b") [])

digits_join : decimal 1 ++ decimal 2 ≡ decimal 12
unfolding decimal
digits_join = refl

claim_id_shared_example :
    claim_id_from_parts (λ t. t) (bytes "src_1") 1 (decimal 2 ++ bytes "x replicas")
    ≡ claim_id_from_parts (λ t. t) (bytes "src_1") 12 (bytes "x replicas")
claim_id_shared_example =
    claim_id_shared (λ t. t) (bytes "src_1") (bytes "x replicas") 1 2 12 digits_join
