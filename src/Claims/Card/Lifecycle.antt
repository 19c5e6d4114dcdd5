-- ===== src/Claims/Card/Lifecycle.antt =====
-- The lifecycle of a claim card under any sequence of events (src/claims/card.rs).
use texo.Base.{
  ℕ, ◌≡◌, ◌≢◌, ◌↔◌, ◌⊎◌, inl, inr, refl, Bool, true, false, none, some, List, [], ◌∷◌, arith, fold,
  ap, sym, ◌∙◌,
}
use mathlib.Core.Bool.{false≢true}
use texo.Base.Text.{Text}
use texo.Events.Payloads.{Event, ClaimRecordedV2, ClaimSupersededV2}
use texo.Events.Machines.{claim_edges}
use texo.Claims.Card.{ClaimCard, default, apply_event, on_recorded, on_superseded}
use texo.Claims.Walk.{walks}

-- Replay: the card after a sequence of events.
abbrev pub replay_from : ClaimCard → List Event → ClaimCard
replay_from = fold apply_event

-- The states that the claim events of a sequence ask for: recorded is 1, superseded is 2.
abbrev pub targets : List Event → List ℕ
targets [] = []
targets (Event.claim_recorded _ ∷ es) = 1 ∷ targets es
targets (Event.claim_superseded _ ∷ es) = 2 ∷ targets es
targets (_ ∷ es) = targets es

-- An anomaly that was noted stays noted.
apply_event_anomalous :
    (card : ClaimCard) (e : Event) → card.anomalies ≢ [] → (apply_event card e).anomalies ≢ []
unfolding apply_event
apply_event_anomalous card e h k = ground arith

replay_anomalous :
    (es : List Event) (card : ClaimCard)
    → card.anomalies ≢ []
    → (replay_from card es).anomalies ≢ []
replay_anomalous [] card h = h
replay_anomalous (e ∷ es) card h =
    replay_anomalous es (apply_event card e) (apply_event_anomalous card e h)

-- What a clean replay keeps: a replacement is there exactly in phase 2.
record IsClean (card : ClaimCard) : Type 0 where
  quiet : card.anomalies ≡ []
  unreplaced : card.phase ≢ 2 → card.superseded_by ≡ none

-- One event either follows an edge and stays clean, or leaves an anomaly.
recorded_step :
    (card : ClaimCard) (e : ClaimRecordedV2)
    → IsClean card
    → (card.phase ≡ 0)
        × IsClean (apply_event card (Event.claim_recorded e))
        × ((apply_event card (Event.claim_recorded e)).phase ≡ 1)
      ⊎ (card.phase ≢ 0) × ((apply_event card (Event.claim_recorded e)).anomalies ≢ [])
unfolding apply_event
recorded_step card e h = ground arith

superseded_step :
    (card : ClaimCard) (e : ClaimSupersededV2)
    → IsClean card
    → (card.phase ≡ 1)
        × IsClean (apply_event card (Event.claim_superseded e))
        × ((apply_event card (Event.claim_superseded e)).phase ≡ 2)
      ⊎ (card.phase ≢ 1) × ((apply_event card (Event.claim_superseded e)).anomalies ≢ [])
unfolding apply_event
superseded_step card e h = ground arith

-- The machine has one edge out of 0 and one out of 1, to the next state.
walks_record : (p : ℕ) (ts : List ℕ) → p ≡ 0 → walks claim_edges p (1 ∷ ts) ≡ walks claim_edges 1 ts
walks_record p ts h = ground arith

walks_supersede :
    (p : ℕ) (ts : List ℕ) → p ≡ 1 → walks claim_edges p (2 ∷ ts) ≡ walks claim_edges 2 ts
walks_supersede p ts h = ground arith

stuck_record : (p : ℕ) (ts : List ℕ) → p ≢ 0 → walks claim_edges p (1 ∷ ts) ≡ false
stuck_record p ts h = ground arith

stuck_supersede : (p : ℕ) (ts : List ℕ) → p ≢ 1 → walks claim_edges p (2 ∷ ts) ≡ false
stuck_supersede p ts h = ground arith

abbrev CleanIsWalk : ClaimCard → List Event → Type 0
CleanIsWalk card es =
    ((replay_from card es).anomalies ≡ []) ↔ (walks claim_edges card.phase (targets es) ≡ true)

-- One event of the walk, over its two outcomes.
extend :
    (card next : ClaimCard) (es : List Event) (t : ℕ)
    → walks claim_edges card.phase (t ∷ targets es) ≡ walks claim_edges t (targets es)
    → next.phase ≡ t
    → CleanIsWalk next es
    → ((replay_from next es).anomalies ≡ [])
      ↔ (walks claim_edges card.phase (t ∷ targets es) ≡ true)
extend card next es t step at ih =
    let there = ap (λ p. walks claim_edges p (targets es)) at in
    (λ a. step ∙ sym there ∙ ih.0 a, λ w. ih.1 (there ∙ sym step ∙ w))

break :
    (card next : ClaimCard) (es : List Event) (b : Bool)
    → next.anomalies ≢ []
    → b ≡ false
    → ((replay_from next es).anomalies ≡ []) ↔ (b ≡ true)
break card next es b dirty stuck =
    (λ a. absurd (replay_anomalous es next dirty a), λ w. absurd (false≢true (sym stuck ∙ w)))

clean-iff-walk : (es : List Event) (card : ClaimCard) → IsClean card → CleanIsWalk card es
unfolding apply_event
clean-iff-walk [] card h = (λ _. refl, λ _. h.quiet)
clean-iff-walk (Event.claim_recorded e ∷ es) card h = elim (recorded_step card e h) [
  | inl (at, clean, to) ↦
      extend card (on_recorded card e) es 1 (walks_record card.phase (targets es) at) to
        (clean-iff-walk es (on_recorded card e) clean)
  | inr (off, dirty) ↦
      break card (on_recorded card e) es _ dirty (stuck_record card.phase (targets es) off)
]
clean-iff-walk (Event.claim_superseded e ∷ es) card h = elim (superseded_step card e h) [
  | inl (at, clean, to) ↦
      extend card (on_superseded card e) es 2 (walks_supersede card.phase (targets es) at) to
        (clean-iff-walk es (on_superseded card e) clean)
  | inr (off, dirty) ↦
      break card (on_superseded card e) es _ dirty (stuck_supersede card.phase (targets es) off)
]
clean-iff-walk (_ ∷ es) card h = clean-iff-walk es card h

-- A claim's replay notes no anomaly exactly when its events, in their order, walk the claim
-- machine from the unrecorded state along `CLAIM_EDGES`.
pub anomalies-iff-walk :
    (es : List Event)
    → ((replay_from default es).anomalies ≡ []) ↔ (walks claim_edges 0 (targets es) ≡ true)
anomalies-iff-walk es = clean-iff-walk es default (record { quiet = refl; unreplaced = λ _. refl })

-- The first replacement is final.
apply_event_replaced :
    (card : ClaimCard) (e : Event) (n : Text)
    → card.superseded_by ≡ some n
    → ((apply_event card e).superseded_by ≡ some n)
      × ((apply_event card e).superseded_reason ≡ card.superseded_reason)
      × ((apply_event card e).superseded_decided_by ≡ card.superseded_decided_by)
unfolding apply_event
apply_event_replaced card e n h = ground arith

-- Once a claim has a replacement, no later event changes the replacement, its reason or who
-- decided it.
pub replaced_final :
    (es : List Event) (card : ClaimCard) (n : Text)
    → card.superseded_by ≡ some n
    → ((replay_from card es).superseded_by ≡ some n)
      × ((replay_from card es).superseded_reason ≡ card.superseded_reason)
      × ((replay_from card es).superseded_decided_by ≡ card.superseded_decided_by)
replaced_final [] card n h = (h, refl, refl)
replaced_final (e ∷ es) card n h =
    let (by, reason, who) = apply_event_replaced card e n h in
    let (by', reason', who') = replaced_final es (apply_event card e) n by in
    (by', reason' ∙ reason, who' ∙ who)

apply_event_revived :
    (card : ClaimCard) (e : Event) (n : Text)
    → card.superseded_by ≡ some n
    → card.phase ≡ 1
    → ((apply_event card e).superseded_by ≡ some n) × ((apply_event card e).phase ≡ 1)
unfolding apply_event
apply_event_revived card e n h p = ground arith

stays_revived :
    (es : List Event) (card : ClaimCard) (n : Text)
    → card.superseded_by ≡ some n
    → card.phase ≡ 1
    → ((replay_from card es).superseded_by ≡ some n) × ((replay_from card es).phase ≡ 1)
stays_revived [] card n h p = (h, p)
stays_revived (e ∷ es) card n h p =
    let (h', p') = apply_event_revived card e n h p in stays_revived es (apply_event card e) n h' p'

phase_recorded :
    (card : ClaimCard) (e : ClaimRecordedV2) → (apply_event card (Event.claim_recorded e)).phase ≡ 1
unfolding apply_event
phase_recorded card e = ground arith

-- A claim that has a replacement and is recorded once more is in the current phase from then on,
-- whatever events follow, further supersessions included, and it keeps its replacement.
pub recorded_again_revives :
    (card : ClaimCard) (e : ClaimRecordedV2) (n : Text) (es : List Event)
    → card.superseded_by ≡ some n
    → ((replay_from (apply_event card (Event.claim_recorded e)) es).superseded_by ≡ some n)
      × ((replay_from (apply_event card (Event.claim_recorded e)) es).phase ≡ 1)
recorded_again_revives card e n es h =
    stays_revived es (apply_event card (Event.claim_recorded e)) n
      (apply_event_replaced card (Event.claim_recorded e) n h).0 (phase_recorded card e)
