-- ===== src/Claims/Conflict/Lifecycle.antt =====
-- The lifecycle of a conflict card under any sequence of events (src/claims/conflict.rs).
use mathlib.Core.Bool.{false≢true}
use texo.Base.{
  ℕ, ◌≡◌, ◌≢◌, ◌↔◌, ◌⊎◌, inl, inr, refl, Bool, true, false, List, [], ◌∷◌, arith, fold, ap, sym,
  ◌∙◌, if◌then◌else◌, ◌≤◌,
}
use texo.Base.Text.{Text, bytes, text_eq}
use texo.Events.Payloads.{Event, ConflictOpenedV2, ConflictResolvedV2}
use texo.Events.Machines.{conflict_edges}
use texo.Claims.Conflict.{ConflictCard, default, apply_event, on_opened, on_resolved}
use texo.Claims.Walk.{walks}

abbrev pub replay_from : ConflictCard → List Event → ConflictCard
replay_from = fold apply_event

-- The state that a resolution asks for; 4 is no state of the machine.
abbrev pub resolution_state : Text → ℕ
resolution_state r =
    if text_eq r (bytes "resolved") then 2 else if text_eq r (bytes "ignored") then 3 else 4

-- The states that the conflict events of a sequence ask for.
abbrev pub targets : List Event → List ℕ
targets [] = []
targets (Event.conflict_opened _ ∷ es) = 1 ∷ targets es
targets (Event.conflict_resolved e ∷ es) = resolution_state e.resolution ∷ targets es
targets (_ ∷ es) = targets es

apply_event_anomalous :
    (card : ConflictCard) (e : Event) → card.anomalies ≢ [] → (apply_event card e).anomalies ≢ []
unfolding apply_event
apply_event_anomalous card e h k = ground arith

replay_anomalous :
    (es : List Event) (card : ConflictCard)
    → card.anomalies ≢ []
    → (replay_from card es).anomalies ≢ []
replay_anomalous [] card h = h
replay_anomalous (e ∷ es) card h =
    replay_anomalous es (apply_event card e) (apply_event_anomalous card e h)

opened_step :
    (card : ConflictCard) (e : ConflictOpenedV2)
    → card.anomalies ≡ []
    → (card.phase ≡ 0) × ((on_opened card e).anomalies ≡ []) × ((on_opened card e).phase ≡ 1)
      ⊎ (card.phase ≢ 0) × ((on_opened card e).anomalies ≢ [])
unfolding on_opened
opened_step card e h = ground arith

-- A resolution that the machine allows: from the open state, with a known word.
abbrev Resolves : ConflictCard → Text → Type 0
Resolves card r = (card.phase ≡ 1) × (resolution_state r ≤ 3)

resolved_step :
    (card : ConflictCard) (e : ConflictResolvedV2)
    → card.anomalies ≡ []
    → Resolves card e.resolution
        × ((on_resolved card e).anomalies ≡ [])
        × ((on_resolved card e).phase ≡ resolution_state e.resolution)
      ⊎ (¬ Resolves card e.resolution) × ((on_resolved card e).anomalies ≢ [])
unfolding on_resolved
resolved_step card e h = ground arith

walks_open :
    (p : ℕ) (ts : List ℕ) → p ≡ 0 → walks conflict_edges p (1 ∷ ts) ≡ walks conflict_edges 1 ts
walks_open p ts h = ground arith

stuck_open : (p : ℕ) (ts : List ℕ) → p ≢ 0 → walks conflict_edges p (1 ∷ ts) ≡ false
stuck_open p ts h = ground arith

walks_resolve :
    (p t : ℕ) (ts : List ℕ)
    → p ≡ 1
    → 2 ≤ t
    → t ≤ 3
    → walks conflict_edges p (t ∷ ts) ≡ walks conflict_edges t ts
walks_resolve p t ts h k l = ground arith

stuck_resolve :
    (p t : ℕ) (ts : List ℕ)
    → 2 ≤ t
    → ¬ ((p ≡ 1) × (t ≤ 3))
    → walks conflict_edges p (t ∷ ts) ≡ false
stuck_resolve p t ts k h = ground arith

resolution_state_min : (r : Text) → 2 ≤ resolution_state r
resolution_state_min r = ground arith

abbrev CleanIsWalk : ConflictCard → List Event → Type 0
CleanIsWalk card es =
    ((replay_from card es).anomalies ≡ []) ↔ (walks conflict_edges card.phase (targets es) ≡ true)

extend :
    (card next : ConflictCard) (es : List Event) (t : ℕ)
    → walks conflict_edges card.phase (t ∷ targets es) ≡ walks conflict_edges t (targets es)
    → next.phase ≡ t
    → CleanIsWalk next es
    → ((replay_from next es).anomalies ≡ [])
      ↔ (walks conflict_edges card.phase (t ∷ targets es) ≡ true)
extend card next es t step at ih =
    let there = ap (λ p. walks conflict_edges p (targets es)) at in
    (λ a. step ∙ sym there ∙ ih.0 a, λ w. ih.1 (there ∙ sym step ∙ w))

break :
    (next : ConflictCard) (es : List Event) (b : Bool)
    → next.anomalies ≢ []
    → b ≡ false
    → ((replay_from next es).anomalies ≡ []) ↔ (b ≡ true)
break next es b dirty stuck =
    (λ a. absurd (replay_anomalous es next dirty a), λ w. absurd (false≢true (sym stuck ∙ w)))

clean-iff-walk : (es : List Event) (card : ConflictCard) → card.anomalies ≡ [] → CleanIsWalk card es
unfolding apply_event
clean-iff-walk [] card h = (λ _. refl, λ _. h)
clean-iff-walk (Event.conflict_opened e ∷ es) card h = elim (opened_step card e h) [
  | inl (at, clean, to) ↦
      extend card (on_opened card e) es 1 (walks_open card.phase (targets es) at) to
        (clean-iff-walk es (on_opened card e) clean)
  | inr (off, dirty) ↦ break (on_opened card e) es _ dirty (stuck_open card.phase (targets es) off)
]
clean-iff-walk (Event.conflict_resolved e ∷ es) card h =
    let t = resolution_state e.resolution in
    let low = resolution_state_min e.resolution in
    elim (resolved_step card e h) [
      | inl (at, clean, to) ↦
          extend card (on_resolved card e) es t
            (walks_resolve card.phase t (targets es) at.0 low at.1) to
            (clean-iff-walk es (on_resolved card e) clean)
      | inr (off, dirty) ↦
          break (on_resolved card e) es _ dirty (stuck_resolve card.phase t (targets es) low off)
    ]
clean-iff-walk (_ ∷ es) card h = clean-iff-walk es card h

-- A conflict's replay notes no anomaly exactly when its events, in their order, walk the conflict
-- machine from the unopened state along `CONFLICT_EDGES`; a resolution that is neither `resolved`
-- nor `ignored` asks for no state of it.
pub conflict_anomalies-iff-walk :
    (es : List Event)
    → ((replay_from default es).anomalies ≡ []) ↔ (walks conflict_edges 0 (targets es) ≡ true)
conflict_anomalies-iff-walk es = clean-iff-walk es default refl
