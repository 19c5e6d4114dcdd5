-- ===== src/Claims/Source.antt =====
-- src/claims/source.rs: the latest observation of a source, and how many there were.
use texo.Base.{
  ℕ, ◌+◌, ◌-◌, ◌^◌, ◌≤◌, ◌≡◌, List, [], ◌∷◌, fold, arith, min, saturating_add, length, filter, Bool,
  true, false,
}
use texo.Base.Text.{Text}
use texo.Events.Payloads.{Event, SourceObservedV2}

abbrev pub u32_max : ℕ
u32_max = 2 ^ 32 - 1

pub record SourceCard : Type 0 where
  pub source_id : Text
  pub workspace_id : Text
  pub source_kind : Text
  pub path : Text
  pub body_hash_hex : Text
  pub observed_at_ms : ℕ
  pub observations : ℕ

-- `SourceCard::default()`.
abbrev pub default : SourceCard
default = record {
  source_id = [];
  workspace_id = [];
  source_kind = [];
  path = [];
  body_hash_hex = [];
  observed_at_ms = 0;
  observations = 0;
}

unfoldable pub on_observed : SourceCard → SourceObservedV2 → SourceCard
on_observed card event = record {
  source_id = event.source_id;
  workspace_id = event.workspace_id;
  source_kind = event.source_kind;
  path = event.path;
  body_hash_hex = event.body_hash_hex;
  observed_at_ms = event.observed_at_ms;
  observations = saturating_add u32_max card.observations 1;
}

unfoldable pub apply_event : SourceCard → Event → SourceCard
unfolding on_observed
apply_event card (Event.source_observed event) = on_observed card event
apply_event card _ = card

abbrev is_observation : Event → Bool
is_observation (Event.source_observed _) = true
is_observation _ = false

observed_total :
    (es : List Event) (card : SourceCard)
    → card.observations ≤ u32_max
    → (fold apply_event card es).observations
      ≡ min u32_max (card.observations + length (filter is_observation es))
unfolding apply_event
observed_total [] card h = omega arith
observed_total (Event.source_observed e ∷ es) card h =
    omega (arith, observed_total es (on_observed card e) (omega arith))
observed_total (_ ∷ es) card h = observed_total es card h

-- A source card counts the observations in the journal, up to the largest `u32`, where it stays.
pub observations-replay :
    (es : List Event)
    → (fold apply_event default es).observations ≡ min u32_max (length (filter is_observation es))
observations-replay es = omega (arith, observed_total es default (omega arith))
