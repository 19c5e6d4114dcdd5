-- ===== src/Temporal.antt =====
-- src/claims/temporal.rs: the order of source snapshots that a journal records.
pub mod Replay
use texo.Base.{
  ℕ, zero, ◌≡◌, refl, Bool, true, false, Option, none, some, List, [], ◌∷◌, Result, ok, err,
  if◌then◌else◌, unwrap_or, or_else, arith, ◌≢◌, ◌⊎◌, ◌↔◌,
}
use mathlib.Core.Option
use texo.Base.Text.{Text, text_ord, text_eq}
use texo.Base.Pairs.{pair_ord}
use texo.Base.Map.{BTreeMap, get, or_insert}
use texo.Events.Payloads.{Event, EventKind, TemporalRelation, SourceSnapshotRelationV1}
use texo.Events.Coordinate.{scope_for_workspace}
use texo.Journal.{IndexEntry, JournalRead}
use texo.Journal.Paging.{Flow, next, stop, fail, page_limit, page_loop}
use texo.Journal.Through.{through}

-- `relations` of `TemporalProjection`.
abbrev pub TemporalProjection : Type 0
TemporalProjection = BTreeMap (Text × Text) TemporalRelation

abbrev pub invert : TemporalRelation → TemporalRelation
invert TemporalRelation.before = TemporalRelation.after
invert TemporalRelation.after = TemporalRelation.before
invert TemporalRelation.same = TemporalRelation.same
invert TemporalRelation.concurrent = TemporalRelation.concurrent
invert TemporalRelation.unknown = TemporalRelation.unknown

unfoldable pub compare : TemporalProjection → Text → Text → TemporalRelation
compare relations left right =
    if text_eq left right
    then TemporalRelation.same
    else unwrap_or
        (or_else (get relations (left, right)) (Option.map invert (get relations (right, left))))
        TemporalRelation.unknown

-- `insert`: the first fact of a directed pair stays.
unfoldable pub record_fact : TemporalProjection → SourceSnapshotRelationV1 → TemporalProjection
record_fact relations fact =
    or_insert relations (fact.left_snapshot_id, fact.right_snapshot_id) fact.relation

abbrev is_relation : EventKind → Bool
is_relation EventKind.source_snapshot_relation = true
is_relation _ = false

-- The text of a `TexoError::Decode`, for an event that is not of the kind that its index shows.
abbrev undecodable : Text
undecodable = []

-- The body of the loop, for an entry that is not past the frontier.
unfoldable pub temporal_entry :
    JournalRead → TemporalProjection → IndexEntry → Flow TemporalProjection
unfolding record_fact
temporal_entry store projection entry = elim entry.event_kind [
  | EventKind.source_snapshot_relation ↦ elim (store.read_raw entry.event_id) [
    | err what ↦ fail what projection
    | ok (Event.source_snapshot_relation fact) ↦ next (record_fact projection fact)
    | ok _ ↦ fail undecodable projection
  ]
  | _ ↦ next projection
]

abbrev outcome : Flow TemporalProjection → Result Text TemporalProjection
outcome (next projection) = ok projection
outcome (stop projection) = ok projection
outcome (fail what projection) = err what

unfoldable pub assemble_through : ℕ → JournalRead → Text → ℕ → Result Text TemporalProjection
assemble_through fuel store workspace_id frontier = outcome (
    page_loop
      (λ after. store.query_entries_after (scope_for_workspace workspace_id) after page_limit)
      (through frontier (temporal_entry store)) fuel none [])

compare-flip :
    (relations : TemporalProjection) (left right : Text)
    → (get relations (left, right) ≡ none) ⊎ (get relations (right, left) ≡ none)
    → compare relations right left ≡ invert (compare relations left right)
unfolding compare
compare-flip relations left right h = ground (arith, text_ord.cmp_flip left right)

-- What a relation is the inverse of.
invert_lem :
    (r : TemporalRelation)
    → ((invert r ≡ TemporalRelation.after) ↔ (r ≡ TemporalRelation.before))
      × ((invert r ≡ TemporalRelation.before) ↔ (r ≡ TemporalRelation.after))
      × ((invert r ≡ TemporalRelation.same) ↔ (r ≡ TemporalRelation.same))
      × ((invert r ≡ TemporalRelation.concurrent) ↔ (r ≡ TemporalRelation.concurrent))
      × ((invert r ≡ TemporalRelation.unknown) ↔ (r ≡ TemporalRelation.unknown))
invert_lem r = ground arith

-- Comparing the other way round inverts the relation, unless both directions were recorded: one
-- snapshot is after the other exactly if that is before it, and the same, concurrent and unknown
-- stay as they are.
pub compare-invert :
    (relations : TemporalProjection) (left right : Text)
    → (get relations (left, right) ≡ none) ⊎ (get relations (right, left) ≡ none)
    → let there = compare relations left right in
      let back = compare relations right left in
      ((back ≡ TemporalRelation.after) ↔ (there ≡ TemporalRelation.before))
      × ((back ≡ TemporalRelation.before) ↔ (there ≡ TemporalRelation.after))
      × ((back ≡ TemporalRelation.same) ↔ (there ≡ TemporalRelation.same))
      × ((back ≡ TemporalRelation.concurrent) ↔ (there ≡ TemporalRelation.concurrent))
      × ((back ≡ TemporalRelation.unknown) ↔ (there ≡ TemporalRelation.unknown))
compare-invert relations left right h =
    rw (compare-flip relations left right h) (invert_lem (compare relations left right))
