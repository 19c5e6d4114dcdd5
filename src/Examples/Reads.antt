-- ===== src/Examples/Reads.antt =====
-- Snapshot order and entity names, at a small journal.
use texo.Base.{◌≡◌, ◌↔◌, refl, inr, false, none, some, [], ◌∷◌, ◌++◌, ok, arith}
use texo.Base.Text.{Text, bytes, text_ord, text_eq, compare_text}
use texo.Base.Pairs.{pair_ord, compare_pair}
use texo.Base.Map.{get, insert, contains_key, or_insert}
use texo.Events.Payloads.{TemporalRelation}
use texo.Journal.Through.{upto}
use texo.Workspace.Types.{CardFamily, family_of}
use texo.Workspace.Families.{families_of_entities}
use texo.Events.Coordinate.{
  entity_for_claim, entity_for_conflict, entity_for_source, entity_for_session,
  entity_for_relation_pair, entity_for_relation_campaign, entity_for_source_snapshot,
  entity_for_source_relation,
}
use texo.Temporal.{TemporalProjection, compare, assemble_through, record_fact, compare-invert}
use texo.Temporal.Replay.{first_relation, replays_fold, temporal_replays, recorded_order_stays}
use texo.Examples.Data.{demo, payload, early, late, latest, store_of}
use texo.Examples.Replays.{whole_store, latest_store}

temporal_replays_example :
    (p : TemporalProjection) × (assemble_through 7 (store_of (early ++ late)) demo 6 ≡ ok p)
    × ((left right : Text)
        → get p (left, right) ≡ first_relation payload (upto 6 (early ++ late)) (left, right))
temporal_replays_example =
    temporal_replays (store_of (early ++ late)) payload demo (early ++ late) whole_store 7
      (omega arith) 6

abbrev facts : TemporalProjection
facts = ((bytes "left", bytes "right"), TemporalRelation.before) ∷ []

compare-invert_example :
    let there = compare facts (bytes "left") (bytes "right") in
    let back = compare facts (bytes "right") (bytes "left") in
    ((back ≡ TemporalRelation.after) ↔ (there ≡ TemporalRelation.before))
    × ((back ≡ TemporalRelation.before) ↔ (there ≡ TemporalRelation.after))
    × ((back ≡ TemporalRelation.same) ↔ (there ≡ TemporalRelation.same))
    × ((back ≡ TemporalRelation.concurrent) ↔ (there ≡ TemporalRelation.concurrent))
    × ((back ≡ TemporalRelation.unknown) ↔ (there ≡ TemporalRelation.unknown))
unfolding get compare_text compare_pair
compare-invert_example = compare-invert facts (bytes "left") (bytes "right") (inr refl)

facts_replayed : assemble_through 7 (store_of (early ++ late)) demo 9 ≡ ok facts
unfolding record_fact or_insert contains_key get insert compare_pair compare_text
facts_replayed =
    replays_fold (store_of (early ++ late)) payload demo (early ++ late) whole_store 7 (omega arith)
      9

facts_have : get facts (bytes "left", bytes "right") ≡ some TemporalRelation.before
unfolding get compare_pair compare_text
facts_have = refl

apart : text_eq (bytes "left") (bytes "right") ≡ false
unfolding compare_text
apart = refl

recorded_order_stays_example :
    (q : TemporalProjection) × (assemble_through 9 (store_of ((early ++ late) ++ latest)) demo 12
      ≡ ok q)
    × (compare q (bytes "left") (bytes "right") ≡ TemporalRelation.before)
recorded_order_stays_example =
    recorded_order_stays (store_of (early ++ late)) (store_of ((early ++ late) ++ latest)) payload
      demo (early ++ late) latest whole_store latest_store 7 9 (omega arith) (omega arith)
      (bytes "left") (bytes "right") TemporalRelation.before facts apart facts_replayed facts_have

families_of_entities_example :
    let id = bytes "x" in
    let other = bytes "y" in
    (family_of (entity_for_claim id) ≡ some CardFamily.claim)
    × (family_of (entity_for_conflict id) ≡ some CardFamily.conflict)
    × (family_of (entity_for_source id) ≡ some CardFamily.source)
    × (family_of (entity_for_session id) ≡ none)
    × (family_of (entity_for_relation_pair id) ≡ none)
    × (family_of (entity_for_relation_campaign id) ≡ none)
    × (family_of (entity_for_source_snapshot id) ≡ none)
    × (family_of (entity_for_source_relation id other) ≡ none)
families_of_entities_example = families_of_entities (bytes "x") (bytes "y")
