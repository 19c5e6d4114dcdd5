-- ===== src/Workspace/Families.antt =====
-- Which entity strings of src/events/coordinate.rs hold card state.
use texo.Base.{◌≡◌, refl, none, some}
use texo.Base.Text.{Text, starts_with}
use texo.Events.Coordinate.{
  entity_for_claim, entity_for_conflict, entity_for_source, entity_for_session,
  entity_for_relation_pair, entity_for_relation_campaign, entity_for_source_snapshot,
  entity_for_source_relation,
}
use texo.Workspace.Types.{CardFamily, family_of}

-- The entities of claims, conflicts and sources are of their family, whatever the identifier, and
-- those of sessions, relation pairs, campaigns, snapshots and snapshot relations are of none.
pub families_of_entities :
    (id other : Text)
    → (family_of (entity_for_claim id) ≡ some CardFamily.claim)
      × (family_of (entity_for_conflict id) ≡ some CardFamily.conflict)
      × (family_of (entity_for_source id) ≡ some CardFamily.source)
      × (family_of (entity_for_session id) ≡ none)
      × (family_of (entity_for_relation_pair id) ≡ none)
      × (family_of (entity_for_relation_campaign id) ≡ none)
      × (family_of (entity_for_source_snapshot id) ≡ none)
      × (family_of (entity_for_source_relation id other) ≡ none)
unfolding family_of starts_with entity_for_claim entity_for_conflict entity_for_source
    entity_for_session entity_for_relation_pair entity_for_relation_campaign
    entity_for_source_snapshot entity_for_source_relation
families_of_entities id other = (refl, refl, refl, refl, refl, refl, refl, refl)
