-- ===== src/Events/Coordinate.antt =====
-- src/events/coordinate.rs: the entity strings of the event streams.
use texo.Base.{◌++◌}
use texo.Base.Text.{Text, bytes}

unfoldable pub scope_for_workspace : Text → Text
scope_for_workspace workspace_id = bytes "workspace:" ++ workspace_id

unfoldable pub entity_for_claim : Text → Text
entity_for_claim claim_id = bytes "claim:" ++ claim_id

unfoldable pub entity_for_conflict : Text → Text
entity_for_conflict conflict_id = bytes "conflict:" ++ conflict_id

unfoldable pub entity_for_source : Text → Text
entity_for_source source_id = bytes "source:" ++ source_id

unfoldable pub entity_for_session : Text → Text
entity_for_session session_id = bytes "session:" ++ session_id

unfoldable pub entity_for_relation_pair : Text → Text
entity_for_relation_pair pair_id = bytes "relation:" ++ pair_id

unfoldable pub entity_for_relation_campaign : Text → Text
entity_for_relation_campaign workspace_id = bytes "relation-campaign:" ++ workspace_id

unfoldable pub entity_for_source_snapshot : Text → Text
entity_for_source_snapshot snapshot_id = bytes "source-snapshot:" ++ snapshot_id

unfoldable pub entity_for_source_relation : Text → Text → Text
entity_for_source_relation left right = bytes "source-relation:" ++ (left ++ (bytes ":" ++ right))
