-- ===== src/Semantics/Policy.antt =====
-- src/semantics/pipeline.rs: `RelateTemporalPolicy`, the source order that orients pairs of claims.
use texo.Base.{
  ℕ, Option, none, some, [], ◌∷◌, ◌++◌, ◌/◌, ◌%◌, ◌^◌, if◌then◌else◌, unwrap_or, or_else, length,
}
use mathlib.Core.Option
use texo.Base.Text.{Text, bytes, text_ord, text_eq}
use texo.Base.Pairs.{pair_ord}
use texo.Base.Map.{BTreeMap, get, insert, or_insert}
use texo.Events.Payloads.{TemporalRelation}

pub record RelateTemporalPolicy : Type 0 where
  pub claim_snapshots : BTreeMap Text Text
  pub snapshot_relations : BTreeMap (Text × Text) TemporalRelation

abbrev pub no_policy : RelateTemporalPolicy
no_policy = record { claim_snapshots = []; snapshot_relations = [] }

unfoldable pub bind_claim : RelateTemporalPolicy → Text → Text → RelateTemporalPolicy
bind_claim policy claim_id snapshot_id = record policy {
  claim_snapshots = insert policy.claim_snapshots claim_id snapshot_id;
}

unfoldable pub insert_relation :
    RelateTemporalPolicy → Text → Text → TemporalRelation → RelateTemporalPolicy
insert_relation policy left right relation = record policy {
  snapshot_relations = or_insert policy.snapshot_relations (left, right) relation;
}

abbrev pub invert_temporal_relation : TemporalRelation → TemporalRelation
invert_temporal_relation TemporalRelation.before = TemporalRelation.after
invert_temporal_relation TemporalRelation.after = TemporalRelation.before
invert_temporal_relation TemporalRelation.same = TemporalRelation.same
invert_temporal_relation TemporalRelation.concurrent = TemporalRelation.concurrent
invert_temporal_relation TemporalRelation.unknown = TemporalRelation.unknown

-- The order of two snapshots: that of the directed fact, or else of the fact the other way round.
abbrev pub compare_snapshots : RelateTemporalPolicy → Text → Text → TemporalRelation
compare_snapshots policy left right =
    unwrap_or
      (or_else (get policy.snapshot_relations (left, right))
        (Option.map invert_temporal_relation (get policy.snapshot_relations (right, left))))
      TemporalRelation.unknown

abbrev compare_bound : RelateTemporalPolicy → Option Text → Option Text → Option TemporalRelation
compare_bound policy none none = none
compare_bound policy none (some right) = some TemporalRelation.unknown
compare_bound policy (some left) none = some TemporalRelation.unknown
compare_bound policy (some left) (some right) =
    some (if text_eq left right then TemporalRelation.same else compare_snapshots policy left right)

unfoldable pub compare_claims : RelateTemporalPolicy → Text → Text → Option TemporalRelation
compare_claims policy left right =
    compare_bound policy (get policy.claim_snapshots left) (get policy.claim_snapshots right)

abbrev pub temporal_relation_tag : TemporalRelation → ℕ
temporal_relation_tag TemporalRelation.before = 1
temporal_relation_tag TemporalRelation.after = 2
temporal_relation_tag TemporalRelation.same = 3
temporal_relation_tag TemporalRelation.concurrent = 4
temporal_relation_tag TemporalRelation.unknown = 5

-- `to_be_bytes` of a number of 64 bits.
abbrev pub to_be_bytes : ℕ → Text
to_be_bytes n =
    (n / 2 ^ 56 % 256)
    ∷ (n / 2 ^ 48 % 256)
    ∷ (n / 2 ^ 40 % 256)
    ∷ (n / 2 ^ 32 % 256)
    ∷ (n / 2 ^ 24 % 256)
    ∷ (n / 2 ^ 16 % 256)
    ∷ (n / 2 ^ 8 % 256)
    ∷ (n % 256)
    ∷ []

-- What a field adds to the bytes that are hashed.
abbrev pub identity_field : Text → Text
identity_field value = to_be_bytes (length value) ++ value

abbrev pub claim_fields : BTreeMap Text Text → Text
claim_fields [] = []
claim_fields ((claim_id, snapshot_id) ∷ rest) =
    identity_field claim_id ++ (identity_field snapshot_id ++ claim_fields rest)

abbrev pub relation_fields : BTreeMap (Text × Text) TemporalRelation → Text
relation_fields [] = []
relation_fields (((left, right), relation) ∷ rest) =
    identity_field left
    ++ (identity_field right ++ (temporal_relation_tag relation ∷ relation_fields rest))

-- BLAKE3 over the fields, as hexadecimal digits, is the parameter `hash`.
unfoldable pub campaign_identity_digest : (Text → Text) → RelateTemporalPolicy → Text
campaign_identity_digest hash policy = hash (
    identity_field (bytes "texo.relate.temporal-policy.v1")
    ++ (claim_fields policy.claim_snapshots ++ relation_fields policy.snapshot_relations))
