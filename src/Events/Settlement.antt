-- ===== src/Events/Settlement.antt =====
-- src/relate/settlement.rs: the closed enumerations that relation events carry.
use texo.Base.{ℕ, ◌≡◌, refl}

-- Durable completion state of one bounded relation campaign.
pub data CampaignPhase : Type 0 where
  partial : ℕ → CampaignPhase
  complete : CampaignPhase

pub data SettledRelation : Type 0 where
  supersedes conflicts duplicate unrelated : SettledRelation

pub data RelationFailureClass : Type 0 where
  truncated http_status transport deadline parse budget_exhausted : RelationFailureClass
  temporal_concurrent temporal_unknown : RelationFailureClass

-- `semantics::ClaimRelation`, the model's side of the same verdict.
pub data ClaimRelation : Type 0 where
  supersedes conflict duplicate unrelated : ClaimRelation

-- `impl From<ClaimRelation> for SettledRelation`.
pub settled_of : ClaimRelation → SettledRelation
settled_of ClaimRelation.supersedes = SettledRelation.supersedes
settled_of ClaimRelation.conflict = SettledRelation.conflicts
settled_of ClaimRelation.duplicate = SettledRelation.duplicate
settled_of ClaimRelation.unrelated = SettledRelation.unrelated

-- `impl From<SettledRelation> for ClaimRelation`.
pub claim_relation_of : SettledRelation → ClaimRelation
claim_relation_of SettledRelation.supersedes = ClaimRelation.supersedes
claim_relation_of SettledRelation.conflicts = ClaimRelation.conflict
claim_relation_of SettledRelation.duplicate = ClaimRelation.duplicate
claim_relation_of SettledRelation.unrelated = ClaimRelation.unrelated

-- The two conversions are inverse to one another: a verdict survives storage and reading back,
-- and a stored verdict survives the other way round.
pub settled_of-claim_relation_of :
    ((r : ClaimRelation) → claim_relation_of (settled_of r) ≡ r)
    × ((s : SettledRelation) → settled_of (claim_relation_of s) ≡ s)
unfolding settled_of claim_relation_of
settled_of-claim_relation_of = (there, back)
  where
    there : (r : ClaimRelation) → claim_relation_of (settled_of r) ≡ r
    there ClaimRelation.supersedes = refl
    there ClaimRelation.conflict = refl
    there ClaimRelation.duplicate = refl
    there ClaimRelation.unrelated = refl

    back : (s : SettledRelation) → settled_of (claim_relation_of s) ≡ s
    back SettledRelation.supersedes = refl
    back SettledRelation.conflicts = refl
    back SettledRelation.duplicate = refl
    back SettledRelation.unrelated = refl
