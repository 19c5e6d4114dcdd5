-- ===== src/Claims/Status.antt =====
-- src/claims/status.rs: the lifecycle status of a claim in a workspace view.
use texo.Base.{Bool, ◌==◌, if◌then◌else◌}
use texo.Claims.Card.{ClaimCard}

pub data ClaimStatus : Type 0 where
  current superseded conflicting : ClaimStatus

unfoldable pub claim_status : ClaimCard → Bool → ClaimStatus
claim_status card in_open_conflict =
    if card.phase == 2
    then ClaimStatus.superseded
    else if in_open_conflict
    then ClaimStatus.conflicting
    else ClaimStatus.current
