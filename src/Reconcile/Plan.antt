-- ===== src/Reconcile/Plan.antt =====
-- src/reconcile.rs: the bounded list of candidates.
pub mod Bounds
use texo.Base.{ℕ, Bool, true, false, List, [], ◌∷◌, ◌++◌, if◌then◌else◌, ltb, length, take}
use Prim.Native.Nat.{Ordering}
use texo.Base.Text.{Text, text_ord}
use texo.Base.Number.{number_ord}
use texo.Base.Order.{cmp, then_with}
use texo.Base.Map.{BTreeSet}
use texo.Base.Sort.{sort_by}
use texo.Base.Chars.{Unicode}
use texo.Events.Payloads.{EvidenceOccurrence}
use texo.Knowledge.Code.{CodeOccurrence, CodeIndexArtifact}
use texo.Reconcile.{
  ReconcileLimits, ReconcileClaim, ReconcileCandidate, claim_tokens, candidate_rank, candidate,
}
use texo.Reconcile.Paths.{is_code_path}

pub record CandidatePlan : Type 0 where
  pub candidates : List ReconcileCandidate
  pub truncated : Bool

-- The higher rank first, then by the identifier of the occurrence.
abbrev pub rank_order : ReconcileCandidate → ReconcileCandidate → Ordering
rank_order left right =
    then_with (cmp {A = ℕ} (ReconcileCandidate.rank right) (ReconcileCandidate.rank left)) (
      cmp {A = Text} (EvidenceOccurrence.occurrence_id (ReconcileCandidate.occurrence left))
        (EvidenceOccurrence.occurrence_id (ReconcileCandidate.occurrence right)))

module _ (u : Unicode) (hash : Text → Text) where
  -- The candidate of an occurrence, if they share a word.
  abbrev pub if_ranked : ReconcileClaim → Text → CodeOccurrence → ℕ → List ReconcileCandidate
  if_ranked claim snapshot_id code rank =
      if ltb 0 rank then candidate hash claim snapshot_id code rank ∷ [] else []

  abbrev pub related :
      ReconcileClaim → Text → BTreeSet Text → List CodeOccurrence → List ReconcileCandidate
  related claim snapshot_id claim_set [] = []
  related claim snapshot_id claim_set (code ∷ occurrences) =
      (if is_code_path (CodeOccurrence.path code)
        then if_ranked claim snapshot_id code (candidate_rank u claim_set code)
        else [])
      ++ related claim snapshot_id claim_set occurrences

  -- All candidates of a claim, best first.
  unfoldable pub ranked : CodeIndexArtifact → ReconcileClaim → List ReconcileCandidate
  ranked artifact claim = sort_by rank_order (
      related claim (CodeIndexArtifact.snapshot_id artifact) (claim_tokens u claim)
        (CodeIndexArtifact.occurrences artifact))

module _ (limits : ReconcileLimits) where
  abbrev pub add_ranked : CandidatePlan → List ReconcileCandidate → CandidatePlan
  add_ranked plan found = record {
    candidates = plan.candidates ++ take (ReconcileLimits.per_claim limits) found;
    truncated =
        if ltb (ReconcileLimits.per_claim limits) (length found) then true else plan.truncated;
  }

  abbrev pub cut : CandidatePlan → CandidatePlan
  cut plan = record {
    candidates = take (ReconcileLimits.total limits) plan.candidates;
    truncated = true;
  }

  -- The loop over the claims, of which each has its candidates.
  abbrev pub plan_from : List (List ReconcileCandidate) → CandidatePlan → CandidatePlan
  plan_from [] plan = plan
  plan_from (found ∷ rest) plan =
      let next = add_ranked plan found in
      let later = plan_from rest next in
      if ltb (ReconcileLimits.total limits) (length (CandidatePlan.candidates next))
      then cut next
      else later

abbrev pub ranked_of :
    Unicode
    → (Text → Text)
    → CodeIndexArtifact
    → List ReconcileClaim
    → List (List ReconcileCandidate)
ranked_of u hash artifact [] = []
ranked_of u hash artifact (claim ∷ claims) =
    ranked u hash artifact claim ∷ ranked_of u hash artifact claims

unfoldable pub plan_candidates :
    Unicode
    → (Text → Text)
    → List ReconcileClaim
    → CodeIndexArtifact
    → ReconcileLimits
    → CandidatePlan
unfolding ranked
plan_candidates u hash claims artifact limits =
    plan_from limits (ranked_of u hash artifact claims)
      (record { candidates = []; truncated = false })
