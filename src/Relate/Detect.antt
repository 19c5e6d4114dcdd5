-- ===== src/Relate/Detect.antt =====
-- src/relate/heuristic.rs: `detect_conflicts`.
use texo.Base.{
  Bool, List, [], ◌∷◌, ◌++◌, ◌&&◌, not, ◌==◌, if◌then◌else◌, unwrap_or, Result, ok, ◌>>=◌, fold,
}
use texo.Base.Text.{Text, text_ord, text_eq, bytes}
use texo.Base.Map.{BTreeMap, get, insert}
use texo.Base.Sort.{sort_by, by_key}
use texo.Events.Ids.{IdParseError, claim_id_try_from, conflict_id_from_pair}
use texo.Claims.Card.{ClaimCard}
use texo.Workspace.Types.{ClaimView, WorkspaceView}
use texo.Relate.Signals.{has_contradiction_signal}

pub record ConflictEntry : Type 0 where
  pub conflict_id : Text
  pub claim_a : Text
  pub claim_b : Text
  pub subject_hint : Text
  pub reason : Text
  pub status : Text

pub record ConflictReport : Type 0 where
  pub workspace_id : Text
  pub conflicts : List ConflictEntry

-- `by_subject.entry(…).or_default().push(…)` for a current claim.
unfoldable pub group_claim :
    BTreeMap Text (List ClaimCard) → ClaimView → BTreeMap Text (List ClaimCard)
group_claim by_subject claim =
    if claim.card.phase == 1
    then (let subject = unwrap_or claim.card.subject_hint [] in
        insert by_subject subject (unwrap_or (get by_subject subject) [] ++ (claim.card ∷ [])))
    else by_subject

unfoldable pub by_subject : List ClaimView → BTreeMap Text (List ClaimCard)
unfolding group_claim
by_subject claims = fold group_claim [] claims

-- The test that lets a pair pass to the report.
abbrev pub is_contradictory : Text → ClaimCard → ClaimCard → Bool
is_contradictory subject a b =
    not (text_eq a.normalized_text b.normalized_text) && has_contradiction_signal a b subject

module _ (hash : Text → Text) where
  abbrev pub conflict_entry : Text → ClaimCard → ClaimCard → Text → Text → ConflictEntry
  conflict_entry subject a b a_id b_id = record {
    conflict_id = conflict_id_from_pair hash a_id b_id;
    claim_a = a.claim_id;
    claim_b = b.claim_id;
    subject_hint = subject;
    reason =
        bytes "contradictory current claims on "
        ++ (subject ++ (bytes ": \"" ++ (a.text ++ (bytes "\" vs \"" ++ (b.text ++ bytes "\"")))));
    status = bytes "open";
  }

  -- The body of the inner loop; the report grows at its end.
  unfoldable pub detect_pair :
      Text → ClaimCard → ClaimCard → List ConflictEntry → Result IdParseError (List ConflictEntry)
  detect_pair subject a b conflicts =
      if is_contradictory subject a b
      then (do
        a_id ← claim_id_try_from a.claim_id
        b_id ← claim_id_try_from b.claim_id
        ok (conflicts ++ (conflict_entry subject a b a_id b_id ∷ [])))
      else ok conflicts

  -- `for j in (i + 1)..group.len()`.
  unfoldable pub detect_with :
      Text
      → ClaimCard
      → List ClaimCard
      → List ConflictEntry
      → Result IdParseError (List ConflictEntry)
  unfolding detect_pair
  detect_with subject a [] conflicts = ok conflicts
  detect_with subject a (b ∷ group) conflicts = do
    conflicts' ← detect_pair subject a b conflicts
    detect_with subject a group conflicts'

  -- `for i in 0..group.len()`.
  unfoldable pub detect_group :
      Text → List ClaimCard → List ConflictEntry → Result IdParseError (List ConflictEntry)
  unfolding detect_with
  detect_group subject [] conflicts = ok conflicts
  detect_group subject (a ∷ group) conflicts = do
    conflicts' ← detect_with subject a group conflicts
    detect_group subject group conflicts'

  unfoldable pub detect_groups :
      List (Text × List ClaimCard) → List ConflictEntry → Result IdParseError (List ConflictEntry)
  unfolding detect_group
  detect_groups [] conflicts = ok conflicts
  detect_groups ((subject, group) ∷ groups) conflicts = do
    conflicts' ← detect_group subject group conflicts
    detect_groups groups conflicts'

  unfoldable pub detect_conflicts : WorkspaceView → Result IdParseError ConflictReport
  unfolding detect_groups by_subject
  detect_conflicts view = do
    conflicts ← detect_groups (by_subject view.claims) []
    ok (record {
      workspace_id = view.workspace_id;
      conflicts = sort_by (by_key (λ e. e.conflict_id)) conflicts;
    })
