-- ===== src/Workspace/View/Statuses.antt =====
-- The statuses of the claims of a view.
use texo.Base.{
  ℕ, ◌≡◌, ap, ◌∙◌, Bool, true, false, List, [], ◌∷◌, ◌==◌, if◌then◌else◌, any, All, fold, arith,
}
use texo.Base.Text.{Text, text_ord, text_eq}
use texo.Base.Map.{BTreeMap, get, insert, contains_key, remove, get-insert}
use texo.Base.Sort.{sort_by, by_key}
use texo.Claims.Card.{ClaimCard}
use texo.Claims.Conflict.{ConflictCard}
use texo.Claims.Status.{ClaimStatus, claim_status}
use texo.Workspace.Types.{ClaimView, CachedCard}
use texo.Workspace.View.{
  mark_open, open_conflict_claims, claim_views, view_of, invert_supersedes, claim_cards,
}

-- An open conflict of a claim.
abbrev pub is_open_on : Text → ConflictCard → Bool
is_open_on id conflict =
    if conflict.phase == 1
    then (if text_eq conflict.claim_a id then true else text_eq conflict.claim_b id)
    else false

-- The status that a claim has beside the conflicts of its view.
abbrev pub status_among : List ConflictCard → ClaimCard → ClaimStatus
status_among conflicts card =
    if card.phase == 2
    then ClaimStatus.superseded
    else if any (is_open_on card.claim_id) conflicts
    then ClaimStatus.conflicting
    else ClaimStatus.current

mark_open_lem :
    (set : BTreeMap Text (Unit {0})) (conflict : ConflictCard) (id : Text)
    → contains_key (mark_open set conflict) id
      ≡ (if is_open_on id conflict then true else contains_key set id)
unfolding mark_open contains_key
mark_open_lem set conflict id = ground (
  arith,
  get-insert (insert set conflict.claim_a tt) conflict.claim_b id tt,
  get-insert set conflict.claim_a id tt,
)

fold-mark_open :
    (conflicts : List ConflictCard) (set : BTreeMap Text (Unit {0})) (id : Text)
    → contains_key (fold mark_open set conflicts) id
      ≡ (if contains_key set id then true else any (is_open_on id) conflicts)
fold-mark_open [] set id = ground arith
fold-mark_open (c ∷ conflicts) set id =
    fold-mark_open conflicts (mark_open set c) id ∙ ground (arith, mark_open_lem set c id)

open_lem :
    (conflicts : List ConflictCard) (id : Text)
    → contains_key (open_conflict_claims conflicts) id ≡ any (is_open_on id) conflicts
unfolding open_conflict_claims contains_key get
open_lem conflicts id = fold-mark_open conflicts [] id

claim_views_lem :
    (conflicts : List ConflictCard) (supersedes : BTreeMap Text (List Text))
    (cards : List ClaimCard)
    → All
        (λ (v : ClaimView). v.status ≡ status_among conflicts v.card)
        (claim_views (open_conflict_claims conflicts) supersedes cards)
unfolding claim_views claim_status
claim_views_lem conflicts supersedes [] = tt
claim_views_lem conflicts supersedes (card ∷ cards) = (
  ap
      (λ b.
        if card.phase == 2
        then ClaimStatus.superseded
        else if b
        then ClaimStatus.conflicting
        else ClaimStatus.current)
      (open_lem conflicts card.claim_id),
  claim_views_lem conflicts (remove supersedes card.claim_id) cards,
)

-- In the view of any cards, a claim is superseded if its card's phase is 2, otherwise conflicting if
-- a conflict of the view in phase 1 names it as its first or second claim, and otherwise current.
pub view_statuses :
    (workspace_id : Text) (frontier : ℕ) (cards : List CachedCard)
    → let view = view_of workspace_id frontier cards in
      All (λ (v : ClaimView). v.status ≡ status_among view.conflicts v.card) view.claims
unfolding view_of
view_statuses workspace_id frontier cards =
    claim_views_lem (view_of workspace_id frontier cards).conflicts
      (invert_supersedes (sort_by (by_key (λ (c : ClaimCard). c.claim_id)) (claim_cards cards)))
      (sort_by (by_key (λ (c : ClaimCard). c.claim_id)) (claim_cards cards))
