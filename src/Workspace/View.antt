-- ===== src/Workspace/View.antt =====
-- src/claims/workspace.rs: `build_view`, the view that the cards determine.
pub mod Statuses
use texo.Base.{
  ℕ, Bool, true, false, Option, none, some, List, [], ◌∷◌, ◌++◌, ◌==◌, if◌then◌else◌, unwrap_or,
  fold, map,
}
use texo.Base.Text.{Text, text_ord}
use texo.Base.Order.{cmp}
use texo.Base.Map.{
  BTreeMap, get, insert, contains_key, modify, or_insert, remove, values, map_values,
}
use texo.Base.Sort.{sort_by, by_key}
use texo.Claims.Card.{ClaimCard}
use texo.Claims.Conflict.{ConflictCard}
use texo.Claims.Source.{SourceCard}
use texo.Claims.Status.{ClaimStatus, claim_status}
use texo.Workspace.Types.{
  WorkspaceCache, WorkspaceView, ClaimView, CachedCard, ProjectionFreshness, bump,
}

-- The pass over `cache.cards.values()`, one list to a family.
abbrev pub claim_cards : List CachedCard → List ClaimCard
claim_cards [] = []
claim_cards (CachedCard.claim card ∷ cards) = card ∷ claim_cards cards
claim_cards (_ ∷ cards) = claim_cards cards

abbrev pub conflict_cards : List CachedCard → List ConflictCard
conflict_cards [] = []
conflict_cards (CachedCard.conflict card ∷ cards) = card ∷ conflict_cards cards
conflict_cards (_ ∷ cards) = conflict_cards cards

abbrev pub source_cards : List CachedCard → List SourceCard
source_cards [] = []
source_cards (CachedCard.source card ∷ cards) = card ∷ source_cards cards
source_cards (_ ∷ cards) = source_cards cards

-- `open_conflict_claims`: a set of claim ids.
unfoldable pub mark_open : BTreeMap Text (Unit {0}) → ConflictCard → BTreeMap Text (Unit {0})
mark_open set conflict =
    if conflict.phase == 1 then insert (insert set conflict.claim_a tt) conflict.claim_b tt else set

unfoldable pub open_conflict_claims : List ConflictCard → BTreeMap Text (Unit {0})
unfolding mark_open
open_conflict_claims conflicts = fold mark_open [] conflicts

-- `supersedes.entry(new_id).or_default().push(claim_id)`.
unfoldable pub note_superseded : BTreeMap Text (List Text) → ClaimCard → BTreeMap Text (List Text)
note_superseded supersedes claim = elim claim.superseded_by [
  | none ↦ supersedes
  | some new_id ↦ modify (or_insert supersedes new_id []) new_id (λ ids. ids ++ claim.claim_id ∷ [])
]

unfoldable pub invert_supersedes : List ClaimCard → BTreeMap Text (List Text)
unfolding note_superseded
invert_supersedes claims = map_values (sort_by cmp) (fold note_superseded [] claims)

-- The last pass: each claim takes its entry out of the map.
unfoldable pub claim_views :
    BTreeMap Text (Unit {0}) → BTreeMap Text (List Text) → List ClaimCard → List ClaimView
claim_views open_claims supersedes [] = []
claim_views open_claims supersedes (card ∷ cards) =
    record {
      card = card;
      status = claim_status card (contains_key open_claims card.claim_id);
      supersedes = unwrap_or (get supersedes card.claim_id) [];
    }
    ∷ claim_views open_claims (remove supersedes card.claim_id) cards

abbrev claim_key : ClaimCard → Text
claim_key card = card.claim_id

abbrev conflict_key : ConflictCard → Text
conflict_key card = card.conflict_id

abbrev source_key : SourceCard → Text
source_key card = card.source_id

-- The view of a frontier and the cards at it.
unfoldable pub view_of : Text → ℕ → List CachedCard → WorkspaceView
view_of workspace_id frontier cards =
    let claims = sort_by (by_key claim_key) (claim_cards cards) in
    let conflicts = sort_by (by_key conflict_key) (conflict_cards cards) in
    record {
      workspace_id = workspace_id;
      frontier = frontier;
      freshness = ProjectionFreshness.fresh;
      claims = claim_views (open_conflict_claims conflicts) (invert_supersedes claims) claims;
      conflicts = conflicts;
      sources = sort_by (by_key source_key) (source_cards cards);
    }

abbrev pub slot_card : ℕ × CachedCard → CachedCard
slot_card slot = slot.1

-- `build_view`: the view, and the cache that keeps it.
unfoldable pub build_view : Text → WorkspaceCache → WorkspaceView × WorkspaceCache
build_view workspace_id cache =
    let view = view_of workspace_id cache.frontier (values (map_values slot_card cache.cards)) in
    (
      view,
      record cache {
        view = some view;
        freshness = ProjectionFreshness.fresh;
        counters = record (cache.counters) { view_rebuilds = bump cache.counters.view_rebuilds 1 };
      },
    )
