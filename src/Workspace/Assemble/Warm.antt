-- ===== src/Workspace/Assemble/Warm.antt =====
-- Assembling from a cache gives the view that a replay of the whole journal gives.
use texo.Base.{
  ℕ, ◌≡◌, refl, ap, ap₂, sym, ◌∙◌, subst, true, false, none, some, List, [], ◌++◌, fold,
  fold-append, arith, ok, Result, ◌<◌, length, Bool-cases, inl, inr, ◌⊎◌,
}
use mathlib.Core.Option.{some-injective}
use texo.Base.Text.{Text, text_ord}
use texo.Base.Map.{values, map_values}
use texo.Events.Payloads.{Event}
use texo.Events.Coordinate.{scope_for_workspace}
use texo.Journal.{IndexEntry, JournalRead, last_seq, Holds}
use texo.Journal.Paging.{last_seq-append}
use texo.Workspace.Types.{WorkspaceCache, WorkspaceView, ProjectionFreshness}
use texo.Workspace.Fold.{FoldOutcome, fold_after}
use texo.Workspace.View.{view_of, build_view, slot_card}
use texo.Workspace.Bare.{BareCards, bare, bare_entry}
use texo.Workspace.Bare.Pages.{fold_after_all, fold_after_rest}
use texo.Workspace.Assemble.{
  rebuild_cache, after_rebuild, after_refresh, after_fold, advance_cache, is_invalid, check_anchor,
  refresh, count_warm, serve_view, assemble,
}

-- The cards that a journal makes, one entry after the other.
abbrev pub replayed : (IndexEntry → Event) → List IndexEntry → BareCards
replayed payload log = fold (bare_entry payload) [] log

-- The view of a replay of the whole journal.
abbrev pub replayed_view : (IndexEntry → Event) → Text → List IndexEntry → WorkspaceView
replayed_view payload workspace_id log =
    view_of workspace_id (last_seq 0 log) (values (replayed payload log))

-- A cache that stands at the end of `pre`: its cards, its frontier, and a view, if it has one, of
-- its cards at the view's own frontier.
pub record IsSynced (payload : IndexEntry → Event) (workspace_id : Text) (cache : WorkspaceCache)
    (pre : List IndexEntry) : Type 0 where
  pub cards_at : bare cache ≡ replayed payload pre
  pub frontier_at : cache.frontier ≡ last_seq 0 pre
  pub view_at :
      (v : WorkspaceView)
      → cache.view ≡ some v
      → v ≡ view_of workspace_id v.frontier (values (bare cache))

-- Checking the anchor can only make a cache invalid.
check_anchor_lem :
    (store : JournalRead) (region : Text) (cache : WorkspaceCache)
    → let c = check_anchor store region cache in
      (c.cards ≡ cache.cards)
      × (c.frontier ≡ cache.frontier)
      × (c.view ≡ cache.view)
      × (is_invalid c.freshness ≡ false → is_invalid cache.freshness ≡ false)
unfolding check_anchor
check_anchor_lem store region cache = ground arith

-- A view that is built is the view of the replay.
build_view_lem :
    (payload : IndexEntry → Event) (workspace_id : Text) (cache : WorkspaceCache)
    (log : List IndexEntry)
    → IsSynced payload workspace_id cache log
    → let built = build_view workspace_id cache in
      (built.0 ≡ replayed_view payload workspace_id log)
      × IsSynced payload workspace_id built.1 log
      × (built.1.freshness ≡ ProjectionFreshness.fresh)
unfolding build_view view_of
build_view_lem payload workspace_id cache log h = (
  ap₂ (view_of workspace_id) h.frontier_at (ap values h.cards_at),
  record {
    cards_at = h.cards_at;
    frontier_at = h.frontier_at;
    view_at = λ v e.
        subst (λ (w : WorkspaceView). w ≡ view_of workspace_id w.frontier (values (bare cache)))
          (some-injective (view_of workspace_id cache.frontier (values (bare cache))) v e) refl;
  },
  refl,
)

-- Either a view is built, or there is one at the cache's frontier in a fresh cache.
IsServed : Text → WorkspaceCache → Type 0
IsServed workspace_id cache =
    (serve_view workspace_id cache ≡ build_view workspace_id cache)
    ⊎ ((v : WorkspaceView) × (serve_view workspace_id cache ≡ (v, count_warm cache))
        × (cache.view ≡ some v)
        × (v.frontier ≡ cache.frontier)
        × (cache.freshness ≡ ProjectionFreshness.fresh))

serve_view_cases : (workspace_id : Text) (cache : WorkspaceCache) → IsServed workspace_id cache
unfolding serve_view IsServed
serve_view_cases workspace_id cache = ground arith

-- The view of a synced cache is the view of the replay, warm or built anew.
serve_view_lem :
    (payload : IndexEntry → Event) (workspace_id : Text) (cache : WorkspaceCache)
    (log : List IndexEntry)
    → IsSynced payload workspace_id cache log
    → let served = serve_view workspace_id cache in
      (served.0 ≡ replayed_view payload workspace_id log)
      × IsSynced payload workspace_id served.1 log
      × (served.1.freshness ≡ ProjectionFreshness.fresh)
unfolding IsServed
serve_view_lem payload workspace_id cache log h = elim (serve_view_cases workspace_id cache) [
  | inl built ↦ rw built (build_view_lem payload workspace_id cache log h)
  | inr (v, warm, has, at, fresh) ↦ rw warm (
    h.view_at v has ∙ ap₂ (view_of workspace_id) (at ∙ h.frontier_at) (ap values h.cards_at),
    record { cards_at = h.cards_at; frontier_at = h.frontier_at; view_at = h.view_at },
    fresh,
  )
]

-- A cache with the same cards, frontier and view is as synced.
moved :
    {payload : IndexEntry → Event} {workspace_id : Text} {cache c : WorkspaceCache}
    {pre : List IndexEntry}
    → IsSynced payload workspace_id cache pre
    → c.cards ≡ cache.cards
    → c.frontier ≡ cache.frontier
    → c.view ≡ cache.view
    → IsSynced payload workspace_id c pre
moved {workspace_id = w} h cards frontier view = record {
  cards_at = ap (map_values slot_card) cards ∙ h.cards_at;
  frontier_at = frontier ∙ h.frontier_at;
  view_at = λ v e.
      h.view_at v (sym view ∙ e)
      ∙ ap (λ m. view_of w v.frontier (values (map_values slot_card m))) (sym cards);
}

module _ (store : JournalRead) (payload : IndexEntry → Event) (workspace_id : Text)
    (log : List IndexEntry) (holds : Holds store (scope_for_workspace workspace_id) payload log)
    (fuel : ℕ) (enough : length log < fuel) where
  abbrev region : Text
  region = scope_for_workspace workspace_id

  -- A refresh that succeeds and leaves the cache at the end of the journal.
  abbrev Refreshed : Result Text (Unit {0}) × WorkspaceCache → Type 0
  Refreshed r =
      (cache' : WorkspaceCache) × (r ≡ (ok tt, cache')) × IsSynced payload workspace_id cache' log

  -- Rebuilding starts from nothing, whatever the cache was.
  rebuild_lem : (cache : WorkspaceCache) → Refreshed (rebuild_cache fuel store region cache)
  unfolding rebuild_cache
  rebuild_lem cache =
      let cleared = record cache {
        freshness = ProjectionFreshness.rebuilding;
        cards = [];
        frontier = 0;
        anchor_event_id_hex = [];
        view = none;
      } in
      let (outcome, c, ran, cards, frontier, view, _) =
        fold_after_all store region payload log holds fuel enough cleared in
      (
        record c { dirty = true; freshness = ProjectionFreshness.stale },
        ap (λ r. after_rebuild r.0 r.1) ran,
        record { cards_at = cards; frontier_at = frontier; view_at = λ v e. cc (view, e) },
      )

  -- What the fold behind the frontier comes to.
  after_fold_lem :
      (outcome : FoldOutcome) (old new : WorkspaceCache)
      → bare new ≡ replayed payload log
      → new.frontier ≡ last_seq 0 log
      → new.view ≡ old.view
      → (outcome ≡ FoldOutcome.no_delta → bare new ≡ bare old)
      → ((v : WorkspaceView)
          → old.view ≡ some v
          → v ≡ view_of workspace_id v.frontier (values (bare old)))
      → Refreshed (after_fold fuel store region (ok outcome) new)
  unfolding after_fold
  after_fold_lem FoldOutcome.no_delta old new cards frontier view quiet views = (
    record new { freshness = ProjectionFreshness.fresh },
    refl,
    record {
      cards_at = cards;
      frontier_at = frontier;
      view_at = λ v e.
          views v (sym view ∙ e)
          ∙ ap (λ b. view_of workspace_id v.frontier (values b)) (sym (quiet refl));
    },
  )
  after_fold_lem FoldOutcome.folded old new cards frontier view quiet views = (
    record new { dirty = true; freshness = ProjectionFreshness.stale; view = none },
    refl,
    record { cards_at = cards; frontier_at = frontier; view_at = λ v e. cc e },
  )
  after_fold_lem FoldOutcome.generation_regressed old new cards frontier view quiet views =
      rebuild_lem (record new { freshness = ProjectionFreshness.invalid })

  -- Advancing folds what stands behind the frontier.
  advance_lem :
      (pre suf : List IndexEntry) (cache : WorkspaceCache)
      → log ≡ pre ++ suf
      → IsSynced payload workspace_id cache pre
      → Refreshed (advance_cache fuel store region cache)
  unfolding advance_cache
  advance_lem pre suf cache split h =
      let (outcome, c, ran, cards, frontier, view, quiet) =
        fold_after_rest store region payload log holds fuel enough pre suf cache split in
      let ran' : fold_after fuel store region (some cache.frontier) cache ≡ (ok outcome, c) =
        ap (λ n. fold_after fuel store region (some n) cache) h.frontier_at ∙ ran in
      let (c', done, synced) =
        after_fold_lem outcome cache c
          (cards
            ∙ ap (λ b. fold (bare_entry payload) b suf) h.cards_at
            ∙ sym (fold-append (bare_entry payload) [] pre suf)
            ∙ ap (replayed payload) (sym split))
          (frontier
            ∙ ap (λ n. last_seq n suf) h.frontier_at
            ∙ sym (last_seq-append pre suf 0)
            ∙ ap (last_seq 0) (sym split))
          view quiet h.view_at in
      (c', ap (λ r. after_fold fuel store region r.0 r.1) ran' ∙ done, synced)

  refresh_lem :
      (pre suf : List IndexEntry) (cache : WorkspaceCache)
      → log ≡ pre ++ suf
      → (is_invalid cache.freshness ≡ false → IsSynced payload workspace_id cache pre)
      → Refreshed (refresh fuel store region cache)
  unfolding refresh
  refresh_lem pre suf cache split h = elim (Bool-cases (is_invalid cache.freshness)) [
    | inl bad ↦ rw (bad, refresh) (rebuild_lem cache)
    | inr good ↦ rw (good, refresh) (advance_lem pre suf cache split (h good))
  ]

  abbrev Replays : Result Text WorkspaceView × WorkspaceCache → Type 0
  Replays r =
      (r.0 ≡ ok (replayed_view payload workspace_id log))
      × IsSynced payload workspace_id r.1 log
      × (r.1.freshness ≡ ProjectionFreshness.fresh)

  -- For a store that holds the journal, and more fuel than it has entries: whatever prefix of the
  -- journal a cache stands at, and from an invalid cache too, `assemble`
  -- returns the view of a replay of the whole journal, and leaves a fresh cache that stands at its
  -- end.
  pub assemble_replays :
      (pre suf : List IndexEntry) (cache : WorkspaceCache)
      → log ≡ pre ++ suf
      → (is_invalid cache.freshness ≡ false → IsSynced payload workspace_id cache pre)
      → let assembled = assemble fuel store workspace_id cache in
        (assembled.0 ≡ ok (replayed_view payload workspace_id log))
        × IsSynced payload workspace_id assembled.1 log
        × (assembled.1.freshness ≡ ProjectionFreshness.fresh)
  unfolding assemble
  assemble_replays pre suf cache split h =
      let checked = check_anchor store region cache in
      let (cards, frontier, view, valid) = check_anchor_lem store region cache in
      let (c, ran, synced) =
        refresh_lem pre suf checked split λ good. moved (h (valid good)) cards frontier view in
      let (served, kept, fresh) = serve_view_lem payload workspace_id c log synced in
      subst Replays (sym (ap (λ r. after_refresh workspace_id r.0 r.1) ran))
        (ap ok served, kept, fresh)
