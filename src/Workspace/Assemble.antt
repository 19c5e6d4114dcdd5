-- ===== src/Workspace/Assemble.antt =====
-- src/claims/workspace.rs: `assemble`, `rebuild_cache`, `advance_cache`, `fold_through` and
-- `assemble_through`.
pub mod Warm
pub mod Snapshot
use texo.Base.{
  ℕ, zero, ◌-◌, Bool, true, false, Option, none, some, List, [], ◌∷◌, ltb, ◌==◌, ◌&&◌,
  if◌then◌else◌, Result, ok, err, not, leb,
}
use texo.Base.Text.{Text, text_eq}
use texo.Events.Coordinate.{scope_for_workspace}
use texo.Journal.{IndexEntry, JournalRead}
use texo.Journal.Paging.{Flow, next, stop, fail, page_limit, page_loop}
use texo.Journal.Through.{through}
use texo.Workspace.Types.{
  WorkspaceCache, WorkspaceView, ProjectionFreshness, default, bump, family_of, hex32,
}
use texo.Workspace.Fold.{FoldOutcome, fold_event, fold_after}
use texo.Workspace.View.{build_view}

-- `anchor_matches`: the entry at the frontier is there, under the identity that was seen.
unfoldable pub anchor_matches : JournalRead → Text → WorkspaceCache → Bool
anchor_matches store region cache =
    elim (store.query_entries_after region (some (cache.frontier - 1)) 1) [
      | [] ↦ false
      | entry ∷ _ ↦
          entry.global_sequence == cache.frontier
          && text_eq (hex32 entry.event_id) cache.anchor_event_id_hex
    ]

-- The end of `rebuild_cache`, behind the `?` on the fold.
unfoldable pub after_rebuild :
    Result Text FoldOutcome → WorkspaceCache → Result Text (Unit {0}) × WorkspaceCache
after_rebuild (err what) cache = (err what, cache)
after_rebuild (ok _) cache =
    (ok tt, record cache { dirty = true; freshness = ProjectionFreshness.stale })

unfoldable pub rebuild_cache :
    ℕ → JournalRead → Text → WorkspaceCache → Result Text (Unit {0}) × WorkspaceCache
unfolding after_rebuild
rebuild_cache fuel store region cache =
    let cleared = record cache {
      freshness = ProjectionFreshness.rebuilding;
      cards = [];
      frontier = 0;
      anchor_event_id_hex = [];
      view = none;
    } in
    let (result, cache') = fold_after fuel store region none cleared in after_rebuild result cache'

-- The `match` of `advance_cache` on what the fold came to.
unfoldable pub after_fold :
    ℕ
    → JournalRead
    → Text
    → Result Text FoldOutcome
    → WorkspaceCache
    → Result Text (Unit {0}) × WorkspaceCache
after_fold fuel store region (err what) cache = (err what, cache)
after_fold fuel store region (ok FoldOutcome.no_delta) cache =
    (ok tt, record cache { freshness = ProjectionFreshness.fresh })
after_fold fuel store region (ok FoldOutcome.folded) cache =
    (ok tt, record cache { dirty = true; freshness = ProjectionFreshness.stale; view = none })
after_fold fuel store region (ok FoldOutcome.generation_regressed) cache =
    rebuild_cache fuel store region (record cache { freshness = ProjectionFreshness.invalid })

unfoldable pub advance_cache :
    ℕ → JournalRead → Text → WorkspaceCache → Result Text (Unit {0}) × WorkspaceCache
unfolding after_fold
advance_cache fuel store region cache =
    let (result, cache') = fold_after fuel store region (some cache.frontier) cache in
    after_fold fuel store region result cache'

abbrev pub is_invalid : ProjectionFreshness → Bool
is_invalid ProjectionFreshness.invalid = true
is_invalid _ = false

abbrev pub is_fresh : ProjectionFreshness → Bool
is_fresh ProjectionFreshness.fresh = true
is_fresh _ = false

-- The first statements of `assemble`: count the call, and mark a cache whose anchor is gone.
unfoldable pub check_anchor : JournalRead → Text → WorkspaceCache → WorkspaceCache
check_anchor store region cache =
    let cache = record cache {
      counters = record (cache.counters) { assemble_calls = bump cache.counters.assemble_calls 1 };
    } in
    if ltb 0 cache.frontier && not (anchor_matches store region cache)
    then record cache { freshness = ProjectionFreshness.invalid }
    else cache

-- Rebuild an invalid cache, advance any other.
unfoldable pub refresh :
    ℕ → JournalRead → Text → WorkspaceCache → Result Text (Unit {0}) × WorkspaceCache
refresh fuel store region cache =
    if is_invalid cache.freshness
    then rebuild_cache fuel store region cache
    else advance_cache fuel store region cache

abbrev pub count_warm : WorkspaceCache → WorkspaceCache
count_warm cache = record cache {
  counters = record (cache.counters) { warm_view_hits = bump cache.counters.warm_view_hits 1 };
}

-- The end of `assemble`: the warm view, if its frontier still is the cache's, or a new one.
unfoldable pub serve_view : Text → WorkspaceCache → WorkspaceView × WorkspaceCache
serve_view workspace_id cache = elim (is_fresh cache.freshness) [
  | false ↦ build_view workspace_id cache
  | true ↦ elim cache.view [
    | none ↦ build_view workspace_id cache
    | some view ↦ elim (view.frontier == cache.frontier) [
      | false ↦ build_view workspace_id cache
      | true ↦ (view, count_warm cache)
    ]
  ]
]

-- The end of `assemble`, behind the `?` on the refresh.
unfoldable pub after_refresh :
    Text → Result Text (Unit {0}) → WorkspaceCache → Result Text WorkspaceView × WorkspaceCache
after_refresh workspace_id (err what) cache = (err what, cache)
after_refresh workspace_id (ok _) cache =
    let (view, cache') = serve_view workspace_id cache in (ok view, cache')

-- `assemble`. The cache is mutable: it comes back beside an error too.
unfoldable pub assemble :
    ℕ → JournalRead → Text → WorkspaceCache → Result Text WorkspaceView × WorkspaceCache
unfolding after_refresh
assemble fuel store workspace_id cache =
    let region = scope_for_workspace workspace_id in
    let (result, cache') = refresh fuel store region (check_anchor store region cache) in
    after_refresh workspace_id result cache'

-- The frontier and the anchor move with each entry of `fold_through`.
abbrev pub anchored : WorkspaceCache → IndexEntry → WorkspaceCache
anchored cache entry = record cache {
  frontier = entry.global_sequence;
  anchor_event_id_hex = hex32 entry.event_id;
}

-- The body of the loop of `fold_through`, for an entry that is not past the frontier.
unfoldable pub through_entry : JournalRead → WorkspaceCache → IndexEntry → Flow WorkspaceCache
through_entry store cache entry = elim (family_of entry.entity) [
  | none ↦ next (anchored cache entry)
  | some family ↦ elim (store.read_raw entry.event_id) [
    | err what ↦ fail what cache
    | ok event ↦ next (anchored (fold_event cache entry.entity family entry.event_kind event) entry)
  ]
]

abbrev pub after_through : Flow WorkspaceCache → Result Text (Unit {0}) × WorkspaceCache
after_through (next c) = (ok tt, record c { freshness = ProjectionFreshness.stale })
after_through (stop c) = (ok tt, record c { freshness = ProjectionFreshness.stale })
after_through (fail what c) = (err what, c)

unfoldable pub fold_through :
    ℕ → JournalRead → Text → ℕ → WorkspaceCache → Result Text (Unit {0}) × WorkspaceCache
fold_through fuel store region frontier cache =
    if frontier == 0
    then (ok tt, record cache { freshness = ProjectionFreshness.stale })
    else after_through (
        page_loop (λ after. store.query_entries_after region after page_limit)
          (through frontier (through_entry store)) fuel none cache)

pub data SnapshotError : Type 0 where
  store_error : Text → SnapshotError
  not_exact : ℕ → SnapshotError

-- The end of `assemble_through`: the frontier must be met exactly.
unfoldable pub at_exact :
    Text → ℕ → Result Text (Unit {0}) → WorkspaceCache → Result SnapshotError WorkspaceView
at_exact workspace_id frontier (err what) cache = err (SnapshotError.store_error what)
at_exact workspace_id frontier (ok _) cache =
    if cache.frontier == frontier
    then ok (build_view workspace_id cache).0
    else err (SnapshotError.not_exact frontier)

-- `assemble_through`: the historical view at an exact frontier, with a cache of its own.
unfoldable pub assemble_through : ℕ → JournalRead → Text → ℕ → Result SnapshotError WorkspaceView
assemble_through fuel store workspace_id frontier =
    let (result, cache) =
      fold_through fuel store (scope_for_workspace workspace_id) frontier
        (record default { freshness = ProjectionFreshness.rebuilding }) in
    at_exact workspace_id frontier result cache
