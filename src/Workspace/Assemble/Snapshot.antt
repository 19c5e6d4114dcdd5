-- ===== src/Workspace/Assemble/Snapshot.antt =====
-- A historical view at an exact frontier (`assemble_through`).
use texo.Base.{
  ℕ, zero, suc, ◌≡◌, refl, ap, ap₂, sym, ◌∙◌, false, none, List, [], ◌∷◌, ◌++◌, fold, arith, ok,
  err, Result, ◌<◌, length, ◌==◌, if◌then◌else◌, Option-cases, inl, inr,
}
use texo.Base.Text.{Text, text_ord}
use texo.Base.Map.{values}
use texo.Events.Payloads.{Event}
use texo.Events.Coordinate.{scope_for_workspace}
use texo.Journal.{IndexEntry, JournalRead, IsReadable, last_seq, Holds}
use texo.Journal.Paging.{Flow, next, page_limit, page_loop}
use texo.Journal.Through.{through, upto, upto_high, upto-split}
use texo.Journal.Through.Loop.{through_loop_visits}
use texo.Workspace.Types.{WorkspaceCache, WorkspaceView, ProjectionFreshness, family_of, default}
use texo.Workspace.Fold.{fold_event}
use texo.Workspace.View.{view_of, build_view}
use texo.Workspace.Bare.{BareCards, bare, bare_entry, fold_event-bare}
use texo.Workspace.Assemble.{
  anchored, through_entry, after_through, fold_through, at_exact, SnapshotError, assemble_through,
  is_invalid, assemble,
}
use texo.Workspace.Assemble.Warm.{replayed, replayed_view, IsSynced, assemble_replays}

-- What the loop does to the cards and the frontier.
record Mark : Type 0 where
  cards : BareCards
  frontier : ℕ

abbrev mark : WorkspaceCache → Mark
mark cache = record { cards = bare cache; frontier = cache.frontier }

abbrev mark_entry : (IndexEntry → Event) → Mark → IndexEntry → Mark
mark_entry payload m e = record {
  cards = bare_entry payload m.cards e;
  frontier = e.global_sequence;
}

mark_fold :
    (payload : IndexEntry → Event) (log : List IndexEntry) (m : Mark)
    → let t = fold (mark_entry payload) m log in
      (t.cards ≡ fold (bare_entry payload) m.cards log) × (t.frontier ≡ last_seq m.frontier log)
mark_fold payload [] m = (refl, refl)
mark_fold payload (e ∷ log) m = mark_fold payload log (mark_entry payload m e)

module _ (store : JournalRead) (payload : IndexEntry → Event) where
  through_entry_lem :
      (cache : WorkspaceCache) (e : IndexEntry)
      → IsReadable store payload e
      → (c : WorkspaceCache) × (through_entry store cache e ≡ next c)
        × (mark c ≡ mark_entry payload (mark cache) e)
  unfolding through_entry bare_entry
  through_entry_lem cache e r = elim (Option-cases (family_of e.entity)) [
    | inl other ↦ (anchored cache e, rw (other, through_entry) refl, ground arith)
    | inr (family, card) ↦ (
      anchored (fold_event cache e.entity family e.event_kind (payload e)) e,
      rw (card, through_entry) (rw (r.0, through_entry) refl),
      ground (arith, fold_event-bare cache e.entity family e.event_kind (payload e)),
    )
  ]

-- The view at the end of what was replayed, if that is exactly the frontier that was asked for.
abbrev pub exact_view :
    (IndexEntry → Event) → Text → ℕ → List IndexEntry → Result SnapshotError WorkspaceView
exact_view payload workspace_id frontier log =
    if last_seq 0 log == frontier
    then ok (replayed_view payload workspace_id log)
    else err (SnapshotError.not_exact frontier)

at_exact_lem :
    (payload : IndexEntry → Event) (workspace_id : Text) (frontier : ℕ) (cache : WorkspaceCache)
    (log : List IndexEntry)
    → bare cache ≡ replayed payload log
    → cache.frontier ≡ last_seq 0 log
    → at_exact workspace_id frontier (ok tt) cache ≡ exact_view payload workspace_id frontier log
unfolding at_exact build_view
at_exact_lem payload workspace_id frontier cache log cards at =
    ap₂
      (λ n b.
        if n == frontier
        then ok (view_of workspace_id n (values b))
        else err (SnapshotError.not_exact frontier))
      at cards

module _ (store : JournalRead) (payload : IndexEntry → Event) (workspace_id : Text)
    (log : List IndexEntry) (holds : Holds store (scope_for_workspace workspace_id) payload log)
    (fuel : ℕ) (enough : length log < fuel) where
  abbrev region : Text
  region = scope_for_workspace workspace_id

  abbrev Stands : ℕ → Result Text (Unit {0}) × WorkspaceCache → Type 0
  Stands frontier r =
      (c : WorkspaceCache) × (r ≡ (ok tt, c))
      × (bare c ≡ replayed payload (upto frontier log))
      × (c.frontier ≡ last_seq 0 (upto frontier log))

  abbrev blank : WorkspaceCache
  blank = record default { freshness = ProjectionFreshness.rebuilding }

  abbrev looped : ℕ → Flow WorkspaceCache
  looped frontier =
      page_loop (λ after. store.query_entries_after region after page_limit)
        (through frontier (through_entry store)) fuel none blank

  -- A frontier above 0 runs the loop.
  fold_through_runs :
      (f : ℕ) → fold_through fuel store region (suc f) blank ≡ after_through (looped (suc f))
  unfolding fold_through
  fold_through_runs f = let nonzero : (suc f == 0) ≡ false = ground arith in rw nonzero refl

  -- The fold up to a frontier.
  fold_through_lem :
      (frontier : ℕ) → Stands frontier (fold_through fuel store region frontier blank)
  unfolding fold_through
  fold_through_lem zero =
      let none_low : upto 0 log ≡ [] = upto_high log 0 0 holds.sequenced (omega arith) in
      (
        record blank { freshness = ProjectionFreshness.stale },
        refl,
        sym (ap (replayed payload) none_low),
        sym (ap (last_seq 0) none_low),
      )
  fold_through_lem (suc f) =
      let (c, ends, same) =
        through_loop_visits (λ after. store.query_entries_after region after page_limit) (suc f)
          (through_entry store) mark (mark_entry payload) (IsReadable store payload)
          (through_entry_lem store payload) log holds.sequenced
          (λ after. holds.pages after page_limit) fuel blank enough holds.readable in
      let (cards, at) = mark_fold payload (upto (suc f) log) (mark blank) in
      (
        record c { freshness = ProjectionFreshness.stale },
        fold_through_runs f ∙ elim ends [ inl n ↦ ap after_through n | inr t ↦ ap after_through t ],
        ap (λ (m : Mark). m.cards) same ∙ cards,
        ap (λ (m : Mark). m.frontier) same ∙ at,
      )

  -- For a store that holds the journal, and more fuel than it has entries: a historical view is the replay of the entries at or below the frontier, and an error exactly
  -- where no entry stands at the frontier itself (and the frontier is not 0).
  pub assemble_through_lem :
      (frontier : ℕ)
      → assemble_through fuel store workspace_id frontier
        ≡ exact_view payload workspace_id frontier (upto frontier log)
  unfolding assemble_through
  assemble_through_lem frontier =
      let (c, ran, cards, at) = fold_through_lem frontier in
      ap (λ r. at_exact workspace_id frontier r.0 r.1) ran
      ∙ at_exact_lem payload workspace_id frontier c (upto frontier log) cards at

-- When the first call's cache is marked invalid or is the fold of a beginning of the journal, for
-- stores that hold the two journals and with more fuel than they have entries: the view that
-- `assemble` gave when the journal ended with `pre` is the view that `assemble_through` gives at that
-- frontier however the journal has grown since.
pub snapshot_consistent :
    (payload : IndexEntry → Event) (workspace_id : Text) (then_store now_store : JournalRead)
    (pre suf seen_then : List IndexEntry) (cache : WorkspaceCache) (fuel fuel' : ℕ)
    → Holds then_store (scope_for_workspace workspace_id) payload (seen_then ++ pre)
    → Holds now_store (scope_for_workspace workspace_id) payload ((seen_then ++ pre) ++ suf)
    → length (seen_then ++ pre) < fuel
    → length ((seen_then ++ pre) ++ suf) < fuel'
    → (is_invalid cache.freshness ≡ false → IsSynced payload workspace_id cache seen_then)
    → (v : WorkspaceView) × ((assemble fuel then_store workspace_id cache).0 ≡ ok v)
      × (assemble_through fuel' now_store workspace_id v.frontier ≡ ok v)
unfolding view_of
snapshot_consistent payload w then_store now_store pre suf seen cache fuel fuel' held holds few many
      h =
    let log = seen ++ pre in
    let v = replayed_view payload w log in
    let (got, _, _) =
      assemble_replays then_store payload w log held fuel few seen pre cache refl h in
    let split = upto-split log suf 0 holds.sequenced in
    (
      v,
      got,
      assemble_through_lem now_store payload w (log ++ suf) holds fuel' many (last_seq 0 log)
          ∙ ap (exact_view payload w (last_seq 0 log)) split
          ∙ ground arith,
    )
