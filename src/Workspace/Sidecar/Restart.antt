-- ===== src/Workspace/Sidecar/Restart.antt =====
-- The life of a cache: calls of `assemble` while the journal grows, and restarts through a sidecar.
use texo.Base.{
  ℕ, ◌≡◌, refl, sym, ap, ◌∙◌, subst, List, [], ◌++◌, append-nil, append_assoc, ok, ◌<◌, length, inl,
  inr,
}
use texo.Base.Text.{Text}
use texo.Events.Payloads.{Event}
use texo.Events.Coordinate.{scope_for_workspace}
use texo.Journal.{IndexEntry, JournalRead, Holds}
use texo.Workspace.Types.{WorkspaceCache, default}
use texo.Workspace.Assemble.{assemble}
use texo.Workspace.Assemble.Warm.{IsSynced, replayed_view, assemble_replays}
use texo.Workspace.Sidecar.{
  Disk, FileCalls, Encoding, load_journal, save_journal, restored, persisted_of,
}
use texo.Workspace.Sidecar.Files.{IsEncoding, save-load}

-- The caches that a run can come to when the journal of a workspace is `log`: an empty one, one
-- that was there when the journal was shorter, what a call of `assemble` leaves, and what is
-- loaded of a sidecar that was saved.
pub data Reached (payload : IndexEntry → Event) (workspace_id : Text)
    : List IndexEntry → WorkspaceCache → Type 1 where
  started : (log : List IndexEntry) → Reached payload workspace_id log default
  grown :
      {log : List IndexEntry} {cache : WorkspaceCache} (more : List IndexEntry)
      → Reached payload workspace_id log cache
      → Reached payload workspace_id (log ++ more) cache
  assembled :
      {log : List IndexEntry} {cache : WorkspaceCache} (store : JournalRead) (fuel : ℕ)
      → Holds store (scope_for_workspace workspace_id) payload log
      → length log < fuel
      → Reached payload workspace_id log cache
      → Reached payload workspace_id log (assemble fuel store workspace_id cache).1
  reloaded :
      {log : List IndexEntry} {cache : WorkspaceCache} (encoding : Encoding) (calls : FileCalls)
      (disk : Disk) (root journal_id : Text)
      → IsEncoding encoding
      → (save_journal encoding calls disk cache root workspace_id journal_id).0 ≡ ok tt
      → Reached payload workspace_id log cache
      → Reached payload workspace_id log (
          load_journal encoding
            (save_journal encoding calls disk cache root workspace_id journal_id).1
            root
            workspace_id
            journal_id)

-- A cache that stands at some earlier end of the journal.
abbrev Stands : (IndexEntry → Event) → Text → List IndexEntry → WorkspaceCache → Type 0
Stands payload workspace_id log cache =
    (pre : List IndexEntry) × (suf : List IndexEntry) × (log ≡ pre ++ suf)
    × IsSynced payload workspace_id cache pre

default-IsSynced : (payload : IndexEntry → Event) (w : Text) → IsSynced payload w default []
default-IsSynced payload w = record { cards_at = refl; frontier_at = refl; view_at = λ v e. cc e }

restored-IsSynced :
    (payload : IndexEntry → Event) (w journal_id : Text) (cache : WorkspaceCache)
    (pre : List IndexEntry)
    → IsSynced payload w cache pre
    → IsSynced payload w (restored (persisted_of cache w journal_id)) pre
restored-IsSynced payload w journal_id cache pre h = record {
  cards_at = h.cards_at;
  frontier_at = h.frontier_at;
  view_at = λ v e. cc e;
}

Reached-Stands :
    (payload : IndexEntry → Event) (workspace_id : Text) (log : List IndexEntry)
    (cache : WorkspaceCache)
    → Reached payload workspace_id log cache
    → Stands payload workspace_id log cache
Reached-Stands payload w log cache (Reached.started l) = ([], log, refl, default-IsSynced payload w)
Reached-Stands payload w log cache (Reached.grown {log = old} more r) =
    let (pre, suf, split, synced) = Reached-Stands payload w old cache r in
    (pre, suf ++ more, ap (λ l. l ++ more) split ∙ append_assoc pre suf more, synced)
Reached-Stands payload w log cache (Reached.assembled {cache = c} store fuel holds enough r) =
    let (pre, suf, split, synced) = Reached-Stands payload w log c r in
    let (_, at, _) =
      assemble_replays store payload w log holds fuel enough pre suf c split (λ _. synced) in
    (log, [], sym (append-nil log), at)
Reached-Stands payload w log cache
      (Reached.reloaded {cache = c} encoding calls disk root journal_id good saved r) =
    let (pre, suf, split, synced) = Reached-Stands payload w log c r in
    elim (save-load encoding calls disk c root w journal_id good) [
      | inl (_, loads) ↦ (
        pre,
        suf,
        split,
        subst (λ k. IsSynced payload w k pre) (sym loads)
            (restored-IsSynced payload w journal_id c pre synced),
      )
      | inr (unsaved, _) ↦ absurd (unsaved saved)
    ]

-- For a cache that calls of `assemble`, growth of the journal and successful saves and loads of the
-- sidecar led to in any sequence, where each call read a store that held the journal of its time with
-- more fuel than it had entries: the next call of `assemble`, on a store that holds the journal and
-- with more fuel than it has entries, returns the view of a replay of the whole journal.
pub restart_replays :
    (payload : IndexEntry → Event) (workspace_id : Text) (log : List IndexEntry)
    (cache : WorkspaceCache) (store : JournalRead) (fuel : ℕ)
    → Reached payload workspace_id log cache
    → Holds store (scope_for_workspace workspace_id) payload log
    → length log < fuel
    → (assemble fuel store workspace_id cache).0 ≡ ok (replayed_view payload workspace_id log)
restart_replays payload w log cache store fuel r holds enough =
    let (pre, suf, split, synced) = Reached-Stands payload w log cache r in
    (assemble_replays store payload w log holds fuel enough pre suf cache split (λ _. synced)).0
