-- ===== src/Workspace/Sidecar.antt =====
-- src/claims/workspace.rs: the sidecar file, `load_journal` and `save_journal`. BatPak's encoding is
-- a parameter, and so is what each call of the file system comes to; the disk is the map of its files.
pub mod Files
pub mod Restart
use texo.Base.{
  ℕ, Bool, true, false, Option, none, some, List, [], ◌∷◌, ◌++◌, ◌&&◌, ◌==◌, Result, ok, err,
  if◌then◌else◌,
}
use texo.Base.Text.{Text, text_ord, text_eq, bytes}
use texo.Base.Map.{BTreeMap, get, insert, remove}
use texo.Workspace.Types.{WorkspaceCache, CachedCard, ProjectionFreshness, default}

abbrev sidecar_version : ℕ
sidecar_version = 3

pub record PersistedWorkspace : Type 0 where
  pub version : ℕ
  pub workspace_id : Text
  pub journal_id : Text
  pub frontier : ℕ
  pub anchor_event_id_hex : Text
  pub cache : BTreeMap Text (ℕ × CachedCard)

abbrev pub Disk : Type 0
Disk = BTreeMap Text Text

-- What the calls of one save come to.
pub record FileCalls : Type 0 where
  pub create_dir_all : Result Text (Unit {0})
  pub write : Result Text (Unit {0})
  pub left_by_failed_write : Text
  pub rename : Result Text (Unit {0})

-- BatPak's encoding of the sidecar.
pub record Encoding : Type 0 where
  pub to_bytes : PersistedWorkspace → Result Text Text
  pub from_bytes : Text → Option PersistedWorkspace

abbrev pub sidecar_path : Text → Text → Text → Text
sidecar_path root workspace_id journal_id =
    root
    ++ (bytes "/.texo/cache/workspace-view/"
        ++ (workspace_id ++ (bytes "--" ++ (journal_id ++ bytes ".bin"))))

-- `path.with_extension("bin.tmp")` of a path that ends in `.bin`.
abbrev pub temporary_path : Text → Text
temporary_path path = path ++ bytes ".tmp"

abbrev pub restored : PersistedWorkspace → WorkspaceCache
restored persisted = record default {
  cards = persisted.cache;
  frontier = persisted.frontier;
  anchor_event_id_hex = persisted.anchor_event_id_hex;
  freshness = ProjectionFreshness.stale;
}

-- The three tests on what was decoded.
unfoldable pub accept : Text → Text → PersistedWorkspace → WorkspaceCache
accept workspace_id journal_id persisted =
    if persisted.version == sidecar_version
      && (text_eq persisted.workspace_id workspace_id && text_eq persisted.journal_id journal_id)
    then restored persisted
    else record default { freshness = ProjectionFreshness.invalid }

-- `load_journal`, behind the read of the file; the default cache is invalid.
unfoldable pub load_file : Encoding → Text → Text → Option Text → WorkspaceCache
unfolding accept
load_file encoding workspace_id journal_id none = default
load_file encoding workspace_id journal_id (some content) = elim (encoding.from_bytes content) [
  | none ↦ record default { freshness = ProjectionFreshness.invalid }
  | some persisted ↦ accept workspace_id journal_id persisted
]

unfoldable pub load_journal : Encoding → Disk → Text → Text → Text → WorkspaceCache
unfolding load_file
load_journal encoding disk root workspace_id journal_id =
    load_file encoding workspace_id journal_id
      (get disk (sidecar_path root workspace_id journal_id))

abbrev pub persisted_of : WorkspaceCache → Text → Text → PersistedWorkspace
persisted_of cache workspace_id journal_id = record {
  version = sidecar_version;
  workspace_id = workspace_id;
  journal_id = journal_id;
  frontier = cache.frontier;
  anchor_event_id_hex = cache.anchor_event_id_hex;
  cache = cache.cards;
}

-- The calls after the encoding: write a temporary file, then rename it over the sidecar.
unfoldable pub replace_file : FileCalls → Disk → Text → Text → Result Text (Unit {0}) × Disk
replace_file calls disk path content =
    let temporary = temporary_path path in
    elim calls.write [
      | err what ↦ (err what, insert disk temporary calls.left_by_failed_write)
      | ok _ ↦
          (let written = insert disk temporary content in
            elim calls.rename [
              | err what ↦ (err what, written)
              | ok _ ↦ (ok tt, insert (remove written temporary) path content)
            ])
    ]

-- `save_journal`. The sidecar's path has a parent.
unfoldable pub save_journal :
    Encoding
    → FileCalls
    → Disk
    → WorkspaceCache
    → Text
    → Text
    → Text
    → Result Text (Unit {0}) × Disk
unfolding replace_file
save_journal encoding calls disk cache root workspace_id journal_id =
    let path = sidecar_path root workspace_id journal_id in
    elim calls.create_dir_all [
      | err what ↦ (err what, disk)
      | ok _ ↦ elim (encoding.to_bytes (persisted_of cache workspace_id journal_id)) [
        | err what ↦ (err what, disk)
        | ok content ↦ replace_file calls disk path content
      ]
    ]

-- `is_dirty` and `mark_clean`.
abbrev pub is_dirty : WorkspaceCache → Bool
is_dirty cache = cache.dirty

abbrev pub mark_clean : WorkspaceCache → WorkspaceCache
mark_clean cache = record cache { dirty = false }
