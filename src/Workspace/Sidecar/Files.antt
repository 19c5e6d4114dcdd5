-- ===== src/Workspace/Sidecar/Files.antt =====
-- What a save leaves for the next load.
use texo.Base.{
  ◌≡◌, ◌≢◌, refl, ap, ◌∙◌, false, some, Result, ok, arith, ◌⊎◌, inl, inr, length, length-append,
  Result-cases, Bool-cases, if◌then◌else◌,
}
use texo.Base.Order.{same_iff, same_refl}
use texo.Base.Text.{Text, text_ord, text_eq, bytes}
use texo.Base.Map.{get, insert, remove, get-insert}
use texo.Workspace.Types.{WorkspaceCache}
use texo.Workspace.Sidecar.{
  Disk, FileCalls, Encoding, PersistedWorkspace, sidecar_path, temporary_path, restored, accept,
  load_file, load_journal, persisted_of, replace_file, save_journal,
}

-- BatPak's decoder undoes its encoder.
abbrev pub IsEncoding : Encoding → Type 0
IsEncoding encoding =
    (p : PersistedWorkspace) (content : Text)
    → encoding.to_bytes p ≡ ok content
    → encoding.from_bytes content ≡ some p

temporary_differs : (path : Text) → text_eq (temporary_path path) path ≡ false
temporary_differs path = elim (Bool-cases (text_eq (temporary_path path) path)) [
  | inr other ↦ other
  | inl level ↦
      (let long = ap length ((same_iff (temporary_path path) path).0 level) in
        absurd (omega (arith, long, length-append path (bytes ".tmp"))))
]

insert_other :
    (disk : Disk) (k path content : Text)
    → text_eq k path ≡ false
    → get (insert disk k content) path ≡ get disk path
insert_other disk k path content h =
    get-insert disk k path content ∙ ap (λ b. if b then some content else get disk path) h

insert_here :
    (disk : Disk) (path content : Text) → get (insert disk path content) path ≡ some content
insert_here disk path content =
    get-insert disk path path content
    ∙ ap (λ b. if b then some content else get disk path) (same_refl path)

-- The sidecar is as it was, or holds the content.
replace_file_lem :
    (calls : FileCalls) (disk : Disk) (path content : Text)
    → let r = replace_file calls disk path content in
      ((r.0 ≡ ok tt) × (get r.1 path ≡ some content))
      ⊎ ((r.0 ≢ ok tt) × (get r.1 path ≡ get disk path))
unfolding replace_file
replace_file_lem calls disk path content =
    let unwritten =
      insert_other disk (temporary_path path) path calls.left_by_failed_write
        (temporary_differs path) in
    let written = insert_other disk (temporary_path path) path content (temporary_differs path) in
    let moved =
      insert_here (remove (insert disk (temporary_path path) content) (temporary_path path)) path
        content in
    ground arith

load_file_lem :
    (encoding : Encoding) (cache : WorkspaceCache) (workspace_id journal_id content : Text)
    → encoding.from_bytes content ≡ some (persisted_of cache workspace_id journal_id)
    → load_file encoding workspace_id journal_id (some content)
      ≡ restored (persisted_of cache workspace_id journal_id)
unfolding load_file accept
load_file_lem encoding cache workspace_id journal_id content h =
    let same_workspace = same_refl workspace_id in
    let same_journal = same_refl journal_id in rw (h, load_file) (ground arith)

-- What a save comes to: a good encoding in the place of the sidecar, or the sidecar as it was.
abbrev Saves :
    Encoding → Disk → WorkspaceCache → Text → Text → Text → Result Text (Unit {0}) × Disk → Type 0
Saves encoding disk cache root workspace_id journal_id r =
    let path = sidecar_path root workspace_id journal_id in
    (r.0 ≡ ok tt)
      × ((content : Text) × (encoding.to_bytes (persisted_of cache workspace_id journal_id)
            ≡ ok content)
          × (get r.1 path ≡ some content))
    ⊎ (r.0 ≢ ok tt) × (get r.1 path ≡ get disk path)

save_journal_lem :
    (encoding : Encoding) (calls : FileCalls) (disk : Disk) (cache : WorkspaceCache)
    (root workspace_id journal_id : Text)
    → Saves encoding disk cache root workspace_id journal_id
        (save_journal encoding calls disk cache root workspace_id journal_id)
unfolding save_journal
save_journal_lem encoding calls disk cache root workspace_id journal_id =
    let path = sidecar_path root workspace_id journal_id in
    elim (Result-cases calls.create_dir_all) [
      | inr (e, failed) ↦ rw (failed, save_journal) (inr (cc, refl))
      | inl (_, made) ↦
          elim (Result-cases (encoding.to_bytes (persisted_of cache workspace_id journal_id))) [
            | inr (e, failed) ↦ rw (made, save_journal) (rw (failed, save_journal) (inr (cc, refl)))
            | inl (content, encoded) ↦
                rw (made, save_journal)
                  (rw (encoded, save_journal)
                    (elim (replace_file_lem calls disk path content) [
                      | inl (done, there) ↦ inl (done, (content, refl, there))
                      | inr (undone, still) ↦ inr (undone, still)
                    ]))
          ]
    ]

-- When decoding undoes encoding: whatever call of the file system fails in a save, the next load sees a whole sidecar: the saved
-- cards, frontier and anchor, without the view and not yet fresh, when the save succeeded, and what
-- a load before the save gave when it did not.
pub save-load :
    (encoding : Encoding) (calls : FileCalls) (disk : Disk) (cache : WorkspaceCache)
    (root workspace_id journal_id : Text)
    → IsEncoding encoding
    → let r = save_journal encoding calls disk cache root workspace_id journal_id in
      ((r.0 ≡ ok tt)
        × (load_journal encoding r.1 root workspace_id journal_id
            ≡ restored (persisted_of cache workspace_id journal_id)))
      ⊎ ((r.0 ≢ ok tt)
          × (load_journal encoding r.1 root workspace_id journal_id
              ≡ load_journal encoding disk root workspace_id journal_id))
unfolding load_journal
save-load encoding calls disk cache root workspace_id journal_id h =
    elim (save_journal_lem encoding calls disk cache root workspace_id journal_id) [
      | inl (done, (content, encoded, there)) ↦ inl (
        done,
        ap (load_file encoding workspace_id journal_id) there
            ∙ load_file_lem encoding cache workspace_id journal_id content
                (h (persisted_of cache workspace_id journal_id) content encoded),
      )
      | inr (undone, still) ↦ inr (undone, ap (load_file encoding workspace_id journal_id) still)
    ]
