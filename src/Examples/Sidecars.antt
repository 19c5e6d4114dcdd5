-- ===== src/Examples/Sidecars.antt =====
-- A sidecar that is saved and loaded.
use texo.Base.{
  ℕ, ◌≡◌, ◌≢◌, ◌⊎◌, if◌then◌else◌, ap, ◌∙◌, Bool, true, false, Option, none, some, [], ◌∷◌, Result,
  ok, err, arith,
}
use texo.Base.Text.{Text, bytes, text_ord, text_eq}
use texo.Base.Order.{same_iff}
use texo.Base.Pairs.{pair_ord}
use texo.Base.Map.{BTreeMap}
use texo.Workspace.Types.{WorkspaceCache, CachedCard, default}
use texo.Workspace.Sidecar.{
  FileCalls, Encoding, PersistedWorkspace, restored, persisted_of, load_journal, save_journal,
}
use texo.Workspace.Sidecar.Files.{save-load, IsEncoding}
use texo.Examples.Data.{demo}

abbrev canonical_id : Text
canonical_id = bytes "canonical"

abbrev has_cards : BTreeMap Text (ℕ × CachedCard) → Bool
has_cards [] = false
has_cards (c ∷ cards) = true

abbrev write_plain : PersistedWorkspace → Result Text Text
write_plain p =
    if text_eq p.workspace_id demo
    then (if text_eq p.journal_id canonical_id
        then (if has_cards p.cache
            then err []
            else ok (p.version ∷ p.frontier ∷ p.anchor_event_id_hex))
        else err [])
    else err []

abbrev read_plain : Text → Option PersistedWorkspace
read_plain [] = none
read_plain (v ∷ []) = none
read_plain (v ∷ f ∷ anchor) = some (record {
  version = v;
  workspace_id = demo;
  journal_id = canonical_id;
  frontier = f;
  anchor_event_id_hex = anchor;
  cache = [];
})

-- An encoding of the sidecars of one journal that have no cards.
abbrev plain : Encoding
plain = record { to_bytes = write_plain; from_bytes = read_plain }

write_plain_lem :
    (p : PersistedWorkspace) (content : Text)
    → write_plain p ≡ ok content
    → (p.workspace_id ≡ demo)
      × (p.journal_id ≡ canonical_id)
      × (p.cache ≡ [])
      × (content ≡ p.version ∷ p.frontier ∷ p.anchor_event_id_hex)
write_plain_lem p content h =
    ground (arith, same_iff p.workspace_id demo, same_iff p.journal_id canonical_id)

plain-IsEncoding : IsEncoding plain
plain-IsEncoding p content h =
    let (workspace, journal, cards, written) = write_plain_lem p content h in
    ap read_plain written ∙ ground arith

abbrev done : FileCalls
done = record { create_dir_all = ok tt; write = ok tt; left_by_failed_write = []; rename = ok tt }

abbrev at_nine : WorkspaceCache
at_nine = record default { frontier = 9; anchor_event_id_hex = bytes "09" }

save-load_example :
    let r = save_journal plain done [] at_nine (bytes "/w") demo canonical_id in
    ((r.0 ≡ ok tt)
      × (load_journal plain r.1 (bytes "/w") demo canonical_id
          ≡ restored (persisted_of at_nine demo canonical_id)))
    ⊎ ((r.0 ≢ ok tt)
        × (load_journal plain r.1 (bytes "/w") demo canonical_id
            ≡ load_journal plain [] (bytes "/w") demo canonical_id))
save-load_example = save-load plain done [] at_nine (bytes "/w") demo canonical_id plain-IsEncoding
