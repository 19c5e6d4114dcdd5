-- ===== src/Examples/Topologies.antt =====
-- A topology of two journals.
use texo.Base.{ℕ, ◌≡◌, ◌↔◌, refl, false, none, some, [], ◌∷◌, All, ok}
use texo.Base.Text.{Text, bytes, text_ord, is_ascii_alphanumeric, compare_text}
use texo.Base.Space.{is_blank}
use texo.Base.Pairs.{pair_ord}
use texo.Base.Map.{BTreeMap, get, insert, contains_key}
use texo.Topology.{
  JournalEntry, JournalRole, ReplicaMode, journal_id, ResolvedJournal, canonical_journal,
  replica_journal,
}
use texo.Topology.Chain.{Chain, follow}
use texo.Topology.Entries.{validate_entries}
use texo.Topology.Resolve.{
  resolve_journal, validate_chains, validate_chains_iff, ReachesCanonical,
  resolve_reaches_canonical,
}

abbrev journals : BTreeMap Text JournalEntry
journals =
    (bytes "canonical", canonical_journal (bytes "store"))
    ∷ (
      bytes "codex",
      replica_journal (bytes "copy") (bytes "canonical") ReplicaMode.imported_read_model,
    )
    ∷ []

validate_chains_iff_example :
    (validate_chains journals (bytes "codex" ∷ []) ≡ ok tt)
    ↔ All (λ id. (n : ℕ) × Chain journals id n) (bytes "codex" ∷ [])
validate_chains_iff_example = validate_chains_iff journals (bytes "codex" ∷ [])

abbrev codex : ResolvedJournal
codex = record {
  id = bytes "codex";
  role = JournalRole.replica;
  store_path = bytes "copy";
  source_journal = some (bytes "canonical");
  replica_mode = some ReplicaMode.imported_read_model;
  source_endpoint = none;
  source_token_env = none;
}

codex_resolves :
    resolve_journal (λ a. false) (bytes "canonical") journals (some (bytes "codex")) ≡ ok codex
unfolding resolve_journal get insert contains_key compare_text journal_id is_ascii_alphanumeric
    is_blank follow validate_entries
codex_resolves = refl

resolve_reaches_canonical_example :
    ((entry : JournalEntry) × (get journals (bytes "codex") ≡ some entry)
      × (JournalRole.replica ≡ entry.role)
      × (bytes "copy" ≡ entry.store_path)
      × (some (bytes "canonical") ≡ entry.source_journal))
    × ((id : Text) (entry : JournalEntry)
        → get journals id ≡ some entry
        → ReachesCanonical journals id)
resolve_reaches_canonical_example =
    resolve_reaches_canonical (λ a. false) (bytes "canonical") journals (some (bytes "codex")) codex
      codex_resolves
