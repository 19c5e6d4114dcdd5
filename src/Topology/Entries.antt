-- ===== src/Topology/Entries.antt =====
-- src/topology.rs: the first loop of `validate_all`, which checks each declared journal.
use texo.Base.{
  ◌≡◌, refl, Bool, true, false, Option, none, some, List, [], ◌∷◌, Result, ok, err, not, ◌&&◌, ◌||◌,
  is_some, fail_if, ok_or, ◌>>=◌, ◌>>◌, >>=-eq-ok, arith, Option-cases, ◌⊎◌, All, inl, inr, zero,
}
use texo.Base.Text.{Text, text_ord, text_eq}
use texo.Base.Map.{BTreeMap, get, insert, contains_key}
use texo.Topology.{
  TopologyError, journal_id, JournalRole, JournalEntry, valid_env_name, is_exact_fork,
}
use texo.Base.Space.{is_blank}

-- The remote fields of a replica: both, with a private address and a well-formed name, or none.
abbrev pub valid_remote : (Text → Bool) → Option Text → Option Text → Bool
valid_remote private_addr (some endpoint) (some token_env) =
    private_addr endpoint && valid_env_name token_env
valid_remote private_addr none none = true
valid_remote private_addr _ _ = false

abbrev no_replica_fields : JournalEntry → Bool
no_replica_fields entry = not (
    is_some entry.source_journal
    || (is_some entry.replica_mode
        || (is_some entry.source_endpoint || is_some entry.source_token_env)))

-- The `match entry.role` for one journal.
unfoldable pub validate_role :
    (Text → Bool)
    → BTreeMap Text JournalEntry
    → Text
    → JournalEntry
    → JournalRole
    → Result TopologyError (Unit {0})
validate_role private_addr journals id entry JournalRole.canonical =
    fail_if (not (no_replica_fields entry)) (TopologyError.canonical_has_replica_fields id)
validate_role private_addr journals id entry JournalRole.replica = do
  declared ← ok_or entry.source_journal (TopologyError.replica_missing_source id)
  source ← journal_id declared
  fail_if (text_eq source id) (TopologyError.replica_cycle id)
  fail_if (not (contains_key journals source)) (TopologyError.missing_source id source)
  fail_if (not (is_some entry.replica_mode)) (TopologyError.replica_missing_mode id)
  fail_if (not (valid_remote private_addr entry.source_endpoint entry.source_token_env))
      (TopologyError.invalid_remote_source id)
  fail_if (is_some entry.source_endpoint && is_exact_fork entry.replica_mode)
      (TopologyError.remote_exact_fork id)

-- The insertion into `paths`: the path must be new.
abbrev path_is_free : BTreeMap Text Text → Text → Text → Result TopologyError (Unit {0})
path_is_free paths path id = elim (get paths path) [
  | none ↦ ok tt
  | some first ↦ err (TopologyError.duplicate_store_path first id path)
]

-- `for (id, entry) in journals`.
unfoldable pub validate_entries :
    (Text → Bool)
    → BTreeMap Text JournalEntry
    → BTreeMap Text Text
    → List (Text × JournalEntry)
    → Result TopologyError (Unit {0})
unfolding validate_role
validate_entries private_addr journals paths [] = ok tt
validate_entries private_addr journals paths ((id, entry) ∷ rest) = do
  id ← journal_id id
  fail_if (is_blank zero entry.store_path) (TopologyError.empty_store_path id)
  path_is_free paths entry.store_path id
  validate_role private_addr journals id entry entry.role
  validate_entries private_addr journals (insert paths entry.store_path id) rest

-- What the loop has checked of a journal: a canonical one has no source, a replica has one that is
-- declared.
abbrev pub IsChecked : BTreeMap Text JournalEntry → JournalEntry → Type 0
IsChecked journals entry =
    (entry.role ≡ JournalRole.canonical) × (entry.source_journal ≡ none)
    ⊎ (source : Text) × (entry.source_journal ≡ some source) × (contains_key journals source ≡ true)

validate_role_lem :
    (private_addr : Text → Bool) (journals : BTreeMap Text JournalEntry) (id : Text)
    (entry : JournalEntry) (role : JournalRole)
    → entry.role ≡ role
    → validate_role private_addr journals id entry role ≡ ok tt
    → IsChecked journals entry
unfolding validate_role journal_id
validate_role_lem private_addr journals id entry JournalRole.canonical at h = inl (at, ground arith)
validate_role_lem private_addr journals id entry JournalRole.replica at h =
    elim (Option-cases entry.source_journal) [
      | inl absent ↦ ground arith
      | inr (source, has) ↦ inr (source, has, ground arith)
    ]

pub validate_entries_lem :
    (private_addr : Text → Bool) (journals : BTreeMap Text JournalEntry)
    (paths : BTreeMap Text Text) (rest : List (Text × JournalEntry))
    → validate_entries private_addr journals paths rest ≡ ok tt
    → All (λ (j : Text × JournalEntry). IsChecked journals j.1) rest
unfolding validate_entries
validate_entries_lem private_addr journals paths [] h = tt
validate_entries_lem private_addr journals paths ((id, entry) ∷ rest) h =
    let (i, named, h1) = >>=-eq-ok (journal_id id) _ h in
    let (_, _, h2) =
      >>=-eq-ok (fail_if (is_blank zero entry.store_path) (TopologyError.empty_store_path i)) _
        h1 in
    let (_, _, h3) = >>=-eq-ok (path_is_free paths entry.store_path i) _ h2 in
    let (_, role, h4) = >>=-eq-ok (validate_role private_addr journals i entry entry.role) _ h3 in
    (
      validate_role_lem private_addr journals i entry entry.role refl role,
      validate_entries_lem private_addr journals (insert paths entry.store_path i) rest h4,
    )
