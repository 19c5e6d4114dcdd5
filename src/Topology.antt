-- ===== src/Topology.antt =====
-- src/topology.rs and src/topology/model.rs: the journals a workspace declares, and which may follow
-- which. `private_socket_addr` of src/compat/netbat.rs parses a network address: `private_addr`
-- stands for it, a parameter.
pub mod Chain
pub mod Entries
pub mod Resolve
use texo.Base.{
  ℕ, zero, suc, Bool, true, false, Option, none, some, List, [], ◌∷◌, ◌++◌, Result, ok, err, ltb,
  leb, ◌==◌, not, ◌&&◌, ◌||◌, if◌then◌else◌, length, all, any, unwrap_or, is_some, fail_if, ok_or,
  ◌>>=◌, ◌>>◌,
}
use texo.Base.Text.{
  Text, text_ord, text_eq, is_empty, is_ascii_alphanumeric, is_ascii_uppercase, is_ascii_digit,
}
use texo.Base.Map.{BTreeMap, get, insert, contains_key, keys}

pub data TopologyError : Type 0 where
  empty : TopologyError
  invalid_journal_id : Text → TopologyError
  missing_journal : Text → TopologyError
  primary_not_canonical : Text → TopologyError
  empty_store_path : Text → TopologyError
  canonical_has_replica_fields : Text → TopologyError
  replica_missing_source : Text → TopologyError
  replica_missing_mode : Text → TopologyError
  invalid_remote_source : Text → TopologyError
  remote_exact_fork : Text → TopologyError
  missing_source : Text → Text → TopologyError
  replica_cycle : Text → TopologyError
  duplicate_store_path : Text → Text → Text → TopologyError

-- `JournalId::new`.
unfoldable pub journal_id : Text → Result TopologyError Text
journal_id value =
    if is_empty value
      || (ltb 128 (length value)
          || not
              (all (λ b. is_ascii_alphanumeric b || (b == b'-' || (b == b'_' || b == b'.'))) value))
    then err (TopologyError.invalid_journal_id value)
    else ok value

pub data JournalRole : Type 0 where
  canonical replica : JournalRole

pub data ReplicaMode : Type 0 where
  exact_fork imported_read_model : ReplicaMode

pub record JournalEntry : Type 0 where
  pub role : JournalRole
  pub store_path : Text
  pub source_journal : Option Text
  pub replica_mode : Option ReplicaMode
  pub source_endpoint : Option Text
  pub source_token_env : Option Text

-- `JournalEntry::canonical`, `replica` and `remote_replica`.
abbrev pub canonical_journal : Text → JournalEntry
canonical_journal store_path = record {
  role = JournalRole.canonical;
  store_path = store_path;
  source_journal = none;
  replica_mode = none;
  source_endpoint = none;
  source_token_env = none;
}

abbrev pub replica_journal : Text → Text → ReplicaMode → JournalEntry
replica_journal store_path source_journal replica_mode = record {
  role = JournalRole.replica;
  store_path = store_path;
  source_journal = some source_journal;
  replica_mode = some replica_mode;
  source_endpoint = none;
  source_token_env = none;
}

abbrev pub remote_replica_journal : Text → Text → Text → Text → JournalEntry
remote_replica_journal store_path source_journal source_endpoint source_token_env = record {
  role = JournalRole.replica;
  store_path = store_path;
  source_journal = some source_journal;
  replica_mode = some ReplicaMode.imported_read_model;
  source_endpoint = some source_endpoint;
  source_token_env = some source_token_env;
}

pub record ResolvedJournal : Type 0 where
  pub id : Text
  pub role : JournalRole
  pub store_path : Text
  pub source_journal : Option Text
  pub replica_mode : Option ReplicaMode
  pub source_endpoint : Option Text
  pub source_token_env : Option Text

unfoldable pub valid_env_name : Text → Bool
valid_env_name value =
    not (is_empty value) && all (λ b. is_ascii_uppercase b || (is_ascii_digit b || b == b'_')) value

abbrev pub is_canonical : JournalRole → Bool
is_canonical JournalRole.canonical = true
is_canonical JournalRole.replica = false

abbrev pub is_exact_fork : Option ReplicaMode → Bool
is_exact_fork (some ReplicaMode.exact_fork) = true
is_exact_fork _ = false
