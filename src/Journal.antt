-- ===== src/Journal.antt =====
-- src/journal_store.rs: the read contract of a journal, with what BatPak documents of it as laws.
pub mod Paging
pub mod Through
use texo.Base.{
  ℕ, zero, ◌≡◌, Option, none, some, List, [], ◌∷◌, ◌<◌, Result, ok, ltb, take, filter, All, fold,
}
use texo.Base.Text.{Text}
use texo.Events.Payloads.{Event, EventKind, kind_of}

-- What an index entry shows of an event: its place, identity, kind and entity.
pub record IndexEntry : Type 0 where
  pub global_sequence : ℕ
  pub event_id : ℕ
  pub event_kind : EventKind
  pub entity : Text

-- The trait `JournalRead`; `read_raw` fails with a store error, which is a text here, and gives an
-- event behind BatPak's decoder.
pub record JournalRead : Type 0 where
  pub query_entries_after : Text → Option ℕ → ℕ → List IndexEntry
  pub read_raw : ℕ → Result Text Event
  pub entity_generation : Text → Option ℕ

-- The sequences go up, and are above `n`.
abbrev pub IsSequenced : ℕ → List IndexEntry → Type 0
IsSequenced n [] = Unit
IsSequenced n (e ∷ es) = (n < e.global_sequence) × IsSequenced e.global_sequence es

-- The last sequence of a list, or `n` where there is none.
abbrev pub last_seq : ℕ → List IndexEntry → ℕ
last_seq n [] = n
last_seq n (e ∷ es) = last_seq e.global_sequence es

-- The entries behind an exclusive sequence; `None` asks for all.
abbrev pub behind : Option ℕ → List IndexEntry → List IndexEntry
behind none log = log
behind (some a) log = filter (λ e. ltb a e.global_sequence) log

-- An entry that can be read, as the event `payload` of the kind that the index shows.
abbrev pub IsReadable : JournalRead → (IndexEntry → Event) → IndexEntry → Type 0
IsReadable store payload e =
    (store.read_raw e.event_id ≡ ok (payload e)) × (kind_of (payload e) ≡ e.event_kind)

-- `log` is what the store holds in a region: it is numbered upwards from 1, a query gives its next
-- `limit` entries behind a sequence, and every entry can be read.
pub record Holds (store : JournalRead) (region : Text) (payload : IndexEntry → Event)
    (log : List IndexEntry) : Type 0 where
  pub sequenced : IsSequenced 0 log
  pub pages :
      (after : Option ℕ) (limit : ℕ)
      → store.query_entries_after region after limit ≡ take limit (behind after log)
  pub readable : All (IsReadable store payload) log
