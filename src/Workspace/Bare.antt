-- ===== src/Workspace/Bare.antt =====
-- What a fold makes of the cards when the generations are left out: one step to a journal entry.
pub mod Pages
use texo.Base.{
  ℕ, ◌+◌, ◌≡◌, refl, ap, sym, ◌∙◌, Bool, true, false, Option, none, some, List, [], ◌∷◌, ◌||◌,
  if◌then◌else◌, is_some, fold, All, last?, arith, ok, ◌⊎◌, inl, inr, Bool-cases, Option-cases, ◌<◌,
  length,
}
use texo.Base.Text.{Text, text_ord}
use texo.Base.Map.{
  BTreeMap, get, insert, contains_key, modify, map_values, insert-map_values, modify-map_values,
  modify_unseen, contains_key-map_values,
}
use texo.Events.Payloads.{Event, EventKind}
use texo.Journal.{IndexEntry, JournalRead, IsReadable, last_seq}
use texo.Journal.Paging.{Flow, next}
use texo.Workspace.Types.{WorkspaceCache, WorkspaceView, CachedCard, CardFamily, family_of}
use texo.Workspace.View.{slot_card}
use texo.Workspace.Fold.{
  is_relevant, default_card, apply_card, fold_event, FoldState, note_prior, fold_entries,
  move_frontier, fold_page,
}

abbrev pub BareCards : Type 0
BareCards = BTreeMap Text CachedCard

-- The cards of a cache without their generations.
abbrev pub bare : WorkspaceCache → BareCards
bare cache = map_values slot_card cache.cards

-- An event of a card entity, at the card's place in the map.
unfoldable pub bare_event : BareCards → Text → CardFamily → EventKind → Event → BareCards
bare_event cards entity family kind event =
    if is_relevant family kind
    then modify
        (if contains_key cards entity then cards else insert cards entity (default_card family))
        entity (apply_card family event)
    else cards

unfoldable pub bare_entry : (IndexEntry → Event) → BareCards → IndexEntry → BareCards
bare_entry payload cards e = elim (family_of e.entity) [
  | none ↦ cards
  | some family ↦ bare_event cards e.entity family e.event_kind (payload e)
]

pub fold_event-bare :
    (cache : WorkspaceCache) (entity : Text) (family : CardFamily) (kind : EventKind) (e : Event)
    → bare (fold_event cache entity family kind e) ≡ bare_event (bare cache) entity family kind e
unfolding fold_event bare_event
fold_event-bare cache entity family kind e =
    let start : ℕ × CachedCard = (0, default_card family) in
    let fresh = insert cache.cards entity start in
    let change : ℕ × CachedCard → ℕ × CachedCard = λ slot. (slot.0, apply_card family e slot.1) in
    ground (
      arith,
      modify-map_values slot_card cache.cards entity change (apply_card family e) (λ v. refl),
      modify-map_values slot_card fresh entity change (apply_card family e) (λ v. refl),
      insert-map_values slot_card cache.cards entity start,
      contains_key-map_values slot_card cache.cards entity,
    )

fold_event_rest :
    (cache : WorkspaceCache) (entity : Text) (family : CardFamily) (kind : EventKind) (e : Event)
    → let c = fold_event cache entity family kind e in
      (c.frontier ≡ cache.frontier) × (c.view ≡ cache.view)
unfolding fold_event
fold_event_rest cache entity family kind e = ground arith

-- What the page loop does to the cards, the frontier and the view, and whether it met an entity
-- that has a card.
pub record Seen : Type 0 where
  pub cards : BareCards
  pub frontier : ℕ
  pub view : Option WorkspaceView
  pub touched : Bool

abbrev pub is_nonempty : BTreeMap Text ℕ → Bool
is_nonempty [] = false
is_nonempty (_ ∷ _) = true

abbrev pub seen : FoldState → Seen
seen st = record {
  cards = bare st.cache;
  frontier = st.cache.frontier;
  view = st.cache.view;
  touched = is_nonempty st.prior_generations;
}

-- The same for one entry.
abbrev pub see : (IndexEntry → Event) → Seen → IndexEntry → Seen
see payload s e = record {
  cards = bare_entry payload s.cards e;
  frontier = e.global_sequence;
  view = s.view;
  touched = s.touched || is_some (family_of e.entity);
}

-- The entries of a page leave the frontier where it is.
abbrev pub see_entry : (IndexEntry → Event) → Seen → IndexEntry → Seen
see_entry payload s e = record s {
  cards = bare_entry payload s.cards e;
  touched = s.touched || is_some (family_of e.entity);
}

insert_nonempty : (m : BTreeMap Text ℕ) (k : Text) (v : ℕ) → is_nonempty (insert m k v) ≡ true
unfolding insert
insert_nonempty [] k v = refl
insert_nonempty ((j, w) ∷ m) k v = ground arith

contains_nonempty :
    (m : BTreeMap Text ℕ) (k : Text) → contains_key m k ≡ true → is_nonempty m ≡ true
unfolding contains_key
contains_nonempty [] k h = cc
contains_nonempty (p ∷ m) k h = refl

note_prior_lem :
    (st : FoldState) (entity : Text)
    → ((note_prior st entity).cache ≡ st.cache)
      × (is_nonempty (note_prior st entity).prior_generations ≡ true)
unfolding note_prior
note_prior_lem st entity = elim (Bool-cases (contains_key st.prior_generations entity)) [
  | inl old ↦ rw old (refl, contains_nonempty st.prior_generations entity old)
  | inr new ↦ rw new (refl, insert_nonempty st.prior_generations entity _)
]

-- The state after one entry of a card family.
abbrev entry_state : (IndexEntry → Event) → FoldState → IndexEntry → CardFamily → FoldState
entry_state payload st entry family =
    let st' = note_prior st entry.entity in
    record st' { cache = fold_event st'.cache entry.entity family entry.event_kind (payload entry) }

card_seen :
    (payload : IndexEntry → Event) (st : FoldState) (entry : IndexEntry) (family : CardFamily)
    → family_of entry.entity ≡ some family
    → seen (entry_state payload st entry family) ≡ see_entry payload (seen st) entry
unfolding bare_entry
card_seen payload st entry family h =
    let c = (note_prior st entry.entity).cache in
    ground (
      arith,
      note_prior_lem st entry.entity,
      fold_event-bare c entry.entity family entry.event_kind (payload entry),
      fold_event_rest c entry.entity family entry.event_kind (payload entry),
    )

module _ (store : JournalRead) (payload : IndexEntry → Event) where
  skip_step :
      (st : FoldState) (entry : IndexEntry) (page : List IndexEntry)
      → family_of entry.entity ≡ none
      → (fold_entries store st (entry ∷ page) ≡ fold_entries store st page)
        × (seen st ≡ see_entry payload (seen st) entry)
  unfolding fold_entries bare_entry
  skip_step st entry page h = (rw (h, fold_entries), ground arith)

  card_step :
      (st : FoldState) (entry : IndexEntry) (page : List IndexEntry) (family : CardFamily)
      → family_of entry.entity ≡ some family
      → IsReadable store payload entry
      → (fold_entries store st (entry ∷ page)
          ≡ fold_entries store (entry_state payload st entry family) page)
        × (seen (entry_state payload st entry family) ≡ see_entry payload (seen st) entry)
  unfolding fold_entries bare_entry
  card_step st entry page family h r =
      (rw (h, fold_entries) (rw (r.0, fold_entries)), card_seen payload st entry family h)

  -- The entries of a readable page are gone through one by one.
  pub fold_entries_lem :
      (page : List IndexEntry) (st : FoldState)
      → All (IsReadable store payload) page
      → (st' : FoldState) × (fold_entries store st page ≡ next st')
        × (seen st' ≡ fold (see_entry payload) (seen st) page)
  unfolding fold_entries
  fold_entries_lem [] st h = (st, refl, refl)
  fold_entries_lem (entry ∷ page) st h = elim (Option-cases (family_of entry.entity)) [
    | inl other ↦
        (let (runs, same) = skip_step st entry page other in
          let (st', ran, seen') = fold_entries_lem page st h.1 in
          (st', runs ∙ ran, seen' ∙ ap (λ t. fold (see_entry payload) t page) same))
    | inr (family, card) ↦
        (let (runs, same) = card_step st entry page family card h.0 in
          let (st', ran, seen') = fold_entries_lem page (entry_state payload st entry family) h.1 in
          (st', runs ∙ ran, seen' ∙ ap (λ t. fold (see_entry payload) t page) same))
  ]
