-- ===== src/Workspace/Fold.antt =====
-- src/claims/workspace.rs: `fold_event` and `fold_after`.
use texo.Base.{
  ℕ, Bool, true, false, Option, none, some, List, [], ◌∷◌, ltb, if◌then◌else◌, unwrap_or, length,
  Result, ok, err, last?,
}
use texo.Base.Text.{Text, text_ord}
use texo.Base.Map.{BTreeMap, get, insert, contains_key, modify}
use texo.Events.Payloads.{Event, EventKind}
use texo.Claims.Card
use texo.Claims.Conflict
use texo.Claims.Source
use texo.Journal.{IndexEntry, JournalRead}
use texo.Journal.Paging.{Flow, next, stop, fail, page_limit, page_loop}
use texo.Workspace.Types.{WorkspaceCache, CachedCard, CardFamily, bump, family_of, hex32}

-- The kinds that a family registers.
unfoldable pub is_relevant : CardFamily → EventKind → Bool
is_relevant CardFamily.claim EventKind.claim_recorded = true
is_relevant CardFamily.claim EventKind.claim_superseded = true
is_relevant CardFamily.conflict EventKind.conflict_opened = true
is_relevant CardFamily.conflict EventKind.conflict_resolved = true
is_relevant CardFamily.source EventKind.source_observed = true
is_relevant _ _ = false

unfoldable pub default_card : CardFamily → CachedCard
default_card CardFamily.claim = CachedCard.claim Card.default
default_card CardFamily.conflict = CachedCard.conflict Conflict.default
default_card CardFamily.source = CachedCard.source Source.default

-- The last `match`. A card of another family is left alone, as a release build does; a debug
-- build asserts that there is none.
unfoldable pub apply_card : CardFamily → Event → CachedCard → CachedCard
apply_card CardFamily.claim event (CachedCard.claim card) =
    CachedCard.claim (Card.apply_event card event)
apply_card CardFamily.conflict event (CachedCard.conflict card) =
    CachedCard.conflict (Conflict.apply_event card event)
apply_card CardFamily.source event (CachedCard.source card) =
    CachedCard.source (Source.apply_event card event)
apply_card _ event card = card

unfoldable pub fold_event : WorkspaceCache → Text → CardFamily → EventKind → Event → WorkspaceCache
fold_event cache entity family kind event =
    if is_relevant family kind
    then (let cards =
          if contains_key cache.cards entity
          then cache.cards
          else insert cache.cards entity (0, default_card family) in
        record cache {
          cards = modify cards entity (λ slot. (slot.0, apply_card family event slot.1));
          counters = record (cache.counters) {
            folded_events = bump cache.counters.folded_events 1;
          };
        })
    else cache

-- The local variables of `fold_after` that live across pages: the cache that it mutates, and the
-- generation that each touched entity had before.
pub record FoldState : Type 0 where
  pub cache : WorkspaceCache
  pub prior_generations : BTreeMap Text ℕ

-- `if !prior_generations.contains_key(entity) { … insert(entity, prior) }`.
unfoldable pub note_prior : FoldState → Text → FoldState
note_prior st entity =
    if contains_key st.prior_generations entity
    then st
    else (let prior : ℕ = elim (get st.cache.cards entity) [ none ↦ 0 | some slot ↦ slot.0 ] in
        record st { prior_generations = insert st.prior_generations entity prior })

-- `for entry in &page`, with `?` on `read_raw`: the state reached stays behind an error.
unfoldable pub fold_entries : JournalRead → FoldState → List IndexEntry → Flow FoldState
unfolding note_prior
fold_entries store st [] = next st
fold_entries store st (entry ∷ page) = elim (family_of entry.entity) [
  | none ↦ fold_entries store st page
  | some family ↦
      (let st' = note_prior st entry.entity in
        elim (store.read_raw entry.event_id) [
          | err what ↦ fail what st'
          | ok event ↦
              (let cache = fold_event st'.cache entry.entity family entry.event_kind event in
                fold_entries store (record st' { cache = cache }) page)
        ])
]

-- The frontier and the anchor move to the last entry of a page.
unfoldable pub move_frontier : WorkspaceCache → List IndexEntry → WorkspaceCache
move_frontier cache page = elim (last? page) [
  | none ↦ cache
  | some last ↦ record cache {
    frontier = last.global_sequence;
    anchor_event_id_hex = hex32 last.event_id;
  }
]

-- The body of the page loop of `fold_after`.
unfoldable pub fold_page : JournalRead → FoldState → List IndexEntry → Flow FoldState
fold_page store st page =
    let cache = st.cache in
    let counted = record cache {
      counters = record (cache.counters) {
        discovery_entries_paged = bump cache.counters.discovery_entries_paged (length page);
      };
    } in
    elim (fold_entries store (record st { cache = counted }) page) [
      | next st' ↦ next (record st' { cache = move_frontier st'.cache page })
      | stop st' ↦ stop st'
      | fail what st' ↦ fail what st'
    ]

pub data FoldOutcome : Type 0 where
  no_delta folded generation_regressed : FoldOutcome

-- `for (entity, prior) in &prior_generations`: stamp the generations, or see one that went back.
unfoldable pub stamp : JournalRead → WorkspaceCache → BTreeMap Text ℕ → FoldOutcome × WorkspaceCache
stamp store cache [] = (FoldOutcome.folded, cache)
stamp store cache ((entity, prior) ∷ rest) =
    let generation = unwrap_or (store.entity_generation entity) 0 in
    elim (ltb generation prior) [
      | true ↦ (FoldOutcome.generation_regressed, cache)
      | false ↦
          stamp store
            (record cache { cards = modify cache.cards entity (λ slot. (generation, slot.1)) }) rest
    ]

unfoldable pub finish_fold : JournalRead → FoldState → FoldOutcome × WorkspaceCache
unfolding stamp
finish_fold store st = elim st.prior_generations [
  | [] ↦ (FoldOutcome.no_delta, st.cache)
  | p ∷ ps ↦ stamp store st.cache (p ∷ ps)
]

-- `fold_after`; the fuel bounds the pages.
unfoldable pub fold_after :
    ℕ → JournalRead → Text → Option ℕ → WorkspaceCache → Result Text FoldOutcome × WorkspaceCache
fold_after fuel store region initial_after cache =
    elim (page_loop (λ after. store.query_entries_after region after page_limit) (fold_page store)
      fuel initial_after (record { cache = cache; prior_generations = [] })) [
        | next st ↦ (let (outcome, cache') = finish_fold store st in (ok outcome, cache'))
        | stop st ↦ (let (outcome, cache') = finish_fold store st in (ok outcome, cache'))
        | fail what st ↦ (err what, st.cache)
      ]
