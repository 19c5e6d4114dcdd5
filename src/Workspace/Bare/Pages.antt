-- ===== src/Workspace/Bare/Pages.antt =====
-- Whole pages, and the whole of a fold, over the bare cards.
use mathlib.Core.Bool.{false≢true}
use texo.Base.{
  ℕ, ◌≡◌, refl, ap, sym, ◌∙◌, true, false, Option, none, some, List, [], ◌∷◌, ◌++◌, fold, All,
  arith, ok, inl, inr, Option-cases, ◌<◌, length, unwrap_or, ◌≢◌,
}
use texo.Base.Text.{Text, text_ord}
use texo.Base.Map.{BTreeMap, modify, modify_unseen}
use texo.Events.Payloads.{Event}
use texo.Journal.{IndexEntry, JournalRead, IsReadable, last_seq, Holds}
use texo.Journal.Paging.{next, page_limit, page_loop, page_loop_visits, page_loop_rest}
use texo.Workspace.Types.{WorkspaceCache, CachedCard, family_of, bump}
use texo.Workspace.View.{slot_card}
use texo.Workspace.Fold.{
  FoldState, FoldOutcome, move_frontier, fold_page, stamp, finish_fold, fold_after,
}
use texo.Workspace.Bare.{bare, bare_entry, Seen, seen, see, see_entry, fold_entries_lem}

-- A page's entries, and then its frontier, are the entries with the frontier moving along.
abbrev at_frontier : Seen → ℕ → Seen
at_frontier s n = record s { frontier = n }

see_page :
    (payload : IndexEntry → Event) (page : List IndexEntry) (s : Seen) (n : ℕ)
    → at_frontier (fold (see_entry payload) s page) (last_seq n page)
      ≡ fold (see payload) (at_frontier s n) page
see_page payload [] s n = refl
see_page payload (e ∷ page) s n = see_page payload page (see_entry payload s e) e.global_sequence

move_frontier_lem :
    (cache : WorkspaceCache) (page : List IndexEntry)
    → let c = move_frontier cache page in
      (c.cards ≡ cache.cards) × (c.view ≡ cache.view) × (c.frontier ≡ last_seq cache.frontier page)
unfolding move_frontier
move_frontier_lem cache [] = (refl, refl, refl)
move_frontier_lem cache (e ∷ []) = (refl, refl, refl)
move_frontier_lem cache (e ∷ e' ∷ page) = move_frontier_lem cache (e' ∷ page)

see_entry_frontier :
    (payload : IndexEntry → Event) (page : List IndexEntry) (s : Seen)
    → (fold (see_entry payload) s page).frontier ≡ s.frontier
see_entry_frontier payload [] s = refl
see_entry_frontier payload (e ∷ page) s = see_entry_frontier payload page (see_entry payload s e)

page_seen :
    (payload : IndexEntry → Event) (page : List IndexEntry) (st st' : FoldState)
    → seen st' ≡ fold (see_entry payload) (seen st) page
    → seen (record st' { cache = move_frontier st'.cache page }) ≡ fold (see payload) (seen st) page
page_seen payload page st st' h =
    moved
    ∙ ap (λ n. at_frontier (seen st') (last_seq n page))
        (ap (λ (s : Seen). s.frontier) h ∙ see_entry_frontier payload page (seen st))
    ∙ ap (λ s. at_frontier s (last_seq (seen st).frontier page)) h
    ∙ see_page payload page (seen st) (seen st).frontier
  where
    moved :
        seen (record st' { cache = move_frontier st'.cache page })
        ≡ at_frontier (seen st') (last_seq st'.cache.frontier page)
    moved = ground (arith, move_frontier_lem st'.cache page)

module _ (store : JournalRead) (payload : IndexEntry → Event) where
  pub fold_page_lem :
      (st : FoldState) (page : List IndexEntry)
      → All (IsReadable store payload) page
      → (st' : FoldState) × (fold_page store st page ≡ next st')
        × (seen st' ≡ fold (see payload) (seen st) page)
  unfolding fold_page
  fold_page_lem st page h =
      let cache = st.cache in
      let counted = record st {
        cache = record cache {
          counters = record (cache.counters) {
            discovery_entries_paged = bump cache.counters.discovery_entries_paged (length page);
          };
        };
      } in
      let (st', runs, seen') = fold_entries_lem store payload page counted h in
      (
        record st' { cache = move_frontier st'.cache page },
        rw (runs, fold_page),
        page_seen payload page counted st' seen',
      )

  -- Stamping generations changes no bare card, and neither the frontier nor the view.
  stamp_lem :
      (priors : BTreeMap Text ℕ) (cache : WorkspaceCache)
      → let c = (stamp store cache priors).1 in
        (bare c ≡ bare cache) × (c.frontier ≡ cache.frontier) × (c.view ≡ cache.view)
  unfolding stamp
  stamp_lem [] cache = (refl, refl, refl)
  stamp_lem ((entity, prior) ∷ rest) cache =
      let generation = unwrap_or (store.entity_generation entity) 0 in
      let mark : ℕ × CachedCard → ℕ × CachedCard = λ slot. (generation, slot.1) in
      ground (
        arith,
        stamp_lem rest (record cache { cards = modify cache.cards entity mark }),
        modify_unseen slot_card cache.cards entity mark (λ v. refl),
      )

  stamp-ne-no_delta :
      (priors : BTreeMap Text ℕ) (cache : WorkspaceCache)
      → (stamp store cache priors).0 ≢ FoldOutcome.no_delta
  unfolding stamp
  stamp-ne-no_delta [] cache h = cc
  stamp-ne-no_delta ((entity, prior) ∷ rest) cache h =
      let generation = unwrap_or (store.entity_generation entity) 0 in
      let mark : ℕ × CachedCard → ℕ × CachedCard = λ slot. (generation, slot.1) in
      ground
        (arith, stamp-ne-no_delta rest (record cache { cards = modify cache.cards entity mark }))

  finish_fold_lem :
      (st : FoldState)
      → let done = finish_fold store st in
        (bare done.1 ≡ bare st.cache)
        × (done.1.frontier ≡ st.cache.frontier)
        × (done.1.view ≡ st.cache.view)
        × (done.0 ≡ FoldOutcome.no_delta → (seen st).touched ≡ false)
  unfolding finish_fold
  finish_fold_lem st = split st.prior_generations refl
    where
      split :
          (priors : BTreeMap Text ℕ)
          → st.prior_generations ≡ priors
          → let done = finish_fold store st in
            (bare done.1 ≡ bare st.cache)
            × (done.1.frontier ≡ st.cache.frontier)
            × (done.1.view ≡ st.cache.view)
            × (done.0 ≡ FoldOutcome.no_delta → (seen st).touched ≡ false)
      split [] e = rw (e, finish_fold) (refl, refl, refl, λ _. refl)
      split (p ∷ ps) e =
          let l = stamp_lem (p ∷ ps) st.cache in
          rw (e, finish_fold) (l.0, l.1, l.2, λ k. absurd (stamp-ne-no_delta (p ∷ ps) st.cache k))

see_cards :
    (payload : IndexEntry → Event) (suf : List IndexEntry) (s : Seen)
    → let t = fold (see payload) s suf in
      (t.cards ≡ fold (bare_entry payload) s.cards suf)
      × (t.frontier ≡ last_seq s.frontier suf)
      × (t.view ≡ s.view)
see_cards payload [] s = (refl, refl, refl)
see_cards payload (e ∷ suf) s = see_cards payload suf (see payload s e)

touched_stays :
    (payload : IndexEntry → Event) (suf : List IndexEntry) (s : Seen)
    → s.touched ≡ true
    → (fold (see payload) s suf).touched ≡ true
touched_stays payload [] s h = h
touched_stays payload (e ∷ suf) s h = touched_stays payload suf (see payload s e) (ground arith)

-- Where no card entity was met, no card has changed.
untouched_cards :
    (payload : IndexEntry → Event) (suf : List IndexEntry) (s : Seen)
    → (fold (see payload) s suf).touched ≡ false
    → fold (bare_entry payload) s.cards suf ≡ s.cards
unfolding bare_entry
untouched_cards payload [] s h = refl
untouched_cards payload (e ∷ suf) s h = elim (Option-cases (family_of e.entity)) [
  | inl other ↦ untouched_cards payload suf (see payload s e) h ∙ ground arith
  | inr (family, card) ↦
      absurd (false≢true (sym h ∙ touched_stays payload suf (see payload s e) (ground arith)))
]

module _ (store : JournalRead) (region : Text) (payload : IndexEntry → Event)
    (log : List IndexEntry) (holds : Holds store region payload log) (fuel : ℕ)
    (enough : length log < fuel) where
  -- `fold_after` goes through the entries `suf`: what it returns and leaves.
  abbrev pub Folds : Option ℕ → WorkspaceCache → List IndexEntry → Type 0
  Folds after cache suf =
      (outcome : FoldOutcome) × (cache' : WorkspaceCache) × (fold_after fuel store region after
          cache
        ≡ (ok outcome, cache'))
      × (bare cache' ≡ fold (bare_entry payload) (bare cache) suf)
      × (cache'.frontier ≡ last_seq cache.frontier suf)
      × (cache'.view ≡ cache.view)
      × (outcome ≡ FoldOutcome.no_delta → bare cache' ≡ bare cache)

  abbrev start : WorkspaceCache → FoldState
  start cache = record { cache = cache; prior_generations = [] }

  abbrev query : Option ℕ → List IndexEntry
  query after = store.query_entries_after region after page_limit

  finished :
      (after : Option ℕ) (cache : WorkspaceCache) (suf : List IndexEntry) (st : FoldState)
      → page_loop query (fold_page store) fuel after (start cache) ≡ next st
      → seen st ≡ fold (see payload) (seen (start cache)) suf
      → Folds after cache suf
  finished after cache suf st ran same =
      let done = finish_fold store st in
      let (b, f, v, quiet) = finish_fold_lem store payload st in
      let (b', f', v') = see_cards payload suf (seen (start cache)) in
      let cards : bare done.1 ≡ fold (bare_entry payload) (bare cache) suf =
        b ∙ ap (λ (s : Seen). s.cards) same ∙ b' in
      (
        done.0,
        done.1,
        unfold fold_after in rw (ran, fold_after),
        cards,
        f ∙ ap (λ (s : Seen). s.frontier) same ∙ f',
        v ∙ ap (λ (s : Seen). s.view) same ∙ v',
        λ k.
            cards
            ∙ untouched_cards payload suf (seen (start cache))
                (sym (ap (λ (s : Seen). s.touched) same) ∙ quiet k),
      )

  -- From the start of the journal.
  pub fold_after_all : (cache : WorkspaceCache) → Folds none cache log
  fold_after_all cache =
      let (st, ran, same) =
        page_loop_visits query (fold_page store) seen (see payload) (IsReadable store payload)
          (fold_page_lem store payload) log holds.sequenced (λ after. holds.pages after page_limit)
          fuel (start cache) enough holds.readable in
      finished none cache log st ran same

  -- From the last entry of a prefix.
  pub fold_after_rest :
      (pre suf : List IndexEntry) (cache : WorkspaceCache)
      → log ≡ pre ++ suf
      → Folds (some (last_seq 0 pre)) cache suf
  fold_after_rest pre suf cache split =
      let (st, ran, same) =
        page_loop_rest query (fold_page store) seen (see payload) (IsReadable store payload)
          (fold_page_lem store payload) log holds.sequenced (λ after. holds.pages after page_limit)
          fuel pre suf (start cache) split enough holds.readable in
      finished (some (last_seq 0 pre)) cache suf st ran same
