-- ===== src/Temporal/Replay.antt =====
-- What the replay of snapshot order comes to.
use texo.Base.{
  ℕ, ◌≡◌, ◌<◌, Option, none, or_else, ◌&&◌, if◌then◌else◌, refl, ap, sym, ◌∙◌, false, some, List,
  [], ◌∷◌, ◌++◌, Result, ok, length, arith, fold, inl, inr, fold-append, append-nil, subst,
  Bool-cases,
}
use texo.Base.Text.{Text, text_ord, text_eq}
use texo.Base.Order.{same, same_iff}
use texo.Base.Pairs.{pair_ord, compare_pair}
use texo.Base.Map.{get, or_insert, contains_key, get-or_insert}
use texo.Events.Payloads.{Event, TemporalRelation}
use texo.Events.Coordinate.{scope_for_workspace}
use texo.Journal.{IndexEntry, JournalRead, Holds, IsReadable, last_seq, IsSequenced}
use texo.Journal.Paging.{next, page_limit}
use texo.Journal.Through.{upto, upto-split}
use texo.Journal.Through.Loop.{through_loop_visits}
use texo.Temporal.{
  TemporalProjection, compare, record_fact, temporal_entry, assemble_through, outcome,
}

-- An event's part in the order.
abbrev note_event : TemporalProjection → Event → TemporalProjection
note_event projection (Event.source_snapshot_relation fact) = record_fact projection fact
note_event projection _ = projection

abbrev pub note_fact : (IndexEntry → Event) → TemporalProjection → IndexEntry → TemporalProjection
note_fact payload projection e = note_event projection (payload e)

temporal_entry_lem :
    (store : JournalRead) (payload : IndexEntry → Event) (projection : TemporalProjection)
    (e : IndexEntry)
    → IsReadable store payload e
    → temporal_entry store projection e ≡ next (note_fact payload projection e)
unfolding temporal_entry
temporal_entry_lem store payload projection e r = ground arith

pub replays_fold :
    (store : JournalRead) (payload : IndexEntry → Event) (workspace_id : Text)
    (log : List IndexEntry)
    → Holds store (scope_for_workspace workspace_id) payload log
    → (fuel : ℕ) → length log < fuel
    → (frontier : ℕ)
    → assemble_through fuel store workspace_id frontier
      ≡ ok (fold (note_fact payload) [] (upto frontier log))
unfolding assemble_through
replays_fold store payload workspace_id log holds fuel enough frontier =
    let (p, ends, same) =
      through_loop_visits
        (λ after. store.query_entries_after (scope_for_workspace workspace_id) after page_limit)
        frontier (temporal_entry store) (λ p. p) (note_fact payload) (IsReadable store payload)
        (λ p e r. (note_fact payload p e, temporal_entry_lem store payload p e r, refl)) log
        holds.sequenced (λ after. holds.pages after page_limit) fuel [] enough holds.readable in
    elim ends [ inl n ↦ ap outcome n | inr t ↦ ap outcome t ] ∙ ap ok same

-- The relation of a pair that an event records.
abbrev pub relation_in : Event → Text × Text → Option TemporalRelation
relation_in (Event.source_snapshot_relation fact) (left, right) =
    if text_eq fact.left_snapshot_id left && text_eq fact.right_snapshot_id right
    then some fact.relation
    else none
relation_in _ pair = none

-- The first relation of a pair that the events of some entries record.
abbrev pub first_relation :
    (IndexEntry → Event) → List IndexEntry → Text × Text → Option TemporalRelation
first_relation payload [] pair = none
first_relation payload (e ∷ log) pair =
    or_else (relation_in (payload e) pair) (first_relation payload log pair)

same_pair : (k j : Text × Text) → same k j ≡ (text_eq k.0 j.0 && text_eq k.1 j.1)
unfolding compare_pair
same_pair k j = ground arith

get-note_fact :
    (p : TemporalProjection) (event : Event) (left right : Text)
    → get (note_event p event) (left, right)
      ≡ or_else (get p (left, right)) (relation_in event (left, right))
unfolding record_fact contains_key
get-note_fact p (Event.source_snapshot_relation fact) left right =
    let k : Text × Text = (fact.left_snapshot_id, fact.right_snapshot_id) in
    get-or_insert p k (left, right) fact.relation
    ∙ rw (same_pair k (left, right)) (elim (Bool-cases (same k (left, right))) [
      | inl level ↦
          (let at : get p k ≡ get p (left, right) =
              ap (get p) ((same_iff k (left, right)).0 level) in
            rw (at) (ground (arith, level, same_pair k (left, right))))
      | inr other ↦ ground (arith, other, same_pair k (left, right))
    ])
get-note_fact p (Event.source_observed _) left right = ground arith
get-note_fact p (Event.claim_recorded _) left right = ground arith
get-note_fact p (Event.claim_superseded _) left right = ground arith
get-note_fact p (Event.conflict_opened _) left right = ground arith
get-note_fact p (Event.conflict_resolved _) left right = ground arith
get-note_fact p (Event.evidence_occurrence_recorded _) left right = ground arith
get-note_fact p (Event.claim_evidence_linked _) left right = ground arith
get-note_fact p (Event.evidence_reconciliation_accepted _) left right = ground arith
get-note_fact p (Event.other _) left right = ground arith

or_else_assoc :
    (a b c : Option TemporalRelation) → or_else (or_else a b) c ≡ or_else a (or_else b c)
or_else_assoc a b c = ground arith

get-fold :
    (payload : IndexEntry → Event) (log : List IndexEntry) (p : TemporalProjection)
    (left right : Text)
    → get (fold (note_fact payload) p log) (left, right)
      ≡ or_else (get p (left, right)) (first_relation payload log (left, right))
get-fold payload [] p left right = ground arith
get-fold payload (e ∷ log) p left right =
    get-fold payload log (note_fact payload p e) left right
    ∙ ap (λ r. or_else r (first_relation payload log (left, right)))
        (get-note_fact p (payload e) left right)
    ∙ or_else_assoc (get p (left, right)) (relation_in (payload e) (left, right))
        (first_relation payload log (left, right))

-- For a store that holds the journal, and more fuel than it has entries: the replay through a
-- frontier succeeds, and has for each directed pair of snapshots the first relation that an entry at
-- or below the frontier records, and none where there is no such entry.
pub temporal_replays :
    (store : JournalRead) (payload : IndexEntry → Event) (workspace_id : Text)
    (log : List IndexEntry)
    → Holds store (scope_for_workspace workspace_id) payload log
    → (fuel : ℕ) → length log < fuel
    → (frontier : ℕ)
    → (p : TemporalProjection) × (assemble_through fuel store workspace_id frontier ≡ ok p)
      × ((left right : Text)
          → get p (left, right) ≡ first_relation payload (upto frontier log) (left, right))
unfolding get
temporal_replays store payload workspace_id log holds fuel enough frontier = (
  fold (note_fact payload) [] (upto frontier log),
  replays_fold store payload workspace_id log holds fuel enough frontier,
  λ left right. get-fold payload (upto frontier log) [] left right,
)

or_insert_keeps :
    (m : TemporalProjection) (k j : Text × Text) (v w : TemporalRelation)
    → get m j ≡ some w
    → get (or_insert m k v) j ≡ some w
unfolding contains_key
or_insert_keeps m k j v w h = elim (Bool-cases (same k j)) [
  | inl level ↦
      (let at : get m k ≡ some w = ap (get m) ((same_iff k j).0 level) ∙ h in
        get-or_insert m k j v ∙ ground arith)
  | inr other ↦ get-or_insert m k j v ∙ ground arith
]

upto_all : (log : List IndexEntry) → IsSequenced 0 log → upto (last_seq 0 log) log ≡ log
upto_all log h =
    sym (ap (upto (last_seq 0 log)) (append-nil log))
    ∙ upto-split log [] 0 (subst (IsSequenced 0) (sym (append-nil log)) h)

ok-injective :
    {p q : TemporalProjection} → ◌≡◌ {A = Result Text TemporalProjection} (ok p) (ok q) → p ≡ q
ok-injective h = ground arith

get-note_event :
    (p : TemporalProjection) (event : Event) (pair : Text × Text) (relation : TemporalRelation)
    → get p pair ≡ some relation
    → get (note_event p event) pair ≡ some relation
unfolding record_fact
get-note_event p (Event.source_snapshot_relation fact) pair relation h =
    or_insert_keeps p (fact.left_snapshot_id, fact.right_snapshot_id) pair fact.relation relation h
get-note_event p (Event.source_observed _) pair relation h = h
get-note_event p (Event.claim_recorded _) pair relation h = h
get-note_event p (Event.claim_superseded _) pair relation h = h
get-note_event p (Event.conflict_opened _) pair relation h = h
get-note_event p (Event.conflict_resolved _) pair relation h = h
get-note_event p (Event.evidence_occurrence_recorded _) pair relation h = h
get-note_event p (Event.claim_evidence_linked _) pair relation h = h
get-note_event p (Event.evidence_reconciliation_accepted _) pair relation h = h
get-note_event p (Event.other _) pair relation h = h

fold-note_fact :
    (payload : IndexEntry → Event) (log : List IndexEntry) (p : TemporalProjection)
    (pair : Text × Text) (relation : TemporalRelation)
    → get p pair ≡ some relation
    → get (fold (note_fact payload) p log) pair ≡ some relation
fold-note_fact payload [] p pair relation h = h
fold-note_fact payload (e ∷ log) p pair relation h =
    fold-note_fact payload log (note_fact payload p e) pair relation
      (get-note_event p (payload e) pair relation h)

compare_direct :
    (q : TemporalProjection) (left right : Text) (relation : TemporalRelation)
    → text_eq left right ≡ false
    → get q (left, right) ≡ some relation
    → compare q left right ≡ relation
unfolding compare
compare_direct q left right relation apart had = ground arith

-- A fact of two different snapshots that the replay of a journal has, in its direction, is what
-- comparing the two gives in the replay of every longer journal, both through their ends, for stores
-- that hold them and with more fuel than they have entries.
pub recorded_order_stays :
    (store now : JournalRead) (payload : IndexEntry → Event) (workspace_id : Text)
    (pre suf : List IndexEntry)
    → Holds store (scope_for_workspace workspace_id) payload pre
    → Holds now (scope_for_workspace workspace_id) payload (pre ++ suf)
    → (fuel fuel' : ℕ) → length pre < fuel
    → length (pre ++ suf) < fuel'
    → (left right : Text) (relation : TemporalRelation) (p : TemporalProjection)
    → text_eq left right ≡ false
    → assemble_through fuel store workspace_id (last_seq 0 pre) ≡ ok p
    → get p (left, right) ≡ some relation
    → (q : TemporalProjection) × (assemble_through fuel' now workspace_id (last_seq 0 (pre ++ suf))
        ≡ ok q)
      × (compare q left right ≡ relation)
recorded_order_stays store now payload w pre suf held holds fuel fuel' few many left right relation
      p apart earlier had =
    let seen : fold (note_fact payload) [] pre ≡ p = ok-injective (
      sym (ap (λ l. ok (fold (note_fact payload) [] l)) (upto_all pre held.sequenced))
      ∙ sym (replays_fold store payload w pre held fuel few (last_seq 0 pre))
      ∙ earlier) in
    let later = fold-note_fact payload suf p (left, right) relation had in
    let found : get (fold (note_fact payload) [] (pre ++ suf)) (left, right) ≡ some relation =
      ap (λ r. get r (left, right)) (fold-append (note_fact payload) [] pre suf)
      ∙ ap (λ r. get (fold (note_fact payload) r suf) (left, right)) seen
      ∙ later in
    (
      fold (note_fact payload) [] (pre ++ suf),
      replays_fold now payload w (pre ++ suf) holds fuel' many (last_seq 0 (pre ++ suf))
          ∙ ap (λ l. ok (fold (note_fact payload) [] l)) (upto_all (pre ++ suf) holds.sequenced),
      compare_direct (fold (note_fact payload) [] (pre ++ suf)) left right relation apart found,
    )
