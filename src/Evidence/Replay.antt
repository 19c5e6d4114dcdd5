-- ===== src/Evidence/Replay.antt =====
-- What the replay of evidence comes to.
use texo.Base.{ℕ, ◌≡◌, ◌<◌, refl, ap, ◌∙◌, List, ok, length, arith, fold, inl, inr}
use texo.Base.Text.{Text}
use texo.Events.Payloads.{Event}
use texo.Events.Coordinate.{scope_for_workspace}
use texo.Journal.{IndexEntry, JournalRead, Holds, IsReadable}
use texo.Journal.Paging.{next, page_limit}
use texo.Journal.Through.{upto}
use texo.Journal.Through.Loop.{through_loop_visits}
use texo.Evidence.{Scan, no_scan, scan_event, evidence_entry, join, after_scan, assemble_through}

abbrev pub scan_entry : (IndexEntry → Event) → Scan → IndexEntry → Scan
scan_entry payload scan e = scan_event scan (payload e) e.global_sequence

evidence_entry_lem :
    (store : JournalRead) (payload : IndexEntry → Event) (scan : Scan) (e : IndexEntry)
    → IsReadable store payload e
    → evidence_entry store scan e ≡ next (scan_entry payload scan e)
unfolding evidence_entry
evidence_entry_lem store payload scan e r = ground arith

-- For a store that holds the journal, and more fuel than it has entries: the evidence through a
-- frontier is the join of the scan of the entries at or below it.
pub evidence_replays :
    (store : JournalRead) (payload : IndexEntry → Event) (workspace_id : Text)
    (log : List IndexEntry)
    → Holds store (scope_for_workspace workspace_id) payload log
    → (fuel : ℕ) → length log < fuel
    → (frontier : ℕ)
    → assemble_through fuel store workspace_id frontier
      ≡ ok (join (fold (scan_entry payload) no_scan (upto frontier log)))
unfolding assemble_through
evidence_replays store payload workspace_id log holds fuel enough frontier =
    let (s, ends, same) =
      through_loop_visits
        (λ after. store.query_entries_after (scope_for_workspace workspace_id) after page_limit)
        frontier (evidence_entry store) (λ s. s) (scan_entry payload) (IsReadable store payload)
        (λ s e r. (scan_entry payload s e, evidence_entry_lem store payload s e r, refl)) log
        holds.sequenced (λ after. holds.pages after page_limit) fuel no_scan enough
        holds.readable in
    elim ends [ inl n ↦ ap after_scan n | inr t ↦ ap after_scan t ] ∙ ap (λ x. ok (join x)) same
