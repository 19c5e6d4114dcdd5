-- ===== src/Examples/Evidence.antt =====
-- The evidence of a small journal, whose link stands before its occurrence.
use texo.Base.{◌≡◌, [], ◌∷◌, ◌++◌, any, ok, arith, fold}
use mathlib.Core.List.{Perm}
use texo.Base.Text.{Text, bytes, text_ord}
use texo.Base.Sort.{IsSorted}
use texo.Journal.Through.{upto}
use texo.Evidence.{Scan, no_scan, join, assemble_through}
use texo.Evidence.Join.{is_dangling, listed, place_order, evidence_for, join_lem}
use texo.Evidence.Replay.{scan_entry, evidence_replays}
use texo.Examples.Data.{demo, payload, early, late, latest, store_of, linked, occurrence}
use texo.Examples.Replays.{latest_store}

evidence_replays_example :
    assemble_through 9 (store_of ((early ++ late) ++ latest)) demo 12
    ≡ ok (join (fold (scan_entry payload) no_scan (upto 12 ((early ++ late) ++ latest))))
evidence_replays_example =
    evidence_replays (store_of ((early ++ late) ++ latest)) payload demo ((early ++ late) ++ latest)
      latest_store 9 (omega arith) 12

abbrev link_first : Scan
link_first = record {
  occurrences = (bytes "occ_1", (occurrence, 12)) ∷ [];
  reconciliations = [];
  links = (linked, 11) ∷ [];
}

join_lem_example :
    ((join link_first).incomplete ≡ any (is_dangling link_first) link_first.links)
    × ((claim_id : Text)
        → IsSorted place_order (listed (join link_first).by_claim claim_id)
          × Perm
              (listed (join link_first).by_claim claim_id)
              (evidence_for link_first claim_id link_first.links))
join_lem_example = join_lem link_first
