-- ===== src/Evidence.antt =====
-- src/claims/evidence.rs: the evidence that the journal links to claims.
pub mod Replay
pub mod Join
use mathlib.Core.Option
use texo.Base.{
  ℕ, Bool, true, false, Option, none, some, List, [], ◌∷◌, ◌++◌, Result, ok, err, fold, unwrap_or,
  Ordering,
}
use texo.Base.Order.{cmp, then_with}
use texo.Base.Text.{Text, text_ord}
use texo.Base.Number.{number_ord}
use texo.Base.Pairs.{pair_ord}
use texo.Base.Map.{BTreeMap, get, insert, or_insert, map_values, remove}
use texo.Base.Sort.{sort_by}
use texo.Events.Payloads.{
  Event, EventKind, EvidenceOccurrence, EvidenceStance, EvidenceLinkMethod,
  EvidenceOccurrenceRecordedV1, ClaimEvidenceLinkedV1, EvidenceReconciliationAcceptedV1,
}
use texo.Events.Coordinate.{scope_for_workspace}
use texo.Journal.{IndexEntry, JournalRead}
use texo.Journal.Paging.{Flow, next, stop, fail, page_limit, page_loop}
use texo.Journal.Through.{through}

pub record ReconciliationProvenance : Type 0 where
  pub score_ppm : ℕ
  pub judge_fingerprint : Text
  pub cache_key_hex : Text
  pub policy_version : Text
  pub observed_at_ms : ℕ
  pub acceptance_sequence : ℕ

pub record ClaimEvidence : Type 0 where
  pub claim_id : Text
  pub occurrence : EvidenceOccurrence
  pub stance : EvidenceStance
  pub method : EvidenceLinkMethod
  pub occurrence_sequence : ℕ
  pub link_sequence : ℕ
  pub reconciliation : Option ReconciliationProvenance

pub record EvidenceProjection : Type 0 where
  pub by_claim : BTreeMap Text (List ClaimEvidence)
  pub incomplete : Bool

-- `take_claim`, `for_claim` and `is_incomplete`.
unfoldable for_claim : EvidenceProjection → Text → List ClaimEvidence
for_claim projection claim_id = unwrap_or (get projection.by_claim claim_id) []

unfoldable take_claim : EvidenceProjection → Text → List ClaimEvidence × EvidenceProjection
unfolding for_claim
take_claim projection claim_id = (
  for_claim projection claim_id,
  record projection { by_claim = remove projection.by_claim claim_id },
)

-- The local variables of the scan.
pub record Scan : Type 0 where
  pub occurrences : BTreeMap Text (EvidenceOccurrence × ℕ)
  pub reconciliations : BTreeMap (Text × Text) (EvidenceReconciliationAcceptedV1 × ℕ)
  pub links : List (ClaimEvidenceLinkedV1 × ℕ)

abbrev pub no_scan : Scan
no_scan = record { occurrences = []; reconciliations = []; links = [] }

-- The three branches on an event: the last occurrence and the first acceptance stay.
unfoldable pub scan_event : Scan → Event → ℕ → Scan
scan_event scan (Event.evidence_occurrence_recorded payload) sequence = record scan {
  occurrences =
      insert scan.occurrences payload.occurrence.occurrence_id (payload.occurrence, sequence);
}
scan_event scan (Event.claim_evidence_linked payload) sequence = record scan {
  links = scan.links ++ ((payload, sequence) ∷ []);
}
scan_event scan (Event.evidence_reconciliation_accepted payload) sequence = record scan {
  reconciliations =
      or_insert scan.reconciliations (payload.claim_id, payload.occurrence_id) (payload, sequence);
}
scan_event scan _ sequence = scan

abbrev is_evidence : EventKind → Bool
is_evidence EventKind.evidence_occurrence_recorded = true
is_evidence EventKind.claim_evidence_linked = true
is_evidence EventKind.evidence_reconciliation_accepted = true
is_evidence _ = false

-- `decode` gives a payload of the kind that it is asked for.
abbrev decodes : EventKind → Event → Bool
decodes EventKind.evidence_occurrence_recorded (Event.evidence_occurrence_recorded _) = true
decodes EventKind.claim_evidence_linked (Event.claim_evidence_linked _) = true
decodes EventKind.evidence_reconciliation_accepted (Event.evidence_reconciliation_accepted _) = true
decodes _ _ = false

-- The text of a `TexoError::Decode`.
abbrev undecodable : Text
undecodable = []

-- The body of the loop, for an entry that is not past the frontier.
unfoldable pub evidence_entry : JournalRead → Scan → IndexEntry → Flow Scan
unfolding scan_event
evidence_entry store scan entry = elim (is_evidence entry.event_kind) [
  | false ↦ next scan
  | true ↦ elim (store.read_raw entry.event_id) [
    | err what ↦ fail what scan
    | ok event ↦ elim (decodes entry.event_kind event) [
      | true ↦ next (scan_event scan event entry.global_sequence)
      | false ↦ fail undecodable scan
    ]
  ]
]

abbrev provenance : EvidenceReconciliationAcceptedV1 × ℕ → ReconciliationProvenance
provenance (accepted, acceptance_sequence) = record {
  score_ppm = accepted.score_ppm;
  judge_fingerprint = accepted.judge_fingerprint;
  cache_key_hex = accepted.cache_key_hex;
  policy_version = accepted.policy_version;
  observed_at_ms = accepted.observed_at_ms;
  acceptance_sequence = acceptance_sequence;
}

abbrev pub evidence_of :
    BTreeMap (Text × Text) (EvidenceReconciliationAcceptedV1 × ℕ)
    → ClaimEvidenceLinkedV1 × ℕ
    → EvidenceOccurrence × ℕ
    → ClaimEvidence
evidence_of reconciliations (link, link_sequence) (occurrence, occurrence_sequence) = record {
  claim_id = link.claim_id;
  occurrence = occurrence;
  stance = link.stance;
  method = link.method;
  occurrence_sequence = occurrence_sequence;
  link_sequence = link_sequence;
  reconciliation = Option.map provenance (get reconciliations (link.claim_id, link.occurrence_id));
}

-- The loop of `join` over the links.
unfoldable pub join_link :
    Scan → EvidenceProjection → ClaimEvidenceLinkedV1 × ℕ → EvidenceProjection
join_link scan projection link = elim (get scan.occurrences (link.0).occurrence_id) [
  | none ↦ record projection { incomplete = true }
  | some found ↦
      (let claim_id = (link.0).claim_id in
        record projection {
          by_claim = insert projection.by_claim claim_id (
              unwrap_or (get projection.by_claim claim_id) []
              ++ (evidence_of scan.reconciliations link found ∷ []));
        })
]

-- By path, then by the start of the range, then by the sequence of the link.
abbrev pub evidence_order : ClaimEvidence → ClaimEvidence → Ordering
evidence_order left right =
    then_with
      (then_with (cmp left.occurrence.path right.occurrence.path)
        (number_ord.cmp left.occurrence.byte_range.start right.occurrence.byte_range.start))
      (number_ord.cmp left.link_sequence right.link_sequence)

unfoldable pub join : Scan → EvidenceProjection
unfolding join_link
join scan =
    let joined = fold (join_link scan) (record { by_claim = []; incomplete = false }) scan.links in
    record joined { by_claim = map_values (sort_by evidence_order) joined.by_claim }

abbrev pub after_scan : Flow Scan → Result Text EvidenceProjection
after_scan (next scan) = ok (join scan)
after_scan (stop scan) = ok (join scan)
after_scan (fail what scan) = err what

unfoldable pub assemble_through : ℕ → JournalRead → Text → ℕ → Result Text EvidenceProjection
assemble_through fuel store workspace_id frontier = after_scan (
    page_loop
      (λ after. store.query_entries_after (scope_for_workspace workspace_id) after page_limit)
      (through frontier (evidence_entry store)) fuel none no_scan)
