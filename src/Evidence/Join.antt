-- ===== src/Evidence/Join.antt =====
-- What the join of links and occurrences gives.
use texo.Base.{
  ℕ, ◌≡◌, ◌∙◌, sym, ap, subst, Bool, true, false, Option, none, some, List, [], ◌∷◌, ◌++◌, any, not,
  fold, arith, append-nil, append_assoc, Option-cases, refl, if◌then◌else◌, unwrap_or, Bool-cases,
  inl, inr,
}
use mathlib.Core.List.{Perm}
use mathlib.Core.Option
use Prim.Native.Nat.{Ordering}
use texo.Base.Order.{same_iff}
use texo.Base.Text.{Text, text_ord, text_eq}
use texo.Base.Number.{number_ord}
use texo.Base.Pairs.{pair_ord, compare_pair}
use texo.Base.Map.{BTreeMap, insert, get, get-insert, contains_key, map_values, get-map_values}
use texo.Base.Sort.{
  sort_by, IsSorted, IsTotal, sort_by-IsSorted, sort_by-perm, by_key, by_key-IsTotal,
}
use texo.Events.Payloads.{ClaimEvidenceLinkedV1, EvidenceOccurrence}
use texo.Evidence.{
  Scan, EvidenceProjection, ClaimEvidence, evidence_of, provenance, join_link, join, evidence_order,
}

-- A link whose occurrence the journal does not have.
abbrev pub is_dangling : Scan → ClaimEvidenceLinkedV1 × ℕ → Bool
is_dangling scan link = not (contains_key scan.occurrences (link.0).occurrence_id)

join_link-incomplete :
    (scan : Scan) (links : List (ClaimEvidenceLinkedV1 × ℕ)) (projection : EvidenceProjection)
    → (fold (join_link scan) projection links).incomplete
      ≡ (if projection.incomplete then true else any (is_dangling scan) links)
unfolding join_link contains_key
join_link-incomplete scan [] projection = ground arith
join_link-incomplete scan (l ∷ links) projection =
    join_link-incomplete scan links (join_link scan projection l) ∙ ground arith

-- The evidence of a link, if the journal has its occurrence.
abbrev pub found_of :
    Scan → ClaimEvidenceLinkedV1 × ℕ → Option (EvidenceOccurrence × ℕ) → List ClaimEvidence
found_of scan link none = []
found_of scan link (some found) =
    record {
      claim_id = (link.0).claim_id;
      occurrence = found.0;
      stance = (link.0).stance;
      method = (link.0).method;
      occurrence_sequence = found.1;
      link_sequence = link.1;
      reconciliation =
          Option.map provenance
            (get scan.reconciliations ((link.0).claim_id, (link.0).occurrence_id));
    }
    ∷ []

-- The evidence of the links of a claim whose occurrences the journal has.
abbrev pub evidence_for : Scan → Text → List (ClaimEvidenceLinkedV1 × ℕ) → List ClaimEvidence
evidence_for scan claim_id [] = []
evidence_for scan claim_id (link ∷ links) =
    let rest = evidence_for scan claim_id links in
    if text_eq (link.0).claim_id claim_id
    then found_of scan link (get scan.occurrences (link.0).occurrence_id) ++ rest
    else rest

-- What a map lists for a claim.
abbrev pub listed : BTreeMap Text (List ClaimEvidence) → Text → List ClaimEvidence
listed by_claim claim_id = unwrap_or (get by_claim claim_id) []

listed-insert :
    (m : BTreeMap Text (List ClaimEvidence)) (id claim_id : Text) (one : ClaimEvidence)
    → listed (insert m id (listed m id ++ (one ∷ []))) claim_id
      ≡ (if text_eq id claim_id then listed m claim_id ++ (one ∷ []) else listed m claim_id)
listed-insert m id claim_id one =
    ap (λ (found : Option (List ClaimEvidence)). unwrap_or found [])
      (get-insert m id claim_id (listed m id ++ (one ∷ [])))
    ∙ elim (Bool-cases (text_eq id claim_id)) [
      | inl level ↦ rw (level, (same_iff id claim_id).0 level) refl
      | inr other ↦ rw (other) refl
    ]

listed-join_link :
    (scan : Scan) (projection : EvidenceProjection) (link : ClaimEvidenceLinkedV1 × ℕ)
    (claim_id : Text)
    → listed (join_link scan projection link).by_claim claim_id ≡ (
        if text_eq (link.0).claim_id claim_id
        then listed projection.by_claim claim_id
          ++ found_of scan link (get scan.occurrences (link.0).occurrence_id)
        else listed projection.by_claim claim_id)
unfolding join_link
listed-join_link scan projection link claim_id =
    elim (Option-cases (get scan.occurrences (link.0).occurrence_id)) [
      | inl absent ↦
          rw (join_link, absent, append-nil (listed projection.by_claim claim_id)) (ground arith)
      | inr (found, there) ↦
          rw (join_link, there)
            (listed-insert projection.by_claim (link.0).claim_id claim_id
              (evidence_of scan.reconciliations link found))
    ]

listed-fold :
    (scan : Scan) (links : List (ClaimEvidenceLinkedV1 × ℕ)) (projection : EvidenceProjection)
    (claim_id : Text)
    → listed (fold (join_link scan) projection links).by_claim claim_id
      ≡ listed projection.by_claim claim_id ++ evidence_for scan claim_id links
listed-fold scan [] projection claim_id = sym (append-nil (listed projection.by_claim claim_id))
listed-fold scan (l ∷ links) projection claim_id =
    listed-fold scan links (join_link scan projection l) claim_id
    ∙ ap (λ xs. xs ++ evidence_for scan claim_id links)
        (listed-join_link scan projection l claim_id)
    ∙ elim (Bool-cases (text_eq (l.0).claim_id claim_id)) [
      | inl level ↦ rw (level) (append_assoc (listed projection.by_claim claim_id) _ _)
      | inr other ↦ rw (other) refl
    ]

listed-map_values :
    (m : BTreeMap Text (List ClaimEvidence)) (claim_id : Text)
    → listed (map_values (sort_by evidence_order) m) claim_id
      ≡ sort_by evidence_order (listed m claim_id)
unfolding sort_by
listed-map_values m claim_id =
    ap (λ (found : Option (List ClaimEvidence)). unwrap_or found [])
      (get-map_values (sort_by evidence_order) m claim_id)
    ∙ ground arith

evidence_order-IsTotal : IsTotal evidence_order
unfolding compare_pair
evidence_order-IsTotal =
    by_key-IsTotal {K = (Text × ℕ) × ℕ}
      (λ (e : ClaimEvidence). ((e.occurrence.path, e.occurrence.byte_range.start), e.link_sequence))

-- By path, then by the start of the range, then by the sequence of the link.
abbrev pub place_order : ClaimEvidence → ClaimEvidence → Ordering
place_order =
    by_key {K = (Text × ℕ) × ℕ}
      (λ (e : ClaimEvidence). ((e.occurrence.path, e.occurrence.byte_range.start), e.link_sequence))

-- A join is incomplete exactly if some link's occurrence is not there. It lists for every claim the
-- evidence of each of its links whose occurrence is there, once for each, and nothing else, by path,
-- then by the start of its range, then by the sequence of its link.
pub join_lem :
    (scan : Scan)
    → ((join scan).incomplete ≡ any (is_dangling scan) scan.links)
      × ((claim_id : Text)
          → IsSorted place_order (listed (join scan).by_claim claim_id)
            × Perm (listed (join scan).by_claim claim_id) (evidence_for scan claim_id scan.links))
unfolding join compare_pair get
join_lem scan =
    let start : EvidenceProjection = record { by_claim = []; incomplete = false } in
    (
      join_link-incomplete scan scan.links start,
      λ claim_id.
          let joined = (fold (join_link scan) start scan.links).by_claim in
          let e =
            listed-map_values joined claim_id
            ∙ ap (sort_by evidence_order) (listed-fold scan scan.links start claim_id) in
          (
            subst (IsSorted evidence_order) (sym e)
                (sort_by-IsSorted evidence_order-IsTotal (evidence_for scan claim_id scan.links)),
            subst (λ xs. Perm xs (evidence_for scan claim_id scan.links)) (sym e)
                (sort_by-perm evidence_order (evidence_for scan claim_id scan.links)),
          ),
    )
