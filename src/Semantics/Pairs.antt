-- ===== src/Semantics/Pairs.antt =====
-- src/semantics/pipeline/candidate.rs: a page of candidate pairs, cut from the global sequence of
-- pairs of claims.
pub mod Space
pub mod Paging
use texo.Base.{
  ℕ, zero, suc, ◌+◌, ◌-◌, ◌*◌, ◌/◌, min, Bool, true, false, Option, none, some, List, [], ◌∷◌, ◌++◌,
  Result, ok, err, ◌>>=◌, if◌then◌else◌, ltb, leb, ◌==◌, not, length, map, get_elem?, unwrap_or,
  drop,
}
use mathlib.Core.Option
use texo.Base.Order.{le}
use texo.Base.Text.{Text, text_ord, text_eq}
use texo.Base.Number.{number_ord}
use texo.Base.Pairs.{pair_ord}
use texo.Base.Map.{BTreeMap, get, contains_key}
use texo.Events.Payloads.{TemporalRelation}
use texo.Events.Settlement.{RelationFailureClass}
use texo.Scores.{F32}
use texo.Workspace.Types.{u64_max}
use texo.Semantics.{
  Claims, ClaimView, RelationVerdict, PendingPair, SemanticsError, Embedder, embedding_text,
  sequence_rank, id_at, view_at,
}
use texo.Semantics.Cosine.{Floats, cosine_similarity}
use texo.Semantics.Policy.{RelateTemporalPolicy, compare_claims}

-- `saturating_mul` on numbers of 64 bits.
abbrev saturating_mul : ℕ → ℕ → ℕ
saturating_mul a b = min u64_max (a * b)

unfoldable pub pair_count : ℕ → ℕ
pair_count len = saturating_mul len (len - 1) / 2

-- A cluster and the positions of two of its members.
abbrev pub Position : Type 0
Position = ℕ × ℕ × ℕ

-- The loop over `left` in a cluster of `len` members, with `rows` rows left: a position, or the
-- offset that remains behind the rows.
seek_row : ℕ → ℕ → ℕ → ℕ → ℕ → Result ℕ Position
seek_row zero cluster_idx left len offset = err offset
seek_row (suc rows) cluster_idx left len offset =
    let row = len - left - 1 in
    let rest = seek_row rows cluster_idx (left + 1) len (offset - row) in
    if ltb offset row then ok (cluster_idx, left, left + 1 + offset) else rest

seek_from : ℕ → List (List ℕ) → ℕ → Option Position
seek_from cluster_idx [] offset = none
seek_from cluster_idx (cluster ∷ clusters) offset =
    elim (leb (pair_count (length cluster)) offset) [
      | true ↦ seek_from (cluster_idx + 1) clusters (offset - pair_count (length cluster))
      | false ↦ elim (seek_row (length cluster - 1) cluster_idx 0 (length cluster) offset) [
        | ok position ↦ some position
        | err remaining ↦ seek_from (cluster_idx + 1) clusters remaining
      ]
    ]

unfoldable pub seek_pair : List (List ℕ) → ℕ → Option Position
unfolding seek_row seek_from pair_count
seek_pair clusters offset = seek_from 0 clusters offset

-- The first cluster, of those from `cluster_idx` on, that has a pair.
first_pair : ℕ → List (List ℕ) → Option Position
first_pair cluster_idx [] = none
first_pair cluster_idx (cluster ∷ clusters) =
    let rest = first_pair (cluster_idx + 1) clusters in
    if leb 2 (length cluster) then some (cluster_idx, 0, 1) else rest

unfoldable pub next_pair : List (List ℕ) → ℕ → ℕ → ℕ → Option Position
unfolding first_pair
next_pair clusters cluster_idx left right =
    let len = length (unwrap_or (get_elem? clusters cluster_idx) []) in
    if ltb (right + 1) len
    then some (cluster_idx, left, right + 1)
    else if ltb (left + 2) len
    then some (cluster_idx, left + 1, left + 2)
    else first_pair (cluster_idx + 1) (drop (cluster_idx + 1) clusters)

abbrev pub Settled : Type 0
Settled = BTreeMap (Text × Text) RelationVerdict

-- `sequence_order`: by the commit sequence, then by the index.
abbrev pub sequence_order : Claims → ℕ → ℕ → ℕ × ℕ
sequence_order claims left right =
    if le {A = ℕ × ℕ} (sequence_rank (view_at claims left), left)
      (sequence_rank (view_at claims right), right)
    then (left, right)
    else (right, left)

abbrev pub order_by : Claims → ℕ → ℕ → Option TemporalRelation → ℕ × ℕ × Option RelationFailureClass
order_by claims left right none = let o = sequence_order claims left right in (o.0, o.1, none)
order_by claims left right (some TemporalRelation.same) =
    let o = sequence_order claims left right in (o.0, o.1, none)
order_by claims left right (some TemporalRelation.before) = (left, right, none)
order_by claims left right (some TemporalRelation.after) = (right, left, none)
order_by claims left right (some TemporalRelation.concurrent) =
    let o = sequence_order claims left right in
    (o.0, o.1, some RelationFailureClass.temporal_concurrent)
order_by claims left right (some TemporalRelation.unknown) =
    let o = sequence_order claims left right in
    (o.0, o.1, some RelationFailureClass.temporal_unknown)

unfoldable pub order_pair :
    Claims → ℕ → ℕ → Settled → RelateTemporalPolicy → ℕ × ℕ × Option RelationFailureClass
order_pair claims left right settled temporal =
    let left_id = id_at claims left in
    let right_id = id_at claims right in
    if contains_key settled (left_id, right_id)
    then (left, right, none)
    else if contains_key settled (right_id, left_id)
    then (right, left, none)
    else order_by claims left right (compare_claims temporal left_id right_id)

pub record PreparedPairs : Type 0 where
  pub pending : List PendingPair
  pub examined_pairs : ℕ
  pub next_cursor : Option ℕ
  pub claim_clusters : List ℕ

-- `(0..n).collect()`.
abbrev pub indices_from : ℕ → ℕ → List ℕ
indices_from zero first = []
indices_from (suc n) first = first ∷ indices_from n (first + 1)

abbrev pub vec_of : ℕ → ℕ → List ℕ
vec_of value zero = []
vec_of value (suc n) = value ∷ vec_of value n

module _ (f : Floats) (claims : Claims) (settled : Settled) (temporal : RelateTemporalPolicy) where
  -- A pair that is oriented, unless both texts are the same.
  abbrev distinct : ℕ → ℕ × ℕ × Option RelationFailureClass → List PendingPair
  distinct ordinal (old_idx, new_idx, temporal_failure) =
      if text_eq (ClaimView.normalized_text (view_at claims old_idx))
        (ClaimView.normalized_text (view_at claims new_idx))
      then []
      else record {
        old_idx = old_idx;
        new_idx = new_idx;
        older = id_at claims old_idx;
        newer = id_at claims new_idx;
        temporal_failure = temporal_failure;
        cursor = ordinal;
      }
        ∷ []

  -- The body of the loop for the members `i` and `j`: what it pushes. An embedder gives one vector to
  -- each claim; were there fewer, Rust would panic at the index, where this takes an empty vector.
  unfoldable pub examine : List (List F32) → F32 → ℕ → ℕ → ℕ → List PendingPair
  examine embeddings candidate_floor ordinal i j =
      if f.at_least
        (cosine_similarity f (unwrap_or (get_elem? embeddings i) [])
          (unwrap_or (get_elem? embeddings j) []))
        candidate_floor
      then distinct ordinal (order_pair claims i j settled temporal)
      else []

  module _ (embeddings : List (List F32)) (candidate_floor : F32) (clusters : List (List ℕ)) where
    abbrev pub member : ℕ → ℕ → ℕ
    member cluster_idx position =
        unwrap_or (get_elem? (unwrap_or (get_elem? clusters cluster_idx) []) position) 0

    -- `while ordinal < end`, by the number of rounds that are left.
    unfoldable pub page_pairs : ℕ → ℕ → Option Position → List PendingPair
    unfolding examine
    page_pairs zero ordinal position = []
    page_pairs (suc rounds) ordinal none = []
    page_pairs (suc rounds) ordinal (some (cluster_idx, left_pos, right_pos)) =
        examine embeddings candidate_floor ordinal (member cluster_idx left_pos)
          (member cluster_idx right_pos)
        ++ page_pairs rounds (ordinal + 1) (next_pair clusters cluster_idx left_pos right_pos)

  abbrev pub total_pairs : List (List ℕ) → ℕ
  total_pairs [] = 0
  total_pairs (cluster ∷ clusters) = pair_count (length cluster) + total_pairs clusters

  unfoldable pub page_of : List (List F32) → F32 → ℕ → ℕ → PreparedPairs
  page_of embeddings candidate_floor candidate_pair_budget candidate_cursor =
      let clusters = indices_from (length claims) 0 ∷ [] in
      let total = total_pairs clusters in
      let start = min candidate_cursor total in
      let end = min (min u64_max (start + candidate_pair_budget)) total in
      record {
        pending =
            page_pairs embeddings candidate_floor clusters (end - start) start
              (seek_pair clusters start);
        examined_pairs = end - start;
        next_cursor = if ltb end total then some end else none;
        claim_clusters = vec_of 0 (length claims);
      }

  unfoldable pub prepare_pairs :
      Embedder → F32 → ℕ → ℕ → Result SemanticsError (Option PreparedPairs)
  unfolding page_of
  prepare_pairs embed_batch prefilter candidate_pair_budget candidate_cursor =
      if ltb (length claims) 2
      then ok none
      else embed_batch (map (λ (c : Text × ClaimView). embedding_text c.1) claims) >>= λ embeddings.
          ok (some (page_of embeddings prefilter candidate_pair_budget candidate_cursor))
