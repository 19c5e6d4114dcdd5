-- ===== src/Semantics/Outcome.antt =====
-- src/semantics/pipeline/reduction.rs, src/semantics/pipeline/runtime.rs: the outcome of a page,
-- complete or partial, and the pass on the calling thread.
pub mod Completion
use texo.Base.{
  ℕ, zero, suc, min, max, Bool, true, false, Option, none, some, List, [], ◌∷◌, ◌++◌, Result, ok,
  err, ◌>>=◌, if◌then◌else◌, not, ltb, fold, map, unwrap_or, get_elem?, length,
}
use Prim.Native.Nat.{Ordering}
use mathlib.Core.Option
use texo.Base.Order.{Ord, cmp}
use texo.Base.Text.{Text, text_ord}
use texo.Base.Number.{number_ord}
use texo.Base.Pairs.{pair_ord}
use texo.Base.Map.{BTreeMap, BTreeSet, get, insert, contains_key}
use texo.Base.Sort.{sort_by, by_key}
use texo.Scores.{F32}
use texo.Semantics.{
  Claims, ClaimView, ConflictEntry, HeldDecision, PairJudgment, PairOutcome, PendingPair,
  RelationVerdict, SemanticsError, SupersessionEdge, UnresolvedPair, Embedder, Relater,
}
use texo.Semantics.Cosine.{Floats}
use texo.Semantics.Policy.{RelateTemporalPolicy}
use texo.Semantics.Pairs.{Settled, PreparedPairs, prepare_pairs}
use texo.Semantics.Acquire.{acquire_each}
use texo.Semantics.Reduction.{zip}
use texo.Semantics.Reduction.Decide.{ReducedOutcome, RelatedClaims, reduce_outcomes}

pub record CompleteRelateOutcome : Type 0 where
  pub related : RelatedClaims
  pub held : List HeldDecision
  pub candidate_pairs : ℕ
  pub candidate_pair_budget : ℕ

-- It carries no replacement and no conflict that could be published.
pub record PartialRelateOutcome : Type 0 where
  pub judgments : List PairJudgment
  pub unresolved : List UnresolvedPair
  pub held : List HeldDecision
  pub candidate_pairs : ℕ
  pub candidate_pair_budget : ℕ
  pub next_candidate_cursor : ℕ

pub data RelateOutcome : Type 0 where
  complete : CompleteRelateOutcome → RelateOutcome
  partial : PartialRelateOutcome → RelateOutcome

abbrev pub default_candidate_pair_budget : ℕ
default_candidate_pair_budget = 4096

abbrev pub no_pairs : RelateOutcome
no_pairs = RelateOutcome.complete (record {
  related = record { supersessions = []; conflicts = []; judgments = [] };
  held = [];
  candidate_pairs = 0;
  candidate_pair_budget = default_candidate_pair_budget;
})

pub record PageCompletion : Type 0 where
  pub settled : Settled
  pub claim_clusters : List ℕ
  pub examined_pairs : ℕ
  pub candidate_pair_budget : ℕ
  pub next_cursor : Option ℕ

-- The least of two cursors that may be absent.
abbrev pub earliest : Option ℕ → Option ℕ → Option ℕ
earliest none b = b
earliest (some a) none = some a
earliest (some a) (some b) = some (min a b)

-- The least cursor of a pair that failed.
abbrev pub retry_cursor : List (PendingPair × PairOutcome) → Option ℕ
retry_cursor [] = none
retry_cursor ((pair, PairOutcome.failed failure) ∷ rows) =
    earliest (some (PendingPair.cursor pair)) (retry_cursor rows)
retry_cursor ((pair, PairOutcome.judged verdict reused) ∷ rows) = retry_cursor rows

abbrev held_edge : SupersessionEdge → HeldDecision
held_edge (old_claim, new_claim, reason) = HeldDecision.supersession old_claim new_claim reason

abbrev held_conflict : ConflictEntry → HeldDecision
held_conflict entry =
    HeldDecision.conflict (ConflictEntry.conflict_id entry) (ConflictEntry.claim_a entry)
      (ConflictEntry.claim_b entry) (ConflictEntry.reason entry)

unfoldable pub partial_outcome : ReducedOutcome → ℕ → ℕ → ℕ → PartialRelateOutcome
partial_outcome reduction candidate_pairs candidate_pair_budget next_candidate_cursor =
    let related = ReducedOutcome.related reduction in
    record {
      judgments = RelatedClaims.judgments related;
      unresolved = ReducedOutcome.unresolved reduction;
      held =
          (ReducedOutcome.held reduction ++ map held_edge (RelatedClaims.supersessions related))
          ++ map held_conflict (RelatedClaims.conflicts related);
      candidate_pairs = candidate_pairs;
      candidate_pair_budget = candidate_pair_budget;
      next_candidate_cursor = next_candidate_cursor;
    }

-- The index of a claim; of two claims with one identifier, the later.
abbrev pub index_ids : Claims → ℕ → BTreeMap Text ℕ → BTreeMap Text ℕ
index_ids [] index by_id = by_id
index_ids ((id, view) ∷ claims) index by_id = index_ids claims (suc index) (insert by_id id index)

-- The key by which the rows are sorted, the pair and its outcome.
abbrev Row : Type 0
Row = ((ℕ × ℕ) × ℕ) × PendingPair × PairOutcome

abbrev row_order : Row → Row → Ordering
row_order (a, p, o) (b, q, r) = cmp {A = (ℕ × ℕ) × ℕ} a b

abbrev row_of :
    BTreeSet (Text × Text)
    → List ℕ
    → (Text × Text) × RelationVerdict
    → Option ℕ
    → Option ℕ
    → List Row
row_of fresh claim_clusters ((older, newer), verdict) (some old_idx) (some new_idx) =
    (
      (
        (unwrap_or (get_elem? claim_clusters (min old_idx new_idx)) 0, min old_idx new_idx),
        max old_idx new_idx,
      ),
      record {
        old_idx = old_idx;
        new_idx = new_idx;
        older = older;
        newer = newer;
        temporal_failure = none;
        cursor = 0;
      },
      PairOutcome.judged verdict (not (contains_key fresh (older, newer))),
    )
    ∷ []
row_of fresh claim_clusters row (some old_idx) none = []
row_of fresh claim_clusters row none new = []

abbrev rows_of : BTreeMap Text ℕ → BTreeSet (Text × Text) → List ℕ → Settled → List Row
rows_of by_id fresh claim_clusters [] = []
rows_of by_id fresh claim_clusters (((older, newer), verdict) ∷ authority) =
    row_of fresh claim_clusters ((older, newer), verdict) (get by_id older) (get by_id newer)
    ++ rows_of by_id fresh claim_clusters authority

-- The pairs that have a verdict, in the order of the claims, with their outcomes.
unfoldable pub authoritative_pairs :
    Claims → Settled → BTreeSet (Text × Text) → List ℕ → List (PendingPair × PairOutcome)
authoritative_pairs claims authority fresh claim_clusters =
    map (λ (row : Row). (row.1, row.2))
      (sort_by row_order (rows_of (index_ids claims 0 []) fresh claim_clusters authority))

abbrev pub pair_of : PairJudgment → Text × Text
pair_of judgment = (PairJudgment.older_claim judgment, PairJudgment.newer_claim judgment)

abbrev add_fresh : BTreeSet (Text × Text) → PairJudgment → BTreeSet (Text × Text)
add_fresh fresh judgment =
    if PairJudgment.reused_authority judgment then fresh else insert fresh (pair_of judgment) tt

abbrev pub add_authority : Settled → PairJudgment → Settled
add_authority authority judgment =
    insert authority (pair_of judgment) (PairJudgment.verdict judgment)

module _ (hash : Text → Text) (claims : Claims) (temporal : RelateTemporalPolicy) where
  -- What a page derives on its own.
  abbrev pub page_reduction : List PendingPair → List PairOutcome → ReducedOutcome
  page_reduction pending outcomes = reduce_outcomes hash claims pending outcomes temporal

  -- What all verdicts derive, once no page and no pair is left.
  unfoldable pub complete_outcome : List PairJudgment → PageCompletion → CompleteRelateOutcome
  unfolding authoritative_pairs
  complete_outcome judgments page =
      let authority = fold add_authority (PageCompletion.settled page) judgments in
      let rows =
        authoritative_pairs claims authority (fold add_fresh [] judgments)
          (PageCompletion.claim_clusters page) in
      let complete =
        page_reduction (map (λ (row : PendingPair × PairOutcome). row.0) rows)
          (map (λ (row : PendingPair × PairOutcome). row.1) rows) in
      record {
        related = ReducedOutcome.related complete;
        held = ReducedOutcome.held complete;
        candidate_pairs = length (RelatedClaims.judgments (ReducedOutcome.related complete));
        candidate_pair_budget = PageCompletion.candidate_pair_budget page;
      }

  abbrev pub finish_at : Option ℕ → ReducedOutcome → PageCompletion → RelateOutcome
  finish_at (some next_candidate_cursor) reduction page = RelateOutcome.partial (
      partial_outcome reduction (PageCompletion.examined_pairs page)
        (PageCompletion.candidate_pair_budget page) next_candidate_cursor)
  finish_at none reduction page =
      RelateOutcome.complete
        (complete_outcome (RelatedClaims.judgments (ReducedOutcome.related reduction)) page)

  unfoldable pub finish_page : List PendingPair → List PairOutcome → PageCompletion → RelateOutcome
  unfolding partial_outcome complete_outcome
  finish_page pending outcomes page =
      finish_at (earliest (retry_cursor (zip pending outcomes)) (PageCompletion.next_cursor page))
        (page_reduction pending outcomes) page

module _ (f : Floats) (hash : Text → Text) (claims : Claims) (embed_batch : Embedder)
    (relate : Relater) (prefilter : F32) (settled : Settled) (temporal : RelateTemporalPolicy) where
  abbrev pub page_completion : PreparedPairs → ℕ → PageCompletion
  page_completion prepared candidate_pair_budget = record {
    settled = settled;
    claim_clusters = PreparedPairs.claim_clusters prepared;
    examined_pairs = PreparedPairs.examined_pairs prepared;
    candidate_pair_budget = candidate_pair_budget;
    next_cursor = PreparedPairs.next_cursor prepared;
  }

  abbrev sequential_page : Option PreparedPairs → ℕ → (ℕ → Bool) → RelateOutcome
  sequential_page none candidate_pair_budget clock = no_pairs
  sequential_page (some prepared) candidate_pair_budget clock =
      finish_page hash claims temporal (PreparedPairs.pending prepared)
        (acquire_each claims relate settled (PreparedPairs.pending prepared) clock)
        (page_completion prepared candidate_pair_budget)

  -- One worker, or `relate_claims_with_settled_temporal`: the clock says at each pair whether the
  -- budget has run out.
  unfoldable pub relate_claims_sequential : ℕ → ℕ → (ℕ → Bool) → Result SemanticsError RelateOutcome
  unfolding finish_page
  relate_claims_sequential candidate_pair_budget candidate_cursor clock =
      prepare_pairs f claims settled temporal embed_batch prefilter candidate_pair_budget
        candidate_cursor
      >>= λ prepared. ok (sequential_page prepared candidate_pair_budget clock)

  unfoldable pub relate_claims_with_settled_temporal :
      (ℕ → Bool) → Result SemanticsError RelateOutcome
  unfolding relate_claims_sequential
  relate_claims_with_settled_temporal clock =
      relate_claims_sequential default_candidate_pair_budget 0 clock
