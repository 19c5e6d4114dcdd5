-- ===== src/Semantics/Reduction/Decide.antt =====
-- src/semantics/pipeline/reduction.rs: which replacements and conflicts are published, and which are
-- held because evidence about one of their claims is missing.
use texo.Base.{ℕ, List, [], ◌∷◌, ◌++◌, if◌then◌else◌, ◌||◌, fold}
use Prim.Native.Nat.{Ordering}
use texo.Base.Order.{cmp, then_with}
use texo.Base.Text.{Text, bytes, text_ord}
use texo.Base.Number.{number_ord}
use texo.Base.Pairs.{pair_ord}
use texo.Base.Map.{BTreeMap, BTreeSet, insert, contains_key}
use texo.Base.Sort.{sort_by, by_key}
use texo.Events.Ids.{conflict_id_from_pair}
use texo.Semantics.{
  Claims, ClaimView, ConflictStatus, ConflictEntry, HeldDecision, PairJudgment, PairOutcome,
  PendingPair, SupersessionEdge, UnresolvedPair, id_at, view_at,
}
use texo.Semantics.Policy.{RelateTemporalPolicy}
use texo.Semantics.Reduction.{PairReduction, collect_pair_reduction, reference_of, zip}

-- What `reduce_supersessions` gathers.
pub record Replaced : Type 0 where
  pub superseded : BTreeSet Text
  pub supersessions : List SupersessionEdge
  pub held : List HeldDecision

-- What `reduce_conflicts` gathers.
pub record Contested : Type 0 where
  pub seen : BTreeSet Text
  pub conflicts : List ConflictEntry
  pub held : List HeldDecision

abbrev pub edge_order : SupersessionEdge → SupersessionEdge → Ordering
edge_order (old_a, new_a, reason_a) (old_b, new_b, reason_b) =
    then_with (cmp old_a old_b) (cmp new_a new_b)

module _ (claims : Claims) (tainted : BTreeSet Text) where
  unfoldable pub replace_claim : Replaced → ℕ × ℕ → Replaced
  replace_claim s (old, new) =
      let old_id = id_at claims old in
      let new_id = id_at claims new in
      let reason = bytes "superseded by " ++ reference_of (view_at claims new) in
      if contains_key tainted old_id
      then record s { held = s.held ++ (HeldDecision.supersession old_id new_id reason ∷ []) }
      else record s {
        superseded = insert s.superseded old_id tt;
        supersessions = s.supersessions ++ ((old_id, new_id, reason) ∷ []);
      }

  unfoldable pub reduce_supersessions : BTreeMap ℕ ℕ → Replaced
  unfolding replace_claim
  reduce_supersessions winners =
      let found =
        fold replace_claim (record { superseded = []; supersessions = []; held = [] }) winners in
      record found { supersessions = sort_by edge_order found.supersessions }

  module _ (hash : Text → Text) (superseded : BTreeSet Text) where
    abbrev pub conflict_entry : ℕ → ℕ → ConflictEntry
    conflict_entry i j = record {
      conflict_id = conflict_id_from_pair hash (id_at claims i) (id_at claims j);
      claim_a = id_at claims i;
      claim_b = id_at claims j;
      subject_hint = ClaimView.subject_hint (view_at claims i);
      reason =
          bytes "contradictory current claims: \""
          ++ (ClaimView.text (view_at claims i)
              ++ (bytes "\" vs \"" ++ (ClaimView.text (view_at claims j) ++ bytes "\"")));
      status = ConflictStatus.open_conflict;
    }

    -- A conflict that was not seen before is held, published, or dropped.
    abbrev pub settle_conflict : Contested → ConflictEntry → Contested
    settle_conflict s entry =
        if contains_key tainted (ConflictEntry.claim_a entry)
          || contains_key tainted (ConflictEntry.claim_b entry)
        then record s {
          held =
              s.held
              ++ (HeldDecision.conflict (ConflictEntry.conflict_id entry)
                    (ConflictEntry.claim_a entry) (ConflictEntry.claim_b entry)
                    (ConflictEntry.reason entry)
                  ∷ []);
        }
        else if contains_key superseded (ConflictEntry.claim_a entry)
            || contains_key superseded (ConflictEntry.claim_b entry)
        then s
        else record s { conflicts = s.conflicts ++ (entry ∷ []) }

    unfoldable pub reduce_conflict : Contested → ℕ × ℕ → Contested
    reduce_conflict s (i, j) =
        let entry = conflict_entry i j in
        if contains_key s.seen (ConflictEntry.conflict_id entry)
        then s
        else settle_conflict
            (record s { seen = insert s.seen (ConflictEntry.conflict_id entry) tt }) entry

    unfoldable pub reduce_conflicts : List (ℕ × ℕ) → List HeldDecision → Contested
    unfolding reduce_conflict
    reduce_conflicts conflict_pairs held =
        let found =
          fold reduce_conflict (record { seen = []; conflicts = []; held = held }) conflict_pairs in
        record found { conflicts = sort_by (by_key ConflictEntry.conflict_id) found.conflicts }

pub record RelatedClaims : Type 0 where
  pub supersessions : List SupersessionEdge
  pub conflicts : List ConflictEntry
  pub judgments : List PairJudgment

pub record ReducedOutcome : Type 0 where
  pub related : RelatedClaims
  pub unresolved : List UnresolvedPair
  pub held : List HeldDecision

-- Both claims of a pair without a verdict.
abbrev pub taint_pair : BTreeSet Text → UnresolvedPair → BTreeSet Text
taint_pair tainted pair =
    insert (insert tainted (UnresolvedPair.old_claim pair) tt) (UnresolvedPair.new_claim pair) tt

abbrev pub taint_claim : Claims → BTreeSet Text → ℕ × Unit {0} → BTreeSet Text
taint_claim claims tainted (index, done) = insert tainted (id_at claims index) tt

unfoldable pub tainted_of : Claims → PairReduction → BTreeSet Text
tainted_of claims r =
    fold (taint_claim claims) (fold taint_pair [] r.unresolved) r.ambiguous_winners

-- The decisions of a reduction of pairs.
unfoldable pub decide : (Text → Text) → Claims → PairReduction → ReducedOutcome
unfolding tainted_of reduce_supersessions reduce_conflicts
decide hash claims reduction =
    let tainted = tainted_of claims reduction in
    let replaced = reduce_supersessions claims tainted reduction.winners in
    let contested =
      reduce_conflicts claims tainted hash replaced.superseded reduction.conflict_pairs
        replaced.held in
    record {
      related = record {
        supersessions = replaced.supersessions;
        conflicts = contested.conflicts;
        judgments = reduction.judgments;
      };
      unresolved = reduction.unresolved;
      held = contested.held;
    }

unfoldable pub reduce_outcomes :
    (Text → Text)
    → Claims
    → List PendingPair
    → List PairOutcome
    → RelateTemporalPolicy
    → ReducedOutcome
unfolding collect_pair_reduction decide
reduce_outcomes hash claims pending outcomes temporal =
    decide hash claims (collect_pair_reduction claims temporal (zip pending outcomes))
