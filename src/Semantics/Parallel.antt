-- ===== src/Semantics/Parallel.antt =====
-- src/semantics/pipeline/runtime.rs: the verdicts of a page from several threads. Pairs with the same
-- two texts share one call, that of the first of them.
mod Members
mod Groups
mod Fan
pub mod Agrees
use texo.Base.{
  ℕ, zero, suc, ◌+◌, Bool, true, false, Option, none, some, List, [], ◌∷◌, ◌++◌, Result, ok, err,
  ◌>>=◌, if◌then◌else◌, leb, fold, map, unwrap_or, get_elem?, length,
}
use texo.Base.Number.{number_ord}
use texo.Base.Text.{Text, text_ord}
use texo.Base.Pairs.{pair_ord}
use texo.Base.Order.{Ord, cmp}
use texo.Base.Map.{BTreeMap, get, insert, remove}
use texo.Base.Sort.{sort_by}
use texo.Scores.{F32}
use texo.Semantics.{
  Claims, ClaimView, PairOutcome, PendingPair, Relater, Embedder, SemanticsError, view_at,
}
use texo.Semantics.Cosine.{Floats}
use texo.Semantics.Policy.{RelateTemporalPolicy}
use texo.Semantics.Pairs.{Settled, PreparedPairs, prepare_pairs}
use texo.Semantics.Acquire.{known, budget_exhausted}
use texo.Semantics.Workers.{Pool, collected}
use texo.Semantics.Slots.{set_outcome}
use texo.Semantics.Outcome.{
  RelateOutcome, finish_page, page_completion, no_pairs, relate_claims_sequential,
}

abbrev pub Texts : Type 0
Texts = Text × Text

abbrev pub Groups : Type 0
Groups = BTreeMap Texts (List ℕ)

abbrev pub no_outcomes : List PendingPair → List (Option PairOutcome)
no_outcomes [] = []
no_outcomes (pair ∷ pending) = none ∷ no_outcomes pending

pub record Grouped : Type 0 where
  pub outcomes : List (Option PairOutcome)
  pub groups : Groups

-- `members[0]`; a group is never empty.
abbrev pub first_member : List ℕ → ℕ
first_member [] = 0
first_member (member ∷ members) = member

module _ (claims : Claims) (relate : Relater) (settled : Settled) where
  abbrev pub texts_of : PendingPair → Texts
  texts_of pair = (
    ClaimView.text (view_at claims (PendingPair.old_idx pair)),
    ClaimView.text (view_at claims (PendingPair.new_idx pair)),
  )

  abbrev pub group_known : Grouped → ℕ → PendingPair → Option PairOutcome → Grouped
  group_known s index pair (some outcome) = record s {
    outcomes = set_outcome s.outcomes index outcome;
  }
  group_known s index pair none = record s {
    groups =
        insert s.groups (texts_of pair)
          (unwrap_or (get s.groups (texts_of pair)) [] ++ (index ∷ []));
  }

  -- The loop over the pairs from `index` on.
  abbrev pub group_pairs : ℕ → List PendingPair → Grouped → Grouped
  group_pairs index [] s = s
  group_pairs index (pair ∷ pending) s =
      group_pairs (suc index) pending (group_known s index pair (known claims relate settled pair))

  abbrev pub grouped : List PendingPair → Grouped
  grouped pending = group_pairs 0 pending (record { outcomes = no_outcomes pending; groups = [] })

  abbrev heads : Groups → List ℕ
  heads [] = []
  heads ((texts, members) ∷ groups) = first_member members ∷ heads groups

  -- The jobs that the threads are given.
  unfoldable pub representatives : List PendingPair → List ℕ
  representatives pending = sort_by (cmp {A = ℕ}) (heads (Grouped.groups (grouped pending)))

  abbrev pub spread : PairOutcome → List (Option PairOutcome) → ℕ → List (Option PairOutcome)
  spread outcome outcomes member = set_outcome outcomes member outcome

  -- The loop over the groups, which takes each outcome out of the results.
  abbrev pub fan_out :
      Groups → BTreeMap ℕ PairOutcome → List (Option PairOutcome) → List (Option PairOutcome)
  fan_out [] results outcomes = outcomes
  fan_out ((texts, members) ∷ groups) results outcomes =
      fan_out groups (remove results (first_member members)) (
        fold
          (spread
            (unwrap_or (get results (first_member members)) (PairOutcome.failed budget_exhausted)))
          outcomes members)

  -- `results` is what the threads return for the representatives.
  unfoldable pub acquire_parallel :
      List PendingPair → BTreeMap ℕ PairOutcome → List (Option PairOutcome)
  acquire_parallel pending results =
      fan_out (Grouped.groups (grouped pending)) results (Grouped.outcomes (grouped pending))

  abbrev pub acquired : List PendingPair → BTreeMap ℕ PairOutcome → List PairOutcome
  acquired pending results =
      map (λ (slot : Option PairOutcome). unwrap_or slot (PairOutcome.failed budget_exhausted))
        (acquire_parallel pending results)

module _ (f : Floats) (hash : Text → Text) (claims : Claims) (embed_batch : Embedder)
    (relate : Relater) (prefilter : F32) (settled : Settled) (temporal : RelateTemporalPolicy) where
  abbrev pub parallel_page : Option PreparedPairs → ℕ → (List ℕ → Pool PairOutcome) → RelateOutcome
  parallel_page none candidate_pair_budget threads = no_pairs
  parallel_page (some prepared) candidate_pair_budget threads =
      finish_page hash claims temporal (PreparedPairs.pending prepared)
        (acquired claims relate settled (PreparedPairs.pending prepared) (
          collected
            (threads (representatives claims relate settled (PreparedPairs.pending prepared)))))
        (page_completion f hash claims embed_batch relate prefilter settled temporal prepared
          candidate_pair_budget)

  -- `threads` gives the state in which the threads end, for the jobs that they are given; with one
  -- worker the calling thread acquires the verdicts.
  unfoldable pub relate_claims_settled_parallel_temporal :
      ℕ → ℕ → ℕ → (ℕ → Bool) → (List ℕ → Pool PairOutcome) → Result SemanticsError RelateOutcome
  unfolding relate_claims_sequential
  relate_claims_settled_parallel_temporal concurrency candidate_pair_budget candidate_cursor clock
        threads =
      if leb concurrency 1
      then relate_claims_sequential f hash claims embed_batch relate prefilter settled temporal
          candidate_pair_budget candidate_cursor clock
      else prepare_pairs f claims settled temporal embed_batch prefilter candidate_pair_budget
          candidate_cursor
        >>= λ prepared. ok (parallel_page prepared candidate_pair_budget threads)
