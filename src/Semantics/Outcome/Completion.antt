-- ===== src/Semantics/Outcome/Completion.antt =====
-- When a page completes the pass, and where it is resumed otherwise.
use texo.Base.{
  ℕ, min, ◌≤◌, ◌≡◌, refl, ap, sym, subst, Option, none, some, List, [], ◌∷◌, arith, All, ◌⊎◌, inl,
  inr,
}
use texo.Base.Text.{Text}
use texo.Semantics.{Claims, PendingPair, PairOutcome, PairFailureView}
use texo.Semantics.Policy.{RelateTemporalPolicy}
use texo.Semantics.Reduction.{zip}
use texo.Semantics.Outcome.{
  RelateOutcome, PartialRelateOutcome, PageCompletion, earliest, retry_cursor, finish_page,
  finish_at, page_reduction,
}

-- The outcome is a verdict.
abbrev pub IsJudged : PendingPair × PairOutcome → Type 0
IsJudged (pair, PairOutcome.judged verdict reused) = Unit
IsJudged (pair, PairOutcome.failed failure) = ⊥

-- The cursor is not past a pair that failed.
abbrev pub NotPast : ℕ → PendingPair × PairOutcome → Type 0
NotPast cursor (pair, PairOutcome.judged verdict reused) = Unit
NotPast cursor (pair, PairOutcome.failed failure) = cursor ≤ PendingPair.cursor pair

abbrev pub NotPastPage : ℕ → Option ℕ → Type 0
NotPastPage cursor none = Unit
NotPastPage cursor (some next) = cursor ≤ next

-- Some pair failed at the cursor.
abbrev pub FailedAt : ℕ → List (PendingPair × PairOutcome) → Type 0
FailedAt cursor [] = ⊥
FailedAt cursor ((pair, PairOutcome.judged verdict reused) ∷ rows) = FailedAt cursor rows
FailedAt cursor ((pair, PairOutcome.failed failure) ∷ rows) =
    (PendingPair.cursor pair ≡ cursor) ⊎ FailedAt cursor rows

-- Nothing is left to do; or this is the least cursor at which something is.
abbrev pub IsResumption : List (PendingPair × PairOutcome) → Option ℕ → Option ℕ → Type 0
IsResumption rows next none = All IsJudged rows × (next ≡ none)
IsResumption rows next (some cursor) =
    All (NotPast cursor) rows
    × NotPastPage cursor next
    × ((next ≡ some cursor) ⊎ FailedAt cursor rows)

abbrev pub resumption_of : RelateOutcome → Option ℕ
resumption_of (RelateOutcome.complete outcome) = none
resumption_of (RelateOutcome.partial outcome) =
    some (PartialRelateOutcome.next_candidate_cursor outcome)

earliest_assoc : (a b c : Option ℕ) → earliest (earliest a b) c ≡ earliest a (earliest b c)
earliest_assoc none b c = refl
earliest_assoc (some a) none c = refl
earliest_assoc (some a) (some b) none = refl
earliest_assoc (some a) (some b) (some c) = ap some (omega arith)

All-lower :
    (low cursor : ℕ) (rows : List (PendingPair × PairOutcome))
    → low ≤ cursor
    → All (NotPast cursor) rows
    → All (NotPast low) rows
All-lower low cursor [] h a = tt
All-lower low cursor ((pair, PairOutcome.judged verdict reused) ∷ rows) h a =
    (tt, All-lower low cursor rows h a.1)
All-lower low cursor ((pair, PairOutcome.failed failure) ∷ rows) h a =
    (omega arith, All-lower low cursor rows h a.1)

lower_page :
    (low cursor : ℕ) (next : Option ℕ)
    → low ≤ cursor
    → NotPastPage cursor next
    → NotPastPage low next
lower_page low cursor none h p = tt
lower_page low cursor (some next) h p = omega arith

-- Rows of verdicts only are past no cursor.
All-of-judged :
    (cursor : ℕ) (rows : List (PendingPair × PairOutcome))
    → All IsJudged rows
    → All (NotPast cursor) rows
All-of-judged cursor [] a = tt
All-of-judged cursor ((pair, PairOutcome.judged verdict reused) ∷ rows) a =
    (tt, All-of-judged cursor rows a.1)
All-of-judged cursor ((pair, PairOutcome.failed failure) ∷ rows) a = absurd a.0

IsResumption-failed :
    (pair : PendingPair) (failure : PairFailureView) (rows : List (PendingPair × PairOutcome))
    (next rest : Option ℕ)
    → IsResumption rows next rest
    → IsResumption
        ((pair, PairOutcome.failed failure) ∷ rows)
        next
        (earliest (some (PendingPair.cursor pair)) rest)
IsResumption-failed pair failure rows next none (judged, last) =
    ((omega arith, All-of-judged (PendingPair.cursor pair) rows judged), rw last tt, inr (inl refl))
IsResumption-failed pair failure rows next (some cursor) (past, page, at) =
    elim (min_cases (PendingPair.cursor pair) cursor) [
      | inl low ↦ subst at_cursor (sym low.0) (
        (omega arith, All-lower (PendingPair.cursor pair) cursor rows low.1 past),
        lower_page (PendingPair.cursor pair) cursor next low.1 page,
        inr (inl refl),
      )
      | inr low ↦ subst at_cursor (sym low.0) ((low.1, past), page, kept at)
    ]
  where
    at_cursor : ℕ → Type 0
    at_cursor m = IsResumption ((pair, PairOutcome.failed failure) ∷ rows) next (some m)

    kept :
        (next ≡ some cursor) ⊎ FailedAt cursor rows
        → (next ≡ some cursor) ⊎ ((PendingPair.cursor pair ≡ cursor) ⊎ FailedAt cursor rows)
    kept (inl e) = inl e
    kept (inr failed_at) = inr (inr failed_at)

    min_cases : (a b : ℕ) → ((min a b ≡ a) × (a ≤ b)) ⊎ ((min a b ≡ b) × (b ≤ a))
    min_cases a b = ground arith

earliest-IsResumption :
    (rows : List (PendingPair × PairOutcome)) (next : Option ℕ)
    → IsResumption rows next (earliest (retry_cursor rows) next)
earliest-IsResumption [] none = (tt, refl)
earliest-IsResumption [] (some next) = (tt, omega arith, inl refl)
earliest-IsResumption ((pair, PairOutcome.judged verdict reused) ∷ rows) next =
    judged_row (earliest (retry_cursor rows) next) (earliest-IsResumption rows next)
  where
    judged_row :
        (cursor : Option ℕ)
        → IsResumption rows next cursor
        → IsResumption ((pair, PairOutcome.judged verdict reused) ∷ rows) next cursor
    judged_row none (judged, last) = ((tt, judged), last)
    judged_row (some cursor) (past, page, at) = ((tt, past), page, at)
earliest-IsResumption ((pair, PairOutcome.failed failure) ∷ rows) next =
    rw (earliest_assoc (some (PendingPair.cursor pair)) (retry_cursor rows) next) (
      IsResumption-failed pair failure rows next (earliest (retry_cursor rows) next)
        (earliest-IsResumption rows next))

-- A page completes the pass exactly when each of its pairs has a verdict and no page follows.
-- Otherwise it is resumed at the least of the cursors of the pairs that failed and of the page that
-- follows: no pair without a verdict is left behind, and at the cursor there is work.
pub finish_page-IsResumption :
    (hash : Text → Text) (claims : Claims) (temporal : RelateTemporalPolicy)
    (pending : List PendingPair) (outcomes : List PairOutcome) (page : PageCompletion)
    → IsResumption
        (zip pending outcomes)
        (PageCompletion.next_cursor page)
        (resumption_of (finish_page hash claims temporal pending outcomes page))
unfolding finish_page
finish_page-IsResumption hash claims temporal pending outcomes page =
    outcome_at (earliest (retry_cursor (zip pending outcomes)) (PageCompletion.next_cursor page))
      (earliest-IsResumption (zip pending outcomes) (PageCompletion.next_cursor page))
  where
    outcome_at :
        (cursor : Option ℕ)
        → IsResumption (zip pending outcomes) (PageCompletion.next_cursor page) cursor
        → IsResumption (zip pending outcomes) (PageCompletion.next_cursor page) (
            resumption_of (
              finish_at hash claims temporal cursor
                (page_reduction hash claims temporal pending outcomes)
                page))
    outcome_at none h = h
    outcome_at (some cursor) h = h
