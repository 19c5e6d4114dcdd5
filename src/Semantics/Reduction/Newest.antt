-- ===== src/Semantics/Reduction/Newest.antt =====
-- Of several claims that replace one claim, the newest is chosen.
use texo.Base.{
  ℕ, ◌≡◌, refl, sym, ap, ◌∙◌, Bool, true, false, Option, none, some, List, [], ◌∷◌, ◌++◌, fold, inl,
  inr, arith, All, All-append, append-nil, append_assoc, ◌==◌, ==_iff, if◌then◌else◌, Bool-cases,
}
use mathlib.Core.List.{Memᴰ}
use texo.Base.Number.{number_ord}
use texo.Base.Pairs.{pair_ord, compare_pair}
use texo.Base.Map.{get, get-insert}
use texo.Base.Text.{Text}
use texo.Events.Settlement.{ClaimRelation}
use texo.Semantics.{Claims, PendingPair, PairOutcome, RelationVerdict, id_at}
use texo.Semantics.Policy.{RelateTemporalPolicy, compare_claims}
use texo.Semantics.Reduction.{
  PairReduction, SuccessorOrder, reduce_pair, add_successor, add_relation, against, contest,
  collect_pair_reduction, empty_reduction, compare_successors, is_newer,
}

abbrev successor : ClaimRelation → ℕ → List ℕ → List ℕ
successor ClaimRelation.supersedes new rest = new ∷ rest
successor ClaimRelation.conflict new rest = rest
successor ClaimRelation.duplicate new rest = rest
successor ClaimRelation.unrelated new rest = rest

-- The claims that the verdicts of the rows let replace `old`.
abbrev pub successors : ℕ → List (PendingPair × PairOutcome) → List ℕ
successors old [] = []
successors old ((pair, PairOutcome.failed failure) ∷ rows) = successors old rows
successors old ((pair, PairOutcome.judged verdict reused) ∷ rows) =
    if PendingPair.old_idx pair == old
    then successor (RelationVerdict.relation verdict) (PendingPair.new_idx pair)
        (successors old rows)
    else successors old rows

module _ (claims : Claims) (temporal : RelateTemporalPolicy) where
  -- No claim of the list is newer than the winner, which is one of them.
  abbrev pub IsNewest : Option ℕ → List ℕ → Type 0
  IsNewest none news = news ≡ []
  IsNewest (some winner) news =
      Memᴰ winner news × All (λ new. is_newer claims temporal new winner ≡ false) news

  -- A later successor against the best so far.
  abbrev pick : Option ℕ → ℕ → Option ℕ
  pick none new = some new
  pick (some cur) new = some (if is_newer claims temporal new cur then new else cur)

  module _ (unbound : RelateTemporalPolicy.claim_snapshots temporal ≡ []) where
    unbound_none : (a b : Text) → compare_claims temporal a b ≡ none
    unfolding compare_claims get
    unbound_none a b = rw unbound

    contest-pick :
        (r : PairReduction) (old new cur j : ℕ) (b : Bool)
        → get r.winners old ≡ some cur
        → get
            (PairReduction.winners (
              contest claims temporal r old new cur
                (if b then SuccessorOrder.candidate else SuccessorOrder.current)))
            j
          ≡ (if old == j then some (if b then new else cur) else get r.winners j)
    contest-pick r old new cur j true e = get-insert r.winners old j new
    contest-pick r old new cur j false e = elim (Bool-cases (old == j)) [
      | inl here ↦ rw here (ap (get r.winners) (sym ((==_iff old j).0 here)) ∙ e)
      | inr other ↦ rw other
    ]

    against-pick :
        (r : PairReduction) (old new j : ℕ) (found : Option ℕ)
        → get r.winners old ≡ found
        → get (PairReduction.winners (against claims temporal r old new found)) j
          ≡ (if old == j then pick found new else get r.winners j)
    unfolding compare_successors
    against-pick r old new j none e = get-insert r.winners old j new
    against-pick r old new j (some cur) e =
        rw (unbound_none (id_at claims cur) (id_at claims new))
          (contest-pick r old new cur j (is_newer claims temporal new cur) e)

    -- A successor of another claim changes nothing for `j`, and one of `j` is picked.
    against_here :
        (r : PairReduction) (old new j : ℕ)
        → (old == j) ≡ true
        → get (PairReduction.winners (against claims temporal r old new (get r.winners old))) j
          ≡ pick (get r.winners j) new
    against_here r old new j here =
        against-pick r old new j (get r.winners old) refl
        ∙ rw here (ap (λ (k : ℕ). pick (get r.winners k) new) ((==_iff old j).0 here))

    against_other :
        (r : PairReduction) (old new j : ℕ)
        → (old == j) ≡ false
        → get (PairReduction.winners (against claims temporal r old new (get r.winners old))) j
          ≡ get r.winners j
    against_other r old new j other = against-pick r old new j (get r.winners old) refl ∙ rw other

    if_same : (b : Bool) (news : List ℕ) → news ≡ (if b then news else news)
    if_same true news = refl
    if_same false news = refl

    add_relation-pick :
        (r : PairReduction) (pair : PendingPair) (relation : ClaimRelation) (j : ℕ) (rest : List ℕ)
        → fold pick
            (get (PairReduction.winners (add_relation claims temporal r pair relation)) j)
            rest
          ≡ fold pick (get r.winners j) (
              if PendingPair.old_idx pair == j
              then successor relation (PendingPair.new_idx pair) rest
              else rest)
    unfolding add_successor
    add_relation-pick r pair ClaimRelation.supersedes j rest =
        elim (Bool-cases (PendingPair.old_idx pair == j)) [
          | inl here ↦ rw here (
              ap (λ (found : Option ℕ). fold pick found rest)
                (against_here r (PendingPair.old_idx pair) (PendingPair.new_idx pair) j here))
          | inr other ↦ rw other (
              ap (λ (found : Option ℕ). fold pick found rest)
                (against_other r (PendingPair.old_idx pair) (PendingPair.new_idx pair) j other))
        ]
    add_relation-pick r pair ClaimRelation.conflict j rest =
        ap (fold pick (get r.winners j)) (if_same (PendingPair.old_idx pair == j) rest)
    add_relation-pick r pair ClaimRelation.duplicate j rest =
        ap (fold pick (get r.winners j)) (if_same (PendingPair.old_idx pair == j) rest)
    add_relation-pick r pair ClaimRelation.unrelated j rest =
        ap (fold pick (get r.winners j)) (if_same (PendingPair.old_idx pair == j) rest)

    fold-pick :
        (rows : List (PendingPair × PairOutcome)) (r : PairReduction) (j : ℕ)
        → get (PairReduction.winners (fold (reduce_pair claims temporal) r rows)) j
          ≡ fold pick (get r.winners j) (successors j rows)
    unfolding reduce_pair
    fold-pick [] r j = refl
    fold-pick ((pair, PairOutcome.failed failure) ∷ rows) r j = fold-pick rows _ j
    fold-pick ((pair, PairOutcome.judged verdict reused) ∷ rows) r j =
        fold-pick rows _ j
        ∙ add_relation-pick _ pair (RelationVerdict.relation verdict) j (successors j rows)

  newer_chain :
      (a b c : ℕ)
      → is_newer claims temporal a b ≡ false
      → is_newer claims temporal c b ≡ true
      → is_newer claims temporal a c ≡ false
  unfolding compare_pair
  newer_chain a b c h k = ground arith

  newer_refl : (a : ℕ) → is_newer claims temporal a a ≡ false
  unfolding compare_pair
  newer_refl a = ground arith

  mem_left : (a : ℕ) (xs ys : List ℕ) → Memᴰ a xs → Memᴰ a (xs ++ ys)
  mem_left a [] ys m = elim m [ ]
  mem_left a (x ∷ xs) ys (Memᴰ.head e) = Memᴰ.head e
  mem_left a (x ∷ xs) ys (Memᴰ.tail m) = Memᴰ.tail (mem_left a xs ys m)

  mem_last : (a : ℕ) (xs : List ℕ) → Memᴰ a (xs ++ (a ∷ []))
  mem_last a [] = Memᴰ.head refl
  mem_last a (x ∷ xs) = Memᴰ.tail (mem_last a xs)

  abbrev NotNewer : ℕ → ℕ → Type 0
  NotNewer winner new = is_newer claims temporal new winner ≡ false

  NotNewer-all :
      (cur new : ℕ) (news : List ℕ)
      → is_newer claims temporal new cur ≡ true
      → All (NotNewer cur) news
      → All (NotNewer new) news
  NotNewer-all cur new [] h a = tt
  NotNewer-all cur new (x ∷ news) h a =
      (newer_chain x cur new a.0 h, NotNewer-all cur new news h a.1)

  pick-IsNewest :
      (best : Option ℕ) (seen : List ℕ) (new : ℕ)
      → IsNewest best seen
      → IsNewest (pick best new) (seen ++ (new ∷ []))
  pick-IsNewest none seen new h = rw h (Memᴰ.head refl, (newer_refl new, tt))
  pick-IsNewest (some cur) seen new (m, a) = elim (Bool-cases (is_newer claims temporal new cur)) [
    | inl newer ↦ rw newer (
      mem_last new seen,
      All-append (NotNewer new) seen (new ∷ []) (NotNewer-all cur new seen newer a)
          (newer_refl new, tt),
    )
    | inr older ↦
        rw older
          (mem_left cur seen (new ∷ []) m, All-append (NotNewer cur) seen (new ∷ []) a (older, tt))
  ]

  fold-IsNewest :
      (news seen : List ℕ) (best : Option ℕ)
      → IsNewest best seen
      → IsNewest (fold pick best news) (seen ++ news)
  fold-IsNewest [] seen best h = rw (append-nil seen) h
  fold-IsNewest (new ∷ news) seen best h =
      rw (← append_assoc seen (new ∷ []) news)
        (fold-IsNewest news (seen ++ (new ∷ [])) (pick best new) (pick-IsNewest best seen new h))

  -- Where no claim is bound to a source snapshot: the replacement that is chosen for a claim is one
  -- of those that the verdicts give, and none of these is newer, by commit sequence and then by
  -- index; and no replacement is chosen exactly where the verdicts give none.
  pub winners-IsNewest :
      (rows : List (PendingPair × PairOutcome)) (old : ℕ)
      → RelateTemporalPolicy.claim_snapshots temporal ≡ []
      → IsNewest
          (get (PairReduction.winners (collect_pair_reduction claims temporal rows)) old)
          (successors old rows)
  unfolding collect_pair_reduction get
  winners-IsNewest rows old unbound =
      rw (fold-pick unbound rows empty_reduction old)
        (fold-IsNewest (successors old rows) [] none refl)
