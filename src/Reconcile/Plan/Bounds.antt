-- ===== src/Reconcile/Plan/Bounds.antt =====
-- What a plan keeps of all candidates, and when it says that some are left out.
use texo.Base.{
  ℕ, zero, suc, ◌+◌, ◌≤◌, ◌≡◌, ◌↔◌, refl, sym, ap, ◌∙◌, Bool, true, false, Bool-cases, List, [],
  ◌∷◌, ◌++◌, append_assoc, append-nil, if◌then◌else◌, ltb, length, length-append, length-take, take,
  take_all, arith, inl, inr,
}
use texo.Base.Text.{Text}
use texo.Base.Chars.{Unicode}
use texo.Knowledge.Code.{CodeIndexArtifact}
use texo.Reconcile.{ReconcileLimits, ReconcileClaim, ReconcileCandidate}
use texo.Reconcile.Plan.{CandidatePlan, add_ranked, plan_from, ranked_of, plan_candidates}

take-left : {A : Type 0} (n : ℕ) (xs ys : List A) → n ≤ length xs → take n (xs ++ ys) ≡ take n xs
take-left zero xs ys h = refl
take-left (suc n) [] ys h = absurd (omega arith)
take-left (suc n) (x ∷ xs) ys h = ap (λ zs. x ∷ zs) (take-left n xs ys (omega arith))

-- All candidates, and the ones that the bound of each claim keeps.
abbrev pub everything : List (List ReconcileCandidate) → List ReconcileCandidate
everything [] = []
everything (found ∷ rest) = found ++ everything rest

abbrev pub kept : ℕ → List (List ReconcileCandidate) → List ReconcileCandidate
kept per_claim [] = []
kept per_claim (found ∷ rest) = take per_claim found ++ kept per_claim rest

module _ (limits : ReconcileLimits) where
  open limits use {per_claim, total}

  -- Whether the bound of some claim leaves a candidate out.
  abbrev exceeds : List (List ReconcileCandidate) → Bool
  exceeds [] = false
  exceeds (found ∷ rest) = if ltb per_claim (length found) then true else exceeds rest

  plan_from-candidates :
      (lists : List (List ReconcileCandidate)) (plan : CandidatePlan)
      → length plan.candidates ≤ total
      → CandidatePlan.candidates (plan_from limits lists plan)
        ≡ take total (plan.candidates ++ kept per_claim lists)
  plan_from-candidates [] plan h =
      sym (ap (take total) (append-nil plan.candidates) ∙ take_all total plan.candidates h)
  plan_from-candidates (found ∷ rest) plan h =
      let both : List ReconcileCandidate = plan.candidates ++ take per_claim found in
      elim (Bool-cases (ltb total (length both))) [
        | inl over ↦ rw over (
            sym (
              ap (take total)
                (sym (append_assoc plan.candidates (take per_claim found) (kept per_claim rest)))
              ∙ take-left total both (kept per_claim rest) (ground arith)))
        | inr fits ↦ rw fits (
            plan_from-candidates rest (add_ranked limits plan found) (ground arith)
            ∙ ap (take total)
                (append_assoc plan.candidates (take per_claim found) (kept per_claim rest)))
      ]

  plan_from-truncated :
      (lists : List (List ReconcileCandidate)) (plan : CandidatePlan)
      → length plan.candidates ≤ total
      → CandidatePlan.truncated (plan_from limits lists plan) ≡ (
          if plan.truncated
          then true
          else if exceeds lists
          then true
          else ltb total (length (plan.candidates ++ kept per_claim lists)))
  plan_from-truncated [] plan h = ground (arith, length-append plan.candidates [])
  plan_from-truncated (found ∷ rest) plan h =
      let both : List ReconcileCandidate = plan.candidates ++ take per_claim found in
      let whole = length-append plan.candidates (take per_claim found) in
      let longer = length-append plan.candidates (take per_claim found ++ kept per_claim rest) in
      let last = length-append (take per_claim found) (kept per_claim rest) in
      elim (Bool-cases (ltb total (length both))) [
        | inl over ↦ rw over (ground (arith, over, whole, longer, last))
        | inr fits ↦ rw fits (
            plan_from-truncated rest (add_ranked limits plan found) (ground arith)
            ∙ ground
                (arith, append_assoc plan.candidates (take per_claim found) (kept per_claim rest)))
      ]

  length-kept :
      (lists : List (List ReconcileCandidate))
      → length (kept per_claim lists) + (if exceeds lists then 1 else 0) ≤ length (everything lists)
  length-kept [] = omega arith
  length-kept (found ∷ rest) = ground (
    arith,
    length-append (take per_claim found) (kept per_claim rest),
    length-append found (everything rest),
    length-take per_claim found,
    length-kept rest,
  )

  kept-everything :
      (lists : List (List ReconcileCandidate))
      → exceeds lists ≡ false
      → kept per_claim lists ≡ everything lists
  kept-everything [] h = refl
  kept-everything (found ∷ rest) h =
      rw (take_all per_claim found (ground arith), kept-everything rest (ground arith)) refl

  -- What a plan is, for any lists of candidates.
  plan_from_lem :
      (lists : List (List ReconcileCandidate))
      → let plan = plan_from limits lists (record { candidates = []; truncated = false }) in
        (CandidatePlan.candidates plan ≡ take total (kept per_claim lists))
        × ((CandidatePlan.truncated plan ≡ false)
            ↔ (CandidatePlan.candidates plan ≡ everything lists))
  plan_from_lem lists =
      let empty : CandidatePlan = record { candidates = []; truncated = false } in
      let candidates = plan_from-candidates lists empty (omega arith) in
      let truncated = plan_from-truncated lists empty (omega arith) in
      (candidates, (whole candidates truncated, complete candidates truncated))
    where
      whole :
          {plan : CandidatePlan}
          → CandidatePlan.candidates plan ≡ take total (kept per_claim lists)
          → CandidatePlan.truncated plan
            ≡ (if exceeds lists then true else ltb total (length (kept per_claim lists)))
          → CandidatePlan.truncated plan ≡ false
          → CandidatePlan.candidates plan ≡ everything lists
      whole c t f =
          let no : exceeds lists ≡ false = ground (arith, t, f) in
          let fits : length (kept per_claim lists) ≤ total = ground (arith, t, f) in
          c ∙ take_all total (kept per_claim lists) fits ∙ kept-everything lists no

      complete :
          {plan : CandidatePlan}
          → CandidatePlan.candidates plan ≡ take total (kept per_claim lists)
          → CandidatePlan.truncated plan
            ≡ (if exceeds lists then true else ltb total (length (kept per_claim lists)))
          → CandidatePlan.candidates plan ≡ everything lists
          → CandidatePlan.truncated plan ≡ false
      complete c t e =
          let cut_length = length-take total (kept per_claim lists) in
          let same_length = ap length (sym c ∙ e) in
          ground (arith, t, cut_length, same_length, length-kept lists)

-- A plan has the first candidates, up to the bound of the whole, of those that the bound of each
-- claim keeps, claim by claim; and it is said to be truncated exactly when it is not
-- all candidates of the claims.
pub plan_candidates_lem :
    (u : Unicode) (hash : Text → Text) (claims : List ReconcileClaim) (artifact : CodeIndexArtifact)
    (limits : ReconcileLimits)
    → let plan = plan_candidates u hash claims artifact limits in
      let lists = ranked_of u hash artifact claims in
      (CandidatePlan.candidates plan
        ≡ take (ReconcileLimits.total limits) (kept (ReconcileLimits.per_claim limits) lists))
      × ((CandidatePlan.truncated plan ≡ false)
          ↔ (CandidatePlan.candidates plan ≡ everything lists))
unfolding plan_candidates
plan_candidates_lem u hash claims artifact limits =
    plan_from_lem limits (ranked_of u hash artifact claims)
