-- ===== src/Semantics/Workers/Results.antt =====
-- What the threads of a pass leave when they have ended.
use texo.Base.{
  ℕ, ◌≡◌, refl, ap, ◌∙◌, false, Bool-cases, none, some, List, [], ◌∷◌, ◌==◌, ==_iff, if◌then◌else◌,
  ltb, arith, All, fold, inl, inr,
}
use texo.Base.Number.{number_ord}
use texo.Base.Map.{BTreeMap, get, insert, get-insert}
use texo.Semantics.Workers.{Worker, Pool, Reach, AllFinished, IsDone, collected, insert_result}
use texo.Semantics.Workers.Closing.{returned_lem}
use texo.Semantics.Workers.Conserved.{
  count, weigh, has_job, keys_of, Reach-present, Reach-IsTimely, IsLive,
}

weigh-AllFinished : (job : ℕ) (ws : List Worker) → AllFinished ws → weigh (has_job job) ws ≡ 0
weigh-AllFinished job [] a = refl
weigh-AllFinished job (Worker.finished ∷ ws) a = omega (arith, weigh-AllFinished job ws a)
weigh-AllFinished job (Worker.idle ∷ ws) a = absurd a
weigh-AllFinished job (Worker.holding j ∷ ws) a = absurd a
weigh-AllFinished job (Worker.judging j ∷ ws) a = absurd a

module _ {R : Type 0} (exhausted : R) (outcome : ℕ → R) where
  -- Live results that are collected, over a map that already has what is found before them.
  fold-live :
      (capacity : ℕ) (results : List (ℕ × R)) (m : BTreeMap ℕ R) (job : ℕ)
      → All (IsLive exhausted outcome capacity) results
      → get (fold insert_result m results) job
        ≡ (if ltb 0 (count job (keys_of results)) then some (outcome job) else get m job)
  fold-live capacity [] m job live = refl
  fold-live capacity ((j, o) ∷ results) m job live =
      fold-live capacity results (insert m j o) job live.1 ∙ elim (Bool-cases (j == job)) [
        | inl here ↦
            ground (arith, get-insert m j job o, live.0, ap outcome ((==_iff j job).0 here))
        | inr other ↦ ground (arith, get-insert m j job o)
      ]

  module _ (capacity : ℕ) (jobs : List ℕ) where
    -- When the threads have ended, each job was answered as often as it was given, whatever
    -- happened in between; and if the time was not over, the collected map has for each job what a
    -- live call gives, and nothing else.
    pub results_collected :
        {n : ℕ} {s : Pool R} (job : ℕ)
        → Reach exhausted outcome capacity jobs n s
        → IsDone s
        → (count job (keys_of s.results) ≡ count job jobs)
          × (s.expired ≡ false
              → get (collected s) job
                ≡ (if ltb 0 (count job jobs) then some (outcome job) else none))
    unfolding collected get
    results_collected {s} job r done = (
      answered,
      λ still.
          fold-live capacity s.results [] job
            (Reach-IsTimely exhausted outcome capacity jobs r still)
          ∙ ap (λ (c : ℕ). if ltb 0 c then some (outcome job) else none) answered,
    )
      where
        answered : count job (keys_of s.results) ≡ count job jobs
        answered =
            let (sent, empty, all) = returned_lem exhausted outcome capacity r done in
            omega (
              arith,
              Reach-present exhausted outcome capacity jobs job r,
              ap (count job) sent,
              ap (count job) empty,
              weigh-AllFinished job s.workers all,
            )
