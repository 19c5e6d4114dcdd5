-- ===== src/Semantics/Workers/Closing.antt =====
-- When the channels are closed: a worker ends only behind the last job, and the calling thread
-- returns only behind the last worker.
use texo.Base.{
  ℕ, zero, suc, ◌≤◌, ◌≡◌, ◌≢◌, refl, sym, ap, subst, true, false, Bool, some, List, [], ◌∷◌, ◌++◌,
  length, length-append, get_elem?, arith,
}
use texo.Semantics.Workers.{
  Worker, Caller, Pool, Step, Reach, AllFinished, set_worker, idle_workers,
}
use texo.Semantics.Workers.Conserved.{Reach-workers}

AllFinished-get :
    (ws : List Worker) (i : ℕ) (w : Worker)
    → AllFinished ws
    → get_elem? ws i ≡ some w
    → w ≡ Worker.finished
AllFinished-get [] i w a h = cc
AllFinished-get (Worker.finished ∷ ws) zero w a h = cc
AllFinished-get (Worker.finished ∷ ws) (suc i) w a h = AllFinished-get ws i w a h
AllFinished-get (Worker.idle ∷ ws) i w a h = absurd a
AllFinished-get (Worker.holding job ∷ ws) i w a h = absurd a
AllFinished-get (Worker.judging job ∷ ws) i w a h = absurd a

-- A worker that is set to another state is the only one that changes.
finished-set :
    (ws : List Worker) (i k : ℕ) (w : Worker)
    → w ≢ Worker.finished
    → get_elem? (set_worker ws i w) k ≡ some Worker.finished
    → get_elem? ws k ≡ some Worker.finished
finished-set [] i k w n h = h
finished-set (v ∷ ws) zero zero w n h = absurd (n (cc))
finished-set (v ∷ ws) zero (suc k) w n h = h
finished-set (v ∷ ws) (suc i) zero w n h = h
finished-set (v ∷ ws) (suc i) (suc k) w n h = finished-set ws i k w n h

-- What the stage of the calling thread says of its jobs, its senders and the workers.
abbrev pub IsStage : Caller → List ℕ → List Worker → Bool → Bool → Type 0
IsStage Caller.starting unsent ws job_tx result_tx = job_tx ≡ true
IsStage Caller.sending unsent ws job_tx result_tx = (job_tx ≡ true) × (result_tx ≡ false)
IsStage Caller.collecting unsent ws job_tx result_tx =
    (job_tx ≡ false) × (result_tx ≡ false) × (unsent ≡ [])
IsStage Caller.returned unsent ws job_tx result_tx = (unsent ≡ []) × AllFinished ws

IsStage-set :
    (c : Caller) (unsent : List ℕ) (ws : List Worker) (job_tx result_tx : Bool) (i : ℕ)
    (old new : Worker)
    → get_elem? ws i ≡ some old
    → old ≢ Worker.finished
    → IsStage c unsent ws job_tx result_tx
    → IsStage c unsent (set_worker ws i new) job_tx result_tx
IsStage-set Caller.starting unsent ws job_tx result_tx i old new h n stage = stage
IsStage-set Caller.sending unsent ws job_tx result_tx i old new h n stage = stage
IsStage-set Caller.collecting unsent ws job_tx result_tx i old new h n stage = stage
IsStage-set Caller.returned unsent ws job_tx result_tx i old new h n stage =
    absurd (n (AllFinished-get ws i old stage.1 h))

idle_workers-finished : (n i : ℕ) → get_elem? (idle_workers n) i ≡ some Worker.finished → ⊥
idle_workers-finished zero i h = cc
idle_workers-finished (suc n) zero h = cc
idle_workers-finished (suc n) (suc i) h = idle_workers-finished n i h

empty_of_le : (xs : List ℕ) → length xs ≤ 0 → xs ≡ []
empty_of_le [] h = refl
empty_of_le (x ∷ xs) h = absurd (omega (arith, h))

idle≢finished : Worker.idle ≢ Worker.finished
idle≢finished e = cc

holding≢finished : (job : ℕ) → Worker.holding job ≢ Worker.finished
holding≢finished job e = cc

judging≢finished : (job : ℕ) → Worker.judging job ≢ Worker.finished
judging≢finished job e = cc

module _ {R : Type 0} where
  -- A worker that has ended found the channel empty and closed.
  abbrev pub IsClosed : Pool R → Type 0
  IsClosed s =
      (i : ℕ) → get_elem? s.workers i ≡ some Worker.finished → (s.job_tx ≡ false) × (s.channel ≡ [])

  abbrev pub StageOf : Caller → Pool R → Type 0
  StageOf c s = IsStage c s.unsent s.workers s.job_tx s.result_tx

  abbrev pub IsOrderly : ℕ → Pool R → Type 0
  IsOrderly capacity s = IsClosed s × StageOf s.caller s × (length s.channel ≤ capacity)

  pub stage_at : (s : Pool R) (c : Caller) → s.caller ≡ c → StageOf s.caller s → StageOf c s
  stage_at s c e stage = subst (λ (d : Caller). StageOf d s) e stage

module _ {R : Type 0} (exhausted : R) (outcome : ℕ → R) (capacity : ℕ) where
  -- Setting a worker that has not ended to a state in which it has not ended either.
  working :
      (s : Pool R) (i : ℕ) (old new : Worker) (results : List (ℕ × R))
      → get_elem? s.workers i ≡ some old
      → old ≢ Worker.finished
      → new ≢ Worker.finished
      → IsOrderly capacity s
      → IsOrderly capacity (record s { workers = set_worker s.workers i new; results = results })
  working s i old new results h n m (closed, stage, few) = (
    λ k ended. closed k (finished-set s.workers i k new m ended),
    IsStage-set s.caller s.unsent s.workers s.job_tx s.result_tx i old new h n stage,
    few,
  )

  Step-IsOrderly :
      {s t : Pool R}
      → Step exhausted outcome capacity s t
      → IsOrderly capacity s
      → IsOrderly capacity t
  Step-IsOrderly (Step.started s e) (closed, stage, few) =
      (closed, (stage_at s Caller.starting e stage, refl), few)
  Step-IsOrderly (Step.send s job rest e u room) (closed, stage, few) =
      let open_still = (stage_at s Caller.sending e stage).0 in
      (
        λ i ended. let shut = (closed i ended).0 in absurd (cc (shut, open_still)),
        subst (λ (d : Caller). StageOf d (record s { unsent = rest })) (sym e)
            (stage_at s Caller.sending e stage),
        omega (arith, length-append s.channel (job ∷ [])),
      )
  Step-IsOrderly (Step.sent s e u) (closed, stage, few) =
      (λ i ended. (refl, (closed i ended).1), (refl, (stage_at s Caller.sending e stage).1, u), few)
  Step-IsOrderly (Step.receive s i job rest w e) (closed, stage, few) = (
    λ k ended.
        let empty =
          (closed k
            (finished-set s.workers i k (Worker.holding job) (holding≢finished job) ended)).1 in
        absurd (cc (e, empty)),
    IsStage-set s.caller s.unsent s.workers s.job_tx s.result_tx i Worker.idle (Worker.holding job)
        w idle≢finished stage,
    omega (arith, ap (λ (js : List ℕ). length js) e),
  )
  Step-IsOrderly (Step.begin s i job w e) orderly =
      working s i (Worker.holding job) (Worker.judging job) s.results w (holding≢finished job)
        (judging≢finished job) orderly
  Step-IsOrderly (Step.cut_off s i job w e) orderly =
      working s i (Worker.holding job) Worker.idle (s.results ++ ((job, exhausted) ∷ [])) w
        (holding≢finished job) idle≢finished orderly
  Step-IsOrderly (Step.reply s i job w) orderly =
      working s i (Worker.judging job) Worker.idle (s.results ++ ((job, outcome job) ∷ [])) w
        (judging≢finished job) idle≢finished orderly
  Step-IsOrderly (Step.disconnect s i w e shut) (closed, stage, few) = (
    λ k ended. (shut, e),
    IsStage-set s.caller s.unsent s.workers s.job_tx s.result_tx i Worker.idle Worker.finished w
        idle≢finished stage,
    few,
  )
  Step-IsOrderly (Step.collect s e r all) (closed, stage, few) =
      (closed, ((stage_at s Caller.collecting e stage).2, all), few)
  Step-IsOrderly (Step.expire s e) orderly = orderly

  pub Reach-IsOrderly :
      {jobs : List ℕ} {n : ℕ} {s : Pool R}
      → Reach exhausted outcome capacity jobs n s
      → IsOrderly capacity s
  Reach-IsOrderly Reach.here =
      (λ i ended. absurd (idle_workers-finished capacity i ended), refl, omega arith)
  Reach-IsOrderly (Reach.next r st) = Step-IsOrderly st (Reach-IsOrderly r)

  pub all_closed :
      (s : Pool R) (ws : List Worker)
      → s.workers ≡ ws
      → AllFinished ws
      → IsOrderly capacity s
      → length ws ≡ capacity
      → s.channel ≡ []
  all_closed s [] e a (closed, stage, few) sized = empty_of_le s.channel (omega (arith, few, sized))
  all_closed s (Worker.finished ∷ ws) e a (closed, stage, few) sized =
      (closed 0 (ap (λ (vs : List Worker). get_elem? vs 0) e)).1
  all_closed s (Worker.idle ∷ ws) e a orderly sized = absurd a
  all_closed s (Worker.holding job ∷ ws) e a orderly sized = absurd a
  all_closed s (Worker.judging job ∷ ws) e a orderly sized = absurd a

  -- When the calling thread has returned, every job was sent and received, and every worker ended.
  pub returned_lem :
      {jobs : List ℕ} {n : ℕ} {s : Pool R}
      → Reach exhausted outcome capacity jobs n s
      → s.caller ≡ Caller.returned
      → (s.unsent ≡ []) × (s.channel ≡ []) × AllFinished s.workers
  returned_lem {jobs} {s = s} r e =
      let orderly = Reach-IsOrderly r in
      let (sent, all) = stage_at s Caller.returned e orderly.1 in
      (
        sent,
        all_closed s s.workers refl all orderly (Reach-workers exhausted outcome capacity jobs r),
        all,
      )
