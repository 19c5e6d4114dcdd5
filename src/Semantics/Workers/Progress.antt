-- ===== src/Semantics/Workers/Progress.antt =====
-- The threads of a pass end, and never wait for one another for ever.
use texo.Base.{
  ℕ, suc, ◌+◌, ◌*◌, ◌≤◌, ◌<◌, ◌≡◌, refl, ap, Bool-cases, some, List, [], ◌∷◌, length, get_elem?,
  arith, ◌⊎◌, inl, inr,
}
use texo.Semantics.Workers.{Worker, Caller, Pool, Step, Reach, AllFinished, IsDone}
use texo.Semantics.Workers.Closing.{IsOrderly, Reach-IsOrderly, stage_at, all_closed, returned_lem}
use texo.Semantics.Workers.Conserved.{Reach-work_left, Reach-workers}

abbrev IsBusy : List Worker → ℕ → ℕ → Type 0
IsBusy ws i job =
    (get_elem? ws i ≡ some (Worker.holding job)) ⊎ (get_elem? ws i ≡ some (Worker.judging job))

-- A worker that has a job, or one that waits for one, or none that goes on.
find_worker :
    (ws : List Worker)
    → ((i : ℕ) × (job : ℕ) × IsBusy ws i job)
      ⊎ (((i : ℕ) × (get_elem? ws i ≡ some Worker.idle)) ⊎ AllFinished ws)
find_worker [] = inr (inr tt)
find_worker (Worker.holding job ∷ ws) = inl (0, job, inl refl)
find_worker (Worker.judging job ∷ ws) = inl (0, job, inr refl)
find_worker (Worker.idle ∷ ws) = inr (inl (0, refl))
find_worker (Worker.finished ∷ ws) = elim (find_worker ws) [
  | inl (i, job, at) ↦ inl (suc i, job, at)
  | inr (inl (i, at)) ↦ inr (inl (suc i, at))
  | inr (inr all) ↦ inr (inr all)
]

Caller-cases :
    (c : Caller)
    → ((c ≡ Caller.starting) ⊎ (c ≡ Caller.sending))
      ⊎ ((c ≡ Caller.collecting) ⊎ (c ≡ Caller.returned))
Caller-cases Caller.starting = inl (inl refl)
Caller-cases Caller.sending = inl (inr refl)
Caller-cases Caller.collecting = inr (inl refl)
Caller-cases Caller.returned = inr (inr refl)

List-cases {ℓ} :
    {A : Type ℓ} (xs : List A) → (xs ≡ []) ⊎ ((x : A) × (rest : List A) × (xs ≡ x ∷ rest))
List-cases [] = inl refl
List-cases (x ∷ xs) = inr (x, xs, refl)

module _ {R : Type 0} (exhausted : R) (outcome : ℕ → R) (capacity : ℕ) where
  -- A step that does not wait for the time to run out.
  abbrev pub CanStep : Pool R → Type 0
  CanStep s = (t : Pool R) × Step exhausted outcome capacity s t × (t.expired ≡ s.expired)

  busy-CanStep :
      (s : Pool R) (i job : ℕ)
      → (get_elem? s.workers i ≡ some (Worker.holding job))
        ⊎ (get_elem? s.workers i ≡ some (Worker.judging job))
      → CanStep s
  busy-CanStep s i job (inr judging) = (_, Step.reply s i job judging, refl)
  busy-CanStep s i job (inl holding) = elim (Bool-cases s.expired) [
    | inl over ↦ (_, Step.cut_off s i job holding over, refl)
    | inr still ↦ (_, Step.begin s i job holding still, refl)
  ]

  -- While jobs are sent, a full channel has an idle worker to receive from it.
  sending-CanStep :
      (s : Pool R)
      → 0 < capacity
      → IsOrderly capacity s
      → length s.workers ≡ capacity
      → s.caller ≡ Caller.sending
      → ((i : ℕ) × (get_elem? s.workers i ≡ some Worker.idle)) ⊎ AllFinished s.workers
      → CanStep s
  sending-CanStep s some_worker orderly sized e waiting = elim (List-cases s.unsent) [
    | inl none_left ↦ (_, Step.sent s e none_left, refl)
    | inr (job, rest, u) ↦ elim (List-cases s.channel) [
      | inl empty ↦
          (_, Step.send s job rest e u (omega (arith, ap (λ (js : List ℕ). length js) empty)), refl)
      | inr (first, others, c) ↦ elim waiting [
        | inl (i, idle) ↦ (_, Step.receive s i first others idle c, refl)
        | inr all ↦
            (let empty = all_closed exhausted outcome capacity s s.workers refl all orderly sized in
              absurd (cc (empty, c)))
      ]
    ]
  ]

  -- Once the sender of the jobs is dropped, the workers empty the channel and end.
  collecting-CanStep :
      (s : Pool R)
      → IsOrderly capacity s
      → s.caller ≡ Caller.collecting
      → ((i : ℕ) × (get_elem? s.workers i ≡ some Worker.idle)) ⊎ AllFinished s.workers
      → CanStep s
  collecting-CanStep s (closed, stage, few) e waiting =
      let (no_jobs, no_results, sent) = stage_at s Caller.collecting e stage in
      elim waiting [
        | inr all ↦ (_, Step.collect s e no_results all, refl)
        | inl (i, idle) ↦ elim (List-cases s.channel) [
          | inl empty ↦ (_, Step.disconnect s i idle empty no_jobs, refl)
          | inr (job, rest, c) ↦ (_, Step.receive s i job rest idle c, refl)
        ]
      ]

  waiting-CanStep :
      (s : Pool R)
      → 0 < capacity
      → IsOrderly capacity s
      → length s.workers ≡ capacity
      → ((i : ℕ) × (get_elem? s.workers i ≡ some Worker.idle)) ⊎ AllFinished s.workers
      → IsDone s ⊎ CanStep s
  waiting-CanStep s some_worker orderly sized waiting = elim (Caller-cases s.caller) [
    | inl (inl e) ↦ inr (_, Step.started s e, refl)
    | inl (inr e) ↦ inr (sending-CanStep s some_worker orderly sized e waiting)
    | inr (inl e) ↦ inr (collecting-CanStep s orderly e waiting)
    | inr (inr e) ↦ inl e
  ]

  -- From every state that the threads reach with at least one worker, either the calling thread has
  -- returned, all jobs are received and all workers have ended, or some thread can go on at once,
  -- whether or not the time is over: none waits for ever on a channel that nobody closes. And however
  -- the steps interleave, there are at most four to a job, one to a worker, and four.
  pub threads_end :
      (jobs : List ℕ) {n : ℕ} {s : Pool R}
      → 0 < capacity
      → Reach exhausted outcome capacity jobs n s
      → ((IsDone s × (s.unsent ≡ []) × (s.channel ≡ []) × AllFinished s.workers) ⊎ CanStep s)
        × (n ≤ 4 * length jobs + capacity + 4)
  threads_end jobs {n} {s} some_worker r = (
    live (find_worker s.workers),
    omega (arith, Reach-work_left exhausted outcome capacity jobs r),
  )
    where
      ended :
          IsDone s ⊎ CanStep s
          → (IsDone s × (s.unsent ≡ []) × (s.channel ≡ []) × AllFinished s.workers) ⊎ CanStep s
      ended (inl done) =
          let (sent, empty, all) = returned_lem exhausted outcome capacity r done in
          inl (done, sent, empty, all)
      ended (inr step) = inr step

      live :
          ((i : ℕ) × (job : ℕ) × IsBusy s.workers i job)
            ⊎ (((i : ℕ) × (get_elem? s.workers i ≡ some Worker.idle)) ⊎ AllFinished s.workers)
          → (IsDone s × (s.unsent ≡ []) × (s.channel ≡ []) × AllFinished s.workers) ⊎ CanStep s
      live (inl (i, job, at)) = inr (busy-CanStep s i job at)
      live (inr waiting) = ended (
          waiting-CanStep s some_worker (Reach-IsOrderly exhausted outcome capacity r)
            (Reach-workers exhausted outcome capacity jobs r) waiting)
