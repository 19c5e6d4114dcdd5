-- ===== src/Semantics/Workers/Conserved.antt =====
-- What the steps of the threads keep: each job is somewhere once, and no worker comes or goes.
use texo.Base.{
  ℕ, zero, suc, ◌+◌, ◌*◌, ◌≤◌, ◌<◌, ◌≡◌, refl, ap, ◌∙◌, false, some, List, [], ◌∷◌, ◌++◌, length,
  length-append, get_elem?, ◌==◌, if◌then◌else◌, arith, All, All-append,
}
use texo.Semantics.Workers.{Worker, Caller, Pool, Step, Reach, set_worker, idle_workers}

-- How often a job stands in a list.
abbrev pub count : ℕ → List ℕ → ℕ
count job [] = 0
count job (x ∷ xs) = (if x == job then 1 else 0) + count job xs

pub count-append : (job : ℕ) (xs ys : List ℕ) → count job (xs ++ ys) ≡ count job xs + count job ys
count-append job [] ys = omega arith
count-append job (x ∷ xs) ys = omega (arith, count-append job xs ys)

-- The sum of a weight over the workers.
abbrev pub weigh : (Worker → ℕ) → List Worker → ℕ
weigh w [] = 0
weigh w (v ∷ ws) = w v + weigh w ws

pub weigh-set :
    (w : Worker → ℕ) (ws : List Worker) (i : ℕ) (old new : Worker)
    → get_elem? ws i ≡ some old
    → weigh w (set_worker ws i new) + w old ≡ weigh w ws + w new
weigh-set w [] i old new h = cc
weigh-set w (v ∷ ws) zero old new h = ground arith
weigh-set w (v ∷ ws) (suc i) old new h = omega (arith, weigh-set w ws i old new h)

pub weigh-idle : (w : Worker → ℕ) (n : ℕ) → w Worker.idle ≡ 0 → weigh w (idle_workers n) ≡ 0
weigh-idle w zero h = refl
weigh-idle w (suc n) h = omega (arith, weigh-idle w n h)

pub length-set : (ws : List Worker) (i : ℕ) (w : Worker) → length (set_worker ws i w) ≡ length ws
length-set [] i w = refl
length-set (v ∷ ws) zero w = refl
length-set (v ∷ ws) (suc i) w = ap suc (length-set ws i w)

pub length-idle : (n : ℕ) → length (idle_workers n) ≡ n
length-idle zero = refl
length-idle (suc n) = ap suc (length-idle n)

-- Whether a worker has the job.
abbrev pub has_job : ℕ → Worker → ℕ
has_job job Worker.idle = 0
has_job job Worker.finished = 0
has_job job (Worker.holding j) = if j == job then 1 else 0
has_job job (Worker.judging j) = if j == job then 1 else 0

abbrev pub keys_of : {R : Type 0} → List (ℕ × R) → List ℕ
keys_of [] = []
keys_of ((job, outcome) ∷ results) = job ∷ keys_of results

pub count-keys :
    {R : Type 0} (job : ℕ) (xs ys : List (ℕ × R))
    → count job (keys_of (xs ++ ys)) ≡ count job (keys_of xs) + count job (keys_of ys)
count-keys job [] ys = omega arith
count-keys job ((j, o) ∷ xs) ys = omega (arith, count-keys job xs ys)

-- How often a job is anywhere.
abbrev pub present : {R : Type 0} → ℕ → Pool R → ℕ
present job s =
    count job s.unsent
    + count job s.channel
    + weigh (has_job job) s.workers
    + count job (keys_of s.results)

-- What is still to do: steps are worth the more, the earlier the stage of a job.
abbrev pub effort : Worker → ℕ
effort Worker.idle = 1
effort Worker.finished = 0
effort (Worker.holding job) = 3
effort (Worker.judging job) = 2

weigh-idle_workers : (n : ℕ) → weigh effort (idle_workers n) ≡ n
weigh-idle_workers zero = refl
weigh-idle_workers (suc n) = omega (arith, weigh-idle_workers n)

-- What the calling thread has still to do itself.
abbrev pub stages : Caller → ℕ
stages Caller.starting = 3
stages Caller.sending = 2
stages Caller.collecting = 1
stages Caller.returned = 0

abbrev pub work_left : {R : Type 0} → Pool R → ℕ
work_left s =
    4 * length s.unsent
    + 3 * length s.channel
    + weigh effort s.workers
    + stages s.caller
    + (if s.expired then 0 else 1)

module _ {R : Type 0} (exhausted : R) (outcome : ℕ → R) (capacity : ℕ) where
  -- No step loses or doubles a job.
  pub Step-present :
      (job : ℕ) {s t : Pool R} → Step exhausted outcome capacity s t → present job t ≡ present job s
  Step-present job (Step.send s j rest c e room) =
      omega (arith, ap (count job) e, count-append job s.channel (j ∷ []))
  Step-present job (Step.receive s i j rest w e) = omega (
    arith,
    ap (count job) e,
    weigh-set (has_job job) s.workers i Worker.idle (Worker.holding j) w,
  )
  Step-present job (Step.begin s i j w e) =
      omega (arith, weigh-set (has_job job) s.workers i (Worker.holding j) (Worker.judging j) w)
  Step-present job (Step.cut_off s i j w e) = omega (
    arith,
    weigh-set (has_job job) s.workers i (Worker.holding j) Worker.idle w,
    count-keys job s.results ((j, exhausted) ∷ []),
  )
  Step-present job (Step.reply s i j w) = omega (
    arith,
    weigh-set (has_job job) s.workers i (Worker.judging j) Worker.idle w,
    count-keys job s.results ((j, outcome j) ∷ []),
  )
  Step-present job (Step.started s e) = refl
  Step-present job (Step.sent s e u) = refl
  Step-present job (Step.disconnect s i w e shut) =
      omega (arith, weigh-set (has_job job) s.workers i Worker.idle Worker.finished w)
  Step-present job (Step.collect s e r all) = refl
  Step-present job (Step.expire s e) = refl

  -- Every step takes from the work that is left.
  pub Step-work_left :
      {s t : Pool R} → Step exhausted outcome capacity s t → work_left t < work_left s
  Step-work_left (Step.send s j rest c e room) =
      omega (arith, ap (λ (js : List ℕ). length js) e, length-append s.channel (j ∷ []))
  Step-work_left (Step.receive s i j rest w e) = omega (
    arith,
    ap (λ (js : List ℕ). length js) e,
    weigh-set effort s.workers i Worker.idle (Worker.holding j) w,
  )
  Step-work_left (Step.begin s i j w e) =
      omega (arith, weigh-set effort s.workers i (Worker.holding j) (Worker.judging j) w)
  Step-work_left (Step.cut_off s i j w e) =
      omega (arith, weigh-set effort s.workers i (Worker.holding j) Worker.idle w)
  Step-work_left (Step.reply s i j w) =
      omega (arith, weigh-set effort s.workers i (Worker.judging j) Worker.idle w)
  Step-work_left (Step.started s e) = omega (arith, ap stages e)
  Step-work_left (Step.sent s e u) = omega (arith, ap stages e)
  Step-work_left (Step.disconnect s i w e shut) =
      omega (arith, weigh-set effort s.workers i Worker.idle Worker.finished w)
  Step-work_left (Step.collect s e r all) = omega (arith, ap stages e)
  Step-work_left (Step.expire s e) = rw e (omega arith)

  pub Step-workers :
      {s t : Pool R} → Step exhausted outcome capacity s t → length t.workers ≡ length s.workers
  Step-workers (Step.send s j rest c e room) = refl
  Step-workers (Step.receive s i j rest w e) = length-set s.workers i (Worker.holding j)
  Step-workers (Step.begin s i j w e) = length-set s.workers i (Worker.judging j)
  Step-workers (Step.cut_off s i j w e) = length-set s.workers i Worker.idle
  Step-workers (Step.reply s i j w) = length-set s.workers i Worker.idle
  Step-workers (Step.started s e) = refl
  Step-workers (Step.sent s e u) = refl
  Step-workers (Step.disconnect s i w e shut) = length-set s.workers i Worker.finished
  Step-workers (Step.collect s e r all) = refl
  Step-workers (Step.expire s e) = refl

  -- A result is the live outcome of its job.
  abbrev pub IsLive : ℕ × R → Type 0
  IsLive (job, result) = result ≡ outcome job

  -- While there is time, every result is a live one.
  abbrev pub IsTimely : Pool R → Type 0
  IsTimely s = s.expired ≡ false → All IsLive s.results

  pub Step-IsTimely : {s t : Pool R} → Step exhausted outcome capacity s t → IsTimely s → IsTimely t
  Step-IsTimely (Step.send s j rest c e room) timely = timely
  Step-IsTimely (Step.receive s i j rest w e) timely = timely
  Step-IsTimely (Step.begin s i j w e) timely = timely
  Step-IsTimely (Step.cut_off s i j w e) timely = λ still. cc
  Step-IsTimely (Step.reply s i j w) timely =
      λ still. All-append IsLive s.results _ (timely still) (refl, tt)
  Step-IsTimely (Step.started s e) timely = timely
  Step-IsTimely (Step.sent s e u) timely = timely
  Step-IsTimely (Step.disconnect s i w e shut) timely = timely
  Step-IsTimely (Step.collect s e r all) timely = timely
  Step-IsTimely (Step.expire s e) timely = λ still. cc

  module _ (jobs : List ℕ) where
    pub Reach-present :
        (job : ℕ) {n : ℕ} {s : Pool R}
        → Reach exhausted outcome capacity jobs n s
        → present job s ≡ count job jobs
    Reach-present job Reach.here = omega (arith, weigh-idle (has_job job) capacity refl)
    Reach-present job (Reach.next r st) = Step-present job st ∙ Reach-present job r

    pub Reach-work_left :
        {n : ℕ} {s : Pool R}
        → Reach exhausted outcome capacity jobs n s
        → n + work_left s ≤ 4 * length jobs + capacity + 4
    Reach-work_left Reach.here = omega (arith, weigh-idle_workers capacity)
    Reach-work_left (Reach.next r st) = omega (arith, Step-work_left st, Reach-work_left r)

    pub Reach-workers :
        {n : ℕ} {s : Pool R}
        → Reach exhausted outcome capacity jobs n s
        → length s.workers ≡ capacity
    Reach-workers Reach.here = length-idle capacity
    Reach-workers (Reach.next r st) = Step-workers st ∙ Reach-workers r

    pub Reach-IsTimely :
        {n : ℕ} {s : Pool R} → Reach exhausted outcome capacity jobs n s → IsTimely s
    Reach-IsTimely Reach.here = λ still. tt
    Reach-IsTimely (Reach.next r st) = Step-IsTimely st (Reach-IsTimely r)
