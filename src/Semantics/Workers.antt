-- ===== src/Semantics/Workers.antt =====
-- src/semantics/pipeline/runtime.rs: the judge calls of a page on several threads, as src/reconcile.rs
-- runs its proposals. A bounded channel carries the jobs, an unbounded one the results; the steps of
-- the threads interleave freely. A channel is closed when its last sender is dropped: the calling
-- thread holds the sender of the jobs, every worker a clone of the sender of the results. The channels
-- have their receivers for as long as something is sent, so that no `send` fails.
pub mod Conserved
pub mod Closing
pub mod Results
pub mod Progress
use texo.Base.{
  ℕ, zero, suc, ◌+◌, ◌<◌, ◌≡◌, Bool, true, false, Option, none, some, List, [], ◌∷◌, ◌++◌, length,
  get_elem?, fold, if◌then◌else◌, unwrap_or,
}
use texo.Base.Number.{number_ord}
use texo.Base.Map.{BTreeMap, insert}
use texo.Semantics.{Claims, PairOutcome, PendingPair, Relater}
use texo.Semantics.Acquire.{judge, budget_exhausted}

-- A worker waits for a job, holds one before it reads the clock, waits for the judge, or has ended,
-- by which its sender of the results is dropped.
pub data Worker : Type 0 where
  idle finished : Worker
  holding judging : ℕ → Worker

-- The calling thread has started the workers, sends the jobs, collects the results, or has returned.
pub data Caller : Type 0 where
  starting sending collecting returned : Caller

abbrev pub set_worker : List Worker → ℕ → Worker → List Worker
set_worker [] i w = []
set_worker (v ∷ ws) zero w = w ∷ ws
set_worker (v ∷ ws) (suc i) w = v ∷ set_worker ws i w

pub record Pool (R : Type 0) : Type 0 where
  -- What the sender has still to send, and the channel of the jobs.
  pub unsent : List ℕ
  pub channel : List ℕ
  pub workers : List Worker
  pub results : List (ℕ × R)
  pub caller : Caller
  -- Whether the calling thread still has its senders of the jobs and of the results.
  pub job_tx : Bool
  pub result_tx : Bool
  -- Whether the time of the pass is over.
  pub expired : Bool

abbrev pub idle_workers : ℕ → List Worker
idle_workers zero = []
idle_workers (suc n) = Worker.idle ∷ idle_workers n

abbrev pub AllFinished : List Worker → Type 0
AllFinished [] = Unit
AllFinished (Worker.idle ∷ ws) = ⊥
AllFinished (Worker.finished ∷ ws) = AllFinished ws
AllFinished (Worker.holding job ∷ ws) = ⊥
AllFinished (Worker.judging job ∷ ws) = ⊥

-- `drop(job_rx); drop(result_tx);`, after which the jobs are sent.
abbrev pub drop_result_tx : {R : Type 0} → Pool R → Pool R
drop_result_tx s = record s { caller = Caller.sending; result_tx = false }

-- `drop(job_tx);`, after which the results are collected.
abbrev pub drop_job_tx : {R : Type 0} → Pool R → Pool R
drop_job_tx s = record s { caller = Caller.collecting; job_tx = false }

-- `outcome` is what a live call gives for a job, `exhausted` what a job gets when the time is over,
-- and `capacity` is the number of threads.
module _ {R : Type 0} (exhausted : R) (outcome : ℕ → R) (capacity : ℕ) where
  pub data Step : Pool R → Pool R → Type 0 where
    started : (s : Pool R) → s.caller ≡ Caller.starting → Step s (drop_result_tx s)
    send :
        (s : Pool R) (job : ℕ) (rest : List ℕ)
        → s.caller ≡ Caller.sending
        → s.unsent ≡ job ∷ rest
        → length s.channel < capacity
        → Step s (record s { unsent = rest; channel = s.channel ++ (job ∷ []) })
    sent : (s : Pool R) → s.caller ≡ Caller.sending → s.unsent ≡ [] → Step s (drop_job_tx s)
    receive :
        (s : Pool R) (i job : ℕ) (rest : List ℕ)
        → get_elem? s.workers i ≡ some Worker.idle
        → s.channel ≡ job ∷ rest
        → Step s
            (record s { channel = rest; workers = set_worker s.workers i (Worker.holding job) })
    begin :
        (s : Pool R) (i job : ℕ)
        → get_elem? s.workers i ≡ some (Worker.holding job)
        → s.expired ≡ false
        → Step s (record s { workers = set_worker s.workers i (Worker.judging job) })
    cut_off :
        (s : Pool R) (i job : ℕ)
        → get_elem? s.workers i ≡ some (Worker.holding job)
        → s.expired ≡ true
        → Step s (record s {
          workers = set_worker s.workers i Worker.idle;
          results = s.results ++ ((job, exhausted) ∷ []);
        })
    reply :
        (s : Pool R) (i job : ℕ)
        → get_elem? s.workers i ≡ some (Worker.judging job)
        → Step s (record s {
          workers = set_worker s.workers i Worker.idle;
          results = s.results ++ ((job, outcome job) ∷ []);
        })
    -- `job_rx.recv()` fails: the channel is empty, and its sender is dropped.
    disconnect :
        (s : Pool R) (i : ℕ)
        → get_elem? s.workers i ≡ some Worker.idle
        → s.channel ≡ []
        → s.job_tx ≡ false
        → Step s (record s { workers = set_worker s.workers i Worker.finished })
    -- `result_rx.iter()` ends: all senders of the results are dropped, those of the workers with them.
    collect :
        (s : Pool R)
        → s.caller ≡ Caller.collecting
        → s.result_tx ≡ false
        → AllFinished s.workers
        → Step s (record s { caller = Caller.returned })
    expire : (s : Pool R) → s.expired ≡ false → Step s (record s { expired = true })

  abbrev pub start : List ℕ → Pool R
  start jobs = record {
    unsent = jobs;
    channel = [];
    workers = idle_workers capacity;
    results = [];
    caller = Caller.starting;
    job_tx = true;
    result_tx = true;
    expired = false;
  }

  -- A state that some number of steps leads to from the start.
  pub data Reach (jobs : List ℕ) : ℕ → Pool R → Type 0 where
    here : Reach jobs 0 (start jobs)
    next : {n : ℕ} {s t : Pool R} → Reach jobs n s → Step s t → Reach jobs (suc n) t

-- The threads have ended: the calling thread has returned from the scope.
abbrev pub IsDone : {R : Type 0} → Pool R → Type 0
IsDone s = s.caller ≡ Caller.returned

-- `result_rx.iter().collect()`.
abbrev pub insert_result : {R : Type 0} → BTreeMap ℕ R → ℕ × R → BTreeMap ℕ R
insert_result m (job, outcome) = insert m job outcome

unfoldable pub collected : {R : Type 0} → Pool R → BTreeMap ℕ R
collected s = fold insert_result [] s.results

-- What a live call gives for a pending pair.
abbrev pub outcome_at : Claims → Relater → List PendingPair → ℕ → PairOutcome
outcome_at claims relate pending job = elim (get_elem? pending job) [
  | some pair ↦ judge claims relate pair
  | none ↦ PairOutcome.failed budget_exhausted
]
