-- ===== src/JobControl/Steps.antt =====
-- The steps of requests, supervisors and runs, in any order.
use open_eo_ru_stac.Prelude.{ℕ, ◌≡◌, Bool, true, false, String, some, [], get_elem?}
use open_eo_ru_stac.Job.{JobStatus, queued, running as run_status, finished, error, JobRecord}
use open_eo_ru_stac.JobStore.{InMemoryJobStore}
use open_eo_ru_stac.JobControl.{
  Run, running, aborting, stopped, spawned, waiting, reading, writing, leaving, releasing,
  Supervisor, Request, start_checked, start_spawned, discard_read, discard_signalled, System, check,
  launch, register, discard, cancel, set_canceled, move, poll, take_cancel, read_status,
  write_status, deregister, release, run_writes, run_stops,
}

-- The statuses that a run sets.
pub data Writes : JobStatus → Type 0 where
  writes_queued : Writes queued
  writes_running : Writes run_status
  writes_finished : Writes finished
  writes_error : Writes error

-- A run that goes on: not aborted, or not yet at its next await.
pub data IsGoing : Run → Type 0 where
  goes_on : IsGoing running
  goes_to_await : IsGoing aborting

pub data Actor : Type 0 where
  client : Actor
  task : ℕ → Actor
  run_of : ℕ → Actor

abbrev pub RequestAt : System → ℕ → Request → Type 0
RequestAt s k r = get_elem? s.requests k ≡ some r

abbrev pub SupervisorAt : System → ℕ → Supervisor → Type 0
SupervisorAt s n v = get_elem? s.supervisors n ≡ some v

-- A step of a client's request, of the task of supervisor `n`, or of its run.
pub data Step : Actor → System → System → Type 0 where
  checks : (id : String) (s : System) → Step client s (check id s)
  launches :
      (k : ℕ) (id : String) (rec : JobRecord) (s : System)
      → RequestAt s k (start_checked id rec)
      → Step client s (launch k id rec s.permits s)
  registers :
      (k : ℕ) (id : String) (n : ℕ) (s : System)
      → RequestAt s k (start_spawned id n)
      → Step client s (register k id n s)
  discards : (id : String) (s : System) → Step client s (discard id s)
  cancels :
      (k : ℕ) (id : String) (was_active : Bool) (s : System)
      → RequestAt s k (discard_read id was_active)
      → Step client s (cancel k id was_active s)
  sets_canceled :
      (k : ℕ) (id : String) (was_active : Bool) (now : ℕ) (s : System)
      → RequestAt s k (discard_signalled id was_active)
      → Step client s (set_canceled k id was_active now s)
  polls :
      (n : ℕ) (v : Supervisor) (s : System)
      → SupervisorAt s n v
      → v.phase ≡ spawned
      → Step (task n) s (poll n v s)
  takes_cancel :
      (n : ℕ) (v : Supervisor) (s : System)
      → SupervisorAt s n v
      → v.phase ≡ waiting
      → v.signalled ≡ true
      → Step (task n) s (take_cancel n v s)
  joins :
      (n : ℕ) (v : Supervisor) (s : System)
      → SupervisorAt s n v
      → v.phase ≡ waiting
      → v.run ≡ stopped false
      → Step (task n) s (move n v leaving s)
  joins_panicked :
      (n : ℕ) (v : Supervisor) (s : System)
      → SupervisorAt s n v
      → v.phase ≡ waiting
      → v.run ≡ stopped true
      → Step (task n) s (move n v (reading error) s)
  reads :
      (n : ℕ) (v : Supervisor) (target : JobStatus) (s : System)
      → SupervisorAt s n v
      → v.phase ≡ reading target
      → Step (task n) s (read_status n v target s)
  writes :
      (n : ℕ) (v : Supervisor) (target : JobStatus) (now : ℕ) (s : System)
      → SupervisorAt s n v
      → v.phase ≡ writing target
      → Step (task n) s (write_status n v target now s)
  deregisters :
      (n : ℕ) (v : Supervisor) (s : System)
      → SupervisorAt s n v
      → v.phase ≡ leaving
      → Step (task n) s (deregister n v s)
  releases :
      (n : ℕ) (v : Supervisor) (s : System)
      → SupervisorAt s n v
      → v.phase ≡ releasing
      → Step (task n) s (release n v s)
  runs_write :
      (n : ℕ) (v : Supervisor) (status : JobStatus) (now : ℕ) (s : System)
      → SupervisorAt s n v
      → IsGoing v.run
      → Writes status
      → Step (run_of n) s (run_writes v status now s)
  runs_stop :
      (n : ℕ) (v : Supervisor) (panicked : Bool) (s : System)
      → SupervisorAt s n v
      → IsGoing v.run
      → Step (run_of n) s (run_stops n v panicked s)

-- A server starts with the jobs of its store, no task, and `max_jobs` permits.
unfoldable pub start : ℕ → InMemoryJobStore → System
start max_jobs store = record {
  store = store;
  registry = [];
  permits = max_jobs;
  supervisors = [];
  requests = [];
}

pub data Reach (max_jobs : ℕ) : System → Type 0 where
  started : (store : InMemoryJobStore) → Reach max_jobs (start max_jobs store)
  then_step : (a : Actor) (s t : System) → Reach max_jobs s → Step a s t → Reach max_jobs t
