-- ===== src/JobControl.antt =====
-- Starting and cancelling jobs: start_processing, its supervisor task and discard_results of
-- apps/orbit-openeo/src/routes/jobs.rs, and apps/orbit-openeo/src/job_registry.rs. The requests, the
-- supervisors and the runs are tasks of a runtime with several threads: between any two accesses to
-- what they share, the others go on. Of what a run writes to the store, only the status is kept.
pub mod Steps
pub mod Held
pub mod Permits
pub mod Later
pub mod Ending
pub mod Entries
pub mod Registry
pub mod Starting
mod Tests
use Prim.Native.String.{◌++◌ as ◌<>◌}
use open_eo_ru_stac.Prelude.{
  ℕ, zero, suc, ◌-◌, Bool, true, false, String, Option, none, some, List, [], ◌∷◌, ◌++◌, length,
  set, str_eq, if◌then◌else◌, Result, ok, err,
}
use open_eo_ru_stac.Json.{Value}
use open_eo_ru_stac.Job.{JobStatus, canceled, is_active, is_terminal, as_str, JobRecord, JobError}
use open_eo_ru_stac.JobStore.{InMemoryJobStore, get, set_status}
use open_eo_ru_stac.JobRoutes.Replies.{Response, respond, no_body, with_message, store_failed}

-- The task of a run: aborted, it goes on to its next await; stopped, it panicked or not.
pub data Run : Type 0 where
  unborn running aborting : Run
  stopped : Bool → Run

-- Where a supervisor stands: not polled yet; in the `select!`; about to read the status, which it is
-- to replace unless it is terminal; about to write it; about to deregister; about to drop the permit.
pub data Phase : Type 0 where
  spawned waiting : Phase
  reading writing : JobStatus → Phase
  leaving releasing ended : Phase

-- `signalled` is the permit of the `Notify`.
pub record Supervisor : Type 0 where
  pub job : String
  pub user_id : String
  pub process : Value
  pub phase : Phase
  pub run : Run
  pub signalled : Bool

-- Where a request stands, behind its first access to the store.
pub data Request : Type 0 where
  start_checked : String → JobRecord → Request
  start_spawned : String → ℕ → Request
  discard_read : String → Bool → Request
  discard_signalled : String → Bool → Request
  answered : Response → Request

-- The registry maps the id of a job to the number of its supervisor.
pub record System : Type 0 where
  pub store : InMemoryJobStore
  pub registry : List (String × ℕ)
  pub permits : ℕ
  pub supervisors : List Supervisor
  pub requests : List Request

-- `JobRegistry::register`, `deregister`, and the lookup of `cancel`.
unfoldable pub insert_entry : String → ℕ → List (String × ℕ) → List (String × ℕ)
insert_entry id n [] = (id, n) ∷ []
insert_entry id n ((j, m) ∷ es) = if str_eq j id then (j, n) ∷ es else (j, m) ∷ insert_entry id n es

unfoldable pub remove_entry : String → List (String × ℕ) → List (String × ℕ)
remove_entry id [] = []
remove_entry id ((j, m) ∷ es) =
    let rest = remove_entry id es in if str_eq j id then rest else (j, m) ∷ rest

unfoldable pub entry_of : String → List (String × ℕ) → Option ℕ
entry_of id [] = none
entry_of id ((j, m) ∷ es) = if str_eq j id then some m else entry_of id es

abbrev pub in_flight : System → ℕ
in_flight s = length s.registry

-- `notify_one` of the supervisor of that number.
unfoldable pub notify_one : ℕ → List Supervisor → List Supervisor
notify_one n [] = []
notify_one zero (v ∷ vs) = record v { signalled = true } ∷ vs
notify_one (suc n) (v ∷ vs) = v ∷ notify_one n vs

abbrev pub signal : Option ℕ → List Supervisor → List Supervisor
signal none vs = vs
signal (some n) vs = notify_one n vs

-- start_processing: the read of the job and the check of its status.
abbrev pub locked : String → JobRecord → Response
locked id rec =
    respond 409 (with_message "JobLocked" ("job '" <> id <> "' is already " <> as_str rec.status))

abbrev pub checked : String → Result JobRecord JobError → Request
checked id (err e) = answered (store_failed e)
checked id (ok rec) =
    if is_active rec.status then answered (locked id rec) else start_checked id rec

unfoldable pub check : String → System → System
unfolding get as_str
check id s = record s { requests = s.requests ++ checked id (get id s.store) ∷ [] }

-- `try_acquire_owned` and the spawn of the supervisor, of request number `k`.
abbrev pub queue_full : Response
queue_full = respond 503 (with_message "QueueFull" "maximum concurrent jobs reached; retry later")

abbrev pub supervisor : String → JobRecord → Supervisor
supervisor id rec = record {
  job = id;
  user_id = rec.user_id;
  process = rec.process;
  phase = spawned;
  run = unborn;
  signalled = false;
}

unfoldable pub launch : ℕ → String → JobRecord → ℕ → System → System
launch k id rec zero s = record s { requests = set s.requests k (answered queue_full) }
launch k id rec (suc left) s = record s {
  permits = left;
  supervisors = s.supervisors ++ supervisor id rec ∷ [];
  requests = set s.requests k (start_spawned id (length s.supervisors));
}

unfoldable pub register : ℕ → String → ℕ → System → System
unfolding insert_entry
register k id n s = record s {
  registry = insert_entry id n s.registry;
  requests = set s.requests k (answered (respond 202 no_body));
}

-- discard_results: the read, the signal, and the write of the status where the job was active.
abbrev pub discarded : String → Result JobRecord JobError → Request
discarded id (err e) = answered (store_failed e)
discarded id (ok rec) = discard_read id (is_active rec.status)

unfoldable pub discard : String → System → System
unfolding get
discard id s = record s { requests = s.requests ++ discarded id (get id s.store) ∷ [] }

unfoldable pub cancel : ℕ → String → Bool → System → System
unfolding notify_one entry_of
cancel k id was_active s = record s {
  supervisors = signal (entry_of id s.registry) s.supervisors;
  requests = set s.requests k (discard_signalled id was_active);
}

abbrev pub written : ℕ → String → JobStatus → InMemoryJobStore → InMemoryJobStore
written now id status store = (set_status now id status store).1

unfoldable pub set_canceled : ℕ → String → Bool → ℕ → System → System
unfolding set_status
set_canceled k id was_active now s = record s {
  store = if was_active then written now id canceled s.store else s.store;
  requests = set s.requests k (answered (respond 204 no_body));
}

-- What the supervisor of number `n`, which is `v`, does next.
unfoldable pub move : ℕ → Supervisor → Phase → System → System
move n v phase s = record s { supervisors = set s.supervisors n (record v { phase = phase }) }

-- The first poll spawns the run.
unfoldable pub poll : ℕ → Supervisor → System → System
poll n v s = record s {
  supervisors = set s.supervisors n (record v { phase = waiting; run = running });
}

-- `inner.abort()`.
abbrev pub aborted : Run → Run
aborted running = aborting
aborted run = run

unfoldable pub take_cancel : ℕ → Supervisor → System → System
take_cancel n v s = record s {
  supervisors = set s.supervisors n (record v { phase = reading canceled; run = aborted v.run });
}

-- The status that is to replace one that is not terminal, where the read succeeds.
abbrev pub unless_terminal : JobStatus → Result JobRecord JobError → Phase
unless_terminal target (err e) = leaving
unless_terminal target (ok rec) = if is_terminal rec.status then leaving else writing target

unfoldable pub read_status : ℕ → Supervisor → JobStatus → System → System
unfolding get move
read_status n v target s = move n v (unless_terminal target (get v.job s.store)) s

unfoldable pub write_status : ℕ → Supervisor → JobStatus → ℕ → System → System
unfolding set_status
write_status n v target now s = record s {
  store = written now v.job target s.store;
  supervisors = set s.supervisors n (record v { phase = leaving });
}

unfoldable pub deregister : ℕ → Supervisor → System → System
unfolding remove_entry
deregister n v s = record s {
  registry = remove_entry v.job s.registry;
  supervisors = set s.supervisors n (record v { phase = releasing });
}

unfoldable pub release : ℕ → Supervisor → System → System
release n v s = record s {
  permits = suc s.permits;
  supervisors = set s.supervisors n (record v { phase = ended });
}

-- A run writes the status of its job, and a run stops.
unfoldable pub run_writes : Supervisor → JobStatus → ℕ → System → System
unfolding set_status
run_writes v status now s = record s { store = written now v.job status s.store }

unfoldable pub run_stops : ℕ → Supervisor → Bool → System → System
run_stops n v panicked s = record s {
  supervisors = set s.supervisors n (record v { run = stopped panicked });
}
