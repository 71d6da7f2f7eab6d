-- ===== src/JobRunner.antt =====
-- apps/orbit-openeo/src/runner.rs: `run_job`, which drives one job through its lifecycle.
-- The job store, the file store and the executor are trait objects in the code: here an interface,
-- an interface, and the result that the executor gives within the timeout. What the run publishes
-- and what it records as terminal metric is kept in the world in order of time.
mod AssetName
pub mod Interface
pub mod Protocol
pub mod Lifecycle
pub mod Files
pub mod Memory
pub mod Tests
use Prim.Native.String.{◌++◌ as ◌<>◌}
use open_eo_ru_stac.Prelude.{ℕ, String, List, [], ◌∷◌, ◌++◌, length, Result, ok, err, decimal}
use open_eo_ru_stac.Prelude.Int.{ℤ, pos}
use open_eo_ru_stac.Job.{
  JobStatus, queued, running, finished, error, JobAsset, JobError, not_found, backend,
}
use Interface.{StoreOps, FileOps, FileKey, FileError, missing, forbidden, io}
unfoldable pub use AssetName.{default_asset_name}

-- event_bus.rs
pub data JobEventKind : Type 0 where
  started progress completed failed cancelled : JobEventKind

pub record JobEvent : Type 0 where
  pub user_id : String
  pub job_id : String
  pub kind : JobEventKind

-- executor.rs
pub data ExecError : Type 0 where
  invalid_graph unknown_process backend_fault per_pixel_computation : String → ExecError

pub record SyncResult : Type 0 where
  pub content_type : String
  pub body : List ℕ

-- What `tokio::time::timeout` around `executor.run_sync` gives.
pub data Executed : Type 0 where
  elapsed : Executed
  returned : Result SyncResult ExecError → Executed

pub data RunOutcome : Type 0 where
  done : RunOutcome
  gave_up store_error : String → RunOutcome

pub error_text : JobError → String
error_text (not_found id) = "job not found: " <> id
error_text (backend m) = "job store error: " <> m

unfoldable pub file_error_text : FileError → String
file_error_text missing = "file not found"
file_error_text (forbidden p) = "forbidden path: " <> p
file_error_text (io m) = "io error: " <> m

unfoldable pub format_exec_error : ExecError → String
format_exec_error (invalid_graph m) = "invalid_graph: " <> m
format_exec_error (unknown_process p) = "unknown_process: " <> p
format_exec_error (backend_fault m) = "backend: " <> m
format_exec_error (per_pixel_computation m) = "per_pixel_computation: " <> m

unfoldable pub timeout_text : ℕ → String
timeout_text secs = "job timed out after " <> decimal secs <> "s"

-- What a run can change: the two stores, what it published, and the outcomes that it recorded.
pub record World (S F : Type 0) : Type 0 where
  pub store : S
  pub files : F
  pub events : List JobEvent
  pub metrics : List String

abbrev pub Run : Type 0 → Type 0 → Type 0 → Type 0
Run S F A = World S F → A × World S F

module _ {S F A B : Type 0} where
  infixl 5 ◌>>=◌
  abbrev ◌>>=◌ : Run S F A → (A → Run S F B) → Run S F B
  ◌>>=◌ m f w = let (a, w') = m w in f a w'

  infixl 5 ◌>>◌
  abbrev ◌>>◌ : Run S F A → Run S F B → Run S F B
  m >> k = m >>= λ _. k

abbrev pure : {S F A : Type 0} → A → Run S F A
pure a w = (a, w)

module _ {S F : Type 0} (ops : StoreOps S) (file_ops : FileOps F) (job_id user_id : String) where
  call : (S → Result (Unit {0}) JobError × S) → Run S F (Result (Unit {0}) JobError)
  call m w = let (r, s) = m w.store in (r, record w { store = s })

  put_file : FileKey → List ℕ → Run S F (Result (Unit {0}) FileError)
  put_file key body w = let (r, f) = file_ops.put key body w.files in (r, record w { files = f })

  publish : JobEventKind → Run S F (Unit {0})
  publish kind w = (
    tt,
    record w {
      events = w.events ++ record { user_id = user_id; job_id = job_id; kind = kind } ∷ [];
    },
  )

  record_terminal : String → Run S F (Unit {0})
  record_terminal outcome w = (tt, record w { metrics = w.metrics ++ outcome ∷ [] })

  -- The `Err(_elapsed)` arm.
  timed_out : ℕ → Run S F RunOutcome
  timed_out secs = do
    call (ops.append_log job_id "error" (timeout_text secs))
    call (ops.set_status job_id error)
    publish failed
    record_terminal "timeout"
    pure (gave_up (timeout_text secs))

  -- The arm for an executor's error.
  executor_failed : ExecError → Run S F RunOutcome
  executor_failed e = do
    call (ops.append_log job_id "error" ("executor failed: " <> format_exec_error e))
    call (ops.set_status job_id error)
    publish failed
    record_terminal "error"
    pure (gave_up (format_exec_error e))

  -- Behind `set_status(Finished)`.
  finalised : Result (Unit {0}) JobError → Run S F RunOutcome
  finalised (err e) = pure (store_error (error_text e))
  finalised (ok _) = do
    call (ops.append_log job_id "info" "job finished")
    call (ops.set_progress job_id (pos 100))
    publish completed
    record_terminal "finished"
    pure done

  -- Behind `add_asset`.
  asset_added : Result (Unit {0}) JobError → Run S F RunOutcome
  asset_added (err e) = do
    call (ops.set_status job_id error)
    publish failed
    pure (store_error ("add_asset: " <> error_text e))
  asset_added (ok _) = do
    call (ops.set_progress job_id (pos 95))
    publish progress
    r ← call (ops.set_status job_id finished)
    finalised r

  -- Behind `files.put`.
  body_stored : SyncResult → Result (Unit {0}) FileError → Run S F RunOutcome
  body_stored result (err e) = do
    call (ops.set_status job_id error)
    publish failed
    pure (gave_up ("file_store: " <> file_error_text e))
  body_stored result (ok _) = do
    r ← call (
        ops.add_asset job_id (record {
          name = default_asset_name result.content_type;
          media_type = result.content_type;
          size = length result.body;
        }))
    asset_added r

  -- Phase 2 and 3, by what the executor gave.
  computed : Result SyncResult ExecError → Run S F RunOutcome
  computed (err e) = executor_failed e
  computed (ok result) = do
    r ←
        put_file (record { user_id = job_id; path = default_asset_name result.content_type })
          result.body
    body_stored result r

  executed : ℕ → Executed → Run S F RunOutcome
  executed secs elapsed = timed_out secs
  executed secs (returned result) = do
    call (ops.set_progress job_id (pos 80))
    publish progress
    computed result

  -- Behind `set_status(Running)`.
  entered : ℕ → Executed → Result (Unit {0}) JobError → Run S F RunOutcome
  entered secs x (err e) = pure (store_error (error_text e))
  entered secs x (ok _) = do
    call (ops.append_log job_id "info" "job started")
    call (ops.set_progress job_id (pos 10))
    publish progress
    executed secs x

  -- Behind `set_status(Queued)`.
  accepted : ℕ → Executed → Result (Unit {0}) JobError → Run S F RunOutcome
  accepted secs x (err e) = pure (store_error (error_text e))
  accepted secs x (ok _) = do
    publish started
    r ← call (ops.set_status job_id running)
    entered secs x r

  -- The run, where the timeout is `secs` and the executor gives `x`.
  unfoldable pub run_job : ℕ → Executed → Run S F RunOutcome
  unfolding call put_file publish record_terminal timed_out executor_failed finalised asset_added
      body_stored computed executed entered accepted error_text file_error_text
  run_job secs x = do r ← call (ops.set_status job_id queued); accepted secs x r
