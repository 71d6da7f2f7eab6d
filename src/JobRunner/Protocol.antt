-- ===== src/JobRunner/Protocol.antt =====
-- The events and the metrics of a run, over any stores and any executor.
use mathlib.Core.List.{append-nil, append_assoc}
use open_eo_ru_stac.Prelude.{◌≡◌, refl, sym, ◌∙◌, String, List, [], ◌∷◌, ◌++◌, map, Result, ok, err}
use open_eo_ru_stac.JobRunner.{
  JobEventKind, started, progress, completed, failed, JobEvent, ExecError, SyncResult, Executed,
  elapsed, returned, RunOutcome, done, gave_up, store_error, World, run_job, finalised, asset_added,
  body_stored, call, put_file, publish, record_terminal, computed, executed, entered, accepted,
  timed_out, executor_failed,
}
use open_eo_ru_stac.Prelude.{ℕ}
use open_eo_ru_stac.Job.{JobError}
use open_eo_ru_stac.JobRunner.Interface.{StoreOps, FileOps, FileError}

-- An outcome, the kinds of the events published on the way, and the metrics recorded.
pub data Protocol : RunOutcome → List JobEventKind → List String → Type 0 where
  completes :
      Protocol done (started ∷ progress ∷ progress ∷ progress ∷ completed ∷ []) ("finished" ∷ [])
  times_out :
      (m : String) → Protocol (gave_up m) (started ∷ progress ∷ failed ∷ []) ("timeout" ∷ [])
  fails :
      (m : String)
      → Protocol (gave_up m) (started ∷ progress ∷ progress ∷ failed ∷ []) ("error" ∷ [])
  body_lost : (m : String) → Protocol (gave_up m) (started ∷ progress ∷ progress ∷ failed ∷ []) []
  asset_lost :
      (m : String) → Protocol (store_error m) (started ∷ progress ∷ progress ∷ failed ∷ []) []
  finish_refused :
      (m : String) → Protocol (store_error m) (started ∷ progress ∷ progress ∷ progress ∷ []) []
  run_refused : (m : String) → Protocol (store_error m) (started ∷ []) []
  queue_refused : (m : String) → Protocol (store_error m) [] []

abbrev Shape : Type 1
Shape = RunOutcome → List JobEventKind → List String → Type 0

module _ {S F : Type 0} (ops : StoreOps S) (file_ops : FileOps F) (job_id user_id : String) where
  abbrev pub event : JobEventKind → JobEvent
  event kind = record { user_id = user_id; job_id = job_id; kind = kind }

  -- A run that begins behind `events` and `metrics` adds to both as `P` allows.
  pub record Emits (P : RunOutcome → List JobEventKind → List String → Type 0)
      (events : List JobEvent) (metrics : List String) (out : RunOutcome × World S F) : Type 0 where
    pub kinds : List JobEventKind
    pub recorded : List String
    pub shape : P out.0 kinds recorded
    pub published : out.1.events ≡ events ++ map event kinds
    pub measured : out.1.metrics ≡ metrics ++ recorded

  Emits-publish :
      (P : Shape) (kind : JobEventKind) (events : List JobEvent) (metrics : List String)
      (out : RunOutcome × World S F)
      → Emits (λ o ks ms. P o (kind ∷ ks) ms) (events ++ event kind ∷ []) metrics out
      → Emits P events metrics out
  Emits-publish P kind events metrics out e = record {
    kinds = kind ∷ e.kinds;
    recorded = e.recorded;
    shape = e.shape;
    published = e.published ∙ append_assoc events (event kind ∷ []) (map event e.kinds);
    measured = e.measured;
  }

  abbrev Behind : List JobEventKind → RunOutcome → List JobEventKind → List String → Type 0
  Behind before o ks ms = Protocol o (before ++ ks) ms

  -- Each arm, behind the events that precede it.
  timed_out-Emits :
      (secs : ℕ) (w : World S F)
      → Emits
          (Behind (started ∷ progress ∷ []))
          w.events
          w.metrics
          (timed_out ops file_ops job_id user_id secs w)
  unfolding timed_out call publish record_terminal
  timed_out-Emits secs w = record {
    kinds = failed ∷ [];
    recorded = "timeout" ∷ [];
    shape = times_out _;
    published = refl;
    measured = refl;
  }

  executor_failed-Emits :
      (e : ExecError) (w : World S F)
      → Emits
          (Behind (started ∷ progress ∷ progress ∷ []))
          w.events
          w.metrics
          (executor_failed ops file_ops job_id user_id e w)
  unfolding executor_failed call publish record_terminal
  executor_failed-Emits e w = record {
    kinds = failed ∷ [];
    recorded = "error" ∷ [];
    shape = fails _;
    published = refl;
    measured = refl;
  }

  finalised-Emits :
      (r : Result (Unit {0}) JobError) (w : World S F)
      → Emits
          (Behind (started ∷ progress ∷ progress ∷ progress ∷ []))
          w.events
          w.metrics
          (finalised ops file_ops job_id user_id r w)
  unfolding finalised call publish record_terminal
  finalised-Emits (err e) w = record {
    kinds = [];
    recorded = [];
    shape = finish_refused _;
    published = sym (append-nil w.events);
    measured = sym (append-nil w.metrics);
  }
  finalised-Emits (ok _) w = record {
    kinds = completed ∷ [];
    recorded = "finished" ∷ [];
    shape = completes;
    published = refl;
    measured = refl;
  }

  asset_added-Emits :
      (r : Result (Unit {0}) JobError) (w : World S F)
      → Emits
          (Behind (started ∷ progress ∷ progress ∷ []))
          w.events
          w.metrics
          (asset_added ops file_ops job_id user_id r w)
  unfolding asset_added call publish
  asset_added-Emits (err e) w = record {
    kinds = failed ∷ [];
    recorded = [];
    shape = asset_lost _;
    published = refl;
    measured = sym (append-nil w.metrics);
  }
  asset_added-Emits (ok _) w =
      Emits-publish (Behind (started ∷ progress ∷ progress ∷ [])) progress w.events w.metrics _
        (finalised-Emits _ _)

  body_stored-Emits :
      (result : SyncResult) (r : Result (Unit {0}) FileError) (w : World S F)
      → Emits
          (Behind (started ∷ progress ∷ progress ∷ []))
          w.events
          w.metrics
          (body_stored ops file_ops job_id user_id result r w)
  unfolding body_stored call publish
  body_stored-Emits result (err e) w = record {
    kinds = failed ∷ [];
    recorded = [];
    shape = body_lost _;
    published = refl;
    measured = sym (append-nil w.metrics);
  }
  body_stored-Emits result (ok _) w = asset_added-Emits _ _

  computed-Emits :
      (r : Result SyncResult ExecError) (w : World S F)
      → Emits
          (Behind (started ∷ progress ∷ progress ∷ []))
          w.events
          w.metrics
          (computed ops file_ops job_id user_id r w)
  unfolding computed put_file
  computed-Emits (err e) w = executor_failed-Emits e w
  computed-Emits (ok result) w = body_stored-Emits result _ _

  executed-Emits :
      (secs : ℕ) (x : Executed) (w : World S F)
      → Emits
          (Behind (started ∷ progress ∷ []))
          w.events
          w.metrics
          (executed ops file_ops job_id user_id secs x w)
  unfolding executed call publish
  executed-Emits secs elapsed w = timed_out-Emits secs w
  executed-Emits secs (returned r) w =
      Emits-publish (Behind (started ∷ progress ∷ [])) progress w.events w.metrics _
        (computed-Emits r _)

  entered-Emits :
      (secs : ℕ) (x : Executed) (r : Result (Unit {0}) JobError) (w : World S F)
      → Emits
          (Behind (started ∷ []))
          w.events
          w.metrics
          (entered ops file_ops job_id user_id secs x r w)
  unfolding entered call publish
  entered-Emits secs x (err e) w = record {
    kinds = [];
    recorded = [];
    shape = run_refused _;
    published = sym (append-nil w.events);
    measured = sym (append-nil w.metrics);
  }
  entered-Emits secs x (ok _) w =
      Emits-publish (Behind (started ∷ [])) progress w.events w.metrics _ (executed-Emits secs x _)

  accepted-Emits :
      (secs : ℕ) (x : Executed) (r : Result (Unit {0}) JobError) (w : World S F)
      → Emits Protocol w.events w.metrics (accepted ops file_ops job_id user_id secs x r w)
  unfolding accepted call publish
  accepted-Emits secs x (err e) w = record {
    kinds = [];
    recorded = [];
    shape = queue_refused _;
    published = sym (append-nil w.events);
    measured = sym (append-nil w.metrics);
  }
  accepted-Emits secs x (ok _) w =
      Emits-publish Protocol started w.events w.metrics _ (entered-Emits secs x _ _)

  -- Whatever the stores and the executor do, a run adds to the published events and to the metrics
  -- what `Protocol` allows for its outcome, and nothing else: a finished run publishes `started`,
  -- three times `progress` and `completed`, and records "finished"; a run that times out or whose
  -- executor fails ends with `failed` and records "timeout" or "error"; one whose body or asset is
  -- not stored ends with `failed` and records nothing; one whose status is refused stops where it
  -- is, with no last event and no metric.
  pub run_job-Emits :
      (secs : ℕ) (x : Executed) (w : World S F)
      → Emits Protocol w.events w.metrics (run_job ops file_ops job_id user_id secs x w)
  unfolding run_job
  run_job-Emits secs x w = accepted-Emits secs x _ _
