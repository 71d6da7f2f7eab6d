-- ===== src/LocalExecutor/Jobs.antt =====
-- A job whose graph the local executor evaluates.
use open_eo_ru_stac.Prelude.{ℕ, ◌≡◌, String, Option, none, List, Result, ok, Bool}
use open_eo_ru_stac.Json.{Value}
use open_eo_ru_stac.JobRunner.{ExecError, SyncResult, returned, World, run_job}
use open_eo_ru_stac.JobRunner.Interface.{StoreOps, StoreLaws, FileOps, Summary}
use open_eo_ru_stac.JobRunner.Lifecycle.{Ends, stored}
use open_eo_ru_stac.ProcessGraph.{Node, DiGraph}
use open_eo_ru_stac.LocalExecutor.Floats.{Environment}
use open_eo_ru_stac.LocalExecutor.Totality.{Gives, Refused}
use open_eo_ru_stac.LocalExecutor.Requests.{Codec, json}

module _ {F S G : Type 0} (env : Environment F) (codec : Codec) (is_cyclic : DiGraph → Bool)
    (toposort : DiGraph → Option (List ℕ)) (ops : StoreOps S) (laws : StoreLaws ops)
    (file_ops : FileOps G) (job_id user_id : String) where
  -- How the job ends, by what the graph comes to.
  pub data JobEnds (nodes : List Node) (result : String) (start : Summary) (w : World S G)
      (secs : ℕ) (r : Result SyncResult ExecError) : Type 0 where
    computed :
        (v : Value)
        → Gives env nodes result v
        → r ≡ ok (json codec v)
        → Ends ops laws file_ops job_id user_id start
            (stored file_ops job_id (returned (ok (json codec v))) w.files)
            (run_job ops file_ops job_id user_id secs (returned r) w)
        → JobEnds nodes result start w secs r
    failed :
        (e : ExecError)
        → Refused env nodes e
        → Ends ops laws file_ops job_id user_id start none
            (run_job ops file_ops job_id user_id secs (returned r) w)
        → JobEnds nodes result start w secs r
