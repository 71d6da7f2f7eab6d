-- ===== src/JobRoutes/Tests.antt =====
-- A job that is created, and one whose result is downloaded.
use open_eo_ru_stac.Prelude.{◌≡◌, refl, String, none, List, [], ◌∷◌, Result, ok, decimal}
use open_eo_ru_stac.Prelude.Int.{ℤ, pos, negsuc}
use open_eo_ru_stac.Json.{Value, Number, float, null, string, object, field, closed}
use open_eo_ru_stac.JobStore.{find}
use open_eo_ru_stac.JobStore.Tests.{two_jobs, first_job}
use open_eo_ru_stac.JobRunner.{World, SyncResult, returned, run_job, default_asset_name}
use open_eo_ru_stac.JobRunner.Memory.{Clocked, memory_ops, summary_of}
use open_eo_ru_stac.JobRunner.Tests.{clock}
use open_eo_ru_stac.ProcessGraph.{Node}
use open_eo_ru_stac.ProcessGraph.ProcessIds.{collect_process_ids}
use open_eo_ru_stac.FileStore.{InMemoryFileStore, memory_files, put, get, validate_path}
use open_eo_ru_stac.FileStore.Refinement.{get-put}
use open_eo_ru_stac.JobRoutes.Results.{download_asset, find_asset}
use open_eo_ru_stac.JobRoutes.Replies.{bytes}
use open_eo_ru_stac.JobRoutes.Downloads.{download_asset-run_job}

abbrev percent : ℤ → Number
percent (pos n) = float n
percent (negsuc n) = float n

-- A codec that reads one node from every value.
abbrev one_node : Value → Result (List Node) String
one_node v = ok (("a", record { process_id = "add"; arguments = closed; result = none }) ∷ [])

abbrev body : Value
body = object (field "process" (object (field "process_graph" null closed)) closed)

-- A callback may name a process that is not known: the job is made.
abbrev callback_body : Value
callback_body = object (
    field "process_graph"
      (object (
        field "a"
          (object (
            field "process_id" (string "add") (
              field "arguments"
                (object (
                  field "process"
                    (object (
                      field "process_graph"
                        (object (
                          field "b" (object (field "process_id" (string "missing") closed)) closed))
                        closed))
                    closed))
                closed)))
          closed))
      closed)

add_only : collect_process_ids callback_body ≡ "add" ∷ []
unfolding collect_process_ids
add_only = refl

abbrev world : World Clocked InMemoryFileStore
world = record { store = (two_jobs, 0); files = []; events = []; metrics = [] }

abbrev result : SyncResult
result = record { content_type = "application/json"; body = 123 ∷ 125 ∷ [] }

download_asset-run_job_example :
    download_asset "a" "result.json"
      (λ key.
        get key
          (run_job
            (memory_ops clock)
            memory_files
            "a"
            "u"
            600
            (returned (ok result))
            world).1.files)
      (run_job (memory_ops clock) memory_files "a" "u" 600 (returned (ok result)) world).1.store.0
    ≡ record {
      status = 200;
      headers = ("content-type", "application/json") ∷ ("content-length", "2") ∷ [];
      body = bytes (123 ∷ 125 ∷ []);
    }
unfolding find put validate_path find_asset decimal default_asset_name
download_asset-run_job_example =
    download_asset-run_job clock memory_files (λ f key. get key f) "a" "u" 600 result
      (summary_of first_job) world (λ key b f took. get-put key b f took) refl refl refl
