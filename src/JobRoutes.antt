-- ===== src/JobRoutes.antt =====
-- The handlers of apps/orbit-openeo/src/routes/jobs.rs on one job or on the list of jobs, over the
-- in-memory store; those that start and cancel are in JobControl. Parameters: the JSON number of a
-- percentage, what serde_json reads, petgraph's cycle test, and the ids of the known processes.
pub mod Replies
pub mod Results
pub mod Creation
pub mod Downloads
mod Tests
use Prim.Native.String.{◌++◌ as ◌<>◌}
use open_eo_ru_stac.Prelude.{
  ℕ, ◌+◌, ◌-◌, ◌%◌, ◌^◌, Bool, String, Option, none, some, List, [], ◌∷◌, Result, ok, err, str_eq,
  if◌then◌else◌, decimal,
}
use open_eo_ru_stac.Prelude.Int.{ℤ}
use open_eo_ru_stac.Json.{
  Value, null, string, number, pos_int, Number, array, object, Items, empty, item, Fields, closed,
  field, get as get_value,
}
use open_eo_ru_stac.Civil.{iso8601}
use open_eo_ru_stac.Job.{
  JobStatus, finished, as_str as status_str, JobAsset, JobLogEntry, JobRecord, JobError,
}
use open_eo_ru_stac.JobStore.{
  InMemoryJobStore, create, get, list_for_user, set_metadata, delete, get_logs,
}
use open_eo_ru_stac.JobRunner.Interface.{FileKey, FileError, missing, forbidden, io}
use open_eo_ru_stac.JobRunner.{file_error_text}
use open_eo_ru_stac.ProcessGraph.{DiGraph, Node, GraphError, ProcessGraphAnalysis, build}
use open_eo_ru_stac.ProcessGraph.ProcessIds.{unsupported_process_ids}
use open_eo_ru_stac.LocalExecutor.{as_str, or_null, graph_error_text}
use open_eo_ru_stac.LocalExecutor.Requests.{within_process}
use Replies.{
  text_or_null, Response, Payload, no_body, json, bytes, respond, code_only, with_message, internal,
  store_failed, job_failed, members,
}

abbrev pub default_user : String
default_user = "anonymous"

-- `get(key).and_then(as_str)`.
unfoldable pub text_field : String → Value → Option String
unfolding get_value
text_field key v = elim (get_value key v) [ none ↦ none | some w ↦ as_str w ]

-- GET /jobs/{id}/logs
abbrev pub log_entry : JobLogEntry → Value
log_entry e = members (
    ("id", string e.id)
    ∷ ("level", string e.level)
    ∷ ("message", string e.message)
    ∷ ("time", string e.time)
    ∷ [])

abbrev pub log_entries : List JobLogEntry → Items
log_entries [] = empty
log_entries (e ∷ es) = item (log_entry e) (log_entries es)

abbrev pub logs_reply : String → Result (List JobLogEntry) JobError → Response
logs_reply id (err e) = job_failed id e
logs_reply id (ok logs) =
    respond 200 (json (members (("logs", array (log_entries logs)) ∷ ("links", array empty) ∷ [])))

unfoldable pub job_logs : String → InMemoryJobStore → Response
unfolding get_logs
job_logs id s = logs_reply id (get_logs id s)

-- PATCH and DELETE /jobs/{id}
abbrev pub update_reply : Result (Unit {0}) JobError → Response
update_reply (ok _) = respond 204 no_body
update_reply (err e) = store_failed e

unfoldable pub update_job : ℕ → String → Value → InMemoryJobStore → Response × InMemoryJobStore
unfolding set_metadata text_field
update_job now id patch s =
    let (r, t) =
      set_metadata now id (text_field "title" patch) (text_field "description" patch) s in
    (update_reply r, t)

-- The delete of the in-memory store gives no error.
unfoldable pub delete_job : String → InMemoryJobStore → Response × InMemoryJobStore
unfolding delete
delete_job id s = (respond 204 no_body, delete id s)

-- GET /jobs/{id}/estimate: sums of u64 wrap around.
abbrev pub total_size : List JobAsset → ℕ
total_size [] = 0
total_size (a ∷ assets) = (a.size + total_size assets) % 2 ^ 64

abbrev pub estimate_of : JobRecord → Response
estimate_of rec = respond 200 (
    json (
      members (
        ("costs", number (pos_int 0))
        ∷ ("duration", string ("PT" <> decimal (rec.updated_at - rec.created_at) <> "S"))
        ∷ ("size", number (pos_int (total_size rec.assets)))
        ∷ ("downloads_included", number (pos_int 0))
        ∷ [])))

abbrev pub estimate_reply : String → Result JobRecord JobError → Response
estimate_reply id (err e) = job_failed id e
estimate_reply id (ok rec) = estimate_of rec

unfoldable pub estimate_job : String → InMemoryJobStore → Response
unfolding get
estimate_job id s = estimate_reply id (get id s)

module _ (percent : ℤ → Number) where
  abbrev pub progress_json : Option ℤ → Value
  progress_json none = null
  progress_json (some p) = number (percent p)

  -- `JobRecord::to_openeo_json`.
  unfoldable pub to_openeo_json : JobRecord → Value
  unfolding iso8601 status_str
  to_openeo_json rec = members (
      ("id", string rec.id)
      ∷ ("title", text_or_null rec.title)
      ∷ ("description", text_or_null rec.description)
      ∷ ("process", rec.process)
      ∷ ("status", string (status_str rec.status))
      ∷ ("progress", progress_json rec.progress)
      ∷ ("created", string (iso8601 rec.created_at))
      ∷ ("updated", string (iso8601 rec.updated_at))
      ∷ [])

  -- GET /jobs
  abbrev pub records_json : List JobRecord → Items
  records_json [] = empty
  records_json (rec ∷ recs) = item (to_openeo_json rec) (records_json recs)

  unfoldable pub list_jobs : InMemoryJobStore → Value
  unfolding to_openeo_json list_for_user
  list_jobs s =
      members (
        ("jobs", array (records_json (list_for_user default_user s))) ∷ ("links", array empty) ∷ [])

  -- GET /jobs/{id}
  abbrev pub job_reply : String → Result JobRecord JobError → Response
  job_reply id (err e) = job_failed id e
  job_reply id (ok rec) = respond 200 (json (to_openeo_json rec))

  unfoldable pub get_job : String → InMemoryJobStore → Response
  unfolding to_openeo_json get
  get_job id s = job_reply id (get id s)

  -- POST /jobs, with the time and the id that the store gives.
  module _ (from_value : Value → Result (List Node) String) (is_cyclic_directed : DiGraph → Bool)
      (process_ids : List String) (now : ℕ) (fresh : String) where
    abbrev pub or_wrapped : Option Value → Value → Value
    or_wrapped (some process) body = process
    or_wrapped none body =
        members (("process_graph", or_null (get_value "process_graph" body)) ∷ [])

    abbrev pub bad_request : String → String → InMemoryJobStore → Response × InMemoryJobStore
    bad_request code message s = (respond 400 (with_message code message), s)

    abbrev pub joined : List String → String
    joined [] = ""
    joined (s ∷ []) = s
    joined (s ∷ t ∷ ss) = s <> ", " <> joined (t ∷ ss)

    abbrev pub created_reply : JobRecord → Response
    created_reply rec = record {
      status = 201;
      headers = ("location", "/jobs/" <> rec.id) ∷ ("openeo-identifier", rec.id) ∷ [];
      body = json (to_openeo_json rec);
    }

    abbrev pub supported : Value → InMemoryJobStore → List String → Response × InMemoryJobStore
    supported body s (id ∷ ids) =
        bad_request "ProcessUnsupported" ("unsupported process(es): " <> joined (id ∷ ids)) s
    supported body s [] =
        let (rec, t) =
          create fresh now default_user (text_field "title" body) (text_field "description" body)
            (or_wrapped (get_value "process" body) body) s in
        (created_reply rec, t)

    abbrev pub analysed :
        Value
        → InMemoryJobStore
        → Result ProcessGraphAnalysis GraphError
        → Response × InMemoryJobStore
    analysed body s (err e) = bad_request "ProcessGraphInvalid" (graph_error_text e) s
    analysed body s (ok _) = supported body s (unsupported_process_ids body process_ids)

    abbrev pub parsed :
        Value → InMemoryJobStore → Result (List Node) String → Response × InMemoryJobStore
    parsed body s (err text) = bad_request "ProcessGraphInvalid" text s
    parsed body s (ok nodes) = analysed body s (build is_cyclic_directed nodes)

    abbrev pub graph_given : Value → InMemoryJobStore → Option Value → Response × InMemoryJobStore
    graph_given body s none =
        bad_request "ProcessGraphMissing" "request body must contain process.process_graph" s
    graph_given body s (some graph) = parsed body s (from_value graph)

    unfoldable pub create_job : Value → InMemoryJobStore → Response × InMemoryJobStore
    unfolding create build to_openeo_json text_field get_value unsupported_process_ids
        graph_error_text
    create_job body s = graph_given body s (within_process (get_value "process" body))
