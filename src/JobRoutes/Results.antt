-- ===== src/JobRoutes/Results.antt =====
-- The results of a job: get_results and download_asset of routes/jobs.rs.
use Prim.Native.String.{◌++◌ as ◌<>◌}
use open_eo_ru_stac.Prelude.{
  ℕ, String, Option, none, some, List, [], ◌∷◌, Result, ok, err, str_eq, if◌then◌else◌, decimal,
}
use open_eo_ru_stac.Json.{
  Value, null, string, number, pos_int, array, object, empty, item, Fields, closed, field,
}
use open_eo_ru_stac.Civil.{iso8601}
use open_eo_ru_stac.Job.{JobStatus, finished, as_str as status_str, JobAsset, JobRecord, JobError}
use open_eo_ru_stac.JobStore.{InMemoryJobStore, get}
use open_eo_ru_stac.JobRunner.Interface.{FileKey, FileError, missing, forbidden, io}
use open_eo_ru_stac.JobRunner.{file_error_text}
use open_eo_ru_stac.JobRoutes.Replies.{
  text_or_null, strings, Response, json, bytes, respond, code_only, with_message, internal,
  store_failed, members,
}

-- GET /jobs/{id}/results: `insert` replaces the value of a name that is there.
unfoldable pub insert_member : String → Value → Fields → Fields
insert_member k v closed = field k v closed
insert_member k v (field j w fs) =
    if str_eq j k then field j v fs else field j w (insert_member k v fs)

abbrev pub asset_json : String → JobAsset → Value
asset_json id a = members (
    ("href", string ("/jobs/" <> id <> "/results/" <> a.name))
    ∷ ("type", string a.media_type)
    ∷ ("roles", array (strings ("data" ∷ [])))
    ∷ ("file:size", number (pos_int a.size))
    ∷ [])

unfoldable pub insert_assets : String → List JobAsset → Fields → Fields
unfolding insert_member
insert_assets id [] fs = fs
insert_assets id (a ∷ assets) fs =
    insert_assets id assets (insert_member a.name (asset_json id a) fs)

abbrev pub link_json : String → String → Value
link_json rel href =
    members (("rel", string rel) ∷ ("href", string href) ∷ ("type", string "application/json") ∷ [])

abbrev pub results_json : JobRecord → Value
results_json rec = members (
    ("stac_version", string "1.0.0")
    ∷ ("type", string "Feature")
    ∷ ("id", string rec.id)
    ∷ ("geometry", null)
    ∷ ("bbox", null)
    ∷ (
      "properties",
      members
          (("datetime", string (iso8601 rec.updated_at)) ∷ ("title", text_or_null rec.title) ∷ []),
    )
    ∷ ("assets", object (insert_assets rec.id rec.assets closed))
    ∷ (
      "links",
      array (
          item (link_json "self" ("/jobs/" <> rec.id <> "/results"))
            (item (link_json "canonical" ("/jobs/" <> rec.id)) empty)),
    )
    ∷ [])

abbrev pub not_finished : String → JobRecord → Response
not_finished id rec = respond 404 (
    with_message "JobNotFinished"
      ("job '" <> id <> "' is in state '" <> status_str rec.status <> "'"))

abbrev pub results_of : String → JobRecord → JobStatus → Response
results_of id rec finished = respond 200 (json (results_json rec))
results_of id rec _ = not_finished id rec

abbrev pub results_reply : String → Result JobRecord JobError → Response
results_reply id (err e) = store_failed e
results_reply id (ok rec) = results_of id rec rec.status

unfoldable pub get_results : String → InMemoryJobStore → Response
unfolding get insert_assets status_str
get_results id s = results_reply id (get id s)

-- GET /jobs/{id}/results/{asset}, where `read` is the read of the file store.
unfoldable pub find_asset : String → List JobAsset → Option JobAsset
find_asset name [] = none
find_asset name (a ∷ assets) = if str_eq a.name name then some a else find_asset name assets

abbrev pub file_reply : JobAsset → Result (List ℕ) FileError → Response
file_reply a (ok body) = record {
  status = 200;
  headers = ("content-type", a.media_type) ∷ ("content-length", decimal a.size) ∷ [];
  body = bytes body;
}
file_reply a (err missing) = respond 404 (code_only "ResultNotFound")
file_reply a (err (forbidden p)) = internal (file_error_text (forbidden p))
file_reply a (err (io m)) = internal (file_error_text (io m))

abbrev pub asset_reply :
    String → String → (FileKey → Result (List ℕ) FileError) → JobRecord → Option JobAsset → Response
asset_reply id name read rec none =
    respond 404
      (with_message "ResultNotFound" ("asset '" <> name <> "' not produced by job '" <> id <> "'"))
asset_reply id name read rec (some a) =
    file_reply a (read (record { user_id = rec.id; path = a.name }))

abbrev pub download_reply :
    String → String → (FileKey → Result (List ℕ) FileError) → Result JobRecord JobError → Response
download_reply id name read (err e) = store_failed e
download_reply id name read (ok rec) = asset_reply id name read rec (find_asset name rec.assets)

unfoldable pub download_asset :
    String → String → (FileKey → Result (List ℕ) FileError) → InMemoryJobStore → Response
unfolding get find_asset file_error_text
download_asset id name read s = download_reply id name read (get id s)
