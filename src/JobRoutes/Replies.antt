-- ===== src/JobRoutes/Replies.antt =====
-- What the handlers of routes/jobs.rs answer.
use Prim.Native.String.{◌++◌ as ◌<>◌}
use open_eo_ru_stac.Prelude.{Option, none, some, ℕ, String, List, [], ◌∷◌}
use open_eo_ru_stac.Json.{Items, empty, item, null, Fields, Value, string, object, field, closed}
use open_eo_ru_stac.Job.{JobError, not_found, backend}
use open_eo_ru_stac.JobRunner.{error_text}

pub data Payload : Type 0 where
  no_body : Payload
  json : Value → Payload
  bytes : List ℕ → Payload

pub record Response : Type 0 where
  pub status : ℕ
  pub headers : List (String × String)
  pub body : Payload

abbrev pub respond : ℕ → Payload → Response
respond status body = record { status = status; headers = []; body = body }

abbrev pub code_only : String → Payload
code_only code = json (object (field "code" (string code) closed))

abbrev pub with_message : String → String → Payload
with_message code message =
    json (object (field "code" (string code) (field "message" (string message) closed)))

abbrev pub internal : String → Response
internal text = respond 500 (with_message "Internal" text)

-- The two arms for an error of the store, where `JobNotFound` comes alone, and where it comes with a
-- message.
abbrev pub store_failed : JobError → Response
store_failed (not_found id) = respond 404 (code_only "JobNotFound")
store_failed (backend text) = internal (error_text (backend text))

abbrev pub job_failed : String → JobError → Response
job_failed job_id (not_found id) =
    respond 404 (with_message "JobNotFound" ("job '" <> job_id <> "' not found"))
job_failed job_id (backend text) = internal (error_text (backend text))

-- An object of `json!`.
abbrev pub fields : List (String × Value) → Fields
fields [] = closed
fields ((k, v) ∷ kvs) = field k v (fields kvs)

abbrev pub members : List (String × Value) → Value
members kvs = object (fields kvs)

abbrev pub text_or_null : Option String → Value
text_or_null none = null
text_or_null (some s) = string s

abbrev pub strings : List String → Items
strings [] = empty
strings (s ∷ ss) = item (string s) (strings ss)
