-- ===== src/Job.antt =====
-- The job types of apps/orbit-openeo/src/job_store.rs. Progress is a whole number of percent, as
-- every caller writes it.
use open_eo_ru_stac.Prelude.{ℕ, Bool, true, false, String, Option, List, ltb, if◌then◌else◌}
use open_eo_ru_stac.Prelude.Int.{ℤ, pos, negsuc}
use open_eo_ru_stac.Json.{Value}

pub data JobStatus : Type 0 where
  created queued running canceled finished error : JobStatus

unfoldable pub as_str : JobStatus → String
as_str created = "created"
as_str queued = "queued"
as_str running = "running"
as_str canceled = "canceled"
as_str finished = "finished"
as_str error = "error"

-- `matches!(status, Queued | Running)`.
abbrev pub is_active : JobStatus → Bool
is_active queued = true
is_active running = true
is_active _ = false

-- `matches!(status, Finished | Error | Canceled)`.
abbrev pub is_terminal : JobStatus → Bool
is_terminal finished = true
is_terminal error = true
is_terminal canceled = true
is_terminal _ = false

pub record JobAsset : Type 0 where
  pub name : String
  pub media_type : String
  pub size : ℕ

pub record JobLogEntry : Type 0 where
  pub id : String
  pub level : String
  pub message : String
  pub time : String

pub record JobRecord : Type 0 where
  pub id : String
  pub user_id : String
  pub title : Option String
  pub description : Option String
  pub process : Value
  pub status : JobStatus
  pub progress : Option ℤ
  pub created_at : ℕ
  pub updated_at : ℕ
  pub assets : List JobAsset

pub data JobError : Type 0 where
  not_found backend : String → JobError

-- `progress.clamp(0.0, 100.0)`.
abbrev pub clamp_progress : ℤ → ℤ
clamp_progress (negsuc n) = pos 0
clamp_progress (pos n) = if ltb 100 n then pos 100 else pos n
