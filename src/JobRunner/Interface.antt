-- ===== src/JobRunner/Interface.antt =====
-- The stores that a run writes through: the operations of the traits `JobStore` and `FileStore`
-- that `run_job` calls, and the contract of a job store, stated on the fields that a run changes.
use mathlib.Core.Option
use open_eo_ru_stac.Prelude.{
  ℕ, ◌≡◌, String, Option, none, some, List, [], ◌∷◌, ◌++◌, str_eq, if◌then◌else◌, Result, ok, err,
}
use open_eo_ru_stac.Prelude.Int.{ℤ}
use open_eo_ru_stac.Job.{JobStatus, JobAsset, JobError, not_found, clamp_progress}

abbrev pub Reply : Type 0 → Type 0
Reply S = Result (Unit {0}) JobError × S

pub record StoreOps (S : Type 0) : Type 0 where
  pub set_status : String → JobStatus → S → Reply S
  pub set_progress : String → ℤ → S → Reply S
  pub append_log : String → String → String → S → Reply S
  pub add_asset : String → JobAsset → S → Reply S

-- file_store.rs
pub record FileKey : Type 0 where
  pub user_id : String
  pub path : String

pub data FileError : Type 0 where
  missing : FileError
  forbidden io : String → FileError

pub record FileOps (F : Type 0) : Type 0 where
  pub put : FileKey → List ℕ → F → Result (Unit {0}) FileError × F

-- The fields of a job record that a run changes, but for times and logs.
pub record Summary : Type 0 where
  pub status : JobStatus
  pub progress : Option ℤ
  pub assets : List JobAsset

abbrev pub reply_for : String → Option Summary → Result (Unit {0}) JobError
reply_for id none = err (not_found id)
reply_for id (some _) = ok tt

-- `out` changes the summary of `id` by `f` where there is one, and no other.
pub record Does {S : Type 0} (summary : S → String → Option Summary) (id : String)
    (f : Summary → Summary) (s : S) (out : Reply S) : Type 0 where
  pub reply : out.0 ≡ reply_for id (summary s id)
  pub summaries :
      (j : String)
      → summary out.1 j ≡ (if str_eq id j then Option.map f (summary s j) else summary s j)

pub record StoreLaws {S : Type 0} (ops : StoreOps S) : Type 0 where
  pub summary : S → String → Option Summary
  pub set_status_lem :
      (id : String) (status : JobStatus) (s : S)
      → Does summary id (λ r. record r { status = status }) s (ops.set_status id status s)
  pub set_progress_lem :
      (id : String) (progress : ℤ) (s : S)
      → Does summary id
          (λ r. record r { progress = some (clamp_progress progress) })
          s
          (ops.set_progress id progress s)
  pub append_log_lem :
      (id level message : String) (s : S)
      → Does summary id (λ r. r) s (ops.append_log id level message s)
  pub add_asset_lem :
      (id : String) (asset : JobAsset) (s : S)
      → Does summary id
          (λ r. record r { assets = r.assets ++ asset ∷ [] })
          s
          (ops.add_asset id asset s)
