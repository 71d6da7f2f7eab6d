-- ===== src/JobRunner/Files.antt =====
-- What a run does to the file store.
use open_eo_ru_stac.Prelude.{ℕ, ◌≡◌, refl, String, some, Result, ok, err}
use open_eo_ru_stac.Job.{queued, running, JobError}
use open_eo_ru_stac.JobRunner.{
  SyncResult, returned, World, default_asset_name, run_job, finalised, asset_added, body_stored,
  call, put_file, publish, record_terminal, computed, executed, entered, accepted,
}
use open_eo_ru_stac.JobRunner.Interface.{StoreOps, StoreLaws, FileOps, FileKey, FileError, Summary}
use open_eo_ru_stac.JobRunner.Lifecycle.{Does-ok, behind_status}

abbrev pub key_of : String → SyncResult → FileKey
key_of job_id result = record { user_id = job_id; path = default_asset_name result.content_type }

module _ {S F : Type 0} (ops : StoreOps S) (laws : StoreLaws ops) (file_ops : FileOps F)
    (job_id user_id : String) where
  finalised-files :
      (r : Result (Unit {0}) JobError) (w : World S F)
      → (finalised ops file_ops job_id user_id r w).1.files ≡ w.files
  unfolding finalised call publish record_terminal
  finalised-files (err e) w = refl
  finalised-files (ok _) w = refl

  asset_added-files :
      (r : Result (Unit {0}) JobError) (w : World S F)
      → (asset_added ops file_ops job_id user_id r w).1.files ≡ w.files
  unfolding asset_added call publish
  asset_added-files (err e) w = refl
  asset_added-files (ok _) w = finalised-files _ _

  body_stored-files :
      (result : SyncResult) (r : Result (Unit {0}) FileError) (w : World S F)
      → (body_stored ops file_ops job_id user_id result r w).1.files ≡ w.files
  unfolding body_stored call publish
  body_stored-files result (err e) w = refl
  body_stored-files result (ok _) w = asset_added-files _ _

  entered-files :
      (secs : ℕ) (result : SyncResult) (r : Result (Unit {0}) JobError) (w : World S F)
      → r ≡ ok tt
      → (entered ops file_ops job_id user_id secs (returned (ok result)) r w).1.files
        ≡ (file_ops.put (key_of job_id result) result.body w.files).1
  unfolding entered executed computed put_file call publish
  entered-files secs result (err e) w fine = cc
  entered-files secs result (ok _) w fine = body_stored-files result _ _

  accepted-files :
      (secs : ℕ) (result : SyncResult) (start : Summary) (r : Result (Unit {0}) JobError)
      (w : World S F)
      → r ≡ ok tt
      → laws.summary w.store job_id ≡ some start
      → (accepted ops file_ops job_id user_id secs (returned (ok result)) r w).1.files
        ≡ (file_ops.put (key_of job_id result) result.body w.files).1
  unfolding accepted call publish
  accepted-files secs result start (err e) w fine known = cc
  accepted-files secs result start (ok _) w fine known =
      entered-files secs result _ _
        (Does-ok job_id w.store _ start (laws.set_status_lem job_id running w.store) known)

  -- A run of a known job with a result puts its body under the job's id and the asset's name, and
  -- writes no other file.
  pub run_job-files :
      (secs : ℕ) (result : SyncResult) (start : Summary) (w : World S F)
      → laws.summary w.store job_id ≡ some start
      → (run_job ops file_ops job_id user_id secs (returned (ok result)) w).1.files
        ≡ (file_ops.put (key_of job_id result) result.body w.files).1
  unfolding run_job call
  run_job-files secs result start w known =
      accepted-files secs result _ _ _
        (Does-ok job_id w.store _ start (laws.set_status_lem job_id queued w.store) known)
        (behind_status ops laws file_ops job_id user_id queued w.store start known)
