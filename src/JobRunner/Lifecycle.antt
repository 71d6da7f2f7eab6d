-- ===== src/JobRunner/Lifecycle.antt =====
-- How a run leaves its job, over any job store that keeps the contract `StoreLaws`.
use text.Mathlib.TextPositions.{eq_refl}
use open_eo_ru_stac.Prelude.{
  ℕ, ◌≡◌, refl, ◌∙◌, ap, String, Option, none, some, [], ◌∷◌, ◌++◌, arith, str_eq_iff, length,
  Result, ok, err,
}
use open_eo_ru_stac.Prelude.Int.{pos}
use open_eo_ru_stac.Job.{
  JobStatus, queued, running, finished, error, JobAsset, JobError, not_found, clamp_progress,
}
use open_eo_ru_stac.JobRunner.{
  SyncResult, Executed, elapsed, returned, RunOutcome, done, gave_up, store_error, World,
  error_text, default_asset_name, run_job, finalised, asset_added, body_stored, call, put_file,
  publish, record_terminal, computed, executed, entered, accepted, timed_out, executor_failed,
}
use open_eo_ru_stac.JobRunner.Interface.{
  StoreOps, StoreLaws, FileOps, FileError, Summary, Does, Reply, reply_for,
}

abbrev pub asset_of : SyncResult → JobAsset
asset_of result = record {
  name = default_asset_name result.content_type;
  media_type = result.content_type;
  size = length result.body;
}

module _ {F : Type 0} (file_ops : FileOps F) (job_id : String) where
  abbrev pub kept : SyncResult → Result (Unit {0}) FileError → Option SyncResult
  kept result (ok _) = some result
  kept result (err _) = none

  -- The result that a run can keep: the executor gave one in time, and its body was stored.
  abbrev pub stored : Executed → F → Option SyncResult
  stored elapsed f = none
  stored (returned (err e)) f = none
  stored (returned (ok result)) f =
      kept result
        (file_ops.put (record { user_id = job_id; path = default_asset_name result.content_type })
          result.body f).0

module _ {S : Type 0} {summary : S → String → Option Summary} {f : Summary → Summary} where
  pub Does-ok :
      (id : String) (s : S) (out : Reply S) (r : Summary)
      → Does summary id f s out
      → summary s id ≡ some r
      → out.0 ≡ ok tt
  Does-ok id s out r d known = d.reply ∙ ap (reply_for id) known

  Does-summary :
      (id : String) (s : S) (out : Reply S) (r : Summary)
      → Does summary id f s out
      → summary s id ≡ some r
      → summary out.1 id ≡ some (f r)
  Does-summary id s out r d known = d.summaries id ∙ (rw (eq_refl id, known))

module _ {S F : Type 0} (ops : StoreOps S) (laws : StoreLaws ops) (file_ops : FileOps F)
    (job_id user_id : String) where
  -- The job as a run that kept `result` leaves it, and as one that kept none does.
  abbrev pub Ends : Summary → Option SyncResult → RunOutcome × World S F → Type 0
  Ends start (some result) out =
      (out.0 ≡ done)
      × (laws.summary out.1.store job_id
          ≡ some (record {
            status = finished;
            progress = some (pos 100);
            assets = start.assets ++ asset_of result ∷ [];
          }))
  Ends start none out =
      (m : String) × (out.0 ≡ gave_up m)
      × (final : Summary) × (laws.summary out.1.store job_id ≡ some final)
      × (final.status ≡ error)
      × (final.assets ≡ start.assets)

  -- The summary behind each operation, for a job that the store knows.
  pub behind_status :
      (status : JobStatus) (s : S) (r : Summary)
      → laws.summary s job_id ≡ some r
      → laws.summary (ops.set_status job_id status s).1 job_id ≡ some (record r { status = status })
  behind_status status s r = Does-summary job_id s _ r (laws.set_status_lem job_id status s)

  behind_progress :
      (n : ℕ) (s : S) (r : Summary)
      → laws.summary s job_id ≡ some r
      → laws.summary (ops.set_progress job_id (pos n) s).1 job_id
        ≡ some (record r { progress = some (clamp_progress (pos n)) })
  behind_progress n s r = Does-summary job_id s _ r (laws.set_progress_lem job_id (pos n) s)

  behind_log :
      (level message : String) (s : S) (r : Summary)
      → laws.summary s job_id ≡ some r
      → laws.summary (ops.append_log job_id level message s).1 job_id ≡ some r
  behind_log level message s r =
      Does-summary job_id s _ r (laws.append_log_lem job_id level message s)

  status_reply :
      (status : JobStatus) (s : S) (r : Summary)
      → laws.summary s job_id ≡ some r
      → (ops.set_status job_id status s).0 ≡ ok tt
  status_reply status s r = Does-ok job_id s _ r (laws.set_status_lem job_id status s)

  finalised-Ends :
      (start : Summary) (result : SyncResult) (r : Result (Unit {0}) JobError) (w : World S F)
      (now : Summary)
      → r ≡ ok tt
      → laws.summary w.store job_id ≡ some now
      → now.status ≡ finished
      → now.assets ≡ start.assets ++ asset_of result ∷ []
      → Ends start (some result) (finalised ops file_ops job_id user_id r w)
  unfolding finalised call publish record_terminal
  finalised-Ends start result (err e) w now a known st given = cc
  finalised-Ends start result (ok _) w now a known st given =
      (refl, behind_progress 100 _ now (behind_log "info" "job finished" w.store now known) ∙ (cc))

  asset_added-Ends :
      (start : Summary) (result : SyncResult) (r : Result (Unit {0}) JobError) (w : World S F)
      (now : Summary)
      → r ≡ ok tt
      → laws.summary w.store job_id ≡ some now
      → now.assets ≡ start.assets ++ asset_of result ∷ []
      → Ends start (some result) (asset_added ops file_ops job_id user_id r w)
  unfolding asset_added call publish
  asset_added-Ends start result (err e) w now a known given = cc
  asset_added-Ends start result (ok _) w now a known given =
      let h = behind_progress 95 w.store now known in
      finalised-Ends start result _ _ _ (status_reply finished _ _ h) (behind_status finished _ _ h)
        refl given

  -- Where the run ends in `error`.
  in_error :
      (s : S) (start now : Summary)
      → laws.summary s job_id ≡ some now
      → now.assets ≡ start.assets
      → (final : Summary) × (laws.summary (ops.set_status job_id error s).1 job_id ≡ some final)
        × (final.status ≡ error)
        × (final.assets ≡ start.assets)
  in_error s start now known given = (_, behind_status error s now known, refl, given)

  body_stored-Ends :
      (start : Summary) (result : SyncResult) (r : Result (Unit {0}) FileError) (w : World S F)
      (now : Summary)
      → laws.summary w.store job_id ≡ some now
      → now.assets ≡ start.assets
      → Ends start
          (kept file_ops job_id result r)
          (body_stored ops file_ops job_id user_id result r w)
  unfolding body_stored call publish
  body_stored-Ends start result (err e) w now known given =
      let (final, a, b, c) = in_error w.store start now known given in (_, refl, final, a, b, c)
  body_stored-Ends start result (ok _) w now known given =
      let does = laws.add_asset_lem job_id (asset_of result) w.store in
      asset_added-Ends start result _ _ _ (Does-ok job_id w.store _ now does known)
        (Does-summary job_id w.store _ now does known) (ap (λ l. l ++ asset_of result ∷ []) given)

  executed-Ends :
      (start : Summary) (secs : ℕ) (x : Executed) (w : World S F) (now : Summary)
      → laws.summary w.store job_id ≡ some now
      → now.assets ≡ start.assets
      → Ends start
          (stored file_ops job_id x w.files)
          (executed ops file_ops job_id user_id secs x w)
  unfolding executed computed put_file timed_out executor_failed call publish record_terminal
  executed-Ends start secs elapsed w now known given =
      let (final, a, b, c) = in_error _ start now (behind_log "error" _ w.store now known) given in
      (_, refl, final, a, b, c)
  executed-Ends start secs (returned (err e)) w now known given =
      let h = behind_log "error" _ _ _ (behind_progress 80 w.store now known) in
      let (final, a, b, c) = in_error _ start _ h given in (_, refl, final, a, b, c)
  executed-Ends start secs (returned (ok result)) w now known given =
      body_stored-Ends start result _ _ _ (behind_progress 80 w.store now known) given

  entered-Ends :
      (start : Summary) (secs : ℕ) (x : Executed) (r : Result (Unit {0}) JobError) (w : World S F)
      (now : Summary)
      → r ≡ ok tt
      → laws.summary w.store job_id ≡ some now
      → now.assets ≡ start.assets
      → Ends start
          (stored file_ops job_id x w.files)
          (entered ops file_ops job_id user_id secs x r w)
  unfolding entered call publish
  entered-Ends start secs x (err e) w now a known given = cc
  entered-Ends start secs x (ok _) w now a known given =
      executed-Ends start secs x _ _
        (behind_progress 10 _ now (behind_log "info" "job started" w.store now known)) given

  accepted-Ends :
      (start : Summary) (secs : ℕ) (x : Executed) (r : Result (Unit {0}) JobError) (w : World S F)
      (now : Summary)
      → r ≡ ok tt
      → laws.summary w.store job_id ≡ some now
      → now.assets ≡ start.assets
      → Ends start
          (stored file_ops job_id x w.files)
          (accepted ops file_ops job_id user_id secs x r w)
  unfolding accepted call publish
  accepted-Ends start secs x (err e) w now a known given = cc
  accepted-Ends start secs x (ok _) w now a known given =
      entered-Ends start secs x _ _ _ (status_reply running w.store now known)
        (behind_status running w.store now known) given

  -- A run of a job that the store knows. If the executor gives a result in time and the file store
  -- takes its body, the run finishes: the job is `finished`, its progress is 100, and its assets
  -- are the old ones and the new one behind them. Otherwise the run fails: the job is in `error`,
  -- with the assets that it had.
  pub run_job-Ends :
      (secs : ℕ) (x : Executed) (w : World S F) (start : Summary)
      → laws.summary w.store job_id ≡ some start
      → Ends start (stored file_ops job_id x w.files) (run_job ops file_ops job_id user_id secs x w)
  unfolding run_job
  run_job-Ends secs x w start known =
      accepted-Ends start secs x _ _ _ (status_reply queued w.store start known)
        (behind_status queued w.store start known) refl

  -- The world as a run leaves it that the store refused.
  pub record Refused (w : World S F) (out : RunOutcome × World S F) : Type 0 where
    pub outcome : out.0 ≡ store_error (error_text (not_found job_id))
    pub summaries : (j : String) → laws.summary out.1.store j ≡ laws.summary w.store j
    pub files : out.1.files ≡ w.files
    pub events : out.1.events ≡ w.events
    pub metrics : out.1.metrics ≡ w.metrics

  accepted-Refused :
      (secs : ℕ) (x : Executed) (r : Result (Unit {0}) JobError) (v w : World S F)
      → r ≡ err (not_found job_id)
      → ((j : String) → laws.summary v.store j ≡ laws.summary w.store j)
      → v.files ≡ w.files
      → v.events ≡ w.events
      → v.metrics ≡ w.metrics
      → Refused w (accepted ops file_ops job_id user_id secs x r v)
  unfolding accepted
  accepted-Refused secs x (err e) v w a summaries files events metrics = record {
    outcome = cc;
    summaries = summaries;
    files = files;
    events = events;
    metrics = metrics;
  }
  accepted-Refused secs x (ok _) v w a summaries files events metrics = cc

  Does-unknown :
      (s : S) (out : Reply S) (f : Summary → Summary)
      → Does laws.summary job_id f s out
      → laws.summary s job_id ≡ none
      → (j : String) → laws.summary out.1 j ≡ laws.summary s j
  Does-unknown s out f d unknown j = ground (arith, d.summaries j, str_eq_iff job_id j)

  -- A run of a job that the store does not know changes nothing that the store shows, stores no
  -- file, publishes nothing, records nothing, and reports the store's `NotFound`.
  pub run_job-unknown :
      (secs : ℕ) (x : Executed) (w : World S F)
      → laws.summary w.store job_id ≡ none
      → Refused w (run_job ops file_ops job_id user_id secs x w)
  unfolding run_job call
  run_job-unknown secs x w unknown =
      let does = laws.set_status_lem job_id queued w.store in
      accepted-Refused secs x _ _ w (does.reply ∙ ap (reply_for job_id) unknown)
        (Does-unknown w.store _ _ does unknown) refl refl refl
