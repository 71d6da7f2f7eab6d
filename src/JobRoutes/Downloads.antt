-- ===== src/JobRoutes/Downloads.antt =====
-- A download behind a run: the runner, the job store and the file store together.
use mathlib.Core.Option
use open_eo_ru_stac.Prelude.{
  ℕ, ◌≡◌, refl, ◌∙◌, ap, Bool, false, true, String, Option, none, some, List, [], ◌∷◌, ◌++◌, Result,
  ok, str_eq, str_eq_iff, length, decimal, if◌then◌else◌, subst,
}
use open_eo_ru_stac.Job.{JobAsset, JobRecord}
use open_eo_ru_stac.JobStore.{get, find}
use open_eo_ru_stac.JobStore.Laws.{view}
use open_eo_ru_stac.JobRunner.{SyncResult, returned, World, run_job, default_asset_name}
use open_eo_ru_stac.JobRunner.Interface.{FileOps, FileKey, FileError, Summary}
use open_eo_ru_stac.JobRunner.Memory.{memory_ops, memory_laws, Clocked, summary_of, summary}
use open_eo_ru_stac.JobRunner.Lifecycle.{Ends, asset_of, kept, run_job-Ends}
use open_eo_ru_stac.JobRunner.Files.{run_job-files, key_of}
use open_eo_ru_stac.JobRoutes.Results.{
  find_asset, file_reply, asset_reply, download_reply, download_asset,
}
use open_eo_ru_stac.JobRoutes.Replies.{bytes}

find-id : (id : String) (rs : List JobRecord) (r : JobRecord) → find id rs ≡ some r → r.id ≡ id
unfolding find
find-id id [] r h = cc
find-id id (x ∷ rs) r h = choose (find-id id rs r) (str_eq x.id id) refl h
  where
    choose :
        (find id rs ≡ some r → r.id ≡ id)
        → (b : Bool) → str_eq x.id id ≡ b
        → (if b then some x else find id rs) ≡ some r
        → r.id ≡ id
    choose later true same e =
        let it : x ≡ r = cc in subst (λ y. y.id ≡ id) it ((str_eq_iff x.id id).0 same)
    choose later false other e = later e

find_asset-append :
    (name : String) (assets : List JobAsset) (a : JobAsset)
    → find_asset name assets ≡ none
    → a.name ≡ name
    → find_asset name (assets ++ a ∷ []) ≡ some a
unfolding find_asset
find_asset-append name [] a fresh named = rw ((str_eq_iff a.name name).1 named) refl
find_asset-append name (x ∷ assets) a fresh named =
    choose (λ e. find_asset-append name assets a e named) (str_eq x.name name) fresh
  where
    choose :
        (find_asset name assets ≡ none → find_asset name (assets ++ a ∷ []) ≡ some a)
        → (b : Bool) → (if b then some x else find_asset name assets) ≡ none
        → (if b then some x else find_asset name (assets ++ a ∷ [])) ≡ some a
    choose later true e = cc
    choose later false e = later e

-- A record with a summary.
summary-known :
    (c : Clocked) (id : String) (final : Summary)
    → summary c id ≡ some final
    → (r : JobRecord) × (get id c.0 ≡ ok r) × (r.id ≡ id) × (summary_of r ≡ final)
unfolding get
summary-known (s, n) id final h = read (find id s.inner) refl h
  where
    read :
        (o : Option JobRecord)
        → find id s.inner ≡ o
        → Option.map summary_of o ≡ some final
        → (r : JobRecord) × (get id s ≡ ok r) × (r.id ≡ id) × (summary_of r ≡ final)
    read none e m = cc
    read (some r) e m = (r, rw e refl, find-id id s.inner r e, cc)

module _ {F : Type 0} (clock : ℕ → ℕ) (file_ops : FileOps F)
    (get_file : F → FileKey → Result (List ℕ) FileError) (job_id user_id : String) where
  -- Where the file store gives back what was put, with a result that the executor gave in time and
  -- whose body the file store took: behind a run of a job of the in-memory store, none of whose
  -- assets has the name of the new one, the download of that asset answers 200 with the body, its
  -- media type and its length.
  pub download_asset-run_job :
      (secs : ℕ) (result : SyncResult) (start : Summary) (w : World Clocked F)
      → ((key : FileKey) (body : List ℕ) (f : F)
          → (file_ops.put key body f).0 ≡ ok tt
          → get_file (file_ops.put key body f).1 key ≡ ok body)
      → summary w.store job_id ≡ some start
      → find_asset (default_asset_name result.content_type) start.assets ≡ none
      → (file_ops.put (key_of job_id result) result.body w.files).0 ≡ ok tt
      → download_asset job_id
          (default_asset_name result.content_type)
          (get_file
            (run_job
              (memory_ops clock)
              file_ops
              job_id
              user_id
              secs
              (returned (ok result))
              w).1.files)
          (run_job
            (memory_ops clock)
            file_ops
            job_id
            user_id
            secs
            (returned (ok result))
            w).1.store.0
        ≡ record {
          status = 200;
          headers =
              ("content-type", result.content_type)
              ∷ ("content-length", decimal (length result.body))
              ∷ [];
          body = bytes result.body;
        }
  unfolding download_asset memory_laws find
  download_asset-run_job secs result start w gives_back known fresh took =
      let ops = memory_ops clock in
      let laws = memory_laws clock in
      let out = run_job ops file_ops job_id user_id secs (returned (ok result)) w in
      let ends : Ends ops laws file_ops job_id user_id start (kept file_ops job_id result (ok tt))
          out =
        subst (λ r. Ends ops laws file_ops job_id user_id start (kept file_ops job_id result r) out)
          took
          (run_job-Ends ops laws file_ops job_id user_id secs (returned (ok result)) w start
            known) in
      let (rec, reads, same_id, view) = summary-known out.1.store job_id _ ends.1 in
      let name = default_asset_name result.content_type in
      let found : find_asset name rec.assets ≡ some (asset_of result) =
        ap (λ f. find_asset name f.assets) view
        ∙ find_asset-append name start.assets (asset_of result) fresh refl in
      let body : get_file out.1.files (record { user_id = rec.id; path = name }) ≡ ok result.body =
        ap (λ id. get_file out.1.files (record { user_id = id; path = name })) same_id
        ∙ ap (λ f. get_file f (key_of job_id result))
            (run_job-files ops laws file_ops job_id user_id secs result start w known)
        ∙ gives_back (key_of job_id result) result.body w.files took in
      ap (download_reply job_id name (get_file out.1.files)) reads
      ∙ ap (asset_reply job_id name (get_file out.1.files) rec) found
      ∙ ap (file_reply (asset_of result)) body
