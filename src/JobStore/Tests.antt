-- ===== src/JobStore/Tests.antt =====
-- A store with two jobs, one of them running, and the store's theorems at it.
use open_eo_ru_stac.Prelude.{◌≡◌, refl, some, none, [], ◌∷◌, ◌++◌, str_eq, if◌then◌else◌, ok}
use open_eo_ru_stac.Prelude.Int.{pos, negsuc}
use open_eo_ru_stac.Json.{null}
use open_eo_ru_stac.Job.{JobRecord, JobAsset, running, finished, clamp_progress}
use open_eo_ru_stac.JobStore.{
  InMemoryJobStore, create, get, set_status, set_progress, set_metadata, add_asset, recover_orphans,
  replace_some, find,
}
use open_eo_ru_stac.JobStore.Laws.{Changes, mutators-Changes, get-create}
use open_eo_ru_stac.JobStore.Orphans.{Recovered, recover_orphans-Recovered}

abbrev pub first_job : JobRecord
first_job = record {
  id = "a";
  user_id = "anonymous";
  title = none;
  description = none;
  process = null;
  status = running;
  progress = some (pos 10);
  created_at = 5;
  updated_at = 6;
  assets = [];
}

abbrev second_job : JobRecord
second_job = record first_job { id = "b"; status = finished }

abbrev pub two_jobs : InMemoryJobStore
two_jobs = record { inner = first_job ∷ second_job ∷ []; logs = [] }

abbrev asset : JobAsset
asset = record { name = "result.json"; media_type = "application/json"; size = 2 }

mutators-Changes_example :
    Changes "a"
      (λ r. record r { status = finished; updated_at = 9 })
      two_jobs
      (set_status 9 "a" finished two_jobs)
    × Changes "a"
        (λ r. record r { progress = some (clamp_progress (negsuc 0)); updated_at = 9 })
        two_jobs
        (set_progress 9 "a" (negsuc 0) two_jobs)
    × Changes "a"
        (λ r. record r {
          title = replace_some (some "t") r.title;
          description = replace_some none r.description;
          updated_at = 9;
        })
        two_jobs
        (set_metadata 9 "a" (some "t") none two_jobs)
    × Changes "a"
        (λ r. record r { assets = r.assets ++ asset ∷ []; updated_at = 9 })
        two_jobs
        (add_asset 9 "a" asset two_jobs)
mutators-Changes_example = mutators-Changes 9 "a" finished (negsuc 0) (some "t") none asset two_jobs

get-create_example : get "c" (create "c" 7 "u" (some "t") none null two_jobs).1 ≡ (
    if str_eq "c" "c"
    then ok (create "c" 7 "u" (some "t") none null two_jobs).0
    else get "c" two_jobs)
unfolding find
get-create_example = get-create "c" "c" "u" 7 (some "t") none null two_jobs refl

recover_orphans-Recovered_example : Recovered 11 two_jobs (recover_orphans 11 two_jobs)
recover_orphans-Recovered_example = recover_orphans-Recovered 11 two_jobs

recovery_count : (recover_orphans 11 two_jobs).0 ≡ 1
unfolding recover_orphans
recovery_count = refl
