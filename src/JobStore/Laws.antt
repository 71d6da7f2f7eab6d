-- ===== src/JobStore/Laws.antt =====
-- The store as a map from ids to records, and what each method does to that map.
use mathlib.Core.Option
use open_eo_ru_stac.Prelude.{
  ℕ, ◌≡◌, refl, String, Option, none, some, List, [], ◌∷◌, ◌++◌, arith, str_eq, str_eq_iff, length,
  if◌then◌else◌, Result, ok, err,
}
use open_eo_ru_stac.Prelude.Int.{ℤ}
use open_eo_ru_stac.Json.{Value}
use open_eo_ru_stac.Job.{JobStatus, JobAsset, JobRecord, JobError, not_found, clamp_progress}
use open_eo_ru_stac.JobStore.{
  InMemoryJobStore, Outcome, find, assign, modify, without, create, get, set_status, set_progress,
  set_metadata, add_asset, delete, replace_some,
}

-- The abstract view: which record an id names.
abbrev pub view : InMemoryJobStore → String → Option JobRecord
view s id = find id s.inner

abbrev KeepsId : (JobRecord → JobRecord) → Type 0
KeepsId f = (r : JobRecord) → (f r).id ≡ r.id

find-assign :
    (id j : String) (f : JobRecord → JobRecord) (rs : List JobRecord)
    → KeepsId f
    → find j (assign id f rs) ≡ (if str_eq id j then Option.map f (find j rs) else find j rs)
unfolding find assign
find-assign id j f [] keep = ground arith
find-assign id j f (r ∷ rs) keep = ground (
  arith,
  keep r,
  find-assign id j f rs keep,
  str_eq_iff r.id id,
  str_eq_iff id j,
  str_eq_iff r.id j,
)

length-assign :
    (id : String) (f : JobRecord → JobRecord) (rs : List JobRecord)
    → length (assign id f rs) ≡ length rs
unfolding assign
length-assign id f [] = refl
length-assign id f (r ∷ rs) = ground (arith, length-assign id f rs)

find-without :
    (id j : String) (rs : List JobRecord)
    → find j (without id rs) ≡ (if str_eq id j then none else find j rs)
unfolding find without
find-without id j [] = ground arith
find-without id j (r ∷ rs) =
    ground (arith, find-without id j rs, str_eq_iff r.id id, str_eq_iff id j, str_eq_iff r.id j)

-- A record pushed at the end is found where no earlier record has its id.
or_else : Option JobRecord → Option JobRecord → Option JobRecord
or_else none other = other
or_else (some r) other = some r

find-append :
    (j : String) (rs : List JobRecord) (r : JobRecord)
    → find j (rs ++ r ∷ []) ≡ or_else (find j rs) (if str_eq r.id j then some r else none)
unfolding find or_else
find-append j [] r = ground arith
find-append j (x ∷ rs) r = ground (arith, find-append j rs r)

abbrev pub reply_for : String → Option JobRecord → Result (Unit {0}) JobError
reply_for id none = err (not_found id)
reply_for id (some _) = ok tt

-- `out` is what a method gives that changes the record of `id` by `f`, and nothing else.
pub record Changes (id : String) (f : JobRecord → JobRecord) (s : InMemoryJobStore) (out : Outcome)
    : Type 0 where
  pub reply : out.0 ≡ reply_for id (view s id)
  pub records :
      (j : String) → view out.1 j ≡ (if str_eq id j then Option.map f (view s j) else view s j)
  pub size : length out.1.inner ≡ length s.inner
  pub logs : out.1.logs ≡ s.logs

pub modify-Changes :
    (id : String) (f : JobRecord → JobRecord) (s : InMemoryJobStore)
    → KeepsId f
    → Changes id f s (modify id f s)
unfolding modify
modify-Changes id f s keep = record {
  reply = ground arith;
  records = λ j. ground (arith, find-assign id j f s.inner keep, str_eq_iff id j);
  size = ground (arith, length-assign id f s.inner);
  logs = ground arith;
}

-- The four mutators of the in-memory store change the record of the job that they name, and report
-- `NotFound` for an id that names none: `set_status` sets the status, `set_progress` the progress,
-- clamped to 0..100, `set_metadata` the title and the description that are given, `add_asset` the
-- assets, with the new one last. Each sets the time of the update, leaves the other records, the
-- number of records and the logs as they were, and changes nothing at all where it fails.
pub mutators-Changes :
    (now : ℕ) (id : String) (status : JobStatus) (progress : ℤ) (title description : Option String)
    (asset : JobAsset) (s : InMemoryJobStore)
    → Changes id
        (λ r. record r { status = status; updated_at = now })
        s
        (set_status now id status s)
      × Changes id
          (λ r. record r { progress = some (clamp_progress progress); updated_at = now })
          s
          (set_progress now id progress s)
      × Changes id
          (λ r. record r {
            title = replace_some title r.title;
            description = replace_some description r.description;
            updated_at = now;
          })
          s
          (set_metadata now id title description s)
      × Changes id
          (λ r. record r { assets = r.assets ++ asset ∷ []; updated_at = now })
          s
          (add_asset now id asset s)
unfolding set_status set_progress set_metadata add_asset
mutators-Changes now id status progress title description asset s = (
  modify-Changes id _ s (λ r. refl),
  modify-Changes id _ s (λ r. refl),
  modify-Changes id _ s (λ r. refl),
  modify-Changes id _ s (λ r. refl),
)

-- A job that is created under a fresh id is read back as it was returned, and every other id reads
-- as before.
pub get-create :
    (id j user_id : String) (now : ℕ) (title description : Option String) (process : Value)
    (s : InMemoryJobStore)
    → view s id ≡ none
    → get j (create id now user_id title description process s).1
      ≡ (if str_eq id j then ok (create id now user_id title description process s).0 else get j s)
unfolding get create
get-create id j user_id now title description process s fresh =
    let rec = (create id now user_id title description process s).0 in
    rw (find-append j s.inner rec) (unfold or_else in ground (arith, str_eq_iff id j))

-- After `delete` the id names no job, and every other id reads as before.
pub get-delete :
    (id j : String) (s : InMemoryJobStore)
    → get j (delete id s) ≡ (if str_eq id j then err (not_found j) else get j s)
unfolding get delete
get-delete id j s = rw (find-without id j s.inner) (ground arith)
