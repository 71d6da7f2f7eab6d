-- ===== src/JobStore.antt =====
-- The in-memory store of apps/orbit-openeo/src/job_store.rs. Each method takes the store, and what
-- it reads from outside: the clock `now` and a fresh UUID. The two mutexes are held for a whole
-- method here. A method returns the store beside its result.
pub mod Laws
pub mod Orphans
pub mod Logs
pub mod Tests
use open_eo_ru_stac.Prelude.{
  ℕ, ◌+◌, Bool, true, false, String, Option, none, some, List, [], ◌∷◌, ◌++◌, length, str_eq,
  if◌then◌else◌, Result, ok, err, ok_or, decimal,
}
use open_eo_ru_stac.Prelude.Int.{ℤ, pos}
use mathlib.Core.Option
use open_eo_ru_stac.Json.{Value}
use open_eo_ru_stac.Civil.{iso8601}
use open_eo_ru_stac.Job.{
  JobStatus, created, error, is_active, JobAsset, JobLogEntry, JobRecord, JobError, not_found,
  clamp_progress,
}

-- `logs` is the hash map from a job's id to its entries.
pub record InMemoryJobStore : Type 0 where
  pub inner : List JobRecord
  pub logs : List (String × List JobLogEntry)

unfoldable pub new : InMemoryJobStore
new = record { inner = []; logs = [] }

-- `iter().find(|r| r.id == id)`.
unfoldable pub find : String → List JobRecord → Option JobRecord
find id [] = none
find id (r ∷ rs) = if str_eq r.id id then some r else find id rs

-- An assignment through what `iter_mut().find(|r| r.id == id)` found.
unfoldable pub assign : String → (JobRecord → JobRecord) → List JobRecord → List JobRecord
assign id f [] = []
assign id f (r ∷ rs) = if str_eq r.id id then f r ∷ rs else r ∷ assign id f rs

-- A method that changes the one record of `id`, or reports `NotFound`.
unfoldable pub modify :
    String
    → (JobRecord → JobRecord)
    → InMemoryJobStore
    → Result (Unit {0}) JobError × InMemoryJobStore
modify id f s = elim (find id s.inner) [
  | none ↦ (err (not_found id), s)
  | some _ ↦ (ok tt, record s { inner = assign id f s.inner })
]

unfoldable pub create :
    String
    → ℕ
    → String
    → Option String
    → Option String
    → Value
    → InMemoryJobStore
    → JobRecord × InMemoryJobStore
create id now user_id title description process s =
    let rec : JobRecord = record {
      id = id;
      user_id = user_id;
      title = title;
      description = description;
      process = process;
      status = created;
      progress = some (pos 0);
      created_at = now;
      updated_at = now;
      assets = [];
    } in
    (rec, record s { inner = s.inner ++ rec ∷ [] })

unfoldable pub get : String → InMemoryJobStore → Result JobRecord JobError
get id s = ok_or (not_found id) (find id s.inner)

owned_by : String → List JobRecord → List JobRecord
owned_by user_id [] = []
owned_by user_id (r ∷ rs) =
    let rest = owned_by user_id rs in if str_eq r.user_id user_id then r ∷ rest else rest

unfoldable pub list_for_user : String → InMemoryJobStore → List JobRecord
unfolding owned_by
list_for_user user_id s = owned_by user_id s.inner

abbrev pub Outcome : Type 0
Outcome = Result (Unit {0}) JobError × InMemoryJobStore

unfoldable pub set_status : ℕ → String → JobStatus → InMemoryJobStore → Outcome
set_status now id status = modify id (λ r. record r { status = status; updated_at = now })

unfoldable pub set_progress : ℕ → String → ℤ → InMemoryJobStore → Outcome
set_progress now id progress =
    modify id (λ r. record r { progress = some (clamp_progress progress); updated_at = now })

-- `if title.is_some() { rec.title = title; }`.
abbrev pub replace_some : Option String → Option String → Option String
replace_some (some t) old = some t
replace_some none old = old

unfoldable pub set_metadata :
    ℕ → String → Option String → Option String → InMemoryJobStore → Outcome
set_metadata now id title description = modify id (λ r. record r {
  title = replace_some title r.title;
  description = replace_some description r.description;
  updated_at = now;
})

unfoldable pub add_asset : ℕ → String → JobAsset → InMemoryJobStore → Outcome
add_asset now id asset =
    modify id (λ r. record r { assets = r.assets ++ asset ∷ []; updated_at = now })

-- `retain(|r| r.id != id)`.
unfoldable pub without : String → List JobRecord → List JobRecord
without id [] = []
without id (r ∷ rs) = let rest = without id rs in if str_eq r.id id then rest else r ∷ rest

-- The hash map of logs: `get`, `remove`, and `insert` of the entries of one job.
unfoldable pub entries_of : String → List (String × List JobLogEntry) → Option (List JobLogEntry)
entries_of id [] = none
entries_of id ((j, es) ∷ m) = if str_eq j id then some es else entries_of id m

unfoldable pub drop_entries :
    String → List (String × List JobLogEntry) → List (String × List JobLogEntry)
drop_entries id [] = []
drop_entries id ((j, es) ∷ m) =
    let rest = drop_entries id m in if str_eq j id then rest else (j, es) ∷ rest

unfoldable pub put_entries :
    String → List JobLogEntry → List (String × List JobLogEntry) → List (String × List JobLogEntry)
put_entries id es [] = (id, es) ∷ []
put_entries id es ((j, old) ∷ m) =
    if str_eq j id then (j, es) ∷ m else (j, old) ∷ put_entries id es m

unfoldable pub delete : String → InMemoryJobStore → InMemoryJobStore
delete id s = record { inner = without id s.inner; logs = drop_entries id s.logs }

abbrev pub or_empty : Option (List JobLogEntry) → List JobLogEntry
or_empty none = []
or_empty (some es) = es

-- The entry that `append_log` pushes behind `entries`.
unfoldable pub next_entry : ℕ → String → String → List JobLogEntry → JobLogEntry
next_entry now level message entries = record {
  id = decimal (length entries);
  level = level;
  message = message;
  time = iso8601 now;
}

unfoldable pub push_log : ℕ → String → String → String → InMemoryJobStore → InMemoryJobStore
push_log now id level message s =
    let entries = or_empty (entries_of id s.logs) in
    record s { logs = put_entries id (entries ++ next_entry now level message entries ∷ []) s.logs }

unfoldable pub append_log : ℕ → String → String → String → InMemoryJobStore → Outcome
append_log now id level message s = elim (find id s.inner) [
  | none ↦ (err (not_found id), s)
  | some _ ↦ (ok tt, push_log now id level message s)
]

unfoldable pub get_logs : String → InMemoryJobStore → Result (List JobLogEntry) JobError
get_logs id s = elim (find id s.inner) [
  | none ↦ err (not_found id)
  | some _ ↦ ok (or_empty (entries_of id s.logs))
]

-- One round of the loop of `recover_orphans`.
abbrev pub recover_record : ℕ → JobRecord → JobRecord
recover_record now r =
    if is_active r.status then record r { status = error; updated_at = now } else r

recover_loop : ℕ → List JobRecord → List JobRecord × ℕ
recover_loop now [] = ([], 0)
recover_loop now (r ∷ rs) =
    let (rest, n) = recover_loop now rs in
    (recover_record now r ∷ rest, if is_active r.status then n + 1 else n)

unfoldable pub recover_orphans : ℕ → InMemoryJobStore → ℕ × InMemoryJobStore
unfolding recover_loop
recover_orphans now s = let (rs, n) = recover_loop now s.inner in (n, record s { inner = rs })
