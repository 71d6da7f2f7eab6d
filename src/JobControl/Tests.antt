-- ===== src/JobControl/Tests.antt =====
-- Two permits, and a store with one job.
use open_eo_ru_stac.Prelude.{
  ℕ, ◌+◌, ◌≤◌, ◌≡◌, refl, some, [], ◌∷◌, true, false, get_elem?, ◌⊎◌, ◌≢◌,
}
use open_eo_ru_stac.Job.{JobRecord, created}
use open_eo_ru_stac.JobStore.{InMemoryJobStore, find, get}
use open_eo_ru_stac.JobStore.Tests.{first_job}
use open_eo_ru_stac.JobControl.{
  System, Supervisor, supervisor, answered, check, launch, register, cancel, poll, entry_of, ended,
}
use open_eo_ru_stac.JobControl.Steps.{
  client, task, Step, SupervisorAt, checks, launches, registers, polls, start, Reach, started,
  then_step,
}
use open_eo_ru_stac.JobControl.Held.{held, going}
use open_eo_ru_stac.JobControl.Permits.{Reach-permits}
use open_eo_ru_stac.JobControl.Later.{left}
use open_eo_ru_stac.JobControl.Ending.{none_yet, own_step, signalled-Ends}
use open_eo_ru_stac.JobControl.Registry.{cancel-Signals}
use open_eo_ru_stac.JobControl.Starting.{
  accepted, ByClients, start_processing-twice, start_processing-Answered, Answered,
}

abbrev job : JobRecord
job = record first_job { status = created }

abbrev store : InMemoryJobStore
store = record { inner = job ∷ []; logs = [] }

abbrev s0 : System
s0 = record { store = store; registry = []; permits = 2; supervisors = []; requests = [] }

abbrev spawned_system : System
spawned_system = record {
  store = store;
  registry = ("a", 0) ∷ [];
  permits = 1;
  supervisors = supervisor "a" job ∷ [];
  requests = answered accepted ∷ [];
}

reached : Reach 2 spawned_system
unfolding start check launch register find get
reached =
    let s1 = check "a" s0 in
    let s2 = launch 0 "a" job 2 s1 in
    then_step client s2 spawned_system
      (then_step client s1 s2 (then_step client s0 s1 (started store) (checks "a" s0))
        (launches 0 "a" job s1 refl))
      (registers 0 "a" 0 s2 refl)

Reach-permits_example :
    (spawned_system.permits + held spawned_system.supervisors ≡ 2)
    × (going spawned_system.supervisors ≤ 2)
Reach-permits_example = Reach-permits 2 spawned_system reached

cancel-Signals_example :
    ((v : Supervisor) × SupervisorAt (cancel 1 "a" false spawned_system) 0 v
      × (v.job ≡ "a")
      × (v.signalled ≡ true))
    × ((m : ℕ)
        → 0 ≢ m
        → get_elem? (cancel 1 "a" false spawned_system).supervisors m
          ≡ get_elem? spawned_system.supervisors m)
unfolding entry_of
cancel-Signals_example = cancel-Signals 2 spawned_system 1 "a" false 0 reached refl

abbrev signalled : Supervisor
signalled = record (supervisor "a" job) { signalled = true }

abbrev s1 : System
s1 = record spawned_system { supervisors = signalled ∷ [] }

-- The first poll of a supervisor that was signalled before.
abbrev s2 : System
s2 = poll 0 signalled s1

signalled-Ends_example :
    (w : Supervisor) × SupervisorAt s2 0 w
    × (w.job ≡ "a")
    × (left w.phase + 1 ≤ 6)
    × ((w.phase ≡ ended) ⊎ ((u : System) × Step (task 0) s2 u))
signalled-Ends_example =
    signalled-Ends 0 1 s1 s2 signalled refl refl
      (own_step 0 s1 s1 s2 (none_yet s1) (polls 0 signalled s1 refl refl))

start_processing-Answered_example : Answered "a" s0
start_processing-Answered_example = start_processing-Answered "a" s0

start_processing-twice_example :
    (t : System) × ByClients s0 t
    × (t.requests ≡ answered accepted ∷ answered accepted ∷ [])
    × (t.supervisors ≡ supervisor "a" job ∷ supervisor "a" job ∷ [])
    × (entry_of "a" t.registry ≡ some 1)
unfolding get find
start_processing-twice_example = start_processing-twice "a" job s0 0 refl refl refl
