-- ===== src/JobControl/Later.antt =====
-- What a step does to a supervisor.
use open_eo_ru_stac.Prelude.{
  ℕ, zero, suc, ◌+◌, ◌≤◌, ◌≡◌, refl, ◌∙◌, ap, sym, inl, inr, true, Bool-cases, String, Option, none,
  some, List, [], ◌∷◌, ◌++◌, set, get_elem?, Result, ok, err, arith, subst,
}
use open_eo_ru_stac.Job.{JobStatus, is_terminal, JobRecord, JobError}
use open_eo_ru_stac.JobStore.{get}
use open_eo_ru_stac.JobControl.{
  Run, stopped, Phase, spawned, waiting, reading, writing, leaving, releasing, ended, Supervisor,
  supervisor, System, check, launch, register, discard, cancel, signal, notify_one, set_canceled,
  move, poll, take_cancel, read_status, unless_terminal, write_status, deregister, release,
  run_writes, run_stops, entry_of,
}
use open_eo_ru_stac.JobControl.Steps.{
  Actor, client, task, run_of, SupervisorAt, Step, checks, launches, registers, discards, cancels,
  sets_canceled, polls, takes_cancel, joins, joins_panicked, reads, writes, deregisters, releases,
  runs_write, runs_stop,
}

-- How many steps of its own a supervisor has left at most.
abbrev pub left : Phase → ℕ
left spawned = 6
left waiting = 5
left (reading target) = 4
left (writing target) = 3
left leaving = 2
left releasing = 1
left ended = 0

-- The supervisor after a step: its job is the same, a signal stays, and it has at least `cost` steps less.
pub record Later (cost : ℕ) (v w : Supervisor) : Type 0 where
  pub same_job : w.job ≡ v.job
  pub nearer : left w.phase + cost ≤ left v.phase
  pub signal : v.signalled ≡ true → w.signalled ≡ true

abbrev pub After : ℕ → ℕ → Supervisor → List Supervisor → Type 0
After cost n v vs = (w : Supervisor) × (get_elem? vs n ≡ some w) × Later cost v w

pub unmoved : (v : Supervisor) → Later 0 v v
unmoved v = record { same_job = refl; nearer = omega arith; signal = λ h. h }

After-set :
    (vs : List Supervisor) (i n cost : ℕ) (u w v : Supervisor)
    → get_elem? vs i ≡ some u
    → Later cost u w
    → get_elem? vs n ≡ some v
    → After 0 n v (set vs i w)
After-set [] i n cost u w v at l at_n = cc
After-set (x ∷ vs) zero zero cost u w v at l at_n =
    let same : u ≡ v = cc in
    (
      w,
      refl,
      subst (λ y. Later 0 y w) same
          (record { same_job = l.same_job; nearer = omega (arith, l.nearer); signal = l.signal }),
    )
After-set (x ∷ vs) zero (suc n) cost u w v at l at_n = (v, at_n, unmoved v)
After-set (x ∷ vs) (suc i) zero cost u w v at l at_n = (v, at_n, unmoved v)
After-set (x ∷ vs) (suc i) (suc n) cost u w v at l at_n = After-set vs i n cost u w v at l at_n

After-append :
    (vs : List Supervisor) (n : ℕ) (v w : Supervisor)
    → get_elem? vs n ≡ some v
    → After 0 n v (vs ++ w ∷ [])
After-append [] n v w at = cc
After-append (x ∷ vs) zero v w at = (v, at, unmoved v)
After-append (x ∷ vs) (suc n) v w at = After-append vs n v w at

After-notify_one :
    (vs : List Supervisor) (i n : ℕ) (v : Supervisor)
    → get_elem? vs n ≡ some v
    → After 0 n v (notify_one i vs)
unfolding notify_one
After-notify_one [] i n v at = cc
After-notify_one (x ∷ vs) zero zero v at =
    let same : x ≡ v = cc in
    (
      record x { signalled = true },
      refl,
      subst (λ y. Later 0 y (record x { signalled = true })) same
          (record { same_job = refl; nearer = omega arith; signal = λ h. refl }),
    )
After-notify_one (x ∷ vs) zero (suc n) v at = (v, at, unmoved v)
After-notify_one (x ∷ vs) (suc i) zero v at = (v, at, unmoved v)
After-notify_one (x ∷ vs) (suc i) (suc n) v at = After-notify_one vs i n v at

After-signal :
    (vs : List Supervisor) (i : Option ℕ) (n : ℕ) (v : Supervisor)
    → get_elem? vs n ≡ some v
    → After 0 n v (signal i vs)
After-signal vs none n v at = (v, at, unmoved v)
After-signal vs (some i) n v at = After-notify_one vs i n v at

After-launch :
    (k free : ℕ) (id : String) (rec : JobRecord) (s : System) (n : ℕ) (v : Supervisor)
    → SupervisorAt s n v
    → After 0 n v (launch k id rec free s).supervisors
unfolding launch
After-launch k zero id rec s n v at = (v, at, unmoved v)
After-launch k (suc free) id rec s n v at = After-append s.supervisors n v (supervisor id rec) at

-- What a step of task `n` does to its supervisor.
record Advance (n : ℕ) (s t : System) : Type 0 where
  v : Supervisor
  w : Supervisor
  at : SupervisorAt s n v
  becomes : t.supervisors ≡ set s.supervisors n w
  later : Later 1 v w

advanced :
    (n : ℕ) (v w : Supervisor) (s t : System) (p : Phase)
    → SupervisorAt s n v
    → v.phase ≡ p
    → t.supervisors ≡ set s.supervisors n w
    → w.job ≡ v.job
    → w.signalled ≡ v.signalled
    → left w.phase + 1 ≤ left p
    → Advance n s t
advanced n v w s t p at phase becomes job signalled nearer = record {
  v = v;
  w = w;
  at = at;
  becomes = becomes;
  later = record {
    same_job = job;
    nearer = omega (arith, nearer, ap left phase);
    signal = λ h. signalled ∙ h;
  };
}

unless_terminal-left :
    (target : JobStatus) (r : Result JobRecord JobError) → left (unless_terminal target r) + 1 ≤ 4
unless_terminal-left target (err e) = omega arith
unless_terminal-left target (ok rec) = elim (Bool-cases (is_terminal rec.status)) [
  | inl done ↦ rw done (omega arith)
  | inr active ↦ rw active (omega arith)
]

task-Advance : (n : ℕ) (s t : System) → Step (task n) s t → Advance n s t
unfolding poll take_cancel read_status write_status deregister release move
task-Advance n s t (polls i v r at phase) =
    advanced n v (record v { phase = waiting; run = Run.running }) s t spawned at phase refl refl
      refl (omega arith)
task-Advance n s t (takes_cancel i v r at phase signalled) =
    advanced n v _ s t waiting at phase refl refl refl (omega arith)
task-Advance n s t (joins i v r at phase run) =
    advanced n v _ s t waiting at phase refl refl refl (omega arith)
task-Advance n s t (joins_panicked i v r at phase run) =
    advanced n v _ s t waiting at phase refl refl refl (omega arith)
task-Advance n s t (reads i v target r at phase) =
    advanced n v _ s t (reading target) at phase refl refl refl
      (unless_terminal-left target (get v.job s.store))
task-Advance n s t (writes i v target now r at phase) =
    advanced n v _ s t (writing target) at phase refl refl refl (omega arith)
task-Advance n s t (deregisters i v r at phase) =
    advanced n v _ s t leaving at phase refl refl refl (omega arith)
task-Advance n s t (releases i v r at phase) =
    advanced n v _ s t releasing at phase refl refl refl (omega arith)

pub Step-After :
    (a : Actor) (s t : System) (n : ℕ) (v : Supervisor)
    → Step a s t
    → SupervisorAt s n v
    → After 0 n v t.supervisors
unfolding check register discard cancel set_canceled run_writes run_stops
Step-After client s t n v (checks id r) at = (v, at, unmoved v)
Step-After client s t n v (launches k id rec r h) at = After-launch k s.permits id rec s n v at
Step-After client s t n v (registers k id i r h) at = (v, at, unmoved v)
Step-After client s t n v (discards id r) at = (v, at, unmoved v)
Step-After client s t n v (cancels k id was_active r h) at =
    After-signal s.supervisors (entry_of id s.registry) n v at
Step-After client s t n v (sets_canceled k id was_active now r h) at = (v, at, unmoved v)
Step-After (run_of i) s t n v (runs_write j u status now r h on wr) at = (v, at, unmoved v)
Step-After (run_of i) s t n v (runs_stop j u panicked r h on) at =
    After-set s.supervisors i n 0 u (record u { run = stopped panicked }) v h
      (record { same_job = refl; nearer = omega arith; signal = λ e. e }) at
Step-After (task i) s t n v step at =
    let adv = task-Advance i s t step in
    subst (λ vs. After 0 n v vs) (sym adv.becomes)
      (After-set s.supervisors i n 1 adv.v adv.w v adv.at adv.later at)

set_at :
    (vs : List Supervisor) (n : ℕ) (v w : Supervisor)
    → get_elem? vs n ≡ some v
    → get_elem? (set vs n w) n ≡ some w
set_at [] n v w at = cc
set_at (x ∷ vs) zero v w at = refl
set_at (x ∷ vs) (suc n) v w at = set_at vs n v w at

pub own-After :
    (s t : System) (n : ℕ) (v : Supervisor)
    → Step (task n) s t
    → SupervisorAt s n v
    → After 1 n v t.supervisors
own-After s t n v step at =
    let adv = task-Advance n s t step in
    let same : adv.v ≡ v = let both : some adv.v ≡ some v = sym adv.at ∙ at in cc in
    (
      adv.w,
      ap (λ vs. get_elem? vs n) adv.becomes ∙ set_at s.supervisors n v adv.w at,
      subst (λ y. Later 1 y adv.w) same adv.later,
    )
