-- ===== src/JobControl/Permits.antt =====
-- The permits of the semaphore.
use open_eo_ru_stac.Prelude.{
  ℕ, zero, suc, ◌+◌, ◌≤◌, ◌≡◌, refl, ◌∙◌, ap, sym, inl, inr, Bool-cases, String, set, Result, ok,
  err, arith,
}
use open_eo_ru_stac.Job.{JobStatus, is_terminal, JobRecord, JobError}
use open_eo_ru_stac.JobStore.{get}
use open_eo_ru_stac.JobControl.{
  Run, unborn, running, aborting, stopped, aborted, Phase, waiting, leaving, releasing, ended,
  Supervisor, supervisor, System, check, launch, register, discard, cancel, set_canceled, move,
  poll, take_cancel, read_status, unless_terminal, write_status, deregister, release, run_writes,
  run_stops, entry_of,
}
use open_eo_ru_stac.JobControl.Steps.{
  Actor, SupervisorAt, Step, checks, launches, registers, discards, cancels, sets_canceled, polls,
  takes_cancel, joins, joins_panicked, reads, writes, deregisters, releases, runs_write, runs_stop,
  start, Reach, started, then_step,
}
use open_eo_ru_stac.JobControl.Held.{
  holds, waits, goes, held, going, held-set, held-append, held-signal, Fits, AllFit, AllFit-at,
  AllFit-set, AllFit-append, AllFit-signal, going-held,
}

-- Each permit is free or held by a supervisor, and each run that was not aborted has its own.
pub record IsCapped (max_jobs : ℕ) (s : System) : Type 0 where
  pub balance : s.permits + held s.supervisors ≡ max_jobs
  pub fits : AllFit s.supervisors

-- A step of a supervisor, or of its run, that leaves the free permits.
replaced :
    (max_jobs n : ℕ) (v w : Supervisor) (s : System)
    → SupervisorAt s n v
    → holds w.phase ≡ holds v.phase
    → Fits w
    → IsCapped max_jobs s
    → IsCapped max_jobs (record s { supervisors = set s.supervisors n w })
replaced max_jobs n v w s at same fits c = record {
  balance = omega (arith, c.balance, held-set s.supervisors n v w at, same);
  fits = AllFit-set s.supervisors n w c.fits fits;
}

Fits-idle : (v : Supervisor) → Fits v → waits v.phase ≡ 0 → goes v.run ≡ 0
Fits-idle v fits none_waited = omega (arith, fits, none_waited)

-- A task leaves a phase that waits for no run, and goes to `phase`.
moved :
    (max_jobs n : ℕ) (v : Supervisor) (phase : Phase) (s : System)
    → SupervisorAt s n v
    → holds phase ≡ 1
    → holds v.phase ≡ 1
    → goes v.run ≡ 0
    → IsCapped max_jobs s
    → IsCapped max_jobs (move n v phase s)
unfolding move
moved max_jobs n v phase s at here there idle c =
    replaced max_jobs n v (record v { phase = phase }) s at (here ∙ sym there) (omega (arith, idle))
      c

launch-IsCapped :
    (max_jobs k left : ℕ) (id : String) (rec : JobRecord) (s : System)
    → s.permits ≡ left
    → IsCapped max_jobs s
    → IsCapped max_jobs (launch k id rec left s)
unfolding launch
launch-IsCapped max_jobs k zero id rec s free c = record { balance = c.balance; fits = c.fits }
launch-IsCapped max_jobs k (suc left) id rec s free c = record {
  balance = omega (arith, c.balance, free, held-append s.supervisors (supervisor id rec));
  fits = AllFit-append s.supervisors (supervisor id rec) c.fits (omega arith);
}

aborted-idle : (r : Run) → goes (aborted r) ≡ 0
aborted-idle unborn = refl
aborted-idle running = refl
aborted-idle aborting = refl
aborted-idle (stopped b) = refl

unless_terminal-holds :
    (target : JobStatus) (r : Result JobRecord JobError) → holds (unless_terminal target r) ≡ 1
unless_terminal-holds target (err e) = refl
unless_terminal-holds target (ok rec) = elim (Bool-cases (is_terminal rec.status)) [
  | inl done ↦ rw done refl
  | inr active ↦ rw active refl
]

-- What the phase of `v` says of the permit and of the run.
module _ (v : Supervisor) (fits : Fits v) (p : Phase) (at : v.phase ≡ p) where
  held_in : holds p ≡ 1 → holds v.phase ≡ 1
  held_in h = ap holds at ∙ h

  idle_in : waits p ≡ 0 → goes v.run ≡ 0
  idle_in h = Fits-idle v fits (ap waits at ∙ h)

Step-IsCapped :
    (max_jobs : ℕ) (a : Actor) (s t : System)
    → Step a s t
    → IsCapped max_jobs s
    → IsCapped max_jobs t
unfolding check register discard cancel set_canceled poll take_cancel read_status write_status
    deregister release run_writes run_stops move
Step-IsCapped m a s t (checks id s') c = record { balance = c.balance; fits = c.fits }
Step-IsCapped m a s t (launches k id rec s' at) c = launch-IsCapped m k s.permits id rec s refl c
Step-IsCapped m a s t (registers k id n s' at) c = record { balance = c.balance; fits = c.fits }
Step-IsCapped m a s t (discards id s') c = record { balance = c.balance; fits = c.fits }
Step-IsCapped m a s t (cancels k id was_active s' at) c = record {
  balance = omega (arith, c.balance, held-signal s.supervisors (entry_of id s.registry));
  fits = AllFit-signal s.supervisors (entry_of id s.registry) c.fits;
}
Step-IsCapped m a s t (sets_canceled k id was_active now s' at) c = record {
  balance = c.balance;
  fits = c.fits;
}
Step-IsCapped m a s t (polls n v s' at phase) c =
    replaced m n v (record v { phase = waiting; run = running }) s at (sym (ap holds phase))
      (omega arith) c
Step-IsCapped m a s t (takes_cancel n v s' at phase signalled) c =
    replaced m n v _ s at (sym (ap holds phase)) (omega (arith, aborted-idle v.run)) c
Step-IsCapped m a s t (joins n v s' at phase run) c =
    moved m n v leaving s at refl (ap holds phase) (ap goes run) c
Step-IsCapped m a s t (joins_panicked n v s' at phase run) c =
    moved m n v _ s at refl (ap holds phase) (ap goes run) c
Step-IsCapped m a s t (reads n v target s' at phase) c =
    let fits = AllFit-at s.supervisors n v c.fits at in
    moved m n v _ s at (unless_terminal-holds target (get v.job s.store))
      (held_in v fits _ phase refl) (idle_in v fits _ phase refl) c
Step-IsCapped m a s t (writes n v target now s' at phase) c =
    let fits = AllFit-at s.supervisors n v c.fits at in
    let after =
      moved m n v leaving s at refl (held_in v fits _ phase refl) (idle_in v fits _ phase refl) c in
    record { balance = after.balance; fits = after.fits }
Step-IsCapped m a s t (deregisters n v s' at phase) c =
    let fits = AllFit-at s.supervisors n v c.fits at in
    let after =
      moved m n v releasing s at refl (held_in v fits _ phase refl) (idle_in v fits _ phase refl)
        c in
    record { balance = after.balance; fits = after.fits }
Step-IsCapped m a s t (releases n v s' at phase) c =
    let fits = AllFit-at s.supervisors n v c.fits at in
    let idle = idle_in v fits _ phase refl in
    record {
      balance = omega (
        arith,
        c.balance,
        held-set s.supervisors n v (record v { phase = ended }) at,
        held_in v fits _ phase refl,
      );
      fits = AllFit-set s.supervisors n (record v { phase = ended }) c.fits (omega (arith, idle));
    }
Step-IsCapped m a s t (runs_write n v status now s' at on _) c = record {
  balance = c.balance;
  fits = c.fits;
}
Step-IsCapped m a s t (runs_stop n v panicked s' at on) c =
    replaced m n v (record v { run = stopped panicked }) s at refl (omega arith) c

Reach-IsCapped : (max_jobs : ℕ) (s : System) → Reach max_jobs s → IsCapped max_jobs s
unfolding start
Reach-IsCapped m s (started store) = record { balance = omega arith; fits = tt }
Reach-IsCapped m s (then_step a r t reach step) =
    Step-IsCapped m a r s step (Reach-IsCapped m r reach)

-- In every state that start_processing, discard_results, the supervisors and the runs reach in any
-- order: the free permits and the supervisors that have not ended are together as many as the
-- permits of the semaphore, and no more runs go on that were not aborted.
pub Reach-permits :
    (max_jobs : ℕ) (s : System)
    → Reach max_jobs s
    → (s.permits + held s.supervisors ≡ max_jobs) × (going s.supervisors ≤ max_jobs)
Reach-permits m s reach =
    let c = Reach-IsCapped m s reach in
    (c.balance, omega (arith, c.balance, going-held s.supervisors c.fits))
