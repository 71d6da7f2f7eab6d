-- ===== src/JobControl/Ending.antt =====
-- What becomes of a supervisor, whatever the others do between its steps.
use open_eo_ru_stac.Prelude.{ℕ, suc, ◌+◌, ◌≤◌, ◌≡◌, refl, ◌∙◌, inl, inr, true, ◌≢◌, ◌⊎◌, arith}
use open_eo_ru_stac.JobControl.{
  Phase, spawned, waiting, reading, writing, leaving, releasing, ended, Supervisor, System, poll,
  take_cancel, read_status, write_status, deregister, release,
}
use open_eo_ru_stac.JobControl.Steps.{
  Actor, task, SupervisorAt, Step, polls, takes_cancel, reads, writes, deregisters, releases,
}
use open_eo_ru_stac.JobControl.Later.{left, Later, After, unmoved, Step-After, own-After}

-- The steps of all, with `count` of them by task `n`.
pub data Runs (n : ℕ) : ℕ → System → System → Type 0 where
  none_yet : (s : System) → Runs n 0 s s
  own_step :
      (count : ℕ) (s t u : System) → Runs n count s t → Step (task n) t u → Runs n (suc count) s u
  other_step :
      (count : ℕ) (a : Actor) (s t u : System)
      → Runs n count s t
      → a ≢ task n
      → Step a t u
      → Runs n count s u

Later-trans : (c d e : ℕ) (u v w : Supervisor) → e ≤ d + c → Later c u v → Later d v w → Later e u w
Later-trans c d e u v w both first second = record {
  same_job = second.same_job ∙ first.same_job;
  nearer = omega (arith, first.nearer, second.nearer, both);
  signal = λ h. second.signal (first.signal h);
}

Runs-After :
    (n count : ℕ) (s t : System) (v : Supervisor)
    → SupervisorAt s n v
    → Runs n count s t
    → After count n v t.supervisors
Runs-After n count s t v at (none_yet r) = (v, at, unmoved v)
Runs-After n count s t v at (own_step c r m u runs step) =
    let (w, at_w, later) = Runs-After n c s m v at runs in
    let (x, at_x, further) = own-After m t n w step at_w in
    (x, at_x, Later-trans c 1 (suc c) v w x (omega arith) later further)
Runs-After n count s t v at (other_step c a r m u runs other step) =
    let (w, at_w, later) = Runs-After n c s m v at runs in
    let (x, at_x, further) = Step-After a m t n w step at_w in
    (x, at_x, Later-trans c 0 c v w x (omega arith) later further)

next_step :
    (n : ℕ) (s : System) (w : Supervisor) (p : Phase)
    → SupervisorAt s n w
    → w.signalled ≡ true
    → w.phase ≡ p
    → (w.phase ≡ ended) ⊎ ((t : System) × Step (task n) s t)
next_step n s w spawned at on phase = inr (poll n w s, polls n w s at phase)
next_step n s w waiting at on phase = inr (take_cancel n w s, takes_cancel n w s at phase on)
next_step n s w (reading target) at on phase =
    inr (read_status n w target s, reads n w target s at phase)
next_step n s w (writing target) at on phase =
    inr (write_status n w target 0 s, writes n w target 0 s at phase)
next_step n s w leaving at on phase = inr (deregister n w s, deregisters n w s at phase)
next_step n s w releasing at on phase = inr (release n w s, releases n w s at phase)
next_step n s w ended at on phase = inl phase

-- Whatever the others do between its steps, a supervisor that was signalled keeps its job, has ended
-- with at most six steps of its own, and until then it can take its next step at once.
pub signalled-Ends :
    (n count : ℕ) (s t : System) (v : Supervisor)
    → SupervisorAt s n v
    → v.signalled ≡ true
    → Runs n count s t
    → (w : Supervisor) × SupervisorAt t n w
      × (w.job ≡ v.job)
      × (left w.phase + count ≤ 6)
      × ((w.phase ≡ ended) ⊎ ((u : System) × Step (task n) t u))
signalled-Ends n count s t v at on runs =
    let (w, at_w, later) = Runs-After n count s t v at runs in
    (
      w,
      at_w,
      later.same_job,
      omega (arith, later.nearer, most v.phase),
      next_step n t w w.phase at_w (later.signal on) refl,
    )
  where
    most : (p : Phase) → left p ≤ 6
    most spawned = omega arith
    most waiting = omega arith
    most (reading target) = omega arith
    most (writing target) = omega arith
    most leaving = omega arith
    most releasing = omega arith
    most ended = omega arith
