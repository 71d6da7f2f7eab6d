-- ===== src/JobControl/Registry.antt =====
-- The entries of the registry.
use open_eo_ru_stac.Prelude.{
  ℕ, zero, suc, ◌≡◌, refl, ◌∙◌, ap, sym, ◌⊎◌, inl, inr, Bool, true, false, String, Option, some,
  List, [], ◌∷◌, ◌++◌, set, get_elem?, ◌≢◌, Result, ok, err, subst, length, if◌then◌else◌,
}
use open_eo_ru_stac.Job.{JobRecord, JobError, is_active}
use open_eo_ru_stac.JobStore.{get}
use open_eo_ru_stac.JobControl.{
  Supervisor, supervisor, Request, start_checked, start_spawned, answered, System, check, checked,
  launch, register, discard, discarded, cancel, notify_one, set_canceled, move, poll, take_cancel,
  read_status, write_status, deregister, release, run_writes, run_stops, entry_of, queue_full,
  locked,
}
use open_eo_ru_stac.JobControl.Steps.{
  Actor, client, task, run_of, RequestAt, SupervisorAt, Step, checks, launches, registers, discards,
  cancels, sets_canceled, polls, takes_cancel, joins, joins_panicked, reads, writes, deregisters,
  releases, runs_write, runs_stop, start, Reach, started, then_step,
}
use open_eo_ru_stac.JobControl.Later.{Step-After}
use open_eo_ru_stac.JobControl.Entries.{inserted, removed, appended, replaced}

-- Supervisor `n` runs the job `id`.
abbrev pub Supervises : System → ℕ → String → Type 0
Supervises s n id = (v : Supervisor) × SupervisorAt s n v × (v.job ≡ id)

-- Each entry, and each supervisor that is to be entered, is of the job that it is entered for.
record IsNamed (s : System) : Type 0 where
  entries : (id : String) (n : ℕ) → entry_of id s.registry ≡ some n → Supervises s n id
  to_enter : (k : ℕ) (id : String) (n : ℕ) → RequestAt s k (start_spawned id n) → Supervises s n id

Supervises-Step :
    (a : Actor) (s t : System) (n : ℕ) (id : String)
    → Step a s t
    → Supervises s n id
    → Supervises t n id
Supervises-Step a s t n id step (v, at, job) =
    let (w, at_w, later) = Step-After a s t n v step at in (w, at_w, later.same_job ∙ job)

-- A step keeps what is named, where its new entries and requests are.
kept :
    (a : Actor) (s t : System)
    → Step a s t
    → IsNamed s
    → ((id : String) (n : ℕ)
        → entry_of id t.registry ≡ some n
        → (entry_of id s.registry ≡ some n) ⊎ Supervises s n id)
    → ((k : ℕ) (id : String) (n : ℕ)
        → RequestAt t k (start_spawned id n)
        → RequestAt s k (start_spawned id n) ⊎ Supervises t n id)
    → IsNamed t
kept a s t step named entries to_enter = record {
  entries = λ id n h. elim (entries id n h) [
    | inl old ↦ Supervises-Step a s t n id step (named.entries id n old)
    | inr new ↦ Supervises-Step a s t n id step new
  ];
  to_enter = λ k id n h. elim (to_enter k id n h) [
    | inl old ↦ Supervises-Step a s t n id step (named.to_enter k id n old)
    | inr new ↦ new
  ];
}

last_at : (vs : List Supervisor) (v : Supervisor) → get_elem? (vs ++ v ∷ []) (length vs) ≡ some v
last_at [] v = refl
last_at (x ∷ vs) v = last_at vs v

launched :
    (k : ℕ) (id : String) (rec : JobRecord) (free : ℕ) (s : System) (i : ℕ) (j : String) (n : ℕ)
    → RequestAt (launch k id rec free s) i (start_spawned j n)
    → RequestAt s i (start_spawned j n) ⊎ Supervises (launch k id rec free s) n j
unfolding launch
launched k id rec zero s i j n h = elim (replaced s.requests k (answered queue_full) _ i h) [
  | inl old ↦ inl old
  | inr new ↦ absurd cc
]
launched k id rec (suc free) s i j n h =
    elim (replaced s.requests k (start_spawned id (length s.supervisors)) _ i h) [
      | inl old ↦ inl old
      | inr new ↦
          let number : length s.supervisors ≡ n = cc in
          inr (
            supervisor id rec,
            subst
                (λ m.
                  get_elem? (s.supervisors ++ supervisor id rec ∷ []) m ≡ some (supervisor id rec))
                number (last_at s.supervisors (supervisor id rec)),
            cc,
          )
    ]

launch-registry :
    (k : ℕ) (id : String) (rec : JobRecord) (free : ℕ) (s : System) (j : String)
    → entry_of j (launch k id rec free s).registry ≡ entry_of j s.registry
unfolding launch
launch-registry k id rec zero s j = refl
launch-registry k id rec (suc free) s j = refl

-- The request of a handler that does not spawn.
other_request :
    (rs : List Request) (i : ℕ) (r : Request) (t : System)
    → ((j : String) (m : ℕ) → r ≢ start_spawned j m)
    → (k : ℕ) (id : String) (n : ℕ) → get_elem? (set rs i r) k ≡ some (start_spawned id n)
    → (get_elem? rs k ≡ some (start_spawned id n)) ⊎ Supervises t n id
other_request rs i r t other k id n h = elim (replaced rs i r _ k h) [
  | inl old ↦ inl old
  | inr new ↦ absurd (other id n new)
]

new_request :
    (rs : List Request) (r : Request) (t : System)
    → ((j : String) (m : ℕ) → r ≢ start_spawned j m)
    → (k : ℕ) (id : String) (n : ℕ) → get_elem? (rs ++ r ∷ []) k ≡ some (start_spawned id n)
    → (get_elem? rs k ≡ some (start_spawned id n)) ⊎ Supervises t n id
new_request rs r t other k id n h = elim (appended rs r _ k h) [
  | inl old ↦ inl old
  | inr new ↦ absurd (other id n new)
]

checked-apart :
    (i : String) (r : Result JobRecord JobError) (j : String) (m : ℕ)
    → checked i r ≢ start_spawned j m
checked-apart i (err e) j m h = cc
checked-apart i (ok rec) j m h = choose (is_active rec.status) h
  where
    choose :
        (b : Bool)
        → (if b then answered (locked i rec) else start_checked i rec) ≡ start_spawned j m
        → ⊥
    choose true e = cc
    choose false e = cc

discarded-apart :
    (i : String) (r : Result JobRecord JobError) (j : String) (m : ℕ)
    → discarded i r ≢ start_spawned j m
discarded-apart i (err e) j m h = cc
discarded-apart i (ok rec) j m h = cc

task_keeps :
    (n : ℕ) (s t : System)
    → Step (task n) s t
    → (t.requests ≡ s.requests)
      × ((id : String) (m : ℕ) → entry_of id t.registry ≡ some m → entry_of id s.registry ≡ some m)
unfolding poll take_cancel read_status write_status deregister release move
task_keeps n s t (polls i v r at phase) = (refl, λ id m h. h)
task_keeps n s t (takes_cancel i v r at phase signalled) = (refl, λ id m h. h)
task_keeps n s t (joins i v r at phase run) = (refl, λ id m h. h)
task_keeps n s t (joins_panicked i v r at phase run) = (refl, λ id m h. h)
task_keeps n s t (reads i v target r at phase) = (refl, λ id m h. h)
task_keeps n s t (writes i v target now r at phase) = (refl, λ id m h. h)
task_keeps n s t (deregisters i v r at phase) = (refl, λ id m h. removed v.job s.registry id m h)
task_keeps n s t (releases i v r at phase) = (refl, λ id m h. h)

Step-IsNamed : (a : Actor) (s t : System) → Step a s t → IsNamed s → IsNamed t
unfolding check register discard cancel set_canceled run_writes run_stops launch
Step-IsNamed client s t (checks i r) named =
    kept client s t (checks i s) named (λ id n h. inl h)
      (new_request s.requests (checked i (get i s.store)) t (checked-apart i (get i s.store)))
Step-IsNamed client s t (launches k i rec r at) named =
    kept client s t (launches k i rec s at) named
      (λ id n h. inl (sym (launch-registry k i rec s.permits s id) ∙ h))
      (launched k i rec s.permits s)
Step-IsNamed client s t (registers k i m r at) named =
    kept client s t (registers k i m s at) named
      (λ id n h. elim (inserted i m s.registry id n h) [
        | inl (same, number) ↦ inr (
            subst (λ x. Supervises s x id) number
              (subst (λ j. Supervises s m j) same (named.to_enter k i m at)))
        | inr old ↦ inl old
      ])
      (other_request s.requests k _ t (λ j l e. cc))
Step-IsNamed client s t (discards i r) named =
    kept client s t (discards i s) named (λ id n h. inl h)
      (new_request s.requests (discarded i (get i s.store)) t (discarded-apart i (get i s.store)))
Step-IsNamed client s t (cancels k i was_active r at) named =
    kept client s t (cancels k i was_active s at) named (λ id n h. inl h)
      (other_request s.requests k _ t (λ j l e. cc))
Step-IsNamed client s t (sets_canceled k i was_active now r at) named =
    kept client s t (sets_canceled k i was_active now s at) named (λ id n h. inl h)
      (other_request s.requests k _ t (λ j l e. cc))
Step-IsNamed (run_of i) s t (runs_write j v status now r at on wr) named =
    kept (run_of i) s t (runs_write i v status now s at on wr) named (λ id n h. inl h)
      (λ k id n h. inl h)
Step-IsNamed (run_of i) s t (runs_stop j v panicked r at on) named =
    kept (run_of i) s t (runs_stop i v panicked s at on) named (λ id n h. inl h) (λ k id n h. inl h)
Step-IsNamed (task i) s t step named =
    let (requests, entries) = task_keeps i s t step in
    kept (task i) s t step named (λ id n h. inl (entries id n h))
      (λ k id n h. inl (sym (ap (λ rs. get_elem? rs k) requests) ∙ h))

Reach-IsNamed : (max_jobs : ℕ) (s : System) → Reach max_jobs s → IsNamed s
unfolding start entry_of
Reach-IsNamed m s (started store) = record {
  entries = λ id n h. absurd cc;
  to_enter = λ k id n h. absurd cc;
}
Reach-IsNamed m s (then_step a r t reach step) = Step-IsNamed a r s step (Reach-IsNamed m r reach)

notify_one-at :
    (vs : List Supervisor) (n : ℕ) (v : Supervisor)
    → get_elem? vs n ≡ some v
    → get_elem? (notify_one n vs) n ≡ some (record v { signalled = true })
unfolding notify_one
notify_one-at [] n v at = cc
notify_one-at (x ∷ vs) zero v at =
    let same : x ≡ v = cc in
    ap {A = Supervisor} {B = Option Supervisor} (λ y. some (record y { signalled = true })) same
notify_one-at (x ∷ vs) (suc n) v at = notify_one-at vs n v at

notify_one-other :
    (vs : List Supervisor) (n m : ℕ) → n ≢ m → get_elem? (notify_one n vs) m ≡ get_elem? vs m
unfolding notify_one
notify_one-other [] n m apart = refl
notify_one-other (x ∷ vs) zero zero apart = absurd (apart refl)
notify_one-other (x ∷ vs) zero (suc m) apart = refl
notify_one-other (x ∷ vs) (suc n) zero apart = refl
notify_one-other (x ∷ vs) (suc n) (suc m) apart = notify_one-other vs n m (λ e. apart (ap suc e))

-- In every state that is reached, a discard_results of a job that the registry has signals a
-- supervisor of that job, and no other supervisor.
pub cancel-Signals :
    (max_jobs : ℕ) (s : System) (k : ℕ) (id : String) (was_active : Bool) (n : ℕ)
    → Reach max_jobs s
    → entry_of id s.registry ≡ some n
    → ((v : Supervisor) × SupervisorAt (cancel k id was_active s) n v
        × (v.job ≡ id)
        × (v.signalled ≡ true))
      × ((m : ℕ)
          → n ≢ m
          → get_elem? (cancel k id was_active s).supervisors m ≡ get_elem? s.supervisors m)
unfolding cancel
cancel-Signals max_jobs s k id was_active n reach entry =
    let (v, at, job) = (Reach-IsNamed max_jobs s reach).entries id n entry in
    rw entry (
      (record v { signalled = true }, notify_one-at s.supervisors n v at, job, refl),
      λ m apart. notify_one-other s.supervisors n m apart,
    )
