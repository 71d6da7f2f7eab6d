-- ===== src/JobControl/Starting.antt =====
-- start_processing from its first access to the store to its answer.
use open_eo_ru_stac.Prelude.{
  arith, ℕ, zero, suc, ◌≡◌, ◌≢◌, ◌⊎◌, inl, inr, refl, ◌∙◌, ap, sym, Bool, true, false, String, some,
  List, [], ◌∷◌, ◌++◌, length, length-append, set, get_elem?, Result, ok, err, subst, str_eq_iff,
}
use Prim.Native.String.{◌++◌ as ◌<>◌}
use open_eo_ru_stac.Json.{string, object, field, closed}
use open_eo_ru_stac.JobRunner.{error_text}
use open_eo_ru_stac.Job.{
  JobStatus, created, queued, running, canceled, finished, error, as_str, JobRecord, JobError,
  not_found, backend, is_active,
}
use open_eo_ru_stac.JobStore.{get}
use open_eo_ru_stac.JobRoutes.Replies.{Response, Payload, json, respond, no_body, store_failed}
use open_eo_ru_stac.JobControl.{
  Supervisor, spawned, unborn, supervisor, Request, start_checked, start_spawned, answered, System,
  check, checked, locked, queue_full, launch, register, insert_entry, entry_of,
}
use open_eo_ru_stac.JobControl.Steps.{client, RequestAt, Step, checks, launches, registers}
use open_eo_ru_stac.JobControl.Entries.{entry_of-insert}

-- Steps of requests only.
pub data ByClients : System → System → Type 0 where
  no_step : (s : System) → ByClients s s
  then_step : (s t u : System) → ByClients s t → Step client t u → ByClients s u

last_request : (rs : List Request) (r : Request) → get_elem? (rs ++ r ∷ []) (length rs) ≡ some r
last_request [] r = refl
last_request (x ∷ rs) r = last_request rs r

set_last : (rs : List Request) (r x : Request) → set (rs ++ r ∷ []) (length rs) x ≡ rs ++ x ∷ []
set_last [] r x = refl
set_last (y ∷ rs) r x = ap (λ ys. y ∷ ys) (set_last rs r x)

abbrev pub accepted : Response
accepted = respond 202 no_body

-- All but the requests is the same.
pub record Same (s t : System) : Type 0 where
  pub store : t.store ≡ s.store
  pub registry : t.registry ≡ s.registry
  pub permits : t.permits ≡ s.permits
  pub supervisors : t.supervisors ≡ s.supervisors

-- One supervisor more, with a permit, and registered.
pub record Spawned (id : String) (rec : JobRecord) (s t : System) : Type 0 where
  pub store : t.store ≡ s.store
  pub registry : t.registry ≡ insert_entry id (length s.supervisors) s.registry
  pub permits : suc t.permits ≡ s.permits
  pub supervisors :
      t.supervisors
      ≡ s.supervisors
        ++ record {
          job = id;
          user_id = rec.user_id;
          process = rec.process;
          phase = spawned;
          run = unborn;
          signalled = false;
        }
          ∷ []

-- A body with a code and a message.
abbrev pub coded : String → String → Payload
coded code message =
    json (object (field "code" (string code) (field "message" (string message) closed)))

abbrev pub Idle : JobRecord → Type 0
Idle rec = (rec.status ≢ queued) × (rec.status ≢ running)

is_active-queued_or_running : (s : JobStatus) → is_active s ≡ true → (s ≡ queued) ⊎ (s ≡ running)
is_active-queued_or_running queued h = inl refl
is_active-queued_or_running running h = inr refl
is_active-queued_or_running created h = cc
is_active-queued_or_running canceled h = cc
is_active-queued_or_running finished h = cc
is_active-queued_or_running error h = cc

is_active-idle : (s : JobStatus) → is_active s ≡ false → (s ≢ queued) × (s ≢ running)
is_active-idle queued h = cc
is_active-idle running h = cc
is_active-idle created h = ((λ e. cc), (λ e. cc))
is_active-idle canceled h = ((λ e. cc), (λ e. cc))
is_active-idle finished h = ((λ e. cc), (λ e. cc))
is_active-idle error h = ((λ e. cc), (λ e. cc))

pub data Starts (id : String) (s t : System) : Response → Type 0 where
  absent :
      (missing : String)
      → get id s.store ≡ err (not_found missing)
      → Same s t
      → Starts id s t (record {
        status = 404;
        headers = [];
        body = json (object (field "code" (string "JobNotFound") closed));
      })
  unreadable :
      (text : String)
      → get id s.store ≡ err (backend text)
      → Same s t
      → Starts id s t (record {
        status = 500;
        headers = [];
        body = coded "Internal" (error_text (backend text));
      })
  is_locked :
      (rec : JobRecord)
      → get id s.store ≡ ok rec
      → (rec.status ≡ queued) ⊎ (rec.status ≡ running)
      → Same s t
      → Starts id s t (record {
        status = 409;
        headers = [];
        body = coded "JobLocked" ("job '" <> id <> "' is already " <> as_str rec.status);
      })
  is_full :
      (rec : JobRecord)
      → get id s.store ≡ ok rec
      → Idle rec
      → s.permits ≡ 0
      → Same s t
      → Starts id s t (record {
        status = 503;
        headers = [];
        body = coded "QueueFull" "maximum concurrent jobs reached; retry later";
      })
  is_accepted :
      (rec : JobRecord)
      → get id s.store ≡ ok rec
      → Idle rec
      → Spawned id rec s t
      → Starts id s t (record { status = 202; headers = []; body = no_body })

-- The request is the last of `t`, with its answer.
pub record Answered (id : String) (s : System) : Type 0 where
  pub after : System
  pub response : Response
  pub steps : ByClients s after
  pub requests : after.requests ≡ s.requests ++ answered response ∷ []
  pub starts : Starts id s after response

checked_at :
    (id : String) (s : System) (r : Request)
    → checked id (get id s.store) ≡ r
    → (check id s).requests ≡ s.requests ++ r ∷ []
unfolding check
checked_at id s r e = ap (λ x. s.requests ++ x ∷ []) e

at_once :
    (id : String) (s : System) (response : Response)
    → checked id (get id s.store) ≡ answered response
    → (Same s (check id s) → Starts id s (check id s) response)
    → Answered id s
unfolding check
at_once id s response e starts = record {
  after = check id s;
  response = response;
  steps = then_step s s (check id s) (no_step s) (checks id s);
  requests = checked_at id s (answered response) e;
  starts = starts (record { store = refl; registry = refl; permits = refl; supervisors = refl });
}

-- The request that was appended, and its replacement.
replaced_last :
    (rs qs : List Request) (r x : Request) → rs ≡ qs ++ r ∷ [] → set rs (length qs) x ≡ qs ++ x ∷ []
replaced_last rs qs r x e = ap (λ ys. set ys (length qs) x) e ∙ set_last qs r x

launch_step :
    (id : String) (rec : JobRecord) (s : System) (free : ℕ)
    → checked id (get id s.store) ≡ start_checked id rec
    → s.permits ≡ free
    → ByClients s (launch (length s.requests) id rec free (check id s))
unfolding check
launch_step id rec s free e permits =
    let k = length s.requests in
    let at : RequestAt (check id s) k (start_checked id rec) =
      ap (λ rs. get_elem? rs k) (checked_at id s _ e)
      ∙ last_request s.requests (start_checked id rec) in
    then_step s (check id s) _ (then_step s s (check id s) (no_step s) (checks id s)) (
      subst (λ p. Step client (check id s) (launch k id rec p (check id s))) permits
        (launches k id rec (check id s) at))

abbrev Accepted : String → JobRecord → System → Type 0
Accepted id rec s =
    (t : System) × ByClients s t
    × (t.requests ≡ s.requests ++ answered accepted ∷ [])
    × Spawned id rec s t

spawned_one :
    (id : String) (rec : JobRecord) (s : System) (free : ℕ)
    → s.permits ≡ suc free
    → checked id (get id s.store) ≡ start_checked id rec
    → Accepted id rec s
unfolding check launch register
spawned_one id rec s free permits e =
    let k = length s.requests in
    let n = length s.supervisors in
    let s2 = launch k id rec (suc free) (check id s) in
    let requests =
      replaced_last _ s.requests (start_checked id rec) (start_spawned id n)
        (checked_at id s _ e) in
    let at : RequestAt s2 k (start_spawned id n) =
      ap (λ rs. get_elem? rs k) requests ∙ last_request s.requests (start_spawned id n) in
    (
      register k id n s2,
      then_step s s2 _ (launch_step id rec s (suc free) e permits) (registers k id n s2 at),
      replaced_last _ s.requests (start_spawned id n) (answered accepted) requests,
      record { store = refl; registry = refl; permits = sym permits; supervisors = refl },
    )

launched :
    (id : String) (rec : JobRecord) (s : System) (free : ℕ)
    → get id s.store ≡ ok rec
    → is_active rec.status ≡ false
    → s.permits ≡ free
    → checked id (get id s.store) ≡ start_checked id rec
    → Answered id s
unfolding check launch
launched id rec s zero reads idle permits e = record {
  after = launch (length s.requests) id rec 0 (check id s);
  response = queue_full;
  steps = launch_step id rec s 0 e permits;
  requests =
      replaced_last _ s.requests (start_checked id rec) (answered queue_full) (checked_at id s _ e);
  starts =
      is_full rec reads (is_active-idle rec.status idle) permits
        (record { store = refl; registry = refl; permits = refl; supervisors = refl });
}
launched id rec s (suc free) reads idle permits e =
    let (t, steps, requests, spawns) = spawned_one id rec s free permits e in
    record {
      after = t;
      response = accepted;
      steps = steps;
      requests = requests;
      starts = is_accepted rec reads (is_active-idle rec.status idle) spawns;
    }

known :
    (id : String) (rec : JobRecord) (s : System) (b : Bool)
    → get id s.store ≡ ok rec
    → is_active rec.status ≡ b
    → Answered id s
known id rec s true reads active =
    at_once id s (locked id rec) (ap (checked id) reads ∙ rw active refl)
      (is_locked rec reads (is_active-queued_or_running rec.status active))
known id rec s false reads idle =
    launched id rec s s.permits reads idle refl (ap (checked id) reads ∙ rw idle refl)

-- A start_processing that no other task comes between is answered: with 404 where the store does not
-- know the job, with 500 where it fails, with 409 where it is queued or running, with 503 where no permit is free, and
-- then nothing else changes; otherwise with 202, and then one supervisor more has a permit and is
-- registered for the job, and the store is as before.
pub start_processing-Answered : (id : String) (s : System) → Answered id s
start_processing-Answered id s = read (get id s.store) refl
  where
    read : (r : Result JobRecord JobError) → get id s.store ≡ r → Answered id s
    read (err (not_found m)) reads =
        at_once id s (store_failed (not_found m)) (ap (checked id) reads) (absent m reads)
    read (err (backend m)) reads =
        at_once id s (store_failed (backend m)) (ap (checked id) reads) (unreadable m reads)
    read (ok rec) reads = known id rec s (is_active rec.status) reads refl

ByClients-trans : (s t u : System) → ByClients s t → ByClients t u → ByClients s u
ByClients-trans s t u first (no_step v) = first
ByClients-trans s t u first (then_step v w x steps step) =
    then_step s w u (ByClients-trans s t w first steps) step

-- A job that is not queued or running is started twice, where two permits are free and its run has
-- not written a status in between: both requests are answered
-- with 202, two supervisors of the job run, and the registry has the second only.
pub start_processing-twice :
    (id : String) (rec : JobRecord) (s : System) (free : ℕ)
    → get id s.store ≡ ok rec
    → is_active rec.status ≡ false
    → s.permits ≡ suc (suc free)
    → (t : System) × ByClients s t
      × (t.requests ≡ s.requests ++ answered accepted ∷ answered accepted ∷ [])
      × (t.supervisors ≡ s.supervisors ++ supervisor id rec ∷ supervisor id rec ∷ [])
      × (entry_of id t.registry ≡ some (suc (length s.supervisors)))
start_processing-twice id rec s free reads idle permits =
    let passes : checked id (get id s.store) ≡ start_checked id rec =
      ap (checked id) reads ∙ rw idle refl in
    let (m, steps, requests, first) = spawned_one id rec s (suc free) permits passes in
    let (t, more, requests', second) =
      spawned_one id rec m free (omega (arith, first.permits, permits))
        (ap (λ x. checked id (get id x)) first.store ∙ passes) in
    (
      t,
      ByClients-trans s m t steps more,
      requests'
          ∙ ap (λ rs. rs ++ answered accepted ∷ []) requests
          ∙ append-assoc s.requests (answered accepted ∷ []) (answered accepted ∷ []),
      second.supervisors
          ∙ ap (λ vs. vs ++ supervisor id rec ∷ []) first.supervisors
          ∙ append-assoc s.supervisors (supervisor id rec ∷ []) (supervisor id rec ∷ []),
      ap (entry_of id) second.registry
          ∙ entry_of-insert id (length m.supervisors) m.registry id
          ∙ rw ((str_eq_iff id id).1 refl) (ap some (counted m.supervisors first.supervisors)),
    )
  where
    append-assoc : {A : Type 0} (xs ys zs : List A) → (xs ++ ys) ++ zs ≡ xs ++ (ys ++ zs)
    append-assoc [] ys zs = refl
    append-assoc (x ∷ xs) ys zs = ap (λ ws. x ∷ ws) (append-assoc xs ys zs)

    counted :
        (vs : List Supervisor)
        → vs ≡ s.supervisors ++ supervisor id rec ∷ []
        → length vs ≡ suc (length s.supervisors)
    counted vs e = ap length e ∙ omega (arith, length-append s.supervisors (supervisor id rec ∷ []))
