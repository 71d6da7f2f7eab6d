-- ===== src/Etl/Sending.antt =====
-- What the steps of a run send, and how they fail.
use mathlib.Core.List.{append_assoc}
use open_eo_ru_stac.Prelude.{
  ℕ, suc, true, false, if◌then◌else◌, ◌≡◌, refl, ◌∙◌, ap, Bool, String, some, List, [], ◌∷◌, ◌++◌,
  Result, ok, err,
}
use open_eo_ru_stac.Etl.Spec.{Error, outside, cancelled, PipelineSpec, identifiers_checked}
use open_eo_ru_stac.Etl.{
  completed, failed, was_cancelled, JobStatus, Event, started, progress, completed_event,
  cancelled_event, failed_event, Frame, Database, World, Failure, raised, Task, behind, changed,
  save, poll, given, ensure_table, write_chunk, insert_chunk,
}

abbrev pub IsOngoing : Event → Type 0
IsOngoing started = Unit
IsOngoing (progress r n) = Unit
IsOngoing _ = ⊥

abbrev pub AllOngoing : List Event → Type 0
AllOngoing [] = Unit
AllOngoing (e ∷ es) = IsOngoing e × AllOngoing es

AllOngoing-append : (es fs : List Event) → AllOngoing es → AllOngoing fs → AllOngoing (es ++ fs)
AllOngoing-append [] fs here there = there
AllOngoing-append (e ∷ es) fs (now, here) there = (now, AllOngoing-append es fs here there)

-- The status that the last event of a run tells of.
abbrev pub Tells : Event → JobStatus → Type 0
Tells (completed_event r n) s = (s.state ≡ completed) × (s.rows_read ≡ r) × (s.rows_written ≡ n)
Tells (cancelled_event r n) s =
    (s.state ≡ was_cancelled)
    × (s.rows_read ≡ r)
    × (s.rows_written ≡ n)
    × (s.error ≡ some "cancelled")
Tells (failed_event m) s = (s.state ≡ failed) × (s.error ≡ some m)
Tells _ s = ⊥

module _ {D : Type 0} where
  pub record Extends (w v : World D) : Type 0 where
    pub sent : List Event
    pub events : v.events ≡ w.events ++ sent
    pub ongoing : AllOngoing sent

  pub record Ended (w v : World D) : Type 0 where
    pub sent : List Event
    pub last : Event
    pub events : v.events ≡ w.events ++ (sent ++ last ∷ [])
    pub ongoing : AllOngoing sent
    pub tells : Tells last v.status

  pub Extends-trans : (u v w : World D) → Extends u v → Extends v w → Extends u w
  Extends-trans u v w first second = record {
    sent = first.sent ++ second.sent;
    events =
        second.events
        ∙ ap (λ es. es ++ second.sent) first.events
        ∙ append_assoc u.events first.sent second.sent;
    ongoing = AllOngoing-append first.sent second.sent first.ongoing second.ongoing;
  }

  pub ended :
      (u v w : World D) (last : Event)
      → Extends u v
      → w.events ≡ v.events ++ last ∷ []
      → Tells last w.status
      → Ended u w
  ended u v w last before events tells = record {
    sent = before.sent;
    last = last;
    events =
        events
        ∙ ap (λ es. es ++ last ∷ []) before.events
        ∙ append_assoc u.events before.sent (last ∷ []);
    ongoing = before.ongoing;
    tells = tells;
  }

  pub data Outcome (w : World D) : Result (Unit {0}) Failure × World D → Type 0 where
    fine : (v : World D) → Ended w v → Outcome w (ok tt, v)
    broken : (e : Error) (v : World D) → Extends w v → Outcome w (err (raised e), v)

  -- A step from a world that extends `w`: it sends ongoing events only, and fails with an error only.
  pub data Goes (w : World D) {A : Type 0} : Result A Failure × World D → Type 0 where
    went : (a : A) (v : World D) → Extends w v → Goes w (ok a, v)
    broke : (e : Error) (v : World D) → Extends w v → Goes w (err (raised e), v)

  pub behind-Outcome :
      {A : Type 0} (w : World D) (f : A → Task D (Unit {0})) (out : Result A Failure × World D)
      → Goes w out
      → ((a : A) (v : World D) → Extends w v → Outcome w (f a v))
      → Outcome w (behind f out)
  unfolding behind
  behind-Outcome w f out (went a v ext) next = next a v ext
  behind-Outcome w f out (broke e v ext) next = broken e v ext

  pub behind-Goes :
      {A B : Type 0} (w : World D) (f : A → Task D B) (out : Result A Failure × World D)
      → Goes w out
      → ((a : A) (v : World D) → Extends w v → Goes w (f a v))
      → Goes w (behind f out)
  unfolding behind
  behind-Goes w f out (went a v ext) next = next a v ext
  behind-Goes w f out (broke e v ext) next = broke e v ext

  -- A step that sends no event, and one that sends an ongoing one.
  pub silent : (u w v : World D) → Extends u w → v.events ≡ w.events → Extends u v
  silent u w v before same = record {
    sent = before.sent;
    events = same ∙ before.events;
    ongoing = before.ongoing;
  }

  pub one_more :
      (u w v : World D) (e : Event)
      → Extends u w
      → v.events ≡ w.events ++ e ∷ []
      → IsOngoing e
      → Extends u v
  one_more u w v e before events ongoing =
      Extends-trans u w v before
        (record { sent = e ∷ []; events = events; ongoing = (ongoing, tt) })

module _ {R D : Type 0} (debug : String → String) (sql : Database R D) (spec : PipelineSpec)
    (now : ℕ) (flag takes : ℕ → Bool) (source query : Result (Frame R) String) where
  changed-events :
      (w : World D) (r : Result D String)
      → (changed debug sql spec now flag takes source query w r).1.events ≡ w.events
  changed-events w (ok d) = refl
  changed-events w (err m) = refl

  pub changed-status :
      (w : World D) (r : Result D String)
      → (changed debug sql spec now flag takes source query w r).1.status ≡ w.status
  changed-status w (ok d) = refl
  changed-status w (err m) = refl

  pub save-events :
      (f : JobStatus → JobStatus) (w : World D)
      → (save debug sql spec now flag takes source query f w).1.events ≡ w.events
  unfolding save
  save-events f w =
      changed-events (record w { status = f w.status }) (sql.save_status (f w.status) w.db)

  pub save-status :
      (f : JobStatus → JobStatus) (w : World D)
      → (save debug sql spec now flag takes source query f w).1.status ≡ f w.status
  unfolding save
  save-status f w =
      changed-status (record w { status = f w.status }) (sql.save_status (f w.status) w.db)

  pub changed-Goes :
      (u w : World D) (r : Result D String)
      → Extends u w
      → Goes u (changed debug sql spec now flag takes source query w r)
  changed-Goes u w (ok d) before = went tt _ (silent u w _ before refl)
  changed-Goes u w (err m) before = broke (outside m) w before

  pub save-Goes :
      (u w : World D) (f : JobStatus → JobStatus)
      → Extends u w
      → Goes u (save debug sql spec now flag takes source query f w)
  unfolding save
  save-Goes u w f before =
      changed-Goes u (record w { status = f w.status }) (sql.save_status (f w.status) w.db)
        (silent u w _ before refl)

  pub poll-Goes :
      (u w : World D) → Extends u w → Goes u (poll debug sql spec now flag takes source query w)
  unfolding poll
  poll-Goes u w before = choose (flag w.polls)
    where
      choose :
          (b : Bool)
          → Goes u {A = Unit {0}}
              (if b then err (raised cancelled) else ok tt, record w { polls = suc w.polls })
      choose true = broke cancelled _ (silent u w _ before refl)
      choose false = went tt _ (silent u w _ before refl)

  pub given-Goes :
      {A : Type 0} (u w : World D) (r : Result A String)
      → Extends u w
      → Goes u (given debug sql spec now flag takes source query r w)
  unfolding given
  given-Goes u w (ok a) before = went a w before
  given-Goes u w (err m) before = broke (outside m) w before

  pub ensure_table-Goes :
      (columns : List String) (u w : World D)
      → Extends u w
      → Goes u (ensure_table debug sql spec now flag takes source query columns w)
  unfolding ensure_table
  ensure_table-Goes columns u w before = choose (identifiers_checked debug spec columns)
    where
      choose :
          (r : Result (Unit {0}) Error)
          → Goes u {A = Unit {0}} (elim r as (λ _. Result (Unit {0}) Failure × World D) [
            | err e ↦ (err (raised e), w)
            | ok _ ↦ changed debug sql spec now flag takes source query w (sql.create_table w.db)
          ])
      choose (err e) = broke e w before
      choose (ok _) = changed-Goes u w (sql.create_table w.db) before

  pub write_chunk-Goes :
      (columns : List String) (rows : List R) (u w : World D)
      → Extends u w
      → Goes u (write_chunk debug sql spec now flag takes source query columns rows w)
  unfolding write_chunk
  write_chunk-Goes columns rows u w before = choose (insert_chunk debug sql spec columns rows w.db)
    where
      choose :
          (r : Result (ℕ × D) Error)
          → Goes u {A = ℕ} (elim r as (λ _. Result ℕ Failure × World D) [
            | err e ↦ (err (raised e), w)
            | ok (n, d) ↦ (ok n, record w { db = d })
          ])
      choose (err e) = broke e w before
      choose (ok (n, d)) = went n _ (silent u w _ before refl)

  pub unchanged : (w : World D) → Extends w w
  unchanged w = record { sent = []; events = append_nil w.events; ongoing = tt }
    where
      append_nil : {A : Type 0} (xs : List A) → xs ≡ xs ++ []
      append_nil [] = refl
      append_nil (x ∷ xs) = ap (λ ys. x ∷ ys) (append_nil xs)
