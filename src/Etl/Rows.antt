-- ===== src/Etl/Rows.antt =====
-- Which rows a run writes.
use open_eo_ru_stac.Prelude.{
  arith, ℕ, ◌≡◌, refl, ◌∙◌, ap, sym, ◌⊎◌, inl, inr, Bool, true, false, String, some, List, [], ◌++◌,
  length, max, Result, ok, err, subst,
}
use open_eo_ru_stac.Etl.Spec.{
  Error, invalid_spec, source_not_found, cancelled, outside, PipelineSpec, identifiers_checked,
}
use open_eo_ru_stac.Etl.Sending.{save-status, changed-status}
use open_eo_ru_stac.Etl.{
  JobStatus, Event, Frame, Database, World, Failure, raised, panicked, blocked, exhausted, raise,
  started, failed_event, passed, Task, behind, from_outside, changed, save, mark_running, ◌>>◌,
  running, completed, completed_event, failed, was_cancelled, mark_failed, mark_cancelled, fail,
  stop, concluded, run_task, mark_completed, send, poll, given, ensure_table, execute,
}
use open_eo_ru_stac.Etl.Inserts.{Appends, Grows, append_nil}
use open_eo_ru_stac.Etl.Loop.{
  Loaded, all_rows, first_rows, changed-table, save-table, load-Loaded, send-table, send-status,
}

module _ {R D : Type 0} (debug : String → String) (sql : Database R D) (table : D → List R)
    (laws : Appends sql table) (spec : PipelineSpec) (now : ℕ) (flag takes : ℕ → Bool)
    (source query : Result (Frame R) String) where
  -- What a run did to the table, of the rows of its frame.
  abbrev Counts : ℕ → JobStatus → Type 0
  Counts n s = (s.rows_read ≡ n) × (s.rows_written ≡ n)

  -- The run is still marked as running, or all rows are written and counted.
  abbrev Excused : World D → List R → List R → Type 0
  Excused v rest rows = (v.status.state ≡ running) ⊎ ((rest ≡ []) × Counts (length rows) v.status)

  -- The rows are as before, and the run is marked as running.
  abbrev Begun : World D → World D → Type 0
  Begun v w = (table v.db ≡ table w.db) × (v.status.state ≡ running)

  data Done (w : World D) (rows : List R) : Result (Unit {0}) Failure × World D → Type 0 where
    whole :
        (v : World D)
        → Grows table w.db rows v.db
        → Counts (length rows) v.status
        → Done w rows (ok tt, v)
    part :
        (e : Failure) (v : World D) (done rest : List R)
        → done ++ rest ≡ rows
        → Grows table w.db done v.db
        → Excused v rest rows
        → Done w rows (err e, v)

  behind-Done :
      {A : Type 0} (w : World D) (rows : List R) (f : A → Task D (Unit {0}))
      (out : Result A Failure × World D)
      → Begun out.1 w
      → ((a : A) (v : World D) → Begun v w → Done w rows (f a v))
      → Done w rows (behind f out)
  unfolding behind
  behind-Done w rows f (ok a, v) same next = next a v same
  behind-Done w rows f (err e, v) same next =
      part e v [] rows refl (same.0 ∙ append_nil (table w.db)) (inl same.1)

  finished-Done :
      (w v : World D) (rows : List R) (e : Event) (out : Result (Unit {0}) Failure × World D)
      → Grows table w.db rows v.db
      → table out.1.db ≡ table v.db
      → Counts (length rows) out.1.status
      → Done w rows (behind (λ _. send debug sql spec now flag takes source query e) out)
  unfolding behind send
  finished-Done w v rows e (ok _, x) grown same counts = choose (takes (length x.events))
    where
      choose : (b : Bool) → Done w rows (passed debug sql spec now flag takes source query e x b)
      choose true = whole _ (same ∙ grown) counts
      choose false =
          part blocked x rows [] (sym (append_nil rows)) (same ∙ grown) (inr (refl, counts))
  finished-Done w v rows e (err f, x) grown same counts =
      part f x rows [] (sym (append_nil rows)) (same ∙ grown) (inr (refl, counts))

  completed_status : ℕ → ℕ → JobStatus → JobStatus
  completed_status r n s = record s {
    state = completed;
    rows_read = r;
    rows_written = n;
    finished_at = some now;
  }

  loaded-Done :
      (w v : World D) (rows : List R) (out : Result ℕ Failure × World D)
      → Begun v w
      → Loaded debug sql table laws spec v rows 0 out
      → Done w rows (
          behind
            (λ written.
              mark_completed debug sql spec now flag takes source query (length rows) written
              >> send debug sql spec now flag takes source query
                  (completed_event (length rows) written))
            out)
  unfolding behind mark_completed completed_status
  loaded-Done w v rows out same (all_rows x n grown count) =
      let f = completed_status (length rows) n in
      let e = save-status debug sql spec now flag takes source query f x in
      finished-Done w x rows (completed_event (length rows) n) _
        (grown ∙ ap (λ l. l ++ rows) same.0)
        (save-table debug sql table laws spec now flag takes source query f x)
        (ap (λ s. s.rows_read) e, ap (λ s. s.rows_written) e ∙ omega (arith, count))
  loaded-Done w v rows out same (first_rows e x done rest split grown state) =
      part e x done rest split (grown ∙ ap (λ l. l ++ done) same.0) (inl (state ∙ same.1))

  ensure_table-table :
      (columns : List String) (w : World D)
      → table (ensure_table debug sql spec now flag takes source query columns w).1.db ≡ table w.db
  unfolding ensure_table
  ensure_table-table columns w = choose (identifiers_checked debug spec columns)
    where
      choose :
          (r : Result (Unit {0}) Error)
          → table
              (elim r as (λ _. Result (Unit {0}) Failure × World D) [
                | err e ↦ (err (raised e), w)
                | ok _ ↦
                    changed debug sql spec now flag takes source query w (sql.create_table w.db)
              ]).1.db
            ≡ table w.db
      choose (err e) = refl
      choose (ok _) =
          changed-table debug sql table laws spec now flag takes source query w
            (sql.create_table w.db) (λ d h. laws.creates w.db d h)

  ensure_table-status :
      (columns : List String) (w : World D)
      → (ensure_table debug sql spec now flag takes source query columns w).1.status ≡ w.status
  unfolding ensure_table
  ensure_table-status columns w = choose (identifiers_checked debug spec columns)
    where
      choose :
          (r : Result (Unit {0}) Error)
          → (elim r as (λ _. Result (Unit {0}) Failure × World D) [
            | err e ↦ (err (raised e), w)
            | ok _ ↦ changed debug sql spec now flag takes source query w (sql.create_table w.db)
          ]).1.status
            ≡ w.status
      choose (err e) = refl
      choose (ok _) =
          changed-status debug sql spec now flag takes source query w (sql.create_table w.db)

  given-Done :
      (w v : World D) (rows : List R) (frame : Frame R) (f : Frame R → Task D (Unit {0}))
      → query ≡ ok frame
      → Done w rows (f frame v)
      → Done w rows (behind f (given debug sql spec now flag takes source query query v))
  unfolding behind given
  given-Done w v rows frame f reads next =
      subst (λ (r : Result (Frame R) String). Done w rows (behind f (raise (from_outside r), v)))
        (sym reads) next

  execute-Done :
      (w : World D) (frame : Frame R)
      → query ≡ ok frame
      → Done w frame.rows (execute debug sql spec now flag takes source query w)
  unfolding execute mark_running given poll
  execute-Done w frame reads =
      let f : JobStatus → JobStatus = λ s. record s { state = running } in
      behind-Done w frame.rows _ _
        (
          save-table debug sql table laws spec now flag takes source query f w,
          ap (λ s. s.state) (save-status debug sql spec now flag takes source query f w),
        )
        (λ _ v1 s1.
          behind-Done w frame.rows _ _
            (
              send-table debug sql table laws spec now flag takes source query started v1 ∙ s1.0,
              ap (λ s. s.state)
                    (send-status debug sql table laws spec now flag takes source query started v1)
                  ∙ s1.1,
            )
            (λ _ v2 s2. behind-Done w frame.rows _ _ s2 (λ _ v3 s3.
              given-Done w v3 frame.rows frame _ reads (
                behind-Done w frame.rows _ _
                  (
                    ensure_table-table frame.columns v3 ∙ s3.0,
                    ap (λ s. s.state) (ensure_table-status frame.columns v3) ∙ s3.1,
                  )
                  (λ _ v5 s5. behind-Done w frame.rows _ _ s5 (λ _ v6 s6.
                    loaded-Done w v6 frame.rows _ s6 (
                      load-Loaded debug sql table laws spec now flag takes source query
                        (max spec.batch_size 1) frame.columns frame.rows v6 (omega arith))))))))

  -- The rows that a run wrote: the first ones, and all of them where it completed.
  pub record Wrote (w v : World D) (rows : List R) : Type 0 where
    pub done : List R
    pub rest : List R
    pub split : done ++ rest ≡ rows
    pub grown : Grows table w.db done v.db
    pub complete :
        v.status.state ≡ completed
        → (rest ≡ []) × (v.status.rows_read ≡ length rows) × (v.status.rows_written ≡ length rows)

  stopped :
      (w v x : World D) (rows done rest : List R) (f : JobStatus → JobStatus)
      → done ++ rest ≡ rows
      → Grows table w.db done v.db
      → table x.db ≡ table (save debug sql spec now flag takes source query f v).1.db
      → x.status ≡ (save debug sql spec now flag takes source query f v).1.status
      → ((f v.status).state ≡ completed → ⊥)
      → Wrote w x rows
  stopped w v x rows done rest f split grown same status other = record {
    done = done;
    rest = rest;
    split = split;
    grown = same ∙ save-table debug sql table laws spec now flag takes source query f v ∙ grown;
    complete = λ h. absurd (
        other (
          sym (
            ap (λ s. s.state) (status ∙ save-status debug sql spec now flag takes source query f v))
          ∙ h));
  }

  failed-Wrote :
      (w v : World D) (rows done rest : List R) (m : String)
      → done ++ rest ≡ rows
      → Grows table w.db done v.db
      → Wrote w (fail debug sql spec now flag takes source query m v) rows
  unfolding fail mark_failed
  failed-Wrote w v rows done rest m split grown =
      stopped w v _ rows done rest
        (λ s. record s { state = failed; finished_at = some now; error = some m }) split grown
        (send-table debug sql table laws spec now flag takes source query (failed_event m) _)
        (send-status debug sql table laws spec now flag takes source query (failed_event m) _)
        (λ h. cc)

  cancelled-Wrote :
      (w v : World D) (rows done rest : List R)
      → done ++ rest ≡ rows
      → Grows table w.db done v.db
      → Wrote w (stop debug sql spec now flag takes source query v) rows
  unfolding stop mark_cancelled
  cancelled-Wrote w v rows done rest split grown =
      stopped w v _ rows done rest
        (λ s. record s { state = was_cancelled; finished_at = some now; error = some "cancelled" })
        split grown (send-table debug sql table laws spec now flag takes source query _ _)
        (send-status debug sql table laws spec now flag takes source query _ _) (λ h. cc)

  stuck-Wrote :
      (w v : World D) (rows done rest : List R)
      → done ++ rest ≡ rows
      → Grows table w.db done v.db
      → Excused v rest rows
      → Wrote w v rows
  stuck-Wrote w v rows done rest split grown excused = record {
    done = done;
    rest = rest;
    split = split;
    grown = grown;
    complete = λ h. elim excused [
      | inl is_running ↦ absurd (apart (sym is_running ∙ h))
      | inr (none_left, counts) ↦ (none_left, counts.0, counts.1)
    ];
  }
    where
      apart : running ≡ completed → ⊥
      apart e = cc

  concluded-Wrote :
      (w : World D) (rows : List R) (out : Result (Unit {0}) Failure × World D)
      → Done w rows out
      → Wrote w (concluded debug sql spec now flag takes source query out) rows
  concluded-Wrote w rows out (whole v grown counts) = record {
    done = rows;
    rest = [];
    split = sym (append_nil rows);
    grown = grown;
    complete = λ h. (refl, counts.0, counts.1);
  }
  concluded-Wrote w rows out (part (raised cancelled) v done rest split grown excused) =
      cancelled-Wrote w v rows done rest split grown
  concluded-Wrote w rows out (part (raised (invalid_spec m)) v done rest split grown excused) =
      failed-Wrote w v rows done rest _ split grown
  concluded-Wrote w rows out (part (raised (source_not_found p)) v done rest split grown excused) =
      failed-Wrote w v rows done rest _ split grown
  concluded-Wrote w rows out (part (raised (outside m)) v done rest split grown excused) =
      failed-Wrote w v rows done rest _ split grown
  concluded-Wrote w rows out (part panicked v done rest split grown excused) =
      stuck-Wrote w v rows done rest split grown excused
  concluded-Wrote w rows out (part blocked v done rest split grown excused) =
      stuck-Wrote w v rows done rest split grown excused
  concluded-Wrote w rows out (part exhausted v done rest split grown excused) =
      stuck-Wrote w v rows done rest split grown excused

  -- Where an INSERT that succeeds puts its rows behind the others and counts them, and no other
  -- statement changes the rows: a run whose query gives a frame writes the frame's first rows, in
  -- their order and each once, whatever fails and whenever it is cancelled; where it is completed
  -- it wrote all of them, and its status counts as many rows read and written.
  pub run_task-Wrote :
      (w : World D) (frame : Frame R)
      → query ≡ ok frame
      → Wrote w (run_task debug sql spec now flag takes source query w) frame.rows
  unfolding run_task
  run_task-Wrote w frame reads = concluded-Wrote w frame.rows _ (execute-Done w frame reads)
