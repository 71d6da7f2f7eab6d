-- ===== src/Etl/Events.antt =====
-- The events that a run sends, and the status that it leaves.
use open_eo_ru_stac.Prelude.{
  ℕ, zero, suc, ◌+◌, ◌≤◌, arith, sym, subst, true, length-drop, ◌≡◌, refl, ap, Bool, String, some,
  List, [], ◌∷◌, ◌++◌, length, take, drop, max, Result, ok, err,
}
use open_eo_ru_stac.Etl.Spec.{invalid_spec, source_not_found, outside, cancelled, PipelineSpec}
use open_eo_ru_stac.Etl.{
  running, failed, was_cancelled, JobStatus, Event, started, progress, completed_event,
  cancelled_event, failed_event, Frame, Database, World, Failure, passed, load, behind, changed,
  save, mark_running, bump_progress, mark_completed, mark_failed, mark_cancelled, send, insert_loop,
  execute, fail, stop, concluded, run_task,
}
use open_eo_ru_stac.Etl.Sending.{
  IsOngoing, Tells, Extends, Ended, ended, Outcome, fine, broken, Goes, went, behind-Outcome,
  behind-Goes, silent, one_more, save-events, save-status, save-Goes, poll-Goes, given-Goes,
  ensure_table-Goes, write_chunk-Goes, unchanged,
}

module _ {R D : Type 0} (debug : String → String) (sql : Database R D) (spec : PipelineSpec)
    (now : ℕ) (flag takes : ℕ → Bool) (source query : Result (Frame R) String) where
  module _ (open_ : (n : ℕ) → takes n ≡ true) where
    send-passes :
        (e : Event) (w : World D)
        → send debug sql spec now flag takes source query e w
          ≡ (ok tt, record w { events = w.events ++ e ∷ [] })
    unfolding send
    send-passes e w =
        ap (passed debug sql spec now flag takes source query e w) (open_ (length w.events))

    send-Goes :
        (u w : World D) (e : Event)
        → IsOngoing e
        → Extends u w
        → Goes u (send debug sql spec now flag takes source query e w)
    send-Goes u w e ongoing before =
        subst (λ out. Goes u out) (sym (send-passes e w))
          (went tt _ (one_more u w _ e before refl ongoing))

    insert_loop-Goes :
        (fuel batch : ℕ) (columns : List String) (rows_read : ℕ) (rows : List R) (written : ℕ)
        (u w : World D)
        → 1 ≤ batch
        → length rows ≤ fuel
        → Extends u w
        → Goes u (
            insert_loop debug sql spec now flag takes source query fuel batch columns rows_read rows
              written w)
    unfolding insert_loop bump_progress
    insert_loop-Goes zero batch columns rows_read [] written u w one enough before =
        went written w before
    insert_loop-Goes zero batch columns rows_read (r ∷ rows) written u w one enough before =
        absurd (omega arith)
    insert_loop-Goes (suc fuel) batch columns rows_read [] written u w one enough before =
        went written w before
    insert_loop-Goes (suc fuel) batch columns rows_read (r ∷ rows) written u w one enough before =
        behind-Goes u _ _ (poll-Goes debug sql spec now flag takes source query u w before)
          (λ _ v1 e1.
            behind-Goes u _ _
              (write_chunk-Goes debug sql spec now flag takes source query columns
                (take batch (r ∷ rows)) u v1 e1)
              (λ n v2 e2.
                behind-Goes u _ _
                  (save-Goes debug sql spec now flag takes source query u v2
                    (λ s. record s { rows_read = rows_read; rows_written = written + n }) e2)
                  (λ _ v3 e3.
                    behind-Goes u _ _ (send-Goes u v3 (progress rows_read (written + n)) tt e3)
                      (λ _ v4 e4.
                        insert_loop-Goes fuel batch columns rows_read (drop batch (r ∷ rows))
                          (written + n) u v4 one
                          (omega (arith, enough, one, length-drop batch (r ∷ rows))) e4))))

    load-Goes :
        (batch : ℕ) (columns : List String) (rows : List R) (u w : World D)
        → 1 ≤ batch
        → Extends u w
        → Goes u (load debug sql spec now flag takes source query batch columns rows w)
    load-Goes zero columns rows u w one before = absurd (omega arith)
    load-Goes (suc b) columns rows u w one before =
        insert_loop-Goes (length rows) (suc b) columns (length rows) rows 0 u w one (omega arith)
          before

    completed-Outcome :
        (w v : World D) (r n : ℕ)
        → Extends w v
        → (d : Result D String) → Tells (completed_event r n) v.status
        → Outcome w (
            behind
              (λ _. send debug sql spec now flag takes source query (completed_event r n))
              (changed debug sql spec now flag takes source query v d))
    unfolding behind
    completed-Outcome w v r n before (ok d) tells =
        subst (λ out. Outcome w out) (sym (send-passes (completed_event r n) (record v { db = d })))
          (fine _ (ended w v _ (completed_event r n) before refl tells))
    completed-Outcome w v r n before (err m) tells = broken (outside m) v before

    marked-Outcome :
        (w v : World D) (r n : ℕ)
        → Extends w v
        → Outcome w (
            behind
              (λ _. send debug sql spec now flag takes source query (completed_event r n))
              (mark_completed debug sql spec now flag takes source query r n v))
    unfolding mark_completed save
    marked-Outcome w v r n before =
        completed-Outcome w _ r n (silent w v _ before refl) _ (refl, refl, refl)

    execute-Outcome :
        (w : World D) → Outcome w (execute debug sql spec now flag takes source query w)
    unfolding execute mark_running
    execute-Outcome w =
        behind-Outcome w _ _
          (save-Goes debug sql spec now flag takes source query w w
            (λ s. record s { state = running })
            (unchanged debug sql spec now flag takes source query w))
          (λ _ v1 e1. behind-Outcome w _ _ (send-Goes w v1 started tt e1) (λ _ v2 e2.
            behind-Outcome w _ _
              (given-Goes debug sql spec now flag takes source query w v2 source e2)
              (λ _ v3 e3.
                behind-Outcome w _ _
                  (given-Goes debug sql spec now flag takes source query w v3 query e3)
                  (λ frame v4 e4.
                    behind-Outcome w _ _
                      (ensure_table-Goes debug sql spec now flag takes source query frame.columns w
                        v4 e4)
                      (λ _ v5 e5.
                        behind-Outcome w _ _
                          (poll-Goes debug sql spec now flag takes source query w v5 e5)
                          (λ _ v6 e6.
                            behind-Outcome w _ _
                              (load-Goes (max spec.batch_size 1) frame.columns frame.rows w v6
                                (omega arith) e6)
                              (λ written v7 e7.
                                marked-Outcome w v7 (length frame.rows) written e7)))))))

    -- The last event of a run that failed or was cancelled.
    last_sent :
        (w v x : World D) (last : Event)
        → Extends w v
        → x.events ≡ v.events
        → Tells last x.status
        → Ended w (send debug sql spec now flag takes source query last x).1
    last_sent w v x last before same tells =
        subst (λ (out : Result (Unit {0}) Failure × World D). Ended w out.1)
          (sym (send-passes last x))
          (ended w v _ last before (ap (λ es. es ++ last ∷ []) same) tells)

    fail-Ended :
        (w v : World D) (m : String)
        → Extends w v
        → Ended w (fail debug sql spec now flag takes source query m v)
    unfolding fail mark_failed
    fail-Ended w v m before =
        let f : JobStatus → JobStatus =
          λ s. record s { state = failed; finished_at = some now; error = some m } in
        let e = save-status debug sql spec now flag takes source query f v in
        last_sent w v _ (failed_event m) before
          (save-events debug sql spec now flag takes source query f v)
          (ap (λ s. s.state) e, ap (λ s. s.error) e)

    stop-Ended :
        (w v : World D) → Extends w v → Ended w (stop debug sql spec now flag takes source query v)
    unfolding stop mark_cancelled
    stop-Ended w v before =
        let f : JobStatus → JobStatus = λ s. record s {
          state = was_cancelled;
          finished_at = some now;
          error = some "cancelled";
        } in
        let e = save-status debug sql spec now flag takes source query f v in
        last_sent w v _ (cancelled_event v.status.rows_read v.status.rows_written) before
          (save-events debug sql spec now flag takes source query f v)
          (
            ap (λ s. s.state) e,
            ap (λ s. s.rows_read) e,
            ap (λ s. s.rows_written) e,
            ap (λ s. s.error) e,
          )

    conclude :
        (w : World D) (out : Result (Unit {0}) Failure × World D)
        → Outcome w out
        → Ended w (concluded debug sql spec now flag takes source query out)
    conclude w out (fine v e) = e
    conclude w out (broken cancelled v before) = stop-Ended w v before
    conclude w out (broken (invalid_spec m) v before) = fail-Ended w v _ before
    conclude w out (broken (source_not_found p) v before) = fail-Ended w v _ before
    conclude w out (broken (outside m) v before) = fail-Ended w v _ before

    -- Where the channel has room for each event sooner or later, or the receiver is gone: whatever
    -- Polars and SQLite answer and whenever the job is cancelled, the task of a run neither panics nor
    -- waits for ever, and its loop does not run out of chunks to take. It sends start and progress
    -- events, then one event of the run's end and nothing behind it, and the status in memory is the
    -- one that this event tells of, with its row counts or its error.
    pub run_task-Ended :
        (w : World D) → Ended w (run_task debug sql spec now flag takes source query w)
    unfolding run_task
    run_task-Ended w = conclude w _ (execute-Outcome w)
