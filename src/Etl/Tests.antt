-- ===== src/Etl/Tests.antt =====
-- A table of numbers, and a run that is cancelled behind its first batch.
use open_eo_ru_stac.Prelude.{
  ℕ, ◌≡◌, refl, ap, sym, String, none, List, [], ◌∷◌, ◌++◌, length, Result, ok, Bool, true, ◌==◌,
}
use open_eo_ru_stac.Etl.Spec.{PipelineSpec}
use open_eo_ru_stac.Etl.{
  pending, started, progress, cancelled_event, Frame, Database, World, run_task, behind,
}
use open_eo_ru_stac.Etl.Sending.{Ended}
use open_eo_ru_stac.Etl.Events.{run_task-Ended}
use open_eo_ru_stac.Etl.Inserts.{Appends}
use open_eo_ru_stac.Etl.Rows.{Wrote, run_task-Wrote}

abbrev sql : Database ℕ (List ℕ)
sql = record {
  save_status = λ s d. ok d;
  create_table = λ d. ok d;
  begin = λ d. ok d;
  insert_rows = λ rows d. ok (length rows, d ++ rows);
  commit = λ d. ok d;
}

same : (d e : List ℕ) → ◌≡◌ {A = Result (List ℕ) String} (ok d) (ok e) → e ≡ d
same d e h = let it : d ≡ e = cc in sym it

appends : Appends sql (λ d. d)
appends = record {
  inserts = λ rows d e n h.
      let it : ◌≡◌ {A = ℕ × List ℕ} (length rows, d ++ rows) (n, e) = cc in
      (sym (ap (λ p. p.1) it), sym (ap (λ p. p.0) it));
  begins = same;
  commits = same;
  creates = same;
  saves = λ s. same;
}

abbrev spec : PipelineSpec
spec = record { path = "a.csv"; destination_table = "t"; dedupe_column = none; batch_size = 2 }

abbrev frame : Frame ℕ
frame = record { columns = "n" ∷ []; rows = 5 ∷ 6 ∷ 7 ∷ [] }

abbrev world : World (List ℕ)
world = record {
  status = record {
    state = pending;
    rows_read = 0;
    rows_written = 0;
    finished_at = none;
    error = none;
  };
  events = [];
  polls = 0;
  db = [];
}

abbrev debug : String → String
debug s = s

-- The third poll reads the flag set.
abbrev flag : ℕ → Bool
flag n = n == 2

abbrev after : World (List ℕ)
after = run_task debug sql spec 9 flag (λ n. true) (ok frame) (ok frame) world

run_task-Ended_example : Ended world after
run_task-Ended_example =
    run_task-Ended debug sql spec 9 flag (λ n. true) (ok frame) (ok frame) (λ n. refl) world

run_task-Wrote_example :
    Wrote debug sql
      (λ d. d)
      appends
      spec
      9
      flag
      (λ n. true)
      (ok frame)
      (ok frame)
      world
      after
      (frame.rows)
run_task-Wrote_example =
    run_task-Wrote debug sql (λ d. d) appends spec 9 flag (λ n. true) (ok frame) (ok frame) world
      frame refl

cancelled_run : after.events ≡ started ∷ progress 3 2 ∷ cancelled_event 3 2 ∷ []
unfolding run_task behind
cancelled_run = refl
