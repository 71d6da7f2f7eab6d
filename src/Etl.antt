-- ===== src/Etl.antt =====
-- crates/orbit-etl/src/engine.rs: a pipeline run. Polars and SQLite are parameters: what the query
-- gives, and what each statement answers and does to the database. Of the engine's maps, the entry
-- of the one job is kept; `flag` says what each poll of its cancel flag reads, and `takes` for which
-- events the channel has room sooner or later, or no receiver any more.
pub mod Spec
pub mod Identifiers
pub mod Sending
pub mod Events
pub mod Inserts
pub mod Loop
pub mod Rows
mod Tests
use open_eo_ru_stac.Prelude.{
  ◌>>=◌ as ◌>>=ʳ◌, ◌>>◌ as ◌>>ʳ◌, ℕ, zero, suc, ◌+◌, ◌/◌, Bool, true, false, String, Option, none,
  some, List, [], ◌∷◌, ◌++◌, length, take, drop, max, Result, ok, err, if◌then◌else◌,
}
use Spec.{
  Error, invalid_spec, source_not_found, outside, cancelled, error_text, PipelineSpec,
  identifiers_checked,
}

pub data JobState : Type 0 where
  pending running completed failed was_cancelled : JobState

pub record JobStatus : Type 0 where
  pub state : JobState
  pub rows_read : ℕ
  pub rows_written : ℕ
  pub finished_at : Option ℕ
  pub error : Option String

pub data Event : Type 0 where
  started : Event
  progress completed_event cancelled_event : ℕ → ℕ → Event
  failed_event : String → Event

pub record Frame (R : Type 0) : Type 0 where
  pub columns : List String
  pub rows : List R

-- The statements. Those of a transaction take and give the database as the transaction sees it.
pub record Database (R D : Type 0) : Type 0 where
  pub save_status : JobStatus → D → Result D String
  pub create_table : D → Result D String
  pub begin : D → Result D String
  pub insert_rows : List R → D → Result (ℕ × D) String
  pub commit : D → Result D String

abbrev pub from_outside : {A : Type 0} → Result A String → Result A Error
from_outside (ok a) = ok a
from_outside (err m) = err (outside m)

abbrev pub sqlite_bind_limit : ℕ
sqlite_bind_limit = 900

abbrev pub rows_per_batch : ℕ → ℕ
rows_per_batch n_cols = max (sqlite_bind_limit / max n_cols 1) 1

pub record World (D : Type 0) : Type 0 where
  pub status : JobStatus
  pub events : List Event
  pub polls : ℕ
  pub db : D

module _ {R D : Type 0} (debug : String → String) (sql : Database R D) (spec : PipelineSpec) where
  -- The loop of `insert_chunk`; each statement takes the next rows that are left.
  unfoldable pub insert_batches : ℕ → ℕ → List R → D → Result (ℕ × D) Error
  insert_batches zero per rows d = ok (0, d)
  insert_batches (suc fuel) per [] d = ok (0, d)
  insert_batches (suc fuel) per (r ∷ rows) d =
      from_outside (sql.insert_rows (take per (r ∷ rows)) d) >>=ʳ λ (n, e).
      insert_batches fuel per (drop per (r ∷ rows)) e >>=ʳ λ (total, f). ok (n + total, f)

  unfoldable pub insert_chunk : List String → List R → D → Result (ℕ × D) Error
  unfolding insert_batches identifiers_checked
  insert_chunk columns [] d = ok (0, d)
  insert_chunk columns (r ∷ rows) d =
      identifiers_checked debug spec columns
      >>ʳ (from_outside (sql.begin d) >>=ʳ λ tx.
          insert_batches (length (r ∷ rows)) (rows_per_batch (length columns)) (r ∷ rows) tx
          >>=ʳ λ (total, e). from_outside (sql.commit e) >>=ʳ λ f. ok (total, f))

-- How a step of the task fails: with an error, by a panic, or waiting for room in the channel for
-- ever. The loop over the chunks may also run out of fuel.
pub data Failure : Type 0 where
  raised : Error → Failure
  panicked blocked exhausted : Failure

abbrev pub raise : {A : Type 0} → Result A Error → Result A Failure
raise (ok a) = ok a
raise (err e) = err (raised e)

-- What a step of the task answers, and the world behind it.
abbrev pub Task : Type 0 → Type 0 → Type 0
Task D A = World D → Result A Failure × World D

abbrev pub pure : {D A : Type 0} → A → Task D A
pure a w = (ok a, w)

abbrev pub throw : {D A : Type 0} → Failure → Task D A
throw e w = (err e, w)

module _ {D A B : Type 0} where
  unfoldable pub behind : (A → Task D B) → Result A Failure × World D → Result B Failure × World D
  behind f (ok a, w) = f a w
  behind f (err e, w) = (err e, w)

  infixl 5 ◌>>=◌
  abbrev pub ◌>>=◌ : Task D A → (A → Task D B) → Task D B
  ◌>>=◌ m f w = behind f (m w)

  infixl 5 ◌>>◌
  abbrev pub ◌>>◌ : Task D A → Task D B → Task D B
  m >> k = m >>= λ _. k

module _ {R D : Type 0} (debug : String → String) (sql : Database R D) (spec : PipelineSpec)
    (now : ℕ) (flag takes : ℕ → Bool) (source query : Result (Frame R) String) where
  abbrev pub changed : World D → Result D String → Result (Unit {0}) Failure × World D
  changed w (ok d) = (ok tt, record w { db = d })
  changed w (err m) = (err (raised (outside m)), w)

  -- The entry of the map is set before the statement runs.
  unfoldable pub save : (JobStatus → JobStatus) → Task D (Unit {0})
  save f w = changed (record w { status = f w.status }) (sql.save_status (f w.status) w.db)

  unfoldable pub mark_running : Task D (Unit {0})
  unfolding save
  mark_running = save (λ s. record s { state = running })

  unfoldable pub bump_progress : ℕ → ℕ → Task D (Unit {0})
  unfolding save
  bump_progress rows_read rows_written =
      save (λ s. record s { rows_read = rows_read; rows_written = rows_written })

  unfoldable pub mark_completed : ℕ → ℕ → Task D (Unit {0})
  unfolding save
  mark_completed rows_read rows_written = save (λ s. record s {
    state = completed;
    rows_read = rows_read;
    rows_written = rows_written;
    finished_at = some now;
  })

  unfoldable pub mark_failed : String → Task D (Unit {0})
  unfolding save
  mark_failed m = save (λ s. record s { state = failed; finished_at = some now; error = some m })

  unfoldable pub mark_cancelled : Task D (Unit {0})
  unfolding save
  mark_cancelled =
      save
        (λ s. record s { state = was_cancelled; finished_at = some now; error = some "cancelled" })

  -- `tx.send(..).await`, whose answer is dropped: the channel holds 32 events, and a full one is waited
  -- for until the receiver takes an event or is gone.
  abbrev pub passed : Event → World D → Bool → Result (Unit {0}) Failure × World D
  passed e w true = (ok tt, record w { events = w.events ++ e ∷ [] })
  passed e w false = (err blocked, w)

  unfoldable pub send : Event → Task D (Unit {0})
  send e w = passed e w (takes (length w.events))

  unfoldable pub poll : Task D (Unit {0})
  poll w =
      (if flag w.polls then err (raised cancelled) else ok tt, record w { polls = suc w.polls })

  unfoldable pub given : {A : Type 0} → Result A String → Task D A
  given r w = (raise (from_outside r), w)

  unfoldable pub ensure_table : List String → Task D (Unit {0})
  unfolding identifiers_checked
  ensure_table columns w = elim (identifiers_checked debug spec columns) [
    | err e ↦ (err (raised e), w)
    | ok _ ↦ changed w (sql.create_table w.db)
  ]

  -- The statements of a chunk that fails are rolled back.
  unfoldable pub write_chunk : List String → List R → Task D ℕ
  unfolding insert_chunk
  write_chunk columns rows w = elim (insert_chunk debug sql spec columns rows w.db) [
    | err e ↦ (err (raised e), w)
    | ok (n, d) ↦ (ok n, record w { db = d })
  ]

  -- The loop over the chunks, of which the next has the rows that are left up to the batch size.
  unfoldable pub insert_loop : ℕ → ℕ → List String → ℕ → List R → ℕ → Task D ℕ
  unfolding poll write_chunk bump_progress send
  insert_loop zero batch columns rows_read [] written = pure written
  insert_loop zero batch columns rows_read (r ∷ rows) written = throw exhausted
  insert_loop (suc fuel) batch columns rows_read [] written = pure written
  insert_loop (suc fuel) batch columns rows_read (r ∷ rows) written = do
    poll
    n ← write_chunk columns (take batch (r ∷ rows))
    bump_progress rows_read (written + n)
    send (progress rows_read (written + n))
    insert_loop fuel batch columns rows_read (drop batch (r ∷ rows)) (written + n)

  -- `step_by(0)` panics.
  abbrev pub load : ℕ → List String → List R → Task D ℕ
  load zero columns rows = throw panicked
  load (suc b) columns rows = insert_loop (length rows) (suc b) columns (length rows) rows 0

  -- `query` is the frame behind the optional SQL transform.
  unfoldable pub execute : Task D (Unit {0})
  unfolding mark_running send given ensure_table poll insert_loop mark_completed
  execute = do
    mark_running
    send started
    given source
    frame ← given query
    let rows_read = length frame.rows
    ensure_table frame.columns
    poll
    written ← load (max spec.batch_size 1) frame.columns frame.rows
    mark_completed rows_read written
    send (completed_event rows_read written)

  -- What the spawned task does with the outcome; the answers of the marks are dropped.
  unfoldable pub fail : String → World D → World D
  unfolding mark_failed send
  fail m w = (send (failed_event m) (mark_failed m w).1).1

  unfoldable pub stop : World D → World D
  unfolding mark_cancelled send
  stop w = (send (cancelled_event w.status.rows_read w.status.rows_written) (mark_cancelled w).1).1

  -- Behind a panic the task does nothing more.
  abbrev pub concluded : Result (Unit {0}) Failure × World D → World D
  concluded (ok _, w) = w
  concluded (err (raised cancelled), w) = stop w
  concluded (err (raised (invalid_spec m)), w) = fail (error_text (invalid_spec m)) w
  concluded (err (raised (source_not_found p)), w) = fail (error_text (source_not_found p)) w
  concluded (err (raised (outside m)), w) = fail (error_text (outside m)) w
  concluded (err panicked, w) = w
  concluded (err blocked, w) = w
  concluded (err exhausted, w) = w

  unfoldable pub run_task : World D → World D
  unfolding execute fail stop error_text
  run_task w = concluded (execute w)
