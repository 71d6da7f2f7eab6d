-- ===== src/Etl/Loop.antt =====
-- What the loop over the chunks inserts.
use mathlib.Core.List.{append_assoc}
use open_eo_ru_stac.Prelude.{
  arith, ℕ, zero, suc, ◌+◌, ◌≤◌, ◌≡◌, refl, ◌∙◌, ap, Bool, true, false, String, List, [], ◌∷◌, ◌++◌,
  length, take, drop, take-append-drop, length-drop, length-append, Result, ok, err,
}
use open_eo_ru_stac.Etl.Spec.{Error, PipelineSpec}
use open_eo_ru_stac.Etl.{
  JobStatus, Event, progress, Frame, Database, World, Failure, raised, Task, passed, behind,
  insert_chunk, changed, save, bump_progress, send, poll, write_chunk, insert_loop, load,
}
use open_eo_ru_stac.Etl.Sending.{save-status}
use open_eo_ru_stac.Etl.Inserts.{Appends, Grows, Grows-then, append_nil, insert_chunk-Grows}

module _ {R D : Type 0} (debug : String → String) (sql : Database R D) (table : D → List R)
    (laws : Appends sql table) (spec : PipelineSpec) where
  -- What the loop did from `w` on: all of `rows`, or, at an error, the first of them.
  pub data Loaded (w : World D) (rows : List R) (before : ℕ)
      : Result ℕ Failure × World D → Type 0 where
    all_rows :
        (v : World D) (n : ℕ)
        → Grows table w.db rows v.db
        → n ≡ before + length rows
        → Loaded w rows before (ok n, v)
    first_rows :
        (e : Failure) (v : World D) (done rest : List R)
        → done ++ rest ≡ rows
        → Grows table w.db done v.db
        → v.status.state ≡ w.status.state
        → Loaded w rows before (err e, v)

  -- The rows and the state are as before.
  abbrev Kept : World D → World D → Type 0
  Kept v w = (table v.db ≡ table w.db) × (v.status.state ≡ w.status.state)

  behind-Loaded :
      {A : Type 0} (w : World D) (rows : List R) (before : ℕ) (f : A → Task D ℕ)
      (out : Result A Failure × World D)
      → Kept out.1 w
      → ((a : A) (v : World D) → Kept v w → Loaded w rows before (f a v))
      → Loaded w rows before (behind f out)
  unfolding behind
  behind-Loaded w rows before f (ok a, v) same next = next a v same
  behind-Loaded w rows before f (err e, v) same next =
      first_rows e v [] rows refl (same.0 ∙ append_nil (table w.db)) same.1

  -- The loop goes on behind a chunk that was written.
  shifted :
      (w v : World D) (first rest rows : List R) (before now : ℕ) (out : Result ℕ Failure × World D)
      → first ++ rest ≡ rows
      → now ≡ before + length first
      → Grows table w.db first v.db
      → v.status.state ≡ w.status.state
      → Loaded v rest now out
      → Loaded w rows before out
  shifted w v first rest rows before now out split count grown state (all_rows x n grown' count') =
      all_rows x n (Grows-then table w.db v.db x.db first rest rows split grown grown')
        (omega (arith, count, count', ap length split, length-append first rest))
  shifted w v first rest rows before now out split count grown state
        (first_rows e x done left split' grown' state') =
      first_rows e x (first ++ done) left
        (append_assoc first done left ∙ ap (λ l. first ++ l) split' ∙ split)
        (Grows-then table w.db v.db x.db first done (first ++ done) refl grown grown')
        (state' ∙ state)

  module _ (now : ℕ) (flag takes : ℕ → Bool) (source query : Result (Frame R) String) where
    pub changed-table :
        (w : World D) (r : Result D String)
        → ((d : D) → r ≡ ok d → table d ≡ table w.db)
        → table (changed debug sql spec now flag takes source query w r).1.db ≡ table w.db
    changed-table w (ok d) keeps = keeps d refl
    changed-table w (err m) keeps = refl

    pub save-table :
        (f : JobStatus → JobStatus) (w : World D)
        → table (save debug sql spec now flag takes source query f w).1.db ≡ table w.db
    unfolding save
    save-table f w =
        changed-table (record w { status = f w.status }) (sql.save_status (f w.status) w.db)
          (λ d h. laws.saves (f w.status) w.db d h)

    pub send-table :
        (e : Event) (w : World D)
        → table (send debug sql spec now flag takes source query e w).1.db ≡ table w.db
    unfolding send
    send-table e w = choose (takes (length w.events))
      where
        choose :
            (b : Bool)
            → table (passed debug sql spec now flag takes source query e w b).1.db ≡ table w.db
        choose true = refl
        choose false = refl

    pub send-status :
        (e : Event) (w : World D)
        → (send debug sql spec now flag takes source query e w).1.status ≡ w.status
    unfolding send
    send-status e w = choose (takes (length w.events))
      where
        choose :
            (b : Bool)
            → (passed debug sql spec now flag takes source query e w b).1.status ≡ w.status
        choose true = refl
        choose false = refl

    behind_chunk :
        (w v : World D) (columns : List String) (chunk rest rows : List R) (before : ℕ)
        (f : ℕ → Task D ℕ)
        → Kept v w
        → chunk ++ rest ≡ rows
        → ((n : ℕ) (x : World D) → Loaded x rest (before + n) (f n x))
        → Loaded w rows before
            (behind f (write_chunk debug sql spec now flag takes source query columns chunk v))
    unfolding write_chunk behind
    behind_chunk w v columns chunk rest rows before f same split next =
        choose (insert_chunk debug sql spec columns chunk v.db) refl
      where
        choose :
            (r : Result (ℕ × D) Error)
            → insert_chunk debug sql spec columns chunk v.db ≡ r
            → Loaded w rows before (
                behind f (elim r as (λ _. Result ℕ Failure × World D) [
                  | err e ↦ (err (raised e), v)
                  | ok (n, d) ↦ (ok n, record v { db = d })
                ]))
        choose (err e) h =
            first_rows (raised e) v [] rows refl (same.0 ∙ append_nil (table w.db)) same.1
        choose (ok (n, d)) h =
            let (grown, count) =
              insert_chunk-Grows debug sql table laws spec columns chunk v.db d n h in
            shifted w (record v { db = d }) chunk rest rows before (before + n) _ split
              (omega (arith, count)) (grown ∙ ap (λ l. l ++ chunk) same.0) same.1
              (next n (record v { db = d }))

    pub insert_loop-Loaded :
        (fuel batch : ℕ) (columns : List String) (rows_read : ℕ) (rows : List R) (written : ℕ)
        (w : World D)
        → 1 ≤ batch
        → length rows ≤ fuel
        → Loaded w rows written (
            insert_loop debug sql spec now flag takes source query fuel batch columns rows_read rows
              written w)
    unfolding insert_loop poll bump_progress
    insert_loop-Loaded zero batch columns rows_read [] written w one enough =
        all_rows w written (append_nil (table w.db)) (omega arith)
    insert_loop-Loaded zero batch columns rows_read (r ∷ rows) written w one enough =
        absurd (omega arith)
    insert_loop-Loaded (suc fuel) batch columns rows_read [] written w one enough =
        all_rows w written (append_nil (table w.db)) (omega arith)
    insert_loop-Loaded (suc fuel) batch columns rows_read (r ∷ rows) written w one enough =
        behind-Loaded w (r ∷ rows) written _ _ (refl, refl)
          (λ _ v1 s1.
            behind_chunk w v1 columns (take batch (r ∷ rows)) (drop batch (r ∷ rows)) (r ∷ rows)
              written _ s1 (take-append-drop batch (r ∷ rows))
              (λ n v2.
                let f : JobStatus → JobStatus =
                  λ s. record s { rows_read = rows_read; rows_written = written + n } in
                behind-Loaded v2 (drop batch (r ∷ rows)) (written + n) _ _
                  (
                    save-table f v2,
                    ap (λ s. s.state) (save-status debug sql spec now flag takes source query f v2),
                  )
                  (λ _ v3 s3.
                    behind-Loaded v2 (drop batch (r ∷ rows)) (written + n) _ _
                      (
                        send-table (progress rows_read (written + n)) v3 ∙ s3.0,
                        ap (λ s. s.state) (send-status (progress rows_read (written + n)) v3)
                            ∙ s3.1,
                      )
                      (λ _ v4 s4.
                        shifted v2 v4 [] (drop batch (r ∷ rows)) (drop batch (r ∷ rows))
                          (written + n) (written + n) _ refl (omega arith)
                          (s4.0 ∙ append_nil (table v2.db)) s4.1
                          (insert_loop-Loaded fuel batch columns rows_read (drop batch (r ∷ rows))
                            (written + n) v4 one
                            (omega (arith, enough, one, length-drop batch (r ∷ rows))))))))

    pub load-Loaded :
        (batch : ℕ) (columns : List String) (rows : List R) (w : World D)
        → 1 ≤ batch
        → Loaded w rows 0 (load debug sql spec now flag takes source query batch columns rows w)
    load-Loaded zero columns rows w one = absurd (omega arith)
    load-Loaded (suc b) columns rows w one =
        insert_loop-Loaded (length rows) (suc b) columns (length rows) rows 0 w one (omega arith)
