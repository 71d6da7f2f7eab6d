-- ===== src/Etl/Inserts.antt =====
-- What a chunk inserts.
use mathlib.Core.List.{append_assoc}
use open_eo_ru_stac.Prelude.{
  arith, ℕ, zero, suc, ◌+◌, ◌≤◌, ◌≡◌, refl, ◌∙◌, ap, sym, String, List, [], ◌∷◌, ◌++◌, length, take,
  drop, take-append-drop, length-take, length-drop, bind_inverse, Result, ok, err,
}
use open_eo_ru_stac.Etl.Spec.{PipelineSpec, identifiers_checked}
use open_eo_ru_stac.Etl.{
  JobStatus, Database, from_outside, insert_batches, insert_chunk, rows_per_batch,
}

-- What SQLite does, for a table without a unique column: an INSERT that succeeds puts its rows behind
-- the others and counts them, and the other statements leave the rows.
pub record Appends {R D : Type 0} (sql : Database R D) (table : D → List R) : Type 0 where
  pub inserts :
      (rows : List R) (d e : D) (n : ℕ)
      → sql.insert_rows rows d ≡ ok (n, e)
      → (table e ≡ table d ++ rows) × (n ≡ length rows)
  pub begins : (d e : D) → sql.begin d ≡ ok e → table e ≡ table d
  pub commits : (d e : D) → sql.commit d ≡ ok e → table e ≡ table d
  pub creates : (d e : D) → sql.create_table d ≡ ok e → table e ≡ table d
  pub saves : (s : JobStatus) (d e : D) → sql.save_status s d ≡ ok e → table e ≡ table d

from_outside-ok : {A : Type 0} (r : Result A String) (a : A) → from_outside r ≡ ok a → r ≡ ok a
from_outside-ok (ok b) a h = let same : b ≡ a = cc in ap ok same
from_outside-ok (err m) a h = cc

pub append_nil : {A : Type 0} (xs : List A) → xs ≡ xs ++ []
append_nil [] = refl
append_nil (x ∷ xs) = ap (λ ys. x ∷ ys) (append_nil xs)

-- The rows of `d` with `rows` behind them.
abbrev pub Grows : {R D : Type 0} → (D → List R) → D → List R → D → Type 0
Grows table d rows e = table e ≡ table d ++ rows

module _ {R D : Type 0} (table : D → List R) where
  pub Grows-then :
      (c d e : D) (first rest rows : List R)
      → first ++ rest ≡ rows
      → Grows table c first d
      → Grows table d rest e
      → Grows table c rows e
  Grows-then c d e first rest rows split one two =
      two
      ∙ ap (λ l. l ++ rest) one
      ∙ append_assoc (table c) first rest
      ∙ ap (λ l. table c ++ l) split

module _ {R D : Type 0} (debug : String → String) (sql : Database R D) (table : D → List R)
    (laws : Appends sql table) (spec : PipelineSpec) where
  insert_batches-Grows :
      (fuel per : ℕ) (rows : List R) (d e : D) (n : ℕ)
      → 1 ≤ per
      → length rows ≤ fuel
      → insert_batches debug sql spec fuel per rows d ≡ ok (n, e)
      → Grows table d rows e × (n ≡ length rows)
  unfolding insert_batches
  insert_batches-Grows zero per [] d e n one enough h =
      let same : d ≡ e = cc in
      let count : 0 ≡ n = cc in (ap table (sym same) ∙ append_nil (table d), sym count)
  insert_batches-Grows zero per (r ∷ rows) d e n one enough h = absurd (omega arith)
  insert_batches-Grows (suc fuel) per [] d e n one enough h =
      let same : d ≡ e = cc in
      let count : 0 ≡ n = cc in (ap table (sym same) ∙ append_nil (table d), sym count)
  insert_batches-Grows (suc fuel) per (r ∷ rows) d e n one enough h =
      let ((m, c), inserted, h2) =
        bind_inverse (from_outside (sql.insert_rows (take per (r ∷ rows)) d)) _ _ h in
      let ((total, f), rest, h3) =
        bind_inverse (insert_batches debug sql spec fuel per (drop per (r ∷ rows)) c) _ _ h2 in
      let (grown, count) = laws.inserts _ d c m (from_outside-ok _ _ inserted) in
      let (grown', count') =
        insert_batches-Grows fuel per (drop per (r ∷ rows)) c f total one
          (omega (arith, enough, one, length-drop per (r ∷ rows))) rest in
      let last : f ≡ e = cc in
      let sum : m + total ≡ n = cc in
      (
        ap table (sym last)
            ∙ Grows-then table d c f _ _ (r ∷ rows) (take-append-drop per (r ∷ rows)) grown grown',
        omega (arith, sum, count, count', length-take per (r ∷ rows), length-drop per (r ∷ rows)),
      )

  pub insert_chunk-Grows :
      (columns : List String) (rows : List R) (d e : D) (n : ℕ)
      → insert_chunk debug sql spec columns rows d ≡ ok (n, e)
      → Grows table d rows e × (n ≡ length rows)
  unfolding insert_chunk
  insert_chunk-Grows columns [] d e n h =
      let same : d ≡ e = cc in
      let count : 0 ≡ n = cc in (ap table (sym same) ∙ append_nil (table d), sym count)
  insert_chunk-Grows columns (r ∷ rows) d e n h =
      let (_, _, h1) = bind_inverse (identifiers_checked debug spec columns) _ _ h in
      let (c, begun, h2) = bind_inverse (from_outside (sql.begin d)) _ _ h1 in
      let ((total, f), inserted, h3) =
        bind_inverse
          (insert_batches debug sql spec (length (r ∷ rows)) (rows_per_batch (length columns))
            (r ∷ rows) c)
          _ _ h2 in
      let (g, committed, h4) = bind_inverse (from_outside (sql.commit f)) _ _ h3 in
      let (grown, count) =
        insert_batches-Grows (length (r ∷ rows)) (rows_per_batch (length columns)) (r ∷ rows) c f
          total (omega arith) (omega arith) inserted in
      let last : g ≡ e = cc in
      let same : total ≡ n = cc in
      (
        ap table (sym last)
            ∙ laws.commits f g (from_outside-ok _ _ committed)
            ∙ grown
            ∙ ap (λ l. l ++ (r ∷ rows)) (laws.begins d c (from_outside-ok _ _ begun)),
        sym same ∙ count,
      )
