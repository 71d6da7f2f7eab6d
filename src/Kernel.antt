-- ===== src/Kernel.antt =====
-- crates/eo-kernel/src/executor.rs: the grid of blocks that tiles a raster, and a worker driven over
-- it. A side of a raster is below 2^63, so that no cast to `isize` loses anything.
pub mod Axis
pub mod Cover
pub mod NonEmpty
pub mod Apply
mod Tests
use Prim.Native.String.{◌++◌ as ◌<>◌}
use open_eo_ru_stac.Prelude.{
  ◌^◌, ◌&&◌, Bool, false, ltb, ℕ, zero, suc, ◌+◌, ◌-◌, ◌*◌, ◌/◌, ◌%◌, min, String, Option, none,
  some, List, [], ◌∷◌, ◌++◌, map, ◌==◌, ◌||◌, if◌then◌else◌, Result, ok, err, decimal,
}
use open_eo_ru_stac.Prelude.Int.{ℤ, pos, negsuc}

pub record GridShape : Type 0 where
  pub rows : ℕ
  pub cols : ℕ

-- eo-core/src/shape.rs and eo-core/src/window.rs.
pub record BlockSize : Type 0 where
  pub rows : ℕ
  pub cols : ℕ

pub record Offset : Type 0 where
  pub rows : ℤ
  pub cols : ℤ

pub record Size : Type 0 where
  pub rows : ℤ
  pub cols : ℤ

pub record ReadWindow : Type 0 where
  pub offset : Offset
  pub size : Size

-- A product of sizes stops at the largest usize.
unfoldable pub area : BlockSize → ℕ
area block = min (block.rows * block.cols) (2 ^ 64 - 1)

abbrev pub is_positive : ℤ → Bool
is_positive (pos n) = ltb 0 n
is_positive (negsuc n) = false

unfoldable pub is_non_empty : ReadWindow → Bool
is_non_empty w = is_positive w.size.rows && is_positive w.size.cols

-- block.rs
pub record RasterBlockId : Type 0 where
  pub block_row : ℕ
  pub block_col : ℕ

pub record RasterBlock (P : Type 0) : Type 0 where
  pub id : RasterBlockId
  pub window : ReadWindow
  pub size : BlockSize
  pub pixels : P

abbrev pub id_text : RasterBlockId → String
id_text id = "(" <> decimal id.block_row <> ", " <> decimal id.block_col <> ")"

-- `usize::div_ceil`, where the divisor is not 0.
abbrev pub div_ceil : ℕ → ℕ → ℕ
div_ceil n d = if n % d == 0 then n / d else n / d + 1

abbrev pub Cell : Type 0
Cell = RasterBlockId × ReadWindow

module _ (shape : GridShape) (block : BlockSize) where
  -- The body of the two loops.
  abbrev pub cell : ℕ → ℕ → Cell
  cell br bc =
      let row_off = br * block.rows in
      let col_off = bc * block.cols in
      (
        record { block_row = br; block_col = bc },
        record {
          offset = record { rows = pos row_off; cols = pos col_off };
          size = record {
            rows = pos (min block.rows (shape.rows - row_off));
            cols = pos (min block.cols (shape.cols - col_off));
          };
        },
      )

  -- The inner loop from column `bc` on, with `k` rounds to go.
  unfoldable pub cells_of_row : ℕ → ℕ → ℕ → List Cell
  cells_of_row br bc zero = []
  cells_of_row br bc (suc k) = cell br bc ∷ cells_of_row br (suc bc) k

  unfoldable pub cells_from : ℕ → ℕ → List Cell
  cells_from br zero = []
  cells_from br (suc k) =
      cells_of_row br 0 (div_ceil shape.cols block.cols) ++ cells_from (suc br) k

  -- `none` where a side of the block is 0 and the division panics.
  unfoldable pub enumerate_blocks : Option (List Cell)
  unfolding cells_of_row cells_from
  enumerate_blocks =
      if (block.rows == 0) || (block.cols == 0)
      then none
      else some (cells_from 0 (div_ceil shape.rows block.rows))

-- worker.rs: the variant `Worker`, the only one that is built here.
pub record KernelError : Type 0 where
  pub block_id : String
  pub source : String

module _ {P O : Type 0} (read : RasterBlockId → ReadWindow → Result P String)
    (worker : RasterBlock P → Result O String) (block : BlockSize) where
  abbrev pub wrap : {A : Type 0} → RasterBlockId → Result A String → Result A KernelError
  wrap id (ok a) = ok a
  wrap id (err e) = err (record { block_id = id_text id; source = e })

  abbrev pub processed : RasterBlockId → ReadWindow → Result P KernelError → Result O KernelError
  processed id window (err e) = err e
  processed id window (ok pixels) =
      wrap id (worker (record { id = id; window = window; size = block; pixels = pixels }))

  -- The closure of `map`.
  abbrev pub run_cell : Cell → Result O KernelError
  run_cell (id, window) = processed id window (wrap id (read id window))

-- `for r in results { out.push(r?); }`.
abbrev pub keep_first : {O E : Type 0} → O → Result (List O) E → Result (List O) E
keep_first o (ok os) = ok (o ∷ os)
keep_first o (err e) = err e

unfoldable pub all_ok : {O E : Type 0} → List (Result O E) → Result (List O) E
all_ok [] = ok []
all_ok (ok o ∷ rs) = keep_first o (all_ok rs)
all_ok (err e ∷ rs) = err e

module _ {P O : Type 0} (shape : GridShape) (block : BlockSize)
    (read : RasterBlockId → ReadWindow → Result P String)
    (worker : RasterBlock P → Result O String) where
  abbrev pub applied : Option (List Cell) → Option (Result (List O) KernelError)
  applied none = none
  applied (some grid) = some (all_ok (map (run_cell read worker block) grid))

  unfoldable pub apply_blocks : Option (Result (List O) KernelError)
  unfolding all_ok
  apply_blocks = applied (enumerate_blocks shape block)
