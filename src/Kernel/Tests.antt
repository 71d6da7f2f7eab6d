-- ===== src/Kernel/Tests.antt =====
-- A raster of 5 by 3 pixels in blocks of 2 by 2.
use open_eo_ru_stac.Prelude.{ℕ, ◌≡◌, refl, String, some, List, [], ◌∷◌, arith, Result, ok}
use open_eo_ru_stac.Kernel.{
  GridShape, BlockSize, ReadWindow, RasterBlockId, RasterBlock, Cell, KernelError, cells_from,
  apply_blocks, enumerate_blocks,
}
use open_eo_ru_stac.Kernel.Cover.{Covers, enumerate_blocks-Covers}
use open_eo_ru_stac.Kernel.Apply.{CellGives, Runs, apply_blocks-Runs}

abbrev shape : GridShape
shape = record { rows = 5; cols = 3 }

abbrev block : BlockSize
block = record { rows = 2; cols = 2 }

abbrev read : RasterBlockId → ReadWindow → Result ℕ String
read id w = ok id.block_row

abbrev worker : RasterBlock ℕ → Result ℕ String
worker b = ok b.pixels

enumerate_blocks-Covers_example :
    (cells : List Cell) × (enumerate_blocks shape block ≡ some cells) × Covers shape cells
enumerate_blocks-Covers_example = enumerate_blocks-Covers shape block (omega arith) (omega arith)

apply_blocks-Runs_example :
    (r : Result (List ℕ) KernelError) × (apply_blocks shape block read worker ≡ some r)
    × Runs (CellGives read worker block) (cells_from shape block 0 3) r
unfolding enumerate_blocks cells_from
apply_blocks-Runs_example =
    apply_blocks-Runs shape block read worker (cells_from shape block 0 3) refl

six_outputs : apply_blocks shape block read worker ≡ some (ok (0 ∷ 0 ∷ 1 ∷ 1 ∷ 2 ∷ 2 ∷ []))
unfolding apply_blocks enumerate_blocks
six_outputs = refl
