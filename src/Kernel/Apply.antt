-- ===== src/Kernel/Apply.antt =====
-- What `apply_blocks` returns.
use Prim.Native.String.{◌++◌ as ◌<>◌}
use open_eo_ru_stac.Prelude.{
  ◌≡◌, refl, String, some, List, [], ◌∷◌, map, decimal, Result, ok, err, ap,
}
use open_eo_ru_stac.Kernel.{
  GridShape, BlockSize, ReadWindow, RasterBlockId, RasterBlock, Cell, KernelError, wrap, processed,
  run_cell, all_ok, keep_first, apply_blocks, applied, enumerate_blocks,
}

-- What becomes of a block: its pixels are read by its id and window, and the worker is given them with
-- the id, the window and the full size of a block. An error carries the block's row and column.
pub data CellGives {P O : Type 0} (read : RasterBlockId → ReadWindow → Result P String)
    (worker : RasterBlock P → Result O String) (block : BlockSize)
    : Cell → Result O KernelError → Type 0 where
  output :
      (id : RasterBlockId) (window : ReadWindow) (pixels : P) (o : O)
      → read id window ≡ ok pixels
      → worker (record { id = id; window = window; size = block; pixels = pixels }) ≡ ok o
      → CellGives read worker block (id, window) (ok o)
  unread :
      (id : RasterBlockId) (window : ReadWindow) (e : String)
      → read id window ≡ err e
      → CellGives read worker block
          (id, window)
          (err (record {
            block_id = "(" <> decimal id.block_row <> ", " <> decimal id.block_col <> ")";
            source = e;
          }))
  unworked :
      (id : RasterBlockId) (window : ReadWindow) (pixels : P) (e : String)
      → read id window ≡ ok pixels
      → worker (record { id = id; window = window; size = block; pixels = pixels }) ≡ err e
      → CellGives read worker block
          (id, window)
          (err (record {
            block_id = "(" <> decimal id.block_row <> ", " <> decimal id.block_col <> ")";
            source = e;
          }))

-- The outputs of the blocks in their order, or the error of the first block that fails.
pub data Runs {O : Type 0} (Gives : Cell → Result O KernelError → Type 0)
    : List Cell → Result (List O) KernelError → Type 0 where
  at_end : Runs Gives [] (ok [])
  one_more :
      (c : Cell) (cs : List Cell) (o : O) (os : List O)
      → Gives c (ok o)
      → Runs Gives cs (ok os)
      → Runs Gives (c ∷ cs) (ok (o ∷ os))
  fails_here :
      (c : Cell) (cs : List Cell) (e : KernelError) → Gives c (err e) → Runs Gives (c ∷ cs) (err e)
  fails_later :
      (c : Cell) (cs : List Cell) (o : O) (e : KernelError)
      → Gives c (ok o)
      → Runs Gives cs (err e)
      → Runs Gives (c ∷ cs) (err e)

module _ {P O : Type 0} (read : RasterBlockId → ReadWindow → Result P String)
    (worker : RasterBlock P → Result O String) (block : BlockSize) where
  worked :
      (id : RasterBlockId) (window : ReadWindow) (pixels : P) (r : Result O String)
      → read id window ≡ ok pixels
      → worker (record { id = id; window = window; size = block; pixels = pixels }) ≡ r
      → CellGives read worker block (id, window) (wrap read worker block id r)
  worked id window pixels (ok o) reads works = output id window pixels o reads works
  worked id window pixels (err e) reads works = unworked id window pixels e reads works

  after_read :
      (id : RasterBlockId) (window : ReadWindow) (r : Result P String)
      → read id window ≡ r
      → CellGives read worker block
          (id, window)
          (processed read worker block id window (wrap read worker block id r))
  after_read id window (ok pixels) reads = worked id window pixels _ reads refl
  after_read id window (err e) reads = unread id window e reads

  run_cell-CellGives : (c : Cell) → CellGives read worker block c (run_cell read worker block c)
  run_cell-CellGives (id, window) = after_read id window (read id window) refl

  kept :
      (c : Cell) (cs : List Cell) (o : O) (r : Result (List O) KernelError)
      → CellGives read worker block c (ok o)
      → Runs (CellGives read worker block) cs r
      → Runs (CellGives read worker block) (c ∷ cs) (keep_first o r)
  kept c cs o (ok os) here rest = one_more c cs o os here rest
  kept c cs o (err e) here rest = fails_later c cs o e here rest

  after :
      (c : Cell) (cs : List Cell) (r : Result O KernelError)
      → Runs (CellGives read worker block) cs (all_ok (map (run_cell read worker block) cs))
      → CellGives read worker block c r
      → Runs
          (CellGives read worker block)
          (c ∷ cs)
          (all_ok (r ∷ map (run_cell read worker block) cs))
  unfolding all_ok
  after c cs (ok o) rest here = kept c cs o _ here rest
  after c cs (err e) rest here = fails_here c cs e here

  all_ok-Runs :
      (cs : List Cell)
      → Runs (CellGives read worker block) cs (all_ok (map (run_cell read worker block) cs))
  unfolding all_ok
  all_ok-Runs [] = at_end
  all_ok-Runs (c ∷ cs) =
      after c cs (run_cell read worker block c) (all_ok-Runs cs) (run_cell-CellGives c)

-- Where the grid is `grid`, `apply_blocks` returns the outputs of its blocks in their order, or the
-- error of the first block, in that order, that cannot be read or processed. A block is read by its
-- id and window, the worker is given its pixels with the id, the window and the full size of a block,
-- and an error carries the block's row and column.
pub apply_blocks-Runs :
    {P O : Type 0} (shape : GridShape) (block : BlockSize)
    (read : RasterBlockId → ReadWindow → Result P String) (worker : RasterBlock P → Result O String)
    (grid : List Cell)
    → enumerate_blocks shape block ≡ some grid
    → (r : Result (List O) KernelError) × (apply_blocks shape block read worker ≡ some r)
      × Runs (CellGives read worker block) grid r
unfolding apply_blocks
apply_blocks-Runs shape block read worker grid known =
    (_, ap (applied shape block read worker) known, all_ok-Runs read worker block grid)
