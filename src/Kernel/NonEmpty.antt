-- ===== src/Kernel/NonEmpty.antt =====
-- The windows of the grid are not empty.
use open_eo_ru_stac.Prelude.{
  refl, ℕ, zero, suc, ◌+◌, ◌<◌, ◌≡◌, true, some, List, [], ◌∷◌, ◌++◌, arith, lt→ltb,
}
use open_eo_ru_stac.Kernel.{
  GridShape, BlockSize, Cell, cells_of_row, cells_from, div_ceil, is_non_empty, enumerate_blocks,
}
use open_eo_ru_stac.Kernel.Axis.{block_size_pos}

abbrev pub AllFull : List Cell → Type 0
AllFull [] = Unit
AllFull ((id, w) ∷ cells) = (is_non_empty w ≡ true) × AllFull cells

AllFull-append : (xs ys : List Cell) → AllFull xs → AllFull ys → AllFull (xs ++ ys)
AllFull-append [] ys h k = k
AllFull-append ((id, w) ∷ xs) ys (h, hs) k = (h, AllFull-append xs ys hs k)

module _ (shape : GridShape) (block : BlockSize) (rows_pos : 0 < block.rows)
    (cols_pos : 0 < block.cols) where
  cells_of_row-AllFull :
      (br bc k : ℕ)
      → br < div_ceil shape.rows block.rows
      → bc + k ≡ div_ceil shape.cols block.cols
      → AllFull (cells_of_row shape block br bc k)
  unfolding cells_of_row is_non_empty
  cells_of_row-AllFull br bc zero lt all = tt
  cells_of_row-AllFull br bc (suc k) lt all = (
    rw
        (
          lt→ltb 0 _ (block_size_pos shape.rows block.rows br rows_pos lt),
          lt→ltb 0 _ (block_size_pos shape.cols block.cols bc cols_pos (omega arith)),
        )
        refl,
    cells_of_row-AllFull br (suc bc) k lt (omega arith),
  )

  cells_from-AllFull :
      (br k : ℕ) → br + k ≡ div_ceil shape.rows block.rows → AllFull (cells_from shape block br k)
  unfolding cells_from
  cells_from-AllFull br zero all = tt
  cells_from-AllFull br (suc k) all =
      AllFull-append (cells_of_row shape block br 0 (div_ceil shape.cols block.cols)) _
        (cells_of_row-AllFull br 0 (div_ceil shape.cols block.cols) (omega arith) (omega arith))
        (cells_from-AllFull (suc br) k (omega arith))

-- Where no side of the block is 0, `enumerate_blocks` gives a grid without an empty window.
pub enumerate_blocks-AllFull :
    (shape : GridShape) (block : BlockSize)
    → 0 < block.rows
    → 0 < block.cols
    → (grid : List Cell) × (enumerate_blocks shape block ≡ some grid) × AllFull grid
unfolding enumerate_blocks
enumerate_blocks-AllFull shape block rows_pos cols_pos = (
  cells_from shape block 0 (div_ceil shape.rows block.rows),
  ground arith,
  cells_from-AllFull shape block rows_pos cols_pos 0 (div_ceil shape.rows block.rows) (omega arith),
)
