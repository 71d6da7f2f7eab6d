-- ===== src/Kernel/Cover.antt =====
-- The windows of `enumerate_blocks` cover each pixel of the raster once.
use open_eo_ru_stac.Prelude.{
  ℕ, zero, suc, ◌+◌, ◌/◌, ◌<◌, ◌≡◌, refl, Bool, ◌&&◌, some, List, [], ◌∷◌, ◌++◌, arith, ltb, leb,
  ◌==◌, if◌then◌else◌, ◌∙◌,
}
use open_eo_ru_stac.Kernel.{
  GridShape, BlockSize, ReadWindow, Cell, cell, cells_of_row, cells_from, enumerate_blocks,
  div_ceil,
}
use open_eo_ru_stac.Kernel.Axis.{spans, spans_block, quotient_lt}

abbrev pub holds : ℕ → ℕ → ReadWindow → Bool
holds r c w = spans w.offset.rows w.size.rows r && spans w.offset.cols w.size.cols c

-- How many of the windows hold the pixel.
abbrev pub hits : ℕ → ℕ → List Cell → ℕ
hits r c [] = 0
hits r c ((id, w) ∷ cells) = (if holds r c w then 1 else 0) + hits r c cells

hits-append : (r c : ℕ) (xs ys : List Cell) → hits r c (xs ++ ys) ≡ hits r c xs + hits r c ys
hits-append r c [] ys = omega arith
hits-append r c ((id, w) ∷ xs) ys = omega (arith, hits-append r c xs ys)

module _ (shape : GridShape) (block : BlockSize) (rows_pos : 0 < block.rows)
    (cols_pos : 0 < block.cols) where
  holds-cell :
      (br bc r c : ℕ)
      → br < div_ceil shape.rows block.rows
      → bc < div_ceil shape.cols block.cols
      → holds r c (cell shape block br bc).1 ≡ (
          ltb r shape.rows
          && (r / block.rows == br)
          && (ltb c shape.cols && (c / block.cols == bc)))
  holds-cell br bc r c br_lt bc_lt =
      rw
        (
          spans_block shape.rows block.rows br r rows_pos br_lt,
          spans_block shape.cols block.cols bc c cols_pos bc_lt,
        )
        refl

  hits_of_row :
      (br bc k r c : ℕ)
      → br < div_ceil shape.rows block.rows
      → bc + k ≡ div_ceil shape.cols block.cols
      → hits r c (cells_of_row shape block br bc k) ≡ (
          if ltb r shape.rows
            && (r / block.rows == br)
            && (ltb c shape.cols && leb bc (c / block.cols))
          then 1
          else 0)
  unfolding cells_of_row
  hits_of_row br bc zero r c br_lt all =
      ground (arith, quotient_lt shape.cols block.cols c cols_pos)
  hits_of_row br bc (suc k) r c br_lt all =
      rw
        (
          holds-cell br bc r c br_lt (omega arith),
          hits_of_row br (suc bc) k r c br_lt (omega arith),
        )
        (ground arith)

  hits_from :
      (br k r c : ℕ)
      → br + k ≡ div_ceil shape.rows block.rows
      → hits r c (cells_from shape block br k)
        ≡ (if ltb r shape.rows && leb br (r / block.rows) && ltb c shape.cols then 1 else 0)
  unfolding cells_from
  hits_from br zero r c all = ground (arith, quotient_lt shape.rows block.rows r rows_pos)
  hits_from br (suc k) r c all =
      hits-append r c (cells_of_row shape block br 0 (div_ceil shape.cols block.cols))
        (cells_from shape block (suc br) k)
      ∙ (rw
          (
            hits_of_row br 0 (div_ceil shape.cols block.cols) r c (omega arith) (omega arith),
            hits_from (suc br) k r c (omega arith),
          )
          (ground arith))

-- The grid of `enumerate_blocks` where no side of the block is 0.
pub record Covers (shape : GridShape) (grid : List Cell) : Type 0 where
  pub once : (r c : ℕ) → hits r c grid ≡ (if ltb r shape.rows && ltb c shape.cols then 1 else 0)

-- Where no side of the block is 0, `enumerate_blocks` gives a grid, and each pixel of the raster
-- lies in exactly one of its windows, each other pixel in none.
pub enumerate_blocks-Covers :
    (shape : GridShape) (block : BlockSize)
    → 0 < block.rows
    → 0 < block.cols
    → (grid : List Cell) × (enumerate_blocks shape block ≡ some grid) × Covers shape grid
unfolding enumerate_blocks
enumerate_blocks-Covers shape block rows_pos cols_pos = (
  cells_from shape block 0 (div_ceil shape.rows block.rows),
  ground arith,
  record {
    once = λ r c.
        hits_from shape block rows_pos cols_pos 0 (div_ceil shape.rows block.rows) r c (omega arith)
        ∙ (ground arith);
  },
)
