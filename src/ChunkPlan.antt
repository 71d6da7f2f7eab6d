-- ===== src/ChunkPlan.antt =====
-- apps/orbit-openeo/src/chunk_plan.rs: block size and concurrency from a memory budget.
-- `usize` has 64 bits; sums and products wrap as in a release build, and a division by zero panics.
mod Sqrt
pub mod Bounds
pub mod Tiles
mod Tests
use open_eo_ru_stac.Prelude.{
  ℕ, ◌+◌, ◌*◌, ◌/◌, ◌%◌, ◌^◌, min, max, Bool, ◌&&◌, Option, none, some, ltb, leb, ◌==◌,
  if◌then◌else◌, Result, ok, err,
}
unfoldable pub use Sqrt.{isqrt}

abbrev pub usize : ℕ → ℕ
usize n = n % 2 ^ 64

pub data PlanError : Type 0 where
  budget_too_small : ℕ → ℕ → ℕ → PlanError

pub data OpKind : Type 0 where
  pixelwise reduction window : OpKind

abbrev pub bytes_per_pixel_overhead : OpKind → ℕ
bytes_per_pixel_overhead pixelwise = 8
bytes_per_pixel_overhead reduction = 16
bytes_per_pixel_overhead window = 32

pub record PlanInput : Type 0 where
  pub cog_tile_size : ℕ
  pub rows : ℕ
  pub cols : ℕ
  pub bands : ℕ
  pub times : ℕ
  pub bytes_per_pixel : ℕ

pub record ChunkPlan : Type 0 where
  pub block_rows : ℕ
  pub block_cols : ℕ
  pub n_threads : ℕ
  pub est_peak_bytes : ℕ

abbrev pub min_block : ℕ
min_block = 64

abbrev pub max_block : ℕ
max_block = 4096

-- What the planner counts for each pixel, before it wraps.
abbrev pub pixel_cost : PlanInput → OpKind → ℕ
pixel_cost input op =
    input.bytes_per_pixel + bytes_per_pixel_overhead op * max input.bands 1 * max input.times 1

-- Largest square side for a per-thread budget, within 64 and 4096.
pub target_side : ℕ → ℕ → ℕ
target_side budget_per_thread per_pixel =
    min max_block
      (max min_block (isqrt (min (max (budget_per_thread / per_pixel) 1) (max_block * max_block))))

-- Snap down to a multiple of the COG tile, if reasonable.
pub snap : ℕ → ℕ → ℕ
snap cog target = if leb min_block cog && leb cog target then (target / cog) * cog else target

pub block_side : PlanInput → ℕ → ℕ
block_side input snapped =
    min (min (min (max snapped min_block) max_block) (max input.rows min_block))
      (max input.cols min_block)

pub planned_side : PlanInput → ℕ → ℕ → ℕ
unfolding target_side snap block_side
planned_side input per_pixel budget_per_thread =
    block_side input (snap input.cog_tile_size (target_side budget_per_thread per_pixel))

-- The estimate's three products, each wrapped.
peak_bytes : ℕ → ℕ → ℕ → ℕ
peak_bytes block per_pixel threads = usize (usize (usize (block * block) * per_pixel) * threads)

square_plan : ℕ → ℕ → ℕ → ChunkPlan
unfolding peak_bytes
square_plan block per_pixel threads = record {
  block_rows = block;
  block_cols = block;
  n_threads = threads;
  est_peak_bytes = peak_bytes block per_pixel threads;
}

-- The plan once the budget is known to hold a 64 x 64 block; `none` is the division's panic.
choose : PlanInput → ℕ → ℕ → ℕ → Option (Result ChunkPlan PlanError)
choose input threads per_pixel budget_per_thread =
    if per_pixel == 0
    then none
    else some (ok (square_plan (planned_side input per_pixel budget_per_thread) per_pixel threads))

-- Bytes that one pixel costs, as the code computes them.
per_pixel_bytes : PlanInput → OpKind → ℕ
per_pixel_bytes input op = usize (
    input.bytes_per_pixel
    + usize (usize (bytes_per_pixel_overhead op * max input.bands 1) * max input.times 1))

-- `memory_budget_bytes / n_threads < min_block_bytes` decides.
decide_plan : PlanInput → ℕ → ℕ → ℕ → Option (Result ChunkPlan PlanError)
decide_plan input threads per_pixel memory_budget_bytes =
    let min_block_bytes = usize (usize (min_block * min_block) * per_pixel) in
    let budget_per_thread = memory_budget_bytes / threads in
    if ltb budget_per_thread min_block_bytes
    then some (err (budget_too_small memory_budget_bytes threads min_block_bytes))
    else choose input threads per_pixel budget_per_thread

unfoldable pub plan : PlanInput → OpKind → ℕ → ℕ → Option (Result ChunkPlan PlanError)
unfolding per_pixel_bytes decide_plan choose planned_side square_plan
plan input op n_threads memory_budget_bytes =
    decide_plan input (max n_threads 1) (per_pixel_bytes input op) memory_budget_bytes
