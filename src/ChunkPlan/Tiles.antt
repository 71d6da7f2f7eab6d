-- ===== src/ChunkPlan/Tiles.antt =====
-- Alignment of a planned block with the tiles of the COG.
use open_eo_ru_stac.Prelude.{
  ℕ, ◌*◌, ◌/◌, ◌%◌, ◌≤◌, max, ◌≡◌, refl, sym, ◌∙◌, ◌⊎◌, inl, inr, some, arith, leb, ◌&&◌,
  Bool-cases, ok, false, if◌then◌else◌,
}
use native.Mathlib.Nat.{mul-mod_left}
use open_eo_ru_stac.ChunkPlan.Bounds.{target_bounds, snap_bounds}
use open_eo_ru_stac.ChunkPlan.{
  OpKind, PlanInput, ChunkPlan, min_block, snap, block_side, target_side, planned_side, square_plan,
  choose, per_pixel_bytes, decide_plan, plan,
}

multiple-mod : (c q : ℕ) → (q * c) % c ≡ 0
multiple-mod c q = mul-mod_left q c

-- A side that no clip has cut below the tile is the snapped one.
snap-mod : (c t : ℕ) → 64 ≤ c → c ≤ snap c t → snap c t % c ≡ 0
unfolding snap
snap-mod c t h k = elim (Bool-cases (leb min_block c && leb c t)) [
  | inl e ↦ rw e (multiple-mod c (t / c))
  | inr e ↦ absurd (untiled e k)
]
  where
    untiled :
        (leb min_block c && leb c t) ≡ false
        → c ≤ (if leb min_block c && leb c t then t / c * c else t)
        → ⊥
    untiled e m = ground arith

block_side-cases :
    (input : PlanInput) (s : ℕ)
    → 64 ≤ s
    → s ≤ 4096
    → (block_side input s ≡ s)
      ⊎ (block_side input s ≡ max input.rows 64)
      ⊎ (block_side input s ≡ max input.cols 64)
unfolding block_side
block_side-cases input s lo hi = omega arith

-- The side is a multiple of the tile, or the raster is shorter than the block in rows or in cols.
pub record IsTiled (input : PlanInput) (side : ℕ) : Type 0 where
  pub tiled :
      (side % input.cog_tile_size ≡ 0) ⊎ (side ≡ max input.rows 64) ⊎ (side ≡ max input.cols 64)

planned_side-IsTiled :
    (input : PlanInput) (cost b : ℕ)
    → 64 ≤ input.cog_tile_size
    → input.cog_tile_size ≤ planned_side input cost b
    → IsTiled input (planned_side input cost b)
unfolding planned_side
planned_side-IsTiled input cost b h k =
    let t = target_bounds b cost in
    let s = snap input.cog_tile_size (target_side b cost) in
    let sb = snap_bounds input.cog_tile_size (target_side b cost) t.0 in
    elim (block_side-cases input s sb.0 (omega arith)) [
      | inl e ↦ record {
        tiled = inl (rw e (snap-mod input.cog_tile_size (target_side b cost) h (rw e at k)));
      }
      | inr clipped ↦ record { tiled = inr clipped }
    ]

plan-decide_plan :
    (input : PlanInput) (op : OpKind) (n budget : ℕ)
    → plan input op n budget ≡ decide_plan input (max n 1) (per_pixel_bytes input op) budget
unfolding plan
plan-decide_plan input op n budget = refl

decide_plan-block_rows :
    (input : PlanInput) (threads cost budget : ℕ) (p : ChunkPlan)
    → decide_plan input threads cost budget ≡ some (ok p)
    → p.block_rows ≡ planned_side input cost (budget / threads)
unfolding decide_plan choose square_plan
decide_plan-block_rows input threads cost budget p e = ground arith

-- A plan that `ChunkPlan::plan` accepts, for a COG tile of 64 pixels or more that is no larger than
-- the block: the block's side is a multiple of the tile, or it is the raster's own rows or cols
-- (at least 64), to which it was clipped.
pub plan_tile :
    (input : PlanInput) (op : OpKind) (n budget : ℕ) (p : ChunkPlan)
    → plan input op n budget ≡ some (ok p)
    → 64 ≤ input.cog_tile_size
    → input.cog_tile_size ≤ p.block_rows
    → IsTiled input p.block_rows
plan_tile input op n budget p e h k =
    let cost = per_pixel_bytes input op in
    let rows =
      decide_plan-block_rows input (max n 1) cost budget p
        (sym (plan-decide_plan input op n budget) ∙ e) in
    rw rows (planned_side-IsTiled input cost (budget / max n 1) h (rw rows at k))
