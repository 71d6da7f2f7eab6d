-- ===== src/ChunkPlan/Tests.antt =====
-- Plans for a Sentinel-2 scene, and the planner's theorems at that input.
use open_eo_ru_stac.Prelude.{◌*◌, ◌/◌, ◌≤◌, ◌<◌, max, ◌≡◌, refl, ◌⊎◌, some, arith, ok, err}
use open_eo_ru_stac.ChunkPlan.{
  PlanInput, ChunkPlan, pixelwise, budget_too_small, pixel_cost, plan, isqrt,
}
use open_eo_ru_stac.ChunkPlan.Bounds.{IsWithin, plan_outcome}

abbrev scene : PlanInput
scene = record {
  cog_tile_size = 512;
  rows = 10980;
  cols = 10980;
  bands = 2;
  times = 1;
  bytes_per_pixel = 4;
}

abbrev scene_plan : ChunkPlan
scene_plan = record {
  block_rows = 1536;
  block_cols = 1536;
  n_threads = 4;
  est_peak_bytes = 188743680;
}

scene_runs : plan scene pixelwise 4 268435456 ≡ some (ok scene_plan)
unfolding plan isqrt
scene_runs = refl

scene_too_large : plan scene pixelwise 4 1000 ≡ some (err (budget_too_small 1000 4 81920))
unfolding plan isqrt
scene_too_large = refl

plan_outcome_example :
    (268435456 / max 4 1 < 4096 * pixel_cost scene pixelwise)
      × (plan scene pixelwise 4 268435456
          ≡ some (err (budget_too_small 268435456 (max 4 1) (4096 * pixel_cost scene pixelwise))))
    ⊎ (4096 * pixel_cost scene pixelwise ≤ 268435456 / max 4 1)
      × ((p : ChunkPlan) × (plan scene pixelwise 4 268435456 ≡ some (ok p))
          × IsWithin scene pixelwise 4 268435456 p)
plan_outcome_example =
    plan_outcome scene pixelwise 4 268435456 (record { cost = omega arith }) (omega arith)
