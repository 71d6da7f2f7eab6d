-- ===== src/ChunkPlan/Bounds.antt =====
-- The rules that `ChunkPlan::plan` promises, for requests whose byte counts fit 64 bits.
use native.Mathlib.Nat.{le_trans, le_refl, mul_comm}
use open_eo_ru_stac.Prelude.{
  ℕ, ◌*◌, ◌/◌, ◌^◌, ◌≤◌, ◌<◌, min, max, ◌≡◌, ◌∙◌, refl, ◌⊎◌, inl, inr, true, false, ◌&&◌, some,
  arith, ltb, leb, Bool-cases, if◌then◌else◌, ok, err, ge_of_ltb, ltb→lt, leb→le, gt_of_leb,
}
use open_eo_ru_stac.ChunkPlan.{
  OpKind, pixelwise, reduction, window, PlanInput, ChunkPlan, budget_too_small, usize, pixel_cost,
  bytes_per_pixel_overhead, target_side, snap, block_side, planned_side, peak_bytes, square_plan,
  choose, per_pixel_bytes, decide_plan, plan, min_block, max_block, isqrt,
}
use open_eo_ru_stac.ChunkPlan.Sqrt.{isqrt_lem}

-- The cost of a pixel leaves room for a product with 4096.
pub record FitsWord (input : PlanInput) (op : OpKind) : Type 0 where
  pub cost : pixel_cost input op < 2 ^ 52

mul_mono : {a b c d : ℕ} → a ≤ b → c ≤ d → a * c ≤ b * d
mul_mono {a} {b} {c} {d} h k =
    le_trans (step a b c h) (rw (mul_comm b c, mul_comm b d) (step c d b k))
  where
    step : (x y z : ℕ) → x ≤ y → x * z ≤ y * z
    step x y z e = grind arith

le-div : (a b c : ℕ) → 0 < c → a * c ≤ b → a ≤ b / c
le-div a b c pos h = grind arith

div-mul-le : (a b : ℕ) → (a / b) * b ≤ a
div-mul-le a b = omega arith

pub target_bounds : (b p : ℕ) → (64 ≤ target_side b p) × (target_side b p ≤ 4096)
unfolding target_side
target_bounds b p = (omega arith, omega arith)

side_fits : (r q : ℕ) → r * r ≤ q → 4096 ≤ q → min 4096 (max 64 r) * min 4096 (max 64 r) ≤ q
side_fits r q h big = elim (Bool-cases (leb 64 r)) [
  | inl large ↦ le_trans (mul_mono (below large) (below large)) h
  | inr small ↦ le_trans (mul_mono (least small) (least small)) big
]
  where
    below : leb 64 r ≡ true → min 4096 (max 64 r) ≤ r
    below e = omega (arith, leb→le 64 r e)

    least : leb 64 r ≡ false → min 4096 (max 64 r) ≤ 64
    least e = omega (arith, gt_of_leb 64 r e)

-- The target block fits the budget of one thread.
target_fits : (b p : ℕ) → 0 < p → 4096 * p ≤ b → target_side b p * target_side b p ≤ b / p
unfolding target_side
target_fits b p pos h =
    let big = le-div 4096 b p pos h in
    let capped = min (max (b / p) 1) (max_block * max_block) in
    let root = isqrt_lem capped (omega arith) in
    side_fits (isqrt capped) (b / p) (omega (arith, root.0)) big

multiple_large : (c t : ℕ) → 64 ≤ c → c ≤ t → 64 ≤ (t / c) * c
multiple_large c t h k =
    let once = le-div 1 t c (omega arith) (omega arith) in
    le_trans h (omega (arith, mul_mono once (le_refl c)))

pub snap_bounds : (c t : ℕ) → 64 ≤ t → (64 ≤ snap c t) × (snap c t ≤ t)
unfolding snap
snap_bounds c t h = elim (Bool-cases (leb min_block c && leb c t)) [
  | inl e ↦ rw e (multiple_large c t (ground arith) (ground arith), div-mul-le t c)
  | inr e ↦ rw e (h, omega arith)
]

-- The block, before it is stored in a plan.
block_bounds :
    (input : PlanInput) (t : ℕ)
    → 64 ≤ t
    → t ≤ 4096
    → (64 ≤ block_side input (snap input.cog_tile_size t))
      × (block_side input (snap input.cog_tile_size t) ≤ t)
unfolding block_side
block_bounds input t lo hi =
    let s = snap_bounds input.cog_tile_size t lo in (omega (arith, s.0), omega (arith, s.1))

usize_small : (n : ℕ) → n < 2 ^ 64 → usize n ≡ n
usize_small n h = omega arith

le-mul_pos : (a t : ℕ) → a ≤ a * max t 1
le-mul_pos a t = omega (arith, mul_mono (le_refl a) (at_least_one t))
  where
    at_least_one : (u : ℕ) → 1 ≤ max u 1
    at_least_one u = omega arith

per_pixel_bytes_lem :
    (input : PlanInput) (op : OpKind)
    → FitsWord input op
    → per_pixel_bytes input op ≡ pixel_cost input op
unfolding per_pixel_bytes
per_pixel_bytes_lem input op fits =
    let inner = bytes_per_pixel_overhead op * max input.bands 1 in
    let small = le-mul_pos inner input.times in
    rw (usize_small inner (omega (arith, fits.cost))) (
      rw (usize_small (inner * max input.times 1) (omega (arith, fits.cost)))
        (usize_small _ (omega (arith, fits.cost))))

overhead_pos : (op : OpKind) → 8 ≤ bytes_per_pixel_overhead op
overhead_pos pixelwise = omega arith
overhead_pos reduction = omega arith
overhead_pos window = omega arith

pixel_cost_pos : (input : PlanInput) (op : OpKind) → 8 ≤ pixel_cost input op
pixel_cost_pos input op =
    let o = bytes_per_pixel_overhead op in
    omega (
      arith,
      overhead_pos op,
      le-mul_pos o input.bands,
      le-mul_pos (o * max input.bands 1) input.times,
    )

min_block_bytes_lem : (c : ℕ) → c < 2 ^ 52 → usize (usize (min_block * min_block) * c) ≡ 4096 * c
min_block_bytes_lem c h = omega arith

-- A block that fits the budget of each thread, times the threads, fits the whole budget.
peak_fits :
    (block cost threads budget : ℕ)
    → block * block ≤ (budget / threads) / cost
    → (block * block) * cost * threads ≤ budget
peak_fits block cost threads budget h =
    le_trans (mul_mono (mul_mono h (le_refl cost)) (le_refl threads)) (
      le_trans (mul_mono (div-mul-le (budget / threads) cost) (le_refl threads))
        (div-mul-le budget threads))

-- What an accepted plan satisfies.
pub record IsWithin (input : PlanInput) (op : OpKind) (n budget : ℕ) (p : ChunkPlan) : Type 0 where
  pub square : p.block_cols ≡ p.block_rows
  pub not_small : 64 ≤ p.block_rows
  pub not_large : p.block_rows ≤ 4096
  pub threads : p.n_threads ≡ max n 1
  pub thread_fits : p.block_rows * p.block_cols * pixel_cost input op ≤ budget / p.n_threads
  pub peak : p.est_peak_bytes ≡ p.block_rows * p.block_cols * pixel_cost input op * p.n_threads
  pub peak_fits_budget : p.est_peak_bytes ≤ budget

planned_side_bounds :
    (input : PlanInput) (cost b : ℕ)
    → 0 < cost
    → 4096 * cost ≤ b
    → (64 ≤ planned_side input cost b)
      × (planned_side input cost b ≤ 4096)
      × (planned_side input cost b * planned_side input cost b ≤ b / cost)
unfolding planned_side
planned_side_bounds input cost b pos fits =
    let t = target_bounds b cost in
    let s = block_bounds input (target_side b cost) t.0 t.1 in
    (s.0, le_trans s.1 t.1, le_trans (mul_mono s.1 s.1) (target_fits b cost pos fits))

peak_bytes_lem :
    (block cost threads budget : ℕ)
    → 8 ≤ cost
    → 1 ≤ threads
    → budget < 2 ^ 64
    → block * block * cost * threads ≤ budget
    → peak_bytes block cost threads ≡ block * block * cost * threads
unfolding peak_bytes
peak_bytes_lem block cost threads budget c t small fits =
    let a = mul_mono (le_refl (block * block)) c in
    let b = mul_mono (le_refl (block * block * cost)) t in
    rw (usize_small (block * block) (omega arith))
      (rw (usize_small (block * block * cost) (omega arith)) (usize_small _ (omega arith)))

-- The outcome of `plan`, by one test on the budget.
plan_lem :
    (input : PlanInput) (op : OpKind) (n budget : ℕ)
    → FitsWord input op
    → plan input op n budget ≡ (
        if ltb (budget / max n 1) (4096 * pixel_cost input op)
        then some (err (budget_too_small budget (max n 1) (4096 * pixel_cost input op)))
        else choose input (max n 1) (pixel_cost input op) (budget / max n 1))
unfolding plan
plan_lem input op n budget fits =
    rw (per_pixel_bytes_lem input op fits)
      (unfold decide_plan in rw (min_block_bytes_lem (pixel_cost input op) fits.cost))

choose_lem :
    (input : PlanInput) (threads cost b : ℕ)
    → 0 < cost
    → choose input threads cost b ≡ some (ok (square_plan (planned_side input cost b) cost threads))
unfolding choose
choose_lem input threads cost b pos = ground arith

accepted_plan :
    (input : PlanInput) (op : OpKind) (n budget : ℕ)
    → FitsWord input op
    → budget < 2 ^ 64
    → ltb (budget / max n 1) (4096 * pixel_cost input op) ≡ false
    → (p : ChunkPlan) × (plan input op n budget ≡ some (ok p)) × IsWithin input op n budget p
accepted_plan input op n budget fits small e =
    let cost = pixel_cost input op in
    let threads = max n 1 in
    let pos = pixel_cost_pos input op in
    let side = planned_side input cost (budget / threads) in
    let bounds =
      planned_side_bounds input cost (budget / threads) (omega arith) (ge_of_ltb _ _ e) in
    let fit = peak_fits side cost threads budget bounds.2 in
    let exact = peak_bytes_lem side cost threads budget pos (omega arith) small fit in
    (
      square_plan side cost threads,
      plan_lem input op n budget fits ∙ (rw e (choose_lem input threads cost _ (omega arith))),
      unfold square_plan in
          record {
            square = refl;
            not_small = bounds.0;
            not_large = bounds.1;
            threads = refl;
            thread_fits =
                le_trans (mul_mono bounds.2 (le_refl cost)) (div-mul-le (budget / threads) cost);
            peak = exact;
            peak_fits_budget = rw exact fit;
          },
    )

-- The outcome of `ChunkPlan::plan` for a request whose pixel cost is below 2^52 and a budget below
-- 2^64. It is the error exactly when the budget of one thread is less than a 64 x 64 block costs;
-- otherwise it is a square plan of side 64 to 4096 whose block fits the budget of its thread, whose
-- peak estimate is exact (no product wraps) and whose peak stays within the whole budget.
pub plan_outcome :
    (input : PlanInput) (op : OpKind) (n budget : ℕ)
    → FitsWord input op
    → budget < 2 ^ 64
    → (budget / max n 1 < 4096 * pixel_cost input op)
        × (plan input op n budget
            ≡ some (err (budget_too_small budget (max n 1) (4096 * pixel_cost input op))))
      ⊎ (4096 * pixel_cost input op ≤ budget / max n 1)
        × ((p : ChunkPlan) × (plan input op n budget ≡ some (ok p)) × IsWithin input op n budget p)
plan_outcome input op n budget fits small =
    elim (Bool-cases (ltb (budget / max n 1) (4096 * pixel_cost input op))) [
      | inl e ↦ inl (ltb→lt _ _ e, plan_lem input op n budget fits ∙ (rw e))
      | inr e ↦ inr (ge_of_ltb _ _ e, accepted_plan input op n budget fits small e)
    ]
