-- ===== src/ChunkPlan/Sqrt.antt =====
-- `usize::isqrt` of Rust's standard library: the integer square root, rounded down.
use open_eo_ru_stac.Prelude.{
  ℕ, zero, suc, ◌+◌, ◌*◌, ◌/◌, ◌^◌, ◌≤◌, ◌<◌, ◌≡◌, refl, inl, inr, arith, leb, leb→le, gt_of_leb,
  Bool-cases, if◌then◌else◌,
}
use native.Mathlib.Nat.{pow-suc}

-- The next root, from the root of a quarter.
next_root : ℕ → ℕ → ℕ
next_root r n = if leb ((r + 1) * (r + 1)) n then r + 1 else r

-- Two bits of the argument, one of the root, for each unit of fuel.
root_bits : ℕ → ℕ → ℕ
root_bits zero n = 0
root_bits (suc f) n = next_root (2 * root_bits f (n / 4)) n

-- 32 root bits serve every 64-bit argument.
unfoldable pub isqrt : ℕ → ℕ
unfolding root_bits next_root
isqrt n = root_bits 32 n

next_root_lem :
    (r n : ℕ)
    → r * r ≤ n / 4
    → n / 4 < (r + 1) * (r + 1)
    → (next_root (2 * r) n * next_root (2 * r) n ≤ n)
      × (n < (next_root (2 * r) n + 1) * (next_root (2 * r) n + 1))
unfolding next_root
next_root_lem r n h k = elim (Bool-cases (leb ((2 * r + 1) * (2 * r + 1)) n)) [
  | inl fits ↦ rw fits (leb→le _ _ fits, omega arith)
  | inr over ↦ rw over (omega arith, gt_of_leb _ _ over)
]

root_bits_lem :
    (f n : ℕ)
    → n < 4 ^ f
    → (root_bits f n * root_bits f n ≤ n) × (n < (root_bits f n + 1) * (root_bits f n + 1))
unfolding root_bits
root_bits_lem zero n h = omega arith
root_bits_lem (suc f) n h =
    let ih = root_bits_lem f (n / 4) (omega (arith, pow-suc 4 f)) in
    next_root_lem (root_bits f (n / 4)) n ih.0 ih.1

pub isqrt_lem : (n : ℕ) → n < 2 ^ 64 → (isqrt n * isqrt n ≤ n) × (n < (isqrt n + 1) * (isqrt n + 1))
unfolding isqrt
isqrt_lem n h = root_bits_lem 32 n h

isqrt_runs : isqrt 16777215 ≡ 4095
unfolding isqrt
isqrt_runs = refl
