-- ===== src/Kernel/Axis.antt =====
-- The blocks along one side of a raster.
use native.Mathlib.Nat.{le-div_iff_mul-le, mod-add-div'}
use open_eo_ru_stac.Prelude.{
  ℕ, suc, ◌+◌, ◌-◌, ◌*◌, ◌/◌, ◌≤◌, ◌<◌, ◌≡◌, ◌↔◌, min, Bool, false, ◌&&◌, arith, ltb, leb, ◌==◌,
}
use open_eo_ru_stac.Prelude.Int.{ℤ, pos, negsuc}
use open_eo_ru_stac.Kernel.{div_ceil}

-- Whether the pixel `x` is at or behind the offset `o` and before the end of `s` pixels.
abbrev pub spans : ℤ → ℤ → ℕ → Bool
spans (pos o) (pos s) x = leb o x && ltb x (o + s)
spans (negsuc k) (pos s) x = ltb (x + suc k) s
spans o (negsuc s) x = false

at_least : (b i x : ℕ) → 0 < b → (i ≤ x / b) ↔ (i * b ≤ x)
at_least b i x h = le-div_iff_mul-le h

beyond : (b i x : ℕ) → 0 < b → (suc i ≤ x / b) ↔ (i * b + b ≤ x)
beyond b i x h = (
  λ le. omega (arith, (le-div_iff_mul-le {x = suc i} {y = x} h).0 le),
  λ le. (le-div_iff_mul-le {x = suc i} {y = x} h).1 (omega arith),
)

start_lt : (n b i : ℕ) → 0 < b → i < div_ceil n b → i * b < n
start_lt n b i h lt = ground (arith, (at_least b i n h).0, (beyond b i n h).0, mod-add-div' n b)

pub quotient_lt : (n b x : ℕ) → 0 < b → x < n → x / b < div_ceil n b
quotient_lt n b x h lt =
    ground (arith, at_least b (x / b) n h, beyond b (x / b) n h, mod-add-div' x b, mod-add-div' n b)

-- The i-th block spans a pixel exactly where the pixel is on the side and its quotient is i.
pub spans_block :
    (n b i x : ℕ)
    → 0 < b
    → i < div_ceil n b
    → spans (pos (i * b)) (pos (min b (n - i * b))) x ≡ (ltb x n && (x / b == i))
spans_block n b i x h lt = ground (arith, at_least b i x h, beyond b i x h, start_lt n b i h lt)

-- A block that begins on the side spans some of it.
pub block_size_pos : (n b i : ℕ) → 0 < b → i < div_ceil n b → 0 < min b (n - i * b)
block_size_pos n b i h lt = omega (arith, start_lt n b i h lt)
