-- ===== src/GeoExecutor/Spelling.antt =====
-- geo_executor/registry.rs: `levenshtein`, on the characters of the names, and `suggest`. A row is
-- a vector: an index outside of it panics, which is `none` here.
pub mod Rows
pub mod Alignment
use open_eo_ru_stac.Prelude.{
  ℕ, zero, suc, ◌+◌, ◌/◌, min, max, Bool, true, false, ◌&&◌, String, Option, none, some, List, [],
  ◌∷◌, length, get_elem?, set, take, replicate, map, ltb, leb, ◌==◌, if◌then◌else◌,
}
use open_eo_ru_stac.FileStore.{codes}
use open_eo_ru_stac.FileStore.Utf8.{encode}

infixl 5 ◌>>=◌
abbrev pub ◌>>=◌ {ℓ} : {A B : Type ℓ} → Option A → (A → Option B) → Option B
none >>= f = none
some a >>= f = f a

-- A write to `row[i]`.
abbrev pub store : List ℕ → ℕ → ℕ → Option (List ℕ)
store row i v = if ltb i (length row) then some (set row i v) else none

abbrev pub cost : ℕ → ℕ → ℕ
cost ca cb = if ca == cb then 0 else 1

-- The inner loop, from the column `j` on.
unfoldable pub fill_row : ℕ → List ℕ → ℕ → List ℕ → List ℕ → Option (List ℕ)
fill_row ca prev j [] curr = some curr
fill_row ca prev j (cb ∷ b) curr = do
  above ← get_elem? prev (suc j)
  left ← get_elem? curr j
  diagonal ← get_elem? prev j
  curr' ← store curr (suc j) (min (min (above + 1) (left + 1)) (diagonal + cost ca cb))
  fill_row ca prev (suc j) b curr'

-- The outer loop, from the row `i` on; it ends with `prev`.
unfoldable pub fill_rows : List ℕ → ℕ → List ℕ → List ℕ → List ℕ → Option (List ℕ)
unfolding fill_row
fill_rows b i [] prev curr = some prev
fill_rows b i (ca ∷ a) prev curr = do
  started ← store curr 0 (i + 1)
  filled ← fill_row ca prev 0 b started
  fill_rows b (suc i) a filled prev

-- `n` numbers from `i` on.
abbrev pub counted : ℕ → ℕ → List ℕ
counted i zero = []
counted i (suc n) = i ∷ counted (suc i) n

unfoldable pub levenshtein : List ℕ → List ℕ → Option ℕ
unfolding fill_rows
levenshtein [] b = some (length b)
levenshtein (ca ∷ a) [] = some (length (ca ∷ a))
levenshtein (ca ∷ a) (cb ∷ b) = do
  let width = length (cb ∷ b)
  prev ← fill_rows (cb ∷ b) 0 (ca ∷ a) (counted 0 (suc width)) (replicate (suc width) 0)
  get_elem? prev width
