-- ===== src/GeoExecutor/Arrays/Repetition.antt =====
-- What `array_create` gives.
use mathlib.Core.List.{append-nil, append_assoc}
use native.Mathlib.Decide.{dec_le}
use native.Mathlib.Nat.{mul_comm}
use open_eo_ru_stac.Prelude.{
  ℕ, zero, suc, ◌*◌, ◌^◌, ◌≤◌, ◌<◌, max, ◌≡◌, refl, sym, ◌∙◌, subst, ◌&&◌, true, false, List, [],
  ◌∷◌, ◌++◌, length, length-append, ltb, leb, Result, ok, err, String, arith,
}
use open_eo_ru_stac.Json.{Value, array, Fields, get_field}
use open_eo_ru_stac.JobRunner.{ExecError, invalid_graph}
use open_eo_ru_stac.GeoExecutor.Arrays.{
  as_array, as_u64, or_default, items, max_array_len, repeated, created, array_create,
}

-- The elements that `array_create` is given, and how often.
abbrev pub given : Fields → List Value
given args = or_default [] (as_array (get_field "data" args))

abbrev pub times : Fields → ℕ
times args = max (or_default 1 (as_u64 (get_field "repeat" args))) 1

-- The data, one copy behind the other.
abbrev pub copies : ℕ → List Value → List Value
copies zero vs = []
copies (suc n) vs = vs ++ copies n vs

copies-nil : (n : ℕ) → copies n [] ≡ []
copies-nil zero = refl
copies-nil (suc n) = copies-nil n

repeated-eq-copies : (n : ℕ) (vs out : List Value) → repeated n vs out ≡ out ++ copies n vs
repeated-eq-copies zero vs out = sym (append-nil out)
repeated-eq-copies (suc n) vs out =
    repeated-eq-copies n vs (out ++ vs) ∙ append_assoc out vs (copies n vs)

length-copies : (n : ℕ) (vs : List Value) → length (copies n vs) ≡ n * length vs
length-copies zero vs = omega arith
length-copies (suc n) vs =
    let ih = length-copies n vs in
    let added = length-append vs (copies n vs) in grind (arith, ih, added)

-- Both tests on a product below the cap, and above it.
allowed : (p : ℕ) → p ≤ max_array_len → (ltb p (2 ^ 64) && leb p max_array_len) ≡ true
allowed p h = ground arith

refused : (p : ℕ) → max_array_len < p → (ltb p (2 ^ 64) && leb p max_array_len) ≡ false
refused p h = ground arith

-- The two ends of `array_create`: the copies, at most the cap of elements, or an error.
pub data Creates (vs : List Value) (n : ℕ) : Result Value ExecError → Type 0 where
  fits :
      length (copies n vs) ≡ n * length vs
      → n * length vs ≤ max_array_len
      → Creates vs n (ok (array (items (copies n vs))))
  too_long :
      (text : String) → max_array_len < n * length vs → Creates vs n (err (invalid_graph text))

created-Creates : (vs : List Value) (n : ℕ) → Creates vs n (created vs n)
created-Creates [] n =
    let none_left : n * length {A = Value} [] ≤ max_array_len = omega arith in
    subst (λ ws. Creates [] n (ok (array (items ws)))) (copies-nil n)
      (fits (length-copies n []) none_left)
created-Creates (v ∷ vs) n =
    let turned : length (v ∷ vs) * n ≡ n * length (v ∷ vs) = mul_comm (length (v ∷ vs)) n in
    elim (dec_le (n * length (v ∷ vs)) max_array_len) [
      | yes fit ↦
          let test =
            allowed (length (v ∷ vs) * n) (subst (λ p. p ≤ max_array_len) (sym turned) fit) in
          rw (test, repeated-eq-copies n (v ∷ vs) []) (fits (length-copies n (v ∷ vs)) fit)
      | no unfit ↦
          let long : max_array_len < n * length (v ∷ vs) = omega arith in
          let test =
            refused (length (v ∷ vs) * n) (subst (λ p. max_array_len < p) (sym turned) long) in
          rw test (too_long _ long)
    ]

-- `array_create` gives `data` as often as `repeat` says, at least once, where that makes at most
-- 10,000,000 elements, and an error otherwise; what is no array counts as empty, and what is no
-- unsigned number as 1.
pub array_create-Creates : (args : Fields) → Creates (given args) (times args) (array_create args)
unfolding array_create
array_create-Creates args = created-Creates (given args) (times args)
