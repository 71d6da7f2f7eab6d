-- ===== src/GeoExecutor/Arrays.antt =====
-- geo_executor/eval_arrays.rs: the array processes. What serde_json and f64 do is a parameter. A
-- number that is a negative integer is only told apart from the others.
pub mod Ordering
pub mod Finite
pub mod Agreement
pub mod Repetition
use Prim.Native.String.{◌++◌ as ◌<>◌}
use mathlib.Core.Option
use open_eo_ru_stac.Prelude.{
  ◌>>=◌, ◌>>◌, ℕ, zero, suc, ◌*◌, ◌^◌, max, Bool, true, false, not, ◌&&◌, String, Option, none,
  some, List, [], ◌∷◌, ◌++◌, length, get_elem?, map, replicate, ltb, leb, if◌then◌else◌, Result, ok,
  err, ok_or, decimal,
}
use open_eo_ru_stac.Prelude.Sorting.{sort_by}
use open_eo_ru_stac.Json.{
  Value, null, bool, number, array, Number, pos_int, neg_int, float, Items, empty, item, Fields,
  get_field,
}
use open_eo_ru_stac.JobRunner.{ExecError, invalid_graph}

-- f64 and the equality of values.
pub record ArrayOps (F : Type 0) : Type 0 where
  pub as_f64 : Number → F
  pub is_finite : F → Bool
  -- `partial_cmp` is not `Greater`.
  pub less_equal : F → F → Bool
  -- `Number::from_f64`, `none` for a number that is not finite.
  pub from_f64 : F → Option Value
  pub same_value : Value → Value → Bool

abbrev pub elements : Items → List Value
elements empty = []
elements (item v vs) = v ∷ elements vs

abbrev pub items : List Value → Items
items [] = empty
items (v ∷ vs) = item v (items vs)

abbrev pub as_array : Option Value → Option (List Value)
as_array (some (array vs)) = some (elements vs)
as_array _ = none

abbrev pub as_bool : Option Value → Option Bool
as_bool (some (bool b)) = some b
as_bool _ = none

abbrev pub or_default : {A : Type 0} → A → Option A → A
or_default d none = d
or_default d (some a) = a

-- What `as_i64` tells.
pub data Index : Type 0 where
  missing negative : Index
  at : ℕ → Index

abbrev pub as_i64 : Option Value → Index
as_i64 (some (number (pos_int n))) = if ltb n (2 ^ 63) then at n else missing
as_i64 (some (number (neg_int n))) = negative
as_i64 _ = missing

abbrev pub as_u64 : Option Value → Option ℕ
as_u64 (some (number (pos_int n))) = some n
as_u64 _ = none

abbrev pub count_value : ℕ → Value
count_value n = number (pos_int n)

unfoldable pub arr : Fields → String → Result (List Value) ExecError
unfolding get_field
arr args key =
    ok_or (invalid_graph ("expected array `" <> key <> "` argument"))
      (as_array (get_field key args))

abbrev pub element_at : List Value → ℕ → Option Value → Bool → Result Value ExecError
element_at data_ n (some v) return_nodata = ok v
element_at data_ n none true = ok null
element_at data_ n none false = err (
    invalid_graph (
      "array_element: index "
      <> decimal n
      <> " out of bounds (len "
      <> decimal (length data_)
      <> ")"))

abbrev pub indexed : List Value → Index → Bool → Result Value ExecError
indexed data_ missing return_nodata = err (
    invalid_graph
      "array_element: `index` (integer) required (label lookup unsupported on raw arrays)")
indexed data_ negative return_nodata = err (invalid_graph "array_element: index must be >= 0")
indexed data_ (at n) return_nodata = element_at data_ n (get_elem? data_ n) return_nodata

unfoldable pub array_element : Fields → Result Value ExecError
unfolding arr get_field
array_element args = do
  data_ ← arr args "data"
  indexed data_ (as_i64 (get_field "index" args))
      (or_default false (as_bool (get_field "return_nodata" args)))

abbrev pub max_array_len : ℕ
max_array_len = 10000000

-- The loop that extends `out`.
abbrev pub repeated : ℕ → List Value → List Value → List Value
repeated zero data_ out = out
repeated (suc n) data_ out = repeated n data_ (out ++ data_)

-- `checked_mul` and the filter: a product of 2^64 or more, or above the cap, is refused.
abbrev pub created : List Value → ℕ → Result Value ExecError
created [] repeat = ok (array empty)
created (v ∷ vs) repeat =
    if ltb (length (v ∷ vs) * repeat) (2 ^ 64) && leb (length (v ∷ vs) * repeat) max_array_len
    then ok (array (items (repeated repeat (v ∷ vs) [])))
    else err (
        invalid_graph (
          "array_create: result length "
          <> decimal (length (v ∷ vs))
          <> "×"
          <> decimal repeat
          <> " exceeds the 10000000-element cap"))

unfoldable pub array_create : Fields → Result Value ExecError
unfolding get_field
array_create args =
    created (or_default [] (as_array (get_field "data" args)))
      (max (or_default 1 (as_u64 (get_field "repeat" args))) 1)

unfoldable pub array_concat : Fields → Result Value ExecError
unfolding arr
array_concat args = do a ← arr args "array1"; b ← arr args "array2"; ok (array (items (a ++ b)))

unfoldable pub array_append : Fields → Result Value ExecError
unfolding arr get_field
array_append args = do
  out ← arr args "data"
  value ← ok_or (invalid_graph "array_append: missing `value`") (get_field "value" args)
  ok (array (items (out ++ value ∷ [])))

abbrev pub is_null : Value → Bool
is_null null = true
is_null _ = false

abbrev pub non_null : List Value → ℕ
non_null [] = 0
non_null (v ∷ vs) = if is_null v then non_null vs else suc (non_null vs)

-- Both branches on `condition` count the same.
unfoldable pub count : Fields → Result Value ExecError
unfolding arr
count args = do data_ ← arr args "data"; ok (count_value (non_null data_))

module _ {F : Type 0} (ops : ArrayOps F) where
  abbrev pub position : Value → List Value → Option ℕ
  position value [] = none
  position value (v ∷ vs) =
      if ops.same_value v value then some 0 else Option.map suc (position value vs)

  abbrev pub is_found : Option ℕ → Bool
  is_found none = false
  is_found (some i) = true

  abbrev pub found : Option ℕ → Value
  found none = null
  found (some i) = count_value i

  unfoldable pub array_contains : Fields → Result Value ExecError
  unfolding arr get_field
  array_contains args = do
    data_ ← arr args "data"
    value ← ok_or (invalid_graph "array_contains: missing `value`") (get_field "value" args)
    ok (bool (is_found (position value data_)))

  unfoldable pub array_find : Fields → Result Value ExecError
  unfolding arr get_field
  array_find args = do
    data_ ← arr args "data"
    value ← ok_or (invalid_graph "array_find: missing `value`") (get_field "value" args)
    ok (found (position value data_))

  -- `numeric_with_index`: the finite number of an element, or none where it is nodata.
  abbrev pub finite : Value → Option F
  finite (number n) = if ops.is_finite (ops.as_f64 n) then some (ops.as_f64 n) else none
  finite _ = none

  -- The elements from the index `i` on, those with a number and those without.
  abbrev pub valid_entry : ℕ → Option F → List (ℕ × F) → List (ℕ × F)
  valid_entry i none rest = rest
  valid_entry i (some f) rest = (i, f) ∷ rest

  abbrev pub nodata_entry : ℕ → Option F → List ℕ → List ℕ
  nodata_entry i none rest = i ∷ rest
  nodata_entry i (some f) rest = rest

  abbrev pub valid_from : ℕ → List Value → List (ℕ × F)
  valid_from i [] = []
  valid_from i (v ∷ vs) = valid_entry i (finite v) (valid_from (suc i) vs)

  abbrev pub nodata_from : ℕ → List Value → List ℕ
  nodata_from i [] = []
  nodata_from i (v ∷ vs) = nodata_entry i (finite v) (nodata_from (suc i) vs)

  -- The order of numbers, turned around for `asc: false`.
  abbrev pub in_order : Bool → F → F → Bool
  in_order true a b = ops.less_equal a b
  in_order false a b = ops.less_equal b a

  -- The nodata are dropped, or put last or first.
  abbrev pub placed : {A : Type 0} → Option Bool → List A → List A → List A
  placed none nodata valid = valid
  placed (some false) nodata valid = nodata ++ valid
  placed (some true) nodata valid = valid ++ nodata

  abbrev pub ordered : Bool → List Value → List (ℕ × F)
  ordered asc data_ = sort_by (λ a b. in_order asc a.1 b.1) (valid_from 0 data_)

  unfoldable pub order : Fields → Result Value ExecError
  unfolding arr get_field sort_by
  order args = do
    data_ ← arr args "data"
    let asc = or_default true (as_bool (get_field "asc" args))
    let nodata = as_bool (get_field "nodata" args)
    ok (
        array (
          items (
            map count_value
              (placed nodata (nodata_from 0 data_) (map (λ e. e.0) (ordered asc data_))))))

  abbrev pub numbered : Option Value → List Value → List Value
  numbered none rest = rest
  numbered (some v) rest = v ∷ rest

  -- `filter_map` by `Number::from_f64`.
  abbrev pub numbers : List F → List Value
  numbers [] = []
  numbers (f ∷ fs) = numbered (ops.from_f64 f) (numbers fs)

  abbrev pub sorted : Bool → List Value → List F
  sorted asc data_ = sort_by (in_order asc) (map (λ e. e.1) (valid_from 0 data_))

  unfoldable pub sort : Fields → Result Value ExecError
  unfolding arr get_field sort_by
  sort args = do
    data_ ← arr args "data"
    let asc = or_default true (as_bool (get_field "asc" args))
    let nodata = as_bool (get_field "nodata" args)
    let nulls = replicate (length (nodata_from 0 data_)) null
    ok (array (items (placed nodata nulls (numbers (sorted asc data_)))))
