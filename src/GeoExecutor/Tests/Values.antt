-- ===== src/GeoExecutor/Tests/Values.antt =====
-- The arrays and the numbers of a request, over natural numbers.
use open_eo_ru_stac.Prelude.{
  ℕ, ◌≡◌, refl, true, false, Bool-cases, inl, inr, some, List, [], ◌∷◌, leb, str_eq, ok, arith,
}
use open_eo_ru_stac.Prelude.Int.{pos}
use open_eo_ru_stac.Json.{
  Value, null, number, pos_int, array, item, empty, Fields, closed, field, get_field,
}
use open_eo_ru_stac.LocalExecutor.Tests.{natural}
use open_eo_ru_stac.GeoExecutor.Tests.{ops}
use open_eo_ru_stac.GeoExecutor.Apply.Numeric.{value}
use open_eo_ru_stac.GeoExecutor.Apply.Kernel.{Args, num, arg, apply_pure_numeric_op}
use open_eo_ru_stac.GeoExecutor.Arrays.{ArrayOps, arr, array_create, order, sort}
use open_eo_ru_stac.GeoExecutor.Arrays.Agreement.{Agrees, order-sort-Agrees}
use open_eo_ru_stac.GeoExecutor.Arrays.Repetition.{given, times, Creates, array_create-Creates}
use open_eo_ru_stac.GeoExecutor.Registry.{get, suggest}
use open_eo_ru_stac.GeoExecutor.Scalars.{ScalarOps}
use open_eo_ru_stac.GeoExecutor.Handlers.{scalar, subtract, register_defaults, handle_scalar}
use open_eo_ru_stac.GeoExecutor.Handlers.Operands.{absent, present, SameArgs, Alike}
use open_eo_ru_stac.GeoExecutor.Handlers.Callbacks.{handle_scalar-Alike}

abbrev count_of : ℕ → Value
count_of n = number (pos_int n)

abbrev array_ops : ArrayOps ℕ
array_ops = record {
  as_f64 = natural;
  is_finite = λ n. true;
  less_equal = leb;
  from_f64 = λ n. some (count_of n);
  same_value = λ v w. false;
}

abbrev three_values : List Value
three_values = count_of 3 ∷ null ∷ count_of 1 ∷ []

abbrev request : Fields
request =
    field "data" (array (item (count_of 3) (item null (item (count_of 1) empty))))
      (field "repeat" (count_of 2) closed)

leb_total : (a b : ℕ) → leb a b ≡ false → leb b a ≡ true
leb_total a b h = ground arith

leb_trans : (a b c : ℕ) → leb a b ≡ true → leb b c ≡ true → leb a c ≡ true
leb_trans a b c h k = ground arith

order-sort-Agrees_example : Agrees array_ops request three_values
unfolding arr get_field
order-sort-Agrees_example =
    order-sort-Agrees array_ops (λ a b _ _. leb_total a b) (λ a b c _ _ _. leb_trans a b c) request
      three_values refl

positions : order array_ops request ≡ ok (array (item (count_of 2) (item (count_of 0) empty)))
unfolding order
positions = refl

one_and_three : sort array_ops request ≡ ok (array (item (count_of 1) (item (count_of 3) empty)))
unfolding sort
one_and_three = refl

array_create-Creates_example : Creates (given request) (times request) (array_create request)
array_create-Creates_example = array_create-Creates request

abbrev scalar_ops : ScalarOps ℕ
scalar_ops = record {
  arithmetic = ops;
  value_of = count_of;
  epsilon = 1;
  as_i64 = λ n. some (pos (natural n));
  powi_10_of = λ p. 1;
}

abbrev seven_and_three : Fields
seven_and_three = field "x" (count_of 7) (field "y" (count_of 3) closed)

abbrev seven_and_three_args : Args ℕ
seven_and_three_args = ("x", num 7) ∷ ("y", num 3) ∷ []

same : SameArgs scalar_ops seven_and_three seven_and_three_args
unfolding get_field arg
same k = elim (Bool-cases (str_eq "x" k)) [
  | inl x ↦ rw x (present (pos_int 7))
  | inr not_x ↦ elim (Bool-cases (str_eq "y" k)) [
    | inl y ↦ rw (not_x, y) (present (pos_int 3))
    | inr not_y ↦ rw (not_x, not_y) absent
  ]
]

handle_scalar-Alike_example :
    Alike scalar_ops
      (handle_scalar scalar_ops subtract seven_and_three)
      (apply_pure_numeric_op ops seven_and_three_args "subtract")
unfolding arg
handle_scalar-Alike_example =
    handle_scalar-Alike scalar_ops seven_and_three seven_and_three_args same refl subtract tt

four : handle_scalar scalar_ops subtract seven_and_three ≡ value (count_of 4)
unfolding handle_scalar
four = refl

subtract_registered : get "subtract" (register_defaults []) ≡ some (scalar subtract)
unfolding get register_defaults
subtract_registered = refl

subtract_suggested : suggest "substract" 3 (register_defaults []) ≡ some ("subtract" ∷ [])
unfolding suggest register_defaults
subtract_suggested = refl
