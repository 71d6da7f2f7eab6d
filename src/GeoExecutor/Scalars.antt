-- ===== src/GeoExecutor/Scalars.antt =====
-- geo_executor/registry.rs: the processes on numbers and on truth values. The arithmetic of f64 is
-- that of the callbacks.
use Prim.Native.String.{◌++◌ as ◌<>◌}
use open_eo_ru_stac.Prelude.{
  Bool, true, false, not, ◌&&◌, ◌||◌, String, Option, none, some, if◌then◌else◌,
}
use open_eo_ru_stac.Prelude.Int.{ℤ, pos}
use open_eo_ru_stac.Json.{Value, bool, number, Number, Fields, get_field}
use open_eo_ru_stac.JobRunner.{invalid_graph}
use open_eo_ru_stac.GeoExecutor.Apply.Numeric.{Eval, value, failed, ◌>>=◌, require, Arithmetic}
use open_eo_ru_stac.GeoExecutor.Apply.Kernel.{unwrapped}
use open_eo_ru_stac.GeoExecutor.Arrays.{as_bool, or_default}

pub record ScalarOps (F : Type 0) : Type 0 where
  pub arithmetic : Arithmetic F
  -- `Value::from`, which gives null for what is not finite.
  pub value_of : F → Value
  -- `f64::EPSILON`.
  pub epsilon : F
  pub as_i64 : Number → Option ℤ
  -- `10f64.powi(p as i32)`.
  pub powi_10_of : ℤ → F

abbrev pub logical_xor : Bool → Bool → Bool
logical_xor true b = not b
logical_xor false b = b

module _ {F : Type 0} (ops : ScalarOps F) (args : Fields) where
  open ops use {arithmetic, value_of, epsilon, as_i64, powi_10_of}
  open ops.arithmetic use {
    as_f64, zero_point, one_point, plus, minus, times, over, powf, log_base, atan2, abs, floor,
    round_ties_even, is_zero, less, less_equal, clamp,
  }

  abbrev pub as_number : Option Value → Option F
  as_number (some (number n)) = some (as_f64 n)
  as_number _ = none

  unfoldable pub arg_number : String → Eval F
  unfolding get_field
  arg_number key =
      require (invalid_graph ("expected numeric `" <> key <> "` argument"))
        (as_number (get_field key args))

  unfoldable pub arg_bool : String → Eval Bool
  unfolding get_field
  arg_bool key =
      require (invalid_graph ("expected boolean `" <> key <> "` argument"))
        (as_bool (get_field key args))

  -- The three macros.
  unfoldable pub unary_num_handler : String → (F → F) → Eval Value
  unfolding arg_number
  unary_num_handler key f = do x ← arg_number key; value (value_of (f x))

  unfoldable pub binary_num_handler : String → String → (F → F → F) → Eval Value
  unfolding arg_number
  binary_num_handler a b f = do x ← arg_number a; y ← arg_number b; value (value_of (f x y))

  unfoldable pub cmp_handler : (F → F → Bool) → Eval Value
  unfolding arg_number
  cmp_handler f = do x ← arg_number "x"; y ← arg_number "y"; value (bool (f x y))

  abbrev pub mod_of : F → F → F
  mod_of x y = minus x (times y (floor (over x y)))

  -- With a tolerance, or exactly.
  abbrev pub equal_within : Option F → F → F → Bool
  equal_within (some d) x y = less_equal (abs (minus x y)) d
  equal_within none x y = less_equal x y && less_equal y x

  unfoldable pub eq_handler : Eval Value
  unfolding arg_number get_field
  eq_handler = do
    x ← arg_number "x"
    y ← arg_number "y"
    value (bool (equal_within (as_number (get_field "delta" args)) x y))

  unfoldable pub neq_handler : Eval Value
  unfolding arg_number get_field
  neq_handler = do
    x ← arg_number "x"
    y ← arg_number "y"
    value (bool (not (equal_within (as_number (get_field "delta" args)) x y)))

  unfoldable pub log_handler : Eval Value
  unfolding arg_number
  log_handler = do
    x ← arg_number "x"
    base ← arg_number "base"
    if less_equal base zero_point || less (abs (minus base one_point)) epsilon
        then failed (invalid_graph "log: base must be > 0 and != 1")
        else value (value_of (log_base x base))

  abbrev pub integer : Option Value → Option ℤ
  integer (some (number n)) = as_i64 n
  integer _ = none

  unfoldable pub round_handler : Eval Value
  unfolding arg_number get_field
  round_handler = do
    x ← arg_number "x"
    let factor = powi_10_of (or_default (pos 0) (integer (get_field "p" args)))
    value (value_of (over (round_ties_even (times x factor)) factor))

  unfoldable pub clip_handler : Eval Value
  unfolding arg_number
  clip_handler = do
    x ← arg_number "x"
    lo ← arg_number "min"
    hi ← arg_number "max"
    r ← unwrapped (clamp x lo hi)
    value (value_of r)

  unfoldable pub normalized_difference_handler : Eval Value
  unfolding arg_number
  normalized_difference_handler = do
    x ← arg_number "x"
    y ← arg_number "y"
    if is_zero (plus x y)
        then failed (invalid_graph "normalized_difference: x + y == 0")
        else value (value_of (over (minus x y) (plus x y)))

  unfoldable pub between_handler : Eval Value
  unfolding arg_number get_field
  between_handler = do
    x ← arg_number "x"
    lo ← arg_number "min"
    hi ← arg_number "max"
    let exclude_max = or_default false (as_bool (get_field "exclude_max" args))
    value (bool (less_equal lo x && (if exclude_max then less x hi else less_equal x hi)))

  -- `&&` and `||` do not read `y` where `x` decides.
  abbrev pub and_then_bool : Bool → Eval Bool → Eval Bool
  and_then_bool true y = y
  and_then_bool false y = value false

  abbrev pub or_else_bool : Bool → Eval Bool → Eval Bool
  or_else_bool true y = value true
  or_else_bool false y = y

  unfoldable pub and_handler : Eval Value
  unfolding arg_bool
  and_handler = do x ← arg_bool "x"; r ← and_then_bool x (arg_bool "y"); value (bool r)

  unfoldable pub or_handler : Eval Value
  unfolding arg_bool
  or_handler = do x ← arg_bool "x"; r ← or_else_bool x (arg_bool "y"); value (bool r)

  unfoldable pub xor_handler : Eval Value
  unfolding arg_bool
  xor_handler = do x ← arg_bool "x"; y ← arg_bool "y"; value (bool (logical_xor x y))

  unfoldable pub not_handler : Eval Value
  unfolding arg_bool
  not_handler = do x ← arg_bool "x"; value (bool (not x))

  unfoldable pub divide_handler : Eval Value
  unfolding arg_number
  divide_handler = do
    x ← arg_number "x"
    y ← arg_number "y"
    if is_zero y
        then failed (invalid_graph "divide: y must be non-zero")
        else value (value_of (over x y))
