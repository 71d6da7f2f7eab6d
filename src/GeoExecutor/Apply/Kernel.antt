-- ===== src/GeoExecutor/Apply/Kernel.antt =====
-- geo_executor/eval_apply.rs: the resolved arguments and `apply_pure_numeric_op`.
use Prim.Native.String.{◌++◌ as ◌<>◌}
use open_eo_ru_stac.Prelude.{
  Bool, not, ◌&&◌, ◌||◌, String, Option, none, some, List, [], ◌∷◌, str_eq, if◌then◌else◌,
}
use open_eo_ru_stac.JobRunner.{invalid_graph, per_pixel_computation}
use open_eo_ru_stac.GeoExecutor.Apply.Numeric.{
  Eval, value, failed, panicked, ◌>>=◌, require, Arithmetic,
}

pub data ArgVal (F : Type 0) : Type 0 where
  num : F → ArgVal F
  arr : List F → ArgVal F

-- The map of the resolved arguments.
abbrev pub Args : Type 0 → Type 0
Args F = List (String × ArgVal F)

abbrev pub refuse : {A : Type 0} → String → Eval A
refuse text = failed (invalid_graph ("apply: " <> text))

module _ {F : Type 0} where
  abbrev pub as_num : String → ArgVal F → Eval F
  as_num who (num n) = value n
  as_num who (arr v) = refuse ("`" <> who <> "` expected scalar, got array")

  abbrev pub as_pair : String → ArgVal F → Eval (F × F)
  as_pair who (arr (a ∷ b ∷ [])) = value (a, b)
  as_pair who _ = refuse ("`" <> who <> "` expected 2-element array")

  unfoldable pub arg : String → Args F → Option (ArgVal F)
  arg k [] = none
  arg k ((j, v) ∷ args) = if str_eq j k then some v else arg k args

  abbrev pub or_else : Option (ArgVal F) → Option (ArgVal F) → Option (ArgVal F)
  or_else (some v) other = some v
  or_else none other = other

  -- The closures `two` and `one`.
  abbrev pub two_of :
      String → Option (ArgVal F) → Option (ArgVal F) → Option (ArgVal F) → Eval (F × F)
  two_of who (some x) (some y) d = do a ← as_num "x" x; b ← as_num "y" y; value (a, b)
  two_of who _ _ (some d) = as_pair who d
  two_of who _ _ none = refuse ("`" <> who <> "` needs `x`+`y` or `data: [a, b]`")

  abbrev pub two : Args F → String → Eval (F × F)
  two args who = two_of who (arg "x" args) (arg "y" args) (arg "data" args)

  abbrev pub one_of : String → Option (ArgVal F) → Option (ArgVal F) → Eval F
  one_of who (some x) d = as_num "x" x
  one_of who none (some d) = as_num "data" d
  one_of who none none = refuse ("`" <> who <> "` needs `x` or `data`")

  abbrev pub one : Args F → String → Eval F
  one args who = one_of who (arg "x" args) (arg "data" args)

  -- `ok_or_else(..)?.as_num(..)?`.
  abbrev pub needed : Option (ArgVal F) → String → String → Eval F
  needed o text who = do v ← require (invalid_graph ("apply: " <> text)) o; as_num who v

  -- `map(as_num).transpose()?.unwrap_or(default)`.
  abbrev pub optional : Option (ArgVal F) → String → F → Eval F
  optional none who default = value default
  optional (some v) who default = as_num who v

  -- `and_then(|v| v.as_num("p").ok()).unwrap_or(default)`.
  abbrev pub lenient : Option (ArgVal F) → F → F
  lenient (some (num n)) default = n
  lenient _ default = default

  abbrev pub unwrapped : Option F → Eval F
  unwrapped none = panicked
  unwrapped (some r) = value r

  module _ (ops : Arithmetic F) (args : Args F) where
    open ops use {
      zero_point, one_point, epsilon_9, epsilon_12, plus, minus, times, over, powf, log_base,
      maximum, minimum, atan2, abs, ln, exp, signum, floor, ceil, trunc, sqrt, cos, sin, tan, acos,
      asin, atan, round_ties_even, powi_10, is_zero, less, less_equal, clamp,
    }

    abbrev pub truth : Bool → F
    truth b = if b then one_point else zero_point

    abbrev pub binary : String → (F → F → F) → Eval F
    binary who f = do (x, y) ← two args who; value (f x y)

    abbrev pub unary : String → (F → F) → Eval F
    unary who f = do x ← one args who; value (f x)

    abbrev pub divided : Eval F
    divided = do
      (x, y) ← two args "divide"
      if is_zero y then failed (per_pixel_computation "apply: divide by zero") else value (over x y)

    abbrev pub powered : Eval F
    powered = do
      base ← needed (or_else (arg "base" args) (arg "x" args)) "`power` needs `base` or `x`" "base"
      p ← needed (or_else (arg "p" args) (arg "y" args)) "`power` needs `p` or `y`" "p"
      value (powf base p)

    abbrev pub logarithm : Eval F
    logarithm = do
      x ← needed (or_else (arg "x" args) (arg "data" args)) "`log` needs `x` or `data`" "x"
      base ← needed (or_else (arg "base" args) (arg "y" args)) "`log` needs `base` or `y`" "base"
      value (log_base x base)

    abbrev pub clipped : Eval F
    clipped = do
      x ← needed (or_else (arg "x" args) (arg "data" args)) "`clip` needs `x` or `data`" "x"
      lo ← needed (arg "min" args) "`clip` needs `min`" "min"
      hi ← needed (arg "max" args) "`clip` needs `max`" "max"
      unwrapped (clamp x lo hi)

    abbrev pub scaled : Eval F
    scaled = do
      x ←
          needed (or_else (arg "x" args) (arg "data" args))
            "`linear_scale_range` needs `x` or `data`" "x"
      in_min ← needed (arg "inputMin" args) "`linear_scale_range` needs `inputMin`" "inputMin"
      in_max ← needed (arg "inputMax" args) "`linear_scale_range` needs `inputMax`" "inputMax"
      out_min ← optional (arg "outputMin" args) "outputMin" zero_point
      out_max ← optional (arg "outputMax" args) "outputMax" one_point
      if less (abs (minus in_max in_min)) epsilon_12
          then refuse "linear_scale_range: inputMin == inputMax"
          else value (
              plus (over (times (minus x in_min) (minus out_max out_min)) (minus in_max in_min))
                out_min)

    abbrev pub rounded : Eval F
    rounded = do
      x ← one args "round"
      let factor = powi_10 (lenient (arg "p" args) zero_point)
      value (over (round_ties_even (times x factor)) factor)

    abbrev pub normalized : Eval F
    normalized = do
      (x, y) ← two args "normalized_difference"
      if is_zero (plus x y)
          then failed (per_pixel_computation "apply: normalized_difference x + y == 0")
          else value (over (minus x y) (plus x y))

    abbrev pub within : Eval F
    within = do
      x ← needed (or_else (arg "x" args) (arg "data" args)) "`between` needs `x`" "x"
      lo ← needed (arg "min" args) "`between` needs `min`" "min"
      hi ← needed (arg "max" args) "`between` needs `max`" "max"
      value (truth (less_equal lo x && less_equal x hi))

    abbrev pub angle_of : Option (ArgVal F) → Option (ArgVal F) → Eval F
    angle_of (some y) (some x) = do a ← as_num "y" y; b ← as_num "x" x; value (atan2 a b)
    angle_of _ _ = binary "arctan2" atan2

    unfoldable pub apply_pure_numeric_op : String → Eval F
    unfolding arg
    apply_pure_numeric_op id =
        if str_eq id "add"
        then binary "add" plus
        else if str_eq id "subtract"
        then binary "subtract" minus
        else if str_eq id "multiply"
        then binary "multiply" times
        else if str_eq id "divide"
        then divided
        else if str_eq id "power"
        then powered
        else if str_eq id "absolute" || str_eq id "abs"
        then unary "absolute" abs
        else if str_eq id "ln"
        then unary "ln" ln
        else if str_eq id "log"
        then logarithm
        else if str_eq id "exp"
        then unary "exp" exp
        else if str_eq id "eq"
        then binary "eq" (λ x y. truth (less (abs (minus x y)) epsilon_9))
        else if str_eq id "neq"
        then binary "neq" (λ x y. truth (less_equal epsilon_9 (abs (minus x y))))
        else if str_eq id "lt"
        then binary "lt" (λ x y. truth (less x y))
        else if str_eq id "lte"
        then binary "lte" (λ x y. truth (less_equal x y))
        else if str_eq id "gt"
        then binary "gt" (λ x y. truth (less y x))
        else if str_eq id "gte"
        then binary "gte" (λ x y. truth (less_equal y x))
        else if str_eq id "and"
        then binary "and" (λ x y. truth (not (is_zero x) && not (is_zero y)))
        else if str_eq id "or"
        then binary "or" (λ x y. truth (not (is_zero x) || not (is_zero y)))
        else if str_eq id "not"
        then unary "not" (λ x. truth (is_zero x))
        else if str_eq id "max"
        then binary "max" maximum
        else if str_eq id "min"
        then binary "min" minimum
        else if str_eq id "clip"
        then clipped
        else if str_eq id "linear_scale_range"
        then scaled
        else if str_eq id "mod"
        then binary "mod" (λ x y. minus x (times y (floor (over x y))))
        else if str_eq id "sgn" || str_eq id "sign"
        then unary "sgn" signum
        else if str_eq id "floor"
        then unary "floor" floor
        else if str_eq id "ceil"
        then unary "ceil" ceil
        else if str_eq id "int"
        then unary "int" trunc
        else if str_eq id "round"
        then rounded
        else if str_eq id "sqrt"
        then unary "sqrt" sqrt
        else if str_eq id "normalized_difference"
        then normalized
        else if str_eq id "between"
        then within
        else if str_eq id "cos"
        then unary "cos" cos
        else if str_eq id "sin"
        then unary "sin" sin
        else if str_eq id "tan"
        then unary "tan" tan
        else if str_eq id "arccos"
        then unary "arccos" acos
        else if str_eq id "arcsin"
        then unary "arcsin" asin
        else if str_eq id "arctan"
        then unary "arctan" atan
        else if str_eq id "arctan2"
        then angle_of (arg "y" args) (arg "x" args)
        else refuse ("unsupported sub-process `" <> id <> "`")
