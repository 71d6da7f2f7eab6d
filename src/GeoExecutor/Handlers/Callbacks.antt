-- ===== src/GeoExecutor/Handlers/Callbacks.antt =====
-- The processes that stand both in the registry and in the kernel of the callbacks.
use open_eo_ru_stac.Prelude.{
  ◌≡◌, refl, Bool, true, false, ◌&&◌, String, Option, none, if◌then◌else◌,
}
use open_eo_ru_stac.Json.{Value, Fields, get_field}
use open_eo_ru_stac.JobRunner.{invalid_graph, per_pixel_computation}
use open_eo_ru_stac.GeoExecutor.Apply.Numeric.{value, failed, ◌>>=◌}
use open_eo_ru_stac.GeoExecutor.Apply.Kernel.{
  ArgVal, Args, arg, two_of, one_of, truth, angle_of, divided, normalized, clipped, within,
  apply_pure_numeric_op,
}
use open_eo_ru_stac.GeoExecutor.Arrays.{as_bool, or_default}
use open_eo_ru_stac.GeoExecutor.Scalars.{
  ScalarOps, mod_of, unary_num_handler, binary_num_handler, cmp_handler, divide_handler,
  clip_handler, normalized_difference_handler, between_handler,
}
use open_eo_ru_stac.GeoExecutor.Handlers.Operands.{
  SameArg, absent, present, SameArgs, Alike, same_number, same_truth, both_failed, Alike-two,
  Alike-one, Alike-needed, or_else-none, Alike-clamped, Alike-angle,
}
use open_eo_ru_stac.GeoExecutor.Handlers.{
  ScalarHandler, add, subtract, multiply, divide, absolute, sqrt, exp, ln, log, power, sgn, floor,
  ceil, int, round, mod_handler, clip, normalized_difference, cos, sin, tan, arccos, arcsin, arctan,
  arctan2, eq, neq, gt, gte, lt, lte, between, and, or, xor, not_handler', handle_scalar,
}

-- The processes that take their numbers by the same names on both sides and compute the same.
abbrev pub IsShared : ScalarHandler → Type 0
IsShared exp = ⊥
IsShared log = ⊥
IsShared power = ⊥
IsShared round = ⊥
IsShared eq = ⊥
IsShared neq = ⊥
IsShared and = ⊥
IsShared or = ⊥
IsShared xor = ⊥
IsShared not_handler' = ⊥
IsShared _ = Unit {0}

-- The name under which a callback calls the process.
abbrev pub callback_name : ScalarHandler → String
callback_name add = "add"
callback_name subtract = "subtract"
callback_name multiply = "multiply"
callback_name divide = "divide"
callback_name absolute = "absolute"
callback_name sqrt = "sqrt"
callback_name ln = "ln"
callback_name sgn = "sgn"
callback_name floor = "floor"
callback_name ceil = "ceil"
callback_name int = "int"
callback_name mod_handler = "mod"
callback_name clip = "clip"
callback_name normalized_difference = "normalized_difference"
callback_name cos = "cos"
callback_name sin = "sin"
callback_name tan = "tan"
callback_name arccos = "arccos"
callback_name arcsin = "arcsin"
callback_name arctan = "arctan"
callback_name arctan2 = "arctan2"
callback_name gt = "gt"
callback_name gte = "gte"
callback_name lt = "lt"
callback_name lte = "lte"
callback_name between = "between"
callback_name _ = ""

module _ {F : Type 0} (scalars : ScalarOps F) where
  open scalars use {arithmetic, value_of}

  module _ (args : Fields) (cargs : Args F) (same : SameArgs scalars args cargs)
      (unnamed : arg "data" cargs ≡ none) where
    two_numbers :
        (who : String) (f : F → F → F)
        → Alike scalars (binary_num_handler scalars args "x" "y" f) (do
          (x, y) ← two_of who (arg "x" cargs) (arg "y" cargs) (arg "data" cargs)
          value (f x y))
    unfolding binary_num_handler
    two_numbers who f = rw unnamed (
        Alike-two scalars _ _ who (get_field "x" args) (get_field "y" args) (arg "x" cargs)
          (arg "y" cargs) _ _ (same "x") (same "y") (λ a b. same_number (f a b)))

    two_compared :
        (who : String) (f : F → F → Bool)
        → Alike scalars (cmp_handler scalars args f) (do
          (x, y) ← two_of who (arg "x" cargs) (arg "y" cargs) (arg "data" cargs)
          value (truth arithmetic cargs (f x y)))
    unfolding cmp_handler
    two_compared who f = rw unnamed (
        Alike-two scalars _ _ who (get_field "x" args) (get_field "y" args) (arg "x" cargs)
          (arg "y" cargs) _ _ (same "x") (same "y") (λ a b. same_truth (f a b)))

    one_number :
        (who : String) (f : F → F)
        → Alike scalars
            (unary_num_handler scalars args "x" f)
            (do x ← one_of who (arg "x" cargs) (arg "data" cargs); value (f x))
    unfolding unary_num_handler
    one_number who f = rw unnamed (
        Alike-one scalars _ who (get_field "x" args) (arg "x" cargs) _ _ (same "x")
          (λ a. same_number (f a)))

    divided-Alike : Alike scalars (divide_handler scalars args) (divided arithmetic cargs)
    unfolding divide_handler
    divided-Alike = rw unnamed (
        Alike-two scalars _ _ "divide" (get_field "x" args) (get_field "y" args) (arg "x" cargs)
          (arg "y" cargs) _ _ (same "x") (same "y") (λ a b. branch a b (arithmetic.is_zero b)))
      where
        branch :
            (a b : F) (t : Bool)
            → Alike scalars
                (if t
                  then failed (invalid_graph "divide: y must be non-zero")
                  else value (value_of (arithmetic.over a b)))
                (if t
                  then failed (per_pixel_computation "apply: divide by zero")
                  else value (arithmetic.over a b))
        branch a b true = both_failed _ _
        branch a b false = same_number _

    normalized-Alike :
        Alike scalars (normalized_difference_handler scalars args) (normalized arithmetic cargs)
    unfolding normalized_difference_handler
    normalized-Alike = rw unnamed (
        Alike-two scalars _ _ "normalized_difference" (get_field "x" args) (get_field "y" args)
          (arg "x" cargs) (arg "y" cargs) _ _ (same "x") (same "y")
          (λ a b. branch a b (arithmetic.is_zero (arithmetic.plus a b))))
      where
        branch :
            (a b : F) (t : Bool)
            → Alike scalars
                (if t
                  then failed (invalid_graph "normalized_difference: x + y == 0")
                  else value
                      (value_of (arithmetic.over (arithmetic.minus a b) (arithmetic.plus a b))))
                (if t
                  then failed (per_pixel_computation "apply: normalized_difference x + y == 0")
                  else value (arithmetic.over (arithmetic.minus a b) (arithmetic.plus a b)))
        branch a b true = both_failed _ _
        branch a b false = same_number _

    clipped-Alike : Alike scalars (clip_handler scalars args) (clipped arithmetic cargs)
    unfolding clip_handler
    clipped-Alike =
        rw (unnamed, or_else-none)
          (Alike-needed scalars _ "`clip` needs `x` or `data`" "x" (get_field "x" args)
            (arg "x" cargs) _ _ (same "x")
            (λ x.
              Alike-needed scalars _ "`clip` needs `min`" "min" (get_field "min" args)
                (arg "min" cargs) _ _ (same "min")
                (λ lo.
                  Alike-needed scalars _ "`clip` needs `max`" "max" (get_field "max" args)
                    (arg "max" cargs) _ _ (same "max")
                    (λ hi. Alike-clamped scalars (arithmetic.clamp x lo hi)))))

    -- A number is no truth value, so the bound is not excluded.
    included :
        (o : Option Value) (c : Option (ArgVal F))
        → SameArg scalars o c
        → or_default false (as_bool o) ≡ false
    included o c absent = refl
    included o c (present n) = refl

    within-Alike : Alike scalars (between_handler scalars args) (within arithmetic cargs)
    unfolding between_handler
    within-Alike =
        rw
          (
            unnamed,
            or_else-none,
            included (get_field "exclude_max" args) (arg "exclude_max" cargs) (same "exclude_max"),
          )
          (Alike-needed scalars _ "`between` needs `x`" "x" (get_field "x" args) (arg "x" cargs) _ _
            (same "x")
            (λ x.
              Alike-needed scalars _ "`between` needs `min`" "min" (get_field "min" args)
                (arg "min" cargs) _ _ (same "min")
                (λ lo.
                  Alike-needed scalars _ "`between` needs `max`" "max" (get_field "max" args)
                    (arg "max" cargs) _ _ (same "max")
                    (λ hi. same_truth (arithmetic.less_equal lo x && arithmetic.less_equal x hi)))))

    angle-Alike :
        Alike scalars
          (binary_num_handler scalars args "y" "x" arithmetic.atan2)
          (angle_of arithmetic cargs (arg "y" cargs) (arg "x" cargs))
    unfolding binary_num_handler
    angle-Alike =
        Alike-angle scalars _ _ cargs (get_field "x" args) (get_field "y" args) (arg "x" cargs)
          (arg "y" cargs) (same "x") (same "y") refl refl unnamed

    -- A process of the registry that a callback has too, given the same numbers by name, and none as
    -- `data`: both come to the same number, or the callback's number stands for the truth value, or
    -- both fail, or both panic. Not among them: `exp`, `log`, `power`, `round`, `eq`, `neq` and the
    -- processes on truth values, which read their arguments or compute otherwise in a callback.
    pub handle_scalar-Alike :
        (h : ScalarHandler)
        → IsShared h
        → Alike scalars
            (handle_scalar scalars h args)
            (apply_pure_numeric_op arithmetic cargs (callback_name h))
    unfolding handle_scalar apply_pure_numeric_op
    handle_scalar-Alike add s = two_numbers "add" arithmetic.plus
    handle_scalar-Alike subtract s = two_numbers "subtract" arithmetic.minus
    handle_scalar-Alike multiply s = two_numbers "multiply" arithmetic.times
    handle_scalar-Alike divide s = divided-Alike
    handle_scalar-Alike absolute s = one_number "absolute" arithmetic.abs
    handle_scalar-Alike sqrt s = one_number "sqrt" arithmetic.sqrt
    handle_scalar-Alike ln s = one_number "ln" arithmetic.ln
    handle_scalar-Alike sgn s = one_number "sgn" arithmetic.signum
    handle_scalar-Alike floor s = one_number "floor" arithmetic.floor
    handle_scalar-Alike ceil s = one_number "ceil" arithmetic.ceil
    handle_scalar-Alike int s = one_number "int" arithmetic.trunc
    handle_scalar-Alike mod_handler s = two_numbers "mod" (mod_of scalars args)
    handle_scalar-Alike clip s = clipped-Alike
    handle_scalar-Alike normalized_difference s = normalized-Alike
    handle_scalar-Alike cos s = one_number "cos" arithmetic.cos
    handle_scalar-Alike sin s = one_number "sin" arithmetic.sin
    handle_scalar-Alike tan s = one_number "tan" arithmetic.tan
    handle_scalar-Alike arccos s = one_number "arccos" arithmetic.acos
    handle_scalar-Alike arcsin s = one_number "arcsin" arithmetic.asin
    handle_scalar-Alike arctan s = one_number "arctan" arithmetic.atan
    handle_scalar-Alike arctan2 s = angle-Alike
    handle_scalar-Alike gt s = two_compared "gt" (λ x y. arithmetic.less y x)
    handle_scalar-Alike gte s = two_compared "gte" (λ x y. arithmetic.less_equal y x)
    handle_scalar-Alike lt s = two_compared "lt" arithmetic.less
    handle_scalar-Alike lte s = two_compared "lte" arithmetic.less_equal
    handle_scalar-Alike between s = within-Alike
    handle_scalar-Alike exp s = absurd s
    handle_scalar-Alike log s = absurd s
    handle_scalar-Alike power s = absurd s
    handle_scalar-Alike round s = absurd s
    handle_scalar-Alike eq s = absurd s
    handle_scalar-Alike neq s = absurd s
    handle_scalar-Alike and s = absurd s
    handle_scalar-Alike or s = absurd s
    handle_scalar-Alike xor s = absurd s
    handle_scalar-Alike not_handler' s = absurd s
