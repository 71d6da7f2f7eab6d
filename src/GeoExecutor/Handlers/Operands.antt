-- ===== src/GeoExecutor/Handlers/Operands.antt =====
-- Operands that a process of the registry and one of a callback take alike.
use open_eo_ru_stac.Prelude.{◌≡◌, refl, Bool, String, Option, none, some, []}
use open_eo_ru_stac.Json.{Value, bool, number, Number, Fields, closed, get_field}
use open_eo_ru_stac.JobRunner.{ExecError}
use open_eo_ru_stac.GeoExecutor.Apply.Numeric.{Eval, value, failed, panicked, ◌>>=◌, require}
use open_eo_ru_stac.GeoExecutor.Apply.Kernel.{
  ArgVal, num, Args, arg, two_of, one_of, needed, or_else, unwrapped, truth, angle_of,
}
use open_eo_ru_stac.GeoExecutor.Scalars.{ScalarOps, as_number}

module _ {F : Type 0} (scalars : ScalarOps F) where
  open scalars use {arithmetic, value_of}

  -- An argument is missing on both sides, or a number on both.
  pub data SameArg : Option Value → Option (ArgVal F) → Type 0 where
    absent : SameArg none none
    present : (n : Number) → SameArg (some (number n)) (some (num (arithmetic.as_f64 n)))

  abbrev pub SameArgs : Fields → Args F → Type 0
  SameArgs args cargs = (k : String) → SameArg (get_field k args) (arg k cargs)

  -- A process of the registry and one of a callback come to the same: to one number, to a truth value
  -- and the number that stands for it, both to an error, or both to a panic.
  pub data Alike : Eval Value → Eval F → Type 0 where
    same_number : (v : F) → Alike (value (value_of v)) (value v)
    same_truth : (b : Bool) → Alike (value (bool b)) (value (truth arithmetic [] b))
    both_failed : (e e' : ExecError) → Alike (failed e) (failed e')
    both_panicked : Alike panicked panicked

  pub Alike-two :
      (e e' : ExecError) (who : String) (ox oy : Option Value) (cx cy : Option (ArgVal F))
      (f : F → F → Eval Value) (g : F → F → Eval F)
      → SameArg ox cx
      → SameArg oy cy
      → ((a b : F) → Alike (f a b) (g a b))
      → Alike
          (do
            x ← require e (as_number scalars closed ox)
            y ← require e' (as_number scalars closed oy)
            f x y)
          (do (x, y) ← two_of who cx cy none; g x y)
  Alike-two e e' who ox oy cx cy f g absent absent k = both_failed _ _
  Alike-two e e' who ox oy cx cy f g absent (present n) k = both_failed _ _
  Alike-two e e' who ox oy cx cy f g (present m) absent k = both_failed _ _
  Alike-two e e' who ox oy cx cy f g (present m) (present n) k =
      k (arithmetic.as_f64 m) (arithmetic.as_f64 n)

  pub Alike-one :
      (e : ExecError) (who : String) (ox : Option Value) (cx : Option (ArgVal F))
      (f : F → Eval Value) (g : F → Eval F)
      → SameArg ox cx
      → ((a : F) → Alike (f a) (g a))
      → Alike (do x ← require e (as_number scalars closed ox); f x) (do x ← one_of who cx none; g x)
  Alike-one e who ox cx f g absent k = both_failed _ _
  Alike-one e who ox cx f g (present m) k = k (arithmetic.as_f64 m)

  -- One operand that is read by its name on both sides.
  pub Alike-needed :
      (e : ExecError) (text who : String) (ox : Option Value) (cx : Option (ArgVal F))
      (f : F → Eval Value) (g : F → Eval F)
      → SameArg ox cx
      → ((a : F) → Alike (f a) (g a))
      → Alike (do x ← require e (as_number scalars closed ox); f x) (do x ← needed cx text who; g x)
  Alike-needed e text who ox cx f g absent k = both_failed _ _
  Alike-needed e text who ox cx f g (present m) k = k (arithmetic.as_f64 m)

  pub or_else-none : (cx : Option (ArgVal F)) → or_else cx none ≡ cx
  or_else-none none = refl
  or_else-none (some v) = refl

  pub Alike-clamped : (r : Option F) → Alike (do v ← unwrapped r; value (value_of v)) (unwrapped r)
  Alike-clamped none = both_panicked
  Alike-clamped (some v) = same_number v

  pub Alike-angle :
      (e e' : ExecError) (args : Args F) (ox oy : Option Value) (cx cy : Option (ArgVal F))
      → SameArg ox cx
      → SameArg oy cy
      → arg "x" args ≡ cx
      → arg "y" args ≡ cy
      → arg "data" args ≡ none
      → Alike
          (do
            y ← require e (as_number scalars closed oy)
            x ← require e' (as_number scalars closed ox)
            value (value_of (arithmetic.atan2 y x)))
          (angle_of arithmetic args cy cx)
  Alike-angle e e' args ox oy cx cy (present m) (present n) hx hy hd = same_number _
  Alike-angle e e' args ox oy cx cy absent absent hx hy hd = rw (hx, hd) (both_failed _ _)
  Alike-angle e e' args ox oy cx cy absent (present n) hx hy hd = rw (hx, hd) (both_failed _ _)
  Alike-angle e e' args ox oy cx cy (present m) absent hx hy hd = rw (hx, hy, hd) (both_failed _ _)
