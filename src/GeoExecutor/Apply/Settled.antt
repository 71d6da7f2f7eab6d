-- ===== src/GeoExecutor/Apply/Settled.antt =====
-- The kernel takes no fuel: its result is a value, an error or a panic.
use open_eo_ru_stac.Prelude.{Bool, true, false, String, Option, none, some, [], ◌∷◌, if◌then◌else◌}
use open_eo_ru_stac.JobRunner.{ExecError}
use open_eo_ru_stac.GeoExecutor.Apply.Numeric.{
  Eval, value, failed, panicked, ◌>>=◌, require, Arithmetic,
}
use open_eo_ru_stac.GeoExecutor.Apply.Kernel.{
  ArgVal, num, arr, Args, as_num, as_pair, two_of, one_of, needed, optional, unwrapped, binary,
  unary, divided, powered, logarithm, clipped, scaled, rounded, normalized, within, angle_of,
  apply_pure_numeric_op,
}

pub data Settled {A : Type 0} : Eval A → Type 0 where
  is_value : (a : A) → Settled (value a)
  is_failed : (e : ExecError) → Settled (failed e)
  is_panicked : Settled panicked

Settled-bind :
    {A B : Type 0} (r : Eval A) (f : A → Eval B)
    → Settled r
    → ((a : A) → Settled (f a))
    → Settled (r >>= f)
Settled-bind r f (is_value a) k = k a
Settled-bind r f (is_failed e) k = is_failed e
Settled-bind r f is_panicked k = is_panicked

Settled-if :
    {A : Type 0} (b : Bool) (p q : Eval A) → Settled p → Settled q → Settled (if b then p else q)
Settled-if true p q s t = s
Settled-if false p q s t = t

Settled-require : {A : Type 0} (e : ExecError) (o : Option A) → Settled (require e o)
Settled-require e none = is_failed e
Settled-require e (some a) = is_value a

module _ {F : Type 0} where
  as_num-Settled : (who : String) (v : ArgVal F) → Settled (as_num who v)
  as_num-Settled who (num n) = is_value n
  as_num-Settled who (arr v) = is_failed _

  as_pair-Settled : (who : String) (v : ArgVal F) → Settled (as_pair who v)
  as_pair-Settled who (num n) = is_failed _
  as_pair-Settled who (arr []) = is_failed _
  as_pair-Settled who (arr (a ∷ [])) = is_failed _
  as_pair-Settled who (arr (a ∷ b ∷ [])) = is_value (a, b)
  as_pair-Settled who (arr (a ∷ b ∷ c ∷ v)) = is_failed _

  two_of-Settled : (who : String) (x y d : Option (ArgVal F)) → Settled (two_of who x y d)
  two_of-Settled who (some x) (some y) d =
      Settled-bind _ _ (as_num-Settled "x" x)
        (λ a. Settled-bind _ _ (as_num-Settled "y" y) (λ b. is_value (a, b)))
  two_of-Settled who (some x) none (some d) = as_pair-Settled who d
  two_of-Settled who none y (some d) = as_pair-Settled who d
  two_of-Settled who (some x) none none = is_failed _
  two_of-Settled who none y none = is_failed _

  one_of-Settled : (who : String) (x d : Option (ArgVal F)) → Settled (one_of who x d)
  one_of-Settled who (some x) d = as_num-Settled "x" x
  one_of-Settled who none (some d) = as_num-Settled "data" d
  one_of-Settled who none none = is_failed _

  needed-Settled : (o : Option (ArgVal F)) (text who : String) → Settled (needed o text who)
  needed-Settled o text who = Settled-bind _ _ (Settled-require _ o) (λ v. as_num-Settled who v)

  optional-Settled : (o : Option (ArgVal F)) (who : String) (d : F) → Settled (optional o who d)
  optional-Settled none who d = is_value d
  optional-Settled (some v) who d = as_num-Settled who v

  unwrapped-Settled : (o : Option F) → Settled (unwrapped o)
  unwrapped-Settled none = is_panicked
  unwrapped-Settled (some r) = is_value r

  module _ (ops : Arithmetic F) (args : Args F) where
    ruleset settles = (
      Settled-bind, Settled-if, two_of-Settled, one_of-Settled, needed-Settled, optional-Settled,
      unwrapped-Settled, as_num-Settled, is_value, is_failed,
    )

    binary-Settled : (who : String) (f : F → F → F) → Settled (binary ops args who f)
    binary-Settled who f = search settles

    unary-Settled : (who : String) (f : F → F) → Settled (unary ops args who f)
    unary-Settled who f = search settles

    divided-Settled : Settled (divided ops args)
    divided-Settled = search settles

    normalized-Settled : Settled (normalized ops args)
    normalized-Settled = search settles

    powered-Settled : Settled (powered ops args)
    powered-Settled = search settles

    logarithm-Settled : Settled (logarithm ops args)
    logarithm-Settled = search settles

    clipped-Settled : Settled (clipped ops args)
    clipped-Settled = search settles

    scaled-Settled : Settled (scaled ops args)
    scaled-Settled = search settles depth 9

    rounded-Settled : Settled (rounded ops args)
    rounded-Settled = search settles

    within-Settled : Settled (within ops args)
    within-Settled = search settles

    angle_of-Settled : (y x : Option (ArgVal F)) → Settled (angle_of ops args y x)
    angle_of-Settled (some y) (some x) = search settles
    angle_of-Settled (some y) none = binary-Settled "arctan2" ops.atan2
    angle_of-Settled none x = binary-Settled "arctan2" ops.atan2

    pub apply_pure_numeric_op-Settled : (id : String) → Settled (apply_pure_numeric_op ops args id)
    unfolding apply_pure_numeric_op
    apply_pure_numeric_op-Settled id =
        search
          (
            Settled-if, binary-Settled, unary-Settled, divided-Settled, powered-Settled,
            logarithm-Settled, clipped-Settled, scaled-Settled, rounded-Settled, normalized-Settled,
            within-Settled, angle_of-Settled, is_failed,
          )
          depth 60 fits 60000
