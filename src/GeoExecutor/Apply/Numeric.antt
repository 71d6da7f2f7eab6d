-- ===== src/GeoExecutor/Apply/Numeric.antt =====
-- What the callbacks take from f64, and how they end.
use open_eo_ru_stac.Prelude.{Bool, String, Option, none, some, Result, ok, err}
use open_eo_ru_stac.Json.{Number, Value}
use open_eo_ru_stac.JobRunner.{ExecError}

-- The result of an evaluation, its error, a panic, or the end of the fuel.
pub data Eval (A : Type 0) : Type 0 where
  value : A → Eval A
  failed : ExecError → Eval A
  panicked exhausted : Eval A

infixl 5 ◌>>=◌
abbrev pub ◌>>=◌ : {A B : Type 0} → Eval A → (A → Eval B) → Eval B
value a >>= f = f a
failed e >>= f = failed e
panicked >>= f = panicked
exhausted >>= f = exhausted

-- `ok_or_else(..)?`, and `?` alone.
abbrev pub require : {A : Type 0} → ExecError → Option A → Eval A
require e none = failed e
require e (some a) = value a

abbrev pub lift : {A : Type 0} → Result A ExecError → Eval A
lift (ok a) = value a
lift (err e) = failed e

pub record Arithmetic (F : Type 0) : Type 0 where
  pub as_f64 : Number → F
  pub zero_point : F
  pub one_point : F
  pub epsilon_9 : F
  pub epsilon_12 : F
  pub plus : F → F → F
  pub minus : F → F → F
  pub times : F → F → F
  pub over : F → F → F
  pub powf : F → F → F
  pub log_base : F → F → F
  pub maximum : F → F → F
  pub minimum : F → F → F
  pub atan2 : F → F → F
  pub abs : F → F
  pub ln : F → F
  pub exp : F → F
  pub signum : F → F
  pub floor : F → F
  pub ceil : F → F
  pub trunc : F → F
  pub sqrt : F → F
  pub cos : F → F
  pub sin : F → F
  pub tan : F → F
  pub acos : F → F
  pub asin : F → F
  pub atan : F → F
  -- `round_ties_even`, and `10f64.powi(p as i32)`.
  pub round_ties_even : F → F
  pub powi_10 : F → F
  pub is_zero : F → Bool
  pub less : F → F → Bool
  pub less_equal : F → F → Bool
  -- `clamp` panics unless `min <= max`.
  pub clamp : F → F → F → Option F
  -- The text of a JSON value.
  pub show : Value → String
