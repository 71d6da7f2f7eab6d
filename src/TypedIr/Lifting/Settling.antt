-- ===== src/TypedIr/Lifting/Settling.antt =====
-- The reading of arguments ends with a value or an error.
use open_eo_ru_stac.Prelude.{◌≡◌, refl, String, Option, none, some}
use open_eo_ru_stac.Json.{Value, null, bool, number, string, array, object, empty, item, Fields}
use open_eo_ru_stac.TypedIr.{
  IrError, Lifted, value, failed, ◌>>=◌, require, transposed, temporal_extent, arg, data_arg,
  or_arg, req_arg, str_arg, IrOps, num_field, bbox,
}

pub data Ends {A : Type 0} (P : A → Type 0) : Lifted A → Type 0 where
  gives : (a : A) → P a → Ends P (value a)
  fails : (e : IrError) → Ends P (failed e)

abbrev pub Settles : {A : Type 0} → Lifted A → Type 0
Settles r = Ends (λ a. a ≡ a) r

pub bind-Ends :
    {A B : Type 0} {P : B → Type 0} (r : Lifted A) (f : A → Lifted B)
    → Settles r
    → ((a : A) → Ends P (f a))
    → Ends P (r >>= f)
bind-Ends r f (gives a same) ends = ends a
bind-Ends r f (fails e) ends = fails e

pub require-Settles : {A : Type 0} (e : IrError) (o : Option A) → Settles (require e o)
require-Settles e none = fails e
require-Settles e (some a) = gives a refl

pub transposed-Settles :
    {A : Type 0} (f : Value → Lifted A) (o : Option Value)
    → ((v : Value) → Settles (f v))
    → Settles (transposed f o)
transposed-Settles f none ends = gives none refl
transposed-Settles f (some v) ends = bind-Ends (f v) _ (ends v) (λ a. gives (some a) refl)

pub temporal_extent-Settles : (v : Value) → Settles (temporal_extent v)
unfolding temporal_extent
temporal_extent-Settles (array (item s (item e empty))) = gives _ refl
temporal_extent-Settles (array empty) = fails _
temporal_extent-Settles (array (item s empty)) = fails _
temporal_extent-Settles (array (item s (item e (item v vs)))) = fails _
temporal_extent-Settles null = fails _
temporal_extent-Settles (bool b) = fails _
temporal_extent-Settles (number n) = fails _
temporal_extent-Settles (string s) = fails _
temporal_extent-Settles (object fs) = fails _

pub arg-Settles : (args : Fields) (key : String) → Settles (arg args key)
unfolding arg
arg-Settles args key = require-Settles _ _

pub data_arg-Settles : (args : Fields) → Settles (data_arg args)
unfolding data_arg
data_arg-Settles args = arg-Settles args "data"

pub or_arg-Settles :
    (args : Fields) (key other : String) → Settles (or_arg (arg args key) (arg args other))
or_arg-Settles args key other = chosen (arg args key) (arg-Settles args key)
  where
    chosen : (r : Lifted _) → Settles r → Settles (or_arg r (arg args other))
    chosen r (gives a same) = gives a refl
    chosen r (fails e) = arg-Settles args other

pub req_arg-Settles : (pid : String) (args : Fields) (key : String) → Settles (req_arg pid args key)
unfolding req_arg
req_arg-Settles pid args key = require-Settles _ _

pub str_arg-Settles : (pid : String) (args : Fields) (key : String) → Settles (str_arg pid args key)
unfolding str_arg
str_arg-Settles pid args key =
    bind-Ends _ _ (req_arg-Settles pid args key) (λ v. require-Settles _ _)

module _ {F : Type 0} (ops : IrOps F) where
  num_field-Settles : (v : Value) (k : String) → Settles (num_field ops v k)
  unfolding num_field
  num_field-Settles v k = require-Settles _ _

  pub bbox-Settles : (v : Value) → Settles (bbox ops v)
  unfolding bbox
  bbox-Settles v = bind-Ends _ _ (num_field-Settles v "west") (λ west.
      bind-Ends _ _ (num_field-Settles v "south") (λ south.
        bind-Ends _ _ (num_field-Settles v "east")
          (λ east. bind-Ends _ _ (num_field-Settles v "north") (λ north. gives _ refl))))
