-- ===== src/GeoExecutor/Handlers.antt =====
-- geo_executor/registry.rs: the handlers, one for each struct, and `register_defaults`. The methods
-- of `GeoExecutor` that work on rasters are a parameter.
pub mod Operands
pub mod Callbacks
use open_eo_ru_stac.Prelude.{
  Bool, true, false, String, Option, none, some, List, [], ◌∷◌, str_eq, if◌then◌else◌, Result, ok,
  err,
}
use open_eo_ru_stac.Json.{Value, null, string, object, Fields, closed, field, get_field}
use open_eo_ru_stac.JobRunner.{ExecError}
use open_eo_ru_stac.GeoExecutor.SubGraph.{as_text}
use open_eo_ru_stac.GeoExecutor.Registry.{ProcessRegistry, register}
use open_eo_ru_stac.GeoExecutor.Apply.Numeric.{Eval, value, failed, panicked, exhausted, Arithmetic}
use open_eo_ru_stac.GeoExecutor.Arrays.{
  ArrayOps, array_element, array_create, array_concat, array_append, array_contains, array_find,
  count, order, sort, or_default,
}
use open_eo_ru_stac.GeoExecutor.Scalars.{
  ScalarOps, unary_num_handler, binary_num_handler, cmp_handler, mod_of, eq_handler, neq_handler,
  log_handler, round_handler, clip_handler, normalized_difference_handler, between_handler,
  and_handler, or_handler, xor_handler, not_handler, divide_handler,
}

-- The structs that `async_handler!` and `sync_handler!` make.
pub data RasterHandler : Type 0 where
  load_collection ndvi mask mask_from_values mask_scl_dilation reduce_dimension : RasterHandler
  resample_spatial zonal_histogram aggregate_spatial_polygon : RasterHandler
  aggregate_spatial_point merge_cubes aggregate_spatial fit_classifier : RasterHandler
  predict_classifier filter_temporal filter_spatial filter_bbox filter_bands : RasterHandler
  rename_labels add_dimension drop_dimension : RasterHandler

-- The structs for numbers and truth values.
pub data ScalarHandler : Type 0 where
  add subtract multiply divide absolute sqrt exp ln log power sgn floor ceil int : ScalarHandler
  round mod_handler clip normalized_difference cos sin tan arccos arcsin arctan : ScalarHandler
  arctan2 eq neq gt gte lt lte between and or xor not_handler' : ScalarHandler

-- Those that `array_fn_handler!` makes.
pub data ArrayHandler : Type 0 where
  element create concat append contains find counted ordered sorted : ArrayHandler

pub data Handler : Type 0 where
  raster : RasterHandler → Handler
  scalar : ScalarHandler → Handler
  array_fn : ArrayHandler → Handler
  apply save_result : Handler

abbrev pub defaults : List (String × Handler)
defaults =
    ("load_collection", raster load_collection)
    ∷ ("ndvi", raster ndvi)
    ∷ ("mask", raster mask)
    ∷ ("mask_from_values", raster mask_from_values)
    ∷ ("mask_scl_dilation", raster mask_scl_dilation)
    ∷ ("reduce_dimension", raster reduce_dimension)
    ∷ ("apply", apply)
    ∷ ("save_result", save_result)
    ∷ ("resample_spatial", raster resample_spatial)
    ∷ ("zonal_histogram", raster zonal_histogram)
    ∷ ("aggregate_spatial_polygon", raster aggregate_spatial_polygon)
    ∷ ("aggregate_spatial_point", raster aggregate_spatial_point)
    ∷ ("merge_cubes", raster merge_cubes)
    ∷ ("aggregate_spatial", raster aggregate_spatial)
    ∷ ("fit_classifier", raster fit_classifier)
    ∷ ("predict_classifier", raster predict_classifier)
    ∷ ("add", scalar add)
    ∷ ("subtract", scalar subtract)
    ∷ ("multiply", scalar multiply)
    ∷ ("divide", scalar divide)
    ∷ ("filter_temporal", raster filter_temporal)
    ∷ ("filter_spatial", raster filter_spatial)
    ∷ ("filter_bbox", raster filter_bbox)
    ∷ ("filter_bands", raster filter_bands)
    ∷ ("rename_labels", raster rename_labels)
    ∷ ("add_dimension", raster add_dimension)
    ∷ ("drop_dimension", raster drop_dimension)
    ∷ ("absolute", scalar absolute)
    ∷ ("sqrt", scalar sqrt)
    ∷ ("exp", scalar exp)
    ∷ ("ln", scalar ln)
    ∷ ("log", scalar log)
    ∷ ("power", scalar power)
    ∷ ("sgn", scalar sgn)
    ∷ ("floor", scalar floor)
    ∷ ("ceil", scalar ceil)
    ∷ ("int", scalar int)
    ∷ ("round", scalar round)
    ∷ ("mod", scalar mod_handler)
    ∷ ("clip", scalar clip)
    ∷ ("normalized_difference", scalar normalized_difference)
    ∷ ("cos", scalar cos)
    ∷ ("sin", scalar sin)
    ∷ ("tan", scalar tan)
    ∷ ("arccos", scalar arccos)
    ∷ ("arcsin", scalar arcsin)
    ∷ ("arctan", scalar arctan)
    ∷ ("arctan2", scalar arctan2)
    ∷ ("eq", scalar eq)
    ∷ ("neq", scalar neq)
    ∷ ("gt", scalar gt)
    ∷ ("gte", scalar gte)
    ∷ ("lt", scalar lt)
    ∷ ("lte", scalar lte)
    ∷ ("between", scalar between)
    ∷ ("and", scalar and)
    ∷ ("or", scalar or)
    ∷ ("xor", scalar xor)
    ∷ ("not", scalar not_handler')
    ∷ ("array_element", array_fn element)
    ∷ ("array_create", array_fn create)
    ∷ ("array_concat", array_fn concat)
    ∷ ("array_append", array_fn append)
    ∷ ("array_contains", array_fn contains)
    ∷ ("array_find", array_fn find)
    ∷ ("count", array_fn counted)
    ∷ ("order", array_fn ordered)
    ∷ ("sort", array_fn sorted)
    ∷ []

-- One `register` for each, in that order.
abbrev pub registered : List (String × Handler) → ProcessRegistry Handler → ProcessRegistry Handler
registered [] r = r
registered ((name, h) ∷ hs) r = registered hs (register name h r)

unfoldable pub register_defaults : ProcessRegistry Handler → ProcessRegistry Handler
unfolding register
register_defaults r = registered defaults r

module _ {F : Type 0} (scalars : ScalarOps F) where
  open scalars.arithmetic use {
    plus, minus, times, abs, signum, trunc, acos, asin, atan, atan2, powf, less, less_equal,
  }

  unfoldable pub handle_scalar : ScalarHandler → Fields → Eval Value
  unfolding unary_num_handler binary_num_handler cmp_handler eq_handler neq_handler log_handler
      round_handler clip_handler normalized_difference_handler between_handler and_handler
      or_handler xor_handler not_handler divide_handler
  handle_scalar add args = binary_num_handler scalars args "x" "y" plus
  handle_scalar subtract args = binary_num_handler scalars args "x" "y" minus
  handle_scalar multiply args = binary_num_handler scalars args "x" "y" times
  handle_scalar divide args = divide_handler scalars args
  handle_scalar absolute args = unary_num_handler scalars args "x" abs
  handle_scalar sqrt args = unary_num_handler scalars args "x" scalars.arithmetic.sqrt
  handle_scalar exp args = unary_num_handler scalars args "p" scalars.arithmetic.exp
  handle_scalar ln args = unary_num_handler scalars args "x" scalars.arithmetic.ln
  handle_scalar log args = log_handler scalars args
  handle_scalar power args = binary_num_handler scalars args "base" "p" powf
  handle_scalar sgn args = unary_num_handler scalars args "x" signum
  handle_scalar floor args = unary_num_handler scalars args "x" scalars.arithmetic.floor
  handle_scalar ceil args = unary_num_handler scalars args "x" scalars.arithmetic.ceil
  handle_scalar int args = unary_num_handler scalars args "x" trunc
  handle_scalar round args = round_handler scalars args
  handle_scalar mod_handler args = binary_num_handler scalars args "x" "y" (mod_of scalars args)
  handle_scalar clip args = clip_handler scalars args
  handle_scalar normalized_difference args = normalized_difference_handler scalars args
  handle_scalar cos args = unary_num_handler scalars args "x" scalars.arithmetic.cos
  handle_scalar sin args = unary_num_handler scalars args "x" scalars.arithmetic.sin
  handle_scalar tan args = unary_num_handler scalars args "x" scalars.arithmetic.tan
  handle_scalar arccos args = unary_num_handler scalars args "x" acos
  handle_scalar arcsin args = unary_num_handler scalars args "x" asin
  handle_scalar arctan args = unary_num_handler scalars args "x" atan
  handle_scalar arctan2 args = binary_num_handler scalars args "y" "x" atan2
  handle_scalar eq args = eq_handler scalars args
  handle_scalar neq args = neq_handler scalars args
  handle_scalar gt args = cmp_handler scalars args (λ x y. less y x)
  handle_scalar gte args = cmp_handler scalars args (λ x y. less_equal y x)
  handle_scalar lt args = cmp_handler scalars args less
  handle_scalar lte args = cmp_handler scalars args less_equal
  handle_scalar between args = between_handler scalars args
  handle_scalar and args = and_handler scalars args
  handle_scalar or args = or_handler scalars args
  handle_scalar xor args = xor_handler scalars args
  handle_scalar not_handler' args = not_handler scalars args

module _ {F : Type 0} (arrays : ArrayOps F) where
  unfoldable pub handle_array : ArrayHandler → Fields → Result Value ExecError
  unfolding array_element array_create array_concat array_append array_contains array_find count
      order sort
  handle_array element args = array_element args
  handle_array create args = array_create args
  handle_array concat args = array_concat args
  handle_array append args = array_append args
  handle_array contains args = array_contains arrays args
  handle_array find args = array_find arrays args
  handle_array counted args = count args
  handle_array ordered args = order arrays args
  handle_array sorted args = sort arrays args

abbrev pub settled : {W : Type 0} → W → Eval Value → Option (Result Value ExecError × W)
settled w (value v) = some (ok v, w)
settled w (failed e) = some (err e, w)
settled w panicked = none
settled w exhausted = none

abbrev pub saved : String → Value → Value
saved format data_ =
    if str_eq format ""
    then data_
    else object (
        field "__save_result" (object (field "data" data_ (field "format" (string format) closed)))
          closed)

module _ {F W : Type 0} (scalars : ScalarOps F) (arrays : ArrayOps F)
    (methods : RasterHandler → Fields → W → Option (Result Value ExecError × W))
    (eval_apply : Fields → W → Option (Result Value ExecError × W)) where
  abbrev pub applied_to : Option Value → Fields → W → Option (Result Value ExecError × W)
  applied_to (some p) args w = eval_apply args w
  applied_to none args w = some (ok (or_default null (get_field "data" args)), w)

  unfoldable pub handle : Handler → Fields → W → Option (Result Value ExecError × W)
  unfolding handle_scalar handle_array get_field
  handle (raster h) args w = methods h args w
  handle (scalar h) args w = settled w (handle_scalar scalars h args)
  handle (array_fn h) args w = some (handle_array arrays h args, w)
  handle apply args w = applied_to (get_field "process" args) args w
  handle save_result args w = some (
    ok (
        saved (or_default "" (as_text (get_field "format" args)))
          (or_default null (get_field "data" args))),
    w,
  )
