-- ===== src/GeoExecutor/Saving.antt =====
-- geo_executor/mod.rs: `run_sync`, and what becomes of the value that a `save_result` node gives. Its
-- `parse_graph` has the same code as that of the local executor, whose definition stands for both.
-- The file system, the encoders and serde_json are parameters; a path is its text.
pub mod Formats
pub mod Paths
pub mod Spec
pub mod Answers
use Prim.Native.String.{◌++◌ as ◌<>◌}
use open_eo_ru_stac.Prelude.{
  ◌>>=◌, ◌>>◌, ℕ, ◌-◌, Bool, true, false, ◌&&◌, ◌||◌, not, String, Option, none, some, List, [],
  ◌∷◌, map, str_eq, leb, ◌==◌, if◌then◌else◌, Result, ok, err,
}
use open_eo_ru_stac.Json.{
  Value, null, number, string, array, object, Number, Items, empty, item, Fields, closed, field,
  get, get_field,
}
use open_eo_ru_stac.JobRunner.{ExecError, backend_fault, SyncResult}
use open_eo_ru_stac.ProcessGraph.{Node, DiGraph}
use open_eo_ru_stac.LocalExecutor.Requests.{Codec, json, parse_graph}
use open_eo_ru_stac.FileStore.{codes}
use open_eo_ru_stac.GeoExecutor.SubGraph.{as_object, as_text}
use open_eo_ru_stac.GeoExecutor.Registry.{ProcessRegistry}
use open_eo_ru_stac.GeoExecutor.Evaluator.{evaluate}

pub data OutputFormat : Type 0 where
  gtiff cog json_text png net_cdf : OutputFormat

-- `to_ascii_uppercase`, on codes.
abbrev pub upper : ℕ → ℕ
upper c = if leb 97 c && leb c 122 then c - 32 else c

abbrev pub same_codes : List ℕ → List ℕ → Bool
same_codes [] [] = true
same_codes (x ∷ xs) (y ∷ ys) = (x == y) && same_codes xs ys
same_codes _ _ = false

abbrev pub is_named : List ℕ → String → Bool
is_named s name = same_codes s (codes name)

abbrev pub format_named : List ℕ → OutputFormat
format_named s =
    if is_named s "GTIFF" || is_named s "TIFF" || is_named s "GEOTIFF"
    then gtiff
    else if is_named s "COG" || is_named s "CLOUD_OPTIMIZED_GEOTIFF"
    then cog
    else if is_named s "JSON"
    then json_text
    else if is_named s "PNG"
    then png
    else if is_named s "NETCDF" || is_named s "NC"
    then net_cdf
    else gtiff

unfoldable pub parse : String → OutputFormat
unfolding codes
parse s = format_named (map upper (codes s))

unfoldable pub media_type : OutputFormat → String
media_type gtiff = "image/tiff"
media_type cog = "image/tiff"
media_type net_cdf = "image/tiff"
media_type json_text = "application/json"
media_type png = "image/png"

abbrev pub or_value : Option Value → Value → Value
or_value none d = d
or_value (some v) d = v

abbrev pub is_present : Option Value → Bool
is_present none = false
is_present (some v) = true

abbrev pub is_number : Value → Bool
is_number (number n) = true
is_number _ = false

abbrev pub format_text : Option String → String
format_text none = "GTiff"
format_text (some s) = s

-- The data and the format that the value asks for.
abbrev pub unwrapped : Value → Option Value → Value × OutputFormat
unwrapped value (some env) =
    (or_value (get "data" env) null, parse (format_text (as_text (get "format" env))))
unwrapped value none = (
  value,
  if is_present (get "__raster" value) then gtiff else if is_number value then gtiff else json_text,
)

abbrev pub index_bands : List String
index_bands = "ndvi" ∷ "ndmi" ∷ "ndwi" ∷ "evi" ∷ "savi" ∷ "msavi" ∷ []

abbrev pub known_band : List String → Fields → Option String
known_band [] bands = none
known_band (k ∷ ks) bands = if is_present (get_field k bands) then some k else known_band ks bands

abbrev pub other_band : Fields → Option String
other_band closed = none
other_band (field k v fs) = if str_eq k "SCL" then other_band fs else some k

abbrev pub or_band : Option String → Option String → Option String
or_band (some k) other = some k
or_band none other = other

abbrev pub first_text : Option Value → Option String
first_text (some (array (item v vs))) = as_text (some v)
first_text _ = none

abbrev pub band_path : Fields → Option String → Option String
band_path bands none = none
band_path bands (some k) = first_text (get_field k bands)

abbrev pub bands_path : Option Fields → Option String
bands_path none = none
bands_path (some bands) =
    band_path bands (or_band (known_band index_bands bands) (other_band bands))

abbrev pub cube_path : Option Value → Option String
cube_path none = none
cube_path (some cube) = bands_path (as_object (get "bands" cube))

abbrev pub raster_path : Option Value → Option Value → Option String
raster_path (some raster) cube = as_text (get "path" raster)
raster_path none cube = cube_path cube

unfoldable pub extract_save_path : Value → Option String
unfolding get get_field
extract_save_path v = raster_path (get "__raster" v) (get "__cube" v)

-- What the saving takes from elsewhere: f64, the file system, and the encoders.
pub record SaveOps (F : Type 0) : Type 0 where
  pub as_f64 : Number → F
  pub zero_point : F
  pub read : String → Result (List ℕ) String
  pub write_float32_tiff_1x1 : F → Result (List ℕ) ExecError
  pub write_png_1x1 : F → Result (List ℕ) ExecError
  -- The task around `raster_to_png_bytes`, and the text of its failure.
  pub raster_to_png : String → Result (Result (List ℕ) ExecError) String

module _ {F : Type 0} (ops : SaveOps F) (codec : Codec) where
  abbrev pub pixel : Value → F
  pixel (number n) = ops.as_f64 n
  pixel _ = ops.zero_point

  abbrev pub body_of : OutputFormat → List ℕ → SyncResult
  body_of format bytes = record { content_type = media_type format; body = bytes }

  abbrev pub read_bytes : String → Result (List ℕ) String → Result (List ℕ) ExecError
  read_bytes path (ok bytes) = ok bytes
  read_bytes path (err e) = err (backend_fault ("save_result: read " <> path <> ": " <> e))

  abbrev pub joined_bytes : Result (Result (List ℕ) ExecError) String → Result (List ℕ) ExecError
  joined_bytes (ok r) = r
  joined_bytes (err e) = err (backend_fault ("save_result PNG join: " <> e))

  abbrev pub tiff_bytes : Value → Option String → Result (List ℕ) ExecError
  tiff_bytes data_ (some path) = read_bytes path (ops.read path)
  tiff_bytes data_ none = ops.write_float32_tiff_1x1 (pixel data_)

  abbrev pub png_bytes : Value → Option String → Result (List ℕ) ExecError
  png_bytes data_ (some path) = joined_bytes (ops.raster_to_png path)
  png_bytes data_ none = ops.write_png_1x1 (pixel data_)

  -- The `match` on the format.
  abbrev pub written : OutputFormat → Value → Result SyncResult ExecError
  written json_text data_ = ok (json codec data_)
  written gtiff data_ = do
    bytes ← tiff_bytes data_ (extract_save_path data_)
    ok (body_of gtiff bytes)
  written cog data_ = do bytes ← tiff_bytes data_ (extract_save_path data_); ok (body_of cog bytes)
  written net_cdf data_ = do
    bytes ← tiff_bytes data_ (extract_save_path data_)
    ok (body_of net_cdf bytes)
  written png data_ = do bytes ← png_bytes data_ (extract_save_path data_); ok (body_of png bytes)

  abbrev pub save : Value × OutputFormat → Result SyncResult ExecError
  save (data_, format) = written format data_

  unfoldable pub finalise_save_result : Value → Result SyncResult ExecError
  unfolding get get_field parse media_type extract_save_path
  finalise_save_result value = save (unwrapped value (get "__save_result" value))

  module _ {H W : Type 0} (registry : ProcessRegistry H)
      (handle : H → Fields → W → Option (Result Value ExecError × W))
      (is_cyclic_directed : DiGraph → Bool) (toposort : DiGraph → Option (List ℕ)) where
    abbrev pub concluded :
        Option (Result (String × Value) ExecError × W) → Option (Result SyncResult ExecError × W)
    concluded none = none
    concluded (some (err e, w)) = some (err e, w)
    concluded (some (ok (process, v), w)) =
        some (if str_eq process "save_result" then finalise_save_result v else ok (json codec v), w)

    abbrev pub run_parsed :
        Result (List Node) ExecError → W → Option (Result SyncResult ExecError × W)
    run_parsed (err e) w = some (err e, w)
    run_parsed (ok nodes) w =
        concluded (evaluate registry handle is_cyclic_directed toposort nodes w)

    unfoldable pub run_sync : Value → W → Option (Result SyncResult ExecError × W)
    unfolding parse_graph evaluate finalise_save_result
    run_sync body w = run_parsed (parse_graph codec body) w
