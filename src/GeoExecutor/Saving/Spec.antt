-- ===== src/GeoExecutor/Saving/Spec.antt =====
-- What saving a value means: the data and the format that the value asks for, and the answer for them.
use Prim.Native.String.{◌++◌ as ◌<>◌}
use open_eo_ru_stac.FileStore.{codes}
use open_eo_ru_stac.Prelude.{
  ℕ, ◌>>=◌, ◌≡◌, ◌≢◌, refl, inl, inr, ◌⊎◌, String, Option, none, some, List, Result, ok, err,
  if◌then◌else◌,
}
use open_eo_ru_stac.Json.{Value, null, bool, number, string, array, object, Number, get}
use open_eo_ru_stac.JobRunner.{ExecError, backend_fault, SyncResult}
use open_eo_ru_stac.LocalExecutor.Requests.{Codec}
use open_eo_ru_stac.GeoExecutor.SubGraph.{as_text}
use open_eo_ru_stac.GeoExecutor.Saving.Paths.{PathOf, extract_save_path-PathOf}
use open_eo_ru_stac.GeoExecutor.Saving.Formats.{Reads, parse-Reads}
use open_eo_ru_stac.GeoExecutor.Saving.{
  OutputFormat, gtiff, cog, json_text, png, net_cdf, parse, format_text, or_value, is_present,
  is_number, media_type, unwrapped, extract_save_path, SaveOps, pixel, read_bytes, joined_bytes,
  tiff_bytes, png_bytes, written, finalise_save_result,
}

-- The format in an envelope: what its text says, or GTiff where there is no text.
pub data Named : Option Value → OutputFormat → Type 0 where
  said : (s : String) (format : OutputFormat) → Reads s format → Named (some (string s)) format
  unsaid : (o : Option Value) → ((s : String) → o ≢ some (string s)) → Named o gtiff

-- The data in an envelope, or null.
pub data Holds : Option Value → Value → Type 0 where
  held : (v : Value) → Holds (some v) v
  nothing_held : Holds none null

-- The data and the format that a value asks for: those of its envelope; without one the value itself,
-- as a GTiff where it is a raster or a number and as JSON otherwise.
pub data Asks (v : Value) : Value → OutputFormat → Type 0 where
  wrapped :
      (env data_ : Value) (format : OutputFormat)
      → get "__save_result" v ≡ some env
      → Holds (get "data" env) data_
      → Named (get "format" env) format
      → Asks v data_ format
  raster : (r : Value) → get "__save_result" v ≡ none → get "__raster" v ≡ some r → Asks v v gtiff
  counted :
      (n : Number)
      → get "__save_result" v ≡ none
      → get "__raster" v ≡ none
      → v ≡ number n
      → Asks v v gtiff
  plain :
      get "__save_result" v ≡ none
      → get "__raster" v ≡ none
      → ((n : Number) → v ≢ number n)
      → Asks v v json_text

or_value-Holds : (o : Option Value) → Holds o (or_value o null)
or_value-Holds none = nothing_held
or_value-Holds (some v) = held v

format-Named : (o : Option Value) → Named o (parse (format_text (as_text o)))
unfolding parse codes
format-Named none = unsaid none (λ s e. cc)
format-Named (some null) = unsaid (some null) (λ s e. cc)
format-Named (some (bool b)) = unsaid (some (bool b)) (λ s e. cc)
format-Named (some (number n)) = unsaid (some (number n)) (λ s e. cc)
format-Named (some (string s)) = said s (parse s) (parse-Reads s)
format-Named (some (array vs)) = unsaid (some (array vs)) (λ s e. cc)
format-Named (some (object fs)) = unsaid (some (object fs)) (λ s e. cc)

bare-Asks :
    (v : Value)
    → get "__save_result" v ≡ none
    → get "__raster" v ≡ none
    → Asks v v (if is_number v then gtiff else json_text)
bare-Asks (number n) bare none_ = counted n bare none_ refl
bare-Asks null bare none_ = plain bare none_ (λ n e. cc)
bare-Asks (bool b) bare none_ = plain bare none_ (λ n e. cc)
bare-Asks (string s) bare none_ = plain bare none_ (λ n e. cc)
bare-Asks (array vs) bare none_ = plain bare none_ (λ n e. cc)
bare-Asks (object fs) bare none_ = plain bare none_ (λ n e. cc)

inferred-Asks :
    (v : Value) (o : Option Value)
    → get "__save_result" v ≡ none
    → get "__raster" v ≡ o
    → Asks v v (if is_present o then gtiff else if is_number v then gtiff else json_text)
inferred-Asks v none bare at = bare-Asks v bare at
inferred-Asks v (some r) bare at = raster r bare at

unwrapped-Asks :
    (v : Value) (o : Option Value)
    → get "__save_result" v ≡ o
    → Asks v (unwrapped v o).0 (unwrapped v o).1
unwrapped-Asks v (some env) at =
    wrapped env (or_value (get "data" env) null) _ at (or_value-Holds (get "data" env))
      (format-Named (get "format" env))
unwrapped-Asks v none at = inferred-Asks v (get "__raster" v) at refl

module _ {F : Type 0} (ops : SaveOps F) (codec : Codec) where
  -- The number of a pixel, and zero for what is no number.
  pub data Pixel : Value → F → Type 0 where
    of_number : (n : Number) → Pixel (number n) (ops.as_f64 n)
    of_other : (v : Value) → ((n : Number) → v ≢ number n) → Pixel v ops.zero_point

  -- The bytes of a TIFF: of the file where the data has one, else of one pixel.
  pub data TiffBytes (data_ : Value) : Result (List ℕ) ExecError → Type 0 where
    file :
        (path : String) (bytes : List ℕ)
        → PathOf data_ (some path)
        → ops.read path ≡ ok bytes
        → TiffBytes data_ (ok bytes)
    unread :
        (path text : String)
        → PathOf data_ (some path)
        → ops.read path ≡ err text
        → TiffBytes data_ (err (backend_fault ("save_result: read " <> path <> ": " <> text)))
    one_pixel :
        (x : F) → PathOf data_ none → Pixel data_ x → TiffBytes data_ (ops.write_float32_tiff_1x1 x)

  -- Those of a PNG.
  pub data PngBytes (data_ : Value) : Result (List ℕ) ExecError → Type 0 where
    rendered :
        (path : String) (r : Result (List ℕ) ExecError)
        → PathOf data_ (some path)
        → ops.raster_to_png path ≡ ok r
        → PngBytes data_ r
    unjoined :
        (path text : String)
        → PathOf data_ (some path)
        → ops.raster_to_png path ≡ err text
        → PngBytes data_ (err (backend_fault ("save_result PNG join: " <> text)))
    one_pixel : (x : F) → PathOf data_ none → Pixel data_ x → PngBytes data_ (ops.write_png_1x1 x)

  -- The bytes under their media type, or the error.
  pub data Sent (media : String)
      : Result (List ℕ) ExecError → Result SyncResult ExecError → Type 0 where
    sent :
        (bytes : List ℕ)
        → Sent media (ok bytes) (ok (record { content_type = media; body = bytes }))
    unsent : (e : ExecError) → Sent media (err e) (err e)

  pub data Saves (v : Value) (answer : Result SyncResult ExecError) : Type 0 where
    as_json :
        (data_ : Value)
        → Asks v data_ json_text
        → answer ≡ ok (record { content_type = "application/json"; body = codec.to_vec data_ })
        → Saves v answer
    as_tiff :
        (data_ : Value) (format : OutputFormat) (r : Result (List ℕ) ExecError)
        → Asks v data_ format
        → (format ≡ gtiff) ⊎ ((format ≡ cog) ⊎ (format ≡ net_cdf))
        → TiffBytes data_ r
        → Sent "image/tiff" r answer
        → Saves v answer
    as_png :
        (data_ : Value) (r : Result (List ℕ) ExecError)
        → Asks v data_ png
        → PngBytes data_ r
        → Sent "image/png" r answer
        → Saves v answer

  pixel-Pixel : (v : Value) → Pixel v (pixel ops codec v)
  pixel-Pixel (number n) = of_number n
  pixel-Pixel null = of_other null (λ n e. cc)
  pixel-Pixel (bool b) = of_other (bool b) (λ n e. cc)
  pixel-Pixel (string s) = of_other (string s) (λ n e. cc)
  pixel-Pixel (array vs) = of_other (array vs) (λ n e. cc)
  pixel-Pixel (object fs) = of_other (object fs) (λ n e. cc)

  read-TiffBytes :
      (data_ : Value) (path : String) (r : Result (List ℕ) String)
      → PathOf data_ (some path)
      → ops.read path ≡ r
      → TiffBytes data_ (read_bytes ops codec path r)
  read-TiffBytes data_ path (ok bytes) at reads = file path bytes at reads
  read-TiffBytes data_ path (err text) at reads = unread path text at reads

  tiff_bytes-TiffBytes :
      (data_ : Value) (o : Option String)
      → PathOf data_ o
      → TiffBytes data_ (tiff_bytes ops codec data_ o)
  tiff_bytes-TiffBytes data_ (some path) at = read-TiffBytes data_ path (ops.read path) at refl
  tiff_bytes-TiffBytes data_ none at =
      TiffBytes.one_pixel (pixel ops codec data_) at (pixel-Pixel data_)

  joined-PngBytes :
      (data_ : Value) (path : String) (r : Result (Result (List ℕ) ExecError) String)
      → PathOf data_ (some path)
      → ops.raster_to_png path ≡ r
      → PngBytes data_ (joined_bytes ops codec r)
  joined-PngBytes data_ path (ok r) at renders = rendered path r at renders
  joined-PngBytes data_ path (err text) at renders = unjoined path text at renders

  png_bytes-PngBytes :
      (data_ : Value) (o : Option String)
      → PathOf data_ o
      → PngBytes data_ (png_bytes ops codec data_ o)
  png_bytes-PngBytes data_ (some path) at =
      joined-PngBytes data_ path (ops.raster_to_png path) at refl
  png_bytes-PngBytes data_ none at =
      PngBytes.one_pixel (pixel ops codec data_) at (pixel-Pixel data_)

  bind-Sent :
      (media : String) (r : Result (List ℕ) ExecError)
      → Sent media r (r >>= λ bytes. ok (record { content_type = media; body = bytes }))
  bind-Sent media (ok bytes) = sent bytes
  bind-Sent media (err e) = unsent e

  written-Saves :
      (v data_ : Value) (format : OutputFormat)
      → Asks v data_ format
      → Saves v (written ops codec format data_)
  unfolding media_type
  written-Saves v data_ json_text asks = as_json data_ asks refl
  written-Saves v data_ gtiff asks =
      as_tiff data_ gtiff _ asks (inl refl)
        (tiff_bytes-TiffBytes data_ (extract_save_path data_)
          (extract_save_path-PathOf data_ (extract_save_path data_) refl))
        (bind-Sent "image/tiff" _)
  written-Saves v data_ cog asks =
      as_tiff data_ cog _ asks (inr (inl refl))
        (tiff_bytes-TiffBytes data_ (extract_save_path data_)
          (extract_save_path-PathOf data_ (extract_save_path data_) refl))
        (bind-Sent "image/tiff" _)
  written-Saves v data_ net_cdf asks =
      as_tiff data_ net_cdf _ asks (inr (inr refl))
        (tiff_bytes-TiffBytes data_ (extract_save_path data_)
          (extract_save_path-PathOf data_ (extract_save_path data_) refl))
        (bind-Sent "image/tiff" _)
  written-Saves v data_ png asks =
      as_png data_ _ asks
        (png_bytes-PngBytes data_ (extract_save_path data_)
          (extract_save_path-PathOf data_ (extract_save_path data_) refl))
        (bind-Sent "image/png" _)

  pub finalise_save_result-Saves : (v : Value) → Saves v (finalise_save_result ops codec v)
  unfolding finalise_save_result
  finalise_save_result-Saves v =
      written-Saves v (unwrapped v (get "__save_result" v)).0
        (unwrapped v (get "__save_result" v)).1 (unwrapped-Asks v (get "__save_result" v) refl)
