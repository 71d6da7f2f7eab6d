-- ===== src/JobRunner/AssetName.antt =====
-- `default_asset_name`: the file name that a media type gives a result.
use Prim.Native.Char.{code}
use Prim.Native.String.{◌++◌}
use open_eo_ru_stac.Prelude.{
  ℕ, ◌≡◌, refl, Bool, ◌&&◌, ◌||◌, String, leb, ◌==◌, str_eq, if◌then◌else◌,
}

-- `content_type.split(';').next()`.
before_semicolon : String → String
before_semicolon String.[] = String.[]
before_semicolon (String.◌∷◌ c s) =
    let rest = String.◌∷◌ c (before_semicolon s) in if code c == b';' then String.[] else rest

-- Unicode's White_Space, which `str::trim` removes.
is_whitespace : ℕ → Bool
is_whitespace c =
    (leb 9 c && leb c 13)
    || (c == 32)
    || (c == 0x85)
    || (c == 0xA0)
    || (c == 0x1680)
    || (leb 0x2000 c && leb c 0x200A)
    || (c == 0x2028)
    || (c == 0x2029)
    || (c == 0x202F)
    || (c == 0x205F)
    || (c == 0x3000)

trim_start : String → String
trim_start String.[] = String.[]
trim_start (String.◌∷◌ c s) =
    let rest = trim_start s in if is_whitespace (code c) then rest else String.◌∷◌ c s

-- Drops a character where only white space, already dropped, follows it.
trim_end : String → String
trim_end String.[] = String.[]
trim_end (String.◌∷◌ c s) =
    let rest = trim_end s in
    if str_eq rest "" && is_whitespace (code c) then String.[] else String.◌∷◌ c rest

extension : String → String
extension media =
    if str_eq media "application/json"
    then "json"
    else if str_eq media "image/tiff" || str_eq media "image/geotiff"
    then "tif"
    else if str_eq media "image/png"
    then "png"
    else if str_eq media "application/x-netcdf"
    then "nc"
    else "bin"

unfoldable pub default_asset_name : String → String
unfolding before_semicolon is_whitespace trim_start trim_end extension
default_asset_name content_type =
    "result." ++ extension (trim_end (trim_start (before_semicolon content_type)))

json_with_charset : default_asset_name " application/json ; charset=utf-8" ≡ "result.json"
unfolding default_asset_name
json_with_charset = refl

unknown_media : default_asset_name "text/plain" ≡ "result.bin"
unfolding default_asset_name
unknown_media = refl
