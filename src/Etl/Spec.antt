-- ===== src/Etl/Spec.antt =====
-- crates/orbit-etl/src/spec.rs: the checks of a pipeline. The file system's `exists`, `canonicalize`
-- and `starts_with` are parameters.
use Prim.Native.String.{◌++◌ as ◌<>◌}
use open_eo_ru_stac.Prelude.{
  ◌>>=◌, ◌>>◌, ℕ, Bool, true, ◌&&◌, ◌||◌, String, Option, none, some, List, [], ◌∷◌, Result, ok,
  err, str_eq, if◌then◌else◌, leb, ◌==◌,
}
use open_eo_ru_stac.FileStore.{codes}

-- orbit_core::Error; the texts of errors from outside are given.
pub data Error : Type 0 where
  invalid_spec source_not_found outside : String → Error
  cancelled : Error

unfoldable pub error_text : Error → String
error_text (invalid_spec m) = "invalid pipeline spec: " <> m
error_text (source_not_found p) = "source file not found: " <> p
error_text (outside m) = m
error_text cancelled = "job cancelled"

pub record PipelineSpec : Type 0 where
  pub path : String
  pub destination_table : String
  pub dedupe_column : Option String
  pub batch_size : ℕ

abbrev pub is_head : ℕ → Bool
is_head c = (leb 65 c && leb c 90) || (leb 97 c && leb c 122) || (c == 95)

abbrev pub is_tail : ℕ → Bool
is_tail c = is_head c || (leb 48 c && leb c 57)

unfoldable pub all_tail : List ℕ → Bool
all_tail [] = true
all_tail (c ∷ cs) = is_tail c && all_tail cs

abbrev pub codes_checked : (String → String) → String → String → List ℕ → Result (Unit {0}) Error
codes_checked debug name context [] = err (invalid_spec (context <> " is empty"))
codes_checked debug name context (c ∷ cs) =
    if is_head c && all_tail cs
    then ok tt
    else err (invalid_spec (context <> " must match [A-Za-z_][A-Za-z0-9_]*: got " <> debug name))

-- `debug` is `{:?}` of a text.
unfoldable pub validate_sql_identifier :
    (String → String) → String → String → Result (Unit {0}) Error
unfolding codes all_tail
validate_sql_identifier debug name context = codes_checked debug name context (codes name)

abbrev pub when_some : (String → Result (Unit {0}) Error) → Option String → Result (Unit {0}) Error
when_some check none = ok tt
when_some check (some s) = check s

-- Every identifier that a statement is made of.
unfoldable pub columns_checked : (String → String) → List String → Result (Unit {0}) Error
unfolding validate_sql_identifier
columns_checked debug [] = ok tt
columns_checked debug (c ∷ cs) = do
  validate_sql_identifier debug c "source column name"
  columns_checked debug cs

unfoldable pub identifiers_checked :
    (String → String) → PipelineSpec → List String → Result (Unit {0}) Error
unfolding validate_sql_identifier columns_checked
identifiers_checked debug spec columns = do
  validate_sql_identifier debug spec.destination_table "destination_table"
  when_some (λ c. validate_sql_identifier debug c "dedupe_column") spec.dedupe_column
  columns_checked debug columns

-- What the checks ask of the file system.
pub record Disk : Type 0 where
  pub exists : String → Bool
  pub canonicalize : String → Result String String
  pub starts_with : String → String → Bool

unfoldable pub validate : (String → String) → Disk → PipelineSpec → Result (Unit {0}) Error
unfolding validate_sql_identifier
validate debug disk spec =
    if str_eq spec.destination_table "" then err (invalid_spec "destination_table is empty") else do
      validate_sql_identifier debug spec.destination_table "destination_table"
      if disk.exists spec.path then ok tt else err (source_not_found spec.path)

abbrev pub resolved : (String → Error) → Result String String → Result String Error
resolved f (ok p) = ok p
resolved f (err e) = err (f e)

abbrev pub under_root : (String → String) → Disk → String → String → Result String Error
under_root debug disk path root =
    if disk.starts_with path root
    then ok path
    else err (invalid_spec ("source path " <> debug path <> " escapes data_root " <> debug root))

unfoldable pub validate_path_under_root :
    (String → String) → Disk → String → String → Result String Error
validate_path_under_root debug disk path root = do
  canon_root ←
      resolved (λ e. invalid_spec ("data_root " <> debug root <> " does not exist: " <> e))
        (disk.canonicalize root)
  canon_path ←
      resolved (λ e. invalid_spec ("source path " <> debug path <> " cannot be resolved: " <> e))
        (disk.canonicalize path)
  under_root debug disk canon_path canon_root
