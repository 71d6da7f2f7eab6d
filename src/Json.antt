-- ===== src/Json.antt =====
-- `serde_json::Value`, as the process graphs and the job records carry it. An object keeps its
-- fields in the order in which the map is walked; a float is its 64-bit pattern.
use open_eo_ru_stac.Prelude.{ℕ, Bool, String, Option, none, some, str_eq, if◌then◌else◌}

pub data Number : Type 0 where
  pos_int neg_int float : ℕ → Number

mutual
  pub data Value : Type 0 where
    null : Value
    bool : Bool → Value
    number : Number → Value
    string : String → Value
    array : Items → Value
    object : Fields → Value

  pub data Items : Type 0 where
    empty : Items
    item : Value → Items → Items

  pub data Fields : Type 0 where
    closed : Fields
    field : String → Value → Fields → Fields

-- `Map::get`.
unfoldable pub get_field : String → Fields → Option Value
get_field k closed = none
get_field k (field j v fs) = if str_eq j k then some v else get_field k fs

-- `Value::get` by a key.
unfoldable pub get : String → Value → Option Value
unfolding get_field
get k (object fs) = get_field k fs
get k _ = none
