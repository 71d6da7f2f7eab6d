-- ===== src/LocalExecutor/Floats.antt =====
-- What the executor takes from elsewhere.
use open_eo_ru_stac.Prelude.{Bool, String, Option, Result}
use open_eo_ru_stac.Json.{Value, Number}

pub record FloatOps (F : Type 0) : Type 0 where
  pub as_f64 : Number → F
  pub value_of : F → Value
  pub add : F → F → F
  pub subtract : F → F → F
  pub multiply : F → F → F
  pub divide : F → F → F
  pub is_zero : F → Bool

-- catalog.rs: of a collection, what the executor shows.
pub record Collection : Type 0 where
  pub stac_version : String
  pub description : String

pub data CatalogError : Type 0 where
  not_found backend : String → CatalogError

pub record Environment (F : Type 0) : Type 0 where
  pub floats : FloatOps F
  pub catalog : Option (String → Result Collection CatalogError)
