-- ===== src/FileStore/Tests.antt =====
-- Runs on small paths and stores.
use open_eo_ru_stac.Prelude.{◌≡◌, refl, none, List, [], ◌∷◌, ok, err, ◌↔◌}
use open_eo_ru_stac.JobRunner.Interface.{FileKey, forbidden}
use open_eo_ru_stac.FileStore.{validate_path, codes, percent_decode_once, lookup}
use open_eo_ru_stac.FileStore.Paths.{IsSafe, validate_path-IsSafe}
use open_eo_ru_stac.FileStore.Refinement.{
  Request, puts, gets, deletes, serve_all, specified_all, Shows, serve_all-Refines,
}

abbrev key : FileKey
key = record { user_id = "u"; path = "a.json" }

validate_path-IsSafe_example :
    (validate_path "a%2Fb" ≡ ok tt) ↔ IsSafe (percent_decode_once (codes "a%2Fb"))
validate_path-IsSafe_example = validate_path-IsSafe "a%2Fb"

-- An escaped slash, traversal, and bytes that are no UTF-8.
accepted : validate_path "a%2Fb" ≡ ok tt
unfolding validate_path
accepted = refl

traversal : validate_path "a/%2e%2E/b" ≡ err (forbidden "a/%2e%2E/b")
unfolding validate_path
traversal = refl

overlong : validate_path "..%c0%af" ≡ err (forbidden "absolute path")
unfolding validate_path
overlong = refl

abbrev requests : List Request
requests = puts key (1 ∷ []) ∷ gets key ∷ deletes key ∷ gets key ∷ []

serve_all-Refines_example :
    ((serve_all requests []).0 ≡ (specified_all requests (λ k. none)).0)
    × Shows (serve_all requests []).1 (specified_all requests (λ k. none)).1
unfolding lookup
serve_all-Refines_example = serve_all-Refines requests [] (λ k. none) (λ k. refl)
