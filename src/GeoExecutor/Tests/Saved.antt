-- ===== src/GeoExecutor/Tests/Saved.antt =====
-- The graph 3 + 4 of the other tests, run to its answer, over natural numbers.
use open_eo_ru_stac.Prelude.{ℕ, ◌≡◌, refl, some, [], ◌∷◌, ok}
use open_eo_ru_stac.Json.{Value, string, array, object, item, empty, closed, field}
use open_eo_ru_stac.ProcessGraph.{build, collect_from_node_refs, idx}
use open_eo_ru_stac.ProcessGraph.Tests.{is_cyclic, toposort, sorts}
use open_eo_ru_stac.LocalExecutor.Tests.{nodes, nodes-Distinct, analysis, natural, codec, body}
use open_eo_ru_stac.LocalExecutor.Requests.{parse_graph}
use open_eo_ru_stac.FileStore.{codes}
use open_eo_ru_stac.GeoExecutor.Evaluator.{evaluate}
use open_eo_ru_stac.GeoExecutor.Tests.{registry, handle}
use open_eo_ru_stac.GeoExecutor.Saving.{SaveOps, parse, cog, gtiff, extract_save_path, run_sync}
use open_eo_ru_stac.GeoExecutor.Saving.Answers.{Answers, run_sync-Answers}

abbrev save_ops : SaveOps ℕ
save_ops = record {
  as_f64 = natural;
  zero_point = 0;
  read = λ path. ok (codes path);
  write_float32_tiff_1x1 = λ v. ok (v ∷ []);
  write_png_1x1 = λ v. ok (v ∷ []);
  raster_to_png = λ path. ok (ok []);
}

run_sync-Answers_example :
    Answers save_ops codec registry handle nodes "b"
      (run_sync save_ops codec registry handle is_cyclic toposort body 0)
unfolding parse_graph build collect_from_node_refs idx
run_sync-Answers_example =
    run_sync-Answers save_ops codec registry handle is_cyclic toposort body nodes analysis 0 sorts
      refl nodes-Distinct refl

seven_as_tiff :
    run_sync save_ops codec registry handle is_cyclic toposort body 0
    ≡ some (ok (record { content_type = "image/tiff"; body = 7 ∷ [] }), 2)
unfolding run_sync evaluate collect_from_node_refs idx
seven_as_tiff = refl

lower_case : parse "cloud_optimized_geotiff" ≡ cog
unfolding parse
lower_case = refl

unlisted : parse "webp" ≡ gtiff
unfolding parse
unlisted = refl

-- The index band goes first, and the classification band never.
abbrev cube : Value
cube = object (
    field "__cube"
      (object (
        field "bands"
          (object (
            field "B02" (array (item (string "b02.tif") empty)) (
              field "SCL" (array (item (string "scl.tif") empty))
                (field "ndvi" (array (item (string "ndvi.tif") empty)) closed))))
          closed))
      closed)

index_first : extract_save_path cube ≡ some "ndvi.tif"
unfolding extract_save_path
index_first = refl
