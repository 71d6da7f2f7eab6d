-- ===== src/GeoExecutor/Saving/Answers.antt =====
-- How `run_sync` answers.
use open_eo_ru_stac.Prelude.{
  ℕ, ◌≡◌, ◌≢◌, sym, subst, Bool, true, false, Bool-cases, inl, inr, String, Option, none, some,
  List, map, str_eq, str_eq_iff, Result, ok, IsIn, Distinct,
}
use open_eo_ru_stac.Json.{Value, Fields}
use open_eo_ru_stac.JobRunner.{ExecError, SyncResult}
use open_eo_ru_stac.ProcessGraph.{Node, DiGraph, ProcessGraphAnalysis, build}
use open_eo_ru_stac.ProcessGraph.Order.{Sorts}
use open_eo_ru_stac.LocalExecutor.Requests.{Codec, parse_graph}
use open_eo_ru_stac.GeoExecutor.Registry.{ProcessRegistry}
use open_eo_ru_stac.GeoExecutor.Walk.{Stops, Gives, failed}
use open_eo_ru_stac.GeoExecutor.Totality.{Concludes, value, halted, evaluate-Concludes}
use open_eo_ru_stac.GeoExecutor.Saving.Spec.{Saves, finalise_save_result-Saves}
use open_eo_ru_stac.GeoExecutor.Saving.{
  SaveOps, finalise_save_result, concluded, run_parsed, run_sync,
}

module _ {F : Type 0} (ops : SaveOps F) (codec : Codec) where
  module _ {H W : Type 0} (registry : ProcessRegistry H)
      (handle : H → Fields → W → Option (Result Value ExecError × W)) (nodes : List Node)
      (result : String) where
    -- The answers, by what the graph comes to.
    pub data Answers : Option (Result SyncResult ExecError × W) → Type 0 where
      as_json :
          (node : Node) (v : Value) (w : W)
          → IsIn node nodes
          → node.0 ≡ result
          → Gives registry handle nodes result v
          → node.1.process_id ≢ "save_result"
          → Answers
              (some (ok (record { content_type = "application/json"; body = codec.to_vec v }), w))
      saved :
          (node : Node) (v : Value) (answer : Result SyncResult ExecError) (w : W)
          → IsIn node nodes
          → node.0 ≡ result
          → Gives registry handle nodes result v
          → node.1.process_id ≡ "save_result"
          → Saves ops codec v answer
          → Answers (some (answer, w))
      unevaluated :
          (s : Option (ExecError × W))
          → Stops registry handle nodes s
          → Answers (failed registry handle nodes s)

    concluded-Answers :
        (is_cyclic : DiGraph → Bool) (toposort : DiGraph → Option (List ℕ))
        (r : Option (Result (String × Value) ExecError × W))
        → Concludes registry handle nodes result r
        → Answers (concluded ops codec registry handle is_cyclic toposort r)
    concluded-Answers is_cyclic toposort r (value node v w at named given) =
        elim (Bool-cases (str_eq node.1.process_id "save_result")) [
          | inl is_save ↦ rw is_save (
              saved node v (finalise_save_result ops codec v) w at named given
                ((str_eq_iff node.1.process_id "save_result").0 is_save)
                (finalise_save_result-Saves ops codec v))
          | inr other ↦ rw other (
              as_json node v w at named given
                (λ e. clash ((str_eq_iff node.1.process_id "save_result").1 e) other))
        ]
      where
        clash : {b : Bool} → b ≡ true → b ≡ false → ⊥
        clash t f = cc
    concluded-Answers is_cyclic toposort r (halted none h) = unevaluated none h
    concluded-Answers is_cyclic toposort r (halted (some (e, w)) h) = unevaluated (some (e, w)) h

  -- Where `toposort` sorts every graph without a cycle: `run_sync` of a request whose graph parses
  -- into nodes with distinct ids and is accepted by the analysis answers with the JSON of the value
  -- that the result node's handler gave, where its process is not save_result; else with the data that
  -- this value asks to save, in the format that it asks for: as JSON, or as a TIFF or a PNG under its
  -- media type, of the raster's file or of one pixel, or with the error of making it; or the graph has
  -- no value, and the answer is that of the node at which its evaluation stopped.
  pub run_sync-Answers :
      {H W : Type 0} (registry : ProcessRegistry H)
      (handle : H → Fields → W → Option (Result Value ExecError × W)) (is_cyclic : DiGraph → Bool)
      (toposort : DiGraph → Option (List ℕ)) (body : Value) (nodes : List Node)
      (a : ProcessGraphAnalysis) (w : W)
      → Sorts is_cyclic toposort
      → parse_graph codec body ≡ ok nodes
      → Distinct (map (λ n. n.0) nodes)
      → build is_cyclic nodes ≡ ok a
      → Answers registry handle nodes a.result_id
          (run_sync ops codec registry handle is_cyclic toposort body w)
  unfolding run_sync
  run_sync-Answers registry handle is_cyclic toposort body nodes a w sorts parses distinct builds =
      subst
        (λ p.
          Answers registry handle nodes a.result_id
            (run_parsed ops codec registry handle is_cyclic toposort p w))
        (sym parses)
        (concluded-Answers registry handle nodes a.result_id is_cyclic toposort _
          (evaluate-Concludes registry handle is_cyclic toposort nodes a w sorts distinct builds))
