-- ===== src/GeoExecutor/Evaluator.antt =====
-- geo_executor/mod.rs: `GeoExecutor::evaluate`, for handlers of any type. A handler runs on resolved
-- arguments and on a world of its own, such as the files; `none` is a panic. The clock readings of
-- the loop are not modelled: they only go to the log.
use Prim.Native.String.{◌++◌ as ◌<>◌}
use open_eo_ru_stac.Prelude.{ℕ, Bool, String, Option, none, some, List, [], ◌∷◌, Result, ok, err}
use open_eo_ru_stac.Json.{Value, Fields}
use open_eo_ru_stac.JobRunner.{ExecError, invalid_graph, unknown_process}
use open_eo_ru_stac.ProcessGraph.{
  Node, Process, DiGraph, GraphError, ProcessGraphAnalysis, build, evaluation_order,
}
use open_eo_ru_stac.LocalExecutor.{Memo, recall, lookup_node, resolve_args, graph_error_text}
use open_eo_ru_stac.GeoExecutor.Registry.{ProcessRegistry, get, suggest}

-- `join(", ")`.
abbrev pub join : List String → String
join [] = ""
join (h ∷ []) = h
join (h ∷ hs) = h <> ", " <> join hs

-- The error for a process that has no handler, by the hints.
unfoldable pub unknown_with : String → List String → ExecError
unknown_with name [] = unknown_process name
unknown_with name (h ∷ hs) = unknown_process (name <> " (did you mean: " <> join (h ∷ hs) <> ")")

module _ {H W : Type 0} (registry : ProcessRegistry H)
    (handle : H → Fields → W → Option (Result Value ExecError × W)) where
  abbrev pub hinted : String → W → Option (List String) → Option (Result Value ExecError × W)
  hinted name w none = none
  hinted name w (some hints) = some (err (unknown_with name hints), w)

  abbrev pub dispatched : Option H → String → Fields → W → Option (Result Value ExecError × W)
  dispatched (some h) name args w = handle h args w
  dispatched none name args w = hinted name w (suggest name 3 registry)

  abbrev pub call_node : Process → Result Fields ExecError → W → Option (Result Value ExecError × W)
  call_node node (err e) w = some (err e, w)
  call_node node (ok args) w = dispatched (get node.process_id registry) node.process_id args w

  abbrev pub eval_node : String → Option Process → Memo → W → Option (Result Value ExecError × W)
  eval_node id none memo w = some (err (invalid_graph ("unknown node `" <> id <> "`")), w)
  eval_node id (some node) memo w = call_node node (resolve_args node.arguments memo) w

  -- What comes behind a node: the memo has its value, or the error ends the loop.
  abbrev pub proceed :
      (Memo → W → Option (Result Memo ExecError × W))
      → String
      → Memo
      → Option (Result Value ExecError × W)
      → Option (Result Memo ExecError × W)
  proceed next id memo none = none
  proceed next id memo (some (err e, w)) = some (err e, w)
  proceed next id memo (some (ok out, w)) = next ((id, out) ∷ memo) w

  unfoldable pub eval_loop : List Node → List String → Memo → W → Option (Result Memo ExecError × W)
  unfolding lookup_node resolve_args get suggest unknown_with
  eval_loop nodes [] memo w = some (ok memo, w)
  eval_loop nodes (id ∷ order) memo w =
      proceed (eval_loop nodes order) id memo (eval_node id (lookup_node id nodes) memo w)

  -- The value of the result node, and the name of its process.
  abbrev pub result_process : Option Process → String
  result_process none = ""
  result_process (some p) = p.process_id

  abbrev pub visited :
      List Node
      → String
      → Option (Result Memo ExecError × W)
      → Option (Result (String × Value) ExecError × W)
  visited nodes result none = none
  visited nodes result (some (err e, w)) = some (err e, w)
  visited nodes result (some (ok memo, w)) = some (
    elim (recall result memo) [
      | none ↦ err (invalid_graph "result node was not visited during topo walk")
      | some v ↦ ok (result_process (lookup_node result nodes), v)
    ],
    w,
  )

  module _ (is_cyclic_directed : DiGraph → Bool) (toposort : DiGraph → Option (List ℕ)) where
    abbrev pub walked :
        List Node
        → ProcessGraphAnalysis
        → W
        → Option (List String)
        → Option (Result (String × Value) ExecError × W)
    walked nodes a w none = none
    walked nodes a w (some order) = visited nodes a.result_id (eval_loop nodes order [] w)

    abbrev pub analysed :
        List Node
        → W
        → Result ProcessGraphAnalysis GraphError
        → Option (Result (String × Value) ExecError × W)
    analysed nodes w (err e) = some (err (invalid_graph (graph_error_text e)), w)
    analysed nodes w (ok a) = walked nodes a w (evaluation_order toposort a)

    unfoldable pub evaluate : List Node → W → Option (Result (String × Value) ExecError × W)
    unfolding eval_loop build evaluation_order graph_error_text recall lookup_node
    evaluate nodes w = analysed nodes w (build is_cyclic_directed nodes)
