-- ===== src/GeoExecutor/Totality.antt =====
-- How `evaluate` ends.
use open_eo_ru_stac.Prelude.{
  ℕ, ◌≡◌, refl, ◌∙◌, ap, sym, inl, inr, Bool, String, Option, none, some, List, [], Result, ok,
  IsIn, subst, Distinct, map,
}
use open_eo_ru_stac.Json.{Value, Fields}
use open_eo_ru_stac.JobRunner.{ExecError}
use open_eo_ru_stac.ProcessGraph.{Node, DiGraph, ProcessGraphAnalysis, build}
use open_eo_ru_stac.ProcessGraph.Edges.{build-Built}
use open_eo_ru_stac.ProcessGraph.Order.{Sorts, evaluation_order-Schedules}
use open_eo_ru_stac.LocalExecutor.{Memo, lookup_node}
use open_eo_ru_stac.LocalExecutor.Schedule.{lookup_node-known, is_result-node}
use open_eo_ru_stac.GeoExecutor.Registry.{ProcessRegistry}
use open_eo_ru_stac.GeoExecutor.Evaluator.{visited, walked, analysed, evaluate}
use open_eo_ru_stac.GeoExecutor.Walk.{
  Gives, Stops, failed, LoopEnds, all_evaluated, stopped, eval_loop-Ends,
}

-- What `evaluate` comes to: the value of the result node with the name of its process, or why it
-- stopped at a node of the graph.
pub data Concludes {H W : Type 0} (registry : ProcessRegistry H)
    (handle : H → Fields → W → Option (Result Value ExecError × W)) (nodes : List Node)
    (result : String) : Option (Result (String × Value) ExecError × W) → Type 0 where
  value :
      (node : Node) (v : Value) (w : W)
      → IsIn node nodes
      → node.0 ≡ result
      → Gives registry handle nodes result v
      → Concludes registry handle nodes result (some (ok (node.1.process_id, v), w))
  halted :
      (s : Option (ExecError × W))
      → Stops registry handle nodes s
      → Concludes registry handle nodes result (failed registry handle nodes s)

module _ {H W : Type 0} (registry : ProcessRegistry H)
    (handle : H → Fields → W → Option (Result Value ExecError × W)) (is_cyclic : DiGraph → Bool)
    (toposort : DiGraph → Option (List ℕ)) (nodes : List Node) where
  visited-Concludes :
      (result : String) (order : List String) (r : Option (Result Memo ExecError × W))
      → IsIn result order
      → ((node : Node) × IsIn node nodes × (node.0 ≡ result))
      → LoopEnds registry handle nodes order [] r
      → Concludes registry handle nodes result (visited registry handle nodes result r)
  visited-Concludes result order r at (node, is_node, same) (all_evaluated after w keeps sound) =
      let (v, eq) = keeps result (inr at) in
      let (p, found, in_nodes) = lookup_node-known nodes node is_node in
      let found' : lookup_node result nodes ≡ some p =
        ap (λ x. lookup_node x nodes) (sym same) ∙ found in
      rw (eq, found') (value (node.0, p) v w in_nodes same (sound result v eq))
  visited-Concludes result order r at known (stopped none h) = halted none h
  visited-Concludes result order r at known (stopped (some (e, w)) h) = halted (some (e, w)) h

  pub evaluate-Concludes :
      (a : ProcessGraphAnalysis) (w : W)
      → Sorts is_cyclic toposort
      → Distinct (map (λ n. n.0) nodes)
      → build is_cyclic nodes ≡ ok a
      → Concludes registry handle nodes a.result_id
          (evaluate registry handle is_cyclic toposort nodes w)
  unfolding evaluate
  evaluate-Concludes a w sorts distinct builds =
      let (order, ordered, schedule) =
        evaluation_order-Schedules is_cyclic toposort nodes a sorts distinct builds in
      let (node, at, same) = is_result-node nodes a.result_id (
        subst (λ rs. IsIn a.result_id rs) (sym (build-Built is_cyclic nodes a builds).result)
          (inl refl)) in
      let in_order : IsIn a.result_id order =
        subst (λ x. IsIn x order) same (schedule.every node at) in
      subst
        (λ b.
          Concludes registry handle nodes a.result_id
            (analysed registry handle is_cyclic toposort nodes w b))
        (sym builds)
        (subst
          (λ o.
            Concludes registry handle nodes a.result_id
              (walked registry handle is_cyclic toposort nodes a w o))
          (sym ordered)
          (visited-Concludes a.result_id order _ in_order (node, at, same)
            (eval_loop-Ends registry handle nodes order [] w schedule.distinct schedule.known
              (λ n src is_node found. inr (schedule.links n src is_node found))
              (λ id u missing. cc))))
