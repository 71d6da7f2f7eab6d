-- ===== src/GeoExecutor/Apply/Correct.antt =====
-- The evaluation with its memo computes what the graph means.
use open_eo_ru_stac.Prelude.{
  ℕ, zero, suc, ◌+◌, ◌<◌, ◌≡◌, refl, sym, ap, subst, inl, inr, Bool, true, false, String, List, [],
  ◌∷◌, length, ok, IsIn, Distinct, arith,
}
use open_eo_ru_stac.Prelude.Pigeonhole.{length-le_of_subset}
use open_eo_ru_stac.Json.{Value, object, Fields}
use open_eo_ru_stac.JobRunner.{ExecError}
use open_eo_ru_stac.GeoExecutor.SubGraph.{non_empty, find_unique_result_node}
use open_eo_ru_stac.GeoExecutor.Apply.{
  State, remembered, is_in_progress, fields_count, eval_node_inline, eval_apply_subgraph,
}
use open_eo_ru_stac.GeoExecutor.Apply.Numeric.{Arithmetic, Eval, value, failed, panicked, ◌>>=◌}
use open_eo_ru_stac.GeoExecutor.Apply.Meaning.{Means}
use open_eo_ru_stac.GeoExecutor.Apply.Lookup.{names, length-names, IsIn-is_in_progress}
use open_eo_ru_stac.GeoExecutor.Apply.Node.{SoundMemo-nil, looked_up-Ends}
use open_eo_ru_stac.GeoExecutor.Apply.Steps.{Ends, gave, refused, panics, Good}

module _ {F : Type 0} (ops : Arithmetic F) (nodes : Fields) (x : F) where
  -- Fuel: of the nodes some are in progress, each once.
  eval_node_inline-Good :
      (fuel : ℕ) (busy : List String)
      → Distinct busy
      → ((j : String) → IsIn j busy → IsIn j (names nodes))
      → fields_count nodes < fuel + length busy
      → Good ops nodes x busy (eval_node_inline ops nodes x fuel)
  unfolding eval_node_inline
  eval_node_inline-Good zero busy distinct known enough target s sound same =
      let le = length-le_of_subset busy (names nodes) distinct known in
      absurd (omega (arith, le, length-names nodes, enough))
  eval_node_inline-Good (suc fuel) busy distinct known enough target s sound same =
      looked_up-Ends ops nodes x busy target (eval_node_inline ops nodes x fuel) s
        (remembered target s.memo) (is_in_progress target s.in_progress) sound same refl
        (ap (is_in_progress target) (sym same))
        (λ free is_node.
          eval_node_inline-Good fuel (target ∷ busy)
            ((λ at. clash (IsIn-is_in_progress target busy at) free), distinct)
            (λ j at. elim at [
              | inl e ↦ subst (λ y. IsIn y (names nodes)) (sym e) is_node
              | inr later ↦ known j later
            ])
            (omega arith))
    where
      clash : {b : Bool} → b ≡ true → b ≡ false → ⊥
      clash t f = cc

-- What a graph comes to for a pixel: what its result node means, or an error or a panic where that
-- node means nothing.
pub data Computes {F : Type 0} (ops : Arithmetic F) (nodes : Fields) (x : F) (result_id : String)
    : Eval F → Type 0 where
  meant :
      (h : ℕ) (v : F) → Means ops nodes x h result_id v → Computes ops nodes x result_id (value v)
  meaningless :
      (e : ExecError)
      → ((h : ℕ) (v : F) → Means ops nodes x h result_id v → ⊥)
      → Computes ops nodes x result_id (failed e)
  meaningless_panic :
      ((h : ℕ) (v : F) → Means ops nodes x h result_id v → ⊥)
      → Computes ops nodes x result_id panicked

module _ {F : Type 0} (ops : Arithmetic F) (nodes : Fields) (x : F) (result_id : String) where
  Ends-Computes :
      (r : Eval (F × State F))
      → Ends ops nodes x (λ h v. Means ops nodes x h result_id v) [] r
      → Computes ops nodes x result_id (do (v, _) ← r; value v)
  Ends-Computes r (gave h v s m sound same) = meant h v m
  Ends-Computes r (refused e never) = meaningless e (λ h v m. never h v m (λ j k w at. absurd at))
  Ends-Computes r (panics never) = meaningless_panic (λ h v m. never h v m (λ j k w at. absurd at))

  -- `eval_apply_subgraph`, on a graph that has nodes and one result node, ends for every pixel: with
  -- the value that the result node means, where the value of a node is its process applied to what
  -- its arguments mean; or, only where the result node means nothing, with an error or a panic. The
  -- memo and the test for cycles change nothing of that.
  pub eval_apply_subgraph-Computes :
      (node : Value)
      → non_empty "apply" nodes ≡ ok nodes
      → find_unique_result_node nodes "apply" ≡ ok (result_id, node)
      → Computes ops nodes x result_id (eval_apply_subgraph ops (object nodes) x)
  unfolding eval_apply_subgraph
  eval_apply_subgraph-Computes node some_nodes finds =
      rw (some_nodes, finds)
        (Ends-Computes _ (
          eval_node_inline-Good ops nodes x (suc (fields_count nodes)) [] tt (λ j at. absurd at)
            (omega arith) result_id (record { memo = []; in_progress = [] })
            (SoundMemo-nil ops nodes x) refl))
