-- ===== src/GeoExecutor/Apply.antt =====
-- geo_executor/eval_apply.rs: the evaluation of a callback's graph for one pixel. The vector
-- `in_progress` is a stack whose top is its last element. The recursion through `from_node` takes
-- fuel; that through arrays is structural.
pub mod Numeric
pub mod Kernel
pub mod Meaning
pub mod Settled
pub mod Steps
pub mod Lookup
pub mod Node
pub mod Correct
use Prim.Native.String.{◌++◌ as ◌<>◌}
use open_eo_ru_stac.Prelude.{
  ℕ, zero, suc, Bool, true, false, String, Option, none, some, List, [], ◌∷◌, str_eq, if◌then◌else◌,
}
use open_eo_ru_stac.Json.{
  Value, null, bool, number, string, array, object, Items, empty, item, Fields, closed, field, get,
  get_field,
}
use open_eo_ru_stac.JobRunner.{ExecError, invalid_graph}
use open_eo_ru_stac.GeoExecutor.SubGraph.{as_object, as_text, non_empty, find_unique_result_node}
use Numeric.{Eval, value, failed, panicked, exhausted, ◌>>=◌, require, lift, Arithmetic}
use Kernel.{ArgVal, num, arr, Args, refuse, apply_pure_numeric_op}

pub record State (F : Type 0) : Type 0 where
  pub memo : List (String × F)
  pub in_progress : List String

unfoldable pub remembered : {F : Type 0} → String → List (String × F) → Option F
remembered id [] = none
remembered id ((j, v) ∷ memo) = if str_eq j id then some v else remembered id memo

unfoldable pub is_in_progress : String → List String → Bool
is_in_progress id [] = false
is_in_progress id (j ∷ busy) =
    let rest = is_in_progress id busy in if str_eq j id then true else rest

-- `Vec::pop`.
abbrev pub popped : List String → List String
popped [] = []
popped (id ∷ busy) = busy

abbrev pub fields_count : Fields → ℕ
fields_count closed = 0
fields_count (field k v fs) = suc (fields_count fs)

module _ {F : Type 0} (ops : Arithmetic F) (nodes : Fields) (x : F) where
  -- The call for the node that a `from_node` names.
  abbrev pub Call : Type 0
  Call = String → State F → Eval (F × State F)

  abbrev pub in_object :
      Call → Value → State F → Option String → Option String → Eval (ArgVal F × State F)
  in_object call v s (some p) link = value (num x, s)
  in_object call v s none (some target) = do (n, s') ← call target s; value (num n, s')
  in_object call v s none none = refuse ("unsupported argument shape: " <> ops.show v)

  abbrev pub scalar : ArgVal F → Eval F
  scalar (num n) = value n
  scalar (arr v) = refuse "nested arrays not supported in sub-graph arguments"

  -- `resolve_arg_value`, and its loop over an array.
  unfoldable mutual
    unfolding get_field

    pub resolve_arg_value : Call → Value → State F → Eval (ArgVal F × State F)
    resolve_arg_value call (number n) s = value (num (ops.as_f64 n), s)
    resolve_arg_value call (object fs) s =
        in_object call (object fs) s (as_text (get_field "from_parameter" fs))
          (as_text (get_field "from_node" fs))
    resolve_arg_value call (array vs) s = do
      (ns, s') ← resolve_elements call vs s
      value (arr ns, s')
    resolve_arg_value call null s = refuse "null argument value"
    resolve_arg_value call (bool b) s = refuse ("unsupported argument value: " <> ops.show (bool b))
    resolve_arg_value call (string t) s =
        refuse ("unsupported argument value: " <> ops.show (string t))

    pub resolve_elements : Call → Items → State F → Eval (List F × State F)
    resolve_elements call empty s = value ([], s)
    resolve_elements call (item v vs) s = do
      (r, s') ← resolve_arg_value call v s
      n ← scalar r
      (ns, s'') ← resolve_elements call vs s'
      value (n ∷ ns, s'')

  -- The loop over the arguments of a node.
  unfoldable pub resolve_arguments : Call → Fields → State F → Eval (Args F × State F)
  unfolding resolve_arg_value
  resolve_arguments call closed s = value ([], s)
  resolve_arguments call (field k v fs) s = do
    (r, s') ← resolve_arg_value call v s
    (rest, s'') ← resolve_arguments call fs s'
    value ((k, r) ∷ rest, s'')

  abbrev pub node_of : String → Eval Value
  node_of id =
      require (invalid_graph ("apply: unknown node reference `" <> id <> "`")) (get_field id nodes)

  abbrev pub process_of : String → Value → Eval String
  process_of id node =
      require (invalid_graph ("apply: node `" <> id <> "` has no process_id"))
        (as_text (get "process_id" node))

  abbrev pub arguments_of : String → Value → Eval Fields
  arguments_of id node =
      require (invalid_graph ("apply: node `" <> id <> "` has no arguments object"))
        (as_object (get "arguments" node))

  -- The node that was pushed.
  abbrev pub entered : Call → String → State F → Eval (F × State F)
  entered call id s = do
    node ← node_of id
    pid ← process_of id node
    args ← arguments_of id node
    (resolved, s') ← resolve_arguments call args s
    v ← apply_pure_numeric_op ops resolved pid
    value (v, record { memo = (id, v) ∷ s'.memo; in_progress = popped s'.in_progress })

  abbrev pub looked_up : Call → String → State F → Option F → Bool → Eval (F × State F)
  looked_up call id s (some v) busy = value (v, s)
  looked_up call id s none true = refuse ("cycle detected at node `" <> id <> "`")
  looked_up call id s none false =
      entered call id (record { memo = s.memo; in_progress = id ∷ s.in_progress })

  unfoldable pub eval_node_inline : ℕ → String → State F → Eval (F × State F)
  unfolding remembered is_in_progress resolve_arguments get get_field apply_pure_numeric_op
  eval_node_inline zero id s = exhausted
  eval_node_inline (suc fuel) id s =
      looked_up (eval_node_inline fuel) id s (remembered id s.memo)
        (is_in_progress id s.in_progress)

-- Each node can be in progress once, and one round more ends the innermost call.
unfoldable pub eval_apply_subgraph : {F : Type 0} → Arithmetic F → Value → F → Eval F
unfolding eval_node_inline find_unique_result_node
eval_apply_subgraph ops sub_pg x = do
  pg ← require (invalid_graph "apply: process_graph must be an object") (as_object (some sub_pg))
  nodes ← lift (non_empty "apply" pg)
  (result_id, _) ← lift (find_unique_result_node nodes "apply")
  (v, _) ←
      eval_node_inline ops nodes x (suc (fields_count nodes)) result_id
        (record { memo = []; in_progress = [] })
  value v
