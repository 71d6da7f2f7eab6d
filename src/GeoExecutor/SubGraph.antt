-- ===== src/GeoExecutor/SubGraph.antt =====
-- geo_executor/sub_graph.rs: what a callback's `process_graph` must look like. A map is walked in
-- the order of its fields.
use Prim.Native.String.{◌++◌ as ◌<>◌}
use open_eo_ru_stac.Prelude.{
  Bool, true, false, String, Option, none, some, Result, ok, err, ok_or, ◌>>=◌,
}
use open_eo_ru_stac.Json.{Value, bool, string, object, Fields, closed, field, get}
use open_eo_ru_stac.JobRunner.{ExecError, invalid_graph}

-- `as_object`, `as_str`.
abbrev pub as_object : Option Value → Option Fields
as_object (some (object fs)) = some fs
as_object _ = none

abbrev pub as_text : Option Value → Option String
as_text (some (string s)) = some s
as_text _ = none

abbrev pub non_empty : String → Fields → Result Fields ExecError
non_empty who closed = err (invalid_graph (who <> ": process_graph is empty"))
non_empty who (field k v fs) = ok (field k v fs)

unfoldable pub require_subgraph : Value → String → Result Fields ExecError
unfolding get
require_subgraph value who = do
  pg ←
      ok_or (invalid_graph (who <> ": must be a Process with `process_graph` sub-callback"))
        (as_object (get "process_graph" value))
  non_empty who pg

-- `result: true`.
abbrev pub flag : Option Value → Bool
flag (some (bool true)) = true
flag _ = false

abbrev pub is_result_node : Value → Bool
is_result_node node = flag (get "result" node)

abbrev pub mark :
    String
    → String
    → Value
    → Bool
    → Option (String × Value)
    → Result (Option (String × Value)) ExecError
mark who id node false result = ok result
mark who id node true (some seen) =
    err (invalid_graph (who <> ": process_graph has multiple result nodes"))
mark who id node true none = ok (some (id, node))

-- The loop over the nodes.
unfoldable pub find_from :
    String → Fields → Option (String × Value) → Result (Option (String × Value)) ExecError
unfolding get
find_from who closed result = ok result
find_from who (field id node fs) result = do
  result' ← mark who id node (is_result_node node) result
  find_from who fs result'

unfoldable pub find_unique_result_node : Fields → String → Result (String × Value) ExecError
unfolding find_from
find_unique_result_node graph who = do
  result ← find_from who graph none
  ok_or (invalid_graph (who <> ": process_graph has no `result: true` node")) result

unfoldable pub result_process_id : Value → String → Result String ExecError
unfolding get
result_process_id node who =
    ok_or (invalid_graph (who <> ": result node has no `process_id`"))
      (as_text (get "process_id" node))
