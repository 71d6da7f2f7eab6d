-- ===== src/ProcessGraph.antt =====
-- apps/orbit-openeo/src/process_graph.rs: the analysis of a process graph. petgraph is a parameter:
-- its graph is the nodes and edges that were added, in that order, and a node's index counts the
-- nodes added before it.
pub mod References
pub mod Edges
pub mod Names
pub mod ProcessIds
pub mod Order
pub mod Tests
use mathlib.Core.Option
use open_eo_ru_stac.Prelude.{
  ◌>>=◌, ℕ, zero, suc, ◌+◌, Bool, true, false, String, Option, none, some, List, [], ◌∷◌, ◌++◌,
  length, map, str_eq, ltb, ◌==◌, if◌then◌else◌, Result, ok, err,
}
use open_eo_ru_stac.Json.{
  Value, null, bool, number, string, array, object, Items, empty, item, Fields, closed, field,
  get_field,
}

abbrev pub max_subgraph_depth : ℕ
max_subgraph_depth = 64

pub data GraphError : Type 0 where
  cycle unknown_node_reference : String → GraphError
  ambiguous_result depth_exceeded : ℕ → GraphError

-- eo-process/src/graph.rs
pub record Process : Type 0 where
  pub process_id : String
  pub arguments : Fields
  pub result : Option Bool

-- A node and its id; the list is in the order of the ids, as a `BTreeMap` iterates.
abbrev pub Node : Type 0
Node = String × Process

module _ {S : Type 0} (visit : String → S → Result S GraphError) where
  -- The branches behind the guard: a link, a sub-graph, or the values inside.
  abbrev pub in_object : Option Value → Option Value → S → Result S GraphError → Result S GraphError
  in_object (some (string id)) sub s inside = visit id s
  in_object link (some _) s inside = ok s
  in_object link none s inside = inside

  abbrev pub guarded : ℕ → Result S GraphError → Result S GraphError
  guarded depth r =
      if ltb max_subgraph_depth depth then err (depth_exceeded max_subgraph_depth) else r

  -- `collect_in_value_inner`, and its two loops.
  unfoldable mutual
    unfolding get_field

    pub collect_in_value : Value → ℕ → S → Result S GraphError
    collect_in_value null depth s = guarded depth (ok s)
    collect_in_value (bool _) depth s = guarded depth (ok s)
    collect_in_value (number _) depth s = guarded depth (ok s)
    collect_in_value (string _) depth s = guarded depth (ok s)
    collect_in_value (array vs) depth s = guarded depth (collect_in_items vs (suc depth) s)
    collect_in_value (object fs) depth s = guarded depth (
        in_object (get_field "from_node" fs) (get_field "process_graph" fs) s
          (collect_in_fields fs (suc depth) s))

    pub collect_in_items : Items → ℕ → S → Result S GraphError
    collect_in_items empty depth s = ok s
    collect_in_items (item v vs) depth s = do
      s' ← collect_in_value v depth s
      collect_in_items vs depth s'

    pub collect_in_fields : Fields → ℕ → S → Result S GraphError
    collect_in_fields closed depth s = ok s
    collect_in_fields (field k v fs) depth s = do
      s' ← collect_in_value v depth s
      collect_in_fields fs depth s'

  -- `collect_from_node_refs`: each argument at depth 0.
  unfoldable pub collect_from_node_refs : Fields → S → Result S GraphError
  unfolding collect_in_fields
  collect_from_node_refs args s = collect_in_fields args 0 s

-- petgraph's graph: the weights of its nodes, and its edges.
pub record DiGraph : Type 0 where
  pub weights : List String
  pub edges : List (ℕ × ℕ)

pub record ProcessGraphAnalysis : Type 0 where
  pub graph : DiGraph
  -- The ids in the order in which their nodes were added: `idx` and `by_index` are lookups in it.
  pub ids : List String
  pub result_id : String

unfoldable pub idx : List String → String → Option ℕ
idx [] id = none
idx (j ∷ js) id = if str_eq j id then some 0 else Option.map suc (idx js id)

unfoldable pub by_index : List String → ℕ → Option String
by_index [] n = none
by_index (id ∷ ids) zero = some id
by_index (id ∷ ids) (suc n) = by_index ids n

-- The closure that `build` passes: an edge from the referenced node to the node at `dst`.
abbrev pub add_edge : ℕ → List (ℕ × ℕ) → Option ℕ → String → Result (List (ℕ × ℕ)) GraphError
add_edge dst edges none id = err (unknown_node_reference id)
add_edge dst edges (some src) id = ok (edges ++ (src, dst) ∷ [])

abbrev pub visit_edge : List String → ℕ → String → List (ℕ × ℕ) → Result (List (ℕ × ℕ)) GraphError
visit_edge ids dst id edges = add_edge dst edges (idx ids id) id

-- The second pass, from the node at index `dst` on: the ids are the keys of a map, so `idx[dst_id]`
-- is the node's position.
unfoldable pub add_edges :
    List String → ℕ → List Node → List (ℕ × ℕ) → Result (List (ℕ × ℕ)) GraphError
unfolding collect_from_node_refs
add_edges ids dst [] edges = ok edges
add_edges ids dst ((id, node) ∷ nodes) edges = do
  edges' ← collect_from_node_refs (visit_edge ids dst) node.arguments edges
  add_edges ids (suc dst) nodes edges'

abbrev pub is_result : Option Bool → Bool
is_result (some true) = true
is_result _ = false

unfoldable pub result_nodes : List Node → List String
result_nodes [] = []
result_nodes ((id, node) ∷ nodes) =
    let rest = result_nodes nodes in if is_result node.result then id ∷ rest else rest

abbrev pub first_id : List Node → String
first_id [] = "<unknown>"
first_id ((id, node) ∷ nodes) = id

abbrev pub single_result :
    DiGraph → List String → List String → Result ProcessGraphAnalysis GraphError
single_result graph ids (id ∷ []) = ok (record { graph = graph; ids = ids; result_id = id })
single_result graph ids results = err (ambiguous_result (length results))

-- Behind the second pass: the test for cycles, and the result node.
abbrev pub finish : Bool → DiGraph → List Node → Result ProcessGraphAnalysis GraphError
finish true graph nodes = err (cycle (first_id nodes))
finish false graph nodes = single_result graph (map (λ n. n.0) nodes) (result_nodes nodes)

module _ (is_cyclic_directed : DiGraph → Bool) where
  unfoldable pub build : List Node → Result ProcessGraphAnalysis GraphError
  unfolding add_edges result_nodes
  build nodes = do
    edges ← add_edges (map (λ n. n.0) nodes) 0 nodes []
    let graph : DiGraph = record { weights = map (λ n. n.1.process_id) nodes; edges = edges }
    finish (is_cyclic_directed graph) graph nodes

abbrev pub consed : Option String → Option (List String) → Option (List String)
consed (some id) (some rest) = some (id ∷ rest)
consed _ _ = none

-- `none` where an index is no key of `by_index` and the indexing panics.
unfoldable pub ids_of : List String → List ℕ → Option (List String)
unfolding by_index
ids_of ids [] = some []
ids_of ids (n ∷ ns) = consed (by_index ids n) (ids_of ids ns)

abbrev pub unwrap_or_default : Option (List ℕ) → List ℕ
unwrap_or_default none = []
unwrap_or_default (some order) = order

module _ (toposort : DiGraph → Option (List ℕ)) where
  unfoldable pub evaluation_order : ProcessGraphAnalysis → Option (List String)
  unfolding ids_of
  evaluation_order a = ids_of a.ids (unwrap_or_default (toposort a.graph))
