-- ===== src/TypedIr/Lifting.antt =====
-- What `from_nodes` makes of the nodes of a graph.
pub mod Settling
pub mod Arms
use open_eo_ru_stac.Prelude.{
  ℕ, zero, suc, ◌≡◌, ◌≤◌, refl, sym, ap, ◌∙◌, subst, arith, Bool, true, false, Bool-cases, inl, inr,
  String, Option, none, some, List, [], ◌∷◌, ◌++◌, ◌||◌, str_eq, str_eq_iff, if◌then◌else◌, Result,
  ok, err, IsIn,
}
use open_eo_ru_stac.Json.{Value, Fields, get, get_field}
use open_eo_ru_stac.ProcessGraph.{Node, Process, result_nodes}
use open_eo_ru_stac.TypedIr.{
  ProcessNode, load_collection, filter_bbox, filter_temporal, filter_spatial, ndvi, mask,
  reduce_dimension, apply, resample_spatial, merge_cubes, save_result, add, subtract, multiply,
  divide, ProcessGraphIr, ir, IrNodes, no_nodes, node, process_id, has_subgraph, Lifted, value,
  failed, exhausted, ◌>>=◌, IrError, IrOps, Lift, parse, or_itself, marked, with_node, lift_nodes,
  from_nodes,
}
use open_eo_ru_stac.TypedIr.Depth.{depth, deepest, fields_depth, depth-get_field, depth-or_itself}
use Settling.{Ends, gives, fails, Settles}
use Arms.{Callbacks, parse-Ends}

abbrev pub first : List String → Option String
first [] = none
first (id ∷ ids) = some id

abbrev pub or_first : Option String → List String → Option String
or_first none ids = first ids
or_first (some id) ids = some id

abbrev pub carries : String → Bool
carries pid = str_eq pid "reduce_dimension" || str_eq pid "apply"

has_subgraph-carries : {F : Type 0} (n : ProcessNode F) → has_subgraph n ≡ carries (process_id n)
unfolding has_subgraph process_id
has_subgraph-carries (load_collection i s t b) = refl
has_subgraph-carries (filter_bbox d e) = refl
has_subgraph-carries (filter_temporal d e) = refl
has_subgraph-carries (filter_spatial d g) = refl
has_subgraph-carries (ndvi d) = refl
has_subgraph-carries (mask d m r) = refl
has_subgraph-carries (reduce_dimension d r n) = refl
has_subgraph-carries (apply d p) = refl
has_subgraph-carries (resample_spatial d p r) = refl
has_subgraph-carries (merge_cubes a b) = refl
has_subgraph-carries (save_result d f) = refl
has_subgraph-carries (add x y) = refl
has_subgraph-carries (subtract x y) = refl
has_subgraph-carries (multiply x y) = refl
has_subgraph-carries (divide x y) = refl

module _ {F : Type 0} (ops : IrOps F) where
  module _ (lift : Lift ops) where
    -- The nodes one by one, under their ids and in their order.
    pub data Each : List Node → IrNodes F → Type 0 where
      done : Each [] no_nodes
      next :
          (id : String) (p : Process) (n : ProcessNode F) (nodes : List Node) (ns : IrNodes F)
          → parse ops lift p ≡ value n
          → process_id n ≡ p.process_id
          → has_subgraph n ≡ carries p.process_id
          → Each nodes ns
          → Each ((id, p) ∷ nodes) (node id n ns)

    -- The typed graph, or the error of the first node that does not parse.
    pub data Lifts (nodes : List Node) (seen : Option String)
        : Lifted (ProcessGraphIr F) → Type 0 where
      typed :
          (ns : IrNodes F) (result : Option String)
          → Each nodes ns
          → result ≡ or_first seen (result_nodes nodes)
          → Lifts nodes seen (value (ir ns result))
      refused :
          (before : List Node) (id : String) (p : Process) (after : List Node) (ns : IrNodes F)
          (e : IrError)
          → nodes ≡ before ++ (id, p) ∷ after
          → Each before ns
          → parse ops lift p ≡ failed e
          → Lifts nodes seen (failed e)

    marked-first :
        (id : String) (p : Process) (nodes : List Node) (flagged : Option Bool)
        (seen : Option String)
        → p.result ≡ flagged
        → or_first (marked ops id flagged seen) (result_nodes nodes)
          ≡ or_first seen (result_nodes ((id, p) ∷ nodes))
    unfolding result_nodes
    marked-first id p nodes (some true) none eq = rw eq refl
    marked-first id p nodes (some true) (some s) eq = refl
    marked-first id p nodes (some false) none eq = rw eq refl
    marked-first id p nodes (some false) (some s) eq = refl
    marked-first id p nodes none none eq = rw eq refl
    marked-first id p nodes none (some s) eq = refl

    behind-Lifts :
        (id : String) (p : Process) (n : ProcessNode F) (nodes : List Node) (seen : Option String)
        (r : Lifted (ProcessGraphIr F))
        → parse ops lift p ≡ value n
        → process_id n ≡ p.process_id
        → Lifts nodes (marked ops id p.result seen) r
        → Lifts ((id, p) ∷ nodes) seen (do rest ← r; value (with_node ops id n rest))
    behind-Lifts id p n nodes seen r eq label (typed ns result each same) =
        typed (node id n ns) result
          (next id p n nodes ns eq label (has_subgraph-carries n ∙ ap carries label) each)
          (same ∙ marked-first id p nodes p.result seen refl)
    behind-Lifts id p n nodes seen r eq label (refused before j q after ns e split each bad) =
        refused ((id, p) ∷ before) j q after (node id n ns) e (ap (λ t. (id, p) ∷ t) split)
          (next id p n before ns eq label (has_subgraph-carries n ∙ ap carries label) each) bad

    head-Lifts :
        (id : String) (p : Process) (nodes : List Node) (seen : Option String)
        (r : Lifted (ProcessNode F))
        → parse ops lift p ≡ r
        → Ends (λ n. process_id n ≡ p.process_id) r
        → ((s : Option String) → Lifts nodes s (lift_nodes ops lift nodes s))
        → Lifts ((id, p) ∷ nodes) seen (do
          n ← r
          rest ← lift_nodes ops lift nodes (marked ops id p.result seen)
          value (with_node ops id n rest))
    head-Lifts id p nodes seen r eq (gives n label) rest =
        behind-Lifts id p n nodes seen _ eq label (rest (marked ops id p.result seen))
    head-Lifts id p nodes seen r eq (fails e) rest = refused [] id p nodes no_nodes e refl done eq

    lift_nodes-Lifts :
        (nodes : List Node) (seen : Option String)
        → ((id : String) (p : Process) → IsIn (id, p) nodes → Callbacks ops lift p.arguments)
        → Lifts nodes seen (lift_nodes ops lift nodes seen)
    unfolding lift_nodes result_nodes
    lift_nodes-Lifts [] none callbacks = typed no_nodes none done refl
    lift_nodes-Lifts [] (some s) callbacks = typed no_nodes (some s) done refl
    lift_nodes-Lifts ((id, p) ∷ nodes) seen callbacks =
        head-Lifts id p nodes seen (parse ops lift p) refl
          (parse-Ends ops lift p (callbacks id p (inl refl)))
          (λ s. lift_nodes-Lifts nodes s (λ j q at. callbacks j q (inr at)))

    Lifts-Settles :
        (nodes : List Node) (seen : Option String) (r : Lifted (ProcessGraphIr F))
        → Lifts nodes seen r
        → Settles r
    Lifts-Settles nodes seen r (typed ns result each same) = gives (ir ns result) refl
    Lifts-Settles nodes seen r (refused before id p after ns e split each bad) = fails e

  -- serde_json finds the nodes inside the value that it reads them from.
  abbrev pub Shrinks : Type 0
  Shrinks =
      (v : Value) (nodes : List Node) → ops.from_value v ≡ ok nodes → suc (deepest nodes) ≤ depth v

  deepest-IsIn :
      (id : String) (p : Process) (nodes : List Node)
      → IsIn (id, p) nodes
      → fields_depth p.arguments ≤ deepest nodes
  unfolding deepest
  deepest-IsIn id p [] at = absurd at
  deepest-IsIn id p ((j, q) ∷ nodes) (inl e) =
      let same = ap (λ n. fields_depth n.1.arguments) e in omega arith
  deepest-IsIn id p ((j, q) ∷ nodes) (inr at) = let d = deepest-IsIn id p nodes at in omega arith

  inner-deepest :
      (nodes : List Node) (id : String) (p : Process) (key : String) (v : Value) (inner : List Node)
      → Shrinks
      → IsIn (id, p) nodes
      → get_field key p.arguments ≡ some v
      → ops.from_value (or_itself v (get "process_graph" v)) ≡ ok inner
      → suc (deepest inner) ≤ deepest nodes
  inner-deepest nodes id p key v inner shrinks at found reads =
      let a = shrinks (or_itself v (get "process_graph" v)) inner reads in
      let b = depth-or_itself v (get "process_graph" v) refl in
      let c = depth-get_field key p.arguments v found in
      let d = deepest-IsIn id p nodes at in omega arith

  -- Where serde_json finds the nodes of a graph inside the value that it reads: with a round of fuel
  -- for each level at which the arguments nest, and one more, from_nodes gives the typed graph, whose
  -- nodes stand under the same ids in the same order, each as it parses, with the label of its
  -- process, and with a callback where that is reduce_dimension or apply, and whose result is the
  -- first node marked so; or it gives the error of the first node that does not parse.
  pub from_nodes-Lifts :
      (n : ℕ) (nodes : List Node)
      → Shrinks
      → deepest nodes ≤ n
      → Lifts (from_nodes ops n) nodes none (from_nodes ops (suc n) nodes)
  unfolding from_nodes
  from_nodes-Lifts zero nodes shrinks enough =
      lift_nodes-Lifts (from_nodes ops zero) nodes none (λ id p at key v inner found reads.
        let d = inner-deepest nodes id p key v inner shrinks at found reads in absurd (omega arith))
  from_nodes-Lifts (suc n) nodes shrinks enough =
      lift_nodes-Lifts (from_nodes ops (suc n)) nodes none (λ id p at key v inner found reads.
        let d = inner-deepest nodes id p key v inner shrinks at found reads in
        Lifts-Settles (from_nodes ops n) inner none (from_nodes ops (suc n) inner)
          (from_nodes-Lifts n inner shrinks (omega arith)))
