-- ===== src/ProcessGraph/Order.antt =====
-- The evaluation order of an analysis, given what petgraph documents of `toposort`.
use open_eo_ru_stac.Prelude.{
  subst, ℕ, zero, suc, ◌+◌, ◌<◌, Bool, false, ◌≡◌, refl, ◌∙◌, ap, sym, String, Option, some, List,
  [], ◌∷◌, ok, IsIn, Distinct, inl, inr, map, arith, length, get_elem?, index_of_IsIn,
}
use open_eo_ru_stac.ProcessGraph.{
  Node, DiGraph, ProcessGraphAnalysis, idx, by_index, build, evaluation_order, ids_of,
  unwrap_or_default,
}
use open_eo_ru_stac.ProcessGraph.References.{link, found_in_fields}
use open_eo_ru_stac.ProcessGraph.Edges.{build-Built}
use open_eo_ru_stac.ProcessGraph.Names.{
  index_of_Named, Distinct-Named, Precedes, Named, length-Named, IsIn-Named, Precedes-Named,
  ids_of-Named, by_index-idx,
}

-- An order of the indices of a graph's nodes in which each edge points onwards.
pub record IsTopological (g : DiGraph) (order : List ℕ) : Type 0 where
  pub size : length order ≡ length g.weights
  pub every : (n : ℕ) → n < length g.weights → IsIn n order
  pub known : (n : ℕ) → IsIn n order → n < length g.weights
  pub distinct : Distinct order
  pub onwards : (m n : ℕ) → IsIn (m, n) g.edges → Precedes m n order

-- petgraph: a graph that has no cycle has a topological order, and `toposort` returns one.
abbrev pub Sorts : (DiGraph → Bool) → (DiGraph → Option (List ℕ)) → Type 0
Sorts is_cyclic toposort =
    (g : DiGraph)
    → is_cyclic g ≡ false
    → (order : List ℕ) × (toposort g ≡ some order) × IsTopological g order

length-map : {A B : Type 0} (f : A → B) (xs : List A) → length (map f xs) ≡ length xs
length-map f [] = refl
length-map f (x ∷ xs) = ap suc (length-map f xs)

by_index-map :
    (nodes : List Node) (k : ℕ) (node : Node)
    → get_elem? nodes k ≡ some node
    → by_index (map (λ n. n.0) nodes) k ≡ some node.0
unfolding by_index
by_index-map [] k node h = cc
by_index-map (n ∷ nodes) zero node h = let e : n ≡ node = cc in ap (λ m. some m.0) e
by_index-map (n ∷ nodes) (suc k) node h = by_index-map nodes k node h

node_of_id :
    (nodes : List Node) (n : ℕ) (id : String)
    → by_index (map (λ m. m.0) nodes) n ≡ some id
    → (node : Node) × IsIn node nodes × (node.0 ≡ id)
unfolding by_index
node_of_id [] n id h = cc
node_of_id (m ∷ nodes) zero id h = (m, inl refl, cc)
node_of_id (m ∷ nodes) (suc n) id h =
    let (node, at, eq) = node_of_id nodes n id h in (node, inr at, eq)

-- The schedule of the nodes.
pub record Schedules (nodes : List Node) (order : List String) : Type 0 where
  pub size : length order ≡ length nodes
  pub every : (node : Node) → IsIn node nodes → IsIn node.0 order
  pub known : (id : String) → IsIn id order → (node : Node) × IsIn node nodes × (node.0 ≡ id)
  pub distinct : Distinct order
  pub links :
      (node : Node) (src : String)
      → IsIn node nodes
      → IsIn (link src) (found_in_fields node.1.arguments 0)
      → Precedes src node.0 order

module _ (nodes : List Node) (g : DiGraph) (ns : List ℕ) (names : List String) where
  abbrev ids : List String
  ids = map (λ n. n.0) nodes

  schedule :
      Distinct ids
      → g.weights ≡ map (λ n. n.1.process_id) nodes
      → ((k : ℕ) (node : Node) (src : String)
          → get_elem? nodes k ≡ some node
          → IsIn (link src) (found_in_fields node.1.arguments 0)
          → (i : ℕ) × (idx ids src ≡ some i) × IsIn (i, 0 + k) g.edges)
      → IsTopological g ns
      → Named ids ns names
      → Schedules nodes names
  schedule ids_distinct weights linked sorted named = record {
    size = length-Named ids ns names named ∙ sorted.size ∙ count;
    every = λ node at.
        let (k, here, lt) = index_of_IsIn node nodes at in
        IsIn-Named ids k node.0 ns names (by_index-map nodes k node here) named
          (sorted.every k (rw count lt));
    known = λ id at.
        let (n, i, eq) = index_of_Named ids id ns names named at in node_of_id nodes n id eq;
    distinct = Distinct-Named ids ns names ids_distinct sorted.distinct named;
    links = λ node src at found.
        let (k, here, lt) = index_of_IsIn node nodes at in
        let (i, known, edge) = linked k node src here found in
        Precedes-Named ids i k src node.0 ns names (by_index-idx ids src i known)
          (by_index-map nodes k node here) named
          (sorted.onwards i k (subst (λ j. IsIn (i, j) g.edges) (sym (from_zero k)) edge));
  }
    where
      from_zero : (k : ℕ) → k ≡ 0 + k
      from_zero k = omega arith

      count : length g.weights ≡ length nodes
      count = ap length weights ∙ length-map (λ n. n.1.process_id) nodes

-- Where `toposort` sorts every graph without a cycle and the ids of the nodes are distinct,
-- `evaluation_order` of an analysis that `build` returned does not panic: it gives the id of each
-- node once and no other id, and each node's id behind every id that its arguments reference.
pub evaluation_order-Schedules :
    (is_cyclic : DiGraph → Bool) (toposort : DiGraph → Option (List ℕ)) (nodes : List Node)
    (a : ProcessGraphAnalysis)
    → Sorts is_cyclic toposort
    → Distinct (map (λ n. n.0) nodes)
    → build is_cyclic nodes ≡ ok a
    → (order : List String) × (evaluation_order toposort a ≡ some order) × Schedules nodes order
unfolding evaluation_order
evaluation_order-Schedules is_cyclic toposort nodes a sorts distinct h =
    let built = build-Built is_cyclic nodes a h in
    let (ns, sorted, topological) = sorts a.graph built.acyclic in
    let size : length (map (λ n. n.0) nodes) ≡ length a.graph.weights =
      length-map (λ n. n.0) nodes
      ∙ sym (length-map (λ n. n.1.process_id) nodes)
      ∙ ap length (sym built.weights) in
    let within : (n : ℕ) → IsIn n ns → n < length (map (λ n. n.0) nodes) =
      λ n at. rw size (topological.known n at) in
    let (names, named, each) = ids_of-Named (map (λ n. n.0) nodes) ns within in
    (
      names,
      ap (λ o. ids_of a.ids (unwrap_or_default o)) sorted
          ∙ ap (λ js. ids_of js ns) built.ids
          ∙ named,
      schedule nodes a.graph ns names distinct built.weights built.edges.linked topological each,
    )
