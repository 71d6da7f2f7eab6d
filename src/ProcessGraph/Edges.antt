-- ===== src/ProcessGraph/Edges.antt =====
-- The edges that `build` adds, and what it returns.
use open_eo_ru_stac.Prelude.{
  ◌>>=◌, ℕ, zero, suc, ◌+◌, Bool, true, false, ◌≡◌, refl, ◌∙◌, ap, sym, String, Option, some, List,
  [], ◌∷◌, ◌++◌, Result, ok, err, Option-cases, inl, inr, IsIn, IsIn-append_left, IsIn-append_right,
  map, arith,
}
use open_eo_ru_stac.Prelude.{get_elem?, bind_inverse}
use open_eo_ru_stac.ProcessGraph.{
  GraphError, Node, DiGraph, ProcessGraphAnalysis, idx, visit_edge, add_edge, add_edges, build,
  finish, single_result, result_nodes, collect_from_node_refs,
}
use open_eo_ru_stac.ProcessGraph.References.{
  Found, link, too_deep, visit_all, found_in_fields, collect_from_node_refs-visit_all,
}

abbrev Edges : Type 0
Edges = List (ℕ × ℕ)

-- `after` has the edges of `before`, and one to `dst` from each link of `found`.
pub record Linked (ids : List String) (dst : ℕ) (found : List Found) (before behind : Edges)
    : Type 0 where
  pub kept : (e : ℕ × ℕ) → IsIn e before → IsIn e behind
  pub linked :
      (src : String)
      → IsIn (link src) found
      → (i : ℕ) × (idx ids src ≡ some i) × IsIn (i, dst) behind

module _ (ids : List String) where
  visit_all-Linked :
      (dst : ℕ) (found : List Found) (before behind : Edges)
      → visit_all (visit_edge ids dst) found before ≡ ok behind
      → Linked ids dst found before behind
  visit_all-Linked dst [] before behind h = unchanged (cc)
    where
      unchanged : before ≡ behind → Linked ids dst [] before behind
      unchanged e = record { kept = λ x i. rw (sym e) i; linked = λ src i. absurd i }
  visit_all-Linked dst (too_deep ∷ found) before behind h = cc
  visit_all-Linked dst (link id ∷ found) before behind h = elim (Option-cases (idx ids id)) [
    | inl missing ↦ absurd (err≢ok (sym (ap (visited found before id) missing) ∙ h))
    | inr (i, known) ↦
        let rest =
          visit_all-Linked dst found (before ++ (i, dst) ∷ []) behind
            (sym (ap (visited found before id) known) ∙ h) in
        record {
          kept = λ e at. rest.kept e (IsIn-append_left e before ((i, dst) ∷ []) at);
          linked = λ src at. elim at [
            | inl same ↦ (
              i,
              cc,
              rest.kept (i, dst) (IsIn-append_right (i, dst) before ((i, dst) ∷ []) (inl refl)),
            )
            | inr later ↦ rest.linked src later
          ];
        }
  ]
    where
      visited : List Found → Edges → String → Option ℕ → Result Edges GraphError
      visited found before id o = add_edge dst before o id >>= visit_all (visit_edge ids dst) found

      err≢ok : {e : GraphError} → err e ≡ ok behind → ⊥
      err≢ok h = cc

  -- The edges that the second pass adds for the nodes from `dst` on.
  pub record Added (dst : ℕ) (nodes : List Node) (before behind : Edges) : Type 0 where
    pub kept : (e : ℕ × ℕ) → IsIn e before → IsIn e behind
    pub linked :
        (k : ℕ) (node : Node) (src : String)
        → get_elem? nodes k ≡ some node
        → IsIn (link src) (found_in_fields node.1.arguments 0)
        → (i : ℕ) × (idx ids src ≡ some i) × IsIn (i, dst + k) behind

  add_edges-Added :
      (dst : ℕ) (nodes : List Node) (before behind : Edges)
      → add_edges ids dst nodes before ≡ ok behind
      → Added dst nodes before behind
  unfolding add_edges
  add_edges-Added dst [] before behind h = unchanged (cc)
    where
      unchanged : before ≡ behind → Added dst [] before behind
      unchanged e = record { kept = λ x i. rw (sym e) i; linked = λ k node src known at. cc }
  add_edges-Added dst ((id, node) ∷ nodes) before behind h =
      let (middle, first, next) =
        bind_inverse (collect_from_node_refs (visit_edge ids dst) node.arguments before)
          (add_edges ids (suc dst) nodes) behind h in
      let here = visit_all-Linked dst (found_in_fields node.arguments 0) before middle (
        sym (collect_from_node_refs-visit_all (visit_edge ids dst) node.arguments before)
        ∙ first) in
      let rest = add_edges-Added (suc dst) nodes middle behind next in joined middle here rest
    where
      dst_zero : dst + 0 ≡ dst
      dst_zero = omega arith

      dst_suc : (k : ℕ) → dst + suc k ≡ suc dst + k
      dst_suc k = omega arith

      joined :
          (middle : Edges)
          → Linked ids dst (found_in_fields node.arguments 0) before middle
          → Added (suc dst) nodes middle behind
          → Added dst ((id, node) ∷ nodes) before behind
      joined middle here rest = record {
        kept = λ e at. rest.kept e (here.kept e at);
        linked = λ k n src known at. at_index middle here rest k n src known at;
      }
        where
          at_index :
              (middle : Edges)
              → Linked ids dst (found_in_fields node.arguments 0) before middle
              → Added (suc dst) nodes middle behind
              → (k : ℕ) (n : Node) (src : String) → get_elem? ((id, node) ∷ nodes) k ≡ some n
              → IsIn (link src) (found_in_fields n.1.arguments 0)
              → (i : ℕ) × (idx ids src ≡ some i) × IsIn (i, dst + k) behind
          at_index middle here rest zero n src known at =
              let same : (id, node) ≡ n = cc in
              let e : node.arguments ≡ n.1.arguments = ap (λ m. m.1.arguments) same in
              let at' : IsIn (link src) (found_in_fields node.arguments 0) = rw e at in
              let (i, eq, in_middle) = here.linked src at' in
              (i, eq, rw (dst_zero) (rest.kept (i, dst) in_middle))
          at_index middle here rest (suc k) n src known at =
              let (i, eq, in_behind) = rest.linked k n src known at in
              (i, eq, rw (dst_suc k) in_behind)

-- Where `build` returns an analysis: its graph has the edges of the second pass and no cycle, and
-- its ids are those of the nodes.
pub record Built (is_cyclic : DiGraph → Bool) (nodes : List Node) (a : ProcessGraphAnalysis)
    : Type 0 where
  pub acyclic : is_cyclic a.graph ≡ false
  pub ids : a.ids ≡ map (λ n. n.0) nodes
  pub weights : a.graph.weights ≡ map (λ n. n.1.process_id) nodes
  pub edges : Added (map (λ n. n.0) nodes) 0 nodes [] a.graph.edges
  pub result : result_nodes nodes ≡ a.result_id ∷ []

single_result-ok :
    (graph : DiGraph) (ids results : List String) (a : ProcessGraphAnalysis)
    → single_result graph ids results ≡ ok a
    → (a.graph ≡ graph) × (a.ids ≡ ids) × (results ≡ a.result_id ∷ [])
single_result-ok graph ids [] a h = cc
single_result-ok graph ids (id ∷ []) a h =
    let e : record { graph = graph; ids = ids; result_id = id } ≡ a = cc in
    (sym (ap (λ r. r.graph) e), sym (ap (λ r. r.ids) e), ap (λ r. r.result_id ∷ []) e)
single_result-ok graph ids (id ∷ j ∷ results) a h = cc

finish-Built :
    (is_cyclic : DiGraph → Bool) (nodes : List Node) (edges : Edges) (a : ProcessGraphAnalysis)
    (graph : DiGraph) (b : Bool)
    → is_cyclic graph ≡ b
    → graph ≡ record { weights = map (λ n. n.1.process_id) nodes; edges = edges }
    → Added (map (λ n. n.0) nodes) 0 nodes [] edges
    → finish b graph nodes ≡ ok a
    → Built is_cyclic nodes a
finish-Built is_cyclic nodes edges a graph true c g added h = cc
finish-Built is_cyclic nodes edges a graph false c g added h =
    let (same_graph, same_ids, single) =
      single_result-ok graph (map (λ n. n.0) nodes) (result_nodes nodes) a h in
    record {
      acyclic = ap is_cyclic same_graph ∙ c;
      ids = same_ids;
      weights = ap (λ d. d.weights) (same_graph ∙ g);
      edges = rw (ap (λ d. d.edges) (same_graph ∙ g)) added;
      result = single;
    }

pub build-Built :
    (is_cyclic : DiGraph → Bool) (nodes : List Node) (a : ProcessGraphAnalysis)
    → build is_cyclic nodes ≡ ok a
    → Built is_cyclic nodes a
unfolding build
build-Built is_cyclic nodes a h =
    let (edges, eq, next) = bind_inverse (add_edges (map (λ n. n.0) nodes) 0 nodes []) _ a h in
    finish-Built is_cyclic nodes edges a _ _ refl refl
      (add_edges-Added (map (λ n. n.0) nodes) 0 nodes [] edges eq) next
