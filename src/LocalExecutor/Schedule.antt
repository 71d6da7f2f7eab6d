-- ===== src/LocalExecutor/Schedule.antt =====
-- What a loop over the order of evaluation relies on, whatever it calls for a node.
use open_eo_ru_stac.Prelude.{
  ◌≡◌, refl, ap, sym, ◌⊎◌, inl, inr, true, false, Bool, Bool-cases, String, some, List, [], ◌∷◌,
  str_eq, str_eq_iff, if◌then◌else◌, IsIn, subst,
}
use open_eo_ru_stac.Json.{Value}
use open_eo_ru_stac.ProcessGraph.{Node, Process, result_nodes, is_result}
use open_eo_ru_stac.ProcessGraph.References.{link, found_in_fields}
use open_eo_ru_stac.ProcessGraph.Names.{Precedes}
use open_eo_ru_stac.LocalExecutor.{Memo, lookup_node}
use open_eo_ru_stac.LocalExecutor.Memo.{Remembers, Remembers-here, Remembers-later, AllKnown}

pub lookup_node-known :
    (nodes : List Node) (node : Node)
    → IsIn node nodes
    → (p : Process) × (lookup_node node.0 nodes ≡ some p) × IsIn (node.0, p) nodes
unfolding lookup_node
lookup_node-known [] node at = absurd at
lookup_node-known ((j, p) ∷ nodes) node at = elim (Bool-cases (str_eq j node.0)) [
  | inl same ↦ (p, rw same refl, inl (ap (λ x. (x, p)) (sym ((str_eq_iff j node.0).0 same))))
  | inr other ↦ elim at [
    | inl e ↦ absurd (clash other ((str_eq_iff j node.0).1 (sym (ap (λ n. n.0) e))))
    | inr later ↦
        let (q, eq, found) = lookup_node-known nodes node later in (q, rw other eq, inr found)
  ]
]
  where
    clash : {b : Bool} → b ≡ false → b ≡ true → ⊥
    clash f t = cc

Precedes-IsIn : {A : Type 0} (a b : A) (xs : List A) → Precedes a b xs → IsIn b xs
Precedes-IsIn a b [] p = p
Precedes-IsIn a b (x ∷ xs) (inl (e, at)) = inr at
Precedes-IsIn a b (x ∷ xs) (inr p) = inr (Precedes-IsIn a b xs p)

module _ (nodes : List Node) where
  -- What the loop relies on: each link of a node that is still to come is known or comes before it.
  abbrev pub Ready : Memo → List String → Type 0
  Ready memo order =
      (node : Node) (src : String)
      → IsIn node nodes
      → IsIn (link src) (found_in_fields node.1.arguments 0)
      → Remembers memo src ⊎ Precedes src node.0 order

  abbrev pub AreNodes : List String → Type 0
  AreNodes order = (id : String) → IsIn id order → (node : Node) × IsIn node nodes × (node.0 ≡ id)

  pub Ready-next :
      (id : String) (out : Value) (order : List String) (memo : Memo)
      → Ready memo (id ∷ order)
      → Ready ((id, out) ∷ memo) order
  Ready-next id out order memo ready node src at found = pass (ready node src at found)
    where
      pass :
          Remembers memo src ⊎ Precedes src node.0 (id ∷ order)
          → Remembers ((id, out) ∷ memo) src ⊎ Precedes src node.0 order
      pass (inl r) = inl (Remembers-later src id out memo r)
      pass (inr (inl (e, later))) =
          inl (subst (λ x. Remembers ((id, out) ∷ memo) x) (sym e) (Remembers-here id out memo))
      pass (inr (inr p)) = inr p

  pub AllKnown-next :
      (id : String) (p : Process) (order : List String) (memo : Memo)
      → (IsIn id order → ⊥)
      → IsIn (id, p) nodes
      → Ready memo (id ∷ order)
      → AllKnown memo p.arguments
  AllKnown-next id p order memo new at ready src found = pass (ready (id, p) src at found)
    where
      pass : Remembers memo src ⊎ Precedes src id (id ∷ order) → Remembers memo src
      pass (inl r) = r
      pass (inr (inl (e, later))) = absurd (new later)
      pass (inr (inr p)) = absurd (new (Precedes-IsIn src id order p))

pub is_result-node :
    (nodes : List Node) (id : String)
    → IsIn id (result_nodes nodes)
    → (node : Node) × IsIn node nodes × (node.0 ≡ id)
unfolding result_nodes
is_result-node [] id h = absurd h
is_result-node ((j, p) ∷ nodes) id h = choose (is_result-node nodes id) (is_result p.result) h
  where
    choose :
        (IsIn id (result_nodes nodes) → (node : Node) × IsIn node nodes × (node.0 ≡ id))
        → (b : Bool) → IsIn id (if b then j ∷ result_nodes nodes else result_nodes nodes)
        → (node : Node) × IsIn node ((j, p) ∷ nodes) × (node.0 ≡ id)
    choose ih true (inl e) = ((j, p), inl refl, sym e)
    choose ih true (inr later) = let (node, at, eq) = ih later in (node, inr at, eq)
    choose ih false later = let (node, at, eq) = ih later in (node, inr at, eq)
