-- ===== src/ProcessGraph/Tests.antt =====
-- A graph whose second node reads the first, and a sort of graphs whose edges all point upwards.
use open_eo_ru_stac.Prelude.{
  ℕ, zero, suc, ◌+◌, ◌<◌, ◌≤◌, Bool, true, false, not, ◌&&◌, ◌≡◌, refl, ap, String, Option, none,
  some, List, [], ◌∷◌, ok, IsIn, str_eq_iff, Distinct, map, arith, length, ltb, ltb→lt, ge_of_ltb,
  Bool-cases, inl, inr,
}
use open_eo_ru_stac.Json.{Value, string, object, Fields, closed, field}
use open_eo_ru_stac.ProcessGraph.{
  Node, DiGraph, ProcessGraphAnalysis, build, evaluation_order, collect_from_node_refs, idx,
}
use open_eo_ru_stac.ProcessGraph.References.{
  found_in_fields, visit_all, collect_from_node_refs-visit_all,
}
use open_eo_ru_stac.ProcessGraph.Order.{Sorts, Schedules, evaluation_order-Schedules}
use open_eo_ru_stac.ProcessGraph.ProcessIds.{unsupported_process_ids}
use open_eo_ru_stac.ProcessGraph.Names.{Precedes}

abbrev arguments : Fields
arguments = field "data" (object (field "from_node" (string "load") closed)) closed

abbrev nodes : List Node
nodes =
    ("load", record { process_id = "load_collection"; arguments = closed; result = none })
    ∷ (
      "mean",
      record { process_id = "reduce_dimension"; arguments = arguments; result = some true },
    )
    ∷ []

-- A stand-in for petgraph: it takes a graph for acyclic only if each edge points upwards.
abbrev pub upwards : ℕ → List (ℕ × ℕ) → Bool
upwards size [] = true
upwards size ((m, n) ∷ edges) = ltb m n && ltb n size && upwards size edges

abbrev pub range : ℕ → ℕ → List ℕ
range i zero = []
range i (suc k) = i ∷ range (suc i) k

abbrev pub is_cyclic : DiGraph → Bool
is_cyclic g = not (upwards (length g.weights) g.edges)

abbrev pub toposort : DiGraph → Option (List ℕ)
toposort g = elim (upwards (length g.weights) g.edges) [
  | true ↦ some (range 0 (length g.weights))
  | false ↦ none
]

length-range : (i k : ℕ) → length (range i k) ≡ k
length-range i zero = refl
length-range i (suc k) = ap suc (length-range (suc i) k)

IsIn-range : (n i k : ℕ) → i ≤ n → n < i + k → IsIn n (range i k)
IsIn-range n i zero le lt = absurd (omega arith)
IsIn-range n i (suc k) le lt = elim (Bool-cases (ltb i n)) [
  | inl below ↦ inr (IsIn-range n (suc i) k (omega (arith, ltb→lt i n below)) (omega arith))
  | inr at ↦ inl (omega (arith, ge_of_ltb i n at))
]

range-lt : (n i k : ℕ) → IsIn n (range i k) → n < i + k
range-lt n i zero h = absurd h
range-lt n i (suc k) (inl e) = omega arith
range-lt n i (suc k) (inr h) = omega (arith, range-lt n (suc i) k h)

Precedes-range : (m n i k : ℕ) → i ≤ m → m < n → n < i + k → Precedes m n (range i k)
Precedes-range m n i zero le lt in_range = absurd (omega arith)
Precedes-range m n i (suc k) le lt in_range = elim (Bool-cases (ltb i m)) [
  | inl below ↦
      inr (Precedes-range m n (suc i) k (omega (arith, ltb→lt i m below)) lt (omega arith))
  | inr at ↦ inl (
    omega (arith, ge_of_ltb i m at),
    IsIn-range n (suc i) k (omega (arith, ge_of_ltb i m at)) (omega arith),
  )
]

range-ge : (n i k : ℕ) → IsIn n (range i k) → i ≤ n
range-ge n i zero h = absurd h
range-ge n i (suc k) (inl e) = omega arith
range-ge n i (suc k) (inr h) = omega (arith, range-ge n (suc i) k h)

Distinct-range : (i k : ℕ) → Distinct (range i k)
Distinct-range i zero = tt
Distinct-range i (suc k) =
    (λ h. absurd (omega (arith, range-ge i (suc i) k h)), Distinct-range (suc i) k)

upwards-lt :
    (size : ℕ) (edges : List (ℕ × ℕ)) (m n : ℕ)
    → upwards size edges ≡ true
    → IsIn (m, n) edges
    → (m < n) × (n < size)
upwards-lt size [] m n h at = absurd at
upwards-lt size ((a, b) ∷ edges) m n h (inl e) =
    let ea : m ≡ a = ap (λ x. x.0) e in
    let eb : n ≡ b = ap (λ x. x.1) e in (ground (arith, h, ea, eb), ground (arith, h, ea, eb))
upwards-lt size ((a, b) ∷ edges) m n h (inr at) = upwards-lt size edges m n (ground (arith, h)) at

pub sorts : Sorts is_cyclic toposort
sorts g h =
    let up : upwards (length g.weights) g.edges ≡ true = ground arith in
    (
      range 0 (length g.weights),
      rw (up, toposort) refl,
      record {
        size = length-range 0 (length g.weights);
        every = λ n lt. IsIn-range n 0 (length g.weights) (omega arith) (omega arith);
        known = λ n at. omega (arith, range-lt n 0 (length g.weights) at);
        distinct = Distinct-range 0 (length g.weights);
        onwards = λ m n at.
            let (mn, n_lt) = upwards-lt (length g.weights) g.edges m n up at in
            Precedes-range m n 0 (length g.weights) (omega arith) mn (omega arith);
      },
    )

nodes-Distinct : Distinct (map (λ n. n.0) nodes)
nodes-Distinct = (λ h. elim h [ inl e ↦ load≢mean e | inr none_left ↦ none_left ], (λ h. h, tt))
  where
    load≢mean : ◌≡◌ {A = String} "load" "mean" → ⊥
    load≢mean e = let h : false ≡ true = (str_eq_iff "load" "mean").1 e in cc

abbrev analysis : ProcessGraphAnalysis
analysis = record {
  graph = record { weights = "load_collection" ∷ "reduce_dimension" ∷ []; edges = (0, 1) ∷ [] };
  ids = "load" ∷ "mean" ∷ [];
  result_id = "mean";
}

evaluation_order-Schedules_example :
    (order : List String) × (evaluation_order toposort analysis ≡ some order)
    × Schedules nodes order
unfolding build collect_from_node_refs idx
evaluation_order-Schedules_example =
    evaluation_order-Schedules is_cyclic toposort nodes analysis sorts nodes-Distinct refl

second_behind_first : evaluation_order toposort analysis ≡ some ("load" ∷ "mean" ∷ [])
unfolding evaluation_order
second_behind_first = refl

collect_from_node_refs-visit_all_example :
    collect_from_node_refs (λ id s. ok (id ∷ s)) arguments []
    ≡ visit_all (λ id s. ok (id ∷ s)) (found_in_fields arguments 0) []
collect_from_node_refs-visit_all_example =
    collect_from_node_refs-visit_all (λ id s. ok (id ∷ s)) arguments []

abbrev body : Value
body = object (
    field "process_graph"
      (object (
        field "load" (object (field "process_id" (string "load_collection") closed))
          (field "bad" (object (field "process_id" (string "frobnicate") closed)) closed)))
      closed)

frobnicate_unsupported : unsupported_process_ids body ("load_collection" ∷ []) ≡ "frobnicate" ∷ []
unfolding unsupported_process_ids
frobnicate_unsupported = refl
