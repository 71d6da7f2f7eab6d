-- ===== src/TypedIr/Tests.antt =====
-- A collection and an apply whose callback is read as one node, over natural numbers.
use open_eo_ru_stac.Prelude.{
  ℕ, decimal, ◌≡◌, ◌≤◌, refl, subst, suc, arith, true, String, none, some, List, [], ◌∷◌, Result,
  ok, err,
}
use open_eo_ru_stac.Json.{
  Value, null, bool, number, string, array, object, pos_int, item, empty, Fields, closed, field,
}
use open_eo_ru_stac.ProcessGraph.{Node}
use open_eo_ru_stac.LocalExecutor.Tests.{natural}
use open_eo_ru_stac.TypedIr.{
  IrOps, value, failed, bad_argument, unsupported_process, ir, node, no_nodes, load_collection,
  apply, ref, resample_spatial, literal, from_nodes, parse, temporal_extent,
}
use open_eo_ru_stac.TypedIr.Depth.{depth, deepest}
use open_eo_ru_stac.TypedIr.Lifting.{Shrinks, Lifts, from_nodes-Lifts}

abbrev collection : Fields
collection = field "id" (string "s2") closed

abbrev inner : List Node
inner =
    ("m", record { process_id = "load_collection"; arguments = collection; result = some true })
    ∷ []

abbrev read_as_inner : Value → Result (List Node) String
read_as_inner (object fs) = ok inner
read_as_inner _ = err "expected a map"

abbrev ops : IrOps ℕ
ops = record { as_f64 = natural; from_value = read_as_inner }

shrinks : Shrinks ops
unfolding depth deepest
shrinks (object fs) nodes h =
    let same : inner ≡ nodes = cc in
    subst (λ ns. suc (deepest ns) ≤ depth (object fs)) same (omega arith)
shrinks null nodes h = cc
shrinks (bool b) nodes h = cc
shrinks (number n) nodes h = cc
shrinks (string s) nodes h = cc
shrinks (array vs) nodes h = cc

abbrev applied : Fields
applied =
    field "data" (object (field "from_node" (string "a") closed))
      (field "process" (object (field "process_graph" (object closed) closed)) closed)

abbrev nodes : List Node
nodes =
    ("a", record { process_id = "load_collection"; arguments = collection; result = none })
    ∷ ("b", record { process_id = "apply"; arguments = applied; result = some true })
    ∷ []

from_nodes-Lifts_example : Lifts ops (from_nodes ops 2) nodes none (from_nodes ops 3 nodes)
unfolding deepest depth
from_nodes-Lifts_example = from_nodes-Lifts ops 2 nodes shrinks (omega arith)

typed_apply :
    from_nodes ops 3 nodes
    ≡ value (
        ir
          (node "a" (load_collection "s2" none none none) (
            node "b"
              (apply
                (ref "a")
                (ir (node "m" (load_collection "s2" none none none) no_nodes) (some "m")))
              no_nodes))
          (some "b"))
unfolding from_nodes
typed_apply = refl

unknown :
    from_nodes ops 1 (("a", record { process_id = "sort"; arguments = closed; result = none }) ∷ [])
    ≡ failed (unsupported_process "sort")
unfolding from_nodes
unknown = refl

three_entries :
    temporal_extent (array (item null (item null (item null empty))))
    ≡ failed (bad_argument "temporal_extent" "value" "expected 2 entries, got 3")
unfolding temporal_extent decimal
three_entries = refl

-- The code of a projection is cut to 32 bits.
wrapped :
    parse ops (from_nodes ops 0) (record {
      process_id = "resample_spatial";
      arguments = field "data" null (field "projection" (number (pos_int 4294999626)) closed);
      result = none;
    })
    ≡ value (resample_spatial (literal null) 32330 none)
unfolding parse
wrapped = refl
