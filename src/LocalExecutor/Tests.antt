-- ===== src/LocalExecutor/Tests.antt =====
-- The graph 3 + 4 over natural numbers.
use open_eo_ru_stac.Prelude.{
  ℕ, ◌+◌, ◌-◌, ◌*◌, ◌/◌, ◌==◌, ◌≡◌, refl, String, none, some, List, [], ◌∷◌, ok, Distinct, map,
  false, inl, inr, str_eq_iff, true,
}
use open_eo_ru_stac.Json.{
  Value, number, pos_int, neg_int, float, Number, string, object, null, closed, field,
}
use open_eo_ru_stac.ProcessGraph.{Node, ProcessGraphAnalysis, collect_from_node_refs, idx}
use open_eo_ru_stac.ProcessGraph.Tests.{is_cyclic, toposort}
use open_eo_ru_stac.LocalExecutor.{evaluate}
use open_eo_ru_stac.LocalExecutor.Floats.{Environment}
use open_eo_ru_stac.LocalExecutor.Requests.{Codec}

abbrev pub natural : Number → ℕ
natural (pos_int n) = n
natural (neg_int n) = 0
natural (float n) = n

abbrev env : Environment ℕ
env = record {
  floats = record {
    as_f64 = natural;
    value_of = λ n. number (pos_int n);
    add = λ a b. a + b;
    subtract = λ a b. a - b;
    multiply = λ a b. a * b;
    divide = λ a b. a / b;
    is_zero = λ a. a == 0;
  };
  catalog = none;
}

abbrev three : Value
three = number (pos_int 3)

abbrev link_to_sum : Value
link_to_sum = object (field "from_node" (string "a") closed)

abbrev pub nodes : List Node
nodes =
    (
      "a",
      record {
        process_id = "add";
        arguments = field "x" three (field "y" (number (pos_int 4)) closed);
        result = none;
      },
    )
    ∷ (
      "b",
      record {
        process_id = "save_result";
        arguments = field "data" link_to_sum closed;
        result = some true;
      },
    )
    ∷ []

abbrev pub analysis : ProcessGraphAnalysis
analysis = record {
  graph = record { weights = "add" ∷ "save_result" ∷ []; edges = (0, 1) ∷ [] };
  ids = "a" ∷ "b" ∷ [];
  result_id = "b";
}

pub nodes-Distinct : Distinct (map (λ n. n.0) nodes)
nodes-Distinct = (λ h. elim h [ inl e ↦ apart e | inr none_left ↦ none_left ], (λ h. h, tt))
  where
    apart : ◌≡◌ {A = String} "a" "b" → ⊥
    apart e = let h : false ≡ true = (str_eq_iff "a" "b").1 e in cc

sum : evaluate env is_cyclic toposort nodes ≡ some (ok (number (pos_int 7)))
unfolding evaluate collect_from_node_refs idx
sum = refl

-- A codec that reads these nodes out of every value.
abbrev pub codec : Codec
codec = record { from_value = λ v. ok nodes; to_vec = λ v. 55 ∷ []; hash_digits = λ v. "00000000" }

abbrev pub body : Value
body = object (field "process_graph" null closed)
