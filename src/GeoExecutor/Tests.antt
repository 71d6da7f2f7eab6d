-- ===== src/GeoExecutor/Tests.antt =====
-- The names flaw and lawn, a registry of three processes over natural numbers, the graph 3 + 4,
-- and a callback that adds the pixel to itself twice over.
pub mod Saved
pub mod Values
use open_eo_ru_stac.Prelude.{
  ℕ, ◌+◌, ◌-◌, ◌*◌, ◌/◌, ◌^◌, ◌≤◌, ◌==◌, ◌≡◌, refl, min, max, ltb, leb, if◌then◌else◌, Bool, String,
  Option, none, some, List, [], ◌∷◌, Result, ok, err,
}
use open_eo_ru_stac.Json.{
  Value, number, pos_int, bool, string, array, object, item, empty, Fields, closed, field,
  get_field, null,
}
use open_eo_ru_stac.JobRunner.{ExecError, invalid_graph}
use open_eo_ru_stac.ProcessGraph.{collect_from_node_refs, idx}
use open_eo_ru_stac.ProcessGraph.Tests.{is_cyclic, toposort}
use open_eo_ru_stac.LocalExecutor.Tests.{nodes, natural}
use open_eo_ru_stac.FileStore.{codes}
use open_eo_ru_stac.GeoExecutor.Spelling.{levenshtein}
use open_eo_ru_stac.GeoExecutor.Spelling.Alignment.{Edits}
use open_eo_ru_stac.GeoExecutor.Spelling.Rows.{levenshtein-Least}
use open_eo_ru_stac.GeoExecutor.Registry.{ProcessRegistry, suggest}
use open_eo_ru_stac.GeoExecutor.Suggestions.{Suggests, suggest-Suggests}
use open_eo_ru_stac.GeoExecutor.Evaluator.{evaluate}
use open_eo_ru_stac.GeoExecutor.SubGraph.{find_unique_result_node}
use open_eo_ru_stac.GeoExecutor.Apply.{eval_apply_subgraph}
use open_eo_ru_stac.GeoExecutor.Apply.Numeric.{Arithmetic, value, failed}
use open_eo_ru_stac.GeoExecutor.Apply.Correct.{Computes, eval_apply_subgraph-Computes}

abbrev flaw : List ℕ
flaw = codes "flaw"

abbrev lawn : List ℕ
lawn = codes "lawn"

levenshtein-Least_example :
    (d : ℕ) × (levenshtein flaw lawn ≡ some d)
    × Edits flaw lawn d
    × ((n : ℕ) → Edits flaw lawn n → d ≤ n)
levenshtein-Least_example = levenshtein-Least flaw lawn

flaw_to_lawn : levenshtein flaw lawn ≡ some 2
unfolding levenshtein codes
flaw_to_lawn = refl

-- What a process does with its arguments.
abbrev pub Handler : Type 0
Handler = Fields → Result Value ExecError

abbrev pub added : Option Value → Option Value → Result Value ExecError
added (some (number a)) (some (number b)) = ok (number (pos_int (natural a + natural b)))
added _ _ = err (invalid_graph "expected numeric argument")

abbrev pub saved : Option Value → Result Value ExecError
saved (some v) = ok v
saved none = ok null

abbrev pub registry : ProcessRegistry Handler
registry =
    ("add", λ args. added (get_field "x" args) (get_field "y" args))
    ∷ ("and", λ args. ok (bool Bool.true))
    ∷ ("save_result", λ args. saved (get_field "data" args))
    ∷ []

-- The world counts the calls.
abbrev pub handle : Handler → Fields → ℕ → Option (Result Value ExecError × ℕ)
handle h args w = some (h args, w + 1)

suggest-Suggests_example :
    (hints : List String) × (suggest "ad" 3 registry ≡ some hints) × Suggests "ad" 3 registry hints
suggest-Suggests_example = suggest-Suggests "ad" 3 registry

hints_for_ad : suggest "ad" 3 registry ≡ some ("add" ∷ "and" ∷ [])
unfolding suggest
hints_for_ad = refl

sum_saved :
    evaluate registry handle is_cyclic toposort nodes 0
    ≡ some (ok ("save_result", number (pos_int 7)), 2)
unfolding evaluate collect_from_node_refs idx
sum_saved = refl

abbrev pub ops : Arithmetic ℕ
ops = record {
  as_f64 = natural;
  zero_point = 0;
  one_point = 1;
  epsilon_9 = 1;
  epsilon_12 = 1;
  plus = λ a b. a + b;
  minus = λ a b. a - b;
  times = λ a b. a * b;
  over = λ a b. a / b;
  powf = λ a b. a ^ b;
  log_base = λ a b. a / b;
  maximum = max;
  minimum = min;
  atan2 = λ a b. a;
  abs = λ a. a;
  ln = λ a. a;
  exp = λ a. a;
  signum = λ a. min a 1;
  floor = λ a. a;
  ceil = λ a. a;
  trunc = λ a. a;
  sqrt = λ a. a;
  cos = λ a. a;
  sin = λ a. a;
  tan = λ a. a;
  acos = λ a. a;
  asin = λ a. a;
  atan = λ a. a;
  round_ties_even = λ a. a;
  powi_10 = λ a. 10 ^ a;
  is_zero = λ a. a == 0;
  less = ltb;
  less_equal = leb;
  clamp = λ a lo hi. if leb lo hi then some (max lo (min a hi)) else none;
  show = λ v. "value";
}

abbrev process : String → Fields → Bool → Value
process name args result = object (
    field "process_id" (string name)
      (field "arguments" (object args) (field "result" (bool result) closed)))

abbrev parameter : Value
parameter = object (field "from_parameter" (string "x") closed)

abbrev link : String → Value
link id = object (field "from_node" (string id) closed)

-- Both operands of `b` are the node `a`, of which the second is found in the memo.
abbrev callback : Fields
callback =
    field "a"
      (process "add" (field "data" (array (item parameter (item parameter empty))) closed)
        Bool.false)
      (field "b" (process "add" (field "x" (link "a") (field "y" (link "a") closed)) Bool.true)
        closed)

eval_apply_subgraph-Computes_example :
    Computes ops callback 5 "b" (eval_apply_subgraph ops (object callback) 5)
unfolding find_unique_result_node
eval_apply_subgraph-Computes_example =
    eval_apply_subgraph-Computes ops callback 5 "b"
      (process "add" (field "x" (link "a") (field "y" (link "a") closed)) Bool.true) refl refl

four_times_five : eval_apply_subgraph ops (object callback) 5 ≡ value 20
unfolding eval_apply_subgraph
four_times_five = refl

-- A node that links to itself.
own_operand :
    eval_apply_subgraph ops
      (object (
        field "a"
          (process "add" (field "x" (link "a") (field "y" parameter closed)) Bool.true)
          closed))
      5
    ≡ failed (invalid_graph "apply: cycle detected at node `a`")
unfolding eval_apply_subgraph
own_operand = refl
