-- ===== src/LocalExecutor/Requests.antt =====
-- The two executors behind `run_sync` and `enqueue`. What serde_json reads and writes, and the
-- digits of the hash of a body, are parameters.
use Prim.Native.String.{◌++◌ as ◌<>◌}
use open_eo_ru_stac.Prelude.{
  ◌>>=◌, ◌>>◌, ℕ, Bool, String, Option, none, some, List, [], ◌∷◌, Result, ok, err, ok_or,
}
use open_eo_ru_stac.Json.{Value, object, field, get}
use open_eo_ru_stac.JobRunner.{ExecError, invalid_graph, SyncResult}
use open_eo_ru_stac.ProcessGraph.{Node, DiGraph}
use open_eo_ru_stac.LocalExecutor.{evaluate}
use open_eo_ru_stac.LocalExecutor.Floats.{Environment}

pub record Codec : Type 0 where
  pub from_value : Value → Result (List Node) String
  pub to_vec : Value → List ℕ
  pub hash_digits : Value → String

abbrev pub or_else : Option Value → Option Value → Option Value
or_else (some v) other = some v
or_else none other = other

abbrev pub within_process : Option Value → Option Value
within_process none = none
within_process (some p) = get "process_graph" p

abbrev pub graph_value : Value → Option Value
graph_value body = or_else (within_process (get "process" body)) (get "process_graph" body)

abbrev pub accepted_wrapper : Option Value → Result (Unit {0}) ExecError
accepted_wrapper (some (object (field k v fs))) = ok tt
accepted_wrapper (some _) = err (invalid_graph "process_graph is not a non-empty object")
accepted_wrapper none = err (invalid_graph "missing process.process_graph")

unfoldable pub validate_process_wrapper : Value → Result (Unit {0}) ExecError
unfolding get
validate_process_wrapper body = accepted_wrapper (graph_value body)

module _ (codec : Codec) where
  abbrev pub json : Value → SyncResult
  json v = record { content_type = "application/json"; body = codec.to_vec v }

  -- `EchoExecutor`.
  unfoldable pub echo_run_sync : Value → Result SyncResult ExecError
  unfolding validate_process_wrapper
  echo_run_sync body = do validate_process_wrapper body; ok (json body)

  unfoldable pub echo_enqueue : Value → Result String ExecError
  unfolding validate_process_wrapper
  echo_enqueue body = do validate_process_wrapper body; ok ("job-" <> codec.hash_digits body)

  abbrev pub parsed : Result (List Node) String → Result (List Node) ExecError
  parsed (err text) = err (invalid_graph text)
  parsed (ok []) = err (invalid_graph "process_graph is empty")
  parsed (ok (node ∷ nodes)) = ok (node ∷ nodes)

  unfoldable pub parse_graph : Value → Result (List Node) ExecError
  unfolding get
  parse_graph body = do
    pg ← ok_or (invalid_graph "missing process.process_graph") (graph_value body)
    parsed (codec.from_value pg)

  unfoldable pub enqueue : Value → Result String ExecError
  unfolding parse_graph
  enqueue body = do parse_graph body; ok ("job-" <> codec.hash_digits body)

  module _ {F : Type 0} (env : Environment F) (is_cyclic_directed : DiGraph → Bool)
      (toposort : DiGraph → Option (List ℕ)) where
    abbrev pub answered : Option (Result Value ExecError) → Option (Result SyncResult ExecError)
    answered none = none
    answered (some (ok v)) = some (ok (json v))
    answered (some (err e)) = some (err e)

    abbrev pub evaluated : Result (List Node) ExecError → Option (Result SyncResult ExecError)
    evaluated (err e) = some (err e)
    evaluated (ok nodes) = answered (evaluate env is_cyclic_directed toposort nodes)

    -- `none` where the evaluation panics.
    unfoldable pub run_sync : Value → Option (Result SyncResult ExecError)
    unfolding parse_graph
    run_sync body = evaluated (parse_graph body)
