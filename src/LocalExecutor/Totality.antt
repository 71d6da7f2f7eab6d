-- ===== src/LocalExecutor/Totality.antt =====
-- The executor over the analysis of the graph: no evaluation fails for want of a value.
use open_eo_ru_stac.Prelude.{◌≡◌, ◌⊎◌, String, some, List, Result, ok, err, IsIn}
use open_eo_ru_stac.Json.{Value, Fields}
use open_eo_ru_stac.JobRunner.{ExecError}
use open_eo_ru_stac.ProcessGraph.{Node}
use open_eo_ru_stac.LocalExecutor.{Memo, recall, resolve_args, dispatch}
use open_eo_ru_stac.LocalExecutor.Floats.{Environment}
use open_eo_ru_stac.LocalExecutor.Memo.{Remembers}

module _ {F : Type 0} (env : Environment F) (nodes : List Node) where
  -- The value of a node: its process gives it for the node's arguments, whose links stand for values
  -- that are found in the same way.
  pub data Gives : String → Value → Type 0 where
    gives :
        (node : Node) (memo : Memo) (args : Fields) (v : Value)
        → IsIn node nodes
        → ((id : String) (u : Value) → recall id memo ≡ some u → Gives id u)
        → resolve_args node.1.arguments memo ≡ ok args
        → dispatch env node.1.process_id args ≡ ok v
        → Gives node.0 v

  abbrev pub Sound : Memo → Type 0
  Sound memo = (id : String) (u : Value) → recall id memo ≡ some u → Gives id u

  -- The process of a node of the graph refuses the node's arguments, in which the links stand for the
  -- values of their nodes.
  pub record Refused (e : ExecError) : Type 0 where
    pub node : Node
    pub memo : Memo
    pub args : Fields
    pub is_node : IsIn node nodes
    pub sound : Sound memo
    pub resolves : resolve_args node.1.arguments memo ≡ ok args
    pub refusal : dispatch env node.1.process_id args ≡ err e

  pub data LoopEnds (order : List String) (memo : Memo) : Result Memo ExecError → Type 0 where
    all_evaluated :
        (after : Memo)
        → ((id : String) → Remembers memo id ⊎ IsIn id order → Remembers after id)
        → Sound after
        → LoopEnds order memo (ok after)
    refused : (e : ExecError) → Refused e → LoopEnds order memo (err e)

-- What `evaluate` comes to: the value of the result node, or the error with which the process of some
-- node refuses its resolved arguments.
pub data Evaluates {F : Type 0} (env : Environment F) (nodes : List Node) (result : String)
    : Result Value ExecError → Type 0 where
  value : (v : Value) → Gives env nodes result v → Evaluates env nodes result (ok v)
  refusal : (e : ExecError) → Refused env nodes e → Evaluates env nodes result (err e)
