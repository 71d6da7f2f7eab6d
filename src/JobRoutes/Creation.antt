-- ===== src/JobRoutes/Creation.antt =====
-- Which bodies create_job takes, and what it makes of them.
use open_eo_ru_stac.Prelude.{
  ℕ, ◌≡◌, Bool, String, Option, none, some, List, Result, ok, err, IsIn, ◌≢◌,
}
use open_eo_ru_stac.Prelude.Int.{ℤ}
use open_eo_ru_stac.Json.{Value, Number, get as get_value}
use open_eo_ru_stac.JobStore.{InMemoryJobStore}
use open_eo_ru_stac.ProcessGraph.{DiGraph, Node, GraphError, ProcessGraphAnalysis, build}
use open_eo_ru_stac.ProcessGraph.ProcessIds.{collect_process_ids}
use open_eo_ru_stac.LocalExecutor.Requests.{within_process}
use open_eo_ru_stac.JobRoutes.{get_job}
use open_eo_ru_stac.JobRoutes.Replies.{Response, respond, with_message}

module _ (percent : ℤ → Number) (from_value : Value → Result (List Node) String)
    (is_cyclic : DiGraph → Bool) (process_ids : List String) (now : ℕ) (fresh : String)
    (body : Value) (s : InMemoryJobStore) where
  abbrev graph : Option Value
  graph = within_process (get_value "process" body)

  -- Why a body is refused.
  pub data Refusal : Type 0 where
    no_graph : graph ≡ none → Refusal
    unparsed : (g : Value) (text : String) → graph ≡ some g → from_value g ≡ err text → Refusal
    unsound :
        (g : Value) (nodes : List Node) (e : GraphError)
        → graph ≡ some g
        → from_value g ≡ ok nodes
        → build is_cyclic nodes ≡ err e
        → Refusal
    unknown :
        (id : String) → IsIn id (collect_process_ids body) → (IsIn id process_ids → ⊥) → Refusal

  pub record Sound : Type 0 where
    pub g : Value
    pub nodes : List Node
    pub analysis : ProcessGraphAnalysis
    pub given : graph ≡ some g
    pub parses : from_value g ≡ ok nodes
    pub builds : build is_cyclic nodes ≡ ok analysis
    pub known : (id : String) → IsIn id (collect_process_ids body) → (IsIn id process_ids → ⊥) → ⊥

  -- A job that was made: the answer shows it, a read of it gives the same, and the others are as
  -- they were.
  pub record Made (out : Response × InMemoryJobStore) : Type 0 where
    pub status : out.0.status ≡ 201
    pub shown : get_job percent fresh out.1 ≡ respond 200 out.0.body
    pub others : (j : String) → j ≢ fresh → get_job percent j out.1 ≡ get_job percent j s

  pub data Creates : Response × InMemoryJobStore → Type 0 where
    refused :
        (code message : String) → Refusal → Creates (respond 400 (with_message code message), s)
    created : (out : Response × InMemoryJobStore) → Sound → Made out → Creates out
