-- ===== src/GeoExecutor/Walk.antt =====
-- What the loop over the nodes leaves behind: the values that the handlers gave.
use Prim.Native.String.{◌++◌ as ◌<>◌}
use open_eo_ru_stac.Prelude.{
  ◌≡◌, refl, ◌∙◌, ap, sym, ◌⊎◌, inl, inr, String, Option, none, some, List, [], ◌∷◌, Result, ok,
  err, IsIn, subst, Distinct, Bool-cases, str_eq, str_eq_iff, if◌then◌else◌,
}
use open_eo_ru_stac.Json.{Value, Fields}
use open_eo_ru_stac.JobRunner.{ExecError, unknown_process}
use open_eo_ru_stac.ProcessGraph.{Node}
use open_eo_ru_stac.LocalExecutor.{Memo, recall, lookup_node, resolve_args}
use open_eo_ru_stac.LocalExecutor.Memo.{Remembers, Remembers-here, Remembers-later, resolve_args-ok}
use open_eo_ru_stac.LocalExecutor.Schedule.{
  lookup_node-known, Ready, AreNodes, Ready-next, AllKnown-next,
}
use open_eo_ru_stac.GeoExecutor.Registry.{ProcessRegistry, get}
use open_eo_ru_stac.GeoExecutor.Suggestions.{Suggests, suggest-Suggests}
use open_eo_ru_stac.GeoExecutor.Evaluator.{
  unknown_with, join, hinted, dispatched, call_node, eval_node, proceed, eval_loop,
}

-- Texts with a comma between each two.
pub data Listed : List String → String → Type 0 where
  one : (h : String) → Listed (h ∷ []) h
  more :
      (h j : String) (hs : List String) (text : String)
      → Listed (j ∷ hs) text
      → Listed (h ∷ j ∷ hs) (h <> ", " <> text)

-- What the error for an unknown process says: its name, and the hints where there are any.
pub data Says (name : String) : List String → String → Type 0 where
  bare : Says name [] name
  with_hints :
      (h : String) (hs : List String) (text : String)
      → Listed (h ∷ hs) text
      → Says name (h ∷ hs) (name <> " (did you mean: " <> text <> ")")

join-Listed : (h : String) (hs : List String) → Listed (h ∷ hs) (join (h ∷ hs))
join-Listed h [] = one h
join-Listed h (j ∷ hs) = more h j hs (join (j ∷ hs)) (join-Listed j hs)

unknown_with-Says :
    (name : String) (hints : List String)
    → (text : String) × (unknown_with name hints ≡ unknown_process text) × Says name hints text
unfolding unknown_with
unknown_with-Says name [] = (name, refl, bare)
unknown_with-Says name (h ∷ hs) = (_, refl, with_hints h hs (join (h ∷ hs)) (join-Listed h hs))

module _ {H W : Type 0} (registry : ProcessRegistry H)
    (handle : H → Fields → W → Option (Result Value ExecError × W)) (nodes : List Node) where
  -- The value of a node: its handler gave it, in some world, for arguments whose links stand for
  -- values that were found in the same way.
  pub data Gives : String → Value → Type 0 where
    gives :
        (node : Node) (h : H) (memo : Memo) (args : Fields) (v : Value) (w w' : W)
        → IsIn node nodes
        → get node.1.process_id registry ≡ some h
        → ((id : String) (u : Value) → recall id memo ≡ some u → Gives id u)
        → resolve_args node.1.arguments memo ≡ ok args
        → handle h args w ≡ some (ok v, w')
        → Gives node.0 v

  abbrev pub Sound : Memo → Type 0
  Sound memo = (id : String) (u : Value) → recall id memo ≡ some u → Gives id u

  Sound-next :
      (id : String) (v : Value) (memo : Memo) → Gives id v → Sound memo → Sound ((id, v) ∷ memo)
  unfolding recall
  Sound-next id v memo g sound j u h = elim (Bool-cases (str_eq id j)) [
    | inl same ↦
        let e : some v ≡ some u = ap (λ b. if b then some v else recall j memo) (sym same) ∙ h in
        let values : v ≡ u = cc in
        subst (λ x. Gives x u) ((str_eq_iff id j).0 same) (subst (λ x. Gives id x) values g)
    | inr other ↦ sound j u (ap (λ b. if b then some v else recall j memo) (sym other) ∙ h)
  ]

  -- Why an evaluation ends without a value, at a node of the graph, and with what world.
  pub data Stops : Option (ExecError × W) → Type 0 where
    unregistered :
        (node : Node) (hints : List String) (text : String) (w : W)
        → IsIn node nodes
        → get node.1.process_id registry ≡ none
        → Suggests node.1.process_id 3 registry hints
        → Says node.1.process_id hints text
        → Stops (some (unknown_process text, w))
    refused :
        (node : Node) (h : H) (memo : Memo) (args : Fields) (w w' : W) (e : ExecError)
        → IsIn node nodes
        → get node.1.process_id registry ≡ some h
        → Sound memo
        → resolve_args node.1.arguments memo ≡ ok args
        → handle h args w ≡ some (err e, w')
        → Stops (some (e, w'))
    panicked :
        (node : Node) (h : H) (memo : Memo) (args : Fields) (w : W)
        → IsIn node nodes
        → get node.1.process_id registry ≡ some h
        → Sound memo
        → resolve_args node.1.arguments memo ≡ ok args
        → handle h args w ≡ none
        → Stops none

  abbrev pub failed : {A : Type 0} → Option (ExecError × W) → Option (Result A ExecError × W)
  failed none = none
  failed (some (e, w)) = some (err e, w)

  data NodeEnds (id : String) : Option (Result Value ExecError × W) → Type 0 where
    gave : (out : Value) (w : W) → Gives id out → NodeEnds id (some (ok out, w))
    stopped : (s : Option (ExecError × W)) → Stops s → NodeEnds id (failed s)

  pub data LoopEnds (order : List String) (memo : Memo)
      : Option (Result Memo ExecError × W) → Type 0 where
    all_evaluated :
        (after : Memo) (w : W)
        → ((id : String) → Remembers memo id ⊎ IsIn id order → Remembers after id)
        → Sound after
        → LoopEnds order memo (some (ok after, w))
    stopped : (s : Option (ExecError × W)) → Stops s → LoopEnds order memo (failed s)

  handled-Ends :
      (node : Node) (h : H) (memo : Memo) (args : Fields) (w : W)
      (r : Option (Result Value ExecError × W))
      → IsIn node nodes
      → get node.1.process_id registry ≡ some h
      → Sound memo
      → resolve_args node.1.arguments memo ≡ ok args
      → handle h args w ≡ r
      → NodeEnds node.0 r
  handled-Ends node h memo args w none at found sound resolves eq =
      stopped none (panicked node h memo args w at found sound resolves eq)
  handled-Ends node h memo args w (some (ok out, w')) at found sound resolves eq =
      gave out w' (gives node h memo args out w w' at found sound resolves eq)
  handled-Ends node h memo args w (some (err e, w')) at found sound resolves eq =
      stopped (some (e, w')) (refused node h memo args w w' e at found sound resolves eq)

  dispatched-Ends :
      (node : Node) (o : Option H) (memo : Memo) (args : Fields) (w : W)
      → IsIn node nodes
      → get node.1.process_id registry ≡ o
      → Sound memo
      → resolve_args node.1.arguments memo ≡ ok args
      → NodeEnds node.0 (dispatched registry handle o node.1.process_id args w)
  dispatched-Ends node (some h) memo args w at found sound resolves =
      handled-Ends node h memo args w (handle h args w) at found sound resolves refl
  dispatched-Ends node none memo args w at missing sound resolves =
      let (hints, eq, s) = suggest-Suggests node.1.process_id 3 registry in
      subst (λ r. NodeEnds node.0 r) (sym (ap (hinted registry handle node.1.process_id w) eq))
        (told hints s (unknown_with-Says node.1.process_id hints))
    where
      told :
          (hints : List String)
          → Suggests node.1.process_id 3 registry hints
          → (text : String) × (unknown_with node.1.process_id hints ≡ unknown_process text)
            × Says node.1.process_id hints text
          → NodeEnds node.0 (some (err (unknown_with node.1.process_id hints), w))
      told hints s (text, eq, says) =
          subst (λ e. NodeEnds node.0 (some (err e, w))) (sym eq)
            (stopped (some (unknown_process text, w))
              (unregistered node hints text w at missing s says))

  extended :
      (id : String) (out : Value) (order : List String) (memo : Memo)
      (r : Option (Result Memo ExecError × W))
      → LoopEnds order ((id, out) ∷ memo) r
      → LoopEnds (id ∷ order) memo r
  extended id out order memo r (all_evaluated after w keeps sound) =
      all_evaluated after w (λ j h. keeps j (pass j h)) sound
    where
      pass :
          (j : String)
          → Remembers memo j ⊎ IsIn j (id ∷ order)
          → Remembers ((id, out) ∷ memo) j ⊎ IsIn j order
      pass j (inl r) = inl (Remembers-later j id out memo r)
      pass j (inr (inl e)) =
          inl (subst (λ x. Remembers ((id, out) ∷ memo) x) (sym e) (Remembers-here id out memo))
      pass j (inr (inr at)) = inr at
  extended id out order memo r (stopped s h) = stopped s h

  proceed-Ends :
      (id : String) (order : List String) (memo : Memo) (r : Option (Result Value ExecError × W))
      → NodeEnds id r
      → ((out : Value) (w : W)
          → Gives id out
          → LoopEnds order
              ((id, out) ∷ memo)
              (eval_loop registry handle nodes order ((id, out) ∷ memo) w))
      → LoopEnds
          (id ∷ order)
          memo
          (proceed registry handle (eval_loop registry handle nodes order) id memo r)
  proceed-Ends id order memo r (gave out w g) rest = extended id out order memo _ (rest out w g)
  proceed-Ends id order memo r (stopped none h) rest = stopped none h
  proceed-Ends id order memo r (stopped (some (e, w)) h) rest = stopped (some (e, w)) h

  pub eval_loop-Ends :
      (order : List String) (memo : Memo) (w : W)
      → Distinct order
      → AreNodes nodes order
      → Ready nodes memo order
      → Sound memo
      → LoopEnds order memo (eval_loop registry handle nodes order memo w)
  unfolding eval_loop
  eval_loop-Ends [] memo w distinct known ready sound =
      all_evaluated memo w (λ id h. elim h [ inl r ↦ r | inr at ↦ absurd at ]) sound
  eval_loop-Ends (id ∷ order) memo w (new, distinct) known ready sound =
      let (node, at, same) = known id (inl refl) in
      let (p, found, is_node) = lookup_node-known nodes node at in
      let found' : lookup_node id nodes ≡ some p =
        ap (λ x. lookup_node x nodes) (sym same) ∙ found in
      let is_node' : IsIn (id, p) nodes = subst (λ x. IsIn (x, p) nodes) same is_node in
      let (args, resolves) =
        resolve_args-ok p.arguments memo (AllKnown-next nodes id p order memo new is_node' ready) in
      let ends : NodeEnds id (eval_node registry handle id (lookup_node id nodes) memo w) =
        subst (λ o. NodeEnds id (eval_node registry handle id o memo w)) (sym found')
          (subst (λ a. NodeEnds id (call_node registry handle p a w)) (sym resolves)
            (dispatched-Ends (id, p) (get p.process_id registry) memo args w is_node' refl sound
              resolves)) in
      proceed-Ends id order memo _ ends (λ out w' g.
        eval_loop-Ends order ((id, out) ∷ memo) w' distinct (λ j later. known j (inr later))
          (Ready-next nodes id out order memo ready) (Sound-next id out memo g sound))
