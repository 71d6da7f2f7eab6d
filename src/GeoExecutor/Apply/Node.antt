-- ===== src/GeoExecutor/Apply/Node.antt =====
-- One node, where the calls below it are right.
use open_eo_ru_stac.Prelude.{
  ℕ, suc, ◌<◌, ◌≡◌, refl, sym, ap, ◌∙◌, subst, inl, inr, Bool, true, false, Bool-cases, String,
  Option, none, some, List, [], ◌∷◌, str_eq, str_eq_iff, if◌then◌else◌, IsIn, arith,
}
use open_eo_ru_stac.Json.{Value, Fields, get, get_field}
use open_eo_ru_stac.JobRunner.{ExecError}
use open_eo_ru_stac.GeoExecutor.SubGraph.{as_object, as_text}
use open_eo_ru_stac.GeoExecutor.Apply.{
  State, remembered, is_in_progress, popped, resolve_arguments, entered, looked_up,
}
use open_eo_ru_stac.GeoExecutor.Apply.Numeric.{Arithmetic, Eval, value, ◌>>=◌, require}
use open_eo_ru_stac.GeoExecutor.Apply.Kernel.{Args, apply_pure_numeric_op}
use open_eo_ru_stac.GeoExecutor.Apply.Meaning.{
  Means, applied, Means-unique, ArgumentsMean, ArgumentsMean-unique,
}
use open_eo_ru_stac.GeoExecutor.Apply.Settled.{
  Settled, is_value, is_failed, is_panicked, apply_pure_numeric_op-Settled,
}
use open_eo_ru_stac.GeoExecutor.Apply.Steps.{
  SoundMemo, Below, Ends, gave, refused, panics, Good, resolve_arguments-Ends,
}
use open_eo_ru_stac.GeoExecutor.Apply.Lookup.{names, get_field-IsIn, is_in_progress-IsIn}

module _ {F : Type 0} (ops : Arithmetic F) (nodes : Fields) (x : F) where
  -- What a derivation says of a node.
  record Applied (h : ℕ) (id : String) (v : F) : Type 0 where
    below : ℕ
    node : Value
    pid : String
    args : Fields
    resolved : Args F
    height : h ≡ suc below
    is_node : get_field id nodes ≡ some node
    has_process : as_text (get "process_id" node) ≡ some pid
    has_arguments : as_object (get "arguments" node) ≡ some args
    mean : ArgumentsMean ops nodes x below args resolved
    result : apply_pure_numeric_op ops resolved pid ≡ value v

  Means-Applied : {h : ℕ} {id : String} {v : F} → Means ops nodes x h id v → Applied h id v
  Means-Applied (applied {h} node pid args resolved n p a m r) = record {
    below = h;
    node = node;
    pid = pid;
    args = args;
    resolved = resolved;
    height = refl;
    is_node = n;
    has_process = p;
    has_arguments = a;
    mean = m;
    result = r;
  }

  pub SoundMemo-nil : SoundMemo ops nodes x []
  unfolding remembered
  SoundMemo-nil id v e = cc

  SoundMemo-cons :
      (h : ℕ) (id : String) (v : F) (memo : List (String × F))
      → Means ops nodes x h id v
      → SoundMemo ops nodes x memo
      → SoundMemo ops nodes x ((id, v) ∷ memo)
  unfolding remembered
  SoundMemo-cons h id v memo m sound j w e = elim (Bool-cases (str_eq id j)) [
    | inl same ↦
        let key : id ≡ j = (str_eq_iff id j).0 same in
        let found : some v ≡ some w =
          ap (λ b. if b then some v else remembered j memo) (sym same) ∙ e in
        let val : v ≡ w = cc in
        (h, subst (λ z. Means ops nodes x h j z) val (subst (λ k. Means ops nodes x h k v) key m))
    | inr other ↦ sound j w (ap (λ b. if b then some v else remembered j memo) (sym other) ∙ e)
  ]

  -- Below a node stand its arguments, and not the node itself.
  Below-cons :
      {h k : ℕ} {id : String} {v : F} (busy : List String)
      → Means ops nodes x h id v
      → h ≡ suc k
      → Below ops nodes x busy h
      → Below ops nodes x (id ∷ busy) k
  Below-cons {h} {k} {id} busy m e below j l w (inl same) m' =
      let eq = (Means-unique ops nodes x m (subst (λ y. Means ops nodes x l y w) same m')).0 in
      omega arith
  Below-cons {h} {k} busy m e below j l w (inr at) m' =
      let lt : h < l = below j l w at m' in omega arith

  -- A node with a meaning, whose parts are known.
  module _ {id : String} {node : Value} {pid : String} {args : Fields}
      (n : get_field id nodes ≡ some node) (p : as_text (get "process_id" node) ≡ some pid)
      (a : as_object (get "arguments" node) ≡ some args) where
    Applied-arguments :
        {h : ℕ} {v : F}
        → Applied h id v
        → (k : ℕ) × (rs : Args F) × (h ≡ suc k)
          × ArgumentsMean ops nodes x k args rs
          × (apply_pure_numeric_op ops rs pid ≡ value v)
    Applied-arguments {h} {v} d =
        let node_eq : d.node ≡ node = cc (d.is_node) in
        let pid_eq : d.pid ≡ pid =
          cc (subst (λ y. as_text (get "process_id" y) ≡ some d.pid) node_eq d.has_process) in
        let args_eq : d.args ≡ args =
          cc (subst (λ y. as_object (get "arguments" y) ≡ some d.args) node_eq d.has_arguments) in
        (
          d.below,
          d.resolved,
          d.height,
          subst (λ y. ArgumentsMean ops nodes x d.below y d.resolved) args_eq d.mean,
          subst (λ y. apply_pure_numeric_op ops d.resolved y ≡ value v) pid_eq d.result,
        )

    Means-result :
        {h k : ℕ} {v : F} {resolved : Args F}
        → ArgumentsMean ops nodes x k args resolved
        → Means ops nodes x h id v
        → apply_pure_numeric_op ops resolved pid ≡ value v
    Means-result {v} m mean =
        let (k', rs, height, m', e) = Applied-arguments (Means-Applied mean) in
        subst (λ y. apply_pure_numeric_op ops y pid ≡ value v)
          (sym (ArgumentsMean-unique ops nodes x m m').1) e

  module _ (busy : List String) (id : String) where
    abbrev M : ℕ → F → Type 0
    M h v = Means ops nodes x h id v

    -- The process, on the resolved arguments.
    kernel-Ends :
        (node : Value) (pid : String) (args : Fields) (h : ℕ) (resolved : Args F) (s : State F)
        (r : Eval F)
        → get_field id nodes ≡ some node
        → as_text (get "process_id" node) ≡ some pid
        → as_object (get "arguments" node) ≡ some args
        → ArgumentsMean ops nodes x h args resolved
        → SoundMemo ops nodes x s.memo
        → s.in_progress ≡ id ∷ busy
        → apply_pure_numeric_op ops resolved pid ≡ r
        → Settled r
        → Ends ops nodes x M busy (
            r >>= λ v.
            value (v, record { memo = (id, v) ∷ s.memo; in_progress = popped s.in_progress }))
    kernel-Ends node pid args h resolved s r n p a m sound same e (is_value v) =
        let mean : Means ops nodes x (suc h) id v = applied node pid args resolved n p a m e in
        gave (suc h) v (record { memo = (id, v) ∷ s.memo; in_progress = popped s.in_progress }) mean
          (SoundMemo-cons (suc h) id v s.memo mean sound) (ap popped same)
    kernel-Ends node pid args h resolved s r n p a m sound same e (is_failed error) =
        refused error (λ k v mean below.
          let result : apply_pure_numeric_op ops resolved pid ≡ value v =
            Means-result n p a m mean in
          cc)
    kernel-Ends node pid args h resolved s r n p a m sound same e is_panicked =
        panics (λ k v mean below.
          let result : apply_pure_numeric_op ops resolved pid ≡ value v =
            Means-result n p a m mean in
          cc)

    arguments-Ends :
        (node : Value) (pid : String) (args : Fields) (r : Eval (Args F × State F))
        → get_field id nodes ≡ some node
        → as_text (get "process_id" node) ≡ some pid
        → as_object (get "arguments" node) ≡ some args
        → Ends ops nodes x (λ h rs. ArgumentsMean ops nodes x h args rs) (id ∷ busy) r
        → Ends ops nodes x M busy (do
          (resolved, s') ← r
          v ← apply_pure_numeric_op ops resolved pid
          value (v, record { memo = (id, v) ∷ s'.memo; in_progress = popped s'.in_progress }))
    arguments-Ends node pid args r n p a (gave h rs s m sound same) =
        kernel-Ends node pid args h rs s (apply_pure_numeric_op ops rs pid) n p a m sound same refl
          (apply_pure_numeric_op-Settled ops rs pid)
    arguments-Ends node pid args r n p a (refused e never) = refused e (λ h v mean below.
        let (k, rs, height, m, result) = Applied-arguments n p a (Means-Applied mean) in
        never k rs m (Below-cons busy mean height below))
    arguments-Ends node pid args r n p a (panics never) = panics (λ h v mean below.
        let (k, rs, height, m, result) = Applied-arguments n p a (Means-Applied mean) in
        never k rs m (Below-cons busy mean height below))

    require-Ends :
        {B : Type 0} (e : ExecError) (o : Option B) (f : B → Eval (F × State F))
        → ((b : B) → o ≡ some b → Ends ops nodes x M busy (f b))
        → (o ≡ none → (h : ℕ) (v : F) → Applied h id v → ⊥)
        → Ends ops nodes x M busy (require e o >>= f)
    require-Ends e none f k never = refused e (λ h v m below. never refl h v (Means-Applied m))
    require-Ends e (some b) f k never = k b refl

    entered-Ends :
        (call : String → State F → Eval (F × State F)) (s : State F)
        → SoundMemo ops nodes x s.memo
        → s.in_progress ≡ id ∷ busy
        → (IsIn id (names nodes) → Good ops nodes x (id ∷ busy) call)
        → Ends ops nodes x M busy (entered ops nodes x call id s)
    entered-Ends call s sound same good =
        require-Ends _ (get_field id nodes) _
          (λ node n.
            require-Ends _ (as_text (get "process_id" node)) _
              (λ pid p.
                require-Ends _ (as_object (get "arguments" node)) _
                  (λ args a.
                    arguments-Ends node pid args (resolve_arguments ops nodes x call args s) n p a (
                      resolve_arguments-Ends ops nodes x (id ∷ busy) call
                        (good (get_field-IsIn id nodes node n)) args s sound same))
                  (λ missing h v d.
                    let node_eq : d.node ≡ node = cc (d.is_node) in
                    cc (
                      subst (λ y. as_object (get "arguments" y) ≡ some d.args) node_eq
                        d.has_arguments)))
              (λ missing h v d.
                let node_eq : d.node ≡ node = cc (d.is_node) in
                cc (subst (λ y. as_text (get "process_id" y) ≡ some d.pid) node_eq d.has_process)))
          (λ missing h v d. cc (d.is_node))

    pub looked_up-Ends :
        (call : String → State F → Eval (F × State F)) (s : State F) (o : Option F) (b : Bool)
        → SoundMemo ops nodes x s.memo
        → s.in_progress ≡ busy
        → remembered id s.memo ≡ o
        → is_in_progress id busy ≡ b
        → (is_in_progress id busy ≡ false
            → IsIn id (names nodes)
            → Good ops nodes x (id ∷ busy) call)
        → Ends ops nodes x M busy (looked_up ops nodes x call id s o b)
    looked_up-Ends call s (some v) b sound same found busy_is good =
        let (h, m) = sound id v found in gave h v s m sound same
    looked_up-Ends call s none true sound same found busy_is good = refused _ (λ h v m below.
        let lt : h < h = below id h v (is_in_progress-IsIn id busy busy_is) m in omega arith)
    looked_up-Ends call s none false sound same found busy_is good =
        entered-Ends call (record { memo = s.memo; in_progress = id ∷ s.in_progress }) sound
          (ap (λ b. id ∷ b) same) (good busy_is)
