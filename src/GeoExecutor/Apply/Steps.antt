-- ===== src/GeoExecutor/Apply/Steps.antt =====
-- The arguments of a node, where the calls for its links are right.
use open_eo_ru_stac.Prelude.{
  ℕ, max, ◌≤◌, ◌<◌, ◌≡◌, refl, subst, String, Option, none, some, List, [], ◌∷◌, IsIn, arith,
}
use open_eo_ru_stac.Json.{
  Value, null, bool, number, string, array, object, Items, empty, item, Fields, closed, field,
  get_field,
}
use open_eo_ru_stac.JobRunner.{ExecError}
use open_eo_ru_stac.GeoExecutor.SubGraph.{as_text}
use open_eo_ru_stac.GeoExecutor.Apply.{
  State, remembered, in_object, scalar, resolve_arg_value, resolve_elements, resolve_arguments,
}
use open_eo_ru_stac.GeoExecutor.Apply.Numeric.{Arithmetic, Eval, value, failed, panicked, ◌>>=◌}
use open_eo_ru_stac.GeoExecutor.Apply.Kernel.{ArgVal, num, arr, Args}
use open_eo_ru_stac.GeoExecutor.Apply.Meaning.{
  Means, ArgMeans, literal, pixel, linked, elements, ArgMeans-unique, ArgumentsMean, no_arguments,
  argument, ElementsMean, no_elements, element,
}

module _ {F : Type 0} (ops : Arithmetic F) (nodes : Fields) (x : F) where
  -- What the memo holds is meant.
  abbrev pub SoundMemo : List (String × F) → Type 0
  SoundMemo memo =
      (id : String) (v : F) → remembered id memo ≡ some v → (h : ℕ) × Means ops nodes x h id v

  -- The nodes in progress stand higher than `h`.
  abbrev pub Below : List String → ℕ → Type 0
  Below busy h = (j : String) (k : ℕ) (w : F) → IsIn j busy → Means ops nodes x k j w → h < k

  -- A computation ends with what is meant, and where it fails nothing below the nodes in progress is.
  pub data Ends {A : Type 0} (M : ℕ → A → Type 0) (busy : List String)
      : Eval (A × State F) → Type 0 where
    gave :
        (h : ℕ) (a : A) (s : State F)
        → M h a
        → SoundMemo s.memo
        → s.in_progress ≡ busy
        → Ends M busy (value (a, s))
    refused :
        (e : ExecError) → ((h : ℕ) (a : A) → M h a → Below busy h → ⊥) → Ends M busy (failed e)
    panics : ((h : ℕ) (a : A) → M h a → Below busy h → ⊥) → Ends M busy panicked

  pub Ends-bind :
      {A B : Type 0} (M : ℕ → A → Type 0) (N : ℕ → B → Type 0) (busy : List String)
      (r : Eval (A × State F)) (f : A × State F → Eval (B × State F))
      → Ends M busy r
      → ((h : ℕ) (b : B) → N h b → (k : ℕ) × (a : A) × M k a × (k ≤ h))
      → ((h : ℕ) (a : A) (s : State F)
          → M h a
          → SoundMemo s.memo
          → s.in_progress ≡ busy
          → Ends N busy (f (a, s)))
      → Ends N busy (r >>= f)
  Ends-bind M N busy r f (gave h a s m sound same) needs k = k h a s m sound same
  Ends-bind M N busy r f (refused e never) needs k = refused e (λ h b n below.
      let (i, a, m, le) = needs h b n in
      never i a m (λ j l w at mean. let lt : h < l = below j l w at mean in omega arith))
  Ends-bind M N busy r f (panics never) needs k = panics (λ h b n below.
      let (i, a, m, le) = needs h b n in
      never i a m (λ j l w at mean. let lt : h < l = below j l w at mean in omega arith))

  abbrev pub Good : List String → (String → State F → Eval (F × State F)) → Type 0
  Good busy call =
      (target : String) (s : State F)
      → SoundMemo s.memo
      → s.in_progress ≡ busy
      → Ends (λ h v. Means ops nodes x h target v) busy (call target s)

  linked_inverse :
      {h : ℕ} {fs : Fields} {r : ArgVal F} (target : String)
      → as_text (get_field "from_parameter" fs) ≡ none
      → as_text (get_field "from_node" fs) ≡ some target
      → ArgMeans ops nodes x h (object fs) r
      → (v : F) × Means ops nodes x h target v
  linked_inverse target e f (pixel p e') = let clash : ⊥ = cc in absurd clash
  linked_inverse {h} target e f (linked {v} t e' f' m) =
      let same : t ≡ target = cc in (v, subst (λ y. Means ops nodes x h y v) same m)

  unlinked :
      {h : ℕ} {fs : Fields} {r : ArgVal F}
      → as_text (get_field "from_parameter" fs) ≡ none
      → as_text (get_field "from_node" fs) ≡ none
      → ArgMeans ops nodes x h (object fs) r
      → ⊥
  unlinked e f (pixel p e') = cc
  unlinked e f (linked t e' f' m) = cc

  abbrev Denotes : Value → Type 0
  Denotes null = ⊥
  Denotes (bool b) = ⊥
  Denotes (string t) = ⊥
  Denotes _ = Unit {0}

  ArgMeans-Denotes : {h : ℕ} {v : Value} {r : ArgVal F} → ArgMeans ops nodes x h v r → Denotes v
  ArgMeans-Denotes literal = tt
  ArgMeans-Denotes (pixel p e) = tt
  ArgMeans-Denotes (linked t e f m) = tt
  ArgMeans-Denotes (elements m) = tt

  elements_inverse :
      {h : ℕ} {vs : Items} {r : ArgVal F}
      → ArgMeans ops nodes x h (array vs) r
      → (ns : List F) × ElementsMean ops nodes x h vs ns
  elements_inverse (elements {ns} m) = (ns, m)

  element_inverse :
      {l : ℕ} {v : Value} {vs : Items} {ns : List F}
      → ElementsMean ops nodes x l (item v vs) ns
      → (h : ℕ) × (n : F) × (k : ℕ) × (rest : List F) × ArgMeans ops nodes x h v (num n)
        × ElementsMean ops nodes x k vs rest
        × (h ≤ l)
        × (k ≤ l)
  element_inverse (element {h} {k} {n} {ns} m e q) = (h, n, k, ns, m, e, omega arith, omega arith)

  argument_inverse :
      {l : ℕ} {name : String} {v : Value} {fs : Fields} {rs : Args F}
      → ArgumentsMean ops nodes x l (field name v fs) rs
      → (h : ℕ) × (r : ArgVal F) × (k : ℕ) × (rest : Args F) × ArgMeans ops nodes x h v r
        × ArgumentsMean ops nodes x k fs rest
        × (h ≤ l)
        × (k ≤ l)
  argument_inverse (argument {h} {k} {r} {rest} m e q) =
      (h, r, k, rest, m, e, omega arith, omega arith)

  module _ (busy : List String) (call : String → State F → Eval (F × State F))
      (good : Good busy call) where
    object-Ends :
        (fs : Fields) (s : State F) (p link : Option String)
        → SoundMemo s.memo
        → s.in_progress ≡ busy
        → as_text (get_field "from_parameter" fs) ≡ p
        → as_text (get_field "from_node" fs) ≡ link
        → Ends
            (λ h r. ArgMeans ops nodes x h (object fs) r)
            busy
            (in_object ops nodes x call (object fs) s p link)
    object-Ends fs s (some p) link sound same e f = gave 0 (num x) s (pixel p e) sound same
    object-Ends fs s none (some target) sound same e f =
        Ends-bind (λ h v. Means ops nodes x h target v)
          (λ h r. ArgMeans ops nodes x h (object fs) r) busy (call target s) _
          (good target s sound same)
          (λ h r m. let (v, m') = linked_inverse target e f m in (h, v, m', omega arith))
          (λ h v s' m sound' same'. gave h (num v) s' (linked target e f m) sound' same')
    object-Ends fs s none none sound same e f = refused _ (λ h r m below. unlinked e f m)

    scalar-Ends :
        (h : ℕ) (v : Value) (vs : Items) (r : ArgVal F) (s : State F)
        (f : F → Eval (List F × State F))
        → ArgMeans ops nodes x h v r
        → ((n : F)
            → r ≡ num n
            → Ends (λ k ns. ElementsMean ops nodes x k (item v vs) ns) busy (f n))
        → Ends (λ k ns. ElementsMean ops nodes x k (item v vs) ns) busy (scalar ops nodes x r >>= f)
    scalar-Ends h v vs (num n) s f m k = k n refl
    scalar-Ends h v vs (arr ns) s f m k = refused _ (λ l rs e below.
        let (i, n, j, rest, m', e', le, le') = element_inverse e in
        clash n (ArgMeans-unique ops nodes x m m').1)
      where
        clash : (n : F) → arr ns ≡ num n → ⊥
        clash n q = cc

    mutual
      unfolding resolve_arg_value

      pub resolve_arg_value-Ends :
          (v : Value) (s : State F)
          → SoundMemo s.memo
          → s.in_progress ≡ busy
          → Ends (λ h r. ArgMeans ops nodes x h v r) busy (resolve_arg_value ops nodes x call v s)
      resolve_arg_value-Ends (number n) s sound same =
          gave 0 (num (ops.as_f64 n)) s literal sound same
      resolve_arg_value-Ends (object fs) s sound same =
          object-Ends fs s (as_text (get_field "from_parameter" fs))
            (as_text (get_field "from_node" fs)) sound same refl refl
      resolve_arg_value-Ends (array vs) s sound same =
          Ends-bind (λ h ns. ElementsMean ops nodes x h vs ns)
            (λ h r. ArgMeans ops nodes x h (array vs) r) busy
            (resolve_elements ops nodes x call vs s) _ (resolve_elements-Ends vs s sound same)
            (λ h r m. let (ns, e) = elements_inverse m in (h, ns, e, omega arith))
            (λ h ns s' m sound' same'. gave h (arr ns) s' (elements m) sound' same')
      resolve_arg_value-Ends null s sound same = refused _ (λ h r m below. ArgMeans-Denotes m)
      resolve_arg_value-Ends (bool b) s sound same = refused _ (λ h r m below. ArgMeans-Denotes m)
      resolve_arg_value-Ends (string t) s sound same = refused _ (λ h r m below. ArgMeans-Denotes m)

      pub resolve_elements-Ends :
          (vs : Items) (s : State F)
          → SoundMemo s.memo
          → s.in_progress ≡ busy
          → Ends
              (λ h ns. ElementsMean ops nodes x h vs ns)
              busy
              (resolve_elements ops nodes x call vs s)
      resolve_elements-Ends empty s sound same = gave 0 [] s no_elements sound same
      resolve_elements-Ends (item v vs) s sound same =
          Ends-bind (λ h r. ArgMeans ops nodes x h v r)
            (λ h ns. ElementsMean ops nodes x h (item v vs) ns) busy
            (resolve_arg_value ops nodes x call v s) _ (resolve_arg_value-Ends v s sound same)
            (λ l ns e. let (i, n, j, rest, m, e', le, le') = element_inverse e in (i, num n, m, le))
            (λ h r s' m sound' same'. scalar-Ends h v vs r s' _ m (λ n q.
              Ends-bind (λ k ns. ElementsMean ops nodes x k vs ns)
                (λ k ns. ElementsMean ops nodes x k (item v vs) ns) busy
                (resolve_elements ops nodes x call vs s') _
                (resolve_elements-Ends vs s' sound' same')
                (λ l ns e.
                  let (i, n', j, rest, m', e', le, le') = element_inverse e in (j, rest, e', le'))
                (λ k ns s'' e sound'' same''.
                  gave (max h k) (n ∷ ns) s''
                    (element (subst (λ y. ArgMeans ops nodes x h v y) q m) e refl) sound'' same'')))

    pub resolve_arguments-Ends :
        (fs : Fields) (s : State F)
        → SoundMemo s.memo
        → s.in_progress ≡ busy
        → Ends
            (λ h rs. ArgumentsMean ops nodes x h fs rs)
            busy
            (resolve_arguments ops nodes x call fs s)
    unfolding resolve_arguments
    resolve_arguments-Ends closed s sound same = gave 0 [] s no_arguments sound same
    resolve_arguments-Ends (field name v fs) s sound same =
        Ends-bind (λ h r. ArgMeans ops nodes x h v r)
          (λ h rs. ArgumentsMean ops nodes x h (field name v fs) rs) busy
          (resolve_arg_value ops nodes x call v s) _ (resolve_arg_value-Ends v s sound same)
          (λ l rs e. let (i, r, j, rest, m, e', le, le') = argument_inverse e in (i, r, m, le))
          (λ h r s' m sound' same'.
            Ends-bind (λ k rs. ArgumentsMean ops nodes x k fs rs)
              (λ k rs. ArgumentsMean ops nodes x k (field name v fs) rs) busy
              (resolve_arguments ops nodes x call fs s') _
              (resolve_arguments-Ends fs s' sound' same')
              (λ l rs e.
                let (i, r', j, rest, m', e', le, le') = argument_inverse e in (j, rest, e', le'))
              (λ k rs s'' e sound'' same''.
                gave (max h k) ((name, r) ∷ rs) s'' (argument m e refl) sound'' same''))
