-- ===== src/GeoExecutor/Apply/Meaning.antt =====
-- What a callback's graph means for a pixel, without memo and without fuel: the value of a node is
-- its process applied to the meaning of its arguments. The number is the height of the derivation.
use open_eo_ru_stac.Prelude.{
  ℕ, suc, max, ◌≡◌, refl, sym, ap, subst, String, Option, none, some, List, [], ◌∷◌,
}
use open_eo_ru_stac.Json.{
  Value, Number, number, array, object, Items, empty, item, Fields, closed, field, get, get_field,
}
use open_eo_ru_stac.GeoExecutor.SubGraph.{as_object, as_text}
use open_eo_ru_stac.GeoExecutor.Apply.Numeric.{Arithmetic, Eval, value}
use open_eo_ru_stac.GeoExecutor.Apply.Kernel.{ArgVal, num, arr, Args, apply_pure_numeric_op}

module _ {F : Type 0} (ops : Arithmetic F) (nodes : Fields) (x : F) where
  mutual
    pub data Means : ℕ → String → F → Type 0 where
      applied :
          {h : ℕ} {id : String} {v : F} (node : Value) (pid : String) (args : Fields)
          (resolved : Args F)
          → get_field id nodes ≡ some node
          → as_text (get "process_id" node) ≡ some pid
          → as_object (get "arguments" node) ≡ some args
          → ArgumentsMean h args resolved
          → apply_pure_numeric_op ops resolved pid ≡ value v
          → Means (suc h) id v

    pub data ArgumentsMean : ℕ → Fields → Args F → Type 0 where
      no_arguments : ArgumentsMean 0 closed []
      argument :
          {h k l : ℕ} {name : String} {v : Value} {fs : Fields} {r : ArgVal F} {rest : Args F}
          → ArgMeans h v r
          → ArgumentsMean k fs rest
          → l ≡ max h k
          → ArgumentsMean l (field name v fs) ((name, r) ∷ rest)

    pub data ArgMeans : ℕ → Value → ArgVal F → Type 0 where
      literal : {n : Number} → ArgMeans 0 (number n) (num (ops.as_f64 n))
      pixel :
          {fs : Fields} (p : String)
          → as_text (get_field "from_parameter" fs) ≡ some p
          → ArgMeans 0 (object fs) (num x)
      linked :
          {h : ℕ} {fs : Fields} {v : F} (target : String)
          → as_text (get_field "from_parameter" fs) ≡ none
          → as_text (get_field "from_node" fs) ≡ some target
          → Means h target v
          → ArgMeans h (object fs) (num v)
      elements :
          {h : ℕ} {vs : Items} {ns : List F} → ElementsMean h vs ns → ArgMeans h (array vs) (arr ns)

    pub data ElementsMean : ℕ → Items → List F → Type 0 where
      no_elements : ElementsMean 0 empty []
      element :
          {h k l : ℕ} {v : Value} {vs : Items} {n : F} {ns : List F}
          → ArgMeans h v (num n)
          → ElementsMean k vs ns
          → l ≡ max h k
          → ElementsMean l (item v vs) (n ∷ ns)

  same_some : {A : Type 0} {o : Option A} {a b : A} → o ≡ some a → o ≡ some b → b ≡ a
  same_some p q = cc

  same_value : {A : Type 0} {r : Eval A} {a b : A} → r ≡ value a → r ≡ value b → a ≡ b
  same_value p q = cc

  num_injective : {a b : F} → ◌≡◌ {A = ArgVal F} (num a) (num b) → a ≡ b
  num_injective p = cc

  some_is_not-none : {A : Type 0} {o : Option A} {a : A} → o ≡ some a → o ≡ none → ⊥
  some_is_not-none p q = cc

  -- A node has one value, and all derivations of it are equally high.
  mutual
    pub Means-unique :
        {h k : ℕ} {id : String} {v w : F} → Means h id v → Means k id w → (h ≡ k) × (v ≡ w)
    Means-unique {v} {w} (applied node pid args resolved n p a m r)
          (applied {h = k} node' pid' args' resolved' n' p' a' m' r') =
        let node_eq : node' ≡ node = same_some n n' in
        let pid_eq : pid' ≡ pid =
          same_some p (subst (λ y. as_text (get "process_id" y) ≡ some pid') node_eq p') in
        let args_eq : args' ≡ args =
          same_some a (subst (λ y. as_object (get "arguments" y) ≡ some args') node_eq a') in
        let (height, same) =
          ArgumentsMean-unique m (subst (λ y. ArgumentsMean k y resolved') args_eq m') in
        (
          ap suc height,
          same_value r (
              subst (λ y. apply_pure_numeric_op ops y pid ≡ value w) (sym same)
                (subst (λ y. apply_pure_numeric_op ops resolved' y ≡ value w) pid_eq r')),
        )

    pub ArgumentsMean-unique :
        {h k : ℕ} {fs : Fields} {r s : Args F}
        → ArgumentsMean h fs r
        → ArgumentsMean k fs s
        → (h ≡ k) × (r ≡ s)
    ArgumentsMean-unique no_arguments no_arguments = (refl, refl)
    ArgumentsMean-unique (argument {name} m n l) (argument m' n' l') =
        let (p, q) = ArgMeans-unique m m' in let (p', q') = ArgumentsMean-unique n n' in (cc, cc)

    pub ArgMeans-unique :
        {h k : ℕ} {v : Value} {r s : ArgVal F} → ArgMeans h v r → ArgMeans k v s → (h ≡ k) × (r ≡ s)
    ArgMeans-unique literal literal = (refl, refl)
    ArgMeans-unique (pixel p e) (pixel p' e') = (refl, refl)
    ArgMeans-unique (pixel p e) (linked t e' f m) = absurd (some_is_not-none e e')
    ArgMeans-unique (linked t e' f m) (pixel p e) = absurd (some_is_not-none e e')
    ArgMeans-unique (linked t e f m) (linked {h = k} {v = w} t' e' f' m') =
        let (p, q) = Means-unique m (subst (λ y. Means k y w) (same_some f f') m') in (p, ap num q)
    ArgMeans-unique (elements m) (elements m') =
        let (p, q) = ElementsMean-unique m m' in (p, ap arr q)

    pub ElementsMean-unique :
        {h k : ℕ} {vs : Items} {r s : List F}
        → ElementsMean h vs r
        → ElementsMean k vs s
        → (h ≡ k) × (r ≡ s)
    ElementsMean-unique no_elements no_elements = (refl, refl)
    ElementsMean-unique (element m n l) (element m' n' l') =
        let (p, q) = ArgMeans-unique m m' in
        let (p', q') = ElementsMean-unique n n' in (cc, cc (num_injective q))
