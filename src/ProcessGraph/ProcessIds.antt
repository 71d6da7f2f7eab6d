-- ===== src/ProcessGraph/ProcessIds.antt =====
-- `collect_process_ids` and `unsupported_process_ids`. A `BTreeSet` is its list of elements in
-- ascending order.
use Prim.Native.Nat.{lt, eq, gt}
use Prim.Native.String.{compare}
use open_eo_ru_stac.Prelude.{
  ℕ, suc, Bool, true, false, ◌≡◌, ◌↔◌, inl, inr, refl, sym, ◌∙◌, ap, String, Option, none, some,
  List, [], ◌∷◌, str_eq, str_eq_iff, ltb, if◌then◌else◌, Bool-cases, IsIn, arith,
}
use open_eo_ru_stac.Json.{
  Value, null, bool, number, string, array, object, Items, empty, item, Fields, closed, field,
  get_field, get,
}
use open_eo_ru_stac.ProcessGraph.{max_subgraph_depth}

unfoldable pub insert_id : String → List String → List String
insert_id id [] = id ∷ []
insert_id id (j ∷ js) =
    let rest = insert_id id js in
    elim (compare id j) [ lt ↦ id ∷ j ∷ js | eq ↦ j ∷ js | gt ↦ j ∷ rest ]

abbrev pub note_id : Option Value → List String → List String
note_id (some (string id)) out = insert_id id out
note_id _ out = out

abbrev pub unless_sub_graph : Option Value → List String → List String → List String
unless_sub_graph (some _) out inside = out
unless_sub_graph none out inside = inside

-- `walk`, and its two loops.
unfoldable mutual
  unfolding insert_id get_field

  pub walk : Value → ℕ → List String → List String
  walk null depth out = out
  walk (bool _) depth out = out
  walk (number _) depth out = out
  walk (string _) depth out = out
  walk (array vs) depth out =
      let inside = walk_items vs (suc depth) out in
      if ltb max_subgraph_depth depth then out else inside
  walk (object fs) depth out =
      let noted = note_id (get_field "process_id" fs) out in
      let inside = walk_fields fs (suc depth) noted in
      if ltb max_subgraph_depth depth
      then out
      else unless_sub_graph (get_field "process_graph" fs) noted inside

  pub walk_items : Items → ℕ → List String → List String
  walk_items empty depth out = out
  walk_items (item v vs) depth out = walk_items vs depth (walk v depth out)

  pub walk_fields : Fields → ℕ → List String → List String
  walk_fields closed depth out = out
  walk_fields (field k v fs) depth out = walk_fields fs depth (walk v depth out)

abbrev pub or_else : Option Value → Option Value → Option Value
or_else (some v) other = some v
or_else none other = other

abbrev pub within_process : Option Value → Option Value
within_process none = none
within_process (some p) = get "process_graph" p

abbrev pub unwrap_or : Value → Option Value → Value
unwrap_or body none = body
unwrap_or body (some v) = v

unfoldable pub graph_of : Value → Value
unfolding get
graph_of body =
    unwrap_or body (or_else (within_process (get "process" body)) (get "process_graph" body))

unfoldable pub collect_process_ids : Value → List String
unfolding walk graph_of
collect_process_ids body = walk (graph_of body) 0 []

unfoldable pub contains : List String → String → Bool
contains [] id = false
contains (k ∷ known) id = if str_eq k id then true else contains known id

unfoldable pub without_known : List String → List String → List String
unfolding contains
without_known known [] = []
without_known known (id ∷ ids) =
    let rest = without_known known ids in if contains known id then rest else id ∷ rest

unfoldable pub unsupported_process_ids : Value → List String → List String
unfolding without_known collect_process_ids
unsupported_process_ids body known = without_known known (collect_process_ids body)

contains-IsIn : (known : List String) (id : String) → (contains known id ≡ true) ↔ IsIn id known
unfolding contains
contains-IsIn [] id = (λ h. cc, λ h. absurd h)
contains-IsIn (k ∷ known) id = (there (contains-IsIn known id), back (contains-IsIn known id))
  where
    there :
        ((contains known id ≡ true) ↔ IsIn id known)
        → (if str_eq k id then true else contains known id) ≡ true
        → IsIn id (k ∷ known)
    there ih h = elim (Bool-cases (str_eq k id)) [
      | inl same ↦ inl (sym ((str_eq_iff k id).0 same))
      | inr other ↦ inr (ih.0 (ground (arith, h, other)))
    ]

    back :
        ((contains known id ≡ true) ↔ IsIn id known)
        → IsIn id (k ∷ known)
        → (if str_eq k id then true else contains known id) ≡ true
    back ih (inl e) = ground (arith, e, str_eq_iff k id)
    back ih (inr later) = let more = ih.1 later in ground (arith, more)

without_known-IsIn :
    (known ids : List String) (id : String)
    → IsIn id (without_known known ids) ↔ (IsIn id ids × (contains known id ≡ false))
unfolding without_known
without_known-IsIn known [] id = (λ h. absurd h, λ h. absurd h.0)
without_known-IsIn known (j ∷ ids) id =
    choose (without_known-IsIn known ids id) (contains known j) refl
  where
    choose :
        (IsIn id (without_known known ids) ↔ (IsIn id ids × (contains known id ≡ false)))
        → (b : Bool) → contains known j ≡ b
        → IsIn id (if b then without_known known ids else j ∷ without_known known ids)
          ↔ (IsIn id (j ∷ ids) × (contains known id ≡ false))
    choose ih true c = (
      λ h. let (i, n) = ih.0 h in (inr i, n),
      λ h. elim h.0 [ inl e ↦ absurd (clash e c h.1) | inr i ↦ ih.1 (i, h.1) ],
    )
      where
        clash : id ≡ j → contains known j ≡ true → contains known id ≡ false → ⊥
        clash e a b = cc
    choose ih false c = (
      λ h. elim h [
        | inl e ↦ (inl e, ap (contains known) e ∙ c)
        | inr later ↦ let (i, n) = ih.0 later in (inr i, n)
      ],
      λ h. elim h.0 [ inl e ↦ inl e | inr i ↦ inr (ih.1 (i, h.1)) ],
    )

-- The result of `unsupported_process_ids` has exactly the collected ids that are not among the
-- known ones.
pub unsupported_process_ids-IsIn :
    (body : Value) (known : List String) (id : String)
    → IsIn id (unsupported_process_ids body known)
      ↔ (IsIn id (collect_process_ids body) × (IsIn id known → ⊥))
unfolding unsupported_process_ids
unsupported_process_ids-IsIn body known id = (there, back)
  where
    there :
        IsIn id (without_known known (collect_process_ids body))
        → IsIn id (collect_process_ids body) × (IsIn id known → ⊥)
    there h =
        let (i, n) = (without_known-IsIn known (collect_process_ids body) id).0 h in
        (i, λ k. let c = (contains-IsIn known id).1 k in (cc))

    back :
        IsIn id (collect_process_ids body) × (IsIn id known → ⊥)
        → IsIn id (without_known known (collect_process_ids body))
    back (i, n) = elim (Bool-cases (contains known id)) [
      | inl c ↦ absurd (n ((contains-IsIn known id).0 c))
      | inr c ↦ (without_known-IsIn known (collect_process_ids body) id).1 (i, c)
    ]
