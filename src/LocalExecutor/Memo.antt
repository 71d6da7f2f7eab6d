-- ===== src/LocalExecutor/Memo.antt =====
-- What the memo holds when a node is evaluated.
use open_eo_ru_stac.Prelude.{
  ◌≡◌, refl, ◌∙◌, ap, sym, inl, inr, Bool-cases, String, Option, none, some, ◌∷◌, str_eq,
  str_eq_iff, if◌then◌else◌, ok, ok_or, IsIn, IsIn-append_left, IsIn-append_right, arith, subst,
}
use open_eo_ru_stac.Json.{
  Value, null, bool, number, string, array, object, Fields, closed, field, get_field,
}
use open_eo_ru_stac.JobRunner.{invalid_graph}
use open_eo_ru_stac.ProcessGraph.References.{link, found_in_value, found_in_fields}
use open_eo_ru_stac.LocalExecutor.{Memo, recall, only_link, resolved, resolve_value, resolve_args}

-- The ids that the memo has a value for.
abbrev pub Remembers : Memo → String → Type 0
Remembers memo id = (v : Value) × (recall id memo ≡ some v)

pub Remembers-here : (id : String) (v : Value) (memo : Memo) → Remembers ((id, v) ∷ memo) id
unfolding recall
Remembers-here id v memo = (v, ground (arith, str_eq_iff id id))

pub Remembers-later :
    (id j : String) (v : Value) (memo : Memo) → Remembers memo id → Remembers ((j, v) ∷ memo) id
unfolding recall
Remembers-later id j v memo (w, h) = elim (Bool-cases (str_eq j id)) [
  | inl same ↦ (v, rw same refl)
  | inr other ↦ (w, rw other h)
]

only_link_inverse :
    (v : Value) (target : String)
    → only_link v ≡ some target
    → v ≡ object (field "from_node" (string target) closed)
only_link_inverse null target h = cc
only_link_inverse (bool b) target h = cc
only_link_inverse (number n) target h = cc
only_link_inverse (string s) target h = cc
only_link_inverse (array vs) target h = cc
only_link_inverse (object closed) target h = cc
only_link_inverse (object (field k null closed)) target h = cc
only_link_inverse (object (field k null (field j w fs))) target h = cc
only_link_inverse (object (field k (bool b) closed)) target h = cc
only_link_inverse (object (field k (bool b) (field j w fs))) target h = cc
only_link_inverse (object (field k (number n) closed)) target h = cc
only_link_inverse (object (field k (number n) (field j w fs))) target h = cc
only_link_inverse (object (field k (array vs) closed)) target h = cc
only_link_inverse (object (field k (array vs) (field j w fs))) target h = cc
only_link_inverse (object (field k (object gs) closed)) target h = cc
only_link_inverse (object (field k (object gs) (field j w fs))) target h = cc
only_link_inverse (object (field k (string s) (field j w fs))) target h = cc
only_link_inverse (object (field k (string s) closed)) target h =
    elim (Bool-cases (str_eq k "from_node")) [
      | inl named ↦
          let key = (str_eq_iff k "from_node").0 named in
          let same : some s ≡ some target = ap (λ b. if b then some s else none) (sym named) ∙ h in
          let value : s ≡ target = cc in
          ap (λ x. object (field x (string s) closed)) key
          ∙ ap (λ x. object (field "from_node" (string x) closed)) value
      | inr other ↦
          let none_found : none ≡ some target =
            ap (λ b. if b then some s else none) (sym other) ∙ h in
          cc
    ]

-- The link that an argument is stands among those that the graph's walk finds.
only_link-found :
    (v : Value) (target : String)
    → only_link v ≡ some target
    → IsIn (link target) (found_in_value v 0)
unfolding found_in_value get_field
only_link-found v target h =
    subst (λ x. IsIn (link target) (found_in_value x 0)) (sym (only_link_inverse v target h))
      (inl refl)

-- Every link among the arguments has a value in the memo.
abbrev pub AllKnown : Memo → Fields → Type 0
AllKnown memo args = (src : String) → IsIn (link src) (found_in_fields args 0) → Remembers memo src

resolved-ok :
    (v : Value) (memo : Memo) (o : Option String)
    → only_link v ≡ o
    → ((src : String) → IsIn (link src) (found_in_value v 0) → Remembers memo src)
    → (r : Value) × (resolved v memo o ≡ ok r)
resolved-ok v memo none eq known = (v, refl)
resolved-ok v memo (some target) eq known =
    let (r, found) = known target (only_link-found v target eq) in
    (r, ap (ok_or (invalid_graph _)) found)

pub resolve_args-ok :
    (args : Fields) (memo : Memo)
    → AllKnown memo args
    → (r : Fields) × (resolve_args args memo ≡ ok r)
unfolding resolve_args resolve_value found_in_fields
resolve_args-ok closed memo known = (closed, refl)
resolve_args-ok (field k v fs) memo known =
    let (r, eq) = resolved-ok v memo (only_link v) refl (λ src at.
      known src (IsIn-append_left (link src) (found_in_value v 0) (found_in_fields fs 0) at)) in
    let (rest, eqs) = resolve_args-ok fs memo (λ src at.
      known src (IsIn-append_right (link src) (found_in_value v 0) (found_in_fields fs 0) at)) in
    (field k r rest, rw (eq, eqs) refl)
