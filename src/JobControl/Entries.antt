-- ===== src/JobControl/Entries.antt =====
-- Lookups behind a change of the registry or of the requests.
use open_eo_ru_stac.Prelude.{
  arith, ℕ, zero, suc, ◌≡◌, refl, ◌∙◌, sym, ◌⊎◌, inl, inr, Bool, true, false, String, none, some,
  List, [], ◌∷◌, ◌++◌, set, get_elem?, str_eq, str_eq_iff, if◌then◌else◌,
}
use open_eo_ru_stac.JobControl.{Request, insert_entry, remove_entry, entry_of}

pub entry_of-insert :
    (id : String) (n : ℕ) (es : List (String × ℕ)) (j : String)
    → entry_of j (insert_entry id n es) ≡ (if str_eq id j then some n else entry_of j es)
unfolding entry_of insert_entry
entry_of-insert id n [] j = ground arith
entry_of-insert id n ((i, m) ∷ es) j =
    ground (arith, entry_of-insert id n es j, str_eq_iff i id, str_eq_iff id j, str_eq_iff i j)

entry_of-remove :
    (id : String) (es : List (String × ℕ)) (j : String)
    → entry_of j (remove_entry id es) ≡ (if str_eq id j then none else entry_of j es)
unfolding entry_of remove_entry
entry_of-remove id [] j = ground arith
entry_of-remove id ((i, m) ∷ es) j =
    ground (arith, entry_of-remove id es j, str_eq_iff i id, str_eq_iff id j, str_eq_iff i j)

pub inserted :
    (id : String) (n : ℕ) (es : List (String × ℕ)) (j : String) (m : ℕ)
    → entry_of j (insert_entry id n es) ≡ some m
    → ((id ≡ j) × (n ≡ m)) ⊎ (entry_of j es ≡ some m)
inserted id n es j m h = choose (str_eq id j) refl (sym (entry_of-insert id n es j) ∙ h)
  where
    choose :
        (b : Bool)
        → str_eq id j ≡ b
        → (if b then some n else entry_of j es) ≡ some m
        → ((id ≡ j) × (n ≡ m)) ⊎ (entry_of j es ≡ some m)
    choose true same e = inl ((str_eq_iff id j).0 same, cc)
    choose false other e = inr e

pub removed :
    (id : String) (es : List (String × ℕ)) (j : String) (m : ℕ)
    → entry_of j (remove_entry id es) ≡ some m
    → entry_of j es ≡ some m
removed id es j m h = choose (str_eq id j) (sym (entry_of-remove id es j) ∙ h)
  where
    choose : (b : Bool) → (if b then none else entry_of j es) ≡ some m → entry_of j es ≡ some m
    choose true e = cc
    choose false e = e

pub appended :
    (rs : List Request) (r x : Request) (k : ℕ)
    → get_elem? (rs ++ r ∷ []) k ≡ some x
    → (get_elem? rs k ≡ some x) ⊎ (r ≡ x)
appended [] r x zero h = inr cc
appended [] r x (suc k) h = cc
appended (y ∷ rs) r x zero h = inl h
appended (y ∷ rs) r x (suc k) h = appended rs r x k h

pub replaced :
    (rs : List Request) (i : ℕ) (r x : Request) (k : ℕ)
    → get_elem? (set rs i r) k ≡ some x
    → (get_elem? rs k ≡ some x) ⊎ (r ≡ x)
replaced [] i r x k h = cc
replaced (y ∷ rs) zero r x zero h = inr cc
replaced (y ∷ rs) zero r x (suc k) h = inl h
replaced (y ∷ rs) (suc i) r x zero h = inl h
replaced (y ∷ rs) (suc i) r x (suc k) h = replaced rs i r x k h
