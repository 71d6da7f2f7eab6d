-- ===== src/Etl/Identifiers.antt =====
-- Which identifiers are put into statements.
use Prim.Native.String.{◌++◌ as ◌<>◌}
use open_eo_ru_stac.Prelude.{
  arith, ℕ, ◌≤◌, ◌≡◌, ◌↔◌, ◌⊎◌, inl, inr, refl, sym, Bool, true, false, ◌&&◌, ◌||◌, String, List,
  [], ◌∷◌, ok, err, leb, leb→le, gt_of_leb, ==_iff, ◌==◌, IsIn, if◌then◌else◌, subst,
}
use open_eo_ru_stac.FileStore.{codes}
use open_eo_ru_stac.Etl.Spec.{
  invalid_spec, is_head, is_tail, all_tail, codes_checked, validate_sql_identifier,
}

-- A letter of ASCII or an underscore, and one of these or a digit.
abbrev pub IsLetter : ℕ → Type 0
IsLetter c = ((65 ≤ c) × (c ≤ 90)) ⊎ (((97 ≤ c) × (c ≤ 122)) ⊎ (c ≡ 95))

abbrev pub IsWord : ℕ → Type 0
IsWord c = IsLetter c ⊎ ((48 ≤ c) × (c ≤ 57))

-- `[A-Za-z_][A-Za-z0-9_]*`.
pub record IsIdentifier (name : List ℕ) : Type 0 where
  pub first : ℕ
  pub rest : List ℕ
  pub split : name ≡ first ∷ rest
  pub letter : IsLetter first
  pub words : (c : ℕ) → IsIn c rest → IsWord c

between : (a b c : ℕ) → ((leb a c && leb c b) ≡ true) ↔ ((a ≤ c) × (c ≤ b))
between a b c = (there (leb a c) (leb c b) refl refl, back)
  where
    there : (p q : Bool) → leb a c ≡ p → leb c b ≡ q → (p && q) ≡ true → (a ≤ c) × (c ≤ b)
    there true true p q h = (leb→le a c p, leb→le c b q)
    there true false p q h = cc
    there false q p r h = cc

    back : (a ≤ c) × (c ≤ b) → (leb a c && leb c b) ≡ true
    back (lo, hi) = both (leb a c) (leb c b) (low (leb a c) refl) (low' (leb c b) refl)
      where
        both : (p q : Bool) → p ≡ true → q ≡ true → (p && q) ≡ true
        both p q e f = rw (e, f) refl

        low : (p : Bool) → leb a c ≡ p → p ≡ true
        low true e = refl
        low false e = absurd (omega (arith, gt_of_leb a c e, lo))

        low' : (p : Bool) → leb c b ≡ p → p ≡ true
        low' true e = refl
        low' false e = absurd (omega (arith, gt_of_leb c b e, hi))

either : (p q : Bool) → ((p || q) ≡ true) ↔ ((p ≡ true) ⊎ (q ≡ true))
either true q = (λ h. inl refl, λ h. refl)
either false q = (λ h. inr h, λ h. elim h [ inl e ↦ cc | inr e ↦ e ])

both : (p q : Bool) → ((p && q) ≡ true) ↔ ((p ≡ true) × (q ≡ true))
both true q = (λ h. (refl, h), λ h. h.1)
both false q = (λ h. cc, λ h. h.0)

is_head-IsLetter : (c : ℕ) → (is_head c ≡ true) ↔ IsLetter c
is_head-IsLetter c = (there, back)
  where
    there : is_head c ≡ true → IsLetter c
    there h = elim ((either ((leb 65 c && leb c 90) || (leb 97 c && leb c 122)) (c == 95)).0 h) [
      | inl e ↦ elim ((either (leb 65 c && leb c 90) (leb 97 c && leb c 122)).0 e) [
        | inl u ↦ inl ((between 65 90 c).0 u)
        | inr l ↦ inr (inl ((between 97 122 c).0 l))
      ]
      | inr e ↦ inr (inr ((==_iff c 95).0 e))
    ]

    back : IsLetter c → is_head c ≡ true
    back h = (either ((leb 65 c && leb c 90) || (leb 97 c && leb c 122)) (c == 95)).1 (elim h [
      | inl u ↦
          inl (
            (either (leb 65 c && leb c 90) (leb 97 c && leb c 122)).1 (inl ((between 65 90 c).1 u)))
      | inr l ↦ elim l [
        | inl l ↦ inl (
            (either (leb 65 c && leb c 90) (leb 97 c && leb c 122)).1
              (inr ((between 97 122 c).1 l)))
        | inr e ↦ inr ((==_iff c 95).1 e)
      ]
    ])

is_tail-IsWord : (c : ℕ) → (is_tail c ≡ true) ↔ IsWord c
is_tail-IsWord c = (there, back)
  where
    there : is_tail c ≡ true → IsWord c
    there h = elim ((either (is_head c) (leb 48 c && leb c 57)).0 h) [
      | inl e ↦ inl ((is_head-IsLetter c).0 e)
      | inr d ↦ inr ((between 48 57 c).0 d)
    ]

    back : IsWord c → is_tail c ≡ true
    back h =
        (either (is_head c) (leb 48 c && leb c 57)).1
          (elim h [ inl l ↦ inl ((is_head-IsLetter c).1 l) | inr d ↦ inr ((between 48 57 c).1 d) ])

all_tail-IsWord : (cs : List ℕ) → (all_tail cs ≡ true) ↔ ((c : ℕ) → IsIn c cs → IsWord c)
unfolding all_tail
all_tail-IsWord [] = (λ h c at. absurd at, λ h. refl)
all_tail-IsWord (d ∷ cs) = (there (all_tail-IsWord cs).0, back (all_tail-IsWord cs).1)
  where
    there :
        (all_tail cs ≡ true → (c : ℕ) → IsIn c cs → IsWord c)
        → all_tail (d ∷ cs) ≡ true
        → (c : ℕ) → IsIn c (d ∷ cs)
        → IsWord c
    there ih h c at =
        let (here, later) = (both (is_tail d) (all_tail cs)).0 h in
        elim at [
          | inl e ↦ subst (λ x. IsWord x) (sym e) ((is_tail-IsWord d).0 here)
          | inr at ↦ ih later c at
        ]

    back :
        (((c : ℕ) → IsIn c cs → IsWord c) → all_tail cs ≡ true)
        → ((c : ℕ) → IsIn c (d ∷ cs) → IsWord c)
        → all_tail (d ∷ cs) ≡ true
    back ih words =
        (both (is_tail d) (all_tail cs)).1
          ((is_tail-IsWord d).1 (words d (inl refl)), ih (λ c at. words c (inr at)))

codes_checked-IsIdentifier :
    (debug : String → String) (name context : String) (cs : List ℕ)
    → (codes_checked debug name context cs ≡ ok tt) ↔ IsIdentifier cs
codes_checked-IsIdentifier debug name context [] = (λ h. cc, λ i. absurd (none_left i.split))
  where
    none_left : {c : ℕ} {cs : List ℕ} → [] ≡ c ∷ cs → ⊥
    none_left e = cc
codes_checked-IsIdentifier debug name context (c ∷ cs) =
    (there (is_head c && all_tail cs) refl, back)
  where
    there :
        (b : Bool)
        → (is_head c && all_tail cs) ≡ b
        → (if b
            then ok tt
            else err (
                invalid_spec (context <> " must match [A-Za-z_][A-Za-z0-9_]*: got " <> debug name)))
          ≡ ok tt
        → IsIdentifier (c ∷ cs)
    there true e h =
        let (letter, words) = (both (is_head c) (all_tail cs)).0 e in
        record {
          first = c;
          rest = cs;
          split = refl;
          letter = (is_head-IsLetter c).0 letter;
          words = (all_tail-IsWord cs).0 words;
        }
    there false e h = cc

    back : IsIdentifier (c ∷ cs) → codes_checked debug name context (c ∷ cs) ≡ ok tt
    back i =
        let same : i.first ≡ c = cc in
        let rest : i.rest ≡ cs = cc in
        rw
          ((both (is_head c) (all_tail cs)).1 (
            (is_head-IsLetter c).1 (subst (λ x. IsLetter x) same i.letter),
            (all_tail-IsWord cs).1 (subst (λ l. (d : ℕ) → IsIn d l → IsWord d) rest i.words),
          ))
          refl

-- validate_sql_identifier accepts exactly the names that match `[A-Za-z_][A-Za-z0-9_]*`.
pub validate_sql_identifier-IsIdentifier :
    (debug : String → String) (name context : String)
    → (validate_sql_identifier debug name context ≡ ok tt) ↔ IsIdentifier (codes name)
unfolding validate_sql_identifier
validate_sql_identifier-IsIdentifier debug name context =
    codes_checked-IsIdentifier debug name context (codes name)
