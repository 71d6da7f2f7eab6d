-- ===== src/FileStore/Paths.antt =====
-- Which paths validate_path accepts.
use open_eo_ru_stac.Prelude.{
  ℕ, ◌≡◌, ◌≢◌, ◌↔◌, refl, ◌∙◌, ap, sym, Bool, true, false, ◌&&◌, ◌||◌, Bool-cases, inl, inr, String,
  Option, none, some, List, [], ◌∷◌, Result, ok, err, IsIn, ==_iff, ◌==◌, if◌then◌else◌, subst,
}
use open_eo_ru_stac.JobRunner.Interface.{forbidden}
use open_eo_ru_stac.FileStore.{
  codes, percent_decode_once, is_control, is_disallowed, is_alphabetic, bad_char, split_slash,
  segments, is_bad_segment, any_bad, drive_letter, chars_checked, target_checked, validate_path,
}

-- A path that stays below its root whatever reads it: made of names that are neither empty nor dots,
-- of printable characters that no file system takes for more, and no option or home.
pub record IsSafe (target : List ℕ) : Type 0 where
  pub no_option : (cs : List ℕ) → target ≢ 45 ∷ cs
  pub no_home : (cs : List ℕ) → target ≢ 126 ∷ cs
  pub printable : (c : ℕ) → IsIn c target → is_control c ≡ false
  pub allowed : (c : ℕ) → IsIn c target → is_disallowed c ≡ false
  pub names :
      (seg : List ℕ)
      → IsIn seg (segments target)
      → (seg ≢ []) × (seg ≢ 46 ∷ []) × (seg ≢ 46 ∷ 46 ∷ [])

unless :
    {A E : Type 0} (p : Bool) (e : E) (r : Result A E) (a : A)
    → (if p then err e else r) ≡ ok a
    → (p ≡ false) × (r ≡ ok a)
unless true e r a h = cc
unless false e r a h = (refl, h)

neither : (p q : Bool) → (p || q) ≡ false → (p ≡ false) × (q ≡ false)
neither true q h = cc
neither false q h = (refl, h)

clash : {b : Bool} → b ≡ true → b ≡ false → ⊥
clash t f = cc

both : (p q : Bool) → (p && q) ≡ true → (p ≡ true) × (q ≡ true)
both true true h = (refl, refl)
both true false h = cc
both false q h = cc

is_false : (b : Bool) → (b ≡ true → ⊥) → b ≡ false
is_false true h = absurd (h refl)
is_false false h = refl

pass :
    {A E : Type 0} (p : Bool) (e : E) (r : Result A E) (a : A)
    → p ≡ false
    → r ≡ ok a
    → (if p then err e else r) ≡ ok a
pass true e r a f h = cc
pass false e r a f h = h

no_text :
    (p q : Bool) (x y : String) (o : Option String)
    → (if p then some x else if q then some y else o) ≡ none
    → (p ≡ false) × (q ≡ false) × (o ≡ none)
no_text true q x y o h = cc
no_text false true x y o h = cc
no_text false false x y o h = (refl, refl, h)

abbrev CharsFine : List ℕ → Type 0
CharsFine cs = (c : ℕ) → IsIn c cs → (is_control c ≡ false) × (is_disallowed c ≡ false)

bad_char-none : (cs : List ℕ) → (bad_char cs ≡ none) ↔ CharsFine cs
unfolding bad_char
bad_char-none [] = (λ h c at. absurd at, λ h. refl)
bad_char-none (d ∷ cs) = (there (bad_char-none cs).0, back (bad_char-none cs).1)
  where
    there : (bad_char cs ≡ none → CharsFine cs) → bad_char (d ∷ cs) ≡ none → CharsFine (d ∷ cs)
    there ih h c at =
        let (control, disallowed, rest) =
          no_text (is_control d) (is_disallowed d) _ _ (bad_char cs) h in
        elim at [
          | inl e ↦ (ap is_control e ∙ control, ap is_disallowed e ∙ disallowed)
          | inr later ↦ ih rest c later
        ]

    back : (CharsFine cs → bad_char cs ≡ none) → CharsFine (d ∷ cs) → bad_char (d ∷ cs) ≡ none
    back ih fine =
        let (control, disallowed) = fine d (inl refl) in
        rw (control, disallowed) (ih (λ c at. fine c (inr at)))

abbrev Named : List ℕ → Type 0
Named seg = (seg ≢ []) × (seg ≢ 46 ∷ []) × (seg ≢ 46 ∷ 46 ∷ [])

is_bad_segment-false : (seg : List ℕ) → (is_bad_segment seg ≡ false) ↔ Named seg
is_bad_segment-false seg = (
  λ h. (
    λ e. clash (ap is_bad_segment e) h,
    λ e. clash (ap is_bad_segment e) h,
    λ e. clash (ap is_bad_segment e) h,
  ),
  back seg,
)
  where
    dots : {c d : ℕ} → ((c == 46) ≡ true) × ((d == 46) ≡ true) → c ∷ d ∷ [] ≡ 46 ∷ 46 ∷ []
    dots {c} {d} (p, q) = λ i. (==_iff c 46).0 p i ∷ (==_iff d 46).0 q i ∷ []

    back : (s : List ℕ) → Named s → is_bad_segment s ≡ false
    back [] n = absurd (n.0 refl)
    back (c ∷ []) n = is_false (c == 46) (λ t. n.1 (ap (λ x. x ∷ []) ((==_iff c 46).0 t)))
    back (c ∷ d ∷ []) n =
        is_false ((c == 46) && (d == 46)) (λ t. n.2 (dots (both (c == 46) (d == 46) t)))
    back (c ∷ d ∷ e ∷ s) n = refl

any_bad-false :
    (segs : List (List ℕ)) → (any_bad segs ≡ false) ↔ ((seg : List ℕ) → IsIn seg segs → Named seg)
unfolding any_bad
any_bad-false [] = (λ h seg at. absurd at, λ h. refl)
any_bad-false (x ∷ segs) = (there (any_bad-false segs).0, back (any_bad-false segs).1)
  where
    there :
        (any_bad segs ≡ false → (seg : List ℕ) → IsIn seg segs → Named seg)
        → any_bad (x ∷ segs) ≡ false
        → (seg : List ℕ) → IsIn seg (x ∷ segs)
        → Named seg
    there ih h seg at =
        let (here, rest) = neither (is_bad_segment x) (any_bad segs) h in
        elim at [
          | inl e ↦ subst Named (sym e) ((is_bad_segment-false x).0 here)
          | inr later ↦ ih rest seg later
        ]

    back :
        (((seg : List ℕ) → IsIn seg segs → Named seg) → any_bad segs ≡ false)
        → ((seg : List ℕ) → IsIn seg (x ∷ segs) → Named seg)
        → any_bad (x ∷ segs) ≡ false
    back ih named =
        rw ((is_bad_segment-false x).1 (named x (inl refl))) (ih (λ seg at. named seg (inr at)))

chars_checked-ok :
    (path : String) (t : List ℕ) (o : Option String)
    → chars_checked path t o ≡ ok tt
    → (o ≡ none) × (any_bad (segments t) ≡ false)
chars_checked-ok path t (some text) h = cc
chars_checked-ok path t none h =
    (refl, (unless (any_bad (segments t)) (forbidden path) (ok tt) tt h).0)

accepted-IsSafe :
    (path : String) (c : ℕ) (cs : List ℕ) → target_checked path (c ∷ cs) ≡ ok tt → IsSafe (c ∷ cs)
accepted-IsSafe path c cs h =
    let (_, h1) = unless ((c == 47) || (c == 92)) _ _ tt h in
    let (dash, h2) = unless (c == 45) _ _ tt h1 in
    let (tilde, h3) = unless (c == 126) _ _ tt h2 in
    let (_, h4) = unless (drive_letter (c ∷ cs)) _ _ tt h3 in
    let (chars, segs) = chars_checked-ok path (c ∷ cs) (bad_char (c ∷ cs)) h4 in
    let fine = (bad_char-none (c ∷ cs)).0 chars in
    record {
      no_option = λ ds e. let same : c ≡ 45 = cc in clash ((==_iff c 45).1 same) dash;
      no_home = λ ds e. let same : c ≡ 126 = cc in clash ((==_iff c 126).1 same) tilde;
      printable = λ d at. (fine d at).0;
      allowed = λ d at. (fine d at).1;
      names = (any_bad-false (segments (c ∷ cs))).0 segs;
    }

IsSafe-accepted :
    (path : String) (c : ℕ) (cs : List ℕ) → IsSafe (c ∷ cs) → target_checked path (c ∷ cs) ≡ ok tt
unfolding segments split_slash
IsSafe-accepted path c cs safe =
    pass ((c == 47) || (c == 92)) _ _ tt (is_false ((c == 47) || (c == 92)) relative) (
      pass (c == 45) _ _ tt
        (is_false (c == 45) (λ t. safe.no_option cs (ap (λ x. x ∷ cs) ((==_iff c 45).0 t))))
        (pass (c == 126) _ _ tt
          (is_false (c == 126) (λ t. safe.no_home cs (ap (λ x. x ∷ cs) ((==_iff c 126).0 t))))
          (pass (drive_letter (c ∷ cs)) _ _ tt (no_drive cs safe.allowed) (
            rw
              (
                (bad_char-none (c ∷ cs)).1 (λ d at. (safe.printable d at, safe.allowed d at)),
                (any_bad-false (segments (c ∷ cs))).1 safe.names,
              )
              refl))))
  where
    second : (p q : Bool) → p ≡ false → (p || q) ≡ true → q ≡ true
    second true q f h = cc
    second false q f h = h

    relative : ((c == 47) || (c == 92)) ≡ true → ⊥
    relative h = elim (Bool-cases (c == 47)) [
      | inl slash ↦
          let same : c ≡ 47 = (==_iff c 47).0 slash in
          (safe.names [] (subst (λ x. IsIn [] (segments (x ∷ cs))) (sym same) (inl refl))).0 refl
      | inr other ↦
          let same : c ≡ 92 = (==_iff c 92).0 (second (c == 47) (c == 92) other h) in
          clash (ap is_disallowed same) (safe.allowed c (inl refl))
    ]

    no_drive :
        (ds : List ℕ)
        → ((d : ℕ) → IsIn d (c ∷ ds) → is_disallowed d ≡ false)
        → drive_letter (c ∷ ds) ≡ false
    no_drive [] fine = refl
    no_drive (d ∷ ds) fine = is_false ((d == 58) && is_alphabetic c) (λ t.
        clash (ap is_disallowed ((==_iff d 58).0 (both (d == 58) (is_alphabetic c) t).0))
          (fine d (inr (inl refl))))

-- validate_path accepts a path exactly when what it decodes to is safe: it begins with neither `-`
-- nor `~`, has no control character and none of `\ : < > " | ? *`, and none of its names between
-- slashes is empty, `.` or `..`.
pub validate_path-IsSafe :
    (path : String) → (validate_path path ≡ ok tt) ↔ IsSafe (percent_decode_once (codes path))
unfolding validate_path
validate_path-IsSafe path = choose (percent_decode_once (codes path))
  where
    empty_name : IsSafe [] → ⊥
    empty_name safe = (safe.names [] (unfold segments split_slash in inl refl)).0 refl

    choose : (t : List ℕ) → (target_checked path t ≡ ok tt) ↔ IsSafe t
    choose [] = (λ h. cc, λ safe. absurd (empty_name safe))
    choose (c ∷ cs) = (accepted-IsSafe path c cs, IsSafe-accepted path c cs)
