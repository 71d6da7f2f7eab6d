-- ===== src/FileStore/Refinement.antt =====
-- The in-memory file store against its specification: a partial function from keys to bodies.
use open_eo_ru_stac.Prelude.{
  ℕ, ◌≡◌, refl, ◌∙◌, ap, sym, Bool, true, false, ◌&&◌, Option, none, some, List, [], ◌∷◌, Result,
  ok, err, ok_or, str_eq, str_eq_iff, if◌then◌else◌,
}
use open_eo_ru_stac.JobRunner.Interface.{FileKey, FileError, missing}
use open_eo_ru_stac.FileStore.{
  InMemoryFileStore, same_key, less_key, insert, lookup, remove, put, get, delete, validate_path,
}

same_key-true : (a b : FileKey) → same_key a b ≡ true → a ≡ b
same_key-true a b h =
    let (user_id, path) = both (str_eq a.user_id b.user_id) (str_eq a.path b.path) h in
    join ((str_eq_iff a.user_id b.user_id).0 user_id) ((str_eq_iff a.path b.path).0 path)
  where
    both : (p q : Bool) → (p && q) ≡ true → (p ≡ true) × (q ≡ true)
    both true true e = (refl, refl)
    both true false e = cc
    both false q e = cc

    join : a.user_id ≡ b.user_id → a.path ≡ b.path → a ≡ b
    join user_id path = λ i. record { user_id = user_id i; path = path i }

lookup-insert :
    (key : FileKey) (body : List ℕ) (s : InMemoryFileStore) (k : FileKey)
    → lookup k (insert key body s) ≡ (if same_key key k then some body else lookup k s)
unfolding lookup insert
lookup-insert key body [] k = refl
lookup-insert key body ((j, b) ∷ s) k =
    choose (same_key j key) (less_key key j) (same_key key k)
      (λ p. ap (λ x. same_key x k) (same_key-true j key p))
      (λ q. sym (ap (λ x. same_key j x) (same_key-true key k q))) refl refl
      (lookup-insert key body s k)
  where
    choose :
        (p less q : Bool)
        → (same_key j key ≡ true → same_key j k ≡ same_key key k)
        → (same_key key k ≡ true → same_key j k ≡ same_key j key)
        → same_key j key ≡ p
        → same_key key k ≡ q
        → lookup k (insert key body s) ≡ (if q then some body else lookup k s)
        → lookup k (
            if p
            then (key, body) ∷ s
            else if less
            then (key, body) ∷ (j, b) ∷ s
            else (j, b) ∷ insert key body s)
          ≡ (if q then some body else if same_key j k then some b else lookup k s)
    choose true less true from_p from_q p q ih = rw q refl
    choose true less false from_p from_q p q ih = rw (q, from_p p ∙ q) refl
    choose false true true from_p from_q p q ih = rw q refl
    choose false true false from_p from_q p q ih = rw q refl
    choose false false true from_p from_q p q ih = rw (from_q q ∙ p, ih) refl
    choose false false false from_p from_q p q ih = rw ih refl

lookup-remove :
    (key : FileKey) (s : InMemoryFileStore) (k : FileKey)
    → lookup k (remove key s) ≡ (if same_key key k then none else lookup k s)
unfolding lookup remove
lookup-remove key [] k = none_either (same_key key k)
  where
    none_either : (q : Bool) → ◌≡◌ {A = Option (List ℕ)} none (if q then none else none)
    none_either true = refl
    none_either false = refl
lookup-remove key ((j, b) ∷ s) k =
    choose (same_key j key) (same_key key k) (λ p. ap (λ x. same_key x k) (same_key-true j key p))
      (λ q. sym (ap (λ x. same_key j x) (same_key-true key k q))) refl refl (lookup-remove key s k)
  where
    choose :
        (p q : Bool)
        → (same_key j key ≡ true → same_key j k ≡ same_key key k)
        → (same_key key k ≡ true → same_key j k ≡ same_key j key)
        → same_key j key ≡ p
        → same_key key k ≡ q
        → lookup k (remove key s) ≡ (if q then none else lookup k s)
        → lookup k (if p then remove key s else (j, b) ∷ remove key s)
          ≡ (if q then none else if same_key j k then some b else lookup k s)
    choose true true from_p from_q p q ih = ih
    choose true false from_p from_q p q ih = rw (from_p p ∙ q) ih
    choose false true from_p from_q p q ih = rw (from_q q ∙ p) ih
    choose false false from_p from_q p q ih = rw ih refl

pub data Request : Type 0 where
  puts : FileKey → List ℕ → Request
  gets deletes : FileKey → Request

pub data Reply : Type 0 where
  stored : Result (Unit {0}) FileError → Reply
  read : Result (List ℕ) FileError → Reply

-- The store's answers to requests, one after the other.
unfoldable pub serve : Request → InMemoryFileStore → Reply × InMemoryFileStore
unfolding put get delete
serve (puts key body) s = let (r, t) = put key body s in (stored r, t)
serve (gets key) s = (read (get key s), s)
serve (deletes key) s = let (r, t) = delete key s in (stored r, t)

unfoldable pub serve_all : List Request → InMemoryFileStore → List Reply × InMemoryFileStore
unfolding serve
serve_all [] s = ([], s)
serve_all (q ∷ qs) s = let (r, t) = serve q s in let (rs, u) = serve_all qs t in (r ∷ rs, u)

-- The specification.
abbrev pub Files : Type 0
Files = FileKey → Option (List ℕ)

abbrev pub updated : FileKey → Option (List ℕ) → Files → Files
updated key body files k = if same_key key k then body else files k

abbrev pub where_valid : Result (Unit {0}) FileError → Files → Files → Reply × Files
where_valid (err e) old new = (stored (err e), old)
where_valid (ok _) old new = (stored (ok tt), new)

abbrev pub read_valid : Result (Unit {0}) FileError → Option (List ℕ) → Reply
read_valid (err e) body = read (err e)
read_valid (ok _) body = read (ok_or missing body)

abbrev pub specified : Request → Files → Reply × Files
specified (puts key body) files =
    where_valid (validate_path key.path) files (updated key (some body) files)
specified (gets key) files = (read_valid (validate_path key.path) (files key), files)
specified (deletes key) files = where_valid (validate_path key.path) files (updated key none files)

abbrev pub specified_all : List Request → Files → List Reply × Files
specified_all [] files = ([], files)
specified_all (q ∷ qs) files =
    let (r, after) = specified q files in let (rs, last) = specified_all qs after in (r ∷ rs, last)

abbrev pub Shows : InMemoryFileStore → Files → Type 0
Shows s files = (k : FileKey) → lookup k s ≡ files k

abbrev Agree : Reply × InMemoryFileStore → Reply × Files → Type 0
Agree out spec = (out.0 ≡ spec.0) × Shows out.1 spec.1

put-Agree :
    (key : FileKey) (body : List ℕ) (s : InMemoryFileStore) (files : Files)
    → Shows s files
    → Agree (serve (puts key body) s) (specified (puts key body) files)
unfolding serve put
put-Agree key body s files shows = choose (validate_path key.path)
  where
    choose :
        (r : Result (Unit {0}) FileError)
        → Agree
            (let (x, t) = elim r as (λ _. Result (Unit {0}) FileError × InMemoryFileStore) [
              | err e ↦ (err e, s)
              | ok _ ↦ (ok tt, insert key body s)
            ] in
              (stored x, t))
            (where_valid r files (updated key (some body) files))
    choose (err e) = (refl, shows)
    choose (ok _) = (
      refl,
      λ k. lookup-insert key body s k ∙ ap (λ o. if same_key key k then some body else o) (shows k),
    )

delete-Agree :
    (key : FileKey) (s : InMemoryFileStore) (files : Files)
    → Shows s files
    → Agree (serve (deletes key) s) (specified (deletes key) files)
unfolding serve delete
delete-Agree key s files shows = choose (validate_path key.path)
  where
    choose :
        (r : Result (Unit {0}) FileError)
        → Agree
            (let (x, t) = elim r as (λ _. Result (Unit {0}) FileError × InMemoryFileStore) [
              | err e ↦ (err e, s)
              | ok _ ↦ (ok tt, remove key s)
            ] in
              (stored x, t))
            (where_valid r files (updated key none files))
    choose (err e) = (refl, shows)
    choose (ok _) =
        (refl, λ k. lookup-remove key s k ∙ ap (λ o. if same_key key k then none else o) (shows k))

serve-Agree :
    (q : Request) (s : InMemoryFileStore) (files : Files)
    → Shows s files
    → Agree (serve q s) (specified q files)
unfolding serve get
serve-Agree (puts key body) s files shows = put-Agree key body s files shows
serve-Agree (deletes key) s files shows = delete-Agree key s files shows
serve-Agree (gets key) s files shows = (choose (validate_path key.path), shows)
  where
    choose :
        (r : Result (Unit {0}) FileError)
        → read (elim r as (λ _. Result (List ℕ) FileError) [
          | err e ↦ err e
          | ok _ ↦ ok_or missing (lookup key s)
        ])
          ≡ read_valid r (files key)
    choose (err e) = refl
    choose (ok _) = ap (λ o. read (ok_or missing o)) (shows key)

-- Whatever is put, read and deleted, in whatever order: a store that shows the same files as the
-- specification gives the same replies, and shows the same files afterwards.
pub serve_all-Refines :
    (qs : List Request) (s : InMemoryFileStore) (files : Files)
    → Shows s files
    → ((serve_all qs s).0 ≡ (specified_all qs files).0)
      × Shows (serve_all qs s).1 (specified_all qs files).1
unfolding serve_all
serve_all-Refines [] s files shows = (refl, shows)
serve_all-Refines (q ∷ qs) s files shows =
    let (reply, after) = serve-Agree q s files shows in
    let (replies, last) = serve_all-Refines qs (serve q s).1 (specified q files).1 after in
    (ap2 reply replies, last)
  where
    ap2 :
        {x y : Reply} {xs ys : List Reply}
        → x ≡ y
        → xs ≡ ys
        → ◌≡◌ {A = List Reply} (x ∷ xs) (y ∷ ys)
    ap2 e es = λ i. e i ∷ es i

-- What is put is read back.
pub get-put :
    (key : FileKey) (body : List ℕ) (s : InMemoryFileStore)
    → (put key body s).0 ≡ ok tt
    → get key (put key body s).1 ≡ ok body
unfolding put get
get-put key body s took = choose (validate_path key.path) refl took
  where
    itself : same_key key key ≡ true
    itself =
        rw ((str_eq_iff key.user_id key.user_id).1 refl, (str_eq_iff key.path key.path).1 refl) refl

    choose :
        (r : Result (Unit {0}) FileError)
        → validate_path key.path ≡ r
        → (elim r as (λ _. Result (Unit {0}) FileError × InMemoryFileStore) [
          | err e ↦ (err e, s)
          | ok _ ↦ (ok tt, insert key body s)
        ]).0
          ≡ ok tt
        → get key
            (elim r as (λ _. Result (Unit {0}) FileError × InMemoryFileStore) [
              | err e ↦ (err e, s)
              | ok _ ↦ (ok tt, insert key body s)
            ]).1
          ≡ ok body
    choose (err e) valid h = cc
    choose (ok _) valid h = rw (get, valid) (rw (lookup-insert key body s key, itself) refl)
