-- ===== src/FileStore.antt =====
-- apps/orbit-openeo/src/file_store.rs: the check of a path, and the in-memory store. A text is the
-- list of the codes of its characters where it is taken apart.
pub mod Utf8
pub mod Paths
pub mod Refinement
mod Tests
use Prim.Native.String.{◌++◌ as ◌<>◌, compare}
use Prim.Native.Char.{code}
use Prim.Native.Nat.{lt, eq, gt}
use open_eo_ru_stac.Prelude.{
  ℕ, ◌+◌, ◌-◌, ◌*◌, ◌/◌, ◌%◌, Bool, true, false, ◌&&◌, ◌||◌, String, Option, none, some, List, [],
  ◌∷◌, length, get_or, Result, ok, err, ok_or, str_eq, if◌then◌else◌, ltb, leb, ◌==◌,
}
use open_eo_ru_stac.JobRunner.Interface.{FileKey, FileError, missing, forbidden, io, FileOps}
use Utf8.{encode, decode}

unfoldable pub codes : String → List ℕ
codes String.[] = []
codes (String.◌∷◌ c s) = code c ∷ codes s

-- `to_digit(16)`.
abbrev pub hex_value : ℕ → Option ℕ
hex_value b =
    if leb 48 b && leb b 57
    then some (b - 48)
    else if leb 97 b && leb b 102
    then some (b - 87)
    else if leb 65 b && leb b 70
    then some (b - 55)
    else none

abbrev pub escape : ℕ → ℕ → ℕ → Option ℕ
escape b h l = if b == 37 then pair (hex_value h) (hex_value l) else none
  where
    pair : Option ℕ → Option ℕ → Option ℕ
    pair (some hi) (some lo) = some (16 * hi + lo)
    pair _ _ = none

-- The loop of `percent_decode_once` over the bytes.
unfoldable pub decode_escapes : List ℕ → List ℕ
decode_escapes [] = []
decode_escapes (b ∷ []) = b ∷ []
decode_escapes (b ∷ h ∷ []) = b ∷ h ∷ []
decode_escapes (b ∷ h ∷ l ∷ bs) = elim (escape b h l) [
  | some v ↦ v ∷ decode_escapes bs
  | none ↦ b ∷ decode_escapes (h ∷ l ∷ bs)
]

unfoldable pub contains : ℕ → List ℕ → Bool
contains c [] = false
contains c (d ∷ ds) = if d == c then true else contains c ds

-- "\\0invalid"
abbrev pub invalid_marker : List ℕ
invalid_marker = 92 ∷ 48 ∷ 105 ∷ 110 ∷ 118 ∷ 97 ∷ 108 ∷ 105 ∷ 100 ∷ []

abbrev pub or_marker : Option (List ℕ) → List ℕ
or_marker none = invalid_marker
or_marker (some s) = s

unfoldable pub percent_decode_once : List ℕ → List ℕ
unfolding contains encode decode decode_escapes
percent_decode_once s = if contains 37 s then or_marker (decode (decode_escapes (encode s))) else s

abbrev pub is_control : ℕ → Bool
is_control c = ltb c 32 || (leb 127 c && leb c 159)

abbrev pub is_disallowed : ℕ → Bool
is_disallowed c =
    (c == 92)
    || (c == 58)
    || (c == 60)
    || (c == 62)
    || (c == 34)
    || (c == 124)
    || (c == 63)
    || (c == 42)
    || (c == 0)

abbrev pub is_alphabetic : ℕ → Bool
is_alphabetic c = (leb 65 c && leb c 90) || (leb 97 c && leb c 122)

abbrev pub hex_digit : ℕ → String
hex_digit n = get_or hex_digits n ""
  where
    hex_digits : List String
    hex_digits =
        "0" ∷ "1" ∷ "2" ∷ "3" ∷ "4" ∷ "5" ∷ "6" ∷ "7" ∷ "8" ∷ "9" ∷ "A" ∷ "B" ∷ "C" ∷ "D" ∷ "E"
        ∷ "F" ∷ []

-- `{:04X}` of a control character, which is below 256, and `{:?}` of a disallowed one.
abbrev pub control_text : ℕ → String
control_text c = "control char U+00" <> hex_digit (c / 16) <> hex_digit (c % 16)

abbrev pub quoted : ℕ → String
quoted c =
    if c == 92
    then "'\\\\'"
    else if c == 58
    then "':'"
    else if c == 60
    then "'<'"
    else if c == 62
    then "'>'"
    else if c == 34
    then "'\"'"
    else if c == 124
    then "'|'"
    else if c == 63
    then "'?'"
    else "'*'"

-- The loop over the characters.
unfoldable pub bad_char : List ℕ → Option String
bad_char [] = none
bad_char (c ∷ cs) =
    if is_control c
    then some (control_text c)
    else if is_disallowed c
    then some ("disallowed char " <> quoted c)
    else bad_char cs

-- `split('/')`: the first segment, and the others.
unfoldable pub split_slash : List ℕ → List ℕ × List (List ℕ)
split_slash [] = ([], [])
split_slash (c ∷ cs) =
    let (seg, segs) = split_slash cs in if c == 47 then ([], seg ∷ segs) else (c ∷ seg, segs)

unfoldable pub segments : List ℕ → List (List ℕ)
unfolding split_slash
segments cs = let (seg, segs) = split_slash cs in seg ∷ segs

abbrev pub is_bad_segment : List ℕ → Bool
is_bad_segment [] = true
is_bad_segment (c ∷ []) = c == 46
is_bad_segment (c ∷ d ∷ []) = (c == 46) && (d == 46)
is_bad_segment _ = false

unfoldable pub any_bad : List (List ℕ) → Bool
any_bad [] = false
any_bad (seg ∷ segs) = is_bad_segment seg || any_bad segs

-- `nth(1)` is `:` behind a letter.
abbrev pub drive_letter : List ℕ → Bool
drive_letter (c ∷ d ∷ cs) = (d == 58) && is_alphabetic c
drive_letter _ = false

abbrev pub refused : String → Result (Unit {0}) FileError
refused text = err (forbidden text)

abbrev pub segments_checked : String → List ℕ → Result (Unit {0}) FileError
segments_checked path target = if any_bad (segments target) then refused path else ok tt

abbrev pub chars_checked : String → List ℕ → Option String → Result (Unit {0}) FileError
chars_checked path target (some text) = refused text
chars_checked path target none = segments_checked path target

abbrev pub target_checked : String → List ℕ → Result (Unit {0}) FileError
target_checked path [] = refused "empty path"
target_checked path (c ∷ cs) =
    if (c == 47) || (c == 92)
    then refused "absolute path"
    else if c == 45
    then refused "leading dash (option-injection risk)"
    else if c == 126
    then refused "leading tilde (home-dir injection)"
    else if drive_letter (c ∷ cs)
    then refused "drive-letter prefix"
    else chars_checked path (c ∷ cs) (bad_char (c ∷ cs))

unfoldable pub validate_path : String → Result (Unit {0}) FileError
unfolding codes percent_decode_once bad_char any_bad segments
validate_path path = target_checked path (percent_decode_once (codes path))

-- `InMemoryFileStore`: a `BTreeMap`, in the order of its keys.
abbrev pub InMemoryFileStore : Type 0
InMemoryFileStore = List (FileKey × List ℕ)

abbrev pub same_key : FileKey → FileKey → Bool
same_key a b = str_eq a.user_id b.user_id && str_eq a.path b.path

abbrev pub less_key : FileKey → FileKey → Bool
less_key a b = elim (compare a.user_id b.user_id) [
  | lt ↦ true
  | gt ↦ false
  | eq ↦ elim (compare a.path b.path) [ lt ↦ true | gt ↦ false | eq ↦ false ]
]

unfoldable pub insert : FileKey → List ℕ → InMemoryFileStore → InMemoryFileStore
insert key body [] = (key, body) ∷ []
insert key body ((k, b) ∷ s) =
    let rest = insert key body s in
    if same_key k key
    then (key, body) ∷ s
    else if less_key key k
    then (key, body) ∷ (k, b) ∷ s
    else (k, b) ∷ rest

unfoldable pub lookup : FileKey → InMemoryFileStore → Option (List ℕ)
lookup key [] = none
lookup key ((k, b) ∷ s) = if same_key k key then some b else lookup key s

unfoldable pub remove : FileKey → InMemoryFileStore → InMemoryFileStore
remove key [] = []
remove key ((k, b) ∷ s) = let rest = remove key s in if same_key k key then rest else (k, b) ∷ rest

unfoldable pub put :
    FileKey → List ℕ → InMemoryFileStore → Result (Unit {0}) FileError × InMemoryFileStore
unfolding validate_path insert
put key body s = elim (validate_path key.path) [
  | err e ↦ (err e, s)
  | ok _ ↦ (ok tt, insert key body s)
]

unfoldable pub get : FileKey → InMemoryFileStore → Result (List ℕ) FileError
unfolding validate_path lookup
get key s = elim (validate_path key.path) [ err e ↦ err e | ok _ ↦ ok_or missing (lookup key s) ]

unfoldable pub delete :
    FileKey → InMemoryFileStore → Result (Unit {0}) FileError × InMemoryFileStore
unfolding validate_path remove
delete key s = elim (validate_path key.path) [ err e ↦ (err e, s) | ok _ ↦ (ok tt, remove key s) ]

pub record FileEntry : Type 0 where
  pub path : String
  pub size : ℕ

unfoldable pub list : String → InMemoryFileStore → List FileEntry
list user_id [] = []
list user_id ((k, b) ∷ s) =
    let rest = list user_id s in
    if str_eq k.user_id user_id then record { path = k.path; size = length b } ∷ rest else rest

-- The store as a run of a job takes it.
abbrev pub memory_files : FileOps InMemoryFileStore
memory_files = record { put = put }
