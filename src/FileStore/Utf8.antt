-- ===== src/FileStore/Utf8.antt =====
-- `str::as_bytes` and `String::from_utf8`, on the codes of characters.
use open_eo_ru_stac.Prelude.{
  ℕ, zero, suc, ◌+◌, ◌-◌, ◌*◌, ◌/◌, ◌%◌, ◌&&◌, Option, none, some, List, [], ◌∷◌, ◌++◌,
  if◌then◌else◌, ltb, leb, ◌==◌,
}

abbrev pub encode_char : ℕ → List ℕ
encode_char c =
    if ltb c 128
    then c ∷ []
    else if ltb c 2048
    then (192 + c / 64) ∷ (128 + c % 64) ∷ []
    else if ltb c 65536
    then (224 + c / 4096) ∷ (128 + (c / 64) % 64) ∷ (128 + c % 64) ∷ []
    else (240 + c / 262144) ∷ (128 + (c / 4096) % 64) ∷ (128 + (c / 64) % 64) ∷ (128 + c % 64) ∷ []

unfoldable pub encode : List ℕ → List ℕ
encode [] = []
encode (c ∷ cs) = encode_char c ++ encode cs

-- Between characters, or `more + 1` bytes before the end of one, of which the next lies in a range.
pub data Expect : Type 0 where
  between : Expect
  within : (more acc low high : ℕ) → Expect

abbrev pub lead : ℕ → Option (List ℕ × Expect)
lead b =
    if ltb b 128
    then some (b ∷ [], between)
    else if ltb b 194
    then none
    else if ltb b 224
    then some ([], within 0 (b - 192) 128 191)
    else if b == 224
    then some ([], within 1 0 160 191)
    else if b == 237
    then some ([], within 1 13 128 159)
    else if ltb b 240
    then some ([], within 1 (b - 224) 128 191)
    else if b == 240
    then some ([], within 2 0 144 191)
    else if ltb b 244
    then some ([], within 2 (b - 240) 128 191)
    else if b == 244
    then some ([], within 2 4 128 143)
    else none

abbrev pub shifted : ℕ → ℕ → ℕ
shifted acc b = acc * 64 + (b - 128)

abbrev pub continued : ℕ → ℕ → List ℕ × Expect
continued zero acc = (acc ∷ [], between)
continued (suc more) acc = ([], within more acc 128 191)

abbrev pub take_byte : Expect → ℕ → Option (List ℕ × Expect)
take_byte between b = lead b
take_byte (within more acc low high) b =
    if leb low b && leb b high then some (continued more (shifted acc b)) else none

unfoldable pub decode_from : Expect → List ℕ → Option (List ℕ)
decode_from between [] = some []
decode_from (within more acc low high) [] = none
decode_from e (b ∷ bs) = elim (take_byte e b) [
  | none ↦ none
  | some (out, next) ↦ elim (decode_from next bs) [ none ↦ none | some rest ↦ some (out ++ rest) ]
]

unfoldable pub decode : List ℕ → Option (List ℕ)
unfolding decode_from
decode bs = decode_from between bs
