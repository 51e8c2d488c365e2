-- ===== src/Prelude/Utf8.antt =====
-- `String::from_utf8_lossy` of the standard library, on bytes: every longest beginning of a character
-- that breaks off becomes one replacement character.
use native.Mathlib.Omega.{arith}
use nightdrop.Prelude.{
  All, Bool, List, Option, [], ap, if◌then◌else◌, leb, ltb, none, refl, some, ℕ, ◌%◌, ◌&&◌, ◌++◌,
  ◌+◌, ◌/◌, ◌<◌, ◌==◌, ◌∙◌, ◌∷◌, ◌≡◌, ◌≤◌, ◌⊎◌,
}
use nightdrop.Prelude.Bytes.{Bytes}

-- U+FFFD in UTF-8
abbrev pub replacement : Bytes
replacement = 239 ∷ 191 ∷ 189 ∷ []

abbrev pub between : ℕ → ℕ → ℕ → Bool
between low high b = leb low b && leb b high

abbrev pub tail : ℕ × ℕ
tail = (128, 191)

-- Where the bytes after a leading byte have to lie; `none` if no character begins with this byte.
unfoldable pub following : ℕ → Option (List (ℕ × ℕ))
following b =
    if ltb b 128
    then some []
    else if between 194 223 b
    then some (tail ∷ [])
    else if b == 224
    then some ((160, 191) ∷ tail ∷ [])
    else if b == 237
    then some ((128, 159) ∷ tail ∷ [])
    else if between 225 239 b
    then some (tail ∷ tail ∷ [])
    else if b == 240
    then some ((144, 191) ∷ tail ∷ tail ∷ [])
    else if between 241 243 b
    then some (tail ∷ tail ∷ tail ∷ [])
    else if b == 244
    then some ((128, 143) ∷ tail ∷ tail ∷ [])
    else none

-- The character that is being read: its bytes so far, and where the others have to lie.
abbrev pub Partial : Type 0
Partial = Bytes × List (ℕ × ℕ)

-- What comes out of a leading byte, and the character that it begins.
unfoldable pub begin : ℕ → Option (List (ℕ × ℕ)) → Bytes × Partial
begin b none = (replacement, ([], []))
begin b (some []) = (b ∷ [], ([], []))
begin b (some (range ∷ ranges)) = ([], (b ∷ [], range ∷ ranges))

unfoldable pub extend : Bytes → ℕ → List (ℕ × ℕ) → Bytes × Partial
extend bytes b [] = (bytes ++ b ∷ [], ([], []))
extend bytes b (range ∷ ranges) = ([], (bytes ++ b ∷ [], range ∷ ranges))

unfoldable pub decode_byte : Partial → ℕ → Bytes × Partial
decode_byte (bytes, []) b = begin b (following b)
decode_byte (bytes, range ∷ ranges) b =
    let fresh = begin b (following b) in
    if between range.0 range.1 b then extend bytes b ranges else (replacement ++ fresh.0, fresh.1)

-- The end of the text breaks a character off.
unfoldable pub end_of : Partial → Bytes
end_of (bytes, []) = []
end_of (bytes, range ∷ ranges) = replacement

unfoldable pub lossy_from : Partial → Bytes → Bytes
lossy_from partial [] = end_of partial
lossy_from partial (b ∷ s) = let (out, next) = decode_byte partial b in out ++ lossy_from next s

unfoldable pub from_utf8_lossy : Bytes → Bytes
from_utf8_lossy s = lossy_from ([], []) s

-- A Unicode scalar value, and its encoding.
abbrev pub IsScalar : ℕ → Type 0
IsScalar c = (c < 0xd800) ⊎ ((0xe000 ≤ c) × (c < 0x110000))

unfoldable pub encode_utf8 : ℕ → Bytes
encode_utf8 c =
    if ltb c 0x80
    then c ∷ []
    else if ltb c 0x800
    then (192 + c / 64) ∷ (128 + c % 64) ∷ []
    else if ltb c 0x10000
    then (224 + c / 4096) ∷ (128 + c / 64 % 64) ∷ (128 + c % 64) ∷ []
    else (240 + c / 262144) ∷ (128 + c / 4096 % 64) ∷ (128 + c / 64 % 64) ∷ (128 + c % 64) ∷ []

unfoldable pub encode_text : List ℕ → Bytes
encode_text [] = []
encode_text (c ∷ text) = encode_utf8 c ++ encode_text text

lossy-encode_utf8 :
    (c : ℕ) (s : Bytes)
    → IsScalar c
    → lossy_from ([], []) (encode_utf8 c ++ s) ≡ encode_utf8 c ++ lossy_from ([], []) s
unfolding encode_utf8 lossy_from decode_byte extend begin following
lossy-encode_utf8 c s scalar = ground arith

-- A text in UTF-8 is kept as it is.
pub from_utf8_lossy-encode_text :
    (text : List ℕ) → All IsScalar text → from_utf8_lossy (encode_text text) ≡ encode_text text
unfolding from_utf8_lossy encode_text
from_utf8_lossy-encode_text [] _ = unfold lossy_from end_of in refl
from_utf8_lossy-encode_text (c ∷ text) (scalar, scalars) =
    lossy-encode_utf8 c (encode_text text) scalar
    ∙ ap (◌++◌ (encode_utf8 c)) (from_utf8_lossy-encode_text text scalars)
