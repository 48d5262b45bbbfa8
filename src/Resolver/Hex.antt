-- ===== src/Resolver/Hex.antt =====
-- `EncodeToString` and `DecodeString` of the package encoding/hex.
use polaris_sidecar.Prelude.{
  All, List, Option, [], ap, arith, false, if◌then◌else◌, is_empty, leb, ltb, none, refl, some, ℕ,
  ◌%◌, ◌&&◌, ◌*◌, ◌+◌, ◌-◌, ◌/◌, ◌<◌, ◌∷◌, ◌≡◌, ◌⊎◌,
}
use polaris_sidecar.Prelude.Text.{Lacks, Str, str_eq}

hex_digit : ℕ → ℕ
hex_digit n = if ltb n 10 then b'0' + n else b'a' + (n - 10)

unfoldable pub encode_to_string : List ℕ → Str
unfolding hex_digit
encode_to_string [] = []
encode_to_string (b ∷ bs) = hex_digit (b / 16) ∷ hex_digit (b % 16) ∷ encode_to_string bs

from_hex : ℕ → Option ℕ
from_hex c =
    if leb b'0' c && leb c b'9'
    then some (c - b'0')
    else if leb b'a' c && leb c b'f'
    then some (c - b'a' + 10)
    else if leb b'A' c && leb c b'F'
    then some (c - b'A' + 10)
    else none

join_digits : Option ℕ → Option ℕ → Option (List ℕ) → Option (List ℕ)
join_digits (some a) (some b) (some bs) = some ((a * 16 + b) ∷ bs)
join_digits _ _ _ = none

-- `none` is the error of an odd length or of a byte that is no digit.
unfoldable pub decode_string : Str → Option (List ℕ)
unfolding from_hex join_digits
decode_string [] = some []
decode_string (x ∷ []) = none
decode_string (x ∷ y ∷ s) = join_digits (from_hex x) (from_hex y) (decode_string s)

abbrev pub IsBytes : List ℕ → Type 0
IsBytes = All (λ b. b < 256)

from_hex-hex_digit : (n : ℕ) → n < 16 → from_hex (hex_digit n) ≡ some n
unfolding from_hex hex_digit
from_hex-hex_digit n h = ground arith

pub decode-encode : (bs : List ℕ) → IsBytes bs → decode_string (encode_to_string bs) ≡ some bs
unfolding decode_string encode_to_string
decode-encode [] h = refl
decode-encode (b ∷ bs) h =
    rw
      (
        from_hex-hex_digit (b / 16) (omega arith),
        from_hex-hex_digit (b % 16) (omega arith),
        decode-encode bs h.1,
        join_digits,
      )
      (ap (λ n. some (n ∷ bs)) (omega arith))

-- The digits are numbers and small letters.
pub encode-Lacks :
    (c : ℕ) (bs : List ℕ)
    → IsBytes bs
    → (c < b'0') ⊎ ((b'9' < c) × (c < b'a'))
    → Lacks c (encode_to_string bs)
unfolding encode_to_string hex_digit
encode-Lacks c [] h k = tt
encode-Lacks c (b ∷ bs) h k = ((λ e. ground arith), ((λ e. ground arith), encode-Lacks c bs h.1 k))

pub is_empty-encode : (bs : List ℕ) → is_empty (encode_to_string bs) ≡ is_empty bs
unfolding encode_to_string
is_empty-encode [] = refl
is_empty-encode (b ∷ bs) = refl

-- No printed address is the label of addresses.
pub encode-ne-underscore :
    (bs : List ℕ) (s : Str) → IsBytes bs → str_eq (encode_to_string bs) (b'_' ∷ s) ≡ false
unfolding encode_to_string str_eq hex_digit
encode-ne-underscore [] s h = refl
encode-ne-underscore (b ∷ bs) s h = ground arith
