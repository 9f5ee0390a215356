-- ===== src/Text/Hex.antt =====
-- `encoding/hex`: lower-case digits, two to a byte.
use enclout.Prelude.{
  ℕ, zero, suc, ◌+◌, ◌-◌, ◌*◌, ◌/◌, ◌%◌, String, Char, code, Option, none, some, List, [], ◌∷◌, leb,
  ◌&&◌, if◌then◌else◌,
}

-- hex.EncodeToString, over a list of bytes
abbrev pub hex_alphabet : String
hex_alphabet = "0123456789abcdef"

abbrev pub char_from : String → ℕ → Char
char_from String.[] i = "0"
char_from (String.◌∷◌ c s) zero = c
char_from (String.◌∷◌ c s) (suc i) = char_from s i

unfoldable pub encode_to_string : List ℕ → String
encode_to_string [] = ""
encode_to_string (b ∷ bs) =
    String.◌∷◌ (char_from hex_alphabet (b / 16))
      (String.◌∷◌ (char_from hex_alphabet (b % 16)) (encode_to_string bs))

-- The value of a hexadecimal digit, in either case.
unfoldable pub from_hex_char : Char → Option ℕ
from_hex_char ch =
    let c = code ch in
    if leb b'0' c && leb c b'9'
    then some (c - b'0')
    else if leb b'a' c && leb c b'f'
    then some (c - b'a' + 10)
    else if leb b'A' c && leb c b'F'
    then some (c - b'A' + 10)
    else none

abbrev pair_byte : Option ℕ → Option ℕ → Option (List ℕ) → Option (List ℕ)
pair_byte (some hi) (some lo) (some rest) = some ((hi * 16 + lo) ∷ rest)
pair_byte _ _ _ = none

-- hex.DecodeString: `none` on a character that is no digit, and on an odd number of digits.
unfoldable pub decode_string : String → Option (List ℕ)
unfolding from_hex_char
decode_string String.[] = some []
decode_string (String.◌∷◌ c String.[]) = none
decode_string (String.◌∷◌ c (String.◌∷◌ d s)) =
    pair_byte (from_hex_char c) (from_hex_char d) (decode_string s)
