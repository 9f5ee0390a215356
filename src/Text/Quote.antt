-- ===== src/Text/Quote.antt =====
-- `%q` of `fmt.Sprintf`, which is `strconv.Quote`, and `url.QueryEscape`.
use Prim.Native.String.{[], ◌∷◌, ◌++◌}
use enclout.Prelude.{
  ℕ, ◌+◌, ◌/◌, ◌%◌, String, Char, code, Bool, ◌&&◌, ◌||◌, List, ltb, leb, eqb, if◌then◌else◌,
}
use enclout.Text.Hex.{hex_alphabet, char_from}

-- The last hexadecimal digit.
abbrev hex_digit : ℕ → Char
hex_digit n = char_from hex_alphabet (n % 16)

abbrev two_digits : ℕ → String
two_digits n = hex_digit (n / 16) ∷ (hex_digit n ∷ [])

abbrev four_digits : ℕ → String
four_digits n = two_digits (n / 256) ++ two_digits n

-- A character between the quotes; `is_print` is `unicode.IsPrint`, asked outside ASCII only.
unfoldable pub quoted_char : (Char → Bool) → Char → String
quoted_char is_print ch =
    let c = code ch in
    if eqb c b'"'
    then "\\\""
    else if eqb c b'\\'
    then "\\\\"
    else if (leb 0x20 c && ltb c 0x7f) || (leb 0x80 c && is_print ch)
    then ch ∷ []
    else if eqb c 7
    then "\\a"
    else if eqb c 8
    then "\\b"
    else if eqb c 12
    then "\\f"
    else if eqb c 10
    then "\\n"
    else if eqb c 13
    then "\\r"
    else if eqb c 9
    then "\\t"
    else if eqb c 11
    then "\\v"
    else if ltb c 0x80
    then "\\x" ++ two_digits c
    else if ltb c 0x10000
    then "\\u" ++ four_digits c
    else "\\U" ++ (four_digits (c / 65536) ++ four_digits c)

unfoldable pub quoted_text : (Char → Bool) → String → String
unfolding quoted_char
quoted_text is_print [] = []
quoted_text is_print (c ∷ s) = quoted_char is_print c ++ quoted_text is_print s

-- strconv.Quote(s)
unfoldable pub quote : (Char → Bool) → String → String
unfolding quoted_text
quote is_print s = "\"" ++ (quoted_text is_print s ++ "\"")

-- The bytes of a character in UTF-8.
unfoldable pub utf8 : ℕ → List ℕ
utf8 c =
    if ltb c 0x80
    then List.◌∷◌ c List.[]
    else if ltb c 0x800
    then List.◌∷◌ (0xc0 + c / 64) (List.◌∷◌ (0x80 + c % 64) List.[])
    else if ltb c 0x10000
    then List.◌∷◌ (0xe0 + c / 4096)
        (List.◌∷◌ (0x80 + c / 64 % 64) (List.◌∷◌ (0x80 + c % 64) List.[]))
    else List.◌∷◌ (0xf0 + c / 262144) (
        List.◌∷◌ (0x80 + c / 4096 % 64)
          (List.◌∷◌ (0x80 + c / 64 % 64) (List.◌∷◌ (0x80 + c % 64) List.[])))

abbrev percent : ℕ → String
percent b =
    "%" ∷ (char_from "0123456789ABCDEF" (b / 16) ∷ (char_from "0123456789ABCDEF" (b % 16) ∷ []))

unfoldable percents : List ℕ → String
percents List.[] = []
percents (List.◌∷◌ b bytes) = percent b ++ percents bytes

-- The characters that `url.QueryEscape` leaves as they are.
abbrev is_unreserved : ℕ → Bool
is_unreserved c =
    (leb b'a' c && leb c b'z')
    || (leb b'A' c && leb c b'Z')
    || (leb b'0' c && leb c b'9')
    || eqb c b'-'
    || eqb c b'_'
    || eqb c b'.'
    || eqb c b'~'

-- url.QueryEscape(s)
unfoldable pub query_escape : String → String
unfolding utf8 percents
query_escape [] = []
query_escape (c ∷ s) =
    let rest = query_escape s in
    if is_unreserved (code c)
    then c ∷ rest
    else if eqb (code c) b' '
    then "+" ∷ rest
    else percents (utf8 (code c)) ++ rest
