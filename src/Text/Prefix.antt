-- ===== src/Text/Prefix.antt =====
-- `strings.TrimPrefix`, and `strings.ToLower` as far as the program sees it.
use Prim.Native.String.{[], ◌∷◌}
use enclout.Prelude.{String, Char, code, Option, none, some, ◌-◌, eqb, leb, ◌&&◌, if◌then◌else◌}
use enclout.Text.Hex.{char_from}

-- What is left of `s` behind the prefix `p`, if it has this prefix.
unfoldable pub cut_prefix : String → String → Option String
cut_prefix [] s = some s
cut_prefix (c ∷ p) [] = none
cut_prefix (c ∷ p) (d ∷ s) =
    let rest = cut_prefix p s in if eqb (code c) (code d) then rest else none

-- strings.TrimPrefix(s, p)
unfoldable pub trim_prefix : String → String → String
unfolding cut_prefix
trim_prefix s p = elim (cut_prefix p s) [ none ↦ s | some rest ↦ rest ]

-- A capital letter of ASCII becomes small, and so do the two letters outside ASCII whose small letters
-- are in it: the dotted capital I and the Kelvin sign. Every other character stays, since the program
-- only compares the result with words of ASCII, or replaces all else in it.
unfoldable pub lower_char : Char → Char
lower_char c =
    if leb b'A' (code c) && leb (code c) b'Z'
    then char_from "abcdefghijklmnopqrstuvwxyz" (code c - b'A')
    else if eqb (code c) 0x130
    then "i"
    else if eqb (code c) 0x212a
    then "k"
    else c

unfoldable pub to_lower : String → String
unfolding lower_char
to_lower [] = []
to_lower (c ∷ s) = lower_char c ∷ to_lower s
