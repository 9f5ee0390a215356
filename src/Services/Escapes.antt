-- ===== src/Services/Escapes.antt =====
-- How texts are written into a unit and into a plist (services/local-agent/internal/install/systemd.go
-- and launchd.go).
use Prim.Native.String.{◌++◌, [], ◌∷◌}
use enclout.Prelude.{ℕ, String, Char, code, Bool, not, ◌&&◌, ◌||◌, leb, eqb, if◌then◌else◌}

-- strings.ReplaceAll of one character, by its code
unfoldable pub replace_char : ℕ → String → String → String
replace_char c new [] = []
replace_char c new (d ∷ s) =
    let rest = replace_char c new s in if eqb (code d) c then new ++ rest else d ∷ rest

-- systemdEscape
unfoldable pub systemd_escape : String → String
unfolding replace_char
systemd_escape v = replace_char b'"' "\\\"" (replace_char b'\\' "\\\\" v)

-- The characters that XML takes.
unfoldable pub is_xml_char : Char → Bool
is_xml_char ch =
    let c = code ch in
    eqb c 9
    || eqb c 10
    || eqb c 13
    || (leb 0x20 c && leb c 0xd7ff)
    || (leb 0xe000 c && leb c 0xfffd)
    || (leb 0x10000 c && leb c 0x10ffff)

-- What xml.EscapeText writes for a character.
unfoldable pub escaped_char : Char → String
escaped_char c =
    if eqb (code c) b'"'
    then "&#34;"
    else if eqb (code c) b'\''
    then "&#39;"
    else if eqb (code c) b'&'
    then "&amp;"
    else if eqb (code c) b'<'
    then "&lt;"
    else if eqb (code c) b'>'
    then "&gt;"
    else if eqb (code c) 9
    then "&#x9;"
    else if eqb (code c) 10
    then "&#xA;"
    else if eqb (code c) 13
    then "&#xD;"
    else if not (is_xml_char c)
    then "�"
    else c ∷ []

-- xmlEscape
unfoldable pub xml_escape : String → String
unfolding escaped_char
xml_escape [] = []
xml_escape (c ∷ v) = escaped_char c ++ xml_escape v
