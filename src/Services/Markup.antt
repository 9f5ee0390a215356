-- ===== src/Services/Markup.antt =====
-- Texts in a plist are read back: an independent reader of the text of an XML element.
use Prim.Native.String.{◌++◌, [], ◌∷◌}
use text.Mathlib.TextLemmas.{nil-append, cons-append, append_assoc}
use text.Mathlib.TextEquality.{Char-path}
use enclout.Prelude.{
  String, Char, code, Bool, true, ◌&&◌, Option, none, some, ◌≡◌, refl, arith, eqb, Bool-cases, inl,
  inr, ap, sym, ◌==◌, ◌∙◌, if◌then◌else◌,
}
use enclout.Services.Escapes.{is_xml_char, escaped_char, xml_escape}

-- The character of an entity or a reference; those that the installer writes.
unfoldable pub referred : String → Option Char
referred name =
    if name == "#34"
    then some "\""
    else if name == "#39"
    then some "'"
    else if name == "amp"
    then some "&"
    else if name == "lt"
    then some "<"
    else if name == "gt"
    then some ">"
    else if name == "#x9"
    then some "\t"
    else if name == "#xA"
    then some "\n"
    else if name == "#xD"
    then some "\r"
    else none

abbrev before : Char → Option (String × String) → Option (String × String)
before c none = none
before c (some (v, rest)) = some (c ∷ v, rest)

abbrev before_referred : Option Char → Option (String × String) → Option (String × String)
before_referred none next = none
before_referred (some c) next = before c next

-- The text before the next tag, and what follows. The first argument is the part of a reference
-- that has been read, if one has begun.
unfoldable pub read_text : Option String → String → Option (String × String)
unfolding referred
read_text reference [] = none
read_text none (c ∷ s) =
    let inside = read_text (some "") s in
    let next = read_text none s in
    if eqb (code c) b'<'
    then some ([], c ∷ s)
    else if eqb (code c) b'&'
    then inside
    else before c next
read_text (some name) (c ∷ s) =
    let inside = read_text (some (name ++ (c ∷ []))) s in
    let next = read_text none s in
    if eqb (code c) b';' then before_referred (referred name) next else inside

unfoldable pub all_xml : String → Bool
all_xml [] = true
all_xml (c ∷ v) = is_xml_char c && all_xml v

append4 : (a b c d : Char) (s : String) → (a ∷ (b ∷ (c ∷ (d ∷ [])))) ++ s ≡ a ∷ (b ∷ (c ∷ (d ∷ s)))
append4 a b c d s = rw (cons-append a (b ∷ (c ∷ (d ∷ []))) s) (
    rw (cons-append b (c ∷ (d ∷ [])) s)
      (rw (cons-append c (d ∷ []) s) (rw (cons-append d [] s) (rw (nil-append s) refl))))

append5 :
    (a b c d e : Char) (s : String)
    → (a ∷ (b ∷ (c ∷ (d ∷ (e ∷ []))))) ++ s ≡ a ∷ (b ∷ (c ∷ (d ∷ (e ∷ s))))
append5 a b c d e s = rw (cons-append a (b ∷ (c ∷ (d ∷ (e ∷ [])))) s) (rw (append4 b c d e s) refl)

char_path : (c d : Char) → eqb (code c) (code d) ≡ true → c ≡ d
char_path c d h = Char-path c d (ground arith)

-- A character that XML takes is read back from what is written for it.
read_text-escaped_char :
    (c : Char) (s : String)
    → is_xml_char c ≡ true
    → read_text none (escaped_char c ++ s) ≡ before c (read_text none s)
unfolding escaped_char read_text referred
read_text-escaped_char c s valid = elim (Bool-cases (eqb (code c) b'"')) [
  | inl h ↦ rw h (
      rw (append5 "&" "#" "3" "4" ";" s)
        (ap (λ d. before d (read_text none s)) (sym (char_path c "\"" h))))
  | inr h0 ↦ elim (Bool-cases (eqb (code c) b'\'')) [
    | inl h ↦
        rw (h0, h)
          (rw (append5 "&" "#" "3" "9" ";" s)
            (ap (λ d. before d (read_text none s)) (sym (char_path c "'" h))))
    | inr h1 ↦ elim (Bool-cases (eqb (code c) b'&')) [
      | inl h ↦
          rw (h0, h1, h)
            (rw (append5 "&" "a" "m" "p" ";" s)
              (ap (λ d. before d (read_text none s)) (sym (char_path c "&" h))))
      | inr h2 ↦ elim (Bool-cases (eqb (code c) b'<')) [
        | inl h ↦
            rw (h0, h1, h2, h)
              (rw (append4 "&" "l" "t" ";" s)
                (ap (λ d. before d (read_text none s)) (sym (char_path c "<" h))))
        | inr h3 ↦ elim (Bool-cases (eqb (code c) b'>')) [
          | inl h ↦
              rw (h0, h1, h2, h3, h)
                (rw (append4 "&" "g" "t" ";" s)
                  (ap (λ d. before d (read_text none s)) (sym (char_path c ">" h))))
          | inr h4 ↦ elim (Bool-cases (eqb (code c) 9)) [
            | inl h ↦
                rw (h0, h1, h2, h3, h4, h)
                  (rw (append5 "&" "#" "x" "9" ";" s)
                    (ap (λ d. before d (read_text none s)) (sym (char_path c "\t" h))))
            | inr h5 ↦ elim (Bool-cases (eqb (code c) 10)) [
              | inl h ↦
                  rw (h0, h1, h2, h3, h4, h5, h)
                    (rw (append5 "&" "#" "x" "A" ";" s)
                      (ap (λ d. before d (read_text none s)) (sym (char_path c "\n" h))))
              | inr h6 ↦ elim (Bool-cases (eqb (code c) 13)) [
                | inl h ↦
                    rw (h0, h1, h2, h3, h4, h5, h6, h)
                      (rw (append5 "&" "#" "x" "D" ";" s)
                        (ap (λ d. before d (read_text none s)) (sym (char_path c "\r" h))))
                | inr h7 ↦
                    rw (h0, h1, h2, h3, h4, h5, h6, h7, valid)
                      (rw (cons-append c [] s) (rw (nil-append s) (rw (h3, h2) refl)))
              ]
            ]
          ]
        ]
      ]
    ]
  ]
]

-- Whatever a text of XML characters contains: escaped as the installer does it, it is read back as it
-- was, up to the tag that the installer writes behind it.
pub read_text-xml_escape :
    (v t : String)
    → all_xml v ≡ true
    → read_text none (xml_escape v ++ ("<" ∷ t)) ≡ some (v, "<" ∷ t)
unfolding read_text xml_escape all_xml
read_text-xml_escape [] t valid = rw (nil-append ("<" ∷ t)) refl
read_text-xml_escape (c ∷ v) t valid =
    let rest = read_text-xml_escape v t (ground arith) in
    rw (append_assoc (escaped_char c) (xml_escape v) ("<" ∷ t))
      (read_text-escaped_char c (xml_escape v ++ ("<" ∷ t)) (ground arith) ∙ ap (before c) rest)
