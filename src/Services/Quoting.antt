-- ===== src/Services/Quoting.antt =====
-- Texts in a unit are read back: an independent reader of systemd's double quotes.
use Prim.Native.String.{◌++◌, [], ◌∷◌}
use text.Mathlib.TextLemmas.{nil-append, cons-append}
use enclout.Prelude.{
  String, Char, code, Bool, true, false, not, ◌&&◌, ◌||◌, Option, none, some, ◌≡◌, refl, arith, eqb,
  Bool-cases, inl, inr, ap, sym, if◌then◌else◌,
}
use text.Mathlib.TextEquality.{Char-path}
use enclout.Services.Escapes.{replace_char, systemd_escape}

abbrev is_quote : Char → Bool
is_quote c = eqb (code c) b'"'

abbrev is_backslash : Char → Bool
is_backslash c = eqb (code c) b'\\'

abbrev before : Char → Option (String × String) → Option (String × String)
before c none = none
before c (some (v, rest)) = some (c ∷ v, rest)

-- What stands before the closing quote and behind it; `escaped` is whether a backslash has just been
-- read. Of the escapes, these are the two that a unit of the installer has.
unfoldable pub unquote : Bool → String → Option (String × String)
unquote escaped [] = none
unquote escaped (c ∷ s) =
    let next = unquote (not escaped && is_backslash c) s in
    if escaped
    then if is_quote c || is_backslash c then before c next else none
    else if is_quote c
    then some ([], s)
    else if is_backslash c
    then next
    else before c next

escape-backslash :
    (c : Char) (v : String)
    → is_backslash c ≡ true
    → systemd_escape (c ∷ v) ≡ "\\" ∷ ("\\" ∷ systemd_escape v)
unfolding systemd_escape replace_char
escape-backslash c v h = rw h (
    rw (cons-append "\\" "\\" (replace_char b'\\' "\\\\" v)) (
      rw (cons-append "\\" "" (replace_char b'\\' "\\\\" v))
        (rw (nil-append (replace_char b'\\' "\\\\" v)) refl)))

escape-quote :
    (c : Char) (v : String)
    → is_backslash c ≡ false
    → is_quote c ≡ true
    → systemd_escape (c ∷ v) ≡ "\\" ∷ ("\"" ∷ systemd_escape v)
unfolding systemd_escape replace_char
escape-quote c v plain h =
    rw (plain, h)
      (rw (cons-append "\\" "\"" (replace_char b'"' "\\\"" (replace_char b'\\' "\\\\" v))) (
        rw (cons-append "\"" "" (replace_char b'"' "\\\"" (replace_char b'\\' "\\\\" v)))
          (rw (nil-append (replace_char b'"' "\\\"" (replace_char b'\\' "\\\\" v))) refl)))

escape-other :
    (c : Char) (v : String)
    → is_backslash c ≡ false
    → is_quote c ≡ false
    → systemd_escape (c ∷ v) ≡ c ∷ systemd_escape v
unfolding systemd_escape replace_char
escape-other c v plain h = rw (plain, h) refl

backslash_path : (c : Char) → is_backslash c ≡ true → c ≡ "\\"
backslash_path c h = Char-path c "\\" (ground arith)

quote_path : (c : Char) → is_quote c ≡ true → c ≡ "\""
quote_path c h = Char-path c "\"" (ground arith)

escape_empty : systemd_escape "" ≡ ""
unfolding systemd_escape replace_char
escape_empty = refl

-- Whatever a text contains: between double quotes and escaped as the installer does it, it is read
-- back as it was, and the quotes end where the installer ends them.
pub unquote-systemd_escape :
    (v t : String) → unquote false (systemd_escape v ++ ("\"" ∷ t)) ≡ some (v, t)
unfolding unquote
unquote-systemd_escape [] t = rw (escape_empty, nil-append ("\"" ∷ t)) refl
unquote-systemd_escape (c ∷ v) t = elim (Bool-cases (is_backslash c)) [
  | inl h ↦ rw (escape-backslash c v h) (
      rw (cons-append "\\" ("\\" ∷ systemd_escape v) ("\"" ∷ t)) (
        rw (cons-append "\\" (systemd_escape v) ("\"" ∷ t))
          (rw (unquote-systemd_escape v t) (ap (λ d. some (d ∷ v, t)) (sym (backslash_path c h))))))
  | inr plain ↦ elim (Bool-cases (is_quote c)) [
    | inl h ↦ rw (escape-quote c v plain h) (
        rw (cons-append "\\" ("\"" ∷ systemd_escape v) ("\"" ∷ t)) (
          rw (cons-append "\"" (systemd_escape v) ("\"" ∷ t))
            (rw (unquote-systemd_escape v t) (ap (λ d. some (d ∷ v, t)) (sym (quote_path c h))))))
    | inr h ↦ rw (escape-other c v plain h) (
        rw (cons-append c (systemd_escape v) ("\"" ∷ t))
          (rw (plain, h) (rw (unquote-systemd_escape v t) refl)))
  ]
]
