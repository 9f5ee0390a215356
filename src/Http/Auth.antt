-- ===== src/Http/Auth.antt =====
-- services/control-plane/internal/http/auth.go, and the header that the agent sends
-- (`addHeaders` of services/local-agent/internal/api/client.go).
use Prim.Native.String.{◌∷◌, ◌++◌, len}
use enclout.Prelude.{
  String, Bool, true, false, not, Option, none, some, ◌≡◌, ◌≢◌, ◌↔◌, arith, refl, eqb, ◌||◌, ◌==◌,
  eq_iff, if◌then◌else◌, ap, ◌∙◌, Option-cases, inl, inr,
}
use text.Mathlib.TextLemmas.{
  append_assoc, nil-append, cons-append, append-ne-nil_of_right_ne-nil, cons-ne-nil,
}
use enclout.Text.Trim.{trim_space, is_space, is_empty_of_ne, trim_space-append}
use enclout.Text.Prefix.{to_lower}
use text.Mathlib.TextEquality.{Char-path}
use enclout.Text.Parts.{split_once, contains, split_once-append, split_once_sound}

-- `strings.EqualFold(s, "Bearer")`: no letter of the word folds to one outside ASCII.
abbrev is_bearer : String → Bool
is_bearer s = to_lower s == "bearer"

abbrev second_part : Option (String × String) → String
second_part none = ""
second_part (some (scheme, rest)) = if not (is_bearer scheme) then "" else trim_space rest

unfoldable pub parse_bearer_token : String → String
unfolding trim_space split_once to_lower
parse_bearer_token raw =
    if trim_space raw == "" then "" else second_part (split_once (trim_space raw) b' ')

-- `subtle.ConstantTimeCompare` is 1 exactly for equal bytes.
unfoldable pub secure_token_equal : String → String → Bool
secure_token_equal a b =
    if a == "" || b == "" then false else if not (eqb (len a) (len b)) then false else a == b

-- The test of `RequireBearerToken`, on the header `Authorization`.
unfoldable pub bears : String → String → Bool
unfolding parse_bearer_token secure_token_equal
bears expected_token authorization =
    secure_token_equal expected_token (parse_bearer_token authorization)

-- Client.addHeaders: the header `Authorization`, or none, which the control plane reads as empty
unfoldable pub authorization_header : String → String
authorization_header token = if token == "" then "" else "Bearer " ++ token

-- The header carries this token: around a first space stand the word Bearer, in any case of its
-- letters, and the token; white space at the ends of the header and of the token does not count.
pub record CarriesToken (authorization token : String) : Type 0 where
  pub scheme : String
  pub rest : String
  pub whole : trim_space authorization ≡ scheme ++ (◌∷◌ " " rest)
  pub one_word : contains scheme b' ' ≡ false
  pub bearer : to_lower scheme ≡ "bearer"
  pub token_behind : trim_space rest ≡ token

not_blank : (scheme rest : String) → scheme ++ (◌∷◌ " " rest) ≢ ""
not_blank scheme rest = append-ne-nil_of_right_ne-nil scheme (cons-ne-nil " " rest)

parse_bearer_token_sound :
    (authorization token : String)
    → token ≢ ""
    → parse_bearer_token authorization ≡ token
    → CarriesToken authorization token
unfolding parse_bearer_token
parse_bearer_token_sound authorization token filled h =
    elim (Option-cases (split_once (trim_space authorization) b' ')) [
      | inl unsplit ↦ absurd (ground (arith, eq_iff (trim_space authorization) ""))
      | inr ((scheme, rest), found) ↦
          let (d, space, parts, one_word) =
            split_once_sound (trim_space authorization) scheme rest b' ' found in
          record {
            scheme = scheme;
            rest = rest;
            whole = parts ∙ ap (λ c. scheme ++ (◌∷◌ c rest)) (Char-path d " " space);
            one_word = one_word;
            bearer =
                ground
                  (arith, eq_iff (to_lower scheme) "bearer", eq_iff (trim_space authorization) "");
            token_behind = ground (arith, eq_iff (trim_space authorization) "");
          }
    ]

parse_bearer_token_complete :
    (authorization token : String)
    → CarriesToken authorization token
    → parse_bearer_token authorization ≡ token
unfolding parse_bearer_token
parse_bearer_token_complete authorization token c =
    let parts = split_once-append c.scheme c.rest " " b' ' c.one_word refl in
    let same = c.token_behind in
    let bearer = c.bearer in
    rw (c.whole) (
      rw parts (
        ground (
          arith,
          eq_iff (c.scheme ++ (◌∷◌ " " c.rest)) "",
          not_blank c.scheme c.rest,
          eq_iff (to_lower c.scheme) "bearer",
        )))

-- A request passes exactly when a token is configured and the header carries it behind the word
-- Bearer.
pub bears_iff :
    (expected authorization : String)
    → (bears expected authorization ≡ true)
      ↔ ((expected ≢ "") × CarriesToken authorization expected)
unfolding bears secure_token_equal
bears_iff expected authorization = (
  λ h.
      let filled : expected ≢ "" = ground (arith, eq_iff expected "") in
      (
        filled,
        parse_bearer_token_sound authorization expected filled
            (ground (arith, eq_iff expected (parse_bearer_token authorization))),
      ),
  λ (filled, carried).
      let same = parse_bearer_token_complete authorization expected carried in
      ground (
        arith,
        eq_iff expected "",
        eq_iff (parse_bearer_token authorization) "",
        eq_iff expected (parse_bearer_token authorization),
      ),
)

header-append : (token : String) → "Bearer " ++ token ≡ "Bearer" ++ (◌∷◌ " " token)
header-append token =
    append_assoc "Bearer" " " token
    ∙ ap (λ s. "Bearer" ++ s) (cons-append " " "" token ∙ ap (λ s. ◌∷◌ " " s) (nil-append token))

trim_space-header :
    (token : String)
    → token ≢ ""
    → trim_space token ≡ token
    → trim_space ("Bearer " ++ token) ≡ "Bearer " ++ token
unfolding is_space
trim_space-header token filled trimmed =
    let e : "Bearer " ++ token ≡ ◌∷◌ "B" ("earer " ++ token) = cons-append "B" "earer " token in
    rw e (trim_space-append "B" "earer " token refl trimmed (is_empty_of_ne token filled))

-- The header that the agent makes of its token is the one that the control plane reads the same
-- token from, if the token is not empty and has no white space at its ends.
pub bears-authorization_header :
    (token : String)
    → token ≢ ""
    → trim_space token ≡ token
    → bears token (authorization_header token) ≡ true
unfolding authorization_header contains to_lower
bears-authorization_header token filled trimmed =
    let whole = trim_space-header token filled trimmed ∙ header-append token in
    let sent : authorization_header token ≡ "Bearer " ++ token = ground (arith, eq_iff token "") in
    (bears_iff token (authorization_header token)).1 (
      filled,
      record {
        scheme = "Bearer";
        rest = token;
        whole = ap trim_space sent ∙ whole;
        one_word = refl;
        bearer = refl;
        token_behind = trimmed;
      },
    )
