-- ===== src/Http/Reached.antt =====
-- Which requests reach the function at "/v1/connection-requests/" through the routes of
-- services/control-plane/cmd/api/main.go.
use Prim.Native.String.{◌++◌}
use text.Mathlib.TextLemmas.{append_assoc, cons-append, nil-append}
use enclout.Prelude.{
  ℕ, String, true, false, [], ◌∷◌, ◌≡◌, ◌≢◌, refl, ap, ◌∙◌, arith, ◌==◌, eq_iff, eqb, length,
  Bool-cases, inl, inr,
}
use enclout.Text.Prefix.{cut_prefix}
use enclout.Text.Parts.{has_prefix, contains, split, split-append, split_whole, cut_prefix-append}
use enclout.Requests.Model.{Time}
use enclout.Http.{HttpRequest, RequestStore, Server}
use enclout.Http.Routes.{is_clean_path, connection_requests, serve}

-- A part of a path: it has no slash, and is neither empty nor a dot or two.
pub record IsPlainId (id : String) : Type 0 where
  pub filled : id ≢ ""
  pub no_slash : contains id b'/' ≡ false
  pub no_dot : id ≢ "."
  pub no_dots : id ≢ ".."

-- The path of a request with this identifier, and this part behind it.
abbrev pub path_of : String → String → String
path_of id last = "/v1/connection-requests/" ++ (id ++ (String.◌∷◌ "/" last))

cut_at : (p q x : String) → (p ++ (String.◌∷◌ "/" q)) ++ x ≡ p ++ (String.◌∷◌ "/" (q ++ x))
cut_at p q x = append_assoc p (String.◌∷◌ "/" q) x ∙ ap (λ s. p ++ s) (cons-append "/" q x)

split-path_of :
    (id last : String)
    → IsPlainId id
    → IsPlainId last
    → split (path_of id last) b'/' ≡ "" ∷ "v1" ∷ "connection-requests" ∷ id ∷ last ∷ []
unfolding split contains
split-path_of id last plain plain_last =
    let behind = id ++ (String.◌∷◌ "/" last) in
    rw (cons-append "/" "v1/connection-requests/" (id ++ (String.◌∷◌ "/" last))) (
      rw (cut_at "v1" "connection-requests/" (id ++ (String.◌∷◌ "/" last))) (
        rw
          (split-append "v1" ("connection-requests/" ++ (id ++ (String.◌∷◌ "/" last))) "/" b'/' refl
            refl)
          (rw (cut_at "connection-requests" "" (id ++ (String.◌∷◌ "/" last))) (
            rw
              (split-append "connection-requests" ("" ++ (id ++ (String.◌∷◌ "/" last))) "/" b'/'
                refl refl)
              (rw (nil-append (id ++ (String.◌∷◌ "/" last))) (
                rw (split-append id last "/" b'/' plain.no_slash refl)
                  (rw (split_whole last b'/' plain_last.no_slash) refl)))))))

part_is_clean :
    (id : String)
    → IsPlainId id
    → ((id == "") ≡ false) × ((id == ".") ≡ false) × ((id == "..") ≡ false)
part_is_clean id plain =
    let a = plain.filled in
    let b = plain.no_dot in
    let c = plain.no_dots in
    (ground (arith, eq_iff id ""), ground (arith, eq_iff id "."), ground (arith, eq_iff id ".."))

is_clean_path_of :
    (id last : String) → IsPlainId id → IsPlainId last → is_clean_path (path_of id last) ≡ true
unfolding is_clean_path has_prefix cut_prefix
is_clean_path_of id last plain plain_last =
    let parts = split-path_of id last plain plain_last in
    let (a, b, c) = part_is_clean id plain in
    let (d, e, f) = part_is_clean last plain_last in
    let first = cons-append "/" "v1/connection-requests/" (id ++ (String.◌∷◌ "/" last)) in
    rw (parts, a, b, c, e, f) (rw first refl)

-- A path of another number of parts.
other_path :
    (p q : String) (n : ℕ)
    → length (split p b'/') ≡ n
    → eqb (length (split q b'/')) n ≡ false
    → (p == q) ≡ false
other_path p q n five other = elim (Bool-cases (p == q)) [
  | inr differs ↦ differs
  | inl same ↦
      let e = ap (λ s. length (split s b'/')) ((eq_iff p q).0 same) in absurd (ground arith)
]

five_parts :
    (id last : String) → IsPlainId id → IsPlainId last → length (split (path_of id last) b'/') ≡ 5
five_parts id last plain plain_last = ap length (split-path_of id last plain plain_last)

has_prefix-path_of :
    (id last : String) → has_prefix (path_of id last) "/v1/connection-requests/" ≡ true
unfolding has_prefix
has_prefix-path_of id last =
    let found = cut_prefix-append "/v1/connection-requests/" (id ++ (String.◌∷◌ "/" last)) in
    ground arith

module _ {S : Type 0} (srv : Server) (store : RequestStore S) (r : HttpRequest) (now : Time) where
  -- A request whose path names a plain identifier is served by the function at the prefix.
  pub serve-path_of :
      (id last : String) (s : S)
      → IsPlainId id
      → IsPlainId last
      → r.path ≡ path_of id last
      → serve srv store r now s ≡ connection_requests srv store r now s
  unfolding serve split
  serve-path_of id last s plain plain_last named =
      let clean = is_clean_path_of id last plain plain_last in
      let five = five_parts id last plain plain_last in
      let a = other_path (path_of id last) "/v1/connection-requests" 5 five refl in
      let b = other_path (path_of id last) "/v1/install-sessions" 5 five refl in
      let c = other_path (path_of id last) "/v1/install-sessions/redeem" 5 five refl in
      let d = other_path (path_of id last) "/v1/openclaw/intents" 5 five refl in
      let e = other_path (path_of id last) "/v1/signing-keys" 5 five refl in
      let f = other_path (path_of id last) "/install" 5 five refl in
      let g = other_path (path_of id last) "/healthz" 5 five refl in
      let prefix = has_prefix-path_of id last in rw (named, clean, a, b, c, d, e, f, g, prefix) refl
