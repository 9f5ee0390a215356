-- ===== src/Trust.antt =====
-- services/local-agent/internal/trust/keyset_source.go: the signing keys that the agent trusts, with
-- a cache.
--
-- A call reads the clock once. What the fetcher gives is an argument of the call: `none` where no
-- fetcher is configured.
mod Tests
pub mod Keys
pub mod Clean
pub mod Recent
use enclout.Prelude.{
  String, Bool, true, false, not, ◌&&◌, ◌||◌, Option, none, some, List, [], ◌∷◌, ◌==◌, ℤ, pos, ltb,
  is_positive, if◌then◌else◌,
}
use enclout.GoMap.{GoMap, lookup, insert}
use enclout.Text.Trim.{trim_space}
use enclout.Requests.Model.{Time, add_duration}
use enclout.Verify.Types.{GoError, plain, wrapped, Answer, ok, err, ◌>>=◌}

-- SigningKeyInfo of services/local-agent/internal/api/client.go
pub record SigningKeyInfo : Type 0 where
  pub kid : String
  pub alg : String
  pub public_key_b64 : String

pub record SigningKeyset : Type 0 where
  pub active_kid : String
  pub keys : List SigningKeyInfo

pub record KeysetSource : Type 0 where
  pub ttl : ℤ
  pub trusted : GoMap String
  pub expires_at : Time

-- 5 * time.Minute, in nanoseconds
abbrev pub default_keyset_cache_ttl : ℤ
default_keyset_cache_ttl = pos 300000000000

-- for kid, key := range in { … out[kid] = key }
unfoldable pub copy_into : GoMap String → GoMap String → GoMap String
copy_into [] out = out
copy_into ((kid, key) ∷ in_) out = copy_into in_ (
    if trim_space kid == "" || trim_space key == ""
    then out
    else insert (trim_space kid) (trim_space key) out)

-- A nil map is an empty one.
abbrev pub copy_trusted_key_map : GoMap String → GoMap String
copy_trusted_key_map in_ = copy_into in_ []

abbrev pub is_nil_map : GoMap String → Bool
is_nil_map [] = true
is_nil_map (e ∷ m) = false

abbrev pub ttl_or_default : ℤ → ℤ
ttl_or_default ttl = if is_positive ttl then ttl else default_keyset_cache_ttl

-- newKeysetSource, at the time `now`
unfoldable pub new_keyset_source : GoMap String → ℤ → Time → KeysetSource
new_keyset_source bootstrap ttl now =
    if is_nil_map (copy_trusted_key_map bootstrap)
    then record { ttl = ttl_or_default ttl; trusted = []; expires_at = 0 }
    else record {
      ttl = ttl_or_default ttl;
      trusted = copy_trusted_key_map bootstrap;
      expires_at = add_duration now (ttl_or_default ttl);
    }

unfoldable pub cached_if_fresh : Time → KeysetSource → Option (GoMap String)
cached_if_fresh now s =
    if is_nil_map s.trusted || not (ltb now s.expires_at)
    then none
    else some (copy_trusted_key_map s.trusted)

-- The loop over `keyset.Keys`.
unfoldable pub add_keys : List SigningKeyInfo → GoMap String → Answer (GoMap String)
add_keys [] out = ok out
add_keys (key ∷ keys) out =
    let rest = add_keys keys (insert (trim_space key.kid) (trim_space key.public_key_b64) out) in
    if trim_space key.kid == "" || trim_space key.public_key_b64 == ""
    then err (plain "keyset contains empty kid or public key")
    else if not (trim_space key.alg == "ed25519")
    then err (plain "unsupported signing key algorithm")
    else rest

-- The check of the active key.
unfoldable pub with_active : String → GoMap String → Answer (GoMap String)
with_active active out = if active == "" then ok out else elim (lookup active out) [
  | none ↦ err (plain "active kid missing from keyset")
  | some key ↦ ok out
]

abbrev pub is_empty_list : List SigningKeyInfo → Bool
is_empty_list [] = true
is_empty_list (key ∷ keys) = false

unfoldable pub trusted_map_from_keyset : SigningKeyset → Answer (GoMap String)
trusted_map_from_keyset keyset =
    if is_empty_list keyset.keys
    then err (plain "keyset is empty")
    else add_keys keyset.keys [] >>= with_active (trim_space keyset.active_kid)

-- fmt.Errorf("refresh signing keyset: %w", err)
abbrev pub refresh_error : GoError → GoError
refresh_error e = wrapped "refresh signing keyset" e

abbrev pub refresh :
    Time → Answer SigningKeyset → KeysetSource → Answer (GoMap String) × KeysetSource
refresh now (err e) s = (err (refresh_error e), s)
refresh now (ok keyset) s = elim (trusted_map_from_keyset keyset) [
  | err e ↦ (err (refresh_error e), s)
  | ok trusted ↦ (
    ok (copy_trusted_key_map trusted),
    record s { trusted = trusted; expires_at = add_duration now s.ttl },
  )
]

-- KeysetSource.TrustedKeys
unfoldable pub trusted_keys :
    Time → Option (Answer SigningKeyset) → KeysetSource → Answer (GoMap String) × KeysetSource
unfolding cached_if_fresh
trusted_keys now fetch s = elim (cached_if_fresh now s) [
  | some cached ↦ (ok cached, s)
  | none ↦ elim fetch [
    | none ↦ (err (plain "refresh signing keyset: no fetcher configured"), s)
    | some answer ↦ refresh now answer s
  ]
]

-- A call, and the source after a sequence of calls.
pub record Fetch : Type 0 where
  pub at : Time
  pub answer : Option (Answer SigningKeyset)

unfoldable pub run : List Fetch → KeysetSource → KeysetSource
unfolding trusted_keys
run [] s = s
run (c ∷ cs) s = run cs (trusted_keys c.at c.answer s).1
