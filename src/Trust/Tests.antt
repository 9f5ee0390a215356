-- ===== src/Trust/Tests.antt =====
-- Runs of the keyset source, and its theorems at concrete calls.
use enclout.Prelude.{String, Option, none, some, List, [], ◌∷◌, ◌≡◌, ◌↔◌, refl, pos}
use enclout.GoMap.{GoMap, lookup, insert}
use enclout.Text.Trim.{trim_space}
use enclout.Verify.Types.{Answer, plain, ok, err}
use enclout.Trust.{
  SigningKeyset, Fetch, new_keyset_source, trusted_keys, cached_if_fresh, copy_into, add_keys,
  with_active, trusted_map_from_keyset, run,
}
use enclout.Trust.Keys.{IsAcceptable, last_key, trusted_map_iff}
use enclout.Trust.Recent.{Recent, trusted_keys-Recent}

abbrev rotated : SigningKeyset
rotated = record {
  active_kid = "v2";
  keys = record { kid = " v2 "; alg = "ed25519"; public_key_b64 = "KEY\n" } ∷ [];
}

abbrev fetched_once : Option (Answer SigningKeyset)
fetched_once = some (ok rotated)

-- A source with the key of the start, 100 ticks to live, made at the time 50.
abbrev bootstrap : GoMap String
bootstrap = ("v1", " OLD") ∷ ("", "LOST") ∷ []

abbrev first_call : List Fetch
first_call = record { at = 60; answer = some (err (plain "down")) } ∷ []

abbrev v2_keys : GoMap String
v2_keys = ("v2", "KEY") ∷ []

start_run :
    (trusted_keys 149 none (new_keyset_source bootstrap (pos 100) 50)).0 ≡ ok (("v1", "OLD") ∷ [])
unfolding trusted_keys new_keyset_source cached_if_fresh copy_into insert trim_space
start_run = refl

refresh_run :
    (trusted_keys 150 fetched_once (run first_call (new_keyset_source bootstrap (pos 100) 50))).0
    ≡ ok v2_keys
unfolding run trusted_keys new_keyset_source cached_if_fresh copy_into insert trim_space lookup
    trusted_map_from_keyset add_keys with_active
refresh_run = refl

trusted_map_iff_example :
    (((m : GoMap String) × (trusted_map_from_keyset rotated ≡ ok m)) ↔ IsAcceptable rotated)
    × ((m : GoMap String)
        → trusted_map_from_keyset rotated ≡ ok m
        → (kid : String) → lookup kid m ≡ last_key kid rotated.keys none)
trusted_map_iff_example = trusted_map_iff rotated

trusted_keys-Recent_example :
    Recent bootstrap
      (pos 100)
      50
      (record { at = 150; answer = fetched_once } ∷ first_call)
      150
      v2_keys
trusted_keys-Recent_example =
    trusted_keys-Recent bootstrap (pos 100) 50 first_call 150 fetched_once v2_keys refresh_run
