-- ===== src/Trust/Recent.antt =====
-- The keys that the agent trusts are never older than the time to live of the cache.
use mathlib.Core.List.{Memᴰ}
use enclout.Prelude.{
  String, true, false, Option, none, some, List, [], ◌∷◌, ◌≡◌, ◌≢◌, ◌<◌, ℤ, pos, negsuc, zero, suc,
  inl, inr, refl, arith, ap, ◌∙◌, subst, is_positive, Bool-cases, Option-cases,
}
use enclout.GoMap.{GoMap, lookup}
use enclout.Requests.Model.{Time, add_duration}
use enclout.Verify.Types.{GoError, plain, Answer, Answer-cases, ok, err}
use enclout.Trust.{
  SigningKeyset, KeysetSource, copy_trusted_key_map, ttl_or_default, new_keyset_source,
  cached_if_fresh, trusted_map_from_keyset, is_nil_map, refresh_error, trusted_keys, Fetch, run,
}
use enclout.Trust.Keys.{IsAcceptable, last_key, trusted_map_sound}
use enclout.Trust.Clean.{
  copy_into-IsClean, lookup-copy_trusted_key_map, trusted_map-IsClean, trusted_map-ne-nil,
}

abbrev pub SameKeys : GoMap String → GoMap String → Type 0
SameKeys m n = (kid : String) → lookup kid m ≡ lookup kid n

abbrev fetched_at : Time → SigningKeyset → Fetch
fetched_at t keyset = record { at = t; answer = some (ok keyset) }

-- Where the keys come from that are answered at `now`: from the start, at `t0`, or from one of the
-- calls, at a time `t`; either less than a time to live ago.
pub data Recent (bootstrap : GoMap String) (ttl : ℤ) (t0 : Time) (calls : List Fetch) (now : Time)
    (keys : GoMap String) : Type 0 where
  bootstrapped :
      now < add_duration t0 (ttl_or_default ttl)
      → SameKeys keys (copy_trusted_key_map bootstrap)
      → Recent bootstrap ttl t0 calls now keys
  fetched :
      (t : Time) (keyset : SigningKeyset)
      → Memᴰ (record { at = t; answer = some (ok keyset) }) calls
      → now < add_duration t (ttl_or_default ttl)
      → IsAcceptable keyset
      → ((kid : String) → lookup kid keys ≡ last_key kid keyset.keys none)
      → Recent bootstrap ttl t0 calls now keys

-- What one call does: it serves the cache, fails, or refreshes the keys from a keyset.
data Outcome (now : Time) (fetch : Option (Answer SigningKeyset)) (s : KeysetSource) : Type 0 where
  serves :
      now < s.expires_at
      → s.trusted ≢ []
      → trusted_keys now fetch s ≡ (ok (copy_trusted_key_map s.trusted), s)
      → Outcome now fetch s
  fails : (e : GoError) → trusted_keys now fetch s ≡ (err e, s) → Outcome now fetch s
  refreshes :
      (keyset : SigningKeyset) (trusted : GoMap String)
      → fetch ≡ some (ok keyset)
      → trusted_map_from_keyset keyset ≡ ok trusted
      → trusted_keys now fetch s ≡ (
        ok (copy_trusted_key_map trusted),
        record s { trusted = trusted; expires_at = add_duration now s.ttl },
      )
      → Outcome now fetch s

fresh-facts :
    (now : Time) (s : KeysetSource) (m : GoMap String)
    → cached_if_fresh now s ≡ some m
    → (now < s.expires_at) × (s.trusted ≢ []) × (m ≡ copy_trusted_key_map s.trusted)
unfolding cached_if_fresh
fresh-facts now s m h = (ground arith, ground arith, ground arith)

trusted_keys-Outcome :
    (now : Time) (fetch : Option (Answer SigningKeyset)) (s : KeysetSource) → Outcome now fetch s
unfolding trusted_keys
trusted_keys-Outcome now fetch s = elim (Option-cases (cached_if_fresh now s)) [
  | inr (m, fresh) ↦
      let (early, filled, same) = fresh-facts now s m fresh in serves early filled (ground arith)
  | inl stale ↦ stale_outcome fetch stale
]
  where
    refused :
        (keyset : SigningKeyset) → cached_if_fresh now s ≡ none → Outcome now (some (ok keyset)) s
    refused keyset stale = elim (Answer-cases (trusted_map_from_keyset keyset)) [
      | inl (m, accepted) ↦ refreshes keyset m refl accepted (ground arith)
      | inr (e, refusal) ↦ fails (refresh_error e) (ground arith)
    ]

    stale_outcome :
        (f : Option (Answer SigningKeyset)) → cached_if_fresh now s ≡ none → Outcome now f s
    stale_outcome none stale =
        fails (plain "refresh signing keyset: no fetcher configured") (ground arith)
    stale_outcome (some (err e)) stale = fails (refresh_error e) (ground arith)
    stale_outcome (some (ok keyset)) stale = refused keyset stale

is_nil_map_lem : (m : GoMap String) → m ≢ [] → is_nil_map m ≡ false
is_nil_map_lem [] h = absurd (h refl)
is_nil_map_lem (e ∷ m) h = refl

fresh_lem :
    (now : Time) (fetch : Option (Answer SigningKeyset)) (s : KeysetSource)
    → now < s.expires_at
    → s.trusted ≢ []
    → trusted_keys now fetch s ≡ (ok (copy_trusted_key_map s.trusted), s)
unfolding trusted_keys cached_if_fresh
fresh_lem now fetch s early filled = let some_keys = is_nil_map_lem s.trusted filled in ground arith

ttl_or_default_lem : (ttl : ℤ) → is_positive (ttl_or_default ttl) ≡ true
ttl_or_default_lem (pos zero) = refl
ttl_or_default_lem (pos (suc n)) = refl
ttl_or_default_lem (negsuc n) = refl

add_duration-lt : (t : Time) (d : ℤ) → is_positive d ≡ true → t < add_duration t d
add_duration-lt t (pos zero) h = absurd (ground arith)
add_duration-lt t (pos (suc n)) h = omega arith
add_duration-lt t (negsuc n) h = absurd (ground arith)

module _ (bootstrap : GoMap String) (ttl : ℤ) (t0 : Time) (calls : List Fetch) where
  -- Where the state of a source comes from.
  data Origin (s : KeysetSource) : Type 0 where
    empty : s.trusted ≡ [] → Origin s
    from_start :
        s.trusted ≡ copy_trusted_key_map bootstrap
        → s.expires_at ≡ add_duration t0 (ttl_or_default ttl)
        → Origin s
    from_call :
        (t : Time) (keyset : SigningKeyset)
        → Memᴰ (fetched_at t keyset) calls
        → trusted_map_from_keyset keyset ≡ ok s.trusted
        → s.expires_at ≡ add_duration t (ttl_or_default ttl)
        → Origin s

  record IsKept (s : KeysetSource) : Type 0 where
    lives : s.ttl ≡ ttl_or_default ttl
    origin : Origin s

  new_keyset_source-IsKept : IsKept (new_keyset_source bootstrap ttl t0)
  unfolding new_keyset_source
  new_keyset_source-IsKept = elim (Bool-cases (is_nil_map (copy_trusted_key_map bootstrap))) [
    | inl none_left ↦ rw none_left (record { lives = refl; origin = empty refl })
    | inr filled ↦ rw filled (record { lives = refl; origin = from_start refl refl })
  ]

  after-IsKept :
      (now : Time) (fetch : Option (Answer SigningKeyset)) (s : KeysetSource)
      → Memᴰ (record { at = now; answer = fetch }) calls
      → IsKept s
      → IsKept (trusted_keys now fetch s).1
  after-IsKept now fetch s here k = elim (trusted_keys-Outcome now fetch s) [
    | serves early filled e ↦ rw e k
    | fails cause e ↦ rw e k
    | refreshes keyset trusted given accepted e ↦ rw e (record {
      lives = k.lives;
      origin =
          from_call now keyset
            (subst (λ f. Memᴰ (record { at = now; answer = f }) calls) given here) accepted
            (ap (add_duration now) k.lives);
    })
  ]

  run-IsKept :
      (cs : List Fetch) (s : KeysetSource)
      → ((c : Fetch) → Memᴰ c cs → Memᴰ c calls)
      → IsKept s
      → IsKept (run cs s)
  unfolding run
  run-IsKept [] s sub k = k
  run-IsKept (c ∷ cs) s sub k =
      run-IsKept cs (trusted_keys c.at c.answer s).1 (λ d h. sub d (Memᴰ.tail h))
        (after-IsKept c.at c.answer s (sub c (Memᴰ.head refl)) k)

  served-Recent :
      (now : Time) (s : KeysetSource)
      → IsKept s
      → now < s.expires_at
      → s.trusted ≢ []
      → Recent bootstrap ttl t0 calls now (copy_trusted_key_map s.trusted)
  served-Recent now s k early filled = elim k.origin [
    | empty e ↦ absurd (filled e)
    | from_start e expiry ↦ bootstrapped (subst (λ (t : Time). now < t) expiry early) (λ kid.
        lookup-copy_trusted_key_map kid s.trusted (rw e (copy_into-IsClean bootstrap [] tt))
        ∙ ap (lookup kid) e)
    | from_call t keyset here accepted expiry ↦
        let (acceptable, found) = trusted_map_sound keyset s.trusted accepted in
        fetched t keyset here (subst (λ (t' : Time). now < t') expiry early) acceptable (λ kid.
          lookup-copy_trusted_key_map kid s.trusted (trusted_map-IsClean keyset s.trusted accepted)
          ∙ found kid)
  ]

  answered-Recent :
      (now : Time) (fetch : Option (Answer SigningKeyset)) (s : KeysetSource) (keys : GoMap String)
      → Memᴰ (record { at = now; answer = fetch }) calls
      → IsKept s
      → (trusted_keys now fetch s).0 ≡ ok keys
      → Recent bootstrap ttl t0 calls now keys
  answered-Recent now fetch s keys here k h = elim (trusted_keys-Outcome now fetch s) [
    | serves early filled e ↦
        subst (Recent bootstrap ttl t0 calls now) (cc) (served-Recent now s k early filled)
    | fails cause e ↦ absurd (ground arith)
    | refreshes keyset trusted given accepted e ↦
        let (acceptable, found) = trusted_map_sound keyset trusted accepted in
        let later = add_duration-lt now (ttl_or_default ttl) (ttl_or_default_lem ttl) in
        subst (Recent bootstrap ttl t0 calls now) (cc) (
          fetched now keyset (subst (λ f. Memᴰ (record { at = now; answer = f }) calls) given here)
            later acceptable
            (λ kid.
              lookup-copy_trusted_key_map kid trusted (trusted_map-IsClean keyset trusted accepted)
              ∙ found kid))
  ]

-- Keys that a source answers, after any calls at any times, come from a keyset that was fetched less
-- than the time to live before (a call of this one counts) and is acceptable, and are then the keys
-- of that keyset; or they are those that the source was made with, less than the time to live ago.
-- A time to live that is not positive counts as five minutes. No failed fetch prolongs it.
pub trusted_keys-Recent :
    (bootstrap : GoMap String) (ttl : ℤ) (t0 : Time) (cs : List Fetch) (now : Time)
    (fetch : Option (Answer SigningKeyset)) (keys : GoMap String)
    → (trusted_keys now fetch (run cs (new_keyset_source bootstrap ttl t0))).0 ≡ ok keys
    → Recent bootstrap ttl t0 (record { at = now; answer = fetch } ∷ cs) now keys
trusted_keys-Recent bootstrap ttl t0 cs now fetch keys h =
    answered-Recent bootstrap ttl t0 (record { at = now; answer = fetch } ∷ cs) now fetch
      (run cs (new_keyset_source bootstrap ttl t0)) keys (Memᴰ.head refl)
      (run-IsKept bootstrap ttl t0 (record { at = now; answer = fetch } ∷ cs) cs
        (new_keyset_source bootstrap ttl t0) (λ c. Memᴰ.tail)
        (new_keyset_source-IsKept bootstrap ttl t0 (record { at = now; answer = fetch } ∷ cs)))
      h

-- Once a call has answered some keys, every later call before the deadline of the cache answers the
-- same keys, whatever the fetcher would give, and leaves the source as it is.
pub trusted_keys_cached :
    (t now : Time) (fetch later_fetch : Option (Answer SigningKeyset)) (s : KeysetSource)
    (keys : GoMap String)
    → (trusted_keys t fetch s).0 ≡ ok keys
    → now < (trusted_keys t fetch s).1.expires_at
    → trusted_keys now later_fetch (trusted_keys t fetch s).1
      ≡ (ok keys, (trusted_keys t fetch s).1)
trusted_keys_cached t now fetch later_fetch s keys h early = elim (trusted_keys-Outcome t fetch s) [
  | fails cause e ↦ absurd (ground arith)
  | serves early' filled e ↦
      let same : s ≡ (trusted_keys t fetch s).1 = cc in
      let again = fresh_lem now later_fetch s (ground arith) filled in ground arith
  | refreshes keyset trusted given accepted e ↦
      let again =
        fresh_lem now later_fetch
          (record s { trusted = trusted; expires_at = add_duration t s.ttl }) (ground arith)
          (trusted_map-ne-nil keyset trusted accepted) in
      ground arith
]
