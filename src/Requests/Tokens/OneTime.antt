-- ===== src/Requests/Tokens/OneTime.antt =====
-- A token is redeemed at most once, only while its session is approved, and only in time.
use enclout.Prelude.{
  String, Option, none, some, List, [], ◌∷◌, ◌≡◌, ◌≢◌, ◌≤◌, ◌↔◌, inl, inr, ap, arith, ◌==◌, eq_iff,
  eq_refl, Option-cases,
}
use enclout.GoMap.{lookup, delete_where}
use enclout.GoMap.Laws.{lookup-insert, lookup-delete_where}
use enclout.Requests.Model.{InstallStatus, Time, InstallSession, err_not_found, ok, error_of}
use enclout.Requests.Store.{Store}
use enclout.Requests.Install.{
  install_expired, expire_install_if_needed, digest_install_token, redeem_install_token,
}
use enclout.Requests.Calls.{Call, after, run}
use enclout.Requests.Tokens.Changes.{
  Change, keep, rewrite, amend, finish, spend, add, issued, after-Change,
}
use enclout.Requests.Tokens.Invariant.{IsWellFormed}

module _ (sha256_hex : String → String) where
  -- None of the calls issues a token with the digest `d`.
  abbrev pub NoneIssues : String → List Call → Type 0
  NoneIssues d [] = Unit
  NoneIssues d (c ∷ cs) = (issued sha256_hex c ≢ some d) × NoneIssues d cs

  -- A token is redeemed exactly when it is known, its session is there and approved, and the
  -- deadline of the session has not passed. The session is returned as it is stored.
  pub redeemed_iff :
      (now : Time) (token : String) (s : Store) (x : InstallSession)
      → ((redeem_install_token sha256_hex now token s).0 ≡ ok x) ↔ (
          (k : String) × (lookup (digest_install_token sha256_hex token) s.install_tokens ≡ some k)
          × (lookup k s.install_sessions ≡ some x)
          × (x.status ≡ InstallStatus.approved)
          × (now ≤ x.expires_at))
  unfolding redeem_install_token expire_install_if_needed install_expired
  redeemed_iff now token s x = (
    λ h. elim (Option-cases (lookup (digest_install_token sha256_hex token) s.install_tokens)) [
      | inl unknown ↦ ground arith
      | inr (k, known) ↦ (k, known, ground arith, ground arith, ground arith)
    ],
    λ (k, known, found, approved, early). ground arith,
  )

absent-delete :
    (id d : String) (s s' : Store)
    → s'.install_tokens ≡ delete_where (λ sid. sid == id) s.install_tokens
    → lookup d s.install_tokens ≡ none
    → lookup d s'.install_tokens ≡ none
absent-delete id d s s' e h =
    ground (arith, e, lookup-delete_where (λ sid. sid == id) d s.install_tokens)

-- A digest that leads nowhere leads nowhere afterwards, unless its token is issued.
Change-absent :
    (t a : Option String) (s s' : Store) (d : String)
    → Change t a s s'
    → t ≢ some d
    → lookup d s.install_tokens ≡ none
    → lookup d s'.install_tokens ≡ none
Change-absent t a s s' d (keep sessions tokens) n h = rw tokens h
Change-absent t a s s' d (rewrite id x found e) n h = rw (ap (λ t. t.install_tokens) e) h
Change-absent t a s s' d (amend id x x' found f fits why e) n h =
    rw (ap (λ t. t.install_tokens) e) h
Change-absent t a s s' d (finish id x x' found f closed e) n h =
    absent-delete x.id d s s' (ap (λ t. t.install_tokens) e) h
Change-absent t a s s' d (spend id x found e) n h =
    absent-delete x.id d s s' (ap (λ t. t.install_tokens) e) h
Change-absent t a s s' d (add x j issues new e) n h =
    ground
      (arith, ap (λ t. t.install_tokens) e, lookup-insert j d x.id s.install_tokens, eq_iff j d, n)

module _ (sha256_hex : String → String) where
  run-absent :
      (cs : List Call) (d : String) (s : Store)
      → NoneIssues sha256_hex d cs
      → lookup d s.install_tokens ≡ none
      → lookup d (run sha256_hex cs s).install_tokens ≡ none
  unfolding run
  run-absent [] d s n h = h
  run-absent (c ∷ cs) d s (n, ns) h =
      run-absent cs d (after sha256_hex c s) ns
        (Change-absent _ _ s _ d (after-Change sha256_hex c s) n h)

  -- A redeemed token leads nowhere: the session that it led to stands at its own identifier, so
  -- the deletion reaches the token.
  pub redeemed-absent :
      (now : Time) (token : String) (s : Store) (x : InstallSession)
      → IsWellFormed s
      → (redeem_install_token sha256_hex now token s).0 ≡ ok x
      → lookup
          (digest_install_token sha256_hex token)
          (redeem_install_token sha256_hex now token s).1.install_tokens
        ≡ none
  unfolding redeem_install_token expire_install_if_needed install_expired
  redeemed-absent now token s x w h =
      let (k, known, found, approved, early) = (redeemed_iff sha256_hex now token s x).0 h in
      ground (
        arith,
        known,
        found,
        approved,
        early,
        w.keyed k x found,
        lookup-delete_where (λ sid. sid == x.id) (digest_install_token sha256_hex token)
            s.install_tokens,
        eq_refl k,
      )

  unknown-refused :
      (now : Time) (token : String) (s : Store)
      → lookup (digest_install_token sha256_hex token) s.install_tokens ≡ none
      → error_of (redeem_install_token sha256_hex now token s).0 ≡ some err_not_found
  unfolding redeem_install_token
  unknown-refused now token s h = ground arith

  -- Once a token is redeemed in a well-formed store, no later redemption of it succeeds, whatever
  -- calls come between and at whatever times, as long as none of them issues a token with the same
  -- digest: the store answers that the token is not found.
  pub redeemed_once :
      (now later : Time) (token : String) (s : Store) (x : InstallSession) (cs : List Call)
      → IsWellFormed s
      → (redeem_install_token sha256_hex now token s).0 ≡ ok x
      → NoneIssues sha256_hex (digest_install_token sha256_hex token) cs
      → error_of
          (redeem_install_token sha256_hex later token
            (run sha256_hex cs (redeem_install_token sha256_hex now token s).1)).0
        ≡ some err_not_found
  redeemed_once now later token s x cs w h n = unknown-refused later token _ (
      run-absent cs (digest_install_token sha256_hex token) _ n (redeemed-absent now token s x w h))
