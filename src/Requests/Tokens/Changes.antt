-- ===== src/Requests/Tokens/Changes.antt =====
-- What one call can do to the install sessions and to their tokens.
use enclout.Prelude.{
  String, Bool, true, false, Option, none, some, not, ◌&&◌, ◌||◌, ◌≡◌, ◌<◌, ◌⊎◌, inl, inr, refl,
  arith, ◌==◌, Bool-cases, Option-cases, is_positive, if◌then◌else◌,
}
use enclout.GoMap.{lookup, insert}
use enclout.Text.Trim.{trim_space}
use enclout.Requests.Model.{
  InstallStatus, install_status_eq, Time, InstallSession, CreateInstallInput, random_id,
}
use enclout.Requests.Store.{
  Store, Draw, create, get, list_pending_for_device, set_local_decision, set_result,
}
use enclout.Requests.Install.{
  put_session, delete_install_tokens, install_expired, expired_session, expire_install_if_needed,
  get_install_session, with_identity, set_install_identity, with_approval, with_denial,
  set_install_approval, with_install_result, set_install_result, new_session, digest_install_token,
  create_install_session, redeem_install_token,
}
use enclout.Requests.Calls.{
  Call, creates_session, gets_session, identifies, approves, installs, redeems, after,
}

-- The statuses of a session that can still be installed.
abbrev pub is_open : InstallStatus → Bool
is_open InstallStatus.requested = true
is_open InstallStatus.approved = true
is_open _ = false

-- Both identifiers of the session are there.
abbrev pub HasIdentity : InstallSession → Type 0
HasIdentity x =
    ((trim_space x.connector_id == "") ≡ false) × ((trim_space x.device_id == "") ≡ false)

-- The moves of the status of a session. `lapse` is the passing of the deadline, which ends every
-- session that is neither installed nor failed.
pub data Move (x x' : InstallSession) : Type 0 where
  stay : x'.status ≡ x.status → is_open x.status ≡ true → Move x x'
  approve : x.status ≡ InstallStatus.requested → x'.status ≡ InstallStatus.approved → Move x x'
  deny : x.status ≡ InstallStatus.requested → x'.status ≡ InstallStatus.failed → Move x x'
  lapse :
      (t : Time)
      → x.expires_at < t
      → install_status_eq x.status InstallStatus.installed ≡ false
      → x'.status ≡ InstallStatus.failed
      → Move x x'
  install :
      x.status ≡ InstallStatus.approved
      → x'.status ≡ InstallStatus.installed
      → HasIdentity x'
      → Move x x'
  give_up : x.status ≡ InstallStatus.approved → x'.status ≡ InstallStatus.failed → Move x x'

-- `x'` is a later reading of the session `x`.
pub record Follows (x x' : InstallSession) : Type 0 where
  pub id : x'.id ≡ x.id
  pub openclaw_user_id : x'.openclaw_user_id ≡ x.openclaw_user_id
  pub source_channel : x'.source_channel ≡ x.source_channel
  pub created_at : x'.created_at ≡ x.created_at
  pub expires_at : x'.expires_at ≡ x.expires_at
  pub move : Move x x'

-- The changes that a call makes, if `t` is the digest of the token that it issues, and `a` the
-- session that it approves. Only `finish` and `spend` drop tokens, all those of one session, and
-- only `add` brings one in.
pub data Change (t a : Option String) (s s' : Store) : Type 0 where
  keep :
      s'.install_sessions ≡ s.install_sessions
      → s'.install_tokens ≡ s.install_tokens
      → Change t a s s'
  rewrite :
      (id : String) (x : InstallSession)
      → lookup id s.install_sessions ≡ some x
      → s' ≡ put_session id x s
      → Change t a s s'
  amend :
      (id : String) (x x' : InstallSession)
      → lookup id s.install_sessions ≡ some x
      → Follows x x'
      → is_open x'.status ≡ true
      → (x'.status ≡ x.status) ⊎ (a ≡ some id)
      → s' ≡ put_session id x' s
      → Change t a s s'
  finish :
      (id : String) (x x' : InstallSession)
      → lookup id s.install_sessions ≡ some x
      → Follows x x'
      → is_open x'.status ≡ false
      → s' ≡ put_session id x' (delete_install_tokens x.id s)
      → Change t a s s'
  spend :
      (id : String) (x : InstallSession)
      → lookup id s.install_sessions ≡ some x
      → s' ≡ delete_install_tokens x.id s
      → Change t a s s'
  add :
      (x : InstallSession) (d : String)
      → t ≡ some d
      → x.status ≡ InstallStatus.requested
      → s' ≡ record s {
        install_sessions = insert x.id x s.install_sessions;
        install_tokens = insert d x.id s.install_tokens;
      }
      → Change t a s s'

module _ (now : Time) (x : InstallSession) where
  expired-Follows : install_expired now x ≡ true → Follows x (expired_session x)
  unfolding install_expired
  expired-Follows h = record {
    id = refl;
    openclaw_user_id = refl;
    source_channel = refl;
    created_at = refl;
    expires_at = refl;
    move = lapse now (ground arith) (ground arith) refl;
  }

  module _ (id : String) (s : Store) (found : lookup id s.install_sessions ≡ some x) where
    expired-Change :
        (s' : Store)
        → install_expired now x ≡ true
        → s' ≡ put_session id (expired_session x) (delete_install_tokens x.id s)
        → {a : Option String} → Change none a s s'
    expired-Change s' late e = finish id x (expired_session x) found (expired-Follows late) refl e

    get-Change : Change none none s (get_install_session now id s).1
    unfolding get_install_session expire_install_if_needed
    get-Change = elim (Bool-cases (install_expired now x)) [
      | inl late ↦ expired-Change _ late (ground arith)
      | inr live ↦ rewrite id x found (ground arith)
    ]

    with_identity-Follows :
        (connector_id device_id : String)
        → is_open x.status ≡ true
        → Follows x (with_identity connector_id device_id x)
    with_identity-Follows connector_id device_id fits = record {
      id = refl;
      openclaw_user_id = refl;
      source_channel = refl;
      created_at = refl;
      expires_at = refl;
      move = stay refl fits;
    }

    identity-Change :
        (connector_id device_id : String)
        → Change none none s (set_install_identity now id connector_id device_id s).1
    unfolding set_install_identity expire_install_if_needed
    identity-Change c d = elim (Bool-cases (trim_space c == "" || trim_space d == "")) [
      | inl missing ↦ keep (ground arith) (ground arith)
      | inr given ↦ elim (Bool-cases (install_expired now x)) [
        | inl late ↦ expired-Change _ late (ground arith)
        | inr live ↦ elim (Bool-cases (is_open x.status)) [
          | inl fits ↦
              amend id x (with_identity c d x) found (with_identity-Follows c d fits) fits
                (inl refl) (ground arith)
          | inr closed ↦ keep (ground arith) (ground arith)
        ]
      ]
    ]

    with_approval-Follows : x.status ≡ InstallStatus.requested → Follows x (with_approval x)
    with_approval-Follows e = record {
      id = refl;
      openclaw_user_id = refl;
      source_channel = refl;
      created_at = refl;
      expires_at = refl;
      move = approve e refl;
    }

    with_denial-Follows : x.status ≡ InstallStatus.requested → Follows x (with_denial x)
    with_denial-Follows e = record {
      id = refl;
      openclaw_user_id = refl;
      source_channel = refl;
      created_at = refl;
      expires_at = refl;
      move = deny e refl;
    }

    approval-Change :
        (approved : Bool)
        → Change none
            (if approved then some id else none)
            s
            (set_install_approval now id approved s).1
    unfolding set_install_approval expire_install_if_needed
    approval-Change approved = elim (Bool-cases (install_expired now x)) [
      | inl late ↦ expired-Change _ late (ground arith)
      | inr live ↦ elim (Bool-cases (install_status_eq x.status InstallStatus.requested)) [
        | inl requested ↦ elim (Bool-cases approved) [
          | inl given ↦
              amend id x (with_approval x) found (with_approval-Follows (ground arith)) refl
                (inr (ground arith)) (ground arith)
          | inr denied ↦
              finish id x (with_denial x) found (with_denial-Follows (ground arith)) refl
                (ground arith)
        ]
        | inr other ↦ keep (ground arith) (ground arith)
      ]
    ]

    -- The guard of `SetInstallResult` that is left, once the session is found and in time.
    abbrev reportable : InstallStatus → Bool
    reportable status =
        install_status_eq x.status InstallStatus.approved
        && (install_status_eq status InstallStatus.failed
            || (install_status_eq status InstallStatus.installed
                && not (trim_space x.connector_id == "" || trim_space x.device_id == "")))

    with_install_result-Follows :
        (status : InstallStatus) (reason : String)
        → reportable status ≡ true
        → Follows x (with_install_result status reason x)
    with_install_result-Follows status reason h = record {
      id = refl;
      openclaw_user_id = refl;
      source_channel = refl;
      created_at = refl;
      expires_at = refl;
      move = elim (Bool-cases (install_status_eq status InstallStatus.failed)) [
        | inl failed ↦ give_up (ground arith) (ground arith)
        | inr other ↦ install (ground arith) (ground arith) (ground arith, ground arith)
      ];
    }

    result-Change :
        (status : InstallStatus) (reason : String)
        → Change none none s (set_install_result now id status reason s).1
    unfolding set_install_result expire_install_if_needed
    result-Change status reason = elim (Bool-cases (install_expired now x)) [
      | inl late ↦ expired-Change _ late (ground arith)
      | inr live ↦ elim (Bool-cases (reportable status)) [
        | inl fits ↦
            finish id x (with_install_result status reason x) found
              (with_install_result-Follows status reason fits) (ground arith) (ground arith)
        | inr unfit ↦ keep (ground arith) (ground arith)
      ]
    ]

    redeem-Change :
        (sha256_hex : String → String) (token : String)
        → lookup (digest_install_token sha256_hex token) s.install_tokens ≡ some id
        → Change none none s (redeem_install_token sha256_hex now token s).1
    unfolding redeem_install_token expire_install_if_needed
    redeem-Change sha256_hex token known = elim (Bool-cases (install_expired now x)) [
      | inl late ↦ expired-Change _ late (ground arith)
      | inr live ↦ elim (Bool-cases (install_status_eq x.status InstallStatus.approved)) [
        | inl approved ↦ spend id x found (ground arith)
        | inr other ↦ keep (ground arith) (ground arith)
      ]
    ]

-- The session that a call approves, if it is there.
abbrev pub approving : Call → Option String
approving (approves now id approved) = if approved then some id else none
approving _ = none

module _ (sha256_hex : String → String) where
  create-Change :
      (now : Time) (id token : Draw) (in_ : CreateInstallInput) (s : Store)
      → Change
          (some (digest_install_token sha256_hex (random_id token)))
          none
          s
          (create_install_session sha256_hex now id token in_ s).1
  unfolding create_install_session
  create-Change now id token in_ s =
      elim (Bool-cases (in_.openclaw_user_id == "" || not (is_positive in_.ttl))) [
        | inl refused ↦ keep (ground arith) (ground arith)
        | inr accepted ↦
            add (new_session now id in_) (digest_install_token sha256_hex (random_id token)) refl
              refl (ground arith)
      ]

  redeems-Change :
      (now : Time) (token : String) (s : Store)
      → Change none none s (redeem_install_token sha256_hex now token s).1
  unfolding redeem_install_token
  redeems-Change now token s =
      elim (Option-cases (lookup (digest_install_token sha256_hex token) s.install_tokens)) [
        | inl unknown ↦ keep (ground arith) (ground arith)
        | inr (id, known) ↦ elim (Option-cases (lookup id s.install_sessions)) [
          | inl missing ↦ keep (ground arith) (ground arith)
          | inr (x, found) ↦ redeem-Change now x id s found sha256_hex token known
        ]
      ]

  -- The digest of the token that a call issues, if its input is accepted.
  abbrev pub issued : Call → Option String
  issued (creates_session now id token in_) =
      some (digest_install_token sha256_hex (random_id token))
  issued _ = none

  -- Every call makes one of the changes.
  pub after-Change :
      (c : Call) (s : Store) → Change (issued c) (approving c) s (after sha256_hex c s)
  unfolding after create get list_pending_for_device set_local_decision set_result
      get_install_session set_install_identity set_install_approval set_install_result
  after-Change (creates_session now id token in_) s = create-Change now id token in_ s
  after-Change (gets_session now id) s = elim (Option-cases (lookup id s.install_sessions)) [
    | inl missing ↦ keep (ground arith) (ground arith)
    | inr (x, found) ↦ get-Change now x id s found
  ]
  after-Change (identifies now id c d) s = elim (Option-cases (lookup id s.install_sessions)) [
    | inl missing ↦ keep (ground arith) (ground arith)
    | inr (x, found) ↦ identity-Change now x id s found c d
  ]
  after-Change (approves now id approved) s = elim (Option-cases (lookup id s.install_sessions)) [
    | inl missing ↦ keep (ground arith) (ground arith)
    | inr (x, found) ↦ approval-Change now x id s found approved
  ]
  after-Change (installs now id status r) s = elim (Option-cases (lookup id s.install_sessions)) [
    | inl missing ↦ keep (ground arith) (ground arith)
    | inr (x, found) ↦ result-Change now x id s found status r
  ]
  after-Change (redeems now token) s = redeems-Change now token s
  after-Change _ s = keep (ground arith) (ground arith)
