-- ===== src/Requests/Install.antt =====
-- The operations of `InMemoryStore` on install sessions and their one-time tokens
-- (services/control-plane/internal/requests/store.go).
--
-- `sha256_hex` is SHA-256 followed by the hexadecimal encoding, a parameter.
use enclout.Prelude.{
  String, Bool, true, false, not, ◌&&◌, ◌||◌, none, some, ◌==◌, ltb, is_positive, if◌then◌else◌,
}
use enclout.GoMap.{lookup, insert, delete_where}
use enclout.Text.Trim.{trim_space}
use enclout.Requests.Model.{
  InstallStatus, install_status_eq, Time, add_duration, InstallSession, CreateInstallInput,
  zero_session, err_not_found, err_invalid_transition, err_expired, missing_required_fields,
  ttl_must_be_positive, Result, ok, fail, random_id,
}
use enclout.Requests.Store.{Store, Draw}

-- s.installSessions[id] = session
abbrev pub put_session : String → InstallSession → Store → Store
put_session id session s = record s { install_sessions = insert id session s.install_sessions }

-- deleteInstallTokensForSessionLocked
abbrev pub delete_install_tokens : String → Store → Store
delete_install_tokens session_id s = record s {
  install_tokens = delete_where (λ sid. sid == session_id) s.install_tokens;
}

-- The test of `expireInstallIfNeeded`: its second result.
unfoldable pub install_expired : Time → InstallSession → Bool
install_expired now session =
    ltb session.expires_at now
    && not (install_status_eq session.status InstallStatus.installed)
    && not (install_status_eq session.status InstallStatus.failed)

-- The session that `expireInstallIfNeeded` returns where that test holds.
abbrev pub expired_session : InstallSession → InstallSession
expired_session session = record session {
  status = InstallStatus.failed;
  reason_code = if session.reason_code == "" then "Expired" else session.reason_code;
}

unfoldable pub expire_install_if_needed : Time → InstallSession → InstallSession × Bool
unfolding install_expired
expire_install_if_needed now session =
    if install_expired now session then (expired_session session, true) else (session, false)

-- What the operations do with an expired session: drop its tokens, then write it back.
abbrev pub expire_in : String → InstallSession → Store → Store
expire_in id session s = put_session id session (delete_install_tokens session.id s)

unfoldable pub get_install_session : Time → String → Store → Result InstallSession × Store
get_install_session now id s = elim (lookup id s.install_sessions) [
  | none ↦ (fail err_not_found zero_session, s)
  | some found ↦
      let (session, expired) = expire_install_if_needed now found in
      (
        ok session,
        put_session id session (if expired then delete_install_tokens session.id s else s),
      )
]

abbrev pub with_identity : String → String → InstallSession → InstallSession
with_identity connector_id device_id session = record session {
  connector_id = trim_space connector_id;
  device_id = trim_space device_id;
}

unfoldable pub set_install_identity :
    Time → String → String → String → Store → Result InstallSession × Store
set_install_identity now id connector_id device_id s =
    if trim_space connector_id == "" || trim_space device_id == ""
    then (fail missing_required_fields zero_session, s)
    else elim (lookup id s.install_sessions) [
      | none ↦ (fail err_not_found zero_session, s)
      | some found ↦
          let (session, expired) = expire_install_if_needed now found in
          if expired
          then (fail err_expired session, expire_in id session s)
          else if not (install_status_eq session.status InstallStatus.requested)
              && not (install_status_eq session.status InstallStatus.approved)
          then (fail err_invalid_transition zero_session, s)
          else (
            ok (with_identity connector_id device_id session),
            put_session id (with_identity connector_id device_id session) s,
          )
    ]

abbrev pub with_approval : InstallSession → InstallSession
with_approval session = record session { status = InstallStatus.approved }

abbrev pub with_denial : InstallSession → InstallSession
with_denial session = record session { status = InstallStatus.failed; reason_code = "Denied" }

unfoldable pub set_install_approval : Time → String → Bool → Store → Result InstallSession × Store
set_install_approval now id approved s = elim (lookup id s.install_sessions) [
  | none ↦ (fail err_not_found zero_session, s)
  | some found ↦
      let (session, expired) = expire_install_if_needed now found in
      if expired
      then (fail err_expired session, expire_in id session s)
      else if not (install_status_eq session.status InstallStatus.requested)
      then (fail err_invalid_transition zero_session, s)
      else if approved
      then (ok (with_approval session), put_session id (with_approval session) s)
      else (
        ok (with_denial session),
        put_session id (with_denial session) (delete_install_tokens session.id s),
      )
]

abbrev pub with_install_result : InstallStatus → String → InstallSession → InstallSession
with_install_result status reason_code session = record session {
  status = status;
  reason_code = reason_code;
}

unfoldable pub set_install_result :
    Time → String → InstallStatus → String → Store → Result InstallSession × Store
set_install_result now id status reason_code s = elim (lookup id s.install_sessions) [
  | none ↦ (fail err_not_found zero_session, s)
  | some found ↦
      let (session, expired) = expire_install_if_needed now found in
      if expired
      then (fail err_expired session, expire_in id session s)
      else if not (install_status_eq session.status InstallStatus.approved)
      then (fail err_invalid_transition zero_session, s)
      else if not (install_status_eq status InstallStatus.installed)
          && not (install_status_eq status InstallStatus.failed)
      then (fail err_invalid_transition zero_session, s)
      else if install_status_eq status InstallStatus.installed
          && (trim_space session.connector_id == "" || trim_space session.device_id == "")
      then (fail err_invalid_transition zero_session, s)
      else (
        ok (with_install_result status reason_code session),
        delete_install_tokens session.id
            (put_session id (with_install_result status reason_code session) s),
      )
]

abbrev pub new_session : Time → Draw → CreateInstallInput → InstallSession
new_session now id in_ = record {
  id = random_id id;
  openclaw_user_id = in_.openclaw_user_id;
  device_id = in_.device_id;
  connector_id = in_.connector_id;
  source_channel = in_.source_channel;
  status = InstallStatus.requested;
  created_at = now;
  expires_at = add_duration now in_.ttl;
  reason_code = "";
}

module _ (sha256_hex : String → String) where
  unfoldable pub digest_install_token : String → String
  digest_install_token token = sha256_hex (trim_space token)

  -- The result holds the session and the token.
  unfoldable pub create_install_session :
      Time → Draw → Draw → CreateInstallInput → Store → Result (InstallSession × String) × Store
  unfolding digest_install_token
  create_install_session now id token in_ s =
      if in_.openclaw_user_id == ""
      then (fail missing_required_fields (zero_session, ""), s)
      else if not (is_positive in_.ttl)
      then (fail ttl_must_be_positive (zero_session, ""), s)
      else let session = new_session now id in_ in
        let t = random_id token in
        (
          ok (session, t),
          record s {
            install_sessions = insert session.id session s.install_sessions;
            install_tokens = insert (digest_install_token t) session.id s.install_tokens;
          },
        )

  unfoldable pub redeem_install_token : Time → String → Store → Result InstallSession × Store
  unfolding digest_install_token
  redeem_install_token now token s = elim (lookup (digest_install_token token) s.install_tokens) [
    | none ↦ (fail err_not_found zero_session, s)
    | some session_id ↦ elim (lookup session_id s.install_sessions) [
      | none ↦ (fail err_not_found zero_session, s)
      | some found ↦
          let (session, expired) = expire_install_if_needed now found in
          if expired
          then (fail err_expired session, expire_in session_id session s)
          else if not (install_status_eq session.status InstallStatus.approved)
          then (fail err_invalid_transition zero_session, s)
          else (ok session, delete_install_tokens session.id s)
    ]
  ]
