-- ===== src/Http/Handlers.antt =====
-- The handlers of services/control-plane/internal/http on requests and install sessions:
-- create_request_handler.go, local_decision_handler.go, result_handler.go and
-- install_session_handler.go.
use enclout.Prelude.{ℕ, String}
use enclout.Requests.Model.{
  ConnectionRequest, InstallSession, status_of, install_status_of, Error, err_not_found,
  err_expired, CreateInput, CreateInstallInput,
}
use enclout.Http.{
  HttpRequest, Json, Response, http_error, write_json, RequestStore, CreateBody, Server, failure,
  Handler, with_id, with_body, reply,
}
use enclout.Http.Path.{parse_id_from_path}

abbrev pub request_reply : ℕ → ConnectionRequest → Response
request_reply status req = write_json status (Json.request req)

abbrev pub session_reply : InstallSession → Response
session_reply session = write_json 200 (Json.session session)

abbrev pub created_session : InstallSession × String → Response
created_session (session, token) = write_json 201 (Json.session_with_token session token)

abbrev pub create_failed : Error → Response
create_failed e = http_error 400 "create_failed"

-- The switch of `GetInstallSession`, which has no case for an invalid transition.
abbrev pub get_failure : Error → Response
get_failure err_not_found = http_error 404 "not_found"
get_failure err_expired = http_error 410 "install_session_expired"
get_failure _ = http_error 500 "get_failed"

abbrev pub input_of : Server → CreateBody → CreateInput
input_of srv in_ = record {
  openclaw_user_id = in_.openclaw_user_id;
  device_id = in_.device_id;
  connector_id = in_.connector_id;
  source_channel = in_.source_channel;
  ttl = srv.request_ttl;
}

abbrev pub install_input_of : Server → CreateBody → CreateInstallInput
install_input_of srv in_ = record {
  openclaw_user_id = in_.openclaw_user_id;
  device_id = in_.device_id;
  connector_id = in_.connector_id;
  source_channel = in_.source_channel;
  ttl = srv.request_ttl;
}

module _ {S : Type 0} (srv : Server) (store : RequestStore S) (r : HttpRequest) where
  unfoldable pub create_request : Handler S
  create_request =
      with_body (srv.decoders.create_body r.body)
        λ in_ s. reply (request_reply 201) create_failed (store.create (input_of srv in_) s)

  unfoldable pub list_pending_requests_for_device : Handler S
  list_pending_requests_for_device =
      with_id (parse_id_from_path r.path "/v1/devices/" "/pending-requests") λ device_id s.
        let (items, s') = store.list_pending_for_device device_id s in
        (write_json 200 (Json.requests items), s')

  unfoldable pub local_decision : Handler S
  local_decision =
      with_id (parse_id_from_path r.path "/v1/connection-requests/" "/local-decision") λ id.
        with_body (srv.decoders.local_decision_body r.body) λ approved s.
          reply (request_reply 200) (failure "request_expired" 500 "decision_failed")
            (store.set_local_decision id approved s)

  unfoldable pub result : Handler S
  result = with_id (parse_id_from_path r.path "/v1/connection-requests/" "/result") λ id.
      with_body (srv.decoders.result_body r.body) λ body s.
        reply (request_reply 200) (failure "request_expired" 500 "result_failed")
          (store.set_result id (status_of body.status) body.reason_code s)

  unfoldable pub create_install_session : Handler S
  create_install_session = with_body (srv.decoders.create_install_body r.body) λ in_ s.
      reply created_session create_failed
        (store.create_install_session (install_input_of srv in_) s)

  unfoldable pub install_session_approval : Handler S
  install_session_approval =
      with_id (parse_id_from_path r.path "/v1/install-sessions/" "/approval") λ id.
        with_body (srv.decoders.install_approval_body r.body) λ approved s.
          reply session_reply (failure "install_session_expired" 500 "approval_failed")
            (store.set_install_approval id approved s)

  unfoldable pub redeem_install_token : Handler S
  redeem_install_token = with_body (srv.decoders.redeem_body r.body) λ token s.
      reply session_reply (failure "install_session_expired" 500 "redeem_failed")
        (store.redeem_install_token token s)

  unfoldable pub get_install_session : Handler S
  get_install_session =
      with_id (parse_id_from_path r.path "/v1/install-sessions/" "")
        λ id s. reply session_reply get_failure (store.get_install_session id s)

  unfoldable pub install_session_result : Handler S
  install_session_result =
      with_id (parse_id_from_path r.path "/v1/install-sessions/" "/result") λ id.
        with_body (srv.decoders.install_result_body r.body) λ body s.
          reply session_reply (failure "install_session_expired" 500 "result_failed")
            (store.set_install_result id (install_status_of body.status) body.reason_code s)

  unfoldable pub install_session_registration : Handler S
  install_session_registration =
      with_id (parse_id_from_path r.path "/v1/install-sessions/" "/registration") λ id.
        with_body (srv.decoders.registration_body r.body) λ body s.
          reply session_reply (failure "install_session_expired" 400 "registration_failed")
            (store.set_install_identity id body.connector_id body.device_id s)
