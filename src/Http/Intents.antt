-- ===== src/Http/Intents.antt =====
-- services/control-plane/internal/openclaw/intent_handler.go
use Prim.Native.String.{◌++◌}
use enclout.Prelude.{ℤ, pos, String, not, ◌==◌, if◌then◌else◌}
use enclout.Text.Quote.{quote, query_escape}
use enclout.Requests.Model.{
  InstallSession, install_status_of, Error, CreateInput, CreateInstallInput,
}
use enclout.Http.{
  HttpRequest, Json, Response, http_error, write_json, RequestStore, IntentBody, Server, Handler,
  with_body, reply,
}
use enclout.Http.Handlers.{request_reply, session_reply, create_failed}

-- The handler's own requestTTL: 5 * time.Minute
abbrev pub intent_ttl : ℤ
intent_ttl = pos 300000000000

abbrev pub install_command_template : Server → String → String
install_command_template srv token =
    "CONTROL_PLANE_URL=\"<control_plane_url>\" DCAP_VERIFIER_URL=\"<dcap_verifier_url>\" enclout install -token "
    ++ (quote srv.is_print token ++ " -agent-bin \"/usr/local/bin/enclout-agent\"")

abbrev pub scheme_of : HttpRequest → String
scheme_of r =
    if not (r.forwarded_proto == "") then r.forwarded_proto else if r.tls then "https" else "http"

abbrev pub host_of : HttpRequest → String
host_of r = if not (r.forwarded_host == "") then r.forwarded_host else r.host

unfoldable pub install_url_for_request : HttpRequest → String → String
unfolding query_escape
install_url_for_request r token =
    if host_of r == ""
    then "/install?token=" ++ query_escape token
    else scheme_of r ++ ("://" ++ (host_of r ++ ("/install?token=" ++ query_escape token)))

abbrev pub install_reply : Server → HttpRequest → InstallSession × String → Response
install_reply srv r (session, token) = write_json 201 (
    Json.install_request (record {
      install_session_id = session.id;
      install_token = token;
      install_url = install_url_for_request r token;
      status = session.status;
      expires_at = session.expires_at;
      install_command = install_command_template srv token;
    }))

abbrev pub update_failed : Error → Response
update_failed e = http_error 400 "update_failed"

abbrev pub intent_input : IntentBody → CreateInput
intent_input p = record {
  openclaw_user_id = p.openclaw_user_id;
  device_id = p.device_id;
  connector_id = p.connector_id;
  source_channel = p.source_channel;
  ttl = intent_ttl;
}

abbrev pub install_intent_input : IntentBody → CreateInstallInput
install_intent_input p = record {
  openclaw_user_id = p.openclaw_user_id;
  device_id = p.device_id;
  connector_id = p.connector_id;
  source_channel = p.source_channel;
  ttl = intent_ttl;
}

abbrev pub connect_intent_input : IntentBody → CreateInstallInput
connect_intent_input p = record {
  openclaw_user_id = p.openclaw_user_id;
  device_id = "";
  connector_id = "";
  source_channel = p.source_channel;
  ttl = intent_ttl;
}

module _ {S : Type 0} (srv : Server) (store : RequestStore S) (r : HttpRequest) where
  abbrev pub on_intent : IntentBody → Handler S
  on_intent p s =
      if p.intent == "request_connector_access"
      then reply (request_reply 201) create_failed (store.create (intent_input p) s)
      else if p.intent == "request_connector_install"
      then reply (install_reply srv r) create_failed
          (store.create_install_session (install_intent_input p) s)
      else if p.intent == "request_connector_connect"
      then reply (install_reply srv r) create_failed
          (store.create_install_session (connect_intent_input p) s)
      else if p.intent == "approve_install_session"
      then reply session_reply update_failed
          (store.set_install_approval p.install_session_id p.approved s)
      else if p.intent == "install_session_result"
      then reply session_reply update_failed (
          store.set_install_result p.install_session_id (install_status_of p.status) p.reason_code
            s)
      else (http_error 400 "unsupported_intent", s)

  -- IntentHandler.Handle
  unfoldable pub handle : Handler S
  handle = with_body (srv.decoders.intent_body r.body) on_intent
