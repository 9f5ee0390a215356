-- ===== src/Http/Routes.antt =====
-- The routes of services/control-plane/cmd/api/main.go.
--
-- `http.ServeMux` takes the longest of its patterns that fits: a pattern that ends in a slash fits
-- every path that it begins, another one only itself. It redirects a path that is not clean, and
-- `/v1/devices` to the pattern with the slash.
use Prim.Native.String.{◌++◌}
use enclout.Prelude.{String, Bool, true, false, not, List, [], ◌∷◌, ◌&&◌, ◌==◌, if◌then◌else◌}
use enclout.Text.Trim.{trim_space}
use enclout.Text.Prefix.{trim_prefix}
use enclout.Text.Parts.{has_prefix, has_suffix, contains, split}
use enclout.Text.Quote.{quote}
use enclout.Requests.Model.{Time}
use enclout.Http.{
  HttpRequest, Response, http_error, not_found, moved, healthy, landing, RequestStore, Server,
  Handler, answer,
}
use enclout.Http.Auth.{bears}
use enclout.Http.Handlers.{
  create_request, list_pending_requests_for_device, local_decision, result, create_install_session,
  install_session_approval, redeem_install_token, get_install_session, install_session_result,
  install_session_registration,
}
use enclout.Http.Bundles.{attestation_bundle, signing_keys}
use enclout.Http.Intents.{handle, scheme_of, host_of}

-- The elements between slashes: none is empty, but the last one may be, and none is a dot or two.
abbrev pub are_clean : List String → Bool
are_clean [] = true
are_clean (e ∷ []) = not (e == ".") && not (e == "..")
are_clean (e ∷ f ∷ es) = not (e == "") && not (e == ".") && not (e == "..") && are_clean (f ∷ es)

abbrev pub rest_is_clean : List String → Bool
rest_is_clean [] = false
rest_is_clean (e ∷ es) = e == "" && are_clean es

-- The path is the one that `path.Clean` makes of it, with its last slash kept.
unfoldable pub is_clean_path : String → Bool
unfolding split
is_clean_path path = has_prefix path "/" && rest_is_clean (split path b'/')

abbrev pub base_url : HttpRequest → String
base_url r = scheme_of r ++ ("://" ++ host_of r)

-- The command of `serveInstallLanding`.
abbrev pub landing_command : Server → HttpRequest → String → String
landing_command srv r token =
    "CONTROL_PLANE_URL="
    ++ (quote srv.is_print (base_url r)
        ++ (" DCAP_VERIFIER_URL=\"<dcap_verifier_url>\" enclout install -token "
            ++ (quote srv.is_print token ++ " -agent-bin \"/usr/local/bin/enclout-agent\"")))

unfoldable pub serve_install_landing : Server → HttpRequest → Response
unfolding quote
serve_install_landing srv r =
    if trim_space r.token == ""
    then http_error 400 "missing token"
    else landing (landing_command srv r (trim_space r.token))

module _ {S : Type 0} (srv : Server) (store : RequestStore S) (r : HttpRequest) (now : Time) where
  -- handlers.RequireBearerToken(cfg.APIToken, next)
  unfoldable pub require_auth : Handler S → Handler S
  unfolding bears
  require_auth next s =
      if not (bears srv.api_token r.authorization)
      then (http_error 401 "unauthorized", s)
      else next s

  unfoldable pub method_only : String → Handler S → Handler S
  method_only method next s =
      if not (r.method == method) then (http_error 405 "method_not_allowed", s) else next s

  -- The function at "/v1/connection-requests/".
  unfoldable pub connection_requests : Handler S
  unfolding require_auth
  connection_requests s =
      if has_suffix r.path "/local-decision" && r.method == "POST"
      then require_auth (local_decision srv store r) s
      else if has_suffix r.path "/result" && r.method == "POST"
      then require_auth (result srv store r) s
      else if has_suffix r.path "/attestation-bundle" && r.method == "GET"
      then require_auth (attestation_bundle srv store r now) s
      else (not_found, s)

  -- The function at "/v1/install-sessions/".
  unfoldable pub install_sessions : Handler S
  unfolding require_auth
  install_sessions s =
      if r.method == "GET" && not (contains (trim_prefix r.path "/v1/install-sessions/") b'/')
      then require_auth (get_install_session srv store r) s
      else if has_suffix r.path "/approval" && r.method == "POST"
      then require_auth (install_session_approval srv store r) s
      else if has_suffix r.path "/registration" && r.method == "POST"
      then require_auth (install_session_registration srv store r) s
      else if has_suffix r.path "/result" && r.method == "POST"
      then require_auth (install_session_result srv store r) s
      else (not_found, s)

  -- The patterns that are no prefixes.
  abbrev pub exact_routes : Handler S → Handler S
  exact_routes otherwise s =
      if r.path == "/v1/connection-requests"
      then require_auth (method_only "POST" (create_request srv store r)) s
      else if r.path == "/v1/install-sessions"
      then require_auth (method_only "POST" (create_install_session srv store r)) s
      else if r.path == "/v1/install-sessions/redeem"
      then require_auth (method_only "POST" (redeem_install_token srv store r)) s
      else if r.path == "/v1/openclaw/intents"
      then require_auth (method_only "POST" (handle srv store r)) s
      else if r.path == "/v1/signing-keys"
      then require_auth (method_only "GET" (signing_keys srv store r now)) s
      else if r.path == "/install"
      then method_only "GET" (answer (serve_install_landing srv r)) s
      else if r.path == "/healthz"
      then (healthy, s)
      else otherwise s

  abbrev pub prefix_routes : Handler S
  prefix_routes s =
      if has_prefix r.path "/v1/connection-requests/"
      then connection_requests s
      else if has_prefix r.path "/v1/install-sessions/"
      then install_sessions s
      else if has_prefix r.path "/v1/devices/"
      then require_auth (method_only "GET" (list_pending_requests_for_device srv store r)) s
      else if r.path == "/v1/devices"
      then (moved, s)
      else (not_found, s)

  -- One request to the control plane.
  unfoldable pub serve : Handler S
  unfolding connection_requests install_sessions require_auth method_only is_clean_path
  serve s = if not (is_clean_path r.path) then (moved, s) else exact_routes prefix_routes s
