-- ===== src/Http/Tests.antt =====
-- Runs of the control plane's routes, and their theorems at concrete requests.
use enclout.Prelude.{
  ℕ, String, true, false, none, some, List, [], ◌∷◌, ◌≡◌, ◌≢◌, ◌↔◌, refl, arith, pos, eq_iff, ◌==◌,
  if◌then◌else◌,
}
use enclout.GoMap.{lookup, insert}
use enclout.Text.Trim.{trim_space, is_space}
use enclout.Text.Prefix.{cut_prefix, trim_prefix, to_lower}
use enclout.Text.Parts.{
  has_prefix, has_suffix, cut_suffix, trim_suffix, contains, split, split_once,
}
use enclout.Requests.Model.{Status, ConnectionRequest, random_id, status_of}
use enclout.Requests.Store.{new_store, create, set_local_decision, set_result, expire_if_needed}
use enclout.Signing.{SignedBundle, SignerSet, Signatures, sign_bundle}
use enclout.Http.{HttpRequest, Decoders, Server, BundleTemplate}
use enclout.Http.Path.{parse_id_from_path}
use enclout.Text.Quote.{quote, quoted_text, quoted_char, query_escape, utf8}
use enclout.Http.Auth.{CarriesToken, bears, parse_bearer_token, bears_iff}
use enclout.Http.Handlers.{create_request, local_decision, result}
use enclout.Http.Bundles.{bundle_reply, payload_of}
use enclout.Http.Reached.{IsPlainId}
use enclout.Http.Routes.{connection_requests, is_clean_path, require_auth, method_only, serve}
use enclout.Http.Memory.{Event, serve_event, serve_all}
use enclout.Http.Issued.{Advances}
use enclout.Http.Advances.{serve_event-Advances}
use enclout.Http.Confirmed.{ConfirmedBy, connected-ConfirmedBy}
use enclout.Http.Wire.{Encoders}
use enclout.Http.Served.{IsServed, bundle_response, bundle_reply_iff}

abbrev toy_signatures : Signatures
toy_signatures = record {
  encode_base64 = λ b. "SIG";
  decode_base64 = λ s. none;
  public_of_seed = λ seed. seed;
  sign = λ seed raw. seed;
  marshal = λ payload. some (1 ∷ []);
}

abbrev one_signer : SignerSet
one_signer = record {
  active_kid = "v1";
  signers = ("v1", record { private_key = []; public_key = []; kid = "v1" }) ∷ [];
}

abbrev decoders : Decoders
decoders = record {
  create_body = λ s.
      if s == "create"
      then some (record {
        openclaw_user_id = "usr_1";
        device_id = "dev_1";
        connector_id = "conn_1";
        source_channel = "telegram";
      })
      else none;
  create_install_body = λ s. none;
  local_decision_body =
      λ s. if s == "yes" then some true else if s == "no" then some false else none;
  install_approval_body = λ s. none;
  result_body = λ s. some (record { status = s; reason_code = "" });
  install_result_body = λ s. none;
  registration_body = λ s. none;
  redeem_body = λ s. none;
  intent_body = λ s. none;
}

abbrev encoders : Encoders
encoders = record {
  local_decision_body = λ approved. if approved then "yes" else "no";
  result_body = λ status reason. status;
}

abbrev template : BundleTemplate
template = record {
  connector_id = "conn_1";
  ssh_public_key = "ssh-ed25519 AAAA";
  quote_hex = "04";
  event_log = "";
  mrtd = "m";
  rtmr0 = "r0";
  rtmr1 = "r1";
  rtmr2 = "r2";
  rtmr3 = "r3";
  policy_version = "";
}

abbrev server : Server
server = record {
  api_token = "secret";
  request_ttl = pos 300;
  signatures = toy_signatures;
  signers = one_signer;
  bundles = ("conn_1", template) ∷ [];
  decoders = decoders;
  sha256_hex = λ s. s;
  is_print = λ c. true;
}

abbrev creating : HttpRequest
creating = record {
  method = "POST";
  path = "/v1/connection-requests";
  authorization = "bearer  secret";
  body = "create";
  token = "";
  host = "";
  forwarded_host = "";
  forwarded_proto = "";
  tls = false;
}

abbrev confirming : HttpRequest
confirming = record creating { path = "/v1/connection-requests/01/local-decision"; body = "yes" }

abbrev reporting : HttpRequest
reporting = record creating { path = "/v1/connection-requests/01/result"; body = "connected" }

abbrev event : ℕ → HttpRequest → Event
event now r = record {
  request = r;
  now = now;
  clock = λ id. now;
  first_draw = some (1 ∷ []);
  second_draw = some (2 ∷ []);
  handler_now = now;
}

abbrev three_events : List Event
three_events = event 100 creating ∷ event 150 confirming ∷ event 200 reporting ∷ []

abbrev connected_request : ConnectionRequest
connected_request = record {
  id = "01";
  openclaw_user_id = "usr_1";
  device_id = "dev_1";
  connector_id = "conn_1";
  source_channel = "telegram";
  status = Status.connected;
  created_at = 100;
  expires_at = 400;
  nonce = "02";
  reason_code = "";
}

connecting_run : (serve_all server three_events new_store).items ≡ ("01", connected_request) ∷ []
unfolding serve_all serve_event serve is_clean_path connection_requests require_auth method_only
    bears parse_bearer_token trim_space is_space split split_once to_lower has_prefix has_suffix
    cut_prefix cut_suffix trim_prefix trim_suffix contains parse_id_from_path create_request
    local_decision result status_of create set_local_decision set_result expire_if_needed lookup
    insert random_id
connecting_run = refl

-- A path that has the prefix and the suffix in one slash is read as an identifier.
overlapping_run :
    parse_id_from_path "/v1/connection-requests/result" "/v1/connection-requests/" "/result"
    ≡ some "result"
unfolding parse_id_from_path has_prefix has_suffix cut_prefix cut_suffix trim_prefix trim_suffix
    contains
overlapping_run = refl

-- Control characters, quotes and characters outside ASCII in a token of the landing page.
quoted_run : quote (λ c. false) "a\"\n\\é" ≡ "\"a\\\"\\n\\\\\\u00e9\""
unfolding quote quoted_text quoted_char
quoted_run = refl

escaped_run : query_escape "a b/é" ≡ "a+b%2F%C3%A9"
unfolding query_escape utf8
escaped_run = refl

connected-ConfirmedBy_example : ConfirmedBy server "01" three_events
unfolding lookup
connected-ConfirmedBy_example =
    connected-ConfirmedBy server three_events "01" connected_request
      (rw connecting_run (unfold lookup in refl)) refl

serve_event-Advances_example :
    Advances server
      (event 100 creating)
      new_store
      (serve_event server (event 100 creating) new_store)
serve_event-Advances_example = serve_event-Advances server (event 100 creating) new_store

bears_iff_example :
    (bears "secret" "Bearer secret" ≡ true)
    ↔ ((◌≢◌ {A = String} "secret" "") × CarriesToken "Bearer secret" "secret")
bears_iff_example = bears_iff "secret" "Bearer secret"

ne_01 : ◌≢◌ {A = String} "01" ""
ne_01 h = ground (arith, eq_iff "01" "")

no_slash_01 : contains "01" b'/' ≡ false
unfolding contains
no_slash_01 = refl

abbrev plain_01 : IsPlainId "01"
plain_01 = record {
  filled = ne_01;
  no_slash = no_slash_01;
  no_dot = λ e. ground (arith, eq_iff "01" ".");
  no_dots = λ e. ground (arith, eq_iff "01" "..");
}

abbrev approved_request : ConnectionRequest
approved_request = record connected_request { status = Status.approved }

abbrev signed_for_it : SignedBundle
signed_for_it = record {
  payload = payload_of server 200 approved_request template;
  signature = "SIG";
  alg = "ed25519";
  kid = "v1";
}

served_run : bundle_reply server 200 approved_request ≡ bundle_response signed_for_it
unfolding bundle_reply lookup sign_bundle
served_run = refl

bundle_reply_iff_example :
    (bundle_reply server 200 approved_request ≡ bundle_response signed_for_it)
    ↔ IsServed server 200 approved_request signed_for_it
bundle_reply_iff_example = bundle_reply_iff server 200 approved_request signed_for_it
