-- ===== src/AgentCommand/Tests.antt =====
-- The agent's settings and its loop at concrete inputs.
use mathlib.Core.List.{Memᴰ}
use enclout.Prelude.{
  String, ◌==◌, eq_iff, true, false, none, some, List, [], ◌∷◌, map, ◌≡◌, ◌≢◌, ◌↔◌, ◌<◌, ◌≤◌, refl,
  arith, pos, negsuc, is_positive, ◌*◌,
}
use enclout.GoMap.{GoMap, lookup, insert}
use enclout.Text.Trim.{trim_space}
use enclout.Text.Prefix.{trim_prefix, to_lower, cut_prefix}
use enclout.Text.Parts.{contains, split}
use enclout.Text.Hex.{decode_string, from_hex_char}
use enclout.Verify.Toy.{toy, one_key}
use enclout.Verify.Types.{plain, ok, err}
use enclout.Verify.Signature.{verify_signed_bundle_with_keyset}
use enclout.Verify.Verifier.{bytes_equal, compute_expected_report_data, verify}
use enclout.Verify.Policy.{check_measurements, new_static_policy, add_all, forbids}
use enclout.Verify.Dcap.{dcap_verify, flat, parse_report_data_hex}
use enclout.Approval.{confirm, cli_confirm, line}
use enclout.Trust.{new_keyset_source, trusted_keys, cached_if_fresh, copy_into, run}
use enclout.Installer.{get_env}
use enclout.Flow.{text, Run, installs, process, string_field, parse_bundle_payload}
use enclout.Flow.Attested.{runner_of}
use enclout.AgentCommand.{
  Readers, Settings, must_env, filled_parts, split_csv, has_blank, load_trusted_signing_keys,
  new_http_dcap_verifier, load_settings,
}
use enclout.AgentCommand.Durations.{
  digits_from, digits, atoi, wrap64, second, parse_duration_or_default,
  parse_duration_or_default-seconds,
}
use enclout.AgentCommand.Lists.{with_commas, split_csv-with_commas}
use enclout.AgentCommand.Polling.{
  PendingRequest, World, Event, stops, ticks, processed, request_of, agent_of, process_all,
  poll_loop,
}
use enclout.AgentCommand.Steps.{polled, requests_of, poll_loop-processes}
use enclout.AgentCommand.Started.{IsComplete, load_settings_iff, installed-IsBacked, IsBacked}

abbrev readers : Readers
readers = record { signing_keys_json = λ s. some one_key; parse_duration = λ s. none }

abbrev variables : GoMap String
variables =
    ("CONTROL_PLANE_URL", "http://localhost:8080")
    ∷ ("DEVICE_ID", "dev_1")
    ∷ ("LOCAL_USERNAME", "alice")
    ∷ ("DCAP_VERIFIER_URL", "http://localhost:9090 ")
    ∷ ("CONTROL_PLANE_SIGNING_KEYS_JSON", "{...}")
    ∷ ("ALLOW_MRTD", " m,, n ")
    ∷ ("SIGNING_KEYSET_CACHE_TTL", "60")
    ∷ []

abbrev settings : Settings
settings = record {
  control_plane_url = "http://localhost:8080";
  device_id = "dev_1";
  local_user = "alice";
  signing_keys = one_key;
  token = "";
  keys_dir = "/var/lib/connector-agent/keys";
  allow_mrtd = "m" ∷ "n" ∷ [];
  allow_rtmr3 = [];
  dcap = record { endpoint = "http://localhost:9090"; token = ""; timeout = pos 10000000000 };
  keyset_cache_ttl = pos 60000000000;
}

loaded : load_settings readers (get_env variables) ≡ ok settings
unfolding load_settings must_env load_trusted_signing_keys has_blank new_http_dcap_verifier
    parse_duration_or_default atoi digits digits_from wrap64 cut_prefix split_csv filled_parts split
    trim_space lookup
loaded = refl

wrapped_seconds : wrap64 (9223372037 * second) ≡ negsuc 9223372036709551615
unfolding wrap64
wrapped_seconds = refl

load_settings_iff_example :
    ((s : Settings) × (load_settings readers (get_env variables) ≡ ok s))
    ↔ ((keys : GoMap String) × IsComplete readers (get_env variables) keys)
load_settings_iff_example = load_settings_iff readers (get_env variables)

ne_blank : (s : String) → (s == "") ≡ false → s ≢ ""
ne_blank s h e = ground (arith, eq_iff s "")

parse_duration_or_default-seconds_example :
    (59 < 9223372036 → parse_duration_or_default (λ s. none) " 60" (pos 1) ≡ pos (60 * second))
    × (9223372036 ≤ 59
        → 59 < 18446744073
        → is_positive (parse_duration_or_default (λ s. none) " 60" (pos 1)) ≡ false)
unfolding atoi digits digits_from cut_prefix trim_space
parse_duration_or_default-seconds_example =
    parse_duration_or_default-seconds (λ s. none) " 60" (pos 1) 59 (ne_blank "60" refl) refl

split_csv-with_commas_example : split_csv (with_commas ("m" ∷ "n o" ∷ [])) ≡ "m" ∷ "n o" ∷ []
unfolding trim_space contains
split_csv-with_commas_example = split_csv-with_commas ("m" ∷ "n o" ∷ []) (
  record { trimmed = refl; filled = ne_blank "m" refl; no_comma = refl },
  (record { trimmed = refl; filled = ne_blank "n o" refl; no_comma = refl }, tt),
)

abbrev pending : PendingRequest
pending = record { id = "01"; connector_id = "conn_1"; device_id = "dev_1"; openclaw_user_id = "u" }

abbrev world : World
world = record {
  prompter = record { native = none; cli = some (λ r. cli_confirm (line "y\n")) };
  dcap_service = λ quote. ok (
    200,
    some (
        flat (record {
          quote_valid = true;
          qe_identity_valid = true;
          tcb_valid = true;
          report_data_hex = "0707070707070707070707070707070707070707070707070707070707070707";
          report_data = "";
        })),
  );
  now = 60;
  fetch = err (plain "connection refused");
  post_local_decision = λ id approved. none;
  get_attestation_bundle = λ id. ok (record {
    payload =
        ("ssh_public_key", text "ssh-ed25519 AAAA")
        ∷ ("quote_hex", text "04")
        ∷ ("mrtd", text "n")
        ∷ ("rtmr0", text "r0")
        ∷ ("rtmr1", text "r1")
        ∷ ("rtmr2", text "r2")
        ∷ [];
    payload_raw = 1 ∷ [];
    signature = "SIG";
    alg = "ed25519";
    kid = "v1";
  });
  post_result = λ id status reason. some (plain "status 500");
  install = λ user key. none;
}

abbrev events : List Event
events =
    ticks (err (plain "poll failed"))
    ∷ ticks (ok ((pending, world) ∷ []))
    ∷ stops
    ∷ ticks (ok ((pending, world) ∷ []))
    ∷ []

abbrev first_run : Run
first_run =
    process toy (runner_of (agent_of toy settings 50 [] world)) (request_of toy settings 50 pending)

installs_key : Memᴰ (installs "alice" "ssh-ed25519 AAAA") first_run.1
unfolding process runner_of confirm cli_confirm to_lower trim_space trusted_keys new_keyset_source
    cached_if_fresh copy_into insert run verify_signed_bundle_with_keyset lookup bytes_equal
    parse_bundle_payload string_field verify dcap_verify parse_report_data_hex trim_prefix
    decode_string from_hex_char check_measurements new_static_policy add_all forbids
    compute_expected_report_data
installs_key = Memᴰ.tail (Memᴰ.tail (Memᴰ.tail (Memᴰ.head refl)))

in_loop :
    Memᴰ
      (processed (request_of toy settings 50 pending) first_run)
      (poll_loop toy settings 50 events [])
unfolding poll_loop process_all
in_loop = Memᴰ.tail (Memᴰ.head refl)

poll_loop-processes_example :
    requests_of (poll_loop toy settings 50 events [])
    ≡ map (request_of toy settings 50) (polled events)
poll_loop-processes_example = poll_loop-processes toy settings 50 events []

installed-IsBacked_example :
    ("alice" ≡ get_env variables "LOCAL_USERNAME")
    × IsBacked readers
        (get_env variables)
        toy
        50
        events
        (request_of toy settings 50 pending)
        "ssh-ed25519 AAAA"
installed-IsBacked_example =
    installed-IsBacked readers (get_env variables) toy settings 50 events
      (request_of toy settings 50 pending) first_run "alice" "ssh-ed25519 AAAA" loaded in_loop
      installs_key
