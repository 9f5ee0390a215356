-- ===== src/Flow/Tests.antt =====
-- Runs of the agent, and the theorems about it at concrete requests.
use mathlib.Core.List.{Memᴰ}
use enclout.Prelude.{true, false, none, some, List, [], ◌∷◌, ◌≡◌, ◌↔◌, inl, refl, pos}
use enclout.GoMap.{GoMap, lookup, insert}
use enclout.Text.Trim.{trim_space}
use enclout.Text.Prefix.{trim_prefix, to_lower}
use enclout.Text.Hex.{decode_string, from_hex_char}
use enclout.Verify.Toy.{toy, one_key}
use enclout.Verify.Types.{plain, ok, err}
use enclout.Verify.Signature.{verify_signed_bundle_with_keyset}
use enclout.Verify.Verifier.{bytes_equal, compute_expected_report_data, verify}
use enclout.Verify.Policy.{check_measurements, new_static_policy, add_all, forbids}
use enclout.Verify.Dcap.{dcap_verify, flat, parse_report_data_hex}
use enclout.Approval.{confirm, cli_confirm, line}
use enclout.Trust.{new_keyset_source, trusted_keys, cached_if_fresh, copy_into, run}
use enclout.Flow.{
  Value, text, null, SignedBundle, Request, Action, asks, posts_decision, fetches_bundle, installs,
  posts_result, process, summary_of, string_field, parse_bundle_payload, err_user_denied,
}
use enclout.Flow.Payload.{parse_bundle_payload-freshness}
use enclout.Flow.Reports.{IsConnected, connected_report, process_iff, count_results, results_once}
use enclout.Flow.Attested.{Agent, runner_of, IsAuthorised, installs-IsAuthorised}

abbrev req : Request
req = record { id = "01"; connector_id = "conn_1"; local_user = "alice" }

abbrev good_payload : GoMap Value
good_payload =
    ("request_id", text "01")
    ∷ ("ssh_public_key", text "ssh-ed25519 AAAA")
    ∷ ("quote_hex", text "04")
    ∷ ("mrtd", text "m")
    ∷ ("rtmr0", text "r0")
    ∷ ("rtmr1", text "r1")
    ∷ ("rtmr2", text "r2")
    ∷ ("rtmr3", null)
    ∷ []

abbrev good_bundle : SignedBundle
good_bundle = record {
  payload = good_payload;
  payload_raw = 1 ∷ [];
  signature = "SIG";
  alg = "ed25519";
  kid = "v1";
}

abbrev agent : Agent
agent = record {
  crypto = toy;
  prompter = record {
    native = some (λ r. err (plain "no display"));
    cli = some (λ r. cli_confirm (line "y\n"));
  };
  mrtd = "m" ∷ [];
  rtmr3 = [];
  dcap_service = λ quote. ok (
    200,
    some (
        flat (record {
          quote_valid = true;
          qe_identity_valid = true;
          tcb_valid = true;
          report_data_hex = "0x0707070707070707070707070707070707070707070707070707070707070707";
          report_data = "";
        })),
  );
  bootstrap = one_key;
  ttl = pos 100;
  started = 50;
  past = [];
  now = 60;
  fetch = none;
  post_local_decision = λ id approved. none;
  get_attestation_bundle = λ id. ok good_bundle;
  post_result = λ id status reason. none;
  install = λ user key. none;
}

abbrev refusing : Agent
refusing = record agent {
  prompter = record { native = none; cli = some (λ r. cli_confirm (line "n\n")) };
}

abbrev good_calls : List Action
good_calls =
    asks (summary_of req)
    ∷ posts_decision "01" true
    ∷ fetches_bundle "01"
    ∷ installs "alice" "ssh-ed25519 AAAA"
    ∷ posts_result "01" "connected" ""
    ∷ []

good_run : process toy (runner_of agent) req ≡ (none, good_calls)
unfolding process runner_of confirm cli_confirm to_lower trim_space trusted_keys new_keyset_source
    cached_if_fresh copy_into insert run verify_signed_bundle_with_keyset lookup bytes_equal
    parse_bundle_payload string_field verify dcap_verify parse_report_data_hex trim_prefix
    decode_string from_hex_char check_measurements new_static_policy add_all forbids
    compute_expected_report_data
good_run = refl

refused_run :
    process toy (runner_of refusing) req
    ≡ (some err_user_denied, asks (summary_of req) ∷ posts_decision "01" false ∷ [])
unfolding process runner_of confirm cli_confirm to_lower trim_space
refused_run = refl

in_good_calls : (a : Action) → Memᴰ a good_calls → Memᴰ a (process toy (runner_of agent) req).1
in_good_calls a h = rw good_run h

installs-IsAuthorised_example :
    ("alice" ≡ req.local_user) × IsAuthorised agent req "ssh-ed25519 AAAA"
installs-IsAuthorised_example =
    installs-IsAuthorised agent req "alice" "ssh-ed25519 AAAA"
      (in_good_calls _ (Memᴰ.tail (Memᴰ.tail (Memᴰ.tail (Memᴰ.head refl)))))

connected_report_example : IsConnected toy (runner_of agent) req × ("01" ≡ req.id)
connected_report_example =
    connected_report toy (runner_of agent) req "01" ""
      (in_good_calls _ (Memᴰ.tail (Memᴰ.tail (Memᴰ.tail (Memᴰ.tail (Memᴰ.head refl))))))

process_iff_example : ((process toy (runner_of agent) req).0 ≡ none) ↔ (
    IsConnected toy (runner_of agent) req
    × ((runner_of agent).post_result "01" "connected" "" ≡ none))
process_iff_example = process_iff toy (runner_of agent) req

results_once_example : count_results (process toy (runner_of agent) req).1 ≡ 1
unfolding runner_of confirm cli_confirm to_lower trim_space
results_once_example = results_once toy (runner_of agent) req good_bundle refl refl refl

parse_bundle_payload-freshness_example :
    parse_bundle_payload (insert "request_id" (text "another request") good_payload)
    ≡ parse_bundle_payload good_payload
parse_bundle_payload-freshness_example =
    parse_bundle_payload-freshness "request_id" (text "another request") good_payload (inl refl)
