-- ===== src/Flow/Attested.antt =====
-- The agent with its real parts: the strict verifier, and the keyset source.
use mathlib.Core.List.{Memᴰ}
use enclout.Prelude.{String, Bool, true, Option, none, some, List, ◌∷◌, ◌++◌, ◌≡◌, ℤ}
use enclout.GoMap.{GoMap}
use enclout.Requests.Model.{Time}
use enclout.Verify.Types.{GoError, Answer, ok, Bundle, DcapResult, Crypto}
use enclout.Verify.Policy.{new_static_policy, Allows, HasRuntime, check_measurements_iff}
use enclout.Verify.Verifier.{replicate, verify, compute_expected_report_data, verify_iff}
use enclout.Verify.Dcap.{DcapVerifyResponse, dcap_verify}
use enclout.Trust.{SigningKeyset, Fetch, new_keyset_source, run, trusted_keys}
use enclout.Trust.Recent.{Recent, trusted_keys-Recent}
use enclout.Flow.{
  SignedBundle, Request, Runner, installs, process, summary_of, parse_bundle_payload,
}
use enclout.Flow.Installs.{IsCleared, installs-IsCleared}
use enclout.Approval.{Prompter, confirm}
use enclout.Approval.Laws.{Approves, Fails, confirm_iff}
use enclout.Verify.Signature.{IsSigned}
use enclout.Prelude.{◌⊎◌, ℕ, ap, sym, ◌∙◌}

-- The agent of services/local-agent/cmd/agent/main.go when it turns to one request: its settings,
-- the calls of the keyset source so far, and what the world answers.
pub record Agent : Type 0 where
  pub crypto : Crypto
  pub prompter : Prompter
  -- ALLOW_MRTD and ALLOW_RTMR3
  pub mrtd : List String
  pub rtmr3 : List String
  pub dcap_service : String → Answer (ℕ × Option DcapVerifyResponse)
  pub bootstrap : GoMap String
  pub ttl : ℤ
  pub started : Time
  pub past : List Fetch
  pub now : Time
  pub fetch : Option (Answer SigningKeyset)
  pub post_local_decision : String → Bool → Option GoError
  pub get_attestation_bundle : String → Answer SignedBundle
  pub post_result : String → String → String → Option GoError
  pub install : String → String → Option GoError

abbrev pub this_call : Agent → Fetch
this_call a = record { at = a.now; answer = a.fetch }

unfoldable pub runner_of : Agent → Runner
runner_of a = record {
  post_local_decision = a.post_local_decision;
  get_attestation_bundle = a.get_attestation_bundle;
  post_result = a.post_result;
  confirm = confirm a.prompter;
  verify = verify a.crypto (dcap_verify a.dcap_service) (new_static_policy a.mrtd a.rtmr3);
  install = a.install;
  signing_keys =
      some
        (trusted_keys a.now a.fetch (run a.past (new_keyset_source a.bootstrap a.ttl a.started))).0;
}

-- All that stands behind the installation of `key`.
pub record IsAuthorised (a : Agent) (req : Request) (key : String) : Type 0 where
  pub approved :
      Approves a.prompter.native (summary_of req)
      ⊎ (Fails a.prompter.native (summary_of req) × Approves a.prompter.cli (summary_of req))
  pub decided : a.post_local_decision req.id true ≡ none
  pub signed : SignedBundle
  pub fetched : a.get_attestation_bundle req.id ≡ ok signed
  pub keys : GoMap String
  pub recent : Recent a.bootstrap a.ttl a.started (this_call a ∷ a.past) a.now keys
  pub signature : IsSigned a.crypto signed.payload_raw signed.signature signed.alg signed.kid keys
  pub bundle : Bundle
  pub parsed : parse_bundle_payload signed.payload ≡ ok bundle
  pub carried : key ≡ bundle.ssh_public_key
  pub measured : Allows a.mrtd bundle.mrtd × Allows a.rtmr3 bundle.rtmr3 × HasRuntime bundle
  pub result : DcapResult
  pub answered : dcap_verify a.dcap_service bundle.quote_hex ≡ ok result
  pub vouched :
      (result.quote_valid ≡ true) × (result.qe_identity_valid ≡ true) × (result.tcb_valid ≡ true)
  pub bound : result.report_data ≡ a.crypto.sha256 key ++ replicate 32 0

IsAuthorised-of_cleared :
    (a : Agent) (req : Request) (key : String) (bundle : Bundle)
    → IsCleared a.crypto (runner_of a) req bundle
    → key ≡ bundle.ssh_public_key
    → IsAuthorised a req key
unfolding runner_of compute_expected_report_data
IsAuthorised-of_cleared a req key bundle c carried =
    let attested =
      ((verify_iff a.crypto (dcap_verify a.dcap_service) (new_static_policy a.mrtd a.rtmr3) bundle
          c.decision).0
        c.verified).1 in
    record {
      approved = (confirm_iff a.prompter (summary_of req)).0 c.confirmed;
      decided = c.posted;
      signed = c.signed;
      fetched = c.got;
      keys = c.keys;
      recent =
          trusted_keys-Recent a.bootstrap a.ttl a.started a.past a.now a.fetch c.keys
            (cc (c.trusted));
      signature = c.signature;
      bundle = bundle;
      parsed = c.parsed;
      carried = carried;
      measured = (check_measurements_iff a.mrtd a.rtmr3 bundle).0 attested.measured;
      result = attested.result;
      answered = attested.answered;
      vouched = (attested.quote, attested.qe_identity, attested.tcb);
      bound = attested.bound ∙ ap (λ k. a.crypto.sha256 k ++ replicate 32 0) (sym carried);
    }

-- Whatever the control plane, the DCAP service and the user's prompts answer: if the agent calls the
-- installation of a key, it is for the local user of the request; a prompt has approved the request
-- and the control plane has taken the decision; the key stands in a bundle that is signed by a key
-- that a recent, acceptable keyset or a recent start trusts; its measurements are allowed; and the
-- DCAP service vouches for a quote whose report data is the SHA-256 of this very key and 32 zeros.
pub installs-IsAuthorised :
    (a : Agent) (req : Request) (user key : String)
    → Memᴰ (installs user key) (process a.crypto (runner_of a) req).1
    → (user ≡ req.local_user) × IsAuthorised a req key
installs-IsAuthorised a req user key h =
    let (local, (bundle, cleared, carried)) =
      installs-IsCleared a.crypto (runner_of a) req user key h in
    (local, IsAuthorised-of_cleared a req key bundle cleared carried)
