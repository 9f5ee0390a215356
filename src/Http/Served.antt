-- ===== src/Http/Served.antt =====
-- When the control plane hands out a signed bundle.
use enclout.Prelude.{
  ◌==◌, ap, sym, subst, ◌∙◌, if◌then◌else◌, true, some, ◌≡◌, ◌↔◌, ◌≤◌, refl, arith, inl, inr,
  Option-cases,
}
use enclout.GoMap.{lookup}
use enclout.Requests.Model.{Status, status_eq, Time, ConnectionRequest}
use enclout.Verify.Types.{Answer-cases, value_or, ok}
use enclout.Signing.{BundlePayload, SignedBundle, Signatures, SignerSet, sign_by, sign_bundle}
use enclout.Http.{Json, Response, write_json, BundleTemplate, Server}
use enclout.Http.Bundles.{bundle_reply, payload_of}

-- The answer with a signed bundle.
abbrev pub bundle_response : SignedBundle → Response
bundle_response signed = write_json 200 (Json.signed_bundle signed)

-- What the payload of a bundle says of the request, of the template of its connector, and of the
-- present.
pub record Carries (srv : Server) (now : Time) (req : ConnectionRequest) (tpl : BundleTemplate)
    (payload : BundlePayload) : Type 0 where
  pub request_id : payload.request_id ≡ req.id
  pub nonce : payload.nonce ≡ req.nonce
  pub issued_at : payload.issued_at ≡ now
  pub expires_at : payload.expires_at ≡ req.expires_at
  pub connector_id : payload.connector_id ≡ tpl.connector_id
  pub ssh_public_key : payload.ssh_public_key ≡ tpl.ssh_public_key
  pub report_data : payload.report_data_expected_sha256 ≡ srv.sha256_hex tpl.ssh_public_key
  pub quote_hex : payload.quote_hex ≡ tpl.quote_hex
  pub event_log : payload.event_log ≡ tpl.event_log
  pub mrtd : payload.mrtd ≡ tpl.mrtd
  pub rtmr0 : payload.rtmr0 ≡ tpl.rtmr0
  pub rtmr1 : payload.rtmr1 ≡ tpl.rtmr1
  pub rtmr2 : payload.rtmr2 ≡ tpl.rtmr2
  pub rtmr3 : payload.rtmr3 ≡ tpl.rtmr3
  pub policy_version :
      payload.policy_version ≡ (if tpl.policy_version == "" then "v1" else tpl.policy_version)

payload_of-Carries :
    (srv : Server) (now : Time) (req : ConnectionRequest) (tpl : BundleTemplate)
    → Carries srv now req tpl (payload_of srv now req tpl)
payload_of-Carries srv now req tpl = record {
  request_id = refl;
  nonce = refl;
  issued_at = refl;
  expires_at = refl;
  connector_id = refl;
  ssh_public_key = refl;
  report_data = refl;
  quote_hex = refl;
  event_log = refl;
  mrtd = refl;
  rtmr0 = refl;
  rtmr1 = refl;
  rtmr2 = refl;
  rtmr3 = refl;
  policy_version = refl;
}

payload_of-Carries' :
    (srv : Server) (now : Time) (req : ConnectionRequest) (tpl : BundleTemplate)
    (payload : BundlePayload)
    → Carries srv now req tpl payload
    → payload ≡ payload_of srv now req tpl
payload_of-Carries' srv now req tpl payload c = λ i. record {
  request_id = c.request_id i;
  connector_id = c.connector_id i;
  ssh_public_key = c.ssh_public_key i;
  quote_hex = c.quote_hex i;
  event_log = c.event_log i;
  mrtd = c.mrtd i;
  rtmr0 = c.rtmr0 i;
  rtmr1 = c.rtmr1 i;
  rtmr2 = c.rtmr2 i;
  rtmr3 = c.rtmr3 i;
  report_data_expected_sha256 = c.report_data i;
  policy_version = c.policy_version i;
  issued_at = c.issued_at i;
  expires_at = c.expires_at i;
  nonce = c.nonce i;
}

-- What must hold of the request that the store returns.
pub record IsServed (srv : Server) (now : Time) (req : ConnectionRequest) (signed : SignedBundle)
    : Type 0 where
  pub approved : req.status ≡ Status.approved
  pub in_time : now ≤ req.expires_at
  pub template : BundleTemplate
  pub found : lookup req.connector_id srv.bundles ≡ some template
  pub carries : Carries srv now req template signed.payload
  pub made : sign_bundle srv.signatures srv.signers signed.payload ≡ ok signed

sign_bundle-payload :
    (sig : Signatures) (s : SignerSet) (payload : BundlePayload) (signed : SignedBundle)
    → sign_bundle sig s payload ≡ ok signed
    → signed.payload ≡ payload
unfolding sign_bundle sign_by
sign_bundle-payload sig s payload signed h = elim (Option-cases (lookup s.active_kid s.signers)) [
  | inl missing ↦ absurd (ground arith)
  | inr (signer, found) ↦ elim (Option-cases (sig.marshal payload)) [
    | inl unencoded ↦ absurd (ground arith)
    | inr (raw, encoded) ↦
        let made = rw (sign_bundle, found, sign_by, encoded) at h in
        ap (λ a. (value_or signed a).payload) (sym made)
  ]
]

approved_status : (t : Status) → status_eq t Status.approved ≡ true → t ≡ Status.approved
approved_status Status.approved h = refl
approved_status t h = ground arith

promised :
    (srv : Server) (now : Time) (req : ConnectionRequest) (tpl : BundleTemplate)
    (signed : SignedBundle)
    → lookup req.connector_id srv.bundles ≡ some tpl
    → IsServed srv now req signed
    → sign_bundle srv.signatures srv.signers (payload_of srv now req tpl) ≡ ok signed
promised srv now req tpl signed found s =
    let there = s.found in
    let same : s.template ≡ tpl = ground arith in
    let payload =
      payload_of-Carries' srv now req tpl signed.payload
        (subst (λ t. Carries srv now req t signed.payload) same s.carries) in
    ap (λ p. sign_bundle srv.signatures srv.signers p) (sym payload) ∙ s.made

-- A signed bundle is handed out exactly for a request that is approved and whose deadline has not
-- passed, with a template for its connector: it is the signature of its payload, which carries the
-- request's identifier, nonce and deadline, the present, the template's connector, key, quote, event
-- log and measurements, the SHA-256 of the key, and the template's policy version or v1.
pub bundle_reply_iff :
    (srv : Server) (now : Time) (req : ConnectionRequest) (signed : SignedBundle)
    → (bundle_reply srv now req ≡ bundle_response signed) ↔ IsServed srv now req signed
unfolding bundle_reply
bundle_reply_iff srv now req signed = elim (Option-cases (lookup req.connector_id srv.bundles)) [
  | inl missing ↦ (λ h. absurd (ground arith), λ s. let found = s.found in absurd (ground arith))
  | inr (tpl, found) ↦
      elim (Answer-cases (sign_bundle srv.signatures srv.signers (payload_of srv now req tpl))) [
        | inr (e, failed) ↦ (
          λ h. absurd (ground arith),
          λ s. absurd (ground (arith, failed, promised srv now req tpl signed found s)),
        )
        | inl (b, made) ↦ (
          λ h.
              let same : b ≡ signed = ground arith in
              let made' = made ∙ ap ok same in
              let payload =
                sign_bundle-payload srv.signatures srv.signers (payload_of srv now req tpl) signed
                  made' in
              record {
                approved = approved_status req.status (ground arith);
                in_time = ground arith;
                template = tpl;
                found = found;
                carries =
                    subst (Carries srv now req tpl) (sym payload)
                      (payload_of-Carries srv now req tpl);
                made = ap (λ p. sign_bundle srv.signatures srv.signers p) payload ∙ made';
              },
          λ s.
              let approved = s.approved in
              let in_time = s.in_time in
              let p = promised srv now req tpl signed found s in ground arith,
        )
      ]
]
