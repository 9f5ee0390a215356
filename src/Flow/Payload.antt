-- ===== src/Flow/Payload.antt =====
-- What the agent reads of a bundle's payload.
use enclout.Prelude.{String, ◌≡◌, ◌⊎◌, arith, ◌==◌, if◌then◌else◌, refl, false, inl, inr, ap, ◌||◌}
use enclout.GoMap.{GoMap, insert}
use enclout.GoMap.Laws.{lookup-insert}
use enclout.Verify.Types.{Bundle, ok, err, plain}
use enclout.Flow.{Value, string_field, bundle_of, parse_bundle_payload}

-- The fields that say for which request a bundle is, and until when.
abbrev pub IsFreshness : String → Type 0
IsFreshness key =
    (key ≡ "request_id") ⊎ (key ≡ "nonce") ⊎ (key ≡ "issued_at") ⊎ (key ≡ "expires_at")

string_field-insert :
    (key name : String) (v : Value) (payload : GoMap Value)
    → (key == name) ≡ false
    → string_field (insert key v payload) name ≡ string_field payload name
unfolding string_field
string_field-insert key name v payload h = ground (arith, lookup-insert key name v payload)

-- None of the fields that `parseBundlePayload` reads.
abbrev IsUnread : String → Type 0
IsUnread key =
    ((key == "connector_id") ≡ false)
    × ((key == "ssh_public_key") ≡ false)
    × ((key == "quote_hex") ≡ false)
    × ((key == "mrtd") ≡ false)
    × ((key == "rtmr0") ≡ false)
    × ((key == "rtmr1") ≡ false)
    × ((key == "rtmr2") ≡ false)
    × ((key == "rtmr3") ≡ false)
    × ((key == "report_data_expected_sha256") ≡ false)
    × ((key == "policy_version") ≡ false)

bundle_of-insert :
    (key : String) (v : Value) (payload : GoMap Value)
    → IsUnread key
    → bundle_of (insert key v payload) ≡ bundle_of payload
bundle_of-insert key v payload (a, b, c, d, e, f, g, h, j, k) = rw (
  string_field-insert key "connector_id" v payload a,
  string_field-insert key "ssh_public_key" v payload b,
  string_field-insert key "quote_hex" v payload c,
  string_field-insert key "mrtd" v payload d,
  string_field-insert key "rtmr0" v payload e,
  string_field-insert key "rtmr1" v payload f,
  string_field-insert key "rtmr2" v payload g,
  string_field-insert key "rtmr3" v payload h,
  string_field-insert key "report_data_expected_sha256" v payload j,
  string_field-insert key "policy_version" v payload k,
)

freshness-IsUnread : (key : String) → IsFreshness key → IsUnread key
freshness-IsUnread key f = elim f [
  | inl e ↦ rw e (refl, refl, refl, refl, refl, refl, refl, refl, refl, refl)
  | inr (inl e) ↦ rw e (refl, refl, refl, refl, refl, refl, refl, refl, refl, refl)
  | inr (inr (inl e)) ↦ rw e (refl, refl, refl, refl, refl, refl, refl, refl, refl, refl)
  | inr (inr (inr e)) ↦ rw e (refl, refl, refl, refl, refl, refl, refl, refl, refl, refl)
]

-- Whatever a payload says about its request, its nonce, or the times when it was issued and expires,
-- it is parsed to the same bundle: neither a bundle for another request nor an expired one is told
-- apart from a good one.
pub parse_bundle_payload-freshness :
    (key : String) (v : Value) (payload : GoMap Value)
    → IsFreshness key
    → parse_bundle_payload (insert key v payload) ≡ parse_bundle_payload payload
unfolding parse_bundle_payload
parse_bundle_payload-freshness key v payload f =
    ap
      (λ (out : Bundle).
        if out.ssh_public_key == "" || out.quote_hex == ""
        then err (plain "bundle payload missing required fields")
        else ok out)
      (bundle_of-insert key v payload (freshness-IsUnread key f))
