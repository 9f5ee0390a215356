-- ===== src/Flow/Installs.antt =====
-- What must have happened before a key is installed.
use mathlib.Core.List.{Memᴰ}
use enclout.Prelude.{
  String, Bool, true, false, Option, none, some, [], ◌≡◌, refl, arith, inl, inr, Memᴰ-cases,
  Bool-cases,
}
use enclout.GoMap.{GoMap}
use enclout.Verify.Types.{GoError, plain, Answer, ok, err, Bundle, Decision, Crypto}
use enclout.Verify.Signature.{verify_signed_bundle_with_keyset, IsSigned, keyset_iff}
use enclout.Flow.{
  SignedBundle, Request, Runner, asks, posts_decision, fetches_bundle, installs, Run,
  err_user_denied, summary_of, parse_bundle_payload, process, with_answer, with_posted,
  with_signed_bundle, with_keys, with_signature, with_bundle, with_decision, finish, give_up,
  ◌then_run◌,
}

module _ (crypto : Crypto) (r : Runner) (req : Request) where
  -- Every check has passed, and this is the bundle.
  pub record IsCleared (bundle : Bundle) : Type 0 where
    pub signed : SignedBundle
    pub keys : GoMap String
    pub decision : Decision
    pub confirmed : r.confirm (summary_of req) ≡ ok true
    pub posted : r.post_local_decision req.id true ≡ none
    pub got : r.get_attestation_bundle req.id ≡ ok signed
    pub trusted : r.signing_keys ≡ some (ok keys)
    pub signature : IsSigned crypto signed.payload_raw signed.signature signed.alg signed.kid keys
    pub parsed : parse_bundle_payload signed.payload ≡ ok bundle
    pub verified : r.verify bundle ≡ ok decision
    pub accepted : decision.trusted ≡ true

  -- The run where every check has passed.
  pub process_of_cleared :
      (bundle : Bundle)
      → IsCleared bundle
      → process crypto r req ≡ (
          asks (summary_of req)
          then_run posts_decision req.id true
          then_run fetches_bundle req.id
          then_run installs req.local_user bundle.ssh_public_key
          then_run finish crypto r req (r.install req.local_user bundle.ssh_public_key))
  unfolding process
  process_of_cleared bundle c =
      let valid =
        (keyset_iff crypto c.signed.payload_raw c.signed.signature c.signed.alg c.signed.kid
            c.keys).1
          c.signature in
      ground arith

  -- To show `P` of a run: it holds where the agent stops at once, where it gives up, and where every
  -- check has passed, and calls before the verification do not change it.
  module _ (P : Run → Type 0)
      (gives_up : (reason : String) (e : GoError) → P (give_up crypto r req reason e))
      (clears : (bundle : Bundle)
        → IsCleared bundle
        → P (
            installs req.local_user bundle.ssh_public_key
            then_run finish crypto r req (r.install req.local_user bundle.ssh_public_key))) where
    module _ (signed : SignedBundle) (confirmed : r.confirm (summary_of req) ≡ ok true)
        (posted : r.post_local_decision req.id true ≡ none)
        (got : r.get_attestation_bundle req.id ≡ ok signed) where
      decided_induction :
          (keys : GoMap String) (bundle : Bundle) (d : Answer Decision)
          → r.signing_keys ≡ some (ok keys)
          → IsSigned crypto signed.payload_raw signed.signature signed.alg signed.kid keys
          → parse_bundle_payload signed.payload ≡ ok bundle
          → r.verify bundle ≡ d
          → P (with_decision crypto r req bundle d)
      decided_induction keys bundle (err e) trusted valid parsed verified = gives_up _ e
      decided_induction keys bundle (ok decision) trusted valid parsed verified =
          elim (Bool-cases decision.trusted) [
            | inr not_trusted ↦
                rw not_trusted (gives_up decision.reason_code (plain "untrusted decision"))
            | inl is_trusted ↦ rw is_trusted (
                clears bundle (record {
                  signed = signed;
                  keys = keys;
                  decision = decision;
                  confirmed = confirmed;
                  posted = posted;
                  got = got;
                  trusted = trusted;
                  signature = valid;
                  parsed = parsed;
                  verified = verified;
                  accepted = is_trusted;
                }))
          ]

      parsed_induction :
          (keys : GoMap String) (b : Answer Bundle)
          → r.signing_keys ≡ some (ok keys)
          → IsSigned crypto signed.payload_raw signed.signature signed.alg signed.kid keys
          → parse_bundle_payload signed.payload ≡ b
          → P (with_bundle crypto r req b)
      parsed_induction keys (err e) trusted valid parsed = gives_up _ e
      parsed_induction keys (ok bundle) trusted valid parsed =
          decided_induction keys bundle (r.verify bundle) trusted valid parsed refl

      signed_induction :
          (keys : GoMap String) (s : Option GoError)
          → r.signing_keys ≡ some (ok keys)
          → verify_signed_bundle_with_keyset crypto signed.payload_raw signed.signature signed.alg
              signed.kid keys
            ≡ s
          → P (with_signature crypto r req signed s)
      signed_induction keys (some e) trusted checked = gives_up _ e
      signed_induction keys none trusted checked =
          parsed_induction keys (parse_bundle_payload signed.payload) trusted
            ((keyset_iff crypto signed.payload_raw signed.signature signed.alg signed.kid keys).0
              checked)
            refl

      with_keys_induction :
          (k : Option (Answer (GoMap String)))
          → r.signing_keys ≡ k
          → P (with_keys crypto r req signed k)
      with_keys_induction none trusted =
          gives_up _ (plain "trusted signing key source is not configured")
      with_keys_induction (some (err e)) trusted = gives_up _ e
      with_keys_induction (some (ok keys)) trusted = signed_induction keys _ trusted refl

      -- From the fetched bundle on.
      pub verification_induction : P (with_keys crypto r req signed r.signing_keys)
      verification_induction = with_keys_induction r.signing_keys refl

    module _ (stops : (e : GoError) → P (some e, []))
        (asked : (run : Run) → P run → P (asks (summary_of req) then_run run))
        (decides : (approved : Bool) (run : Run)
          → P run
          → P (posts_decision req.id approved then_run run))
        (fetches : (run : Run) → P run → P (fetches_bundle req.id then_run run)) where
      fetched_induction :
          (s : Answer SignedBundle)
          → r.confirm (summary_of req) ≡ ok true
          → r.post_local_decision req.id true ≡ none
          → r.get_attestation_bundle req.id ≡ s
          → P (with_signed_bundle crypto r req s)
      fetched_induction (err e) confirmed posted got = stops e
      fetched_induction (ok signed) confirmed posted got =
          verification_induction signed confirmed posted got

      posted_induction :
          (approved : Bool) (o : Option GoError)
          → r.confirm (summary_of req) ≡ ok approved
          → r.post_local_decision req.id approved ≡ o
          → P (with_posted crypto r req approved o)
      posted_induction approved (some e) confirmed posted = stops e
      posted_induction false none confirmed posted = stops err_user_denied
      posted_induction true none confirmed posted =
          fetches _ (fetched_induction (r.get_attestation_bundle req.id) confirmed posted refl)

      answered_induction :
          (a : Answer Bool) → r.confirm (summary_of req) ≡ a → P (with_answer crypto r req a)
      answered_induction (err e) confirmed = stops e
      answered_induction (ok approved) confirmed =
          decides approved _
            (posted_induction approved (r.post_local_decision req.id approved) confirmed refl)

      pub process_induction : P (process crypto r req)
      unfolding process
      process_induction = asked _ (answered_induction (r.confirm (summary_of req)) refl)

  finish-installs-none :
      (o : Option GoError) (user key : String)
      → Memᴰ (installs user key) (finish crypto r req o).1
      → ⊥
  finish-installs-none (some e) user key h = elim (Memᴰ-cases h) [
    | inl e' ↦ ground arith
    | inr rest ↦ elim rest [ ]
  ]
  finish-installs-none none user key h = elim (Memᴰ-cases h) [
    | inl e' ↦ ground arith
    | inr rest ↦ elim rest [ ]
  ]

  -- The agent calls the installation of a key only for the local user of the request, only with the
  -- key of the request's bundle, and only after all of this: the user has approved the request and
  -- the control plane has taken the decision, the bundle is signed by a trusted key, its payload has
  -- a key and a quote, and the verifier trusts the bundle.
  pub installs-IsCleared :
      (user key : String)
      → Memᴰ (installs user key) (process crypto r req).1
      → (user ≡ req.local_user)
        × ((bundle : Bundle) × IsCleared bundle × (key ≡ bundle.ssh_public_key))
  installs-IsCleared user key =
      process_induction
        (λ run.
          Memᴰ (installs user key) run.1
          → (user ≡ req.local_user)
            × ((bundle : Bundle) × IsCleared bundle × (key ≡ bundle.ssh_public_key)))
        (λ reason e h. elim (Memᴰ-cases h) [
          | inl e' ↦ absurd (ground arith)
          | inr rest ↦ elim rest [ ]
        ])
        (λ bundle c h. elim (Memᴰ-cases h) [
          | inl e ↦ (ground arith, (bundle, c, ground arith))
          | inr rest ↦ absurd (finish-installs-none _ user key rest)
        ])
        (λ e h. elim h [ ])
        (λ run p h. elim (Memᴰ-cases h) [ inl e ↦ absurd (ground arith) | inr rest ↦ p rest ])
        (λ approved run p h. elim (Memᴰ-cases h) [
          | inl e ↦ absurd (ground arith)
          | inr rest ↦ p rest
        ])
        (λ run p h. elim (Memᴰ-cases h) [ inl e ↦ absurd (ground arith) | inr rest ↦ p rest ])
