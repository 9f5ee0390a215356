-- ===== src/Signing/Tests.antt =====
-- A run of the control plane's signers, and the theorem about them at a concrete set.
use Prim.Native.String.{[], ◌∷◌}
use mathlib.Core.List
use enclout.Prelude.{
  ℕ, zero, suc, ◌+◌, String, code, false, Option, none, some, ◌++◌, ◌≡◌, ◌≢◌, refl, arith, eqb,
  length, length-append, ap, ◌∙◌, if◌then◌else◌,
}
use enclout.GoMap.{GoMap, lookup, insert}
use enclout.Text.Trim.{is_space, trim_left, trim_right, trim_space}
use enclout.Verify.Types.{Bytes, Crypto, ok}
use enclout.Verify.Signature.{verify_signed_bundle_with_keyset}
use enclout.Verify.Verifier.{replicate, bytes_equal, bytes_equal_refl}
use enclout.Trust.{trusted_map_from_keyset}
use enclout.Signing.{
  BundlePayload, SignedBundle, Ed25519Signer, SignerSet, Signatures, new_signer_set_from_seed_map,
  add_signers, new_ed25519_signer, sign_bundle, keyset,
}
use enclout.Signing.Signers.{SignatureLaws}
use enclout.Signing.Accepted.{sign_bundle-accepted}

-- An encoding of lists of numbers by letters, in place of base64: `aab` is 2.
abbrev ticks : ℕ → String → String
ticks zero s = s
ticks (suc n) s = "a" ∷ ticks n s

encode : Bytes → String
encode List.[] = []
encode (List.◌∷◌ b bs) = ticks b ("b" ∷ encode bs)

abbrev push : ℕ → Option Bytes → Option Bytes
push n none = none
push n (some bs) = some (List.◌∷◌ n bs)

decode_from : String → ℕ → Option Bytes
decode_from [] zero = some List.[]
decode_from [] (suc n) = none
decode_from (c ∷ s) n =
    if eqb (code c) b'b' then push n (decode_from s 0) else decode_from s (suc n)

decode_from-ticks :
    (b n : ℕ) (s : String) → decode_from (ticks b ("b" ∷ s)) n ≡ push (n + b) (decode_from s 0)
unfolding decode_from
decode_from-ticks zero n s = ap (λ (k : ℕ). push k (decode_from s 0)) (omega arith)
decode_from-ticks (suc b) n s =
    decode_from-ticks b (suc n) s ∙ ap (λ (k : ℕ). push k (decode_from s 0)) (omega arith)

decode_from-encode : (b : Bytes) → decode_from (encode b) 0 ≡ some b
unfolding encode decode_from
decode_from-encode List.[] = refl
decode_from-encode (List.◌∷◌ b bs) =
    decode_from-ticks b 0 (encode bs)
    ∙ (rw (decode_from-encode bs) (ap (λ (k : ℕ). some (List.◌∷◌ k bs)) (omega arith)))

-- No white space at all.
abbrev IsBlankless : String → Type 0
IsBlankless [] = Unit
IsBlankless (c ∷ s) = (is_space c ≡ false) × IsBlankless s

trim_left_of_blankless : (s : String) → IsBlankless s → trim_left s ≡ s
unfolding trim_left
trim_left_of_blankless [] h = refl
trim_left_of_blankless (c ∷ s) h = rw h.0

trim_right_of_blankless : (s : String) → IsBlankless s → trim_right s ≡ s
unfolding trim_right
trim_right_of_blankless [] h = refl
trim_right_of_blankless (c ∷ s) h = ground (arith, trim_right_of_blankless s h.1, h.0)

ticks-IsBlankless : (b : ℕ) (s : String) → IsBlankless s → IsBlankless (ticks b ("b" ∷ s))
unfolding is_space
ticks-IsBlankless zero s h = (refl, h)
ticks-IsBlankless (suc b) s h = (refl, ticks-IsBlankless b s h)

encode-IsBlankless : (b : Bytes) → IsBlankless (encode b)
unfolding encode
encode-IsBlankless List.[] = tt
encode-IsBlankless (List.◌∷◌ b bs) = ticks-IsBlankless b (encode bs) (encode-IsBlankless bs)

trim_space-encode : (b : Bytes) → trim_space (encode b) ≡ encode b
unfolding trim_space
trim_space-encode b =
    rw (trim_left_of_blankless (encode b) (encode-IsBlankless b))
      (trim_right_of_blankless (encode b) (encode-IsBlankless b))

encode-nil : (b : Bytes) → encode b ≡ "" → b ≡ List.[]
unfolding decode_from
encode-nil b h = let back = decode_from-encode b in ground (arith, ap (λ s. decode_from s 0) h)

abbrev toy_crypto : Crypto
toy_crypto = record {
  sha256 = λ s. replicate 32 7;
  decode_base64 = λ s. decode_from s 0;
  ed25519_verify = λ key raw signature. bytes_equal signature (key ++ key);
}

-- The public key is the seed, and a signature the seed twice.
abbrev toy_signatures : Signatures
toy_signatures = record {
  encode_base64 = encode;
  decode_base64 = λ s. decode_from s 0;
  public_of_seed = λ seed. seed;
  sign = λ seed raw. seed ++ seed;
  marshal = λ payload. some (List.◌∷◌ b'p' List.[]);
}

double_size : (seed : Bytes) → length seed ≡ 32 → length (seed ++ seed) ≡ 64
double_size seed h = omega (arith, length-append seed seed)

marshal-filled : (raw : Bytes) → some (List.◌∷◌ b'p' List.[]) ≡ some raw → raw ≢ List.[]
marshal-filled raw h e = ground arith

abbrev toy_laws : SignatureLaws toy_crypto toy_signatures
toy_laws = record {
  decodes = decode_from-encode;
  trimmed = trim_space-encode;
  encodes_empty = encode-nil;
  public_size = λ seed h. h;
  signature_size = λ seed raw h. double_size seed h;
  verifies = λ seed raw h. bytes_equal_refl (seed ++ seed);
  marshals = λ payload raw h. marshal-filled raw h;
}

abbrev seeds : GoMap String
seeds =
    List.◌∷◌ (" v2", "abbbbbbbbbbbbbbbbbbbbbbbbbbbbbbbb")
      (List.◌∷◌ ("v1", "bbbbbbbbbbbbbbbbbbbbbbbbbbbbbbbb") List.[])

abbrev signer : String → ℕ → Ed25519Signer
signer kid first = record {
  private_key = List.◌∷◌ first (replicate 31 0);
  public_key = List.◌∷◌ first (replicate 31 0);
  kid = kid;
}

abbrev two_signers : SignerSet
two_signers = record {
  active_kid = "v2";
  signers = List.◌∷◌ ("v2", signer "v2" 1) (List.◌∷◌ ("v1", signer "v1" 0) List.[]);
}

two_signers_run : new_signer_set_from_seed_map toy_signatures seeds "v2 " ≡ ok two_signers
unfolding new_signer_set_from_seed_map add_signers new_ed25519_signer decode_from trim_space insert
    lookup
two_signers_run = refl

abbrev payload : BundlePayload
payload = record {
  request_id = "01";
  connector_id = "conn_1";
  ssh_public_key = "ssh-ed25519 AAAA";
  quote_hex = "04";
  event_log = "";
  mrtd = "m";
  rtmr0 = "r0";
  rtmr1 = "r1";
  rtmr2 = "r2";
  rtmr3 = "r3";
  report_data_expected_sha256 = "";
  policy_version = "v1";
  issued_at = 100;
  expires_at = 400;
  nonce = "02";
}

sign_bundle-accepted_example :
    let raw : Bytes = List.◌∷◌ b'p' List.[] in
    (signed : SignedBundle) × (keys : GoMap String) × (sign_bundle toy_signatures two_signers
        payload
      ≡ ok signed)
    × (trusted_map_from_keyset (keyset toy_signatures two_signers) ≡ ok keys)
    × (verify_signed_bundle_with_keyset toy_crypto raw signed.signature signed.alg signed.kid keys
        ≡ none)
sign_bundle-accepted_example =
    sign_bundle-accepted toy_crypto toy_signatures toy_laws seeds "v2 " two_signers payload
      (List.◌∷◌ b'p' List.[]) two_signers_run refl
