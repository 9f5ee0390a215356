-- ===== src/Verify/Toy.antt =====
-- A small cryptography and a bundle, for the runs of the tests.
use enclout.Prelude.{some, none, [], ◌∷◌, String, ◌==◌, if◌then◌else◌}
use enclout.GoMap.{GoMap}
use enclout.Verify.Types.{Bundle, Crypto}
use enclout.Verify.Verifier.{replicate, bytes_equal}

-- Cryptography for the runs: one key, one signature, and a hash that is the same for every text.
abbrev pub toy : Crypto
toy = record {
  sha256 = λ s. replicate 32 7;
  decode_base64 = λ s.
      if s == "KEY"
      then some (replicate 32 1)
      else if s == "SIG"
      then some (replicate 64 2)
      else none;
  ed25519_verify = λ key payload signature. bytes_equal signature (replicate 64 2);
}

abbrev pub measured : Bundle
measured = record {
  connector_id = "conn_1";
  ssh_public_key = "ssh-ed25519 AAAA";
  quote_hex = "0x04";
  mrtd = "m";
  rtmr0 = "r0";
  rtmr1 = "r1";
  rtmr2 = "r2";
  rtmr3 = "r3";
  report_data_expected_sha256 = "";
  policy_version = "v1";
}

abbrev pub one_key : GoMap String
one_key = ("v1", " KEY") ∷ []
