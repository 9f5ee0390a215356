-- ===== src/SshKeys/Tests.antt =====
-- Runs of the key manager, and its theorem at a concrete file.
use Prim.Native.String.{◌++◌}
use enclout.Prelude.{
  String, ◌&&◌, none, some, [], ◌∷◌, ◌≡◌, ◌≢◌, refl, arith, ◌==◌, eq_iff, if◌then◌else◌,
}
use enclout.GoMap.{GoMap, lookup, insert, delete}
use enclout.Text.Trim.{trim_space}
use enclout.Text.Parts.{has_prefix, split}
use enclout.Text.Prefix.{cut_prefix}
use enclout.SshKeys.{
  no_fault, rename_fails, clean_elements, joined, clean, join, final_path, tmp_path, install,
}
use enclout.SshKeys.Atomic.{succeeds, install-lookup}

abbrev keys_dir : String
keys_dir = "/var/lib/keys/"

abbrev alice_path : String
alice_path = "/var/lib/keys/alice/authorized_keys"

abbrev before : GoMap String
before = (alice_path, "ssh-ed25519 OLD\n") ∷ []

join_run : final_path keys_dir "../alice" ≡ "/var/lib/alice/authorized_keys"
unfolding join clean clean_elements joined has_prefix cut_prefix split
join_run = refl

install_run :
    install keys_dir no_fault "alice" " ssh-ed25519 NEW\n" before
    ≡ (none, (alice_path, "ssh-ed25519 NEW\n") ∷ [])
unfolding install join clean clean_elements joined has_prefix cut_prefix split trim_space insert
    delete
install_run = refl

differs : ◌≢◌ {A = String} alice_path (tmp_path keys_dir "alice")
unfolding join clean clean_elements joined has_prefix cut_prefix split
differs h = ground (arith, eq_iff alice_path (tmp_path keys_dir "alice"))

install-lookup_example :
    lookup alice_path (install keys_dir rename_fails "alice" "ssh-ed25519 NEW" before).1 ≡ (
      if succeeds (install keys_dir rename_fails "alice" "ssh-ed25519 NEW" before).0
        && final_path keys_dir "alice" == alice_path
      then some (trim_space "ssh-ed25519 NEW" ++ "\n")
      else lookup alice_path before)
install-lookup_example =
    install-lookup keys_dir "alice" "ssh-ed25519 NEW" alice_path rename_fails before differs
