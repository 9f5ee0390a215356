-- ===== src/Requests/FileStore/Tests.antt =====
-- Runs of the file store, and its theorems at concrete calls. The codec keeps the state itself.
use enclout.Prelude.{true, false, none, some, List, [], ◌∷◌, ◌≡◌, refl, arith, eq_iff}
use enclout.GoMap.{lookup, insert}
use enclout.Requests.Model.{
  Status, InstallStatus, ConnectionRequest, InstallSession, zero_request, error_of, persist_failed,
}
use enclout.Requests.Store
use enclout.Requests.Store.{Store, Draw, new_store, decided, expire_if_needed}
use enclout.Requests.Install
use enclout.Requests.Install.{digest_install_token, expire_install_if_needed, install_expired}
use enclout.Text.Trim.{trim_space}
use enclout.Requests.Calls
use enclout.Requests.Calls.{Call, decides, gets}
use enclout.Requests.Tokens.Invariant.{IsWellFormed}
use enclout.Requests.FileStore.{
  Codec, FileStoreState, Fault, no_fault, mkdir_fails, rename_fails, write_fails, FileStore, opened,
  load, write_through,
}
use enclout.Requests.FileStore.Methods
use enclout.Requests.FileStore.Methods.{set_local_decision, redeem_install_token}
use enclout.Requests.FileStore.Durable.{
  run_file, calls_of, mem-run_file, HoldsPrefix, run_file-HoldsPrefix, load-write_through,
}
use enclout.Requests.FileStore.Faults.{failed_decision_is_made, failed_redemption_spends}

abbrev state_of : Store → FileStoreState
state_of s = record {
  items = some s.items;
  install_sessions = some s.install_sessions;
  install_tokens = some s.install_tokens;
}

plain-law : (s raw : Store) → some s ≡ some raw → some (state_of raw) ≡ some (state_of s)
plain-law s raw e = cc

abbrev plain : Codec Store
plain = record { marshal = some; unmarshal = λ s. some (state_of s); unmarshal-marshal = plain-law }

abbrev pending_request : ConnectionRequest
pending_request = record zero_request {
  id = "01";
  status = Status.pending_local_confirm;
  created_at = 100;
  expires_at = 400;
}

abbrev one_pending : FileStore Store
one_pending = record {
  mem = record new_store { items = ("01", pending_request) ∷ [] };
  disk = record { file = none; tmp = none };
}

abbrev one_decided : Store
one_decided = record new_store { items = ("01", decided true pending_request) ∷ [] }

abbrev script : List (Fault Store × Call)
script = (no_fault, decides 150 "01" true) ∷ (rename_fails, gets 500 "01") ∷ []

-- The second write fails: the file keeps the decision, and the memory has expired it.
script-run_file :
    ((run_file plain (λ t. t) script one_pending).disk.file ≡ some one_decided)
    × ((run_file plain (λ t. t) script one_pending).mem.items
        ≡ ("01", record pending_request { status = Status.expired }) ∷ [])
unfolding run_file Methods.after Store.set_local_decision Store.get expire_if_needed lookup insert
script-run_file = (refl, refl)

mem-run_file_example :
    (run_file plain (λ t. t) script one_pending).mem
    ≡ Calls.run (λ t. t) (calls_of script) one_pending.mem
mem-run_file_example = mem-run_file plain (λ t. t) script one_pending

run_file-HoldsPrefix_example :
    HoldsPrefix plain (λ t. t) script one_pending (run_file plain (λ t. t) script one_pending)
run_file-HoldsPrefix_example = run_file-HoldsPrefix plain (λ t. t) script one_pending

load-write_through_example :
    load plain false
      (write_through plain zero_request
        (Store.set_local_decision 150 "01" true)
        no_fault
        one_pending).1.disk
    ≡ opened
        (write_through plain zero_request
          (Store.set_local_decision 150 "01" true)
          no_fault
          one_pending).1
unfolding write_through Store.set_local_decision expire_if_needed lookup
load-write_through_example =
    load-write_through plain zero_request (Store.set_local_decision 150 "01" true) no_fault
      one_pending refl

failed_decision_is_made_example :
    let after = set_local_decision plain mkdir_fails 150 "01" true one_pending in
    (error_of after.0 ≡ some persist_failed)
    × (lookup "01" after.1.mem.items ≡ some (decided true pending_request))
    × (after.1.disk.file ≡ none)
unfolding lookup
failed_decision_is_made_example =
    failed_decision_is_made plain mkdir_fails 150 "01" true one_pending pending_request (cc) refl
      refl (omega arith)

abbrev session : InstallSession
session = record {
  id = "07";
  openclaw_user_id = "usr_1";
  device_id = "";
  connector_id = "";
  source_channel = "telegram";
  status = InstallStatus.approved;
  created_at = 100;
  expires_at = 400;
  reason_code = "";
}

abbrev one_token : FileStore Store
one_token = record one_pending {
  mem = record {
    items = [];
    install_sessions = ("07", session) ∷ [];
    install_tokens = ("99", "07") ∷ [];
  };
}

one_token-IsWellFormed : IsWellFormed one_token.mem
unfolding lookup
one_token-IsWellFormed = record {
  keyed = λ k x e. ground (arith, eq_iff "07" k);
  live = λ d k e. (session, ground (arith, eq_iff "99" d, eq_iff "07" k), refl);
  identified = λ k x e i. ground (arith, eq_iff "07" k);
}

failed_redemption_spends_example :
    let after = redeem_install_token plain (write_fails new_store) (λ t. t) 150 "99" one_token in
    (error_of after.0 ≡ some persist_failed)
    × (lookup (digest_install_token (λ t. t) "99") after.1.mem.install_tokens ≡ none)
    × (after.1.disk.file ≡ none)
unfolding Install.redeem_install_token expire_install_if_needed install_expired lookup trim_space
failed_redemption_spends_example =
    failed_redemption_spends plain (λ t. t) (write_fails new_store) 150 "99" one_token session (cc)
      one_token-IsWellFormed refl
