-- ===== src/Requests/Tests.antt =====
-- Runs of the request store, and its theorems at concrete calls.
use mathlib.Core.List.{Memᴰ}
use enclout.Prelude.{ℕ, String, true, none, some, List, [], ◌∷◌, ◌≡◌, ◌↔◌, ◌≤◌, refl, pos}
use enclout.GoMap.{lookup, insert, delete_where}
use enclout.Text.Trim.{trim_space}
use enclout.Requests.Model.{
  Status, InstallStatus, ConnectionRequest, CreateInput, InstallSession, CreateInstallInput, ok,
  error_of, err_expired, err_not_found, random_id,
}
use enclout.Requests.Store.{
  Store, Draw, new_store, create, list_pending_for_device, set_local_decision, set_result,
  expire_if_needed,
}
use enclout.Requests.Install.{
  create_install_session, set_install_identity, set_install_approval, redeem_install_token,
  digest_install_token, set_install_result, expire_install_if_needed, install_expired,
}
use enclout.Requests.Calls.{
  Call, creates, decides, results, creates_session, identifies, approves, installs, after, run,
}
use enclout.Requests.Lifecycle.Moves.{Follows, after-Follows}
use enclout.Requests.Lifecycle.Approval.{Confirmed, connected-Confirmed, Some}
use enclout.Requests.Lifecycle.Deadline.{IsLapsed, decision_replies}
use enclout.Requests.Lifecycle.Pending.{IsDue, pending_exact}
use enclout.Requests.Tokens.Changes.{approving}
use enclout.Requests.Tokens.Invariant.{IsWellFormed, run-IsWellFormed}
use enclout.Requests.Tokens.OneTime.{redeemed_iff, redeemed_once}
use enclout.Requests.Tokens.Approved.{redeemed-approved}

-- A digest for the runs: the token itself.
abbrev plain : String → String
plain t = t

abbrev draw : ℕ → Draw
draw b = some (b ∷ [])

abbrev asked : CreateInput
asked = record {
  openclaw_user_id = "usr_1";
  device_id = "dev_1";
  connector_id = "conn_1";
  source_channel = "telegram";
  ttl = pos 300;
}

abbrev pending_request : ConnectionRequest
pending_request = record {
  id = "01";
  openclaw_user_id = "usr_1";
  device_id = "dev_1";
  connector_id = "conn_1";
  source_channel = "telegram";
  status = Status.pending_local_confirm;
  created_at = 100;
  expires_at = 400;
  nonce = "02";
  reason_code = "";
}

abbrev connected_request : ConnectionRequest
connected_request = record pending_request { status = Status.connected }

abbrev one_pending : Store
one_pending = record new_store { items = ("01", pending_request) ∷ [] }

abbrev connecting : List Call
connecting =
    creates 100 (draw 1) (draw 2) asked
    ∷ decides 150 "01" true
    ∷ results 200 "01" Status.connected ""
    ∷ []

random_id_padded : random_id (some (0 ∷ 0x1f ∷ 255 ∷ [])) ≡ "001fff"
unfolding random_id
random_id_padded = refl

connecting-run : (run plain connecting new_store).items ≡ ("01", connected_request) ∷ []
unfolding run after create set_local_decision set_result expire_if_needed lookup insert random_id
connecting-run = refl

late_decision : error_of (set_local_decision 401 "01" true one_pending).0 ≡ some err_expired
unfolding set_local_decision expire_if_needed lookup
late_decision = refl

after-Follows_example :
    (r' : ConnectionRequest) × (lookup "01" (after plain (decides 150 "01" true) one_pending).items
      ≡ some r')
    × Follows pending_request r'
unfolding lookup
after-Follows_example =
    after-Follows plain (decides 150 "01" true) "01" one_pending pending_request refl refl

connected-Confirmed_example : Confirmed "01" connecting
unfolding run after create set_local_decision set_result expire_if_needed lookup insert random_id
connected-Confirmed_example = connected-Confirmed plain connecting "01" connected_request refl refl

decision_replies_example :
    ((error_of (set_local_decision 150 "01" true one_pending).0 ≡ none)
      ↔ ((pending_request.status ≡ Status.pending_local_confirm) × (150 ≤ 400)))
    × ((error_of (set_local_decision 150 "01" true one_pending).0 ≡ some err_expired)
        ↔ IsLapsed 150 pending_request)
unfolding lookup
decision_replies_example = decision_replies 150 "01" one_pending pending_request refl true

pending_exact_example :
    Memᴰ pending_request (list_pending_for_device (λ id. 150) "dev_1" one_pending).0
    ↔ ((k : String) × IsDue (λ id. 150) "dev_1" one_pending.items k pending_request)
pending_exact_example = pending_exact (λ id. 150) "dev_1" one_pending pending_request

abbrev invited : CreateInstallInput
invited = record {
  openclaw_user_id = "usr_1";
  device_id = "";
  connector_id = "";
  source_channel = "telegram";
  ttl = pos 300;
}

abbrev approved_session : InstallSession
approved_session = record {
  id = "01";
  openclaw_user_id = "usr_1";
  device_id = "";
  connector_id = "";
  source_channel = "telegram";
  status = InstallStatus.approved;
  created_at = 100;
  expires_at = 400;
  reason_code = "";
}

abbrev installing : List Call
installing = creates_session 100 (draw 1) (draw 0x99) invited ∷ approves 120 "01" true ∷ []

abbrev installed_later : List Call
installed_later =
    identifies 160 "01" " conn_1" "dev_1 " ∷ installs 170 "01" InstallStatus.installed "" ∷ []

installing-run :
    (run plain installed_later (run plain installing new_store)).install_sessions
    ≡ (
      "01",
      record approved_session {
        status = InstallStatus.installed;
        connector_id = "conn_1";
        device_id = "dev_1";
      },
    )
      ∷ []
unfolding run after create_install_session set_install_approval set_install_identity
    set_install_result expire_install_if_needed install_expired lookup insert delete_where random_id
    trim_space
installing-run = refl

run-IsWellFormed_example : IsWellFormed (run plain installing new_store)
run-IsWellFormed_example = run-IsWellFormed plain installing

redeemed_iff_example :
    ((redeem_install_token plain 150 "99" (run plain installing new_store)).0 ≡ ok approved_session)
    ↔ ((k : String) × (lookup
            (digest_install_token plain "99")
            (run plain installing new_store).install_tokens
          ≡ some k)
        × (lookup k (run plain installing new_store).install_sessions ≡ some approved_session)
        × (approved_session.status ≡ InstallStatus.approved)
        × (150 ≤ 400))
redeemed_iff_example = redeemed_iff plain 150 "99" (run plain installing new_store) approved_session

redeemed_once_example :
    error_of
      (redeem_install_token plain 180 "99" (
        run plain installed_later
          (redeem_install_token plain 150 "99" (run plain installing new_store)).1)).0
    ≡ some err_not_found
unfolding run after create_install_session set_install_approval redeem_install_token
    expire_install_if_needed install_expired lookup insert random_id trim_space
redeemed_once_example =
    redeemed_once plain 150 180 "99" (run plain installing new_store) approved_session
      installed_later (run-IsWellFormed plain installing) refl (cc, (cc, tt))

redeemed-approved_example : Some (λ c. approving c ≡ some "01") installing
unfolding run after create_install_session set_install_approval redeem_install_token
    expire_install_if_needed install_expired lookup insert random_id trim_space
redeemed-approved_example = redeemed-approved plain installing 150 "99" approved_session refl
