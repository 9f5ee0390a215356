-- ===== src/Requests/FileStore/Methods.antt =====
-- The methods of `FileStore`, each around the in-memory operation of its name.
use enclout.Prelude.{String, Bool, List}
use enclout.Requests.Model.{
  Status, InstallStatus, Time, ConnectionRequest, CreateInput, InstallSession, CreateInstallInput,
  zero_request, zero_session, Result,
}
use enclout.Requests.Store
use enclout.Requests.Store.{Draw}
use enclout.Requests.Install
use enclout.Requests.Calls.{
  Call, creates, gets, lists, decides, results, creates_session, gets_session, identifies, approves,
  installs, redeems,
}
use enclout.Requests.FileStore.{
  Codec, Fault, FileStore, persist_locked, write_through, read_through,
}

module _ {Raw : Type 0} (c : Codec Raw) (fault : Fault Raw) where
  unfoldable pub create :
      Time → Draw → Draw → CreateInput → FileStore Raw → Result ConnectionRequest × FileStore Raw
  unfolding write_through
  create now id nonce in_ = write_through c zero_request (Store.create now id nonce in_) fault

  unfoldable pub get : Time → String → FileStore Raw → Result ConnectionRequest × FileStore Raw
  unfolding read_through
  get now id = read_through c zero_request (Store.get now id) fault

  unfoldable pub list_pending_for_device :
      (String → Time) → String → FileStore Raw → List ConnectionRequest × FileStore Raw
  unfolding persist_locked
  list_pending_for_device clock device_id s =
      let (items, mem') = Store.list_pending_for_device clock device_id s.mem in
      (items, (persist_locked c fault (record s { mem = mem' })).1)

  unfoldable pub set_local_decision :
      Time → String → Bool → FileStore Raw → Result ConnectionRequest × FileStore Raw
  unfolding write_through
  set_local_decision now id approved =
      write_through c zero_request (Store.set_local_decision now id approved) fault

  unfoldable pub set_result :
      Time → String → Status → String → FileStore Raw → Result ConnectionRequest × FileStore Raw
  unfolding write_through
  set_result now id status reason =
      write_through c zero_request (Store.set_result now id status reason) fault

  unfoldable pub get_install_session :
      Time → String → FileStore Raw → Result InstallSession × FileStore Raw
  unfolding read_through
  get_install_session now id =
      read_through c zero_session (Install.get_install_session now id) fault

  unfoldable pub set_install_approval :
      Time → String → Bool → FileStore Raw → Result InstallSession × FileStore Raw
  unfolding write_through
  set_install_approval now id approved =
      write_through c zero_session (Install.set_install_approval now id approved) fault

  unfoldable pub set_install_result :
      Time → String → InstallStatus → String → FileStore Raw → Result InstallSession × FileStore Raw
  unfolding write_through
  set_install_result now id status reason =
      write_through c zero_session (Install.set_install_result now id status reason) fault

  unfoldable pub set_install_identity :
      Time → String → String → String → FileStore Raw → Result InstallSession × FileStore Raw
  unfolding write_through
  set_install_identity now id connector device =
      write_through c zero_session (Install.set_install_identity now id connector device) fault

  module _ (sha256_hex : String → String) where
    unfoldable pub create_install_session :
        Time
        → Draw
        → Draw
        → CreateInstallInput
        → FileStore Raw
        → Result (InstallSession × String) × FileStore Raw
    unfolding write_through
    create_install_session now id token in_ =
        write_through c (zero_session, "")
          (Install.create_install_session sha256_hex now id token in_) fault

    unfoldable pub redeem_install_token :
        Time → String → FileStore Raw → Result InstallSession × FileStore Raw
    unfolding write_through
    redeem_install_token now token =
        write_through c zero_session (Install.redeem_install_token sha256_hex now token) fault

    -- The store after a call.
    unfoldable pub after : Call → FileStore Raw → FileStore Raw
    unfolding create get list_pending_for_device set_local_decision set_result get_install_session
        set_install_approval set_install_result set_install_identity create_install_session
        redeem_install_token
    after (creates now id nonce in_) s = (create now id nonce in_ s).1
    after (gets now id) s = (get now id s).1
    after (lists clock device_id) s = (list_pending_for_device clock device_id s).1
    after (decides now id approved) s = (set_local_decision now id approved s).1
    after (results now id status reason) s = (set_result now id status reason s).1
    after (creates_session now id token in_) s = (create_install_session now id token in_ s).1
    after (gets_session now id) s = (get_install_session now id s).1
    after (identifies now id connector device) s =
        (set_install_identity now id connector device s).1
    after (approves now id approved) s = (set_install_approval now id approved s).1
    after (installs now id status reason) s = (set_install_result now id status reason s).1
    after (redeems now token) s = (redeem_install_token now token s).1
