-- ===== src/Requests/Calls.antt =====
-- The calls that the store answers, as data, and the store after a sequence of calls. The lock
-- makes every interleaving of concurrent callers such a sequence.
use enclout.Prelude.{String, Bool, List, [], ◌∷◌}
use enclout.Requests.Model.{Status, InstallStatus, Time, CreateInput, CreateInstallInput}
use enclout.Requests.Store.{
  Store, Draw, create, get, list_pending_for_device, set_local_decision, set_result,
}
use enclout.Requests.Install.{
  create_install_session, get_install_session, set_install_identity, set_install_approval,
  set_install_result, redeem_install_token,
}

-- Each constructor holds what the operation of its name reads and is given.
pub data Call : Type 0 where
  creates : Time → Draw → Draw → CreateInput → Call
  gets : Time → String → Call
  lists : (String → Time) → String → Call
  decides : Time → String → Bool → Call
  results : Time → String → Status → String → Call
  creates_session : Time → Draw → Draw → CreateInstallInput → Call
  gets_session : Time → String → Call
  identifies : Time → String → String → String → Call
  approves : Time → String → Bool → Call
  installs : Time → String → InstallStatus → String → Call
  redeems : Time → String → Call

module _ (sha256_hex : String → String) where
  unfoldable pub after : Call → Store → Store
  after (creates now id nonce in_) s = (create now id nonce in_ s).1
  after (gets now id) s = (get now id s).1
  after (lists clock device_id) s = (list_pending_for_device clock device_id s).1
  after (decides now id approved) s = (set_local_decision now id approved s).1
  after (results now id status reason) s = (set_result now id status reason s).1
  after (creates_session now id token in_) s =
      (create_install_session sha256_hex now id token in_ s).1
  after (gets_session now id) s = (get_install_session now id s).1
  after (identifies now id connector device) s = (set_install_identity now id connector device s).1
  after (approves now id approved) s = (set_install_approval now id approved s).1
  after (installs now id status reason) s = (set_install_result now id status reason s).1
  after (redeems now token) s = (redeem_install_token sha256_hex now token s).1

  unfoldable pub run : List Call → Store → Store
  run [] s = s
  run (c ∷ cs) s = run cs (after c s)
