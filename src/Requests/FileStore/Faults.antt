-- ===== src/Requests/FileStore/Faults.antt =====
-- What a call has done although it returns the error of `persistLocked`.
use enclout.Prelude.{String, Bool, none, some, ◌≡◌, ◌≢◌, ◌≤◌, arith}
use enclout.GoMap.{lookup}
use enclout.GoMap.Laws.{lookup-insert_self}
use enclout.Requests.Model.{
  Status, Time, ConnectionRequest, InstallSession, Result, ok, error_of, persist_failed,
  zero_request, zero_session,
}
use enclout.Requests.Store
use enclout.Requests.Store.{Store, decided, put_item, expire_if_needed}
use enclout.Requests.Install
use enclout.Requests.Install.{digest_install_token, expire_install_if_needed, install_expired}
use enclout.Requests.Tokens.Invariant.{IsWellFormed}
use enclout.Requests.Tokens.OneTime.{redeemed-absent}
use enclout.Requests.FileStore.{
  Codec, Fault, no_fault, FileStore, persist_locked, replied, write_through,
}
use enclout.Requests.FileStore.Methods.{set_local_decision, redeem_install_token}

decision_made :
    (now : Time) (id : String) (approved : Bool) (s : Store) (r : ConnectionRequest)
    → lookup id s.items ≡ some r
    → r.status ≡ Status.pending_local_confirm
    → now ≤ r.expires_at
    → ((Store.set_local_decision now id approved s).0 ≡ ok (decided approved r))
      × ((Store.set_local_decision now id approved s).1 ≡ put_item id (decided approved r) s)
unfolding Store.set_local_decision expire_if_needed
decision_made now id approved s r found pending early = ground arith

module _ {Raw : Type 0} (c : Codec Raw) where
  replied_fault :
      {A : Type 0} (zero_value v : A) (fault : Fault Raw) (s : FileStore Raw)
      → fault ≢ no_fault
      → (error_of (replied c zero_value fault (ok v) s).0 ≡ some persist_failed)
        × ((replied c zero_value fault (ok v) s).1.mem ≡ s.mem)
        × ((replied c zero_value fault (ok v) s).1.disk.file ≡ s.disk.file)
  unfolding persist_locked
  replied_fault zero_value v fault s n = ground arith

  write_through_fault :
      {A : Type 0} (zero_value v : A) (op : Store → Result A × Store) (fault : Fault Raw)
      (s : FileStore Raw)
      → fault ≢ no_fault
      → (op s.mem).0 ≡ ok v
      → let after = write_through c zero_value op fault s in
        (error_of after.0 ≡ some persist_failed)
        × (after.1.mem ≡ (op s.mem).1)
        × (after.1.disk.file ≡ s.disk.file)
  unfolding write_through
  write_through_fault zero_value v op fault s n e =
      rw e (replied_fault zero_value v fault (record s { mem = (op s.mem).1 }) n)

  -- If the file cannot be written, a local decision on a pending request that is in time returns an
  -- error, and the file is as it was; but in memory the request is decided all the same.
  pub failed_decision_is_made :
      (fault : Fault Raw) (now : Time) (id : String) (approved : Bool) (s : FileStore Raw)
      (r : ConnectionRequest)
      → fault ≢ no_fault
      → lookup id s.mem.items ≡ some r
      → r.status ≡ Status.pending_local_confirm
      → now ≤ r.expires_at
      → let after = set_local_decision c fault now id approved s in
        (error_of after.0 ≡ some persist_failed)
        × (lookup id after.1.mem.items ≡ some (decided approved r))
        × (after.1.disk.file ≡ s.disk.file)
  unfolding set_local_decision
  failed_decision_is_made fault now id approved s r n found pending early =
      let (reply, put) = decision_made now id approved s.mem r found pending early in
      let (e, mem, file) =
        write_through_fault zero_request (decided approved r)
          (Store.set_local_decision now id approved) fault s n reply in
      (e, rw (mem, put) (lookup-insert_self id (decided approved r) s.mem.items), file)

  -- If the file cannot be written, the redemption of a token that is good returns an error, and the
  -- file is as it was; but in memory the token is spent all the same.
  pub failed_redemption_spends :
      (sha256_hex : String → String) (fault : Fault Raw) (now : Time) (token : String)
      (s : FileStore Raw) (x : InstallSession)
      → fault ≢ no_fault
      → IsWellFormed s.mem
      → (Install.redeem_install_token sha256_hex now token s.mem).0 ≡ ok x
      → let after = redeem_install_token c fault sha256_hex now token s in
        (error_of after.0 ≡ some persist_failed)
        × (lookup (digest_install_token sha256_hex token) after.1.mem.install_tokens ≡ none)
        × (after.1.disk.file ≡ s.disk.file)
  unfolding redeem_install_token
  failed_redemption_spends sha256_hex fault now token s x n w good =
      let (e, mem, file) =
        write_through_fault zero_session x (Install.redeem_install_token sha256_hex now token) fault
          s n good in
      (e, rw mem (redeemed-absent sha256_hex now token s.mem x w good), file)
