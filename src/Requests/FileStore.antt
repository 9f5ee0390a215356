-- ===== src/Requests/FileStore.antt =====
-- services/control-plane/internal/requests/file_store.go: the in-memory store, written to a file
-- after each call.
--
-- The JSON encoding is a parameter, `Codec`. The file system is a `Disk` that holds the file at the
-- store's path and the temporary file beside it; what may go wrong in one `persistLocked` is an
-- argument of the call.
pub mod Methods
pub mod Durable
pub mod Faults
mod Tests
use enclout.Prelude.{ℕ, String, Bool, Option, none, some, List, [], ◌≡◌, ◌==◌, if◌then◌else◌}
use enclout.GoMap.{GoMap}
use enclout.Requests.Model.{
  Status, InstallStatus, Time, ConnectionRequest, CreateInput, InstallSession, CreateInstallInput,
  zero_request, zero_session, Error, persist_failed, Result, ok, fail,
}
use enclout.Requests.Store.{
  Store, Draw, new_store, create, get, list_pending_for_device, set_local_decision, set_result,
}
use enclout.Requests.Install.{
  create_install_session, get_install_session, set_install_identity, set_install_approval,
  set_install_result, redeem_install_token,
}

-- fileStoreState, as it is read: a field that the file lacks, or that is null, is a nil map.
pub record FileStoreState : Type 0 where
  pub items : Option (GoMap ConnectionRequest)
  pub install_sessions : Option (GoMap InstallSession)
  pub install_tokens : Option (GoMap String)

-- `json.Marshal` and `json.Unmarshal` at that type; `Raw` is the type of the bytes. The law is the documented one: what `Marshal`
-- writes, `Unmarshal` reads back.
pub record Codec (Raw : Type 0) : Type 0 where
  pub marshal : Store → Option Raw
  pub unmarshal : Raw → Option FileStoreState
  pub unmarshal-marshal :
      (s : Store) (raw : Raw)
      → marshal s ≡ some raw
      → unmarshal raw
        ≡ some (record {
          items = some s.items;
          install_sessions = some s.install_sessions;
          install_tokens = some s.install_tokens;
        })

pub record Disk (Raw : Type 0) : Type 0 where
  pub file : Option Raw
  pub tmp : Option Raw

-- What the system answers to `persistLocked`: a failed write leaves some text in the temporary
-- file.
pub data Fault (Raw : Type 0) : Type 0 where
  no_fault mkdir_fails rename_fails : Fault Raw
  write_fails : Raw → Fault Raw

pub record FileStore (Raw : Type 0) : Type 0 where
  pub mem : Store
  pub disk : Disk Raw

-- The error values of `load` and `NewFileStore`.
pub data OpenError : Type 0 where
  path_required read_failed bad_json : OpenError

pub data Opened (Raw : Type 0) : Type 0 where
  opened : FileStore Raw → Opened Raw
  refused : OpenError → Opened Raw

-- if m == nil { m = map[string]V{} }
abbrev pub or_empty {ℓ} : {V : Type ℓ} → Option (GoMap V) → GoMap V
or_empty none = []
or_empty (some m) = m

abbrev pub mem_of : FileStoreState → Store
mem_of st = record {
  items = or_empty st.items;
  install_sessions = or_empty st.install_sessions;
  install_tokens = or_empty st.install_tokens;
}

module _ {Raw : Type 0} (c : Codec Raw) where
  -- `load`; `read_error` is whether `os.ReadFile` fails on a file that exists.
  unfoldable pub load : Bool → Disk Raw → Opened Raw
  load read_error d = elim d.file [
    | none ↦ opened (record { mem = new_store; disk = d })
    | some raw ↦ if read_error then refused read_failed else elim (c.unmarshal raw) [
      | none ↦ refused bad_json
      | some st ↦ opened (record { mem = mem_of st; disk = d })
    ]
  ]

  unfoldable pub new_file_store : String → Bool → Disk Raw → Opened Raw
  unfolding load
  new_file_store path read_error d = if path == "" then refused path_required else load read_error d

  -- The error of `persistLocked`, if any, and the disk after it.
  abbrev pub written : Fault Raw → Raw → Disk Raw → Option Error × Disk Raw
  written mkdir_fails raw d = (some persist_failed, d)
  written (write_fails torn) raw d = (some persist_failed, record d { tmp = some torn })
  written rename_fails raw d = (some persist_failed, record d { tmp = some raw })
  written no_fault raw d = (none, record { file = some raw; tmp = none })

  unfoldable pub persist_locked : Fault Raw → FileStore Raw → Option Error × FileStore Raw
  persist_locked fault s = elim (c.marshal s.mem) [
    | none ↦ (some persist_failed, s)
    | some raw ↦ let (e, d) = written fault raw s.disk in (e, record s { disk = d })
  ]

  module _ {A : Type 0} (zero_value : A) where
    abbrev pub persisted : A → Option Error × FileStore Raw → Result A × FileStore Raw
    persisted v (none, s) = (ok v, s)
    persisted v (some e, s) = (fail e zero_value, s)

    abbrev pub replied : Fault Raw → Result A → FileStore Raw → Result A × FileStore Raw
    replied fault (fail e v) s = (fail e zero_value, s)
    replied fault (ok v) s = persisted v (persist_locked fault s)

    -- The methods that change the store: on an error of the in-memory call nothing is written.
    unfoldable pub write_through :
        (Store → Result A × Store) → Fault Raw → FileStore Raw → Result A × FileStore Raw
    unfolding persist_locked
    write_through op fault s = let (r, mem') = op s.mem in replied fault r (record s { mem = mem' })

    abbrev pub read_reply : Fault Raw → Result A → FileStore Raw → Result A × FileStore Raw
    read_reply fault (fail e v) s = (fail e zero_value, s)
    read_reply fault (ok v) s = (ok v, (persist_locked fault s).1)

    -- The methods that read: `_ = s.persistLocked()`.
    unfoldable pub read_through :
        (Store → Result A × Store) → Fault Raw → FileStore Raw → Result A × FileStore Raw
    unfolding persist_locked
    read_through op fault s =
        let (r, mem') = op s.mem in read_reply fault r (record s { mem = mem' })
