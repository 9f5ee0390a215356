-- ===== src/Requests/FileStore/Durable.antt =====
-- The file store answers from the memory of the in-memory store, and its file always holds one of
-- the states that this memory has been in.
use enclout.Prelude.{
  String, false, Option, none, some, List, [], ◌∷◌, ◌++◌, ◌≡◌, ◌⊎◌, inl, inr, refl, ap, ◌∙◌, arith,
  Option-cases,
}
use enclout.Requests.Model.{Result, ok, fail, error_of, zero_request, zero_session, Error}
use enclout.Requests.Store
use enclout.Requests.Store.{Store}
use enclout.Requests.Install
use enclout.Requests.Calls
use enclout.Requests.Calls.{
  Call, creates, gets, lists, decides, results, creates_session, gets_session, identifies, approves,
  installs, redeems,
}
use enclout.Requests.FileStore.{
  Codec, Disk, Fault, no_fault, FileStore, opened, load, persist_locked, persisted, replied,
  read_reply, write_through, read_through,
}
use enclout.Requests.FileStore.Methods.{after}

-- The calls, without what went wrong in them.
abbrev pub calls_of : {Raw : Type 0} → List (Fault Raw × Call) → List Call
calls_of [] = []
calls_of ((fault, call) ∷ fcs) = call ∷ calls_of fcs

module _ {Raw : Type 0} (c : Codec Raw) where
  -- The file holds what it held, or the encoding of the memory.
  abbrev pub IsWhole : Disk Raw → FileStore Raw → Type 0
  IsWhole d s =
      (s.disk.file ≡ d.file)
      ⊎ ((raw : Raw) × (c.marshal s.mem ≡ some raw) × (s.disk.file ≡ some raw))

  mem-persist_locked :
      (fault : Fault Raw) (s : FileStore Raw) → (persist_locked c fault s).1.mem ≡ s.mem
  unfolding persist_locked
  mem-persist_locked fault s = ground arith

  encoded-IsWhole :
      (fault : Fault Raw) (s : FileStore Raw) (raw : Raw)
      → c.marshal s.mem ≡ some raw
      → IsWhole s.disk (persist_locked c fault s).1
  unfolding persist_locked
  encoded-IsWhole no_fault s raw e = inr (raw, ground arith, ground arith)
  encoded-IsWhole _ s raw e = inl (ground arith)

  persist_locked-IsWhole :
      (fault : Fault Raw) (s : FileStore Raw) → IsWhole s.disk (persist_locked c fault s).1
  persist_locked-IsWhole fault s = elim (Option-cases (c.marshal s.mem)) [
    | inl unencodable ↦ inl (unfold persist_locked in ground arith)
    | inr (raw, e) ↦ encoded-IsWhole fault s raw e
  ]

  -- What a call leaves: the memory `m`, and a whole file.
  abbrev Leaves : Store → FileStore Raw → FileStore Raw → Type 0
  Leaves m s s' = (s'.mem ≡ m) × IsWhole s.disk s'

  persist_locked-Leaves :
      (fault : Fault Raw) (m : Store) (s : FileStore Raw)
      → Leaves m s (persist_locked c fault (record s { mem = m })).1
  persist_locked-Leaves fault m s =
      (mem-persist_locked fault _, persist_locked-IsWhole fault (record s { mem = m }))

  module _ {A : Type 0} (zero_value : A) where
    persisted-1 : (v : A) (p : Option Error × FileStore Raw) → (persisted c zero_value v p).1 ≡ p.1
    persisted-1 v (none, s) = refl
    persisted-1 v (some e, s) = refl

    replied-Leaves :
        (fault : Fault Raw) (r : Result A) (m : Store) (s : FileStore Raw)
        → Leaves m s (replied c zero_value fault r (record s { mem = m })).1
    replied-Leaves fault (fail e v) m s = (refl, inl refl)
    replied-Leaves fault (ok v) m s = rw persisted-1 (persist_locked-Leaves fault m s)

    read_reply-Leaves :
        (fault : Fault Raw) (r : Result A) (m : Store) (s : FileStore Raw)
        → Leaves m s (read_reply c zero_value fault r (record s { mem = m })).1
    read_reply-Leaves fault (fail e v) m s = (refl, inl refl)
    read_reply-Leaves fault (ok v) m s = persist_locked-Leaves fault m s

    write_through-Leaves :
        (op : Store → Result A × Store) (fault : Fault Raw) (s : FileStore Raw)
        → Leaves (op s.mem).1 s (write_through c zero_value op fault s).1
    unfolding write_through
    write_through-Leaves op fault s = replied-Leaves fault (op s.mem).0 (op s.mem).1 s

    read_through-Leaves :
        (op : Store → Result A × Store) (fault : Fault Raw) (s : FileStore Raw)
        → Leaves (op s.mem).1 s (read_through c zero_value op fault s).1
    unfolding read_through
    read_through-Leaves op fault s = read_reply-Leaves fault (op s.mem).0 (op s.mem).1 s

  module _ (sha256_hex : String → String) where
    -- Whatever goes wrong with the disk, a call changes the memory as the in-memory store does, and
    -- leaves in the file what was there, or the encoding of that memory.
    pub after-Leaves :
        (call : Call) (fault : Fault Raw) (s : FileStore Raw)
        → Leaves (Calls.after sha256_hex call s.mem) s (after c fault sha256_hex call s)
    unfolding after Calls.after
    after-Leaves (creates now id salt in_) fault s =
        write_through-Leaves zero_request (Store.create now id salt in_) fault s
    after-Leaves (gets now id) fault s = read_through-Leaves zero_request (Store.get now id) fault s
    after-Leaves (decides now id approved) fault s =
        write_through-Leaves zero_request (Store.set_local_decision now id approved) fault s
    after-Leaves (results now id st reason) fault s =
        write_through-Leaves zero_request (Store.set_result now id st reason) fault s
    after-Leaves (creates_session now id token in_) fault s =
        write_through-Leaves (zero_session, "")
          (Install.create_install_session sha256_hex now id token in_) fault s
    after-Leaves (gets_session now id) fault s =
        read_through-Leaves zero_session (Install.get_install_session now id) fault s
    after-Leaves (identifies now id x d) fault s =
        write_through-Leaves zero_session (Install.set_install_identity now id x d) fault s
    after-Leaves (approves now id approved) fault s =
        write_through-Leaves zero_session (Install.set_install_approval now id approved) fault s
    after-Leaves (installs now id st reason) fault s =
        write_through-Leaves zero_session (Install.set_install_result now id st reason) fault s
    after-Leaves (redeems now token) fault s =
        write_through-Leaves zero_session (Install.redeem_install_token sha256_hex now token) fault
          s
    after-Leaves (lists clock device_id) fault s =
        persist_locked-Leaves fault (Store.list_pending_for_device clock device_id s.mem).1 s

    unfoldable pub run_file : List (Fault Raw × Call) → FileStore Raw → FileStore Raw
    run_file [] s = s
    run_file ((fault, call) ∷ fcs) s = run_file fcs (after c fault sha256_hex call s)

    -- Whatever goes wrong with the disk in whatever calls, the memory of the file store is that of
    -- the in-memory store after the same calls.
    pub mem-run_file :
        (fcs : List (Fault Raw × Call)) (s : FileStore Raw)
        → (run_file fcs s).mem ≡ Calls.run sha256_hex (calls_of fcs) s.mem
    unfolding run_file Calls.run
    mem-run_file [] s = refl
    mem-run_file ((fault, call) ∷ fcs) s =
        mem-run_file fcs (after c fault sha256_hex call s)
        ∙ ap (Calls.run sha256_hex (calls_of fcs)) (after-Leaves call fault s).0

    -- The file was not written by the calls, or holds the encoding of the memory after some first
    -- part of them.
    abbrev pub HoldsPrefix : List (Fault Raw × Call) → FileStore Raw → FileStore Raw → Type 0
    HoldsPrefix fcs s s' =
        (s'.disk.file ≡ s.disk.file)
        ⊎ ((done : List (Fault Raw × Call)) × (rest : List (Fault Raw × Call)) × (fcs
              ≡ done ++ rest)
            × (raw : Raw) × (c.marshal (run_file done s).mem ≡ some raw)
            × (s'.disk.file ≡ some raw))

    -- Whatever goes wrong in whatever calls, the file is never torn: it holds what it held before
    -- the calls, or the encoding of the memory after some first part of them.
    pub run_file-HoldsPrefix :
        (fcs : List (Fault Raw × Call)) (s : FileStore Raw) → HoldsPrefix fcs s (run_file fcs s)
    unfolding run_file
    run_file-HoldsPrefix [] s = inl refl
    run_file-HoldsPrefix ((fault, call) ∷ fcs) s =
        elim (run_file-HoldsPrefix fcs (after c fault sha256_hex call s)) [
          | inl same ↦ elim (after-Leaves call fault s).1 [
            | inl kept ↦ inl (same ∙ kept)
            | inr (raw, e, new) ↦ inr ((fault, call) ∷ [], fcs, refl, raw, e, same ∙ new)
          ]
          | inr (done, rest, split, raw, e, held) ↦
              inr ((fault, call) ∷ done, rest, ap (λ l. (fault, call) ∷ l) split, raw, e, held)
        ]

  -- A state whose encoding the file holds is the state that a restart reads.
  pub load_lem :
      (m : Store) (d : Disk Raw) (raw : Raw)
      → c.marshal m ≡ some raw
      → d.file ≡ some raw
      → load c false d ≡ opened (record { mem = m; disk = d })
  unfolding load
  load_lem m d raw e held = ground (arith, c.unmarshal-marshal m raw e)

  abbrev saved : Raw → FileStore Raw → FileStore Raw
  saved raw t = record t { disk = record { file = some raw; tmp = none } }

  replied-saved :
      {A : Type 0} (zero_value : A) (fault : Fault Raw) (r : Result A) (t : FileStore Raw)
      → error_of (replied c zero_value fault r t).0 ≡ none
      → (raw : Raw) × (c.marshal t.mem ≡ some raw)
        × ((replied c zero_value fault r t).1 ≡ saved raw t)
  unfolding persist_locked
  replied-saved zero_value no_fault (ok v) t h = elim (Option-cases (c.marshal t.mem)) [
    | inl unencodable ↦ ground arith
    | inr (raw, e) ↦ (raw, e, ground arith)
  ]
  replied-saved zero_value _ r t h = ground arith

  -- If a method that changes the store returns no error, its change is durable: a restart reads the
  -- memory that the method left.
  pub load-write_through :
      {A : Type 0} (zero_value : A) (op : Store → Result A × Store) (fault : Fault Raw)
      (s : FileStore Raw)
      → error_of (write_through c zero_value op fault s).0 ≡ none
      → load c false (write_through c zero_value op fault s).1.disk
        ≡ opened (write_through c zero_value op fault s).1
  unfolding write_through
  load-write_through zero_value op fault s h =
      let (raw, e, after_it) =
        replied-saved zero_value fault (op s.mem).0 (record s { mem = (op s.mem).1 }) h in
      rw after_it (load_lem (op s.mem).1 _ raw e refl)
