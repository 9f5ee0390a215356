-- ===== src/Requests/Lifecycle/Approval.antt =====
-- No connection without a local confirmation of that request.
use mathlib.Core.Option
use enclout.Prelude.{
  sym, ◌∙◌, String, true, false, some, List, [], ◌∷◌, ◌≡◌, ◌⊎◌, inl, inr, arith, eq_iff, Bool-cases,
}
use enclout.GoMap.{lookup}
use enclout.Requests.Model.{Status, Time, ConnectionRequest}
use enclout.Requests.Store.{Store, expire_if_needed, new_store}
use enclout.Requests.Calls.{Call, creates, gets, lists, decides, results, after, run}
use enclout.Requests.Lifecycle.Effects.{items-create}
use enclout.Requests.Lifecycle.Moves.{draws_id, effect, items-after}

-- The store holds a request with the status `t` at the key `k`.
abbrev pub HasStatus : String → Status → Store → Type 0
HasStatus k t s = (r : ConnectionRequest) × (lookup k s.items ≡ some r) × (r.status ≡ t)

-- The call is a local confirmation of the request `k`.
abbrev pub Confirms : String → Call → Type 0
Confirms k c = (t : Time) × (c ≡ decides t k true)

-- The call reports the request `k` as connected.
abbrev pub Reports : String → Call → Type 0
Reports k c = (t : Time) × (reason : String) × (c ≡ results t k Status.connected reason)

effect_connected :
    (c : Call) (k : String) (r : ConnectionRequest)
    → (effect c k r).status ≡ Status.connected
    → (r.status ≡ Status.connected) ⊎ ((r.status ≡ Status.approved) × Reports k c)
unfolding expire_if_needed
effect_connected (gets now id) k r e = ground arith
effect_connected (lists clock device_id) k r e = ground arith
effect_connected (decides now id approved) k r e = ground arith
effect_connected (results now id Status.connected reason) k r e = ground (arith, eq_iff id k)
effect_connected (results now id status reason) k r e = ground arith
effect_connected _ k r e = inl e

effect_approved :
    (c : Call) (k : String) (r : ConnectionRequest)
    → (effect c k r).status ≡ Status.approved
    → (r.status ≡ Status.approved) ⊎ Confirms k c
unfolding expire_if_needed
effect_approved (gets now id) k r e = ground arith
effect_approved (lists clock device_id) k r e = ground arith
effect_approved (decides now id true) k r e = ground (arith, eq_iff id k)
effect_approved (decides now id false) k r e = ground arith
effect_approved (results now id status reason) k r e = ground arith
effect_approved _ k r e = inl e

-- Whatever a call leaves at a key was there before it, or is new and pending.
abbrev Past : Call → String → Store → ConnectionRequest → Type 0
Past c k s r' =
    (r'.status ≡ Status.pending_local_confirm)
    ⊎ ((r : ConnectionRequest) × (lookup k s.items ≡ some r) × (r' ≡ effect c k r))

module _ (sha256_hex : String → String) where
  drawn-Past :
      (c : Call) (k : String) (s : Store) (r' : ConnectionRequest)
      → draws_id c k ≡ true
      → lookup k (after sha256_hex c s).items ≡ some r'
      → Past c k s r'
  unfolding after
  drawn-Past (creates now id salt in_) k s r' d e = ground (arith, items-create now id salt in_ k s)
  drawn-Past _ k s r' d e = cc

  after-Past :
      (c : Call) (k : String) (s : Store) (r' : ConnectionRequest)
      → lookup k (after sha256_hex c s).items ≡ some r'
      → Past c k s r'
  after-Past c k s r' e = elim (Bool-cases (draws_id c k)) [
    | inl drawn ↦ drawn-Past c k s r' drawn e
    | inr other ↦
        let (r, found, same) =
          (Option.map-eq-some_iff _ _).0 (sym (items-after sha256_hex c k s other) ∙ e) in
        inr (r, found, sym same)
  ]

  connected_step :
      (c : Call) (k : String) (s : Store)
      → HasStatus k Status.connected (after sha256_hex c s)
      → HasStatus k Status.connected s ⊎ (HasStatus k Status.approved s × Reports k c)
  connected_step c k s (r', found, status) = elim (after-Past c k s r' found) [
    | inl new ↦ cc
    | inr (r, before, same) ↦ elim (effect_connected c k r (cc)) [
      | inl connected ↦ inl (r, before, connected)
      | inr (approved, reports) ↦ inr ((r, before, approved), reports)
    ]
  ]

  approved_step :
      (c : Call) (k : String) (s : Store)
      → HasStatus k Status.approved (after sha256_hex c s)
      → HasStatus k Status.approved s ⊎ Confirms k c
  approved_step c k s (r', found, status) = elim (after-Past c k s r' found) [
    | inl new ↦ cc
    | inr (r, before, same) ↦ elim (effect_approved c k r (cc)) [
      | inl approved ↦ inl (r, before, approved)
      | inr confirms ↦ inr confirms
    ]
  ]

-- A call that satisfies `P` is in the list.
pub data Some (P : Call → Type 0) : List Call → Type 0 where
  here : {c : Call} {cs : List Call} → P c → Some P (c ∷ cs)
  there : {c : Call} {cs : List Call} → Some P cs → Some P (c ∷ cs)

-- A local confirmation of `k` and, later in the list, a report of `k` as connected.
pub data Confirmed (k : String) : List Call → Type 0 where
  confirm : {c : Call} {cs : List Call} → Confirms k c → Some (Reports k) cs → Confirmed k (c ∷ cs)
  later : {c : Call} {cs : List Call} → Confirmed k cs → Confirmed k (c ∷ cs)

module _ (sha256_hex : String → String) where
  run_connected :
      (cs : List Call) (k : String) (s : Store)
      → HasStatus k Status.connected (run sha256_hex cs s)
      → HasStatus k Status.connected s
        ⊎ (HasStatus k Status.approved s × Some (Reports k) cs)
        ⊎ Confirmed k cs
  unfolding run
  run_connected [] k s h = inl h
  run_connected (c ∷ cs) k s h = elim (run_connected cs k (after sha256_hex c s) h) [
    | inl connected ↦ elim (connected_step sha256_hex c k s connected) [
      | inl before ↦ inl before
      | inr (approved, reports) ↦ inr (inl (approved, here reports))
    ]
    | inr (inl (approved, reports)) ↦ elim (approved_step sha256_hex c k s approved) [
      | inl before ↦ inr (inl (before, there reports))
      | inr confirms ↦ inr (inr (confirm confirms reports))
    ]
    | inr (inr confirmed) ↦ inr (inr (later confirmed))
  ]

  -- From an empty store, whatever calls are answered in whatever order and at whatever times: a
  -- request is connected only if a local confirmation of this request was posted, and after it a
  -- report that it is connected.
  pub connected-Confirmed :
      (cs : List Call) (k : String) (r : ConnectionRequest)
      → lookup k (run sha256_hex cs new_store).items ≡ some r
      → r.status ≡ Status.connected
      → Confirmed k cs
  unfolding lookup
  connected-Confirmed cs k r found status = elim (run_connected cs k new_store (r, found, status)) [
    | inl (r, absent, _) ↦ cc
    | inr (inl ((r, absent, _), _)) ↦ cc
    | inr (inr confirmed) ↦ confirmed
  ]
