-- ===== src/Requests/Lifecycle/Pending.antt =====
-- What a device is shown: exactly its pending requests that are in time.
use mathlib.Core.List.{Memᴰ}
use enclout.Prelude.{
  String, Bool, true, false, if◌then◌else◌, subst, refl, List, [], ◌∷◌, ◌&&◌, ◌≡◌, ◌∙◌, ◌↔◌, ◌≤◌,
  inl, inr, arith, ap, ◌==◌, eq_iff, Bool-cases, Memᴰ-cases,
}
use enclout.GoMap.{GoMap, map_values}
use enclout.Requests.Model.{Status, status_eq, Time, ConnectionRequest}
use enclout.Requests.Store.{Store, expire_if_needed, pending_for, list_pending_for_device}

Memᴰ-if {ℓ} :
    {A : Type ℓ} (b : Bool) (x : A) {a : A} {l : List A}
    → Memᴰ a l
    → Memᴰ a (if b then x ∷ l else l)
Memᴰ-if true x h = Memᴰ.tail h
Memᴰ-if false x h = h

module _ (clock : String → Time) (device_id : String) where
  -- The request `r` is stored at `k`, for this device, pending, and in time when it is looked at.
  pub record IsDue (m : GoMap ConnectionRequest) (k : String) (r : ConnectionRequest) : Type 0 where
    pub stored : Memᴰ (k, r) m
    pub device : r.device_id ≡ device_id
    pub pending : r.status ≡ Status.pending_local_confirm
    pub in_time : clock k ≤ r.expires_at

  abbrev shown : GoMap ConnectionRequest → List ConnectionRequest
  shown m = pending_for device_id (map_values (λ id req. expire_if_needed (clock id) req) m)

  IsDue-cons :
      {m : GoMap ConnectionRequest} {k : String} {r : ConnectionRequest}
      (p : String × ConnectionRequest)
      → IsDue m k r
      → IsDue (p ∷ m) k r
  IsDue-cons p d = record {
    stored = Memᴰ.tail d.stored;
    device = d.device;
    pending = d.pending;
    in_time = d.in_time;
  }

  -- A request is due after the look at its deadline exactly when it was before.
  abbrev passes : String → ConnectionRequest → Bool
  passes k r =
      let req = expire_if_needed (clock k) r in
      req.device_id == device_id && status_eq req.status Status.pending_local_confirm

  passes_sound :
      (k : String) (r : ConnectionRequest)
      → passes k r ≡ true
      → (expire_if_needed (clock k) r ≡ r)
        × (r.device_id ≡ device_id)
        × (r.status ≡ Status.pending_local_confirm)
        × (clock k ≤ r.expires_at)
  unfolding expire_if_needed
  passes_sound k r h = ground (arith, eq_iff r.device_id device_id)

  passes_complete :
      (k : String) (r : ConnectionRequest)
      → r.device_id ≡ device_id
      → r.status ≡ Status.pending_local_confirm
      → clock k ≤ r.expires_at
      → passes k r ≡ true
  unfolding expire_if_needed
  passes_complete k r device pending in_time = ground (arith, eq_iff r.device_id device_id)

  shown_sound :
      (m : GoMap ConnectionRequest) (r : ConnectionRequest)
      → Memᴰ r (shown m)
      → (k : String) × IsDue m k r
  unfolding pending_for map_values
  shown_sound [] r h = elim h [ ]
  shown_sound ((k, q) ∷ m) r h = elim (Bool-cases (passes k q)) [
    | inl fits ↦ elim (Memᴰ-cases (rw fits at h)) [
      | inl same ↦
          let (kept, device, pending, in_time) = passes_sound k q fits in
          (
            k,
            record {
              stored = Memᴰ.head (ap (λ x. (k, x)) (same ∙ kept));
              device = ap (λ x. x.device_id) (same ∙ kept) ∙ device;
              pending = ap (λ x. x.status) (same ∙ kept) ∙ pending;
              in_time = rw (same ∙ kept) in_time;
            },
          )
      | inr rest ↦ let (j, d) = shown_sound m r rest in (j, IsDue-cons (k, q) d)
    ]
    | inr hidden ↦ let (j, d) = shown_sound m r (rw hidden at h) in (j, IsDue-cons (k, q) d)
  ]

  shown_head :
      (m : GoMap ConnectionRequest) (k : String) (r : ConnectionRequest)
      → IsDue ((k, r) ∷ m) k r
      → Memᴰ r (shown ((k, r) ∷ m))
  unfolding pending_for map_values expire_if_needed
  shown_head m k r d =
      rw (passes_complete k r d.device d.pending d.in_time) (Memᴰ.head (ground (arith, d.in_time)))

  shown_complete :
      (m : GoMap ConnectionRequest) (k : String) (r : ConnectionRequest)
      → IsDue m k r
      → Memᴰ r (shown m)
  unfolding pending_for map_values
  shown_complete [] k r d = elim d.stored [ ]
  shown_complete ((j, q) ∷ m) k r d = elim (Memᴰ-cases d.stored) [
    | inl same ↦
        subst (λ p. Memᴰ r (shown (p ∷ m))) same
          (shown_head m k r (record {
            stored = Memᴰ.head refl;
            device = d.device;
            pending = d.pending;
            in_time = d.in_time;
          }))
    | inr rest ↦ Memᴰ-if (passes j q) _ (
        shown_complete m k r
          (record { stored = rest; device = d.device; pending = d.pending; in_time = d.in_time }))
  ]

  -- A device is shown exactly the stored requests for it that are pending and whose deadline has
  -- not passed when the loop reaches them.
  pub pending_exact :
      (s : Store) (r : ConnectionRequest)
      → Memᴰ r (list_pending_for_device clock device_id s).0 ↔ ((k : String) × IsDue s.items k r)
  unfolding list_pending_for_device
  pending_exact s r = (shown_sound s.items r, λ (k, d). shown_complete s.items k r d)
