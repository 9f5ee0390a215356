-- ===== src/Requests/Lifecycle/Deadline.antt =====
-- When the store accepts a decision or a result, and what a device is shown: the deadline and the
-- status decide, on every branch.
use enclout.Prelude.{String, Bool, true, false, none, some, ◌≡◌, ◌↔◌, ◌⊎◌, ◌≤◌, ◌<◌, arith}
use enclout.GoMap.{lookup}
use enclout.Requests.Model.{Status, Time, ConnectionRequest, err_expired, error_of}
use enclout.Requests.Store.{Store, expire_if_needed, set_local_decision, set_result}

-- The statuses that the passing of the deadline ends: all but the four final ones.
abbrev pub is_open : Status → Bool
is_open Status.denied_local = false
is_open Status.expired = false
is_open Status.verification_failed = false
is_open Status.connected = false
is_open _ = true

-- The request has expired, or expires when it is next looked at.
abbrev pub IsLapsed : Time → ConnectionRequest → Type 0
IsLapsed now r = (r.status ≡ Status.expired) ⊎ ((r.expires_at < now) × (is_open r.status ≡ true))

module _ (now : Time) (id : String) (s : Store) (r : ConnectionRequest)
    (found : lookup id s.items ≡ some r) where
  -- A local decision on a stored request is accepted exactly when the request is pending and its
  -- deadline has not passed; it is refused as expired exactly when the request has lapsed.
  pub decision_replies :
      (approved : Bool)
      → let reply = error_of (set_local_decision now id approved s).0 in
        ((reply ≡ none) ↔ ((r.status ≡ Status.pending_local_confirm) × (now ≤ r.expires_at)))
        × ((reply ≡ some err_expired) ↔ IsLapsed now r)
  unfolding set_local_decision expire_if_needed
  decision_replies approved =
      ((λ h. ground arith, λ h. ground arith), (λ h. ground arith, λ h. ground arith))

  -- A result for a stored request is accepted exactly when it is one of the two final ones, the
  -- request is approved and its deadline has not passed; it is refused as expired exactly when the
  -- request has lapsed.
  pub result_replies :
      (status : Status) (reason : String)
      → let reply = error_of (set_result now id status reason s).0 in
        ((reply ≡ none) ↔ (
          (r.status ≡ Status.approved)
          × (now ≤ r.expires_at)
          × ((status ≡ Status.connected) ⊎ (status ≡ Status.verification_failed))))
        × ((reply ≡ some err_expired) ↔ IsLapsed now r)
  unfolding set_result expire_if_needed
  result_replies status reason =
      ((λ h. ground arith, λ h. ground arith), (λ h. ground arith, λ h. ground arith))
