-- ===== src/Requests/Store.antt =====
-- The state of `InMemoryStore` and its operations on connection requests
-- (services/control-plane/internal/requests/store.go).
--
-- Every operation holds the store's lock from its first read to its last write, so a call is one
-- step. It takes the reading of the clock and what `rand.Read` gives as arguments, and returns its
-- result with the store that it leaves.
use enclout.Prelude.{
  ℕ, String, Bool, not, ◌&&◌, ◌||◌, Option, none, some, List, [], ◌∷◌, ◌==◌, ltb, is_positive,
  if◌then◌else◌,
}
use enclout.GoMap.{GoMap, lookup, insert, map_values}
use enclout.Requests.Model.{
  Status, status_eq, Time, add_duration, ConnectionRequest, CreateInput, InstallSession,
  zero_request, err_not_found, err_invalid_transition, err_expired, missing_required_fields,
  ttl_must_be_positive, Result, ok, fail, random_id,
}

pub record Store : Type 0 where
  pub items : GoMap ConnectionRequest
  pub install_sessions : GoMap InstallSession
  pub install_tokens : GoMap String

-- NewInMemoryStoreWithClock
abbrev pub new_store : Store
new_store = record { items = []; install_sessions = []; install_tokens = [] }

-- The bytes that one call of `rand.Read` gives, if it succeeds.
abbrev pub Draw : Type 0
Draw = Option (List ℕ)

-- s.items[id] = req
abbrev pub put_item : String → ConnectionRequest → Store → Store
put_item id req s = record s { items = insert id req s.items }

unfoldable pub expire_if_needed : Time → ConnectionRequest → ConnectionRequest
expire_if_needed now req =
    if ltb req.expires_at now
      && not (status_eq req.status Status.expired)
      && not (status_eq req.status Status.connected)
      && not (status_eq req.status Status.denied_local)
      && not (status_eq req.status Status.verification_failed)
    then record req { status = Status.expired }
    else req

abbrev pub new_request : Time → Draw → Draw → CreateInput → ConnectionRequest
new_request now id nonce in_ = record {
  id = random_id id;
  openclaw_user_id = in_.openclaw_user_id;
  device_id = in_.device_id;
  connector_id = in_.connector_id;
  source_channel = in_.source_channel;
  status = Status.pending_local_confirm;
  created_at = now;
  expires_at = add_duration now in_.ttl;
  nonce = random_id nonce;
  reason_code = "";
}

unfoldable pub create : Time → Draw → Draw → CreateInput → Store → Result ConnectionRequest × Store
create now id nonce in_ s =
    if in_.openclaw_user_id == "" || in_.device_id == "" || in_.connector_id == ""
    then (fail missing_required_fields zero_request, s)
    else if not (is_positive in_.ttl)
    then (fail ttl_must_be_positive zero_request, s)
    else let req = new_request now id nonce in_ in (ok req, put_item req.id req s)

unfoldable pub get : Time → String → Store → Result ConnectionRequest × Store
get now id s = elim (lookup id s.items) [
  | none ↦ (fail err_not_found zero_request, s)
  | some req ↦ let req' = expire_if_needed now req in (ok req', put_item id req' s)
]

-- `out = append(out, req)` for the entries of the map that pass the test
unfoldable pub pending_for : String → GoMap ConnectionRequest → List ConnectionRequest
pending_for device_id [] = []
pending_for device_id ((id, req) ∷ m) =
    let rest = pending_for device_id m in
    if req.device_id == device_id && status_eq req.status Status.pending_local_confirm
    then req ∷ rest
    else rest

-- The loop reads the clock once for each entry: `clock id` is the reading at the entry `id`.
unfoldable pub list_pending_for_device :
    (String → Time) → String → Store → List ConnectionRequest × Store
unfolding pending_for
list_pending_for_device clock device_id s =
    let items' = map_values (λ id req. expire_if_needed (clock id) req) s.items in
    (pending_for device_id items', record s { items = items' })

abbrev pub decided : Bool → ConnectionRequest → ConnectionRequest
decided approved req = record req {
  status = if approved then Status.approved else Status.denied_local;
}

unfoldable pub set_local_decision : Time → String → Bool → Store → Result ConnectionRequest × Store
set_local_decision now id approved s = elim (lookup id s.items) [
  | none ↦ (fail err_not_found zero_request, s)
  | some found ↦
      let req = expire_if_needed now found in
      if status_eq req.status Status.expired
      then (fail err_expired zero_request, put_item id req s)
      else if not (status_eq req.status Status.pending_local_confirm)
      then (fail err_invalid_transition zero_request, s)
      else (ok (decided approved req), put_item id (decided approved req) s)
]

abbrev pub with_result : Status → String → ConnectionRequest → ConnectionRequest
with_result status reason_code req = record req { status = status; reason_code = reason_code }

unfoldable pub set_result :
    Time → String → Status → String → Store → Result ConnectionRequest × Store
set_result now id status reason_code s = elim (lookup id s.items) [
  | none ↦ (fail err_not_found zero_request, s)
  | some found ↦
      let req = expire_if_needed now found in
      if status_eq req.status Status.expired
      then (fail err_expired zero_request, put_item id req s)
      else if not (status_eq req.status Status.approved)
      then (fail err_invalid_transition zero_request, s)
      else if not (status_eq status Status.connected)
          && not (status_eq status Status.verification_failed)
      then (fail err_invalid_transition zero_request, s)
      else (
        ok (with_result status reason_code req),
        put_item id (with_result status reason_code req) s,
      )
]
