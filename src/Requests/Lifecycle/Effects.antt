-- ===== src/Requests/Lifecycle/Effects.antt =====
-- What each operation does to the request at a key, whatever else the store holds.
use mathlib.Core.Option
use enclout.Prelude.{
  String, Bool, false, not, ◌&&◌, ◌||◌, some, ◌≡◌, arith, ◌==◌, is_positive, eq_iff, inl, inr,
  Option-cases, if◌then◌else◌,
}
use enclout.GoMap.{lookup}
use enclout.GoMap.Laws.{lookup-insert, lookup-map_values}
use enclout.Requests.Model.{Status, status_eq, Time, ConnectionRequest, CreateInput, random_id}
use enclout.Requests.Store.{
  Store, Draw, expire_if_needed, decided, with_result, new_request, create, get,
  list_pending_for_device, set_local_decision, set_result,
}

-- A pending request is decided, once its deadline has been looked at.
abbrev pub decide_one : Time → Bool → ConnectionRequest → ConnectionRequest
decide_one now approved found =
    let req = expire_if_needed now found in
    if status_eq req.status Status.pending_local_confirm then decided approved req else req

abbrev pub result_one : Time → Status → String → ConnectionRequest → ConnectionRequest
result_one now status reason found =
    let req = expire_if_needed now found in
    if status_eq req.status Status.approved
      && (status_eq status Status.connected || status_eq status Status.verification_failed)
    then with_result status reason req
    else req

-- A change of the request at one key.
abbrev pub at_key {ℓ} : {A : Type ℓ} → String → (A → A) → String → A → A
at_key id f k r = if id == k then f r else r

-- Looking at the deadline changes a request only to `expired`.
pub expire-eq_of_live :
    (now : Time) (req : ConnectionRequest)
    → status_eq (expire_if_needed now req).status Status.expired ≡ false
    → expire_if_needed now req ≡ req
unfolding expire_if_needed
expire-eq_of_live now req h = ground arith

pub items-get :
    (now : Time) (id k : String) (s : Store)
    → lookup k (get now id s).1.items
      ≡ Option.map (at_key id (expire_if_needed now) k) (lookup k s.items)
unfolding get
items-get now id k s = grind (arith, lookup-insert, eq_iff)

pub items-list :
    (clock : String → Time) (device_id k : String) (s : Store)
    → lookup k (list_pending_for_device clock device_id s).1.items
      ≡ Option.map (expire_if_needed (clock k)) (lookup k s.items)
unfolding list_pending_for_device
items-list clock device_id k s = lookup-map_values _ k s.items

pub items-set_local_decision :
    (now : Time) (id k : String) (approved : Bool) (s : Store)
    → lookup k (set_local_decision now id approved s).1.items
      ≡ Option.map (at_key id (decide_one now approved) k) (lookup k s.items)
unfolding set_local_decision
items-set_local_decision now id k approved s =
    grind (arith, lookup-insert, eq_iff, expire-eq_of_live)

pub items-set_result :
    (now : Time) (id k : String) (status : Status) (reason : String) (s : Store)
    → lookup k (set_result now id status reason s).1.items
      ≡ Option.map (at_key id (result_one now status reason) k) (lookup k s.items)
unfolding set_result
items-set_result now id k status reason s = elim (Option-cases (lookup id s.items)) [
  | inl missing ↦ grind (arith, eq_iff)
  | inr (found, e) ↦ grind (arith, lookup-insert, eq_iff, expire-eq_of_live)
]

-- Whether `create` accepts its input.
abbrev pub accepts : CreateInput → Bool
accepts in_ =
    not (in_.openclaw_user_id == "" || in_.device_id == "" || in_.connector_id == "")
    && is_positive in_.ttl

pub items-create :
    (now : Time) (id salt : Draw) (in_ : CreateInput) (k : String) (s : Store)
    → lookup k (create now id salt in_ s).1.items ≡ (
        if accepts in_ && (random_id id == k)
        then some (new_request now id salt in_)
        else lookup k s.items)
unfolding create
items-create now id salt in_ k s = grind (arith, lookup-insert)
