-- ===== src/Requests/Lifecycle/Moves.antt =====
-- The state machine of a connection request, and the operations as moves of it.
use mathlib.Core.Option
use enclout.Prelude.{
  String, Bool, true, false, some, ◌≡◌, refl, arith, ◌==◌, inl, inr, ltb, Bool-cases,
}
use enclout.GoMap.{lookup}
use enclout.Requests.Model.{Status, status_eq, Time, ConnectionRequest, random_id}
use enclout.Requests.Store.{Store, expire_if_needed, decided}
use enclout.Requests.Install.{
  create_install_session, get_install_session, set_install_identity, set_install_approval,
  set_install_result, redeem_install_token,
}
use enclout.Requests.Calls.{Call, creates, gets, lists, decides, results, after}
use enclout.Requests.Lifecycle.Effects.{
  expire-eq_of_live, at_key, decide_one, result_one, items-get, items-list,
  items-set_local_decision, items-set_result, items-create,
}

-- The moves between two readings of one request. `lapse` is the passing of the deadline, which
-- also ends a request whose status is none of the known ones.
pub data Move (t u : Status) : Type 0 where
  stay : u ≡ t → Move t u
  approve : t ≡ Status.pending_local_confirm → u ≡ Status.approved → Move t u
  deny : t ≡ Status.pending_local_confirm → u ≡ Status.denied_local → Move t u
  lapse : t ≡ Status.pending_local_confirm → u ≡ Status.expired → Move t u
  lapse_approved : t ≡ Status.approved → u ≡ Status.expired → Move t u
  lapse_other : (s : String) → t ≡ Status.other s → u ≡ Status.expired → Move t u
  connect : t ≡ Status.approved → u ≡ Status.connected → Move t u
  reject : t ≡ Status.approved → u ≡ Status.verification_failed → Move t u

ruleset moves = (stay, approve, deny, lapse, lapse_approved, lapse_other, connect, reject)

-- `r'` is a later reading of the request `r`: all that `create` fixed is as it was.
pub record Follows (r r' : ConnectionRequest) : Type 0 where
  pub id : r'.id ≡ r.id
  pub openclaw_user_id : r'.openclaw_user_id ≡ r.openclaw_user_id
  pub device_id : r'.device_id ≡ r.device_id
  pub connector_id : r'.connector_id ≡ r.connector_id
  pub source_channel : r'.source_channel ≡ r.source_channel
  pub created_at : r'.created_at ≡ r.created_at
  pub expires_at : r'.expires_at ≡ r.expires_at
  pub nonce : r'.nonce ≡ r.nonce
  pub move : Move r.status r'.status

expire_if_needed-Move :
    (now : Time) (r : ConnectionRequest) (t : Status)
    → r.status ≡ t
    → Move t (expire_if_needed now r).status
unfolding expire_if_needed
expire_if_needed-Move now r Status.pending_local_confirm e = grind (arith, stay, lapse)
expire_if_needed-Move now r Status.approved e = grind (arith, stay, lapse_approved)
expire_if_needed-Move now r (Status.other s) e = elim (Bool-cases (ltb r.expires_at now)) [
  | inl late ↦ lapse_other s refl (ground arith)
  | inr early ↦ stay (ground arith)
]
expire_if_needed-Move now r _ e = grind (arith, stay)

expire_if_needed-Follows : (now : Time) (r : ConnectionRequest) → Follows r (expire_if_needed now r)
unfolding expire_if_needed
expire_if_needed-Follows now r = record {
  id = ground arith;
  openclaw_user_id = ground arith;
  device_id = ground arith;
  connector_id = ground arith;
  source_channel = ground arith;
  created_at = ground arith;
  expires_at = ground arith;
  nonce = ground arith;
  move = expire_if_needed-Move now r r.status refl;
}

decided-Move :
    (approved : Bool) (r : ConnectionRequest)
    → r.status ≡ Status.pending_local_confirm
    → Move r.status (decided approved r).status
decided-Move true r e = approve e refl
decided-Move false r e = deny e refl

decide_one-Follows :
    (now : Time) (approved : Bool) (r : ConnectionRequest) → Follows r (decide_one now approved r)
decide_one-Follows now approved r =
    elim (Bool-cases (status_eq (expire_if_needed now r).status Status.pending_local_confirm)) [
      | inl pending ↦
          let same = expire-eq_of_live now r (ground arith) in
          rw (pending, same)
            (record {
              id = refl;
              openclaw_user_id = refl;
              device_id = refl;
              connector_id = refl;
              source_channel = refl;
              created_at = refl;
              expires_at = refl;
              nonce = refl;
              move = decided-Move approved r (ground (arith, same));
            })
      | inr settled ↦ rw settled (expire_if_needed-Follows now r)
    ]

Follows-refl : (r : ConnectionRequest) → Follows r r
Follows-refl r = record {
  id = refl;
  openclaw_user_id = refl;
  device_id = refl;
  connector_id = refl;
  source_channel = refl;
  created_at = refl;
  expires_at = refl;
  nonce = refl;
  move = stay refl;
}

reported-Move :
    (now : Time) (status : Status) (reason : String) (r : ConnectionRequest)
    → expire_if_needed now r ≡ r
    → r.status ≡ Status.approved
    → Move r.status (result_one now status reason r).status
reported-Move now Status.connected reason r same e = rw same (connect e (ground arith))
reported-Move now Status.verification_failed reason r same e = rw same (reject e (ground arith))
reported-Move now _ reason r same e = rw same (stay (ground arith))

reported-Follows :
    (now : Time) (status : Status) (reason : String) (r : ConnectionRequest)
    → expire_if_needed now r ≡ r
    → r.status ≡ Status.approved
    → Follows r (result_one now status reason r)
reported-Follows now status reason r same e = record {
  id = rw same (ground arith);
  openclaw_user_id = rw same (ground arith);
  device_id = rw same (ground arith);
  connector_id = rw same (ground arith);
  source_channel = rw same (ground arith);
  created_at = rw same (ground arith);
  expires_at = rw same (ground arith);
  nonce = rw same (ground arith);
  move = reported-Move now status reason r same e;
}

result_one-Follows :
    (now : Time) (status : Status) (reason : String) (r : ConnectionRequest)
    → Follows r (result_one now status reason r)
result_one-Follows now status reason r =
    elim (Bool-cases (status_eq (expire_if_needed now r).status Status.approved)) [
      | inl approved ↦
          let same = expire-eq_of_live now r (ground arith) in
          reported-Follows now status reason r same (ground (arith, same))
      | inr settled ↦ rw settled (expire_if_needed-Follows now r)
    ]

at_key-Follows :
    (id k : String) (f : ConnectionRequest → ConnectionRequest) (r : ConnectionRequest)
    → Follows r (f r)
    → Follows r (at_key id f k r)
at_key-Follows id k f r h = elim (Bool-cases (id == k)) [
  | inl here ↦ rw here h
  | inr there ↦ rw there (Follows-refl r)
]

-- What a call does to the request at the key `k`.
abbrev pub effect : Call → String → ConnectionRequest → ConnectionRequest
effect (gets now id) k r = at_key id (expire_if_needed now) k r
effect (lists clock device_id) k r = expire_if_needed (clock k) r
effect (decides now id approved) k r = at_key id (decide_one now approved) k r
effect (results now id status reason) k r = at_key id (result_one now status reason) k r
effect _ k r = r

effect-Follows : (c : Call) (k : String) (r : ConnectionRequest) → Follows r (effect c k r)
effect-Follows (gets now id) k r =
    at_key-Follows id k (expire_if_needed now) r (expire_if_needed-Follows now r)
effect-Follows (lists clock device_id) k r = expire_if_needed-Follows (clock k) r
effect-Follows (decides now id approved) k r =
    at_key-Follows id k (decide_one now approved) r (decide_one-Follows now approved r)
effect-Follows (results now id status reason) k r =
    at_key-Follows id k (result_one now status reason) r (result_one-Follows now status reason r)
effect-Follows _ k r = Follows-refl r

-- Whether the call is a `create` whose random identifier is `k`.
abbrev pub draws_id : Call → String → Bool
draws_id (creates now id salt in_) k = random_id id == k
draws_id _ k = false

module _ (sha256_hex : String → String) where
  -- The operations on install sessions leave the requests alone.
  pub items-after :
      (c : Call) (k : String) (s : Store)
      → draws_id c k ≡ false
      → lookup k (after sha256_hex c s).items ≡ Option.map (effect c k) (lookup k s.items)
  unfolding after create_install_session get_install_session set_install_identity
      set_install_approval set_install_result redeem_install_token
  items-after (creates now id salt in_) k s d = ground (arith, items-create now id salt in_ k s)
  items-after (gets now id) k s d = items-get now id k s
  items-after (lists clock device_id) k s d = items-list clock device_id k s
  items-after (decides now id approved) k s d = items-set_local_decision now id k approved s
  items-after (results now id status reason) k s d = items-set_result now id k status reason s
  items-after _ k s d = grind arith

  -- A call that does not draw the identifier of a stored request again leaves that request in the
  -- store, with all that its creation fixed, and moves its status along the state machine or not
  -- at all.
  pub after-Follows :
      (c : Call) (k : String) (s : Store) (r : ConnectionRequest)
      → lookup k s.items ≡ some r
      → draws_id c k ≡ false
      → (r' : ConnectionRequest) × (lookup k (after sha256_hex c s).items ≡ some r') × Follows r r'
  after-Follows c k s r e d = (effect c k r, rw (items-after c k s d, e) refl, effect-Follows c k r)
