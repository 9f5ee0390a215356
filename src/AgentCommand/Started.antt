-- ===== src/AgentCommand/Started.antt =====
-- When the agent starts, and what its settings are.
use mathlib.Core.List.{Memᴰ}
use enclout.Prelude.{
  String, some, List, [], ◌∷◌, ◌++◌, map, ◌⊎◌, ◌≡◌, ◌≢◌, ◌↔◌, refl, arith, ◌==◌, eq_iff, inl, inr,
  Bool-cases, sym, ◌∙◌, ap, subst,
}
use enclout.GoMap.{GoMap}
use enclout.Text.Trim.{trim_space}
use enclout.Requests.Model.{Time}
use enclout.Verify.Types.{bind_ok, value_or, ok, Crypto}
use enclout.Flow.{Request, Run, installs}
use enclout.Flow.Attested.{IsAuthorised, installs-IsAuthorised}
use enclout.AgentCommand.{
  Readers, Getenv, Settings, DcapVerifier, must_env, split_csv, load_trusted_signing_keys, dcap_of,
  new_http_dcap_verifier, load_settings,
}
use enclout.AgentCommand.Polling.{PendingRequest, World, Event, processed, poll_loop, agent_of}
use enclout.AgentCommand.Durations.{parse_duration_or_default}
use enclout.AgentCommand.Runs.{Polled, polled_with, fetch_of, processed-IsRun}
use enclout.Trust.{Fetch, default_keyset_cache_ttl}

module _ (readers : Readers) (getenv : Getenv) where
  -- The agent has what it needs to start, with these signing keys.
  pub record IsComplete (keys : GoMap String) : Type 0 where
    pub control_plane_url : getenv "CONTROL_PLANE_URL" ≢ ""
    pub device_id : getenv "DEVICE_ID" ≢ ""
    pub local_user : getenv "LOCAL_USERNAME" ≢ ""
    pub signing_keys : load_trusted_signing_keys readers getenv ≡ ok keys
    pub dcap_url : trim_space (getenv "DCAP_VERIFIER_URL") ≢ ""

  -- The settings that come from the environment as it is.
  pub record IsRead (settings : Settings) : Type 0 where
    pub local_user : settings.local_user ≡ getenv "LOCAL_USERNAME"
    pub allow_mrtd : settings.allow_mrtd ≡ split_csv (getenv "ALLOW_MRTD")
    pub allow_rtmr3 : settings.allow_rtmr3 ≡ split_csv (getenv "ALLOW_RTMR3")
    pub keyset_cache_ttl :
        settings.keyset_cache_ttl
        ≡ parse_duration_or_default readers.parse_duration
            (getenv "SIGNING_KEYSET_CACHE_TTL")
            default_keyset_cache_ttl
    pub complete : IsComplete settings.signing_keys

  must_env_iff :
      (name v : String) → (must_env getenv name ≡ ok v) ↔ ((getenv name ≢ "") × (v ≡ getenv name))
  unfolding must_env
  must_env_iff name v = ground (arith, eq_iff (getenv name) "")

  dcap_of-filled :
      (url : String) (dcap : DcapVerifier)
      → dcap_of readers getenv url ≡ ok dcap
      → trim_space url ≢ ""
  unfolding new_http_dcap_verifier
  dcap_of-filled url dcap h = ground (arith, eq_iff (trim_space url) "")

  pub load_settings-IsRead :
      (settings : Settings) → load_settings readers getenv ≡ ok settings → IsRead settings
  unfolding load_settings
  load_settings-IsRead settings h =
      let (url, e1, h1) = bind_ok (must_env getenv "CONTROL_PLANE_URL") _ settings h in
      let (device, e2, h2) = bind_ok (must_env getenv "DEVICE_ID") _ settings h1 in
      let (user, e3, h3) = bind_ok (must_env getenv "LOCAL_USERNAME") _ settings h2 in
      let (keys, e4, h4) = bind_ok (load_trusted_signing_keys readers getenv) _ settings h3 in
      let (dcap_url, e5, h5) = bind_ok (must_env getenv "DCAP_VERIFIER_URL") _ settings h4 in
      let (dcap, e6, h6) = bind_ok (dcap_of readers getenv dcap_url) _ settings h5 in
      let (f1, v1) = (must_env_iff "CONTROL_PLANE_URL" url).0 e1 in
      let (f2, v2) = (must_env_iff "DEVICE_ID" device).0 e2 in
      let (f3, v3) = (must_env_iff "LOCAL_USERNAME" user).0 e3 in
      let (f5, v5) = (must_env_iff "DCAP_VERIFIER_URL" dcap_url).0 e5 in
      let filled = dcap_of-filled dcap_url dcap e6 in
      record {
        local_user = ap (λ a. (value_or settings a).local_user) (sym h6) ∙ v3;
        allow_mrtd = ap (λ a. (value_or settings a).allow_mrtd) (sym h6);
        allow_rtmr3 = ap (λ a. (value_or settings a).allow_rtmr3) (sym h6);
        keyset_cache_ttl = ap (λ a. (value_or settings a).keyset_cache_ttl) (sym h6);
        complete = record {
          control_plane_url = f1;
          device_id = f2;
          local_user = f3;
          signing_keys = e4 ∙ ap (λ a. ok (value_or settings a).signing_keys) h6;
          dcap_url = subst (λ u. trim_space u ≢ "") v5 filled;
        };
      }

  dcap_of_filled :
      (url : String)
      → trim_space url ≢ ""
      → (dcap : DcapVerifier) × (dcap_of readers getenv url ≡ ok dcap)
  unfolding new_http_dcap_verifier
  dcap_of_filled url h = elim (Bool-cases (trim_space url == "")) [
    | inl blank ↦ absurd (h ((eq_iff (trim_space url) "").0 blank))
    | inr filled ↦ rw filled (_, refl)
  ]

  load_settings_complete :
      (keys : GoMap String)
      → IsComplete keys
      → (settings : Settings) × (load_settings readers getenv ≡ ok settings)
  unfolding load_settings trim_space
  load_settings_complete keys c =
      let e1 = (must_env_iff "CONTROL_PLANE_URL" _).1 (c.control_plane_url, refl) in
      let e2 = (must_env_iff "DEVICE_ID" _).1 (c.device_id, refl) in
      let e3 = (must_env_iff "LOCAL_USERNAME" _).1 (c.local_user, refl) in
      let e4 = c.signing_keys in
      let e5 =
        (must_env_iff "DCAP_VERIFIER_URL" (getenv "DCAP_VERIFIER_URL")).1
          (λ e. c.dcap_url (ap trim_space e), refl) in
      let (dcap, e6) = dcap_of_filled (getenv "DCAP_VERIFIER_URL") c.dcap_url in
      rw (e1, e2, e3, e4, e5, e6) (_, refl)

  -- The agent starts exactly when the four variables it needs are set, the address of the DCAP
  -- verifier is more than white space, and the setting of the trusted signing keys can be read.
  pub load_settings_iff :
      ((settings : Settings) × (load_settings readers getenv ≡ ok settings))
      ↔ ((keys : GoMap String) × IsComplete keys)
  load_settings_iff = (
    λ (settings, h). (settings.signing_keys, (load_settings-IsRead settings h).complete),
    λ (keys, c). load_settings_complete keys c,
  )

-- What stands behind a key that the process installs: the request is one that a poll has answered, and
-- all that an agent asks for holds of the agent with the settings of the environment, in the world of
-- this very request and after calls of the keyset source that runs of earlier requests have made.
pub record IsBacked (readers : Readers) (getenv : Getenv) (crypto : Crypto) (started : Time)
    (events : List Event) (req : Request) (key : String) : Type 0 where
  pub pending : PendingRequest
  pub world : World
  pub earlier : List Polled
  pub later : List Polled
  pub order : polled_with events ≡ earlier ++ ((pending, world) ∷ later)
  pub request : req ≡ record {
    id = pending.id;
    connector_id = pending.connector_id;
    local_user = getenv "LOCAL_USERNAME";
  }
  pub past : List Fetch
  pub history : (f : Fetch) → Memᴰ f past → Memᴰ f (map fetch_of earlier)
  pub keys : GoMap String
  pub at_start : load_trusted_signing_keys readers getenv ≡ ok keys
  pub authorised :
      IsAuthorised
        (record {
          crypto = crypto;
          prompter = world.prompter;
          mrtd = split_csv (getenv "ALLOW_MRTD");
          rtmr3 = split_csv (getenv "ALLOW_RTMR3");
          dcap_service = world.dcap_service;
          bootstrap = keys;
          ttl =
              parse_duration_or_default readers.parse_duration
                (getenv "SIGNING_KEYSET_CACHE_TTL")
                default_keyset_cache_ttl;
          started = started;
          past = past;
          now = world.now;
          fetch = some world.fetch;
          post_local_decision = world.post_local_decision;
          get_attestation_bundle = world.get_attestation_bundle;
          post_result = world.post_result;
          install = world.install;
        })
        req
        key

from_start :
    (l : List Polled) (f : Fetch) → Memᴰ f [] ⊎ Memᴰ f (map fetch_of l) → Memᴰ f (map fetch_of l)
from_start l f (inl h) = elim h [ ]
from_start l f (inr h) = h

-- Whatever the agent's polls and all other parts answer: a key that it tries to install is for the
-- user that LOCAL_USERNAME names and for a request that a poll answered before the agent stopped.
-- What the world answers to this very request makes the installation authorised, for the
-- measurements that ALLOW_MRTD and ALLOW_RTMR3 list, the signing keys and the time to live that the
-- environment sets, and the keysets that were fetched for requests before it.
pub installed-IsBacked :
    (readers : Readers) (getenv : Getenv) (crypto : Crypto) (settings : Settings) (started : Time)
    (events : List Event) (req : Request) (run : Run) (user key : String)
    → load_settings readers getenv ≡ ok settings
    → Memᴰ (processed req run) (poll_loop crypto settings started events [])
    → Memᴰ (installs user key) run.1
    → (user ≡ getenv "LOCAL_USERNAME") × IsBacked readers getenv crypto started events req key
installed-IsBacked readers getenv crypto settings started events req run user key loaded made
      calls =
    let read = load_settings-IsRead readers getenv settings loaded in
    let r = processed-IsRun crypto settings started events [] req run made in
    let (local, authorised) =
      installs-IsAuthorised (agent_of crypto settings started r.past r.world) req user key
        (subst (λ x. Memᴰ (installs user key) x.1) r.outcome calls) in
    (
      local ∙ ap (λ q. q.local_user) r.request ∙ read.local_user,
      record {
        pending = r.pending;
        world = r.world;
        earlier = r.earlier;
        later = r.later;
        order = r.order;
        request = r.request ∙ (λ i. record {
          id = r.pending.id;
          connector_id = r.pending.connector_id;
          local_user = read.local_user i;
        });
        past = r.past;
        history = λ f h. from_start r.earlier f (r.history f h);
        keys = settings.signing_keys;
        at_start = read.complete.signing_keys;
        authorised =
            subst (λ a. IsAuthorised a req key)
              (λ i. record (agent_of crypto settings started r.past r.world) {
                mrtd = read.allow_mrtd i;
                rtmr3 = read.allow_rtmr3 i;
                ttl = read.keyset_cache_ttl i;
              })
              authorised;
      },
    )
