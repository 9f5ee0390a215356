-- ===== src/Installer/Reports.antt =====
-- When an installation succeeds, and what is reported of it.
use Prim.Native.String.{◌∷◌}
use text.Mathlib.TextLemmas.{cons-append}
use enclout.Prelude.{
  ℕ, suc, String, Char, false, Option, none, some, List, ◌≡◌, ◌≢◌, ◌↔◌, refl, arith, eq_iff,
}
use enclout.Prelude.{subst}
use enclout.GoMap.{GoMap, insert}
use enclout.Installer.Checks.{
  IsComplete, validate_config-IsComplete, validate_config_of_IsComplete, IsFirst, first_of-IsFirst,
  first_of-IsFirst',
}
use enclout.Text.Trim.{trim_space, is_space, trim_space_idempotent, trim_space-cons}
use enclout.Verify.Types.{GoError, Answer, ok, err}
use enclout.Installer.{
  Session, Config, Host, Action, redeems, registers, starts, posts_result, get_env, first_of,
  default_identity_id, resolve_install_identity, validate_config, fail_install, env_with,
  service_of, when_started, when_registered, when_valid, when_redeemed, run,
}

first_of-filled : (a b c : String) → trim_space c ≢ "" → trim_space (first_of a b c) ≢ ""
first_of-filled a b c h = ground (
  arith,
  eq_iff (trim_space a) "",
  eq_iff (trim_space b) "",
  trim_space_idempotent a,
  trim_space_idempotent b,
)

default_identity_id-filled :
    (hostname : Option String) (c : Char) (p : String)
    → is_space c ≡ false
    → trim_space (default_identity_id hostname (c ∷ p)) ≢ ""
unfolding default_identity_id
default_identity_id-filled hostname c p solid = rw (cons-append c p _) (trim_space-cons c _ solid)

-- The identity that the installer registers is never blank: what the settings, the session and the
-- name of the host leave out is made up, so that the control plane does not refuse it as missing.
pub resolve_install_identity-filled :
    (hostname : Option String) (env : GoMap String) (session : Session)
    → (trim_space (resolve_install_identity hostname env session).0 ≢ "")
      × (trim_space (resolve_install_identity hostname env session).1 ≢ "")
unfolding resolve_install_identity is_space
resolve_install_identity-filled hostname env session = (
  first_of-filled (get_env env "CONNECTOR_ID") session.connector_id
      (default_identity_id hostname "conn") (default_identity_id-filled hostname "c" "onn" refl),
  first_of-filled (get_env env "DEVICE_ID") session.device_id (default_identity_id hostname "dev")
      (default_identity_id-filled hostname "d" "ev" refl),
)

-- How many results are posted.
unfoldable pub count_results : List Action → ℕ
count_results List.[] = 0
count_results (List.◌∷◌ (posts_result id status reason) l) = suc (count_results l)
count_results (List.◌∷◌ (redeems token) l) = count_results l
count_results (List.◌∷◌ (registers id connector device) l) = count_results l
count_results (List.◌∷◌ (starts cfg) l) = count_results l

module _ (h : Host) (cfg : Config) where
  -- The environment of the settings, with an identity.
  abbrev identified : String → String → GoMap String
  identified connector device = insert "DEVICE_ID" device (insert "CONNECTOR_ID" connector cfg.env)

  -- Every step has gone well, for the identity that the settings, the session and the name of the
  -- host give.
  pub record IsInstalled : Type 0 where
    pub session : Session
    pub redeemed : h.redeem_install_token cfg.install_token ≡ ok session
    pub connector : String
    pub connector_first :
        IsFirst
          (get_env cfg.env "CONNECTOR_ID")
          session.connector_id
          (default_identity_id h.hostname "conn")
          connector
    pub device : String
    pub device_first :
        IsFirst
          (get_env cfg.env "DEVICE_ID")
          session.device_id
          (default_identity_id h.hostname "dev")
          device
    pub complete : IsComplete cfg (identified connector device)
    pub registered : h.register_install_identity session.id connector device ≡ none
    pub started :
        h.install_and_start (record {
          label = cfg.label;
          agent_binary = cfg.agent_binary;
          plist_path = cfg.plist_path;
          env = identified connector device;
        })
        ≡ none
    pub reported : h.post_install_result session.id "installed" "" ≡ none

  when_started_once :
      (session : Session) (o : Option GoError) → count_results (when_started h cfg session o).1 ≡ 1
  unfolding count_results fail_install
  when_started_once session none = refl
  when_started_once session (some e) = refl

  when_registered_once :
      (session : Session) (env : GoMap String) (o : Option GoError)
      → count_results (when_registered h cfg session env o).1 ≡ 1
  unfolding count_results fail_install
  when_registered_once session env none = when_started_once session _
  when_registered_once session env (some e) = refl

  when_valid_once :
      (session : Session) (identity : String × String) (o : Option GoError)
      → count_results (when_valid h cfg session identity o).1 ≡ 1
  unfolding count_results fail_install
  when_valid_once session identity none = when_registered_once session (env_with h cfg identity) _
  when_valid_once session identity (some e) = refl

  -- Once the token is redeemed, the installer reports exactly one result of the session, whichever
  -- step fails.
  pub install_results_once :
      (session : Session)
      → h.redeem_install_token cfg.install_token ≡ ok session
      → count_results (run h cfg).1 ≡ 1
  unfolding run count_results
  install_results_once session redeemed =
      let identity = resolve_install_identity h.hostname cfg.env session in
      rw redeemed (
        when_valid_once session (resolve_install_identity h.hostname cfg.env session) (
          validate_config cfg
            (env_with h cfg (resolve_install_identity h.hostname cfg.env session))))

  started-success :
      (session : Session) (o : Option GoError)
      → (when_started h cfg session o).0 ≡ none
      → (o ≡ none) × (h.post_install_result session.id "installed" "" ≡ none)
  unfolding fail_install
  started-success session none e = (refl, e)
  started-success session (some cause) e = absurd (ground arith)

  registered-success :
      (session : Session) (env : GoMap String) (o : Option GoError)
      → (when_registered h cfg session env o).0 ≡ none
      → (o ≡ none)
        × (h.install_and_start (service_of h cfg env) ≡ none)
        × (h.post_install_result session.id "installed" "" ≡ none)
  unfolding fail_install
  registered-success session env none e =
      let (a, b) = started-success session (h.install_and_start (service_of h cfg env)) e in
      (refl, a, b)
  registered-success session env (some cause) e = absurd (ground arith)

  valid-success :
      (session : Session) (identity : String × String) (o : Option GoError)
      → (when_valid h cfg session identity o).0 ≡ none
      → (o ≡ none)
        × (h.register_install_identity session.id identity.0 identity.1 ≡ none)
        × (h.install_and_start (service_of h cfg (env_with h cfg identity)) ≡ none)
        × (h.post_install_result session.id "installed" "" ≡ none)
  unfolding fail_install
  valid-success session identity none e =
      let (a, b, c) =
        registered-success session (env_with h cfg identity)
          (h.register_install_identity session.id identity.0 identity.1) e in
      (refl, a, b, c)
  valid-success session identity (some cause) e = absurd (ground arith)

  redeemed-success :
      (a : Answer Session)
      → h.redeem_install_token cfg.install_token ≡ a
      → (when_redeemed h cfg a).0 ≡ none
      → IsInstalled
  unfolding resolve_install_identity
  redeemed-success (err cause) r e = absurd (ground arith)
  redeemed-success (ok session) r e =
      let (a, b, c, d) =
        valid-success session (resolve_install_identity h.hostname cfg.env session)
          (validate_config cfg
            (env_with h cfg (resolve_install_identity h.hostname cfg.env session)))
          e in
      record {
        session = session;
        redeemed = r;
        connector = (resolve_install_identity h.hostname cfg.env session).0;
        connector_first =
            first_of-IsFirst (get_env cfg.env "CONNECTOR_ID") session.connector_id
              (default_identity_id h.hostname "conn");
        device = (resolve_install_identity h.hostname cfg.env session).1;
        device_first =
            first_of-IsFirst (get_env cfg.env "DEVICE_ID") session.device_id
              (default_identity_id h.hostname "dev");
        complete =
            validate_config-IsComplete cfg
              (env_with h cfg (resolve_install_identity h.hostname cfg.env session)) a;
        registered = b;
        started = c;
        reported = d;
      }

  -- The steps with the identity that the code resolves.
  abbrev Passes : Session → String × String → Type 0
  Passes session identity =
      (validate_config cfg (env_with h cfg identity) ≡ none)
      × (h.register_install_identity session.id identity.0 identity.1 ≡ none)
      × (h.install_and_start (service_of h cfg (env_with h cfg identity)) ≡ none)

  installed-Passes :
      (i : IsInstalled) → Passes i.session (resolve_install_identity h.hostname cfg.env i.session)
  unfolding resolve_install_identity
  installed-Passes i =
      let c =
        first_of-IsFirst' (get_env cfg.env "CONNECTOR_ID") i.session.connector_id
          (default_identity_id h.hostname "conn") i.connector i.connector_first in
      let d =
        first_of-IsFirst' (get_env cfg.env "DEVICE_ID") i.session.device_id
          (default_identity_id h.hostname "dev") i.device i.device_first in
      subst (Passes i.session) (λ k. (c k, d k))
        (
          validate_config_of_IsComplete cfg (identified i.connector i.device) i.complete,
          i.registered,
          i.started,
        )

  -- `Run` returns no error exactly when the token is redeemed, the settings are complete, the
  -- identity is registered, the service is started with the environment of the settings in which
  -- CONNECTOR_ID and DEVICE_ID are this identity, and the control plane has taken the report that the
  -- agent is installed. Each part of the identity is that of the settings, or else that of the
  -- session, or else one that is made of the name of the host.
  pub install_run_iff : ((run h cfg).0 ≡ none) ↔ IsInstalled
  unfolding run
  install_run_iff = (
    λ e. redeemed-success (h.redeem_install_token cfg.install_token) refl e,
    λ i.
        let a = i.redeemed in
        let (b, c, d) = installed-Passes i in let r = i.reported in rw (a, b, c, d, r),
  )
