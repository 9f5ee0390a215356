-- ===== src/Installer/Starting.antt =====
-- The service that the installer starts has what the agent needs to start.
use mathlib.Core.List.{Memᴰ}
use enclout.Prelude.{
  String, Option, none, some, ◌≡◌, ◌≢◌, refl, arith, inl, inr, Memᴰ-cases, ap, sym, subst,
}
use enclout.GoMap.{GoMap}
use enclout.Text.Trim.{trim_space}
use enclout.Verify.Types.{GoError, Answer, ok, err}
use enclout.AgentCommand.{Readers, load_trusted_signing_keys, load_settings, Settings}
use enclout.AgentCommand.Started.{load_settings_iff}
use enclout.Installer.Checks.{validate_config-IsComplete}
use enclout.Installer.{
  Session, Config, ServiceConfig, Host, starts, get_env, resolve_install_identity, validate_config,
  fail_install, env_with, service_of, when_started, when_registered, when_valid, when_redeemed, run,
}

trim_space-filled : (s : String) → trim_space s ≢ "" → s ≢ ""
unfolding trim_space
trim_space-filled s h e = h (ap trim_space e)

module _ (h : Host) (cfg : Config) where
  not_failing :
      (id reason : String) (e : GoError) (svc : ServiceConfig)
      → Memᴰ (starts svc) (fail_install h cfg id reason e).1
      → ⊥
  unfolding fail_install
  not_failing id reason e svc m = elim (Memᴰ-cases m) [
    | inl other ↦ absurd (ground arith)
    | inr later ↦ elim later [ ]
  ]

  when_started-starts :
      (session : Session) (o : Option GoError) (svc : ServiceConfig)
      → Memᴰ (starts svc) (when_started h cfg session o).1
      → ⊥
  when_started-starts session (some e) svc m = not_failing session.id _ e svc m
  when_started-starts session none svc m = elim (Memᴰ-cases m) [
    | inl other ↦ absurd (ground arith)
    | inr later ↦ elim later [ ]
  ]

  when_registered-starts :
      (session : Session) (env : GoMap String) (o : Option GoError) (svc : ServiceConfig)
      → Memᴰ (starts svc) (when_registered h cfg session env o).1
      → svc ≡ service_of h cfg env
  when_registered-starts session env (some e) svc m = absurd (not_failing session.id _ e svc m)
  when_registered-starts session env none svc m = elim (Memᴰ-cases m) [
    | inl same ↦ cc
    | inr later ↦ absurd (when_started-starts session _ svc later)
  ]

  when_valid-starts :
      (session : Session) (identity : String × String) (o : Option GoError) (svc : ServiceConfig)
      → Memᴰ (starts svc) (when_valid h cfg session identity o).1
      → (o ≡ none) × (svc ≡ service_of h cfg (env_with h cfg identity))
  when_valid-starts session identity (some e) svc m = absurd (not_failing session.id _ e svc m)
  when_valid-starts session identity none svc m = elim (Memᴰ-cases m) [
    | inl other ↦ absurd (ground arith)
    | inr later ↦ (refl, when_registered-starts session (env_with h cfg identity) _ svc later)
  ]

  when_redeemed-starts :
      (a : Answer Session) (svc : ServiceConfig)
      → Memᴰ (starts svc) (when_redeemed h cfg a).1
      → validate_config cfg svc.env ≡ none
  when_redeemed-starts (err e) svc m = elim m [ ]
  when_redeemed-starts (ok session) svc m =
      let identity = resolve_install_identity h.hostname cfg.env session in
      let (valid, same) =
        when_valid-starts session (resolve_install_identity h.hostname cfg.env session)
          (validate_config cfg
            (env_with h cfg (resolve_install_identity h.hostname cfg.env session)))
          svc m in
      subst (λ s. validate_config cfg s.env ≡ none) (sym same) valid

  -- The agent that the installer starts as a service loads its settings, whatever identity the
  -- installer has resolved, as soon as the setting of its trusted signing keys can be read: the
  -- installer does not look at this setting.
  pub started_agent-loads :
      (svc : ServiceConfig) (readers : Readers) (keys : GoMap String)
      → Memᴰ (starts svc) (run h cfg).1
      → load_trusted_signing_keys readers (get_env svc.env) ≡ ok keys
      → (settings : Settings) × (load_settings readers (get_env svc.env) ≡ ok settings)
  unfolding run
  started_agent-loads svc readers keys m read = elim (Memᴰ-cases m) [
    | inl other ↦ absurd (ground arith)
    | inr later ↦
        let valid =
          validate_config-IsComplete cfg svc.env
            (when_redeemed-starts (h.redeem_install_token cfg.install_token) svc later) in
        (load_settings_iff readers (get_env svc.env)).1 (
          keys,
          record {
            control_plane_url =
                trim_space-filled (get_env svc.env "CONTROL_PLANE_URL") valid.control_plane_url;
            device_id = trim_space-filled (get_env svc.env "DEVICE_ID") valid.device_id;
            local_user = trim_space-filled (get_env svc.env "LOCAL_USERNAME") valid.local_user;
            signing_keys = read;
            dcap_url = valid.dcap_url;
          },
        )
  ]
