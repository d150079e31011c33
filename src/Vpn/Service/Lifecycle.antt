-- ===== src/Vpn/Service/Lifecycle.antt =====
-- src/coda_node/vpn/service.py: `connect_settings` and `ensure_persisted_vpn`.
use coda_self_service.Prelude.{ℕ, not, Option, none, List, if◌then◌else◌}
use coda_self_service.Prelude.Int.{ℤ}
use coda_self_service.Prelude.Text.{is_blank}
use coda_self_service.Effects.{
  Exc, node_error, is_exception, Action, pure, throw, gets, try, ◌>>=◌, ◌>>◌, when,
}
use coda_self_service.Vpn.Service.State.{NodeBundle, loaded_executor, World, Env, call}
use coda_self_service.Vpn.Service.Connect.{
  resolve_machine_fingerprint, fetch_node_bundle, fetch_reconnect_bundle,
}
use coda_self_service.Vpn.Service.Daemon.{persist_runtime_config, kill_openvpn_daemon, detect}
use coda_self_service.Vpn.Service.Bundle.{bring_up, apply_node_bundle}

module _ (env : Env) (rounds : ℕ) where
  -- `_connectivity_payload_for_connect`
  unfoldable pub connectivity_payload : Action World (Option (List (List ℤ)))
  connectivity_payload =
      try (call env.connectivity loaded_executor) λ e. if is_exception e then pure none else throw e

  -- `ensure_persisted_vpn`
  unfoldable pub ensure_persisted_vpn : Action World (Unit {0})
  ensure_persisted_vpn = do
    configured ← gets (λ s. env.path_exists s.now env.config_path)
    settings ← gets (λ s. s.settings)
    if not configured then pure tt else if not settings.node_auto_vpn then pure tt else do
      has_profile ← gets (λ s. env.path_exists s.now settings.node_vpn_profile_path)
      if not has_profile
          then when settings.vpn_required (
              throw (
                node_error
                  "Persisted VPN profile not found. Re-run node provisioning with a new token."))
          else (do
            iface ← detect env settings.vpn_interface_hint
            bring_up env rounds iface settings)

  unfoldable pub fetch_bundle : Action World NodeBundle
  fetch_bundle = do
    settings ← gets (λ s. s.settings)
    if is_blank settings.node_token
        then (do ensure_persisted_vpn; fetch_reconnect_bundle env)
        else fetch_node_bundle env

  -- `except Exception`
  unfoldable pub clean_up : Exc → Action World (Unit {0})
  clean_up e =
      if is_exception e
      then (do
        settings ← gets (λ s. s.settings)
        when (not (is_blank settings.node_token)) (do kill_openvpn_daemon env; pure tt)
        throw e)
      else throw e

  -- `connect_settings`
  unfoldable pub connect_settings : Action World (Unit {0})
  connect_settings = do
    resolve_machine_fingerprint env
    connectivity_payload
    bundle ← fetch_bundle
    try (do apply_node_bundle env rounds bundle; persist_runtime_config env) clean_up
