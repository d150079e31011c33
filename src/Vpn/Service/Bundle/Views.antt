-- ===== src/Vpn/Service/Bundle/Views.antt =====
-- src/coda_node/vpn/service.py: nothing that the VPN part of a bundle does touches the credentials.
use coda_self_service.Prelude.{refl, ℕ, zero, suc, String, Option, none, some}
use coda_self_service.Config.{Settings}
use coda_self_service.Effects.{
  Exc, permission_error, process_lookup_error, timeout_expired, value_error, Result, Action, pure,
  modify,
}
use coda_self_service.Effects.Rules.{
  Keeps, Keeps-pure, Keeps-pure_tt, Keeps-throw, Keeps-gets, Keeps-if, Keeps-bind, keeps_rules,
}
use coda_self_service.Vpn.Interfaces.Views.{detect_tun_interface-view}
use coda_self_service.Values.{Dict}
use coda_self_service.Vpn.Service.State.{Event, World, Env, call, update}
use coda_self_service.Vpn.Service.Daemon.{
  write_secure_text, write_vpn_profile, start_with, start_openvpn, read_openvpn_log_tail,
  unlink_pid, signal_daemon, kill_failed, kill_openvpn_daemon, detect, give_up, poll_tunnel,
  wait_for_tunnel, openvpn_binary,
}
use coda_self_service.Vpn.Service.Bundle.{apply_vpn_settings, apply_profile, apply_vpn, bring_up}

-- the settings that a node needs to take jobs
pub record Credentials : Type 0 where
  pub qpu_id : String
  pub native_gate_set : String
  pub jwt_private_key : String
  pub jwt_key_id : String
  pub redis_url : String
  pub webapp_url : String

abbrev pub credentials : World → Credentials
credentials s = record {
  qpu_id = s.settings.qpu_id;
  native_gate_set = s.settings.native_gate_set;
  jwt_private_key = s.settings.jwt_private_key;
  jwt_key_id = s.settings.jwt_key_id;
  redis_url = s.settings.redis_url;
  webapp_url = s.settings.webapp_url;
}

Keeps-call : {A : Type 0} (ask : ℕ → Result A) (note : Event) → Keeps credentials (call ask note)
unfolding call
Keeps-call ask note = record { at = λ s. refl }

module _ (env : Env) where
  write_secure_text-view :
      (path content : String) → Keeps credentials (write_secure_text env path content)
  unfolding write_secure_text
  write_secure_text-view path content = search (keeps_rules, Keeps-call) depth 14

  write_vpn_profile-view :
      (path profile : String) → Keeps credentials (write_vpn_profile env path profile)
  unfolding write_vpn_profile
  write_vpn_profile-view path profile =
      search (keeps_rules, Keeps-call, write_secure_text-view) depth 14

  start_with-view :
      (path : String) (binary : Option String) → Keeps credentials (start_with env path binary)
  unfolding start_with
  start_with-view path none = search keeps_rules depth 14
  start_with-view path (some binary) = search (keeps_rules, Keeps-call) depth 14

  start_openvpn-view : (path : String) → Keeps credentials (start_openvpn env path)
  unfolding start_openvpn openvpn_binary
  start_openvpn-view path = search (keeps_rules, start_with-view) depth 14

  detect-view : (hint : Option String) → Keeps credentials (detect env hint)
  unfolding detect
  detect-view hint = detect_tun_interface-view _ _ _ (λ c. Keeps-call _ _) _

  read_openvpn_log_tail-view : (n : ℕ) → Keeps credentials (read_openvpn_log_tail env n)
  unfolding read_openvpn_log_tail
  read_openvpn_log_tail-view n = search (keeps_rules, Keeps-call) depth 14

  kill_failed-view : (e : Exc) → Keeps credentials (kill_failed env e)
  unfolding unlink_pid
  kill_failed-view permission_error = search (keeps_rules, Keeps-call) depth 14
  kill_failed-view process_lookup_error = search (keeps_rules, Keeps-call) depth 14
  kill_failed-view (value_error _) = search (keeps_rules, Keeps-call) depth 14
  kill_failed-view timeout_expired = search (keeps_rules, Keeps-call) depth 14
  kill_failed-view e = Keeps-throw e

  kill_openvpn_daemon-view : Keeps credentials (kill_openvpn_daemon env)
  unfolding kill_openvpn_daemon signal_daemon unlink_pid
  kill_openvpn_daemon-view = search (keeps_rules, Keeps-call, kill_failed-view) depth 20

  give_up-view : Keeps credentials (give_up env)
  unfolding give_up
  give_up-view = search (keeps_rules, read_openvpn_log_tail-view, kill_openvpn_daemon-view) depth 14

  found-view :
      (found : Option String) (m : Action World String)
      → Keeps credentials m
      → Keeps credentials
          (elim found as (λ _. Action World String) [ some name ↦ pure name | none ↦ m ])
  found-view none m k = k
  found-view (some name) m k = Keeps-pure name

  poll_tunnel-view :
      (rounds deadline : ℕ) (hint : Option String)
      → Keeps credentials (poll_tunnel env rounds deadline hint)
  unfolding poll_tunnel
  poll_tunnel-view zero deadline hint = Keeps-throw _
  poll_tunnel-view (suc rounds) deadline hint = Keeps-bind _ _ (Keeps-gets _) λ now.
      Keeps-if _ _ _
        (Keeps-bind _ _ (detect-view hint) λ iface.
          found-view iface _
            (Keeps-bind _ _ (Keeps-call _ _) λ _. poll_tunnel-view rounds deadline hint))
        give_up-view

  wait_for_tunnel-view :
      (rounds : ℕ) (hint : Option String) → Keeps credentials (wait_for_tunnel env rounds hint)
  unfolding wait_for_tunnel
  wait_for_tunnel-view rounds hint = search (keeps_rules, poll_tunnel-view) depth 14

  bring_up-view :
      (rounds : ℕ) (iface : Option String) (c : Settings)
      → Keeps credentials (bring_up env rounds iface c)
  unfolding bring_up
  bring_up-view rounds none c =
      search (keeps_rules, start_openvpn-view, wait_for_tunnel-view) depth 14
  bring_up-view rounds (some iface) c = Keeps-pure_tt

  apply_profile-view :
      (rounds : ℕ) (profile : Option String) (c : Settings)
      → Keeps credentials (apply_profile env rounds profile c)
  unfolding apply_profile
  apply_profile-view rounds none c = search keeps_rules depth 14
  apply_profile-view rounds (some profile) c =
      search (keeps_rules, write_vpn_profile-view, detect-view, bring_up-view) depth 14

  apply_vpn_settings-view : (vpn : Dict) → Keeps credentials (apply_vpn_settings vpn)
  unfolding apply_vpn_settings update modify
  apply_vpn_settings-view vpn = record { at = λ s. refl }

  pub apply_vpn-view :
      (rounds : ℕ) (vpn : Option Dict) → Keeps credentials (apply_vpn env rounds vpn)
  unfolding apply_vpn
  apply_vpn-view rounds none = Keeps-pure_tt
  apply_vpn-view rounds (some vpn) =
      search (keeps_rules, apply_vpn_settings-view, apply_profile-view) depth 14
