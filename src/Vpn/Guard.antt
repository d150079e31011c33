-- ===== src/Vpn/Guard.antt =====
-- src/coda_node/vpn/guard.py: ServiceState, the health checks and VPNGuard. The commands, name
-- resolution, the HTTP probes, the clock and the callback are the parameter `Env`. A thread that
-- `asyncio.to_thread` starts runs in place.
pub mod Grounds
pub mod Verdicts
pub mod Readiness
pub mod Alternation
pub mod Permissions
mod State
unfoldable pub use State.*
use coda_self_service.Prelude.{
  ℕ, zero, suc, ◌<>◌, String, Bool, true, false, ◌&&◌, not, Option, none, some, List, [], ◌∷◌,
  is_empty, is_some, map, ltb, if◌then◌else◌,
}
use coda_self_service.Prelude.Text.{clip, is_blank}
use coda_self_service.Prelude.Lines.{join}
use coda_self_service.Ir.{Float}
use coda_self_service.Effects.{
  Exc, is_connection, is_exception, Result, ok, raise, Action, pure, throw, lift, gets, try, ◌>>=◌,
  ◌>>◌, modify,
}
use coda_self_service.Effects.Results
use coda_self_service.Vpn.Interfaces.{Platform, Command, Output, JsonDocument, detect_tun_interface}

module _ (env : Env) where
  unfoldable pub detect : Action World (Option String)
  detect =
      detect_tun_interface env.system env.json_loads
        (λ command. call (λ t. env.run t command) (ran command)) env.interface_hint

  -- `_resolve_host`
  unfoldable pub resolve_host : String → Action World Bool
  resolve_host hostname =
      try (do call (λ t. env.getaddrinfo t hostname) (looked_up hostname); pure true)
        λ e. if is_connection e then pure false else throw e

  -- `_probe_target`
  unfoldable pub probe_target : String → Action World ProbeResult
  probe_target url =
      try
        (do
          status_code ← call (λ t. env.head t url) (probed url)
          latency ← gets (λ s. env.latency s.now)
          pure (record {
            target = url;
            ok = ltb status_code 500;
            latency_ms = some latency;
            error = none;
          }))
        λ e.
          if is_exception e
          then (do
            latency ← gets (λ s. env.latency s.now)
            pure (record {
              target = url;
              ok = false;
              latency_ms = some latency;
              error = some (clip 200 (env.message e));
            }))
          else throw e

  -- `hostname and not _resolve_host(hostname)`
  unfoldable pub fails_to_resolve : Option String → Action World (List String)
  fails_to_resolve none = pure []
  fails_to_resolve (some hostname) =
      if is_blank hostname
      then pure []
      else do resolved ← resolve_host hostname; pure (if resolved then [] else hostname ∷ [])

  abbrev pub join_failures : List String → List String → List String
  join_failures [] rest = rest
  join_failures (hostname ∷ _) rest = hostname ∷ rest

  unfoldable pub dns_failures : List String → Action World (List String)
  dns_failures [] = pure []
  dns_failures (target ∷ targets) = do
    hostname ← lift (env.hostname target)
    failure ← fails_to_resolve hostname
    rest ← dns_failures targets
    pure (join_failures failure rest)

  unfoldable pub run_probes : List String → Action World (List ProbeResult)
  run_probes [] = pure []
  run_probes (target ∷ targets) = do
    probe ← probe_target target
    probes ← run_probes targets
    pure (probe ∷ probes)

-- `[probe for probe in probes if not probe.ok]`
unfoldable pub failed_probes : List ProbeResult → List ProbeResult
failed_probes [] = []
failed_probes (probe ∷ probes) =
    let rest = failed_probes probes in if probe.ok then rest else probe ∷ rest

abbrev pub error_or : Option String → String
error_or none = "unreachable"
error_or (some error) = if is_blank error then "unreachable" else error

abbrev pub probe_reason : ProbeResult → String
probe_reason probe = probe.target <> ": " <> error_or probe.error

unfoldable pub unavailable : Bool → List ProbeResult → String → Action World VpnStatus
unavailable interface_found probes reason = do
  set_state vpn_unavailable
  pure (record { ok = false; interface_found = interface_found; probes = probes; reason = reason })

unfoldable pub available : Bool → List ProbeResult → Action World VpnStatus
available interface_found probes = do
  set_state ready
  pure (record { ok = true; interface_found = interface_found; probes = probes; reason = "" })

-- `previous not in (READY, BOOTING)`, and `previous == READY`
abbrev pub was_down : ServiceState → Bool
was_down vpn_unavailable = true
was_down degraded = true
was_down _ = false

abbrev pub was_ready : ServiceState → Bool
was_ready ready = true
was_ready _ = false

module _ (env : Env) where
  -- the third part of `preflight`, the HTTP probes
  unfoldable pub check_probes : Bool → Action World VpnStatus
  check_probes interface_found = do
    probes ← run_probes env env.probe_targets
    if not (is_empty (failed_probes probes)) && env.vpn_required
        then unavailable interface_found probes
            ("Probe failures: " <> join "; " (map probe_reason (failed_probes probes)))
        else available interface_found probes

  -- the second part, name resolution
  unfoldable pub check_dns : Bool → Action World VpnStatus
  check_dns interface_found = do
    failures ← dns_failures env env.probe_targets
    if not (is_empty failures) && env.vpn_required
        then unavailable interface_found [] ("DNS resolution failed for: " <> join ", " failures)
        else check_probes interface_found

  -- `preflight`
  unfoldable pub preflight : Action World VpnStatus
  preflight = do
    iface ← detect env
    if not (is_some iface) && env.vpn_required
        then unavailable false [] "No VPN tunnel interface detected"
        else check_dns (is_some iface)

  -- `if on_change: await on_change(state)`
  abbrev pub notify_with :
      Option (ℕ → ServiceState → Result (Unit {0})) → ServiceState → Action World (Unit {0})
  notify_with none state = pure tt
  notify_with (some callback) state = call (λ t. callback t state) (changed state)

  unfoldable pub notify : ServiceState → Action World (Unit {0})
  notify state = notify_with env.on_change state

  -- the `if` of a round
  unfoldable pub react : VpnStatus → ServiceState → Action World (Unit {0})
  react status previous =
      if status.ok && was_down previous
      then notify ready
      else if not status.ok && was_ready previous
      then (do set_state degraded; notify degraded)
      else pure tt

  -- one round of `watch`
  unfoldable pub check_once : Action World (Unit {0})
  check_once = do
    call env.sleep (slept env.check_interval_sec)
    previous ← gets (λ s. s.state)
    status ← preflight
    react status previous

  -- the first `rounds` rounds of `watch`; `stop` may be called from outside before each
  unfoldable pub watch_rounds : ℕ → Action World (Unit {0})
  watch_rounds zero = pure tt
  watch_rounds (suc rounds) = do
    halted ← gets (λ s. env.stopped s.now)
    (if halted then modify (λ s. record s { running = false }) else pure tt)
    going ← gets (λ s. s.running)
    if going then (do check_once; watch_rounds rounds) else pure tt

  -- `watch`
  unfoldable pub watch : ℕ → Action World (Unit {0})
  watch rounds = do modify (λ s. record s { running = true }); watch_rounds rounds

-- `stop`
unfoldable pub stop : Action World (Unit {0})
stop = modify (λ s. record s { running = false })

-- `is_ready`
abbrev pub is_ready : World → Bool
is_ready s = was_ready s.state
