-- ===== src/Application/Tests.antt =====
-- A node that starts without the VPN and shuts down, and the theorems applied to it.
use coda_self_service.Prelude.{ℕ, ◌≡◌, refl, true, none, some, List, [], ◌∷◌}
use coda_self_service.Prelude.Int.{pos}
use coda_self_service.Config.{Settings, default_settings}
use coda_self_service.Effects
use coda_self_service.Consumer.Loop
use coda_self_service.Vpn.Guard
use coda_self_service.Heartbeat
use coda_self_service.Effects.{
  cancelled_error, runtime_error, module_not_found, Exc, Result, ok, raise,
}
use coda_self_service.Effects.Rules.{Post}
use coda_self_service.Executor.{noop}
use coda_self_service.Executor.Tests as Executor
use coda_self_service.Vpn.Tests as Tunnel
use coda_self_service.Vpn.Service.Tests as Service
use coda_self_service.Consumer.Tests as Consumer
use coda_self_service.Heartbeat.Tests as Beats
use coda_self_service.Application.Topology.{resolve_connectivity}
use coda_self_service.Application.{
  Call, cancelled, awaited, Parts, outside, Task, watch_task, consumer_task, heartbeat_task, World,
  Env, Services, heartbeat_env, end_task, guard_env, boot, shut_down, ready,
}
use coda_self_service.Application.Startup.{Serving, boot-Serving}

abbrev given : Settings
given = record (default_settings "/tmp") { node_token = "token"; allow_degraded_startup = true }

-- the consumer's task failed before the shutdown
abbrev ends : Task → Result (Unit {0})
ends consumer_task = raise (runtime_error "lost")
ends _ = raise cancelled_error

abbrev node : Env ℕ
node = record {
  settings = ok given;
  executor = some noop;
  service = Service.cloud 0;
  rounds = 9;
  guard = Tunnel.flapping;
  consumer = Consumer.calm;
  heartbeat = Beats.refusing;
  modules = Executor.modules module_not_found;
  device = λ _.
      ok (
        some (record { directed_edges = some []; logical_edges = ok ((pos 0 ∷ pos 1 ∷ []) ∷ []) }));
  from_url = λ _. ok tt;
  ends = ends;
  close_webhook = ok tt;
  close_redis = ok tt;
}

abbrev before : World
before = record {
  service = Service.unprovisioned;
  guard = Tunnel.booted;
  consumer = Consumer.start;
  heartbeat = Beats.fresh;
  started = [];
  calls = [];
}

abbrev services : Services ℕ
services = record {
  settings = given;
  runner = noop;
  guard = guard_env node given;
  consumer = Consumer.calm;
  heartbeat = heartbeat_env node given none;
}

-- an empty list of directed edges is passed over
logical_edges_taken :
    resolve_connectivity
      (some (record { directed_edges = some []; logical_edges = ok ((pos 0 ∷ pos 1 ∷ []) ∷ []) }))
    ≡ ok (some ((pos 0 ∷ pos 1 ∷ []) ∷ []))
unfolding resolve_connectivity
logical_edges_taken = refl

-- before the first health check
not_ready : (ready before).0 ≡ 503
not_ready = refl

boot-Serving_example :
    Post
      (λ services t. Serving services before t)
      (λ _ t. t.started ≡ before.started)
      (boot node before)
boot-Serving_example = boot-Serving node before

abbrev made : List (Call × Parts) → List Call
made [] = []
made ((call, parts) ∷ calls) = call ∷ made calls

-- the failure of the consumer's task leaves the clients open and OpenVPN running
shut_down_cut :
    let (outcome, t) = shut_down node services before in
    (outcome ≡ raise (runtime_error "lost"))
    × (made t.calls
        ≡ cancelled watch_task
          ∷ awaited watch_task
          ∷ cancelled heartbeat_task
          ∷ awaited heartbeat_task
          ∷ cancelled consumer_task
          ∷ awaited consumer_task
          ∷ [])
unfolding shut_down Effects.◌>>=◌ outside Effects.Parts.within Guard.stop end_task Heartbeat.close
    Heartbeat.stop Heartbeat.call Loop.drain Loop.stop Loop.wait_idle Loop.drain_delivery
shut_down_cut = (refl, refl)
