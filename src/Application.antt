-- ===== src/Application.antt =====
-- src/coda_node/server/app.py: `create_app`. `boot` is its `lifespan` up to the `yield`, `shut_down` what
-- follows it; in between the tasks run, and leave any state. What the other tasks do while `shut_down`
-- waits is left out. FastAPI, Redis and the ends of the tasks are the parameter `Env`.
pub mod Topology
pub mod Startup
pub mod Shutdown
mod Tests
use coda_self_service.Prelude.{
  ℕ, String, ◌<>◌, Bool, true, false, ◌&&◌, not, Option, none, some, List, [], ◌∷◌, ◌++◌,
  if◌then◌else◌,
}
use coda_self_service.Prelude.Int.{ℤ, pos, negsuc}
use coda_self_service.Config.{Settings, vpn_probe_urls}
use coda_self_service.Config as Config
use coda_self_service.Effects.{
  Exc, cancelled_error, runtime_error, Result, ok, raise, Action, pure, throw, lift, gets, modify,
  try, ◌>>=◌, ◌>>◌,
}
use coda_self_service.Effects.Parts.{within}
use coda_self_service.Executor.{Modules, Executor, load_executor}
use coda_self_service.Vpn.Service.State as Service
use coda_self_service.Vpn.Service.Daemon.{kill_openvpn_daemon}
use coda_self_service.Vpn.Service.Lifecycle.{connect_settings}
use coda_self_service.Vpn.Guard as Guard
use coda_self_service.Consumer.State as Consumer
use coda_self_service.Consumer.Loop.{drain}
use coda_self_service.Heartbeat as Heartbeat
use coda_self_service.Application.Topology.{DeviceSpec, resolve_connectivity}

pub data Task : Type 0 where
  watch_task consumer_task heartbeat_task : Task

-- the states of the parts
pub record Parts : Type 0 where
  pub service : Service.World
  pub guard : Guard.World
  pub consumer : Consumer.World
  pub heartbeat : Heartbeat.World

-- the calls of `shut_down` to what is outside of the parts: `task.cancel()`, `await task`, and the two closes
pub data Call : Type 0 where
  cancelled awaited : Task → Call
  closed_webhook closed_redis : Call

pub record World : Type 0 where
  pub service : Service.World
  pub guard : Guard.World
  pub consumer : Consumer.World
  pub heartbeat : Heartbeat.World
  -- the tasks, the latest first; the calls of `shut_down`, the latest last, each with the states of the parts
  -- in which it was made
  pub started : List Task
  pub calls : List (Call × Parts)

abbrev pub parts_of : World → Parts
parts_of s = record {
  service = s.service;
  guard = s.guard;
  consumer = s.consumer;
  heartbeat = s.heartbeat;
}

-- a call, and what it gives
unfoldable pub outside : Call → Result (Unit {0}) → Action World (Unit {0})
outside made answer s = (answer, record s { calls = s.calls ++ (made, parts_of s) ∷ [] })

pub record Env (Object : Type 0) : Type 0 where
  -- `Settings()`, and the argument of `create_app`
  pub settings : Result Settings
  pub executor : Option (Executor Object)
  -- what the parts call, with any arguments; the rounds of the wait for the tunnel
  pub service : Service.Env
  pub rounds : ℕ
  pub guard : Guard.Env
  pub consumer : Consumer.Env
  pub heartbeat : Heartbeat.Env
  pub modules : Modules Object
  -- `getattr(runner, "device", None)`, `aioredis.from_url`
  pub device : Executor Object → Result (Option DeviceSpec)
  pub from_url : String → Result (Unit {0})
  -- how a task ends that is cancelled and awaited, unless it had ended before
  pub ends : Task → Result (Unit {0})
  pub close_webhook : Result (Unit {0})
  pub close_redis : Result (Unit {0})

-- what is kept in `app.state`, and what the parts were made with
pub record Services (Object : Type 0) : Type 0 where
  pub settings : Settings
  pub runner : Executor Object
  pub guard : Guard.Env
  pub consumer : Consumer.Env
  pub heartbeat : Heartbeat.Env

abbrev pub in_service : {A : Type 0} → Action Service.World A → Action World A
in_service = within (λ s. s.service) (λ v s. record s { service = v })

abbrev pub in_guard : {A : Type 0} → Action Guard.World A → Action World A
in_guard = within (λ s. s.guard) (λ v s. record s { guard = v })

abbrev pub in_consumer : {A : Type 0} → Action Consumer.World A → Action World A
in_consumer = within (λ s. s.consumer) (λ v s. record s { consumer = v })

abbrev pub in_heartbeat : {A : Type 0} → Action Heartbeat.World A → Action World A
in_heartbeat = within (λ s. s.heartbeat) (λ v s. record s { heartbeat = v })

-- `asyncio.sleep` returns at once for a negative number
abbrev seconds : ℤ → ℕ
seconds (pos n) = n
seconds (negsuc n) = 0

-- `asyncio.create_task`
unfoldable pub create_task : Task → Action World (Unit {0})
create_task task = modify (λ s. record s { started = task ∷ s.started })

-- `suppress(asyncio.CancelledError)`
abbrev pub suppress_cancelled : Result (Unit {0}) → Result (Unit {0})
suppress_cancelled (ok u) = ok u
suppress_cancelled (raise cancelled_error) = ok tt
suppress_cancelled (raise e) = raise e

module _ {Object : Type 0} (env : Env Object) where
  abbrev pub guard_env : Settings → Guard.Env
  guard_env settings = record env.guard {
    probe_targets = vpn_probe_urls settings;
    interface_hint = settings.vpn_interface_hint;
    check_interval_sec = seconds settings.vpn_check_interval_sec;
    vpn_required = settings.vpn_required;
  }

  abbrev pub heartbeat_env : Settings → Option (List (List ℤ)) → Heartbeat.Env
  heartbeat_env settings connectivity = record env.heartbeat {
    url = Config.heartbeat_url settings;
    interval = settings.heartbeat_interval_sec;
    connectivity = connectivity;
    extra_headers = settings.node_connect_headers;
  }

  -- `executor or load_executor(settings)`
  abbrev pub runner_of : Option (Executor Object) → Settings → Result (Executor Object)
  runner_of none settings = load_executor env.modules settings
  runner_of (some executor) settings = ok executor

  unfoldable pub wire : Settings → Action World (Services Object)
  wire settings = do
    lift (env.from_url settings.redis_url)
    runner ← lift (runner_of env.executor settings)
    device ← lift (env.device runner)
    connectivity ← lift (resolve_connectivity device)
    create_task watch_task
    create_task consumer_task
    create_task heartbeat_task
    pure (record {
      settings = settings;
      runner = runner;
      guard = guard_env settings;
      consumer = record env.consumer { qpu_id = settings.qpu_id };
      heartbeat = heartbeat_env settings connectivity;
    })

  unfoldable pub boot : Action World (Services Object)
  boot = do
    given ← lift env.settings
    modify (λ s. record s { service = record s.service { settings = given } })
    in_service (connect_settings env.service env.rounds)
    settings ← gets (λ s. s.service.settings)
    status ← in_guard (Guard.preflight (guard_env settings))
    if not status.ok && settings.vpn_required && not settings.allow_degraded_startup
        then throw (runtime_error ("VPN preflight failed: " <> status.reason))
        else wire settings

  -- `task.cancel()`, and the `await` of the task
  unfoldable pub end_task : Task → Action World (Unit {0})
  end_task task = do
    outside (cancelled task) (ok tt)
    outside (awaited task) (suppress_cancelled (env.ends task))

  unfoldable pub shut_down : Services Object → Action World (Unit {0})
  shut_down services = do
    in_guard Guard.stop
    end_task watch_task
    in_heartbeat (Heartbeat.close services.heartbeat)
    end_task heartbeat_task
    in_consumer (drain services.consumer)
    end_task consumer_task
    outside closed_webhook env.close_webhook
    outside closed_redis env.close_redis
    in_service (kill_openvpn_daemon env.service)
    pure tt

-- `state.value`
abbrev pub state_value : Guard.ServiceState → String
state_value Guard.booting = "booting"
state_value Guard.vpn_unavailable = "vpn_unavailable"
state_value Guard.ready = "ready"
state_value Guard.degraded = "degraded"

pub record Readiness : Type 0 where
  pub ready : Bool
  pub vpn_state : String
  pub redis_healthy : Bool
  pub current_job : Option String

-- `_check_readiness`
abbrev pub check_readiness : World → Readiness
check_readiness s = record {
  ready = Guard.is_ready s.guard && s.consumer.redis_healthy;
  vpn_state = state_value s.guard.state;
  redis_healthy = s.consumer.redis_healthy;
  current_job = s.consumer.current_job_id;
}

-- the status code of `/ready`, and its content; `_check_readiness` waits for nothing, so that there is
-- no timeout
abbrev pub ready : World → ℕ × Readiness
ready s = let result = check_readiness s in (if result.ready then 200 else 503, result)
