-- ===== src/Application/Shutdown.antt =====
-- src/coda_node/server/app.py, the end of `lifespan`: the order of its steps, and what keeps it from its end.
use coda_self_service.Prelude.{ℕ, ◌≡◌, List, [], ◌∷◌, ◌++◌}
use coda_self_service.Effects.{Exc, Result, raise}
use coda_self_service.Effects.Rules.{Post}
use coda_self_service.Vpn.Service.State as Service
use coda_self_service.Vpn.Service.Daemon.{kill_openvpn_daemon}
use coda_self_service.Vpn.Guard as Guard
use coda_self_service.Consumer.State as Consumer
use coda_self_service.Consumer.Loop.{drain}
use coda_self_service.Heartbeat as Heartbeat
use coda_self_service.Application.{
  Task, watch_task, consumer_task, heartbeat_task, Call, cancelled, awaited, closed_webhook,
  closed_redis, Parts, parts_of, World, Env, Services, suppress_cancelled,
}

-- what a shutdown can fail of
pub data Cause {Object : Type 0} (env : Env Object) (services : Services Object) (e : Exc)
    : Type 0 where
  -- a task had failed, or fails as it is cancelled
  failed_task : (task : Task) → suppress_cancelled (env.ends task) ≡ raise e → Cause env services e
  closing_heartbeat : (n : ℕ) → services.heartbeat.aclose n ≡ raise e → Cause env services e
  draining : (c : Consumer.World) → (drain services.consumer c).0 ≡ raise e → Cause env services e
  closing_webhook : env.close_webhook ≡ raise e → Cause env services e
  closing_redis : env.close_redis ≡ raise e → Cause env services e
  killing :
      (s : Service.World) → (kill_openvpn_daemon env.service s).0 ≡ raise e → Cause env services e

module _ {Object : Type 0} (env : Env Object) (services : Services Object) where
  -- the states of the parts after each of the four operations on them
  abbrev pub stopped : Parts → Parts
  stopped p = record p { guard = (Guard.stop p.guard).1 }

  abbrev pub closed : Parts → Parts
  closed p = record p { heartbeat = (Heartbeat.close services.heartbeat p.heartbeat).1 }

  abbrev pub drained : Parts → Parts
  drained p = record p { consumer = (drain services.consumer p.consumer).1 }

  abbrev pub killed : Parts → Parts
  killed p = record p { service = (kill_openvpn_daemon env.service p.service).1 }

  -- The calls of a shutdown, each with the states of the parts in which it is made: the watch task is ended after
  -- the guard is stopped, the heartbeat task after the heartbeat is closed, and the consumer task after it is
  -- drained; then the clients are closed.
  abbrev pub plan : Parts → List (Call × Parts)
  plan p =
      (cancelled watch_task, stopped p)
      ∷ (awaited watch_task, stopped p)
      ∷ (cancelled heartbeat_task, closed (stopped p))
      ∷ (awaited heartbeat_task, closed (stopped p))
      ∷ (cancelled consumer_task, drained (closed (stopped p)))
      ∷ (awaited consumer_task, drained (closed (stopped p)))
      ∷ (closed_webhook, drained (closed (stopped p)))
      ∷ (closed_redis, drained (closed (stopped p)))
      ∷ []

  -- the state after these calls, with the parts in these states
  record At (s : World) (p : Parts) (done : List (Call × Parts)) (t : World) : Type 0 where
    parts : parts_of t ≡ p
    calls : t.calls ≡ s.calls ++ done

  -- a shutdown that fails has made the first calls of the plan
  pub record Failed (s : World) (e : Exc) (t : World) : Type 0 where
    pub cause : Cause env services e
    pub done : List (Call × Parts)
    pub left : List (Call × Parts)
    pub shape : plan (parts_of s) ≡ done ++ left
    pub calls : t.calls ≡ s.calls ++ done

  -- a shutdown that returns has made all calls of the plan, and has killed OpenVPN after them
  pub record Finished (s t : World) : Type 0 where
    pub calls : t.calls ≡ s.calls ++ plan (parts_of s)
    pub parts : parts_of t ≡ killed (drained (closed (stopped (parts_of s))))

  module _ (s : World) where
    Next : Parts → List (Call × Parts) → Result (Unit {0}) × World → Type 0
    Next p done = Post (λ _ t. At s p done t) (λ e t. Failed s e t)
