-- ===== src/Application/Startup.antt =====
-- src/coda_node/server/app.py, the start of `lifespan`: when it serves, and what it has started by then.
use coda_self_service.Prelude.{
  ◌≡◌, refl, ap, ◌∙◌, Bool, true, false, ◌&&◌, ◌||◌, not, sym, subst, ◌∷◌, arith, if◌then◌else◌,
}
use coda_self_service.Config.{Settings}
use coda_self_service.Effects.Parts.{Post-within}
use coda_self_service.Effects.{Exc, Result, ok, raise, Action, lift, ◌>>=◌}
use coda_self_service.Effects.Rules.{
  Post, Post-bind, Post-gets, Post-throw, Post-modify, Post-if, Post-weaken, Post-any,
}
use coda_self_service.Vpn.Guard as Guard
use coda_self_service.Vpn.Guard.Readiness.{Checked, preflight-Checked}
use coda_self_service.Vpn.Service.Lifecycle.{connect_settings}
use coda_self_service.Application.Topology.{resolve_connectivity}
use coda_self_service.Application.{
  watch_task, consumer_task, heartbeat_task, World, Env, Services, guard_env, create_task,
  runner_of, wire, boot,
}

-- The VPN is ready, or the node may start without it.
abbrev pub may_serve : Settings → Guard.World → Bool
may_serve settings guard =
    Guard.is_ready guard || (not settings.vpn_required || settings.allow_degraded_startup)

-- what the node is when it starts to serve, from the state before
pub record Serving {Object : Type 0} (services : Services Object) (s t : World) : Type 0 where
  pub settings : services.settings ≡ t.service.settings
  pub admitted : may_serve t.service.settings t.guard ≡ true
  pub started : t.started ≡ heartbeat_task ∷ consumer_task ∷ watch_task ∷ s.started

lift-Post :
    {A B : Type 0} {Q : B → World → Type 0} {E : Exc → World → Type 0} (r : Result A)
    (f : A → Action World B) (s : World)
    → ((a : A) → Post Q E (f a s))
    → ((e : Exc) → E e s)
    → Post Q E ((lift r >>= f) s)
unfolding ◌>>=◌
lift-Post (ok a) f s next failing = next a
lift-Post (raise e) f s next failing = record { holds = failing e }

-- a verdict that does not end the start
may_serve-Checked :
    (good : Bool) (settings : Settings) (guard : Guard.World)
    → guard.state ≡ (if good then Guard.ready else Guard.vpn_unavailable)
    → (not good && settings.vpn_required && not settings.allow_degraded_startup) ≡ false
    → may_serve settings guard ≡ true
may_serve-Checked true settings guard state h = rw state refl
may_serve-Checked false settings guard state h = rw state (ground arith)

module _ {Object : Type 0} (env : Env Object) where
  abbrev Unstarted : World → Exc → World → Type 0
  Unstarted s _ t = t.started ≡ s.started

  wire-Serving :
      (s : World)
      → may_serve s.service.settings s.guard ≡ true
      → Post (λ services t. Serving services s t) (Unstarted s) (wire env s.service.settings s)
  unfolding wire create_task ◌>>=◌
  wire-Serving s admitted =
      lift-Post (env.from_url s.service.settings.redis_url) _ s
        (λ _.
          lift-Post (runner_of env env.executor s.service.settings) _ s
            (λ runner.
              lift-Post (env.device runner) _ s
                (λ device.
                  lift-Post (resolve_connectivity device) _ s
                    (λ connectivity. record {
                      holds = record { settings = refl; admitted = admitted; started = refl };
                    })
                    (λ _. refl))
                (λ _. refl))
            (λ _. refl))
        (λ _. refl)

  -- the wiring, in a state in which no further task has been started
  wire-later :
      (s t : World) (settings : Settings)
      → settings ≡ t.service.settings
      → t.started ≡ s.started
      → may_serve t.service.settings t.guard ≡ true
      → Post (λ services u. Serving services s u) (Unstarted s) (wire env settings t)
  wire-later s t settings same before admitted =
      subst
        (λ settings. Post (λ services u. Serving services s u) (Unstarted s) (wire env settings t))
        (sym same)
        (Post-weaken _ (wire-Serving t admitted)
          (λ services u h. record {
            settings = h.settings;
            admitted = h.admitted;
            started =
                h.started
                ∙ ap (λ tasks. heartbeat_task ∷ consumer_task ∷ watch_task ∷ tasks) before;
          })
          (λ _ u h. h ∙ before))

  -- `boot` returns only if the VPN is ready, is not required, or degraded startup is allowed; it has then
  -- started the three tasks, and the services have the settings that connecting has left. If it raises, it
  -- has started no task.
  pub boot-Serving :
      (s : World) → Post (λ services t. Serving services s t) (Unstarted s) (boot env s)
  unfolding boot
  boot-Serving s =
      lift-Post env.settings _ s
        (λ given.
          Post-bind {R = λ _ t. t.started ≡ s.started} _ _ s (Post-modify _ s refl) λ _ t first.
            Post-bind {R = λ _ u. u.started ≡ s.started} _ _ t
              (Post-within _ _ (connect_settings env.service env.rounds) t {Q = λ _ _. Unit}
                {E = λ _ _. Unit} (Post-any _) (λ _ _ _. first) (λ _ _ _. first))
              λ _ u second.
                Post-bind
                  {R = λ settings v. (settings ≡ v.service.settings) × (v.started ≡ s.started)} _ _
                  u (Post-gets _ u (refl, second))
                  λ settings v (same, third).
                    Post-bind
                      {R = λ status w.
                        (settings ≡ w.service.settings)
                        × (w.started ≡ s.started)
                        × Checked (guard_env env settings) status w.guard}
                      _ _ v
                      (Post-within _ _ (Guard.preflight (guard_env env settings)) v
                        (preflight-Checked (guard_env env settings) v.guard)
                        (λ status g h. (same, third, h.0)) (λ _ _ _. third))
                      λ status w (same, fourth, checked).
                        Post-if
                          (not status.ok
                            && settings.vpn_required
                            && not settings.allow_degraded_startup)
                          _ _ w (λ _. Post-throw _ w fourth)
                          (λ good. wire-later s w settings same fourth (
                            subst (λ x. may_serve x w.guard ≡ true) same
                              (may_serve-Checked status.ok settings w.guard checked.state good))))
        (λ _. refl)
