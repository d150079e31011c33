-- ===== src/Vpn/Guard/Readiness.antt =====
-- src/coda_node/vpn/guard.py, VPNGuard: what a health check says of the state, and when the callback of
-- `watch` is called.
use coda_self_service.Prelude.{
  ◌≡◌, refl, ap, ◌∙◌, ℕ, String, Bool, true, ◌&&◌, ◌||◌, not, Option, none, some, List, [], ◌∷◌,
  is_empty, is_some, all, arith, if◌then◌else◌,
}
use coda_self_service.Effects.{Result, ok, raise, Action, ◌>>=◌}
use coda_self_service.Effects.Rules.{
  Post, Keeps, Keeps-pure, Keeps-lift, Keeps-bind, keeps_rules, Post-bind, Post-if, Post-Keeps,
  Post-weaken,
}
use coda_self_service.Vpn.Interfaces.{Command}
use coda_self_service.Vpn.Guard.Grounds.{Grounds, Anything}
use coda_self_service.Vpn.Guard.Verdicts.{preflight-Grounds}
use coda_self_service.Vpn.Interfaces.Views.{detect_tun_interface-view}
use coda_self_service.Vpn.Guard.{
  resolve_host, fails_to_resolve, probe_target, ServiceState, vpn_unavailable, ready, ProbeResult,
  VpnStatus, Event, changed, World, Env, call, set_state, detect, dns_failures, run_probes,
  failed_probes, unavailable, available, check_probes, check_dns, preflight,
}

-- What a health check that returns leaves: the state READY or VPN_UNAVAILABLE by its verdict; a good
-- verdict where the VPN is required says that there is an interface and that all probes succeeded, and
-- where it is not required every verdict is good.
pub record Checked (env : Env) (status : VpnStatus) (s : World) : Type 0 where
  pub state : s.state ≡ (if status.ok then ready else vpn_unavailable)
  pub sound :
      (not env.vpn_required
        || (not status.ok || (status.interface_found && all (λ p. p.ok) status.probes)))
      ≡ true
  pub lenient : (env.vpn_required || status.ok) ≡ true

failed_probes-all :
    (probes : List ProbeResult) → is_empty (failed_probes probes) ≡ all (λ p. p.ok) probes
unfolding failed_probes
failed_probes-all [] = refl
failed_probes-all (p ∷ probes) = ground (arith, failed_probes-all probes)

-- the calls of the callback, newest first
abbrev pub changes : List Event → List ServiceState
changes [] = []
changes (changed state ∷ t) = state ∷ changes t
changes (_ ∷ t) = changes t

pub record Supervised : Type 0 where
  pub state : ServiceState
  pub changes : List ServiceState

abbrev pub supervised : World → Supervised
supervised s = record { state = s.state; changes = changes s.trace }

-- a health check that was started with the state `s`, and gave this verdict and the state `t`
pub record IsJustified (env : Env) (s : World) (status : VpnStatus) (t : World) : Type 0 where
  pub checked : Checked env status t
  pub grounds : Grounds env s env.vpn_required status.ok
  pub unannounced : changes t.trace ≡ changes s.trace

Keeps-call_ran :
    {A : Type 0} (ask : ℕ → Result A) (c : Command) → Keeps supervised (call ask (Event.ran c))
unfolding call
Keeps-call_ran ask c = record { at = λ s. refl }

Keeps-call_looked_up :
    {A : Type 0} (ask : ℕ → Result A) (h : String) → Keeps supervised (call ask (Event.looked_up h))
unfolding call
Keeps-call_looked_up ask h = record { at = λ s. refl }

Keeps-call_probed :
    {A : Type 0} (ask : ℕ → Result A) (h : String) → Keeps supervised (call ask (Event.probed h))
unfolding call
Keeps-call_probed ask h = record { at = λ s. refl }

module _ (env : Env) where
  detect-view : Keeps supervised (detect env)
  unfolding detect
  detect-view = detect_tun_interface-view _ _ _ (λ c. Keeps-call_ran _ c) _

  resolve_host-view : (hostname : String) → Keeps supervised (resolve_host env hostname)
  unfolding resolve_host
  resolve_host-view hostname = search (keeps_rules, Keeps-call_looked_up) depth 14

  fails_to_resolve-view :
      (hostname : Option String) → Keeps supervised (fails_to_resolve env hostname)
  unfolding fails_to_resolve
  fails_to_resolve-view none = Keeps-pure []
  fails_to_resolve-view (some hostname) = search (keeps_rules, resolve_host-view) depth 14

  dns_failures-view : (targets : List String) → Keeps supervised (dns_failures env targets)
  unfolding dns_failures
  dns_failures-view [] = Keeps-pure []
  dns_failures-view (target ∷ targets) = Keeps-bind _ _ (Keeps-lift _) λ hostname.
      Keeps-bind _ _ (fails_to_resolve-view hostname)
        λ failure. Keeps-bind _ _ (dns_failures-view targets) λ rest. Keeps-pure _

  probe_target-view : (url : String) → Keeps supervised (probe_target env url)
  unfolding probe_target
  probe_target-view url = search (keeps_rules, Keeps-call_probed) depth 14

  run_probes-view : (targets : List String) → Keeps supervised (run_probes env targets)
  unfolding run_probes
  run_probes-view [] = Keeps-pure []
  run_probes-view (target ∷ targets) =
      Keeps-bind _ _ (probe_target-view target)
        λ probe. Keeps-bind _ _ (run_probes-view targets) λ probes. Keeps-pure _

  -- a part of a health check, started with the state `s`: its verdict, or a raise with nothing changed
  abbrev Verdict : World → Result VpnStatus × World → Type 0
  Verdict s =
      Post (λ status t. Checked env status t × (changes t.trace ≡ changes s.trace))
        (λ _ t. supervised t ≡ supervised s)

  unavailable-Verdict :
      (found : Bool) (probes : List ProbeResult) (reason : String) (s t : World)
      → supervised t ≡ supervised s
      → env.vpn_required ≡ true
      → Verdict s (unavailable found probes reason t)
  unfolding unavailable set_state ◌>>=◌
  unavailable-Verdict found probes reason s t e required = record {
    holds = (
      record { state = refl; sound = ground arith; lenient = ground arith },
      ap (λ v. v.changes) e,
    );
  }

  available-Verdict :
      (found : Bool) (probes : List ProbeResult) (s t : World)
      → supervised t ≡ supervised s
      → (not env.vpn_required || (found && all (λ p. p.ok) probes)) ≡ true
      → Verdict s (available found probes t)
  unfolding available set_state ◌>>=◌
  available-Verdict found probes s t e good = record {
    holds = (
      record { state = refl; sound = ground arith; lenient = ground arith },
      ap (λ v. v.changes) e,
    );
  }

  -- an action that changes nothing that is supervised, and then the rest
  then-Verdict :
      {A : Type 0} (m : Action World A) (f : A → Action World VpnStatus) (s t : World)
      → Keeps supervised m
      → supervised t ≡ supervised s
      → ((a : A) (u : World) → supervised u ≡ supervised s → Verdict s (f a u))
      → Verdict s ((m >>= f) t)
  then-Verdict m f s t k e h =
      Post-bind m f t (Post-weaken _ (Post-Keeps m t k) (λ _ _ p. p ∙ e) (λ _ _ p. p ∙ e)) h

  check_probes-Verdict :
      (found : Bool) (s t : World)
      → supervised t ≡ supervised s
      → (not env.vpn_required || found) ≡ true
      → Verdict s (check_probes env found t)
  unfolding check_probes
  check_probes-Verdict found s t e has = then-Verdict _ _ s t (run_probes-view _) e λ probes u k.
      Post-if (not (is_empty (failed_probes probes)) && env.vpn_required) _ _ u
        (λ bad. unavailable-Verdict _ _ _ s u k (ground arith))
        (λ good. available-Verdict _ _ s u k (ground (arith, failed_probes-all probes)))

  check_dns-Verdict :
      (found : Bool) (s t : World)
      → supervised t ≡ supervised s
      → (not env.vpn_required || found) ≡ true
      → Verdict s (check_dns env found t)
  unfolding check_dns
  check_dns-Verdict found s t e has = then-Verdict _ _ s t (dns_failures-view _) e λ failures u k.
      Post-if (not (is_empty failures) && env.vpn_required) _ _ u
        (λ bad. unavailable-Verdict _ _ _ s u k (ground arith))
        (λ good. check_probes-Verdict found s u k has)

  -- what the returned record says, and the supervised part of the state
  pub preflight-Checked :
      (s : World)
      → Post
          (λ status t. Checked env status t × (changes t.trace ≡ changes s.trace))
          (λ _ t. supervised t ≡ supervised s)
          (preflight env s)
  unfolding preflight
  preflight-Checked s = then-Verdict _ _ s s detect-view refl λ iface u k.
      Post-if (not (is_some iface) && env.vpn_required) _ _ u
        (λ bad. unavailable-Verdict _ _ _ s u k (ground arith))
        (λ good. check_dns-Verdict _ s u k (ground arith))

  -- A health check that returns leaves the state READY where its verdict is good and VPN_UNAVAILABLE
  -- where it is bad, and has not called the callback. Where the VPN is required, a good verdict means that the
  -- search for an interface found one, that the host of every probe target was resolved and that every probe target
  -- answered with a status below 500; a bad one means that no interface was found, a host was not resolved
  -- or a target was not reached. Where it is not required, the verdict is good. A check that raises leaves
  -- the state as it was.
  pub preflight-IsJustified :
      (s : World)
      → Post
          (λ status t. IsJustified env s status t)
          (λ _ t. supervised t ≡ supervised s)
          (preflight env s)
  preflight-IsJustified s =
      justified (preflight env s) (preflight-Checked s) (preflight-Grounds env s)
    where
      justified :
          (r : Result VpnStatus × World)
          → Verdict s r
          → Post (λ status _. Grounds env s env.vpn_required status.ok) (Anything env) r
          → Post (λ status t. IsJustified env s status t) (λ _ t. supervised t ≡ supervised s) r
      justified (ok status, t) h k = record {
        holds = record { checked = h.holds.0; grounds = k.holds; unannounced = h.holds.1 };
      }
      justified (raise e, t) h k = record { holds = h.holds }
