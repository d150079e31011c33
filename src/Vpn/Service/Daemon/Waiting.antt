-- ===== src/Vpn/Service/Daemon/Waiting.antt =====
-- src/coda_node/vpn/service.py, `_wait_for_tunnel`: the loop ends.
use coda_self_service.Prelude.{
  ◌≡◌, refl, ap, ℕ, zero, suc, ◌+◌, ◌-◌, ◌*◌, ◌^◌, ◌<◌, String, true, Option, none, some, arith,
  ltb,
}
use coda_self_service.Effects.{Result, ok, raise, Action, pure, gets, continue, ◌>>=◌}
use coda_self_service.Effects.Rules.{Post, Outcome-both}
use coda_self_service.Effects.Fuel.{continue-agree, if-agree}
use coda_self_service.Vpn.Interfaces.{Command}
use coda_self_service.Vpn.Interfaces.Views.{detect_tun_interface-Post}
use coda_self_service.Vpn.Service.State.{Event, slept, World, Env, call}
use coda_self_service.Vpn.Service.Daemon.{detect, poll_tunnel, wait_for_tunnel}

module _ (env : Env) where
  -- the detection runs one command
  abbrev Next : World → World → Type 0
  Next s t = t.now ≡ suc s.now

  run-Next :
      (s : World) (c : Command)
      → Post (λ _ t. Next s t) (λ _ t. Next s t) (call (λ t. env.run t c) (Event.ran c) s)
  unfolding call
  run-Next s c = record {
    holds =
        Outcome-both (λ _ t. Next s t) (λ _ t. Next s t) (env.run s.now c) _ (λ _. refl)
          (λ _. refl);
  }

  detect-Next :
      (hint : Option String) (s : World)
      → Post (λ _ t. Next s t) (λ _ t. Next s t) (detect env hint s)
  unfolding detect
  detect-Next hint s = detect_tun_interface-Post _ _ _ s (run-Next s) hint

  module _ (advances : (t : ℕ) → env.monotonic t < env.monotonic (suc t)) where
    -- a round that found no interface, followed by two ways to go on that agree after the wait
    agree :
        (hint : Option String) (s : World) (f g : Action World String)
        → ((t : World) → t.now ≡ suc (suc s.now) → f t ≡ g t)
        → (x : Result (Option String) × World) → Post (λ _ t. Next s t) (λ _ t. Next s t) x
        → continue x (λ iface. elim iface as (λ _. Action World String) [
          | some name ↦ pure name
          | none ↦ (call env.sleep (slept 1) >>= λ _. f)
        ])
          ≡ continue x (λ iface. elim iface as (λ _. Action World String) [
            | some name ↦ pure name
            | none ↦ (call env.sleep (slept 1) >>= λ _. g)
          ])
    unfolding call ◌>>=◌
    agree hint s f g h (raise e, t) p = refl
    agree hint s f g h (ok (some name), t) p = refl
    agree hint s f g h (ok none, t) p =
        continue-agree (env.sleep t.now) _ f g (h _ (ap suc p.holds))

    poll_tunnel-enough :
        (rounds more deadline : ℕ) (hint : Option String) (s : World)
        → deadline - env.monotonic s.now < rounds
        → poll_tunnel env (rounds + more) deadline hint s ≡ poll_tunnel env rounds deadline hint s
    unfolding poll_tunnel gets ◌>>=◌
    poll_tunnel-enough zero more deadline hint s h = absurd (omega arith)
    poll_tunnel-enough (suc rounds) more deadline hint s h =
        let e : suc rounds + more ≡ suc (rounds + more) = omega arith in
        rw e (
          if-agree (ltb (env.monotonic s.now) deadline) _ _ _ s λ early.
            agree hint s _ _
              (λ t now. poll_tunnel-enough rounds more deadline hint t (rw now (later early)))
              (detect env hint s) (detect-Next hint s))
      where
        later :
            ltb (env.monotonic s.now) deadline ≡ true
            → deadline - env.monotonic (suc (suc s.now)) < rounds
        later early =
            let before : env.monotonic s.now < deadline = ground arith in
            omega (arith, advances s.now, advances (suc s.now))

    -- With a clock that advances from each call to the next, more than 30 * 10 ^ 9 rounds are enough for
    -- the wait for the tunnel, whose clock counts nanoseconds: a wait that may take any number of rounds
    -- more has the same outcome and leaves the same state.
    pub wait_for_tunnel-ends :
        (rounds more : ℕ) (hint : Option String) (s : World)
        → 30 * 10 ^ 9 < rounds
        → wait_for_tunnel env (rounds + more) hint s ≡ wait_for_tunnel env rounds hint s
    unfolding wait_for_tunnel gets ◌>>=◌
    wait_for_tunnel-ends rounds more hint s enough =
        poll_tunnel-enough rounds more (env.monotonic s.now + 30 * 10 ^ 9) hint s (omega arith)
