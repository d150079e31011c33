-- ===== src/Vpn/Guard/Alternation.antt =====
-- src/coda_node/vpn/guard.py, `watch`: the calls of `on_change`.
use coda_self_service.Prelude.{
  ◌≡◌, refl, sym, subst, ℕ, zero, suc, Bool, true, false, ◌&&◌, not, some, List, [], ◌∷◌, arith,
  if◌then◌else◌,
}
use coda_self_service.Effects.{Result, Action, pure, gets, ◌>>=◌, ◌>>◌, modify}
use coda_self_service.Effects.Rules.{
  Post, Keeps, Post-bind, Post-if, Post-Keeps, Post-weaken, Post_always, Keeps-gets, Keeps-pure_tt,
  Outcome-both,
}
use coda_self_service.Vpn.Guard.{
  ServiceState, booting, vpn_unavailable, ready, degraded, VpnStatus, Event, World, Env, call,
  set_state, was_down, was_ready, preflight, notify, react, check_once, watch_rounds, watch,
}
use coda_self_service.Vpn.Guard.Readiness.{
  Checked, Supervised, changes, supervised, preflight-Checked,
}

-- READY and DEGRADED in turn
abbrev pub alternates : List ServiceState → Bool
alternates [] = true
alternates (ready ∷ []) = true
alternates (degraded ∷ []) = true
alternates (ready ∷ degraded ∷ states) = alternates (degraded ∷ states)
alternates (degraded ∷ ready ∷ states) = alternates (ready ∷ states)
alternates _ = false

-- whether the last call, if there was one, said what the state is
abbrev pub announced : List ServiceState → ServiceState → Bool
announced [] state = true
announced (ready ∷ states) state = was_ready state
announced (degraded ∷ states) state = was_down state
announced _ state = false

abbrev pub InStep : World → Type 0
InStep s = (alternates (changes s.trace) ≡ true) × (announced (changes s.trace) s.state ≡ true)

rise :
    (states : List ServiceState) (previous : ServiceState)
    → alternates states ≡ true
    → announced states previous ≡ true
    → was_down previous ≡ true
    → alternates (ready ∷ states) ≡ true
rise [] previous a b c = refl
rise (degraded ∷ states) previous a b c = a
rise (ready ∷ states) previous a b c = ground arith
rise (booting ∷ states) previous a b c = cc b
rise (vpn_unavailable ∷ states) previous a b c = cc b

fall :
    (states : List ServiceState) (previous : ServiceState)
    → alternates states ≡ true
    → announced states previous ≡ true
    → was_ready previous ≡ true
    → alternates (degraded ∷ states) ≡ true
fall [] previous a b c = refl
fall (ready ∷ states) previous a b c = a
fall (degraded ∷ states) previous a b c = ground arith
fall (booting ∷ states) previous a b c = cc b
fall (vpn_unavailable ∷ states) previous a b c = cc b

-- no call was needed: the state is the last that was announced
stay :
    (states : List ServiceState) (previous : ServiceState) (good : Bool)
    → announced states previous ≡ true
    → (good && was_down previous) ≡ false
    → (not good && was_ready previous) ≡ false
    → announced states (if good then ready else vpn_unavailable) ≡ true
stay [] previous good a b c = refl
stay (ready ∷ states) previous good a b c = ground arith
stay (degraded ∷ states) previous good a b c = ground arith
stay (booting ∷ states) previous good a b c = cc a
stay (vpn_unavailable ∷ states) previous good a b c = cc a

-- the same, of what `supervised` shows
abbrev Shown : Supervised → Type 0
Shown v = (alternates v.changes ≡ true) × (announced v.changes v.state ≡ true)

Keeps-call_slept :
    {A : Type 0} (ask : ℕ → Result A) (n : ℕ) → Keeps supervised (call ask (Event.slept n))
unfolding call
Keeps-call_slept ask n = record { at = λ s. refl }

module _ (env : Env) {callback : ℕ → ServiceState → Result (Unit {0})}
    (given : env.on_change ≡ some callback) where
  abbrev Kept : {A : Type 0} → Result A × World → Type 0
  Kept = Post (λ _ s. InStep s) (λ _ s. InStep s)

  notify-InStep :
      (state : ServiceState) (t : World)
      → alternates (state ∷ changes t.trace) ≡ true
      → announced (state ∷ changes t.trace) t.state ≡ true
      → Kept (notify env state t)
  unfolding notify call
  notify-InStep state t a b =
      rw given
        (record { holds = Outcome-both _ _ (callback t.now state) _ (λ _. (a, b)) (λ _. (a, b)) })

  -- `self._state = DEGRADED` and the call
  degrade-InStep :
      (t : World)
      → alternates (degraded ∷ changes t.trace) ≡ true
      → Kept ((set_state degraded >> notify env degraded) t)
  unfolding set_state modify
  degrade-InStep t a =
      Post-bind {R = λ _ u. (changes u.trace ≡ changes t.trace) × (u.state ≡ degraded)} _ _ t
        (record { holds = (refl, refl) })
        λ _ u (same, now_degraded). notify-InStep degraded u (rw same a) (rw now_degraded refl)

  react-InStep :
      (status : VpnStatus) (s t : World)
      → InStep s
      → Checked env status t
      → changes t.trace ≡ changes s.trace
      → Kept (react env status s.state t)
  unfolding react pure
  react-InStep status s t (a, b) c e =
      Post-if (status.ok && was_down s.state) _ _ t
        (λ up.
          let risen = rise _ s.state a b (ground arith) in
          let now_ready : t.state ≡ ready = let st = c.state in ground arith in
          notify-InStep ready t (rw e risen) (rw now_ready refl))
        λ quiet.
          Post-if (not status.ok && was_ready s.state) _ _ t
            (λ down. degrade-InStep t (rw e (fall _ s.state a b (ground arith))))
            λ calm. record {
              holds = (rw e a, rw (e, c.state) (stay _ s.state status.ok b quiet calm));
            }

  Keeps-InStep :
      {A : Type 0} (m : Action World A) (t : World) → Keeps supervised m → InStep t → Kept (m t)
  Keeps-InStep m t k h =
      let moved : (u : World) → supervised u ≡ supervised t → InStep u =
        λ u e. subst Shown (sym e) h in
      Post-weaken _ (Post-Keeps m t k) (λ _ u e. moved u e) (λ _ u e. moved u e)

  preflight-react :
      (s : World) → InStep s → Kept ((preflight env >>= λ status. react env status s.state) s)
  preflight-react s h =
      Post-bind _ _ s
        (Post-weaken _ (preflight-Checked env s) (λ _ _ c. c) (λ _ u e. subst Shown (sym e) h))
        λ status t (c, e). react-InStep status s t h c e

  check_once-InStep : (s : World) → InStep s → Kept (check_once env s)
  unfolding check_once gets
  check_once-InStep s h = Post-bind _ _ s (Keeps-InStep _ s (Keeps-call_slept _ _) h) λ _ t k.
      Post-bind {R = λ previous u. InStep u × (previous ≡ u.state)} _ _ t
        (record { holds = (k, refl) }) λ previous u (l, e). rw e (preflight-react u l)

  stop_if-InStep :
      (halted : Bool) (s : World)
      → InStep s
      → Kept ((if halted then modify (λ w. record w { running = false }) else pure tt) s)
  unfolding modify pure
  stop_if-InStep true s h = record { holds = h }
  stop_if-InStep false s h = record { holds = h }

  watch_rounds-InStep : (rounds : ℕ) (s : World) → InStep s → Kept (watch_rounds env rounds s)
  unfolding watch_rounds
  watch_rounds-InStep zero s h = Keeps-InStep _ s Keeps-pure_tt h
  watch_rounds-InStep (suc rounds) s h =
      Post-bind _ _ s (Keeps-InStep _ s (Keeps-gets _) h) λ halted t k.
        Post-bind _ _ t (stop_if-InStep halted t k) λ _ u l.
          Post-bind _ _ u (Keeps-InStep _ u (Keeps-gets _) l) λ going v m.
            Post-if going _ _ v
              (λ _. Post-bind _ _ v (check_once-InStep v m) λ _ w n. watch_rounds-InStep rounds w n)
              (λ _. Keeps-InStep _ v Keeps-pure_tt m)

  -- From a guard that has not called its callback yet, and for any number of rounds of `watch`, whatever
  -- the outside does and whether the watch goes on or raises: the calls of the callback say READY and
  -- DEGRADED in turn, and if there was one, the last says whether the guard is ready.
  pub watch-alternates :
      (rounds : ℕ) (s : World)
      → changes s.trace ≡ []
      → let t = (watch env rounds s).1 in
        (alternates (changes t.trace) ≡ true) × (announced (changes t.trace) t.state ≡ true)
  unfolding watch modify
  watch-alternates rounds s none_yet = Post_always _ (
      Post-bind {R = λ _ t. InStep t} _ _ s
        (record { holds = (rw none_yet refl, rw none_yet refl) })
        λ _ t h. watch_rounds-InStep rounds t h)
