-- ===== src/Heartbeat/Rounds.antt =====
-- src/coda_node/server/heartbeat.py, `run`: no failure of a heartbeat ends the loop, and every round posts one.
use coda_self_service.Prelude.{
  ◌≡◌, refl, ap, ◌∙◌, ℕ, zero, suc, ◌+◌, String, true, false, Option, none, some, Option-cases, inl,
  inr, List, [], ◌∷◌, arith, lookup, if◌then◌else◌,
}
use coda_self_service.Values.{Value, Dict}
use coda_self_service.Effects.{Exc, is_exception, Result, ok, raise, pure, throw, lift, try}
use coda_self_service.Effects.Rules.{
  Post, Post-bind, Post-try, Post-if, Post-return, Post-gets, Post-throw, Post-modify, Post-weaken,
}
use coda_self_service.Heartbeat.{
  Response, Body, Event, signed, posted, slept, World, Env, call, plain_detail, or_plain,
  json_detail, format_heartbeat_error_response, judge, send_heartbeat, beat, beat_rounds, run,
}

abbrev pub posts : List Event → ℕ
posts [] = 0
posts (posted url headers body ∷ events) = suc (posts events)
posts (event ∷ events) = posts events

-- the state after a call
abbrev after : Event → World → World
after event s = record s { now = suc s.now; trace = event ∷ s.trace }

call-Post :
    {A : Type 0} {Q : A → World → Type 0} {E : Exc → World → Type 0} (ask : ℕ → Result A)
    (event : Event) (s : World)
    → ((a : A) → ask s.now ≡ ok a → Q a (after event s))
    → ((e : Exc) → ask s.now ≡ raise e → E e (after event s))
    → Post Q E (call ask event s)
unfolding call
call-Post {A} {Q} {E} ask event s returns raises = go (ask s.now) returns raises
  where
    go :
        (r : Result A)
        → ((a : A) → r ≡ ok a → Q a (after event s))
        → ((e : Exc) → r ≡ raise e → E e (after event s))
        → Post Q E (r, after event s)
    go (ok a) returns raises = record { holds = returns a refl }
    go (raise e) returns raises = record { holds = raises e refl }

module _ (env : Env) where
  or_plain-returns :
      (response : Response) (r : Result String)
      → ((e : Exc) → r ≡ raise e → is_exception e ≡ true)
      → (detail : String) × (or_plain env response r ≡ ok detail)
  or_plain-returns response (ok detail) h = (detail, refl)
  or_plain-returns response (raise e) h = (plain_detail response, rw (h e refl) refl)

  module _ (showing : (value : Value) (e : Exc) → env.show value ≡ raise e → is_exception e ≡ true)
      (decoding : (t : ℕ) (body : Body) (response : Response) (e : Exc)
        → env.post t body ≡ ok response
        → response.json ≡ raise e
        → is_exception e ≡ true)
      (posting : (t : ℕ) (body : Body) (e : Exc)
        → env.post t body ≡ raise e
        → is_exception e ≡ true)
      (signing : (t : ℕ) → (token : String) × (env.token t ≡ ok token)) where
    json_detail-raises :
        (response : Response) (r : Result (Option Dict)) (e : Exc)
        → ((e : Exc) → r ≡ raise e → is_exception e ≡ true)
        → json_detail env response r ≡ raise e
        → is_exception e ≡ true
    json_detail-raises response (ok none) e h k = cc k
    json_detail-raises response (ok (some dict)) e h k = elim (Option-cases (lookup "error" dict)) [
      | inl missing ↦ cc (rw missing at k)
      | inr (value, found) ↦ showing value e (rw found at k)
    ]
    json_detail-raises response (raise x) e h k = cc (k, h x refl)

    -- so many POSTs later
    abbrev Later : ℕ → World → World → Type 0
    Later n s t = (posts t.trace ≡ n + posts s.trace) × (t.running ≡ s.running)

    abbrev Posted {ℓ} : {A : Type ℓ} → World → A → World → Type 0
    Posted s _ t = Later 1 s t

    abbrev Failed : World → Exc → World → Type 0
    Failed s e t = (is_exception e ≡ true) × Later 1 s t

    Decodes : Response → Type 0
    Decodes response = (e : Exc) → response.json ≡ raise e → is_exception e ≡ true

    judge-Posted :
        (response : Response) (s t : World)
        → Decodes response
        → Later 1 s t
        → Post (Posted s) (Failed s) (judge env response t)
    unfolding judge format_heartbeat_error_response lift Decodes
    judge-Posted response s t json h =
        Post-if response.is_success _ _ t (λ _. Post-return tt t h)
          λ _.
            let (detail, e) =
              or_plain-returns response (json_detail env response response.json)
                (λ e. json_detail-raises response response.json e json) in
            Post-bind {R = λ _ u. Later 1 s u} _ _ t (rw e (record { holds = h }))
              λ detail u k. Post-throw _ u (refl, k)

    send-Posted : (s : World) → Post (Posted s) (Failed s) (send_heartbeat env s)
    unfolding send_heartbeat Decodes
    send-Posted s =
        let (token, e) = signing s.now in
        Post-bind {R = λ _ t. Later 0 s t} _ _ s
          (call-Post env.token signed s (λ _ _. (omega arith, refl)) (λ x h. cc (e, h)))
          λ token t first.
            Post-bind {R = λ body u. Later 0 s u} _ _ t (Post-gets _ t first) λ body u second.
              Post-bind {R = λ response v. Later 1 s v × Decodes response} _ _ u
                (call-Post _ _ u
                  (λ response h.
                    ((omega (arith, second.0), second.1), λ e. decoding u.now body response e h))
                  (λ e h. (posting u.now body e h, (omega (arith, second.0), second.1))))
                λ response v (third, json). judge-Posted response s v json third

    module _ (going : (t : ℕ) → env.stopped t ≡ false)
        (sleeping : (t : ℕ) → env.sleep t ≡ ok tt) where
      abbrev Never : Exc → World → Type 0
      Never _ _ = ⊥

      beat-Posted : (s : World) → Post (Posted s) Never (beat env s)
      unfolding beat
      beat-Posted s =
          Post-bind {R = Posted s}
            (try (send_heartbeat env) (λ e. if is_exception e then pure tt else throw e)) _ s
            (Post-try {F = Failed s} _ _ s (send-Posted s)
              λ e t (exception, h). rw exception (Post-return tt t h))
            λ _ t h.
              call-Post env.sleep (slept env.interval) t (λ _ _. h) (λ e k. cc (sleeping t.now, k))

      beat_rounds-Posted :
          (rounds : ℕ) (s : World)
          → s.running ≡ true
          → Post (λ _ t. Later rounds s t) Never (beat_rounds env rounds s)
      unfolding beat_rounds
      beat_rounds-Posted zero s on = Post-return tt s (omega arith, refl)
      beat_rounds-Posted (suc rounds) s on =
          Post-bind {R = λ halted t. (halted ≡ false) × (t ≡ s)} _ _ s
            (Post-gets _ s (going s.now, refl))
            λ halted t (not_halted, same). rw not_halted (
              Post-bind {R = λ _ u. u ≡ s} _ _ t (Post-return tt t same) λ _ u same.
                Post-bind {R = λ on v. (on ≡ true) × (v ≡ s)} _ _ u
                  (Post-gets _ u (ap World.running same ∙ on, same))
                  λ on_now v (still, same). rw still (
                    Post-bind {R = λ _ w. Later 1 s w} _ _ v (rw same (beat-Posted s)) λ _ w h.
                      Post-weaken _ (beat_rounds-Posted rounds w (h.1 ∙ on))
                        (λ _ x k. (omega (arith, k.0, h.0), k.1 ∙ h.1)) (λ _ _ k. k)))

      -- If `stop` is not called, tokens can be signed, the sleep is not cut short, and nothing that the
      -- heartbeat calls raises a BaseException that is no Exception, then `run` posts one heartbeat in every
      -- round, whatever comes of each, and raises nothing.
      pub run-posts :
          (rounds : ℕ) (s : World)
          → Post (λ _ t. posts t.trace ≡ rounds + posts s.trace) (λ _ _. ⊥) (run env rounds s)
      unfolding run
      run-posts rounds s =
          Post-bind {R = λ _ t. (posts t.trace ≡ posts s.trace) × (t.running ≡ true)} _ _ s
            (Post-modify _ s (refl, refl))
            λ _ t (same, on).
              Post-weaken _ (beat_rounds-Posted rounds t on)
                (λ _ u h. h.0 ∙ ap (λ n. rounds + n) same) (λ _ _ h. h)
