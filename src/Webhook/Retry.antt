-- ===== src/Webhook/Retry.antt =====
-- src/coda_node/server/webhook.py, `_post_with_retry`: how often it posts, when it waits, what it raises.
use coda_self_service.Prelude.{
  ◌≡◌, refl, ap, ◌∙◌, sym, ℕ, zero, suc, ◌+◌, ◌-◌, ◌*◌, ◌^◌, ◌≤◌, ◌<◌, String, true, false, Option,
  none, some, ◌∷◌, arith,
}
use coda_self_service.Effects.{Exc, transport_error, Result, ok, raise, float_pow_two, throw, ◌>>=◌}
use coda_self_service.Effects.Results
use coda_self_service.Webhook.Payload.{Body}
use coda_self_service.Webhook.Client.{
  posted, slept, World, Env, raise_for_status, is_final, sign, post, sleep, post_attempts,
  post_with_retry,
}

float_pow_two-small : (n : ℕ) → n < 1024 → float_pow_two n ≡ ok (2 ^ n)
unfolding float_pow_two
float_pow_two-small n h = ground arith

-- an attempt that is not tried again: it succeeds, or fails for good
abbrev pub IsLast : Result (Unit {0}) → Type 0
IsLast (ok done) = Unit
IsLast (raise e) = is_final e ≡ true

-- what an attempt raises; any exception, where it succeeds
abbrev pub failure_of : Result (Unit {0}) → Exc
failure_of (ok done) = transport_error
failure_of (raise e) = e

-- the attempt at a time
abbrev pub attempt_of : Env → String → Body → ℕ → Result (Unit {0})
attempt_of env url body t = Results.◌>>=◌ (env.post t url body) raise_for_status

-- A client whose tokens can be signed and whose waits are not cut short; `exc` is the exception of the
-- attempt at a time, where it fails.
module _ (env : Env) (url : String) (body : Body) (tok : ℕ → String) (exc : ℕ → Exc)
    (signs : (t : ℕ) → env.token t ≡ ok (tok t)) (waits : (t : ℕ) → env.sleep t ≡ ok tt) where
  -- what an attempt at a time comes to
  abbrev pub attempt_at : ℕ → Result (Unit {0})
  attempt_at = attempt_of env url body

  -- the state after an attempt
  abbrev pub tried : World → World
  tried s = record { now = s.now + 1; trace = posted url (tok s.now) body ∷ s.trace }

  -- the state after an attempt with its number and the wait that follows it
  abbrev pub retried : ℕ → World → World
  retried attempt s = record {
    now = s.now + 1 + 1;
    trace = slept (2 ^ (attempt - 1)) ∷ (tried s).trace;
  }

  -- the state after a number of attempts, from the one with the given number on
  abbrev pub after : ℕ → ℕ → World → World
  after zero attempt s = s
  after (suc k) attempt s = after k (attempt + 1) (retried attempt s)

  -- the first attempts from a state on, two steps apart, fail in a way that is tried again
  abbrev pub Retries : ℕ → World → Type 0
  Retries k s =
      (i : ℕ)
      → i < k
      → (attempt_at (s.now + 2 * i) ≡ raise (exc (s.now + 2 * i)))
        × (is_final (exc (s.now + 2 * i)) ≡ false)

  abbrev last_of : ℕ → Option Exc → ℕ → Option Exc
  last_of zero last t = last
  last_of (suc k) last t = last_of k (some (exc t)) (t + 1 + 1)

  retry-step :
      (left attempt : ℕ) (last : Option Exc) (s : World)
      → attempt ≤ 1024
      → attempt_at s.now ≡ raise (exc s.now)
      → is_final (exc s.now) ≡ false
      → post_attempts env (suc left) attempt last url body s
        ≡ post_attempts env left (attempt + 1) (some (exc s.now)) url body (retried attempt s)
  unfolding post_attempts sign post sleep ◌>>=◌
  retry-step left attempt last s small failed again =
      rw
        (
          signs s.now,
          failed,
          again,
          float_pow_two-small (attempt - 1) (omega arith),
          waits (s.now + 1),
        )
        refl

  -- the attempts after the first
  Retries-tail : (k attempt : ℕ) (s : World) → Retries (suc k) s → Retries k (retried attempt s)
  Retries-tail k attempt s h i lt =
      let e : s.now + 2 * suc i ≡ s.now + 1 + 1 + 2 * i = omega arith in
      rw (sym e) (h (suc i) (omega arith))

  after-now : (k attempt : ℕ) (s : World) → (after k attempt s).now ≡ s.now + 2 * k
  after-now zero attempt s = omega arith
  after-now (suc k) attempt s = omega (arith, after-now k (attempt + 1) (retried attempt s))

  last_of-suc :
      (k : ℕ) (last : Option Exc) (t : ℕ) → last_of (suc k) last t ≡ some (exc (t + 2 * k))
  last_of-suc zero last t = let e : t + 2 * 0 ≡ t = omega arith in rw e refl
  last_of-suc (suc k) last t =
      let e : t + 2 * suc k ≡ t + 1 + 1 + 2 * k = omega arith in
      rw e (last_of-suc k (some (exc t)) (t + 1 + 1))

  last_attempt :
      (left attempt : ℕ) (last : Option Exc) (s : World) (r : Result (Unit {0}))
      → attempt_at s.now ≡ r
      → IsLast r
      → post_attempts env (suc left) attempt last url body s ≡ (r, tried s)
  unfolding post_attempts sign post throw ◌>>=◌
  last_attempt left attempt last s (ok done) h final = rw (signs s.now, h) refl
  last_attempt left attempt last s (raise e) h final = rw (signs s.now, h, final) refl

  post_attempts-after :
      (k left attempt : ℕ) (last : Option Exc) (s : World)
      → attempt + k ≤ 1025
      → Retries k s
      → post_attempts env (k + left) attempt last url body s
        ≡ post_attempts env left (attempt + k) (last_of k last s.now) url body (after k attempt s)
  post_attempts-after zero left attempt last s small h =
      let e : attempt + 0 ≡ attempt = omega arith in
      let z : 0 + left ≡ left = omega arith in rw (e, z) refl
  post_attempts-after (suc k) left attempt last s small h =
      let e : attempt + suc k ≡ attempt + 1 + k = omega arith in
      let z : suc k + left ≡ suc (k + left) = omega arith in
      let (failed, again) = h 0 (omega arith) in
      let o : s.now + 2 * 0 ≡ s.now = omega arith in
      let step =
        retry-step (k + left) attempt last s (omega arith) (rw (sym o) failed) (rw (sym o) again) in
      rw (e, z)
        (step
          ∙ post_attempts-after k left (attempt + 1) _ _ (omega arith) (Retries-tail k attempt s h))

  used :
      (max_retries k : ℕ) (s : World)
      → max_retries ≤ 1024
      → k ≤ max_retries
      → Retries k s
      → post_with_retry env max_retries url body s
        ≡ post_attempts env (max_retries - k) (1 + k) (last_of k none s.now) url body (after k 1 s)
  unfolding post_with_retry
  used max_retries k s small fits h =
      let e : max_retries ≡ k + (max_retries - k) = omega arith in
      ap (λ n. post_attempts env n 1 none url body s) e
      ∙ post_attempts-after k (max_retries - k) 1 none s (omega arith) h

  next_attempt :
      (max_retries k : ℕ) (s : World)
      → max_retries ≤ 1024
      → k < max_retries
      → Retries k s
      → post_with_retry env max_retries url body s
        ≡ post_attempts env
            (suc (max_retries - k - 1))
            (1 + k)
            (last_of k none s.now)
            url
            body
            (after k 1 s)
  next_attempt max_retries k s small fits h =
      let e : max_retries - k ≡ suc (max_retries - k - 1) = omega arith in
      used max_retries k s small (omega arith) h
      ∙ ap (λ n. post_attempts env n (1 + k) (last_of k none s.now) url body (after k 1 s)) e

  pub post_with_retry-ends :
      (max_retries k : ℕ) (s : World) (r : Result (Unit {0}))
      → max_retries ≤ 1024
      → k < max_retries
      → Retries k s
      → attempt_at (s.now + 2 * k) ≡ r
      → IsLast r
      → post_with_retry env max_retries url body s ≡ (r, tried (after k 1 s))
  post_with_retry-ends max_retries k s r small fits h done final =
      next_attempt max_retries k s small fits h
      ∙ last_attempt _ (1 + k) _ (after k 1 s) r (rw (after-now k 1 s) done) final

  pub post_with_retry-exhausts :
      (more : ℕ) (s : World)
      → suc more ≤ 1024
      → Retries (suc more) s
      → post_with_retry env (suc more) url body s
        ≡ (raise (exc (s.now + 2 * more)), after (suc more) 1 s)
  unfolding post_attempts throw ◌>>=◌
  post_with_retry-exhausts more s small h =
      let e : suc more - suc more ≡ 0 = omega arith in
      used (suc more) (suc more) s small (omega arith) h ∙ rw (e, last_of-suc more none s.now) refl
