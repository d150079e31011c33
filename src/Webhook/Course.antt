-- ===== src/Webhook/Course.antt =====
-- src/coda_node/server/webhook.py, `_post_with_retry`: the course of a call, whatever the server answers.
use coda_self_service.Prelude.{◌≡◌, ℕ, suc, ◌+◌, ◌*◌, ◌<◌, String}
use coda_self_service.Effects.{Exc, Result, ok, raise}
use coda_self_service.Webhook.Payload.{Body}
use coda_self_service.Webhook.Client.{World, Env}
use coda_self_service.Webhook.Retry.{IsLast, failure_of, attempt_of, tried, after, Retries}

module _ (env : Env) (url : String) (body : Body) (tok : ℕ → String)
    (signs : (t : ℕ) → env.token t ≡ ok (tok t)) (waits : (t : ℕ) → env.sleep t ≡ ok tt) where
  -- the exception of the attempt at a time
  abbrev pub exc_at : ℕ → Exc
  exc_at t = failure_of (attempt_of env url body t)

  abbrev pub Again : ℕ → World → Type 0
  Again k s = Retries env url body tok exc_at signs waits k s

  -- how a call with a number of attempts allowed goes: so many attempts fail in a way that is tried again, each
  -- followed by a wait, and the next is the last, or there is no next
  pub data Course (max_retries : ℕ) (s : World) : Result (Unit {0}) → World → Type 0 where
    untried : max_retries ≡ 0 → Course max_retries s (ok tt) s
    ended :
        (k : ℕ)
        → k < max_retries
        → Again k s
        → IsLast (attempt_of env url body (s.now + 2 * k))
        → Course max_retries s (attempt_of env url body (s.now + 2 * k)) (
            tried env url body tok exc_at signs waits
              (after env url body tok exc_at signs waits k 1 s))
    exhausted :
        (more : ℕ)
        → max_retries ≡ suc more
        → Again max_retries s
        → Course max_retries s
            (raise (exc_at (s.now + 2 * more)))
            (after env url body tok exc_at signs waits max_retries 1 s)
