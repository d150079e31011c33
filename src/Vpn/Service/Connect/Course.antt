-- ===== src/Vpn/Service/Connect/Course.antt =====
-- src/coda_node/vpn/service.py, `_post_connect`: the course of a call, whatever the cloud answers.
use coda_self_service.Prelude.{◌≡◌, ℕ, suc, ◌+◌, ◌*◌, ◌<◌, String, ◌<>◌}
use coda_self_service.Prelude.Int.{ℤ}
use coda_self_service.Prelude.Text.{str_int}
use coda_self_service.Effects.{Exc, node_error, other_error, Result, ok, raise}
use coda_self_service.Vpn.Service.State.{NodeBundle, World, Env}
use coda_self_service.Vpn.Service.Connect.{Attempt, ended, failed, judge, attempts}
use coda_self_service.Vpn.Service.Connect.Retry.{tried, after, Fails}

-- the exception of an attempt that may be tried again; any, where there is none
abbrev pub failure_of : Attempt → Exc
failure_of (ended result) = other_error ""
failure_of (failed e) = e

module _ (env : Env) (url auth : String) (waits : (t : ℕ) → env.sleep t ≡ ok tt) where
  -- the exception of the attempt at a time
  abbrev pub exc_at : ℕ → Exc
  exc_at t = failure_of (judge (env.post t url auth))

  abbrev pub Again : ℕ → World → Type 0
  Again k s = Fails env url auth exc_at waits k s

  -- how a call goes: so many attempts fail in a way that is tried again, and the next ends the call, or there is
  -- no next
  pub data Course (max_retries : ℤ) (s : World) : Result NodeBundle → World → Type 0 where
    untried :
        attempts max_retries ≡ 0
        → Course max_retries s
            (raise (
              node_error
                ("Node connect failed after " <> str_int max_retries <> " attempts: None")))
            s
    answered :
        (k : ℕ) (result : Result NodeBundle)
        → k < attempts max_retries
        → Again k s
        → judge (env.post (s.now + 2 * k) url auth) ≡ ended result
        → Course max_retries s result
            (tried env url auth exc_at waits (after env url auth exc_at waits k 1 s))
    exhausted :
        (more : ℕ)
        → attempts max_retries ≡ suc more
        → Again (suc more) s
        → Course max_retries s
            (raise (
              node_error (
                "Node connect failed after "
                <> str_int max_retries
                <> " attempts: "
                <> env.message (exc_at (s.now + 2 * more)))))
            (tried env url auth exc_at waits (after env url auth exc_at waits more 1 s))
