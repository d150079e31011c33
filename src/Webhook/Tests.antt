-- ===== src/Webhook/Tests.antt =====
-- Deliveries against a server that fails twice, and the theorems applied to them.
use coda_self_service.Prelude.{
  ap, ◌≡◌, refl, ℕ, ◌+◌, ◌*◌, ◌<◌, String, false, [], arith, ltb, if◌then◌else◌,
}
use coda_self_service.Effects.{Exc, http_status, ok, raise}
use coda_self_service.Webhook.Client.{World, Env, post_with_retry}
use coda_self_service.Webhook.Retry.{attempt_at, post_with_retry-ends, post_with_retry-exhausts}
use coda_self_service.Webhook.Course.{Course}
use coda_self_service.Webhook.{Body}

-- a server that answers 503 before time 4, and then with the given status
abbrev server : ℕ → Env
server code = record {
  token = λ _. ok "jwt";
  post = λ t _ _. if ltb t 4 then ok 503 else ok code;
  sleep = λ _. ok tt;
}

abbrev fresh : World
fresh = record { now = 0; trace = [] }

abbrev empty_body : Body
empty_body = []

abbrev jwt : ℕ → String
jwt _ = "jwt"

abbrev unavailable : ℕ → Exc
unavailable _ = http_status 503

module _ (code : ℕ) where
  fails_twice :
      (k : ℕ)
      → k < 3
      → (i : ℕ) → i < k
      → (attempt_at (server code) "u" empty_body jwt unavailable (λ _. refl) (λ _. refl) (0 + 2 * i)
          ≡ raise (http_status 503))
        × (false ≡ false)
  fails_twice k small i lt = (ground arith, refl)

refused_runs : (post_with_retry (server 404) 3 "u" empty_body fresh).0 ≡ raise (http_status 404)
refused_runs =
    ap (λ r. r.0)
      (post_with_retry-ends (server 404) "u" empty_body jwt unavailable (λ _. refl) (λ _. refl) 3 2
        fresh (raise (http_status 404)) (omega arith) (omega arith)
        (fails_twice 404 2 (omega arith)) refl refl)

exhausted_runs : (post_with_retry (server 200) 2 "u" empty_body fresh).0 ≡ raise (http_status 503)
exhausted_runs =
    ap (λ r. r.0)
      (post_with_retry-exhausts (server 200) "u" empty_body jwt unavailable (λ _. refl) (λ _. refl)
        1 fresh (omega arith) (fails_twice 200 2 (omega arith)))
