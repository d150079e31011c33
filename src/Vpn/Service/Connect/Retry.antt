-- ===== src/Vpn/Service/Connect/Retry.antt =====
-- src/coda_node/vpn/service.py, `_post_connect`: its attempts, its waits and what it raises.
use coda_self_service.Prelude.{
  ◌≡◌, refl, ap, ◌∙◌, sym, ℕ, zero, suc, ◌+◌, ◌-◌, ◌*◌, ◌^◌, ◌≤◌, ◌<◌, String, ◌<>◌, true, Option,
  none, some, ◌∷◌, arith, ltb,
}
use coda_self_service.Prelude.Int.{ℤ, pos}
use coda_self_service.Prelude.Text.{str_int}
use coda_self_service.Config.{connect_url}
use coda_self_service.Effects.{
  Exc, node_error, Result, ok, raise, float_pow_two, lift, gets, throw, pure, ◌>>=◌,
}
use coda_self_service.Vpn.Service.State.{NodeBundle, posted, slept, World, Env, call}
use coda_self_service.Vpn.Service.Connect.{
  ended, failed, judge, post, sleep, connect_attempts, post_connect,
}

float_pow_two-small : (n : ℕ) → n < 1024 → float_pow_two n ≡ ok (2 ^ n)
unfolding float_pow_two
float_pow_two-small n h = ground arith

-- A client whose waits are not cut short; `exc` is the exception of the attempt at a time, where it fails.
module _ (env : Env) (url auth : String) (exc : ℕ → Exc)
    (waits : (t : ℕ) → env.sleep t ≡ ok tt) where
  -- the state after an attempt
  abbrev pub tried : World → World
  tried s = record s { now = suc s.now; trace = posted url auth ∷ s.trace }

  -- the state after an attempt with its number and the wait that follows it
  abbrev pub retried : ℕ → World → World
  retried attempt s = record s {
    now = suc (suc s.now);
    trace = slept (2 ^ (attempt - 1)) ∷ posted url auth ∷ s.trace;
  }

  abbrev pub after : ℕ → ℕ → World → World
  after zero attempt s = s
  after (suc k) attempt s = after k (attempt + 1) (retried attempt s)

  -- the first attempts from a state on, two steps apart, fail in a way that is tried again
  abbrev pub Fails : ℕ → World → Type 0
  Fails k s =
      (i : ℕ) → i < k → judge (env.post (s.now + 2 * i) url auth) ≡ failed (exc (s.now + 2 * i))

  step :
      (max_retries : ℤ) (left attempt : ℕ) (last : Option Exc) (s : World)
      → attempt ≤ 1024
      → judge (env.post s.now url auth) ≡ failed (exc s.now)
      → connect_attempts env max_retries (suc (suc left)) attempt last url auth s
        ≡ connect_attempts env max_retries
            (suc left)
            (attempt + 1)
            (some (exc s.now))
            url
            auth
            (retried attempt s)
  unfolding connect_attempts post sleep call ◌>>=◌
  step max_retries left attempt last s small fails =
      let again : ltb 0 (suc left) ≡ true = ground arith in
      rw (fails, again, float_pow_two-small (attempt - 1) (omega arith), waits (suc s.now)) refl

  -- the attempts after the first
  Fails-tail : (k attempt : ℕ) (s : World) → Fails (suc k) s → Fails k (retried attempt s)
  Fails-tail k attempt s h i lt =
      let e : s.now + 2 * suc i ≡ suc (suc s.now) + 2 * i = omega arith in
      rw (sym e) (h (suc i) (omega arith))

  after-now : (k attempt : ℕ) (s : World) → (after k attempt s).now ≡ s.now + 2 * k
  after-now zero attempt s = omega arith
  after-now (suc k) attempt s = omega (arith, after-now k (attempt + 1) (retried attempt s))

  abbrev last_of : ℕ → Option Exc → ℕ → Option Exc
  last_of zero last t = last
  last_of (suc k) last t = last_of k (some (exc t)) (suc (suc t))

  -- `k` failures with more attempts to come
  connect_attempts-after :
      (max_retries : ℤ) (k left attempt : ℕ) (last : Option Exc) (s : World)
      → attempt + k ≤ 1025
      → Fails k s
      → connect_attempts env max_retries (k + suc left) attempt last url auth s
        ≡ connect_attempts env max_retries
            (suc left)
            (attempt + k)
            (last_of k last s.now)
            url
            auth
            (after k attempt s)
  connect_attempts-after max_retries zero left attempt last s small h =
      let e : attempt + 0 ≡ attempt = omega arith in
      let z : 0 + suc left ≡ suc left = omega arith in rw (e, z) refl
  connect_attempts-after max_retries (suc k) left attempt last s small h =
      let e : attempt + suc k ≡ attempt + 1 + k = omega arith in
      let z : suc k + suc left ≡ suc (suc (k + left)) = omega arith in
      let y : suc (k + left) ≡ k + suc left = omega arith in
      let o : s.now + 2 * 0 ≡ s.now = omega arith in
      rw (e, z)
        (step max_retries (k + left) attempt last s (omega arith) (rw (sym o) (h 0 (omega arith)))
          ∙ rw y (
              connect_attempts-after max_retries k left (attempt + 1) _ _ (omega arith)
                (Fails-tail k attempt s h)))

  -- an attempt that ends the call
  ended_attempt :
      (max_retries : ℤ) (left attempt : ℕ) (last : Option Exc) (s : World)
      (result : Result NodeBundle)
      → judge (env.post s.now url auth) ≡ ended result
      → connect_attempts env max_retries (suc left) attempt last url auth s ≡ (result, tried s)
  unfolding connect_attempts post lift ◌>>=◌
  ended_attempt max_retries left attempt last s result h = rw h refl

  -- the last attempt that is allowed
  failed_attempt :
      (max_retries : ℤ) (attempt : ℕ) (last : Option Exc) (s : World) (e : Exc)
      → judge (env.post s.now url auth) ≡ failed e
      → connect_attempts env max_retries 1 attempt last url auth s ≡ (
        raise (
            node_error (
              "Node connect failed after "
              <> str_int max_retries
              <> " attempts: "
              <> env.message e)),
        tried s,
      )
  unfolding connect_attempts post lift throw pure ◌>>=◌
  failed_attempt max_retries attempt last s e h = rw h refl

  pub post_connect-ends :
      (max_retries k : ℕ) (s : World) (result : Result NodeBundle)
      → connect_url s.settings ≡ url
      → max_retries ≤ 1024
      → k < max_retries
      → Fails k s
      → judge (env.post (s.now + 2 * k) url auth) ≡ ended result
      → post_connect env auth (pos max_retries) s ≡ (result, tried (after k 1 s))
  unfolding post_connect gets ◌>>=◌
  post_connect-ends max_retries k s result same small fits h ends =
      let e : max_retries ≡ k + suc (max_retries - k - 1) = omega arith in
      rw same (
        ap (λ n. connect_attempts env (pos max_retries) n 1 none url auth s) e
        ∙ connect_attempts-after _ k (max_retries - k - 1) 1 none s (omega arith) h
        ∙ ended_attempt _ _ _ _ (after k 1 s) result (rw (after-now k 1 s) ends))

  pub post_connect-exhausts :
      (more : ℕ) (s : World)
      → connect_url s.settings ≡ url
      → suc more ≤ 1024
      → Fails (suc more) s
      → post_connect env auth (pos (suc more)) s ≡ (
        raise (
            node_error (
              "Node connect failed after "
              <> str_int (pos (suc more))
              <> " attempts: "
              <> env.message (exc (s.now + 2 * more)))),
        tried (after more 1 s),
      )
  unfolding post_connect gets ◌>>=◌
  post_connect-exhausts more s same small h =
      let e : suc more ≡ more + 1 = omega arith in
      rw same (
        ap (λ n. connect_attempts env (pos (suc more)) n 1 none url auth s) e
        ∙ connect_attempts-after _ more 0 1 none s (omega arith) (λ i lt. h i (omega arith))
        ∙ failed_attempt _ _ _ (after more 1 s) _ (rw (after-now more 1 s) (h more (omega arith))))
