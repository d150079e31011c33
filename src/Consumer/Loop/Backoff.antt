-- ===== src/Consumer/Loop/Backoff.antt =====
-- src/coda_node/server/consumer.py, `consume_loop`: the wait after a lost connection.
use coda_self_service.Prelude.{
  if◌then◌else◌, ltb, ◌≡◌, refl, ap, subst, ◌⊎◌, inl, inr, ℕ, zero, suc, ◌+◌, ◌-◌, ◌^◌, ◌≤◌, ◌<◌,
  true, false, List, [], ◌∷◌, ◌∙◌, arith, min,
}
use coda_self_service.Effects.{
  Exc, overflow_error, is_connection, ok, raise, float_pow_two, gets, pure, ◌>>=◌,
}
use coda_self_service.Effects.Results
use coda_self_service.Consumer.State.{Event, stream_read, slept, World, Env, call}
use coda_self_service.Consumer.Loop.{
  consume, Locals, backoff_delay, sleep, read_count, recover_from, lost_connection, set_healthy,
  iterate,
}

pow-pos : (n : ℕ) → 1 ≤ 2 ^ n
pow-pos zero = omega arith
pow-pos (suc n) = omega (arith, pow-pos n)

-- Up to 1024 failures in a row the wait is 2 ^ (failures - 1) seconds, 60 at most and 1 at least; from
-- then on the power overflows, and the delay raises.
pub backoff_delay-lem :
    (n : ℕ)
    → (n ≤ 1024 → (backoff_delay n ≡ ok (min (2 ^ (n - 1)) 60)) × (1 ≤ min (2 ^ (n - 1)) 60))
      × (1024 < n → backoff_delay n ≡ raise overflow_error)
unfolding backoff_delay float_pow_two
backoff_delay-lem n = (λ h. (ground arith, omega (arith, pow-pos (n - 1))), λ h. ground arith)

backoff_delay-next : (n : ℕ) → n < 1024 → backoff_delay (n + 1) ≡ ok (min (2 ^ n) 60)
unfolding backoff_delay float_pow_two
backoff_delay-next n h = let e : n + 1 - 1 ≡ n = omega arith in rw e (ground arith)

backoff_delay-overflow : (n : ℕ) → 1024 ≤ n → backoff_delay (n + 1) ≡ raise overflow_error
backoff_delay-overflow n h = (backoff_delay-lem (n + 1)).1 (omega arith)

-- the state after XREADGROUP lost the connection
abbrev pub lost : World → ℕ → World
lost s count = record s {
  now = suc s.now;
  trace = stream_read count ∷ s.trace;
  redis_healthy = false;
}

-- A round of the loop in which XREADGROUP loses the connection, after `failures` such rounds in a row,
-- marks the consumer unhealthy. Below 1024 it then waits min(2 ^ failures, 60) seconds, and if the wait
-- is not cut short, the loop goes on with one failure more. From 1024 on the handler of the exception
-- raises OverflowError, which no clause of the loop handles, with no wait before.
iterate-lost_connection :
    (env : Env) (locals : Locals) (s : World) {e : Exc}
    → env.xreadgroup s.now (read_count env) ≡ raise e
    → is_connection e ≡ true
    → iterate env locals s ≡ (
        if ltb locals.consecutive_failures 1024
        then (
          Results.◌>>=◌
              (env.sleep (suc s.now))
              (λ _. ok (record locals { consecutive_failures = locals.consecutive_failures + 1 })),
          record (lost s (read_count env)) {
            now = suc (suc s.now);
            trace =
                slept (min (2 ^ locals.consecutive_failures) 60) ∷ (lost s (read_count env)).trace;
          },
        )
        else (raise overflow_error, lost s (read_count env)))
unfolding iterate recover_from lost_connection set_healthy sleep call ◌>>=◌
iterate-lost_connection env locals s p q = ground (
  arith,
  backoff_delay-next locals.consecutive_failures,
  backoff_delay-overflow locals.consecutive_failures,
)

-- the waits of a trace, the newest first
abbrev pub waits_of : List Event → List ℕ
waits_of [] = []
waits_of (slept seconds ∷ events) = seconds ∷ waits_of events
waits_of (event ∷ events) = waits_of events

-- the waits after `failures` failures and those that follow, the first one first
abbrev pub waits : ℕ → ℕ → List ℕ
waits failures zero = []
waits failures (suc n) = min (2 ^ failures) 60 ∷ waits (suc failures) n

-- the list with the waits put before it, one after the other
abbrev pub added : List ℕ → List ℕ → List ℕ
added [] ys = ys
added (x ∷ xs) ys = added xs (x ∷ ys)

abbrev pub failed : Locals → ℕ → Locals
failed locals n = record locals { consecutive_failures = n }

plus_zero : (k : ℕ) → k ≡ k + 0
plus_zero k = omega arith

-- one more than the sum
abbrev longer : ℕ → ℕ → ℕ
longer zero m = suc m
longer (suc j) m = suc (longer j m)

longer_sum : (j m : ℕ) → longer j m ≡ j + suc m
longer_sum zero m = omega arith
longer_sum (suc j) m = omega (arith, longer_sum j m)

rest_of : (n : ℕ) → 1024 < n → longer 1024 (n - 1025) ≡ n
rest_of n h = omega (arith, longer_sum 1024 (n - 1025))

zero_plus : (n : ℕ) → 0 + n ≡ n
zero_plus n = omega arith

split_at_1024 :
    (n : ℕ)
    → ((1024 < n) × ((ltb 1024 n ≡ true) × (min n 1024 ≡ 1024)))
      ⊎ ((0 + n ≤ 1024) × ((ltb 1024 n ≡ false) × (min n 1024 ≡ n)))
split_at_1024 n = ground arith

plus_suc : (k n : ℕ) → suc k + n ≡ k + suc n
plus_suc k n = omega arith

module _ (env : Env) (locals : Locals) (e : Exc)
    (outage : (t : ℕ) → env.xreadgroup t (read_count env) ≡ raise e)
    (connection : is_connection e ≡ true) (uncut : (t : ℕ) → env.sleep t ≡ ok tt)
    (unstopped : (t : ℕ) → env.stopped t ≡ false) where
  after : World → ℕ → World
  after s k = record (lost s (read_count env)) {
    now = suc (suc s.now);
    trace = slept (min (2 ^ k) 60) ∷ (lost s (read_count env)).trace;
  }

  iterate-waits :
      (k : ℕ) (s : World)
      → k < 1024
      → iterate env (failed locals k) s ≡ (ok (failed locals (suc k)), after s k)
  unfolding after
  iterate-waits k s h =
      iterate-lost_connection env (failed locals k) s (outage s.now) connection
      ∙ ground (arith, uncut (suc s.now))

  iterate-overflow :
      (k : ℕ) (s : World)
      → 1024 ≤ k
      → iterate env (failed locals k) s ≡ (raise overflow_error, lost s (read_count env))
  iterate-overflow k s h =
      iterate-lost_connection env (failed locals k) s (outage s.now) connection ∙ ground arith

  consume-next :
      (n : ℕ) (l : Locals) (s : World)
      → s.running ≡ true
      → consume env (suc n) l s ≡ (iterate env l >>= λ next. consume env n next) s
  unfolding consume gets ◌>>=◌ pure
  consume-next n l s running = rw (unstopped s.now, running) refl

  -- what a round that waits, and then more rounds, give
  consume-waits :
      (n k : ℕ) (s : World)
      → s.running ≡ true
      → k < 1024
      → consume env (suc n) (failed locals k) s ≡ consume env n (failed locals (suc k)) (after s k)
  unfolding ◌>>=◌
  consume-waits n k s running h =
      consume-next n (failed locals k) s running ∙ rw (iterate-waits k s h) refl

  -- below the overflow every round waits
  consume-counts :
      (n k : ℕ) (s : World)
      → s.running ≡ true
      → k + n ≤ 1024
      → ((consume env n (failed locals k) s).0 ≡ ok (failed locals (k + n)))
        × (waits_of (consume env n (failed locals k) s).1.trace
            ≡ added (waits k n) (waits_of s.trace))
  unfolding consume pure after
  consume-counts zero k s running h = (ap (λ m. ok (failed locals m)) (plus_zero k), refl)
  consume-counts (suc n) k s running h =
      let e = consume-waits n k s running (omega arith) in
      let (counted, waited) = consume-counts n (suc k) (after s k) running (omega arith) in
      (
        ap (λ r. r.0) e ∙ counted ∙ ap (λ m. ok (failed locals m)) (plus_suc k n),
        ap (λ r. waits_of r.1.trace) e ∙ waited,
      )

  consume-raises :
      (n k : ℕ) (s : World)
      → s.running ≡ true
      → 1024 ≤ k
      → consume env (suc n) (failed locals k) s ≡ (raise overflow_error, lost s (read_count env))
  unfolding ◌>>=◌
  consume-raises n k s running h =
      consume-next n (failed locals k) s running ∙ rw (iterate-overflow k s h) refl

  -- and then the power overflows
  consume-overflows :
      (j m k : ℕ) (s : World)
      → s.running ≡ true
      → k + j ≡ 1024
      → ((consume env (longer j m) (failed locals k) s).0 ≡ raise overflow_error)
        × (waits_of (consume env (longer j m) (failed locals k) s).1.trace
            ≡ added (waits k j) (waits_of s.trace))
  unfolding after
  consume-overflows zero m k s running h =
      let e = consume-raises m k s running (omega arith) in
      (ap (λ r. r.0) e, ap (λ r. waits_of r.1.trace) e)
  consume-overflows (suc j) m k s running h =
      let e = consume-waits (longer j m) k s running (omega arith) in
      let (raised, waited) = consume-overflows j m (suc k) (after s k) running (omega arith) in
      (ap (λ r. r.0) e ∙ raised, ap (λ r. waits_of r.1.trace) e ∙ waited)

  long_run :
      (n : ℕ) (s : World)
      → s.running ≡ true
      → 1024 < n
      → ((consume env n (failed locals 0) s).0 ≡ raise overflow_error)
        × (waits_of (consume env n (failed locals 0) s).1.trace
            ≡ added (waits 0 1024) (waits_of s.trace))
  long_run n s running h =
      subst
        (λ m.
          ((consume env m (failed locals 0) s).0 ≡ raise overflow_error)
          × (waits_of (consume env m (failed locals 0) s).1.trace
              ≡ added (waits 0 1024) (waits_of s.trace)))
        (rest_of n h) (consume-overflows 1024 (n - 1025) 0 s running refl)

  -- While XREADGROUP loses the connection in every round, no wait is cut short and the loop is not stopped,
  -- a run of at most 1024 rounds that begins without failures ends with as many failures as rounds, and has waited
  -- 1, 2, 4, ... seconds, 60 at most, once in each round. A longer run raises OverflowError after the
  -- 1024th of these waits.
  pub consume-lost_connection :
      (n : ℕ) (s : World)
      → s.running ≡ true
      → ((consume env n (failed locals 0) s).0
          ≡ (if ltb 1024 n then raise overflow_error else ok (failed locals n)))
        × (waits_of (consume env n (failed locals 0) s).1.trace
            ≡ added (waits 0 (min n 1024)) (waits_of s.trace))
  consume-lost_connection n s running =
      elim (split_at_1024 n)
        as (λ _.
          ((consume env n (failed locals 0) s).0
            ≡ (if ltb 1024 n then raise overflow_error else ok (failed locals n)))
          × (waits_of (consume env n (failed locals 0) s).1.trace
              ≡ added (waits 0 (min n 1024)) (waits_of s.trace))) [
                | inl (h, (long, most)) ↦ rw (long, most) (long_run n s running h)
                | inr (h, (short, all)) ↦
                    rw (short, all)
                      (let (counted, waited) = consume-counts n 0 s running h in
                        (counted ∙ ap (λ m. ok (failed locals m)) (zero_plus n), waited))
              ]
