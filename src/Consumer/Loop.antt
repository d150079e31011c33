-- ===== src/Consumer/Loop.antt =====
-- src/coda_node/server/consumer.py: `setup`, `recover_pending`, `consume_loop`, `stop`, `drain`.
pub mod Backoff
pub mod FailedDelivery
pub mod Recovery
pub mod Draining
use coda_self_service.Prelude.{
  ℕ, zero, suc, ◌+◌, ◌-◌, ◌*◌, ◌^◌, String, Bool, true, false, ◌&&◌, Option, none, some, List, [],
  ◌∷◌, min, is_empty, length, ltb, leb, if◌then◌else◌,
}
use coda_self_service.Prelude.Lines.{has_text}
use coda_self_service.Effects.{
  Exc, response_error, timeout_error, is_connection, is_exception, Result, ok, raise, Action, pure,
  throw, lift, gets, try, ◌>>=◌, ◌>>◌, modify, float_pow_two,
}
use coda_self_service.Effects.Results
use coda_self_service.Consumer.State.{
  Message, Delivery, scheduled, finished, group_created, pending_listed, stream_read, message_read,
  slept, waited, World, Env, call,
}
use coda_self_service.Consumer.Job.{process_message}
use coda_self_service.Consumer.Batch.{process_batch, process_each, deliver_batch}

-- `_BACKOFF_BASE * (_BACKOFF_FACTOR ** (n - 1))`, at most `_BACKOFF_MAX`, in seconds
unfoldable pub backoff_delay : ℕ → Result ℕ
backoff_delay n = Results.◌>>=◌ (float_pow_two (n - 1)) λ p. ok (min p 60)

-- `_PENDING_RECHECK_SECS` in ns, and `_BATCH_READ_COUNT`
abbrev pub pending_recheck : ℕ
pending_recheck = 60 * 10 ^ 9

abbrev pub batch_read_count : ℕ
batch_read_count = 100

-- the local variables of `consume_loop`
pub record Locals : Type 0 where
  pub consecutive_failures : ℕ
  pub last_pending_check : ℕ

unfoldable pub set_healthy : Bool → Action World (Unit {0})
set_healthy b = modify (λ s. record s { redis_healthy = b })

module _ (env : Env) where
  -- `setup`; the group may be there already
  unfoldable pub setup : Action World (Unit {0})
  setup = try (call env.xgroup_create (λ _. group_created)) λ e. elim e [
    | response_error text ↦
        if has_text text "BUSYGROUP" then pure tt else throw (response_error text)
    | other ↦ throw other
  ]

  unfoldable pub recover_message : String → List Message → Action World ℕ
  recover_message message_id [] = pure 0
  recover_message message_id ((_, fields) ∷ _) = do process_message env message_id fields; pure 1

  unfoldable pub recover_each : ℕ → List String → Action World ℕ
  recover_each recovered [] = pure recovered
  recover_each recovered (message_id ∷ entries) = do
    messages ← call (λ t. env.xrange t message_id) (λ _. message_read message_id)
    n ← recover_message message_id messages
    recover_each (recovered + n) entries

  -- `recover_pending`: the number of messages that were processed again
  unfoldable pub recover_pending : Action World ℕ
  recover_pending = do
    entries ← call env.xpending_range (λ _. pending_listed)
    recover_each 0 entries

  -- `await self._pending_batch_delivery`; the task ends here at the latest and keeps its outcome
  unfoldable pub await_delivery : Delivery → Action World (Unit {0})
  await_delivery (finished outcome) s = (outcome, s)
  await_delivery (scheduled jobs results) s =
      let (outcome, s') = deliver_batch env jobs results s in
      (outcome, record s' { pending_batch_delivery = some (finished outcome) })

  -- `if self._pending_batch_delivery is not None: …`
  unfoldable pub settle_delivery : Option Delivery → Action World (Unit {0})
  settle_delivery none = pure tt
  settle_delivery (some delivery) = do
    await_delivery delivery
    modify (λ s. record s { pending_batch_delivery = none })

  -- the `if not messages` branch
  unfoldable pub recheck_pending : Locals → Action World Locals
  recheck_pending locals = do
    now ← gets (λ s. env.monotonic s.now)
    if leb pending_recheck (now - locals.last_pending_check)
        then (do recover_pending; pure (record locals { last_pending_check = now }))
        else pure locals

  unfoldable pub keep_delivery : Option Delivery → Action World (Unit {0})
  keep_delivery none = pure tt
  keep_delivery (some delivery) = modify (λ s. record s { pending_batch_delivery = some delivery })

  -- `for _stream_name, stream_messages in messages`
  unfoldable pub process_streams : List (List Message) → Action World (Unit {0})
  process_streams [] = pure tt
  process_streams (stream_messages ∷ rest) = do
    (if env.can_batch && ltb 1 (length stream_messages)
        then (do delivery ← process_batch env stream_messages; keep_delivery delivery)
        else process_each env stream_messages)
    process_streams rest

  unfoldable pub read_count : ℕ
  read_count = if env.can_batch then batch_read_count else 1

  -- what follows a successful XREADGROUP, with the counter of failures reset
  unfoldable pub handle_messages : Locals → List (List Message) → Action World Locals
  handle_messages locals messages = do
    delivery ← gets (λ s. s.pending_batch_delivery)
    settle_delivery delivery
    if is_empty messages then recheck_pending locals else do process_streams messages; pure locals

  unfoldable pub sleep : ℕ → Action World (Unit {0})
  sleep seconds = call env.sleep (λ _. slept seconds)

  unfoldable pub lost_connection : ℕ → Locals → Action World Locals
  lost_connection failures locals = do
    set_healthy false
    delay ← lift (backoff_delay failures)
    sleep delay
    pure (record locals { consecutive_failures = failures })

  -- the `except` clauses; the counter of failures is a variable of the loop, so its value when the
  -- exception came is passed in
  unfoldable pub recover_from : Locals → Exc → Action World Locals
  recover_from locals e =
      if is_connection e
      then lost_connection (locals.consecutive_failures + 1) locals
      else if is_exception e
      then (do sleep 1; pure locals)
      else throw e

  -- One round of the `while` loop.
  unfoldable pub iterate : Locals → Action World Locals
  iterate locals s =
      let (answer, s') = call (λ t. env.xreadgroup t read_count) (λ _. stream_read read_count) s in
      elim answer [
        | raise e ↦ recover_from locals e s'
        | ok messages ↦
            let reset : Locals = record locals { consecutive_failures = 0 } in
            try (handle_messages reset messages) (recover_from reset)
              (record s' { redis_healthy = true })
      ]

  -- The first `rounds` rounds of the loop. `stop` may be called from outside between two of them.
  unfoldable pub consume : ℕ → Locals → Action World Locals
  consume zero locals = pure locals
  consume (suc rounds) locals = do
    halted ← gets (λ s. env.stopped s.now)
    (if halted then modify (λ s. record s { running = false }) else pure tt)
    going ← gets (λ s. s.running)
    if going then (do next ← iterate locals; consume rounds next) else pure locals

  unfoldable pub consume_loop : ℕ → Action World Locals
  consume_loop rounds = do
    modify (λ s. record s { running = true })
    setup
    recover_pending
    start ← gets (λ s. env.monotonic s.now)
    consume rounds (record { consecutive_failures = 0; last_pending_check = start })

  -- `stop`
  unfoldable pub stop : Action World (Unit {0})
  stop = modify (λ s. record s { running = false })

  -- `asyncio.wait_for`, while the loop and the tasks beside `drain` go on
  unfoldable pub wait_beside : (ℕ → Bool) → Action World (Unit {0})
  wait_beside in_time s = (
    if in_time s.now then ok tt else raise timeout_error,
    env.meanwhile s.now (record s { now = suc s.now; trace = waited ∷ s.trace }),
  )

  unfoldable pub wait_idle : Action World (Unit {0})
  wait_idle s = if s.idle then (ok tt, s) else wait_beside env.idle_in_time s

  unfoldable pub drain_delivery : Option Delivery → Action World (Unit {0})
  drain_delivery none = pure tt
  drain_delivery (some (finished outcome)) = do
    lift outcome
    modify (λ s. record s { pending_batch_delivery = none })
  drain_delivery (some (scheduled jobs results)) = do
    wait_beside env.delivery_in_time
    await_delivery (scheduled jobs results)
    modify (λ s. record s { pending_batch_delivery = none })

  -- `drain`, which is run beside the loop
  unfoldable pub drain : Action World Bool
  drain = do
    stop
    try
        (do
          wait_idle
          delivery ← gets (λ s. s.pending_batch_delivery)
          drain_delivery delivery
          pure true)
        λ e. elim e [ timeout_error ↦ pure false | other ↦ throw other ]
