-- ===== src/Consumer/Loop/FailedDelivery.antt =====
-- src/coda_node/server/consumer.py, `consume_loop`: the rounds after the delivery of a batch has raised, in which its
-- task is awaited again.
use coda_self_service.Prelude.{
  ◌≡◌, refl, ◌∙◌, ap, ℕ, zero, suc, String, Bool, true, false, Option, some, List, arith,
  if◌then◌else◌,
}
use coda_self_service.Webhook.{WebhookPayload}
use coda_self_service.Effects.{Exc, raise, Action, pure, modify, ◌>>=◌}
use coda_self_service.Effects.Rules.{
  Post, Keeps, Keeps-pure, Keeps-gets, Post-bind, Post-if, Post-Keeps, Post-weaken, Post_always,
}
use coda_self_service.Consumer.State.{Delivery, finished, World, Env, call}
use coda_self_service.Consumer.Trace
use coda_self_service.Consumer.Trace.{Ledger, posted}
use coda_self_service.Consumer.Loop.{
  Locals, set_healthy, sleep, lost_connection, recover_from, await_delivery, settle_delivery,
  handle_messages, iterate, consume,
}

-- what the loop has got done: acknowledgements, webhooks, and the delivery that is pending
pub record Served : Type 0 where
  pub ledger : Ledger
  pub webhooks : List (String × WebhookPayload)
  pub delivery : Option Delivery

abbrev pub served : World → Served
served s = record {
  ledger = Trace.ledger s;
  webhooks = posted s.trace;
  delivery = s.pending_batch_delivery;
}

module _ (env : Env) (s : World) {e : Exc}
    (failed : s.pending_batch_delivery ≡ some (finished (raise e))) where
  abbrev Stuck : World → Type 0
  Stuck t = served t ≡ served s

  iterate-Stuck :
      (locals : Locals) (t : World)
      → Stuck t
      → Post (λ _ u. Stuck u) (λ _ u. Stuck u) (iterate env locals t)
  unfolding iterate handle_messages settle_delivery await_delivery recover_from lost_connection
      sleep set_healthy call ◌>>=◌
  iterate-Stuck locals t h =
      let pending : t.pending_batch_delivery ≡ some (finished (raise e)) =
        ap (λ v. v.delivery) h ∙ failed in
      record { holds = ground arith }

  stop_if-Stuck :
      (halted : Bool) (t : World)
      → Stuck t
      → Post
          (λ _ u. Stuck u)
          (λ _ u. Stuck u)
          ((if halted then modify (λ w. record w { running = false }) else pure tt) t)
  unfolding modify pure
  stop_if-Stuck true t h = record { holds = h }
  stop_if-Stuck false t h = record { holds = h }

  Keeps-Stuck :
      {A : Type 0} (m : Action World A) (t : World)
      → Keeps served m
      → Stuck t
      → Post (λ _ u. Stuck u) (λ _ u. Stuck u) (m t)
  Keeps-Stuck m t k h = Post-weaken _ (Post-Keeps m t k) (λ _ _ e. e ∙ h) (λ _ _ e. e ∙ h)

  consume-Stuck :
      (rounds : ℕ) (locals : Locals) (t : World)
      → Stuck t
      → Post (λ _ u. Stuck u) (λ _ u. Stuck u) (consume env rounds locals t)
  unfolding consume
  consume-Stuck zero locals t h = Keeps-Stuck _ t (Keeps-pure locals) h
  consume-Stuck (suc rounds) locals t h =
      Post-bind _ _ t (Keeps-Stuck _ t (Keeps-gets _) h) λ halted u k.
        Post-bind _ _ u (stop_if-Stuck halted u k) λ _ v l.
          Post-bind _ _ v (Keeps-Stuck _ v (Keeps-gets _) l) λ going w m.
            Post-if going _ _ w
              (λ _.
                Post-bind _ _ w (iterate-Stuck locals w m)
                  λ next x n. consume-Stuck rounds next x n)
              (λ _. Keeps-Stuck _ w (Keeps-pure locals) m)

-- While `_pending_batch_delivery` holds a task that ended with an exception, any number of rounds of the loop,
-- whatever the outside does in them, acknowledge no message, post no webhook and leave the task where it is.
-- Deliveries of that batch that still run beside the loop are no part of a round.
pub consume-served :
    (env : Env) (s : World) {e : Exc}
    → s.pending_batch_delivery ≡ some (finished (raise e))
    → (rounds : ℕ) (locals : Locals) → served (consume env rounds locals s).1 ≡ served s
consume-served env s failed rounds locals =
    Post_always _ (consume-Stuck env s failed rounds locals s refl)
