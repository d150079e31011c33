-- ===== src/Consumer/Trace.antt =====
-- What the proofs read off a trace of the consumer, newest event first.
use coda_self_service.Prelude.{
  ◌≡◌, refl, arith, ℕ, suc, String, Bool, true, false, Option, List, [], ◌∷◌, ◌&&◌, str_eq,
  if◌then◌else◌,
}
use coda_self_service.Webhook.{WebhookPayload}
use coda_self_service.Consumer.State.{
  Event, status_read, cancel_unread, hset, cancel_hook, run_waited, run_settled, xack, webhook,
  cancel_read, run_started, run_cancelled, World,
}

-- the messages acknowledged
abbrev pub acked : List Event → List String
acked [] = []
acked (xack i ∷ t) = i ∷ acked t
acked (_ ∷ t) = acked t

-- the webhooks posted
abbrev pub posted : List Event → List (String × WebhookPayload)
posted [] = []
posted (webhook u p ∷ t) = (u, p) ∷ posted t
posted (_ ∷ t) = posted t

-- whether the cancel flag of the job has been seen
abbrev pub seen : String → List Event → Bool
seen job [] = false
seen job (cancel_read j flag ∷ t) = if str_eq j job && flag then true else seen job t
seen job (_ ∷ t) = seen job t

-- the webhooks posted after the cancel flag of the job had been seen
abbrev pub late_posts : String → List Event → ℕ
late_posts job [] = 0
late_posts job (webhook u p ∷ t) =
    let earlier = late_posts job t in if seen job t then suc earlier else earlier
late_posts job (_ ∷ t) = late_posts job t

-- how often the executor was started, and how often its task was cancelled
abbrev pub runs : List Event → ℕ
runs [] = 0
runs (run_started _ _ ∷ t) = suc (runs t)
runs (_ ∷ t) = runs t

abbrev pub cancels : List Event → ℕ
cancels [] = 0
cancels (run_cancelled ∷ t) = suc (cancels t)
cancels (_ ∷ t) = cancels t

-- What a message leaves in the consumer: the acknowledgements, and the fields that say that a job is
-- in flight.
pub record Ledger : Type 0 where
  pub acks : List String
  pub idle : Bool
  pub current : Option String

abbrev pub ledger : World → Ledger
ledger s = record { acks = acked s.trace; idle = s.idle; current = s.current_job_id }

-- the events that the Redis helpers and the run of a job note, but for the reads of the cancel flag
abbrev pub is_quiet : Event → Bool
is_quiet (status_read _) = true
is_quiet (hset _ _) = true
is_quiet cancel_hook = true
is_quiet (run_started _ _) = true
is_quiet run_waited = true
is_quiet run_settled = true
is_quiet run_cancelled = true
is_quiet _ = false

-- A view of the consumer that shows neither those events nor the liveness of the executor's task.
pub record Deaf {V : Type 0} (view : World → V) : Type 0 where
  pub event :
      (e : Event)
      → is_quiet e ≡ true
      → (s : World) (n : ℕ) → view (record s { now = n; trace = e ∷ s.trace }) ≡ view s
  pub live : (s : World) (b : Bool) → view (record s { run_task_live = b }) ≡ view s

-- A view that does not show the reads of the cancel flag either.
pub record Blind {V : Type 0} (view : World → V) : Type 0 where
  pub deaf : Deaf view
  pub read :
      (job : String) (flag : Bool) (s : World) (n : ℕ)
      → view (record s { now = n; trace = cancel_read job flag ∷ s.trace }) ≡ view s
  pub unread :
      (job : String) (s : World) (n : ℕ)
      → view (record s { now = n; trace = cancel_unread job ∷ s.trace }) ≡ view s

pub ledger-Blind : Blind ledger
ledger-Blind = record {
  deaf = record { event = λ e q s n. ground arith; live = λ s b. refl };
  read = λ job flag s n. refl;
  unread = λ job s n. refl;
}

abbrev pub webhooks : World → List (String × WebhookPayload)
webhooks s = posted s.trace

pub webhooks-Blind : Blind webhooks
webhooks-Blind = record {
  deaf = record { event = λ e q s n. ground arith; live = λ s b. refl };
  read = λ job flag s n. refl;
  unread = λ job s n. refl;
}

-- Whether the cancel flag of the job has been seen, and the webhooks posted after that.
pub record Watch : Type 0 where
  pub flagged : Bool
  pub late : ℕ

abbrev pub watch : String → World → Watch
watch job s = record { flagged = seen job s.trace; late = late_posts job s.trace }

pub watch-Deaf : (job : String) → Deaf (watch job)
watch-Deaf job = record { event = λ e q s n. ground arith; live = λ s b. refl }

-- the identifiers put before others, one after the other
abbrev pub onto : List String → List String → List String
onto [] acks = acks
onto (id ∷ ids) acks = onto ids (id ∷ acks)
