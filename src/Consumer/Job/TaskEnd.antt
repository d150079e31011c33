-- ===== src/Consumer/Job/TaskEnd.antt =====
-- src/coda_node/server/consumer.py, `_run_job_with_cancellation`: the executor's task is not left running.
use coda_self_service.Prelude.{◌≡◌, refl, String, Bool, true, false, not, ◌||◌, List, ◌∷◌, arith}
use coda_self_service.Prelude.Int.{ℤ}
use coda_self_service.Ir.{NativeGateIr}
use coda_self_service.Effects.{pure, gets, ◌>>=◌}
use coda_self_service.Effects.Rules.{
  Post, Post-bind, Post-if, Post-weaken, Post-finally, Outcome-both, Post_always,
}
use coda_self_service.Consumer.State.{Event, run_cancelled, World, Env, call}
use coda_self_service.Consumer.Job.{set_live, start_run, cancel_run, cancel_if_live, run_job}

-- whether the newest event is the cancellation of the task
abbrev pub just_cancelled : List Event → Bool
just_cancelled (run_cancelled ∷ t) = true
just_cancelled _ = false

abbrev Ended : World → Type 0
Ended t = (not t.run_task_live || just_cancelled t.trace) ≡ true

module _ (env : Env) where
  started :
      (ir : NativeGateIr) (shots : ℤ) (s : World)
      → Post (λ _ _. Unit {0}) (λ _ t. Ended t) (start_run env ir shots s)
  unfolding start_run set_live call ◌>>=◌
  started ir shots s = record { holds = tt }

  cancel_run-Ended : (s : World) → Post (λ _ t. Ended t) (λ _ t. Ended t) (cancel_run env s)
  unfolding cancel_run call
  cancel_run-Ended s = record { holds = ground arith }

  cancel_if_live-Ended : (s : World) → Post (λ _ t. Ended t) (λ _ t. Ended t) (cancel_if_live env s)
  unfolding cancel_if_live gets pure
  cancel_if_live-Ended s =
      Post-bind {R = λ live t. live ≡ t.run_task_live} _ _ s (record { holds = refl })
        λ live t e.
          Post-if live _ _ t (λ _. cancel_run-Ended t) (λ dead. record { holds = ground arith })

  -- However the run of a job ends, with a result or an exception, and whatever the outside does: the
  -- executor's task is done, or the last thing that happened is that it was cancelled.
  pub run_job-ends :
      (job : String) (ir : NativeGateIr) (shots : ℤ) (s : World)
      → let t = (run_job env job ir shots s).1 in
        (not t.run_task_live || just_cancelled t.trace) ≡ true
  unfolding run_job
  run_job-ends job ir shots s = Post_always _ (
      Post-bind _ _ s (started ir shots s) λ task t _. Post-finally _ _ t (
        Post-weaken _ (cancel_if_live-Ended _)
          (λ _ u h. Outcome-both (λ _ v. Ended v) (λ _ v. Ended v) _ u (λ _. h) (λ _. h))
          (λ _ _ h. h)))
