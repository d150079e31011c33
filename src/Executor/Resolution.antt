-- ===== src/Executor/Resolution.antt =====
-- src/coda_node/server/executor.py, `load_executor`: the executor that is loaded can run.
use coda_self_service.Prelude.{◌≡◌, String, true, not, List, [], ◌∷◌, if◌then◌else◌}
use coda_self_service.Prelude.Text.{is_blank}
use coda_self_service.Config.{Settings}
use coda_self_service.Effects.{Exc, ok, raise}
use coda_self_service.Effects.Results.{
  ◌>>=◌, Sound, Sound-bind, Sound-if, Sound-ok, Sound-always, Sound-raise, Sound-return,
}
use coda_self_service.Executor.{
  Modules, Executor, noop, runner, load_attr, make_runner, instantiate_factory,
  discover_executor_factories, choose, load_executor,
}

module _ {Object : Type 0} (modules : Modules Object) where
  -- what an executor must be for the consumer to use it
  abbrev pub CanRun : Executor Object → Type 0
  CanRun noop = Unit
  CanRun (runner object) = modules.has_run object ≡ true

  Runs : Object → Type 0
  Runs object = modules.has_run object ≡ true

  kept :
      (object : Object) (e : Exc)
      → Sound Runs (if modules.has_run object then ok object else raise e)
  unfolding Runs
  kept object e = Sound-if (modules.has_run object) _ _ (Sound-return object) (λ _. Sound-raise e)

  make_runner-Runs :
      (path : String) (target : Object) (settings : Settings)
      → Sound Runs (make_runner modules path target settings)
  unfolding make_runner
  make_runner-Runs path target settings =
      Sound-bind (modules.has_parameters target) _ (Sound-always _) λ parameters _.
        Sound-bind (if parameters then modules.call_with target settings else modules.call target) _
          (Sound-always _) λ executor _. kept executor _

  instantiate_factory-Runs :
      (path : String) (settings : Settings) → Sound Runs (instantiate_factory modules path settings)
  unfolding instantiate_factory Runs
  instantiate_factory-Runs path settings =
      Sound-bind (load_attr modules path) _ (Sound-always _) λ target _.
        Sound-if (modules.has_run target) _ _ (Sound-return target) λ _.
          Sound-if (modules.is_callable target) _ _ (λ _. make_runner-Runs path target settings)
            (λ _. Sound-raise _)

  run_with :
      (path : String) (settings : Settings)
      → Sound CanRun (instantiate_factory modules path settings >>= λ object. ok (runner object))
  unfolding Runs
  run_with path settings =
      Sound-bind (instantiate_factory modules path settings) _
        (instantiate_factory-Runs path settings) (λ object. Sound-return (runner object))

  choose-CanRun :
      (paths : List String) (settings : Settings) → Sound CanRun (choose modules paths settings)
  unfolding choose
  choose-CanRun [] settings = Sound-return noop tt
  choose-CanRun (path ∷ []) settings = run_with path settings
  choose-CanRun (path ∷ other ∷ paths) settings = Sound-return noop tt

  -- An executor that is loaded is the NoopExecutor or has a `run`.
  pub load_executor-CanRun :
      (settings : Settings) {out : Executor Object}
      → load_executor modules settings ≡ ok out
      → CanRun out
  unfolding load_executor
  load_executor-CanRun settings = Sound-ok (
      Sound-if (not (is_blank settings.executor_factory)) _ _
        (λ _. run_with settings.executor_factory settings)
        λ _.
          Sound-bind (discover_executor_factories modules) _ (Sound-always _)
            λ discovered _. choose-CanRun discovered settings)
