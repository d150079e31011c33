-- ===== src/Executor.antt =====
-- src/coda_node/server/executor.py: NoopExecutor and the resolution of the executor. The modules that
-- `importlib` finds and the objects in them are the parameter `Modules`.
pub mod Resolution
pub mod Packages
pub mod Choice
pub mod Tests
use Prim.Native.Char.{code}
use coda_self_service.Prelude.{
  ℕ, zero, suc, String, ◌<>◌, Bool, true, false, ◌||◌, not, Option, none, some, List, [], ◌∷◌,
  length, str_eq, ◌==◌, if◌then◌else◌,
}
use coda_self_service.Prelude.Int.{ℤ}
use coda_self_service.Prelude.Text.{is_blank}
use coda_self_service.Prelude.Lines.{partition, has_text}
use coda_self_service.Config.{Settings}
use coda_self_service.Effects.{
  Exc, module_not_found, value_error, executor_error, other_error, is_exception, Result, ok, raise,
}
use coda_self_service.Effects.Results.{◌>>=◌}
use coda_self_service.Ir.{Float, NativeGateIr}
use coda_self_service.Consumer.State.{ExecutionResult}

abbrev pub zeros : ℕ → String
zeros zero = ""
zeros (suc n) = "0" <> zeros n

abbrev zero_float : Float
zero_float = record { bits = 0 }

-- `NoopExecutor.run`
unfoldable pub noop_run : NativeGateIr → ℤ → ExecutionResult
noop_run ir shots = record {
  counts = (zeros (length ir.measurements), shots) ∷ [];
  execution_time_ms = zero_float;
  shots_completed = shots;
}

-- What the interpreter answers; an import is taken to give the same answer each time.
pub record Modules (Object : Type 0) : Type 0 where
  -- `import_module`, and `getattr` on its module
  pub import_module : String → Result (Unit {0})
  pub getattr : String → String → Option Object
  -- `hasattr(x, "run")`, `callable(x)`, whether `inspect.signature(x)` has parameters
  pub has_run : Object → Bool
  pub is_callable : Object → Bool
  pub has_parameters : Object → Result Bool
  -- `x(settings)` and `x()`
  pub call_with : Object → Settings → Result Object
  pub call : Object → Result Object
  -- the keys of `packages_distributions()`, unless importlib.metadata lacks it
  pub packages : Option (List String)
  -- whether `importlib.util.find_spec` finds the module; it imports the parent package
  pub find_spec : String → Result Bool

pub data Executor (Object : Type 0) : Type 0 where
  noop : Executor Object
  runner : Object → Executor Object

-- `pkg.startswith("_")`
abbrev pub starts_low : String → Bool
starts_low String.[] = false
starts_low (String.◌∷◌ c s) = code c == 95

-- the packages that the scan leaves out
abbrev pub is_skipped : String → Bool
is_skipped pkg = has_text pkg "." || starts_low pkg || str_eq pkg "coda_node"

abbrev pub factory_module : String → String
factory_module pkg = pkg <> ".executor_factory"

abbrev pub factory_path : String → String
factory_path pkg = factory_module pkg <> ":create_executor"

module _ {Object : Type 0} (modules : Modules Object) where
  abbrev attribute : String → Option Object → Result Object
  attribute name none = raise (other_error ("module has no attribute " <> name))
  attribute name (some object) = ok object

  abbrev load_parts : String → Bool → String → Result Object
  load_parts module_name sep attr_name =
      if not sep || is_blank module_name || is_blank attr_name
      then raise
          (executor_error "CODA_EXECUTOR_FACTORY must look like 'package.module:factory_name'")
      else modules.import_module module_name >>= λ _.
          attribute attr_name (modules.getattr module_name attr_name)

  -- `_load_attr`
  unfoldable pub load_attr : String → Result Object
  load_attr import_path =
      let (module_name, (sep, attr_name)) = partition ":" import_path in
      load_parts module_name sep attr_name

  -- the call of a factory, and the check of what it returns
  unfoldable pub make_runner : String → Object → Settings → Result Object
  make_runner import_path target settings = modules.has_parameters target >>= λ parameters.
      (if parameters then modules.call_with target settings else modules.call target)
      >>= λ executor.
          if modules.has_run executor
          then ok executor
          else raise
              (executor_error ("Executor factory " <> import_path <> " did not return a runner"))

  -- `_instantiate_factory`
  unfoldable pub instantiate_factory : String → Settings → Result Object
  instantiate_factory import_path settings = load_attr import_path >>= λ target.
      if modules.has_run target
      then ok target
      else if modules.is_callable target
      then make_runner import_path target settings
      else raise (executor_error ("Executor target " <> import_path <> " is not callable"))

  abbrev pub is_callable_attr : Option Object → Bool
  is_callable_attr none = false
  is_callable_attr (some factory) = modules.is_callable factory

  -- the second `try` of the scan, and the test after it: an import that raises an Exception is skipped
  unfoldable pub imports_factory : String → Result Bool
  imports_factory module_name = elim (modules.import_module module_name) [
    | ok _ ↦ ok (is_callable_attr (modules.getattr module_name "create_executor"))
    | raise e ↦ if is_exception e then ok false else raise e
  ]

  -- `except (ModuleNotFoundError, ValueError)`
  abbrev pub not_found : Exc → Bool
  not_found module_not_found = true
  not_found (value_error _) = true
  not_found _ = false

  -- The body of the scan's loop: whether the package has a factory.
  unfoldable pub offers_factory : String → Result Bool
  offers_factory pkg =
      if is_skipped pkg then ok false else elim (modules.find_spec (factory_module pkg)) [
        | raise e ↦ if not_found e then ok false else raise e
        | ok false ↦ ok false
        | ok true ↦ imports_factory (factory_module pkg)
      ]

  -- the loop over the packages
  unfoldable pub scan : List String → Result (List String)
  scan [] = ok []
  scan (pkg ∷ pkgs) = offers_factory pkg >>= λ offers.
      scan pkgs >>= λ candidates. ok (if offers then factory_path pkg ∷ candidates else candidates)

  -- `_discover_executor_factories`
  unfoldable pub discover_executor_factories : Result (List String)
  discover_executor_factories = elim modules.packages [ none ↦ ok [] | some pkgs ↦ scan pkgs ]

  -- the choice among the discovered factories
  unfoldable pub choose : List String → Settings → Result (Executor Object)
  choose [] settings = ok noop
  choose (path ∷ []) settings = instantiate_factory path settings >>= λ object. ok (runner object)
  choose (path ∷ other ∷ paths) settings = ok noop

  -- `load_executor`
  unfoldable pub load_executor : Settings → Result (Executor Object)
  load_executor settings =
      if not (is_blank settings.executor_factory)
      then (instantiate_factory settings.executor_factory settings >>= λ object. ok (runner object))
      else (discover_executor_factories >>= λ discovered. choose discovered settings)
