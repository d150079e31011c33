-- ===== src/Executor/Tests.antt =====
-- The scan of the packages on a concrete interpreter, and the theorems applied to it.
use coda_self_service.Prelude.{
  ◌≡◌, refl, subst, ℕ, String, Bool, true, some, [], ◌∷◌, str_eq, ◌==◌, if◌then◌else◌,
}
use coda_self_service.Effects.{ok, raise, other_error, module_not_found, Result, Exc}
use coda_self_service.Config.{Settings, default_settings}
use coda_self_service.Prelude.Lines.{partition}
use coda_self_service.Executor.{
  Modules, runner, load_executor, choose, discover_executor_factories, scan, offers_factory,
  imports_factory, instantiate_factory, load_attr, make_runner,
}
use coda_self_service.Executor.Resolution.{CanRun, load_executor-CanRun}
use coda_self_service.Executor.Choice.{Chosen, load_executor-Chosen}

abbrev settings : Settings
settings = default_settings "/tmp"

-- `acme` has a factory, the object 1, which makes the object 2; `broken` cannot be imported.
abbrev find : Exc → String → Result Bool
find e name =
    if str_eq name "acme.executor_factory"
    then ok true
    else if str_eq name "broken.executor_factory"
    then raise e
    else raise module_not_found

abbrev pub modules : Exc → Modules ℕ
modules e = record {
  import_module = λ _. ok tt;
  getattr = λ _ _. some 1;
  has_run = λ x. x == 2;
  is_callable = λ _. true;
  has_parameters = λ _. ok true;
  call_with = λ _ _. ok 2;
  call = λ x. ok x;
  packages = some ("_private" ∷ "numpy" ∷ "acme" ∷ "broken" ∷ "zlib" ∷ []);
  find_spec = find e;
}

finds_acme : load_executor (modules module_not_found) settings ≡ ok (runner 2)
unfolding load_executor discover_executor_factories scan offers_factory imports_factory choose
    instantiate_factory load_attr make_runner partition
finds_acme = refl

load_executor-CanRun_example : CanRun (modules module_not_found) (runner 2)
load_executor-CanRun_example = load_executor-CanRun (modules module_not_found) settings finds_acme

load_executor-Chosen_example : Chosen (modules module_not_found) settings (ok (runner 2))
load_executor-Chosen_example =
    subst (Chosen (modules module_not_found) settings) finds_acme
      (load_executor-Chosen (modules module_not_found) settings)

stopped_by_broken :
    load_executor (modules (other_error "import failed")) settings
    ≡ raise (other_error "import failed")
unfolding load_executor discover_executor_factories scan offers_factory imports_factory
stopped_by_broken = refl
