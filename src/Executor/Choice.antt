-- ===== src/Executor/Choice.antt =====
-- src/coda_node/server/executor.py, `load_executor`: which executor is chosen, and what stops the scan.
use coda_self_service.Prelude.{
  ◌≡◌, refl, inl, inr, String, ◌<>◌, Bool, true, false, Option, none, some, List, [], ◌∷◌,
  if◌then◌else◌, Bool-cases,
}
use coda_self_service.Prelude.Text.{is_blank}
use coda_self_service.Config.{Settings}
use coda_self_service.Effects.{Exc, Result, ok, raise}
use coda_self_service.Effects.Results.{◌>>=◌}
use coda_self_service.Executor.{
  Modules, Executor, noop, runner, offers_factory, scan, discover_executor_factories, choose,
  instantiate_factory, load_executor,
}
use coda_self_service.Executor.Packages.{Look, offers_factory-Look}

module _ {Object : Type 0} (modules : Modules Object) where
  -- what the scan of the packages gives: the factories, or the exception of the first package that stops it
  pub data Scanned : List String → Result (List String) → Type 0 where
    all_seen : Scanned [] (ok [])
    taken :
        {pkg : String} {pkgs paths : List String}
        → Look modules pkg (ok true)
        → Scanned pkgs (ok paths)
        → Scanned (pkg ∷ pkgs) (ok (((pkg <> ".executor_factory") <> ":create_executor") ∷ paths))
    passed :
        {pkg : String} {pkgs paths : List String}
        → Look modules pkg (ok false)
        → Scanned pkgs (ok paths)
        → Scanned (pkg ∷ pkgs) (ok paths)
    ended :
        {pkg : String} {pkgs : List String} {e : Exc}
        → Look modules pkg (raise e)
        → Scanned (pkg ∷ pkgs) (raise e)
    ended_later :
        {pkg : String} {pkgs : List String} {offers : Bool} {e : Exc}
        → Look modules pkg (ok offers)
        → Scanned pkgs (raise e)
        → Scanned (pkg ∷ pkgs) (raise e)

  -- the executor that a factory gives
  pub data Made (path : String) (settings : Settings) : Result (Executor Object) → Type 0 where
    made :
        {object : Object}
        → instantiate_factory modules path settings ≡ ok object
        → Made path settings (ok (runner object))
    failed :
        {e : Exc}
        → instantiate_factory modules path settings ≡ raise e
        → Made path settings (raise e)

  -- what `load_executor` gives
  pub data Chosen (settings : Settings) : Result (Executor Object) → Type 0 where
    configured :
        {out : Result (Executor Object)}
        → is_blank settings.executor_factory ≡ false
        → Made settings.executor_factory settings out
        → Chosen settings out
    unlisted :
        is_blank settings.executor_factory ≡ true
        → modules.packages ≡ none
        → Chosen settings (ok noop)
    scan_ended :
        {pkgs : List String} {e : Exc}
        → is_blank settings.executor_factory ≡ true
        → modules.packages ≡ some pkgs
        → Scanned pkgs (raise e)
        → Chosen settings (raise e)
    no_factory :
        {pkgs : List String}
        → is_blank settings.executor_factory ≡ true
        → modules.packages ≡ some pkgs
        → Scanned pkgs (ok [])
        → Chosen settings (ok noop)
    one_factory :
        {pkgs : List String} {path : String} {out : Result (Executor Object)}
        → is_blank settings.executor_factory ≡ true
        → modules.packages ≡ some pkgs
        → Scanned pkgs (ok (path ∷ []))
        → Made path settings out
        → Chosen settings out
    many_factories :
        {pkgs paths : List String} {path other : String}
        → is_blank settings.executor_factory ≡ true
        → modules.packages ≡ some pkgs
        → Scanned pkgs (ok (path ∷ other ∷ paths))
        → Chosen settings (ok noop)

module _ {Object : Type 0} (modules : Modules Object) where
  scan-Scanned : (pkgs : List String) → Scanned modules pkgs (scan modules pkgs)
  unfolding scan
  scan-Scanned [] = all_seen
  scan-Scanned (pkg ∷ pkgs) =
      go (offers_factory modules pkg) (scan modules pkgs) (offers_factory-Look modules pkg)
        (scan-Scanned pkgs)
    where
      go :
          (offers : Result Bool) (rest : Result (List String))
          → Look modules pkg offers
          → Scanned modules pkgs rest
          → Scanned modules (pkg ∷ pkgs) (
              offers >>= λ o. rest >>= λ paths.
              ok
                (if o then ((pkg <> ".executor_factory") <> ":create_executor") ∷ paths else paths))
      go (raise e) rest look seen = ended look
      go (ok offers) (raise e) look seen = ended_later look seen
      go (ok true) (ok paths) look seen = taken look seen
      go (ok false) (ok paths) look seen = passed look seen

  made-Made :
      (path : String) (settings : Settings)
      → Made modules path settings
          (instantiate_factory modules path settings >>= λ object. ok (runner object))
  made-Made path settings = go _ refl
    where
      go :
          (out : Result Object)
          → instantiate_factory modules path settings ≡ out
          → Made modules path settings (out >>= λ object. ok (runner object))
      go (ok object) h = made h
      go (raise e) h = failed h

  module _ (settings : Settings) (blank : is_blank settings.executor_factory ≡ true) where
    choose-Chosen :
        (pkgs : List String) (seen : Result (List String))
        → modules.packages ≡ some pkgs
        → Scanned modules pkgs seen
        → Chosen modules settings (seen >>= λ discovered. choose modules discovered settings)
    unfolding choose
    choose-Chosen pkgs (raise e) listed seen = scan_ended blank listed seen
    choose-Chosen pkgs (ok []) listed seen = no_factory blank listed seen
    choose-Chosen pkgs (ok (path ∷ [])) listed seen =
        one_factory blank listed seen (made-Made path settings)
    choose-Chosen pkgs (ok (path ∷ other ∷ paths)) listed seen = many_factories blank listed seen

    listed-Chosen :
        (packages : Option (List String))
        → modules.packages ≡ packages
        → Chosen modules settings (
            elim packages [ none ↦ ok [] | some pkgs ↦ scan modules pkgs ] >>= λ discovered.
            choose modules discovered settings)
    unfolding choose
    listed-Chosen none h = unlisted blank h
    listed-Chosen (some pkgs) h = choose-Chosen pkgs _ h (scan-Scanned pkgs)

  -- The executor is that of the factory of the settings, if one is set. Otherwise the scan looks at the packages in
  -- their order: a name with a dot, with an underscore first or of the node itself is left out; a module that is
  -- not found, that raises an Exception when it is imported or that has no callable `create_executor` is passed
  -- over; what else is raised ends the scan and is raised. The executor is that of the only factory found, and
  -- the NoopExecutor if there is none or there are several, or if the packages cannot be listed. What the
  -- factory raises is raised.
  pub load_executor-Chosen :
      (settings : Settings) → Chosen modules settings (load_executor modules settings)
  unfolding load_executor discover_executor_factories
  load_executor-Chosen settings =
      elim (Bool-cases (is_blank settings.executor_factory))
        as (λ _. Chosen modules settings (load_executor modules settings)) [
          | inl blank ↦ rw blank (listed-Chosen settings blank _ refl)
          | inr set ↦ rw set (configured set (made-Made settings.executor_factory settings))
        ]
