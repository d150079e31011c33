-- ===== src/Executor/Packages.antt =====
-- src/coda_node/server/executor.py, the loop body of `_discover_executor_factories`: what the scan makes of one package.
use Prim.Native.Char.{code}
use coda_self_service.Prelude.{
  ◌≡◌, refl, sym, ap, ◌∙◌, ◌||◌, ◌⊎◌, inl, inr, ◌≢◌, subst, String, ◌<>◌, Bool, true, false, Option,
  none, some, arith, str_eq, str_eq_iff, if◌then◌else◌, Bool-cases,
}
use coda_self_service.Prelude.Lines.{has_text}
use coda_self_service.Effects.{
  Exc, cancelled_error, module_not_found, value_error, is_exception, Result, ok, raise,
}
use coda_self_service.Executor.{
  Modules, is_skipped, starts_low, is_callable_attr, imports_factory, not_found, offers_factory,
}

-- a name that begins with an underscore
abbrev pub StartsLow : String → Type 0
StartsLow String.[] = ⊥
StartsLow (String.◌∷◌ c s) = code c ≡ 95

-- an underscore first, a dot inside, or the package of the node itself
abbrev pub IsLeftOut : String → Type 0
IsLeftOut pkg = (has_text pkg "." ≡ true) ⊎ (StartsLow pkg ⊎ (pkg ≡ "coda_node"))

-- the exceptions that say that there is no such module
pub data IsMissing : Exc → Type 0 where
  no_module : IsMissing module_not_found
  bad_name : (message : String) → IsMissing (value_error message)

module _ {Object : Type 0} (modules : Modules Object) where
  abbrev pub IsFactory : Option Object → Type 0
  IsFactory none = ⊥
  IsFactory (some object) = modules.is_callable object ≡ true

  -- What the look at one package gives: whether it has a factory, or the exception that ends the scan.
  pub data Look (pkg : String) : Result Bool → Type 0 where
    left_out : IsLeftOut pkg → Look pkg (ok false)
    unknown :
        ¬ IsLeftOut pkg
        → modules.find_spec (pkg <> ".executor_factory") ≡ ok false
        → Look pkg (ok false)
    missing :
        {e : Exc}
        → ¬ IsLeftOut pkg
        → modules.find_spec (pkg <> ".executor_factory") ≡ raise e
        → IsMissing e
        → Look pkg (ok false)
    stopped :
        {e : Exc}
        → ¬ IsLeftOut pkg
        → modules.find_spec (pkg <> ".executor_factory") ≡ raise e
        → ¬ IsMissing e
        → Look pkg (raise e)
    broken :
        {e : Exc}
        → ¬ IsLeftOut pkg
        → modules.find_spec (pkg <> ".executor_factory") ≡ ok true
        → modules.import_module (pkg <> ".executor_factory") ≡ raise e
        → e ≢ cancelled_error
        → Look pkg (ok false)
    interrupted :
        ¬ IsLeftOut pkg
        → modules.find_spec (pkg <> ".executor_factory") ≡ ok true
        → modules.import_module (pkg <> ".executor_factory") ≡ raise cancelled_error
        → Look pkg (raise cancelled_error)
    without :
        ¬ IsLeftOut pkg
        → modules.find_spec (pkg <> ".executor_factory") ≡ ok true
        → modules.import_module (pkg <> ".executor_factory") ≡ ok tt
        → ¬ IsFactory (modules.getattr (pkg <> ".executor_factory") "create_executor")
        → Look pkg (ok false)
    found :
        ¬ IsLeftOut pkg
        → modules.find_spec (pkg <> ".executor_factory") ≡ ok true
        → modules.import_module (pkg <> ".executor_factory") ≡ ok tt
        → IsFactory (modules.getattr (pkg <> ".executor_factory") "create_executor")
        → Look pkg (ok true)

or_cases : (a b c : Bool) → (a || b || c) ≡ true → (a ≡ true) ⊎ ((b ≡ true) ⊎ (c ≡ true))
or_cases true b c h = inl refl
or_cases false true c h = inr (inl refl)
or_cases false false true h = inr (inr refl)
or_cases false false false h = cc h

or_cases_iff : (a b c : Bool) → (a ≡ true) ⊎ ((b ≡ true) ⊎ (c ≡ true)) → (a || b || c) ≡ true
or_cases_iff true b c h = refl
or_cases_iff false true c h = refl
or_cases_iff false false true h = refl
or_cases_iff false false false (inl h) = cc h
or_cases_iff false false false (inr (inl h)) = cc h
or_cases_iff false false false (inr (inr h)) = cc h

low-StartsLow : (pkg : String) → starts_low pkg ≡ true → StartsLow pkg
low-StartsLow String.[] h = cc h
low-StartsLow (String.◌∷◌ c s) h = ground (arith, h)

StartsLow-low : (pkg : String) → StartsLow pkg → starts_low pkg ≡ true
StartsLow-low String.[] h = absurd h
StartsLow-low (String.◌∷◌ c s) h = ground (arith, h)

skipped-IsLeftOut : (pkg : String) → is_skipped pkg ≡ true → IsLeftOut pkg
skipped-IsLeftOut pkg h =
    elim (or_cases (has_text pkg ".") (starts_low pkg) (str_eq pkg "coda_node") h)
      as (λ _. IsLeftOut pkg) [
        | inl dot ↦ inl dot
        | inr (inl low) ↦ inr (inl (low-StartsLow pkg low))
        | inr (inr own) ↦ inr (inr ((str_eq_iff pkg "coda_node").0 own))
      ]

IsLeftOut-skipped : (pkg : String) → IsLeftOut pkg → is_skipped pkg ≡ true
IsLeftOut-skipped pkg (inl dot) =
    or_cases_iff (has_text pkg ".") (starts_low pkg) (str_eq pkg "coda_node") (inl dot)
IsLeftOut-skipped pkg (inr (inl low)) =
    or_cases_iff (has_text pkg ".") (starts_low pkg) (str_eq pkg "coda_node")
      (inr (inl (StartsLow-low pkg low)))
IsLeftOut-skipped pkg (inr (inr own)) =
    or_cases_iff (has_text pkg ".") (starts_low pkg) (str_eq pkg "coda_node")
      (inr (inr ((str_eq_iff pkg "coda_node").1 own)))

listed-IsLeftOut : (pkg : String) → is_skipped pkg ≡ false → ¬ IsLeftOut pkg
listed-IsLeftOut pkg h out = cc (h, IsLeftOut-skipped pkg out)

module _ {Object : Type 0} (modules : Modules Object) where
  not_found-IsMissing : (e : Exc) → not_found modules e ≡ true → IsMissing e
  not_found-IsMissing module_not_found h = no_module
  not_found-IsMissing (value_error message) h = bad_name message
  not_found-IsMissing _ h = cc h

  IsMissing-not_found : {e : Exc} → IsMissing e → not_found modules e ≡ true
  IsMissing-not_found no_module = refl
  IsMissing-not_found (bad_name message) = refl

  not_found-other : (e : Exc) → not_found modules e ≡ false → ¬ IsMissing e
  not_found-other e h gone = cc (h, IsMissing-not_found gone)

  is_exception-other : (e : Exc) → is_exception e ≡ true → e ≢ cancelled_error
  is_exception-other e h same = cc (h, ap is_exception same)

  is_exception-cancelled : (e : Exc) → is_exception e ≡ false → e ≡ cancelled_error
  is_exception-cancelled cancelled_error h = refl
  is_exception-cancelled _ h = cc h

  module _ (pkg : String) (listed : ¬ IsLeftOut pkg) where
    attr-Look :
        (object : Option Object)
        → modules.find_spec (pkg <> ".executor_factory") ≡ ok true
        → modules.import_module (pkg <> ".executor_factory") ≡ ok tt
        → modules.getattr (pkg <> ".executor_factory") "create_executor" ≡ object
        → Look modules pkg (ok (is_callable_attr modules object))
    attr-Look none f i a = without listed f i (λ h. subst (IsFactory modules) a h)
    attr-Look (some object) f i a = called (modules.is_callable object) refl
      where
        called : (b : Bool) → modules.is_callable object ≡ b → Look modules pkg (ok b)
        called true h = Look.found listed f i (subst (IsFactory modules) (sym a) h)
        called false h = without listed f i (λ k. cc (h, subst (IsFactory modules) a k))

    import-Look :
        (out : Result (Unit {0}))
        → modules.find_spec (pkg <> ".executor_factory") ≡ ok true
        → modules.import_module (pkg <> ".executor_factory") ≡ out
        → Look modules pkg (elim out [
          | ok _ ↦ ok (
              is_callable_attr modules
                (modules.getattr (pkg <> ".executor_factory") "create_executor"))
          | raise e ↦ if is_exception e then ok false else raise e
        ])
    import-Look (ok tt) f i = attr-Look _ f i refl
    import-Look (raise e) f i = caught (is_exception e) refl
      where
        caught :
            (b : Bool) → is_exception e ≡ b → Look modules pkg (if b then ok false else raise e)
        caught true h = broken listed f i (is_exception-other e h)
        caught false h =
            let same = is_exception-cancelled e h in
            subst (λ x. Look modules pkg (raise x)) (sym same)
              (interrupted listed f (i ∙ ap raise same))

    find-Look :
        (out : Result Bool)
        → modules.find_spec (pkg <> ".executor_factory") ≡ out
        → Look modules pkg (elim out [
          | raise e ↦ if not_found modules e then ok false else raise e
          | ok false ↦ ok false
          | ok true ↦ imports_factory modules (pkg <> ".executor_factory")
        ])
    unfolding imports_factory
    find-Look (ok false) f = unknown listed f
    find-Look (ok true) f = import-Look _ f refl
    find-Look (raise e) f = caught (not_found modules e) refl
      where
        caught :
            (b : Bool)
            → not_found modules e ≡ b
            → Look modules pkg (if b then ok false else raise e)
        caught true h = missing listed f (not_found-IsMissing e h)
        caught false h = stopped listed f (not_found-other e h)

  pub offers_factory-Look : (pkg : String) → Look modules pkg (offers_factory modules pkg)
  unfolding offers_factory
  offers_factory-Look pkg =
      elim (Bool-cases (is_skipped pkg)) as (λ _. Look modules pkg (offers_factory modules pkg)) [
        | inl out ↦ rw out (left_out (skipped-IsLeftOut pkg out))
        | inr listed ↦ rw listed (find-Look pkg (listed-IsLeftOut pkg listed) _ refl)
      ]
