-- ===== src/Config/Device/Credentials.antt =====
-- src/coda_node/server/config.py: what the validators of Settings accept, and what they fill in.
use coda_self_service.Prelude.{
  ◌≡◌, refl, sym, ap, ◌∙◌, String, Bool, true, false, Bool-cases, ◌⊎◌, inl, inr, subst,
  if◌then◌else◌,
}
use coda_self_service.Prelude.Text.{is_blank}
use coda_self_service.Config.{Settings}
use coda_self_service.Effects.{Exc, is_connection, Result, ok, raise}
use coda_self_service.Effects.Results.{◌>>=◌}
use coda_self_service.Config.Device.{
  Site, default_path, factory_in, load_executor_factory, apply_default_device_config,
  apply_device_config_executor_factory, check_jwt_or_node_token, validate_settings,
}

-- the settings hold a node token, or a private key with its id
abbrev pub CanSign : Settings → Type 0
CanSign s =
    (is_blank s.node_token ≡ false)
    ⊎ ((is_blank s.jwt_private_key ≡ false) × (is_blank s.jwt_key_id ≡ false))

-- Only these two settings differ, and only where they were blank.
pub record Fills (s s' : Settings) : Type 0 where
  pub same :
      s' ≡ record s { device_config = s'.device_config; executor_factory = s'.executor_factory }
  pub device_kept : is_blank s.device_config ≡ false → s'.device_config ≡ s.device_config
  pub factory_kept : is_blank s.executor_factory ≡ false → s'.executor_factory ≡ s.executor_factory

-- the exception of a call of the file system that the code does not catch
pub data FromOutside (site : Site) (e : Exc) : Type 0 where
  existence : site.default_exists ≡ raise e → FromOutside site e
  reading :
      (path : String) → site.read_text path ≡ raise e → is_connection e ≡ false → FromOutside site e

abbrev Ending : (Settings → Type 0) → (Exc → Type 0) → Result Settings → Type 0
Ending Q E (ok s) = Q s
Ending Q E (raise e) = E e

pub record Ends (Q : Settings → Type 0) (E : Exc → Type 0) (r : Result Settings) : Type 0 where
  pub holds : Ending Q E r

Ends-bind :
    {Q R : Settings → Type 0} {E F : Exc → Type 0} (r : Result Settings)
    (next : Settings → Result Settings)
    → Ends R F r
    → ((s : Settings) → R s → Ends Q E (next s))
    → ((e : Exc) → F e → E e)
    → Ends Q E (r >>= next)
Ends-bind (ok s) next h k weaken = k s h.holds
Ends-bind (raise e) next h k weaken = record { holds = weaken e h.holds }

Ends-weaken :
    {Q R : Settings → Type 0} {E : Exc → Type 0} (r : Result Settings)
    → Ends R E r
    → ((s : Settings) → R s → Q s)
    → Ends Q E r
Ends-weaken (ok s) h weaken = record { holds = weaken s h.holds }
Ends-weaken (raise e) h weaken = record { holds = h.holds }

Fills-refl : (s : Settings) → Fills s s
Fills-refl s = record { same = refl; device_kept = λ _. refl; factory_kept = λ _. refl }

Fills-trans : {s t u : Settings} → Fills s t → Fills t u → Fills s u
Fills-trans {s} {t} {u} h k = record {
  same =
      k.same
      ∙ ap {A = Settings} {B = Settings}
          (λ x. record x { device_config = u.device_config; executor_factory = u.executor_factory })
          h.same;
  device_kept =
      λ given. let first = h.device_kept given in k.device_kept (ap is_blank first ∙ given) ∙ first;
  factory_kept = λ given.
      let first = h.factory_kept given in k.factory_kept (ap is_blank first ∙ given) ∙ first;
}

CanSign-Fills : {s t : Settings} → Fills s t → CanSign s → CanSign t
CanSign-Fills h can = subst CanSign (sym h.same) can

module _ (site : Site) where
  apply_default-Fills :
      (s : Settings) → Ends (Fills s) (FromOutside site) (apply_default_device_config site s)
  unfolding apply_default_device_config
  apply_default-Fills s = elim (Bool-cases (is_blank s.device_config)) [
    | inr given ↦ rw given (record { holds = Fills-refl s })
    | inl blank ↦ rw blank (go blank site.default_exists refl)
  ]
    where
      chosen :
          is_blank s.device_config ≡ true
          → (b : Bool) → Fills s (if b then record s { device_config = default_path } else s)
      chosen blank true = record {
        same = refl;
        device_kept = λ given. cc (blank, given);
        factory_kept = λ _. refl;
      }
      chosen blank false = Fills-refl s

      go :
          is_blank s.device_config ≡ true
          → (r : Result Bool) → site.default_exists ≡ r
          → Ends
              (Fills s)
              (FromOutside site)
              (r >>= λ exists. ok (if exists then record s { device_config = default_path } else s))
      go blank (ok exists) e = record { holds = chosen blank exists }
      go blank (raise x) e = record { holds = existence e }

  apply_factory-Fills :
      (s : Settings)
      → Ends (Fills s) (FromOutside site) (apply_device_config_executor_factory site s)
  unfolding apply_device_config_executor_factory load_executor_factory
  apply_factory-Fills s = elim (Bool-cases (is_blank s.executor_factory)) [
    | inr given ↦ rw given (record { holds = Fills-refl s })
    | inl blank ↦ elim (Bool-cases (is_blank s.device_config)) [
      | inl no_device ↦ rw (blank, no_device) (record { holds = Fills-refl s })
      | inr device ↦ rw (blank, device) (go blank (site.read_text s.device_config) refl)
    ]
  ]
    where
      chosen :
          is_blank s.executor_factory ≡ true
          → (resolved : String)
          → Fills s (if is_blank resolved then s else record s { executor_factory = resolved })
      chosen blank resolved = elim (Bool-cases (is_blank resolved)) [
        | inl nothing ↦ simp nothing (Fills-refl s)
        | inr found ↦ simp found (record {
          same = refl;
          device_kept = λ _. refl;
          factory_kept = λ given. cc (blank, given);
        })
      ]

      go :
          is_blank s.executor_factory ≡ true
          → (r : Result String) → site.read_text s.device_config ≡ r
          → Ends (Fills s) (FromOutside site) (
              factory_in r >>= λ resolved.
              ok (if is_blank resolved then s else record s { executor_factory = resolved }))
      go blank (ok content) e = record { holds = chosen blank _ }
      go blank (raise x) e = elim (Bool-cases (is_connection x)) [
        | inl caught ↦ rw caught (record { holds = Fills-refl s })
        | inr uncaught ↦ rw uncaught (record { holds = reading s.device_config e uncaught })
      ]

  check_jwt-CanSign :
      (s : Settings)
      → Ends (λ s'. (s' ≡ s) × CanSign s) (λ _. ¬ CanSign s) (check_jwt_or_node_token site s)
  unfolding check_jwt_or_node_token
  check_jwt-CanSign s = elim (Bool-cases (is_blank s.node_token)) [
    | inr token ↦ rw token (record { holds = (refl, inl refl) })
    | inl no_token ↦ elim (Bool-cases (is_blank s.jwt_private_key)) [
      | inl no_key ↦
          rw (no_token, no_key)
            (record { holds = λ can. elim can [ inl h ↦ cc h | inr h ↦ cc (h.0) ] })
      | inr key ↦ elim (Bool-cases (is_blank s.jwt_key_id)) [
        | inl no_id ↦
            rw (no_token, key, no_id)
              (record { holds = λ can. elim can [ inl h ↦ cc h | inr h ↦ cc (h.1) ] })
        | inr id ↦ rw (no_token, key, id) (record { holds = (refl, inr (refl, refl)) })
      ]
    ]
  ]

  abbrev pub Completes : Settings → Settings → Type 0
  Completes s s' = Fills s s' × CanSign s'

  -- The settings that the validators return can sign, and differ from those that were read only in a
  -- device configuration and an executor factory that were blank. If settings that can sign are refused,
  -- then by an exception of the file system that is not caught.
  pub validate_settings-Completes :
      (s : Settings)
      → Ends (Completes s) (λ e. (¬ CanSign s) ⊎ FromOutside site e) (validate_settings site s)
  unfolding validate_settings
  validate_settings-Completes s =
      Ends-bind {R = Fills s} {F = FromOutside site} _ (check_jwt_or_node_token site)
        (Ends-bind {R = Fills s} {F = FromOutside site} _
          (apply_device_config_executor_factory site) (apply_default-Fills s)
          (λ t first. Ends-weaken _ (apply_factory-Fills t) (λ u second. Fills-trans first second))
          (λ _ h. h))
        (λ u filled. checked u filled (check_jwt_or_node_token site u) (check_jwt-CanSign u))
        (λ _ h. inr h)
    where
      checked :
          (u : Settings)
          → Fills s u
          → (r : Result Settings) → Ends (λ s'. (s' ≡ u) × CanSign u) (λ _. ¬ CanSign u) r
          → Ends (Completes s) (λ e. (¬ CanSign s) ⊎ FromOutside site e) r
      checked u filled (ok s') h =
          let (same, can) = h.holds in
          record { holds = subst (Completes s) (sym same) (filled, can) }
      checked u filled (raise e) h = record {
        holds = inl (λ can. h.holds (CanSign-Fills filled can));
      }
