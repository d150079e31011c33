-- ===== src/Vpn/Interfaces/Views.antt =====
-- src/coda_node/vpn/guard.py, `detect_tun_interface`: it changes nothing that its commands do not.
use coda_self_service.Prelude.{String, Option, none, some}
use coda_self_service.Prelude.Text.{is_blank}
use coda_self_service.Effects.{Exc, file_not_found, timeout_expired, Action, pure, throw}
use coda_self_service.Effects.Rules.{
  Keeps, Keeps-pure, Keeps-try, Keeps-bind, Keeps-if, Keeps-throw, Post, Post-bind, Post-if,
  Post-try,
}
use coda_self_service.Vpn.Interfaces.{
  Platform, darwin, windows, other_platform, Command, Output, JsonDocument, no_interface,
  detect_with, detect_hinted, detect_any, detect_tun_interface,
}

module _ {S : Type 0} {V : Type 0} {view : S → V} (system : Platform)
    (json_loads : String → Option JsonDocument) (run : Command → Action S Output)
    (h : (c : Command) → Keeps view (run c)) where
  detect_any-view : Keeps view (detect_any system json_loads run)
  unfolding detect_any
  detect_any-view = elim system as (λ p. Keeps view (detect_any p json_loads run)) [
    | darwin ↦ Keeps-bind _ _ (h _) (λ r. Keeps-pure _)
    | windows ↦ Keeps-bind _ _ (h _) (λ r. Keeps-pure _)
    | other_platform ↦ Keeps-bind _ _ (h _) (λ r. Keeps-pure _)
  ]

  detect_hinted-view : (hint : String) → Keeps view (detect_hinted system json_loads run hint)
  unfolding detect_hinted
  detect_hinted-view hint = elim system as (λ p. Keeps view (detect_hinted p json_loads run hint)) [
    | darwin ↦ Keeps-bind _ _ (h _) (λ r. Keeps-pure _)
    | windows ↦ Keeps-bind _ _ (h _) (λ r. Keeps-pure _)
    | other_platform ↦ Keeps-bind _ _ (h _) (λ r. Keeps-pure _)
  ]

  detect_with-view : (hint : Option String) → Keeps view (detect_with system json_loads run hint)
  detect_with-view none = detect_any-view
  detect_with-view (some hint) =
      Keeps-if (is_blank hint) _ _ detect_any-view (detect_hinted-view hint)

  no_interface-view : (e : Exc) → Keeps view (no_interface {S = S} e)
  no_interface-view file_not_found = Keeps-pure none
  no_interface-view timeout_expired = Keeps-pure none
  no_interface-view e = Keeps-throw e

  pub detect_tun_interface-view :
      (hint : Option String) → Keeps view (detect_tun_interface system json_loads run hint)
  unfolding detect_tun_interface
  detect_tun_interface-view hint = Keeps-try _ _ (detect_with-view hint) no_interface-view

-- What holds after each command holds after the detection, which runs one.
module _ {S : Type 0} {P : S → Type 0} (system : Platform)
    (json_loads : String → Option JsonDocument) (run : Command → Action S Output) (s : S)
    (h : (c : Command) → Post (λ _ t. P t) (λ _ t. P t) (run c s)) where
  abbrev Held : Action S (Option String) → Type 0
  Held m = Post (λ _ t. P t) (λ _ t. P t) (m s)

  pure-Held : (a : Option String) (t : S) → P t → Post (λ _ u. P u) (λ _ u. P u) (pure a t)
  unfolding pure
  pure-Held a t p = record { holds = p }

  detect_any-Held : Held (detect_any system json_loads run)
  unfolding detect_any
  detect_any-Held = elim system as (λ p. Held (detect_any p json_loads run)) [
    | darwin ↦ Post-bind _ _ s (h _) (λ r t p. pure-Held _ t p)
    | windows ↦ Post-bind _ _ s (h _) (λ r t p. pure-Held _ t p)
    | other_platform ↦ Post-bind _ _ s (h _) (λ r t p. pure-Held _ t p)
  ]

  detect_hinted-Held : (hint : String) → Held (detect_hinted system json_loads run hint)
  unfolding detect_hinted
  detect_hinted-Held hint = elim system as (λ p. Held (detect_hinted p json_loads run hint)) [
    | darwin ↦ Post-bind _ _ s (h _) (λ r t p. pure-Held _ t p)
    | windows ↦ Post-bind _ _ s (h _) (λ r t p. pure-Held _ t p)
    | other_platform ↦ Post-bind _ _ s (h _) (λ r t p. pure-Held _ t p)
  ]

  detect_with-Held : (hint : Option String) → Held (detect_with system json_loads run hint)
  detect_with-Held none = detect_any-Held
  detect_with-Held (some hint) =
      Post-if (is_blank hint) _ _ s (λ _. detect_any-Held) (λ _. detect_hinted-Held hint)

  no_interface-Held : (e : Exc) (t : S) → P t → Post (λ _ u. P u) (λ _ u. P u) (no_interface e t)
  unfolding pure throw
  no_interface-Held file_not_found t p = record { holds = p }
  no_interface-Held timeout_expired t p = record { holds = p }
  no_interface-Held e t p = record { holds = p }

  pub detect_tun_interface-Post :
      (hint : Option String) → Held (detect_tun_interface system json_loads run hint)
  unfolding detect_tun_interface
  detect_tun_interface-Post hint = Post-try _ _ s (detect_with-Held hint) no_interface-Held
