-- ===== src/Prelude/Dicts.antt =====
-- Python's `dict` with text keys: an association list in insertion order.
use Prim.Native.String.{String}
use mathlib.Core.Path.{◌≡◌, refl}
use mathlib.Core.List.{List, [], ◌∷◌}
use mathlib.Core.Option.{Option, none, some}
use native.Mathlib.Omega.{arith}
use text.Mathlib.Text.{◌==◌ as str_eq}
use text.Mathlib.TextEquality.{eq_iff}
use coda_self_service.Prelude.Tests.{if◌then◌else◌}

module _ {ℓ} {V : Type ℓ} where
  -- `entries.get(key)`
  unfoldable pub lookup : String → List (String × V) → Option V
  lookup key [] = none
  lookup key ((first, value) ∷ entries) =
      if str_eq first key then some value else lookup key entries

  -- `entries[key] = value`
  unfoldable pub insert : String → V → List (String × V) → List (String × V)
  insert key value [] = (key, value) ∷ []
  insert key value ((first, old) ∷ entries) =
      if str_eq first key then (key, value) ∷ entries else (first, old) ∷ insert key value entries

  pub lookup-insert :
      (entries : List (String × V)) (key asked : String) (value : V)
      → lookup asked (insert key value entries)
        ≡ (if str_eq key asked then some value else lookup asked entries)
  unfolding lookup insert
  lookup-insert [] key asked value = refl
  lookup-insert ((first, old) ∷ entries) key asked value =
      let later = lookup-insert entries key asked value in
      ground (arith, later, eq_iff first asked, eq_iff first key, eq_iff key asked)
