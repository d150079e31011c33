-- ===== src/Cli/Listed.antt =====
-- src/coda_node/server/cli.py, `_read_reset_paths` and `_reset`: what a reset removes, read off the persisted
-- configuration.
use coda_self_service.Prelude.{
  ◌≡◌, refl, ap, ◌∙◌, String, Bool, true, false, not, ◌&&◌, ◌||◌, Bool-cases, inl, inr, Option,
  none, some, List, [], ◌∷◌, ◌++◌, contains, lookup, str_eq, arith,
}
use coda_self_service.Prelude.Text.{is_blank}
use coda_self_service.Values.{Value, str, nonempty_str, Dict}
use coda_self_service.Effects.{Exc, is_connection, Result, ok, raise}
use coda_self_service.Effects.Rules.{Post, Post-weaken}
use coda_self_service.Cli.State.{World, Env, present, config_path}
use coda_self_service.Cli.Removal.{contains-sorted}
use coda_self_service.Cli.Reset.{
  sorted, fixed_paths, configured, with_fixed, read_reset_paths, reset_all,
}
use coda_self_service.Cli.Wiped.{reset_all-Wiped}

contains-append :
    (xs ys : List String) (q : String) → contains (xs ++ ys) q ≡ (contains xs q || contains ys q)
contains-append [] ys q = refl
contains-append (x ∷ xs) ys q = let rest = contains-append xs ys q in ground arith

module _ (env : Env) where
  -- the document that a reset in a state goes by: it has no field where the file is missing, cannot be read, or
  -- is no object of JSON
  pub data Persisted (s : World) : Dict → Type 0 where
    missing : present env s (config_path env) ≡ false → Persisted s []
    unread :
        (e : Exc)
        → present env s (config_path env) ≡ true
        → env.config_text ≡ raise e
        → is_connection e ≡ true
        → Persisted s []
    undecoded :
        (text : String)
        → present env s (config_path env) ≡ true
        → env.config_text ≡ ok text
        → env.json_loads text ≡ none
        → Persisted s []
    no_object :
        (text : String)
        → present env s (config_path env) ≡ true
        → env.config_text ≡ ok text
        → env.json_loads text ≡ some none
        → Persisted s []
    object :
        (text : String) (dict : Dict)
        → present env s (config_path env) ≡ true
        → env.config_text ≡ ok text
        → env.json_loads text ≡ some (some dict)
        → Persisted s dict

  -- whether a field names a path
  abbrev pub names : Option Value → String → Bool
  names (some (str value)) q = not (is_blank value) && str_eq (env.path value) q
  names _ q = false

  -- whether a path is a file of the node, or one of the two that the document names
  abbrev pub is_wiped : Dict → String → Bool
  is_wiped dict q =
      contains (fixed_paths env) q
      || (names (lookup "jwt_private_key_path" dict) q
          || names (lookup "node_vpn_profile_path" dict) q)

  configured-names :
      (field : Option Value) (q : String)
      → contains (configured env (nonempty_str field)) q ≡ names field q
  configured-names none q = refl
  configured-names (some (str value)) q = elim (Bool-cases (is_blank value)) [
    | inl blank ↦ rw blank refl
    | inr given ↦ ground arith
  ]
  configured-names (some _) q = refl

  -- the paths of a document
  Reads : Result (List String) → Dict → Type 0
  Reads r dict =
      (paths : List String) × ((r ≡ ok paths) × ((q : String) → contains paths q ≡ is_wiped dict q))

  with_fixed-Reads :
      (r : Result (List String)) (more : List String) (dict : Dict)
      → r ≡ ok more
      → ((q : String)
          → contains more q ≡ (
              names (lookup "jwt_private_key_path" dict) q
              || names (lookup "node_vpn_profile_path" dict) q))
      → Reads (with_fixed env r) dict
  unfolding Reads
  with_fixed-Reads r more dict e h =
      let given : with_fixed env r ≡ ok (sorted (fixed_paths env ++ more)) = rw e refl in
      (
        _,
        (
          given,
          λ q.
              contains-sorted (fixed_paths env ++ more) q
              ∙ contains-append (fixed_paths env) more q
              ∙ ap (λ b. contains (fixed_paths env) q || b) (h q),
        ),
      )

  read_reset_paths-Reads :
      (s : World) (dict : Dict)
      → Persisted s dict
      → Reads (read_reset_paths env (present env s (config_path env))) dict
  unfolding read_reset_paths lookup
  read_reset_paths-Reads s _ (missing a) = with_fixed-Reads _ [] [] (rw a refl) (λ q. refl)
  read_reset_paths-Reads s _ (unread e p r c) =
      with_fixed-Reads _ [] [] (rw (p, r, c) refl) (λ q. refl)
  read_reset_paths-Reads s _ (undecoded text p r c) =
      with_fixed-Reads _ [] [] (rw (p, r, c) refl) (λ q. refl)
  read_reset_paths-Reads s _ (no_object text p r c) =
      with_fixed-Reads _ [] [] (rw (p, r, c) refl) (λ q. refl)
  read_reset_paths-Reads s _ (object text dict p r c) =
      let key = configured env (nonempty_str (lookup "jwt_private_key_path" dict)) in
      let profile = configured env (nonempty_str (lookup "node_vpn_profile_path" dict)) in
      with_fixed-Reads _ (key ++ profile) dict (rw (p, r, c) refl) λ q.
        contains-append key profile q
        ∙ ap (λ b. b || contains profile q)
            (configured-names (lookup "jwt_private_key_path" dict) q)
        ∙ ap (λ b. names (lookup "jwt_private_key_path" dict) q || b)
            (configured-names (lookup "node_vpn_profile_path" dict) q)

  -- A reset goes by the persisted configuration, where that is an object of JSON that can be read. If it returns,
  -- the files of the node and the key and the VPN profile that the configuration names exist no more, and every
  -- other path exists as before; if it raises, every other path exists as before.
  pub reset_all-Persisted :
      (s : World) (dict : Dict)
      → Persisted s dict
      → Post
          (λ code t.
            (code ≡ 0)
            × ((q : String) → present env t q ≡ (present env s q && not (is_wiped dict q))))
          (λ _ t. (q : String) → is_wiped dict q ≡ false → present env t q ≡ present env s q)
          (reset_all env s)
  unfolding Reads
  reset_all-Persisted s dict persisted =
      let (paths, (listed, wiped)) = read_reset_paths-Reads s dict persisted in
      Post-weaken _ (reset_all-Wiped env s paths listed)
        (λ _ t (code, h). (code, λ q. h q ∙ ap (λ b. present env s q && not b) (wiped q)))
        (λ _ t h q kept. h q (wiped q ∙ kept))
