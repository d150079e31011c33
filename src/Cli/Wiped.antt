-- ===== src/Cli/Wiped.antt =====
-- src/coda_node/server/cli.py, `_reset`: which files it removes.
use coda_self_service.Prelude.{
  ℕ, ◌≡◌, ◌≢◌, refl, sym, ap, ◌∙◌, String, ◌<>◌, Bool, true, false, not, ◌&&◌, Bool-cases, inl, inr,
  List, [], ◌∷◌, ◌++◌, contains, str_eq, str_eq_iff, arith, if◌then◌else◌,
}
use coda_self_service.Prelude.Text.{chars}
use coda_self_service.Prelude.Splitting.{chars-append}
use coda_self_service.Effects.{value_error, Exc, Result, ok, raise, Action, pure, lift, ◌>>=◌, ◌>>◌}
use coda_self_service.Effects.Rules.{
  Post, Post-bind, Post-return, Post-modify, Post-gets, Post-weaken, Post-any,
}
use coda_self_service.Effects.Parts.{Post-within}
use coda_self_service.Daemon.State as Daemon
use coda_self_service.Vpn.Service.Daemon.{kill_openvpn_daemon}
use coda_self_service.Daemon.{stop_daemon}
use coda_self_service.Cli.State.{
  World, Env, present, config_path, openvpn_pid_path, daemon_pid_path,
}
use coda_self_service.Cli.Screen.{print_line, print_lines}
use coda_self_service.Cli.Removal.{
  contains-sorted, contains-without, print-Same, exists-Same, remove_each-Removed,
}
use coda_self_service.Cli.Reset.{
  sorted, fixed_paths, with_fixed, read_reset_paths, exists, in_daemon, in_service, kill_openvpn,
  stop_timeout, remove_each, reset_all,
}

abbrev rest_of {ℓ} : {A : Type ℓ} → List A → List A
rest_of [] = []
rest_of (x ∷ xs) = xs

append_cancel {ℓ} : {A : Type ℓ} (xs : List A) {ys zs : List A} → xs ++ ys ≡ xs ++ zs → ys ≡ zs
append_cancel [] h = h
append_cancel (x ∷ xs) h = append_cancel xs (ap rest_of h)

-- two files of one directory
names_differ :
    (directory a b : String) → chars a ≢ chars b → str_eq (directory <> a) (directory <> b) ≡ false
names_differ directory a b differ = elim (Bool-cases (str_eq (directory <> a) (directory <> b))) [
  | inr other ↦ other
  | inl same ↦ absurd (
      differ (
        append_cancel (chars directory) (
          sym (chars-append directory a)
          ∙ ap chars ((str_eq_iff (directory <> a) (directory <> b)).0 same)
          ∙ chars-append directory b)))
]

module _ (env : Env) where
  -- all paths but the two pid files exist as before
  Apart : World → World → Type 0
  Apart s t =
      (q : String)
      → str_eq (daemon_pid_path env) q ≡ false
      → str_eq (openvpn_pid_path env) q ≡ false
      → present env t q ≡ present env s q

  in_daemon-Apart :
      {A : Type 0} (m : Daemon.Env → Action Daemon.World A) (s : World)
      → Post (λ _ t. Apart s t) (λ _ t. Apart s t) (in_daemon env m s)
  unfolding in_daemon Apart present
  in_daemon-Apart m s = Post-bind {R = λ _ t. t ≡ s} _ _ s (Post-gets _ s refl) λ given t same.
      Post-within _ _ (m given) t {Q = λ _ _. Unit} {E = λ _ _. Unit} (Post-any _)
        (λ _ v _ q d o. rw (d, same) refl) (λ _ v _ q d o. rw (d, same) refl)

  kill_openvpn-Apart : (s : World) → Post (λ _ t. Apart s t) (λ _ t. Apart s t) (kill_openvpn env s)
  unfolding kill_openvpn in_service Apart present
  kill_openvpn-Apart s =
      Post-bind {R = λ _ t. Apart s t} _ _ s
        (Post-bind {R = λ _ t. t ≡ s} _ _ s (Post-gets _ s refl) λ given t same.
          Post-within _ _ (kill_openvpn_daemon given) t {Q = λ _ _. Unit} {E = λ _ _. Unit}
            (Post-any _) (λ _ v _ q d o. rw (d, same) refl) (λ _ v _ q d o. rw (d, same) refl))
        λ killed t apart.
          Post-bind {R = λ _ u. Apart s u} _ _ t
            (Post-modify _ t λ q d o.
              let e = apart q d o in
              ground (arith, contains-without (openvpn_pid_path env) t.files q))
            λ _ u h. Post-return killed u h

  -- a step that keeps all but the pid files, and the rest
  then-Apart :
      {A B : Type 0} {Q : B → World → Type 0} {E : Exc → World → Type 0} (m : Action World A)
      (f : A → Action World B) (s t : World)
      → Apart s t
      → ((e : Exc) (u : World) → Apart s u → E e u)
      → Post (λ _ u. Apart t u) (λ _ u. Apart t u) (m t)
      → ((a : A) (u : World) → Apart s u → Post Q E (f a u))
      → Post Q E ((m >>= f) t)
  unfolding Apart
  then-Apart m f s t before failing h rest =
      Post-bind {R = λ _ u. Apart s u} m f t
        (Post-weaken _ h (λ _ u k q d o. k q d o ∙ before q d o)
          (λ e u k. failing e u (λ q d o. k q d o ∙ before q d o)))
        rest

  print-Apart :
      (lines : List String) (s : World)
      → Post (λ _ t. Apart s t) (λ _ t. Apart s t) (print_lines lines s)
  unfolding Apart
  print-Apart lines s =
      Post-weaken _ (print-Same env lines s) (λ _ t h q _ _. h q) (λ _ t h q _ _. h q)

  listed-sorted :
      (r : Result (List String)) (paths : List String)
      → with_fixed env r ≡ ok paths
      → (more : List String) × (paths ≡ sorted (fixed_paths env ++ more))
  listed-sorted (ok more) paths h = (more, cc h)
  listed-sorted (raise e) paths h = cc h

  -- the pid files are among the paths
  spared :
      (r : Result (List String)) (paths : List String) (q : String)
      → with_fixed env r ≡ ok paths
      → contains paths q ≡ false
      → (str_eq (daemon_pid_path env) q ≡ false) × (str_eq (openvpn_pid_path env) q ≡ false)
  spared r paths q h clear =
      let (more, e) = listed-sorted r paths h in
      let k : contains (fixed_paths env ++ more) q ≡ false =
        sym (contains-sorted (fixed_paths env ++ more) q)
        ∙ ap (λ ps. contains ps q) (sym e)
        ∙ clear in
      (ground arith, ground arith)

  Apart-refl : (s : World) → Apart s s
  unfolding Apart
  Apart-refl s q d o = refl

  config-Apart :
      (s t : World) → Apart s t → present env t (config_path env) ≡ present env s (config_path env)
  unfolding Apart
  config-Apart s t apart =
      apart (config_path env)
        (names_differ env.temp_dir "/coda-node.pid" "/coda.config" (λ h. cc h))
        (names_differ env.temp_dir "/coda-node-openvpn.pid" "/coda.config" (λ h. cc h))

  module _ (s : World) (paths : List String) where
    -- the paths are gone, and the others exist as before
    abbrev pub Wiped : World → Type 0
    Wiped t = (q : String) → present env t q ≡ (present env s q && not (contains paths q))

    abbrev pub Unharmed : Exc → World → Type 0
    Unharmed _ t = (q : String) → contains paths q ≡ false → present env t q ≡ present env s q

    module _ (listed : read_reset_paths env (present env s (config_path env)) ≡ ok paths) where
      Apart-Unharmed : (e : Exc) (t : World) → Apart s t → Unharmed e t
      unfolding Apart read_reset_paths
      Apart-Unharmed e t apart q clear = let (d, o) = spared _ paths q listed clear in apart q d o

      remove_each-Wiped :
          (t : World) → Apart s t → Post (λ _ u. Wiped u) Unharmed (remove_each env paths false t)
      remove_each-Wiped t apart =
          Post-weaken _ (remove_each-Removed env paths false t)
            (λ _ u h q. elim (Bool-cases (contains paths q)) [
              | inl within_paths ↦ let k = h q in ground arith
              | inr outside ↦
                  let k = h q in
                  let e = Apart-Unharmed (value_error "") t apart q outside in ground arith
            ])
            (λ e u h q clear. h q clear ∙ Apart-Unharmed e t apart q clear)

      exists-Apart :
          (t : World)
          → Apart s t
          → Post
              (λ found u. (found ≡ present env s (config_path env)) × Apart s u)
              Unharmed
              (exists env (config_path env) t)
      unfolding Apart
      exists-Apart t apart =
          Post-weaken _ (exists-Same env (config_path env) t)
            (λ found u h. (h.0 ∙ config-Apart s t apart, λ q d o. h.1 q ∙ apart q d o))
            (λ e u h. Apart-Unharmed e u (λ q d o. h q ∙ apart q d o))

      print-Wiped :
          (b : Bool) (line : String) (t : World)
          → Wiped t
          → Post (λ _ u. Wiped u) Unharmed ((if b then pure tt else print_line line) t)
      print-Wiped true line t wiped = Post-return tt t wiped
      print-Wiped false line t wiped =
          Post-weaken _ (print-Same env (line ∷ []) t) (λ _ u h q. h q ∙ wiped q)
            (λ e u h q clear. let k = wiped q in h q ∙ (ground arith))

      -- from the look for the configuration on
      wipe :
          (t : World) (line : String)
          → Apart s t
          → Post
              (λ (code : ℕ) u. (code ≡ 0) × Wiped u)
              Unharmed
              ((do
                configured ← exists env (config_path env)
                paths ← lift (read_reset_paths env configured)
                removed_any ← remove_each env paths false
                (if removed_any then pure tt else print_line line)
                pure 0)
                t)
      unfolding lift
      wipe t line apart =
          Post-bind {R = λ found u. (found ≡ present env s (config_path env)) × Apart s u} _ _ t
            (exists-Apart t apart)
            λ found u (e, apart).
              Post-bind {R = λ ps v. (ps ≡ paths) × (v ≡ u)} _ _ u
                (rw (e, listed) (record { holds = (refl, refl) }))
                λ ps v (same, here).
                  Post-bind {R = λ _ w. Wiped w} (remove_each env ps false) _ v
                    (rw (same, here) (remove_each-Wiped u apart))
                    λ any w wiped.
                      Post-bind {R = λ _ x. Wiped x} _ _ w (print-Wiped any line w wiped)
                        λ _ x wiped. Post-return 0 x (refl, wiped)

      -- A reset of which the paths can be read: if it returns, none of them exists any more, and every other path
      -- exists as before; if it raises, every other path exists as before.
      pub reset_all-Wiped : Post (λ (code : ℕ) t. (code ≡ 0) × Wiped t) Unharmed (reset_all env s)
      unfolding reset_all
      reset_all-Wiped =
          then-Apart _ _ s s (Apart-refl s) Apart-Unharmed (print-Apart _ s) λ _ t apart.
            then-Apart _ _ s t apart Apart-Unharmed
              (in_daemon-Apart (λ d. stop_daemon d env.rounds (stop_timeout env)) t)
              λ stopped t apart.
                then-Apart _ _ s t apart Apart-Unharmed (print-Apart _ t) λ _ t apart.
                  then-Apart _ _ s t apart Apart-Unharmed (kill_openvpn-Apart t) λ killed t apart.
                    then-Apart _ _ s t apart Apart-Unharmed (print-Apart _ t)
                      λ _ t apart. wipe t _ apart
