-- ===== src/Cli/Removal.antt =====
-- src/coda_node/server/cli.py: what the loop of `_reset` removes.
use coda_self_service.Prelude.{
  ◌≡◌, refl, sym, ap, ◌∙◌, ℕ, suc, String, Bool, true, false, not, ◌&&◌, ◌||◌, Bool-cases, inl, inr,
  List, [], ◌∷◌, contains, str_eq, str_eq_iff, arith,
}
use coda_self_service.Effects.{Result, ok, raise}
use coda_self_service.Effects.Rules.{
  Post, Post-bind, Post-if, Post-return, Post-modify, Post-gets, Post-weaken,
}
use coda_self_service.Cli.State.{World, Env, call, present, daemon_pid_path}
use coda_self_service.Cli.Screen.{print_lines}
use coda_self_service.Cli.Reset.{
  add_path, sorted, without, exists, forget, unlink, remove, remove_each,
}

pub contains-without :
    (p : String) (qs : List String) (q : String)
    → contains (without p qs) q ≡ (contains qs q && not (str_eq p q))
contains-without p [] q = refl
contains-without p (x ∷ qs) q =
    ground (arith, contains-without p qs q, str_eq_iff x p, str_eq_iff x q, str_eq_iff p q)

contains-add_path :
    (p : String) (qs : List String) (q : String)
    → contains (add_path p qs) q ≡ (str_eq p q || contains qs q)
contains-add_path p [] q = refl
contains-add_path p (x ∷ qs) q =
    ground (arith, contains-add_path p qs q, str_eq_iff p x, str_eq_iff x q, str_eq_iff p q)

pub contains-sorted : (ps : List String) (q : String) → contains (sorted ps) q ≡ contains ps q
contains-sorted [] q = refl
contains-sorted (p ∷ ps) q =
    contains-add_path p (sorted ps) q ∙ ap (λ b. str_eq p q || b) (contains-sorted ps q)

module _ (env : Env) where
  present-forget :
      (p q : String) (s : World)
      → present env (forget env p s) q ≡ (present env s q && not (str_eq p q))
  unfolding present
  present-forget p q s = ground (
    arith,
    contains-without p s.files q,
    str_eq_iff (daemon_pid_path env) p,
    str_eq_iff (daemon_pid_path env) q,
    str_eq_iff p q,
  )

  -- the same paths exist
  abbrev pub Same : World → World → Type 0
  Same s t = (q : String) → present env t q ≡ present env s q

  -- without a path, and otherwise the same
  abbrev pub Removed : String → World → World → Type 0
  Removed p s t = (q : String) → present env t q ≡ (present env s q && not (str_eq p q))

  -- unless a path is that one, it exists or not as before
  abbrev pub Spared : String → World → World → Type 0
  Spared p s t = (q : String) → str_eq p q ≡ false → present env t q ≡ present env s q

  call-Same :
      {A : Type 0} (ask : ℕ → Result A) (s : World)
      → Post (λ _ t. Same s t) (λ _ t. Same s t) (call ask s)
  unfolding call present
  call-Same {A} ask s = go (ask s.now)
    where
      go :
          (r : Result A)
          → Post (λ _ t. Same s t) (λ _ t. Same s t) (r, record s { now = suc s.now })
      go (ok a) = record { holds = λ q. refl }
      go (raise e) = record { holds = λ q. refl }

  pub print-Same :
      (lines : List String) (s : World)
      → Post (λ _ t. Same s t) (λ _ t. Same s t) (print_lines lines s)
  unfolding print_lines present
  print-Same lines s = Post-modify _ s (λ q. refl)

  pub exists-Same :
      (p : String) (s : World)
      → Post (λ found t. (found ≡ present env s p) × Same s t) (λ _ t. Same s t) (exists env p s)
  unfolding exists
  exists-Same p s =
      Post-bind {R = λ _ t. Same s t} _ _ s (call-Same (λ t. env.stat t p) s)
        λ _ t same. Post-gets _ t (same p, same)

  unlink-Removed :
      (p : String) (s : World) → Post (λ _ t. Removed p s t) (λ _ t. Same s t) (unlink env p s)
  unfolding unlink
  unlink-Removed p s =
      Post-bind {R = λ _ t. Same s t} _ _ s (call-Same (λ t. env.unlink t p) s) λ _ t same.
        Post-modify _ t λ q. present-forget p q t ∙ ap (λ b. b && not (str_eq p q)) (same q)

  -- a path that does not exist is as good as removed
  absent-Removed : (p : String) (s t : World) → present env s p ≡ false → Same s t → Removed p s t
  absent-Removed p s t absent same q = elim (Bool-cases (str_eq p q)) [
    | inl equal ↦
        same q ∙ ap (present env s) (sym ((str_eq_iff p q).0 equal)) ∙ absent ∙ (ground arith)
    | inr differs ↦ rw differs (same q ∙ (ground arith))
  ]

  remove-Removed :
      (p : String) (any : Bool) (s : World)
      → Post (λ _ t. Removed p s t) (λ _ t. Spared p s t) (remove env p any s)
  unfolding remove
  remove-Removed p any s =
      Post-bind {R = λ found t. (found ≡ present env s p) × Same s t} _ _ s
        (Post-weaken _ (exists-Same p s) (λ _ _ h. h) (λ _ _ h q _. h q))
        λ found t (e, same).
          Post-if found _ _ t
            (λ there.
              Post-bind {R = λ _ u. Removed p s u} _ _ t
                (Post-weaken _ (unlink-Removed p t)
                  (λ _ u h q. h q ∙ ap (λ b. b && not (str_eq p q)) (same q))
                  (λ _ u h q _. h q ∙ same q))
                λ _ u gone.
                  Post-bind {R = λ _ v. Removed p s v} _ _ u
                    (Post-weaken _ (print-Same _ u) (λ _ v h q. h q ∙ gone q)
                      (λ _ v h q differs. h q ∙ gone q ∙ (ground arith)))
                    λ _ v h. Post-return true v h)
            (λ absent.
              Post-bind {R = λ _ u. Removed p s u} _ _ t
                (Post-weaken _ (print-Same _ t)
                  (λ _ u h. absent-Removed p s u (sym e ∙ absent) (λ q. h q ∙ same q))
                  (λ _ u h q _. h q ∙ same q))
                λ _ u h. Post-return any u h)

  -- A loop that returns has removed its paths, and no loop removes another.
  pub remove_each-Removed :
      (paths : List String) (any : Bool) (s : World)
      → Post
          (λ _ t. (q : String) → present env t q ≡ (present env s q && not (contains paths q)))
          (λ _ t. (q : String) → contains paths q ≡ false → present env t q ≡ present env s q)
          (remove_each env paths any s)
  unfolding remove_each
  remove_each-Removed [] any s = Post-return any s λ q. ground arith
  remove_each-Removed (p ∷ paths) any s =
      Post-bind {R = λ _ t. Removed p s t} _ _ s
        (Post-weaken _ (remove-Removed p any s) (λ _ _ h. h) (λ _ t h q spared. h q (ground arith)))
        λ removed t first.
          Post-weaken _ (remove_each-Removed paths removed t)
            (λ _ u h q. let a = h q in let b = first q in ground arith)
            (λ _ u h q spared. let a = h q (ground arith) in let b = first q in ground arith)
