-- ===== src/Daemon/Tail.antt =====
-- src/coda_node/server/daemon.py, `tail_daemon_log`: how much of the log it gives.
use coda_self_service.Prelude.{
  ◌≡◌, refl, ap, inl, inr, ℕ, suc, min, String, true, List, [], ◌∷◌, ◌++◌, arith, length, ltb,
  Bool-cases,
}
use coda_self_service.Prelude.Int.{pos}
use coda_self_service.Prelude.Lines.{splitlines, join}
use coda_self_service.Effects.{ok, pure, gets, try, ◌>>=◌}
use coda_self_service.Daemon.State.{World, Env, call}
use coda_self_service.Daemon.{last_of, tail_daemon_log}

module _ {ℓ} {A : Type ℓ} where
  length-last_of : (n : ℕ) (xs : List A) → length (last_of n xs) ≡ min n (length xs)
  length-last_of n [] = omega arith
  length-last_of n (x ∷ xs) = elim (Bool-cases (ltb n (length (x ∷ xs)))) [
    | inl longer ↦ rw longer (let rest = length-last_of n xs in ground (arith, rest))
    | inr short ↦ rw short (ground arith)
  ]

  last_of-suffix : (n : ℕ) (xs : List A) → (front : List A) × (xs ≡ front ++ last_of n xs)
  last_of-suffix n [] = ([], refl)
  last_of-suffix n (x ∷ xs) = elim (Bool-cases (ltb n (length (x ∷ xs)))) [
    | inl longer ↦
        rw longer (let (front, e) = last_of-suffix n xs in (x ∷ front, ap (λ xs. x ∷ xs) e))
    | inr short ↦ rw short ([], refl)
  ]

-- For a positive number of lines, `tail_daemon_log` of a log that can be read gives the last lines of the log,
-- as many as were asked for or all there are.
pub tail_daemon_log_bounded :
    (env : Env) (s : World) (n : ℕ) (text : String)
    → env.log_exists s.now ≡ true
    → env.log_text s.now ≡ ok text
    → (front : List String) × (kept : List String) × (splitlines text ≡ front ++ kept)
      × (length kept ≡ min (suc n) (length (splitlines text)))
      × ((tail_daemon_log env (pos (suc n)) s).0 ≡ ok (join "\n" kept))
unfolding tail_daemon_log call pure gets try ◌>>=◌
tail_daemon_log_bounded env s n text there read =
    let (front, e) = last_of-suffix (suc n) (splitlines text) in
    (
      front,
      last_of (suc n) (splitlines text),
      e,
      length-last_of (suc n) (splitlines text),
      rw (there, read) refl,
    )
