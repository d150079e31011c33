-- ===== src/Vpn/Guard/Grounds.antt =====
-- src/coda_node/vpn/guard.py, VPNGuard: what a verdict of `preflight` rests on outside of the program, and
-- what the name resolution and the probes find out.
use coda_self_service.Prelude.{
  ◌≡◌, refl, ◌⊎◌, inl, inr, ℕ, ◌≤◌, ◌<◌, String, Bool, true, false, ◌&&◌, Option, none, some, List,
  [], ◌∷◌, is_empty, All, ltb, arith, if◌then◌else◌, Bool-cases,
}
use coda_self_service.Prelude.Text.{is_blank}
use coda_self_service.Effects.{
  Exc, Result, ok, raise, is_connection, is_exception, ◌>>=◌, pure, throw, lift, gets, try,
}
use coda_self_service.Effects.Rules.{Post, Post-bind, Post-if, Post-return}
use coda_self_service.Vpn.Guard.{
  resolve_host, fails_to_resolve, probe_target, ProbeResult, World, Env, call, detect, dns_failures,
  run_probes, failed_probes, join_failures,
}

abbrev pub Any : {A : Type 0} → (A → Type 0) → List A → Type 0
Any P [] = ⊥
Any P (x ∷ xs) = P x ⊎ Any P xs

-- all, or some of the other kind
abbrev pub Judged : {A : Type 0} → (A → Type 0) → (A → Type 0) → List A → Bool → Type 0
Judged P Q xs true = All P xs
Judged P Q xs false = Any Q xs

module _ (env : Env) where
  -- The target was asked at some time: it answered with a status below 500, or with another one, or not at all.
  abbrev pub IsReached : String → Type 0
  IsReached target = (t : ℕ) × (code : ℕ) × ((env.head t target ≡ ok code) × (code < 500))

  abbrev pub Refused : Result ℕ → Type 0
  Refused (ok code) = 500 ≤ code
  Refused (raise e) = Unit

  abbrev pub IsUnreached : String → Type 0
  IsUnreached target = (t : ℕ) × Refused (env.head t target)

  -- the name of the target's host, if it has one, was looked up at some time, and was found or not
  abbrev pub Found : Option String → Type 0
  Found none = Unit
  Found (some hostname) =
      (is_blank hostname ≡ true) ⊎ ((t : ℕ) × (env.getaddrinfo t hostname ≡ ok tt))

  abbrev pub IsResolved : String → Type 0
  IsResolved target =
      (hostname : Option String) × ((env.hostname target ≡ ok hostname) × Found hostname)

  abbrev pub IsUnresolved : String → Type 0
  IsUnresolved target =
      (hostname : String) × (t : ℕ) × (e : Exc) × ((env.hostname target ≡ ok (some hostname))
        × (env.getaddrinfo t hostname ≡ raise e))

  -- what the search for an interface gave, when the check began
  abbrev pub HasInterface : World → Bool → Type 0
  HasInterface s true = (iface : String) × ((detect env s).0 ≡ ok (some iface))
  HasInterface s false = (detect env s).0 ≡ ok none

  -- What a verdict rests on, by whether the VPN is required and whether the verdict is good.
  abbrev pub Grounds : World → Bool → Bool → Type 0
  Grounds s true true =
      HasInterface s true × (All IsResolved env.probe_targets × All IsReached env.probe_targets)
  Grounds s true false =
      HasInterface s false
      ⊎ (Any IsUnresolved env.probe_targets ⊎ Any IsUnreached env.probe_targets)
  Grounds s false true = Unit
  Grounds s false false = ⊥

  abbrev pub Anything : {A : Type 0} → A → World → Type 0
  Anything _ _ = Unit

  join-Judged :
      {A : Type 0} (P Q : A → Type 0) (x : A) (xs : List A) (b c : Bool)
      → Judged P Q (x ∷ []) b
      → Judged P Q xs c
      → Judged P Q (x ∷ xs) (b && c)
  join-Judged P Q x xs true true (p, _) ps = (p, ps)
  join-Judged P Q x xs true false p qs = inr qs
  join-Judged P Q x xs false c (inl q) k = inl q
  join-Judged P Q x xs false c (inr q) k = absurd q

  pub returned : {A : Type 0} (r : Result A × World) → Post (λ a _. r.0 ≡ ok a) (λ _ _. Unit {0}) r
  returned (ok a, s) = record { holds = refl }
  returned (raise e, s) = record { holds = tt }

  lifted :
      {A : Type 0} (r : Result A) (s : World) → Post (λ a _. r ≡ ok a) (λ _ _. Unit {0}) (lift r s)
  unfolding lift
  lifted (ok a) s = record { holds = refl }
  lifted (raise e) s = record { holds = tt }

  status-Judged :
      (url : String) (t code : ℕ)
      → env.head t url ≡ ok code
      → Judged IsReached IsUnreached (url ∷ []) (ltb code 500)
  status-Judged url t code h =
      elim (Bool-cases (ltb code 500))
        as (λ _. Judged IsReached IsUnreached (url ∷ []) (ltb code 500)) [
          | inl low ↦ rw low ((t, code, (h, ground (arith, low))), tt)
          | inr high ↦ rw high (inl (t, rw h (ground (arith, high))))
        ]

  probe_target-Judged :
      (url : String) (s : World)
      → Post
          (λ probe _. Judged IsReached IsUnreached (url ∷ []) probe.ok)
          Anything
          (probe_target env url s)
  unfolding probe_target call try lift gets pure throw ◌>>=◌
  probe_target-Judged url s = go (env.head s.now url) refl
    where
      go :
          (answer : Result ℕ)
          → env.head s.now url ≡ answer
          → Post
              (λ probe _. Judged IsReached IsUnreached (url ∷ []) probe.ok)
              Anything
              (probe_target env url s)
      go (ok code) h = rw h (record { holds = status-Judged url s.now code h })
      go (raise e) h = rw h (
          Post-if (is_exception e) _ _ _ (λ _. record { holds = inl (s.now, rw h tt) })
            (λ _. record { holds = tt }))

  resolve_host-Judged :
      (target hostname : String) (s : World)
      → env.hostname target ≡ ok (some hostname)
      → Post
          (λ resolved _. Judged IsResolved IsUnresolved (target ∷ []) resolved)
          Anything
          (resolve_host env hostname s)
  unfolding resolve_host call try lift pure throw ◌>>=◌
  resolve_host-Judged target hostname s named = go (env.getaddrinfo s.now hostname) refl
    where
      go :
          (answer : Result (Unit {0}))
          → env.getaddrinfo s.now hostname ≡ answer
          → Post
              (λ resolved _. Judged IsResolved IsUnresolved (target ∷ []) resolved)
              Anything
              (resolve_host env hostname s)
      go (ok answer) h = rw h (record { holds = ((some hostname, (named, inr (s.now, h))), tt) })
      go (raise e) h = rw h (
          Post-if (is_connection e) _ _ _
            (λ _. record { holds = inl (hostname, s.now, e, (named, h)) })
            (λ _. record { holds = tt }))

  name_kept : (b : Bool) (name : String) → is_empty (if b then [] else name ∷ []) ≡ b
  name_kept true name = refl
  name_kept false name = refl

  fails_to_resolve-Judged :
      (target : String) (hostname : Option String) (s : World)
      → env.hostname target ≡ ok hostname
      → Post
          (λ failure _. Judged IsResolved IsUnresolved (target ∷ []) (is_empty failure))
          Anything
          (fails_to_resolve env hostname s)
  unfolding fails_to_resolve pure
  fails_to_resolve-Judged target none s named = record { holds = ((none, (named, tt)), tt) }
  fails_to_resolve-Judged target (some hostname) s named =
      Post-if (is_blank hostname) _ _ s
        (λ blank. record { holds = ((some hostname, (named, inl blank)), tt) })
        λ _.
          Post-bind (resolve_host env hostname) _ s (resolve_host-Judged target hostname s named)
            λ resolved t h. Post-return _ t (rw (name_kept resolved hostname) h)

  join_failures-empty :
      (failure rest : List String)
      → is_empty (join_failures env failure rest) ≡ (is_empty failure && is_empty rest)
  join_failures-empty [] rest = refl
  join_failures-empty (name ∷ names) rest = refl

  pub dns_failures-Judged :
      (targets : List String) (s : World)
      → Post
          (λ failures _. Judged IsResolved IsUnresolved targets (is_empty failures))
          Anything
          (dns_failures env targets s)
  unfolding dns_failures pure
  dns_failures-Judged [] s = record { holds = tt }
  dns_failures-Judged (target ∷ targets) s =
      Post-bind (lift (env.hostname target)) _ s (lifted (env.hostname target) s)
        λ hostname t named.
          Post-bind (fails_to_resolve env hostname) _ t
            (fails_to_resolve-Judged target hostname t named)
            λ failure u first.
              Post-bind (dns_failures env targets) _ u (dns_failures-Judged targets u)
                λ rest v later. Post-return _ v (
                  rw (join_failures-empty failure rest) (
                    join-Judged IsResolved IsUnresolved target targets (is_empty failure)
                      (is_empty rest) first later))

  failed_probes-empty :
      (probe : ProbeResult) (probes : List ProbeResult)
      → is_empty (failed_probes (probe ∷ probes)) ≡ (probe.ok && is_empty (failed_probes probes))
  unfolding failed_probes
  failed_probes-empty probe probes = ground arith

  pub run_probes-Judged :
      (targets : List String) (s : World)
      → Post
          (λ probes _. Judged IsReached IsUnreached targets (is_empty (failed_probes probes)))
          Anything
          (run_probes env targets s)
  unfolding run_probes failed_probes pure
  run_probes-Judged [] s = record { holds = tt }
  run_probes-Judged (target ∷ targets) s =
      Post-bind (probe_target env target) _ s (probe_target-Judged target s) λ probe t first.
        Post-bind (run_probes env targets) _ t (run_probes-Judged targets t) λ probes u later.
          Post-return _ u (
            rw (failed_probes-empty probe probes) (
              join-Judged IsReached IsUnreached target targets probe.ok
                (is_empty (failed_probes probes)) first later))
