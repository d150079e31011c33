-- ===== src/Vpn/Service/Bundle/Credentials.antt =====
-- src/coda_node/vpn/service.py, `apply_node_bundle`: what the settings have when it returns.
use coda_self_service.Prelude.{
  ◌≡◌, refl, sym, subst, ℕ, String, false, Option, none, some, lookup, arith,
}
use coda_self_service.Prelude.Text.{is_blank}
use coda_self_service.Config.{Settings}
use coda_self_service.Effects.{Result, ok, raise, Action, lift, gets, ◌>>=◌, modify}
use coda_self_service.Effects.Rules.{Post, Post-bind, Post-Keeps, Post-weaken}
use coda_self_service.Values.{Value, null, bool, int, str, strings, other, Dict, nonempty_str}
use coda_self_service.Vpn.Service.State.{NodeBundle, World, Env, update}
use coda_self_service.Vpn.Service.Bundle.{
  as_str, credential, apply_credentials, apply_urls, apply_node_bundle,
}
use coda_self_service.Vpn.Service.Bundle.Views.{Credentials, credentials, apply_vpn-view}

abbrev Nonblank : String → Type 0
Nonblank s = is_blank s ≡ false

-- no credential is empty
pub record IsComplete (c : Credentials) : Type 0 where
  pub qpu_id : Nonblank c.qpu_id
  pub native_gate_set : Nonblank c.native_gate_set
  pub jwt_private_key : Nonblank c.jwt_private_key
  pub jwt_key_id : Nonblank c.jwt_key_id
  pub redis_url : Nonblank c.redis_url
  pub webapp_url : Nonblank c.webapp_url

nonempty_str-Nonblank : (v : Option Value) (s : String) → nonempty_str v ≡ some s → Nonblank s
nonempty_str-Nonblank none s h = cc h
nonempty_str-Nonblank (some (str x)) s h = ground arith
nonempty_str-Nonblank (some null) s h = cc h
nonempty_str-Nonblank (some (bool b)) s h = cc h
nonempty_str-Nonblank (some (int n)) s h = cc h
nonempty_str-Nonblank (some (strings ss)) s h = cc h
nonempty_str-Nonblank (some (other b)) s h = cc h

as_str-Nonblank : (d : Dict) (key : String) {s : String} → as_str d key ≡ ok s → Nonblank s
unfolding as_str
as_str-Nonblank d key {s} h = let l = nonempty_str-Nonblank (lookup key d) s in ground (arith, l)

credential-Nonblank :
    (d : Dict) (key current : String) {s : String} → credential d key current ≡ ok s → Nonblank s
unfolding credential
credential-Nonblank d key current {s} h =
    let l = nonempty_str-Nonblank (lookup key d) s in ground (arith, l)

-- a part of the update that raises leaves this unsaid
abbrev Then : {A : Type 0} → (A → World → Type 0) → Result A × World → Type 0
Then Q = Post Q (λ _ _. Unit {0})

-- `settings.field = value`, where the value may raise
Then-set :
    {A B : Type 0} {Q : B → World → Type 0} (r : Result A) (f : A → Settings → Settings)
    (k : A → Action World B) (s : World)
    → ((a : A) → r ≡ ok a → Then Q (k a (record s { settings = f a s.settings })))
    → Then Q ((lift r >>= λ a. update (f a) >>= λ _. k a) s)
unfolding lift update modify ◌>>=◌
Then-set (ok a) f k s h = h a refl
Then-set (raise e) f k s h = record { holds = tt }

-- the same at the end of a part
Then-set_last :
    {A : Type 0} {Q : Unit {0} → World → Type 0} (r : Result A) (f : A → Settings → Settings)
    (s : World)
    → ((a : A) → r ≡ ok a → Q tt (record s { settings = f a s.settings }))
    → Then Q ((lift r >>= λ a. update (f a)) s)
unfolding lift update modify ◌>>=◌
Then-set_last (ok a) f s h = record { holds = h a refl }
Then-set_last (raise e) f s h = record { holds = tt }

Then-gets :
    {A B : Type 0} {Q : B → World → Type 0} (f : World → A) (k : A → Action World B) (s : World)
    → Then Q (k (f s) s)
    → Then Q ((gets f >>= k) s)
unfolding gets ◌>>=◌
Then-gets f k s h = h

-- the identity of the node, with its keys
abbrev Identified : Unit {0} → World → Type 0
Identified _ t =
    Nonblank t.settings.qpu_id
    × Nonblank t.settings.native_gate_set
    × Nonblank t.settings.jwt_private_key
    × Nonblank t.settings.jwt_key_id

apply_credentials-Identified : (d : Dict) (s : World) → Then Identified (apply_credentials d s)
unfolding apply_credentials
apply_credentials-Identified d s = Then-set _ _ _ s λ qpu_id p. Then-set _ _ _ _ λ name _.
    Then-set _ _ _ _ λ gate_set q. Then-gets _ _ _ (
      Then-set _ _ _ _ λ num_qubits _. Then-set _ _ _ _ λ key r. Then-set_last _ _ _ λ key_id t. (
        as_str-Nonblank d _ p,
        as_str-Nonblank d _ q,
        credential-Nonblank d _ _ r,
        credential-Nonblank d _ _ t,
      ))

apply_urls-IsComplete :
    (d : Dict) (s : World)
    → Identified tt s
    → Then (λ _ t. IsComplete (credentials t)) (apply_urls d s)
unfolding apply_urls update modify
apply_urls-IsComplete d s (a, b, c, e) = Then-set _ _ _ s λ redis_url p.
    Then-set _ _ _ _ λ webapp_url q. record {
      holds = record {
        qpu_id = a;
        native_gate_set = b;
        jwt_private_key = c;
        jwt_key_id = e;
        redis_url = as_str-Nonblank d _ p;
        webapp_url = as_str-Nonblank d _ q;
      };
    }

-- When `apply_node_bundle` returns, no credential of the settings is empty: neither the identifier of
-- the QPU, the gate set, the private key and its identifier, nor the URLs of Redis and the cloud,
-- whatever the bundle, the old settings and the outside were.
pub apply_node_bundle-IsComplete :
    (env : Env) (rounds : ℕ) (bundle : NodeBundle) (s : World)
    → Post
        (λ _ t. IsComplete (credentials t))
        (λ _ _. Unit {0})
        (apply_node_bundle env rounds bundle s)
unfolding apply_node_bundle
apply_node_bundle-IsComplete env rounds bundle s =
    Post-bind _ _ s (apply_credentials-Identified bundle.fields s) λ _ t h.
      Post-bind _ _ t (apply_urls-IsComplete bundle.fields t h) λ _ u k.
        Post-weaken _ (Post-Keeps _ u (apply_vpn-view env rounds bundle.vpn))
          (λ _ v e. subst IsComplete (sym e) k) (λ _ _ _. tt)
