-- ===== src/Cli/Started.antt =====
-- src/coda_node/server/cli.py: what `coda start --daemon` hands to the daemon.
use coda_self_service.Prelude.{
  suc, ◌≡◌, refl, sym, ap, ◌∙◌, ℕ, String, true, false, some, inl, inr, List, ◌∷◌, lookup,
  lookup-insert,
}
use coda_self_service.Prelude.Int.{ℤ}
use coda_self_service.Prelude.Text.{is_blank, str_int}
use coda_self_service.Config.{Settings}
use coda_self_service.Effects.{Result, ok, raise}
use coda_self_service.Effects.Rules.{Post, Post-bind, Post-modify, Post-gets, Post-weaken}
use coda_self_service.Daemon.State as Daemon
use coda_self_service.Daemon.State.{Spawn}
use coda_self_service.Daemon.{command, spawn_of}
use coda_self_service.Daemon.Spawns.{started}
use coda_self_service.Cli.{overridden, token_of, load_settings, run_start, main}
use coda_self_service.Cli.State.{start, Arguments, Exit, returned, system_exit, World, Env, call}
use coda_self_service.Cli.Launched.{Kept, OneAtMost, Launches, asked_for, launch_once-Launches}
use coda_self_service.Cli.Reset.{daemon_env}

-- the process runs the server at that address, and its environment has that address and that token
pub record Asked (executable host : String) (port : ℤ) (token : String) (what : Spawn)
    : Type 0 where
  pub runs : what.command ≡ command executable host port
  pub gives_host : lookup "CODA_HOST" what.environment ≡ some host
  pub gives_port : lookup "CODA_PORT" what.environment ≡ some (str_int port)
  pub gives_token : lookup "CODA_NODE_TOKEN" what.environment ≡ some token

spawn_of-Asked :
    (d : Daemon.Env) (host : String) (port : ℤ) (token : String)
    → is_blank token ≡ false
    → Asked d.executable host port token (spawn_of d host port (token_of token))
spawn_of-Asked d host port token given = rw given (
    rw given (record {
      runs = refl;
      gives_host = rw lookup-insert (rw lookup-insert (rw lookup-insert refl));
      gives_port = rw lookup-insert (rw lookup-insert refl);
      gives_token = rw lookup-insert refl;
    }))

overridden-lookup :
    (a : Arguments) (host : String) (port : ℤ) (token : String) (environ : List (String × String))
    → a.host ≡ some host
    → is_blank host ≡ false
    → a.port ≡ some port
    → a.node_token ≡ some token
    → is_blank token ≡ false
    → (lookup "CODA_HOST" (overridden a environ) ≡ some host)
      × (lookup "CODA_PORT" (overridden a environ) ≡ some (str_int port))
      × (lookup "CODA_NODE_TOKEN" (overridden a environ) ≡ some token)
unfolding overridden
overridden-lookup a host port token environ h h' p t t' =
    rw (h, p, t)
      (rw (h', t')
        (
          rw lookup-insert (rw lookup-insert (rw lookup-insert refl)),
          rw lookup-insert (rw lookup-insert refl),
          rw lookup-insert refl,
        ))

-- `Settings()` takes the address and the token from the variables of the environment.
pub record HonoursVariables (settings : ℕ → List (String × String) → Result Settings) : Type 0 where
  pub reads_host :
      (t : ℕ) (vars : List (String × String)) (c : Settings) (host : String)
      → settings t vars ≡ ok c
      → lookup "CODA_HOST" vars ≡ some host
      → c.host ≡ host
  pub reads_port :
      (t : ℕ) (vars : List (String × String)) (c : Settings) (port : ℤ)
      → settings t vars ≡ ok c
      → lookup "CODA_PORT" vars ≡ some (str_int port)
      → c.port ≡ port
  pub reads_token :
      (t : ℕ) (vars : List (String × String)) (c : Settings) (token : String)
      → settings t vars ≡ ok c
      → lookup "CODA_NODE_TOKEN" vars ≡ some token
      → c.node_token ≡ token

module _ (env : Env) where
  -- the settings that are loaded
  abbrev Loaded : World → Settings → World → Type 0
  Loaded s c t = Kept env s c t × ((n : ℕ) × (env.settings n s.environ ≡ ok c))

  load_settings-Loaded : (s : World) → Post (Loaded s) (Kept env s) (load_settings env s)
  unfolding load_settings call
  load_settings-Loaded s =
      Post-bind {R = λ vars t. (vars ≡ s.environ) × (t ≡ s)} _ _ s (Post-gets _ s (refl, refl))
        λ vars t (e, same). rw (e, same) (go (env.settings s.now s.environ) refl)
    where
      go :
          (r : Result Settings)
          → env.settings s.now s.environ ≡ r
          → Post (Loaded s) (Kept env s) (r, record s { now = suc s.now })
      go (ok c) e = record { holds = ((refl, refl), (s.now, e)) }
      go (raise x) e = record { holds = (refl, refl) }

  -- the address and the token that were asked for
  abbrev pub Hands : String → ℤ → String → (Spawn → Type 0) → Type 0
  Hands host port token P =
      (what : Spawn) × (Asked env.daemon.executable host port token what × P what)

  rebase :
      (what : Spawn) (s t : World)
      → started t.daemon ≡ started s.daemon
      → (code : Exit) (u : World) → Launches env what t code u
      → Launches env what s code u
  rebase what s t same returned u h = h ∙ ap (λ rest. what ∷ rest) same
  rebase what s t same (system_exit code) u (inl h) = inl (h ∙ same)
  rebase what s t same (system_exit code) u (inr h) = inr (h ∙ ap (λ rest. what ∷ rest) same)

  module _ (honours : HonoursVariables env.settings) (a : Arguments) (host : String) (port : ℤ)
      (token : String) (has_host : a.host ≡ some host) (some_host : is_blank host ≡ false)
      (has_port : a.port ≡ some port) (has_token : a.node_token ≡ some token)
      (some_token : is_blank token ≡ false) where
    loaded-Asked :
        (n : ℕ) (environ : List (String × String)) (c : Settings)
        → env.settings n (overridden a environ) ≡ ok c
        → (d : Daemon.Env)
        → Asked d.executable host port token (spawn_of d c.host c.port (token_of c.node_token))
    loaded-Asked n environ c loaded d =
        let (h, p, t) =
          overridden-lookup a host port token environ has_host some_host has_port has_token
            some_token in
        rw
          (
            honours.reads_host n _ c host loaded h,
            honours.reads_port n _ c port loaded p,
            honours.reads_token n _ c token loaded t,
          )
          (spawn_of-Asked d host port token some_token)

    -- Where `Settings()` honours the variables of the environment: a `coda start --daemon` with an address and a
    -- token that ends without an exit code has started one process, which runs the server at that address and has
    -- the address and the token in its environment. One that exits with a code or raises has started that one
    -- process or none.
    pub start-Hands :
        (s : World)
        → Post
            (λ code t. Hands host port token (λ what. Launches env what s code t))
            (λ e t. Hands host port token (λ what. OneAtMost env what s e t))
            (main env (record a { reset_flag = false; command = some start; daemon = true }) s)
    unfolding main run_start overridden
    start-Hands s =
        Post-bind
          {R = λ _ t. (started t.daemon ≡ started s.daemon) × (t.environ ≡ overridden a s.environ)}
          _ _ s (Post-modify _ s (refl, refl))
          λ _ t (same, vars).
            Post-bind {R = Loaded t} _ _ t
              (Post-weaken _ (load_settings-Loaded t) (λ _ _ h. h)
                (λ e u h. (
                  spawn_of env.daemon host port (token_of token),
                  (spawn_of-Asked env.daemon host port token some_token, inl (h.0 ∙ same)),
                )))
              λ c u (kept, (n, loaded)).
                Post-weaken _ (launch_once-Launches env c u)
                  (λ code v h. (
                    asked_for env u c,
                    (
                      loaded-Asked n s.environ c (ap (env.settings n) (sym vars) ∙ loaded)
                          (daemon_env env u),
                      rebase (asked_for env u c) s u (kept.0 ∙ same) code v h,
                    ),
                  ))
                  (λ e v h. (
                    asked_for env u c,
                    (
                      loaded-Asked n s.environ c (ap (env.settings n) (sym vars) ∙ loaded)
                          (daemon_env env u),
                      rebase (asked_for env u c) s u (kept.0 ∙ same) (system_exit 1) v h,
                    ),
                  ))
