-- ===== src/Cli/Tests.antt =====
-- Commands on concrete files, and the theorems applied to them.
use coda_self_service.Prelude.{
  ◌≡◌, refl, ◌&&◌, not, suc, sym, ap, ◌∙◌, ℕ, String, ◌<>◌, Bool, true, false, Option, none, some,
  List, [], ◌∷◌, str_eq, str_eq_iff, lookup, if◌then◌else◌,
}
use coda_self_service.Prelude.Int.{ℤ, pos, negsuc}
use coda_self_service.Prelude.Text.{chars, int_of, strip, str_int, str_nat}
use coda_self_service.Prelude.Numerals.{int_of-strip-str_int}
use coda_self_service.Prelude.Splitting.{chars-append}
use coda_self_service.Values.{str, Dict}
use coda_self_service.Config.{Settings, default_settings}
use coda_self_service.Effects.{Exc, config_error, is_exception, ◌>>=◌, Result, ok, raise}
use coda_self_service.Effects.Rules.{Post}
use coda_self_service.Effects.Parts.{within}
use coda_self_service.Daemon.Tests as Daemon
use coda_self_service.Daemon.State.{call}
use coda_self_service.Daemon.{
  is_daemon_running, daemon_status, stop_daemon, read_daemon_pid, read_content, pid_text, stop_pid,
  process_exists, terminate, wait_exit, force_kill, unlink_pid,
}
use coda_self_service.Vpn.Service.Tests as Service
use coda_self_service.Cli.{main, run_stop, status_now}
use coda_self_service.Cli.State.{start, stop, status, Arguments, system_exit, World, Env, present}
use coda_self_service.Cli.Screen.{print_lines}
use coda_self_service.Cli.Reset.{in_daemon, reset_all}
use coda_self_service.Cli.Listed.{object, is_wiped, reset_all-Persisted}
use coda_self_service.Cli.Stopped.{stop-status}
use coda_self_service.Cli.Launched.{OneAtMost, Launches}
use coda_self_service.Cli.Started.{Hands, HonoursVariables, start-Hands}

-- the settings of a complete environment, with one port
abbrev from_variables : Option String → Option String → Option String → Result Settings
from_variables (some host) (some port) (some token) =
    if str_eq port "9000"
    then ok (record (default_settings "/tmp") { host = host; port = pos 9000; node_token = token })
    else raise (config_error port)
from_variables _ _ _ = raise (config_error "incomplete")

abbrev settings : ℕ → List (String × String) → Result Settings
settings t vars =
    from_variables (lookup "CODA_HOST" vars) (lookup "CODA_PORT" vars)
      (lookup "CODA_NODE_TOKEN" vars)

abbrev node : Env
node = record {
  temp_dir = "/tmp";
  path = λ p. p;
  daemon = Daemon.posix;
  service = Service.cloud 0;
  rounds = 2000;
  settings = settings;
  config_text = ok "{}";
  json_loads = λ _. some (some (("node_vpn_profile_path", str "/etc/coda.ovpn") ∷ []));
  stat = λ _ _. ok tt;
  unlink = λ _ _. ok tt;
  serve = λ _ _ _. ok tt;
}

abbrev provisioned : World
provisioned = record {
  now = 0;
  daemon = Daemon.running;
  service = Service.unprovisioned;
  files = "/tmp/coda.config" ∷ "/etc/coda.ovpn" ∷ "/etc/passwd" ∷ [];
  environ = [];
  printed = [];
  served = [];
}

abbrev document : Dict
document = ("node_vpn_profile_path", str "/etc/coda.ovpn") ∷ []

reset_all-Persisted_example :
    Post
      (λ code t.
        (code ≡ 0)
        × ((q : String)
            → present node t q ≡ (present node provisioned q && not (is_wiped node document q))))
      (λ _ t.
        (q : String)
        → is_wiped node document q ≡ false
        → present node t q ≡ present node provisioned q)
      (reset_all node provisioned)
unfolding present
reset_all-Persisted_example =
    reset_all-Persisted node provisioned document (object "{}" document refl refl refl)

-- the profile is removed, and another file of its directory stays
wiped_runs :
    (is_wiped node document "/etc/coda.ovpn" ≡ true)
    × (is_wiped node document "/etc/passwd" ≡ false)
unfolding lookup
wiped_runs = (refl, refl)

abbrev pub plain : Arguments
plain = record {
  reset_flag = false;
  command = none;
  host = some "10.0.0.1";
  port = some (pos 9000);
  node_token = some "secret";
  daemon = true;
  lines = pos 50;
}

abbrev after_stop : World
after_stop = (main node (record plain { reset_flag = false; command = some stop }) provisioned).1

stop-status_example :
    Post
      (λ code _. code ≡ system_exit 1)
      (λ e _. is_exception e ≡ false)
      (main node (record plain { reset_flag = false; command = some status }) after_stop)
unfolding main run_stop in_daemon status_now is_daemon_running daemon_status stop_daemon ◌>>=◌
    read_daemon_pid read_content pid_text call int_of stop_pid process_exists terminate wait_exit
    force_kill unlink_pid lookup print_lines within
stop-status_example = stop-status node plain plain provisioned after_stop refl

-- a result under a test
taken :
    {A : Type 0} (b : Bool) (given : A) (e : Exc) (c : A)
    → (if b then ok given else raise e) ≡ ok c
    → (b ≡ true) × (c ≡ given)
taken true given e c h = (refl, cc h)
taken false given e c h = cc h

-- what `from_variables` takes and gives
accepted :
    (h p k : Option String) (c : Settings)
    → from_variables h p k ≡ ok c
    → (host token : String) × (h ≡ some host)
      × (p ≡ some "9000")
      × (k ≡ some token)
      × (c ≡ record (default_settings "/tmp") { host = host; port = pos 9000; node_token = token })
accepted none p k c e = cc e
accepted (some host) none k c e = cc e
accepted (some host) (some port) none c e = cc e
accepted (some host) (some port) (some token) c e =
    let (same, given) = taken (str_eq port "9000") _ (config_error port) c e in
    (host, token, refl, ap some ((str_eq_iff port "9000").0 same), refl, given)

only_port : (port : ℤ) → str_int port ≡ "9000" → port ≡ pos 9000
unfolding str_int int_of
only_port (pos n) e =
    let read = sym (int_of-strip-str_int n) ∙ ap (λ text. int_of (strip (text <> "\n"))) e in
    cc read
only_port (negsuc n) e =
    let minus = sym (chars-append "-" (str_nat (suc n))) ∙ ap chars e in cc minus

settings-HonoursVariables : HonoursVariables settings
settings-HonoursVariables = record {
  reads_host = λ t vars c host e h.
      let (host', token, f, g, k, same) = accepted (lookup "CODA_HOST" vars) _ _ c e in
      cc (h, f, ap (λ (d : Settings). d.host) same);
  reads_port = λ t vars c port e h.
      let (host', token, f, g, k, same) = accepted (lookup "CODA_HOST" vars) _ _ c e in
      let p : str_int port ≡ "9000" = cc (h, g) in
      ap (λ (d : Settings). d.port) same ∙ sym (only_port port p);
  reads_token = λ t vars c token e h.
      let (host', token', f, g, k, same) = accepted (lookup "CODA_HOST" vars) _ _ c e in
      cc (h, k, ap (λ (d : Settings). d.node_token) same);
}

start-Hands_example :
    Post
      (λ code t.
        Hands node "10.0.0.1" (pos 9000) "secret" (λ what. Launches node what provisioned code t))
      (λ e t.
        Hands node "10.0.0.1" (pos 9000) "secret" (λ what. OneAtMost node what provisioned e t))
      (main node
        (record plain { reset_flag = false; command = some start; daemon = true })
        provisioned)
start-Hands_example =
    start-Hands node settings-HonoursVariables plain "10.0.0.1" (pos 9000) "secret" refl refl refl
      refl refl provisioned
