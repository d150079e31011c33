-- ===== src/Vpn/Tests.antt =====
-- Runs of the VPN modules on concrete inputs, and the theorems applied to them.
use coda_self_service.Prelude.{
  ◌≡◌, refl, String, ◌<>◌, true, false, none, some, List, [], ◌∷◌, ltb, if◌then◌else◌,
}
use coda_self_service.Prelude.Int.{pos}
use coda_self_service.Prelude.Text.{str_nat}
use coda_self_service.Prelude.Lines.{lower, split, splitlines, split_at, split, lower}
use coda_self_service.Effects.{node_error, ok, raise}
use coda_self_service.Effects.Rules.{Post}
use coda_self_service.Vpn.Interfaces.{other_platform, parse_darwin_tun_interfaces, scan_darwin}
use coda_self_service.Vpn.Guard
use coda_self_service.Vpn.Guard.{ServiceState, booting, ready, preflight, watch}
use coda_self_service.Vpn.Guard.Readiness.{IsJustified, changes, supervised, preflight-IsJustified}
use coda_self_service.Vpn.Guard.Alternation.{alternates, announced, watch-alternates}
use coda_self_service.Vpn.Profile.{check_lines, directive_of, validate_vpn_profile}
use coda_self_service.Vpn.Profile.Refusal.{Verdict, validate_vpn_profile-Verdict}

-- the tunnel is there from time 4 on
abbrev pub flapping : Guard.Env
flapping = record {
  probe_targets = [];
  interface_hint = none;
  check_interval_sec = 10;
  vpn_required = true;
  system = other_platform;
  json_loads = λ _. none;
  run = λ t _. ok (record { returncode = pos 0; stdout = if ltb t 4 then "" else "1: tun0: UP" });
  hostname = λ _. ok none;
  getaddrinfo = λ _ _. ok tt;
  head = λ _ _. ok 200;
  latency = λ _. record { bits = 0 };
  message = λ _. "error";
  sleep = λ _. ok tt;
  on_change = some (λ _ _. ok tt);
  stopped = λ _. false;
}

abbrev pub booted : Guard.World
booted = record { now = 0; trace = []; state = booting; running = false }

-- the tunnel is there, and both targets answer
abbrev pub reached : Guard.Env
reached = record flapping {
  run = λ _ _. ok (record { returncode = pos 0; stdout = "1: tun0: UP" });
  probe_targets = "https://a" ∷ "https://b" ∷ [];
}

preflight-IsJustified_example :
    Post
      (λ status t. IsJustified reached booted status t)
      (λ _ t. supervised t ≡ supervised booted)
      (preflight reached booted)
preflight-IsJustified_example = preflight-IsJustified reached booted

watch-alternates_example :
    let t = (watch flapping 5 booted).1 in
    (alternates (changes t.trace) ≡ true) × (announced (changes t.trace) t.state ≡ true)
watch-alternates_example = watch-alternates flapping refl 5 booted refl

darwin_runs :
    parse_darwin_tun_interfaces "lo0: flags\n\tinet 127.0.0.1\nutun3: flags\n\tinet 10.8.0.2\n"
    ≡ some "utun3"
unfolding parse_darwin_tun_interfaces scan_darwin splitlines split_at
darwin_runs = refl

abbrev harmful : String
harmful = "client\ndev tun\n\tUp /bin/sh\n"

abbrev clean_lines : List String
clean_lines = "client" ∷ "dev tun" ∷ []

validate_vpn_profile-Verdict_example : Verdict (splitlines harmful) (validate_vpn_profile harmful)
validate_vpn_profile-Verdict_example = validate_vpn_profile-Verdict harmful

-- the second line is the first that is dangerous
harmful_refused :
    validate_vpn_profile harmful
    ≡ raise (
        node_error (
          "Refusing OpenVPN profile: forbidden directive '"
          <> directive_of "\tUp /bin/sh"
          <> "' on line 3"))
unfolding validate_vpn_profile check_lines splitlines directive_of lower split str_nat
harmful_refused = refl
