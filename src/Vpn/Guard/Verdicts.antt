-- ===== src/Vpn/Guard/Verdicts.antt =====
-- src/coda_node/vpn/guard.py, VPNGuard.preflight: every verdict has its grounds.
use coda_self_service.Prelude.{
  ◌≡◌, refl, subst, inl, inr, String, Bool, true, false, ◌&&◌, not, Option, none, some, is_empty,
  is_some, All, arith,
}
use coda_self_service.Effects.{Result, ok, ◌>>=◌}
use coda_self_service.Effects.Rules.{Post, Post-bind, Post-if}
use coda_self_service.Vpn.Guard.{
  World, Env, detect, dns_failures, run_probes, failed_probes, VpnStatus, check_probes, check_dns,
  preflight, unavailable, available, set_state,
}
use coda_self_service.Vpn.Guard.Grounds.{
  Judged, IsReached, IsUnreached, IsResolved, IsUnresolved, HasInterface, Grounds, Anything,
  returned, dns_failures-Judged, run_probes-Judged,
}

module _ (env : Env) where
  -- a part of a health check that was started with the state `s`
  abbrev Grounded : World → Result VpnStatus × World → Type 0
  Grounded s = Post (λ status _. Grounds env s env.vpn_required status.ok) (Anything env)

  good :
      (s : World) (required : Bool)
      → (required ≡ true → Grounds env s true true)
      → Grounds env s required true
  good s true h = h refl
  good s false h = tt

  bad :
      (s : World) (required : Bool)
      → required ≡ true
      → Grounds env s true false
      → Grounds env s required false
  bad s true e h = h
  bad s false e h = cc e

  both : (b c : Bool) → (not b && c) ≡ true → (b ≡ false) × (c ≡ true)
  both b c h = ground arith

  neither : (b c : Bool) → (not b && c) ≡ false → c ≡ true → b ≡ true
  neither b c h e = ground arith

  check_probes-Grounded :
      (found : Bool) (s t : World)
      → (env.vpn_required ≡ true → HasInterface env s true)
      → (env.vpn_required ≡ true → All (IsResolved env) env.probe_targets)
      → Grounded s (check_probes env found t)
  unfolding check_probes unavailable available set_state ◌>>=◌
  check_probes-Grounded found s t interface resolved =
      Post-bind (run_probes env env.probe_targets) _ t (run_probes-Judged env env.probe_targets t)
        λ probes u judged.
          let passed = is_empty (failed_probes probes) in
          Post-if (not passed && env.vpn_required) _ _ u
            (λ h.
              let (failed, required) = both passed env.vpn_required h in
              record {
                holds = bad s env.vpn_required required (
                    inr (
                      inr (
                        subst (Judged (IsReached env) (IsUnreached env) env.probe_targets) failed
                          judged)));
              })
            (λ h. record {
              holds = good s env.vpn_required λ required. (
                interface required,
                (
                  resolved required,
                  subst (Judged (IsReached env) (IsUnreached env) env.probe_targets)
                      (neither passed env.vpn_required h required) judged,
                ),
              );
            })

  check_dns-Grounded :
      (found : Bool) (s t : World)
      → (env.vpn_required ≡ true → HasInterface env s true)
      → Grounded s (check_dns env found t)
  unfolding check_dns unavailable set_state ◌>>=◌
  check_dns-Grounded found s t interface =
      Post-bind (dns_failures env env.probe_targets) _ t
        (dns_failures-Judged env env.probe_targets t)
        λ failures u judged.
          Post-if (not (is_empty failures) && env.vpn_required) _ _ u
            (λ h.
              let (failed, required) = both (is_empty failures) env.vpn_required h in
              record {
                holds = bad s env.vpn_required required (
                    inr (
                      inl (
                        subst (Judged (IsResolved env) (IsUnresolved env) env.probe_targets) failed
                          judged)));
              })
            (λ h. check_probes-Grounded found s u interface λ required.
              subst (Judged (IsResolved env) (IsUnresolved env) env.probe_targets)
                (neither (is_empty failures) env.vpn_required h required) judged)

  found-HasInterface :
      (s : World) (iface : Option String)
      → (detect env s).0 ≡ ok iface
      → HasInterface env s (is_some iface)
  found-HasInterface s none h = h
  found-HasInterface s (some name) h = (name, h)

  pub preflight-Grounds :
      (s : World)
      → Post (λ status _. Grounds env s env.vpn_required status.ok) (Anything env) (preflight env s)
  unfolding preflight unavailable set_state ◌>>=◌
  preflight-Grounds s = Post-bind (detect env) _ s (returned env (detect env s)) λ iface u h.
      Post-if (not (is_some iface) && env.vpn_required) _ _ u
        (λ out.
          let (missing, required) = both (is_some iface) env.vpn_required out in
          record {
            holds =
                bad s env.vpn_required required
                  (inl (subst (HasInterface env s) missing (found-HasInterface s iface h)));
          })
        (λ out. check_dns-Grounded (is_some iface) s u λ required.
          subst (HasInterface env s) (neither (is_some iface) env.vpn_required out required)
            (found-HasInterface s iface h))
