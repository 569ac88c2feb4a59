-- ===== src/Ingress/Reconcile/Again.antt =====
-- Publishing hosts that are published already.
use cloudflare_tunnel_operat.Base.{
  String, ◌≡◌, refl, sym, ap, ◌∙◌, subst, Bool, true, false, List, [], ◌∷◌, ◌==◌, arith, All,
  eq_iff, Bool-cases, inl, inr,
}
use cloudflare_tunnel_operat.Base.Exec.{Exec, ok}
use cloudflare_tunnel_operat.Api.{CloudflareTunnel, CloudflareTunnelSettings}
use cloudflare_tunnel_operat.Domain.{TunnelConfiguration, healthy-id}
use cloudflare_tunnel_operat.Manager.{CloudflareTunnelManager}
use cloudflare_tunnel_operat.Manager.Views.{View, IsLawful, SameView, IsHealthy}
use cloudflare_tunnel_operat.Ingress.Hosts.{Host}
use cloudflare_tunnel_operat.Ingress.Rules.{append_rules}
use cloudflare_tunnel_operat.Ingress.Rules.Laws.{append_rules_idem}
use cloudflare_tunnel_operat.Ingress.Sync.{
  for_hosts, append_cloudflare_tunnel_config, append_dns_record,
}
use cloudflare_tunnel_operat.Ingress.Sync.Correct.{
  append_config_ok, append_dns_config, for_hosts_world, AllServed,
}
use cloudflare_tunnel_operat.Ingress.Reconcile.{IngressReconciler, publish}
use cloudflare_tunnel_operat.Ingress.Reconcile.Correct.{seq_ok, publish_ok}

module _ {W : Type 0} (M : CloudflareTunnelManager W) (V : View W) {served : String → Bool}
    (L : IsLawful M V served) where
  append_config-others :
      (t : String) (hosts : List Host) (ip : String) (s : CloudflareTunnelSettings) (w : W)
      → (u : String) → (t == u) ≡ false
      → V.config_of (append_cloudflare_tunnel_config M t hosts ip s w).1 u ≡ V.config_of w u
  unfolding append_cloudflare_tunnel_config
  append_config-others t hosts ip s w u n =
      grind (arith, L.get_config_config, L.update_config_others)

  append_config-records :
      (t : String) (hosts : List Host) (ip : String) (s : CloudflareTunnelSettings) (w : W)
      → (h : String)
      → V.record_of (append_cloudflare_tunnel_config M t hosts ip s w).1 h ≡ V.record_of w h
  unfolding append_cloudflare_tunnel_config
  append_config-records t hosts ip s w h =
      grind (arith, L.get_config_record, L.update_config_record)

  -- A healthy record is only read.
  append_dns-same :
      (t h : String) (w : W)
      → served h ≡ true
      → IsHealthy V t h w
      → (k : String) → V.record_of (append_dns_record M t h w).1 k ≡ V.record_of w k
  unfolding append_dns_record
  append_dns-same t h w s e k = grind (arith, L.get_dns_ok, L.get_dns_record, healthy-id)

  IsHealthy-after :
      (t h : String) (w : W)
      → served h ≡ true
      → IsHealthy V t h w
      → (hs : List Host) → All (λ (x : Host). IsHealthy V t x.host w) hs
      → All (λ (x : Host). IsHealthy V t x.host (append_dns_record M t h w).1) hs
  IsHealthy-after t h w s e [] a = tt
  IsHealthy-after t h w s e (x ∷ hs) a =
      (rw (append_dns-same t h w s e x.host) a.0, IsHealthy-after t h w s e hs a.1)

  loop-same :
      (t : String) (hs : List Host) (w : W)
      → AllServed served hs
      → All (λ (x : Host). IsHealthy V t x.host w) hs
      → SameView V (for_hosts (λ (h : Host). append_dns_record M t h.host) hs w).1 w
  unfolding for_hosts
  loop-same t [] w s a = record { same_config = λ u. refl; same_record = λ h. refl }
  loop-same t (h ∷ hs) w s a =
      let step = λ (x : Host). append_dns_record M t x.host in
      let rest = loop-same t hs (step h w).1 s.1 (IsHealthy-after t h.host w s.0 a.0 hs a.1) in
      elim (for_hosts_world step h hs w) [
        | inl e ↦ record {
          same_config = λ u.
              ap (λ v. V.config_of v u) e
              ∙ rest.same_config u
              ∙ append_dns_config M V L t h.host w u;
          same_record = λ k.
              ap (λ v. V.record_of v k) e
              ∙ rest.same_record k
              ∙ append_dns-same t h.host w s.0 a.0 k;
        }
        | inr e ↦ record {
          same_config = λ u. ap (λ v. V.config_of v u) e ∙ append_dns_config M V L t h.host w u;
          same_record = λ k. ap (λ v. V.record_of v k) e ∙ append_dns-same t h.host w s.0 a.0 k;
        }
      ]

  IsHealthy-moved :
      (t : String) (w w' : W)
      → ((h : String) → V.record_of w' h ≡ V.record_of w h)
      → (hs : List Host) → All (λ (x : Host). IsHealthy V t x.host w) hs
      → All (λ (x : Host). IsHealthy V t x.host w') hs
  IsHealthy-moved t w w' same [] a = tt
  IsHealthy-moved t w w' same (x ∷ hs) a =
      (rw (same x.host) a.0, IsHealthy-moved t w w' same hs a.1)

  -- Rules that are there already are written as they are.
  append_config-same :
      (t : String) (hosts : List Host) (ip : String) (s : CloudflareTunnelSettings)
      → (c : TunnelConfiguration) (w : W) → V.config_of w t ≡ append_rules s ip hosts c
      → (append_cloudflare_tunnel_config M t hosts ip s w).0 ≡ ok tt
      → SameView V (append_cloudflare_tunnel_config M t hosts ip s w).1 w
  append_config-same t hosts ip s c w there e = record {
    same_config = λ u. elim (Bool-cases (t == u)) [
      | inl p ↦
          let now = append_config_ok M V L t hosts ip s w e in
          subst
            (λ (x : String).
              V.config_of (append_cloudflare_tunnel_config M t hosts ip s w).1 x ≡ V.config_of w x)
            ((eq_iff t u).0 p)
            (now ∙ ap (append_rules s ip hosts) there ∙ append_rules_idem s ip hosts c ∙ sym there)
      | inr n ↦ append_config-others t hosts ip s w u n
    ];
    same_record = λ h. append_config-records t hosts ip s w h;
  }

abbrev pub twice :
    {W : Type 0} → IngressReconciler W → CloudflareTunnel → List Host → String → Exec W (Unit {0})
twice R t hosts ip w =
    publish R t.status.tunnel_id hosts ip t.spec.settings
      (publish R t.status.tunnel_id hosts ip t.spec.settings w).1

module _ {W : Type 0} (R : IngressReconciler W) (V : View W) {served : String → Bool}
    (L : IsLawful R.manager V served) where
  -- Where publishing hosts that the manager serves succeeded, and it succeeds again, the second time
  -- changes nothing on the Cloudflare side: neither a configuration of any tunnel nor a record of
  -- any name.
  pub publish_again :
      (t : CloudflareTunnel) (hosts : List Host) (ip : String) (w : W)
      → AllServed served hosts
      → (publish R t.status.tunnel_id hosts ip t.spec.settings w).0 ≡ ok tt
      → (twice R t hosts ip w).0 ≡ ok tt
      → SameView V
          (twice R t hosts ip w).1
          (publish R t.status.tunnel_id hosts ip t.spec.settings w).1
  unfolding publish
  publish_again t hosts ip w s e f =
      let id = t.status.tunnel_id in
      let published = publish_ok R V L t hosts ip w s e in
      let w' = (publish R id hosts ip t.spec.settings w).1 in
      let config = append_cloudflare_tunnel_config R.manager id hosts ip t.spec.settings in
      let (first, rest, end) =
        seq_ok "failed to update Cloudflare Tunnel config" "failed to update Cloudflare DNS Record"
          config (for_hosts (λ (h : Host). append_dns_record R.manager id h.host) hosts) w' f in
      let written =
        append_config-same R.manager V L id hosts ip t.spec.settings (V.config_of w id) w'
          published.rules first in
      let looped = loop-same R.manager V L id hosts (config w').1 s (
        IsHealthy-moved R.manager V L id w' (config w').1 written.same_record hosts
          published.records) in
      record {
        same_config =
            λ u. ap (λ v. V.config_of v u) end ∙ looped.same_config u ∙ written.same_config u;
        same_record =
            λ h. ap (λ v. V.record_of v h) end ∙ looped.same_record h ∙ written.same_record h;
      }
