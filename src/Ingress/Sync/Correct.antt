-- ===== src/Ingress/Sync/Correct.antt =====
-- What publishing and withdrawing hosts leave behind, over any lawful manager.
use cloudflare_tunnel_operat.Base.{
  String, ◌≡◌, refl, sym, Bool, true, List, [], ◌∷◌, ◌==◌, eq_iff, arith, All, Bool-cases, ◌⊎◌, inl,
  inr, subst,
}
use cloudflare_tunnel_operat.Base.Exec.{Exec, ok}
use cloudflare_tunnel_operat.Api.{CloudflareTunnelSettings}
use cloudflare_tunnel_operat.Domain.{DnsRecord, healthy-id}
use cloudflare_tunnel_operat.Manager.{CloudflareTunnelManager}
use cloudflare_tunnel_operat.Manager.Views.{View, IsLawful, IsHealthy, IsGone}
use cloudflare_tunnel_operat.Ingress.Hosts.{Host}
use cloudflare_tunnel_operat.Ingress.Rules.{append_rules, remove_rules}
use cloudflare_tunnel_operat.Ingress.Sync.{
  for_hosts, append_cloudflare_tunnel_config, remove_cloudflare_tunnel_config, append_dns_record,
  remove_dns_record,
}

-- Every host is served.
abbrev pub AllServed : (String → Bool) → List Host → Type 0
AllServed served hs = All (λ (h : Host). served h.host ≡ true) hs

-- The first step of a successful loop, and the rest.
for_hosts_cons :
    {W : Type 0} (f : Host → Exec W (Unit {0})) (h : Host) (hs : List Host) (w : W)
    → (for_hosts f (h ∷ hs) w).0 ≡ ok tt
    → ((f h w).0 ≡ ok tt)
      × ((for_hosts f hs (f h w).1).0 ≡ ok tt)
      × ((for_hosts f (h ∷ hs) w).1 ≡ (for_hosts f hs (f h w).1).1)
unfolding for_hosts
for_hosts_cons f h hs w e = ground arith

-- A loop ends where the rest of it ends, or where its first step failed.
pub for_hosts_world :
    {W : Type 0} (f : Host → Exec W (Unit {0})) (h : Host) (hs : List Host) (w : W)
    → ((for_hosts f (h ∷ hs) w).1 ≡ (for_hosts f hs (f h w).1).1)
      ⊎ ((for_hosts f (h ∷ hs) w).1 ≡ (f h w).1)
unfolding for_hosts
for_hosts_world f h hs w = ground arith

module _ {W : Type 0} (M : CloudflareTunnelManager W) (V : View W) {served : String → Bool}
    (L : IsLawful M V served) where
  pub append_config_ok :
      (t : String) (hosts : List Host) (ip : String) (s : CloudflareTunnelSettings) (w : W)
      → (append_cloudflare_tunnel_config M t hosts ip s w).0 ≡ ok tt
      → V.config_of (append_cloudflare_tunnel_config M t hosts ip s w).1 t
        ≡ append_rules s ip hosts (V.config_of w t)
  unfolding append_cloudflare_tunnel_config
  append_config_ok t hosts ip s w e = grind (arith, L.get_config_ok, L.update_config_ok)

  pub append_dns_config :
      (t h : String) (w : W) (u : String)
      → V.config_of (append_dns_record M t h w).1 u ≡ V.config_of w u
  unfolding append_dns_record
  append_dns_config t h w u = grind (arith, L.get_dns_config, L.add_dns_config, L.update_dns_config)

  pub append_dns_ok :
      (t h : String) (w : W)
      → served h ≡ true
      → (append_dns_record M t h w).0 ≡ ok tt
      → IsHealthy V t h (append_dns_record M t h w).1
  unfolding append_dns_record
  append_dns_ok t h w n e =
      grind (arith, L.get_dns_ok, L.get_dns_record, L.add_dns_ok, L.update_dns_ok)

  pub remove_config_ok :
      (t : String) (hosts : List Host) (s : CloudflareTunnelSettings) (w : W)
      → (remove_cloudflare_tunnel_config M t hosts s w).0 ≡ ok tt
      → V.config_of (remove_cloudflare_tunnel_config M t hosts s w).1 t
        ≡ remove_rules s hosts (V.config_of w t)
  unfolding remove_cloudflare_tunnel_config
  remove_config_ok t hosts s w e = grind (arith, L.get_config_ok, L.update_config_ok)

  -- A healthy record of any host stays as it is, whichever host is appended.
  pub append_dns_keeps :
      (t h k : String) (w : W)
      → served h ≡ true
      → IsHealthy V t k w
      → IsHealthy V t k (append_dns_record M t h w).1
  unfolding append_dns_record
  append_dns_keeps t h k w s e = elim (Bool-cases (h == k)) [
    | inl p ↦ grind (arith, (eq_iff h k).0 p, L.get_dns_ok, L.get_dns_record, healthy-id)
    | inr n ↦ grind (arith, L.get_dns_ok, L.get_dns_record, L.add_dns_others, L.update_dns_others)
  ]

  pub remove_dns_config :
      (t h : String) (w : W) (u : String)
      → V.config_of (remove_dns_record M t h w).1 u ≡ V.config_of w u
  unfolding remove_dns_record
  remove_dns_config t h w u = grind (arith, L.get_dns_config, L.delete_dns_config)

  pub remove_dns_ok :
      (t h : String) (w : W)
      → served h ≡ true
      → (remove_dns_record M t h w).0 ≡ ok tt
      → IsGone V h (remove_dns_record M t h w).1
  unfolding remove_dns_record
  remove_dns_ok t h w n e = grind (arith, L.get_dns_ok, L.get_dns_record, L.delete_dns_ok)

  -- A record that is gone stays gone, whichever host is removed.
  pub remove_dns_keeps :
      (t h k : String) (w : W)
      → served h ≡ true
      → IsGone V k w
      → IsGone V k (remove_dns_record M t h w).1
  unfolding remove_dns_record
  remove_dns_keeps t h k w s e = elim (Bool-cases (h == k)) [
    | inl p ↦ grind (arith, (eq_iff h k).0 p, L.get_dns_ok, L.get_dns_record)
    | inr n ↦ grind (
      arith,
      L.get_dns_ok,
      L.get_dns_record,
      λ (r : DnsRecord). L.delete_dns_others t h r.id (M.get_dns t h w).1 k,
    )
  ]

  -- A loop over the hosts of steps that keep the configurations, and each of which makes `P` hold of
  -- its host and keeps it of every host.
  module _ (P : String → W → Type 0) (step : String → Exec W (Unit {0}))
      (frame : (h : String) (w : W) (u : String) → V.config_of (step h w).1 u ≡ V.config_of w u)
      (made : (h : String) (w : W) → served h ≡ true → (step h w).0 ≡ ok tt → P h (step h w).1)
      (keeps : (h k : String) (w : W) → served h ≡ true → P k w → P k (step h w).1) where
    abbrev pub loop : List Host → Exec W (Unit {0})
    loop = for_hosts (λ h. step h.host)

    pub loop_config :
        (hs : List Host) (w : W) (u : String) → V.config_of (loop hs w).1 u ≡ V.config_of w u
    unfolding for_hosts
    loop_config [] w u = refl
    loop_config (h ∷ hs) w u = ground (arith, frame h.host w u, loop_config hs (step h.host w).1 u)

    pub loop_keeps :
        (hs : List Host) (k : String) (w : W) → AllServed served hs → P k w → P k (loop hs w).1
    unfolding for_hosts
    loop_keeps [] k w a p = p
    loop_keeps (h ∷ hs) k w a p =
        let now = keeps h.host k w a.0 p in
        elim (for_hosts_world (λ x. step x.host) h hs w) [
          | inl e ↦ subst (P k) (sym e) (loop_keeps hs k (step h.host w).1 a.1 now)
          | inr e ↦ subst (P k) (sym e) now
        ]

    pub loop_made :
        (hs : List Host) (w : W)
        → AllServed served hs
        → (loop hs w).0 ≡ ok tt
        → All (λ h. P h.host (loop hs w).1) hs
    unfolding for_hosts
    loop_made [] w a e = tt
    loop_made (h ∷ hs) w a e =
        let (first, rest, end) = for_hosts_cons (λ x. step x.host) h hs w e in
        subst (λ v. P h.host v × All (λ x. P x.host v) hs) (sym end)
          (
            loop_keeps hs h.host (step h.host w).1 a.1 (made h.host w a.0 first),
            loop_made hs (step h.host w).1 a.1 rest,
          )
