-- ===== src/Ingress/Sync/Ends.antt =====
-- How a reconcile of an Ingress ends, over managers and API servers that are known to end: when it
-- cannot panic, and when it succeeds.
use cloudflare_tunnel_operat.Base.{String, ◌≡◌, Bool, true, false, some, List, [], ◌∷◌, ◌==◌}
use cloudflare_tunnel_operat.Base.Exec.{Exec}
use cloudflare_tunnel_operat.Base.Ends.{
  Outcome, Ends, Any, ends_pure, ends_lift, ends_flattening, ends_if, ends_bind, ends_then,
}
use cloudflare_tunnel_operat.Api.{CloudflareTunnelSettings}
use cloudflare_tunnel_operat.Domain.{TunnelConfiguration, DnsRecord, healthy, healthy-answers}
use cloudflare_tunnel_operat.Manager.{CloudflareTunnelManager}
use cloudflare_tunnel_operat.Ingress.Hosts.{Host}
use cloudflare_tunnel_operat.Ingress.Sync.{
  for_hosts, append_cloudflare_tunnel_config, remove_cloudflare_tunnel_config, append_dns_record,
  remove_dns_record, update_if,
}

-- The API answers a record with `proxied` whenever it answers one with an id.
abbrev pub IsComplete : DnsRecord → Type 0
IsComplete r = (r.id == "") ≡ false → (b : Bool) × (r.proxied ≡ some b)

-- The manager's calls that an Ingress needs end, from the worlds of `I` to worlds of `I`; with an
-- error only where `F` can be proved.
pub record IsEnding {W : Type 0} (M : CloudflareTunnelManager W) (I : W → Type 0) (F : Type 0)
    : Type 0 where
  pub get_config : (t : String) → Ends I F Any (M.get_tunnel_configuration t)
  pub update_config :
      (t : String) (c : TunnelConfiguration) → Ends I F Any (M.update_tunnel_configuration t c)
  pub get_dns : (t h : String) → Ends I F IsComplete (M.get_dns t h)
  pub add_dns : (t h : String) → Ends I F Any (M.add_dns t h)
  pub update_dns : (t h : String) (r : DnsRecord) → Ends I F Any (M.update_dns t h r)
  pub delete_dns : (t i : String) → Ends I F Any (M.delete_dns t i)

complete-healthy :
    (F : Type 0) (r : DnsRecord) (id : String)
    → IsComplete r
    → (r.id == "") ≡ false
    → Outcome F Any (healthy r id)
complete-healthy F r id c n = let (b, e) = c n in let (d, q) = healthy-answers r id b e in rw q tt

module _ {W : Type 0} {I : W → Type 0} {F : Type 0} where
  pub ends_hosts :
      (f : Host → Exec W (Unit {0})) (hs : List Host)
      → ((h : Host) → Ends I F Any (f h))
      → Ends I F Any (for_hosts f hs)
  unfolding for_hosts
  ends_hosts f [] k = ends_pure tt tt
  ends_hosts f (h ∷ hs) k = ends_then (k h) (ends_hosts f hs k)

  module _ (M : CloudflareTunnelManager W) (E : IsEnding M I F) where
    pub ends_append_config :
        (t : String) (hs : List Host) (ip : String) (s : CloudflareTunnelSettings)
        → Ends I F Any (append_cloudflare_tunnel_config M t hs ip s)
    unfolding append_cloudflare_tunnel_config
    ends_append_config t hs ip s =
        ends_bind (ends_flattening _ (E.get_config t))
          (λ c q. ends_flattening _ (E.update_config t _))

    pub ends_remove_config :
        (t : String) (hs : List Host) (s : CloudflareTunnelSettings)
        → Ends I F Any (remove_cloudflare_tunnel_config M t hs s)
    unfolding remove_cloudflare_tunnel_config
    ends_remove_config t hs s =
        ends_bind (ends_flattening _ (E.get_config t))
          (λ c q. ends_flattening _ (E.update_config t _))

    ends_update_if : (b : Bool) (t h : String) (r : DnsRecord) → Ends I F Any (update_if M b t h r)
    unfolding update_if
    ends_update_if true t h r = ends_pure tt tt
    ends_update_if false t h r = ends_flattening _ (E.update_dns t h r)

    pub ends_append_dns : (t h : String) → Ends I F Any (append_dns_record M t h)
    unfolding append_dns_record
    ends_append_dns t h = ends_bind (ends_flattening _ (E.get_dns t h)) (λ r c.
        ends_if (r.id == "") (λ e. ends_flattening _ (E.add_dns t h))
          (λ n.
            ends_bind (ends_lift (healthy r t) (complete-healthy F r t c n))
              (λ b q. ends_update_if b t h r)))

    pub ends_remove_dns : (t h : String) → Ends I F Any (remove_dns_record M t h)
    unfolding remove_dns_record
    ends_remove_dns t h = ends_bind (ends_flattening _ (E.get_dns t h)) (λ r c.
        ends_if (r.id == "") (λ e. ends_pure tt tt) (λ n. ends_flattening _ (E.delete_dns t r.id)))
