-- ===== src/Ingress/Sync.antt =====
-- Bringing a tunnel's configuration and the DNS records in line with the hosts of an Ingress:
-- `appendCloudflareTunnelConfig`, `removeCloudflareTunnelConfig`, `appendDNSRecord` and
-- `removeDNSRecord` of internal/controller/ingress_watcher.go. Each holds the reconciler's mutex
-- from its first line to its last, so each is one uninterrupted action here.
pub mod Correct
pub mod Ends
use cloudflare_tunnel_operat.Base.{String, Bool, true, false, List, [], ◌∷◌, ◌==◌, if◌then◌else◌}
use cloudflare_tunnel_operat.Base.Exec.{Exec, pure, lift, flattening, ◌>>=◌, ◌>>◌}
use cloudflare_tunnel_operat.Api.{CloudflareTunnelSettings}
use cloudflare_tunnel_operat.Domain.{TunnelConfiguration, DnsRecord, healthy}
use cloudflare_tunnel_operat.Manager.{CloudflareTunnelManager}
use cloudflare_tunnel_operat.Ingress.Hosts.{Host}
use cloudflare_tunnel_operat.Ingress.Rules.{append_rules, remove_rules}

-- `for _, host := range hosts`, which returns at the first error.
unfoldable pub for_hosts : {W : Type 0} → (Host → Exec W (Unit {0})) → List Host → Exec W (Unit {0})
for_hosts f [] = pure tt
for_hosts f (h ∷ hs) = do f h; for_hosts f hs

module _ {W : Type 0} (M : CloudflareTunnelManager W) where
  unfoldable pub append_cloudflare_tunnel_config :
      String → List Host → String → CloudflareTunnelSettings → Exec W (Unit {0})
  append_cloudflare_tunnel_config tunnel_id hosts ip settings = do
    config ← flattening "failed to get tunnel configs" (M.get_tunnel_configuration tunnel_id)
    flattening "failed to update tunnel configs"
        (M.update_tunnel_configuration tunnel_id (append_rules settings ip hosts config))

  unfoldable pub remove_cloudflare_tunnel_config :
      String → List Host → CloudflareTunnelSettings → Exec W (Unit {0})
  remove_cloudflare_tunnel_config tunnel_id hosts settings = do
    config ← flattening "failed to get tunnel configs" (M.get_tunnel_configuration tunnel_id)
    flattening "failed to update tunnel configs"
        (M.update_tunnel_configuration tunnel_id (remove_rules settings hosts config))

  -- `else if !record.Healthy(tunnelID)`
  unfoldable pub update_if : Bool → String → String → DnsRecord → Exec W (Unit {0})
  update_if true tunnel_id host record' = pure tt
  update_if false tunnel_id host record' =
      flattening "failed to update DNS record" (M.update_dns tunnel_id host record')

  unfoldable pub append_dns_record : String → String → Exec W (Unit {0})
  unfolding update_if
  append_dns_record tunnel_id host = do
    found ← flattening "failed to get DNS record" (M.get_dns tunnel_id host)
    if found.id == ""
        then flattening "failed to add DNS record" (M.add_dns tunnel_id host)
        else (do well ← lift (healthy found tunnel_id); update_if well tunnel_id host found)

  unfoldable pub remove_dns_record : String → String → Exec W (Unit {0})
  remove_dns_record tunnel_id host = do
    found ← flattening "failed to get DNS record" (M.get_dns tunnel_id host)
    if found.id == ""
        then pure tt
        else flattening "failed to delete DNS record" (M.delete_dns tunnel_id found.id)
