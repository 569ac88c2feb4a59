-- ===== src/Manager.antt =====
-- CloudflareTunnelManager of internal/controller/external.go, the interface between the
-- controllers and the Cloudflare API.
pub mod Views
use cloudflare_tunnel_operat.Base.{String}
use cloudflare_tunnel_operat.Base.Exec.{Exec}
use cloudflare_tunnel_operat.Domain.{Tunnel, CloudflareTunnelToken, TunnelConfiguration, DnsRecord}

pub record CloudflareTunnelManager (W : Type 0) : Type 0 where
  pub create_tunnel : String → Exec W Tunnel
  pub delete_tunnel : String → Exec W (Unit {0})
  pub get_tunnel : String → Exec W Tunnel
  pub get_tunnel_token : String → Exec W CloudflareTunnelToken
  pub get_tunnel_configuration : String → Exec W TunnelConfiguration
  pub update_tunnel_configuration : String → TunnelConfiguration → Exec W (Unit {0})
  pub add_dns : String → String → Exec W (Unit {0})
  pub get_dns : String → String → Exec W DnsRecord
  pub update_dns : String → String → DnsRecord → Exec W (Unit {0})
  pub delete_dns : String → String → Exec W (Unit {0})
  pub delete_all_dns : String → Exec W (Unit {0})
