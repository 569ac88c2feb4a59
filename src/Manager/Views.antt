-- ===== src/Manager/Views.antt =====
-- What the operations of a CloudflareTunnelManager promise, in terms of what the Cloudflare side
-- of a world shows: the configuration of each tunnel and the CNAME record of each hostname.
use cloudflare_tunnel_operat.Base.{String, ◌≡◌, Bool, true, false, not, ◌==◌}
use cloudflare_tunnel_operat.Base.Exec.{ok}
use cloudflare_tunnel_operat.Domain.{TunnelConfiguration, DnsRecord, healthy}
use cloudflare_tunnel_operat.Manager.{CloudflareTunnelManager}

-- `record_of` has an empty id where there is no record.
pub record View (W : Type 0) : Type 0 where
  pub config_of : W → String → TunnelConfiguration
  pub record_of : W → String → DnsRecord

pub record SameView {W : Type 0} (V : View W) (a b : W) : Type 0 where
  pub same_config : (t : String) → V.config_of a t ≡ V.config_of b t
  pub same_record : (h : String) → V.record_of a h ≡ V.record_of b h

abbrev pub IsHealthy : {W : Type 0} → View W → String → String → W → Type 0
IsHealthy V t h w = healthy (V.record_of w h) t ≡ ok true

abbrev pub IsGone : {W : Type 0} → View W → String → W → Type 0
IsGone V h w = ((V.record_of w h).id == "") ≡ true

-- A hostname that is not empty.
abbrev pub named : String → Bool
named h = not (h == "")

-- Reads change nothing; a write that reports success did what it says; a write, successful or not,
-- touches nothing else. A hostname is looked up and written that way only if it is `served`.
pub record IsLawful {W : Type 0} (M : CloudflareTunnelManager W) (V : View W)
    (served : String → Bool) : Type 0 where
  pub get_config_ok :
      (t : String) (w : W) (c : TunnelConfiguration)
      → (M.get_tunnel_configuration t w).0 ≡ ok c
      → c ≡ V.config_of w t
  pub get_config_config :
      (t : String) (w : W) (u : String)
      → V.config_of (M.get_tunnel_configuration t w).1 u ≡ V.config_of w u
  pub get_config_record :
      (t : String) (w : W) (h : String)
      → V.record_of (M.get_tunnel_configuration t w).1 h ≡ V.record_of w h
  pub update_config_ok :
      (t : String) (c : TunnelConfiguration) (w : W)
      → (M.update_tunnel_configuration t c w).0 ≡ ok tt
      → V.config_of (M.update_tunnel_configuration t c w).1 t ≡ c
  pub update_config_others :
      (t : String) (c : TunnelConfiguration) (w : W) (u : String)
      → (t == u) ≡ false
      → V.config_of (M.update_tunnel_configuration t c w).1 u ≡ V.config_of w u
  pub update_config_record :
      (t : String) (c : TunnelConfiguration) (w : W) (h : String)
      → V.record_of (M.update_tunnel_configuration t c w).1 h ≡ V.record_of w h
  pub get_dns_ok :
      (t h : String) (w : W) (r : DnsRecord)
      → served h ≡ true
      → (M.get_dns t h w).0 ≡ ok r
      → r ≡ V.record_of w h
  pub get_dns_config :
      (t h : String) (w : W) (u : String) → V.config_of (M.get_dns t h w).1 u ≡ V.config_of w u
  pub get_dns_record :
      (t h : String) (w : W) (k : String) → V.record_of (M.get_dns t h w).1 k ≡ V.record_of w k
  pub add_dns_ok :
      (t h : String) (w : W)
      → served h ≡ true
      → IsGone V h w
      → (M.add_dns t h w).0 ≡ ok tt
      → IsHealthy V t h (M.add_dns t h w).1
  pub add_dns_config :
      (t h : String) (w : W) (u : String) → V.config_of (M.add_dns t h w).1 u ≡ V.config_of w u
  pub add_dns_others :
      (t h : String) (w : W) (k : String)
      → served h ≡ true
      → (h == k) ≡ false
      → V.record_of (M.add_dns t h w).1 k ≡ V.record_of w k
  pub update_dns_ok :
      (t h : String) (r : DnsRecord) (w : W)
      → served h ≡ true
      → r ≡ V.record_of w h
      → (r.id == "") ≡ false
      → (M.update_dns t h r w).0 ≡ ok tt
      → IsHealthy V t h (M.update_dns t h r w).1
  pub update_dns_config :
      (t h : String) (r : DnsRecord) (w : W) (u : String)
      → V.config_of (M.update_dns t h r w).1 u ≡ V.config_of w u
  pub update_dns_others :
      (t h : String) (r : DnsRecord) (w : W) (k : String)
      → served h ≡ true
      → r ≡ V.record_of w h
      → (h == k) ≡ false
      → V.record_of (M.update_dns t h r w).1 k ≡ V.record_of w k
  pub delete_dns_ok :
      (t h i : String) (w : W)
      → i ≡ (V.record_of w h).id
      → (i == "") ≡ false
      → (M.delete_dns t i w).0 ≡ ok tt
      → IsGone V h (M.delete_dns t i w).1
  pub delete_dns_config :
      (t i : String) (w : W) (u : String) → V.config_of (M.delete_dns t i w).1 u ≡ V.config_of w u
  pub delete_dns_others :
      (t h i : String) (w : W) (k : String)
      → i ≡ (V.record_of w h).id
      → (i == "") ≡ false
      → (h == k) ≡ false
      → V.record_of (M.delete_dns t i w).1 k ≡ V.record_of w k
