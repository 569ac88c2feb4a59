-- ===== src/Together.antt =====
-- The parts put together as main does: the controller of Ingresses with the Cloudflare client
-- (internal/controller/ingress_watcher.go, pkg/external/cloudflare.go).
use cloudflare_tunnel_operat.Base.{String, ◌≡◌, true, some}
use cloudflare_tunnel_operat.Cluster.{Ingress}
use cloudflare_tunnel_operat.Domain.{tunnel_target}
use cloudflare_tunnel_operat.External.{CloudflareTunnelClient, cloudflare_manager}
use cloudflare_tunnel_operat.External.Zone.{Zone, Entry}
use cloudflare_tunnel_operat.Ingress.Reconcile.{IngressReconciler}

module _ {W : Type 0} (Z : Zone W) where
  -- The zone has a record of a name that leads to a tunnel, through Cloudflare's proxy.
  abbrev pub LeadsTo : String → W → String → Type 0
  LeadsTo tunnel_id w h =
      (e : Entry) × (Z.entry_of w h ≡ some e)
      × (e.value.type ≡ "CNAME")
      × (e.value.content ≡ tunnel_target tunnel_id)
      × (e.value.proxied ≡ some true)

-- The controller with the client as its manager.
abbrev pub together :
    {W : Type 0} → CloudflareTunnelClient W → IngressReconciler W → IngressReconciler W
together C R = record R { manager = cloudflare_manager C }
