-- ===== src/Tunnel/Reconcile/Finalizer.antt =====
-- When the finalizer of a deleted CloudflareTunnel comes off, and when a new tunnel is lost.
use cloudflare_tunnel_operat.Base.{◌≡◌, Bool, true, false, arith, ◌⊎◌, inl, inr, ◌≢◌}
use cloudflare_tunnel_operat.Base.Exec.{Result-cases, ok, pure, ◌>>◌}
use cloudflare_tunnel_operat.Api.{CloudflareTunnel}
use cloudflare_tunnel_operat.Domain.{Tunnel}
use cloudflare_tunnel_operat.Tunnel.Client.{CloudflareTunnelReconciler}
use cloudflare_tunnel_operat.Tunnel.Reconcile.{has_finalizer, without_finalizer, reconcile_deleted}

module _ {W : Type 0} (R : CloudflareTunnelReconciler W) where
  -- The worlds that DeleteAllDNS and then DeleteTunnel leave.
  abbrev pub after_dns : CloudflareTunnel → W → W
  after_dns t w = (R.manager.delete_all_dns t.status.tunnel_id w).1

  abbrev pub after_tunnel : CloudflareTunnel → W → W
  after_tunnel t w = (R.manager.delete_tunnel t.status.tunnel_id (after_dns t w)).1

  -- Both calls succeeded, and what follows them is the write of the object without its finalizer.
  abbrev pub IsReleased : CloudflareTunnel → W → Type 0
  IsReleased t w =
      ((R.manager.delete_all_dns t.status.tunnel_id w).0 ≡ ok tt)
      × ((R.manager.delete_tunnel t.status.tunnel_id (after_dns t w)).0 ≡ ok tt)
      × (reconcile_deleted R t w
          ≡ (R.client.update_tunnel (without_finalizer R t) >> pure false) (after_tunnel t w))

  -- One of the calls failed, and nothing was done after it.
  abbrev pub IsKept : CloudflareTunnel → W → Type 0
  IsKept t w =
      ((b : Bool) → (reconcile_deleted R t w).0 ≢ ok b)
      × ((((R.manager.delete_all_dns t.status.tunnel_id w).0 ≢ ok tt)
            × ((reconcile_deleted R t w).1 ≡ after_dns t w))
          ⊎ (((R.manager.delete_all_dns t.status.tunnel_id w).0 ≡ ok tt)
              × ((R.manager.delete_tunnel t.status.tunnel_id (after_dns t w)).0 ≢ ok tt)
              × ((reconcile_deleted R t w).1 ≡ after_tunnel t w)))

  -- The deletion of a CloudflareTunnel that has the finalizer: either DeleteAllDNS and DeleteTunnel
  -- both succeeded and the finalizer comes off next, or the reconcile fails at the first of them
  -- that does not succeed, and the object is not written.
  pub finalizer_order :
      (t : CloudflareTunnel) (w : W) → has_finalizer R t ≡ true → IsReleased t w ⊎ IsKept t w
  unfolding reconcile_deleted
  finalizer_order t w f = elim (Result-cases (R.manager.delete_all_dns t.status.tunnel_id w).0) [
    | inl (a, q) ↦
        elim (Result-cases (R.manager.delete_tunnel t.status.tunnel_id (after_dns t w)).0) [
          | inl (b, g) ↦ ground (arith, q, g)
          | inr (inl (e, g)) ↦ ground (arith, q, g)
          | inr (inr (m, g)) ↦ ground (arith, q, g)
        ]
    | inr (inl (e, q)) ↦ ground (arith, q)
    | inr (inr (m, q)) ↦ ground (arith, q)
  ]
