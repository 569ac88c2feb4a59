-- ===== src/Tunnel/Reconcile.antt =====
-- `Reconcile` of the CloudflareTunnelReconciler
-- (internal/controller/cloudflaretunnel_controller.go). Log lines are left out. The answer is
-- ctrl.Result's Requeue; beside an error it is ignored by controller-runtime, and left out.
pub mod Finalizer
pub mod Aside
pub mod Deployed
use cloudflare_tunnel_operat.Base.{String, Bool, true, false, if◌then◌else◌}
use cloudflare_tunnel_operat.Base.Exec.{
  Exec, Error, pure, raise, wrapping, handle, errors_is, not_found, ◌>>=◌, ◌>>◌,
}
use cloudflare_tunnel_operat.Api.{NamespacedName, CloudflareTunnel}
use cloudflare_tunnel_operat.Domain.{Tunnel}
use cloudflare_tunnel_operat.Tunnel.Client.{CloudflareTunnelReconciler}
use cloudflare_tunnel_operat.Tunnel.Provision.{reconcile_tunnel}
use cloudflare_tunnel_operat.Tunnel.Apply.{
  reconcile_secret, reconcile_deployment, reconcile_service, reconcile_service_monitor,
  reconcile_pdb,
}
use cloudflare_tunnel_operat.Tunnel.Status.{update_status}

abbrev pub finalizer_name : String
finalizer_name = "cf-tunnel-operator.walnuts.dev/finalizer"

module _ {W : Type 0} (R : CloudflareTunnelReconciler W) where
  abbrev pub has_finalizer : CloudflareTunnel → Bool
  has_finalizer t = R.finalizers.contains_finalizer t.metadata.finalizers finalizer_name

  abbrev pub without_finalizer : CloudflareTunnel → CloudflareTunnel
  without_finalizer t = record t {
    metadata = record t.metadata {
      finalizers = R.finalizers.remove_finalizer t.metadata.finalizers finalizer_name;
    };
  }

  abbrev pub with_finalizer : CloudflareTunnel → CloudflareTunnel
  with_finalizer t = record t {
    metadata = record t.metadata {
      finalizers = R.finalizers.add_finalizer t.metadata.finalizers finalizer_name;
    };
  }

  unfoldable pub reconcile_deleted : CloudflareTunnel → Exec W Bool
  reconcile_deleted t =
      if has_finalizer t
      then (do
        wrapping "failed to delete CloudflareTunnel" (R.manager.delete_all_dns t.status.tunnel_id)
        wrapping "failed to delete Cloudflare Tunnel" (R.manager.delete_tunnel t.status.tunnel_id)
        R.client.update_tunnel (without_finalizer t)
        pure false)
      else pure false

  unfoldable pub ensure_finalizer : CloudflareTunnel → Exec W CloudflareTunnel
  ensure_finalizer t = if has_finalizer t then pure t else R.client.update_tunnel (with_finalizer t)

  -- On an error of `step` the status is updated, and an error of that update is only logged.
  unfoldable pub reporting : {A : Type 0} → CloudflareTunnel → Exec W A → Exec W A
  reporting t step =
      handle step pure (λ e. handle (update_status R t) (λ _. raise e) (λ _. raise e))

  abbrev with_tunnel : CloudflareTunnel → Tunnel → CloudflareTunnel
  with_tunnel t tunnel = record t {
    status = record t.status { tunnel_id = tunnel.id; tunnel_name = tunnel.name };
  }

  unfoldable pub reconcile_present : CloudflareTunnel → Exec W Bool
  unfolding reporting
  reconcile_present resource = do
    t ← ensure_finalizer resource
    (tunnel, token) ← reporting t (reconcile_tunnel R t)
    secret_name ← reporting t (reconcile_secret R t token)
    u ←
        wrapping "failed to update CloudflareTunnel status"
          (R.client.update_tunnel_status (with_tunnel t tunnel))
    reporting u (reconcile_deployment R u secret_name)
    reporting u (reconcile_service R u)
    reporting u (reconcile_service_monitor R u)
    reporting u (reconcile_pdb R u)
    update_status R u

  unfoldable pub reconcile : NamespacedName → Exec W Bool
  unfolding reconcile_deleted reconcile_present
  reconcile request =
      handle (R.client.get_tunnel_resource request)
        (λ t. if t.metadata.deleting then reconcile_deleted t else reconcile_present t)
        (λ e. if errors_is e not_found then pure false else raise e)
