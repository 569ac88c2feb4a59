-- ===== src/Tunnel/Apply.antt =====
-- Writing the desired objects: `reconcileSecret`, `reconcileDeployment`, `reconcileService`,
-- `reconcileServiceMonitor` and `reconcilePDB` of
-- internal/controller/cloudflaretunnel_controller.go.
pub mod Secrets
pub mod Live
pub mod Lands
use cloudflare_tunnel_operat.Base.{String, Bool, true, false, Option, none, some, if◌then◌else◌}
use cloudflare_tunnel_operat.Base.Exec.{
  Exec, Result, pure, raise, lift, wrapping, handle, wrap, errors_is, not_found, ◌>>=◌, ◌>>◌,
}
use cloudflare_tunnel_operat.Base.Value.{Value}
use cloudflare_tunnel_operat.Api.{NamespacedName, CloudflareTunnel, PdbSpec}
use cloudflare_tunnel_operat.Domain.{CloudflareTunnelToken}
use cloudflare_tunnel_operat.Tunnel.Objects.{
  OwnerReference, ApplyConfiguration, secret, service, deployment,
}
use cloudflare_tunnel_operat.Tunnel.Desired.{
  key_of, controller_reference, desired_secret, desired_deployment, desired_service,
  new_service_monitor, mutate_service_monitor, new_pdb, mutate_pdb,
}
use cloudflare_tunnel_operat.Tunnel.Client.{CloudflareTunnelReconciler, Deployment}

module _ {W : Type 0} (R : CloudflareTunnelReconciler W) where
  unfoldable owner_reference : CloudflareTunnel → Exec W OwnerReference
  owner_reference t =
      wrapping "failed to create controller reference"
        (lift (controller_reference R.library.gvk_for_object t))

  -- `if equality.Semantic.DeepEqual(wanted, current) { return }`, else the forced patch.
  unfoldable patch_unless : Bool → String → Value → Exec W (Unit {0})
  patch_unless true m body = pure tt
  patch_unless false m body = wrapping m (R.client.apply_patch body)

  -- The live object, or none; any other error is wrapped.
  unfoldable found_or_none :
      {A : Type 0} → String → (A → Option Value) → Exec W A → Exec W (Option Value)
  found_or_none m object get =
      handle get (λ a. pure (object a))
        (λ e. if errors_is e not_found then pure none else raise (wrap m e))

  -- The live object that is compared with is read as a Service.
  unfoldable pub reconcile_secret : CloudflareTunnel → CloudflareTunnelToken → Exec W NamespacedName
  unfolding owner_reference patch_unless found_or_none
  reconcile_secret t token = do
    owner ← owner_reference t
    let wanted = secret (desired_secret t owner token)
    body ←
        wrapping "failed to convert secret to unstructured"
          (lift (R.library.to_unstructured wanted))
    live ← found_or_none "failed to get secret" some (R.client.get_service (key_of t))
    current ←
        wrapping "failed to extract apply configuration from secret"
          (lift (R.library.extract_service live))
    patch_unless (R.library.deep_equal wanted current) "failed to apply secret" body
    pure (key_of t)

  unfoldable pub reconcile_deployment : CloudflareTunnel → NamespacedName → Exec W (Unit {0})
  unfolding owner_reference patch_unless found_or_none
  reconcile_deployment t secret_name = do
    owner ← owner_reference t
    let wanted = deployment (desired_deployment t owner secret_name)
    body ←
        wrapping "failed to convert deployment to unstructured"
          (lift (R.library.to_unstructured wanted))
    live ←
        found_or_none "failed to get deployment" (λ (d : Deployment). some d.object)
          (R.client.get_deployment (key_of t))
    current ←
        wrapping "failed to extract apply configuration from deployment"
          (lift (R.library.extract_deployment live))
    patch_unless (R.library.deep_equal wanted current) "failed to apply deployment" body

  unfoldable pub reconcile_service : CloudflareTunnel → Exec W (Unit {0})
  unfolding owner_reference patch_unless found_or_none
  reconcile_service t = do
    owner ← owner_reference t
    let wanted = service (desired_service t owner)
    body ←
        wrapping "failed to convert service to unstructured"
          (lift (R.library.to_unstructured wanted))
    live ← found_or_none "failed to get service" some (R.client.get_service (key_of t))
    current ←
        wrapping "failed to extract apply configuration from service"
          (lift (R.library.extract_service live))
    patch_unless (R.library.deep_equal wanted current) "failed to apply service" body

  unfoldable pub reconcile_service_monitor : CloudflareTunnel → Exec W (Unit {0})
  reconcile_service_monitor t =
      if t.spec.enable_service_monitor
      then R.client.create_or_update_service_monitor (new_service_monitor t)
          (mutate_service_monitor R.library.set_controller_reference t)
      else pure tt

  unfoldable pub pdb_of : CloudflareTunnel → Option PdbSpec → Exec W (Unit {0})
  pdb_of t none = pure tt
  pdb_of t (some spec) = wrapping "failed to create or update PDB" (
      R.client.create_or_update_pdb (new_pdb t)
        (mutate_pdb R.library.set_controller_reference t spec))

  unfoldable pub reconcile_pdb : CloudflareTunnel → Exec W (Unit {0})
  unfolding pdb_of
  reconcile_pdb t = pdb_of t t.spec.pod_disruption_budget
