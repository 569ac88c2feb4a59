-- ===== src/Tunnel/Client.antt =====
-- The API server as this controller uses it, and the library functions that it calls: parameters
-- of the model, over an unknown world.
use cloudflare_tunnel_operat.Base.{String, Bool, Option, List}
use cloudflare_tunnel_operat.Base.Dict.{Dict}
use cloudflare_tunnel_operat.Base.Int.{ℤ}
use cloudflare_tunnel_operat.Base.Value.{Value}
use cloudflare_tunnel_operat.Base.Exec.{Exec, Result}
use cloudflare_tunnel_operat.Api.{NamespacedName, CloudflareTunnel, Condition}
use cloudflare_tunnel_operat.Cluster.{Finalizers}
use cloudflare_tunnel_operat.Manager.{CloudflareTunnelManager}
use cloudflare_tunnel_operat.Tunnel.Objects.{
  ApplyConfiguration, ServiceMonitor, PodDisruptionBudget,
}
use cloudflare_tunnel_operat.Tunnel.Desired.{SetOwner}

-- The live objects, by the fields that the controller reads.
pub record Secret : Type 0 where
  pub secret_data : Option (Dict String)

pub record Deployment : Type 0 where
  pub available_replicas : ℤ
  pub object : Value

-- A read of an object that is not there answers an error that `not_found` recognises. What
-- Update and Status().Update leave in the object is what the server answers. CreateOrUpdate reads
-- the object, or takes the given one, calls the function on it, and writes what changed.
pub record TunnelClient (W : Type 0) : Type 0 where
  pub get_tunnel_resource : NamespacedName → Exec W CloudflareTunnel
  pub update_tunnel : CloudflareTunnel → Exec W CloudflareTunnel
  pub update_tunnel_status : CloudflareTunnel → Exec W CloudflareTunnel
  pub get_secret : NamespacedName → Exec W Secret
  pub get_service : NamespacedName → Exec W Value
  pub get_deployment : NamespacedName → Exec W Deployment
  pub apply_patch : Value → Exec W (Unit {0})
  pub create_or_update_service_monitor :
      ServiceMonitor → (ServiceMonitor → Result ServiceMonitor) → Exec W (Unit {0})
  pub create_or_update_pdb :
      PodDisruptionBudget → (PodDisruptionBudget → Result PodDisruptionBudget) → Exec W (Unit {0})

-- apiutil.GVKForObject, DefaultUnstructuredConverter.ToUnstructured, the Extract functions of
-- client-go on the object read (`none` is the zero object), equality.Semantic.DeepEqual,
-- controllerutil.SetControllerReference and meta.SetStatusCondition.
pub record Library : Type 0 where
  pub gvk_for_object : Result (String × String)
  pub to_unstructured : ApplyConfiguration → Result Value
  pub extract_service : Option Value → Result ApplyConfiguration
  pub extract_deployment : Option Value → Result ApplyConfiguration
  pub deep_equal : ApplyConfiguration → ApplyConfiguration → Bool
  pub set_controller_reference : SetOwner
  pub set_status_condition : List Condition → Condition → List Condition

pub record CloudflareTunnelReconciler (W : Type 0) : Type 0 where
  pub client : TunnelClient W
  pub manager : CloudflareTunnelManager W
  pub library : Library
  pub finalizers : Finalizers
