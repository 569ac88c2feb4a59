-- ===== src/Command/Setup.antt =====
-- Registration with the manager of controller-runtime: `SetupWithManager` of both controllers
-- (internal/controller/cloudflaretunnel_controller.go, internal/controller/ingress_watcher.go) and
-- SetupCloudflareTunnelWebhookWithManager (internal/webhook/v1beta1/cloudflaretunnel_webhook.go).
-- The manager is a parameter, over an unknown world.
use cloudflare_tunnel_operat.Base.{
  String, Bool, true, false, Option, none, some, List, [], ◌∷◌, ◌++◌, if◌then◌else◌,
}
use cloudflare_tunnel_operat.Base.Exec.{
  Exec, pure, raise, handle, wrap, errors_is, not_found, ◌>>=◌,
}
use cloudflare_tunnel_operat.Cluster.{IngressClient, Finalizers}
use cloudflare_tunnel_operat.Ingress.Reconcile.{IngressReconciler}
use cloudflare_tunnel_operat.Tunnel.Client.{TunnelClient, Library, CloudflareTunnelReconciler}

-- The types of objects that a controller watches.
pub data Kind : Type 0 where
  cloudflare_tunnel secret deployment service pod_disruption_budget service_monitor : Kind
  ingress : Kind

-- What is given to the builder: For, Owns in order, Named.
pub record Builder : Type 0 where
  pub for_kind : Kind
  pub owns : List Kind
  pub name : Option String

pub data Handler (W : Type 0) : Type 0 where
  tunnel_handler : CloudflareTunnelReconciler W → Handler W
  ingress_handler : IngressReconciler W → Handler W

-- For, and the client of the validator; the defaulter has no state.
pub record WebhookBuilder (W : Type 0) : Type 0 where
  pub for_kind : Kind
  pub validator : IngressClient W

-- ctrl.Manager: GetClient, as each controller uses it; GetAPIReader().Get of a
-- CustomResourceDefinition; Complete of the two builders; the checks; Start. Beside it the library
-- functions that the reconcilers call.
pub record ControllerManager (W : Type 0) : Type 0 where
  pub tunnel_client : TunnelClient W
  pub ingress_client : IngressClient W
  pub library : Library
  pub finalizers : Finalizers
  pub parse_addr : String → Option String
  pub get_crd : String → Exec W (Unit {0})
  pub complete : Builder → Handler W → Exec W (Unit {0})
  pub complete_webhook : WebhookBuilder W → Exec W (Unit {0})
  pub add_healthz_check : String → Exec W (Unit {0})
  pub add_readyz_check : String → Exec W (Unit {0})
  pub start : Exec W (Unit {0})

abbrev pub owned : List Kind
owned = secret ∷ deployment ∷ service ∷ pod_disruption_budget ∷ []

abbrev pub tunnel_builder : Bool → Builder
tunnel_builder monitors = record {
  for_kind = cloudflare_tunnel;
  owns = if monitors then owned ++ service_monitor ∷ [] else owned;
  name = some "cloudflaretunnel";
}

abbrev pub ingress_builder : Builder
ingress_builder = record { for_kind = ingress; owns = []; name = none }

module _ {W : Type 0} (G : ControllerManager W) where
  -- Whether ServiceMonitors are watched: the read of their definition decides.
  unfoldable pub has_service_monitors : Exec W Bool
  has_service_monitors =
      handle (G.get_crd "servicemonitors.monitoring.coreos.com") (λ _. pure true)
        (λ e.
          if errors_is e not_found
          then pure false
          else raise (wrap "failed to check ServiceMonitor CRD" e))

  unfoldable pub setup_tunnels : CloudflareTunnelReconciler W → Exec W (Unit {0})
  unfolding has_service_monitors
  setup_tunnels r = do
    monitors ← has_service_monitors
    G.complete (tunnel_builder monitors) (tunnel_handler r)

  unfoldable pub setup_ingresses : IngressReconciler W → Exec W (Unit {0})
  setup_ingresses r = G.complete ingress_builder (ingress_handler r)

  abbrev pub webhook_builder : WebhookBuilder W
  webhook_builder = record { for_kind = cloudflare_tunnel; validator = G.ingress_client }

  unfoldable pub setup_webhook : Exec W (Unit {0})
  setup_webhook = G.complete_webhook webhook_builder
