-- ===== src/Cluster.antt =====
-- The Kubernetes API server as the controllers see it through controller-runtime's client, and the
-- library functions that they call. Both are parameters of the model: every operation takes an
-- unknown world `W` to a new one and may answer with any error.
use cloudflare_tunnel_operat.Base.{String, Bool, List}
use cloudflare_tunnel_operat.Base.Exec.{Exec}
use cloudflare_tunnel_operat.Api.{NamespacedName, ObjectMeta, CloudflareTunnel}
use cloudflare_tunnel_operat.Ingress.Hosts.{IngressSpec}

-- networkingv1.Ingress; `load_balancer` is the list of Status.LoadBalancer.Ingress[i].IP.
pub record Ingress : Type 0 where
  pub metadata : ObjectMeta
  pub spec : IngressSpec
  pub load_balancer : List String

-- A page of a list: `more` is Continue != "".
pub record CloudflareTunnelList : Type 0 where
  pub items : List CloudflareTunnel
  pub more : Bool

-- r.Update(ctx, &obj) leaves in `obj` what the server answers.
pub record IngressClient (W : Type 0) : Type 0 where
  pub get_ingress : NamespacedName → Exec W Ingress
  pub update_ingress : Ingress → Exec W Ingress
  pub get_cloudflare_tunnel : NamespacedName → Exec W CloudflareTunnel
  -- List with Limit 1 and a label selector of one key and one value.
  pub list_cloudflare_tunnels : String → String → Exec W CloudflareTunnelList

-- controllerutil's functions on the list of finalizers.
pub record Finalizers : Type 0 where
  pub contains_finalizer : List String → String → Bool
  pub add_finalizer : List String → String → List String
  pub remove_finalizer : List String → String → List String
