-- ===== src/Tunnel/Desired.antt =====
-- The objects that a CloudflareTunnel asks for: `appLabels`, `controllerReference`, and the pure
-- parts of `reconcileSecret`, `reconcileDeployment`, `reconcileService`, `reconcileServiceMonitor`
-- and `reconcilePDB`.
pub mod Wiring
use cloudflare_tunnel_operat.Base.{
  String, Bool, true, false, Option, none, some, List, [], ◌∷◌, ◌++◌, map, ◌==◌, if◌then◌else◌,
}
use cloudflare_tunnel_operat.Base.Dict.{Dict, lookup, put}
use cloudflare_tunnel_operat.Base.Int.{pos}
use cloudflare_tunnel_operat.Base.Value.{Value, text}
use cloudflare_tunnel_operat.Base.Exec.{Result, ok, err, panic}
use cloudflare_tunnel_operat.Api.{
  NamespacedName, IntOrString, CloudflareTunnel, ResourceRequirements, PdbSpec,
}
use cloudflare_tunnel_operat.Tunnel.Objects.{
  OwnerReference, AppliedMeta, SecretApply, ServiceApply, EnvVar, from_secret, given_env,
  TopologySpreadConstraint, spread, given_spread, PodSecurityContext, sysctl, given_pod_security,
  SecurityContext, read_only_root_filesystem, given_security, AppliedResources, DeploymentApply,
  LiveMeta, ServiceMonitor, PodDisruptionBudget,
}

abbrev pub app_name : String
app_name = "cloudflared"

abbrev pub manager_name : String
manager_name = "cloudflare-tunnel-operator"

abbrev pub tunnel_token_key : String
tunnel_token_key = "cloudflared-tunnel-token"

abbrev cloudflared_image : String
cloudflared_image = "cloudflare/cloudflared:2025.11.1"

abbrev pub key_of : CloudflareTunnel → NamespacedName
key_of t = record { namespace = t.metadata.namespace; name = t.metadata.name }

unfoldable pub app_labels : CloudflareTunnel → Dict String
app_labels t =
    ("app.kubernetes.io/name", app_name)
    ∷ ("app.kubernetes.io/instance", t.metadata.name)
    ∷ ("app.kubernetes.io/created-by", manager_name)
    ∷ []

-- The group, version and kind of the scheme, or its error, are an argument.
abbrev pub controller_reference :
    Result (String × String) → CloudflareTunnel → Result OwnerReference
controller_reference (ok (api_version, kind)) t = ok (record {
  api_version = api_version;
  kind = kind;
  name = t.metadata.name;
  uid = t.metadata.uid;
  block_owner_deletion = true;
  controller = true;
})
controller_reference (err e) t = err e
controller_reference (panic m) t = panic m

abbrev applied_meta : CloudflareTunnel → OwnerReference → AppliedMeta
applied_meta t owner = record { key = key_of t; labels = app_labels t; owner = owner }

unfoldable pub desired_secret : CloudflareTunnel → OwnerReference → String → SecretApply
desired_secret t owner token = record {
  meta = applied_meta t owner;
  secret_data = (tunnel_token_key, token) ∷ [];
}

-- resource.Quantity{}
abbrev zero_quantity : Value
zero_quantity = text "0"

abbrev quantity_or_zero : Option Value → Value
quantity_or_zero none = zero_quantity
quantity_or_zero (some q) = q

unfoldable pub cpu_and_memory : Dict Value → Dict Value
unfolding lookup
cpu_and_memory r =
    ("cpu", quantity_or_zero (lookup "cpu" r))
    ∷ ("memory", quantity_or_zero (lookup "memory" r))
    ∷ []

abbrev map_option : {A B : Type 0} → (A → B) → Option A → Option B
map_option f none = none
map_option f (some a) = some (f a)

unfoldable pub resource_requirements : ResourceRequirements → AppliedResources
unfolding cpu_and_memory
resource_requirements r = record {
  limits = map_option cpu_and_memory r.limits;
  requests = map_option cpu_and_memory r.requests;
}

abbrev spread_constraints : CloudflareTunnel → List Value → List TopologySpreadConstraint
spread_constraints t [] =
    spread (pos 1) "kubernetes.io/hostname" "ScheduleAnyway" (app_labels t) "pod-template-hash" ∷ []
spread_constraints t (c ∷ cs) = map given_spread (c ∷ cs)

abbrev args_or_default : Option (List String) → List String
args_or_default (some args) = args
args_or_default none = "--no-autoupdate" ∷ "--metrics=0.0.0.0:60123" ∷ "tunnel" ∷ "run" ∷ []

abbrev pod_security_or_default : Option Value → PodSecurityContext
pod_security_or_default none = sysctl "net.ipv4.ping_group_range" "0 2147483647"
pod_security_or_default (some v) = given_pod_security v

abbrev security_or_default : Option Value → SecurityContext
security_or_default none = read_only_root_filesystem
security_or_default (some v) = given_security v

unfoldable pub desired_deployment :
    CloudflareTunnel → OwnerReference → NamespacedName → DeploymentApply
unfolding resource_requirements
desired_deployment t owner secret_name = record {
  meta = applied_meta t owner;
  replicas = t.spec.replicas;
  selector = app_labels t;
  template_labels = app_labels t;
  pod = record {
    topology_spread_constraints = spread_constraints t t.spec.topology_spread_constraints;
    security_context = pod_security_or_default t.spec.pod_security_context;
    image_pull_secrets = t.spec.image_pull_secrets;
    container = record {
      name = "cloudflared";
      image = if t.spec.image == "" then cloudflared_image else t.spec.image;
      image_pull_policy = "IfNotPresent";
      args = args_or_default t.spec.args_override;
      env =
          from_secret "TUNNEL_TOKEN" secret_name.name tunnel_token_key
          ∷ map given_env t.spec.extra_env;
      port_name = "metrics";
      protocol = "TCP";
      container_port = pos 60123;
      resources = resource_requirements t.spec.resources;
      security_context = security_or_default t.spec.security_context;
      liveness_probe = record {
        path = "/ready";
        port = "metrics";
        failure_threshold = pos 1;
        initial_delay_seconds = pos 10;
        period_seconds = pos 10;
      };
    };
    node_selector = t.spec.node_selector;
    tolerations = t.spec.tolerations;
    affinity = t.spec.affinity;
  };
}

unfoldable pub desired_service : CloudflareTunnel → OwnerReference → ServiceApply
desired_service t owner = record {
  meta = applied_meta t owner;
  port_name = "metrics";
  protocol = "TCP";
  port = pos 60123;
  target_port = "metrics";
  selector = app_labels t;
  type = "ClusterIP";
}

-- A nil map is made, and the labels are written into it one by one.
unfoldable pub put_labels : Dict String → Option (Dict String) → Dict String
put_labels [] none = []
put_labels [] (some m) = m
put_labels ((k, v) ∷ ls) none = put_labels ls (some (put k v []))
put_labels ((k, v) ∷ ls) (some m) = put_labels ls (some (put k v m))

-- ctrl.SetControllerReference on the list of owners.
abbrev pub SetOwner : Type 0
SetOwner = CloudflareTunnel → List OwnerReference → Result (List OwnerReference)

abbrev owners_of : SetOwner → CloudflareTunnel → LiveMeta → Result (List OwnerReference)
owners_of set_owner t m = if m.created then ok m.owners else set_owner t m.owners

abbrev with_owners :
    {A : Type 0} → (List OwnerReference → A) → Result (List OwnerReference) → Result A
with_owners f (ok owners) = ok (f owners)
with_owners f (err e) = err e
with_owners f (panic m) = panic m

abbrev pub new_meta : CloudflareTunnel → LiveMeta
new_meta t = record {
  key = key_of t;
  labels = some (app_labels t);
  deleting = false;
  created = false;
  owners = [];
}

abbrev pub new_service_monitor : CloudflareTunnel → ServiceMonitor
new_service_monitor t = record {
  meta = new_meta t;
  match_labels = none;
  endpoints = [];
  job_label = "";
  match_names = [];
}

unfoldable pub mutate_service_monitor :
    SetOwner → CloudflareTunnel → ServiceMonitor → Result ServiceMonitor
mutate_service_monitor set_owner t sm =
    if sm.meta.deleting
    then ok sm
    else with_owners
        (λ owners. record sm {
          meta = record sm.meta { owners = owners };
          match_labels = some (put_labels (app_labels t) sm.match_labels);
          endpoints =
              record {
                port = "metrics";
                target_port = "metrics";
                path = "/metrics";
                honor_labels = false;
              }
              ∷ [];
          job_label = app_name;
          match_names = t.metadata.namespace ∷ [];
        })
        (owners_of set_owner t sm.meta)

abbrev pub new_pdb : CloudflareTunnel → PodDisruptionBudget
new_pdb t = record {
  meta = new_meta t;
  min_available = none;
  max_unavailable = none;
  selector = none;
}

-- A field that the resource does not set stays as it is on the object.
abbrev set_or_keep : Option IntOrString → Option IntOrString → Option IntOrString
set_or_keep none old = old
set_or_keep (some v) old = some v

unfoldable pub mutate_pdb :
    SetOwner → CloudflareTunnel → PdbSpec → PodDisruptionBudget → Result PodDisruptionBudget
mutate_pdb set_owner t spec pdb =
    if pdb.meta.deleting
    then ok pdb
    else with_owners
        (λ owners. record pdb {
          meta = record pdb.meta {
            labels = some (put_labels (app_labels t) pdb.meta.labels);
            owners = owners;
          };
          min_available = set_or_keep spec.min_available pdb.min_available;
          max_unavailable = set_or_keep spec.max_unavailable pdb.max_unavailable;
          selector = some (app_labels t);
        })
        (owners_of set_owner t pdb.meta)
