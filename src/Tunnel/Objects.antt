-- ===== src/Tunnel/Objects.antt =====
-- The objects that the controller writes, as the apply configurations of client-go and the two
-- objects of CreateOrUpdate hold them. Every field that the code sets is here.
use cloudflare_tunnel_operat.Base.{String, Bool, Option, List}
use cloudflare_tunnel_operat.Base.Dict.{Dict}
use cloudflare_tunnel_operat.Base.Int.{ℤ}
use cloudflare_tunnel_operat.Base.Value.{Value}
use cloudflare_tunnel_operat.Api.{IntOrString, NamespacedName}

pub record OwnerReference : Type 0 where
  pub api_version : String
  pub kind : String
  pub name : String
  pub uid : String
  pub block_owner_deletion : Bool
  pub controller : Bool

-- Name, namespace, labels and the owner.
pub record AppliedMeta : Type 0 where
  pub key : NamespacedName
  pub labels : Dict String
  pub owner : OwnerReference

pub record SecretApply : Type 0 where
  pub meta : AppliedMeta
  pub secret_data : Dict String

-- The one port and the type of the service.
pub record ServiceApply : Type 0 where
  pub meta : AppliedMeta
  pub port_name : String
  pub protocol : String
  pub port : ℤ
  pub target_port : String
  pub selector : Dict String
  pub type : String

-- The variable that reads a key of a secret, and one given in the resource.
pub data EnvVar : Type 0 where
  from_secret : String → String → String → EnvVar
  given_env : Value → EnvVar

-- Skew, topology key, what to do if unsatisfiable, labels and label keys; or one given.
pub data TopologySpreadConstraint : Type 0 where
  spread : ℤ → String → String → Dict String → String → TopologySpreadConstraint
  given_spread : Value → TopologySpreadConstraint

pub data PodSecurityContext : Type 0 where
  sysctl : String → String → PodSecurityContext
  given_pod_security : Value → PodSecurityContext

pub data SecurityContext : Type 0 where
  read_only_root_filesystem : SecurityContext
  given_security : Value → SecurityContext

pub record AppliedResources : Type 0 where
  pub limits : Option (Dict Value)
  pub requests : Option (Dict Value)

pub record Probe : Type 0 where
  pub path : String
  pub port : String
  pub failure_threshold : ℤ
  pub initial_delay_seconds : ℤ
  pub period_seconds : ℤ

pub record Container : Type 0 where
  pub name : String
  pub image : String
  pub image_pull_policy : String
  pub args : List String
  pub env : List EnvVar
  pub port_name : String
  pub protocol : String
  pub container_port : ℤ
  pub resources : AppliedResources
  pub security_context : SecurityContext
  pub liveness_probe : Probe

pub record PodSpec : Type 0 where
  pub topology_spread_constraints : List TopologySpreadConstraint
  pub security_context : PodSecurityContext
  pub image_pull_secrets : List String
  pub container : Container
  pub node_selector : Dict String
  pub tolerations : List Value
  pub affinity : Option Value

pub record DeploymentApply : Type 0 where
  pub meta : AppliedMeta
  pub replicas : ℤ
  pub selector : Dict String
  pub template_labels : Dict String
  pub pod : PodSpec

-- What is applied, and what client-go extracts from a live object.
pub data ApplyConfiguration : Type 0 where
  secret : SecretApply → ApplyConfiguration
  service : ServiceApply → ApplyConfiguration
  deployment : DeploymentApply → ApplyConfiguration

-- What CreateOrUpdate works on: `deleting` is DeletionTimestamp != nil, `created` is
-- !CreationTimestamp.IsZero().
pub record LiveMeta : Type 0 where
  pub key : NamespacedName
  pub labels : Option (Dict String)
  pub deleting : Bool
  pub created : Bool
  pub owners : List OwnerReference

-- Port, target port, path and HonorLabels.
pub record Endpoint : Type 0 where
  pub port : String
  pub target_port : String
  pub path : String
  pub honor_labels : Bool

pub record ServiceMonitor : Type 0 where
  pub meta : LiveMeta
  pub match_labels : Option (Dict String)
  pub endpoints : List Endpoint
  pub job_label : String
  pub match_names : List String

pub record PodDisruptionBudget : Type 0 where
  pub meta : LiveMeta
  pub min_available : Option IntOrString
  pub max_unavailable : Option IntOrString
  pub selector : Option (Dict String)
