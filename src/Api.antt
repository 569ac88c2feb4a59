-- ===== src/Api.antt =====
-- The custom resource CloudflareTunnel (api/v1beta1/cloudflaretunnel_types.go) and the metadata of
-- Kubernetes objects. An optional pointer, map or slice that the code compares with nil is an
-- `Option`; what the operator passes on without reading it is a JSON value.
pub mod ApplyConfiguration
pub mod DeepCopy
use cloudflare_tunnel_operat.Base.{String, Bool, Option, List}
use cloudflare_tunnel_operat.Base.Dict.{Dict}
use cloudflare_tunnel_operat.Base.Int.{ℤ}
use cloudflare_tunnel_operat.Base.Value.{Value}

-- types.NamespacedName
pub record NamespacedName : Type 0 where
  pub namespace : String
  pub name : String

-- The fields of metav1.ObjectMeta that the operator reads or writes. `deleting` is
-- `!DeletionTimestamp.IsZero()`.
pub record ObjectMeta : Type 0 where
  pub namespace : String
  pub name : String
  pub uid : String
  pub labels : Option (Dict String)
  pub annotations : Dict String
  pub finalizers : List String
  pub deleting : Bool

pub data IntOrString : Type 0 where
  int : ℤ → IntOrString
  str : String → IntOrString

pub record PdbSpec : Type 0 where
  pub min_available : Option IntOrString
  pub max_unavailable : Option IntOrString

-- corev1.ResourceList maps a resource's name to a quantity, which the operator does not read.
pub record ResourceRequirements : Type 0 where
  pub limits : Option (Dict Value)
  pub requests : Option (Dict Value)

pub record CloudflareTunnelSettings : Type 0 where
  pub name_override : String
  pub catch_all_rule : String
  pub ca_pool : Option String
  pub no_tls_verify : Bool
  pub tls_timeout_seconds : ℤ
  pub http2_origin : Bool
  pub disable_chunked_encoding : Bool
  pub connect_timeout_seconds : ℤ
  pub no_happy_eyeballs : Bool
  pub proxy_type : String
  pub keep_alive_timeout_seconds : ℤ
  pub keep_alive_connections : ℤ

pub record CloudflareTunnelSpec : Type 0 where
  pub default : Bool
  pub replicas : ℤ
  pub resources : ResourceRequirements
  pub image_pull_secrets : List String
  pub image : String
  pub args_override : Option (List String)
  pub extra_env : List Value
  pub node_selector : Dict String
  pub tolerations : List Value
  pub topology_spread_constraints : List Value
  pub affinity : Option Value
  pub enable_service_monitor : Bool
  pub pod_disruption_budget : Option PdbSpec
  pub settings : CloudflareTunnelSettings
  pub pod_security_context : Option Value
  pub security_context : Option Value

-- metav1.Condition; the transition time is the clock's and is not modelled.
pub data ConditionType : Type 0 where
  available degraded : ConditionType

pub data ConditionStatus : Type 0 where
  condition_true condition_false : ConditionStatus

pub record Condition : Type 0 where
  pub type : ConditionType
  pub status : ConditionStatus
  pub reason : String
  pub message : String

pub record CloudflareTunnelStatus : Type 0 where
  pub replicas : ℤ
  pub tunnel_name : String
  pub tunnel_id : String
  pub conditions : List Condition

pub record CloudflareTunnel : Type 0 where
  pub metadata : ObjectMeta
  pub spec : CloudflareTunnelSpec
  pub status : CloudflareTunnelStatus
