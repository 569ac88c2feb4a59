-- ===== src/Api/DeepCopy/Structs.antt =====
-- The structs of api/v1beta1/cloudflaretunnel_types.go as they lie in memory, with their pointers,
-- slices and maps as addresses. `A` is the structs of other packages: the metadata of objects and
-- lists, the resource requirements, the conditions, and the wrapped apply configurations.
use cloudflare_tunnel_operat.Base.{String, Bool, List}
use cloudflare_tunnel_operat.Base.Dict.{Dict}
use cloudflare_tunnel_operat.Base.Int.{ℤ}
use cloudflare_tunnel_operat.Base.Exec.{Result, ok, panic}
use cloudflare_tunnel_operat.Api.{IntOrString}
use cloudflare_tunnel_operat.Api.ApplyConfiguration.{Pointer, Slice, Heap}

pub record SettingsStruct : Type 0 where
  pub name_override : String
  pub catch_all_rule : String
  pub ca_pool : Pointer
  pub no_tls_verify : Bool
  pub tls_timeout_seconds : ℤ
  pub http2_origin : Bool
  pub disable_chunked_encoding : Bool
  pub connect_timeout_seconds : ℤ
  pub no_happy_eyeballs : Bool
  pub proxy_type : String
  pub keep_alive_timeout_seconds : ℤ
  pub keep_alive_connections : ℤ

pub record PdbStruct : Type 0 where
  pub min_available : Pointer
  pub max_unavailable : Pointer

-- A map is an address, or nil.
pub record SpecStruct (A : Type 0) : Type 0 where
  pub default : Bool
  pub replicas : ℤ
  pub resources : A
  pub image_pull_secrets : Slice
  pub image : String
  pub args_override : Slice
  pub extra_env : Slice
  pub node_selector : Pointer
  pub tolerations : Slice
  pub topology_spread_constraints : Slice
  pub affinity : Pointer
  pub enable_service_monitor : Bool
  pub pod_disruption_budget : Pointer
  pub settings : SettingsStruct
  pub pod_security_context : Pointer
  pub security_context : Pointer

pub record StatusStruct : Type 0 where
  pub replicas : ℤ
  pub tunnel_name : String
  pub tunnel_id : String
  pub conditions : Slice

pub record TypeMeta : Type 0 where
  pub kind : String
  pub api_version : String

pub record TunnelStruct (A : Type 0) : Type 0 where
  pub type_meta : TypeMeta
  pub metadata : A
  pub spec : SpecStruct A
  pub status : StatusStruct

pub record ListStruct (A : Type 0) : Type 0 where
  pub type_meta : TypeMeta
  pub metadata : A
  pub items : Slice

-- What one address holds: a struct, a map, or the array under a slice.
pub data Cell (A : Type 0) : Type 0 where
  a_string : String → Cell A
  an_int_or_string : IntOrString → Cell A
  strings : List String → Cell A
  local_object_references : List String → Cell A
  string_map : Dict String → Cell A
  a_pdb : PdbStruct → Cell A
  a_settings : SettingsStruct → Cell A
  a_spec : SpecStruct A → Cell A
  a_status : StatusStruct → Cell A
  a_tunnel : TunnelStruct A → Cell A
  a_list : ListStruct A → Cell A
  tunnels : List (TunnelStruct A) → Cell A
  conditions : List A → Cell A
  applied : A → Cell A

-- The lists of apply configurations use the arrays of the heap.
abbrev pub Memory : Type 0 → Type 0
Memory A = Heap (Cell A)

-- Typed reads. Go's types rule out that one finds a cell of another type.
abbrev misread : {X : Type 0} → Result X
misread = panic "invalid memory"

module _ {A : Type 0} where
  abbrev pub read_string : Cell A → Result String
  read_string (a_string s) = ok s
  read_string _ = misread

  abbrev pub read_int_or_string : Cell A → Result IntOrString
  read_int_or_string (an_int_or_string s) = ok s
  read_int_or_string _ = misread

  abbrev pub read_strings : Cell A → Result (List String)
  read_strings (strings s) = ok s
  read_strings _ = misread

  abbrev pub read_references : Cell A → Result (List String)
  read_references (local_object_references s) = ok s
  read_references _ = misread

  abbrev pub read_map : Cell A → Result (Dict String)
  read_map (string_map s) = ok s
  read_map _ = misread

  abbrev pub read_pdb : Cell A → Result PdbStruct
  read_pdb (a_pdb s) = ok s
  read_pdb _ = misread

  abbrev pub read_settings : Cell A → Result SettingsStruct
  read_settings (a_settings s) = ok s
  read_settings _ = misread

  abbrev pub read_spec : Cell A → Result (SpecStruct A)
  read_spec (a_spec s) = ok s
  read_spec _ = misread

  abbrev pub read_status : Cell A → Result StatusStruct
  read_status (a_status s) = ok s
  read_status _ = misread

  abbrev pub read_tunnel : Cell A → Result (TunnelStruct A)
  read_tunnel (a_tunnel s) = ok s
  read_tunnel _ = misread

  abbrev pub read_list : Cell A → Result (ListStruct A)
  read_list (a_list s) = ok s
  read_list _ = misread

  abbrev pub read_tunnels : Cell A → Result (List (TunnelStruct A))
  read_tunnels (tunnels s) = ok s
  read_tunnels _ = misread

  abbrev pub read_conditions : Cell A → Result (List A)
  read_conditions (conditions s) = ok s
  read_conditions _ = misread

  abbrev pub read_applied : Cell A → Result A
  read_applied (applied a) = ok a
  read_applied _ = misread
