-- ===== src/Api/DeepCopy.antt =====
-- The generated deep copies (api/v1beta1/zz_generated.deepcopy.go). A `DeepCopyInto` takes the
-- struct behind `in` and answers the one that it leaves behind `out`: `*out = *in` is the record
-- itself, and each block of the source replaces one field. `DeepCopyInto` of another package's
-- struct, and what encoding/json does with one, are parameters.
pub mod Structs
pub mod Steps
pub mod Copier
pub mod Parts
pub mod Wrapped
pub mod Resource
pub mod Whole
pub mod Detached
use cloudflare_tunnel_operat.Base.{ℕ, String, Bool, Option, none, some, List, [], ◌∷◌}
use cloudflare_tunnel_operat.Base.Dict.{Dict, put}
use cloudflare_tunnel_operat.Base.Value.{Value}
use cloudflare_tunnel_operat.Base.Exec.{
  Exec, Result, ok, err, panic, other, pure, lift, ◌>>=◌, ◌>>◌,
}
use cloudflare_tunnel_operat.Api.{IntOrString}
use cloudflare_tunnel_operat.Api.ApplyConfiguration.{
  Pointer, Slice, Heap, Codec, new_cell, write_cell, deep_copy_list, deep_copy_struct,
}
use cloudflare_tunnel_operat.Api.DeepCopy.Structs.*
use cloudflare_tunnel_operat.Api.DeepCopy.Steps.{
  load, unless_nil, copy_cell, copy_each, copy_string, copy_int_or_string, copy_strings,
  copy_references, copy_map,
}

-- The kinds of struct that have a DeepCopyInto in another package, and those that are wrapped.
pub data Foreign : Type 0 where
  object_meta list_meta resource_requirements condition : Foreign

pub data Applied : Type 0 where
  env_var toleration topology_spread_constraint affinity pod_security_context security_context :
      Applied

pub record Library (A : Type 0) : Type 0 where
  pub copy : Foreign → A → Exec (Memory A) A
  pub codec : Applied → Codec A

-- A codec on the structs of other packages, on cells.
abbrev on_applied : {A : Type 0} → Result A → Result (Cell A)
on_applied (ok a) = ok (applied a)
on_applied (err e) = err e
on_applied (panic m) = panic m

abbrev marshal_cell : {A : Type 0} → Codec A → Cell A → Result Value
marshal_cell C (applied a) = C.marshal a
marshal_cell C _ = panic "invalid memory"

abbrev unmarshal_cell : {A : Type 0} → Codec A → Value → Cell A → Result (Cell A)
unmarshal_cell C v (applied a) = on_applied (C.unmarshal v a)
unmarshal_cell C v _ = panic "invalid memory"

abbrev pub cell_codec : {A : Type 0} → Codec A → Codec (Cell A)
cell_codec C = record {
  marshal = marshal_cell C;
  unmarshal = unmarshal_cell C;
  zero_value = applied C.zero_value;
}

module _ {A : Type 0} where
  unfoldable pub deep_copy_settings : SettingsStruct → Exec (Memory A) SettingsStruct
  deep_copy_settings s = do ca ← unless_nil copy_string s.ca_pool; pure (record s { ca_pool = ca })

  unfoldable pub deep_copy_pdb : PdbStruct → Exec (Memory A) PdbStruct
  deep_copy_pdb s = do
    least ← unless_nil copy_int_or_string s.min_available
    most ← unless_nil copy_int_or_string s.max_unavailable
    pure (record s { min_available = least; max_unavailable = most })

-- `if c := in.DeepCopy(); c != nil { return c }; return nil`
abbrev pub object_of : Pointer → Option Pointer
object_of none = none
object_of (some i) = some (some i)

-- *out = *clone
abbrev write_clone : {A : Type 0} → ℕ → Pointer → Exec (Memory A) (Unit {0})
unfolding write_cell
write_clone out none h = (panic "nil pointer dereference", h)
write_clone out (some i) h = (ok tt, write_cell out (h.cells i) h)

module _ {A : Type 0} (L : Library A) where
  -- `clone := in.DeepCopy(); *out = *clone` of the lists.
  unfoldable pub deep_copy_applied : Applied → Slice → Exec (Memory A) Slice
  deep_copy_applied k = deep_copy_list (cell_codec (L.codec k))

  abbrev pub deep_copy_env : Slice → Exec (Memory A) Slice
  deep_copy_env = deep_copy_applied env_var

  abbrev pub deep_copy_into_tolerations : Slice → Exec (Memory A) Slice
  deep_copy_into_tolerations = deep_copy_applied toleration

  abbrev pub deep_copy_into_topology : Slice → Exec (Memory A) Slice
  deep_copy_into_topology = deep_copy_applied topology_spread_constraint

  -- `*out = (*in).DeepCopy()` of the structs.
  unfoldable pub copy_applied : Applied → Pointer → Exec (Memory A) Pointer
  copy_applied k none = pure none
  copy_applied k (some i) = deep_copy_struct (cell_codec (L.codec k)) (some i)

  unfoldable pub deep_copy_spec : SpecStruct A → Exec (Memory A) (SpecStruct A)
  unfolding copy_applied
  deep_copy_spec s = do
    resources ← L.copy resource_requirements s.resources
    secrets ← unless_nil copy_references s.image_pull_secrets
    args ← unless_nil copy_strings s.args_override
    env ← deep_copy_env s.extra_env
    nodes ← unless_nil copy_map s.node_selector
    tolerations ← deep_copy_into_tolerations s.tolerations
    spread ← deep_copy_into_topology s.topology_spread_constraints
    near ← copy_applied affinity s.affinity
    budget ← unless_nil (copy_cell read_pdb a_pdb deep_copy_pdb) s.pod_disruption_budget
    settings ← deep_copy_settings s.settings
    pod ← copy_applied pod_security_context s.pod_security_context
    container ← copy_applied security_context s.security_context
    pure (record s {
      resources = resources;
      image_pull_secrets = secrets;
      args_override = args;
      extra_env = env;
      node_selector = nodes;
      tolerations = tolerations;
      topology_spread_constraints = spread;
      affinity = near;
      pod_disruption_budget = budget;
      settings = settings;
      pod_security_context = pod;
      security_context = container;
    })

  unfoldable pub deep_copy_status : StatusStruct → Exec (Memory A) StatusStruct
  deep_copy_status s = do
    cs ←
        unless_nil (copy_cell read_conditions conditions (copy_each (L.copy condition)))
          s.conditions
    pure (record s { conditions = cs })

  unfoldable pub deep_copy_tunnel : TunnelStruct A → Exec (Memory A) (TunnelStruct A)
  deep_copy_tunnel s = do
    metadata ← L.copy object_meta s.metadata
    spec ← deep_copy_spec s.spec
    status ← deep_copy_status s.status
    pure (record s { metadata = metadata; spec = spec; status = status })

  unfoldable pub deep_copy_tunnel_list : ListStruct A → Exec (Memory A) (ListStruct A)
  deep_copy_tunnel_list s = do
    metadata ← L.copy list_meta s.metadata
    items ← unless_nil (copy_cell read_tunnels tunnels (copy_each deep_copy_tunnel)) s.items
    pure (record s { metadata = metadata; items = items })

  -- The DeepCopy of each type: nil for nil, or a new struct.
  unfoldable pub new_tunnel : Pointer → Exec (Memory A) Pointer
  new_tunnel = unless_nil (copy_cell read_tunnel a_tunnel deep_copy_tunnel)

  unfoldable pub new_tunnel_list : Pointer → Exec (Memory A) Pointer
  new_tunnel_list = unless_nil (copy_cell read_list a_list deep_copy_tunnel_list)

  unfoldable pub new_settings : Pointer → Exec (Memory A) Pointer
  new_settings = unless_nil (copy_cell read_settings a_settings deep_copy_settings)

  unfoldable pub new_spec : Pointer → Exec (Memory A) Pointer
  new_spec = unless_nil (copy_cell read_spec a_spec deep_copy_spec)

  unfoldable pub new_status : Pointer → Exec (Memory A) Pointer
  new_status = unless_nil (copy_cell read_status a_status deep_copy_status)

  unfoldable pub new_pdb : Pointer → Exec (Memory A) Pointer
  new_pdb = unless_nil (copy_cell read_pdb a_pdb deep_copy_pdb)

  -- DeepCopyObject: the interface is nil itself where the pointer is, and holds no nil pointer.
  unfoldable pub tunnel_object : Pointer → Exec (Memory A) (Option Pointer)
  unfolding new_tunnel
  tunnel_object p = do c ← new_tunnel p; pure (object_of c)

  unfoldable pub list_object : Pointer → Exec (Memory A) (Option Pointer)
  unfolding new_tunnel_list
  list_object p = do c ← new_tunnel_list p; pure (object_of c)

  -- DeepCopyInto of the two security contexts: `clone := in.DeepCopy(); *out = *clone`.
  unfoldable pub deep_copy_into : Applied → Pointer → ℕ → Exec (Memory A) (Unit {0})
  unfolding load write_cell
  deep_copy_into k p out = do
    clone ← deep_copy_struct (cell_codec (L.codec k)) p
    write_clone out clone

  abbrev pub deep_copy_into_affinity : Pointer → ℕ → Exec (Memory A) (Unit {0})
  deep_copy_into_affinity = deep_copy_into affinity

  abbrev pub deep_copy_into_pod_security : Pointer → ℕ → Exec (Memory A) (Unit {0})
  deep_copy_into_pod_security = deep_copy_into pod_security_context

  abbrev pub deep_copy_into_security : Pointer → ℕ → Exec (Memory A) (Unit {0})
  deep_copy_into_security = deep_copy_into security_context
