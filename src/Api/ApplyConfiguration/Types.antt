-- ===== src/Api/ApplyConfiguration/Types.antt =====
-- The other types of api/v1beta1/apply_configuration.go: line by line the code of the first list and
-- of the first struct, for the codec of their own structs.
use cloudflare_tunnel_operat.Base.Exec.{Exec}
use cloudflare_tunnel_operat.Api.ApplyConfiguration.{
  Pointer, Slice, Heap, Codec, ref_list, ref_struct, deep_copy_list, deep_copy_struct,
}

module _ {A : Type 0} (C : Codec A) where
  abbrev deep_copy_tolerations : Slice → Exec (Heap A) Slice
  deep_copy_tolerations = deep_copy_list C

  abbrev deep_copy_topology_spread_constraints : Slice → Exec (Heap A) Slice
  deep_copy_topology_spread_constraints = deep_copy_list C

  abbrev deep_copy_pod_security_context : Pointer → Exec (Heap A) Pointer
  deep_copy_pod_security_context = deep_copy_struct C

  abbrev deep_copy_security_context : Pointer → Exec (Heap A) Pointer
  deep_copy_security_context = deep_copy_struct C

module _ {A : Type 0} where
  abbrev ref_tolerations : Slice → Exec (Heap A) Slice
  ref_tolerations = ref_list

  abbrev ref_topology_spread_constraints : Slice → Exec (Heap A) Slice
  ref_topology_spread_constraints = ref_list

abbrev ref_pod_security_context : Pointer → Pointer
ref_pod_security_context = ref_struct

abbrev ref_security_context : Pointer → Pointer
ref_security_context = ref_struct
