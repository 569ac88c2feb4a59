-- ===== src/Api/DeepCopy/Whole.antt =====
-- The generated copies of specs, statuses, tunnels and lists, over a library whose own copies copy.
use cloudflare_tunnel_operat.Base.{◌≡◌, refl}
use cloudflare_tunnel_operat.Api.DeepCopy.{
  Library, Foreign, Applied, object_meta, list_meta, resource_requirements, condition, env_var,
  toleration, topology_spread_constraint, affinity, pod_security_context, security_context,
  deep_copy_pdb, deep_copy_applied, copy_applied, deep_copy_spec, deep_copy_status,
  deep_copy_tunnel, deep_copy_tunnel_list,
}
use cloudflare_tunnel_operat.Api.DeepCopy.Steps.{
  unless_nil, copy_cell, copy_strings, copy_references, copy_map,
}
use cloudflare_tunnel_operat.Api.DeepCopy.Structs.{
  Memory, SpecStruct, StatusStruct, TunnelStruct, ListStruct, a_pdb, read_pdb, tunnels,
  read_tunnels, conditions, read_conditions,
}
use cloudflare_tunnel_operat.Api.DeepCopy.Copier.{
  Bounds, Representation, IsStable, IsCopier, IsCopier-fields, field, finish,
}
use cloudflare_tunnel_operat.Api.DeepCopy.Parts.{
  At, Behind, Each, IsCopier-copy_cell, IsCopier-unless_nil, IsCopier-copy_each, HoldsStrings,
  HoldsReferences, HoldsMap, IsCopier-copy_strings, IsCopier-copy_references, IsCopier-copy_map,
}
use cloudflare_tunnel_operat.Api.DeepCopy.Wrapped.{
  IsRoundTripOn, Typed, Listed, IsCopier-copy_applied, IsCopier-deep_copy_applied,
}
use cloudflare_tunnel_operat.Api.DeepCopy.Resource.{
  SpecContent, StatusContent, TunnelContent, ListContent, HoldsSettings, HoldsPdb,
  IsCopier-settings, IsCopier-pdb,
}

-- The DeepCopyInto of other packages copy, and the structs of each wrapped type survive JSON.
pub record IsDeep {A C : Type 0} (L : Library A) (Holds : Foreign → Representation A A C)
    (T : Applied → A → Type 0) : Type 0 where
  pub copies : (k : Foreign) → IsCopier (Holds k) (L.copy k)
  pub round_trip : (k : Applied) → IsRoundTripOn (T k) (L.codec k)

module _ {A C : Type 0} (Holds : Foreign → Representation A A C) where
  pub record HoldsStatus (b : Bounds) (m : Memory A) (p : StatusStruct) (v : StatusContent C)
      : Type 0 where
    pub plain : (p.replicas, (p.tunnel_name, p.tunnel_id)) ≡ v.plain
    pub conditions : Behind (At conditions (Each (Holds condition))) b m p.conditions v.conditions

module _ {A C : Type 0} (Holds : Foreign → Representation A A C) (T : Applied → A → Type 0) where
  pub record HoldsSpec (b : Bounds) (m : Memory A) (p : SpecStruct A) (v : SpecContent A C)
      : Type 0 where
    pub plain : (p.default, (p.replicas, (p.image, p.enable_service_monitor))) ≡ v.plain
    pub resources : Holds resource_requirements b m p.resources v.resources
    pub image_pull_secrets : Behind HoldsReferences b m p.image_pull_secrets v.image_pull_secrets
    pub args_override : Behind HoldsStrings b m p.args_override v.args_override
    pub extra_env : Listed (T env_var) b m p.extra_env v.extra_env
    pub node_selector : Behind HoldsMap b m p.node_selector v.node_selector
    pub tolerations : Listed (T toleration) b m p.tolerations v.tolerations
    pub topology_spread_constraints :
        Listed
          (T topology_spread_constraint)
          b
          m
          p.topology_spread_constraints
          v.topology_spread_constraints
    pub affinity : Behind (Typed (T affinity)) b m p.affinity v.affinity
    pub pod_disruption_budget :
        Behind (At a_pdb HoldsPdb) b m p.pod_disruption_budget v.pod_disruption_budget
    pub settings : HoldsSettings b m p.settings v.settings
    pub pod_security_context :
        Behind (Typed (T pod_security_context)) b m p.pod_security_context v.pod_security_context
    pub security_context :
        Behind (Typed (T security_context)) b m p.security_context v.security_context

  pub record HoldsTunnel (b : Bounds) (m : Memory A) (p : TunnelStruct A) (v : TunnelContent A C)
      : Type 0 where
    pub type_meta : p.type_meta ≡ v.type_meta
    pub metadata : Holds object_meta b m p.metadata v.metadata
    pub spec : HoldsSpec b m p.spec v.spec
    pub status : HoldsStatus Holds b m p.status v.status

  pub record HoldsList (b : Bounds) (m : Memory A) (p : ListStruct A) (v : ListContent A C)
      : Type 0 where
    pub type_meta : p.type_meta ≡ v.type_meta
    pub metadata : Holds list_meta b m p.metadata v.metadata
    pub items : Behind (At tunnels (Each HoldsTunnel)) b m p.items v.items

module _ {A : Type 0} where
  secrets : IsCopier {A = A} (Behind HoldsReferences) (unless_nil copy_references)
  secrets = IsCopier-unless_nil IsCopier-copy_references

  args : IsCopier {A = A} (Behind HoldsStrings) (unless_nil copy_strings)
  args = IsCopier-unless_nil IsCopier-copy_strings

  nodes : IsCopier {A = A} (Behind HoldsMap) (unless_nil copy_map)
  nodes = IsCopier-unless_nil IsCopier-copy_map

  budget :
      IsCopier {A = A}
        (Behind (At a_pdb HoldsPdb))
        (unless_nil (copy_cell read_pdb a_pdb deep_copy_pdb))
  budget = IsCopier-unless_nil (IsCopier-copy_cell read_pdb (λ x. refl) IsCopier-pdb)

module _ {A C : Type 0} {L : Library A} {Holds : Foreign → Representation A A C}
    {T : Applied → A → Type 0} (D : IsDeep L Holds T) where
  wrapped : (k : Applied) → IsCopier (Behind (Typed (T k))) (copy_applied L k)
  wrapped k = IsCopier-copy_applied L k (D.round_trip k)

  wrapped_list : (k : Applied) → IsCopier (Listed (T k)) (deep_copy_applied L k)
  wrapped_list k = IsCopier-deep_copy_applied L k (D.round_trip k)

  HoldsSpec-IsStable : IsStable (HoldsSpec Holds T)
  HoldsSpec-IsStable b m m' p v e r = record {
    plain = r.plain;
    resources = (D.copies resource_requirements).stable b m m' _ _ e r.resources;
    image_pull_secrets =
        secrets.stable b m m' p.image_pull_secrets v.image_pull_secrets e r.image_pull_secrets;
    args_override = args.stable b m m' p.args_override v.args_override e r.args_override;
    extra_env = (wrapped_list env_var).stable b m m' p.extra_env v.extra_env e r.extra_env;
    node_selector = nodes.stable b m m' p.node_selector v.node_selector e r.node_selector;
    tolerations =
        (wrapped_list toleration).stable b m m' p.tolerations v.tolerations e r.tolerations;
    topology_spread_constraints =
        (wrapped_list topology_spread_constraint).stable b m m' p.topology_spread_constraints
          v.topology_spread_constraints e r.topology_spread_constraints;
    affinity = (wrapped affinity).stable b m m' p.affinity v.affinity e r.affinity;
    pod_disruption_budget =
        budget.stable b m m' p.pod_disruption_budget v.pod_disruption_budget e
          r.pod_disruption_budget;
    settings = IsCopier-settings.stable b m m' p.settings v.settings e r.settings;
    pod_security_context =
        (wrapped pod_security_context).stable b m m' p.pod_security_context v.pod_security_context e
          r.pod_security_context;
    security_context =
        (wrapped security_context).stable b m m' p.security_context v.security_context e
          r.security_context;
  }

  pub IsCopier-spec : IsCopier (HoldsSpec Holds T) (deep_copy_spec L)
  unfolding deep_copy_spec
  IsCopier-spec = IsCopier-fields HoldsSpec-IsStable (λ b m p v h r.
      field b m _ h (D.copies resource_requirements) r.resources (λ x1.
        field b m _ h secrets r.image_pull_secrets (λ x2. field b m _ h args r.args_override (λ x3.
          field b m _ h (wrapped_list env_var) r.extra_env (λ x4.
            field b m _ h nodes r.node_selector (λ x5.
              field b m _ h (wrapped_list toleration) r.tolerations (λ x6.
                field b m _ h (wrapped_list topology_spread_constraint)
                  r.topology_spread_constraints
                  (λ x7. field b m _ h (wrapped affinity) r.affinity (λ x8.
                    field b m _ h budget r.pod_disruption_budget (λ x9.
                      field b m _ h IsCopier-settings r.settings (λ x10.
                        field b m _ h (wrapped pod_security_context) r.pod_security_context (λ x11.
                          field b m _ h (wrapped security_context) r.security_context (λ x12.
                            finish b m _ _ (λ m' g. record {
                              plain = r.plain;
                              resources = g.1.1.1.1.1.1.1.1.1.1.1.0;
                              image_pull_secrets = g.1.1.1.1.1.1.1.1.1.1.0;
                              args_override = g.1.1.1.1.1.1.1.1.1.0;
                              extra_env = g.1.1.1.1.1.1.1.1.0;
                              node_selector = g.1.1.1.1.1.1.1.0;
                              tolerations = g.1.1.1.1.1.1.0;
                              topology_spread_constraints = g.1.1.1.1.1.0;
                              affinity = g.1.1.1.1.0;
                              pod_disruption_budget = g.1.1.1.0;
                              settings = g.1.1.0;
                              pod_security_context = g.1.0;
                              security_context = g.0;
                            }))))))))))))))

  pub IsCopier-status : IsCopier (HoldsStatus Holds) (deep_copy_status L)
  unfolding deep_copy_status
  IsCopier-status =
      let cs = IsCopier-unless_nil (
        IsCopier-copy_cell read_conditions {wrap = conditions} (λ x. refl)
          (IsCopier-copy_each (D.copies condition))) in
      IsCopier-fields
        (λ b m m' p v e r. record {
          plain = r.plain;
          conditions = cs.stable b m m' p.conditions v.conditions e r.conditions;
        })
        (λ b m p v h r.
          field b m _ h cs r.conditions
            (λ x. finish b m _ _ (λ m' g. record { plain = r.plain; conditions = g.0 })))

  pub IsCopier-tunnel : IsCopier (HoldsTunnel Holds T) (deep_copy_tunnel L)
  unfolding deep_copy_tunnel
  IsCopier-tunnel =
      IsCopier-fields
        (λ b m m' p v e r. record {
          type_meta = r.type_meta;
          metadata = (D.copies object_meta).stable b m m' p.metadata v.metadata e r.metadata;
          spec = IsCopier-spec.stable b m m' p.spec v.spec e r.spec;
          status = IsCopier-status.stable b m m' p.status v.status e r.status;
        })
        (λ b m p v h r. field b m _ h (D.copies object_meta) r.metadata (λ x1.
          field b m _ h IsCopier-spec r.spec (λ x2. field b m _ h IsCopier-status r.status (λ x3.
            finish b m _ _ (λ m' g. record {
              type_meta = r.type_meta;
              metadata = g.1.1.0;
              spec = g.1.0;
              status = g.0;
            })))))

  pub IsCopier-list : IsCopier (HoldsList Holds T) (deep_copy_tunnel_list L)
  unfolding deep_copy_tunnel_list
  IsCopier-list =
      let items = IsCopier-unless_nil (
        IsCopier-copy_cell read_tunnels {wrap = tunnels} (λ x. refl)
          (IsCopier-copy_each IsCopier-tunnel)) in
      IsCopier-fields
        (λ b m m' p v e r. record {
          type_meta = r.type_meta;
          metadata = (D.copies list_meta).stable b m m' p.metadata v.metadata e r.metadata;
          items = items.stable b m m' p.items v.items e r.items;
        })
        (λ b m p v h r. field b m _ h (D.copies list_meta) r.metadata (λ x1.
          field b m _ h items r.items (λ x2.
            finish b m _ _
              (λ m' g. record { type_meta = r.type_meta; metadata = g.1.0; items = g.0 }))))
