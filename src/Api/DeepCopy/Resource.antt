-- ===== src/Api/DeepCopy/Resource.antt =====
-- The content of each generated type, and that its DeepCopyInto copies it.
use cloudflare_tunnel_operat.Base.{String, Bool, ◌≡◌, Option, none, List}
use cloudflare_tunnel_operat.Base.Int.{ℤ}
use cloudflare_tunnel_operat.Api.{IntOrString}
use cloudflare_tunnel_operat.Api.DeepCopy.{deep_copy_settings, deep_copy_pdb}
use cloudflare_tunnel_operat.Api.DeepCopy.Structs.{Memory, SettingsStruct, PdbStruct, TypeMeta}
use cloudflare_tunnel_operat.Api.DeepCopy.Copier.{Bounds, IsCopier, IsCopier-fields, field, finish}
use cloudflare_tunnel_operat.Api.DeepCopy.Parts.{
  Behind, IsCopier-unless_nil, HoldsString, HoldsIntOrString, IsCopier-copy_string,
  IsCopier-copy_int_or_string,
}

-- The fields that are no addresses, and the content behind each of the others.
pub record SettingsContent : Type 0 where
  pub plain : SettingsStruct
  pub ca_pool : Option String

pub record PdbContent : Type 0 where
  pub min_available : Option IntOrString
  pub max_unavailable : Option IntOrString

-- `C` is the contents of the structs of other packages.
pub record SpecContent (A C : Type 0) : Type 0 where
  pub plain : Bool × (ℤ × (String × Bool))
  pub resources : C
  pub image_pull_secrets : Option (List String)
  pub args_override : Option (List String)
  pub extra_env : Option (List (Option A))
  pub node_selector : Option (String → Option String)
  pub tolerations : Option (List (Option A))
  pub topology_spread_constraints : Option (List (Option A))
  pub affinity : Option A
  pub pod_disruption_budget : Option PdbContent
  pub settings : SettingsContent
  pub pod_security_context : Option A
  pub security_context : Option A

pub record StatusContent (C : Type 0) : Type 0 where
  pub plain : ℤ × (String × String)
  pub conditions : Option (List C)

pub record TunnelContent (A C : Type 0) : Type 0 where
  pub type_meta : TypeMeta
  pub metadata : C
  pub spec : SpecContent A C
  pub status : StatusContent C

pub record ListContent (A C : Type 0) : Type 0 where
  pub type_meta : TypeMeta
  pub metadata : C
  pub items : Option (List (TunnelContent A C))

module _ {A : Type 0} where
  pub record HoldsSettings (b : Bounds) (m : Memory A) (p : SettingsStruct) (v : SettingsContent)
      : Type 0 where
    pub plain : record p { ca_pool = none } ≡ v.plain
    pub ca_pool : Behind HoldsString b m p.ca_pool v.ca_pool

  pub IsCopier-settings : IsCopier HoldsSettings (deep_copy_settings {A = A})
  unfolding deep_copy_settings
  IsCopier-settings =
      let text = IsCopier-unless_nil IsCopier-copy_string in
      IsCopier-fields
        (λ b m m' p v e r. record {
          plain = r.plain;
          ca_pool = text.stable b m m' p.ca_pool v.ca_pool e r.ca_pool;
        })
        (λ b m p v h r.
          field b m _ h text r.ca_pool
            (λ q. finish b m _ _ (λ m' g. record { plain = r.plain; ca_pool = g.0 })))

  pub record HoldsPdb (b : Bounds) (m : Memory A) (p : PdbStruct) (v : PdbContent) : Type 0 where
    pub min_available : Behind HoldsIntOrString b m p.min_available v.min_available
    pub max_unavailable : Behind HoldsIntOrString b m p.max_unavailable v.max_unavailable

  pub IsCopier-pdb : IsCopier HoldsPdb (deep_copy_pdb {A = A})
  unfolding deep_copy_pdb
  IsCopier-pdb =
      let number = IsCopier-unless_nil IsCopier-copy_int_or_string in
      IsCopier-fields
        (λ b m m' p v e r. record {
          min_available = number.stable b m m' p.min_available v.min_available e r.min_available;
          max_unavailable =
              number.stable b m m' p.max_unavailable v.max_unavailable e r.max_unavailable;
        })
        (λ b m p v h r. field b m _ h number r.min_available (λ q.
          field b m _ h number r.max_unavailable (λ q'.
            finish b m _ _ (λ m' g. record { min_available = g.1.0; max_unavailable = g.0 }))))
