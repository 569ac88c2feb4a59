-- ===== src/Examples/Site.antt =====
-- A world for the controller of tunnels: the Kubernetes objects of one CloudflareTunnel, and the DNS
-- records of the Cloudflare side.
use cloudflare_tunnel_operat.Base.{
  String, ◌<>◌, ◌≡◌, refl, Bool, true, false, Option, some, List, [], ◌∷◌, ◌==◌, arith,
  if◌then◌else◌,
}
use cloudflare_tunnel_operat.Base.Int.{pos}
use cloudflare_tunnel_operat.Base.Value.{Value, text}
use cloudflare_tunnel_operat.Base.Exec.{Exec, ok, err, other}
use cloudflare_tunnel_operat.Api.{CloudflareTunnel, Condition, ConditionType, available, degraded}
use cloudflare_tunnel_operat.Domain.{DnsRecord, empty_record}
use cloudflare_tunnel_operat.Tunnel.Objects.{
  ApplyConfiguration, ServiceApply, secret, service, deployment,
}
use cloudflare_tunnel_operat.Tunnel.Client.{
  Secret, Deployment, TunnelClient, Library, CloudflareTunnelReconciler,
}
use cloudflare_tunnel_operat.Tunnel.Status.Report.{IsSetter, condition_of, same_type}
use cloudflare_tunnel_operat.Tunnel.Apply.Secrets.{IsTyped}
use cloudflare_tunnel_operat.External.{CloudflareApi, CloudflareTunnelClient, cloudflare_manager}
use cloudflare_tunnel_operat.Examples.Memory.{answer, finalizers}

pub record Site : Type 0 where
  pub tunnel : Option CloudflareTunnel
  pub secret : Option Secret
  pub service : Option Value
  pub deployment : Option Deployment
  pub records : List DnsRecord

abbrev pub client : Exec Site (Unit {0}) → TunnelClient Site
client patch = record {
  get_tunnel_resource = λ n w. (answer w.tunnel, w);
  update_tunnel = λ t w. (ok t, record w { tunnel = some t });
  update_tunnel_status = λ t w. (ok t, record w { tunnel = some t });
  get_secret = λ n w. (answer w.secret, w);
  get_service = λ n w. (answer w.service, w);
  get_deployment = λ n w. (answer w.deployment, w);
  apply_patch = λ v. patch;
  create_or_update_service_monitor = λ sm f w. (ok tt, w);
  create_or_update_pdb = λ pdb f w. (ok tt, w);
}

abbrev remove_id : String → List DnsRecord → List DnsRecord
remove_id i [] = []
remove_id i (r ∷ rs) = let rest = remove_id i rs in if r.id == i then rest else r ∷ rest

-- A tunnel named "gone" does not exist.
abbrev api : CloudflareApi Site
api = record {
  create_tunnel = λ a p w. (ok (record { id = "new"; name = p.name }), w);
  delete_tunnel = λ a t w. (ok tt, w);
  get_tunnel = λ a t w. (ok (record { id = t; name = t }), w);
  get_tunnel_token =
      λ a t w. (if t == "gone" then err (other "tunnel not found") else ok ("token-" <> t), w);
  get_tunnel_configuration = λ a t w. (ok (record { ingress = []; unread = text "" }), w);
  update_tunnel_configuration = λ a t c w. (ok c, w);
  create_dns_record = λ z p w. (ok empty_record, w);
  update_dns_record = λ z i p w. (ok empty_record, w);
  delete_dns_record = λ z i w. (ok tt, record w { records = remove_id i w.records });
  list_dns_records = λ z p w. (ok w.records, w);
}

abbrev pub cloudflare : CloudflareTunnelClient Site
cloudflare = record {
  api = api;
  account_id = "account";
  zone_id = "zone";
  random = λ n s w. (ok s, w);
}

abbrev pub set_condition : List Condition → Condition → List Condition
set_condition [] c = c ∷ []
set_condition (d ∷ ds) c =
    let rest = set_condition ds c in if same_type c.type d.type then c ∷ ds else d ∷ rest

abbrev service_of : Option Value → ServiceApply
service_of v = record {
  meta = record {
    key = record { namespace = "web"; name = "tunnel" };
    labels = [];
    owner = record {
      api_version = "";
      kind = "";
      name = "";
      uid = "";
      block_owner_deletion = false;
      controller = false;
    };
  };
  port_name = "";
  protocol = "";
  port = pos 0;
  target_port = "";
  selector = [];
  type = "";
}

abbrev same_kind : ApplyConfiguration → ApplyConfiguration → Bool
same_kind (secret a) (secret b) = true
same_kind (service a) (service b) = true
same_kind (deployment a) (deployment b) = true
same_kind _ _ = false

abbrev pub library : Library
library = record {
  gvk_for_object = ok ("cf-tunnel-operator.walnuts.dev/v1beta1", "CloudflareTunnel");
  to_unstructured = λ a. ok (text "object");
  extract_service = λ v. ok (service (service_of v));
  extract_deployment = λ v. ok (service (service_of v));
  deep_equal = same_kind;
  set_controller_reference = λ t owners. ok owners;
  set_status_condition = set_condition;
}

abbrev pub reconciler : Exec Site (Unit {0}) → CloudflareTunnelReconciler Site
reconciler patch = record {
  client = client patch;
  manager = cloudflare_manager cloudflare;
  library = library;
  finalizers = finalizers;
}

abbrev pub applies : Exec Site (Unit {0})
applies w = (ok tt, w)

abbrev pub refuses : Exec Site (Unit {0})
refuses w = (err (other "forbidden"), w)

same_type_refl : (t : ConditionType) → same_type t t ≡ true
same_type_refl available = refl
same_type_refl degraded = refl

same_type_eq : (s t : ConditionType) → same_type s t ≡ true → s ≡ t
same_type_eq available available h = refl
same_type_eq degraded degraded h = refl
same_type_eq available degraded h = ground arith
same_type_eq degraded available h = ground arith

setter_sets :
    (cs : List Condition) (c : Condition) → condition_of c.type (set_condition cs c) ≡ some c
unfolding condition_of
setter_sets [] c = rw (same_type_refl c.type) refl
setter_sets (d ∷ ds) c = ground (arith, same_type_refl c.type, setter_sets ds c)

setter_keeps :
    (cs : List Condition) (c : Condition) (t : ConditionType)
    → same_type t c.type ≡ false
    → condition_of t (set_condition cs c) ≡ condition_of t cs
unfolding condition_of
setter_keeps [] c t h = rw h refl
setter_keeps (d ∷ ds) c t h = ground (arith, h, same_type_eq c.type d.type, setter_keeps ds c t h)

pub setter : IsSetter library
setter = record { sets = setter_sets; keeps = setter_keeps }

pub typed : IsTyped library
typed = record {
  extracts_service = λ v a e. (service_of v, ground arith);
  tells_apart = λ s v. refl;
}
