-- ===== src/Examples/Ingresses.antt =====
-- Reconciles of one Ingress in memory.
use cloudflare_tunnel_operat.Base.{
  String, ◌≡◌, refl, Bool, true, false, Option, none, some, List, [], ◌∷◌, ◌==◌, ◌⊎◌,
}
use cloudflare_tunnel_operat.Base.Int.{pos}
use cloudflare_tunnel_operat.Base.Exec.{ok}
use cloudflare_tunnel_operat.Api.{ObjectMeta, CloudflareTunnel, NamespacedName}
use cloudflare_tunnel_operat.Cluster.{Ingress}
use cloudflare_tunnel_operat.Ingress.Hosts.{Host, get_hosts, check_tls, collect_tls_hosts}
use cloudflare_tunnel_operat.Ingress.Annotations.{
  cf_tunnel_annotation, detect_cloudflare_tunnel_name, check_to_be_ignored,
}
use cloudflare_tunnel_operat.Ingress.Sync.{
  for_hosts, append_cloudflare_tunnel_config, append_dns_record,
}
use cloudflare_tunnel_operat.Ingress.Sync.Correct.{AllServed}
use cloudflare_tunnel_operat.Ingress.Reconcile.{
  finalizer_name, get_cloudflare_tunnel, reconcile, reconcile_present, reconcile_hosts, publish,
  ensure_finalizer,
}
use cloudflare_tunnel_operat.Ingress.Reconcile.Correct.{Reaches, IsSynced, reconcile-IsSynced}
use cloudflare_tunnel_operat.Ingress.Reconcile.Finalizer.{
  IsKept, IsReleased, MayRelease, finalizer_safe,
}
use cloudflare_tunnel_operat.Ingress.Reconcile.Again.{twice, publish_again}
use cloudflare_tunnel_operat.Manager.Views.{SameView, named}
use cloudflare_tunnel_operat.Domain.{healthy}
use cloudflare_tunnel_operat.Examples.Memory.{World, view, reconciler, apart, lawful}
use cloudflare_tunnel_operat.Examples.Rules.{settings, config}

abbrev pub meta : Bool → List String → ObjectMeta
meta deleting finalizers = record {
  namespace = "web";
  name = "shop";
  uid = "1";
  labels = none;
  annotations = (cf_tunnel_annotation, "web/tunnel") ∷ [];
  finalizers = finalizers;
  deleting = deleting;
}

abbrev pub shop : Bool → Ingress
shop deleting = record {
  metadata = meta deleting (finalizer_name ∷ []);
  spec = record { tls = []; rules = "shop.walnuts.dev" ∷ [] };
  load_balancer = "192.168.0.1" ∷ [];
}

abbrev pub tunnel : CloudflareTunnel
tunnel = record {
  metadata = meta false [];
  spec = record {
    default = false;
    replicas = pos 1;
    resources = record { limits = none; requests = none };
    image_pull_secrets = [];
    image = "";
    args_override = none;
    extra_env = [];
    node_selector = [];
    tolerations = [];
    topology_spread_constraints = [];
    affinity = none;
    enable_service_monitor = true;
    pod_disruption_budget = none;
    settings = settings;
    pod_security_context = none;
    security_context = none;
  };
  status = record { replicas = pos 1; tunnel_name = "tunnel"; tunnel_id = "t1"; conditions = [] };
}

abbrev pub request : NamespacedName
request = record { namespace = "web"; name = "shop" }

abbrev pub tunnel_name : NamespacedName
tunnel_name = record { namespace = "web"; name = "tunnel" }

abbrev pub world : Bool → Option CloudflareTunnel → World
world deleting t = record {
  configs = λ u. config;
  owners = λ h. none;
  ingress = some (shop deleting);
  tunnel = t;
}

abbrev pub before : World
before = world false (some tunnel)

pub reaches : Reaches reconciler request (shop false) tunnel before before
unfolding ensure_finalizer detect_cloudflare_tunnel_name get_cloudflare_tunnel
reaches = record {
  found = shop false;
  found_ok = refl;
  present = refl;
  ensured = refl;
  tunnel_name = tunnel_name;
  detected = refl;
  tunnel_ok = refl;
}

-- No host of the Ingress is empty.
pub served : (deleting : Bool) → AllServed named (get_hosts (shop deleting).spec)
unfolding get_hosts check_tls collect_tls_hosts
served deleting = (refl, tt)

succeeds : (reconcile reconciler request before).0 ≡ ok tt
unfolding reconcile reconcile_present reconcile_hosts publish ensure_finalizer get_cloudflare_tunnel
    detect_cloudflare_tunnel_name check_to_be_ignored append_cloudflare_tunnel_config for_hosts
    append_dns_record get_hosts check_tls collect_tls_hosts
succeeds = refl

reconcile-IsSynced_example :
    (tunnel.metadata.deleting ≡ false)
    × ((tunnel.status.tunnel_id == "") ≡ false)
    × IsSynced reconciler view (shop false) tunnel before (reconcile reconciler request before).1
reconcile-IsSynced_example =
    reconcile-IsSynced reconciler view lawful apart request (shop false) tunnel before before
      reaches (served false) succeeds

abbrev pub leaving : World
leaving = world true (some tunnel)

pub finds : get_cloudflare_tunnel reconciler tunnel_name leaving ≡ (ok tunnel, leaving)
unfolding get_cloudflare_tunnel
finds = refl

pub detects : detect_cloudflare_tunnel_name (shop true).metadata.annotations ≡ ok tunnel_name
unfolding detect_cloudflare_tunnel_name
detects = refl

finalizer_safe_example :
    IsKept reconciler (shop true) leaving
    ⊎ (MayRelease reconciler view (shop true) leaving × IsReleased reconciler (shop true) leaving)
finalizer_safe_example =
    finalizer_safe reconciler view lawful apart (shop true) leaving (served true) refl

abbrev one_host : List Host
one_host = record { host = "shop.walnuts.dev"; tls = false } ∷ []

one_host-IsServed : AllServed named one_host
one_host-IsServed = (refl, tt)

publishes : (publish reconciler "t1" one_host "192.168.0.1" settings before).0 ≡ ok tt
unfolding publish append_cloudflare_tunnel_config for_hosts append_dns_record healthy
publishes = refl

publishes_twice : (twice reconciler tunnel one_host "192.168.0.1" before).0 ≡ ok tt
unfolding publish append_cloudflare_tunnel_config for_hosts append_dns_record healthy
publishes_twice = refl

publish_again_example :
    SameView view
      (twice reconciler tunnel one_host "192.168.0.1" before).1
      (publish reconciler "t1" one_host "192.168.0.1" settings before).1
publish_again_example =
    publish_again reconciler view lawful tunnel one_host "192.168.0.1" before one_host-IsServed
      publishes publishes_twice
