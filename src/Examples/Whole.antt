-- ===== src/Examples/Whole.antt =====
-- A reconcile of an Ingress with the Cloudflare client, whose zone is empty.
use cloudflare_tunnel_operat.Base.{◌≡◌, refl, false, none, some, [], ◌∷◌}
use cloudflare_tunnel_operat.Base.Exec.{ok}
use cloudflare_tunnel_operat.Cluster.{IngressClient}
use cloudflare_tunnel_operat.External.{cloudflare_manager}
use cloudflare_tunnel_operat.Ingress.Annotations.{check_to_be_ignored}
use cloudflare_tunnel_operat.Ingress.Reconcile.{IngressReconciler, get_cloudflare_tunnel}
use cloudflare_tunnel_operat.Examples.Memory.{answer, finalizers}
use cloudflare_tunnel_operat.Examples.Rules.{config}
use cloudflare_tunnel_operat.Examples.Ingresses.{shop, tunnel}
use cloudflare_tunnel_operat.Examples.Cloud.{Cloud, client}

abbrev cluster : IngressClient Cloud
cluster = record {
  get_ingress = λ n w. (answer w.ingress, w);
  update_ingress = λ i w. (ok i, record w { ingress = some i });
  get_cloudflare_tunnel = λ n w. (answer w.tunnel, w);
  list_cloudflare_tunnels = λ k v w.
      (ok (record { items = elim w.tunnel [ none ↦ [] | some t ↦ t ∷ [] ]; more = false }), w);
}

abbrev reconciler : IngressReconciler Cloud
reconciler = record {
  client = cluster;
  manager = cloudflare_manager client;
  finalizers = finalizers;
  parse_addr = λ s. some s;
}

abbrev before : Cloud
before = record {
  configs = λ t. config;
  site = none;
  ingress = some (shop false);
  tunnel = some tunnel;
}

kept : check_to_be_ignored (shop false).metadata.annotations ≡ false
unfolding check_to_be_ignored
kept = refl
