-- ===== src/Examples/Tunnels.antt =====
-- The controller of tunnels, the Cloudflare client and the webhook at concrete inputs.
use cloudflare_tunnel_operat.Base.{
  String, ◌≡◌, ◌↔◌, refl, Bool, true, false, Option, none, some, List, [], ◌∷◌, ◌==◌, ◌⊎◌, arith,
}
use cloudflare_tunnel_operat.Base.{ℕ, length}
use cloudflare_tunnel_operat.Random.{bytes_of, secure_string}
use cloudflare_tunnel_operat.Random.Drawn.{IsDrawn, secure_string-IsDrawn}
use cloudflare_tunnel_operat.Base.Int.{pos}
use cloudflare_tunnel_operat.Base.Dict.{lookup, put}
use cloudflare_tunnel_operat.Base.Value.{Value, text}
use cloudflare_tunnel_operat.Base.Exec.{Exec, pure, ok, err, wrap, flat, other}
use cloudflare_tunnel_operat.Api.{CloudflareTunnel, NamespacedName}
use cloudflare_tunnel_operat.Domain.{Tunnel, healthy}
use cloudflare_tunnel_operat.Ingress.Reconcile.{default_label_key}
use cloudflare_tunnel_operat.Tunnel.Objects.{OwnerReference, ServiceMonitor, secret}
use cloudflare_tunnel_operat.Tunnel.Desired.{
  key_of, tunnel_token_key, app_labels, new_service_monitor, put_labels, controller_reference,
  desired_secret,
}
use cloudflare_tunnel_operat.Tunnel.Desired.Wiring.{IsWired, desired-IsWired}
use cloudflare_tunnel_operat.Tunnel.Provision.{
  stored_token, create_tunnel, reuse_tunnel, reconcile_tunnel, token_of, tunnel_name_of,
}
use cloudflare_tunnel_operat.Tunnel.Provision.Reuse.{
  with_client, HasToken, keeps_tunnel, missing_tunnel_fails,
}
use cloudflare_tunnel_operat.Tunnel.Apply.{reconcile_secret}
use cloudflare_tunnel_operat.Tunnel.Apply.Secrets.{secret_always_applied}
use cloudflare_tunnel_operat.Tunnel.Status.{update_status, check_objects, write_report, no_replicas}
use cloudflare_tunnel_operat.Tunnel.Status.Report.{IsReported, update_status-IsReported}
use cloudflare_tunnel_operat.Tunnel.Reconcile.{finalizer_name}
use cloudflare_tunnel_operat.Tunnel.Reconcile.Finalizer.{IsReleased, IsKept, finalizer_order}
use cloudflare_tunnel_operat.External.{
  create_tunnel as create_remote, get_tunnel_token, delete_all_dns, delete_records, dns_params,
}
use cloudflare_tunnel_operat.External.Comment.{dns_comment, escape, escape_char}
use cloudflare_tunnel_operat.External.Dns.{stored, stored-healthy}
use cloudflare_tunnel_operat.Webhook.{apply_default, labels_or_empty}
use cloudflare_tunnel_operat.Webhook.Default.{IsListed, default_marked}
use cloudflare_tunnel_operat.Examples.Ingresses.{tunnel, meta}
use cloudflare_tunnel_operat.Examples.Memory.{World}
use cloudflare_tunnel_operat.Examples.Rules.{config}
use cloudflare_tunnel_operat.Examples.Site.{Site, reconciler, cloudflare, applies, setter, typed}

abbrev with_id : String → Bool → CloudflareTunnel
with_id id deleting = record tunnel {
  metadata = meta deleting (finalizer_name ∷ []);
  status = record tunnel.status { tunnel_id = id };
}

-- The objects of the tunnel; the deployment has one replica.
abbrev site : CloudflareTunnel → Option String → Site
site t token = record {
  tunnel = some t;
  secret = some (record {
    secret_data = elim token [ none ↦ none | some v ↦ some ((tunnel_token_key, v) ∷ []) ];
  });
  service = some (text "service");
  deployment = some (record { available_replicas = pos 1; object = text "deployment" });
  records = record { id = "r1"; type = "CNAME"; content = ""; proxied = none } ∷ [];
}

abbrev request : NamespacedName
request = record { namespace = "web"; name = "shop" }

abbrev leaving : CloudflareTunnel
leaving = with_id "t1" true

finalizer_order_example :
    IsReleased (reconciler applies) leaving (site leaving none)
    ⊎ IsKept (reconciler applies) leaving (site leaving none)
finalizer_order_example = finalizer_order (reconciler applies) leaving (site leaving none) refl

abbrev fresh : CloudflareTunnel
fresh = with_id "" false

abbrev made : Tunnel
made = record { id = "new"; name = "shop" }

abbrev settled : CloudflareTunnel
settled = with_id "t1" false

reuses :
    (reconcile_tunnel
      (with_client (reconciler applies) cloudflare)
      settled
      (site settled (some "token"))).0
    ≡ ok (record { id = "t1"; name = "shop" }, "token")
unfolding reconcile_tunnel reuse_tunnel stored_token token_of lookup
reuses = refl

keeps_tunnel_example :
    (◌≡◌ {A = Tunnel}
      (record { id = "t1"; name = "shop" })
      (record { id = settled.status.tunnel_id; name = tunnel_name_of settled }))
    × HasToken
        (with_client (reconciler applies) cloudflare)
        settled
        "token"
        (site settled (some "token"))
        (reconcile_tunnel
          (with_client (reconciler applies) cloudflare)
          settled
          (site settled (some "token"))).1
keeps_tunnel_example =
    keeps_tunnel (reconciler applies) cloudflare settled (record { id = "t1"; name = "shop" })
      "token" (site settled (some "token")) refl reuses

abbrev orphan : CloudflareTunnel
orphan = with_id "gone" false

no_token :
    (stored_token (with_client (reconciler applies) cloudflare) orphan (site orphan none)).0 ≡ ok ""
unfolding stored_token token_of
no_token = refl

refused :
    (get_tunnel_token cloudflare orphan.status.tunnel_id
      (stored_token (with_client (reconciler applies) cloudflare) orphan (site orphan none)).1).0
    ≡ err (flat "failed to get tunnel token" (other "tunnel not found"))
unfolding get_tunnel_token stored_token token_of
refused = refl

missing_tunnel_fails_example :
    reconcile_tunnel (with_client (reconciler applies) cloudflare) orphan (site orphan none) ≡ (
      err (
          wrap "failed to get tunnel"
            (flat "failed to get tunnel token" (other "tunnel not found"))),
      (get_tunnel_token cloudflare orphan.status.tunnel_id
          (stored_token
            (with_client (reconciler applies) cloudflare)
            orphan
            (site orphan none)).1).1,
    )
missing_tunnel_fails_example =
    missing_tunnel_fails (reconciler applies) cloudflare orphan
      (flat "failed to get tunnel token" (other "tunnel not found")) (site orphan none) refl
      no_token refused

reports : (update_status (reconciler applies) settled (site settled none)).0 ≡ ok false
unfolding update_status check_objects write_report no_replicas
reports = refl

update_status-IsReported_example : IsReported (reconciler applies) settled false (site settled none)
update_status-IsReported_example =
    update_status-IsReported (reconciler applies) setter settled false (site settled none) refl
      reports

applied :
    (reconcile_secret (reconciler applies) settled "token" (site settled none)).0
    ≡ ok (key_of settled)
unfolding reconcile_secret
applied = refl

secret_always_applied_example :
    (owner : OwnerReference) × (body : Value) × (w' : Site) × (controller_reference
        (reconciler applies).library.gvk_for_object
        settled
      ≡ ok owner)
    × ((reconciler applies).library.to_unstructured (secret (desired_secret settled owner "token"))
        ≡ ok body)
    × (((reconciler applies).client.apply_patch body w').0 ≡ ok tt)
    × (reconcile_secret (reconciler applies) settled "token" (site settled none)
        ≡ (ok (key_of settled), ((reconciler applies).client.apply_patch body w').1))
secret_always_applied_example =
    secret_always_applied (reconciler applies) typed settled "token" (key_of settled)
      (site settled none) applied

abbrev owner : OwnerReference
owner = record {
  api_version = "cf-tunnel-operator.walnuts.dev/v1beta1";
  kind = "CloudflareTunnel";
  name = "shop";
  uid = "1";
  block_owner_deletion = true;
  controller = true;
}

desired-IsWired_example : IsWired settled owner "token"
desired-IsWired_example = desired-IsWired settled owner "token"

abbrev monitor : ServiceMonitor
monitor = record (new_service_monitor settled) {
  match_labels = some (put_labels (app_labels settled) none);
  endpoints =
      record { port = "metrics"; target_port = "metrics"; path = "/metrics"; honor_labels = false }
      ∷ [];
  job_label = "cloudflared";
  match_names = "web" ∷ [];
}

stored-healthy_example : healthy (stored "r1" (dns_params "t1" "shop.walnuts.dev")) "t2" ≡ ok false
stored-healthy_example = stored-healthy "r1" "t1" "t2" "shop.walnuts.dev" refl

deletes : (delete_all_dns cloudflare "t1" (site settled none)).0 ≡ ok tt
unfolding delete_all_dns delete_records
deletes = refl

abbrev chosen : CloudflareTunnel
chosen = record settled { spec = record settled.spec { default = true } }

abbrev marked : CloudflareTunnel
marked = record chosen {
  metadata = record chosen.metadata { labels = some ((default_label_key, "true") ∷ []) };
}

marks : apply_default (some chosen) ≡ ok marked
unfolding apply_default put
marks = refl

default_marked_example :
    (IsListed marked ↔ (chosen.spec.default ≡ true))
    × ((k : String)
        → (default_label_key == k) ≡ false
        → lookup k (labels_or_empty marked.metadata.labels)
          ≡ lookup k (labels_or_empty chosen.metadata.labels))
default_marked_example = default_marked chosen marked marks

abbrev both : World
both = record { configs = λ u. config; owners = λ h. none; ingress = none; tunnel = some marked }

comment_text :
    dns_comment "a\"<"
    ≡ "{\"managed-by\":\"cloudflare-tunnel-operator\",\"tunnelID\":\"a\\\"\\u003c\"}"
unfolding dns_comment escape escape_char
comment_text = refl

abbrev alphabet : List ℕ
alphabet = 65 ∷ 66 ∷ 67 ∷ []

abbrev read_bytes : ℕ → Exec (Unit {0}) (List ℕ)
read_bytes n = pure (255 ∷ 4 ∷ [])

secure_string-IsDrawn_example :
    (cs : List ℕ) × (secure_string read_bytes 2 alphabet tt ≡ (ok cs, tt))
    × (length (bytes_of cs) ≡ 2)
    × IsDrawn alphabet (255 ∷ 4 ∷ []) cs
secure_string-IsDrawn_example =
    secure_string-IsDrawn read_bytes 2 alphabet (255 ∷ 4 ∷ []) tt tt (omega arith)
      (omega arith, (omega arith, (omega arith, tt))) refl refl
