-- ===== src/Examples/Shelf.antt =====
-- An API server with room for the secret, the service and the deployment of one CloudflareTunnel.
use cloudflare_tunnel_operat.Base.{
  String, ◌≡◌, refl, sym, Bool, true, false, Option, none, some, ◌==◌, ◌&&◌, arith, if◌then◌else◌,
}
use cloudflare_tunnel_operat.Base.Int.{pos}
use cloudflare_tunnel_operat.Base.Value.{Value, text}
use cloudflare_tunnel_operat.Base.Exec.{Result, ok, err, other, sentinel, not_found}
use cloudflare_tunnel_operat.Api.{CloudflareTunnel, NamespacedName}
use cloudflare_tunnel_operat.Tunnel.Objects.{
  ApplyConfiguration, ServiceApply, DeploymentApply, secret, service, deployment,
}
use cloudflare_tunnel_operat.Tunnel.Client.{TunnelClient, Library, CloudflareTunnelReconciler}
use cloudflare_tunnel_operat.Tunnel.Apply.Secrets.{IsTyped}
use cloudflare_tunnel_operat.Tunnel.Apply.Live.{
  Live, ObjectKind, a_secret, a_service, a_deployment, kind_of, name_of, same_kind, IsFaithful,
}
use cloudflare_tunnel_operat.Tunnel.Apply.Lands.{IsReadOnly}
use cloudflare_tunnel_operat.Tunnel.Reconcile.Aside.{IsAside}
use cloudflare_tunnel_operat.Tunnel.Reconcile.Deployed.{IsDeployed, reconcile_present-IsDeployed}
use cloudflare_tunnel_operat.Examples.Memory.{finalizers}
use cloudflare_tunnel_operat.Examples.Site.{set_condition}
use cloudflare_tunnel_operat.Examples.Ingresses.{tunnel}
use cloudflare_tunnel_operat.Manager.{CloudflareTunnelManager}
use cloudflare_tunnel_operat.Tunnel.Objects.{OwnerReference}
use cloudflare_tunnel_operat.Tunnel.Desired.{key_of, desired_service, desired_deployment}
use cloudflare_tunnel_operat.Tunnel.Reconcile.{reconcile_present, ensure_finalizer}
use cloudflare_tunnel_operat.Tunnel.Provision.{
  stored_token, create_tunnel, reuse_tunnel, reconcile_tunnel, token_of,
}
use cloudflare_tunnel_operat.Tunnel.Apply.{
  reconcile_secret, reconcile_deployment, reconcile_service, reconcile_service_monitor,
  reconcile_pdb,
}
use cloudflare_tunnel_operat.Tunnel.Status.{update_status, check_objects, write_report, no_replicas}
use cloudflare_tunnel_operat.Base.Dict.{lookup}
use cloudflare_tunnel_operat.Tunnel.Desired.{desired_secret}

ok_eq : {A : Type 0} {a b : A} → ok a ≡ ok b → a ≡ b
ok_eq h = cc

record Shelf : Type 0 where
  has_secret : Bool
  has_service : Bool
  has_deployment : Bool

abbrev is_shop : NamespacedName → Bool
is_shop n = (n.namespace == "web") && (n.name == "shop")

abbrev kind_text : ObjectKind → String
kind_text a_secret = "secret"
kind_text a_service = "service"
kind_text a_deployment = "deployment"

abbrev has : ObjectKind → Shelf → Bool
has a_secret w = w.has_secret
has a_service w = w.has_service
has a_deployment w = w.has_deployment

abbrev shelved : Live Shelf
shelved w k n = if has k w && is_shop n then some (text (kind_text k)) else none

abbrev put : Value → Shelf → Shelf
put (text s) w = record {
  has_secret = if s == "secret" then true else w.has_secret;
  has_service = if s == "service" then true else w.has_service;
  has_deployment = if s == "deployment" then true else w.has_deployment;
}
put _ w = w

abbrev read : {A : Type 0} → Bool → NamespacedName → A → Result A
read there n a = if there && is_shop n then ok a else err (sentinel not_found)

-- One tunnel, whose token is always the same.
abbrev manager : CloudflareTunnelManager Shelf
manager = record {
  create_tunnel = λ n w. (ok (record { id = "t1"; name = n }), w);
  delete_tunnel = λ t w. (ok tt, w);
  get_tunnel = λ t w. (ok (record { id = t; name = t }), w);
  get_tunnel_token = λ t w. (ok "token", w);
  get_tunnel_configuration = λ t w. (err (other "none"), w);
  update_tunnel_configuration = λ t c w. (ok tt, w);
  add_dns = λ t h w. (ok tt, w);
  get_dns = λ t h w. (err (other "none"), w);
  update_dns = λ t h r w. (ok tt, w);
  delete_dns = λ t i w. (ok tt, w);
  delete_all_dns = λ t w. (ok tt, w);
}

abbrev client : TunnelClient Shelf
client = record {
  get_tunnel_resource = λ n w. (ok tunnel, w);
  update_tunnel = λ t w. (ok t, w);
  update_tunnel_status = λ t w. (ok t, w);
  get_secret = λ n w. (read w.has_secret n (record { secret_data = none }), w);
  get_service = λ n w. (read w.has_service n (text "service"), w);
  get_deployment = λ n w. (
    read w.has_deployment n (record { available_replicas = pos 1; object = text "deployment" }),
    w,
  );
  apply_patch = λ v w. (ok tt, put v w);
  create_or_update_service_monitor = λ sm f w. (ok tt, w);
  create_or_update_pdb = λ pdb f w. (ok tt, w);
}

abbrev owner : OwnerReference
owner = record {
  api_version = "";
  kind = "";
  name = "";
  uid = "";
  block_owner_deletion = false;
  controller = false;
}

abbrev nameless : CloudflareTunnel
nameless = record tunnel { metadata = record tunnel.metadata { name = "" } }

-- An object that was read is taken for the desired one, and the zero object has no name.
abbrev service_at : Option Value → ServiceApply
service_at none = desired_service nameless owner
service_at (some v) = desired_service tunnel owner

abbrev deployment_at : Option Value → DeploymentApply
deployment_at none = desired_deployment nameless owner (key_of nameless)
deployment_at (some v) = desired_deployment tunnel owner (key_of tunnel)

-- Nothing but the object of the one name can be sent.
abbrev library : Library
library = record {
  gvk_for_object = ok ("cf-tunnel-operator.walnuts.dev/v1beta1", "CloudflareTunnel");
  to_unstructured = λ a.
      if is_shop (name_of a) then ok (text (kind_text (kind_of a))) else err (other "too many");
  extract_service = λ v. ok (service (service_at v));
  extract_deployment = λ v. ok (deployment (deployment_at v));
  deep_equal =
      λ a b. same_kind (kind_of a) (kind_of b) && (is_shop (name_of a) && is_shop (name_of b));
  set_controller_reference = λ t owners. ok owners;
  set_status_condition = set_condition;
}

abbrev shelf_reconciler : CloudflareTunnelReconciler Shelf
shelf_reconciler = record {
  client = client;
  manager = manager;
  library = library;
  finalizers = finalizers;
}

sent :
    (a : ApplyConfiguration) (body : Value)
    → library.to_unstructured a ≡ ok body
    → (is_shop (name_of a) ≡ true) × (body ≡ text (kind_text (kind_of a)))
sent a body e = ground (arith, e)

put_shows :
    (a : ApplyConfiguration) (w : Shelf)
    → is_shop (name_of a) ≡ true
    → shelved (put (text (kind_text (kind_of a))) w) (kind_of a) (name_of a)
      ≡ some (text (kind_text (kind_of a)))
put_shows (secret s) w e = rw e refl
put_shows (service s) w e = rw e refl
put_shows (deployment d) w e = rw e refl

put_hides :
    (j k : ObjectKind) (n : NamespacedName) (w : Shelf)
    → same_kind j k ≡ false
    → shelved (put (text (kind_text j)) w) k n ≡ shelved w k n
put_hides a_secret a_secret n w e = ground (arith, e)
put_hides a_secret a_service n w e = refl
put_hides a_secret a_deployment n w e = refl
put_hides a_service a_secret n w e = refl
put_hides a_service a_service n w e = ground (arith, e)
put_hides a_service a_deployment n w e = refl
put_hides a_deployment a_secret n w e = refl
put_hides a_deployment a_service n w e = refl
put_hides a_deployment a_deployment n w e = ground (arith, e)

read_ok :
    {A : Type 0} (there : Bool) (n : NamespacedName) (a b : A) (w w' : Shelf)
    → ◌≡◌ {A = Result A × Shelf} (read there n a, w) (ok b, w')
    → (there ≡ true) × (is_shop n ≡ true) × (w ≡ w')
read_ok there n a b w w' h = ground (arith, h)

-- An object that is there is the one that was sent.
there_shows :
    (k : ObjectKind) (n : NamespacedName) (w w' : Shelf)
    → has k w ≡ true
    → is_shop n ≡ true
    → w ≡ w'
    → shelved w' k n ≡ some (text (kind_text k))
there_shows k n w w' h e q = rw (sym q, h, e) refl

no_service :
    (a : ServiceApply) (c : ApplyConfiguration)
    → library.extract_service none ≡ ok c
    → library.deep_equal (service a) c ≡ false
unfolding desired_service
no_service a c e = rw (sym (ok_eq e)) (ground arith)

no_deployment :
    (a : DeploymentApply) (c : ApplyConfiguration)
    → library.extract_deployment none ≡ ok c
    → library.deep_equal (deployment a) c ≡ false
unfolding desired_deployment
no_deployment a c e = rw (sym (ok_eq e)) (ground arith)

faithful : IsFaithful shelf_reconciler shelved
faithful = record {
  applied = λ a body w c h. let (e, q) = sent a body c in rw q (put_shows a w e);
  applied_others =
      λ a body w k n c d. let (e, q) = sent a body c in rw q (put_hides (kind_of a) k n w d);
  same_service = λ a v c w w' g e d.
      let (here, named, stays) = read_ok w.has_service a.meta.key (text "service") v w w' g in
      (text "service", rw named refl, there_shows a_service a.meta.key w w' here named stays);
  no_service = λ a c e. no_service a c e;
  same_deployment = λ a d c w w' g e f.
      let (here, named, stays) =
        read_ok w.has_deployment a.meta.key
          (record { available_replicas = pos 1; object = text "deployment" }) d w w' g in
      (text "deployment", rw named refl, there_shows a_deployment a.meta.key w w' here named stays);
  no_deployment = λ a c e. no_deployment a c e;
}

read_only : IsReadOnly shelf_reconciler shelved
read_only = record {
  get_secret = λ m k n. record { same = λ w. refl };
  get_service = λ m k n. record { same = λ w. refl };
  get_deployment = λ m k n. record { same = λ w. refl };
}

aside : IsAside shelf_reconciler shelved
aside = record {
  update_status = λ t k n. record { same = λ w. refl };
  service_monitor = λ sm f k n. record { same = λ w. refl };
  pdb = λ p f k n. record { same = λ w. refl };
}

typed : IsTyped library
typed = record {
  extracts_service = λ v a e. (service_at v, ground (arith, e));
  tells_apart = λ s v. refl;
}

abbrev fresh : CloudflareTunnel
fresh = record tunnel { status = record tunnel.status { tunnel_id = "" } }

abbrev empty : Shelf
empty = record { has_secret = false; has_service = false; has_deployment = false }

deploys : (reconcile_present shelf_reconciler fresh empty).0 ≡ ok false
unfolding reconcile_present ensure_finalizer reconcile_tunnel stored_token token_of create_tunnel
    reuse_tunnel reconcile_secret reconcile_deployment reconcile_service reconcile_service_monitor
    reconcile_pdb update_status check_objects write_report no_replicas desired_service
    desired_deployment lookup desired_secret
deploys = refl

reconcile_present-IsDeployed_example :
    IsDeployed shelf_reconciler shelved empty
      (reconcile_present shelf_reconciler fresh empty).1
      fresh
reconcile_present-IsDeployed_example =
    reconcile_present-IsDeployed shelf_reconciler shelved faithful read_only aside typed fresh false
      empty deploys
