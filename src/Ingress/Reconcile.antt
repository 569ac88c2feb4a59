-- ===== src/Ingress/Reconcile.antt =====
-- `Reconcile` of the IngressReconciler with `getCloudflareTunnel` and `finalizeIngress`
-- (internal/controller/ingress_watcher.go). Log lines are left out.
pub mod Again
pub mod Correct
pub mod Ends
pub mod Total
pub mod Finalizer
use cloudflare_tunnel_operat.Base.{
  String, Bool, true, false, ◌||◌, Option, none, some, List, [], ◌∷◌, ◌==◌, if◌then◌else◌,
}
use cloudflare_tunnel_operat.Base.Exec.{
  Exec, Error, Result, pure, raise, lift, wrapping, handle, ◌>>=◌, ◌>>◌, sentinel, other, wrap, ok,
  err, not_found, cloudflare_tunnel_not_found, default_not_exists, errors_is,
}
use cloudflare_tunnel_operat.Base.Dict.{Dict}
use cloudflare_tunnel_operat.Api.{
  NamespacedName, ObjectMeta, CloudflareTunnel, CloudflareTunnelSettings,
}
use cloudflare_tunnel_operat.Cluster.{Ingress, CloudflareTunnelList, IngressClient, Finalizers}
use cloudflare_tunnel_operat.Manager.{CloudflareTunnelManager}
use cloudflare_tunnel_operat.Ingress.Hosts.{Host, get_hosts}
use cloudflare_tunnel_operat.Ingress.Annotations.{
  detect_cloudflare_tunnel_name, check_to_be_ignored,
}
use cloudflare_tunnel_operat.Ingress.Sync.{
  for_hosts, append_cloudflare_tunnel_config, remove_cloudflare_tunnel_config, append_dns_record,
  remove_dns_record,
}

abbrev pub finalizer_name : String
finalizer_name = "cf-tunnel-operator.walnuts.dev/finalizer"

abbrev pub default_label_key : String
default_label_key = "cf-tunnel-operator.walnuts.dev/default"

-- The reconciler's fields, and netip.ParseAddr followed by Addr.String, which is `none` on an
-- address that does not parse. The answer of a reconcile is always the empty ctrl.Result.
pub record IngressReconciler (W : Type 0) : Type 0 where
  pub client : IngressClient W
  pub manager : CloudflareTunnelManager W
  pub finalizers : Finalizers
  pub parse_addr : String → Option String

abbrev pub has_finalizer : Finalizers → ObjectMeta → Bool
has_finalizer F m = F.contains_finalizer m.finalizers finalizer_name

abbrev pub without_finalizer : Finalizers → Ingress → Ingress
without_finalizer F i = record i {
  metadata = record i.metadata {
    finalizers = F.remove_finalizer i.metadata.finalizers finalizer_name;
  };
}

abbrev pub with_finalizer : Finalizers → Ingress → Ingress
with_finalizer F i = record i {
  metadata = record i.metadata {
    finalizers = F.add_finalizer i.metadata.finalizers finalizer_name;
  };
}

abbrev pub first_item : {W : Type 0} → List CloudflareTunnel → Exec W CloudflareTunnel
first_item [] = raise (sentinel default_not_exists)
first_item (t ∷ ts) = pure t

abbrev pub parsed : Option String → Result String
parsed none = err (wrap "failed to parse IP" (other "unable to parse IP"))
parsed (some ip) = ok ip

-- The first address of the load balancer.
abbrev pub address_of : {W : Type 0} → IngressReconciler W → List String → Result String
address_of R [] = err (other "ingress status load balancer ingress is empty")
address_of R (ip ∷ ips) = parsed (R.parse_addr ip)

module _ {W : Type 0} (R : IngressReconciler W) where
  unfoldable pub get_cloudflare_tunnel : NamespacedName → Exec W CloudflareTunnel
  get_cloudflare_tunnel n =
      if n.name == "" || n.namespace == ""
      then (do
        page ←
            wrapping "failed to list default Cloudflare Tunnel"
              (R.client.list_cloudflare_tunnels default_label_key "true")
        first_item page.items)
      else handle (R.client.get_cloudflare_tunnel n) pure (λ e.
        if errors_is e not_found
        then raise (sentinel cloudflare_tunnel_not_found)
        else raise (wrap "failed to get Cloudflare Tunnel" e))

  -- The tunnel's rules and records without the hosts, and with them.
  unfoldable pub withdraw : String → List Host → CloudflareTunnelSettings → Exec W (Unit {0})
  withdraw tunnel_id hosts settings = do
    wrapping "failed to update Cloudflare Tunnel config"
        (remove_cloudflare_tunnel_config R.manager tunnel_id hosts settings)
    wrapping "failed to update Cloudflare DNS Record"
        (for_hosts (λ h. remove_dns_record R.manager tunnel_id h.host) hosts)

  unfoldable pub publish :
      String → List Host → String → CloudflareTunnelSettings → Exec W (Unit {0})
  publish tunnel_id hosts ip settings = do
    wrapping "failed to update Cloudflare Tunnel config"
        (append_cloudflare_tunnel_config R.manager tunnel_id hosts ip settings)
    wrapping "failed to update Cloudflare DNS Record"
        (for_hosts (λ h. append_dns_record R.manager tunnel_id h.host) hosts)

  unfoldable pub finalize_with : List Host → CloudflareTunnel → Exec W (Unit {0})
  finalize_with hosts t =
      if t.metadata.deleting
      then pure tt
      else if t.status.tunnel_id == ""
      then raise (other "tunnel ID is empty")
      else (do
        wrapping "failed to remove Cloudflare Tunnel config"
            (remove_cloudflare_tunnel_config R.manager t.status.tunnel_id hosts t.spec.settings)
        wrapping "failed to delete Cloudflare Tunnel"
            (for_hosts (λ h. remove_dns_record R.manager t.status.tunnel_id h.host) hosts))

  unfoldable pub finalize_ingress : Ingress → Exec W (Unit {0})
  unfolding finalize_with
  finalize_ingress ingress = do
    name ←
        wrapping "failed to detect Cloudflare Tunnel name"
          (lift (detect_cloudflare_tunnel_name ingress.metadata.annotations))
    handle (get_cloudflare_tunnel name) (finalize_with (get_hosts ingress.spec)) (λ e.
        if errors_is e default_not_exists
        then pure tt
        else raise (wrap "failed to get Cloudflare Tunnel" e))

  unfoldable pub reconcile_deleted : Ingress → Exec W (Unit {0})
  reconcile_deleted ingress =
      if has_finalizer R.finalizers ingress.metadata
      then (do
        wrapping "failed to finalize Ingress" (finalize_ingress ingress)
        R.client.update_ingress (without_finalizer R.finalizers ingress)
        pure tt)
      else pure tt

  unfoldable pub ensure_finalizer : Ingress → Exec W Ingress
  ensure_finalizer ingress =
      if has_finalizer R.finalizers ingress.metadata
      then pure ingress
      else wrapping "failed to add finalizer to Ingress"
          (R.client.update_ingress (with_finalizer R.finalizers ingress))

  -- From `tunnelID := cfTunnel.Status.TunnelID` on, and the test before it.
  unfoldable pub reconcile_hosts : Ingress → CloudflareTunnel → Exec W (Unit {0})
  reconcile_hosts ingress t =
      if t.metadata.deleting
      then raise (wrap "cloudflare tunnel is being deleted" (sentinel cloudflare_tunnel_not_found))
      else if t.status.tunnel_id == ""
      then raise (other "tunnel ID is empty")
      else (do
        ip ← lift (address_of R ingress.load_balancer)
        if check_to_be_ignored ingress.metadata.annotations
            then withdraw t.status.tunnel_id (get_hosts ingress.spec) t.spec.settings
            else publish t.status.tunnel_id (get_hosts ingress.spec) ip t.spec.settings)

  unfoldable pub reconcile_present : Ingress → Exec W (Unit {0})
  reconcile_present found = do
    ingress ← ensure_finalizer found
    name ←
        wrapping "failed to detect Cloudflare Tunnel name"
          (lift (detect_cloudflare_tunnel_name ingress.metadata.annotations))
    handle (get_cloudflare_tunnel name) (reconcile_hosts ingress) (λ e.
        if errors_is e default_not_exists
        then pure tt
        else raise (wrap "failed to get Cloudflare Tunnel" e))

  unfoldable pub reconcile : NamespacedName → Exec W (Unit {0})
  reconcile request =
      handle (R.client.get_ingress request)
        (λ ingress.
          if ingress.metadata.deleting
          then reconcile_deleted ingress
          else reconcile_present ingress)
        (λ e. if errors_is e not_found then pure tt else raise (wrap "failed to get Ingress" e))
