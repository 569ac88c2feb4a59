-- ===== src/Ingress/Reconcile/Ends.antt =====
-- How a reconcile of an Ingress ends, over a manager and an API server whose calls are known to end:
-- what it takes not to panic, and how the steps on the hosts end.
use cloudflare_tunnel_operat.Base.{
  String, ◌≡◌, Bool, false, Option, none, some, List, [], ◌∷◌, ◌||◌, ◌==◌, if◌then◌else◌, ◌≢◌, inl,
  inr, Bool-cases,
}
use cloudflare_tunnel_operat.Base.Exec.{
  Exec, ok, panic, wrapping, pure, raise, ◌>>◌, errors_is, not_found, default_not_exists, wrap,
  handle,
}
use cloudflare_tunnel_operat.Base.Ends.{
  Outcome, Ends, Any, Outcome-panic, ends_pure, ends_raise, ends_lift, ends_wrapping, ends_if,
  ends_handle, ends_bind, ends_then,
}
use cloudflare_tunnel_operat.Base.Dict.{Dict, lookup}
use cloudflare_tunnel_operat.Api.{NamespacedName, CloudflareTunnel, CloudflareTunnelSettings}
use cloudflare_tunnel_operat.Cluster.{Ingress, IngressClient}
use cloudflare_tunnel_operat.Ingress.Hosts.{Host, get_hosts}
use cloudflare_tunnel_operat.Ingress.Annotations.{
  detect_cloudflare_tunnel_name, check_to_be_ignored, namespaced, text_or_empty, split,
  cf_tunnel_annotation,
}
use cloudflare_tunnel_operat.Ingress.Sync.{
  for_hosts, remove_cloudflare_tunnel_config, remove_dns_record,
}
use cloudflare_tunnel_operat.Ingress.Sync.Ends.{
  IsEnding, ends_hosts, ends_append_config, ends_remove_config, ends_append_dns, ends_remove_dns,
}
use cloudflare_tunnel_operat.Ingress.Reconcile.{
  IngressReconciler, get_cloudflare_tunnel, withdraw, publish, finalize_ingress, reconcile_deleted,
  ensure_finalizer, reconcile_hosts, reconcile_present, reconcile, address_of, has_finalizer,
  first_item, parsed, finalize_with,
}

-- The API server's calls end, from the worlds of `I` to worlds of `I`, with an error or not.
pub record IsAnswering {W : Type 0} (C : IngressClient W) (I : W → Type 0) : Type 0 where
  pub get_ingress : (n : NamespacedName) → Ends I (Unit {0}) Any (C.get_ingress n)
  pub update_ingress : (i : Ingress) → Ends I (Unit {0}) Any (C.update_ingress i)
  pub get_tunnel : (n : NamespacedName) → Ends I (Unit {0}) Any (C.get_cloudflare_tunnel n)
  pub list_tunnels : (k v : String) → Ends I (Unit {0}) Any (C.list_cloudflare_tunnels k v)

module _ {W : Type 0} {I : W → Type 0} {F : Type 0} (R : IngressReconciler W)
    (E : IsEnding R.manager I F) where
  ends_publish :
      (t : String) (hs : List Host) (ip : String) (s : CloudflareTunnelSettings)
      → Ends I F Any (publish R t hs ip s)
  unfolding publish
  ends_publish t hs ip s =
      ends_then (ends_wrapping _ (ends_append_config R.manager E t hs ip s))
        (ends_wrapping _ (ends_hosts _ hs (λ h. ends_append_dns R.manager E t h.host)))

  pub ends_steps :
      (m n : String) (t : String) (hs : List Host) (s : CloudflareTunnelSettings)
      → Ends I F Any (
          wrapping m (remove_cloudflare_tunnel_config R.manager t hs s)
          >> wrapping n (for_hosts (λ h. remove_dns_record R.manager t h.host) hs))
  ends_steps m n t hs s =
      ends_then (ends_wrapping m (ends_remove_config R.manager E t hs s))
        (ends_wrapping n (ends_hosts _ hs (λ h. ends_remove_dns R.manager E t h.host)))

  ends_sync :
      (b : Bool) (t : String) (hs : List Host) (ip : String) (s : CloudflareTunnelSettings)
      → Ends I F Any (if b then withdraw R t hs s else publish R t hs ip s)
  unfolding withdraw
  ends_sync b t hs ip s = ends_if b (λ e. ends_steps _ _ t hs s) (λ e. ends_publish t hs ip s)

  -- An Ingress whose tunnel is there and whose load balancer has an address.
  pub ends_reconcile_hosts :
      (i : Ingress) (t : CloudflareTunnel) (ip : String)
      → t.metadata.deleting ≡ false
      → (t.status.tunnel_id == "") ≡ false
      → address_of R i.load_balancer ≡ ok ip
      → Ends I F Any (reconcile_hosts R i t)
  unfolding reconcile_hosts
  ends_reconcile_hosts i t ip alive named address =
      rw (alive, named, address)
        (ends_bind {P = Any} (ends_lift (ok ip) tt) (λ a q.
          ends_sync (check_to_be_ignored i.metadata.annotations) t.status.tunnel_id
            (get_hosts i.spec) a t.spec.settings))

outcome-namespaced : (ps : List String) → Outcome (Unit {0}) Any (namespaced ps)
outcome-namespaced [] = tt
outcome-namespaced (p ∷ []) = tt
outcome-namespaced (p ∷ q ∷ []) = tt
outcome-namespaced (p ∷ q ∷ r ∷ ps) = tt

outcome-detect : (a : Dict String) → Outcome (Unit {0}) Any (detect_cloudflare_tunnel_name a)
unfolding detect_cloudflare_tunnel_name
outcome-detect a =
    let v = text_or_empty (lookup cf_tunnel_annotation a) in
    elim (Bool-cases (v == "")) [ inl e ↦ rw e tt | inr e ↦ rw e (outcome-namespaced (split v)) ]

outcome-parsed : (o : Option String) → Outcome (Unit {0}) Any (parsed o)
outcome-parsed none = tt
outcome-parsed (some ip) = tt

outcome-address :
    {W : Type 0} (R : IngressReconciler W) (ips : List String)
    → Outcome (Unit {0}) Any (address_of R ips)
outcome-address R [] = tt
outcome-address R (ip ∷ ips) = outcome-parsed (R.parse_addr ip)

module _ {W : Type 0} {I : W → Type 0} (R : IngressReconciler W)
    (E : IsEnding R.manager I (Unit {0})) (A : IsAnswering R.client I) where
  ends_first : (ts : List CloudflareTunnel) → Ends I (Unit {0}) Any (first_item {W = W} ts)
  ends_first [] = ends_raise _ tt
  ends_first (t ∷ ts) = ends_pure t tt

  ends_get_tunnel : (n : NamespacedName) → Ends I (Unit {0}) Any (get_cloudflare_tunnel R n)
  unfolding get_cloudflare_tunnel
  ends_get_tunnel n =
      ends_if (n.name == "" || n.namespace == "")
        (λ e. ends_bind (ends_wrapping _ (A.list_tunnels _ _)) (λ p q. ends_first p.items))
        (λ e.
          ends_handle (A.get_tunnel n) (λ t q. ends_pure t tt)
            (λ e f. ends_if (errors_is e not_found) (λ q. ends_raise _ tt) (λ q. ends_raise _ tt)))

  -- What follows getCloudflareTunnel in both of its callers.
  ends_with_tunnel :
      (n : NamespacedName) (f : CloudflareTunnel → Exec W (Unit {0}))
      → ((t : CloudflareTunnel) → Ends I (Unit {0}) Any (f t))
      → Ends I (Unit {0}) Any (
          handle (get_cloudflare_tunnel R n) f (λ e.
            if errors_is e default_not_exists
            then pure tt
            else raise (wrap "failed to get Cloudflare Tunnel" e)))
  ends_with_tunnel n f k =
      ends_handle (ends_get_tunnel n) (λ t q. k t)
        (λ e q.
          ends_if (errors_is e default_not_exists) (λ q. ends_pure tt tt) (λ q. ends_raise _ tt))

  ends_any_hosts :
      (i : Ingress) (t : CloudflareTunnel) → Ends I (Unit {0}) Any (reconcile_hosts R i t)
  unfolding reconcile_hosts
  ends_any_hosts i t =
      ends_if t.metadata.deleting (λ q. ends_raise _ tt)
        (λ q.
          ends_if (t.status.tunnel_id == "") (λ q. ends_raise _ tt)
            (λ q. ends_bind {P = Any} (ends_lift _ (outcome-address R i.load_balancer)) (λ ip q.
              ends_sync R E (check_to_be_ignored i.metadata.annotations) t.status.tunnel_id
                (get_hosts i.spec) ip t.spec.settings)))

  ends_present : (i : Ingress) → Ends I (Unit {0}) Any (reconcile_present R i)
  unfolding reconcile_present ensure_finalizer
  ends_present i =
      ends_bind {P = Any}
        (ends_if (has_finalizer R.finalizers i.metadata) (λ q. ends_pure i tt)
          (λ q. ends_wrapping _ (A.update_ingress _)))
        (λ j q.
          ends_bind (ends_wrapping _ (ends_lift _ (outcome-detect j.metadata.annotations)))
            (λ n q. ends_with_tunnel n (reconcile_hosts R j) (ends_any_hosts j)))

  ends_finalize_with :
      (hs : List Host) (t : CloudflareTunnel) → Ends I (Unit {0}) Any (finalize_with R hs t)
  unfolding finalize_with
  ends_finalize_with hs t =
      ends_if t.metadata.deleting (λ q. ends_pure tt tt)
        (λ q.
          ends_if (t.status.tunnel_id == "") (λ q. ends_raise _ tt)
            (λ q. ends_steps R E _ _ t.status.tunnel_id hs t.spec.settings))

  ends_finalize : (i : Ingress) → Ends I (Unit {0}) Any (finalize_ingress R i)
  unfolding finalize_ingress
  ends_finalize i =
      ends_bind {P = Any} (ends_wrapping _ (ends_lift _ (outcome-detect i.metadata.annotations)))
        (λ n q.
          ends_with_tunnel n (finalize_with R (get_hosts i.spec))
            (ends_finalize_with (get_hosts i.spec)))

  ends_deleted : (i : Ingress) → Ends I (Unit {0}) Any (reconcile_deleted R i)
  unfolding reconcile_deleted
  ends_deleted i =
      ends_if (has_finalizer R.finalizers i.metadata)
        (λ q.
          ends_then (ends_wrapping _ (ends_finalize i))
            (ends_then (A.update_ingress _) (ends_pure tt tt)))
        (λ q. ends_pure tt tt)

  -- If the calls of the manager and of the API server never panic, and every DNS record with an id
  -- that is answered says whether it is proxied, all this from the worlds of `I` and back to them,
  -- then no reconcile of an Ingress panics in such a world, whatever the Ingress, the tunnels and
  -- the answers are.
  pub reconcile-never_panics :
      (request : NamespacedName) (w : W) (m : String) → I w → (reconcile R request w).0 ≢ panic m
  unfolding reconcile
  reconcile-never_panics request w m i = Outcome-panic Any (Unit {0}) (reconcile R request w).0 m (
      (ends_handle (A.get_ingress request)
          (λ i q. ends_if i.metadata.deleting (λ q. ends_deleted i) (λ q. ends_present i))
          (λ e q.
            ends_if (errors_is e not_found) (λ q. ends_pure tt tt) (λ q. ends_raise _ tt))).outcome
        w i)
