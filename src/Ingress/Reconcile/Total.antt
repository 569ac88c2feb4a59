-- ===== src/Ingress/Reconcile/Total.antt =====
-- When a reconcile of an Ingress succeeds, over a manager whose calls succeed.
use cloudflare_tunnel_operat.Ingress.Sync.Correct.{AllServed}
use cloudflare_tunnel_operat.Base.{Bool, String, ◌≡◌, refl, ap, ◌∙◌, true, false, ◌==◌, arith}
use cloudflare_tunnel_operat.Base.Exec.{Result, ok, err, panic, pure, ◌>>◌}
use cloudflare_tunnel_operat.Base.Ends.{Outcome, Any}
use cloudflare_tunnel_operat.Api.{NamespacedName, CloudflareTunnel}
use cloudflare_tunnel_operat.Cluster.{Ingress}
use cloudflare_tunnel_operat.Manager.Views.{View, IsLawful}
use cloudflare_tunnel_operat.Ingress.Hosts.{get_hosts}
use cloudflare_tunnel_operat.Ingress.Annotations.{detect_cloudflare_tunnel_name}
use cloudflare_tunnel_operat.Ingress.Sync.Ends.{IsEnding}
use cloudflare_tunnel_operat.Ingress.Reconcile.{
  IngressReconciler, get_cloudflare_tunnel, finalize_ingress, reconcile_hosts, reconcile,
  address_of, has_finalizer, without_finalizer, finalize_with,
}
use cloudflare_tunnel_operat.Ingress.Reconcile.Correct.{
  IsApart, Reaches, IsSynced, reconcile-Reaches, reconcile-IsSynced, IsWithdrawn,
}
use cloudflare_tunnel_operat.Ingress.Reconcile.Finalizer.{
  IsWithdrawn-finalize_ok, reconcile-releases,
}
use cloudflare_tunnel_operat.Ingress.Reconcile.Ends.{ends_steps, ends_reconcile_hosts}

-- A unit answer is the only one.
ended_ok : (r : Result (Unit {0})) → Outcome ⊥ Any r → r ≡ ok tt
ended_ok (ok a) o = refl
ended_ok (err e) o = absurd o
ended_ok (panic m) o = absurd o

module _ {W : Type 0} {I : W → Type 0} (R : IngressReconciler W) (E : IsEnding R.manager I ⊥)
    (V : View W) {served : String → Bool} (L : IsLawful R.manager V served) where
  -- If the manager's calls succeed in the worlds of `I` and end there, and every DNS record with an
  -- id that is answered says whether it is proxied, then the reconcile of an Ingress that is there
  -- and not deleted, whose finalizer could be seen to, whose hosts the manager serves, whose tunnel
  -- was found, in a world of `I`, has an id and is not being deleted, and whose load balancer has an
  -- address, succeeds and leaves the Cloudflare side in line with the hosts.
  pub reconcile-succeeds :
      IsApart R.client V
      → (request : NamespacedName) (i : Ingress) (t : CloudflareTunnel) (ip : String) (w w' : W)
      → Reaches R request i t w w'
      → AllServed served (get_hosts i.spec)
      → I w'
      → t.metadata.deleting ≡ false
      → (t.status.tunnel_id == "") ≡ false
      → address_of R i.load_balancer ≡ ok ip
      → ((reconcile R request w).0 ≡ ok tt) × IsSynced R V i t w (reconcile R request w).1
  reconcile-succeeds A request i t ip w w' h s up alive named address =
      let hosts = ends_reconcile_hosts R E i t ip alive named address in
      let done =
        ap (λ (r : Result (Unit {0}) × W). r.0) (reconcile-Reaches R V L request i t w w' h)
        ∙ ended_ok (reconcile_hosts R i t w').0 (hosts.outcome w' up) in
      let (_, _, synced) = reconcile-IsSynced R V L A request i t w w' h s done in (done, synced)

  finalize_succeeds :
      (i : Ingress) (n : NamespacedName) (t : CloudflareTunnel) (w w' : W)
      → I w'
      → detect_cloudflare_tunnel_name i.metadata.annotations ≡ ok n
      → get_cloudflare_tunnel R n w ≡ (ok t, w')
      → t.metadata.deleting ≡ false
      → (t.status.tunnel_id == "") ≡ false
      → (finalize_ingress R i w).0 ≡ ok tt
  unfolding finalize_ingress finalize_with
  finalize_succeeds i n t w w' up d g alive named =
      let steps = ended_ok _ (
        (ends_steps R E "failed to remove Cloudflare Tunnel config"
            "failed to delete Cloudflare Tunnel" t.status.tunnel_id (get_hosts i.spec)
            t.spec.settings).outcome
          w' up) in
      ground (arith, d, g, alive, named, steps)

  -- Under the same conditions on the manager, the reconcile of a deleted Ingress with the finalizer,
  -- whose hosts the manager serves and whose tunnel is found, in a world of `I`, has an id and is not
  -- being deleted, takes the hosts out of the tunnel's rules and deletes their records, and then writes
  -- the object without the finalizer.
  pub reconcile-lets_go :
      IsApart R.client V
      → (request : NamespacedName) (i : Ingress) (n : NamespacedName) (t : CloudflareTunnel)
        (w v v' : W)
      → R.client.get_ingress request w ≡ (ok i, v)
      → i.metadata.deleting ≡ true
      → AllServed served (get_hosts i.spec)
      → has_finalizer R.finalizers i.metadata ≡ true
      → detect_cloudflare_tunnel_name i.metadata.annotations ≡ ok n
      → get_cloudflare_tunnel R n v ≡ (ok t, v')
      → I v'
      → t.metadata.deleting ≡ false
      → (t.status.tunnel_id == "") ≡ false
      → IsWithdrawn V t (get_hosts i.spec) v (finalize_ingress R i v).1
        × (reconcile R request w
            ≡ (R.client.update_ingress (without_finalizer R.finalizers i) >> pure tt)
                (finalize_ingress R i v).1)
  reconcile-lets_go A request i n t w v v' found deleted s f d g up alive named =
      let done = finalize_succeeds i n t v v' up d g alive named in
      (
        IsWithdrawn-finalize_ok R V L A i n t v v' d g alive s done,
        reconcile-releases R request i w v found deleted f done,
      )
