-- ===== src/Ingress/Reconcile/Finalizer.antt =====
-- When the finalizer of a deleted Ingress comes off.
use cloudflare_tunnel_operat.Ingress.Sync.Correct.{AllServed}
use cloudflare_tunnel_operat.Base.{
  Bool, String, Bool-cases, false, ◌≡◌, sym, ◌∙◌, ap, true, false, arith, subst, ◌⊎◌, inl, inr, ◌≢◌,
}
use cloudflare_tunnel_operat.Base.Exec.{
  Exec, Error, Result, Result-cases, ok, err, default_not_exists, errors_is, wrapping, pure, ◌>>◌,
}
use cloudflare_tunnel_operat.Api.{NamespacedName, CloudflareTunnel}
use cloudflare_tunnel_operat.Cluster.{Ingress}
use cloudflare_tunnel_operat.Manager.Views.{View, IsLawful}
use cloudflare_tunnel_operat.Ingress.Hosts.{get_hosts}
use cloudflare_tunnel_operat.Ingress.Annotations.{detect_cloudflare_tunnel_name}
use cloudflare_tunnel_operat.Ingress.Sync.{
  for_hosts, remove_cloudflare_tunnel_config, remove_dns_record,
}
use cloudflare_tunnel_operat.Ingress.Reconcile.{
  IngressReconciler, get_cloudflare_tunnel, finalize_ingress, reconcile_deleted, reconcile,
  finalize_with, has_finalizer, without_finalizer,
}
use cloudflare_tunnel_operat.Ingress.Reconcile.Correct.{
  IsApart, IsWithdrawn, IsWithdrawn-ok, from_before, tunnel_config,
}

module _ {W : Type 0} (R : IngressReconciler W) where
  -- The finalizer stays: the call failed, and the object was not written after `finalizeIngress`.
  abbrev pub IsKept : Ingress → W → Type 0
  IsKept i w =
      ((reconcile_deleted R i w).0 ≢ ok tt)
      × ((reconcile_deleted R i w).1 ≡ (finalize_ingress R i w).1)

  -- The object is written without its finalizer, in the world that `finalizeIngress` left.
  abbrev pub IsReleased : Ingress → W → Type 0
  IsReleased i w =
      reconcile_deleted R i w
      ≡ (R.client.update_ingress (without_finalizer R.finalizers i) >> pure tt)
          (finalize_ingress R i w).1

  IsKept-or_IsReleased :
      (i : Ingress) (w : W)
      → has_finalizer R.finalizers i.metadata ≡ true
      → IsKept i w ⊎ (((finalize_ingress R i w).0 ≡ ok tt) × IsReleased i w)
  unfolding reconcile_deleted
  IsKept-or_IsReleased i w f = elim (Result-cases (finalize_ingress R i w).0) [
    | inl (a, e) ↦ inr (ground (arith, e), ground (arith, e, f))
    | inr (inl (a, e)) ↦ inl (ground (arith, e, f), ground (arith, e, f))
    | inr (inr (a, e)) ↦ inl (ground (arith, e, f), ground (arith, e, f))
  ]

  -- A reconcile of a deleted Ingress whose clean-up succeeds writes it without the finalizer.
  pub reconcile-releases :
      (request : NamespacedName) (i : Ingress) (w v : W)
      → R.client.get_ingress request w ≡ (ok i, v)
      → i.metadata.deleting ≡ true
      → has_finalizer R.finalizers i.metadata ≡ true
      → (finalize_ingress R i v).0 ≡ ok tt
      → reconcile R request w
        ≡ (R.client.update_ingress (without_finalizer R.finalizers i) >> pure tt)
            (finalize_ingress R i v).1
  unfolding reconcile reconcile_deleted
  reconcile-releases request i w v found deleted f e = ground (arith, found, deleted, f, e)

  module _ (V : View W) where
    -- The search for the tunnel ended in ErrDefaultCloudflareTunnelNotExists, and nothing was removed.
    pub record HasNoTunnel (i : Ingress) (n : NamespacedName) (w : W) : Type 0 where
      pub reason : Error
      pub missing : (get_cloudflare_tunnel R n w).0 ≡ err reason
      pub no_default : errors_is reason default_not_exists ≡ true
      pub untouched : (finalize_ingress R i w).1 ≡ (get_cloudflare_tunnel R n w).1

    -- The tunnel is there. It is being deleted and nothing was removed, or the Ingress is withdrawn.
    pub record HasLeft (i : Ingress) (n : NamespacedName) (w : W) : Type 0 where
      pub tunnel : CloudflareTunnel
      pub found : (get_cloudflare_tunnel R n w).0 ≡ ok tunnel
      pub left :
          ((tunnel.metadata.deleting ≡ true)
            × ((finalize_ingress R i w).1 ≡ (get_cloudflare_tunnel R n w).1))
          ⊎ ((tunnel.metadata.deleting ≡ false)
              × IsWithdrawn V tunnel (get_hosts i.spec) w (finalize_ingress R i w).1)

    -- Why the finalizer may come off.
    abbrev pub MayRelease : Ingress → W → Type 0
    MayRelease i w =
        (n : NamespacedName) × (detect_cloudflare_tunnel_name i.metadata.annotations ≡ ok n)
        × (HasNoTunnel i n w ⊎ HasLeft i n w)

  module _ (V : View W) {served : String → Bool} (L : IsLawful R.manager V served) where
    finalize_steps : Ingress → CloudflareTunnel → Exec W (Unit {0})
    finalize_steps i t =
        wrapping "failed to remove Cloudflare Tunnel config" (
          remove_cloudflare_tunnel_config R.manager t.status.tunnel_id (get_hosts i.spec)
            t.spec.settings)
        >> wrapping "failed to delete Cloudflare Tunnel" (
            for_hosts (λ h. remove_dns_record R.manager t.status.tunnel_id h.host)
              (get_hosts i.spec))

    finalize-steps :
        (i : Ingress) (n : NamespacedName) (t : CloudflareTunnel) (w w' : W)
        → detect_cloudflare_tunnel_name i.metadata.annotations ≡ ok n
        → get_cloudflare_tunnel R n w ≡ (ok t, w')
        → t.metadata.deleting ≡ false
        → (finalize_ingress R i w).0 ≡ ok tt
        → finalize_ingress R i w ≡ finalize_steps i t w'
    unfolding finalize_ingress finalize_steps
    finalize-steps i n t w w' d g a e = ground (arith, d, g, a)

    finalize_ok :
        (i : Ingress) (n : NamespacedName) (t : CloudflareTunnel) (w w' : W)
        → detect_cloudflare_tunnel_name i.metadata.annotations ≡ ok n
        → get_cloudflare_tunnel R n w ≡ (ok t, w')
        → t.metadata.deleting ≡ false
        → AllServed served (get_hosts i.spec)
        → (finalize_ingress R i w).0 ≡ ok tt
        → IsWithdrawn V t (get_hosts i.spec) w' (finalize_ingress R i w).1
    unfolding finalize_steps
    finalize_ok i n t w w' d g a s e =
        let same = finalize-steps i n t w w' d g a e in
        subst (λ (r : Result (Unit {0}) × W). IsWithdrawn V t (get_hosts i.spec) w' r.1) (sym same)
          (IsWithdrawn-ok R V L "failed to remove Cloudflare Tunnel config"
            "failed to delete Cloudflare Tunnel" t (get_hosts i.spec) w' s
            (ap (λ (r : Result (Unit {0}) × W). r.0) (sym same) ∙ e))

    pub IsWithdrawn-finalize_ok :
        IsApart R.client V
        → (i : Ingress) (n : NamespacedName) (t : CloudflareTunnel) (w w' : W)
        → detect_cloudflare_tunnel_name i.metadata.annotations ≡ ok n
        → get_cloudflare_tunnel R n w ≡ (ok t, w')
        → t.metadata.deleting ≡ false
        → AllServed served (get_hosts i.spec)
        → (finalize_ingress R i w).0 ≡ ok tt
        → IsWithdrawn V t (get_hosts i.spec) w (finalize_ingress R i w).1
    IsWithdrawn-finalize_ok A i n t w w' d g a s e =
        from_before R V L true t (get_hosts i.spec) "" w w' (finalize_ingress R i w).1
          (ap (λ (r : Result CloudflareTunnel × W). V.config_of r.1 t.status.tunnel_id) (sym g)
            ∙ tunnel_config R V L A n w t.status.tunnel_id)
          (finalize_ok i n t w w' d g a s e)

    found_left :
        IsApart R.client V
        → (i : Ingress) (n : NamespacedName) (t : CloudflareTunnel) (w : W)
        → AllServed served (get_hosts i.spec)
        → detect_cloudflare_tunnel_name i.metadata.annotations ≡ ok n
        → (get_cloudflare_tunnel R n w).0 ≡ ok t
        → (finalize_ingress R i w).0 ≡ ok tt
        → HasLeft V i n w
    unfolding finalize_ingress finalize_with
    found_left A i n t w s d g e = record {
      tunnel = t;
      found = g;
      left = elim (Bool-cases t.metadata.deleting) [
        | inl y ↦ inl (y, ground (arith, d, g, y))
        | inr a ↦ inr (
          a,
          IsWithdrawn-finalize_ok A i n t w (get_cloudflare_tunnel R n w).1 d
              (ap (λ (r : Result CloudflareTunnel). (r, (get_cloudflare_tunnel R n w).1)) g) a s e,
        )
      ];
    }

    missing_left :
        (i : Ingress) (n : NamespacedName) (r : Error) (w : W)
        → detect_cloudflare_tunnel_name i.metadata.annotations ≡ ok n
        → (get_cloudflare_tunnel R n w).0 ≡ err r
        → (finalize_ingress R i w).0 ≡ ok tt
        → HasNoTunnel V i n w
    unfolding finalize_ingress
    missing_left i n r w d g e = record {
      reason = r;
      missing = g;
      no_default = ground (arith, d, g, e);
      untouched = ground (arith, d, g, e);
    }

    may_release :
        IsApart R.client V
        → (i : Ingress) (w : W) → AllServed served (get_hosts i.spec)
        → (finalize_ingress R i w).0 ≡ ok tt
        → MayRelease V i w
    unfolding finalize_ingress
    may_release A i w s e =
        elim (Result-cases (detect_cloudflare_tunnel_name i.metadata.annotations)) [
          | inl (n, d) ↦ (
            n,
            d,
            elim (Result-cases (get_cloudflare_tunnel R n w).0) [
              | inl (t, g) ↦ inr (found_left A i n t w s d g e)
              | inr (inl (r, g)) ↦ inl (missing_left i n r w d g e)
              | inr (inr (m, g)) ↦ absurd (ground (arith, d, g, e))
            ],
          )
          | inr (inl (r, d)) ↦ absurd (ground (arith, d, e))
          | inr (inr (m, d)) ↦ absurd (ground (arith, d, e))
        ]

    -- A deleted Ingress that has the finalizer, and whose hosts the manager serves: either the
    -- reconcile fails and the object is not written after finalizeIngress, so the finalizer stays; or
    -- the object is written without the finalizer, and then one of three things is so: the search for
    -- its tunnel ended in ErrDefaultCloudflareTunnelNotExists, and nothing was removed; its tunnel is
    -- being deleted itself, and nothing was removed; or the tunnel's rules are the old ones without
    -- the hosts and no host has a record.
    pub finalizer_safe :
        IsApart R.client V
        → (i : Ingress) (w : W) → AllServed served (get_hosts i.spec)
        → has_finalizer R.finalizers i.metadata ≡ true
        → IsKept i w ⊎ (MayRelease V i w × IsReleased i w)
    finalizer_safe A i w s f = elim (IsKept-or_IsReleased i w f) [
      | inl k ↦ inl k
      | inr (e, r) ↦ inr (may_release A i w s e, r)
    ]
