-- ===== src/Tunnel/Reconcile/Deployed.antt =====
-- What a reconcile of a CloudflareTunnel leaves in the cluster.
use cloudflare_tunnel_operat.Base.{◌≡◌, refl, sym, ap, ◌∙◌, subst, Bool, arith, inl, inr}
use cloudflare_tunnel_operat.Base.Exec.{
  Exec, Result, Result-cases, ok, wrapping, bind_ok, ◌>>=◌, ◌>>◌,
}
use cloudflare_tunnel_operat.Api.{CloudflareTunnel, NamespacedName}
use cloudflare_tunnel_operat.Domain.{Tunnel, CloudflareTunnelToken}
use cloudflare_tunnel_operat.Tunnel.Objects.{
  OwnerReference, ApplyConfiguration, secret, service, deployment,
}
use cloudflare_tunnel_operat.Tunnel.Desired.{
  key_of, controller_reference, desired_secret, desired_service, desired_deployment,
}
use cloudflare_tunnel_operat.Tunnel.Client.{CloudflareTunnelReconciler}
use cloudflare_tunnel_operat.Tunnel.Provision.{reconcile_tunnel}
use cloudflare_tunnel_operat.Tunnel.Apply.{
  reconcile_secret, reconcile_deployment, reconcile_service, reconcile_service_monitor,
  reconcile_pdb,
}
use cloudflare_tunnel_operat.Tunnel.Apply.Secrets.{IsTyped}
use cloudflare_tunnel_operat.Tunnel.Apply.Live.{
  Live, IsLive, kind_of, name_of, ObjectKind, a_secret, a_service, a_deployment, IsFaithful,
}
use cloudflare_tunnel_operat.Tunnel.Apply.Lands.{
  IsReadOnly, secret-Lands, deployment-Lands, service-Lands,
}
use cloudflare_tunnel_operat.Tunnel.Status.{update_status}
use cloudflare_tunnel_operat.Tunnel.Reconcile.{
  reconcile_present, reporting, ensure_finalizer, with_tunnel,
}
use cloudflare_tunnel_operat.Tunnel.Reconcile.Aside.{IsAside, reporting_ok, keeps_tail}

module _ {W : Type 0} (R : CloudflareTunnelReconciler W) (V : Live W) where
  -- The resource after its finalizer was seen to, its tunnel, and the resource that was answered
  -- when the tunnel's id was written to the status; and the three objects as they are at the end.
  pub record IsDeployed (before after : W) (given : CloudflareTunnel) : Type 0 where
    pub resource : CloudflareTunnel
    pub w₁ : W
    pub ensured : ensure_finalizer R given before ≡ (ok resource, w₁)
    pub tunnel : Tunnel
    pub token : CloudflareTunnelToken
    pub w₂ : W
    pub provisioned : reconcile_tunnel R resource w₁ ≡ (ok (tunnel, token), w₂)
    pub current : CloudflareTunnel
    pub w₃ : W
    pub recorded : (R.client.update_tunnel_status (with_tunnel R resource tunnel) w₃).0 ≡ ok current
    pub owner : OwnerReference
    pub owned : controller_reference R.library.gvk_for_object resource ≡ ok owner
    pub owner' : OwnerReference
    pub owned' : controller_reference R.library.gvk_for_object current ≡ ok owner'
    pub secret_live : IsLive R V (secret (desired_secret resource owner token)) after
    pub deployment_live :
        IsLive R V (deployment (desired_deployment current owner' (key_of resource))) after
    pub service_live : IsLive R V (service (desired_service current owner')) after

ok_eq : {A : Type 0} {a b : A} → ok a ≡ ok b → a ≡ b
ok_eq h = cc

-- The steps from the deployment on.
module _ {W : Type 0} (R : CloudflareTunnelReconciler W) where
  last_steps : CloudflareTunnel → Exec W Bool
  last_steps u = do
    reporting R u (reconcile_service_monitor R u)
    reporting R u (reconcile_pdb R u)
    update_status R u

  deploy_steps : CloudflareTunnel → NamespacedName → Exec W Bool
  unfolding last_steps
  deploy_steps u m = do
    reporting R u (reconcile_deployment R u m)
    reporting R u (reconcile_service R u)
    last_steps u

module _ {W : Type 0} (R : CloudflareTunnelReconciler W) (V : Live W) (F : IsFaithful R V)
    (Q : IsReadOnly R V) (S : IsAside R V) where
  same-IsLive :
      (a : ApplyConfiguration) {w w' : W}
      → V w' (kind_of a) (name_of a) ≡ V w (kind_of a) (name_of a)
      → IsLive R V a w
      → IsLive R V a w'
  same-IsLive a e (body, converted, there) = (body, converted, e ∙ there)

  last_steps-keep :
      (u : CloudflareTunnel) (requeue : Bool) (w : W) (k : ObjectKind) (n : NamespacedName)
      → (last_steps R u w).0 ≡ ok requeue
      → V (last_steps R u w).1 k n ≡ V w k n
  unfolding last_steps
  last_steps-keep u requeue w k n h =
      let (_, w₁, p, e₁, h₁) =
        bind_ok (reporting R u (reconcile_service_monitor R u)) _ w requeue h in
      let (_, w₂, q, e₂, h₂) = bind_ok (reporting R u (reconcile_pdb R u)) _ w₁ requeue h₁ in
      ap (λ (x : Result Bool × W). V x.1 k n) (e₁ ∙ e₂)
      ∙ keeps_tail R V Q S k n u w w₁ w₂
          (reporting_ok R u (reconcile_service_monitor R u) tt w w₁ p)
          (reporting_ok R u (reconcile_pdb R u) tt w₁ w₂ q)

  -- The deployment and the service are the desired ones, and the secret is as it was.
  deploy_steps_ok :
      (u : CloudflareTunnel) (m : NamespacedName) (requeue : Bool) (w : W)
      → (deploy_steps R u m w).0 ≡ ok requeue
      → (owner : OwnerReference) × (controller_reference R.library.gvk_for_object u ≡ ok owner)
        × IsLive R V (deployment (desired_deployment u owner m)) (deploy_steps R u m w).1
        × IsLive R V (service (desired_service u owner)) (deploy_steps R u m w).1
        × ((n : NamespacedName) → V (deploy_steps R u m w).1 a_secret n ≡ V w a_secret n)
  unfolding deploy_steps desired_deployment desired_service
  deploy_steps_ok u m requeue w h =
      let (_, w₁, p, e₁, h₁) = bind_ok (reporting R u (reconcile_deployment R u m)) _ w requeue h in
      let (_, w₂, q, e₂, h₂) = bind_ok (reporting R u (reconcile_service R u)) _ w₁ requeue h₁ in
      let (owner, controlled, (placed, others)) =
        deployment-Lands R V F Q u m w w₁
          (reporting_ok R u (reconcile_deployment R u m) tt w w₁ p) in
      let (owner₂, controlled₂, (served, others₂)) =
        service-Lands R V F Q u w₁ w₂ (reporting_ok R u (reconcile_service R u) tt w₁ w₂ q) in
      let same : owner₂ ≡ owner = ok_eq (sym controlled₂ ∙ controlled) in
      let end = λ (k : ObjectKind) (n : NamespacedName).
        ap (λ (x : Result Bool × W). V x.1 k n) (e₁ ∙ e₂) ∙ last_steps-keep u requeue w₂ k n h₂ in
      (
        owner,
        controlled,
        same-IsLive (deployment (desired_deployment u owner m))
            (end a_deployment (key_of u) ∙ others₂ a_deployment (key_of u) refl) placed,
        subst
            (λ (o : OwnerReference).
              IsLive R V (service (desired_service u o)) (deploy_steps R u m w).1)
            same
            (same-IsLive (service (desired_service u owner₂)) (end a_service (key_of u)) served),
        λ n. end a_secret n ∙ others₂ a_secret n refl ∙ others a_secret n refl,
      )

  -- The status is written between the secret and the deployment.
  record_steps : CloudflareTunnel → Tunnel → NamespacedName → Exec W Bool
  unfolding deploy_steps
  record_steps t tunnel m = do
    u ←
        wrapping "failed to update CloudflareTunnel status"
          (R.client.update_tunnel_status (with_tunnel R t tunnel))
    deploy_steps R u m

  recorded_ok :
      (x : Exec W CloudflareTunnel) (u : CloudflareTunnel) (w w' : W)
      → wrapping "failed to update CloudflareTunnel status" x w ≡ (ok u, w')
      → x w ≡ (ok u, w')
  recorded_ok x u w w' h = elim (Result-cases (x w).0) [
    | inl (b, q) ↦ ground (arith, q)
    | inr (inl (e, q)) ↦ ground (arith, q)
    | inr (inr (m, q)) ↦ ground (arith, q)
  ]

  record_steps-IsDeployed :
      (given t : CloudflareTunnel) (tunnel : Tunnel) (token : CloudflareTunnelToken)
      → (m : NamespacedName) (owner : OwnerReference) (requeue : Bool) (w w₁ w₂ w₃ : W)
      → ensure_finalizer R given w ≡ (ok t, w₁)
      → reconcile_tunnel R t w₁ ≡ (ok (tunnel, token), w₂)
      → m ≡ key_of t
      → controller_reference R.library.gvk_for_object t ≡ ok owner
      → IsLive R V (secret (desired_secret t owner token)) w₃
      → (record_steps t tunnel m w₃).0 ≡ ok requeue
      → IsDeployed R V w (record_steps t tunnel m w₃).1 given
  unfolding record_steps desired_secret desired_deployment desired_service
  record_steps-IsDeployed given t tunnel token m owner requeue w w₁ w₂ w₃ p q named owned there h =
      let writing = R.client.update_tunnel_status (with_tunnel R t tunnel) in
      let (u, w₄, s, e, h₄) =
        bind_ok (wrapping "failed to update CloudflareTunnel status" writing)
          (λ u. deploy_steps R u m) w₃ requeue h in
      let written = recorded_ok writing u w₃ w₄ s in
      let (owner', owned', placed, served, kept) = deploy_steps_ok u m requeue w₄ h₄ in
      let end =
        λ (k : ObjectKind) (n : NamespacedName). ap (λ (x : Result Bool × W). V x.1 k n) e in
      record {
        resource = t;
        w₁ = w₁;
        ensured = p;
        tunnel = tunnel;
        token = token;
        w₂ = w₂;
        provisioned = q;
        current = u;
        w₃ = w₃;
        recorded = ap (λ (x : Result CloudflareTunnel × W). x.0) written;
        owner = owner;
        owned = owned;
        owner' = owner';
        owned' = owned';
        secret_live =
            same-IsLive (secret (desired_secret t owner token))
              (end a_secret (key_of t)
                ∙ kept (key_of t)
                ∙ sym (ap (λ (x : Result CloudflareTunnel × W). V x.1 a_secret (key_of t)) written)
                ∙ (S.update_status (with_tunnel R t tunnel) a_secret (key_of t)).same w₃)
              there;
        deployment_live =
            subst
              (λ (x : NamespacedName).
                IsLive R V (deployment (desired_deployment u owner' x))
                  (record_steps t tunnel m w₃).1)
              named
              (same-IsLive (deployment (desired_deployment u owner' m))
                (end a_deployment (key_of u)) placed);
        service_live =
            same-IsLive (service (desired_service u owner')) (end a_service (key_of u)) served;
      }

module _ {W : Type 0} (R : CloudflareTunnelReconciler W) (V : Live W) (F : IsFaithful R V)
    (Q : IsReadOnly R V) (S : IsAside R V) (I : IsTyped R.library) where
  -- A reconcile of a present CloudflareTunnel that succeeds has a tunnel with a token for it, has
  -- written the tunnel's id to the status, and leaves a cluster in which what the operator last
  -- applied are the desired secret with that token, the desired deployment that reads this secret,
  -- and the desired service.
  pub reconcile_present-IsDeployed :
      (given : CloudflareTunnel) (requeue : Bool) (w : W)
      → (reconcile_present R given w).0 ≡ ok requeue
      → IsDeployed R V w (reconcile_present R given w).1 given
  unfolding reconcile_present record_steps deploy_steps last_steps
  reconcile_present-IsDeployed given requeue w h =
      let (t, w₁, p, e₁, h₁) = bind_ok (ensure_finalizer R given) _ w requeue h in
      let ((tunnel, token), w₂, q, e₂, h₂) =
        bind_ok (reporting R t (reconcile_tunnel R t)) _ w₁ requeue h₁ in
      let (m, w₃, r, e₃, h₃) =
        bind_ok (reporting R t (reconcile_secret R t token)) _ w₂ requeue h₂ in
      let (named, (owner, owned, there)) =
        secret-Lands R V F Q I t token m w₂ w₃
          (reporting_ok R t (reconcile_secret R t token) m w₂ w₃ r) in
      subst (λ (x : Result Bool × W). IsDeployed R V w x.1 given) (sym (e₁ ∙ e₂ ∙ e₃))
        (record_steps-IsDeployed R V F Q S given t tunnel token m owner requeue w w₁ w₂ w₃ p
          (reporting_ok R t (reconcile_tunnel R t) (tunnel, token) w₁ w₂ q) named owned there h₃)
