-- ===== src/Tunnel/Apply/Lands.antt =====
-- A reconcile of the secret, the service or the deployment that succeeds makes that object the
-- desired one, and leaves the two others alone.
use cloudflare_tunnel_operat.Base.{◌≡◌, refl, sym, ap, ◌∙◌, subst, false, arith, inl, inr}
use cloudflare_tunnel_operat.Base.Keeps.{Keeps}
use cloudflare_tunnel_operat.Base.Exec.{Exec, Result, ok, bind_ok, ◌>>=◌}
use cloudflare_tunnel_operat.Api.{CloudflareTunnel, NamespacedName}
use cloudflare_tunnel_operat.Domain.{CloudflareTunnelToken}
use cloudflare_tunnel_operat.Tunnel.Objects.{
  OwnerReference, ApplyConfiguration, secret, service, deployment,
}
use cloudflare_tunnel_operat.Tunnel.Desired.{
  key_of, controller_reference, desired_secret, desired_service, desired_deployment,
}
use cloudflare_tunnel_operat.Tunnel.Client.{CloudflareTunnelReconciler, Deployment}
use cloudflare_tunnel_operat.Tunnel.Apply.{
  owner_reference, reconcile_secret, reconcile_deployment, reconcile_service,
}
use cloudflare_tunnel_operat.Tunnel.Apply.Secrets.{IsTyped, wrapped_ok, secret_always_applied}
use cloudflare_tunnel_operat.Tunnel.Apply.Live.{
  Live, IsLive, ObjectKind, IsFaithful, apply_object, apply_object_lands, apply_object_others,
  kind_of, same_kind,
}

-- Reading objects does not change what was applied.
pub record IsReadOnly {W : Type 0} (R : CloudflareTunnelReconciler W) (V : Live W) : Type 0 where
  pub get_secret :
      (m : NamespacedName) (k : ObjectKind) (n : NamespacedName)
      → Keeps (λ w. V w k n) (R.client.get_secret m)
  pub get_service :
      (m : NamespacedName) (k : ObjectKind) (n : NamespacedName)
      → Keeps (λ w. V w k n) (R.client.get_service m)
  pub get_deployment :
      (m : NamespacedName) (k : ObjectKind) (n : NamespacedName)
      → Keeps (λ w. V w k n) (R.client.get_deployment m)

module _ {W : Type 0} (R : CloudflareTunnelReconciler W) where
  service_steps : CloudflareTunnel → OwnerReference → Exec W (Unit {0})
  service_steps t owner =
      apply_object R "failed to convert service to unstructured" "failed to get service"
        "failed to extract apply configuration from service" "failed to apply service"
        (service (desired_service t owner)) (λ v. v) (R.client.get_service (key_of t))
        R.library.extract_service

  deployment_steps : CloudflareTunnel → NamespacedName → OwnerReference → Exec W (Unit {0})
  deployment_steps t n owner =
      apply_object R "failed to convert deployment to unstructured" "failed to get deployment"
        "failed to extract apply configuration from deployment" "failed to apply deployment"
        (deployment (desired_deployment t owner n)) (λ (d : Deployment). d.object)
        (R.client.get_deployment (key_of t)) R.library.extract_deployment

  reconcile_service-eq :
      (t : CloudflareTunnel) → reconcile_service R t ≡ (owner_reference R t >>= service_steps t)
  unfolding reconcile_service apply_object service_steps
  reconcile_service-eq t = refl

  reconcile_deployment-eq :
      (t : CloudflareTunnel) (n : NamespacedName)
      → reconcile_deployment R t n ≡ (owner_reference R t >>= deployment_steps t n)
  unfolding reconcile_deployment apply_object deployment_steps
  reconcile_deployment-eq t n = refl

  owned_ok :
      (t : CloudflareTunnel) (owner : OwnerReference) (w w' : W)
      → owner_reference R t w ≡ (ok owner, w')
      → (controller_reference R.library.gvk_for_object t ≡ ok owner) × (w ≡ w')
  unfolding owner_reference
  owned_ok t owner w w' h = wrapped_ok "failed to create controller reference" _ w owner w' h

  module _ (V : Live W) (F : IsFaithful R V) where
    service_steps_land :
        (t : CloudflareTunnel) (owner : OwnerReference) (w : W)
        → (service_steps t owner w).0 ≡ ok tt
        → IsLive R V (service (desired_service t owner)) (service_steps t owner w).1
    unfolding service_steps desired_service
    service_steps_land t owner w h =
        apply_object_lands R V F "failed to convert service to unstructured" "failed to get service"
          "failed to extract apply configuration from service" "failed to apply service"
          (service (desired_service t owner)) (λ v. v) (R.client.get_service (key_of t))
          R.library.extract_service w
          (λ live c w₁ w₂ seen extracted eq. elim seen [
            | inl (v, got, there) ↦
                F.same_service (desired_service t owner) v c w₁ w₂ got
                  (ap R.library.extract_service (sym there) ∙ extracted) eq
            | inr gone ↦ ground (
              arith,
              eq,
              F.no_service (desired_service t owner) c
                  (ap R.library.extract_service (sym gone) ∙ extracted),
            )
          ])
          h

    deployment_steps_land :
        (t : CloudflareTunnel) (n : NamespacedName) (owner : OwnerReference) (w : W)
        → (deployment_steps t n owner w).0 ≡ ok tt
        → IsLive R V (deployment (desired_deployment t owner n)) (deployment_steps t n owner w).1
    unfolding deployment_steps desired_deployment
    deployment_steps_land t n owner w h =
        apply_object_lands R V F "failed to convert deployment to unstructured"
          "failed to get deployment" "failed to extract apply configuration from deployment"
          "failed to apply deployment" (deployment (desired_deployment t owner n))
          (λ (d : Deployment). d.object) (R.client.get_deployment (key_of t))
          R.library.extract_deployment w
          (λ live c w₁ w₂ seen extracted eq. elim seen [
            | inl (d, got, there) ↦
                F.same_deployment (desired_deployment t owner n) d c w₁ w₂ got
                  (ap R.library.extract_deployment (sym there) ∙ extracted) eq
            | inr gone ↦ ground (
              arith,
              eq,
              F.no_deployment (desired_deployment t owner n) c
                  (ap R.library.extract_deployment (sym gone) ∙ extracted),
            )
          ])
          h

  -- The object is the desired one, and those of the other kinds are as they were.
  abbrev pub Lands : Live W → ApplyConfiguration → W → W → Type 0
  Lands V wanted before after =
      IsLive R V wanted after
      × ((k : ObjectKind) (n : NamespacedName)
          → same_kind (kind_of wanted) k ≡ false
          → V after k n ≡ V before k n)

  module _ (V : Live W) (F : IsFaithful R V) (Q : IsReadOnly R V) where
    owned_then :
        (t : CloudflareTunnel) (wanted : OwnerReference → ApplyConfiguration)
        → (steps : OwnerReference → Exec W (Unit {0})) (w w' : W)
        → ((owner : OwnerReference) (v v' : W)
            → steps owner v ≡ (ok tt, v')
            → Lands V (wanted owner) v v')
        → (owner_reference R t >>= steps) w ≡ (ok tt, w')
        → (owner : OwnerReference) × (controller_reference R.library.gvk_for_object t ≡ ok owner)
          × Lands V (wanted owner) w w'
    owned_then t wanted steps w w' land h =
        let (owner, w₁, p, e, _) =
          bind_ok (owner_reference R t) steps w tt (ap (λ (x : Result (Unit {0}) × W). x.0) h) in
        let (controlled, stays) = owned_ok t owner w w₁ p in
        (
          owner,
          controlled,
          subst (λ (v : W). Lands V (wanted owner) v w') (sym stays) (land owner w₁ w' (sym e ∙ h)),
        )

    service_steps-Lands :
        (t : CloudflareTunnel) (owner : OwnerReference) (w w' : W)
        → service_steps t owner w ≡ (ok tt, w')
        → Lands V (service (desired_service t owner)) w w'
    unfolding service_steps
    service_steps-Lands t owner w w' e =
        let h = ap (λ (x : Result (Unit {0}) × W). x.0) e in
        subst (λ (x : Result (Unit {0}) × W). Lands V (service (desired_service t owner)) w x.1) e
          (
            service_steps_land V F t owner w h,
            λ k n d.
                apply_object_others R V F "failed to convert service to unstructured"
                  "failed to get service" "failed to extract apply configuration from service"
                  "failed to apply service" (service (desired_service t owner)) (λ v. v)
                  (R.client.get_service (key_of t)) R.library.extract_service w k n
                  (Q.get_service (key_of t) k n) d h,
          )

    deployment_steps-Lands :
        (t : CloudflareTunnel) (m : NamespacedName) (owner : OwnerReference) (w w' : W)
        → deployment_steps t m owner w ≡ (ok tt, w')
        → Lands V (deployment (desired_deployment t owner m)) w w'
    unfolding deployment_steps
    deployment_steps-Lands t m owner w w' e =
        let h = ap (λ (x : Result (Unit {0}) × W). x.0) e in
        subst
          (λ (x : Result (Unit {0}) × W). Lands V (deployment (desired_deployment t owner m)) w x.1)
          e
          (
            deployment_steps_land V F t m owner w h,
            λ k n d.
                apply_object_others R V F "failed to convert deployment to unstructured"
                  "failed to get deployment" "failed to extract apply configuration from deployment"
                  "failed to apply deployment" (deployment (desired_deployment t owner m))
                  (λ (x : Deployment). x.object) (R.client.get_deployment (key_of t))
                  R.library.extract_deployment w k n (Q.get_deployment (key_of t) k n) d h,
          )

    -- The service of a tunnel.
    pub service-Lands :
        (t : CloudflareTunnel) (w w' : W)
        → reconcile_service R t w ≡ (ok tt, w')
        → (owner : OwnerReference) × (controller_reference R.library.gvk_for_object t ≡ ok owner)
          × Lands V (service (desired_service t owner)) w w'
    service-Lands t w w' h =
        owned_then t (λ owner. service (desired_service t owner)) (service_steps t) w w'
          (service_steps-Lands t)
          (ap (λ (x : Exec W (Unit {0})). x w) (sym (reconcile_service-eq t)) ∙ h)

    -- The deployment of a tunnel, with the token of the given secret.
    pub deployment-Lands :
        (t : CloudflareTunnel) (m : NamespacedName) (w w' : W)
        → reconcile_deployment R t m w ≡ (ok tt, w')
        → (owner : OwnerReference) × (controller_reference R.library.gvk_for_object t ≡ ok owner)
          × Lands V (deployment (desired_deployment t owner m)) w w'
    deployment-Lands t m w w' h =
        owned_then t (λ owner. deployment (desired_deployment t owner m)) (deployment_steps t m) w
          w' (deployment_steps-Lands t m)
          (ap (λ (x : Exec W (Unit {0})). x w) (sym (reconcile_deployment-eq t m)) ∙ h)

    -- The secret of a tunnel with its token, and the name that is answered.
    pub secret-Lands :
        IsTyped R.library
        → (t : CloudflareTunnel) (token : CloudflareTunnelToken) (m : NamespacedName) (w w' : W)
        → reconcile_secret R t token w ≡ (ok m, w')
        → (m ≡ key_of t)
          × ((owner : OwnerReference) × (controller_reference R.library.gvk_for_object t ≡ ok owner)
              × IsLive R V (secret (desired_secret t owner token)) w')
    unfolding desired_secret
    secret-Lands I t token m w w' h =
        let (owner, body, v, controlled, converted, applied, end) =
          secret_always_applied R I t token m w (ap (λ (x : Result NamespacedName × W). x.0) h) in
        let same : ◌≡◌ {A = Result NamespacedName} (ok m) (ok (key_of t)) =
          ap (λ (x : Result NamespacedName × W). x.0) (sym h ∙ end) in
        let last = ap (λ (x : Result NamespacedName × W). x.1) (sym h ∙ end) in
        (
          ground (arith, same),
          (
            owner,
            controlled,
            subst (λ (x : W). IsLive R V (secret (desired_secret t owner token)) x) (sym last)
                (
                  body,
                  converted,
                  F.applied (secret (desired_secret t owner token)) body v converted applied,
                ),
          ),
        )
