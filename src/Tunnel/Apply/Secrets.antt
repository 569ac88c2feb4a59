-- ===== src/Tunnel/Apply/Secrets.antt =====
-- How often the secret of a CloudflareTunnel is written.
use cloudflare_tunnel_operat.Base.{
  String, ◌≡◌, ◌∙◌, Bool, true, false, Option, some, arith, inl, inr,
}
use cloudflare_tunnel_operat.Base.Value.{Value}
use cloudflare_tunnel_operat.Base.Exec.{
  Result, Result-cases, ok, err, panic, pure, lift, wrapping, bind_ok, ◌>>◌,
}
use cloudflare_tunnel_operat.Api.{CloudflareTunnel, NamespacedName}
use cloudflare_tunnel_operat.Domain.{CloudflareTunnelToken}
use cloudflare_tunnel_operat.Tunnel.Objects.{
  OwnerReference, ApplyConfiguration, SecretApply, ServiceApply, secret, service,
}
use cloudflare_tunnel_operat.Tunnel.Desired.{key_of, desired_secret, controller_reference}
use cloudflare_tunnel_operat.Tunnel.Client.{CloudflareTunnelReconciler, Library}
use cloudflare_tunnel_operat.Tunnel.Apply.{
  owner_reference, patch_unless, found_or_none, reconcile_secret,
}

-- What reflection promises of the two library functions: an apply configuration of a Service that
-- is extracted is one of a Service, and values of two types are never deeply equal.
pub record IsTyped (L : Library) : Type 0 where
  pub extracts_service :
      (v : Option Value) (a : ApplyConfiguration)
      → L.extract_service v ≡ ok a
      → (s : ServiceApply) × (a ≡ service s)
  pub tells_apart :
      (s : SecretApply) (v : ServiceApply) → L.deep_equal (secret s) (service v) ≡ false

module _ {W : Type 0} {A : Type 0} where
  pub wrapped_ok :
      (m : String) (r : Result A) (w : W) (a : A) (w' : W)
      → wrapping m (lift r) w ≡ (ok a, w')
      → (r ≡ ok a) × (w ≡ w')
  wrapped_ok m (ok b) w a w' h = ground arith
  wrapped_ok m (err e) w a w' h = ground arith
  wrapped_ok m (panic s) w a w' h = ground arith

module _ {W : Type 0} (R : CloudflareTunnelReconciler W) where
  patched_ok :
      (b : Bool) (body : Value) (k n : NamespacedName) (w : W)
      → b ≡ false
      → ((patch_unless R b "failed to apply secret" body >> pure k) w).0 ≡ ok n
      → ((R.client.apply_patch body w).0 ≡ ok tt)
        × ((patch_unless R b "failed to apply secret" body >> pure k) w
            ≡ (ok k, (R.client.apply_patch body w).1))
  unfolding patch_unless
  patched_ok true body k n w d h = ground arith
  patched_ok false body k n w d h = elim (Result-cases (R.client.apply_patch body w).0) [
    | inl (a, q) ↦ ground (arith, q)
    | inr (inl (e, q)) ↦ ground (arith, q)
    | inr (inr (m, q)) ↦ ground (arith, q)
  ]

  is_other_kind :
      IsTyped R.library
      → (s : SecretApply) (live : Option Value) (current : ApplyConfiguration)
      → R.library.extract_service live ≡ ok current
      → R.library.deep_equal (secret s) current ≡ false
  is_other_kind I s live current e =
      let (v, q) = I.extracts_service live current e in rw q (I.tells_apart s v)

  -- Every reconcileSecret that succeeds has applied the secret with the token as its last step,
  -- the secret that is there notwithstanding: the comparison that should spare the patch is between
  -- a Secret and a Service.
  pub secret_always_applied :
      IsTyped R.library
      → (t : CloudflareTunnel) (token : CloudflareTunnelToken) (n : NamespacedName) (w : W)
      → (reconcile_secret R t token w).0 ≡ ok n
      → (owner : OwnerReference) × (body : Value) × (w' : W) × (controller_reference
            R.library.gvk_for_object t
          ≡ ok owner)
        × (R.library.to_unstructured (secret (desired_secret t owner token)) ≡ ok body)
        × ((R.client.apply_patch body w').0 ≡ ok tt)
        × (reconcile_secret R t token w ≡ (ok (key_of t), (R.client.apply_patch body w').1))
  unfolding reconcile_secret owner_reference patch_unless found_or_none
  secret_always_applied I t token n w h =
      let (owner, w₁, p, e₁, h₁) = bind_ok (owner_reference R t) _ w n h in
      let wanted = secret (desired_secret t owner token) in
      let (body, w₂, q, e₂, h₂) =
        bind_ok
          (wrapping "failed to convert secret to unstructured"
            (lift (R.library.to_unstructured wanted)))
          _ w₁ n h₁ in
      let (live, w₃, r, e₃, h₃) =
        bind_ok (found_or_none R "failed to get secret" some (R.client.get_service (key_of t))) _ w₂
          n h₂ in
      let (current, w₄, x, e₄, h₄) =
        bind_ok
          (wrapping "failed to extract apply configuration from secret"
            (lift (R.library.extract_service live)))
          _ w₃ n h₃ in
      let differ =
        is_other_kind I (desired_secret t owner token) live current
          (wrapped_ok _ _ w₃ current w₄ x).0 in
      let (applied, end) = patched_ok _ body (key_of t) n w₄ differ h₄ in
      (
        owner,
        body,
        w₄,
        (wrapped_ok _ _ w owner w₁ p).0,
        (wrapped_ok _ _ w₁ body w₂ q).0,
        applied,
        e₁ ∙ e₂ ∙ e₃ ∙ e₄ ∙ end,
      )
