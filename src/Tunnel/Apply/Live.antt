-- ===== src/Tunnel/Apply/Live.antt =====
-- What the operator last applied to each object, and when a reconcile of an object makes it the
-- desired one.
use cloudflare_tunnel_operat.Base.{
  String, ◌≡◌, refl, sym, ap, ◌∙◌, subst, Bool, true, false, Option, none, some, arith, inl, inr,
  ◌⊎◌,
}
use cloudflare_tunnel_operat.Base.Value.{Value}
use cloudflare_tunnel_operat.Base.Keeps.{Keeps, keeps_handle, keeps_if, keeps_pure, keeps_raise}
use cloudflare_tunnel_operat.Base.Exec.{
  Exec, Result, Result-cases, ok, wrap, lift, wrapping, errors_is, not_found, bind_ok, ◌>>=◌,
}
use cloudflare_tunnel_operat.Api.{NamespacedName}
use cloudflare_tunnel_operat.Tunnel.Objects.{
  ApplyConfiguration, ServiceApply, DeploymentApply, secret, service, deployment,
}
use cloudflare_tunnel_operat.Tunnel.Client.{CloudflareTunnelReconciler, Deployment}
use cloudflare_tunnel_operat.Tunnel.Apply.{patch_unless, found_or_none}
use cloudflare_tunnel_operat.Tunnel.Apply.Secrets.{wrapped_ok}

pub data ObjectKind : Type 0 where
  a_secret a_service a_deployment : ObjectKind

abbrev pub kind_of : ApplyConfiguration → ObjectKind
kind_of (secret s) = a_secret
kind_of (service s) = a_service
kind_of (deployment d) = a_deployment

abbrev pub name_of : ApplyConfiguration → NamespacedName
name_of (secret s) = s.meta.key
name_of (service s) = s.meta.key
name_of (deployment d) = d.meta.key

abbrev pub same_kind : ObjectKind → ObjectKind → Bool
same_kind a_secret a_secret = true
same_kind a_service a_service = true
same_kind a_deployment a_deployment = true
same_kind _ _ = false

-- What the operator last applied to each object, as it was sent.
abbrev pub Live : Type 0 → Type 0
Live W = W → ObjectKind → NamespacedName → Option Value

-- The last apply to an object is the given one.
abbrev pub IsLive :
    {W : Type 0} → CloudflareTunnelReconciler W → Live W → ApplyConfiguration → W → Type 0
IsLive R V a w =
    (body : Value) × (R.library.to_unstructured a ≡ ok body)
    × (V w (kind_of a) (name_of a) ≡ some body)

-- The server keeps what is applied under the object's kind and name, and the library's comparison
-- of a desired object with what it extracts from the object that was read means what it says.
pub record IsFaithful {W : Type 0} (R : CloudflareTunnelReconciler W) (V : Live W) : Type 0 where
  pub applied :
      (a : ApplyConfiguration) (body : Value) (w : W)
      → R.library.to_unstructured a ≡ ok body
      → (R.client.apply_patch body w).0 ≡ ok tt
      → V (R.client.apply_patch body w).1 (kind_of a) (name_of a) ≡ some body
  pub applied_others :
      (a : ApplyConfiguration) (body : Value) (w : W) (k : ObjectKind) (n : NamespacedName)
      → R.library.to_unstructured a ≡ ok body
      → same_kind (kind_of a) k ≡ false
      → V (R.client.apply_patch body w).1 k n ≡ V w k n
  pub same_service :
      (a : ServiceApply) (v : Value) (c : ApplyConfiguration) (w w' : W)
      → R.client.get_service a.meta.key w ≡ (ok v, w')
      → R.library.extract_service (some v) ≡ ok c
      → R.library.deep_equal (service a) c ≡ true
      → IsLive R V (service a) w'
  pub no_service :
      (a : ServiceApply) (c : ApplyConfiguration)
      → R.library.extract_service none ≡ ok c
      → R.library.deep_equal (service a) c ≡ false
  pub same_deployment :
      (a : DeploymentApply) (d : Deployment) (c : ApplyConfiguration) (w w' : W)
      → R.client.get_deployment a.meta.key w ≡ (ok d, w')
      → R.library.extract_deployment (some d.object) ≡ ok c
      → R.library.deep_equal (deployment a) c ≡ true
      → IsLive R V (deployment a) w'
  pub no_deployment :
      (a : DeploymentApply) (c : ApplyConfiguration)
      → R.library.extract_deployment none ≡ ok c
      → R.library.deep_equal (deployment a) c ≡ false

-- What reading an object says of it: it is there, or it is not.
abbrev pub Found : {W A : Type 0} → (A → Value) → Exec W A → Option Value → W → W → Type 0
Found {A} object get live w w' =
    ((a : A) × (get w ≡ (ok a, w')) × (live ≡ some (object a))) ⊎ (live ≡ none)

pub wrapped_patch :
    {W : Type 0} (m : String) (x : Exec W (Unit {0})) (w : W)
    → (wrapping m x w).0 ≡ ok tt
    → (x w).0 ≡ ok tt
wrapped_patch m x w h = elim (Result-cases (x w).0) [
  | inl (b, q) ↦ ground (arith, q)
  | inr (inl (e, q)) ↦ ground (arith, q)
  | inr (inr (s, q)) ↦ ground (arith, q)
]

module _ {W : Type 0} (R : CloudflareTunnelReconciler W) where
  found_or_none_ok :
      {A : Type 0} (m : String) (object : A → Value) (get : Exec W A) (live : Option Value)
      → (w w' : W) → found_or_none R m (λ a. some (object a)) get w ≡ (ok live, w')
      → Found object get live w w'
  unfolding found_or_none
  found_or_none_ok m object get live w w' h = elim (Result-cases (get w).0) [
    | inl (a, q) ↦ inl (a, ground (arith, q), ground (arith, q))
    | inr (inl (e, q)) ↦ inr (ground (arith, q))
    | inr (inr (s, q)) ↦ ground (arith, q)
  ]

  keeps_found_or_none :
      {A X : Type 0} (P : W → X) (m : String) (object : A → Option Value) {get : Exec W A}
      → Keeps P get
      → Keeps P (found_or_none R m object get)
  unfolding found_or_none
  keeps_found_or_none P m object k =
      keeps_handle P k (λ a. keeps_pure P (object a))
        (λ e. keeps_if P (errors_is e not_found) (keeps_pure P none) (keeps_raise P (wrap m e)))

  -- The steps that the deployment and the service share.
  unfoldable pub apply_object :
      {A : Type 0}
      → String
      → String
      → String
      → String
      → ApplyConfiguration
      → (A → Value)
      → Exec W A
      → (Option Value → Result ApplyConfiguration)
      → Exec W (Unit {0})
  apply_object converting getting extracting applying wanted object get extract = do
    body ← wrapping converting (lift (R.library.to_unstructured wanted))
    live ← found_or_none R getting (λ a. some (object a)) get
    current ← wrapping extracting (lift (extract live))
    patch_unless R (R.library.deep_equal wanted current) applying body

  module _ (V : Live W) (F : IsFaithful R V) where
    patched_lands :
        (b : Bool) (m : String) (wanted : ApplyConfiguration) (body : Value) (w : W)
        → R.library.to_unstructured wanted ≡ ok body
        → (b ≡ true → IsLive R V wanted w)
        → (patch_unless R b m body w).0 ≡ ok tt
        → IsLive R V wanted (patch_unless R b m body w).1
    unfolding patch_unless
    patched_lands true m wanted body w c s h = s refl
    patched_lands false m wanted body w c s h =
        (body, c, F.applied wanted body w c (wrapped_patch m (R.client.apply_patch body) w h))

    -- An object whose reconcile succeeds is the desired one afterwards.
    pub apply_object_lands :
        {A : Type 0} (m₁ m₂ m₃ m₄ : String) (wanted : ApplyConfiguration) (object : A → Value)
        → (get : Exec W A) (extract : Option Value → Result ApplyConfiguration) (w : W)
        → ((live : Option Value) (c : ApplyConfiguration) (w₁ w₂ : W)
            → Found object get live w₁ w₂
            → extract live ≡ ok c
            → R.library.deep_equal wanted c ≡ true
            → IsLive R V wanted w₂)
        → (apply_object m₁ m₂ m₃ m₄ wanted object get extract w).0 ≡ ok tt
        → IsLive R V wanted (apply_object m₁ m₂ m₃ m₄ wanted object get extract w).1
    unfolding apply_object
    apply_object_lands m₁ m₂ m₃ m₄ wanted object get extract w same h =
        let (body, w₁, p, e₁, h₁) =
          bind_ok (wrapping m₁ (lift (R.library.to_unstructured wanted))) _ w tt h in
        let (live, w₂, q, e₂, h₂) =
          bind_ok (found_or_none R m₂ (λ a. some (object a)) get) _ w₁ tt h₁ in
        let (current, w₃, r, e₃, h₃) = bind_ok (wrapping m₃ (lift (extract live))) _ w₂ tt h₂ in
        let (extracted, stays) = wrapped_ok m₃ (extract live) w₂ current w₃ r in
        let seen = found_or_none_ok m₂ object get live w₁ w₂ q in
        subst (λ (x : Result (Unit {0}) × W). IsLive R V wanted x.1) (sym (e₁ ∙ e₂ ∙ e₃))
          (patched_lands (R.library.deep_equal wanted current) m₄ wanted body w₃
            (wrapped_ok m₁ (R.library.to_unstructured wanted) w body w₁ p).0
            (λ eq.
              subst (λ (v : W). IsLive R V wanted v) stays
                (same live current w₁ w₂ seen extracted eq))
            h₃)

    patched_others :
        (b : Bool) (m : String) (wanted : ApplyConfiguration) (body : Value) (w : W)
        → (k : ObjectKind) (n : NamespacedName) → R.library.to_unstructured wanted ≡ ok body
        → same_kind (kind_of wanted) k ≡ false
        → V (patch_unless R b m body w).1 k n ≡ V w k n
    unfolding patch_unless
    patched_others true m wanted body w k n c d = refl
    patched_others false m wanted body w k n c d = F.applied_others wanted body w k n c d

    -- The objects of the other kinds are as they were.
    pub apply_object_others :
        {A : Type 0} (m₁ m₂ m₃ m₄ : String) (wanted : ApplyConfiguration) (object : A → Value)
        → (get : Exec W A) (extract : Option Value → Result ApplyConfiguration) (w : W)
        → (k : ObjectKind) (n : NamespacedName) → Keeps (λ v. V v k n) get
        → same_kind (kind_of wanted) k ≡ false
        → (apply_object m₁ m₂ m₃ m₄ wanted object get extract w).0 ≡ ok tt
        → V (apply_object m₁ m₂ m₃ m₄ wanted object get extract w).1 k n ≡ V w k n
    unfolding apply_object found_or_none
    apply_object_others m₁ m₂ m₃ m₄ wanted object get extract w k n reads d h =
        let (body, w₁, p, e₁, h₁) =
          bind_ok (wrapping m₁ (lift (R.library.to_unstructured wanted))) _ w tt h in
        let (live, w₂, q, e₂, h₂) =
          bind_ok (found_or_none R m₂ (λ a. some (object a)) get) _ w₁ tt h₁ in
        let (current, w₃, r, e₃, h₃) = bind_ok (wrapping m₃ (lift (extract live))) _ w₂ tt h₂ in
        let (converted, stays) = wrapped_ok m₁ (R.library.to_unstructured wanted) w body w₁ p in
        let (_, stays') = wrapped_ok m₃ (extract live) w₂ current w₃ r in
        let reading =
          (keeps_found_or_none (λ v. V v k n) m₂ (λ a. some (object a)) reads).same w₁ in
        let slot = λ (v : W). V v k n in
        ap (λ (x : Result (Unit {0}) × W). slot x.1) (e₁ ∙ e₂ ∙ e₃)
        ∙ patched_others (R.library.deep_equal wanted current) m₄ wanted body w₃ k n converted d
        ∙ ap slot (sym stays')
        ∙ sym (ap (λ (x : Result (Option Value) × W). slot x.1) q)
        ∙ reading
        ∙ ap slot (sym stays)
