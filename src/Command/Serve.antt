-- ===== src/Command/Serve.antt =====
-- With what the manager of controller-runtime is started, once there is one.
use cloudflare_tunnel_operat.Base.{
  String, ◌≡◌, refl, sym, ap, ◌∙◌, subst, Bool, true, false, List, [], ◌∷◌, ◌++◌, ◌⊎◌, inl, inr,
  arith, if◌then◌else◌,
}
use cloudflare_tunnel_operat.Base.Keeps.{
  Keeps, keeps_handle, keeps_bind, keeps_if, keeps_pure, keeps_raise,
}
use cloudflare_tunnel_operat.Base.Exec.{
  Exec, Result, Result-cases, ok, pure, wrap, errors_is, not_found, ◌>>=◌, bind_ok,
}
use cloudflare_tunnel_operat.Manager.{CloudflareTunnelManager}
use cloudflare_tunnel_operat.External.{
  CloudflareTunnelClient, new_cloudflare_tunnel_client, cloudflare_manager,
}
use cloudflare_tunnel_operat.Command.Setup.{
  Builder, Handler, tunnel_handler, ingress_handler, WebhookBuilder, ControllerManager,
  tunnel_builder, ingress_builder, has_service_monitors, setup_tunnels, setup_ingresses,
  setup_webhook, webhook_builder,
}
use cloudflare_tunnel_operat.Command.{
  Flags, Config, Runtime, tunnel_reconciler, ingress_reconciler, serve,
}

pub data Registration (W : Type 0) : Type 0 where
  controller : Builder → Handler W → Registration W
  webhook : WebhookBuilder W → Registration W
  healthz : String → Registration W
  readyz : String → Registration W

-- What a world shows of the manager: what is registered, in order, and whether Start was called.
pub record Stage (W : Type 0) : Type 0 where
  pub registered : W → List (Registration W)
  pub started : W → Bool

module _ {W : Type 0} (V : Stage W) where
  pub record IsQuiet {A : Type 0} (x : Exec W A) : Type 0 where
    pub same_registered : Keeps V.registered x
    pub same_started : Keeps V.started x

  -- A success adds a registration; nothing is started.
  pub record Registers (r : Registration W) (x : Exec W (Unit {0})) : Type 0 where
    pub added : (w w' : W) → x w ≡ (ok tt, w') → V.registered w' ≡ V.registered w ++ r ∷ []
    pub not_started : Keeps V.started x

  -- For the handlers of one manager of tunnels.
  pub record IsManager (G : ControllerManager W) (M : CloudflareTunnelManager W) : Type 0 where
    pub get_crd : (n : String) → IsQuiet (G.get_crd n)
    pub complete_tunnels :
        (b : Builder)
        → Registers
            (controller b (tunnel_handler (tunnel_reconciler G M)))
            (G.complete b (tunnel_handler (tunnel_reconciler G M)))
    pub complete_ingresses :
        (b : Builder)
        → Registers
            (controller b (ingress_handler (ingress_reconciler G M)))
            (G.complete b (ingress_handler (ingress_reconciler G M)))
    pub complete_webhook :
        Registers (webhook (webhook_builder G)) (G.complete_webhook (webhook_builder G))
    pub add_healthz_check : (n : String) → Registers (healthz n) (G.add_healthz_check n)
    pub add_readyz_check : (n : String) → Registers (readyz n) (G.add_readyz_check n)

  pub record IsRuntime (R : Runtime W) : Type 0 where
    pub parse_flags :
        (f : Flags) (w : W)
        → (V.registered (R.parse_flags f w).1 ≡ V.registered w)
          × (V.started (R.parse_flags f w).1 ≡ V.started w)
    pub set_logger : (l : _) → IsQuiet (R.set_logger l)
    pub parse_env : IsQuiet R.parse_env
    pub new_manager : (o : _) → IsQuiet (R.new_manager o)
    pub manager_made :
        (o : _) (v w w' : W) (G : ControllerManager W) (cfg : Config)
        → (client : CloudflareTunnelClient W) → (R.parse_env v).0 ≡ ok cfg
        → R.new_manager o w ≡ (ok G, w')
        → new_cloudflare_tunnel_client R.new_with_api_token cfg.cloudflare_api_token
            cfg.cloudflare_account_id cfg.cloudflare_zone_id R.random
          ≡ ok client
        → IsManager G (cloudflare_manager client)

-- Everything that a start registers: both controllers with the one manager of tunnels, the webhook
-- if it is enabled, and the two checks.
abbrev pub hooks : {W : Type 0} → ControllerManager W → Bool → List (Registration W)
hooks G true = webhook (webhook_builder G) ∷ []
hooks G false = []

abbrev pub everything :
    {W : Type 0}
    → ControllerManager W
    → CloudflareTunnelManager W
    → Config
    → Bool
    → List (Registration W)
everything G M cfg monitors =
    controller (tunnel_builder monitors) (tunnel_handler (tunnel_reconciler G M))
      ∷ controller ingress_builder (ingress_handler (ingress_reconciler G M))
      ∷ hooks G cfg.enable_webhooks
    ++ healthz "healthz" ∷ readyz "readyz" ∷ []

append_nil : {A : Type 0} (xs : List A) → xs ++ [] ≡ xs
append_nil [] = refl
append_nil (x ∷ xs) = ap (◌∷◌ x) (append_nil xs)

append_two : {A : Type 0} (xs : List A) (a b : A) → (xs ++ a ∷ []) ++ b ∷ [] ≡ xs ++ a ∷ b ∷ []
append_two [] a b = refl
append_two (x ∷ xs) a b = ap (◌∷◌ x) (append_two xs a b)

-- The registrations one after the other.
chain :
    {A : Type 0} {r₀ r₁ r₂ r₃ r₄ r₅ : List A} {a b : A} (hs : List A) (h z : A)
    → r₀ ≡ []
    → r₁ ≡ r₀ ++ a ∷ []
    → r₂ ≡ r₁ ++ b ∷ []
    → r₃ ≡ r₂ ++ hs
    → r₄ ≡ r₃ ++ h ∷ []
    → r₅ ≡ r₄ ++ z ∷ []
    → r₅ ≡ a ∷ b ∷ hs ++ h ∷ z ∷ []
chain {a} {b} hs h z e₀ e₁ e₂ e₃ e₄ e₅ =
    rw (e₅, e₄, e₃, e₂, e₁, e₀) (ap (λ rs. a ∷ b ∷ rs) (append_two hs h z))

module _ {W : Type 0} (V : Stage W) where
  -- Either a failure before Start, or as `T` says.
  abbrev pub Outcome : (Result (Unit {0}) × W → Type 0) → Result (Unit {0}) × W → Type 0
  Outcome T p = ((V.started p.1 ≡ false) × (¬ (p.0 ≡ ok tt))) ⊎ T p

  pub step :
      {A : Type 0} (x : Exec W A) (f : A → Exec W (Unit {0})) (w : W)
      → (T : Result (Unit {0}) × W → Type 0) → Keeps V.started x
      → V.started w ≡ false
      → ((a : A) (w' : W) → x w ≡ (ok a, w') → V.started w' ≡ false → Outcome T (f a w'))
      → Outcome T ((x >>= f) w)
  step x f w T k s go = elim (Result-cases (x w).0) [
    | inl (a, q) ↦
        subst (Outcome T) (ground (arith, q)) (go a (x w).1 (ground (arith, q)) (k.same w ∙ s))
    | inr (inl (e, q)) ↦ inl (ground (arith, q, k.same w, s), λ h. ground (arith, q, h))
    | inr (inr (m, q)) ↦ inl (ground (arith, q, k.same w, s), λ h. ground (arith, q, h))
  ]

  keeps_monitors :
      (G : ControllerManager W) {M : CloudflareTunnelManager W}
      → IsManager V G M
      → Keeps V.started (has_service_monitors G)
  unfolding has_service_monitors
  keeps_monitors G L =
      keeps_handle V.started (L.get_crd "servicemonitors.monitoring.coreos.com").same_started
        (λ _. keeps_pure V.started true)
        (λ e.
          keeps_if V.started (errors_is e not_found) (keeps_pure V.started false)
            (keeps_raise V.started (wrap "failed to check ServiceMonitor CRD" e)))

  monitors_registered :
      (G : ControllerManager W) {M : CloudflareTunnelManager W} (L : IsManager V G M) (b : Bool)
      (w w' : W)
      → has_service_monitors G w ≡ (ok b, w')
      → V.registered w' ≡ V.registered w
  unfolding has_service_monitors
  monitors_registered G L b w w' h =
      sym (ap (λ (p : Result Bool × W). V.registered p.1) h)
      ∙ (keeps_handle V.registered
            (L.get_crd "servicemonitors.monitoring.coreos.com").same_registered
            (λ _. keeps_pure V.registered true)
            (λ e.
              keeps_if V.registered (errors_is e not_found) (keeps_pure V.registered false)
                (keeps_raise V.registered (wrap "failed to check ServiceMonitor CRD" e)))).same
          w

  hooks_added :
      (G : ControllerManager W) {M : CloudflareTunnelManager W} (L : IsManager V G M) (b : Bool)
      (w w' : W)
      → (if b then setup_webhook G else pure tt) w ≡ (ok tt, w')
      → V.registered w' ≡ V.registered w ++ hooks G b
  unfolding setup_webhook
  hooks_added G L true w w' h = L.complete_webhook.added w w' h
  hooks_added G L false w w' h =
      sym (ap (λ (p : Result (Unit {0}) × W). V.registered p.1) h)
      ∙ sym (append_nil (V.registered w))

  keeps_webhook :
      (G : ControllerManager W) {M : CloudflareTunnelManager W} (L : IsManager V G M) (b : Bool)
      → Keeps V.started (if b then setup_webhook G else pure tt)
  unfolding setup_webhook
  keeps_webhook G L b =
      keeps_if V.started b L.complete_webhook.not_started (keeps_pure V.started tt)

  tunnels_added :
      (G : ControllerManager W) {M : CloudflareTunnelManager W} (L : IsManager V G M) (w w' : W)
      → setup_tunnels G (tunnel_reconciler G M) w ≡ (ok tt, w')
      → (b : Bool) × (V.registered w'
          ≡ V.registered w
            ++ controller (tunnel_builder b) (tunnel_handler (tunnel_reconciler G M)) ∷ [])
  unfolding setup_tunnels
  tunnels_added G {M} L w w' h =
      let (b, w₁, p, e, _) =
        bind_ok (has_service_monitors G)
          (λ b. G.complete (tunnel_builder b) (tunnel_handler (tunnel_reconciler G M))) w tt
          (ap (λ (p : Result (Unit {0}) × W). p.0) h) in
      (
        b,
        (L.complete_tunnels (tunnel_builder b)).added w₁ w' (sym e ∙ h)
            ∙ ap
                (λ rs.
                  rs ++ controller (tunnel_builder b) (tunnel_handler (tunnel_reconciler G M)) ∷ [])
                (monitors_registered G L b w w₁ p),
      )

  keeps_tunnels :
      (G : ControllerManager W) {M : CloudflareTunnelManager W} (L : IsManager V G M)
      → Keeps V.started (setup_tunnels G (tunnel_reconciler G M))
  unfolding setup_tunnels
  keeps_tunnels G {M} L =
      keeps_bind V.started (keeps_monitors G L)
        (λ b. (L.complete_tunnels (tunnel_builder b)).not_started)

  -- Start is called in a world where everything is registered.
  pub record IsServed (G : ControllerManager W) (M : CloudflareTunnelManager W) (cfg : Config)
      (p : Result (Unit {0}) × W) : Type 0 where
    pub monitors : Bool
    pub before : W
    pub registered : V.registered before ≡ everything G M cfg monitors
    pub not_yet : V.started before ≡ false
    pub starts : p ≡ G.start before

  pub serve-IsServed :
      (G : ControllerManager W) (M : CloudflareTunnelManager W) (cfg : Config) (w : W)
      → IsManager V G M
      → V.registered w ≡ []
      → V.started w ≡ false
      → Outcome (IsServed G M cfg) (serve G M cfg w)
  unfolding serve setup_ingresses
  serve-IsServed G M cfg w L none s =
      let T = IsServed G M cfg in
      let tunnels = tunnel_reconciler G M in
      let ingresses = ingress_reconciler G M in
      step (setup_tunnels G tunnels) _ w T (keeps_tunnels G L) s (λ _ w₁ p₁ s₁.
        step (setup_ingresses G ingresses) _ w₁ T (L.complete_ingresses _).not_started s₁
          (λ _ w₂ p₂ s₂.
            step (if cfg.enable_webhooks then setup_webhook G else pure tt) _ w₂ T
              (keeps_webhook G L cfg.enable_webhooks) s₂
              (λ _ w₃ p₃ s₃.
                step (G.add_healthz_check "healthz") _ w₃ T (L.add_healthz_check _).not_started s₃
                  (λ _ w₄ p₄ s₄.
                    step (G.add_readyz_check "readyz") _ w₄ T (L.add_readyz_check _).not_started s₄
                      (λ _ w₅ p₅ s₅.
                        let (b, r₁) = tunnels_added G L w w₁ p₁ in
                        inr (record {
                          monitors = b;
                          before = w₅;
                          registered =
                              chain (hooks G cfg.enable_webhooks) (healthz "healthz")
                                (readyz "readyz") none r₁ ((L.complete_ingresses _).added w₁ w₂ p₂)
                                (hooks_added G L cfg.enable_webhooks w₂ w₃ p₃)
                                ((L.add_healthz_check _).added w₃ w₄ p₄)
                                ((L.add_readyz_check _).added w₄ w₅ p₅);
                          not_yet = s₅;
                          starts = refl;
                        }))))))
