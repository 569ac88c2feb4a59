-- ===== src/Command/Wired.antt =====
-- With what the process serves, and what becomes of it when a part of its start fails.
use cloudflare_tunnel_operat.Base.{ℕ, ◌≡◌, refl, sym, ap, ◌∙◌, false, [], ◌⊎◌, inl, inr, arith}
use cloudflare_tunnel_operat.Base.Keeps.{keeps_lift}
use cloudflare_tunnel_operat.Base.Exec.{Exec, Result, ok, err, panic, lift}
use cloudflare_tunnel_operat.External.{
  CloudflareTunnelClient, new_cloudflare_tunnel_client, cloudflare_manager,
}
use cloudflare_tunnel_operat.Command.Logging.{create_logger, codes}
use cloudflare_tunnel_operat.Command.Setup.{ControllerManager}
use cloudflare_tunnel_operat.Command.{
  Flags, default_flags, Config, manager_options, Runtime, Ending, returned, ending, ending_of, run,
  run_or_exit, main,
}
use cloudflare_tunnel_operat.Command.Serve.{
  Stage, IsQuiet, IsRuntime, Outcome, step, IsServed, serve-IsServed,
}

module _ {W : Type 0} (V : Stage W) where
  client_made :
      (r : Result (CloudflareTunnelClient W)) (c : CloudflareTunnelClient W) (w w' : W)
      → lift r w ≡ (ok c, w')
      → (r ≡ ok c) × (w ≡ w')
  client_made r c w w' h = (
    ap (λ (p : Result (CloudflareTunnelClient W) × W). p.0) h,
    ap (λ (p : Result (CloudflareTunnelClient W) × W). p.1) h,
  )

  -- Start is called for the flags, the environment and the client that were given.
  pub record IsRunning (R : Runtime W) (f : Flags) (p : Result (Unit {0}) × W) : Type 0 where
    pub cfg : Config
    pub w₁ : W
    pub environment : (R.parse_env w₁).0 ≡ ok cfg
    pub G : ControllerManager W
    pub w₂ : W
    pub manager : (R.new_manager (manager_options f) w₂).0 ≡ ok G
    pub client : CloudflareTunnelClient W
    pub connected :
        new_cloudflare_tunnel_client R.new_with_api_token cfg.cloudflare_api_token
          cfg.cloudflare_account_id cfg.cloudflare_zone_id R.random
        ≡ ok client
    pub served : IsServed V G (cloudflare_manager client) cfg p

  served-IsRunning :
      (R : Runtime W) (f : Flags) (cfg : Config) (G : ControllerManager W)
      → (client : CloudflareTunnelClient W) (w₁ w₂ w₃ : W) (p : Result (Unit {0}) × W)
      → R.parse_env w₁ ≡ (ok cfg, w₂)
      → R.new_manager (manager_options f) w₂ ≡ (ok G, w₃)
      → new_cloudflare_tunnel_client R.new_with_api_token cfg.cloudflare_api_token
          cfg.cloudflare_account_id cfg.cloudflare_zone_id R.random
        ≡ ok client
      → Outcome V (IsServed V G (cloudflare_manager client) cfg) p
      → Outcome V (IsRunning R f) p
  served-IsRunning R f cfg G client w₁ w₂ w₃ p e g c (inl failed) = inl failed
  served-IsRunning R f cfg G client w₁ w₂ w₃ p e g c (inr served) = inr (record {
    cfg = cfg;
    w₁ = w₁;
    environment = ap (λ (p : Result Config × W). p.0) e;
    G = G;
    w₂ = w₂;
    manager = ap (λ (p : Result (ControllerManager W) × W). p.0) g;
    client = client;
    connected = c;
    served = served;
  })

  quiet_registered :
      {A : Type 0} {x : Exec W A}
      → IsQuiet V x
      → (w : W) (a : A) (w' : W) → x w ≡ (ok a, w')
      → V.registered w' ≡ V.registered w
  quiet_registered {A} q w a w' h =
      sym (ap (λ (p : Result A × W). V.registered p.1) h) ∙ q.same_registered.same w

  run-IsRunning :
      (R : Runtime W) (f : Flags) (w : W)
      → IsRuntime V R
      → V.registered w ≡ []
      → V.started w ≡ false
      → Outcome V (IsRunning R f) (run R f w)
  unfolding run
  run-IsRunning R f w L none s =
      let T = IsRunning R f in
      let logger = create_logger (codes f.log_level) (codes f.log_type) in
      step V (R.set_logger logger) _ w T (L.set_logger logger).same_started s (λ _ w₁ p₁ s₁.
        step V R.parse_env _ w₁ T L.parse_env.same_started s₁ (λ cfg w₂ p₂ s₂.
          step V (R.new_manager (manager_options f)) _ w₂ T (L.new_manager _).same_started s₂
            (λ G w₃ p₃ s₃.
              let made =
                new_cloudflare_tunnel_client R.new_with_api_token cfg.cloudflare_api_token
                  cfg.cloudflare_account_id cfg.cloudflare_zone_id R.random in
              step V (lift made) _ w₃ T (keeps_lift V.started made) s₃ (λ client w₄ p₄ s₄.
                let (c, here) = client_made made client w₃ w₄ p₄ in
                served-IsRunning R f cfg G client w₁ w₂ w₃ _ p₂ p₃ c (
                  serve-IsServed V G (cloudflare_manager client) cfg w₄
                    (L.manager_made _ w₁ w₂ w₃ G cfg client (ap (λ (p : Result Config × W). p.0) p₂)
                      p₃ c)
                    (ap V.registered (sym here)
                      ∙ quiet_registered (L.new_manager _) w₂ G w₃ p₃
                      ∙ quiet_registered L.parse_env w₁ cfg w₂ p₂
                      ∙ quiet_registered (L.set_logger logger) w tt w₁ p₁
                      ∙ none)
                    s₄)))))

  -- How the process ends, by what the flags gave.
  abbrev Ended : Runtime W → (Flags ⊎ ℕ) × W → Ending × W → Type 0
  Ended R q e =
      ((V.started e.1 ≡ false) × (¬ (e.0 ≡ returned)))
      ⊎ ((f : Flags) × (q.0 ≡ inl f)
          × (p : Result (Unit {0}) × W) × IsRunning R f p
          × (e ≡ ending_of p))

  ending-returned : (r : Result (Unit {0})) → ending r ≡ returned → r ≡ ok tt
  ending-returned (ok a) h = refl
  ending-returned (err e) h = ground arith
  ending-returned (panic m) h = ground arith

  flags-Ended :
      (R : Runtime W) (q : (Flags ⊎ ℕ) × W)
      → IsRuntime V R
      → V.registered q.1 ≡ []
      → V.started q.1 ≡ false
      → Ended R q (run_or_exit R q)
  flags-Ended R (inl f, w) L none s = elim (run-IsRunning R f w L none s) [
    | inl (quiet, failed) ↦ inl (quiet, λ h. failed (ending-returned (run R f w).0 h))
    | inr running ↦ inr (f, refl, run R f w, running, refl)
  ]
  flags-Ended R (inr code, w) L none s = inl (s, λ h. ground (arith, h))

  -- A process that starts with nothing registered either ends by itself before Start is called, with
  -- nothing started, and then it does not end as if it had run; or it ends as Start does, and Start
  -- is called once everything is registered: both controllers, with the one Cloudflare client for
  -- the token, account and zone of the environment, the webhook exactly if the environment enables
  -- it, and the two checks.
  pub main-IsRunning :
      (R : Runtime W) (w : W)
      → IsRuntime V R
      → V.registered w ≡ []
      → V.started w ≡ false
      → ((V.started (main R w).1 ≡ false) × (¬ ((main R w).0 ≡ returned)))
        ⊎ ((f : Flags) × ((R.parse_flags default_flags w).0 ≡ inl f)
            × (p : Result (Unit {0}) × W) × IsRunning R f p
            × (main R w ≡ ending_of p))
  unfolding main
  main-IsRunning R w L none s =
      flags-Ended R (R.parse_flags default_flags w) L ((L.parse_flags default_flags w).0 ∙ none)
        ((L.parse_flags default_flags w).1 ∙ s)
