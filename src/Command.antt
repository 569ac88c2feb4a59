-- ===== src/Command.antt =====
-- The start of the process: `main` (cmd/main.go). The flag and env packages, the HTTP API's
-- constructor and the manager of controller-runtime are parameters, over an unknown world. Log lines
-- are left out, and so is the registration of types with the scheme.
pub mod Logging
pub mod Setup
pub mod Serve
pub mod Wired
use cloudflare_tunnel_operat.Base.{
  ℕ, String, Bool, true, false, List, [], ◌∷◌, ◌⊎◌, inl, inr, if◌then◌else◌,
}
use cloudflare_tunnel_operat.Base.Exec.{Exec, Result, ok, err, panic, pure, lift, ◌>>=◌, ◌>>◌}
use cloudflare_tunnel_operat.Cluster.{Finalizers}
use cloudflare_tunnel_operat.Manager.{CloudflareTunnelManager}
use cloudflare_tunnel_operat.External.{
  CloudflareApi, CloudflareTunnelClient, new_cloudflare_tunnel_client, cloudflare_manager,
}
use cloudflare_tunnel_operat.Ingress.Reconcile.{IngressReconciler}
use cloudflare_tunnel_operat.Tunnel.Client.{CloudflareTunnelReconciler}
use cloudflare_tunnel_operat.Command.Logging.{Logger, create_logger, codes}
use cloudflare_tunnel_operat.Command.Setup.{
  ControllerManager, setup_tunnels, setup_ingresses, setup_webhook,
}

pub record Flags : Type 0 where
  pub metrics_addr : String
  pub probe_addr : String
  pub enable_leader_election : Bool
  pub secure_metrics : Bool
  pub enable_http2 : Bool
  pub log_level : String
  pub log_type : String

abbrev pub default_flags : Flags
default_flags = record {
  metrics_addr = "0";
  probe_addr = ":8081";
  enable_leader_election = true;
  secure_metrics = true;
  enable_http2 = false;
  log_level = "info";
  log_type = "json";
}

pub record Config : Type 0 where
  pub cloudflare_api_token : String
  pub cloudflare_account_id : String
  pub cloudflare_zone_id : String
  pub enable_webhooks : Bool

-- func(*tls.Config), which sets NextProtos.
pub data TlsOption : Type 0 where
  disable_http2 : TlsOption

abbrev pub next_protos : List TlsOption → List String → List String
next_protos [] protos = protos
next_protos (disable_http2 ∷ os) protos = next_protos os ("http/1.1" ∷ [])

-- `filter_provider` is FilterProvider = filters.WithAuthenticationAndAuthorization.
pub record MetricsOptions : Type 0 where
  pub bind_address : String
  pub secure_serving : Bool
  pub tls_opts : List TlsOption
  pub filter_provider : Bool

pub record ManagerOptions : Type 0 where
  pub metrics : MetricsOptions
  pub webhook_tls_opts : List TlsOption
  pub health_probe_bind_address : String
  pub leader_election : Bool
  pub leader_election_id : String

abbrev tls_opts : Flags → List TlsOption
tls_opts f = if f.enable_http2 then [] else disable_http2 ∷ []

unfoldable pub manager_options : Flags → ManagerOptions
manager_options f = record {
  metrics = record {
    bind_address = f.metrics_addr;
    secure_serving = f.secure_metrics;
    tls_opts = tls_opts f;
    filter_provider = f.secure_metrics;
  };
  webhook_tls_opts = tls_opts f;
  health_probe_bind_address = f.probe_addr;
  leader_election = f.enable_leader_election;
  leader_election_id = "c770d844.cf-tunnel-operator.walnuts.dev";
}

-- flag.Parse over the defaults, or the code with which it ends the process; SetDefault and the two
-- SetLogger; env.Parse; GetConfigOrDie and NewManager; cloudflare.NewWithAPIToken; SecureString of
-- random.NewSecure.
pub record Runtime (W : Type 0) : Type 0 where
  pub parse_flags : Flags → W → (Flags ⊎ ℕ) × W
  pub set_logger : Logger → Exec W (Unit {0})
  pub parse_env : Exec W Config
  pub new_manager : ManagerOptions → Exec W (ControllerManager W)
  pub new_with_api_token : String → Result (CloudflareApi W)
  pub random : ℕ → String → Exec W String

-- How the process ends: main returns, os.Exit, or a panic.
pub data Ending : Type 0 where
  returned : Ending
  exited : ℕ → Ending
  panicked : String → Ending

-- Every error is logged and followed by os.Exit(1).
abbrev pub ending : Result (Unit {0}) → Ending
ending (ok _) = returned
ending (err e) = exited 1
ending (panic m) = panicked m

abbrev pub tunnel_reconciler :
    {W : Type 0} → ControllerManager W → CloudflareTunnelManager W → CloudflareTunnelReconciler W
tunnel_reconciler G M = record {
  client = G.tunnel_client;
  manager = M;
  library = G.library;
  finalizers = G.finalizers;
}

abbrev pub ingress_reconciler :
    {W : Type 0} → ControllerManager W → CloudflareTunnelManager W → IngressReconciler W
ingress_reconciler G M = record {
  client = G.ingress_client;
  manager = M;
  finalizers = G.finalizers;
  parse_addr = G.parse_addr;
}

module _ {W : Type 0} where
  -- From the client on to the end.
  unfoldable pub serve :
      ControllerManager W → CloudflareTunnelManager W → Config → Exec W (Unit {0})
  serve G M cfg = do
    setup_tunnels G (tunnel_reconciler G M)
    setup_ingresses G (ingress_reconciler G M)
    if cfg.enable_webhooks then setup_webhook G else pure tt
    G.add_healthz_check "healthz"
    G.add_readyz_check "readyz"
    G.start

  unfoldable pub run : Runtime W → Flags → Exec W (Unit {0})
  unfolding serve
  run R f = do
    R.set_logger (create_logger (codes f.log_level) (codes f.log_type))
    cfg ← R.parse_env
    G ← R.new_manager (manager_options f)
    client ← lift (
        new_cloudflare_tunnel_client R.new_with_api_token cfg.cloudflare_api_token
          cfg.cloudflare_account_id cfg.cloudflare_zone_id R.random)
    serve G (cloudflare_manager client) cfg

  abbrev pub ending_of : Result (Unit {0}) × W → Ending × W
  ending_of (r, w) = (ending r, w)

  abbrev run_or_exit : Runtime W → (Flags ⊎ ℕ) × W → Ending × W
  run_or_exit R (inl f, w) = ending_of (run R f w)
  run_or_exit R (inr code, w) = (exited code, w)

  unfoldable pub main : Runtime W → W → Ending × W
  main R w = run_or_exit R (R.parse_flags default_flags w)
