-- ===== src/Examples/Start.antt =====
-- A process that starts on a machine where nothing fails.
use cloudflare_tunnel_operat.Base.{
  String, ◌≡◌, refl, Bool, true, false, List, [], ◌∷◌, ◌++◌, ◌⊎◌, inl, map, ap, sym, ◌∙◌, some,
  subst,
}
use cloudflare_tunnel_operat.Base.Exec.{Exec, Result, ok, err, other, sentinel, not_found}
use cloudflare_tunnel_operat.Cluster.{IngressClient}
use cloudflare_tunnel_operat.Tunnel.Client.{TunnelClient}
use cloudflare_tunnel_operat.External.{
  CloudflareApi, CloudflareTunnelClient, cloudflare_manager, new_cloudflare_tunnel_client,
}
use cloudflare_tunnel_operat.Command.Setup.{
  Builder, Handler, tunnel_handler, ingress_handler, webhook_builder, ControllerManager,
}
use cloudflare_tunnel_operat.Command.{
  Flags, Config, tunnel_reconciler, ingress_reconciler, default_flags, Runtime, returned, ending_of,
  main,
}
use cloudflare_tunnel_operat.Command.Serve.{
  Registration, controller, webhook, healthz, readyz, Stage, IsQuiet, Registers, IsManager,
  IsRuntime,
}
use cloudflare_tunnel_operat.Command.Wired.{IsRunning, main-IsRunning}
use cloudflare_tunnel_operat.Examples.Memory.{finalizers}
use cloudflare_tunnel_operat.Examples.Site.{library}

-- What was asked of the manager, in order.
data Request : Type 0 where
  tunnels ingresses : Builder → Request
  hook : Request
  live ready : String → Request

record Machine : Type 0 where
  requests : List Request
  running : Bool

abbrev offline : {A : Type 0} → Exec Machine A
offline w = (err (other "offline"), w)

abbrev tunnel_client : TunnelClient Machine
tunnel_client = record {
  get_tunnel_resource = λ n. offline;
  update_tunnel = λ t. offline;
  update_tunnel_status = λ t. offline;
  get_secret = λ n. offline;
  get_service = λ n. offline;
  get_deployment = λ n. offline;
  apply_patch = λ v. offline;
  create_or_update_service_monitor = λ sm f. offline;
  create_or_update_pdb = λ pdb f. offline;
}

abbrev ingress_client : IngressClient Machine
ingress_client = record {
  get_ingress = λ n. offline;
  update_ingress = λ i. offline;
  get_cloudflare_tunnel = λ n. offline;
  list_cloudflare_tunnels = λ k v. offline;
}

abbrev api : CloudflareApi Machine
api = record {
  create_tunnel = λ a p. offline;
  delete_tunnel = λ a t. offline;
  get_tunnel = λ a t. offline;
  get_tunnel_token = λ a t. offline;
  get_tunnel_configuration = λ a t. offline;
  update_tunnel_configuration = λ a t c. offline;
  create_dns_record = λ z p. offline;
  update_dns_record = λ z i p. offline;
  delete_dns_record = λ z i. offline;
  list_dns_records = λ z p. offline;
}

abbrev asked : Request → Exec Machine (Unit {0})
asked r w = (ok tt, record w { requests = w.requests ++ r ∷ [] })

abbrev request_of : Builder → Handler Machine → Request
request_of b (tunnel_handler r) = tunnels b
request_of b (ingress_handler r) = ingresses b

-- A cluster without ServiceMonitors.
abbrev controllers : ControllerManager Machine
controllers = record {
  tunnel_client = tunnel_client;
  ingress_client = ingress_client;
  library = library;
  finalizers = finalizers;
  parse_addr = λ s. some s;
  get_crd = λ n w. (err (sentinel not_found), w);
  complete = λ b h. asked (request_of b h);
  complete_webhook = λ b. asked hook;
  add_healthz_check = λ n. asked (live n);
  add_readyz_check = λ n. asked (ready n);
  start = λ w. (ok tt, record w { running = true });
}

abbrev config : Config
config = record {
  cloudflare_api_token = "token";
  cloudflare_account_id = "account";
  cloudflare_zone_id = "zone";
  enable_webhooks = true;
}

abbrev machine : Runtime Machine
machine = record {
  parse_flags = λ f w. (inl f, w);
  set_logger = λ l w. (ok tt, w);
  parse_env = λ w. (ok config, w);
  new_manager = λ o w. (ok controllers, w);
  new_with_api_token = λ t. ok api;
  random = λ n s. offline;
}

abbrev client : CloudflareTunnelClient Machine
client = record { api = api; account_id = "account"; zone_id = "zone"; random = λ n s. offline }

abbrev meaning : Request → Registration Machine
meaning (tunnels b) =
    controller b (tunnel_handler (tunnel_reconciler controllers (cloudflare_manager client)))
meaning (ingresses b) =
    controller b (ingress_handler (ingress_reconciler controllers (cloudflare_manager client)))
meaning hook = webhook (webhook_builder controllers)
meaning (live n) = healthz n
meaning (ready n) = readyz n

abbrev stage : Stage Machine
stage = record { registered = λ w. map meaning w.requests; started = λ w. w.running }

ok_eq {ℓ} : {A : Type ℓ} {a b : A} → ok a ≡ ok b → a ≡ b
ok_eq h = cc

map_append :
    (rs : List Request) (r : Request)
    → map meaning (rs ++ r ∷ []) ≡ map meaning rs ++ meaning r ∷ []
map_append [] r = refl
map_append (x ∷ rs) r = ap (◌∷◌ (meaning x)) (map_append rs r)

asks : (r : Request) → Registers stage (meaning r) (asked r)
asks r = record {
  added = λ w w' h.
      sym (ap (λ (p : Result (Unit {0}) × Machine). map meaning p.1.requests) h)
      ∙ map_append w.requests r;
  not_started = record { same = λ w. refl };
}

quiet : {A : Type 0} (a : Result A) → IsQuiet stage {A = A} (λ w. (a, w))
quiet a = record {
  same_registered = record { same = λ w. refl };
  same_started = record { same = λ w. refl };
}

honest : IsManager stage controllers (cloudflare_manager client)
honest = record {
  get_crd = λ n. quiet (err (sentinel not_found));
  complete_tunnels = λ b. asks (tunnels b);
  complete_ingresses = λ b. asks (ingresses b);
  complete_webhook = asks hook;
  add_healthz_check = λ n. asks (live n);
  add_readyz_check = λ n. asks (ready n);
}

made :
    (v w w' : Machine) (G : ControllerManager Machine) (cfg : Config)
    → (c : CloudflareTunnelClient Machine) → (machine.parse_env v).0 ≡ ok cfg
    → ◌≡◌ {A = Result (ControllerManager Machine) × Machine} (ok controllers, w) (ok G, w')
    → new_cloudflare_tunnel_client machine.new_with_api_token cfg.cloudflare_api_token
        cfg.cloudflare_account_id cfg.cloudflare_zone_id machine.random
      ≡ ok c
    → IsManager stage G (cloudflare_manager c)
unfolding new_cloudflare_tunnel_client
made v w w' G cfg c e g h =
    let h' =
      subst
        (λ (x : Config).
          new_cloudflare_tunnel_client machine.new_with_api_token x.cloudflare_api_token
            x.cloudflare_account_id x.cloudflare_zone_id machine.random
          ≡ ok c)
        (sym (ok_eq e)) h in
    subst (λ (x : CloudflareTunnelClient Machine). IsManager stage G (cloudflare_manager x))
      (ok_eq h')
      (subst (λ (x : ControllerManager Machine). IsManager stage x (cloudflare_manager client))
        (ok_eq (ap (λ (p : Result (ControllerManager Machine) × Machine). p.0) g)) honest)

lawful : IsRuntime stage machine
lawful = record {
  parse_flags = λ f w. (refl, refl);
  set_logger = λ l. quiet (ok tt);
  parse_env = quiet (ok config);
  new_manager = λ o. quiet (ok controllers);
  manager_made = λ o v w w' G cfg c e g h. made v w w' G cfg c e g h;
}

abbrev idle : Machine
idle = record { requests = []; running = false }

main-IsRunning_example :
    ((stage.started (main machine idle).1 ≡ false) × (¬ ((main machine idle).0 ≡ returned)))
    ⊎ ((f : Flags) × ((machine.parse_flags default_flags idle).0 ≡ inl f)
        × (p : Result (Unit {0}) × Machine) × IsRunning stage machine f p
        × (main machine idle ≡ ending_of p))
main-IsRunning_example = main-IsRunning stage machine idle lawful refl refl
