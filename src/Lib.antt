-- ===== src/Lib.antt =====
-- cloudflare-tunnel-operator: a Kubernetes operator that keeps Cloudflare tunnels, the pods that
-- serve them, and the rules and DNS records that lead the hosts of Ingresses to them.
--
-- Parts. Two controllers run under controller-runtime. The controller of CloudflareTunnels makes a
-- tunnel, stores its token in a secret, and applies the deployment, service, service monitor and
-- disruption budget of the pods. The controller of Ingresses takes the hosts of an Ingress, finds
-- the tunnel that its annotation names (or the default one), and writes the tunnel's rules and one
-- DNS record for each host. Both reach Cloudflare through the interface CloudflareTunnelManager,
-- which the Cloudflare client implements, and Kubernetes through the API server. A webhook labels
-- the default tunnel, which is how the controller of Ingresses finds it.
--
-- Files.
--   Base              texts, maps, machine integers, JSON values; Base/Exec: code that changes a
--                     world and may fail, with the sentinel errors and the two ways to wrap errors;
--                     Base/Keeps: code that leaves a part of the world alone; Base/Ends: how code
--                     ends, with a value, with an error where one is allowed, never with a panic
--   Api               api/v1beta1/cloudflaretunnel_types.go. ApplyConfiguration:
--                     api/v1beta1/apply_configuration.go, on a heap. DeepCopy:
--                     api/v1beta1/zz_generated.deepcopy.go, on a memory of typed cells;
--                     DeepCopy/Copier, Parts, Wrapped, Resource, Whole: what it is to copy, from a
--                     pointer to a whole resource; DeepCopy/Detached: copies
--                     and the memory of the original
--   Domain            pkg/domain/entity.go, pkg/domain/origin_request_config.go
--   Manager           internal/controller/external.go; Manager/Views: the laws of the interface, in
--                     terms of what the Cloudflare side of a world shows
--   Cluster           the API server as the controller of Ingresses uses it
--   Ingress           internal/controller/ingress_watcher.go. Hosts: getHosts, createEndpoint.
--                     Annotations: detectCloudflareTunnelName, checkToBeIgnored. Rules: the map of
--                     rules, its sorting and the new configuration. Sync: the four functions that
--                     write rules and records. Lock: the workers and the mutex `mu`. Reconcile:
--                     Reconcile, finalizeIngress, getCloudflareTunnel; Reconcile/Ends,
--                     Reconcile/Total: how a reconcile ends
--   Tunnel            internal/controller/cloudflaretunnel_controller.go. Objects, Desired: the
--                     objects that are asked for. Client: the API server and the library functions.
--                     Provision: reconcileTunnel. Apply: reconcileSecret, reconcileDeployment,
--                     reconcileService, reconcileServiceMonitor, reconcilePDB; Apply/Live,
--                     Apply/Lands: what was last applied to each object. Status: updateStatus.
--                     Reconcile: Reconcile; Reconcile/Deployed: a whole reconcile on the cluster
--   External          pkg/external/cloudflare.go; External/Comment: the comment of a DNS record;
--                     External/Zone: what the HTTP API promises of a zone
--   Random            pkg/utils/random/random.go
--   Webhook           internal/webhook/v1beta1/cloudflaretunnel_webhook.go
--   Together          the controller of Ingresses with the Cloudflare client as its manager
--   Command           cmd/main.go. Logging: createLogger. Setup: SetupWithManager of both controllers
--                     and SetupCloudflareTunnelWebhookWithManager. Serve, Wired: what is registered
--                     when the process starts
--   Gomega            pkg/gomega/have_fields.go, with no theorem but the tests
--   Examples          worlds in memory, and each theorem with hypotheses at one run
--
-- State. The world is a parameter W: every call of the API server or of the HTTP API takes a world
-- to an answer and a new world, and may answer any error or panic. A handler is such a call itself,
-- so what was done before an error stays done. Ingress/Lock has the workers of the controller of
-- Ingresses as a step relation, with the mutex that they share; a theorem on a whole reconcile is on
-- one that nothing interrupts.
--
-- Loops are structural recursion over lists, so no fuel is needed. Seconds are turned to
-- nanoseconds in 64 bits with the wrap-around written out. A map is an association list; the order
-- in which Go walks a map shows nowhere but in the rules, which are sorted.
--
-- Empty hostnames. cloudflare-go leaves an empty field out of a query, so GetDNS of an empty hostname
-- lists the CNAME records of the whole zone (`given` in External). External.Zone.IsLawfulApi says
-- nothing of that list, and the laws of the manager are relative to the hostnames that it serves: the
-- Cloudflare client serves those that are not empty (Manager.Views.named), and a theorem on an Ingress
-- has the hypothesis that its hosts are served (Ingress.Sync.Correct.AllServed).
--
-- Parameters. controller-runtime's client, manager, finalizer functions and CreateOrUpdate,
-- client-go's conversions and comparisons, meta.SetStatusCondition, netip, the HTTP API of
-- cloudflare-go, the flag and env packages, the bytes of crypto/rand, the numbers of math/rand, what
-- JSON does with client-go's structs, and mergo, gomega.Equal and cmp.Diff. What a theorem relies on
-- is a record of laws:
-- Manager.Views.IsLawful, Ingress.Reconcile.Correct.IsApart, Ingress.Sync.Ends.IsEnding,
-- Ingress.Reconcile.Ends.IsAnswering, Tunnel.Status.Report.IsSetter,
-- Tunnel.Apply.Secrets.IsTyped, Tunnel.Apply.Live.IsFaithful, Tunnel.Apply.Lands.IsReadOnly,
-- Tunnel.Reconcile.Aside.IsAside, External.Zone.IsLawfulApi, External.Cleanup.ListsByComment,
-- Command.Serve.IsManager, Command.Serve.IsRuntime, Api.ApplyConfiguration.Copies.IsRoundTrip,
-- Api.DeepCopy.Wrapped.IsRoundTripOn, Api.DeepCopy.Whole.IsDeep, Random.Drawn.IsBounded.
--
-- Not modelled. Log lines; the registration of types with the scheme; the generated mocks; the
-- transition times of conditions; the shell helpers of the end-to-end tests; the maps and pointers
-- that HaveFields' merged struct shares with the expected one.
-- Third-party values that the operator passes on unread are JSON values.
pub mod Base
pub mod Api
pub mod Domain
pub mod Cluster
pub mod Manager
pub mod Ingress
pub mod Tunnel
pub mod External
pub mod Webhook
pub mod Random
pub mod Together
pub mod Command
pub mod Gomega
pub mod Examples
