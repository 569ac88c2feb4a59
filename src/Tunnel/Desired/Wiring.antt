-- ===== src/Tunnel/Desired/Wiring.antt =====
-- How the objects of one CloudflareTunnel refer to one another.
use cloudflare_tunnel_operat.Base.{String, ◌≡◌, refl, Option, none, some, [], ◌∷◌, map}
use cloudflare_tunnel_operat.Base.Dict.{Dict, lookup}
use cloudflare_tunnel_operat.Api.{CloudflareTunnel}
use cloudflare_tunnel_operat.Tunnel.Objects.{OwnerReference, ServiceMonitor, from_secret, given_env}
use cloudflare_tunnel_operat.Tunnel.Desired.{
  key_of, app_labels, tunnel_token_key, desired_secret, desired_deployment, desired_service,
}

-- A matchLabels selector on an object's labels.
abbrev pub Selects : Dict String → Dict String → Type 0
Selects selector labels = (k v : String) → lookup k selector ≡ some v → lookup k labels ≡ some v

-- What the pods of a tunnel need: the deployment and the service select the pods that the template
-- makes, the service's port is the container's, and the container reads the token from the key
-- under which the secret holds it.
pub record IsWired (t : CloudflareTunnel) (owner : OwnerReference) (token : String) : Type 0 where
  pub deployment_selects :
      Selects
        (desired_deployment t owner (key_of t)).selector
        (desired_deployment t owner (key_of t)).template_labels
  pub service_selects :
      Selects
        (desired_service t owner).selector
        (desired_deployment t owner (key_of t)).template_labels
  pub same_port :
      (desired_service t owner).target_port
      ≡ (desired_deployment t owner (key_of t)).pod.container.port_name
  pub probe_port :
      (desired_deployment t owner (key_of t)).pod.container.liveness_probe.port
      ≡ (desired_deployment t owner (key_of t)).pod.container.port_name
  pub secret_key : String
  pub token_env :
      (desired_deployment t owner (key_of t)).pod.container.env
      ≡ from_secret "TUNNEL_TOKEN" (desired_secret t owner token).meta.key.name secret_key
        ∷ map given_env t.spec.extra_env
  pub token_stored : lookup secret_key (desired_secret t owner token).secret_data ≡ some token

-- The objects that a CloudflareTunnel asks for are wired, whatever its spec says.
pub desired-IsWired :
    (t : CloudflareTunnel) (owner : OwnerReference) (token : String) → IsWired t owner token
unfolding desired_deployment desired_service desired_secret lookup
desired-IsWired t owner token = record {
  deployment_selects = λ k v h. h;
  service_selects = λ k v h. h;
  same_port = refl;
  probe_port = refl;
  secret_key = tunnel_token_key;
  token_env = refl;
  token_stored = refl;
}

abbrev match_of : Option (Dict String) → Dict String
match_of none = []
match_of (some m) = m

pub record IsMonitored (t : CloudflareTunnel) (owner : OwnerReference) (sm : ServiceMonitor)
    : Type 0 where
  pub selector : Dict String
  pub given_selector : sm.match_labels ≡ some selector
  pub selects : Selects selector (desired_service t owner).meta.labels
  pub covers : Selects (app_labels t) selector
