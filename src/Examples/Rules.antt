-- ===== src/Examples/Rules.antt =====
-- Adding hosts to a tunnel's rules and taking them out, at a small configuration.
use cloudflare_tunnel_operat.Base.{
  String, ◌≡◌, refl, true, false, none, some, List, [], ◌∷◌, ◌<>◌, ◌==◌, eq_iff, arith, ◌↔◌,
  if◌then◌else◌,
}
use cloudflare_tunnel_operat.Base.Dict.{Dict, put, lookup}
use cloudflare_tunnel_operat.Base.Int.{pos, negsuc}
use cloudflare_tunnel_operat.Base.Value.{null}
use cloudflare_tunnel_operat.Api.{CloudflareTunnelSettings}
use cloudflare_tunnel_operat.Domain.{IngressRule, TunnelConfiguration, to_origin_request_config}
use cloudflare_tunnel_operat.Domain.Duration.{nanoseconds, timeouts_exact}
use cloudflare_tunnel_operat.Ingress.Hosts.{
  Host, IngressSpec, Describes, get_hosts, get_hosts-Describes, create_endpoint, check_tls,
  collect_tls_hosts,
}
use cloudflare_tunnel_operat.Ingress.Annotations.{
  detect_cloudflare_tunnel_name, cf_tunnel_annotation, check_to_be_ignored, ignore_annotation,
}
use cloudflare_tunnel_operat.Ingress.Annotations.Names.{has_slash, detect_exact}
use cloudflare_tunnel_operat.Base.Exec.{ok}
use cloudflare_tunnel_operat.Ingress.Rules.{
  refresh, host_rule, catch_all, append_rules, remove_rules, comes_before,
}
use cloudflare_tunnel_operat.Ingress.Rules.Order.{find_rule}
use cloudflare_tunnel_operat.Ingress.Rules.Lookup.{or_else, map_option, last_rule, last_host, names}
use cloudflare_tunnel_operat.Ingress.Rules.Config.{find-append_rules, find-remove_rules}
use cloudflare_tunnel_operat.Ingress.Rules.Laws.{
  IsAccepted, append_rules-IsAccepted, remove_rules-IsAccepted, remove_rules-append_rules,
  append_rules_comm,
}

abbrev pub settings : CloudflareTunnelSettings
settings = record {
  name_override = "";
  catch_all_rule = "CatchAll";
  ca_pool = none;
  no_tls_verify = false;
  tls_timeout_seconds = pos 10;
  http2_origin = false;
  disable_chunked_encoding = false;
  connect_timeout_seconds = negsuc 2147483647;
  no_happy_eyeballs = false;
  proxy_type = "";
  keep_alive_timeout_seconds = pos 90;
  keep_alive_connections = pos 100;
}

abbrev old_rule : String → String → IngressRule
old_rule h s = record { hostname = h; path = ""; service = s; origin_request = none }

-- The configuration of the test TestIngressReconciler_updateCloudflareTunnelConfig.
abbrev pub config : TunnelConfiguration
config = record {
  ingress =
      old_rule "example1.walnuts.dev" "https://example1:80"
      ∷ old_rule "example2.walnuts.dev" "https://example2:80"
      ∷ old_rule "" "CatchAll"
      ∷ [];
  unread = null;
}

abbrev third : List Host
third = record { host = "example3.walnuts.dev"; tls = true } ∷ []

abbrev first : List Host
first = record { host = "example1.walnuts.dev"; tls = false } ∷ []

abbrev services : List IngressRule → List (String × String)
services [] = []
services (r ∷ rs) = (r.hostname, r.service) ∷ services rs

-- The expectation of that test.
append_test :
    services (append_rules settings "192.168.0.1" third config).ingress
    ≡ ("example1.walnuts.dev", "https://example1:80")
      ∷ ("example2.walnuts.dev", "https://example2:80")
      ∷ ("example3.walnuts.dev", "https://192.168.0.1:443")
      ∷ ("", "CatchAll")
      ∷ []
unfolding append_rules comes_before put create_endpoint
append_test = refl

find-append_rules_example :
    find_rule "example1.walnuts.dev" (append_rules settings "192.168.0.1" first config).ingress ≡ (
      if "" == "example1.walnuts.dev"
      then some (catch_all settings)
      else or_else
          (map_option (host_rule settings "192.168.0.1") (last_host "example1.walnuts.dev" first))
          (map_option (refresh settings) (last_rule "example1.walnuts.dev" config.ingress)))
find-append_rules_example =
    find-append_rules settings "192.168.0.1" first config "example1.walnuts.dev"

find-remove_rules_example :
    find_rule "example1.walnuts.dev" (remove_rules settings first config).ingress ≡ (
      if "" == "example1.walnuts.dev"
      then some (catch_all settings)
      else if names first "example1.walnuts.dev"
      then none
      else map_option (refresh settings) (last_rule "example1.walnuts.dev" config.ingress))
find-remove_rules_example = find-remove_rules settings first config "example1.walnuts.dev"

append_rules-IsAccepted_example :
    IsAccepted (catch_all settings) (append_rules settings "192.168.0.1" third config).ingress
append_rules-IsAccepted_example = append_rules-IsAccepted settings "192.168.0.1" third config

remove_rules-IsAccepted_example :
    IsAccepted (catch_all settings) (remove_rules settings first config).ingress
remove_rules-IsAccepted_example = remove_rules-IsAccepted settings first config

remove_rules-append_rules_example :
    remove_rules settings third (append_rules settings "192.168.0.1" third config)
    ≡ remove_rules settings third config
remove_rules-append_rules_example = remove_rules-append_rules settings "192.168.0.1" third config

apart : (h : String) → names first h ≡ true → names third h ≡ false
apart h e = ground (
  arith,
  eq_iff "example1.walnuts.dev" h,
  eq_iff "example3.walnuts.dev" h,
  eq_iff "example1.walnuts.dev" "example3.walnuts.dev",
)

append_rules_comm_example :
    append_rules settings "10.0.0.1" first (append_rules settings "10.0.0.2" third config)
    ≡ append_rules settings "10.0.0.2" third (append_rules settings "10.0.0.1" first config)
append_rules_comm_example =
    append_rules_comm settings "10.0.0.1" "10.0.0.2" first third config apart

timeouts_exact_example :
    ((to_origin_request_config settings "a").tls_timeout ≡ nanoseconds (pos 10))
    × ((to_origin_request_config settings "a").connect_timeout ≡ nanoseconds (negsuc 2147483647))
    × ((to_origin_request_config settings "a").keep_alive_timeout ≡ nanoseconds (pos 90))
    × ((to_origin_request_config settings "a").http_host_header ≡ "a")
    × ((to_origin_request_config settings "a").origin_server_name ≡ "a")
timeouts_exact_example = timeouts_exact settings "a" (omega arith) (omega arith) (omega arith)

-- The input of the test Test_getHosts.
abbrev spec : IngressSpec
spec = record {
  tls =
      record { hosts = "example.com" ∷ [] }
      ∷ record { hosts = "example1.walnuts.dev" ∷ [] }
      ∷ record { hosts = "test.example2.walnuts.dev" ∷ [] }
      ∷ [];
  rules = "example1.walnuts.dev" ∷ "example2.walnuts.dev" ∷ [];
}

get_hosts_test :
    get_hosts spec
    ≡ record { host = "example1.walnuts.dev"; tls = true }
      ∷ record { host = "example2.walnuts.dev"; tls = false }
      ∷ []
unfolding get_hosts check_tls collect_tls_hosts
get_hosts_test = refl

get_hosts-Describes_example : Describes spec.tls spec.rules (get_hosts spec)
get_hosts-Describes_example = get_hosts-Describes spec

abbrev annotations : Dict String
annotations = (cf_tunnel_annotation, "web/tunnel") ∷ []

detect_exact_example :
    (detect_cloudflare_tunnel_name annotations ≡ ok (record { namespace = "web"; name = "tunnel" }))
    ↔ ((◌≡◌ {A = String} "web/tunnel" ("web" <> ("/" <> "tunnel")))
        × (has_slash "web" ≡ false)
        × (has_slash "tunnel" ≡ false))
unfolding lookup
detect_exact_example =
    detect_exact annotations "web/tunnel" (record { namespace = "web"; name = "tunnel" }) refl refl

-- A part may be empty: such a text names the default tunnel to the caller.
half_name :
    detect_cloudflare_tunnel_name ((cf_tunnel_annotation, "web/") ∷ [])
    ≡ ok (record { namespace = "web"; name = "" })
unfolding detect_cloudflare_tunnel_name
half_name = refl

ignored_test :
    (check_to_be_ignored ((ignore_annotation, "true") ∷ []) ≡ true)
    × (check_to_be_ignored ((ignore_annotation, "FALSE") ∷ []) ≡ false)
    × (check_to_be_ignored ((ignore_annotation, "0") ∷ []) ≡ false)
    × (check_to_be_ignored ((ignore_annotation, "") ∷ []) ≡ true)
    × (check_to_be_ignored [] ≡ false)
unfolding check_to_be_ignored
ignored_test = (refl, refl, refl, refl, refl)
