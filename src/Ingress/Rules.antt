-- ===== src/Ingress/Rules.antt =====
-- The rules of a tunnel's configuration: how `appendCloudflareTunnelConfig` and
-- `removeCloudflareTunnelConfig` of internal/controller/ingress_watcher.go compute the new ones.
pub mod Order
pub mod Lookup
pub mod Config
pub mod Laws
use cloudflare_tunnel_operat.Base.{
  String, Bool, List, [], ◌∷◌, none, some, ◌==◌, str_lt, if◌then◌else◌, true, false,
}
use cloudflare_tunnel_operat.Base.Dict.{Dict, put, delete}
use cloudflare_tunnel_operat.Api.{CloudflareTunnelSettings}
use cloudflare_tunnel_operat.Domain.{IngressRule, TunnelConfiguration, to_origin_request_config}
use cloudflare_tunnel_operat.Ingress.Hosts.{Host, create_endpoint}

-- `rules[rule.Hostname] = ...` for the rules that are there: the origin settings are made anew.
abbrev pub refresh : CloudflareTunnelSettings → IngressRule → IngressRule
refresh s rule = record rule { origin_request = some (to_origin_request_config s rule.hostname) }

unfoldable pub collect_rules :
    CloudflareTunnelSettings → List IngressRule → Dict IngressRule → Dict IngressRule
collect_rules s [] m = m
collect_rules s (rule ∷ rules) m = collect_rules s rules (put rule.hostname (refresh s rule) m)

abbrev pub host_rule : CloudflareTunnelSettings → String → Host → IngressRule
host_rule s ip h = record {
  hostname = h.host;
  path = "";
  service = create_endpoint ip h.tls;
  origin_request = some (to_origin_request_config s h.host);
}

unfoldable pub put_hosts :
    CloudflareTunnelSettings → String → List Host → Dict IngressRule → Dict IngressRule
put_hosts s ip [] m = m
put_hosts s ip (h ∷ hs) m = put_hosts s ip hs (put h.host (host_rule s ip h) m)

unfoldable pub delete_hosts : List Host → Dict IngressRule → Dict IngressRule
delete_hosts [] m = m
delete_hosts (h ∷ hs) m = delete_hosts hs (delete h.host m)

abbrev pub catch_all : CloudflareTunnelSettings → IngressRule
catch_all s = record { hostname = ""; path = ""; service = s.catch_all_rule; origin_request = none }

-- The comparison of slices.SortedFunc answers a negative number.
unfoldable pub comes_before : IngressRule → IngressRule → Bool
comes_before a b =
    if a.hostname == ""
    then false
    else if b.hostname == ""
    then true
    else str_lt a.hostname b.hostname

-- slices.SortedFunc over maps.Values. Any sorting gives the one sorted list, since the hostnames
-- differ (Order.Sorted_ext).
unfoldable pub insert_rule : IngressRule → List IngressRule → List IngressRule
insert_rule x [] = x ∷ []
insert_rule x (y ∷ ys) = if comes_before x y then x ∷ y ∷ ys else y ∷ insert_rule x ys

unfoldable pub sorted_values : Dict IngressRule → List IngressRule
unfolding insert_rule
sorted_values [] = []
sorted_values ((k, rule) ∷ m) = insert_rule rule (sorted_values m)

unfoldable pub append_rules :
    CloudflareTunnelSettings → String → List Host → TunnelConfiguration → TunnelConfiguration
unfolding collect_rules put_hosts sorted_values
append_rules s ip hosts config = record config {
  ingress =
      sorted_values
        (put "" (catch_all s) (put_hosts s ip hosts (collect_rules s config.ingress [])));
}

unfoldable pub remove_rules :
    CloudflareTunnelSettings → List Host → TunnelConfiguration → TunnelConfiguration
unfolding collect_rules delete_hosts sorted_values
remove_rules s hosts config = record config {
  ingress =
      sorted_values (put "" (catch_all s) (delete_hosts hosts (collect_rules s config.ingress [])));
}
