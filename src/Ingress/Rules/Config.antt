-- ===== src/Ingress/Rules/Config.antt =====
-- What a tunnel's configuration is after hosts were added to it or taken out of it.
use cloudflare_tunnel_operat.Base.{
  String, ◌≡◌, refl, ◌∙◌, none, some, List, [], ◌==◌, arith, if◌then◌else◌,
}
use cloudflare_tunnel_operat.Base.Dict.{Dict, lookup, put, lookup-put}
use cloudflare_tunnel_operat.Api.{CloudflareTunnelSettings}
use cloudflare_tunnel_operat.Domain.{IngressRule, TunnelConfiguration}
use cloudflare_tunnel_operat.Ingress.Hosts.{Host}
use cloudflare_tunnel_operat.Ingress.Rules.{
  refresh, host_rule, catch_all, collect_rules, put_hosts, delete_hosts, sorted_values,
  append_rules, remove_rules,
}
use cloudflare_tunnel_operat.Ingress.Rules.Order.{
  find_rule, IsSorted, find-sorted_values, sorted_values-IsSorted,
}
use cloudflare_tunnel_operat.Ingress.Rules.Lookup.{
  or_else, map_option, last_rule, last_host, names, lookup-collect_rules, lookup-put_hosts,
  lookup-delete_hosts, IsMap, put-IsMap, collect_rules-IsMap, put_hosts-IsMap, delete_hosts-IsMap,
}

module _ (s : CloudflareTunnelSettings) where
  kept : TunnelConfiguration → Dict IngressRule
  kept c = collect_rules s c.ingress []

  kept-IsMap : (c : TunnelConfiguration) → IsMap (kept c)
  unfolding kept
  kept-IsMap c = collect_rules-IsMap s c.ingress [] (tt, tt)

  lookup-kept :
      (h : String) (c : TunnelConfiguration)
      → lookup h (kept c) ≡ map_option (refresh s) (last_rule h c.ingress)
  unfolding kept lookup
  lookup-kept h c = ground (arith, lookup-collect_rules s h c.ingress [])

  -- Both operations end so.
  finish-IsSorted :
      (m : Dict IngressRule) → IsMap m → IsSorted (sorted_values (put "" (catch_all s) m))
  finish-IsSorted m h =
      let g = put-IsMap "" (catch_all s) m refl h in
      sorted_values-IsSorted (put "" (catch_all s) m) g.0 g.1

  find-finish :
      (m : Dict IngressRule) (h : String)
      → IsMap m
      → find_rule h (sorted_values (put "" (catch_all s) m))
        ≡ (if "" == h then some (catch_all s) else lookup h m)
  find-finish m h k =
      let g = put-IsMap "" (catch_all s) m refl k in
      find-sorted_values (put "" (catch_all s) m) h g.0 g.1 ∙ lookup-put "" h (catch_all s) m

  pub append_rules-IsSorted :
      (ip : String) (hosts : List Host) (c : TunnelConfiguration)
      → IsSorted (append_rules s ip hosts c).ingress
  unfolding append_rules kept
  append_rules-IsSorted ip hosts c = finish-IsSorted _ (put_hosts-IsMap s ip hosts _ (kept-IsMap c))

  pub remove_rules-IsSorted :
      (hosts : List Host) (c : TunnelConfiguration) → IsSorted (remove_rules s hosts c).ingress
  unfolding remove_rules kept
  remove_rules-IsSorted hosts c = finish-IsSorted _ (delete_hosts-IsMap hosts _ (kept-IsMap c))

  -- After hosts were added, the rule found for a hostname is the catch-all rule for the empty one,
  -- else the rule of the last added host of that name, else the last old rule of that name with
  -- its path and service and with the origin settings made anew, else none.
  pub find-append_rules :
      (ip : String) (hosts : List Host) (c : TunnelConfiguration) (h : String)
      → find_rule h (append_rules s ip hosts c).ingress ≡ (
          if "" == h
          then some (catch_all s)
          else or_else
              (map_option (host_rule s ip) (last_host h hosts))
              (map_option (refresh s) (last_rule h c.ingress)))
  unfolding append_rules kept
  find-append_rules ip hosts c h = ground (
    arith,
    find-finish (put_hosts s ip hosts (kept c)) h
        (put_hosts-IsMap s ip hosts (kept c) (kept-IsMap c)),
    lookup-put_hosts s ip h hosts (kept c),
    lookup-kept h c,
  )

  -- After hosts were taken out, the rule found for a hostname is the catch-all rule for the empty
  -- one, else none if one of the hosts has that name, else the last old rule of that name with its
  -- path and service and with the origin settings made anew, or none.
  pub find-remove_rules :
      (hosts : List Host) (c : TunnelConfiguration) (h : String)
      → find_rule h (remove_rules s hosts c).ingress ≡ (
          if "" == h
          then some (catch_all s)
          else if names hosts h
          then none
          else map_option (refresh s) (last_rule h c.ingress))
  unfolding remove_rules kept
  find-remove_rules hosts c h = ground (
    arith,
    find-finish (delete_hosts hosts (kept c)) h (delete_hosts-IsMap hosts (kept c) (kept-IsMap c)),
    lookup-delete_hosts h hosts (kept c),
    lookup-kept h c,
  )
