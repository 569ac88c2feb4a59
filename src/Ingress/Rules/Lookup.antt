-- ===== src/Ingress/Rules/Lookup.antt =====
-- Which rule the maps of rules hold for a hostname: the last one that was written.
use cloudflare_tunnel_operat.Base.{
  String, ◌≡◌, refl, Bool, false, Option, none, some, List, [], ◌∷◌, ◌==◌, eq_iff, arith, any,
  if◌then◌else◌,
}
use cloudflare_tunnel_operat.Base.Dict.{
  Dict, lookup, put, delete, lookup-put, lookup-delete, NodupKeys, put-NodupKeys, delete-NodupKeys,
}
use cloudflare_tunnel_operat.Api.{CloudflareTunnelSettings}
use cloudflare_tunnel_operat.Domain.{IngressRule}
use cloudflare_tunnel_operat.Ingress.Hosts.{Host}
use cloudflare_tunnel_operat.Ingress.Rules.{
  refresh, host_rule, collect_rules, put_hosts, delete_hosts,
}
use cloudflare_tunnel_operat.Ingress.Rules.Order.{find_rule, IsSorted, Keyed, find_none, find_rule}

abbrev pub or_else {ℓ} : {A : Type ℓ} → Option A → Option A → Option A
or_else (some a) b = some a
or_else none b = b

-- The last rule of a hostname, and the last host of that name.
unfoldable pub last_rule : String → List IngressRule → Option IngressRule
last_rule h [] = none
last_rule h (r ∷ rs) = or_else (last_rule h rs) (if r.hostname == h then some r else none)

unfoldable pub last_host : String → List Host → Option Host
last_host h [] = none
last_host h (x ∷ xs) = or_else (last_host h xs) (if x.host == h then some x else none)

abbrev pub map_option {ℓ κ} : {A : Type ℓ} {B : Type κ} → (A → B) → Option A → Option B
map_option f none = none
map_option f (some a) = some (f a)

-- In a sorted list a hostname has one rule.
pub last-find : (h : String) (rs : List IngressRule) → IsSorted rs → last_rule h rs ≡ find_rule h rs
unfolding last_rule find_rule
last-find h [] s = refl
last-find h (r ∷ rs) s = ground (arith, last-find h rs s.1, find_none r rs s.0, eq_iff r.hostname h)

module _ (s : CloudflareTunnelSettings) where
  pub lookup-collect_rules :
      (h : String) (rs : List IngressRule) (m : Dict IngressRule)
      → lookup h (collect_rules s rs m)
        ≡ or_else (map_option (refresh s) (last_rule h rs)) (lookup h m)
  unfolding collect_rules last_rule
  lookup-collect_rules h [] m = refl
  lookup-collect_rules h (r ∷ rs) m = ground (
    arith,
    lookup-collect_rules h rs (put r.hostname (refresh s r) m),
    lookup-put r.hostname h (refresh s r) m,
  )

  pub lookup-put_hosts :
      (ip : String) (h : String) (hs : List Host) (m : Dict IngressRule)
      → lookup h (put_hosts s ip hs m)
        ≡ or_else (map_option (host_rule s ip) (last_host h hs)) (lookup h m)
  unfolding put_hosts last_host
  lookup-put_hosts ip h [] m = refl
  lookup-put_hosts ip h (x ∷ xs) m = ground (
    arith,
    lookup-put_hosts ip h xs (put x.host (host_rule s ip x) m),
    lookup-put x.host h (host_rule s ip x) m,
  )

-- The hosts name this one.
abbrev pub names : List Host → String → Bool
names hs h = any (λ x. x.host == h) hs

pub lookup-delete_hosts :
    (h : String) (hs : List Host) (m : Dict IngressRule)
    → lookup h (delete_hosts hs m) ≡ (if names hs h then none else lookup h m)
unfolding delete_hosts
lookup-delete_hosts h [] m = refl
lookup-delete_hosts h (x ∷ xs) m =
    ground (arith, lookup-delete_hosts h xs (delete x.host m), lookup-delete x.host h m)

pub last_host-none : (h : String) (hs : List Host) → names hs h ≡ false → last_host h hs ≡ none
unfolding last_host
last_host-none h [] e = refl
last_host-none h (x ∷ xs) e = ground (arith, last_host-none h xs)

-- What the maps keep: every rule stands under its hostname, and no hostname twice.
abbrev pub IsMap : Dict IngressRule → Type 0
IsMap m = Keyed m × NodupKeys m

Keyed-put :
    (k : String) (r : IngressRule) (m : Dict IngressRule)
    → r.hostname ≡ k
    → Keyed m
    → Keyed (put k r m)
unfolding put
Keyed-put k r [] e h = (e, tt)
Keyed-put k r ((j, x) ∷ m) e h = ground (arith, Keyed-put k r m e h.1)

Keyed-delete : (k : String) (m : Dict IngressRule) → Keyed m → Keyed (delete k m)
unfolding delete
Keyed-delete k [] h = tt
Keyed-delete k ((j, x) ∷ m) h = ground (arith, Keyed-delete k m h.1)

pub put-IsMap :
    (k : String) (r : IngressRule) (m : Dict IngressRule)
    → r.hostname ≡ k
    → IsMap m
    → IsMap (put k r m)
put-IsMap k r m e h = (Keyed-put k r m e h.0, put-NodupKeys k r m h.1)

pub collect_rules-IsMap :
    (s : CloudflareTunnelSettings) (rs : List IngressRule) (m : Dict IngressRule)
    → IsMap m
    → IsMap (collect_rules s rs m)
unfolding collect_rules
collect_rules-IsMap s [] m h = h
collect_rules-IsMap s (r ∷ rs) m h =
    collect_rules-IsMap s rs _ (put-IsMap r.hostname (refresh s r) m refl h)

pub put_hosts-IsMap :
    (s : CloudflareTunnelSettings) (ip : String) (hs : List Host) (m : Dict IngressRule)
    → IsMap m
    → IsMap (put_hosts s ip hs m)
unfolding put_hosts
put_hosts-IsMap s ip [] m h = h
put_hosts-IsMap s ip (x ∷ xs) m h =
    put_hosts-IsMap s ip xs _ (put-IsMap x.host (host_rule s ip x) m refl h)

pub delete_hosts-IsMap :
    (hs : List Host) (m : Dict IngressRule) → IsMap m → IsMap (delete_hosts hs m)
unfolding delete_hosts
delete_hosts-IsMap [] m h = h
delete_hosts-IsMap (x ∷ xs) m h =
    delete_hosts-IsMap xs _ (Keyed-delete x.host m h.0, delete-NodupKeys x.host m h.1)
