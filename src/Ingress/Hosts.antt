-- ===== src/Ingress/Hosts.antt =====
-- The hosts of an Ingress and the endpoint that serves them: `getHosts`, `checkTLS` and
-- `createEndpoint` of internal/controller/ingress_watcher.go.
use cloudflare_tunnel_operat.Base.{
  String, ◌<>◌, ◌≡◌, refl, Bool, true, List, [], ◌∷◌, ◌++◌, ◌==◌, any, arith, if◌then◌else◌,
}
use cloudflare_tunnel_operat.Base.{◌||◌, Bool-cases, ◌↔◌, ◌⊎◌, inl, inr}

-- networkingv1.IngressTLS and IngressRule: the code reads the hosts alone.
pub record IngressTls : Type 0 where
  pub hosts : List String

pub record IngressSpec : Type 0 where
  pub tls : List IngressTls
  pub rules : List String

pub record Host : Type 0 where
  pub host : String
  pub tls : Bool

-- slices.Contains
unfoldable pub check_tls : String → List String → Bool
check_tls host tls_hosts = any (λ h. h == host) tls_hosts

unfoldable pub collect_tls_hosts : List IngressTls → List String
collect_tls_hosts [] = []
collect_tls_hosts (t ∷ ts) = t.hosts ++ collect_tls_hosts ts

hosts_of : List String → List String → List Host
hosts_of [] tls_hosts = []
hosts_of (rule ∷ rules) tls_hosts =
    record { host = rule; tls = check_tls rule tls_hosts } ∷ hosts_of rules tls_hosts

unfoldable pub get_hosts : IngressSpec → List Host
unfolding hosts_of
get_hosts spec = hosts_of spec.rules (collect_tls_hosts spec.tls)

-- netip.Addr.String is the argument.
unfoldable pub create_endpoint : String → Bool → String
create_endpoint ip tls = if tls then "https://" <> ip <> ":443" else "http://" <> ip <> ":80"

-- A host stands in the list of some TLS section.
abbrev pub Covers : List IngressTls → String → Type 0
Covers [] h = ⊥
Covers (t ∷ ts) h = (any (λ x. x == h) t.hosts ≡ true) ⊎ Covers ts h

any-append :
    (h : String) (xs ys : List String)
    → any (λ x. x == h) (xs ++ ys) ≡ any (λ x. x == h) xs || any (λ x. x == h) ys
any-append h [] ys = refl
any-append h (x ∷ xs) ys = ground (arith, any-append h xs ys)

Covers→check_tls :
    (ts : List IngressTls) (h : String) → Covers ts h → check_tls h (collect_tls_hosts ts) ≡ true
unfolding check_tls collect_tls_hosts
Covers→check_tls [] h c = elim c [ ]
Covers→check_tls (t ∷ ts) h (inl c) = ground (arith, any-append h t.hosts (collect_tls_hosts ts), c)
Covers→check_tls (t ∷ ts) h (inr c) =
    ground (arith, any-append h t.hosts (collect_tls_hosts ts), Covers→check_tls ts h c)

check_tls→Covers :
    (ts : List IngressTls) (h : String) → check_tls h (collect_tls_hosts ts) ≡ true → Covers ts h
unfolding check_tls collect_tls_hosts
check_tls→Covers [] h e = ground arith
check_tls→Covers (t ∷ ts) h e = elim (Bool-cases (any (λ x. x == h) t.hosts)) [
  | inl p ↦ inl p
  | inr p ↦
      inr (check_tls→Covers ts h (ground (arith, any-append h t.hosts (collect_tls_hosts ts))))
]

-- One entry for each rule of the spec, in the spec's order, and its flag says whether some TLS
-- section covers the host.
abbrev pub Describes : List IngressTls → List String → List Host → Type 0
Describes ts [] [] = Unit
Describes ts [] (h ∷ hs) = ⊥
Describes ts (r ∷ rs) [] = ⊥
Describes ts (r ∷ rs) (h ∷ hs) = (h.host ≡ r) × ((h.tls ≡ true) ↔ Covers ts r) × Describes ts rs hs

hosts_of-Describes :
    (ts : List IngressTls) (rs : List String) → Describes ts rs (hosts_of rs (collect_tls_hosts ts))
unfolding hosts_of
hosts_of-Describes ts [] = tt
hosts_of-Describes ts (r ∷ rs) =
    (refl, (check_tls→Covers ts r, Covers→check_tls ts r), hosts_of-Describes ts rs)

-- For every Ingress spec, the list of hosts has one entry for each rule, in the order of the rules,
-- with the rule's host, and an entry is marked TLS exactly when one of the TLS sections lists its
-- host.
pub get_hosts-Describes : (spec : IngressSpec) → Describes spec.tls spec.rules (get_hosts spec)
unfolding get_hosts
get_hosts-Describes spec = hosts_of-Describes spec.tls spec.rules
