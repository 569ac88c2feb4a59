-- ===== src/Ingress/Rules/Laws.antt =====
-- Laws of adding hosts to a tunnel's configuration and taking them out of it.
use cloudflare_tunnel_operat.Base.{
  String, ◌≡◌, refl, ap, sym, ◌∙◌, true, false, none, some, List, [], ◌∷◌, ◌++◌, ◌==◌, arith, All,
  inl, inr, Bool-cases,
}
use cloudflare_tunnel_operat.Api.{CloudflareTunnelSettings}
use cloudflare_tunnel_operat.Domain.{IngressRule, TunnelConfiguration}
use cloudflare_tunnel_operat.Ingress.Hosts.{Host}
use cloudflare_tunnel_operat.Ingress.Rules.{catch_all, append_rules, remove_rules, comes_before}
use cloudflare_tunnel_operat.Ingress.Rules.Order.{find_rule, IsSorted, Before, Sorted_ext}
use cloudflare_tunnel_operat.Ingress.Rules.Lookup.{
  last_rule, last_host, last-find, names, last_host-none,
}
use cloudflare_tunnel_operat.Ingress.Rules.Config.{
  append_rules-IsSorted, remove_rules-IsSorted, find-append_rules, find-remove_rules,
}

-- Rules that cloudflared accepts: ascending hostnames, none of them empty, and behind them the one
-- rule for every other request.
pub record IsAccepted (c : IngressRule) (rules : List IngressRule) : Type 0 where
  pub named : List IngressRule
  pub split : rules ≡ named ++ (c ∷ [])
  pub ascending : IsSorted named
  pub not_empty : All (λ r. (r.hostname == "") ≡ false) named

cons-IsAccepted :
    (c r : IngressRule) (rs : List IngressRule)
    → (r.hostname == "") ≡ false
    → All (Before r) rs
    → IsAccepted c rs
    → IsAccepted c (r ∷ rs)
cons-IsAccepted c r rs n b h = record {
  named = r ∷ h.named;
  split = ap (◌∷◌ r) h.split;
  ascending = (all_named h.named rs h.split b, h.ascending);
  not_empty = (n, h.not_empty);
}
  where
    all_named :
        (ns xs : List IngressRule) → xs ≡ ns ++ (c ∷ []) → All (Before r) xs → All (Before r) ns
    all_named [] xs e k = tt
    all_named (x ∷ ns) [] e k = absurd (cc)
    all_named (x ∷ ns) (y ∷ ys) e k = (ground (arith, k.0), all_named ns ys (cc) k.1)

-- The rule of the empty hostname stands last in a sorted list.
sorted-IsAccepted :
    (c : IngressRule) (rs : List IngressRule)
    → c.hostname ≡ ""
    → IsSorted rs
    → find_rule "" rs ≡ some c
    → IsAccepted c rs
unfolding find_rule comes_before
sorted-IsAccepted c [] e s f = absurd (cc)
sorted-IsAccepted c (r ∷ rs) e s f = elim (Bool-cases (r.hostname == "")) [
  | inl p ↦ only rs s.0 (ground arith) p
  | inr n ↦ cons-IsAccepted c r rs n s.0 (sorted-IsAccepted c rs e s.1 (ground arith))
]
  where
    only :
        (xs : List IngressRule)
        → All (Before r) xs
        → r ≡ c
        → (r.hostname == "") ≡ true
        → IsAccepted c (r ∷ xs)
    only [] k h p = record {
      named = [];
      split = ap (λ x. x ∷ []) h;
      ascending = tt;
      not_empty = tt;
    }
    only (x ∷ xs) k h p = absurd (ground (arith, k.0))

module _ (s : CloudflareTunnelSettings) where
  -- Whatever the configuration was, after hosts were added its rules are ascending by hostname with
  -- no hostname twice and none empty, followed by one rule for all other requests, which is the
  -- catch-all rule of the settings.
  pub append_rules-IsAccepted :
      (ip : String) (hosts : List Host) (c : TunnelConfiguration)
      → IsAccepted (catch_all s) (append_rules s ip hosts c).ingress
  append_rules-IsAccepted ip hosts c =
      sorted-IsAccepted (catch_all s) _ refl (append_rules-IsSorted s ip hosts c)
        (find-append_rules s ip hosts c "")

  -- Whatever the configuration was, after hosts were taken out its rules are ascending by hostname
  -- with no hostname twice and none empty, followed by the catch-all rule of the settings.
  pub remove_rules-IsAccepted :
      (hosts : List Host) (c : TunnelConfiguration)
      → IsAccepted (catch_all s) (remove_rules s hosts c).ingress
  remove_rules-IsAccepted hosts c =
      sorted-IsAccepted (catch_all s) _ refl (remove_rules-IsSorted s hosts c)
        (find-remove_rules s hosts c "")

  same_config : (c d : TunnelConfiguration) → c.ingress ≡ d.ingress → c.unread ≡ d.unread → c ≡ d
  same_config c d p q = ground arith

  unread-append :
      (ip : String) (hosts : List Host) (c : TunnelConfiguration)
      → (append_rules s ip hosts c).unread ≡ c.unread
  unfolding append_rules
  unread-append ip hosts c = refl

  unread-remove :
      (hosts : List Host) (c : TunnelConfiguration) → (remove_rules s hosts c).unread ≡ c.unread
  unfolding remove_rules
  unread-remove hosts c = refl

  last-append_rules :
      (ip : String) (hosts : List Host) (c : TunnelConfiguration) (h : String)
      → last_rule h (append_rules s ip hosts c).ingress
        ≡ find_rule h (append_rules s ip hosts c).ingress
  last-append_rules ip hosts c h = last-find h _ (append_rules-IsSorted s ip hosts c)

  -- Adding the same hosts a second time changes nothing: reconciling an Ingress again leaves the
  -- whole configuration as it is.
  pub append_rules_idem :
      (ip : String) (hosts : List Host) (c : TunnelConfiguration)
      → append_rules s ip hosts (append_rules s ip hosts c) ≡ append_rules s ip hosts c
  append_rules_idem ip hosts c =
      let d = append_rules s ip hosts c in
      same_config (append_rules s ip hosts d) d
        (Sorted_ext _ _ (append_rules-IsSorted s ip hosts d) (append_rules-IsSorted s ip hosts c)
          λ h. ground (
            arith,
            find-append_rules s ip hosts d h,
            find-append_rules s ip hosts c h,
            last-append_rules ip hosts c h,
          ))
        (unread-append ip hosts d)

  last_host-names : (h : String) (hs : List Host) → last_host h hs ≡ none → names hs h ≡ false
  unfolding last_host
  last_host-names h [] e = refl
  last_host-names h (x ∷ xs) e = ground (arith, last_host-names h xs)

  -- Taking out the hosts that were just added gives the configuration that taking them out of the
  -- old one gives: what was added leaves no trace.
  pub remove_rules-append_rules :
      (ip : String) (hosts : List Host) (c : TunnelConfiguration)
      → remove_rules s hosts (append_rules s ip hosts c) ≡ remove_rules s hosts c
  remove_rules-append_rules ip hosts c =
      let d = append_rules s ip hosts c in
      same_config (remove_rules s hosts d) (remove_rules s hosts c)
        (Sorted_ext _ _ (remove_rules-IsSorted s hosts d) (remove_rules-IsSorted s hosts c) λ h.
          ground (
            arith,
            find-remove_rules s hosts d h,
            find-remove_rules s hosts c h,
            find-append_rules s ip hosts c h,
            last-append_rules ip hosts c h,
            last_host-none h hosts,
          ))
        (unread-remove hosts d ∙ unread-append ip hosts c ∙ sym (unread-remove hosts c))

  -- Adding the rules of two lists of hosts that share no host, with the same settings, gives the same
  -- configuration in either order.
  pub append_rules_comm :
      (ip₁ ip₂ : String) (hosts₁ hosts₂ : List Host) (c : TunnelConfiguration)
      → ((h : String) → names hosts₁ h ≡ true → names hosts₂ h ≡ false)
      → append_rules s ip₁ hosts₁ (append_rules s ip₂ hosts₂ c)
        ≡ append_rules s ip₂ hosts₂ (append_rules s ip₁ hosts₁ c)
  append_rules_comm ip₁ ip₂ hosts₁ hosts₂ c apart =
      let d₁ = append_rules s ip₁ hosts₁ c in
      let d₂ = append_rules s ip₂ hosts₂ c in
      same_config (append_rules s ip₁ hosts₁ d₂) (append_rules s ip₂ hosts₂ d₁)
        (Sorted_ext _ _ (append_rules-IsSorted s ip₁ hosts₁ d₂)
          (append_rules-IsSorted s ip₂ hosts₂ d₁)
          λ h. ground (
            arith,
            find-append_rules s ip₁ hosts₁ d₂ h,
            find-append_rules s ip₂ hosts₂ d₁ h,
            find-append_rules s ip₁ hosts₁ c h,
            find-append_rules s ip₂ hosts₂ c h,
            last-append_rules ip₁ hosts₁ c h,
            last-append_rules ip₂ hosts₂ c h,
            last_host-none h hosts₁,
            last_host-none h hosts₂,
            apart h,
            Bool-cases (names hosts₁ h),
          ))
        (unread-append ip₁ hosts₁ d₂
          ∙ unread-append ip₂ hosts₂ c
          ∙ sym (unread-append ip₂ hosts₂ d₁ ∙ unread-append ip₁ hosts₁ c))
