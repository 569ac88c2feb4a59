-- ===== src/Webhook/Default.antt =====
-- How the default tunnel is marked and looked up.
use cloudflare_tunnel_operat.Base.{
  String, ◌≡◌, ◌↔◌, refl, Bool, true, false, Option, none, some, subst, sym, ap, ◌∙◌, ◌==◌, arith,
}
use cloudflare_tunnel_operat.Base.Dict.{Dict, lookup, put, lookup-put}
use cloudflare_tunnel_operat.Base.Exec.{ok}
use cloudflare_tunnel_operat.Api.{CloudflareTunnel}
use cloudflare_tunnel_operat.Ingress.Reconcile.{default_label_key}
use cloudflare_tunnel_operat.Webhook.{apply_default, labelled, labels_or_empty, format_bool}

-- A label selector of one key and one value, as the list of default tunnels uses it.
abbrev pub IsListed : CloudflareTunnel → Type 0
IsListed t = lookup default_label_key (labels_or_empty t.metadata.labels) ≡ some "true"

abbrev says_true : Option String → Bool
says_true none = false
says_true (some v) = v == "true"

lookup-format_bool :
    (b : Bool) (m : Dict String)
    → (lookup default_label_key (put default_label_key (format_bool b) m) ≡ some "true")
      ↔ (b ≡ true)
lookup-format_bool true m =
    let e = lookup-put default_label_key default_label_key "true" m in (λ _. refl, λ _. e)
lookup-format_bool false m =
    let e = lookup-put default_label_key default_label_key "false" m in
    (λ h. ap says_true (sym e ∙ h), λ h. ground arith)

labelled-keeps :
    (t : CloudflareTunnel) (k : String)
    → (default_label_key == k) ≡ false
    → lookup k (labels_or_empty (labelled t).metadata.labels)
      ≡ lookup k (labels_or_empty t.metadata.labels)
labelled-keeps t k n = rw (lookup-put, n) refl

-- A tunnel that went through the defaulting webhook is found by the selector with which the
-- controller of Ingresses and the validating webhook look for default tunnels exactly if its spec
-- says that it is one, whatever labels it came with; and no other label is changed.
pub default_marked :
    (t u : CloudflareTunnel)
    → apply_default (some t) ≡ ok u
    → (IsListed u ↔ (t.spec.default ≡ true))
      × ((k : String)
          → (default_label_key == k) ≡ false
          → lookup k (labels_or_empty u.metadata.labels)
            ≡ lookup k (labels_or_empty t.metadata.labels))
unfolding apply_default
default_marked t u h =
    let e : labelled t ≡ u = ground arith in
    subst
      (λ (v : CloudflareTunnel).
        (IsListed v ↔ (t.spec.default ≡ true))
        × ((k : String)
            → (default_label_key == k) ≡ false
            → lookup k (labels_or_empty v.metadata.labels)
              ≡ lookup k (labels_or_empty t.metadata.labels)))
      e (lookup-format_bool t.spec.default (labels_or_empty t.metadata.labels), labelled-keeps t)
