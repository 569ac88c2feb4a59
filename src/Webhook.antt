-- ===== src/Webhook.antt =====
-- The admission webhooks (internal/webhook/v1beta1/cloudflaretunnel_webhook.go). The cast of the
-- object to a CloudflareTunnel, which the registration guarantees, is an argument: `none` is an
-- object of another type.
pub mod Default
use cloudflare_tunnel_operat.Base.{
  String, ◌<>◌, Bool, true, false, Option, none, some, List, [], ◌∷◌, if◌then◌else◌,
}
use cloudflare_tunnel_operat.Base.Dict.{Dict, put}
use cloudflare_tunnel_operat.Base.Exec.{
  Exec, Result, ok, err, panic, pure, raise, lift, other, ◌>>=◌, ◌>>◌,
}
use cloudflare_tunnel_operat.Api.{CloudflareTunnel}
use cloudflare_tunnel_operat.Cluster.{CloudflareTunnelList, IngressClient}
use cloudflare_tunnel_operat.Ingress.Reconcile.{default_label_key}

-- strconv.FormatBool
abbrev pub format_bool : Bool → String
format_bool true = "true"
format_bool false = "false"

abbrev pub labels_or_empty : Option (Dict String) → Dict String
labels_or_empty none = []
labels_or_empty (some ls) = ls

abbrev labelled : CloudflareTunnel → CloudflareTunnel
labelled t = record t {
  metadata = record t.metadata {
    labels =
        some
          (put default_label_key (format_bool t.spec.default) (labels_or_empty t.metadata.labels));
  };
}

-- The defaulter's Default.
unfoldable pub apply_default : Option CloudflareTunnel → Result CloudflareTunnel
apply_default none = err (other "expected an CloudflareTunnel object")
apply_default (some t) = ok (labelled t)

abbrev pub Warnings : Type 0
Warnings = List String

abbrev pub warning : CloudflareTunnel → String
warning t =
    "default CloudflareTunnel already exists: "
    <> (t.metadata.namespace <> ("/" <> t.metadata.name))

-- `Items[0]` panics on an empty page, which the test lets through if the page is not the last.
abbrev first_warning : CloudflareTunnelList → Result Warnings
first_warning page = elim page.items [
  | [] ↦ if page.more then panic "index out of range" else ok []
  | t ∷ ts ↦ ok (warning t ∷ [])
]

module _ {W : Type 0} (C : IngressClient W) where
  unfoldable pub check_default_tunnel : CloudflareTunnel → Exec W Warnings
  check_default_tunnel t =
      if t.spec.default
      then (do page ← C.list_cloudflare_tunnels default_label_key "true"; lift (first_warning page))
      else pure []

  unfoldable pub validate_create : Option CloudflareTunnel → Exec W Warnings
  validate_create none = raise (other "expected a CloudflareTunnel object")
  validate_create (some t) = check_default_tunnel t

  unfoldable pub validate_update :
      Option CloudflareTunnel → Option CloudflareTunnel → Exec W Warnings
  validate_update old none = raise (other "expected a CloudflareTunnel object for the newObj")
  validate_update old (some t) = check_default_tunnel t

  unfoldable pub validate_delete : Option CloudflareTunnel → Exec W Warnings
  validate_delete t = pure []
