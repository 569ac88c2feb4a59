-- ===== src/Tunnel/Provision.antt =====
-- Getting a tunnel and its token: `reconcileTunnel` of
-- internal/controller/cloudflaretunnel_controller.go.
pub mod Reuse
use cloudflare_tunnel_operat.Base.{
  String, Bool, true, false, Option, none, some, ◌==◌, not, if◌then◌else◌,
}
use cloudflare_tunnel_operat.Base.Dict.{Dict, lookup}
use cloudflare_tunnel_operat.Base.Exec.{
  Exec, pure, raise, wrapping, handle, wrap, errors_is, not_found, tunnel_not_found, ◌>>=◌, ◌>>◌,
}
use cloudflare_tunnel_operat.Api.{CloudflareTunnel}
use cloudflare_tunnel_operat.Domain.{Tunnel, CloudflareTunnelToken}
use cloudflare_tunnel_operat.Tunnel.Desired.{key_of, tunnel_token_key}
use cloudflare_tunnel_operat.Tunnel.Client.{CloudflareTunnelReconciler, Secret}

abbrev pub tunnel_name_of : CloudflareTunnel → String
tunnel_name_of t =
    if t.spec.settings.name_override == "" then t.metadata.name else t.spec.settings.name_override

abbrev value_or_empty : Option String → String
value_or_empty none = ""
value_or_empty (some v) = v

abbrev entry_or_empty : Option (Dict String) → CloudflareTunnelToken
entry_or_empty none = ""
entry_or_empty (some d) = value_or_empty (lookup tunnel_token_key d)

unfoldable pub token_of : Secret → CloudflareTunnelToken
unfolding lookup
token_of s = entry_or_empty s.secret_data

module _ {W : Type 0} (R : CloudflareTunnelReconciler W) where
  -- The token in the secret, or the empty text if there is no secret or no such entry.
  unfoldable pub stored_token : CloudflareTunnel → Exec W CloudflareTunnelToken
  stored_token t =
      handle (R.client.get_secret (key_of t)) (λ s. pure (token_of s))
        (λ e. if errors_is e not_found then pure "" else raise (wrap "failed to get secret" e))

  unfoldable pub create_tunnel : CloudflareTunnel → Exec W (Tunnel × CloudflareTunnelToken)
  create_tunnel t = do
    tunnel ← wrapping "failed to create tunnel" (R.manager.create_tunnel (tunnel_name_of t))
    token ← wrapping "failed to get tunnel token" (R.manager.get_tunnel_token tunnel.id)
    pure (tunnel, token)

  abbrev current_tunnel : CloudflareTunnel → Tunnel
  current_tunnel t = record { id = t.status.tunnel_id; name = tunnel_name_of t }

  unfoldable pub reuse_tunnel :
      CloudflareTunnel → CloudflareTunnelToken → Exec W (Tunnel × CloudflareTunnelToken)
  unfolding create_tunnel
  reuse_tunnel t token =
      if token == ""
      then handle (R.manager.get_tunnel_token t.status.tunnel_id)
          (λ fresh. pure (current_tunnel t, fresh))
          (λ e.
            if errors_is e tunnel_not_found
            then create_tunnel t
            else raise (wrap "failed to get tunnel" e))
      else pure (current_tunnel t, token)

  unfoldable pub reconcile_tunnel : CloudflareTunnel → Exec W (Tunnel × CloudflareTunnelToken)
  unfolding create_tunnel reuse_tunnel
  reconcile_tunnel t = do
    token ← stored_token t
    if t.status.tunnel_id == "" then create_tunnel t else reuse_tunnel t token
