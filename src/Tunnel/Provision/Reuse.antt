-- ===== src/Tunnel/Provision/Reuse.antt =====
-- When a CloudflareTunnel keeps its tunnel and when it gets a new one.
use cloudflare_tunnel_operat.Base.{◌≡◌, true, false, ◌==◌, arith, ◌⊎◌, inl, inr, eq_iff}
use cloudflare_tunnel_operat.Base.Exec.{
  Error, Result-cases, ok, err, wrap, errors_is, tunnel_not_found,
}
use cloudflare_tunnel_operat.Api.{CloudflareTunnel}
use cloudflare_tunnel_operat.Domain.{Tunnel, CloudflareTunnelToken}
use cloudflare_tunnel_operat.Tunnel.Client.{CloudflareTunnelReconciler}
use cloudflare_tunnel_operat.Tunnel.Provision.{
  stored_token, create_tunnel, reuse_tunnel, reconcile_tunnel, tunnel_name_of,
}
use cloudflare_tunnel_operat.External.{CloudflareTunnelClient, cloudflare_manager, get_tunnel_token}
use cloudflare_tunnel_operat.External.Errors.{get_tunnel_token-opaque}

-- The reconciler as main builds it, with the Cloudflare client as its manager.
abbrev pub with_client :
    {W : Type 0}
    → CloudflareTunnelReconciler W
    → CloudflareTunnelClient W
    → CloudflareTunnelReconciler W
with_client R C = record R { manager = cloudflare_manager C }

module _ {W : Type 0} (R : CloudflareTunnelReconciler W) where
  -- The token comes from the secret, or, where that has none, from the manager.
  abbrev pub HasToken : CloudflareTunnel → CloudflareTunnelToken → W → W → Type 0
  HasToken t token before after =
      ((stored_token R t before ≡ (ok token, after)) × ((token == "") ≡ false))
      ⊎ (((stored_token R t before).0 ≡ ok "")
          × (R.manager.get_tunnel_token t.status.tunnel_id (stored_token R t before).1
              ≡ (ok token, after)))

  -- A new tunnel was asked for after the manager had said that the current one does not exist.
  abbrev pub IsReplaced : CloudflareTunnel → W → Type 0
  IsReplaced t w =
      (e : Error) × ((stored_token R t w).0 ≡ ok "")
      × ((R.manager.get_tunnel_token t.status.tunnel_id (stored_token R t w).1).0 ≡ err e)
      × (errors_is e tunnel_not_found ≡ true)

module _ {W : Type 0} (R : CloudflareTunnelReconciler W) where
  reuse_or_replace :
      (t : CloudflareTunnel) (tunnel : Tunnel) (token : CloudflareTunnelToken) (w : W)
      → (t.status.tunnel_id == "") ≡ false
      → (reconcile_tunnel R t w).0 ≡ ok (tunnel, token)
      → ((tunnel ≡ record { id = t.status.tunnel_id; name = tunnel_name_of t })
          × HasToken R t token w (reconcile_tunnel R t w).1)
        ⊎ IsReplaced R t w
  unfolding reconcile_tunnel reuse_tunnel create_tunnel
  reuse_or_replace t tunnel token w n h = elim (Result-cases (stored_token R t w).0) [
    | inl (k, q) ↦
        elim (Result-cases
          (R.manager.get_tunnel_token t.status.tunnel_id (stored_token R t w).1).0) [
            | inl (a, g) ↦ ground (arith, q, g, n, eq_iff k "")
            | inr (inl (e, g)) ↦ ground (arith, q, g, n, eq_iff k "")
            | inr (inr (m, g)) ↦ ground (arith, q, g, n, eq_iff k "")
          ]
    | inr (inl (e, q)) ↦ ground (arith, q)
    | inr (inr (m, q)) ↦ ground (arith, q)
  ]

module _ {W : Type 0} (S : CloudflareTunnelReconciler W) (C : CloudflareTunnelClient W) where
  -- With the Cloudflare client as the manager, a successful reconcileTunnel of a resource that has
  -- a tunnel id answers that same id, under the name that the resource asks for, and has done no
  -- more than read: the token is the one in the secret, or, if that has none, the one that the
  -- client answered. So a tunnel that was deleted on the Cloudflare side is never replaced.
  pub keeps_tunnel :
      (t : CloudflareTunnel) (tunnel : Tunnel) (token : CloudflareTunnelToken) (w : W)
      → (t.status.tunnel_id == "") ≡ false
      → (reconcile_tunnel (with_client S C) t w).0 ≡ ok (tunnel, token)
      → (tunnel ≡ record { id = t.status.tunnel_id; name = tunnel_name_of t })
        × HasToken (with_client S C) t token w (reconcile_tunnel (with_client S C) t w).1
  unfolding cloudflare_manager
  keeps_tunnel t tunnel token w n h =
      elim (reuse_or_replace (with_client S C) t tunnel token w n h) [
        | inl kept ↦ kept
        | inr (e, _, failed, missing) ↦ ground (
          arith,
          missing,
          get_tunnel_token-opaque C t.status.tunnel_id (stored_token (with_client S C) t w).1 e
              tunnel_not_found failed,
        )
      ]

  -- When the secret has no token and the client gives none for the tunnel id either, reconcileTunnel
  -- fails with that error, whatever the API's reason is, a tunnel that does not exist included: it
  -- does not go on to create one.
  pub missing_tunnel_fails :
      (t : CloudflareTunnel) (e : Error) (w : W)
      → (t.status.tunnel_id == "") ≡ false
      → (stored_token (with_client S C) t w).0 ≡ ok ""
      → (get_tunnel_token C t.status.tunnel_id (stored_token (with_client S C) t w).1).0 ≡ err e
      → reconcile_tunnel (with_client S C) t w ≡ (
        err (wrap "failed to get tunnel" e),
        (get_tunnel_token C t.status.tunnel_id (stored_token (with_client S C) t w).1).1,
      )
  unfolding reconcile_tunnel reuse_tunnel cloudflare_manager
  missing_tunnel_fails t e w n s h =
      let opaque =
        get_tunnel_token-opaque C t.status.tunnel_id (stored_token (with_client S C) t w).1 e
          tunnel_not_found h in
      ground (arith, n, s, h, opaque)
