-- ===== src/External/Errors.antt =====
-- The errors of the Cloudflare client carry no chain: every message is built with %v.
use cloudflare_tunnel_operat.Base.{String, ◌≡◌, false, arith, inl, inr}
use cloudflare_tunnel_operat.Base.Exec.{Error, Sentinel, Result-cases, err, errors_is}
use cloudflare_tunnel_operat.External.{CloudflareTunnelClient, get_tunnel_token}

module _ {W : Type 0} (C : CloudflareTunnelClient W) where
  -- Whatever the API answers, an error of GetTunnelToken is none of the sentinels.
  pub get_tunnel_token-opaque :
      (id : String) (w : W) (e : Error) (s : Sentinel)
      → (get_tunnel_token C id w).0 ≡ err e
      → errors_is e s ≡ false
  unfolding get_tunnel_token
  get_tunnel_token-opaque id w e s h =
      elim (Result-cases (C.api.get_tunnel_token C.account_id id w).0) [
        | inl (a, q) ↦ ground (arith, q)
        | inr (inl (f, q)) ↦ ground (arith, q)
        | inr (inr (m, q)) ↦ ground (arith, q)
      ]
