-- ===== src/Domain/Duration.antt =====
-- The origin settings of a rule are those of the resource, for every int32 number of seconds.
use cloudflare_tunnel_operat.Base.{String, ◌≡◌, refl}
use cloudflare_tunnel_operat.Base.Int.{ℤ, IsInt32, scale, wrap64-scale}
use cloudflare_tunnel_operat.Api.{CloudflareTunnelSettings}
use cloudflare_tunnel_operat.Domain.{seconds, to_origin_request_config}

abbrev pub nanoseconds : ℤ → ℤ
nanoseconds = scale 1_000_000_000

seconds_exact : (n : ℤ) → IsInt32 n → seconds n ≡ nanoseconds n
unfolding seconds
seconds_exact n h = wrap64-scale n h

-- For settings whose three timeouts are int32 values, the origin configuration of a rule holds
-- exactly that many nanoseconds each: the multiplication by a second does not wrap around in int64.
-- Both host fields are the rule's hostname.
pub timeouts_exact :
    (s : CloudflareTunnelSettings) (hostname : String)
    → IsInt32 s.tls_timeout_seconds
    → IsInt32 s.connect_timeout_seconds
    → IsInt32 s.keep_alive_timeout_seconds
    → ((to_origin_request_config s hostname).tls_timeout ≡ nanoseconds s.tls_timeout_seconds)
      × ((to_origin_request_config s hostname).connect_timeout
          ≡ nanoseconds s.connect_timeout_seconds)
      × ((to_origin_request_config s hostname).keep_alive_timeout
          ≡ nanoseconds s.keep_alive_timeout_seconds)
      × ((to_origin_request_config s hostname).http_host_header ≡ hostname)
      × ((to_origin_request_config s hostname).origin_server_name ≡ hostname)
unfolding to_origin_request_config
timeouts_exact s hostname t c k =
    (seconds_exact _ t, seconds_exact _ c, seconds_exact _ k, refl, refl)
