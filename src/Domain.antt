-- ===== src/Domain.antt =====
-- The entities of pkg/domain: tunnels, their configuration, DNS records, and the origin settings
-- that a rule carries (pkg/domain/entity.go, pkg/domain/origin_request_config.go).
pub mod Duration
use cloudflare_tunnel_operat.Base.{◌≡◌, arith, eq_iff}
use cloudflare_tunnel_operat.Base.{
  String, ◌<>◌, Bool, true, false, Option, none, some, List, ◌==◌, not, ◌&&◌, if◌then◌else◌,
}
use cloudflare_tunnel_operat.Base.Exec.{Result, ok, panic}
use cloudflare_tunnel_operat.Base.Int.{ℤ, scale, wrap64}
use cloudflare_tunnel_operat.Base.Value.{Value}
use cloudflare_tunnel_operat.Api.{CloudflareTunnelSettings}

pub record Tunnel : Type 0 where
  pub id : String
  pub name : String

abbrev pub CloudflareTunnelToken : Type 0
CloudflareTunnelToken = String

-- cloudflare.OriginRequestConfig as the operator fills it; every pointer it sets is set.
-- Durations are in nanoseconds.
pub record OriginRequestConfig : Type 0 where
  pub http_host_header : String
  pub origin_server_name : String
  pub ca_pool : Option String
  pub no_tls_verify : Bool
  pub tls_timeout : ℤ
  pub http2_origin : Bool
  pub disable_chunked_encoding : Bool
  pub connect_timeout : ℤ
  pub no_happy_eyeballs : Bool
  pub proxy_type : String
  pub keep_alive_timeout : ℤ
  pub keep_alive_connections : ℤ

-- cloudflare.UnvalidatedIngressRule
pub record IngressRule : Type 0 where
  pub hostname : String
  pub path : String
  pub service : String
  pub origin_request : Option OriginRequestConfig

-- cloudflare.TunnelConfiguration: the operator reads and writes the rules alone.
pub record TunnelConfiguration : Type 0 where
  pub ingress : List IngressRule
  pub unread : Value

-- The fields of cloudflare.DNSRecord that the operator reads. `Proxied` is a pointer.
pub record DnsRecord : Type 0 where
  pub id : String
  pub type : String
  pub content : String
  pub proxied : Option Bool

abbrev pub empty_record : DnsRecord
empty_record = record { id = ""; type = ""; content = ""; proxied = none }

-- time.Duration(n) * time.Second, in int64.
unfoldable pub seconds : ℤ → ℤ
seconds n = wrap64 (scale 1_000_000_000 n)

unfoldable pub to_origin_request_config : CloudflareTunnelSettings → String → OriginRequestConfig
to_origin_request_config s hostname = record {
  http_host_header = hostname;
  origin_server_name = hostname;
  ca_pool = s.ca_pool;
  no_tls_verify = s.no_tls_verify;
  tls_timeout = seconds s.tls_timeout_seconds;
  http2_origin = s.http2_origin;
  disable_chunked_encoding = s.disable_chunked_encoding;
  connect_timeout = seconds s.connect_timeout_seconds;
  no_happy_eyeballs = s.no_happy_eyeballs;
  proxy_type = s.proxy_type;
  keep_alive_timeout = seconds s.keep_alive_timeout_seconds;
  keep_alive_connections = s.keep_alive_connections;
}

-- fmt.Sprintf("%v.cfargotunnel.com", tunnelID)
abbrev pub tunnel_target : String → String
tunnel_target id = id <> ".cfargotunnel.com"

-- `*d.Proxied` panics on a nil pointer; && reads it only if the tests before it passed.
proxied_and : Option Bool → Bool → Result Bool
proxied_and none rest = panic "nil pointer dereference"
proxied_and (some b) rest = ok (b && rest)

unfoldable pub healthy : DnsRecord → String → Result Bool
unfolding proxied_and
healthy d id =
    if not (d.id == "") && d.type == "CNAME"
    then proxied_and d.proxied (d.content == tunnel_target id)
    else ok false

-- A healthy record is there: a missing one has no id.
pub healthy-id : (d : DnsRecord) (id : String) → healthy d id ≡ ok true → (d.id == "") ≡ false
unfolding healthy
healthy-id d id h = ground arith

pub healthy-fields :
    (d : DnsRecord) (id : String)
    → healthy d id ≡ ok true
    → (d.type ≡ "CNAME") × (d.content ≡ tunnel_target id) × (d.proxied ≡ some true)
unfolding healthy proxied_and
healthy-fields d id h = (
  ground (arith, h, eq_iff d.type "CNAME"),
  ground (arith, h, eq_iff d.content (tunnel_target id)),
  ground (arith, h),
)

-- With a `proxied` the check answers.
pub healthy-answers :
    (d : DnsRecord) (id : String) (b : Bool)
    → d.proxied ≡ some b
    → (c : Bool) × (healthy d id ≡ ok c)
unfolding healthy proxied_and
healthy-answers d id b e =
    (not (d.id == "") && d.type == "CNAME" && b && d.content == tunnel_target id, ground (arith, e))
