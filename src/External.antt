-- ===== src/External.antt =====
-- The Cloudflare client behind the manager interface (pkg/external/cloudflare.go). The HTTP API of
-- cloudflare-go is a parameter, over an unknown world, and so is the source of random texts.
pub mod Comment
pub mod Dns
pub mod Errors
pub mod Zone
pub mod Refinement
pub mod Cleanup
use cloudflare_tunnel_operat.Base.{
  ℕ, String, ◌<>◌, Bool, true, false, Option, none, some, List, [], ◌∷◌, ◌==◌, if◌then◌else◌,
}
use cloudflare_tunnel_operat.Base.Exec.{
  Exec, Result, ok, err, panic, flat, pure, flattening, ◌>>=◌, ◌>>◌,
}
use cloudflare_tunnel_operat.Domain.{
  Tunnel, CloudflareTunnelToken, TunnelConfiguration, DnsRecord, empty_record, tunnel_target,
}
use cloudflare_tunnel_operat.Manager.{CloudflareTunnelManager}
use cloudflare_tunnel_operat.External.Comment.{dns_comment}

-- cloudflare.TunnelCreateParams
pub record TunnelCreateParams : Type 0 where
  pub name : String
  pub config_src : String
  pub secret : String

-- cloudflare.CreateDNSRecordParams and UpdateDNSRecordParams: the same fields, but for the id.
pub record DnsRecordParams : Type 0 where
  pub name : String
  pub ttl : ℕ
  pub proxied : Bool
  pub type : String
  pub content : String
  pub comment : String

-- cloudflare.ListDNSRecordsParams: a field that is `none` is not in the query, and does not
-- filter.
pub record ListDnsRecordsParams : Type 0 where
  pub name : Option String
  pub type : Option String
  pub comment : Option String

-- *cloudflare.API: the first text is the account or the zone.
pub record CloudflareApi (W : Type 0) : Type 0 where
  pub create_tunnel : String → TunnelCreateParams → Exec W Tunnel
  pub delete_tunnel : String → String → Exec W (Unit {0})
  pub get_tunnel : String → String → Exec W Tunnel
  pub get_tunnel_token : String → String → Exec W String
  pub get_tunnel_configuration : String → String → Exec W TunnelConfiguration
  pub update_tunnel_configuration :
      String → String → TunnelConfiguration → Exec W TunnelConfiguration
  pub create_dns_record : String → DnsRecordParams → Exec W DnsRecord
  pub update_dns_record : String → String → DnsRecordParams → Exec W DnsRecord
  pub delete_dns_record : String → String → Exec W (Unit {0})
  pub list_dns_records : String → ListDnsRecordsParams → Exec W (List DnsRecord)

-- `random` is random.SecureString.
pub record CloudflareTunnelClient (W : Type 0) : Type 0 where
  pub api : CloudflareApi W
  pub account_id : String
  pub zone_id : String
  pub random : ℕ → String → Exec W String

unfoldable pub new_cloudflare_tunnel_client :
    {W : Type 0}
    → (String → Result (CloudflareApi W))
    → String
    → String
    → String
    → (ℕ → String → Exec W String)
    → Result (CloudflareTunnelClient W)
new_cloudflare_tunnel_client connect api_token account_id zone_id random =
    elim (connect api_token) [
      | ok api ↦
          ok (record { api = api; account_id = account_id; zone_id = zone_id; random = random })
      | err e ↦ err (flat "failed to initialize cloudflare provider" e)
      | panic m ↦ panic m
    ]

abbrev alphanumeric : String
alphanumeric = "ABCDEFGHIJKLMNOPQRSTUVWXYZabcdefghijklmnopqrstuvwxyz0123456789"

abbrev pub dns_params : String → String → DnsRecordParams
dns_params tunnel_id hostname = record {
  name = hostname;
  ttl = 1;
  proxied = true;
  type = "CNAME";
  content = tunnel_target tunnel_id;
  comment = dns_comment tunnel_id;
}

-- A field of a query that is the empty text is not sent.
abbrev pub given : String → Option String
given s = if s == "" then none else some s

-- All records of a tunnel, under any name.
abbrev pub records_of : String → ListDnsRecordsParams
records_of tunnel_id = record {
  name = given "";
  type = some "CNAME";
  comment = some (dns_comment tunnel_id);
}

abbrev first_or_empty : List DnsRecord → DnsRecord
first_or_empty [] = empty_record
first_or_empty (r ∷ rs) = r

module _ {W : Type 0} (C : CloudflareTunnelClient W) where
  unfoldable pub create_tunnel : String → Exec W Tunnel
  create_tunnel name = do
    secret ← flattening "failed to generate secret" (C.random 32 alphanumeric)
    flattening "failed to create tunnel" (
        C.api.create_tunnel C.account_id
          (record { name = name; config_src = "cloudflare"; secret = secret }))

  unfoldable pub delete_tunnel : String → Exec W (Unit {0})
  delete_tunnel id = flattening "failed to delete tunnel" (C.api.delete_tunnel C.account_id id)

  unfoldable pub get_tunnel_token : String → Exec W CloudflareTunnelToken
  get_tunnel_token id =
      flattening "failed to get tunnel token" (C.api.get_tunnel_token C.account_id id)

  unfoldable pub get_tunnel : String → Exec W Tunnel
  get_tunnel id = flattening "failed to get tunnel" (C.api.get_tunnel C.account_id id)

  -- Does nothing.
  unfoldable pub delete_token : String → Exec W (Unit {0})
  delete_token id = pure tt

  unfoldable pub get_tunnel_configuration : String → Exec W TunnelConfiguration
  get_tunnel_configuration id =
      flattening "failed to get tunnel configs" (C.api.get_tunnel_configuration C.account_id id)

  unfoldable pub update_tunnel_configuration : String → TunnelConfiguration → Exec W (Unit {0})
  update_tunnel_configuration id config = do
    flattening "failed to update tunnel configs"
        (C.api.update_tunnel_configuration C.account_id id config)
    pure tt

  unfoldable pub add_dns : String → String → Exec W (Unit {0})
  add_dns tunnel_id hostname = do
    flattening "failed to create DNS record"
        (C.api.create_dns_record C.zone_id (dns_params tunnel_id hostname))
    pure tt

  unfoldable pub get_dns : String → String → Exec W DnsRecord
  get_dns tunnel_id hostname = do
    records ← flattening "failed to get DNS record" (
        C.api.list_dns_records C.zone_id
          (record { name = given hostname; type = some "CNAME"; comment = none }))
    pure (first_or_empty records)

  unfoldable pub update_dns : String → String → DnsRecord → Exec W (Unit {0})
  update_dns tunnel_id hostname current = do
    flattening "failed to update DNS record"
        (C.api.update_dns_record C.zone_id current.id (dns_params tunnel_id hostname))
    pure tt

  unfoldable pub delete_dns : String → String → Exec W (Unit {0})
  delete_dns tunnel_id record_id =
      flattening "failed to delete DNS record" (C.api.delete_dns_record C.zone_id record_id)

  -- `for _, record := range records`, which returns at the first error.
  unfoldable pub delete_records : List DnsRecord → Exec W (Unit {0})
  delete_records [] = pure tt
  delete_records (r ∷ rs) = do
    flattening "failed to update tunnel configs" (C.api.delete_dns_record C.zone_id r.id)
    delete_records rs

  unfoldable pub delete_all_dns : String → Exec W (Unit {0})
  delete_all_dns tunnel_id = do
    records ←
        flattening "failed to get DNS record"
          (C.api.list_dns_records C.zone_id (records_of tunnel_id))
    delete_records records

  -- The client as the manager that main passes to both controllers.
  unfoldable pub cloudflare_manager : CloudflareTunnelManager W
  unfolding get_tunnel_token
  cloudflare_manager = record {
    create_tunnel = create_tunnel;
    delete_tunnel = delete_tunnel;
    get_tunnel = get_tunnel;
    get_tunnel_token = get_tunnel_token;
    get_tunnel_configuration = get_tunnel_configuration;
    update_tunnel_configuration = update_tunnel_configuration;
    add_dns = add_dns;
    get_dns = get_dns;
    update_dns = update_dns;
    delete_dns = delete_dns;
    delete_all_dns = delete_all_dns;
  }
