-- ===== src/Examples/Cloud.antt =====
-- A Cloudflare account whose zone has room for the record of one name.
use cloudflare_tunnel_operat.Base.{
  String, ◌≡◌, refl, sym, any, Bool-cases, inl, inr, true, false, Option, none, some, List, [], ◌∷◌,
  ◌==◌, ◌&&◌, arith, eq_iff, eq_refl, if◌then◌else◌,
}
use cloudflare_tunnel_operat.Base.Value.{text}
use cloudflare_tunnel_operat.Base.Exec.{Result, ok, err, other}
use cloudflare_tunnel_operat.Domain.{TunnelConfiguration, DnsRecord}
use cloudflare_tunnel_operat.Api.{CloudflareTunnel}
use cloudflare_tunnel_operat.Cluster.{Ingress}
use cloudflare_tunnel_operat.Manager.Views.{named}
use cloudflare_tunnel_operat.External.{
  CloudflareApi, CloudflareTunnelClient, DnsRecordParams, dns_params, given, delete_all_dns,
  delete_records,
}
use cloudflare_tunnel_operat.External.Comment.{dns_comment, escape, escape_char}
use cloudflare_tunnel_operat.External.Dns.{stored}
use cloudflare_tunnel_operat.External.Zone.{
  Zone, Entry, IsLawfulApi, held, holds_id, values, without_id,
}
use cloudflare_tunnel_operat.External.Cleanup.{ListsByComment, IsPlain, delete_all_dns-exact}

-- With the Ingress and the tunnel of the cluster beside it.
pub record Cloud : Type 0 where
  pub configs : String → TunnelConfiguration
  pub site : Option DnsRecordParams
  pub ingress : Option Ingress
  pub tunnel : Option CloudflareTunnel

ok_eq : {A : Type 0} {a b : A} → ok a ≡ ok b → a ≡ b
ok_eq h = cc

abbrev only : String
only = "shop.walnuts.dev"

abbrev entry : Option DnsRecordParams → String → Option Entry
entry none h = none
entry (some p) h = if h == only then some (held "r1" p) else none

abbrev pub zone : Zone Cloud
zone = record { config_of = λ w t. w.configs t; entry_of = λ w h. entry w.site h }

abbrev created : DnsRecordParams → Cloud → Result DnsRecord × Cloud
created p w =
    if p.name == only
    then (ok (stored "r1" p), record w { site = some p })
    else (err (other "zone is full"), w)

abbrev updated : String → DnsRecordParams → Cloud → Result DnsRecord × Cloud
updated i p w =
    if (p.name == only) && holds_id i (entry w.site only)
    then (ok (stored "r1" p), record w { site = some p })
    else (err (other "no such record"), w)

abbrev emptied : String → Option DnsRecordParams → Option DnsRecordParams
emptied i none = none
emptied i (some p) = if "r1" == i then none else some p

abbrev with_comment : String → Option DnsRecordParams → List DnsRecord
with_comment c none = []
with_comment c (some p) = if p.comment == c then stored "r1" p ∷ [] else []

abbrev listed : Option String → Option String → Option DnsRecordParams → List DnsRecord
listed (some h) c s = values (entry s h)
listed none (some c) s = with_comment c s
listed none none s = values (entry s only)

abbrev api : CloudflareApi Cloud
api = record {
  create_tunnel = λ a p w. (ok (record { id = "new"; name = p.name }), w);
  delete_tunnel = λ a t w. (ok tt, w);
  get_tunnel = λ a t w. (ok (record { id = t; name = t }), w);
  get_tunnel_token = λ a t w. (ok "token", w);
  get_tunnel_configuration = λ a t w. (ok (w.configs t), w);
  update_tunnel_configuration =
      λ a t c w. (ok c, record w { configs = λ u. if t == u then c else w.configs u });
  create_dns_record = λ z p w. created p w;
  update_dns_record = λ z i p w. updated i p w;
  delete_dns_record = λ z i w. (ok tt, record w { site = emptied i w.site });
  list_dns_records = λ z p w. (ok (listed p.name p.comment w.site), w);
}

abbrev pub client : CloudflareTunnelClient Cloud
client = record { api = api; account_id = "account"; zone_id = "zone"; random = λ n s w. (ok s, w) }

entry_id :
    (s : Option DnsRecordParams) (h : String) (e : Entry)
    → entry s h ≡ some e
    → (e.value.id ≡ "r1") × ((h == only) ≡ true)
entry_id none h e q = ground (arith, q)
entry_id (some p) h e q = ground (arith, q)

apart_only : (h k : String) → (h == k) ≡ false → (h == only) ≡ true → (k == only) ≡ false
apart_only h k n e = ground (arith, n, eq_iff h only, eq_iff k only, eq_iff h k)

entry_other : (s : Option DnsRecordParams) (k : String) → (k == only) ≡ false → entry s k ≡ none
entry_other none k n = refl
entry_other (some p) k n = ground (arith, n)

create_shows :
    (p : DnsRecordParams) (w : Cloud) (r : DnsRecord)
    → (created p w).0 ≡ ok r
    → entry (created p w).1.site p.name ≡ some (held "r1" p)
create_shows p w r e = ground (arith, e)

create_hides :
    (p : DnsRecordParams) (w : Cloud) (k : String)
    → (p.name == k) ≡ false
    → entry (created p w).1.site k ≡ entry w.site k
create_hides p w k n = ground (arith, n, apart_only p.name k n, entry_other w.site k)

holds_one :
    (i : String) (s : Option DnsRecordParams) (h : String)
    → holds_id i (entry s h) ≡ true
    → "r1" ≡ i
holds_one i none h e = ground (arith, e)
holds_one i (some p) h e = ground (arith, e, eq_iff "r1" i)

update_shows :
    (i : String) (p : DnsRecordParams) (w : Cloud) (r : DnsRecord)
    → holds_id i (entry w.site p.name) ≡ true
    → (updated i p w).0 ≡ ok r
    → entry (updated i p w).1.site p.name ≡ some (held i p)
update_shows i p w r s e = ground (arith, e, holds_one i w.site p.name s)

update_hides :
    (i : String) (p : DnsRecordParams) (w : Cloud) (k : String)
    → (p.name == k) ≡ false
    → entry (updated i p w).1.site k ≡ entry w.site k
update_hides i p w k n = ground (arith, n, apart_only p.name k n, entry_other w.site k)

delete_shows :
    (i : String) (s : Option DnsRecordParams) (h : String)
    → entry (emptied i s) h ≡ without_id i (entry s h)
delete_shows i none h = refl
delete_shows i (some p) h = ground arith

delete_hides :
    (i : String) (s : Option DnsRecordParams) (h : String)
    → holds_id i (entry s h) ≡ false
    → entry (emptied i s) h ≡ entry s h
delete_hides i none h e = refl
delete_hides i (some p) h e = ground (arith, e)

ids_unique :
    (s : Option DnsRecordParams) (h k : String) (e d : Entry)
    → entry s h ≡ some e
    → entry s k ≡ some d
    → (h == k) ≡ true
ids_unique s h k e d q r =
    ground
      (arith, (entry_id s h e q).1, (entry_id s k d r).1, eq_iff h only, eq_iff k only, eq_iff h k)

lists_name :
    (h : String) (w : Cloud) (rs : List DnsRecord)
    → named h ≡ true
    → ok (listed (given h) none w.site) ≡ ok rs
    → rs ≡ values (entry w.site h)
lists_name h w rs d e = ground (arith, d, e)

pub lawful_api : IsLawfulApi client zone
lawful_api = record {
  id_given = λ w h e q. rw ((entry_id w.site h e q).0) refl;
  id_unique = λ w h k e d q r s. ids_unique w.site h k e d q r;
  config_read = λ t w c e. ground arith;
  config_read_only = λ t w. record { same_config = λ u. refl; same_entry = λ h. refl };
  config_written = λ t c d w e. ground (arith, eq_refl t);
  config_write_others = λ t c w u n. ground arith;
  config_write_entries = λ t c w h. refl;
  listed = λ h w rs d e. lists_name h w rs d e;
  list_read_only = λ p w. record { same_config = λ u. refl; same_entry = λ h. refl };
  created = λ p w r d k e. ("r1", refl, create_shows p w r e);
  create_others = λ p w k d n. create_hides p w k n;
  create_configs = λ p w t. ground arith;
  updated = λ i p w r d k s e. update_shows i p w r s e;
  update_others = λ i p w k d s n. update_hides i p w k n;
  update_configs = λ i p w t. ground arith;
  deleted = λ i w h e. delete_shows i w.site h;
  delete_others = λ i w k s. delete_hides i w.site k s;
  delete_configs = λ i w t. refl;
}

-- The record of the only name is the tunnel "t1"'s.
abbrev filled : Cloud
filled = record {
  configs = λ t. record { ingress = []; unread = text "" };
  site = some (dns_params "t1" only);
  ingress = none;
  tunnel = none;
}

entry-some :
    (p : DnsRecordParams) (h : String) (e : Entry) → entry (some p) h ≡ some e → held "r1" p ≡ e
entry-some p h e q = ground (arith, q)

lists_site :
    (c : String) (s : Option DnsRecordParams) (h : String) (e : Entry)
    → entry s h ≡ some e
    → any (λ (r : DnsRecord). r.id == e.value.id) (with_comment c s) ≡ (e.comment == c)
lists_site c none h e q = ground (arith, q)
lists_site c (some p) h e q =
    rw (sym (entry-some p h e q))
      (elim (Bool-cases (p.comment == c)) [ inl b ↦ rw b refl | inr b ↦ rw b refl ])

lists_by_comment : ListsByComment client zone
lists_by_comment c w rs h e q r = rw (sym (ok_eq q)) (lists_site c w.site h e r)

t1-IsPlain : IsPlain "t1"
t1-IsPlain = (refl, (refl, tt))

cleans : (delete_all_dns client "t1" filled).0 ≡ ok tt
unfolding delete_all_dns delete_records dns_comment escape escape_char
cleans = refl

delete_all_dns-exact_example :
    (zone.entry_of filled only ≡ none
      → zone.entry_of (delete_all_dns client "t1" filled).1 only ≡ none)
    × ((e : Entry)
        → zone.entry_of filled only ≡ some e
        → e.comment ≡ dns_comment "t1"
        → zone.entry_of (delete_all_dns client "t1" filled).1 only
          ≡ (if "t1" == "t1" then none else some e))
delete_all_dns-exact_example =
    delete_all_dns-exact client zone lawful_api lists_by_comment "t1" "t1" only filled t1-IsPlain
      t1-IsPlain cleans
