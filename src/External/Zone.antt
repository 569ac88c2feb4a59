-- ===== src/External/Zone.antt =====
-- What the Cloudflare API promises, in terms of what it holds: the configuration of each tunnel of
-- the account, and the CNAME record of each name in the zone, of which there is at most one.
use cloudflare_tunnel_operat.Base.{
  String, ◌≡◌, Bool, true, false, Option, none, some, List, [], ◌∷◌, ◌==◌, if◌then◌else◌,
}
use cloudflare_tunnel_operat.Base.Exec.{ok}
use cloudflare_tunnel_operat.Domain.{TunnelConfiguration, DnsRecord, empty_record}
use cloudflare_tunnel_operat.Manager.Views.{View, named}
use cloudflare_tunnel_operat.External.{
  CloudflareTunnelClient, DnsRecordParams, ListDnsRecordsParams, given,
}
use cloudflare_tunnel_operat.External.Dns.{stored}

-- A record with the comment that was given for it.
pub record Entry : Type 0 where
  pub value : DnsRecord
  pub comment : String

pub record Zone (W : Type 0) : Type 0 where
  pub config_of : W → String → TunnelConfiguration
  pub entry_of : W → String → Option Entry

abbrev pub held : String → DnsRecordParams → Entry
held id p = record { value = stored id p; comment = p.comment }

abbrev pub holds_id : String → Option Entry → Bool
holds_id i none = false
holds_id i (some e) = e.value.id == i

abbrev pub values : Option Entry → List DnsRecord
values none = []
values (some e) = e.value ∷ []

abbrev pub value_or_empty : Option Entry → DnsRecord
value_or_empty none = empty_record
value_or_empty (some e) = e.value

-- The entry after the record with an id is deleted.
abbrev pub without_id : String → Option Entry → Option Entry
without_id i none = none
without_id i (some e) = if e.value.id == i then none else some e

-- A list by name and type.
abbrev pub by_name : String → ListDnsRecordsParams
by_name h = record { name = given h; type = some "CNAME"; comment = none }

-- What the operator sees of the zone.
abbrev pub view_of : {W : Type 0} → Zone W → View W
view_of Z = record { config_of = Z.config_of; record_of = λ w h. value_or_empty (Z.entry_of w h) }

-- A call of one kind of state leaves the other alone, and a read leaves both.
pub record SameZone {W : Type 0} (Z : Zone W) (a b : W) : Type 0 where
  pub same_config : (t : String) → Z.config_of b t ≡ Z.config_of a t
  pub same_entry : (h : String) → Z.entry_of b h ≡ Z.entry_of a h

module _ {W : Type 0} (C : CloudflareTunnelClient W) (Z : Zone W) where
  -- Ids are given and differ; reads answer what is there; a write that reports success did what it
  -- says, and no write touches the records of other ids and names. Nothing is said of the list for
  -- an empty name, which is not sent, so that the list is not filtered by it, nor of a record that is
  -- written with one.
  pub record IsLawfulApi : Type 0 where
    pub id_given :
        (w : W) (h : String) (e : Entry) → Z.entry_of w h ≡ some e → (e.value.id == "") ≡ false
    pub id_unique :
        (w : W) (h k : String) (e d : Entry)
        → Z.entry_of w h ≡ some e
        → Z.entry_of w k ≡ some d
        → (e.value.id == d.value.id) ≡ true
        → (h == k) ≡ true
    pub config_read :
        (t : String) (w : W) (c : TunnelConfiguration)
        → (C.api.get_tunnel_configuration C.account_id t w).0 ≡ ok c
        → c ≡ Z.config_of w t
    pub config_read_only :
        (t : String) (w : W) → SameZone Z w (C.api.get_tunnel_configuration C.account_id t w).1
    pub config_written :
        (t : String) (c d : TunnelConfiguration) (w : W)
        → (C.api.update_tunnel_configuration C.account_id t c w).0 ≡ ok d
        → Z.config_of (C.api.update_tunnel_configuration C.account_id t c w).1 t ≡ c
    pub config_write_others :
        (t : String) (c : TunnelConfiguration) (w : W) (u : String)
        → (t == u) ≡ false
        → Z.config_of (C.api.update_tunnel_configuration C.account_id t c w).1 u ≡ Z.config_of w u
    pub config_write_entries :
        (t : String) (c : TunnelConfiguration) (w : W) (h : String)
        → Z.entry_of (C.api.update_tunnel_configuration C.account_id t c w).1 h ≡ Z.entry_of w h
    pub listed :
        (h : String) (w : W) (rs : List DnsRecord)
        → named h ≡ true
        → (C.api.list_dns_records C.zone_id (by_name h) w).0 ≡ ok rs
        → rs ≡ values (Z.entry_of w h)
    pub list_read_only :
        (p : ListDnsRecordsParams) (w : W) → SameZone Z w (C.api.list_dns_records C.zone_id p w).1
    pub created :
        (p : DnsRecordParams) (w : W) (r : DnsRecord)
        → named p.name ≡ true
        → p.type ≡ "CNAME"
        → (C.api.create_dns_record C.zone_id p w).0 ≡ ok r
        → (id : String) × ((id == "") ≡ false)
          × (Z.entry_of (C.api.create_dns_record C.zone_id p w).1 p.name ≡ some (held id p))
    pub create_others :
        (p : DnsRecordParams) (w : W) (k : String)
        → named p.name ≡ true
        → (p.name == k) ≡ false
        → Z.entry_of (C.api.create_dns_record C.zone_id p w).1 k ≡ Z.entry_of w k
    pub create_configs :
        (p : DnsRecordParams) (w : W) (t : String)
        → Z.config_of (C.api.create_dns_record C.zone_id p w).1 t ≡ Z.config_of w t
    pub updated :
        (i : String) (p : DnsRecordParams) (w : W) (r : DnsRecord)
        → named p.name ≡ true
        → p.type ≡ "CNAME"
        → holds_id i (Z.entry_of w p.name) ≡ true
        → (C.api.update_dns_record C.zone_id i p w).0 ≡ ok r
        → Z.entry_of (C.api.update_dns_record C.zone_id i p w).1 p.name ≡ some (held i p)
    pub update_others :
        (i : String) (p : DnsRecordParams) (w : W) (k : String)
        → named p.name ≡ true
        → holds_id i (Z.entry_of w k) ≡ false
        → (p.name == k) ≡ false
        → Z.entry_of (C.api.update_dns_record C.zone_id i p w).1 k ≡ Z.entry_of w k
    pub update_configs :
        (i : String) (p : DnsRecordParams) (w : W) (t : String)
        → Z.config_of (C.api.update_dns_record C.zone_id i p w).1 t ≡ Z.config_of w t
    pub deleted :
        (i : String) (w : W) (h : String)
        → (C.api.delete_dns_record C.zone_id i w).0 ≡ ok tt
        → Z.entry_of (C.api.delete_dns_record C.zone_id i w).1 h ≡ without_id i (Z.entry_of w h)
    pub delete_others :
        (i : String) (w : W) (k : String)
        → holds_id i (Z.entry_of w k) ≡ false
        → Z.entry_of (C.api.delete_dns_record C.zone_id i w).1 k ≡ Z.entry_of w k
    pub delete_configs :
        (i : String) (w : W) (t : String)
        → Z.config_of (C.api.delete_dns_record C.zone_id i w).1 t ≡ Z.config_of w t
