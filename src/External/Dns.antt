-- ===== src/External/Dns.antt =====
-- What the DNS operations of the Cloudflare client write and delete.
use cloudflare_tunnel_operat.Base.{
  String, ◌≡◌, false, some, List, [], ◌∷◌, ◌==◌, arith, eq_iff, inl, inr, sym, ap, ◌∙◌, subst,
}
use cloudflare_tunnel_operat.Base.Exec.{Result, Exec, Result-cases, ok, flattening, bind_ok}
use cloudflare_tunnel_operat.Domain.{DnsRecord, healthy, tunnel_target}
use cloudflare_tunnel_operat.External.{
  CloudflareTunnelClient, DnsRecordParams, dns_params, delete_records, delete_all_dns, records_of,
}
use text.Mathlib.TextLemmas.{append_cancel_right}

-- The record that is kept for the parameters of a create or an update.
abbrev pub stored : String → DnsRecordParams → DnsRecord
stored id p = record { id = id; type = p.type; content = p.content; proxied = some p.proxied }

target-inj : (t u : String) → (tunnel_target t == tunnel_target u) ≡ (t == u)
target-inj t u = ground (
  arith,
  eq_iff t u,
  eq_iff (tunnel_target t) (tunnel_target u),
  append_cancel_right t u ".cfargotunnel.com",
)

-- A record that AddDNS or UpdateDNS wrote for one tunnel is healthy for a tunnel exactly if that is
-- the same one.
pub stored-healthy :
    (id t u hostname : String)
    → (id == "") ≡ false
    → healthy (stored id (dns_params t hostname)) u ≡ ok (t == u)
unfolding healthy
stored-healthy id t u hostname n = ground (arith, n, target-inj t u)

module _ {W : Type 0} (C : CloudflareTunnelClient W) where
  -- The worlds between the deletes of a list of records: each delete is of the next record of the
  -- list, in the zone of the client, and succeeds.
  pub data DeletesAll : List DnsRecord → W → W → Type 0 where
    deleted_none : (w : W) → DeletesAll [] w w
    deleted :
        (r : DnsRecord) (rs : List DnsRecord) (w w' w'' : W)
        → C.api.delete_dns_record C.zone_id r.id w ≡ (ok tt, w')
        → DeletesAll rs w' w''
        → DeletesAll (r ∷ rs) w w''

  flattened_ok :
      (m : String) (x : Exec W (Unit {0})) (w w' : W)
      → flattening m x w ≡ (ok tt, w')
      → x w ≡ (ok tt, w')
  flattened_ok m x w w' h = elim (Result-cases (x w).0) [
    | inl (a, q) ↦ ground (arith, q)
    | inr (inl (e, q)) ↦ ground (arith, q)
    | inr (inr (s, q)) ↦ ground (arith, q)
  ]

  delete_records_all :
      (rs : List DnsRecord) (w : W)
      → (delete_records C rs w).0 ≡ ok tt
      → DeletesAll rs w (delete_records C rs w).1
  unfolding delete_records
  delete_records_all [] w h = deleted_none w
  delete_records_all (r ∷ rs) w h =
      let delete_one = C.api.delete_dns_record C.zone_id r.id in
      let (_, w', x, e, h') =
        bind_ok (flattening "failed to update tunnel configs" delete_one) (λ _. delete_records C rs)
          w tt h in
      deleted r rs w w' (delete_records C (r ∷ rs) w).1
        (flattened_ok "failed to update tunnel configs" delete_one w w' x)
        (subst (λ (v : W). DeletesAll rs w' v) (sym (ap (λ (p : Result (Unit {0}) × W). p.1) e))
          (delete_records_all rs w' h'))

  -- A DeleteAllDNS that succeeds has listed the CNAME records with the tunnel's comment, under any
  -- hostname, and has deleted every record of the list, one after the other.
  pub delete_all_dns-DeletesAll :
      (tunnel_id : String) (w : W)
      → (delete_all_dns C tunnel_id w).0 ≡ ok tt
      → (records : List DnsRecord) × (w' : W) × (C.api.list_dns_records C.zone_id
            (records_of tunnel_id)
            w
          ≡ (ok records, w'))
        × DeletesAll records w' (delete_all_dns C tunnel_id w).1
  unfolding delete_all_dns
  delete_all_dns-DeletesAll tunnel_id w h =
      elim (Result-cases (C.api.list_dns_records C.zone_id (records_of tunnel_id) w).0) [
        | inl (records, q) ↦
            let w' = (C.api.list_dns_records C.zone_id (records_of tunnel_id) w).1 in
            let e : delete_all_dns C tunnel_id w ≡ delete_records C records w' =
              ground (arith, q) in
            (
              records,
              w',
              ground (arith, q),
              subst (λ (v : W). DeletesAll records w' v)
                  (sym (ap (λ (p : Result (Unit {0}) × W). p.1) e))
                  (delete_records_all records w'
                    (sym (ap (λ (p : Result (Unit {0}) × W). p.0) e) ∙ h)),
            )
        | inr (inl (e, q)) ↦ ground (arith, q)
        | inr (inr (s, q)) ↦ ground (arith, q)
      ]
