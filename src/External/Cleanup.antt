-- ===== src/External/Cleanup.antt =====
-- Which records DeleteAllDNS takes away, and which it leaves.
use Prim.Native.Char.{Char, code}
use cloudflare_tunnel_operat.Base.{
  ℕ, String, ◌<>◌, ◌≡◌, refl, sym, ap, ◌∙◌, Bool, false, ◌||◌, Option, none, some, List, [], ◌∷◌,
  ◌==◌, arith, eq_iff, subst, any, eqb, ltb, if◌then◌else◌,
}
use cloudflare_tunnel_operat.Base.Exec.{Result, ok}
use cloudflare_tunnel_operat.Domain.{DnsRecord}
use cloudflare_tunnel_operat.External.{
  CloudflareTunnelClient, ListDnsRecordsParams, delete_all_dns, records_of,
}
use cloudflare_tunnel_operat.External.Comment.{escape_char, escape, dns_comment}
use cloudflare_tunnel_operat.External.Dns.{
  DeletesAll, deleted_none, deleted, delete_all_dns-DeletesAll,
}
use cloudflare_tunnel_operat.External.Zone.{Zone, Entry, IsLawfulApi, without_id}
use text.Mathlib.TextLemmas.{cons-append, nil-append, append_cancel_left, append_cancel_right}

-- A character that JSON writes as it is.
abbrev is_escaped : ℕ → Bool
is_escaped n =
    eqb n 34 || eqb n 92 || ltb n 32 || eqb n 60 || eqb n 62 || eqb n 38 || eqb n 8232 || eqb n 8233

-- A text with none of the characters that JSON escapes, such as a UUID.
abbrev pub IsPlain : String → Type 0
IsPlain String.[] = Unit {0}
IsPlain (String.◌∷◌ c s) = (is_escaped (code c) ≡ false) × IsPlain s

escape_char-plain :
    (c : Char) → is_escaped (code c) ≡ false → escape_char c ≡ String.◌∷◌ c String.[]
unfolding escape_char
escape_char-plain c h = ground arith

escape-plain : (s : String) → IsPlain s → escape s ≡ s
unfolding escape
escape-plain String.[] p = refl
escape-plain (String.◌∷◌ c s) p =
    rw (escape_char-plain c p.0, escape-plain s p.1) (rw (cons-append c "" s, nil-append s) refl)

between-eq :
    (before t u after : String) → (before <> (u <> after) == before <> (t <> after)) ≡ (u == t)
between-eq before t u after = ground (
  arith,
  eq_iff u t,
  eq_iff (before <> (u <> after)) (before <> (t <> after)),
  append_cancel_left before (u <> after) (t <> after),
  append_cancel_right u t after,
)

-- Two tunnels have two comments.
comment-eq : (t u : String) → IsPlain t → IsPlain u → (dns_comment u == dns_comment t) ≡ (u == t)
unfolding dns_comment
comment-eq t u p q =
    rw (escape-plain t p, escape-plain u q)
      (between-eq "{\"managed-by\":\"cloudflare-tunnel-operator\",\"tunnelID\":\"" t u "\"}")

abbrev holds : String → List DnsRecord → Bool
holds i rs = any (λ (r : DnsRecord). r.id == i) rs

-- The entry after the records of a list are deleted.
abbrev without_records : List DnsRecord → Option Entry → Option Entry
without_records rs none = none
without_records rs (some e) = if holds e.value.id rs then none else some e

without_records-nil : (o : Option Entry) → without_records [] o ≡ o
without_records-nil none = refl
without_records-nil (some e) = refl

without_records-cons :
    (r : DnsRecord) (rs : List DnsRecord) (o : Option Entry)
    → without_records rs (without_id r.id o) ≡ without_records (r ∷ rs) o
without_records-cons r rs none = refl
without_records-cons r rs (some e) = ground (arith, eq_iff r.id e.value.id, eq_iff e.value.id r.id)

-- A list by comment and type.
abbrev pub by_comment : String → ListDnsRecordsParams
by_comment c = record { name = none; type = some "CNAME"; comment = some c }

-- A list by comment answers the records with that comment, under any name.
abbrev pub ListsByComment : {W : Type 0} → CloudflareTunnelClient W → Zone W → Type 0
ListsByComment {W} C Z =
    (c : String) (w : W) (rs : List DnsRecord) (h : String) (e : Entry)
    → (C.api.list_dns_records C.zone_id (by_comment c) w).0 ≡ ok rs
    → Z.entry_of w h ≡ some e
    → any (λ (r : DnsRecord). r.id == e.value.id) rs ≡ (e.comment == c)

module _ {W : Type 0} (C : CloudflareTunnelClient W) (Z : Zone W) (L : IsLawfulApi C Z) where
  deleted_one :
      (i h : String) (w w' : W)
      → C.api.delete_dns_record C.zone_id i w ≡ (ok tt, w')
      → Z.entry_of w' h ≡ without_id i (Z.entry_of w h)
  deleted_one i h w w' e =
      subst (λ (v : W). Z.entry_of v h ≡ without_id i (Z.entry_of w h))
        (ap (λ (p : Result (Unit {0}) × W). p.1) e)
        (L.deleted i w h (ap (λ (p : Result (Unit {0}) × W). p.0) e))

  deleted_entry :
      {rs : List DnsRecord} {w w' : W} (h : String)
      → DeletesAll C rs w w'
      → Z.entry_of w' h ≡ without_records rs (Z.entry_of w h)
  deleted_entry h (deleted_none w) = sym (without_records-nil (Z.entry_of w h))
  deleted_entry h (deleted r rs w w₁ w' e d) =
      deleted_entry h d
      ∙ ap (without_records rs) (deleted_one r.id h w w₁ e)
      ∙ without_records-cons r rs (Z.entry_of w h)

  -- After a DeleteAllDNS that succeeds, a record that the operator made for a tunnel is gone if it is
  -- that tunnel's, and is there as before if it is another tunnel's, under whatever name it stands;
  -- and no name without a record has got one. The ids of the tunnels are plain texts, such as UUIDs.
  pub delete_all_dns-exact :
      ListsByComment C Z
      → (t u : String) (h : String) (w : W) → IsPlain t
      → IsPlain u
      → (delete_all_dns C t w).0 ≡ ok tt
      → (Z.entry_of w h ≡ none → Z.entry_of (delete_all_dns C t w).1 h ≡ none)
        × ((e : Entry)
            → Z.entry_of w h ≡ some e
            → e.comment ≡ dns_comment u
            → Z.entry_of (delete_all_dns C t w).1 h ≡ (if u == t then none else some e))
  delete_all_dns-exact B t u h w p q k =
      let (rs, w₁, listed, done) = delete_all_dns-DeletesAll C t w k in
      let now = deleted_entry h done in
      let same : Z.entry_of w₁ h ≡ Z.entry_of w h =
        subst (λ (v : W). Z.entry_of v h ≡ Z.entry_of w h)
          (ap (λ (x : Result (List DnsRecord) × W). x.1) listed)
          ((L.list_read_only (records_of t) w).same_entry h) in
      (
        λ gone. now ∙ ap (without_records rs) (same ∙ gone),
        λ e there made.
            now
            ∙ ap (without_records rs) (same ∙ there)
            ∙ ap (λ (b : Bool). if b then none else some e)
                (B (dns_comment t) w rs h e (ap (λ (x : Result (List DnsRecord) × W). x.0) listed)
                    there
                  ∙ ap (λ (c : String). c == dns_comment t) made
                  ∙ comment-eq t u p q),
      )
