-- ===== src/Examples/Memory.antt =====
-- The simplest world: one Ingress, one tunnel resource, the configuration of every tunnel and the
-- owner of every hostname's record. Every call succeeds, or finds nothing.
use text.Mathlib.TextLemmas.{append_cancel_left}
use Prim.Native.Char.{Char}
use Prim.Native.String.compare
use text.Mathlib.TextLemmas.{cons-append}
use cloudflare_tunnel_operat.Base.{
  String, ◌<>◌, ◌≡◌, refl, true, false, Option, none, some, List, [], ◌∷◌, ◌==◌, eq_iff, eq_refl,
  arith, if◌then◌else◌, any,
}
use cloudflare_tunnel_operat.Base.Exec.{Result, ok, err, sentinel, not_found}
use cloudflare_tunnel_operat.Api.{CloudflareTunnel}
use cloudflare_tunnel_operat.Domain.{
  TunnelConfiguration, DnsRecord, empty_record, tunnel_target, healthy,
}
use cloudflare_tunnel_operat.Cluster.{Ingress, IngressClient, Finalizers}
use cloudflare_tunnel_operat.Manager.{CloudflareTunnelManager}
use cloudflare_tunnel_operat.Manager.Views.{View, IsLawful, named}
use cloudflare_tunnel_operat.Ingress.Reconcile.{IngressReconciler}
use cloudflare_tunnel_operat.Ingress.Reconcile.Correct.{IsApart}

pub record World : Type 0 where
  pub configs : String → TunnelConfiguration
  pub owners : String → Option String
  pub ingress : Option Ingress
  pub tunnel : Option CloudflareTunnel

abbrev pub record_id : String → String
record_id h = "id-" <> h

abbrev pub owned : String → Option String → DnsRecord
owned h none = empty_record
owned h (some t) = record {
  id = record_id h;
  type = "CNAME";
  content = tunnel_target t;
  proxied = some true;
}

abbrev pub answer : {A : Type 0} → Option A → Result A
answer none = err (sentinel not_found)
answer (some a) = ok a

abbrev pub manager : CloudflareTunnelManager World
manager = record {
  create_tunnel = λ n w. (ok (record { id = "new"; name = n }), w);
  delete_tunnel = λ t w. (ok tt, w);
  get_tunnel = λ t w. (ok (record { id = t; name = t }), w);
  get_tunnel_token = λ t w. (ok "token", w);
  get_tunnel_configuration = λ t w. (ok (w.configs t), w);
  update_tunnel_configuration =
      λ t c w. (ok tt, record w { configs = λ u. if t == u then c else w.configs u });
  add_dns = λ t h w. (ok tt, record w { owners = λ k. if h == k then some t else w.owners k });
  get_dns = λ t h w. (ok (owned h (w.owners h)), w);
  update_dns = λ t h r w. (ok tt, record w { owners = λ k. if h == k then some t else w.owners k });
  delete_dns =
      λ t i w. (ok tt, record w { owners = λ k. if record_id k == i then none else w.owners k });
  delete_all_dns = λ t w. (ok tt, w);
}

abbrev pub view : View World
view = record { config_of = λ w t. w.configs t; record_of = λ w h. owned h (w.owners h) }

abbrev pub client : IngressClient World
client = record {
  get_ingress = λ n w. (answer w.ingress, w);
  update_ingress = λ i w. (ok i, record w { ingress = some i });
  get_cloudflare_tunnel = λ n w. (answer w.tunnel, w);
  list_cloudflare_tunnels = λ k v w.
      (ok (record { items = elim w.tunnel [ none ↦ [] | some t ↦ t ∷ [] ]; more = false }), w);
}

abbrev remove_all : List String → String → List String
remove_all [] f = []
remove_all (x ∷ xs) f = let rest = remove_all xs f in if x == f then rest else x ∷ rest

abbrev pub finalizers : Finalizers
finalizers = record {
  contains_finalizer = λ l f. any (λ x. x == f) l;
  add_finalizer = λ l f. if any (λ x. x == f) l then l else f ∷ l;
  remove_finalizer = remove_all;
}

abbrev pub reconciler : IngressReconciler World
reconciler = record {
  client = client;
  manager = manager;
  finalizers = finalizers;
  parse_addr = λ s. if s == "" then none else some s;
}

pub apart : IsApart client view
apart = record {
  get_ingress = λ n w u. refl;
  update_ingress = λ i w u. refl;
  get_tunnel = λ n w u. refl;
  list_tunnels = λ k v w u. refl;
}

abbrev letter_i : Char
letter_i = "i"

record_id-filled : (h : String) → (record_id h == "") ≡ false
record_id-filled h =
    let e : record_id h ≡ String.◌∷◌ letter_i ("d-" <> h) = cons-append letter_i "d-" h in
    rw e (ground (arith, compare.cons-nil letter_i ("d-" <> h)))

record_id-inj : (h k : String) → (record_id h == record_id k) ≡ true → (h == k) ≡ true
record_id-inj h k e =
    (eq_iff h k).1 (append_cancel_left "id-" h k ((eq_iff (record_id h) (record_id k)).0 e))

owned-healthy : (t h : String) → healthy (owned h (some t)) t ≡ ok true
unfolding healthy
owned-healthy t h = ground (arith, record_id-filled h, eq_refl (tunnel_target t))

delete_gone :
    (h i : String) (o : Option String)
    → i ≡ (owned h o).id
    → (i == "") ≡ false
    → ((owned h (if record_id h == i then none else o)).id == "") ≡ true
delete_gone h i none s n = ground (arith, eq_iff i "")
delete_gone h i (some t) s n = rw (s, eq_refl (record_id h))

pub lawful : IsLawful manager view named
lawful = record {
  get_config_ok = λ t w c e. ground arith;
  get_config_config = λ t w u. refl;
  get_config_record = λ t w h. refl;
  update_config_ok = λ t c w e. ground (arith, eq_refl t);
  update_config_others = λ t c w u n. ground arith;
  update_config_record = λ t c w h. refl;
  get_dns_ok = λ t h w r d e. ground arith;
  get_dns_config = λ t h w u. refl;
  get_dns_record = λ t h w k. refl;
  add_dns_ok = λ t h w d g e. rw eq_refl (owned-healthy t h);
  add_dns_config = λ t h w u. refl;
  add_dns_others = λ t h w k d n. ground arith;
  update_dns_ok = λ t h r w d s i e. rw eq_refl (owned-healthy t h);
  update_dns_config = λ t h r w u. refl;
  update_dns_others = λ t h r w k d s n. ground arith;
  delete_dns_ok = λ t h i w s n e. delete_gone h i (w.owners h) s n;
  delete_dns_config = λ t i w u. refl;
  delete_dns_others = λ t h i w k s n d. ground (
    arith,
    s,
    eq_iff (record_id k) i,
    record_id-inj k h,
    eq_iff h k,
    eq_iff k h,
    eq_iff (record_id k) (record_id h),
    eq_iff i "",
  );
}
