-- ===== src/Ingress/Reconcile/Correct.antt =====
-- What a reconcile of an Ingress leaves behind on the Cloudflare side, over any API server and any
-- lawful manager.
use cloudflare_tunnel_operat.Base.{
  String, ◌≡◌, sym, ◌∙◌, ap, Bool, true, false, List, ◌==◌, arith, All, if◌then◌else◌, subst, inl,
  inr,
}
use cloudflare_tunnel_operat.Base.Exec.{Exec, Result, Result-cases, ok, wrapping, ◌>>◌}
use cloudflare_tunnel_operat.Api.{NamespacedName, CloudflareTunnel}
use cloudflare_tunnel_operat.Cluster.{Ingress, IngressClient}
use cloudflare_tunnel_operat.Manager.Views.{View, IsLawful, IsHealthy, IsGone}
use cloudflare_tunnel_operat.Ingress.Hosts.{Host, get_hosts}
use cloudflare_tunnel_operat.Ingress.Annotations.{
  detect_cloudflare_tunnel_name, check_to_be_ignored,
}
use cloudflare_tunnel_operat.Ingress.Rules.{append_rules, remove_rules}
use cloudflare_tunnel_operat.Ingress.Sync.{
  for_hosts, append_cloudflare_tunnel_config, remove_cloudflare_tunnel_config, append_dns_record,
  remove_dns_record,
}
use cloudflare_tunnel_operat.Ingress.Sync.Correct.{
  append_config_ok, remove_config_ok, append_dns_config, append_dns_ok, append_dns_keeps, AllServed,
  remove_dns_config, remove_dns_ok, remove_dns_keeps, loop_config, loop_made,
}
use cloudflare_tunnel_operat.Ingress.Reconcile.{
  IngressReconciler, get_cloudflare_tunnel, withdraw, publish, ensure_finalizer, reconcile_hosts,
  reconcile_present, reconcile, address_of,
}

-- Two steps that succeed one after the other.
pub seq_ok :
    {W : Type 0} (m n : String) (x y : Exec W (Unit {0})) (w : W)
    → ((wrapping m x >> wrapping n y) w).0 ≡ ok tt
    → ((x w).0 ≡ ok tt)
      × ((y (x w).1).0 ≡ ok tt)
      × (((wrapping m x >> wrapping n y) w).1 ≡ (y (x w).1).1)
seq_ok m n x y w e = ground arith

module _ {W : Type 0} (V : View W) where
  -- The tunnel's rules are the old ones with the hosts, and each host has a healthy record.
  pub record IsPublished (t : CloudflareTunnel) (ip : String) (hosts : List Host) (before after : W)
      : Type 0 where
    pub rules :
        V.config_of after t.status.tunnel_id
        ≡ append_rules t.spec.settings ip hosts (V.config_of before t.status.tunnel_id)
    pub records : All (λ (h : Host). IsHealthy V t.status.tunnel_id h.host after) hosts

  -- The tunnel's rules are the old ones without the hosts, and no host has a record.
  pub record IsWithdrawn (t : CloudflareTunnel) (hosts : List Host) (before after : W)
      : Type 0 where
    pub rules :
        V.config_of after t.status.tunnel_id
        ≡ remove_rules t.spec.settings hosts (V.config_of before t.status.tunnel_id)
    pub records : All (λ (h : Host). IsGone V h.host after) hosts

-- Reading and writing Kubernetes objects does not touch the Cloudflare side.
pub record IsApart {W : Type 0} (C : IngressClient W) (V : View W) : Type 0 where
  pub get_ingress :
      (n : NamespacedName) (w : W) (u : String)
      → V.config_of (C.get_ingress n w).1 u ≡ V.config_of w u
  pub update_ingress :
      (i : Ingress) (w : W) (u : String) → V.config_of (C.update_ingress i w).1 u ≡ V.config_of w u
  pub get_tunnel :
      (n : NamespacedName) (w : W) (u : String)
      → V.config_of (C.get_cloudflare_tunnel n w).1 u ≡ V.config_of w u
  pub list_tunnels :
      (k v : String) (w : W) (u : String)
      → V.config_of (C.list_cloudflare_tunnels k v w).1 u ≡ V.config_of w u

module _ {W : Type 0} (R : IngressReconciler W) where
  -- How a reconcile gets to the hosts of an Ingress that is there and not deleted: the object after
  -- its finalizer was seen to, and the tunnel that its annotations name, or the default one.
  pub record Reaches (request : NamespacedName) (i : Ingress) (t : CloudflareTunnel) (w w' : W)
      : Type 0 where
    pub found : Ingress
    pub found_ok : (R.client.get_ingress request w).0 ≡ ok found
    pub present : found.metadata.deleting ≡ false
    pub ensured : (ensure_finalizer R found (R.client.get_ingress request w).1).0 ≡ ok i
    pub tunnel_name : NamespacedName
    pub detected : detect_cloudflare_tunnel_name i.metadata.annotations ≡ ok tunnel_name
    pub tunnel_ok :
        get_cloudflare_tunnel R tunnel_name
          (ensure_finalizer R found (R.client.get_ingress request w).1).1
        ≡ (ok t, w')

module _ {W : Type 0} (R : IngressReconciler W) (V : View W) where
  -- What a successful reconcile has done with the hosts of an Ingress and its tunnel.
  abbrev pub IsSynced : Ingress → CloudflareTunnel → W → W → Type 0
  IsSynced i t before after =
      (ip : String) × (address_of R i.load_balancer ≡ ok ip)
      × (if check_to_be_ignored i.metadata.annotations
          then IsWithdrawn V t (get_hosts i.spec) before after
          else IsPublished V t ip (get_hosts i.spec) before after)

module _ {W : Type 0} (R : IngressReconciler W) (V : View W) {served : String → Bool}
    (L : IsLawful R.manager V served) where
  pub publish_ok :
      (t : CloudflareTunnel) (hosts : List Host) (ip : String) (w : W)
      → AllServed served hosts
      → (publish R t.status.tunnel_id hosts ip t.spec.settings w).0 ≡ ok tt
      → IsPublished V t ip hosts w (publish R t.status.tunnel_id hosts ip t.spec.settings w).1
  unfolding publish
  publish_ok t hosts ip w a e =
      let id = t.status.tunnel_id in
      let add = λ (h : String). append_dns_record R.manager id h in
      let config = append_cloudflare_tunnel_config R.manager id hosts ip t.spec.settings in
      let (first, rest, end) =
        seq_ok "failed to update Cloudflare Tunnel config" "failed to update Cloudflare DNS Record"
          config (for_hosts (λ h. add h.host) hosts) w e in
      let w₁ = (config w).1 in
      subst (IsPublished V t ip hosts w) (sym end) (record {
        rules =
            loop_config R.manager V L (IsHealthy V id) add (append_dns_config R.manager V L id)
              (append_dns_ok R.manager V L id) (append_dns_keeps R.manager V L id) hosts w₁ id
            ∙ append_config_ok R.manager V L id hosts ip t.spec.settings w first;
        records =
            loop_made R.manager V L (IsHealthy V id) add (append_dns_config R.manager V L id)
              (append_dns_ok R.manager V L id) (append_dns_keeps R.manager V L id) hosts w₁ a rest;
      })

  -- The two steps of `withdraw` and of `finalizeIngress`, whatever the messages are.
  pub IsWithdrawn-ok :
      (m n : String) (t : CloudflareTunnel) (hosts : List Host) (w : W)
      → AllServed served hosts
      → let id = t.status.tunnel_id in
        let steps =
          wrapping m (remove_cloudflare_tunnel_config R.manager id hosts t.spec.settings)
          >> wrapping n (for_hosts (λ h. remove_dns_record R.manager id h.host) hosts) in
        (steps w).0 ≡ ok tt → IsWithdrawn V t hosts w (steps w).1
  IsWithdrawn-ok m n t hosts w a e =
      let id = t.status.tunnel_id in
      let remove = λ (h : String). remove_dns_record R.manager id h in
      let config = remove_cloudflare_tunnel_config R.manager id hosts t.spec.settings in
      let (first, rest, end) = seq_ok m n config (for_hosts (λ h. remove h.host) hosts) w e in
      let w₁ = (config w).1 in
      subst (IsWithdrawn V t hosts w) (sym end) (record {
        rules =
            loop_config R.manager V L (IsGone V) remove (remove_dns_config R.manager V L id)
              (remove_dns_ok R.manager V L id) (remove_dns_keeps R.manager V L id) hosts w₁ id
            ∙ remove_config_ok R.manager V L id hosts t.spec.settings w first;
        records =
            loop_made R.manager V L (IsGone V) remove (remove_dns_config R.manager V L id)
              (remove_dns_ok R.manager V L id) (remove_dns_keeps R.manager V L id) hosts w₁ a rest;
      })

  -- A successful call has passed every test, and did one of the two things.
  hosts_passed :
      (i : Ingress) (t : CloudflareTunnel) (w : W)
      → (reconcile_hosts R i t w).0 ≡ ok tt
      → (ip : String) × (t.metadata.deleting ≡ false)
        × ((t.status.tunnel_id == "") ≡ false)
        × (address_of R i.load_balancer ≡ ok ip)
        × (reconcile_hosts R i t w
            ≡ (if check_to_be_ignored i.metadata.annotations
                  then withdraw R t.status.tunnel_id (get_hosts i.spec) t.spec.settings
                  else publish R t.status.tunnel_id (get_hosts i.spec) ip t.spec.settings)
                w)
  unfolding reconcile_hosts
  hosts_passed i t w e = elim (Result-cases (address_of R i.load_balancer)) [
    | inl (ip, a) ↦ (ip, ground arith, ground arith, a, ground (arith, a))
    | inr (inl (m, n)) ↦ absurd (ground (arith, n))
    | inr (inr (m, n)) ↦ absurd (ground (arith, n))
  ]

  sync_ok :
      (b : Bool) (t : CloudflareTunnel) (hosts : List Host) (ip : String) (w : W)
      → AllServed served hosts
      → ((if b
            then withdraw R t.status.tunnel_id hosts t.spec.settings
            else publish R t.status.tunnel_id hosts ip t.spec.settings)
          w).0
        ≡ ok tt
      → let after =
          ((if b
              then withdraw R t.status.tunnel_id hosts t.spec.settings
              else publish R t.status.tunnel_id hosts ip t.spec.settings)
            w).1 in
        if b then IsWithdrawn V t hosts w after else IsPublished V t ip hosts w after
  unfolding withdraw
  sync_ok true t hosts ip w a e =
      IsWithdrawn-ok "failed to update Cloudflare Tunnel config"
        "failed to update Cloudflare DNS Record" t hosts w a e
  sync_ok false t hosts ip w a e = publish_ok t hosts ip w a e

  reconcile_hosts_ok :
      (i : Ingress) (t : CloudflareTunnel) (w : W)
      → AllServed served (get_hosts i.spec)
      → (reconcile_hosts R i t w).0 ≡ ok tt
      → (t.metadata.deleting ≡ false)
        × ((t.status.tunnel_id == "") ≡ false)
        × IsSynced R V i t w (reconcile_hosts R i t w).1
  reconcile_hosts_ok i t w a e =
      let (ip, alive, named, address, same) = hosts_passed i t w e in
      (
        alive,
        named,
        (
          ip,
          address,
          subst
              (λ (r : Result (Unit {0}) × W).
                if check_to_be_ignored i.metadata.annotations
                then IsWithdrawn V t (get_hosts i.spec) w r.1
                else IsPublished V t ip (get_hosts i.spec) w r.1)
              (sym same)
              (sync_ok (check_to_be_ignored i.metadata.annotations) t (get_hosts i.spec) ip w a
                (ap (λ (r : Result (Unit {0}) × W). r.0) (sym same) ∙ e)),
        ),
      )

  pub reconcile-Reaches :
      (request : NamespacedName) (i : Ingress) (t : CloudflareTunnel) (w w' : W)
      → Reaches R request i t w w'
      → reconcile R request w ≡ reconcile_hosts R i t w'
  unfolding reconcile reconcile_present
  reconcile-Reaches request i t w w' h =
      ground (arith, h.found_ok, h.present, h.ensured, h.detected, h.tunnel_ok)

  pub ensure_config :
      IsApart R.client V
      → (i : Ingress) (w : W) (u : String)
      → V.config_of (ensure_finalizer R i w).1 u ≡ V.config_of w u
  unfolding ensure_finalizer
  ensure_config A i w u = grind (arith, A.update_ingress)

  pub tunnel_config :
      IsApart R.client V
      → (n : NamespacedName) (w : W) (u : String)
      → V.config_of (get_cloudflare_tunnel R n w).1 u ≡ V.config_of w u
  unfolding get_cloudflare_tunnel
  tunnel_config A n w u = grind (arith, A.get_tunnel, A.list_tunnels)

  -- The reads and the finalizer's update on the way leave every configuration as it was.
  Reaches-config :
      IsApart R.client V
      → (request : NamespacedName) (i : Ingress) (t : CloudflareTunnel) (w w' : W)
      → Reaches R request i t w w'
      → (u : String) → V.config_of w' u ≡ V.config_of w u
  Reaches-config A request i t w w' h u =
      let w₁ = (R.client.get_ingress request w).1 in
      let w₂ = (ensure_finalizer R h.found w₁).1 in
      ap (λ (r : Result CloudflareTunnel × W). V.config_of r.1 u) (sym h.tunnel_ok)
      ∙ tunnel_config A h.tunnel_name w₂ u
      ∙ ensure_config A h.found w₁ u
      ∙ A.get_ingress request w u

  pub from_before :
      (b : Bool) (t : CloudflareTunnel) (hosts : List Host) (ip : String) (w w' after : W)
      → V.config_of w' t.status.tunnel_id ≡ V.config_of w t.status.tunnel_id
      → (if b then IsWithdrawn V t hosts w' after else IsPublished V t ip hosts w' after)
      → if b then IsWithdrawn V t hosts w after else IsPublished V t ip hosts w after
  from_before true t hosts ip w w' after e h = record {
    rules = h.rules ∙ ap (remove_rules t.spec.settings hosts) e;
    records = h.records;
  }
  from_before false t hosts ip w w' after e h = record {
    rules = h.rules ∙ ap (append_rules t.spec.settings ip hosts) e;
    records = h.records;
  }

  -- For an Ingress that is there and not deleted, whose finalizer could be seen to, whose tunnel was
  -- found, and whose hosts the manager serves: if the reconcile succeeds, the tunnel is not being
  -- deleted and has an id, the load balancer has an address, and on the Cloudflare side, if the Ingress
  -- is not to be ignored, the tunnel's rules are the old ones with the hosts added and every host has a
  -- healthy record of the tunnel; if it is to be ignored, the rules are the old ones without the hosts
  -- and no host has a record. A reconcile that finds no default tunnel is not of this kind.
  pub reconcile-IsSynced :
      IsApart R.client V
      → (request : NamespacedName) (i : Ingress) (t : CloudflareTunnel) (w w' : W)
      → Reaches R request i t w w'
      → AllServed served (get_hosts i.spec)
      → (reconcile R request w).0 ≡ ok tt
      → (t.metadata.deleting ≡ false)
        × ((t.status.tunnel_id == "") ≡ false)
        × IsSynced R V i t w (reconcile R request w).1
  reconcile-IsSynced A request i t w w' h a e =
      let same = reconcile-Reaches request i t w w' h in
      let (alive, named, (ip, address, synced)) =
        reconcile_hosts_ok i t w' a (ap (λ (r : Result (Unit {0}) × W). r.0) (sym same) ∙ e) in
      (
        alive,
        named,
        (
          ip,
          address,
          from_before (check_to_be_ignored i.metadata.annotations) t (get_hosts i.spec) ip w w'
              (reconcile R request w).1 (Reaches-config A request i t w w' h t.status.tunnel_id)
              (subst
                (λ (r : Result (Unit {0}) × W).
                  if check_to_be_ignored i.metadata.annotations
                  then IsWithdrawn V t (get_hosts i.spec) w' r.1
                  else IsPublished V t ip (get_hosts i.spec) w' r.1)
                (sym same) synced),
        ),
      )
