-- ===== src/Tunnel/Reconcile/Aside.antt =====
-- What a reconcile of a CloudflareTunnel does beside its secret, service and deployment leaves these
-- as they were applied.
use cloudflare_tunnel_operat.Base.{
  ◌≡◌, sym, ap, ◌∙◌, false, ◌==◌, Option, none, some, arith, inl, inr,
}
use cloudflare_tunnel_operat.Base.Value.{Value}
use cloudflare_tunnel_operat.Base.Keeps.{
  Keeps, keeps_wrapping, keeps_handle, keeps_bind, keeps_then, keeps_if, keeps_pure, keeps_raise,
}
use cloudflare_tunnel_operat.Base.Exec.{Exec, Result, Result-cases, ok, errors_is, not_found}
use cloudflare_tunnel_operat.Api.{CloudflareTunnel, NamespacedName, PdbSpec}
use cloudflare_tunnel_operat.Tunnel.Objects.{ServiceMonitor, PodDisruptionBudget}
use cloudflare_tunnel_operat.Tunnel.Desired.{
  key_of, new_service_monitor, mutate_service_monitor, new_pdb, mutate_pdb,
}
use cloudflare_tunnel_operat.Tunnel.Client.{CloudflareTunnelReconciler, Secret, Deployment}
use cloudflare_tunnel_operat.Tunnel.Apply.{reconcile_service_monitor, reconcile_pdb, pdb_of}
use cloudflare_tunnel_operat.Tunnel.Apply.Live.{Live, ObjectKind}
use cloudflare_tunnel_operat.Tunnel.Apply.Lands.{IsReadOnly}
use cloudflare_tunnel_operat.Tunnel.Status.{
  update_status, check_objects, write_report, found, with_conditions, report, no_replicas,
}
use cloudflare_tunnel_operat.Tunnel.Reconcile.{reporting}

-- Writing the CloudflareTunnel itself and the two objects of CreateOrUpdate does not change what
-- was applied to the others.
pub record IsAside {W : Type 0} (R : CloudflareTunnelReconciler W) (V : Live W) : Type 0 where
  pub update_status :
      (t : CloudflareTunnel) (k : ObjectKind) (n : NamespacedName)
      → Keeps (λ w. V w k n) (R.client.update_tunnel_status t)
  pub service_monitor :
      (sm : ServiceMonitor) (f : ServiceMonitor → Result ServiceMonitor) (k : ObjectKind)
      → (n : NamespacedName) → Keeps (λ w. V w k n) (R.client.create_or_update_service_monitor sm f)
  pub pdb :
      (p : PodDisruptionBudget) (f : PodDisruptionBudget → Result PodDisruptionBudget)
      → (k : ObjectKind) (n : NamespacedName)
      → Keeps (λ w. V w k n) (R.client.create_or_update_pdb p f)

module _ {W : Type 0} (R : CloudflareTunnelReconciler W) where
  pub reporting_ok :
      {A : Type 0} (t : CloudflareTunnel) (step : Exec W A) (a : A) (w w' : W)
      → reporting R t step w ≡ (ok a, w')
      → step w ≡ (ok a, w')
  unfolding reporting
  reporting_ok t step a w w' h = elim (Result-cases (step w).0) [
    | inl (b, q) ↦ ground (arith, q)
    | inr (inl (e, q)) ↦ elim (Result-cases (update_status R t (step w).1).0) [
      | inl (b, r) ↦ ground (arith, q, r)
      | inr (inl (d, r)) ↦ ground (arith, q, r)
      | inr (inr (m, r)) ↦ ground (arith, q, r)
    ]
    | inr (inr (m, q)) ↦ ground (arith, q)
  ]

module _ {W : Type 0} (R : CloudflareTunnelReconciler W) (V : Live W) (Q : IsReadOnly R V)
    (S : IsAside R V) (k : ObjectKind) (n : NamespacedName) where
  abbrev slot : W → Option Value
  slot w = V w k n

  keeps_found : {A : Type 0} {get : Exec W A} → Keeps slot get → Keeps slot (found get)
  keeps_found reads =
      keeps_handle slot reads (λ a. keeps_pure slot (some a))
        (λ e. keeps_if slot (errors_is e not_found) (keeps_pure slot none) (keeps_raise slot e))

  keeps_write_report :
      (t : CloudflareTunnel) (s : Option Secret) (v : Option Value) (d : Option Deployment)
      → Keeps slot (write_report R t s v d)
  unfolding write_report
  keeps_write_report t s v d =
      keeps_then slot
        (S.update_status (with_conditions t (report R.library s v d t.status.conditions)) k n)
        (keeps_pure slot (no_replicas d))

  keeps_update_status : (t : CloudflareTunnel) → Keeps slot (update_status R t)
  unfolding update_status check_objects
  keeps_update_status t = keeps_if slot (t.status.tunnel_id == "") (keeps_pure slot false) (
      keeps_bind slot (keeps_found (Q.get_secret (key_of t) k n)) (λ s.
        keeps_bind slot (keeps_found (Q.get_service (key_of t) k n)) (λ v.
          keeps_bind slot (keeps_found (Q.get_deployment (key_of t) k n))
            (λ d. keeps_write_report t s v d))))

  keeps_monitor : (t : CloudflareTunnel) → Keeps slot (reconcile_service_monitor R t)
  unfolding reconcile_service_monitor
  keeps_monitor t =
      keeps_if slot t.spec.enable_service_monitor
        (S.service_monitor (new_service_monitor t)
          (mutate_service_monitor R.library.set_controller_reference t) k n)
        (keeps_pure slot tt)

  keeps_pdb_of : (t : CloudflareTunnel) (p : Option PdbSpec) → Keeps slot (pdb_of R t p)
  unfolding pdb_of
  keeps_pdb_of t none = keeps_pure slot tt
  keeps_pdb_of t (some spec) =
      keeps_wrapping slot "failed to create or update PDB"
        (S.pdb (new_pdb t) (mutate_pdb R.library.set_controller_reference t spec) k n)

  -- The end of a reconcile, once the three objects are applied.
  pub keeps_tail :
      (t : CloudflareTunnel) (w₁ w₂ w₃ : W)
      → reconcile_service_monitor R t w₁ ≡ (ok tt, w₂)
      → reconcile_pdb R t w₂ ≡ (ok tt, w₃)
      → slot (update_status R t w₃).1 ≡ slot w₁
  unfolding reconcile_pdb
  keeps_tail t w₁ w₂ w₃ h p =
      (keeps_update_status t).same w₃
      ∙ sym (ap (λ (x : Result (Unit {0}) × W). slot x.1) p)
      ∙ (keeps_pdb_of t t.spec.pod_disruption_budget).same w₂
      ∙ sym (ap (λ (x : Result (Unit {0}) × W). slot x.1) h)
      ∙ (keeps_monitor t).same w₁
