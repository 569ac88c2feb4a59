-- ===== src/Examples/Endings.antt =====
-- How reconciles of the Ingress in memory end.
use cloudflare_tunnel_operat.Base.{String, ◌≡◌, refl, true, false, Option, none, some, ◌≢◌, arith}
use cloudflare_tunnel_operat.Base.Exec.{ok, panic, pure, ◌>>◌}
use cloudflare_tunnel_operat.Base.Ends.{Outcome, Any}
use cloudflare_tunnel_operat.Ingress.Hosts.{get_hosts}
use cloudflare_tunnel_operat.Ingress.Sync.Ends.{IsEnding, IsComplete}
use cloudflare_tunnel_operat.Ingress.Reconcile.{reconcile, finalize_ingress, without_finalizer}
use cloudflare_tunnel_operat.Ingress.Reconcile.Correct.{IsSynced, IsWithdrawn}
use cloudflare_tunnel_operat.Ingress.Reconcile.Ends.{IsAnswering, reconcile-never_panics}
use cloudflare_tunnel_operat.Ingress.Reconcile.Total.{reconcile-succeeds, reconcile-lets_go}
use cloudflare_tunnel_operat.Examples.Memory.{
  World, view, manager, client, reconciler, apart, lawful, owned, answer, finalizers,
}
use cloudflare_tunnel_operat.Examples.Ingresses.{
  shop, tunnel, request, tunnel_name, before, leaving, reaches, finds, detects, served,
}

abbrev Always : World → Type 0
Always w = Unit {0}

owned-IsComplete : (h : String) (o : Option String) → IsComplete (owned h o)
owned-IsComplete h none n = absurd (ground (arith, n))
owned-IsComplete h (some t) n = (true, refl)

outcome-answer : {A : Type 0} (o : Option A) → Outcome (Unit {0}) Any (answer o)
outcome-answer none = tt
outcome-answer (some a) = tt

ending : (F : Type 0) → IsEnding manager Always F
ending F = record {
  get_config = λ t. record { stays = λ w i. tt; outcome = λ w i. tt };
  update_config = λ t c. record { stays = λ w i. tt; outcome = λ w i. tt };
  get_dns = λ t h. record { stays = λ w i. tt; outcome = λ w i. owned-IsComplete h (w.owners h) };
  add_dns = λ t h. record { stays = λ w i. tt; outcome = λ w i. tt };
  update_dns = λ t h r. record { stays = λ w i. tt; outcome = λ w i. tt };
  delete_dns = λ t i. record { stays = λ w i. tt; outcome = λ w i. tt };
}

answering : IsAnswering client Always
answering = record {
  get_ingress = λ n. record { stays = λ w i. tt; outcome = λ w i. outcome-answer w.ingress };
  update_ingress = λ i. record { stays = λ w i. tt; outcome = λ w i. tt };
  get_tunnel = λ n. record { stays = λ w i. tt; outcome = λ w i. outcome-answer w.tunnel };
  list_tunnels = λ k v. record { stays = λ w i. tt; outcome = λ w i. tt };
}

reconcile-never_panics_example : (reconcile reconciler request before).0 ≢ panic "nil"
reconcile-never_panics_example =
    reconcile-never_panics reconciler (ending (Unit {0})) answering request before "nil" tt

reconcile-succeeds_example :
    ((reconcile reconciler request before).0 ≡ ok tt)
    × IsSynced reconciler view (shop false) tunnel before (reconcile reconciler request before).1
reconcile-succeeds_example =
    reconcile-succeeds reconciler (ending ⊥) view lawful apart request (shop false) tunnel
      "192.168.0.1" before before reaches (served false) tt refl refl refl

reconcile-lets_go_example :
    IsWithdrawn view tunnel
      (get_hosts (shop true).spec)
      leaving
      (finalize_ingress reconciler (shop true) leaving).1
    × (reconcile reconciler request leaving
        ≡ (client.update_ingress (without_finalizer finalizers (shop true)) >> pure tt)
            (finalize_ingress reconciler (shop true) leaving).1)
reconcile-lets_go_example =
    reconcile-lets_go reconciler (ending ⊥) view lawful apart request (shop true) tunnel_name tunnel
      leaving leaving leaving refl refl (served true) refl detects finds tt refl refl
