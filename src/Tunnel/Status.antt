-- ===== src/Tunnel/Status.antt =====
-- The conditions of a CloudflareTunnel: `updateStatus` of
-- internal/controller/cloudflaretunnel_controller.go.
pub mod Report
use cloudflare_tunnel_operat.Base.{
  String, Bool, true, false, Option, none, some, List, zero, suc, ◌==◌, if◌then◌else◌,
}
use cloudflare_tunnel_operat.Base.Int.{ℤ, pos, negsuc}
use cloudflare_tunnel_operat.Base.Value.{Value}
use cloudflare_tunnel_operat.Base.Exec.{
  Exec, pure, raise, handle, errors_is, not_found, ◌>>=◌, ◌>>◌,
}
use cloudflare_tunnel_operat.Api.{
  CloudflareTunnel, CloudflareTunnelStatus, Condition, ConditionType, ConditionStatus, available,
  degraded, condition_true, condition_false,
}
use cloudflare_tunnel_operat.Tunnel.Desired.{key_of}
use cloudflare_tunnel_operat.Tunnel.Client.{CloudflareTunnelReconciler, Library, Secret, Deployment}

abbrev pub condition : ConditionType → ConditionStatus → String → String → Condition
condition type status reason message = record {
  type = type;
  status = status;
  reason = reason;
  message = message;
}

abbrev is_zero : ℤ → Bool
is_zero (pos zero) = true
is_zero (pos (suc n)) = false
is_zero (negsuc n) = false

-- Whether an object is there, and the reports on it if it is not.
abbrev pub found : {W A : Type 0} → Exec W A → Exec W (Option A)
found get =
    handle get (λ a. pure (some a)) (λ e. if errors_is e not_found then pure none else raise e)

-- AvailableReplicas of the deployment read; a deployment that is not there has 0.
unfoldable pub no_replicas : Option Deployment → Bool
no_replicas none = true
no_replicas (some d) = is_zero d.available_replicas

module _ (L : Library) where
  unfoldable pub healthy_conditions : List Condition → List Condition
  healthy_conditions cs =
      L.set_status_condition
        (L.set_status_condition cs (condition available condition_true "OK" ""))
        (condition degraded condition_false "OK" "")

  unfoldable pub not_ready : String → List Condition → List Condition
  not_ready message cs =
      L.set_status_condition
        (L.set_status_condition cs (condition degraded condition_true "Reconciling" message))
        (condition available condition_false "Reconciling" "")

  unfoldable pub check_found : {A : Type 0} → String → Option A → List Condition → List Condition
  unfolding not_ready
  check_found message (some a) cs = cs
  check_found message none cs = not_ready message cs

  unfoldable pub check_replicas : Bool → List Condition → List Condition
  check_replicas true cs =
      L.set_status_condition cs
        (condition available condition_false "Unavailable" "AvailableReplicas is 0")
  check_replicas false cs = cs

  -- The conditions after all checks, from what was found.
  unfoldable pub report :
      Option Secret → Option Value → Option Deployment → List Condition → List Condition
  unfolding healthy_conditions check_found no_replicas check_replicas
  report s v d cs = check_replicas (no_replicas d) (
      check_found "Deployment not found" d (
        check_found "Service not found" v
          (check_found "Secret not found" s (healthy_conditions cs))))

abbrev pub with_conditions : CloudflareTunnel → List Condition → CloudflareTunnel
with_conditions t cs = record t { status = record t.status { conditions = cs } }

module _ {W : Type 0} (R : CloudflareTunnelReconciler W) where
  unfoldable pub write_report :
      CloudflareTunnel → Option Secret → Option Value → Option Deployment → Exec W Bool
  unfolding report no_replicas
  write_report t s v d = do
    R.client.update_tunnel_status (with_conditions t (report R.library s v d t.status.conditions))
    pure (no_replicas d)

  unfoldable pub check_objects : CloudflareTunnel → Exec W Bool
  unfolding write_report
  check_objects t = do
    s ← found (R.client.get_secret (key_of t))
    v ← found (R.client.get_service (key_of t))
    d ← found (R.client.get_deployment (key_of t))
    write_report t s v d

  -- The answer is ctrl.Result's Requeue. The resource is a copy: with no tunnel id the conditions
  -- are set on the copy alone.
  unfoldable pub update_status : CloudflareTunnel → Exec W Bool
  unfolding check_objects
  update_status t = if t.status.tunnel_id == "" then pure false else check_objects t
