-- ===== src/Tunnel/Status/Report.antt =====
-- What the conditions of a CloudflareTunnel say after `updateStatus`.
use cloudflare_tunnel_operat.Base.{
  String, ◌≡◌, refl, ◌∙◌, Bool, true, false, Option, none, some, List, [], ◌∷◌, ◌==◌, arith, inl,
  inr, if◌then◌else◌,
}
use cloudflare_tunnel_operat.Base.Value.{Value}
use cloudflare_tunnel_operat.Base.Exec.{Result-cases, ok, pure, bind_ok, ◌>>◌}
use cloudflare_tunnel_operat.Api.{
  CloudflareTunnel, Condition, ConditionType, available, degraded, condition_true, condition_false,
}
use cloudflare_tunnel_operat.Tunnel.Desired.{key_of}
use cloudflare_tunnel_operat.Tunnel.Client.{CloudflareTunnelReconciler, Library, Secret, Deployment}
use cloudflare_tunnel_operat.Tunnel.Status.{
  healthy_conditions, not_ready, check_found, no_replicas, check_replicas, report, found,
  with_conditions, write_report, check_objects, update_status, condition,
}

abbrev pub same_type : ConditionType → ConditionType → Bool
same_type available available = true
same_type degraded degraded = true
same_type _ _ = false

-- meta.FindStatusCondition
unfoldable pub condition_of : ConditionType → List Condition → Option Condition
condition_of t [] = none
condition_of t (c ∷ cs) = if same_type t c.type then some c else condition_of t cs

-- What meta.SetStatusCondition promises: the condition of that type is the given one, and the
-- other types keep theirs.
pub record IsSetter (L : Library) : Type 0 where
  pub sets :
      (cs : List Condition) (c : Condition)
      → condition_of c.type (L.set_status_condition cs c) ≡ some c
  pub keeps :
      (cs : List Condition) (c : Condition) (t : ConditionType)
      → same_type t c.type ≡ false
      → condition_of t (L.set_status_condition cs c) ≡ condition_of t cs

-- The condition that the three objects deserve: the last one missing gives the message.
unfoldable pub degraded_of : Option Secret → Option Value → Option Deployment → Condition
degraded_of s v none = condition degraded condition_true "Reconciling" "Deployment not found"
degraded_of s none (some d) = condition degraded condition_true "Reconciling" "Service not found"
degraded_of none (some v) (some d) =
    condition degraded condition_true "Reconciling" "Secret not found"
degraded_of (some s) (some v) (some d) = condition degraded condition_false "OK" ""

abbrev when_replicas : Option Secret → Option Value → Condition
when_replicas (some s) (some v) = condition available condition_true "OK" ""
when_replicas none v = condition available condition_false "Reconciling" ""
when_replicas (some s) none = condition available condition_false "Reconciling" ""

unfoldable pub available_of : Option Secret → Option Value → Option Deployment → Condition
available_of s v d =
    if no_replicas d
    then condition available condition_false "Unavailable" "AvailableReplicas is 0"
    else when_replicas s v

module _ (L : Library) (I : IsSetter L) where
  not_ready_available :
      (m : String) (cs : List Condition)
      → condition_of available (not_ready L m cs)
        ≡ some (condition available condition_false "Reconciling" "")
  unfolding not_ready
  not_ready_available m cs = I.sets _ _

  not_ready_degraded :
      (m : String) (cs : List Condition)
      → condition_of degraded (not_ready L m cs)
        ≡ some (condition degraded condition_true "Reconciling" m)
  unfolding not_ready
  not_ready_degraded m cs = I.keeps _ _ degraded refl ∙ I.sets _ _

  healthy_available :
      (cs : List Condition)
      → condition_of available (healthy_conditions L cs)
        ≡ some (condition available condition_true "OK" "")
  unfolding healthy_conditions
  healthy_available cs = I.keeps _ _ available refl ∙ I.sets _ _

  healthy_degraded :
      (cs : List Condition)
      → condition_of degraded (healthy_conditions L cs)
        ≡ some (condition degraded condition_false "OK" "")
  unfolding healthy_conditions
  healthy_degraded cs = I.sets _ _

  check_replicas_available :
      (b : Bool) (cs : List Condition)
      → condition_of available (check_replicas L b cs) ≡ (
          if b
          then some (condition available condition_false "Unavailable" "AvailableReplicas is 0")
          else condition_of available cs)
  unfolding check_replicas
  check_replicas_available true cs = I.sets _ _
  check_replicas_available false cs = refl

  check_replicas_degraded :
      (b : Bool) (cs : List Condition)
      → condition_of degraded (check_replicas L b cs) ≡ condition_of degraded cs
  unfolding check_replicas
  check_replicas_degraded true cs = I.keeps _ _ degraded refl
  check_replicas_degraded false cs = refl

  report_available :
      (s : Option Secret) (v : Option Value) (d : Option Deployment) (cs : List Condition)
      → condition_of available (report L s v d cs) ≡ some (available_of s v d)
  unfolding report check_found no_replicas available_of
  report_available s v none cs = rw check_replicas_available refl
  report_available none none (some d) cs =
      rw (check_replicas_available, not_ready_available) (ground arith)
  report_available none (some v) (some d) cs =
      rw (check_replicas_available, not_ready_available) (ground arith)
  report_available (some s) none (some d) cs =
      rw (check_replicas_available, not_ready_available) (ground arith)
  report_available (some s) (some v) (some d) cs =
      rw (check_replicas_available, healthy_available) (ground arith)

  report_degraded :
      (s : Option Secret) (v : Option Value) (d : Option Deployment) (cs : List Condition)
      → condition_of degraded (report L s v d cs) ≡ some (degraded_of s v d)
  unfolding report check_found degraded_of
  report_degraded s v none cs = rw (check_replicas_degraded, not_ready_degraded) refl
  report_degraded s none (some d) cs = rw (check_replicas_degraded, not_ready_degraded) refl
  report_degraded none (some v) (some d) cs = rw (check_replicas_degraded, not_ready_degraded) refl
  report_degraded (some s) (some v) (some d) cs =
      rw (check_replicas_degraded, healthy_degraded) refl

module _ {W : Type 0} (R : CloudflareTunnelReconciler W) where
  -- What was found of the three objects, one after the other, and the conditions that were written
  -- as the last step: they are those that the three objects deserve.
  pub record IsReported (t : CloudflareTunnel) (requeue : Bool) (w : W) : Type 0 where
    pub live_secret : Option Secret
    pub live_service : Option Value
    pub live_deployment : Option Deployment
    pub w₁ : W
    pub w₂ : W
    pub w₃ : W
    pub secret_read : found (R.client.get_secret (key_of t)) w ≡ (ok live_secret, w₁)
    pub service_read : found (R.client.get_service (key_of t)) w₁ ≡ (ok live_service, w₂)
    pub deployment_read : found (R.client.get_deployment (key_of t)) w₂ ≡ (ok live_deployment, w₃)
    pub conditions : List Condition
    pub written :
        update_status R t w
        ≡ (R.client.update_tunnel_status (with_conditions t conditions)
              >> pure (no_replicas live_deployment))
            w₃
    pub requeued : requeue ≡ no_replicas live_deployment
    pub is_available :
        condition_of available conditions
        ≡ some (available_of live_secret live_service live_deployment)
    pub is_degraded :
        condition_of degraded conditions
        ≡ some (degraded_of live_secret live_service live_deployment)

  report_ok :
      (s : Option Secret) (v : Option Value) (d : Option Deployment) (t : CloudflareTunnel)
      → (requeue : Bool) (w : W) → (write_report R t s v d w).0 ≡ ok requeue
      → requeue ≡ no_replicas d
  unfolding write_report
  report_ok s v d t requeue w h =
      elim (Result-cases
        (R.client.update_tunnel_status
          (with_conditions t (report R.library s v d t.status.conditions)) w).0) [
            | inl (a, q) ↦ ground (arith, q)
            | inr (inl (e, q)) ↦ ground (arith, q)
            | inr (inr (m, q)) ↦ ground (arith, q)
          ]

  IsReported-check_objects :
      IsSetter R.library
      → (t : CloudflareTunnel) (requeue : Bool) (w : W) → update_status R t w ≡ check_objects R t w
      → (check_objects R t w).0 ≡ ok requeue
      → IsReported t requeue w
  unfolding check_objects write_report
  IsReported-check_objects I t requeue w same h =
      let (s, w₁, p, e₁, h₁) = bind_ok (found (R.client.get_secret (key_of t))) _ w requeue h in
      let (v, w₂, q, e₂, h₂) = bind_ok (found (R.client.get_service (key_of t))) _ w₁ requeue h₁ in
      let (d, w₃, r, e₃, h₃) =
        bind_ok (found (R.client.get_deployment (key_of t))) _ w₂ requeue h₂ in
      record {
        live_secret = s;
        live_service = v;
        live_deployment = d;
        w₁ = w₁;
        w₂ = w₂;
        w₃ = w₃;
        secret_read = p;
        service_read = q;
        deployment_read = r;
        conditions = report R.library s v d t.status.conditions;
        written = same ∙ e₁ ∙ e₂ ∙ e₃;
        requeued = report_ok s v d t requeue w₃ h₃;
        is_available = report_available R.library I s v d t.status.conditions;
        is_degraded = report_degraded R.library I s v d t.status.conditions;
      }

  -- Where meta.SetStatusCondition keeps its promise, an updateStatus that succeeds on a resource
  -- with a tunnel id has read the three objects, asks for a requeue exactly when the deployment has
  -- no available replica, and has as its last step written conditions whose Available and Degraded
  -- are those that the three objects deserve: Degraded with the message of the last object that is
  -- missing; not Available if there are no replicas, or if the secret or the service is missing.
  pub update_status-IsReported :
      IsSetter R.library
      → (t : CloudflareTunnel) (requeue : Bool) (w : W) → (t.status.tunnel_id == "") ≡ false
      → (update_status R t w).0 ≡ ok requeue
      → IsReported t requeue w
  unfolding update_status
  update_status-IsReported I t requeue w n h =
      IsReported-check_objects I t requeue w (rw n refl) (ground (arith, n))
