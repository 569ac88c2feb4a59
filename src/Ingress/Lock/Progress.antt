-- ===== src/Ingress/Lock/Progress.antt =====
-- The mutex is given back: no worker is kept out for ever by one that has stopped half-way.
use cloudflare_tunnel_operat.Base.{ℕ, ◌≡◌, refl, ap, none, arith, inl, inr, Option-cases}
use cloudflare_tunnel_operat.Base.Exec.{Exec, Result, Result-cases, err, panic}
use cloudflare_tunnel_operat.Manager.{CloudflareTunnelManager}
use cloudflare_tunnel_operat.Ingress.Lock.{
  ConfigJob, RecordJob, config_job, record_job, tunnel_of, owner_of, host_of, Pc, outside, entered,
  has_config, has_record, run_jobs, System, update, Step, read_config, no_config, write_config,
  read_record, no_record, write_record, Reach,
}
use cloudflare_tunnel_operat.Ingress.Lock.Serial.{InCall, Reach-Inv}

update-same : (pc : ℕ → Pc) (i : ℕ) (p : Pc) → update pc i p i ≡ p
update-same pc i p = ground arith

answered : {W A : Type 0} (x : Exec W A) (w : W) {r : Result A} → (x w).0 ≡ r → x w ≡ (r, (x w).1)
answered {W} {A} x w q = ap (λ (r : Result A). (r, (x w).1)) q

module _ {W : Type 0} (M : CloudflareTunnelManager W) where
  -- Some steps of the system.
  pub data Steps (s : System W) : System W → Type 0 where
    none_more : Steps s s
    one_more : {t u : System W} → Steps s t → Step M t u → Steps s u

  abbrev Freed : System W → Type 0
  Freed s = (t : System W) × Steps s t × (t.holder ≡ none)

  free_config : (s : System W) (i : ℕ) (j : ConfigJob) → s.pc i ≡ entered (config_job j) → Freed s
  free_config s i j e =
      let ask = M.get_tunnel_configuration (tunnel_of j) in
      let w = (ask s.world).1 in
      elim (Result-cases (ask s.world).0) [
        | inl (c, q) ↦ (
          _,
          one_more (one_more none_more (read_config i j c w e (answered ask s.world q)))
              (write_config i j c (update-same s.pc i (has_config j c))),
          refl,
        )
        | inr (inl (d, q)) ↦ (
          _,
          one_more none_more
              (no_config i j (err d) w e (answered ask s.world q) (λ c h. ground (arith, h))),
          refl,
        )
        | inr (inr (m, q)) ↦ (
          _,
          one_more none_more
              (no_config i j (panic m) w e (answered ask s.world q) (λ c h. ground (arith, h))),
          refl,
        )
      ]

  free_record : (s : System W) (i : ℕ) (j : RecordJob) → s.pc i ≡ entered (record_job j) → Freed s
  free_record s i j e =
      let ask = M.get_dns (owner_of j) (host_of j) in
      let w = (ask s.world).1 in
      elim (Result-cases (ask s.world).0) [
        | inl (d, q) ↦ (
          _,
          one_more (one_more none_more (read_record i j d w e (answered ask s.world q)))
              (write_record i j d (update-same s.pc i (has_record j d))),
          refl,
        )
        | inr (inl (d, q)) ↦ (
          _,
          one_more none_more
              (no_record i j (err d) w e (answered ask s.world q) (λ c h. ground (arith, h))),
          refl,
        )
        | inr (inr (m, q)) ↦ (
          _,
          one_more none_more
              (no_record i j (panic m) w e (answered ask s.world q) (λ c h. ground (arith, h))),
          refl,
        )
      ]

  free_from : (s : System W) (i : ℕ) (p : Pc) (v : W) → s.pc i ≡ p → InCall M p v s.world → Freed s
  free_from s i outside v e c = absurd c
  free_from s i (entered (config_job j)) v e c = free_config s i j e
  free_from s i (entered (record_job j)) v e c = free_record s i j e
  free_from s i (has_config j d) v e c = (_, one_more none_more (write_config i j d e), refl)
  free_from s i (has_record j d) v e c = (_, one_more none_more (write_record i j d e), refl)

  -- From every state that the workers can reach, whatever Cloudflare answers, errors and panics
  -- included, steps lead to a state in which no one holds the mutex.
  pub mutex_released :
      {w₀ : W} {s : System W} → Reach M w₀ s → (t : System W) × Steps s t × (t.holder ≡ none)
  mutex_released {w₀} {s} r = elim (Option-cases s.holder) [
    | inl free ↦ (s, none_more, free)
    | inr (i, held) ↦
        free_from s i (s.pc i) (run_jobs M s.log w₀) refl ((Reach-Inv M r).inside i held)
  ]
