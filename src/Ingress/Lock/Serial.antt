-- ===== src/Ingress/Lock/Serial.antt =====
-- The four functions are atomic: no update of one worker is lost to another.
use cloudflare_tunnel_operat.Base.{
  ℕ, ◌≡◌, refl, sym, ap, ◌∙◌, subst, Bool, true, false, none, some, List, [], ◌∷◌, ◌++◌, eqb, arith,
  inl, inr, Bool-cases,
}
use cloudflare_tunnel_operat.Base.Exec.{Result, ok, err, panic}
use cloudflare_tunnel_operat.Domain.{TunnelConfiguration, DnsRecord}
use cloudflare_tunnel_operat.Manager.{CloudflareTunnelManager}
use cloudflare_tunnel_operat.Ingress.Sync.{
  append_cloudflare_tunnel_config, remove_cloudflare_tunnel_config, append_dns_record,
  remove_dns_record,
}
use cloudflare_tunnel_operat.Ingress.Lock.{
  ConfigJob, append_config, remove_config, RecordJob, append_record, remove_record, Job, config_job,
  record_job, tunnel_of, new_config, owner_of, host_of, Pc, outside, entered, has_config,
  has_record, finish_record, run_job, run_jobs, System, update, left, Step, lock, read_config,
  no_config, write_config, read_record, no_record, write_record, Reach, start, next,
}

abbrev pub is_outside : Pc → Bool
is_outside outside = true
is_outside (entered j) = false
is_outside (has_config j c) = false
is_outside (has_record j d) = false

some_eq : {a b : ℕ} → some a ≡ some b → a ≡ b
some_eq h = cc

module _ {W : Type 0} (M : CloudflareTunnelManager W) where
  run_jobs-append :
      (js : List Job) (j : Job) (w : W)
      → run_jobs M (js ++ j ∷ []) w ≡ (run_job M j (run_jobs M js w)).1
  unfolding run_jobs
  run_jobs-append [] j w = refl
  run_jobs-append (k ∷ js) j w = run_jobs-append js j (run_job M k w).1

  -- The rest of a call after its first answer is the call.
  config_rest :
      (j : ConfigJob) (c : TunnelConfiguration) (v w : W)
      → M.get_tunnel_configuration (tunnel_of j) v ≡ (ok c, w)
      → (run_job M (config_job j) v).1
        ≡ (M.update_tunnel_configuration (tunnel_of j) (new_config j c) w).1
  unfolding run_job append_cloudflare_tunnel_config remove_cloudflare_tunnel_config
  config_rest (append_config t hosts ip s) c v w e = ground (arith, e)
  config_rest (remove_config t hosts s) c v w e = ground (arith, e)

  config_fails :
      (j : ConfigJob) (r : Result TunnelConfiguration) (v w : W)
      → M.get_tunnel_configuration (tunnel_of j) v ≡ (r, w)
      → ((c : TunnelConfiguration) → ¬ (r ≡ ok c))
      → (run_job M (config_job j) v).1 ≡ w
  unfolding run_job append_cloudflare_tunnel_config remove_cloudflare_tunnel_config
  config_fails j (ok c) v w e n = absurd (n c refl)
  config_fails (append_config t hosts ip s) (err d) v w e n = ground (arith, e)
  config_fails (remove_config t hosts s) (err d) v w e n = ground (arith, e)
  config_fails (append_config t hosts ip s) (panic m) v w e n = ground (arith, e)
  config_fails (remove_config t hosts s) (panic m) v w e n = ground (arith, e)

  record_rest :
      (j : RecordJob) (d : DnsRecord) (v w : W)
      → M.get_dns (owner_of j) (host_of j) v ≡ (ok d, w)
      → (run_job M (record_job j) v).1 ≡ (finish_record M j d w).1
  unfolding run_job append_dns_record remove_dns_record finish_record
  record_rest (append_record t h) d v w e = ground (arith, e)
  record_rest (remove_record t h) d v w e = ground (arith, e)

  record_fails :
      (j : RecordJob) (r : Result DnsRecord) (v w : W)
      → M.get_dns (owner_of j) (host_of j) v ≡ (r, w)
      → ((d : DnsRecord) → ¬ (r ≡ ok d))
      → (run_job M (record_job j) v).1 ≡ w
  unfolding run_job append_dns_record remove_dns_record
  record_fails j (ok d) v w e n = absurd (n d refl)
  record_fails (append_record t h) (err d) v w e n = ground (arith, e)
  record_fails (remove_record t h) (err d) v w e n = ground (arith, e)
  record_fails (append_record t h) (panic m) v w e n = ground (arith, e)
  record_fails (remove_record t h) (panic m) v w e n = ground (arith, e)

  -- How far the call of the mutex's holder has come, from the world before it to the present one.
  abbrev pub InCall : Pc → W → W → Type 0
  InCall outside v w = ⊥
  InCall (entered j) v w = w ≡ v
  InCall (has_config j c) v w = M.get_tunnel_configuration (tunnel_of j) v ≡ (ok c, w)
  InCall (has_record j d) v w = M.get_dns (owner_of j) (host_of j) v ≡ (ok d, w)

  pub record Inv (w₀ : W) (s : System W) : Type 0 where
    pub free : s.holder ≡ none → s.world ≡ run_jobs M s.log w₀
    pub alone : (i : ℕ) → is_outside (s.pc i) ≡ false → s.holder ≡ some i
    pub inside : (i : ℕ) → s.holder ≡ some i → InCall (s.pc i) (run_jobs M s.log w₀) s.world

  left-Inv :
      (w₀ : W) (s : System W) (i : ℕ) (j : Job) (w : W)
      → Inv w₀ s
      → is_outside (s.pc i) ≡ false
      → (run_job M j (run_jobs M s.log w₀)).1 ≡ w
      → Inv w₀ (left s i j w)
  left-Inv w₀ s i j w v busy e = record {
    free = λ h. sym e ∙ sym (run_jobs-append s.log j w₀);
    alone = λ k h. ground (arith, v.alone i, v.alone k);
    inside = λ k h. cc;
  }

  in_call :
      {w₀ : W} {s : System W} {p : Pc} (i : ℕ)
      → Inv w₀ s
      → s.pc i ≡ p
      → is_outside p ≡ false
      → InCall p (run_jobs M s.log w₀) s.world
  in_call {w₀} {s} i v e busy =
      subst (λ (p : Pc). InCall p (run_jobs M s.log w₀) s.world) e
        (v.inside i (v.alone i (ap is_outside e ∙ busy)))

  -- The holder alone has moved.
  holder_call :
      (i k : ℕ) (p : Pc) (pc : ℕ → Pc) (v w : W)
      → some i ≡ some k
      → InCall p v w
      → InCall (update pc i p k) v w
  holder_call i k p pc v w same c = elim (Bool-cases (eqb i k)) [
    | inl e ↦ rw e c
    | inr e ↦ ground (arith, e)
  ]

  step_in-Inv :
      (w₀ : W) (s : System W) (i : ℕ) (p : Pc) (w : W)
      → Inv w₀ s
      → is_outside (s.pc i) ≡ false
      → InCall p (run_jobs M s.log w₀) w
      → Inv w₀ (record s { world = w; pc = update s.pc i p })
  step_in-Inv w₀ s i p w v busy c = record {
    free = λ h. ground (arith, v.alone i);
    alone = λ k h. ground (arith, v.alone i, v.alone k);
    inside = λ k h. holder_call i k p s.pc (run_jobs M s.log w₀) w (sym (v.alone i busy) ∙ h) c;
  }

  lock-Inv :
      (w₀ : W) (s : System W) (i : ℕ) (j : Job)
      → Inv w₀ s
      → s.holder ≡ none
      → Inv w₀ (record s { holder = some i; pc = update s.pc i (entered j) })
  lock-Inv w₀ s i j v free = record {
    free = λ h. cc;
    alone = λ k h. ground (arith, v.alone k);
    inside = λ k h. holder_call i k (entered j) s.pc (run_jobs M s.log w₀) s.world h (v.free free);
  }

  Step-Inv : {w₀ : W} {s t : System W} → Step M s t → Inv w₀ s → Inv w₀ t
  Step-Inv {w₀} {s} (lock i j e free) v = lock-Inv w₀ s i j v free
  Step-Inv {w₀} {s} (read_config i j c w e r) v =
      step_in-Inv w₀ s i (has_config j c) w v (ap is_outside e) (
        subst (λ (x : W). M.get_tunnel_configuration (tunnel_of j) x ≡ (ok c, w))
          (in_call i v e refl) r)
  Step-Inv {w₀} {s} (no_config i j r w e g n) v =
      left-Inv w₀ s i (config_job j) w v (ap is_outside e) (
        config_fails j r _ w
          (subst (λ (x : W). M.get_tunnel_configuration (tunnel_of j) x ≡ (r, w))
            (in_call i v e refl) g)
          n)
  Step-Inv {w₀} {s} (write_config i j c e) v =
      left-Inv w₀ s i (config_job j) _ v (ap is_outside e)
        (config_rest j c _ s.world (in_call i v e refl))
  Step-Inv {w₀} {s} (read_record i j d w e r) v =
      step_in-Inv w₀ s i (has_record j d) w v (ap is_outside e)
        (subst (λ (x : W). M.get_dns (owner_of j) (host_of j) x ≡ (ok d, w)) (in_call i v e refl) r)
  Step-Inv {w₀} {s} (no_record i j r w e g n) v =
      left-Inv w₀ s i (record_job j) w v (ap is_outside e) (
        record_fails j r _ w
          (subst (λ (x : W). M.get_dns (owner_of j) (host_of j) x ≡ (r, w)) (in_call i v e refl) g)
          n)
  Step-Inv {w₀} {s} (write_record i j d e) v =
      left-Inv w₀ s i (record_job j) _ v (ap is_outside e)
        (record_rest j d _ s.world (in_call i v e refl))

  pub Reach-Inv : {w₀ : W} {s : System W} → Reach M w₀ s → Inv w₀ s
  unfolding run_jobs
  Reach-Inv start = record { free = λ h. refl; alone = λ i h. cc; inside = λ i h. cc }
  Reach-Inv (next r st) = Step-Inv st (Reach-Inv r)

  -- However the workers of the Ingress controller are interleaved: whenever no one holds the mutex,
  -- Cloudflare is as if the calls that have ended had run whole, one after the other in the order in
  -- which they ended; and two workers are never inside the four functions together.
  pub calls_serialize :
      {w₀ : W} {s : System W}
      → Reach M w₀ s
      → (s.holder ≡ none → s.world ≡ run_jobs M s.log w₀)
        × ((i k : ℕ) → is_outside (s.pc i) ≡ false → is_outside (s.pc k) ≡ false → i ≡ k)
  calls_serialize r =
      let v = Reach-Inv r in (v.free, λ i k p q. some_eq (sym (v.alone i p) ∙ v.alone k q))
