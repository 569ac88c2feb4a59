-- ===== src/Examples/Workers.antt =====
-- One worker of the Ingress controller that writes a configuration, while another has not begun.
use cloudflare_tunnel_operat.Base.{ℕ, ◌≡◌, refl, true, false, none, some, [], ◌∷◌}
use cloudflare_tunnel_operat.Ingress.Lock.{
  ConfigJob, append_config, config_job, System, entered, has_config, run_jobs, new_config, moved,
  left, lock, read_config, write_config, init, Reach, start, next,
}
use cloudflare_tunnel_operat.Ingress.Lock.Serial.{is_outside, calls_serialize}
use cloudflare_tunnel_operat.Ingress.Lock.Progress.{Steps, mutex_released}
use cloudflare_tunnel_operat.Examples.Memory.{World, manager}
use cloudflare_tunnel_operat.Examples.Rules.{settings, config}

abbrev begun : World
begun = record { configs = λ u. config; owners = λ h. none; ingress = none; tunnel = none }

abbrev job : ConfigJob
job =
    append_config "t1" (record { host = "shop.walnuts.dev"; tls = true } ∷ []) "192.168.0.1"
      settings

abbrev locked : System World
locked = record (moved (init begun) 0 (entered (config_job job))) { holder = some 0 }

abbrev answered : System World
answered = moved locked 0 (has_config job config)

abbrev ended : System World
ended =
    left answered 0 (config_job job)
      (manager.update_tunnel_configuration "t1" (new_config job config) begun).1

runs : Reach manager begun ended
runs =
    next
      (next (next start (lock 0 (config_job job) refl refl))
        (read_config 0 job config begun refl refl))
      (write_config 0 job config refl)

calls_serialize_example :
    (ended.holder ≡ none → ended.world ≡ run_jobs manager ended.log begun)
    × ((i k : ℕ) → is_outside (ended.pc i) ≡ false → is_outside (ended.pc k) ≡ false → i ≡ k)
calls_serialize_example = calls_serialize manager runs

holds : Reach manager begun locked
holds = next start (lock 0 (config_job job) refl refl)

mutex_released_example : (t : System World) × Steps manager locked t × (t.holder ≡ none)
mutex_released_example = mutex_released manager holds
