-- ===== src/Ingress/Lock.antt =====
-- Reconciles of several Ingresses at once (internal/controller/ingress_watcher.go). The reconciler's
-- mutex `mu` is held from the first to the last statement of appendCloudflareTunnelConfig,
-- removeCloudflareTunnelConfig, appendDNSRecord and removeDNSRecord. A worker is a goroutine of
-- controller-runtime; what it does between two of these calls does not reach Cloudflare. The calls
-- of the other controller, which does not share the mutex, are not steps of this system.
pub mod Serial
pub mod Progress
use cloudflare_tunnel_operat.Base.{
  ℕ, String, Bool, Option, none, some, List, [], ◌∷◌, ◌++◌, ◌≡◌, true, false, eqb, ◌==◌,
  if◌then◌else◌,
}
use cloudflare_tunnel_operat.Base.Exec.{Exec, Result, ok, pure, lift, flattening, ◌>>=◌}
use cloudflare_tunnel_operat.Api.{CloudflareTunnelSettings}
use cloudflare_tunnel_operat.Domain.{TunnelConfiguration, DnsRecord, healthy}
use cloudflare_tunnel_operat.Manager.{CloudflareTunnelManager}
use cloudflare_tunnel_operat.Ingress.Hosts.{Host}
use cloudflare_tunnel_operat.Ingress.Rules.{append_rules, remove_rules}
use cloudflare_tunnel_operat.Ingress.Sync.{
  append_cloudflare_tunnel_config, remove_cloudflare_tunnel_config, append_dns_record,
  remove_dns_record, update_if,
}

-- A call of one of the four functions, with its arguments.
pub data ConfigJob : Type 0 where
  append_config : String → List Host → String → CloudflareTunnelSettings → ConfigJob
  remove_config : String → List Host → CloudflareTunnelSettings → ConfigJob

pub data RecordJob : Type 0 where
  append_record : String → String → RecordJob
  remove_record : String → String → RecordJob

pub data Job : Type 0 where
  config_job : ConfigJob → Job
  record_job : RecordJob → Job

abbrev pub tunnel_of : ConfigJob → String
tunnel_of (append_config t hosts ip s) = t
tunnel_of (remove_config t hosts s) = t

abbrev pub new_config : ConfigJob → TunnelConfiguration → TunnelConfiguration
new_config (append_config t hosts ip s) c = append_rules s ip hosts c
new_config (remove_config t hosts s) c = remove_rules s hosts c

abbrev pub owner_of : RecordJob → String
owner_of (append_record t h) = t
owner_of (remove_record t h) = t

abbrev pub host_of : RecordJob → String
host_of (append_record t h) = h
host_of (remove_record t h) = h

-- Where a worker is: outside the four functions, past the Lock, or past the first call to
-- Cloudflare, with its answer.
pub data Pc : Type 0 where
  outside : Pc
  entered : Job → Pc
  has_config : ConfigJob → TunnelConfiguration → Pc
  has_record : RecordJob → DnsRecord → Pc

module _ {W : Type 0} (M : CloudflareTunnelManager W) where
  -- What is left of appendDNSRecord and removeDNSRecord once the record is read.
  unfoldable pub finish_record : RecordJob → DnsRecord → Exec W (Unit {0})
  unfolding update_if
  finish_record (append_record t h) r =
      if r.id == ""
      then flattening "failed to add DNS record" (M.add_dns t h)
      else (do well ← lift (healthy r t); update_if M well t h r)
  finish_record (remove_record t h) r =
      if r.id == "" then pure tt else flattening "failed to delete DNS record" (M.delete_dns t r.id)

  -- A whole call, as the source composes it.
  unfoldable pub run_job : Job → Exec W (Unit {0})
  run_job (config_job (append_config t hosts ip s)) = append_cloudflare_tunnel_config M t hosts ip s
  run_job (config_job (remove_config t hosts s)) = remove_cloudflare_tunnel_config M t hosts s
  run_job (record_job (append_record t h)) = append_dns_record M t h
  run_job (record_job (remove_record t h)) = remove_dns_record M t h

  -- Calls one after the other, whatever they answer.
  unfoldable pub run_jobs : List Job → W → W
  unfolding run_job
  run_jobs [] w = w
  run_jobs (j ∷ js) w = run_jobs js (run_job j w).1

-- `log` is the calls that have ended, in the order of their Unlock.
pub record System (W : Type 0) : Type 0 where
  pub world : W
  pub holder : Option ℕ
  pub pc : ℕ → Pc
  pub log : List Job

abbrev pub update : (ℕ → Pc) → ℕ → Pc → ℕ → Pc
update pc i p j = if eqb i j then p else pc j

abbrev pub moved : {W : Type 0} → System W → ℕ → Pc → System W
moved s i p = record s { pc = update s.pc i p }

-- The deferred Unlock, at a return on any path.
abbrev pub left : {W : Type 0} → System W → ℕ → Job → W → System W
left s i j w = record {
  world = w;
  holder = none;
  pc = update s.pc i outside;
  log = s.log ++ j ∷ [];
}

abbrev pub init : {W : Type 0} → W → System W
init w = record { world = w; holder = none; pc = λ i. outside; log = [] }

module _ {W : Type 0} (M : CloudflareTunnelManager W) where
  -- A worker takes the free mutex; makes its first call, and goes on or returns by the answer; makes
  -- the rest of its calls and returns.
  pub data Step (s : System W) : System W → Type 0 where
    lock :
        (i : ℕ) (j : Job)
        → s.pc i ≡ outside
        → s.holder ≡ none
        → Step s (record s { holder = some i; pc = update s.pc i (entered j) })
    read_config :
        (i : ℕ) (j : ConfigJob) (c : TunnelConfiguration) (w : W)
        → s.pc i ≡ entered (config_job j)
        → M.get_tunnel_configuration (tunnel_of j) s.world ≡ (ok c, w)
        → Step s (record s { world = w; pc = update s.pc i (has_config j c) })
    no_config :
        (i : ℕ) (j : ConfigJob) (r : Result TunnelConfiguration) (w : W)
        → s.pc i ≡ entered (config_job j)
        → M.get_tunnel_configuration (tunnel_of j) s.world ≡ (r, w)
        → ((c : TunnelConfiguration) → ¬ (r ≡ ok c))
        → Step s (left s i (config_job j) w)
    write_config :
        (i : ℕ) (j : ConfigJob) (c : TunnelConfiguration)
        → s.pc i ≡ has_config j c
        → Step s (
            left s i
              (config_job j)
              (M.update_tunnel_configuration (tunnel_of j) (new_config j c) s.world).1)
    read_record :
        (i : ℕ) (j : RecordJob) (d : DnsRecord) (w : W)
        → s.pc i ≡ entered (record_job j)
        → M.get_dns (owner_of j) (host_of j) s.world ≡ (ok d, w)
        → Step s (record s { world = w; pc = update s.pc i (has_record j d) })
    no_record :
        (i : ℕ) (j : RecordJob) (r : Result DnsRecord) (w : W)
        → s.pc i ≡ entered (record_job j)
        → M.get_dns (owner_of j) (host_of j) s.world ≡ (r, w)
        → ((d : DnsRecord) → ¬ (r ≡ ok d))
        → Step s (left s i (record_job j) w)
    write_record :
        (i : ℕ) (j : RecordJob) (d : DnsRecord)
        → s.pc i ≡ has_record j d
        → Step s (left s i (record_job j) (finish_record M j d s.world).1)

  pub data Reach (w : W) : System W → Type 0 where
    start : Reach w (init w)
    next : {s t : System W} → Reach w s → Step s t → Reach w t
