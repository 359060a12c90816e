-- ===== src/Agent.antt =====
-- cmd/agent/main.go: the start of the agent, the reload on SIGHUP and the shutdown. The exporter stands
-- in the scheduler, which shares it. Reading and decoding the file is a parameter of each load: what it
-- yields, `none` where it fails. The texts that are logged are left out.
pub mod Reload
pub mod Run
use netsonar.Base.{
  ℕ, Bool, true, false, ◌&&◌, ◌||◌, not, String, str_eq, is_blank, List, [], ◌∷◌, Option, none,
  some, if◌then◌else◌, length,
}
use netsonar.Base.Int.{ℤ}
use netsonar.Config.Types.{
  Config, TargetConfig, ProbeType, ResolvedProxyConfig, tcp, http, icmp, mtu, dns, tls_cert,
  http_body, proxy_connect, unknown,
}
use netsonar.Config.Defaults.{apply_defaults}
use netsonar.Config.Checks.{ok, err}
use netsonar.Config.Rules.{Net}
use netsonar.Config.Credentials.{Sources}
use netsonar.Config.Validate.{validate}
use netsonar.Config.TagKeys.{collect_tag_keys}
use netsonar.Metrics.Vec.{VecOps}
use netsonar.Metrics.Exporter.{MetricsExporter}
use netsonar.Metrics.Info.{
  set_build_info, set_config_info, set_targets_total, set_config_reload_timestamp,
}
use netsonar.Metrics.Register.{Registry, new_metrics_exporter}
use netsonar.Scheduler.Diff.{Hash}
use netsonar.Scheduler.State.{Scheduler, new, start, stop, reload}

-- The slog.Level of agentLogLevel.
pub data Level : Type 0 where
  debug info warn error : Level

unfoldable pub parse_log_level : String → Level
parse_log_level level =
    if str_eq level "debug"
    then debug
    else if str_eq level "warn"
    then warn
    else if str_eq level "error"
    then error
    else info

-- The handler that setupLogger installs.
pub data LogHandler : Type 0 where
  json text : LogHandler

unfoldable pub log_handler : String → LogHandler
log_handler format = if str_eq format "json" then json else text

-- The probers that newProber makes, with their options; `unreachable` is its panic.
pub data Prober : Type 0 where
  tcp_prober icmp_prober mtu_prober dns_prober tls_cert_prober proxy_prober unreachable : Prober
  http_prober : Bool → Bool → Option ResolvedProxyConfig → Prober
  http_body_prober : Bool → Bool → Option ResolvedProxyConfig → String → Prober

unfoldable pub new_prober_of : ProbeType → TargetConfig → Prober
new_prober_of tcp t = tcp_prober
new_prober_of http t =
    http_prober t.probe_opts.tls_skip_verify t.probe_opts.follow_redirects t.resolved_proxy
new_prober_of icmp t = icmp_prober
new_prober_of mtu t = mtu_prober
new_prober_of dns t = dns_prober
new_prober_of tls_cert t = tls_cert_prober
new_prober_of http_body t =
    http_body_prober t.probe_opts.tls_skip_verify t.probe_opts.follow_redirects t.resolved_proxy
      t.probe_opts.body_match_regex
new_prober_of proxy_connect t = proxy_prober
new_prober_of (unknown s) t = unreachable

unfoldable pub new_prober : TargetConfig → Prober
unfolding new_prober_of
new_prober t = new_prober_of t.probe_type t

-- The startup-only values that run passes to handleReload.
pub record Startup : Type 0 where
  pub tag_keys : List String
  pub log_format : String
  pub listen_addr : String
  pub metrics_path : String
  pub enable_runtime_metrics : Bool

pub record Agent (V : Type 0) : Type 0 where
  pub startup : Startup
  pub scheduler : Scheduler V
  pub log_level : Level
  pub handler : LogHandler

-- slices.Equal.
unfoldable pub slices_equal : List String → List String → Bool
slices_equal [] [] = true
slices_equal (s ∷ ss) (t ∷ ts) = str_eq s t && slices_equal ss ts
slices_equal _ _ = false

abbrev bool_eq : Bool → Bool → Bool
bool_eq true b = b
bool_eq false b = not b

unfoldable pub startup_of : Config → Startup
startup_of cfg = record {
  tag_keys = collect_tag_keys cfg;
  log_format = cfg.agent.log_format;
  listen_addr = cfg.agent.listen_addr;
  metrics_path = cfg.agent.metrics_path;
  enable_runtime_metrics = cfg.agent.enable_runtime_metrics;
}

-- The early returns of handleReload after the load, in their order.
unfoldable pub startup_changed : Startup → Startup → Bool
unfolding slices_equal
startup_changed old new =
    not (slices_equal old.tag_keys new.tag_keys)
    || (not (str_eq new.log_format old.log_format)
        || (not (str_eq new.listen_addr old.listen_addr)
            || (not (str_eq new.metrics_path old.metrics_path)
                || not (bool_eq new.enable_runtime_metrics old.enable_runtime_metrics))))

-- version, revision and buildDate, which the linker sets.
pub record Build : Type 0 where
  pub version : String
  pub revision : String
  pub build_date : String

-- What the agent is given: the parameters of the components, config.ComputeHash and the build.
pub record World (V : Type 0) : Type 0 where
  pub ops : VecOps V
  pub registry : Registry V
  pub net : Net
  pub sources : Sources
  pub hash : Hash
  pub compute_hash : Config → Option String
  pub build : Build

-- What wakes run's loop: a signal, with what the file then yields and the time, or the server's end.
-- `drained` says whether srv.Shutdown returned in time.
pub data Wakeup : Type 0 where
  sighup : Option Config → ℤ → Wakeup
  sigterm : (drained : Bool) → Wakeup
  server_closed server_failed : Wakeup

-- `stuck`: Stop blocks for ever.
pub data Outcome (V : Type 0) : Type 0 where
  running : Agent V → Outcome V
  exited : ℕ → Scheduler V → Outcome V
  stuck : Outcome V

module _ {V : Type 0} (w : World V) where
  unfoldable pub load_config : Option Config → Option Config
  load_config none = none
  load_config (some decoded) = elim (validate w.net w.sources (apply_defaults decoded)) [
    | ok cfg ↦ some cfg
    | err e ↦ none
  ]

  unfoldable pub must_config_hash : Config → String
  must_config_hash cfg = elim (w.compute_hash cfg) [ none ↦ "unknown" | some h ↦ h ]

  unfoldable pub update_agent_metrics : Config → ℤ → MetricsExporter V → MetricsExporter V
  unfolding must_config_hash
  update_agent_metrics cfg now m = set_config_reload_timestamp w.ops now (
      set_targets_total w.ops (length cfg.targets) (
        set_config_info w.ops (must_config_hash cfg)
          (set_build_info w.ops w.build.version w.build.revision w.build.build_date m)))

  -- What an accepted reload does.
  unfoldable pub apply_reload : Config → ℤ → Agent V → Agent V
  apply_reload cfg now a =
      let s = reload w.ops w.hash cfg a.scheduler in
      record a {
        scheduler = record s { metrics = update_agent_metrics cfg now s.metrics };
        log_level = parse_log_level cfg.agent.log_level;
      }

  unfoldable pub handle_reload : Option Config → ℤ → Agent V → Agent V
  unfolding apply_reload
  handle_reload decoded now a = elim (load_config decoded) [
    | none ↦ a
    | some cfg ↦ if startup_changed a.startup (startup_of cfg) then a else apply_reload cfg now a
  ]

  -- `--listen-addr`, empty where it is not given.
  unfoldable pub override_listen_addr : String → Config → Config
  override_listen_addr flag cfg =
      if is_blank flag then cfg else record cfg { agent = record cfg.agent { listen_addr = flag } }

  -- The scheduler is started and the state of the agent set, over a new exporter.
  unfoldable pub launch : Config → MetricsExporter V → ℤ → Agent V
  launch cfg m now =
      let s = start w.ops cfg (new w.ops m) in
      record {
        startup = startup_of cfg;
        scheduler = record s { metrics = update_agent_metrics cfg now s.metrics };
        log_level = parse_log_level cfg.agent.log_level;
        handler = log_handler cfg.agent.log_format;
      }

  -- The part of run before its loop. `none`: the configuration is refused, or the registration panics.
  unfoldable pub start_agent : String → Option Config → ℤ → Option (Agent V)
  unfolding override_listen_addr
  start_agent flag decoded now = elim (load_config decoded) [
    | none ↦ none
    | some loaded ↦
        let cfg = override_listen_addr flag loaded in
        elim (new_metrics_exporter w.registry (collect_tag_keys cfg)) [
          | none ↦ none
          | some m ↦ some (launch cfg m now)
        ]
  ]

  -- sched.Stop, then the return with a code.
  unfoldable pub stop_and_exit : ℕ → Agent V → Outcome V
  stop_and_exit code a = elim (stop w.ops a.scheduler) [ none ↦ stuck | some s ↦ exited code s ]

  unfoldable pub shutdown : Bool → Agent V → Outcome V
  unfolding stop_and_exit
  shutdown drained a = stop_and_exit (if drained then 0 else 1) a

  unfoldable pub serve : List Wakeup → Agent V → Outcome V
  unfolding shutdown stop_and_exit
  serve [] a = running a
  serve (sighup decoded now ∷ ws) a = serve ws (handle_reload decoded now a)
  serve (sigterm drained ∷ ws) a = shutdown drained a
  serve (server_closed ∷ ws) a = serve ws a
  serve (server_failed ∷ ws) a = stop_and_exit 1 a
