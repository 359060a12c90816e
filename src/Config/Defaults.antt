-- ===== src/Config/Defaults.antt =====
-- applyDefaults of internal/config/config.go.
pub mod Complete
use netsonar.Base.{
  ℕ, ◌≡◌, Bool, true, false, String, is_blank, List, [], ◌∷◌, Option, none, some, if◌then◌else◌,
  map, is_empty, get_or, is_some,
}
use netsonar.Base.Int.{ℤ, pos, add64, eq_ℤ}
use netsonar.Config.Types.{
  ProbeType, mtu, tcp, AgentConfig, ProbeOptions, TargetConfig, Config, default_mtu_retries,
  default_mtu_per_attempt_timeout, default_icmp_payload_sizes,
}

abbrev pub is_mtu : ProbeType → Bool
is_mtu mtu = true
is_mtu _ = false

abbrev text_or : String → String → String
text_or s d = if is_blank s then d else s

abbrev int_or : ℤ → ℤ → ℤ
int_or n d = if eq_ℤ n (pos 0) then d else n

default_agent : AgentConfig → AgentConfig
default_agent a = record a {
  listen_addr = text_or a.listen_addr ":9275";
  metrics_path = text_or a.metrics_path "/metrics";
  log_level = text_or a.log_level "info";
  log_format = text_or a.log_format "text";
}

abbrev default_sizes : AgentConfig → List ℤ
default_sizes a =
    if is_empty a.default_icmp_payload_sizes
    then default_icmp_payload_sizes
    else a.default_icmp_payload_sizes

-- The two blocks for MTU probes.
default_mtu_opts : AgentConfig → ProbeOptions → ProbeOptions
default_mtu_opts a o =
    let sizes = if is_empty o.icmp_payload_sizes then default_sizes a else o.icmp_payload_sizes in
    record o {
      icmp_payload_sizes = sizes;
      mtu_retries = int_or o.mtu_retries default_mtu_retries;
      mtu_per_attempt_timeout = int_or o.mtu_per_attempt_timeout default_mtu_per_attempt_timeout;
      expected_min_mtu =
          if is_empty sizes
          then o.expected_min_mtu
          else int_or o.expected_min_mtu (add64 (get_or sizes 0 (pos 0)) (pos 28));
    }

default_target : AgentConfig → TargetConfig → TargetConfig
default_target a t = record t {
  interval = int_or t.interval a.default_interval;
  timeout = int_or t.timeout a.default_timeout;
  dns_resolver = if is_some t.dns_resolver then t.dns_resolver else some a.dns_resolver;
  probe_opts = if is_mtu t.probe_type then default_mtu_opts a t.probe_opts else t.probe_opts;
}

unfoldable pub apply_defaults : Config → Config
unfolding default_agent default_mtu_opts default_target
apply_defaults cfg =
    let a = default_agent cfg.agent in
    record cfg { agent = a; targets = map (default_target a) cfg.targets }
