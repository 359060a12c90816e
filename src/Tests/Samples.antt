-- ===== src/Tests/Samples.antt =====
-- A vector as a function, a target, a configuration and a result, for the tests of the components.
use netsonar.Base.{refl, true, false, [], ◌∷◌, Option, none, some, if◌then◌else◌}
use netsonar.Base.Int.{pos}
use netsonar.Config.Types.{tcp, mtu, ProbeOptions, TargetConfig, AgentConfig, Config}
use netsonar.Probe.Result.{ProbeResult, zero_result, Phase}
use netsonar.Metrics.Vec.{Labels, labels_eq, sub_labels, Value, VecOps}
use netsonar.Metrics.Exporter.{MetricsExporter}
use netsonar.Scheduler.Diff.{Hash}

abbrev pub Vec : Type 0
Vec = Labels → Option Value

abbrev pub vec_ops : VecOps Vec
vec_ops = record {
  get = λ v k. v k;
  set = λ l x v k. if labels_eq l k then some x else v k;
  delete = λ l v k. if labels_eq l k then none else v k;
  delete_partial_match = λ l v k. if sub_labels l k then none else v k;
  reset = λ v k. none;
  get-set = λ v l k x. refl;
  get-delete = λ v l k. refl;
  get-delete_partial_match = λ v l k. refl;
  get-reset = λ v k. refl;
}

abbrev pub no_options : ProbeOptions
no_options = record {
  method = "";
  headers = [];
  expected_status_codes = [];
  expected_proxy_connect_status_codes = [];
  follow_redirects = false;
  tls_skip_verify = false;
  tls_emit_cert_metrics = false;
  response_body_limit_bytes = pos 0;
  request_body_bytes = pos 0;
  body_match_regex = "";
  body_match_string = "";
  ping_count = pos 0;
  ping_interval_sec = pos 0;
  icmp_payload_sizes = [];
  expected_min_mtu = pos 0;
  mtu_retries = pos 0;
  mtu_per_attempt_timeout = pos 0;
  dns_query_name = "";
  dns_query_type = "";
  dns_server = "";
  dns_expected_results = [];
}

-- A TCP target named `web`, every 30 s with a timeout of 5 s.
abbrev pub web : TargetConfig
web = record {
  name = "web";
  address = "10.0.0.1:443";
  probe_type = tcp;
  interval = pos 30_000_000_000;
  timeout = pos 5_000_000_000;
  tags = ("site", "a") ∷ [];
  probe_opts = no_options;
  proxy_name = "";
  resolved_proxy = none;
  dns_resolver = some "";
}

-- The same name with another address, and an MTU target.
abbrev pub web_moved : TargetConfig
web_moved = record web { address = "10.0.0.2:443" }

abbrev pub path : TargetConfig
path = record web {
  name = "path";
  address = "10.0.0.9";
  probe_type = mtu;
  probe_opts = record no_options {
    icmp_payload_sizes = pos 1472 ∷ pos 1372 ∷ [];
    expected_min_mtu = pos 1400;
    mtu_retries = pos 2;
    mtu_per_attempt_timeout = pos 1_000_000_000;
  };
}

abbrev pub agent : AgentConfig
agent = record {
  listen_addr = ":9275";
  metrics_path = "/metrics";
  default_interval = pos 30_000_000_000;
  default_timeout = pos 5_000_000_000;
  initial_probe_jitter = pos 0;
  default_icmp_payload_sizes = [];
  log_level = "info";
  log_format = "text";
  enable_runtime_metrics = false;
  allowed_tag_keys = [];
  dns_resolver = "";
}

abbrev pub first_config : Config
first_config = record { agent = agent; proxies = []; targets = web ∷ [] }

abbrev pub second_config : Config
second_config = record { agent = agent; proxies = []; targets = web_moved ∷ (path ∷ []) }

-- A hash that tells targets apart by name and address.
abbrev pub hash : Hash
hash t = some t.address

abbrev pub exporter : MetricsExporter Vec
exporter = record {
  tag_keys = "site" ∷ [];
  vec = λ m k. none;
  targets_total = pos 0;
  config_reload_ts = pos 0;
}

-- A success in 12 ms, of which 3 ms for the TCP connection.
abbrev pub success : ProbeResult
success = record zero_result {
  success = true;
  duration = pos 12_000_000;
  phases = (Phase.tcp_connect, pos 3_000_000) ∷ [];
}

abbrev pub failure : ProbeResult
failure = record zero_result { error = "connection refused" }
