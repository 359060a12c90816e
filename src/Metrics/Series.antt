-- ===== src/Metrics/Series.antt =====
-- The vectors of internal/metrics/metrics.go by their names, and the labels of their series.
use netsonar.Base.{ℕ, String, str_eq, List, [], ◌∷◌, if◌then◌else◌, ◌==◌}
use netsonar.Config.Types.{TargetConfig, probe_type_text, ResolvedProxyConfig}
use netsonar.Probe.Result.{Phase, phase_text, Certificate}
use netsonar.Metrics.Vec.{Labels, set_label}

pub data Metric : Type 0 where
  probe_success probe_duration probe_timeout probe_interval probe_timed_out : Metric
  probe_phase_duration http_status_code proxy_connect_status_code : Metric
  tls_cert_expiry tls_cert_chain_expiry icmp_packet_loss icmp_avg_rtt icmp_stddev_rtt : Metric
  mtu_bytes mtu_state dns_resolve_time dns_result_match http_body_match : Metric
  http_response_truncated probe_skipped_overlap_total : Metric
  build_info config_info target_proxy_info : Metric

abbrev pub metric_index : Metric → ℕ
metric_index probe_success = 0
metric_index probe_duration = 1
metric_index probe_timeout = 2
metric_index probe_interval = 3
metric_index probe_timed_out = 4
metric_index probe_phase_duration = 5
metric_index http_status_code = 6
metric_index proxy_connect_status_code = 7
metric_index tls_cert_expiry = 8
metric_index tls_cert_chain_expiry = 9
metric_index icmp_packet_loss = 10
metric_index icmp_avg_rtt = 11
metric_index icmp_stddev_rtt = 12
metric_index mtu_bytes = 13
metric_index mtu_state = 14
metric_index dns_resolve_time = 15
metric_index dns_result_match = 16
metric_index http_body_match = 17
metric_index http_response_truncated = 18
metric_index probe_skipped_overlap_total = 19
metric_index build_info = 20
metric_index config_info = 21
metric_index target_proxy_info = 22

unfoldable pub tag_value : String → List (String × String) → String
tag_value key [] = ""
tag_value key ((k, v) ∷ tags) = if str_eq k key then v else tag_value key tags

unfoldable pub add_tags : List String → List (String × String) → Labels → Labels
add_tags [] tags labels = labels
add_tags (key ∷ keys) tags labels = add_tags keys tags (set_label key (tag_value key tags) labels)

unfoldable pub build_labels : List String → TargetConfig → Labels
unfolding add_tags tag_value
build_labels tag_keys target = add_tags tag_keys target.tags (
    ("target", target.address)
    ∷ ("target_name", target.name)
    ∷ ("probe_type", probe_type_text target.probe_type)
    ∷ ("proxy_name", target.proxy_name)
    ∷ [])

unfoldable pub certificate_role : ℕ → Certificate → String
certificate_role index cert =
    if index == 0
    then "leaf"
    else if str_eq cert.raw_issuer cert.raw_subject
    then "root"
    else "intermediate"

-- The labels of the vectors that have one or two more.
abbrev pub phase_labels : Phase → Labels → Labels
phase_labels p labels = set_label "phase" (phase_text p) labels

abbrev pub proxy_info_labels : TargetConfig → ResolvedProxyConfig → Labels
proxy_info_labels target proxy =
    ("target_name", target.name)
    ∷ ("proxy_name", target.proxy_name)
    ∷ ("proxy_endpoint", proxy.endpoint)
    ∷ []
