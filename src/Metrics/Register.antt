-- ===== src/Metrics/Register.antt =====
-- NewMetricsExporter of internal/metrics/metrics.go: the label names of each vector, and their
-- registration, which panics if the client refuses one. The optional collectors of the Go runtime have
-- no series of the agent and are left out.
pub mod Panics
use netsonar.Base.{
  ℕ, ◌==◌, ◌≡◌, Bool, true, false, ◌&&◌, not, String, str_mem, List, [], ◌∷◌, ◌++◌, Option, none,
  some, if◌then◌else◌, any,
}
use netsonar.Base.Int.{pos}
use netsonar.Config.Checks.{codes, matches_label}
use netsonar.Metrics.Series.{
  Metric, probe_success, probe_duration, probe_timeout, probe_interval, probe_timed_out,
  probe_phase_duration, http_status_code, proxy_connect_status_code, tls_cert_expiry,
  tls_cert_chain_expiry, icmp_packet_loss, icmp_avg_rtt, icmp_stddev_rtt, mtu_bytes, mtu_state,
  dns_resolve_time, dns_result_match, http_body_match, http_response_truncated,
  probe_skipped_overlap_total, build_info, config_info, target_proxy_info,
}
use netsonar.Metrics.Exporter.{MetricsExporter}

-- No name stands twice.
abbrev pub unique : List String → Bool
unique [] = true
unique (s ∷ ss) = not (str_mem s ss) && unique ss

-- Two underscores at the start are reserved by Prometheus.
abbrev starts_reserved : List ℕ → Bool
starts_reserved (c ∷ (d ∷ cs)) = c == b'_' && d == b'_'
starts_reserved _ = false

-- A name that the client takes for a label.
unfoldable pub is_plain : String → Bool
unfolding matches_label
is_plain s = matches_label (codes s) && not (starts_reserved (codes s))

-- What MustRegister of client_golang does with a vector of these labels: `accepts` is false where it
-- panics.
pub record Registry (V : Type 0) : Type 0 where
  pub empty : V
  pub accepts : List String → Bool
  pub accepts_unique :
      (ls : List String) → any (λ l. not (is_plain l)) ls ≡ false → accepts ls ≡ unique ls
  pub rejects_repeated : (ls : List String) → unique ls ≡ false → accepts ls ≡ false

-- baseLabels.
abbrev pub base_labels : List String
base_labels = "target" ∷ "target_name" ∷ "probe_type" ∷ "proxy_name" ∷ []

abbrev pub label_names : List String → Metric → List String
label_names keys probe_phase_duration = base_labels ++ (keys ++ "phase" ∷ [])
label_names keys tls_cert_chain_expiry = base_labels ++ (keys ++ "cert_index" ∷ ("cert_role" ∷ []))
label_names keys mtu_state = base_labels ++ (keys ++ "state" ∷ ("detail" ∷ []))
label_names keys build_info = "version" ∷ "revision" ∷ "build_date" ∷ []
label_names keys config_info = "hash" ∷ []
label_names keys target_proxy_info = "target_name" ∷ "proxy_name" ∷ "proxy_endpoint" ∷ []
label_names keys _ = base_labels ++ keys

-- The vectors, in the order of their registration.
abbrev pub registered : List Metric
registered =
    probe_success ∷ probe_duration ∷ probe_timeout ∷ probe_interval ∷ probe_timed_out
    ∷ probe_phase_duration ∷ http_status_code ∷ proxy_connect_status_code ∷ tls_cert_expiry
    ∷ tls_cert_chain_expiry ∷ icmp_packet_loss ∷ icmp_avg_rtt ∷ icmp_stddev_rtt ∷ mtu_bytes
    ∷ mtu_state ∷ probe_skipped_overlap_total ∷ dns_resolve_time ∷ dns_result_match
    ∷ http_body_match ∷ http_response_truncated ∷ build_info ∷ config_info ∷ target_proxy_info ∷ []

-- `none`: the registration panics.
unfoldable pub new_metrics_exporter :
    {V : Type 0} → Registry V → List String → Option (MetricsExporter V)
new_metrics_exporter reg keys =
    if any (λ m. not (reg.accepts (label_names keys m))) registered
    then none
    else some (record {
      tag_keys = keys;
      vec = λ m. reg.empty;
      targets_total = pos 0;
      config_reload_ts = pos 0;
    })
