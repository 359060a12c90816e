-- ===== src/Metrics/Exporter.antt =====
-- MetricsExporter of internal/metrics/metrics.go: its vectors, Record and DeleteTarget.
use netsonar.Base.{
  ℕ, suc, Bool, String, is_blank, List, [], ◌∷◌, Option, none, some, if◌then◌else◌, ◌==◌, leb,
  show_ℕ,
}
use netsonar.Base.Int.{ℤ, pos, ltb_ℤ}
use netsonar.Config.Types.{
  TargetConfig, ProbeType, http, icmp, mtu, dns, tls_cert, http_body, proxy_connect,
}
use netsonar.Probe.Result.{
  ProbeResult, Phase, all_phases, Certificate, mtu_state_text, mtu_detail_text,
}
use netsonar.Metrics.Vec.{Labels, set_label, Value, number, seconds, ratio, flag, VecOps}
use netsonar.Metrics.Series.{
  Metric, metric_index, probe_success, probe_duration, probe_timeout, probe_interval,
  probe_timed_out, probe_phase_duration, http_status_code, proxy_connect_status_code,
  tls_cert_expiry, tls_cert_chain_expiry, icmp_packet_loss, icmp_avg_rtt, icmp_stddev_rtt,
  mtu_bytes, mtu_state, dns_resolve_time, dns_result_match, http_body_match,
  http_response_truncated, probe_skipped_overlap_total, target_proxy_info, build_labels,
  certificate_role, phase_labels, proxy_info_labels,
}

-- The vectors are the fields of the Go struct, here a function of the field's name.
pub record MetricsExporter (V : Type 0) : Type 0 where
  pub tag_keys : List String
  pub vec : Metric → V
  pub targets_total : ℤ
  pub config_reload_ts : ℤ

module _ {V : Type 0} (ops : VecOps V) where
  -- An operation on one vector.
  unfoldable pub on : Metric → (V → V) → MetricsExporter V → MetricsExporter V
  on m f e = record e {
    vec = λ k. if metric_index m == metric_index k then f (e.vec k) else e.vec k;
  }

  -- `m.With(labels).Set(x)`, `m.Delete(labels)`, and the choice between them.
  unfoldable pub put : Metric → Labels → Value → MetricsExporter V → MetricsExporter V
  put m labels x = on m (ops.set labels x)

  unfoldable pub drop : Metric → Labels → MetricsExporter V → MetricsExporter V
  drop m labels = on m (ops.delete labels)

  unfoldable pub drop_partial : Metric → Labels → MetricsExporter V → MetricsExporter V
  drop_partial m labels = on m (ops.delete_partial_match labels)

  unfoldable pub put_or_drop :
      Bool → Metric → Labels → Value → MetricsExporter V → MetricsExporter V
  put_or_drop b m labels x e = if b then put m labels x e else drop m labels e

  unfoldable pub put_if : Bool → Metric → Labels → Value → MetricsExporter V → MetricsExporter V
  put_if b m labels x e = if b then put m labels x e else e

  -- `for _, phase := range knownPhases { m.probePhaseDuration.Delete(...) }`, on the vector.
  unfoldable pub delete_phases : List Phase → Labels → V → V
  delete_phases [] labels v = v
  delete_phases (p ∷ ps) labels v = delete_phases ps labels (ops.delete (phase_labels p labels) v)

  unfoldable pub set_phases : List (Phase × ℤ) → Labels → V → V
  set_phases [] labels v = v
  set_phases ((p, d) ∷ ps) labels v =
      set_phases ps labels (ops.set (phase_labels p labels) (seconds d) v)

  unfoldable pub clear_tls_result : Labels → MetricsExporter V → MetricsExporter V
  clear_tls_result labels e =
      drop_partial tls_cert_chain_expiry labels (drop tls_cert_expiry labels e)

  unfoldable pub set_chain : ℕ → List (Option Certificate) → Labels → V → V
  unfolding certificate_role
  set_chain i [] labels v = v
  set_chain i (none ∷ certs) labels v = set_chain (suc i) certs labels v
  set_chain i (some cert ∷ certs) labels v = set_chain (suc i) certs labels (
      ops.set
        (set_label "cert_role" (certificate_role i cert) (set_label "cert_index" (show_ℕ i) labels))
        (number cert.not_after) v)

  unfoldable pub record_tls_result : ProbeResult → Labels → MetricsExporter V → MetricsExporter V
  record_tls_result r labels e =
      let cleared = clear_tls_result labels e in
      on tls_cert_chain_expiry (set_chain 0 r.tls_certificates labels)
        (put_if r.cert_observed tls_cert_expiry labels (number r.cert_expiry) cleared)

  -- `if target.ProbeOpts.TLSEmitCertMetrics { ... } else { ... }` of the HTTP case.
  unfoldable pub record_http_tls :
      Bool → ProbeResult → Labels → MetricsExporter V → MetricsExporter V
  record_http_tls emit r labels e =
      if emit then record_tls_result r labels e else clear_tls_result labels e

  unfoldable pub record_mtu_result : ProbeResult → Labels → MetricsExporter V → MetricsExporter V
  record_mtu_result r labels e =
      let cleared = drop_partial mtu_state labels e in
      let measured =
        put_or_drop (ltb_ℤ (pos 0) r.path_mtu) mtu_bytes labels (number r.path_mtu) cleared in
      put mtu_state
        (set_label "detail" (mtu_detail_text r.mtu_detail)
          (set_label "state" (mtu_state_text r.mtu_state) labels))
        (number (pos 1)) measured

  unfoldable pub record_icmp_avg_rtt : ProbeResult → Labels → MetricsExporter V → MetricsExporter V
  record_icmp_avg_rtt r labels =
      put_or_drop (leb 1 r.icmp_replies_observed) icmp_avg_rtt labels (seconds r.icmp_avg_rtt)

  unfoldable pub record_icmp_stddev_rtt :
      ProbeResult → Labels → MetricsExporter V → MetricsExporter V
  record_icmp_stddev_rtt r labels =
      put_or_drop (leb 2 r.icmp_replies_observed) icmp_stddev_rtt labels (seconds r.icmp_stddev_rtt)

  unfoldable pub record_http_status : ProbeResult → Labels → MetricsExporter V → MetricsExporter V
  record_http_status r labels =
      put_or_drop r.http_response_received http_status_code labels (number r.status_code)

  -- The first part of Record: the metrics of every probe type.
  unfoldable pub record_common : ProbeResult → Labels → MetricsExporter V → MetricsExporter V
  record_common r labels e =
      put probe_timed_out labels (flag r.timed_out) (
        put probe_duration labels (seconds r.duration)
          (put probe_success labels (flag r.success) e))

  -- The `switch` on the types that can see a CONNECT response.
  unfoldable pub record_proxy_connect :
      ProbeType → ProbeResult → Labels → MetricsExporter V → MetricsExporter V
  record_proxy_connect ty r labels e =
      let seen =
        put_or_drop r.proxy_connect_response_received proxy_connect_status_code labels
          (number r.proxy_connect_status_code) e in
      elim ty [ proxy_connect ↦ seen | http ↦ seen | http_body ↦ seen | tls_cert ↦ seen | _ ↦ e ]

  unfoldable pub record_phases : ProbeResult → Labels → MetricsExporter V → MetricsExporter V
  record_phases r labels =
      on probe_phase_duration (λ v. set_phases r.phases labels (delete_phases all_phases labels v))

  -- The probe-type-specific `switch`.
  unfoldable pub record_type :
      ProbeType → TargetConfig → ProbeResult → Labels → MetricsExporter V → MetricsExporter V
  record_type http target r labels e =
      put_or_drop r.http_truncation_evaluated http_response_truncated labels
        (flag r.http_response_truncated)
        (record_http_tls target.probe_opts.tls_emit_cert_metrics r labels
          (record_http_status r labels e))
  record_type icmp target r labels e =
      record_icmp_stddev_rtt r labels
        (record_icmp_avg_rtt r labels (put icmp_packet_loss labels (ratio r.packet_loss) e))
  record_type mtu target r labels e = record_icmp_avg_rtt r labels (record_mtu_result r labels e)
  record_type dns target r labels e =
      put_or_drop r.dns_match_evaluated dns_result_match labels (flag r.dns_matched)
        (put dns_resolve_time labels (seconds r.dns_resolve_time) e)
  record_type tls_cert target r labels e = record_tls_result r labels e
  record_type http_body target r labels e =
      record_http_status r labels
        (put_or_drop r.http_body_evaluated http_body_match labels (flag r.body_match) e)
  record_type _ target r labels e = e

  unfoldable pub record_result : TargetConfig → ProbeResult → MetricsExporter V → MetricsExporter V
  record_result target r e =
      let labels = build_labels e.tag_keys target in
      record_type target.probe_type target r labels (
        record_phases r labels
          (record_proxy_connect target.probe_type r labels (record_common r labels e)))

  unfoldable pub delete_target_proxy_info : TargetConfig → MetricsExporter V → MetricsExporter V
  delete_target_proxy_info target e =
      let partial = drop_partial target_proxy_info (("target_name", target.name) ∷ []) e in
      if is_blank target.proxy_name then partial else elim target.resolved_proxy [
        | none ↦ partial
        | some proxy ↦ drop target_proxy_info (proxy_info_labels target proxy) e
      ]

  unfoldable pub delete_target : TargetConfig → MetricsExporter V → MetricsExporter V
  delete_target target e =
      let l = build_labels e.tag_keys target in
      let e1 = drop probe_timed_out l (
        drop probe_interval l
          (drop probe_timeout l (drop probe_duration l (drop probe_success l e)))) in
      let e2 =
        drop_partial tls_cert_chain_expiry l (
          drop tls_cert_expiry l (drop http_status_code l (drop proxy_connect_status_code l e1))) in
      let e3 =
        drop mtu_bytes l
          (drop icmp_stddev_rtt l (drop icmp_avg_rtt l (drop icmp_packet_loss l e2))) in
      let e4 =
        drop dns_resolve_time l
          (drop probe_skipped_overlap_total l (drop_partial mtu_state l e3)) in
      let e5 =
        drop http_response_truncated l (drop http_body_match l (drop dns_result_match l e4)) in
      on probe_phase_duration (delete_phases all_phases l) (delete_target_proxy_info target e5)
