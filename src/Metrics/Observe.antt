-- ===== src/Metrics/Observe.antt =====
-- Record of internal/metrics/metrics.go against a table of what each series should show: the
-- current-observation semantics of docs/metrics.md.
use netsonar.Base.{
  ◌≡◌, Bool, true, false, ◌&&◌, Option, none, some, if◌then◌else◌, leb, ◌==◌, arith,
}
use netsonar.Base.Int.{pos, ltb_ℤ}
use netsonar.Config.Types.{
  TargetConfig, ProbeType, tcp, http, icmp, mtu, dns, tls_cert, http_body, proxy_connect, unknown,
}
use netsonar.Probe.Result.{ProbeResult}
use netsonar.Metrics.Vec.{Labels, labels_eq_refl, Value, number, seconds, ratio, flag, VecOps}
use netsonar.Metrics.Series.{
  Metric, metric_index, probe_success, probe_duration, probe_timed_out, probe_phase_duration,
  http_status_code, proxy_connect_status_code, tls_cert_expiry, tls_cert_chain_expiry,
  icmp_packet_loss, icmp_avg_rtt, icmp_stddev_rtt, mtu_bytes, mtu_state, dns_resolve_time,
  dns_result_match, http_body_match, http_response_truncated, build_labels,
}
use netsonar.Metrics.Exporter.{
  on, put, drop, drop_partial, put_or_drop, put_if, record_type, record_phases,
  record_proxy_connect, record_common, record_tls_result, record_http_tls, clear_tls_result,
  record_mtu_result, record_icmp_avg_rtt, record_icmp_stddev_rtt, record_http_status,
  MetricsExporter, record_result,
}

abbrev when : Bool → Value → Option Value
when true x = some x
when false x = none

-- Which series one result decides, for a probe type; phases, chains and MTU states have labels of
-- their own.
abbrev pub decides : ProbeType → Metric → Bool
decides ty probe_success = true
decides ty probe_duration = true
decides ty probe_timed_out = true
decides proxy_connect proxy_connect_status_code = true
decides http proxy_connect_status_code = true
decides http_body proxy_connect_status_code = true
decides tls_cert proxy_connect_status_code = true
decides http http_status_code = true
decides http_body http_status_code = true
decides http tls_cert_expiry = true
decides tls_cert tls_cert_expiry = true
decides http http_response_truncated = true
decides icmp icmp_packet_loss = true
decides icmp icmp_avg_rtt = true
decides mtu icmp_avg_rtt = true
decides icmp icmp_stddev_rtt = true
decides mtu mtu_bytes = true
decides dns dns_resolve_time = true
decides dns dns_result_match = true
decides http_body http_body_match = true
decides _ _ = false

-- The series that have the common labels alone.
abbrev pub is_plain : Metric → Bool
is_plain probe_phase_duration = false
is_plain tls_cert_chain_expiry = false
is_plain mtu_state = false
is_plain _ = true

-- Whether a target's certificate metrics are asked for.
abbrev wants_tls : TargetConfig → ProbeType → Bool
wants_tls target http = target.probe_opts.tls_emit_cert_metrics
wants_tls target _ = true

-- What the result alone says of a series.
abbrev pub observation : Metric → TargetConfig → ProbeType → ProbeResult → Option Value
observation probe_success target ty r = some (flag r.success)
observation probe_duration target ty r = some (seconds r.duration)
observation probe_timed_out target ty r = some (flag r.timed_out)
observation proxy_connect_status_code target ty r =
    when r.proxy_connect_response_received (number r.proxy_connect_status_code)
observation http_status_code target ty r = when r.http_response_received (number r.status_code)
observation tls_cert_expiry target ty r =
    when (wants_tls target ty && r.cert_observed) (number r.cert_expiry)
observation http_response_truncated target ty r =
    when r.http_truncation_evaluated (flag r.http_response_truncated)
observation icmp_packet_loss target ty r = some (ratio r.packet_loss)
observation icmp_avg_rtt target ty r = when (leb 1 r.icmp_replies_observed) (seconds r.icmp_avg_rtt)
observation icmp_stddev_rtt target ty r =
    when (leb 2 r.icmp_replies_observed) (seconds r.icmp_stddev_rtt)
observation mtu_bytes target ty r = when (ltb_ℤ (pos 0) r.path_mtu) (number r.path_mtu)
observation dns_resolve_time target ty r = some (seconds r.dns_resolve_time)
observation dns_result_match target ty r = when r.dns_match_evaluated (flag r.dns_matched)
observation http_body_match target ty r = when r.http_body_evaluated (flag r.body_match)
observation _ target ty r = none

module _ {V : Type 0} (ops : VecOps V) (l : Labels) where
  -- The series of one vector under the labels `l`.
  see : MetricsExporter V → Metric → Option Value
  see e k = ops.get (e.vec k) l

  see-on :
      (m k : Metric) (f : V → V) (e : MetricsExporter V)
      → see (on ops m f e) k
        ≡ (if metric_index m == metric_index k then ops.get (f (e.vec k)) l else see e k)
  unfolding see on
  see-on m k f e = ground arith

  see-put :
      (m k : Metric) (x : Value) (e : MetricsExporter V)
      → see (put ops m l x e) k ≡ (if metric_index m == metric_index k then some x else see e k)
  unfolding see put on
  see-put m k x e = ground (arith, ops.get-set (e.vec k) l l x, labels_eq_refl l)

  -- Under other labels.
  see-put_at :
      (l' : Labels) (m k : Metric) (x : Value) (e : MetricsExporter V)
      → see (put ops m l' x e) k
        ≡ (if metric_index m == metric_index k then ops.get (ops.set l' x (e.vec k)) l else see e k)
  unfolding see put on
  see-put_at l' m k x e = ground arith

  see-drop :
      (m k : Metric) (e : MetricsExporter V)
      → see (drop ops m l e) k ≡ (if metric_index m == metric_index k then none else see e k)
  unfolding see drop on
  see-drop m k e = ground (arith, ops.get-delete (e.vec k) l l, labels_eq_refl l)

  see-drop_partial :
      (m k : Metric) (e : MetricsExporter V)
      → see (drop_partial ops m l e) k ≡ (
          if metric_index m == metric_index k
          then ops.get (ops.delete_partial_match l (e.vec k)) l
          else see e k)
  unfolding see drop_partial on
  see-drop_partial m k e = ground arith

  see-put_or_drop :
      (b : Bool) (m k : Metric) (x : Value) (e : MetricsExporter V)
      → see (put_or_drop ops b m l x e) k
        ≡ (if metric_index m == metric_index k then when b x else see e k)
  unfolding put_or_drop
  see-put_or_drop true m k x e = see-put m k x e
  see-put_or_drop false m k x e = see-drop m k e

  see-put_if :
      (b : Bool) (m k : Metric) (x : Value) (e : MetricsExporter V)
      → see (put_if ops b m l x e) k
        ≡ (if metric_index m == metric_index k then (if b then some x else see e k) else see e k)
  unfolding put_if
  see-put_if true m k x e = see-put m k x e
  see-put_if false m k x e = ground arith

  ruleset laws = (see-on, see-put, see-drop, see-drop_partial, see-put_or_drop, see-put_if)

  module _ (target : TargetConfig) (r : ProbeResult) (e : MetricsExporter V) where
    abbrev after : ProbeType → MetricsExporter V
    after ty =
        record_type ops ty target r l
          (record_phases ops r l (record_proxy_connect ops ty r l (record_common ops r l e)))

    record_http_tls-see :
        (b : Bool) (m : Metric) (f : MetricsExporter V)
        → is_plain m ≡ true
        → see (record_http_tls ops b r l f) m ≡ (
            if metric_index tls_cert_expiry == metric_index m
            then when (b && r.cert_observed) (number r.cert_expiry)
            else see f m)
    unfolding record_http_tls record_tls_result clear_tls_result
    record_http_tls-see true probe_success f h = simp laws (ground arith)
    record_http_tls-see true _ f h = simp laws (ground arith)
    record_http_tls-see false _ f h = simp laws (ground arith)

    observe :
        (ty : ProbeType) (m : Metric)
        → is_plain m ≡ true
        → see (after ty) m ≡ (if decides ty m then observation m target ty r else see e m)
    unfolding record_type record_phases record_proxy_connect record_common record_tls_result
        clear_tls_result record_mtu_result record_icmp_avg_rtt record_icmp_stddev_rtt
        record_http_status
    observe http probe_success h =
        simp (laws, record_http_tls-see _ probe_success _ h) (ground arith)
    observe http m h = simp (laws, record_http_tls-see _ m _ h) (ground arith)
    observe tcp probe_success h = simp laws (ground arith)
    observe tcp _ h = simp laws (ground arith)
    observe icmp probe_success h = simp laws (ground arith)
    observe icmp _ h = simp laws (ground arith)
    observe mtu probe_success h = simp (see-put_at _ mtu_state, laws) (ground arith)
    observe mtu _ h = simp (see-put_at _ mtu_state, laws) (ground arith)
    observe dns probe_success h = simp laws (ground arith)
    observe dns _ h = simp laws (ground arith)
    observe tls_cert probe_success h = simp laws (ground arith)
    observe tls_cert _ h = simp laws (ground arith)
    observe http_body probe_success h = simp laws (ground arith)
    observe http_body _ h = simp laws (ground arith)
    observe proxy_connect probe_success h = simp laws (ground arith)
    observe proxy_connect _ h = simp laws (ground arith)
    observe (unknown s) probe_success h = simp laws (ground arith)
    observe (unknown s) _ h = simp laws (ground arith)

-- After Record, each series of the target that has the common labels alone shows what the result
-- says of it where the probe type decides that series (nothing, if the result made no such
-- observation), and is unchanged where it does not.
pub record_result-observes :
    {V : Type 0} (ops : VecOps V) (target : TargetConfig) (r : ProbeResult) (e : MetricsExporter V)
    (m : Metric)
    → is_plain m ≡ true
    → let l = build_labels e.tag_keys target in
      ops.get ((record_result ops target r e).vec m) l ≡ (
        if decides target.probe_type m
        then observation m target target.probe_type r
        else ops.get (e.vec m) l)
unfolding record_result see
record_result-observes ops target r e m h =
    observe ops (build_labels e.tag_keys target) target r e target.probe_type m h
