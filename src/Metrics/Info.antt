-- ===== src/Metrics/Info.antt =====
-- The series of MetricsExporter of internal/metrics/metrics.go beyond those of results: what EnsureTarget
-- creates, the counts of skipped probes, and what the agent says of itself.
use netsonar.Base.{ℕ, String, is_blank, [], ◌∷◌, Option, none, some, if◌then◌else◌}
use netsonar.Base.Int.{ℤ, pos, ◌+ℤ◌}
use netsonar.Config.Types.{TargetConfig}
use netsonar.Metrics.Vec.{Labels, Value, number, seconds, VecOps}
use netsonar.Metrics.Series.{
  probe_timeout, probe_interval, probe_skipped_overlap_total, build_info, config_info,
  target_proxy_info, build_labels, proxy_info_labels,
}
use netsonar.Metrics.Exporter.{MetricsExporter, on, put}

module _ {V : Type 0} (ops : VecOps V) where
  -- `With(labels)` of a counter: the series stands at 0 if it was not there.
  unfoldable pub touch : Labels → V → V
  touch labels v = elim (ops.get v labels) [ none ↦ ops.set labels (number (pos 0)) v | some x ↦ v ]

  unfoldable pub ensure_target : TargetConfig → MetricsExporter V → MetricsExporter V
  ensure_target target e =
      let l = build_labels e.tag_keys target in
      let e1 = on ops probe_skipped_overlap_total (touch l) (
        put ops probe_interval l (seconds target.interval)
          (put ops probe_timeout l (seconds target.timeout) e)) in
      elim target.resolved_proxy [
        | none ↦ e1
        | some proxy ↦
            if is_blank target.proxy_name
            then e1
            else put ops target_proxy_info (proxy_info_labels target proxy) (number (pos 1)) e1
      ]

  -- The value of a counter after `Inc()`; a counter holds a number.
  abbrev incremented : Option Value → Value
  incremented (some (number n)) = number (n +ℤ pos 1)
  incremented _ = number (pos 1)

  unfoldable pub incr_skipped_overlap : TargetConfig → MetricsExporter V → MetricsExporter V
  incr_skipped_overlap target e =
      let l = build_labels e.tag_keys target in
      on ops probe_skipped_overlap_total (λ v. ops.set l (incremented (ops.get v l)) v) e

  unfoldable pub set_build_info : String → String → String → MetricsExporter V → MetricsExporter V
  set_build_info version revision build_date =
      put ops build_info
        (("version", version) ∷ ("revision", revision) ∷ ("build_date", build_date) ∷ [])
        (number (pos 1))

  unfoldable pub set_config_info : String → MetricsExporter V → MetricsExporter V
  set_config_info hash e =
      put ops config_info (("hash", hash) ∷ []) (number (pos 1)) (on ops config_info ops.reset e)

  unfoldable pub set_targets_total : ℕ → MetricsExporter V → MetricsExporter V
  set_targets_total count e = record e { targets_total = pos count }

  unfoldable pub set_config_reload_timestamp : ℤ → MetricsExporter V → MetricsExporter V
  set_config_reload_timestamp t e = record e { config_reload_ts = t }
