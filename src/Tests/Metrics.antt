-- ===== src/Tests/Metrics.antt =====
-- Record and DeleteTarget on a TCP target.
use netsonar.Base.{◌≡◌, refl, true, none, some}
use netsonar.Probe.Result.{Phase}
use netsonar.Metrics.Vec.{Labels, flag, sub_labels}
use netsonar.Metrics.Series.{probe_success, probe_phase_duration, build_labels, phase_labels}
use netsonar.Metrics.Exporter.{MetricsExporter, record_result, delete_target}
use netsonar.Metrics.Observe.{record_result-observes}
use netsonar.Metrics.Phases.{record_result-phases, phase_duration}
use netsonar.Metrics.Delete.{delete_target-clears, treatment, exact, partial, phases}
use netsonar.Tests.Samples.{Vec, vec_ops, exporter, web, success}

record_result-observes_example :
    vec_ops.get
      ((record_result vec_ops web success exporter).vec probe_success)
      (build_labels exporter.tag_keys web)
    ≡ some (flag true)
record_result-observes_example =
    record_result-observes vec_ops web success exporter probe_success refl

record_result-phases_example :
    vec_ops.get
      ((record_result vec_ops web success exporter).vec probe_phase_duration)
      (phase_labels Phase.tcp_connect (build_labels exporter.tag_keys web))
    ≡ phase_duration Phase.tcp_connect success.phases none
record_result-phases_example = record_result-phases vec_ops web success exporter Phase.tcp_connect

-- What the exporter holds after one probe of `web`.
abbrev recorded : MetricsExporter Vec
recorded = record_result vec_ops web success exporter

delete_target-clears_example :
    let l = build_labels recorded.tag_keys web in
    let after = (delete_target vec_ops web recorded).vec probe_success in
    (treatment probe_success ≡ exact → vec_ops.get after l ≡ none)
    × (treatment probe_success ≡ partial
        → (k : Labels) → sub_labels l k ≡ true
        → vec_ops.get after k ≡ none)
    × (treatment probe_success ≡ phases → (q : Phase) → vec_ops.get after (phase_labels q l) ≡ none)
delete_target-clears_example = delete_target-clears vec_ops web recorded probe_success
