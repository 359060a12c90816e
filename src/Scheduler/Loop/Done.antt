-- ===== src/Scheduler/Loop/Done.antt =====
-- The goroutine of internal/scheduler/scheduler.go under a context that is done.
use netsonar.Base.{
  ◌≡◌, refl, ap, ◌∙◌, true, false, List, [], ◌∷◌, is_some, ◌==◌, Bool-cases, inl, inr,
}
use netsonar.Base.Int.{ℤ}
use netsonar.Config.Types.{TargetConfig}
use netsonar.Metrics.Vec.{VecOps}
use netsonar.Metrics.Series.{Metric, metric_index, probe_skipped_overlap_total}
use netsonar.Metrics.Exporter.{MetricsExporter, on}
use netsonar.Metrics.Info.{incr_skipped_overlap}
use netsonar.Scheduler.Loop.{
  LoopEnv, Prober, LoopState, Event, ctx_done, tick, execute_probe, tick_loop, run_probe_loop,
  fresh_state, wait_initial_probe_jitter,
}

incr_skipped_overlap-vec :
    {V : Type 0} (ops : VecOps V) (target : TargetConfig) (e : MetricsExporter V) (m : Metric)
    → (metric_index probe_skipped_overlap_total == metric_index m) ≡ false
    → (incr_skipped_overlap ops target e).vec m ≡ e.vec m
unfolding incr_skipped_overlap on
incr_skipped_overlap-vec ops target e m h = rw h refl

module _ {V W : Type 0} (ops : VecOps V) (env : LoopEnv W) (prober : Prober W)
    (target : TargetConfig) (done : (w : W) → is_some (env.ctx_err w).0 ≡ true) where
  execute_probe-done : (s : LoopState V) (w : W) → (execute_probe ops env prober target s w).0 ≡ s
  unfolding execute_probe
  execute_probe-done s w = rw (done w) refl

  tick_loop-done :
      (events : List Event) (s : LoopState V) (w : W) (m : Metric)
      → (metric_index probe_skipped_overlap_total == metric_index m) ≡ false
      → let s' = (tick_loop ops env prober target events s w).0 in
        (s'.log ≡ s.log) × (s'.metrics.vec m ≡ s.metrics.vec m)
  unfolding tick_loop
  tick_loop-done [] s w m h = (refl, refl)
  tick_loop-done (ctx_done ∷ events) s w m h = (refl, refl)
  tick_loop-done (tick false ∷ events) s w m h =
      let (s1, w1) = execute_probe ops env prober target s w in
      let same = execute_probe-done s w in
      let ih = tick_loop-done events s1 w1 m h in
      (ih.0 ∙ ap (λ q. q.log) same, ih.1 ∙ ap (λ q. q.metrics.vec m) same)
  tick_loop-done (tick true ∷ events) s w m h =
      let (s1, w1) = execute_probe ops env prober target s w in
      let same = execute_probe-done s w in
      let s2 : LoopState V = record s1 { metrics = incr_skipped_overlap ops target s1.metrics } in
      let ih = tick_loop-done events s2 w1 m h in
      (
        ih.0 ∙ ap (λ q. q.log) same,
        ih.1 ∙ incr_skipped_overlap-vec ops target s1.metrics m h ∙ ap (λ q. q.metrics.vec m) same,
      )

-- A goroutine whose context is done, whatever its prober would answer and its ticker sends, logs
-- nothing and changes no vector but that of the skipped ticks.
pub run_probe_loop-done :
    {V W : Type 0} (ops : VecOps V) (env : LoopEnv W) (prober : Prober W) (target : TargetConfig)
    (jitter : ℤ) (events : List Event) (e : MetricsExporter V) (w : W) (m : Metric)
    → ((v : W) → is_some (env.ctx_err v).0 ≡ true)
    → (metric_index probe_skipped_overlap_total == metric_index m) ≡ false
    → let s = (run_probe_loop ops env prober target jitter events e w).0 in
      (s.log ≡ []) × (s.metrics.vec m ≡ e.vec m)
unfolding run_probe_loop
run_probe_loop-done {V} ops env prober target jitter events e w m done h =
    let s0 : LoopState V = record { metrics = e; state = fresh_state; log = [] } in
    let (go, w1) = wait_initial_probe_jitter ops env prober jitter w in
    let (s1, w2) = execute_probe ops env prober target s0 w1 in
    let same = execute_probe-done ops env prober target done s0 w1 in
    let ticked = tick_loop-done ops env prober target done events s1 w2 m h in
    elim (Bool-cases go) [
      | inl g ↦ rw g (ticked.0 ∙ ap (λ q. q.log) same, ticked.1 ∙ ap (λ q. q.metrics.vec m) same)
      | inr g ↦ rw g (refl, refl)
    ]
