-- ===== src/Scheduler/Loop.antt =====
-- The goroutine of one target in internal/scheduler/scheduler.go, run on its own: the first delay, the
-- ticks, one probe, its classification and its log line.
pub mod Outcome
pub mod Done
use netsonar.Base.{
  ℕ, ◌≡◌, Bool, true, false, ◌&&◌, ◌||◌, not, String, str_eq, List, [], ◌∷◌, Option, none, some,
  if◌then◌else◌, is_some,
}
use netsonar.Base.Int.{ℤ, pos, add64, sub64, ltb_ℤ, leb_ℤ, eq_ℤ}
use netsonar.Config.Types.{TargetConfig}
use netsonar.Probe.Result.{ProbeResult}
use netsonar.Metrics.Vec.{VecOps}
use netsonar.Metrics.Exporter.{MetricsExporter, record_result}
use netsonar.Metrics.Info.{incr_skipped_overlap}

pub record ProbeState : Type 0 where
  pub seen : Bool
  pub last_success : Bool
  pub last_error : String

abbrev pub fresh_state : ProbeState
fresh_state = record { seen = false; last_success = false; last_error = "" }

-- What logProbeResult writes: Info, Warn, Debug, or nothing.
pub data LogLine : Type 0 where
  recovered failed still_failing silent : LogLine

unfoldable pub log_probe_result : ProbeResult → ProbeState → LogLine × ProbeState
log_probe_result r state =
    if r.success
    then (
      if state.seen && not state.last_success then recovered else silent,
      record { seen = true; last_success = true; last_error = "" },
    )
    else (
      if not state.seen || (state.last_success || not (str_eq state.last_error r.error))
          then failed
          else still_failing,
      record { seen = true; last_success = false; last_error = r.error },
    )

-- The parent context, the clock, the probe's own deadline, and the timer of the first delay, which
-- says whether it fired before the context was done.
pub record LoopEnv (W : Type 0) : Type 0 where
  pub ctx_err : W → Option String × W
  pub now : W → ℤ × W
  pub deadline_exceeded : W → Bool × W
  pub random_int64n : ℤ → W → ℤ × W
  pub timer_fires : ℤ → W → Bool × W

unfoldable pub probe_timed_out : Bool → ℤ → ℤ → ProbeResult → Bool
probe_timed_out deadline_exceeded timeout elapsed r =
    if r.timed_out || deadline_exceeded
    then true
    else ltb_ℤ (pos 0) timeout && leb_ℤ timeout elapsed

-- What a prober does: the target's timeout goes with the call, as the deadline of its context.
abbrev pub Prober : Type 0 → Type 0
Prober W = ℤ → TargetConfig → W → ProbeResult × W

-- What a goroutine changes.
pub record LoopState (V : Type 0) : Type 0 where
  pub metrics : MetricsExporter V
  pub state : ProbeState
  pub log : List LogLine

pub data Event : Type 0 where
  ctx_done : Event
  -- A tick, and whether another was waiting when its probe had ended.
  tick : Bool → Event

module _ {V W : Type 0} (ops : VecOps V) (env : LoopEnv W) (prober : Prober W) where
  -- randomInitialProbeDelay; rand.Int64N(n) is below n.
  random_initial_probe_delay : ℤ → W → ℤ × W
  random_initial_probe_delay max w =
      if leb_ℤ max (pos 0)
      then (pos 0, w)
      else if eq_ℤ max (pos 9_223_372_036_854_775_807)
      then env.random_int64n (pos 9_223_372_036_854_775_807) w
      else env.random_int64n (add64 max (pos 1)) w

  pub wait_initial_probe_jitter : ℤ → W → Bool × W
  unfolding random_initial_probe_delay
  wait_initial_probe_jitter max w =
      let (delay, w1) = random_initial_probe_delay max w in
      let (e, w2) = env.ctx_err w1 in
      if leb_ℤ delay (pos 0) then (not (is_some e), w2) else env.timer_fires delay w1

  -- The part of executeProbe after the second look at the context.
  pub record_probe : TargetConfig → ProbeResult → ℤ → LoopState V → W → LoopState V × W
  record_probe target r elapsed s w =
      let (late, w1) = env.deadline_exceeded w in
      let r' : ProbeResult = record r {
        timed_out = probe_timed_out late target.timeout elapsed r;
      } in
      let (line, state) = log_probe_result r' s.state in
      (
        record {
          metrics = record_result ops target r' s.metrics;
          state = state;
          log = line ∷ s.log;
        },
        w1,
      )

  pub execute_probe : TargetConfig → LoopState V → W → LoopState V × W
  execute_probe target s w =
      let (e, w1) = env.ctx_err w in
      let (probe_start, w2) = env.now w1 in
      let (r, w3) = prober target.timeout target w2 in
      let (probe_end, w4) = env.now w3 in
      let (e', w5) = env.ctx_err w4 in
      if is_some e
      then (s, w1)
      else if is_some e'
      then (s, w5)
      else record_probe target r (sub64 probe_end probe_start) s w5

  -- The `for` loop, over what its `select` receives; it ends with the context.
  pub tick_loop : TargetConfig → List Event → LoopState V → W → LoopState V × W
  tick_loop target [] s w = (s, w)
  tick_loop target (ctx_done ∷ events) s w = (s, w)
  tick_loop target (tick stale ∷ events) s w =
      let (s1, w1) = execute_probe target s w in
      let s2 : LoopState V =
        if stale then record s1 { metrics = incr_skipped_overlap ops target s1.metrics } else s1 in
      tick_loop target events s2 w1

  pub run_probe_loop : TargetConfig → ℤ → List Event → MetricsExporter V → W → LoopState V × W
  run_probe_loop target jitter events m w =
      let s0 : LoopState V = record { metrics = m; state = fresh_state; log = [] } in
      let (go, w1) = wait_initial_probe_jitter jitter w in
      let (s1, w2) = execute_probe target s0 w1 in
      let ticked = tick_loop target events s1 w2 in if go then ticked else (s0, w1)
