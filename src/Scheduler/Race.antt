-- ===== src/Scheduler/Race.antt =====
-- One target's goroutine beside a Reload or Stop that removes the target, both of
-- internal/scheduler/scheduler.go, as interleaved steps: `run` the lines of runProbeLoop and
-- executeProbe, `cancel` and `delete` those of Reload, `done` what Reload waits for.
use netsonar.Base.{◌≡◌, refl, subst, Bool, true, false, none, some, ◌==◌, arith}
use netsonar.Config.Types.{TargetConfig}
use netsonar.Probe.Result.{ProbeResult}
use netsonar.Metrics.Vec.{Labels, VecOps, flag}
use netsonar.Metrics.Series.{
  Metric, metric_index, probe_success, probe_skipped_overlap_total, build_labels,
}
use netsonar.Metrics.Exporter.{
  MetricsExporter, on, record_result, delete_target, drop, drop_partial, delete_target_proxy_info,
}
use netsonar.Metrics.Info.{incr_skipped_overlap}
use netsonar.Metrics.Delete.{treatment, exact, delete_target-vec}
use netsonar.Metrics.Observe.{record_result-observes}

-- Where the goroutine stands: at its `select`; in Probe; behind the second look at the context, with
-- a result to record; behind executeProbe, before the stale tick is drained; returned.
pub data Place : Type 0 where
  waiting probing : Place
  checked : ProbeResult → Place
  draining returned : Place

pub record Shared (V : Type 0) : Type 0 where
  pub place : Place
  pub cancelled : Bool
  pub deleted : Bool
  pub metrics : MetricsExporter V

module _ {V : Type 0} (ops : VecOps V) (target : TargetConfig) where
  pub data Step : Shared V → Shared V → Type 0 where
    -- `<-ctx.Done()`.
    leave :
        {s : Shared V}
        → s.place ≡ waiting
        → s.cancelled ≡ true
        → Step s (record s { place = returned })
    -- A tick; the first look at the context finds it alive, or done.
    begin :
        {s : Shared V}
        → s.place ≡ waiting
        → s.cancelled ≡ false
        → Step s (record s { place = probing })
    skip :
        {s : Shared V}
        → s.place ≡ waiting
        → s.cancelled ≡ true
        → Step s (record s { place = draining })
    -- Probe returns; the second look.
    keep :
        {s : Shared V} (r : ProbeResult)
        → s.place ≡ probing
        → s.cancelled ≡ false
        → Step s (record s { place = checked r })
    discard :
        {s : Shared V}
        → s.place ≡ probing
        → s.cancelled ≡ true
        → Step s (record s { place = draining })
    -- `m.Record(target, result)`.
    write :
        {s : Shared V} (r : ProbeResult)
        → s.place ≡ checked r
        → Step s (record s { place = draining; metrics = record_result ops target r s.metrics })
    -- The inner `select`: a stale tick, or none.
    stale :
        {s : Shared V}
        → s.place ≡ draining
        → Step s (record s { place = waiting; metrics = incr_skipped_overlap ops target s.metrics })
    drained : {s : Shared V} → s.place ≡ draining → Step s (record s { place = waiting })
    -- Reload's `entry.cancel()`, and then its `DeleteTarget`.
    cancel : {s : Shared V} → s.cancelled ≡ false → Step s (record s { cancelled = true })
    delete :
        {s : Shared V}
        → s.cancelled ≡ true
        → s.deleted ≡ false
        → Step s (record s { deleted = true; metrics = delete_target ops target s.metrics })

  pub data Reach (s : Shared V) : Shared V → Type 0 where
    here : Reach s s
    next : {t u : Shared V} → Reach s t → Step t u → Reach s u

  -- A goroutine that looked at its context before the cancellation writes its result after the
  -- deletion, and returns only then.
  late : ProbeResult → Shared V → Shared V
  late r s = record {
    place = returned;
    cancelled = true;
    deleted = true;
    metrics = record_result ops target r (delete_target ops target s.metrics);
  }

  Reach-late :
      (r : ProbeResult) (s : Shared V)
      → s.place ≡ waiting
      → s.cancelled ≡ false
      → s.deleted ≡ false
      → Reach s (late r s)
  unfolding late
  Reach-late r s p c d =
      next
        (next
          (next
            (next (next (next (next here (begin p c)) (keep r refl c)) (cancel c)) (delete refl d))
            (write r refl))
          (drained refl))
        (leave refl refl)

-- The goroutine is between its second look and the write.
abbrev pub has_looked : Place → Bool
has_looked (checked r) = true
has_looked _ = false

delete_target-tag_keys :
    {V : Type 0} (ops : VecOps V) (target : TargetConfig) (e : MetricsExporter V)
    → (delete_target ops target e).tag_keys ≡ e.tag_keys
unfolding delete_target on drop drop_partial delete_target_proxy_info
delete_target-tag_keys ops target e = ground arith

-- The race: from any state in which the target runs, whatever its next result, the goroutine and the
-- removal can be interleaved so that the target is cancelled, its series are deleted and its
-- goroutine has returned, and yet its probe_success series shows that result.
pub stale_result_survives :
    {V : Type 0} (ops : VecOps V) (target : TargetConfig) (r : ProbeResult) (s : Shared V)
    → s.place ≡ waiting
    → s.cancelled ≡ false
    → s.deleted ≡ false
    → (u : Shared V) × Reach ops target s u
      × (u.place ≡ returned)
      × (u.deleted ≡ true)
      × (ops.get (u.metrics.vec probe_success) (build_labels s.metrics.tag_keys target)
          ≡ some (flag r.success))
unfolding late
stale_result_survives ops target r s p c d = (
  late ops target r s,
  Reach-late ops target r s p c d,
  refl,
  refl,
  subst
      (λ keys.
        ops.get
          ((record_result ops target r (delete_target ops target s.metrics)).vec probe_success)
          (build_labels keys target)
        ≡ some (flag r.success))
      (delete_target-tag_keys ops target s.metrics)
      (record_result-observes ops target r (delete_target ops target s.metrics) probe_success refl),
)

-- What holds from a cancellation on, if no result was waiting to be written.
abbrev pub Quiet : {V : Type 0} → VecOps V → Metric → Labels → Shared V → Type 0
Quiet ops m k s =
    (s.cancelled ≡ true) × (has_looked s.place ≡ false) × (ops.get (s.metrics.vec m) k ≡ none)

Step-Quiet :
    {V : Type 0} (ops : VecOps V) (target : TargetConfig) (m : Metric) (k : Labels) {s u : Shared V}
    → treatment m ≡ exact
    → (metric_index probe_skipped_overlap_total == metric_index m) ≡ false
    → Step ops target s u
    → Quiet ops m k s
    → Quiet ops m k u
unfolding incr_skipped_overlap on
Step-Quiet ops target m k e o (leave p c) q = (q.0, refl, q.2)
Step-Quiet ops target m k e o (begin p c) q = absurd (cc (c, q.0))
Step-Quiet ops target m k e o (skip p c) q = (q.0, refl, q.2)
Step-Quiet ops target m k e o (keep r p c) q = absurd (cc (c, q.0))
Step-Quiet ops target m k e o (discard p c) q = (q.0, refl, q.2)
Step-Quiet ops target m k e o (write r p) q = absurd (ground arith)
Step-Quiet ops target m k e o (stale p) q = (q.0, refl, ground arith)
Step-Quiet ops target m k e o (drained p) q = (q.0, refl, q.2)
Step-Quiet ops target m k e o (cancel c) q = absurd (cc (c, q.0))
Step-Quiet ops target m k e o (delete {s = t} c d) q = (
  q.0,
  q.1,
  rw (delete_target-vec ops target t.metrics m, e)
      (rw (ops.get-delete (t.metrics.vec m) (build_labels t.metrics.tag_keys target) k)
        (ground arith)),
)

Reach-Quiet :
    {V : Type 0} (ops : VecOps V) (target : TargetConfig) (m : Metric) (k : Labels) {s u : Shared V}
    → treatment m ≡ exact
    → (metric_index probe_skipped_overlap_total == metric_index m) ≡ false
    → Quiet ops m k s
    → Reach ops target s u
    → Quiet ops m k u
Reach-Quiet ops target m k e o q here = q
Reach-Quiet ops target m k e o q (next r st) =
    Step-Quiet ops target m k e o st (Reach-Quiet ops target m k e o q r)

-- Where the cancellation comes before the second look, nothing is recorded any more: a series that is
-- not there once the target is cancelled and no result waits to be written does not come back, in
-- any vector that DeleteTarget clears by an exact delete but that of the skipped ticks.
pub no_late_record :
    {V : Type 0} (ops : VecOps V) (target : TargetConfig) (m : Metric) (k : Labels) {s u : Shared V}
    → treatment m ≡ exact
    → (metric_index probe_skipped_overlap_total == metric_index m) ≡ false
    → Quiet ops m k s
    → Reach ops target s u
    → ops.get (u.metrics.vec m) k ≡ none
no_late_record ops target m k e o q r = (Reach-Quiet ops target m k e o q r).2
