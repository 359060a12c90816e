-- ===== src/Scheduler/State/Numbered.antt =====
-- The numbers of entries and goroutines of internal/scheduler/scheduler.go are given once, by Start and by
-- every Reload.
use netsonar.Base.{
  ℕ, ◌+◌, ◌<◌, ◌≡◌, refl, ◌∙◌, false, str_eq, List, [], ◌∷◌, map, ◌==◌, arith, All, All-mono,
  Bool-cases, Option-cases, inl, inr,
}
use netsonar.Base.Int.{ℤ}
use netsonar.Config.Types.{TargetConfig, Config}
use netsonar.Metrics.Vec.{VecOps}
use netsonar.Metrics.Exporter.{MetricsExporter}
use netsonar.Scheduler.Diff.{Hash, diff_targets}
use netsonar.Scheduler.State.{
  ProbeEntry, Scheduler, find_entry, put_entry, new, start, start_target, start_targets,
  stop_target, stop_targets, reload,
}
use netsonar.Scheduler.State.Goroutines.{
  DistinctIds, All-delete_entry, delete_entry-DistinctIds, cancel-none, find_goroutine-++,
  find_goroutine-await_all,
}
use netsonar.Scheduler.State.Reload.{IsNumbered}

All-put_entry :
    (P : ProbeEntry → Type 0) (x : ProbeEntry) (es : List ProbeEntry)
    → P x
    → All P es
    → All P (put_entry x es)
unfolding put_entry
All-put_entry P x [] p a = (p, tt)
All-put_entry P x (e ∷ es) p a = elim (Bool-cases (str_eq e.target.name x.target.name)) [
  | inl q ↦ rw q (p, a.1)
  | inr q ↦ rw q (a.0, All-put_entry P x es p a.1)
]

put_entry-DistinctIds :
    (x : ProbeEntry) (es : List ProbeEntry)
    → All (λ e. (e.id == x.id) ≡ false) es
    → DistinctIds es
    → DistinctIds (put_entry x es)
unfolding put_entry
put_entry-DistinctIds x [] a d = (tt, tt)
put_entry-DistinctIds x (e ∷ es) a d = elim (Bool-cases (str_eq e.target.name x.target.name)) [
  | inl q ↦ rw q (All-mono _ _ es (λ f k. ground arith) a.1, d.1)
  | inr q ↦ rw q (All-put_entry _ x es a.0 d.0, put_entry-DistinctIds x es a.1 d.1)
]

module _ {V : Type 0} (ops : VecOps V) where
  start_target-IsNumbered :
      (t : TargetConfig) (jitter : ℤ) (s : Scheduler V)
      → IsNumbered s
      → IsNumbered (start_target ops t jitter s)
  unfolding start_target
  start_target-IsNumbered t jitter s i = record {
    differ =
        put_entry-DistinctIds (record { target = t; id = s.next_id }) s.probes
          (All-mono _ _ s.probes (λ e k. ground arith) i.given) i.differ;
    given =
        All-put_entry (λ e. e.id < s.next_id + 1) (record { target = t; id = s.next_id }) s.probes
          (omega arith) (All-mono _ _ s.probes (λ e k. omega arith) i.given);
    unused =
        λ k l. find_goroutine-++ k s.goroutines _ ∙ rw (i.unused k (omega arith)) (ground arith);
  }

  start_targets-IsNumbered :
      (ts : List TargetConfig) (jitter : ℤ) (s : Scheduler V)
      → IsNumbered s
      → IsNumbered (start_targets ops ts jitter s)
  unfolding start_targets
  start_targets-IsNumbered [] jitter s i = i
  start_targets-IsNumbered (t ∷ ts) jitter s i =
      start_targets-IsNumbered ts jitter (start_target ops t jitter s)
        (start_target-IsNumbered t jitter s i)

  stop_target-IsNumbered :
      (t : TargetConfig) (sd : Scheduler V × List ℕ)
      → IsNumbered sd.0
      → IsNumbered (stop_target ops t sd).0
  unfolding stop_target
  stop_target-IsNumbered t (s, done) i = elim (Option-cases (find_entry t.name s.probes)) [
    | inl q ↦ rw (q, stop_target) record { differ = i.differ; given = i.given; unused = i.unused }
    | inr (x, q) ↦
        rw (q, stop_target)
          record {
            differ = delete_entry-DistinctIds t.name s.probes i.differ;
            given = All-delete_entry _ t.name s.probes i.given;
            unused = λ k l. cancel-none x.id k s.goroutines (i.unused k l);
          }
  ]

  stop_targets-IsNumbered :
      (ts : List TargetConfig) (sd : Scheduler V × List ℕ)
      → IsNumbered sd.0
      → IsNumbered (stop_targets ops ts sd).0
  unfolding stop_targets
  stop_targets-IsNumbered [] sd i = i
  stop_targets-IsNumbered (t ∷ ts) sd i =
      stop_targets-IsNumbered ts (stop_target ops t sd) (stop_target-IsNumbered t sd i)

  -- After Start of a new scheduler, whatever its targets.
  pub start-IsNumbered :
      (m : MetricsExporter V) (cfg : Config) → IsNumbered (start ops cfg (new ops m))
  unfolding start new
  start-IsNumbered m cfg =
      start_targets-IsNumbered cfg.targets _ (new ops m)
        (record { differ = tt; given = tt; unused = λ k l. refl })

  -- And after a Reload.
  pub reload-IsNumbered :
      (hash : Hash) (cfg : Config) (s : Scheduler V)
      → IsNumbered s
      → IsNumbered (reload ops hash cfg s)
  unfolding reload
  reload-IsNumbered hash cfg s i =
      let ts = (diff_targets hash (map (λ e. e.target) s.probes) cfg.targets).to_stop in
      let stopped = stop_targets ops ts (s, []) in
      let j = stop_targets-IsNumbered ts (s, []) i in
      start_targets-IsNumbered _ _ _ (record {
        differ = j.differ;
        given = j.given;
        unused = λ k l.
            find_goroutine-await_all k stopped.1 stopped.0.goroutines
            ∙ rw (j.unused k l) (ground arith);
      })
