-- ===== src/Scheduler/State/Orphans/Methods.antt =====
-- Stop, Reload and Start of internal/scheduler/scheduler.go lose no goroutine: Stop reaches each that is left,
-- and its wait returns.
use netsonar.Base.{
  ℕ, ◌≡◌, refl, sym, ◌∙◌, ap, ◌⊎◌, inl, inr, true, String, str_eq, ◌≢◌, List, [], ◌∷◌, Option, none,
  some, is_some, ◌==◌, arith, Bool-cases, Option-cases,
}
use netsonar.Config.Types.{TargetConfig, Config}
use netsonar.Metrics.Vec.{VecOps}
use netsonar.Metrics.Exporter.{MetricsExporter}
use netsonar.Scheduler.Diff.{Hash, diff_targets}
use netsonar.Scheduler.Diff.Named.{find_name, Distinct}
use netsonar.Scheduler.Diff.Exact.{stop_of, start_of, diff_targets-exact}
use netsonar.Scheduler.Diff.Starts.{diff_targets-Distinct}
use netsonar.Scheduler.State.{
  ProbeEntry, Goroutine, Scheduler, find_entry, delete_entry, cancel, new, start, stop, stop_target,
  stop_targets, reload,
}
use netsonar.Scheduler.State.Entries.{
  entry_targets, find_entry-delete_entry, stop_targets-find, target_of, find_name-entry_targets,
}
use netsonar.Scheduler.State.Orphans.{
  NoOrphans, start_targets-NoOrphans, await_all-NoOrphans, wait-cancel_all, target_of-none,
  has_id-delete_entry,
}

module _ {V : Type 0} (ops : VecOps V) where
  abbrev pub Kept : Scheduler V → Type 0
  Kept s = Distinct (entry_targets s.probes) × NoOrphans s.probes s.goroutines

  delete_entry-NoOrphans :
      (n : String) (es : List ProbeEntry) (e : ProbeEntry) (gs : List Goroutine)
      → Distinct (entry_targets es)
      → find_entry n es ≡ some e
      → NoOrphans es gs
      → NoOrphans (delete_entry n es) (cancel e.id gs)
  unfolding cancel
  delete_entry-NoOrphans n es e [] d f h = tt
  delete_entry-NoOrphans n es e (g ∷ gs) d f h = (
    elim (Bool-cases (e.id == g.id)) [
      | inl q ↦ inl (ground (arith))
      | inr q ↦ ground (arith, has_id-delete_entry n g.id es e d f)
    ],
    delete_entry-NoOrphans n es e gs d f h.1,
  )

  delete_entry-Distinct :
      (n : String) (es : List ProbeEntry)
      → Distinct (entry_targets es)
      → Distinct (entry_targets (delete_entry n es))
  unfolding delete_entry
  delete_entry-Distinct n [] d = tt
  delete_entry-Distinct n (e ∷ es) d = elim (Bool-cases (str_eq e.target.name n)) [
    | inl q ↦ rw q (delete_entry-Distinct n es d.1)
    | inr q ↦
        let gone : find_entry e.target.name es ≡ none =
          target_of-none _ (sym (find_name-entry_targets e.target.name es) ∙ d.0) in
        rw q (
          find_name-entry_targets e.target.name (delete_entry n es)
              ∙ ap target_of {y = none}
                  (find_entry-delete_entry n e.target.name es ∙ rw gone (ground arith)),
          delete_entry-Distinct n es d.1,
        )
  ]

  stop_target-Kept :
      (t : TargetConfig) (sd : Scheduler V × List ℕ) → Kept sd.0 → Kept (stop_target ops t sd).0
  unfolding stop_target
  stop_target-Kept t (s, done) (d, h) = elim (Option-cases (find_entry t.name s.probes)) [
    | inl e ↦ rw (e, stop_target) (d, h)
    | inr (x, e) ↦
        rw (e, stop_target)
          (
            delete_entry-Distinct t.name s.probes d,
            delete_entry-NoOrphans t.name s.probes x s.goroutines d e h,
          )
  ]

  pub stop_targets-Kept :
      (ts : List TargetConfig) (sd : Scheduler V × List ℕ)
      → Kept sd.0
      → Kept (stop_targets ops ts sd).0
  unfolding stop_targets
  stop_targets-Kept [] sd k = k
  stop_targets-Kept (t ∷ ts) sd k =
      stop_targets-Kept ts (stop_target ops t sd) (stop_target-Kept t sd k)

-- What is started is no longer running.
started_absent :
    (hash : Hash) (old new : Option TargetConfig)
    → start_of hash old new ≢ none
    → (is_some (stop_of hash old new) ≡ true) ⊎ (old ≡ none)
started_absent hash none new h = inr refl
started_absent hash (some o) none h = absurd (h refl)
started_absent hash (some o) (some t) h = ground arith

-- Stop ends every goroutine and returns, with an empty map, when no goroutine was lost.
pub stop-returns :
    {V : Type 0} (ops : VecOps V) (s : Scheduler V)
    → NoOrphans s.probes s.goroutines
    → stop ops s ≡ some (record s { probes = []; goroutines = [] })
unfolding stop
stop-returns ops s h = rw (wait-cancel_all s.probes s.goroutines h, stop)

-- Reload keeps it so that no goroutine is lost, for a running set and a configuration with distinct
-- names.
pub reload-NoOrphans :
    {V : Type 0} (ops : VecOps V) (hash : Hash) (cfg : Config) (s : Scheduler V)
    → Distinct (entry_targets s.probes)
    → Distinct cfg.targets
    → NoOrphans s.probes s.goroutines
    → let s' = reload ops hash cfg s in NoOrphans s'.probes s'.goroutines
unfolding reload
reload-NoOrphans ops hash cfg s d v h =
    let old = entry_targets s.probes in
    let diff = diff_targets hash old cfg.targets in
    let stopped = stop_targets ops diff.to_stop (s, []) in
    let kept = stop_targets-Kept ops diff.to_stop (s, []) (d, h) in
    start_targets-NoOrphans ops diff.to_start _ _ (diff_targets-Distinct hash old cfg.targets)
      (λ n m.
        let exact = diff_targets-exact hash n old cfg.targets d v in
        stop_targets-find ops n diff.to_stop (s, [])
        ∙ elim (started_absent hash (find_name n old) (find_name n cfg.targets)
            (λ e. m (exact.1 ∙ e))) [
              | inl e ↦ rw (exact.0, e)
              | inr e ↦
                  let gone : find_entry n s.probes ≡ none =
                    target_of-none _ (sym (find_name-entry_targets n s.probes) ∙ e) in
                  rw gone (ground arith)
            ])
      (await_all-NoOrphans stopped.1 stopped.0.probes stopped.0.goroutines kept.1)

-- So it is after Start of a new scheduler with distinct target names.
pub start-NoOrphans :
    {V : Type 0} (ops : VecOps V) (m : MetricsExporter V) (cfg : Config)
    → Distinct cfg.targets
    → let s = start ops cfg (new ops m) in NoOrphans s.probes s.goroutines
unfolding start new find_entry
start-NoOrphans ops m cfg v = start_targets-NoOrphans ops cfg.targets _ _ v (λ n k. refl) tt
