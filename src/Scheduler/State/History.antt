-- ===== src/Scheduler/State/History.antt =====
-- Start and a sequence of Reloads of internal/scheduler/scheduler.go, with configurations that
-- validate of internal/config/config.go accepts.
use netsonar.Base.{◌≡◌, refl, subst, sym, List, [], ◌∷◌, some, arith}
use netsonar.Base.Int.{ℤ}
use netsonar.Config.Types.{TargetConfig, Config}
use netsonar.Config.Checks.{ok}
use netsonar.Config.Rules.{Net}
use netsonar.Config.Credentials.{Sources}
use netsonar.Config.Validate.{validate}
use netsonar.Config.Validate.Sound.{validate_sound}
use netsonar.Metrics.Vec.{VecOps}
use netsonar.Metrics.Exporter.{MetricsExporter}
use netsonar.Scheduler.Diff.{Hash, diff_targets}
use netsonar.Scheduler.Diff.Named.{Distinct, put_name, put_name-Distinct}
use netsonar.Scheduler.State.{
  ProbeEntry, Scheduler, put_entry, new, start_target, start_targets, start, stop, reload,
}
use netsonar.Scheduler.State.Entries.{entry_targets}
use netsonar.Scheduler.State.Orphans.Methods.{
  Kept, stop_targets-Kept, start-NoOrphans, reload-NoOrphans, stop-returns,
}

entry_targets-put_entry :
    (x : ProbeEntry) (es : List ProbeEntry)
    → entry_targets (put_entry x es) ≡ put_name x.target (entry_targets es)
unfolding put_entry put_name
entry_targets-put_entry x [] = refl
entry_targets-put_entry x (e ∷ es) = ground (arith, entry_targets-put_entry x es)

module _ {V : Type 0} (ops : VecOps V) where
  pub start_targets-Distinct :
      (ts : List TargetConfig) (jitter : ℤ) (s : Scheduler V)
      → Distinct (entry_targets s.probes)
      → Distinct (entry_targets (start_targets ops ts jitter s).probes)
  unfolding start_targets start_target
  start_targets-Distinct [] jitter s d = d
  start_targets-Distinct (t ∷ ts) jitter s d =
      start_targets-Distinct ts jitter (start_target ops t jitter s) (
        subst Distinct (sym (entry_targets-put_entry _ s.probes))
          (put_name-Distinct t (entry_targets s.probes) d))

  pub reload-Distinct :
      (hash : Hash) (cfg : Config) (s : Scheduler V)
      → Kept ops s
      → Distinct (entry_targets (reload ops hash cfg s).probes)
  unfolding reload
  reload-Distinct hash cfg s k =
      let diff = diff_targets hash (entry_targets s.probes) cfg.targets in
      start_targets-Distinct diff.to_start _ _ (stop_targets-Kept ops diff.to_stop (s, []) k).0

  module _ (hash : Hash) (net : Net) (src : Sources) (m : MetricsExporter V) where
    -- The states that the agent can bring a scheduler into, until it stops it.
    pub data History : Scheduler V → Type 0 where
      started :
          (cfg accepted : Config)
          → validate net src cfg ≡ ok accepted
          → History (start ops accepted (new ops m))
      reloaded :
          {s : Scheduler V} (cfg accepted : Config)
          → validate net src cfg ≡ ok accepted
          → History s
          → History (reload ops hash accepted s)

    History-Kept : {s : Scheduler V} → History s → Kept ops s
    unfolding start new
    History-Kept (started cfg accepted v) =
        let (distinct, _) = validate_sound net src cfg accepted v in
        (start_targets-Distinct accepted.targets _ _ tt, start-NoOrphans ops m accepted distinct)
    History-Kept (reloaded {s = s} cfg accepted v h) =
        let (distinct, _) = validate_sound net src cfg accepted v in
        let k = History-Kept h in
        (reload-Distinct hash accepted s k, reload-NoOrphans ops hash accepted s k.0 distinct k.1)

-- After Start and any number of Reloads, each with a configuration that validate accepted, the running
-- targets have distinct names, and Stop ends every goroutine and returns with an empty map.
pub History-stop :
    {V : Type 0} (ops : VecOps V) (hash : Hash) (net : Net) (src : Sources) (m : MetricsExporter V)
    {s : Scheduler V}
    → History ops hash net src m s
    → Distinct (entry_targets s.probes)
      × (stop ops s ≡ some (record s { probes = []; goroutines = [] }))
History-stop ops hash net src m {s} h =
    let k = History-Kept ops hash net src m h in (k.0, stop-returns ops s k.1)
