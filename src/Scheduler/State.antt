-- ===== src/Scheduler/State.antt =====
-- Scheduler of internal/scheduler/scheduler.go: the map of probes, the goroutines, Start, Stop, Reload.
-- A goroutine has a number of its own; `cancelled` says that its context is. The mutex makes each
-- method one step.
pub mod Entries
pub mod Reload
pub mod Goroutines
pub mod Numbered
pub mod Orphans
pub mod History
use netsonar.Base.{
  ℕ, suc, ◌+◌, ◌≡◌, Bool, true, false, String, str_eq, List, [], ◌∷◌, ◌++◌, map, Option, none, some,
  if◌then◌else◌, ◌==◌, length,
}
use netsonar.Base.Int.{ℤ}
use netsonar.Config.Types.{TargetConfig, Config}
use netsonar.Metrics.Vec.{VecOps}
use netsonar.Metrics.Exporter.{MetricsExporter, delete_target}
use netsonar.Metrics.Info.{ensure_target}
use netsonar.Scheduler.Diff.{Hash, diff_targets}

-- probeEntry: `id` stands for its `cancel` and `done`.
pub record ProbeEntry : Type 0 where
  pub target : TargetConfig
  pub id : ℕ

pub record Goroutine : Type 0 where
  pub id : ℕ
  pub target : TargetConfig
  pub jitter : ℤ
  pub cancelled : Bool

pub record Scheduler (V : Type 0) : Type 0 where
  pub probes : List ProbeEntry
  pub goroutines : List Goroutine
  pub next_id : ℕ
  pub metrics : MetricsExporter V

-- `s.probes[name]`, `s.probes[t.Name] = entry`, `delete(s.probes, name)`.
unfoldable pub find_entry : String → List ProbeEntry → Option ProbeEntry
find_entry n [] = none
find_entry n (e ∷ es) = if str_eq e.target.name n then some e else find_entry n es

unfoldable pub put_entry : ProbeEntry → List ProbeEntry → List ProbeEntry
put_entry x [] = x ∷ []
put_entry x (e ∷ es) = if str_eq e.target.name x.target.name then x ∷ es else e ∷ put_entry x es

unfoldable pub delete_entry : String → List ProbeEntry → List ProbeEntry
delete_entry n [] = []
delete_entry n (e ∷ es) =
    if str_eq e.target.name n then delete_entry n es else e ∷ delete_entry n es

-- `entry.cancel()`.
unfoldable pub cancel : ℕ → List Goroutine → List Goroutine
cancel id [] = []
cancel id (g ∷ gs) = (if g.id == id then record g { cancelled = true } else g) ∷ cancel id gs

-- `<-done`: the cancelled goroutine has returned.
unfoldable pub await : ℕ → List Goroutine → List Goroutine
await id [] = []
await id (g ∷ gs) = if g.id == id then await id gs else g ∷ await id gs

pub await_all : List ℕ → List Goroutine → List Goroutine
await_all [] gs = gs
await_all (id ∷ ids) gs = await_all ids (await id gs)

-- `s.wg.Wait()`: it returns, with no goroutine left, only if every goroutine was cancelled.
unfoldable pub wait : List Goroutine → Option (List Goroutine)
wait [] = some []
wait (g ∷ gs) = if g.cancelled then wait gs else none

-- The loop of Stop.
pub cancel_all : List ProbeEntry → List Goroutine → List Goroutine
cancel_all [] gs = gs
cancel_all (e ∷ es) gs = cancel_all es (cancel e.id gs)

module _ {V : Type 0} (ops : VecOps V) where
  unfoldable pub new : MetricsExporter V → Scheduler V
  new m = record { probes = []; goroutines = []; next_id = 0; metrics = m }

  pub start_target : TargetConfig → ℤ → Scheduler V → Scheduler V
  start_target t jitter s = record {
    probes = put_entry (record { target = t; id = s.next_id }) s.probes;
    goroutines =
        s.goroutines
        ++ record { id = s.next_id; target = t; jitter = jitter; cancelled = false } ∷ [];
    next_id = s.next_id + 1;
    metrics = ensure_target ops t s.metrics;
  }

  pub start_targets : List TargetConfig → ℤ → Scheduler V → Scheduler V
  start_targets [] jitter s = s
  start_targets (t ∷ ts) jitter s = start_targets ts jitter (start_target t jitter s)

  unfoldable pub start : Config → Scheduler V → Scheduler V
  start cfg s = start_targets cfg.targets cfg.agent.initial_probe_jitter s

  -- `none`: Stop blocks for ever.
  pub stop : Scheduler V → Option (Scheduler V)
  stop s = elim (wait (cancel_all s.probes s.goroutines)) [
    | none ↦ none
    | some gs ↦ some (record s { probes = []; goroutines = gs })
  ]

  -- The body of Reload's loop over the targets to stop, with the `done` channels so far.
  pub stop_target : TargetConfig → Scheduler V × List ℕ → Scheduler V × List ℕ
  stop_target t (s, done) = elim (find_entry t.name s.probes) [
    | none ↦ (record s { metrics = delete_target ops t s.metrics }, done)
    | some e ↦ (
      record s {
        probes = delete_entry t.name s.probes;
        goroutines = cancel e.id s.goroutines;
        metrics = delete_target ops t s.metrics;
      },
      done ++ e.id ∷ [],
    )
  ]

  pub stop_targets : List TargetConfig → Scheduler V × List ℕ → Scheduler V × List ℕ
  stop_targets [] sd = sd
  stop_targets (t ∷ ts) sd = stop_targets ts (stop_target t sd)

  pub reload : Hash → Config → Scheduler V → Scheduler V
  unfolding await_all
  reload hash cfg s =
      let d = diff_targets hash (map (λ e. e.target) s.probes) cfg.targets in
      let stopped = stop_targets d.to_stop (s, []) in
      let waited : Scheduler V = record (stopped.0) {
        goroutines = await_all stopped.1 stopped.0.goroutines;
      } in
      start_targets d.to_start cfg.agent.initial_probe_jitter waited

  unfoldable pub targets : Scheduler V → ℕ
  targets s = length s.probes
