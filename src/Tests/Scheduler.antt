-- ===== src/Tests/Scheduler.antt =====
-- Start, Reload and Stop from one configuration to the next, the race, and the log.
use netsonar.Base.{ℕ, ◌≡◌, refl, true, false, [], ◌∷◌, none, some, inr, arith}
use netsonar.Base.Int.{pos}
use netsonar.Metrics.Vec.{flag}
use netsonar.Metrics.Series.{probe_success, probe_duration, build_labels}
use netsonar.Scheduler.Diff.Named.{find_name}
use netsonar.Scheduler.Diff.{diff_targets}
use netsonar.Scheduler.Diff.Exact.{diff_targets-exact, stop_of, start_of, unchanged_of}
use netsonar.Scheduler.State.{Scheduler, reload, find_entry}
use netsonar.Scheduler.State.Reload.{reload-Reloaded, Reloaded}
use netsonar.Scheduler.State.Orphans.{NoOrphans}
use netsonar.Scheduler.Race.{
  Shared, waiting, probing, returned, Reach, here, next, discard, drained, leave,
  stale_result_survives, no_late_record,
}
use netsonar.Scheduler.Loop.Done.{run_probe_loop-done}
use netsonar.Scheduler.Loop.{LoopEnv, tick, run_probe_loop, fresh_state}
use netsonar.Scheduler.Loop.Outcome.{log_lines, log_lines-lines_after, lines_after}
use netsonar.Tests.Samples.{
  Vec, vec_ops, exporter, web, hash, first_config, second_config, success, failure,
}

-- The scheduler that runs `web` alone.
abbrev running : Scheduler Vec
running = record {
  probes = record { target = web; id = 0 } ∷ [];
  goroutines = record { id = 0; target = web; jitter = pos 0; cancelled = false } ∷ [];
  next_id = 1;
  metrics = exporter;
}

running-NoOrphans : NoOrphans running.probes running.goroutines
running-NoOrphans = (inr refl, tt)

reload-Reloaded_example :
    Reloaded hash second_config.agent.initial_probe_jitter running "web"
      (find_entry "web" running.probes)
      (find_name "web" second_config.targets)
      (reload vec_ops hash second_config running).probes
      (reload vec_ops hash second_config running).goroutines
unfolding find_name
reload-Reloaded_example =
    reload-Reloaded vec_ops hash second_config running "web" (refl, tt)
      (record { differ = (tt, tt); given = (omega arith, tt); unused = λ k l. ground arith })
      (refl, (refl, tt))

diff_targets-exact_example :
    let d = diff_targets hash first_config.targets second_config.targets in
    (find_name "web" d.to_stop
      ≡ stop_of hash (find_name "web" first_config.targets) (find_name "web" second_config.targets))
    × (find_name "web" d.to_start
        ≡ start_of hash
            (find_name "web" first_config.targets)
            (find_name "web" second_config.targets))
    × (find_name "web" d.unchanged
        ≡ unchanged_of hash
            (find_name "web" first_config.targets)
            (find_name "web" second_config.targets))
unfolding find_name
diff_targets-exact_example =
    diff_targets-exact hash "web" first_config.targets second_config.targets (refl, tt)
      (refl, (refl, tt))

-- The goroutine of `web` and a Reload that removes it, before anything has happened.
abbrev beginning : Shared Vec
beginning = record { place = waiting; cancelled = false; deleted = false; metrics = exporter }

stale_result_survives_example :
    (u : Shared Vec) × Reach vec_ops web beginning u
    × (u.place ≡ returned)
    × (u.deleted ≡ true)
    × (vec_ops.get (u.metrics.vec probe_success) (build_labels exporter.tag_keys web)
        ≡ some (flag true))
stale_result_survives_example = stale_result_survives vec_ops web success beginning refl refl refl

-- Cancelled while its probe is under way.
abbrev interrupted : Shared Vec
interrupted = record { place = probing; cancelled = true; deleted = false; metrics = exporter }

no_late_record_example :
    vec_ops.get (exporter.vec probe_duration) (build_labels exporter.tag_keys web) ≡ none
no_late_record_example =
    no_late_record vec_ops web probe_duration (build_labels exporter.tag_keys web) {s = interrupted}
      refl refl (refl, refl, refl)
      (next (next (next here (discard refl refl)) (drained refl)) (leave refl refl))

log_lines-lines_after_example :
    log_lines fresh_state (failure ∷ (failure ∷ (success ∷ [])))
    ≡ lines_after none (failure ∷ (failure ∷ (success ∷ [])))
log_lines-lines_after_example = log_lines-lines_after (failure ∷ (failure ∷ (success ∷ [])))

-- A world in which the context is done from the start; its timer fires.
abbrev over : LoopEnv ℕ
over = record {
  ctx_err = λ w. (some "context canceled", w);
  now = λ w. (pos w, w);
  deadline_exceeded = λ w. (false, w);
  random_int64n = λ n w. (pos 3, w);
  timer_fires = λ d w. (true, w);
}

run_probe_loop-done_example :
    let s =
      (run_probe_loop vec_ops over
        (λ timeout t w. (success, w))
        web
        (pos 9)
        (tick true ∷ (tick false ∷ []))
        exporter
        0).0 in
    (s.log ≡ []) × (s.metrics.vec probe_success ≡ exporter.vec probe_success)
run_probe_loop-done_example =
    run_probe_loop-done vec_ops over (λ timeout t w. (success, w)) web (pos 9)
      (tick true ∷ (tick false ∷ [])) exporter 0 probe_success (λ w. refl) refl
