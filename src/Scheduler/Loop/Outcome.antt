-- ===== src/Scheduler/Loop/Outcome.antt =====
-- What one round of the goroutine in internal/scheduler/scheduler.go leaves behind.
use netsonar.Base.{
  ◌≡◌, refl, ap, ◌↔◌, ◌⊎◌, Bool, true, ◌||◌, not, str_eq, List, [], ◌∷◌, Option, none, some,
  if◌then◌else◌, arith,
}
use netsonar.Base.Int.{ℤ, pos, ◌≤ℤ◌, ◌<ℤ◌}
use netsonar.Probe.Result.{ProbeResult}
use netsonar.Scheduler.Loop.{
  ProbeState, fresh_state, LogLine, recovered, failed, still_failing, silent, log_probe_result,
  probe_timed_out,
}

-- The lines for a sequence of results, as logProbeResult writes them one after another.
pub log_lines : ProbeState → List ProbeResult → List LogLine
log_lines state [] = []
log_lines state (r ∷ rs) =
    let (line, state') = log_probe_result r state in line ∷ log_lines state' rs

-- The line that a result deserves, given the result before it.
abbrev pub line_after : Option ProbeResult → ProbeResult → LogLine
line_after none r = if r.success then silent else failed
line_after (some p) r =
    if r.success
    then (if p.success then silent else recovered)
    else (if p.success || not (str_eq p.error r.error) then failed else still_failing)

abbrev pub lines_after : Option ProbeResult → List ProbeResult → List LogLine
lines_after p [] = []
lines_after p (r ∷ rs) = line_after p r ∷ lines_after (some r) rs

abbrev state_after : Option ProbeResult → ProbeState
state_after none = fresh_state
state_after (some p) = record {
  seen = true;
  last_success = p.success;
  last_error = if p.success then "" else p.error;
}

log_probe_result-state :
    (p : Option ProbeResult) (r : ProbeResult)
    → log_probe_result r (state_after p) ≡ (line_after p r, state_after (some r))
unfolding log_probe_result
log_probe_result-state none r = ground arith
log_probe_result-state (some p) r = ground arith

log_lines-state :
    (p : Option ProbeResult) (rs : List ProbeResult)
    → log_lines (state_after p) rs ≡ lines_after p rs
unfolding log_lines
log_lines-state p [] = refl
log_lines-state p (r ∷ rs) =
    rw (log_probe_result-state p r) (ap (λ l. line_after p r ∷ l) (log_lines-state (some r) rs))

-- Over any sequence of results the log depends on neighbours alone: a success is announced only
-- after a failure, and a failure is a warning only if it is the first result, follows a success, or
-- has another error text than the failure before it.
pub log_lines-lines_after : (rs : List ProbeResult) → log_lines fresh_state rs ≡ lines_after none rs
log_lines-lines_after rs = log_lines-state none rs

-- A probe counts as timed out exactly if it says so itself, its context's deadline passed, or it
-- took at least as long as a positive timeout allows.
pub probe_timed_out_iff :
    (late : Bool) (timeout elapsed : ℤ) (r : ProbeResult)
    → (probe_timed_out late timeout elapsed r ≡ true)
      ↔ ((r.timed_out ≡ true) ⊎ (late ≡ true) ⊎ ((pos 0 <ℤ timeout) × (timeout ≤ℤ elapsed)))
unfolding probe_timed_out
probe_timed_out_iff late timeout elapsed r = (ground arith, ground arith)
