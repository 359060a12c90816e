-- ===== src/Doctor/Healthy/Exact.antt =====
-- The doctor of internal/doctor/doctor.go says OK exactly if nothing is missing.
use netsonar.Base.{show_ℕ, ◌<>◌, ◌≡◌, ◌∙◌, true, String, [], length}
use netsonar.Config.Types.{Config}
use netsonar.Probe.Sockets.{Outcome, got, failed}
use netsonar.Doctor.Parse.{Strconv}
use netsonar.Doctor.{
  pass, fail, Result, Env, Filled, fill_env_defaults, count_targets, address_of, run_with_options,
  all_ok,
}
use netsonar.Doctor.Healthy.{expected_ok}
use netsonar.Doctor.Healthy.Verdict.{add-Adds, Adds-trans, and_false}
use netsonar.Doctor.Healthy.Checks.{run_checks-Adds}

-- The doctor says OK exactly if the configuration loads, the address can be listened on, and, for the
-- probe types that some target has: the socket of the ICMP and of the MTU probes opens, where the platform
-- has it, and no group range is known to leave all groups of the process out; and resolv.conf names a
-- server, if some DNS target has none of its own.
pub run_with_options-IsHealthy :
    (conv : Strconv) (os : Filled) (config_path : String) (loaded : Outcome Config) (env : Env)
    (override : String)
    → all_ok (run_with_options conv os config_path loaded env override).checks
      ≡ expected_ok conv os loaded env override
unfolding run_with_options all_ok
run_with_options-IsHealthy conv os config_path (failed e) env override =
    let start : Result = record { config_path = config_path; target_counts = []; checks = [] } in
    (add-Adds start "Config" "load config" fail e
      "Fix the configuration file and run doctor again.").judged
    ∙ and_false true
run_with_options-IsHealthy conv os config_path (got cfg) env override =
    let start : Result = record {
      config_path = config_path;
      target_counts = count_targets cfg.targets [];
      checks = [];
    } in
    let l =
      add-Adds start "Config" "load config" pass ("targets=" <> show_ℕ (length cfg.targets)) "" in
    let r =
      run_checks-Adds conv (fill_env_defaults os env) cfg (address_of override cfg) _ l.counted in
    (Adds-trans l r).judged
