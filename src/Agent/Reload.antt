-- ===== src/Agent/Reload.antt =====
-- handleReload of cmd/agent/main.go: a reload is applied as a whole, or not at all.
use netsonar.Base.{
  ◌≡◌, refl, ◌∙◌, ◌≢◌, ◌↔◌, ◌⊎◌, inl, inr, Bool, true, false, String, str_eq_iff, List, [], ◌∷◌,
  Option, none, some, if◌then◌else◌, length, arith, Bool-cases, Option-cases,
}
use netsonar.Base.Int.{ℤ, pos}
use netsonar.Config.Types.{Config}
use netsonar.Config.Defaults.{apply_defaults}
use netsonar.Config.Checks.{ok}
use netsonar.Config.Validate.{validate}
use netsonar.Config.Validate.Sound.{validate_sound}
use netsonar.Metrics.Vec.{Labels, labels_eq, number}
use netsonar.Metrics.Series.{config_info}
use netsonar.Metrics.Exporter.{MetricsExporter, put, on}
use netsonar.Metrics.Info.{
  set_build_info, set_config_info, set_targets_total, set_config_reload_timestamp,
}
use netsonar.Scheduler.Diff.Named.{Distinct, find_name}
use netsonar.Scheduler.State.{find_entry}
use netsonar.Scheduler.State.Entries.{entry_targets}
use netsonar.Scheduler.State.Reload.{IsNumbered, Reloaded, reload-Reloaded}
use netsonar.Agent.{
  Startup, Agent, World, slices_equal, bool_eq, startup_of, startup_changed, parse_log_level,
  load_config, must_config_hash, update_agent_metrics, apply_reload, handle_reload,
}

slices_equal_iff : (ss ts : List String) → (slices_equal ss ts ≡ true) ↔ (ss ≡ ts)
unfolding slices_equal
slices_equal_iff [] [] = ground arith
slices_equal_iff [] (t ∷ ts) = ground arith
slices_equal_iff (s ∷ ss) [] = ground arith
slices_equal_iff (s ∷ ss) (t ∷ ts) = ground (arith, str_eq_iff s t, slices_equal_iff ss ts)

bool_eq_iff : (a b : Bool) → (bool_eq a b ≡ true) ↔ (a ≡ b)
bool_eq_iff true true = ground arith
bool_eq_iff true false = ground arith
bool_eq_iff false true = ground arith
bool_eq_iff false false = ground arith

-- The gates let a configuration through exactly if none of the five startup-only values differs.
pub startup_changed_iff : (old new : Startup) → (startup_changed old new ≡ false) ↔ (new ≡ old)
unfolding startup_changed
startup_changed_iff old new = ground (
  arith,
  slices_equal_iff old.tag_keys new.tag_keys,
  str_eq_iff new.log_format old.log_format,
  str_eq_iff new.listen_addr old.listen_addr,
  str_eq_iff new.metrics_path old.metrics_path,
  bool_eq_iff new.enable_runtime_metrics old.enable_runtime_metrics,
)

-- What the agent shows after a reload that is applied.
pub record Applied {V : Type 0} (w : World V) (cfg : Config) (now : ℤ) (a b : Agent V)
    : Type 0 where
  pub startup : b.startup ≡ a.startup
  pub log_level : b.log_level ≡ parse_log_level cfg.agent.log_level
  pub targets_total : b.scheduler.metrics.targets_total ≡ pos (length cfg.targets)
  pub reload_timestamp : b.scheduler.metrics.config_reload_ts ≡ now
  -- One series of the hash is left, that of the new configuration.
  pub config_hash :
      (l : Labels)
      → w.ops.get (b.scheduler.metrics.vec config_info) l ≡ (
          if labels_eq (("hash", must_config_hash w cfg) ∷ []) l
          then some (number (pos 1))
          else none)
  pub probes :
      (n : String)
      → Reloaded w.hash cfg.agent.initial_probe_jitter a.scheduler n
          (find_entry n a.scheduler.probes)
          (find_name n cfg.targets)
          b.scheduler.probes
          b.scheduler.goroutines

module _ {V : Type 0} (w : World V) where
  config_info_lem :
      (cfg : Config) (now : ℤ) (m : MetricsExporter V) (l : Labels)
      → w.ops.get ((update_agent_metrics w cfg now m).vec config_info) l ≡ (
          if labels_eq (("hash", must_config_hash w cfg) ∷ []) l
          then some (number (pos 1))
          else none)
  unfolding update_agent_metrics set_config_info set_build_info set_targets_total
      set_config_reload_timestamp put on
  config_info_lem cfg now m l = w.ops.get-set _ _ l _ ∙ rw (w.ops.get-reset (m.vec config_info) l)

  apply_reload-Applied :
      (cfg : Config) (now : ℤ) (a : Agent V)
      → Distinct (entry_targets a.scheduler.probes)
      → IsNumbered a.scheduler
      → Distinct cfg.targets
      → Applied w cfg now a (apply_reload w cfg now a)
  unfolding apply_reload update_agent_metrics set_targets_total set_config_reload_timestamp
  apply_reload-Applied cfg now a d i v = record {
    startup = refl;
    log_level = refl;
    targets_total = refl;
    reload_timestamp = refl;
    config_hash = config_info_lem cfg now _;
    probes = λ n. reload-Reloaded w.ops w.hash cfg a.scheduler n d i v;
  }

  -- What LoadConfig returns was accepted by validate.
  pub load_config-validated :
      (decoded : Option Config) {cfg : Config}
      → load_config w decoded ≡ some cfg
      → (d : Config) × (validate w.net w.sources d ≡ ok cfg)
  unfolding load_config
  load_config-validated none h = absurd (cc)
  load_config-validated (some d) h = (apply_defaults d, ground arith)

  pub load_config-Distinct :
      (decoded : Option Config) {cfg : Config}
      → load_config w decoded ≡ some cfg
      → Distinct cfg.targets
  load_config-Distinct decoded {cfg} h =
      let (d, v) = load_config-validated decoded h in (validate_sound w.net w.sources d cfg v).0

  -- The configuration that a reload loads, if any, and what becomes of the agent.
  abbrev pub Refused : Option Config → Agent V → Type 0
  Refused loaded a =
      (loaded ≡ none) ⊎ ((cfg : Config) × (loaded ≡ some cfg) × (startup_of cfg ≢ a.startup))

  pub handle_reload-unloaded :
      (decoded : Option Config) (now : ℤ) (a : Agent V)
      → load_config w decoded ≡ none
      → handle_reload w decoded now a ≡ a
  unfolding handle_reload
  handle_reload-unloaded decoded now a h = rw (h, handle_reload)

  pub handle_reload-loaded :
      (cfg : Config) (decoded : Option Config) (now : ℤ) (a : Agent V)
      → load_config w decoded ≡ some cfg
      → handle_reload w decoded now a
        ≡ (if startup_changed a.startup (startup_of cfg) then a else apply_reload w cfg now a)
  unfolding handle_reload
  handle_reload-loaded cfg decoded now a h = rw (h, handle_reload)

  handle_loaded :
      (cfg : Config) (decoded : Option Config) (now : ℤ) (a : Agent V)
      → Distinct (entry_targets a.scheduler.probes)
      → IsNumbered a.scheduler
      → load_config w decoded ≡ some cfg
      → (Refused (load_config w decoded) a × (handle_reload w decoded now a ≡ a))
        ⊎ ((cfg : Config) × (load_config w decoded ≡ some cfg)
            × (startup_of cfg ≡ a.startup)
            × Applied w cfg now a (handle_reload w decoded now a))
  handle_loaded cfg decoded now a d i h =
      let stepped = handle_reload-loaded cfg decoded now a h in
      let gate = startup_changed_iff a.startup (startup_of cfg) in
      elim (Bool-cases (startup_changed a.startup (startup_of cfg))) [
        | inl e ↦ inl (inr (cfg, h, λ f. cc (gate.1 f, e)), ground (arith, stepped))
        | inr e ↦ inr (
          cfg,
          h,
          gate.0 e,
          rw (stepped, e) (apply_reload-Applied cfg now a d i (load_config-Distinct decoded h)),
        )
      ]

  -- For an agent whose running targets have distinct names, with entries and goroutines whose numbers were
  -- given once, a reload on SIGHUP leaves the agent as it was if the file is refused or a startup-only value
  -- differs, and otherwise keeps the startup values, sets the log level, the number of targets, the time and
  -- the single series of the hash, and leaves the probe and the goroutine of each name as Reload promises.
  pub handle_reload-Applied :
      (decoded : Option Config) (now : ℤ) (a : Agent V)
      → Distinct (entry_targets a.scheduler.probes)
      → IsNumbered a.scheduler
      → (Refused (load_config w decoded) a × (handle_reload w decoded now a ≡ a))
        ⊎ ((cfg : Config) × (load_config w decoded ≡ some cfg)
            × (startup_of cfg ≡ a.startup)
            × Applied w cfg now a (handle_reload w decoded now a))
  handle_reload-Applied decoded now a d i = elim (Option-cases (load_config w decoded)) [
    | inl e ↦ inl (inl e, handle_reload-unloaded decoded now a e)
    | inr (cfg, e) ↦ handle_loaded cfg decoded now a d i e
  ]
