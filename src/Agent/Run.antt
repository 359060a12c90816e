-- ===== src/Agent/Run.antt =====
-- run of cmd/agent/main.go: from the start through any sequence of wake-ups to the exit.
use netsonar.Base.{
  ℕ, ◌≡◌, ◌≢◌, inl, inr, refl, sym, ap, ◌∙◌, subst, true, false, String, NonEmpty, List, [], ◌∷◌,
  Option, none, some, arith, Bool-cases, Option-cases,
}
use netsonar.Base.Int.{ℤ}
use netsonar.Config.Types.{Config}
use netsonar.Metrics.Exporter.{MetricsExporter}
use netsonar.Metrics.Register.{new_metrics_exporter}
use netsonar.Config.TagKeys.{collect_tag_keys}
use netsonar.Scheduler.Diff.Named.{Distinct}
use netsonar.Scheduler.State.{start, new}
use netsonar.Scheduler.State.Reload.{IsNumbered}
use netsonar.Scheduler.State.Numbered.{start-IsNumbered, reload-IsNumbered}
use netsonar.Scheduler.State.Orphans.Methods.{Kept, start-NoOrphans, reload-NoOrphans, stop-returns}
use netsonar.Scheduler.State.History.{start_targets-Distinct, reload-Distinct}
use netsonar.Agent.{
  Agent, World, Wakeup, sighup, sigterm, server_closed, server_failed, Outcome, running, exited,
  stuck, startup_of, startup_changed, load_config, launch, override_listen_addr, start_agent,
  apply_reload, handle_reload, shutdown, stop_and_exit, serve,
}
use netsonar.Agent.Reload.{
  startup_changed_iff, load_config-Distinct, handle_reload-loaded, handle_reload-unloaded,
}

module _ {V : Type 0} (w : World V) where
  -- An agent that started has a configuration that was loaded, with the address of the flag.
  pub start_agent-launch :
      (flag : String) (decoded : Option Config) (now : ℤ) {a : Agent V}
      → start_agent w flag decoded now ≡ some a
      → (cfg : Config) × (m : MetricsExporter V) × (load_config w decoded ≡ some cfg)
        × (a ≡ launch w (override_listen_addr w flag cfg) m now)
  unfolding start_agent
  start_agent-launch flag decoded now h = elim (Option-cases (load_config w decoded)) [
    | inl e ↦ absurd (ground arith)
    | inr (cfg, e) ↦
        elim (Option-cases
          (new_metrics_exporter w.registry (collect_tag_keys (override_listen_addr w flag cfg)))) [
            | inl f ↦ absurd (ground arith)
            | inr (m, f) ↦ (cfg, m, e, ground arith)
          ]
  ]

  override-keeps :
      (flag : String) (cfg : Config) → (override_listen_addr w flag cfg).targets ≡ cfg.targets
  unfolding override_listen_addr
  override-keeps flag cfg = ground arith

  override-sets :
      (flag : String) (cfg : Config)
      → NonEmpty flag
      → (override_listen_addr w flag cfg).agent.listen_addr ≡ flag
  unfolding override_listen_addr
  override-sets flag cfg h = ground arith

  -- An agent that was started with an address on the command line ignores every reload of a
  -- configuration that has another one, also of the file it was started with.
  pub override_blocks_reload :
      (flag : String) (first : Option Config) (now : ℤ) {a : Agent V}
      → NonEmpty flag
      → start_agent w flag first now ≡ some a
      → (decoded : Option Config) (later : ℤ) {cfg : Config} → load_config w decoded ≡ some cfg
      → cfg.agent.listen_addr ≢ flag
      → handle_reload w decoded later a ≡ a
  unfolding launch startup_of
  override_blocks_reload flag first now {a} given started decoded later {cfg} h differs =
      let (c, m, _, e) = start_agent-launch flag first now started in
      let addr : a.startup.listen_addr ≡ flag =
        ap (λ b. b.startup.listen_addr) e ∙ override-sets flag c given in
      elim (Bool-cases (startup_changed a.startup (startup_of cfg))) [
        | inl t ↦ handle_reload-loaded w cfg decoded later a h ∙ rw t
        | inr f ↦
            let same = (startup_changed_iff a.startup (startup_of cfg)).0 f in
            absurd (differs (ap (λ s. s.listen_addr) same ∙ addr))
      ]

  launch-Kept :
      (cfg : Config) (m : MetricsExporter V) (now : ℤ)
      → Distinct cfg.targets
      → Kept w.ops (launch w cfg m now).scheduler
  unfolding launch start new
  launch-Kept cfg m now d =
      (start_targets-Distinct w.ops cfg.targets _ _ tt, start-NoOrphans w.ops m cfg d)

  pub start_agent-Kept :
      (flag : String) (decoded : Option Config) (now : ℤ) {a : Agent V}
      → start_agent w flag decoded now ≡ some a
      → Kept w.ops a.scheduler
  start_agent-Kept flag decoded now h =
      let (cfg, m, loaded, e) = start_agent-launch flag decoded now h in
      subst (λ b. Kept w.ops b.scheduler) (sym e)
        (launch-Kept _ m now
          (subst Distinct (sym (override-keeps flag cfg)) (load_config-Distinct w decoded loaded)))

  launch-IsNumbered :
      (cfg : Config) (m : MetricsExporter V) (now : ℤ) → IsNumbered (launch w cfg m now).scheduler
  unfolding launch
  launch-IsNumbered cfg m now =
      let i = start-IsNumbered w.ops m cfg in
      record { differ = i.differ; given = i.given; unused = i.unused }

  -- The numbers of an agent that was started are given once, and stay so by a reload.
  pub start_agent-IsNumbered :
      (flag : String) (decoded : Option Config) (now : ℤ) {a : Agent V}
      → start_agent w flag decoded now ≡ some a
      → IsNumbered a.scheduler
  start_agent-IsNumbered flag decoded now h =
      let (cfg, m, loaded, e) = start_agent-launch flag decoded now h in
      subst (λ b. IsNumbered b.scheduler) (sym e) (launch-IsNumbered _ m now)

  apply_reload-IsNumbered :
      (cfg : Config) (now : ℤ) (a : Agent V)
      → IsNumbered a.scheduler
      → IsNumbered (apply_reload w cfg now a).scheduler
  unfolding apply_reload
  apply_reload-IsNumbered cfg now a k =
      let i = reload-IsNumbered w.ops w.hash cfg a.scheduler k in
      record { differ = i.differ; given = i.given; unused = i.unused }

  handle_reload-IsNumbered :
      (decoded : Option Config) (now : ℤ) (a : Agent V)
      → IsNumbered a.scheduler
      → IsNumbered (handle_reload w decoded now a).scheduler
  handle_reload-IsNumbered decoded now a k = elim (Option-cases (load_config w decoded)) [
    | inl e ↦ rw (handle_reload-unloaded w decoded now a e) k
    | inr (cfg, e) ↦
        rw (handle_reload-loaded w cfg decoded now a e)
          (elim (Bool-cases (startup_changed a.startup (startup_of cfg))) [
            | inl t ↦ rw t k
            | inr f ↦ rw f (apply_reload-IsNumbered cfg now a k)
          ])
  ]

  apply_reload-Kept :
      (cfg : Config) (now : ℤ) (a : Agent V)
      → Distinct cfg.targets
      → Kept w.ops a.scheduler
      → Kept w.ops (apply_reload w cfg now a).scheduler
  unfolding apply_reload
  apply_reload-Kept cfg now a d k = (
    reload-Distinct w.ops w.hash cfg a.scheduler k,
    reload-NoOrphans w.ops w.hash cfg a.scheduler k.0 d k.1,
  )

  pub handle_reload-Kept :
      (decoded : Option Config) (now : ℤ) (a : Agent V)
      → Kept w.ops a.scheduler
      → Kept w.ops (handle_reload w decoded now a).scheduler
  handle_reload-Kept decoded now a k = elim (Option-cases (load_config w decoded)) [
    | inl e ↦ rw (handle_reload-unloaded w decoded now a e) k
    | inr (cfg, e) ↦
        rw (handle_reload-loaded w cfg decoded now a e)
          (elim (Bool-cases (startup_changed a.startup (startup_of cfg))) [
            | inl t ↦ rw t k
            | inr f ↦ rw f (apply_reload-Kept cfg now a (load_config-Distinct w decoded e) k)
          ])
  ]

  stop_and_exit-stops :
      (code : ℕ) (a : Agent V)
      → Kept w.ops a.scheduler
      → stop_and_exit w code a ≡ exited code (record a.scheduler { probes = []; goroutines = [] })
  unfolding stop_and_exit
  stop_and_exit-stops code a k = rw (stop-returns w.ops a.scheduler k.1, stop_and_exit)

-- The code with which the first wake-up that ends the agent makes it exit, if there is one.
abbrev pub first_exit : List Wakeup → Option ℕ
first_exit [] = none
first_exit (sighup decoded now ∷ ws) = first_exit ws
first_exit (sigterm true ∷ ws) = some 0
first_exit (sigterm false ∷ ws) = some 1
first_exit (server_closed ∷ ws) = first_exit ws
first_exit (server_failed ∷ ws) = some 1

-- Either the agent runs on, with every goroutine in the map or cancelled, or it exited with that code
-- and nothing is left.
abbrev pub EndsAs : {V : Type 0} → World V → Option ℕ → Outcome V → Type 0
EndsAs w code (running a) = (code ≡ none) × Kept w.ops a.scheduler
EndsAs w code (exited c s) = (code ≡ some c) × (s.probes ≡ []) × (s.goroutines ≡ [])
EndsAs w code stuck = ⊥

module _ {V : Type 0} (w : World V) where
  exits :
      (code : ℕ) (a : Agent V)
      → Kept w.ops a.scheduler
      → EndsAs w (some code) (stop_and_exit w code a)
  exits code a k = rw (stop_and_exit-stops w code a k) (refl, refl, refl)

  serve-EndsAs :
      (ws : List Wakeup) (a : Agent V)
      → Kept w.ops a.scheduler
      → EndsAs w (first_exit ws) (serve w ws a)
  unfolding serve shutdown
  serve-EndsAs [] a k = (refl, k)
  serve-EndsAs (sighup decoded now ∷ ws) a k =
      serve-EndsAs ws (handle_reload w decoded now a) (handle_reload-Kept w decoded now a k)
  serve-EndsAs (sigterm true ∷ ws) a k = exits 0 a k
  serve-EndsAs (sigterm false ∷ ws) a k = exits 1 a k
  serve-EndsAs (server_closed ∷ ws) a k = serve-EndsAs ws a k
  serve-EndsAs (server_failed ∷ ws) a k = exits 1 a k

-- An agent that started ends as its wake-ups say, whatever they are: it never blocks in Stop; it exits
-- at the first signal to end or failure of the server, with no probe and no goroutine left, with code 0
-- only if the server was drained after a signal; until then its targets have distinct names and every
-- goroutine that is not cancelled is in the map of probes.
pub start_agent-serves :
    {V : Type 0} (w : World V) (flag : String) (decoded : Option Config) (now : ℤ)
    (ws : List Wakeup) {a : Agent V}
    → start_agent w flag decoded now ≡ some a
    → EndsAs w (first_exit ws) (serve w ws a)
start_agent-serves w flag decoded now ws {a} h =
    serve-EndsAs w ws a (start_agent-Kept w flag decoded now h)
