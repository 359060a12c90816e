-- ===== src/Scheduler/State/Reload.antt =====
-- Reload of internal/scheduler/scheduler.go: the minimal set of changes.
use netsonar.Base.{
  ℕ, false, ◌≤◌, ◌≡◌, refl, sym, ap, ◌<◌, ◌∙◌, subst, String, List, All, true, arith, [], Option,
  none, some, if◌then◌else◌, is_some, Bool-cases, inl, inr,
}
use netsonar.Config.Types.{TargetConfig, Config}
use netsonar.Metrics.Vec.{VecOps}
use netsonar.Scheduler.Diff.{Hash, equal, diff_targets}
use netsonar.Scheduler.Diff.Named.{find_name, Distinct}
use netsonar.Scheduler.Diff.Exact.{stop_of, start_of, diff_targets-exact}
use netsonar.Scheduler.Diff.Starts.{diff_targets-Distinct}
use netsonar.Base.Int.{ℤ}
use netsonar.Scheduler.State.{ProbeEntry, Goroutine, Scheduler, find_entry, reload, stop_targets}
use netsonar.Scheduler.State.Goroutines.{
  find_goroutine, mem_id, find_goroutine-await_all, DistinctIds, found_all, stop_targets-spared,
  stop_targets-stopped, stop_targets-unused, start_targets-kept, start_targets-launched,
}
use netsonar.Scheduler.State.Entries.{
  entry_targets, target_of, find_name-entry_targets, stop_targets-find, stop_targets-next_id,
  start_targets-other,
}

-- The goroutine of a probe that is gone has returned.
abbrev pub Returned : Option ProbeEntry → List Goroutine → Type 0
Returned none gs = Unit
Returned (some e) gs = find_goroutine e.id gs ≡ none

-- A probe with a new number, which no goroutine had, of a goroutine of its own that is not cancelled, while
-- the goroutine of the old one, if there was one, has returned.
abbrev pub Restarted :
    {V : Type 0}
    → ℤ
    → Scheduler V
    → String
    → Option ProbeEntry
    → TargetConfig
    → List ProbeEntry
    → List Goroutine
    → Type 0
Restarted jitter s n old t es gs =
    (id : ℕ) × (s.next_id ≤ id)
    × (find_goroutine id s.goroutines ≡ none)
    × (find_entry n es ≡ some (record { target = t; id = id }))
    × (find_goroutine id gs
        ≡ some (record { id = id; target = t; jitter = jitter; cancelled = false }))
    × Returned old gs

-- What becomes of the probe of one name: gone, with its goroutine; left as it runs, the same goroutine in
-- the same state; or restarted.
abbrev pub Reloaded :
    {V : Type 0}
    → Hash
    → ℤ
    → Scheduler V
    → String
    → Option ProbeEntry
    → Option TargetConfig
    → List ProbeEntry
    → List Goroutine
    → Type 0
Reloaded hash jitter s n old none es gs = (find_entry n es ≡ none) × Returned old gs
Reloaded hash jitter s n none (some t) es gs = Restarted jitter s n none t es gs
Reloaded hash jitter s n (some e) (some t) es gs =
    if equal hash e.target t
    then (find_entry n es ≡ some e) × (find_goroutine e.id gs ≡ find_goroutine e.id s.goroutines)
    else Restarted jitter s n (some e) t es gs

-- The entries have different numbers, and no entry and no goroutine has one that is still to be given.
pub record IsNumbered {V : Type 0} (s : Scheduler V) : Type 0 where
  pub differ : DistinctIds s.probes
  pub given : All (λ e. e.id < s.next_id) s.probes
  pub unused : (k : ℕ) → s.next_id ≤ k → find_goroutine k s.goroutines ≡ none

module _ {V : Type 0} (ops : VecOps V) (hash : Hash) (cfg : Config) (s : Scheduler V) (n : String)
    (running : Distinct (entry_targets s.probes)) (numbered : IsNumbered s)
    (valid : Distinct cfg.targets) where
  new_of : Option TargetConfig
  new_of = find_name n cfg.targets

  old_of : Option ProbeEntry
  old_of = find_entry n s.probes

  -- The scheduler between the two halves, and after both.
  abbrev halfway : Scheduler V × List ℕ
  halfway =
      stop_targets ops (diff_targets hash (entry_targets s.probes) cfg.targets).to_stop (s, [])

  abbrev after : Scheduler V
  after = reload ops hash cfg s

  halfway-next_id : halfway.0.next_id ≡ s.next_id
  halfway-next_id = stop_targets-next_id ops n _ (s, [])

  stopped_of :
      find_name n (diff_targets hash (entry_targets s.probes) cfg.targets).to_stop
      ≡ stop_of hash (target_of old_of) new_of
  unfolding old_of new_of
  stopped_of =
      (diff_targets-exact hash n (entry_targets s.probes) cfg.targets running valid).0
      ∙ rw (find_name-entry_targets n s.probes)

  started_of :
      find_name n (diff_targets hash (entry_targets s.probes) cfg.targets).to_start
      ≡ start_of hash (target_of old_of) new_of
  unfolding old_of new_of
  started_of =
      (diff_targets-exact hash n (entry_targets s.probes) cfg.targets running valid).1
      ∙ rw (find_name-entry_targets n s.probes)

  -- The two outcomes of the second half: the name is started, or what the first half left stays.
  kept :
      start_of hash (target_of old_of) new_of ≡ none
      → find_entry n after.probes
        ≡ (if is_some (stop_of hash (target_of old_of) new_of) then none else old_of)
  unfolding reload
  kept e =
      start_targets-other ops n _ _ _ (started_of ∙ e)
      ∙ stop_targets-find ops n _ (s, [])
      ∙ rw stopped_of (unfold old_of in refl)

  -- The goroutine of an entry, after Reload: that of the first half, if it was not awaited.
  goroutine_of :
      (e : ProbeEntry)
      → old_of ≡ some e
      → find_goroutine e.id after.goroutines
        ≡ (if mem_id e.id halfway.1 then none else find_goroutine e.id halfway.0.goroutines)
  unfolding old_of reload
  goroutine_of e f =
      let low = found_all (λ x. x.id < s.next_id) n s.probes e numbered.given f in
      start_targets-kept ops e.id _ _ _ (subst (λ k. e.id < k) (sym halfway-next_id) low)
      ∙ find_goroutine-await_all e.id halfway.1 halfway.0.goroutines

  spared :
      (e : ProbeEntry)
      → old_of ≡ some e
      → stop_of hash (target_of old_of) new_of ≡ none
      → find_goroutine e.id after.goroutines ≡ find_goroutine e.id s.goroutines
  spared e f g =
      let (same, out) =
        stop_targets-spared ops n e _ (s, []) (stopped_of ∙ g) (unfold old_of in f) numbered.differ
          refl in
      goroutine_of e f ∙ rw out same

  ended :
      (old : Option ProbeEntry)
      → old_of ≡ old
      → is_some (stop_of hash (target_of old) new_of) ≡ true
      → Returned old after.goroutines
  ended none f g = tt
  ended (some e) f g =
      let awaited =
        stop_targets-stopped ops n e _ (s, []) (ap is_some stopped_of ∙ rw f g)
          (unfold old_of in f) in
      goroutine_of e f ∙ rw awaited refl

  launched :
      (t : TargetConfig) (old : Option ProbeEntry)
      → old_of ≡ old
      → start_of hash (target_of old_of) new_of ≡ some t
      → Returned old after.goroutines
      → Restarted cfg.agent.initial_probe_jitter s n old t after.probes after.goroutines
  unfolding reload
  launched t old f e r =
      let fresh : (k : ℕ) → halfway.0.next_id ≤ k → find_goroutine k halfway.0.goroutines ≡ none =
        λ k l.
          stop_targets-unused ops k _ (s, [])
            (numbered.unused k (subst (λ i. i ≤ k) halfway-next_id l)) in
      let (id, low, found, runs) =
        start_targets-launched ops n _ _ _ t
          (diff_targets-Distinct hash (entry_targets s.probes) cfg.targets)
          (λ k l.
            find_goroutine-await_all k halfway.1 halfway.0.goroutines
            ∙ rw (fresh k l) (ground arith))
          (started_of ∙ e) in
      let above = subst (λ k. k ≤ id) halfway-next_id low in
      (id, above, numbered.unused id above, found, runs, r)

  outcome :
      (old : Option ProbeEntry) (new : Option TargetConfig)
      → old_of ≡ old
      → new_of ≡ new
      → Reloaded hash cfg.agent.initial_probe_jitter s n old new after.probes after.goroutines
  outcome none none e f = (kept (rw (e, f)) ∙ rw e, tt)
  outcome (some o) none e f = (kept (rw (e, f)) ∙ rw (e, f), ended (some o) e (rw f))
  outcome none (some t) e f = launched t none e (rw (e, f)) tt
  outcome (some o) (some t) e f = elim (Bool-cases (equal hash o.target t)) [
    | inl q ↦ rw q (kept (rw (e, f) (rw q)) ∙ rw (e, f) (rw q), spared o e (rw (e, f) (rw q)))
    | inr q ↦ rw q (launched t (some o) e (rw (e, f) (rw q)) (ended (some o) e (rw f (rw q))))
  ]

-- For a running set and a configuration with distinct names, and entries and goroutines with numbers that
-- were given once, Reload leaves under each name just what the configuration asks for: no probe where the
-- name is gone, and its goroutine has returned; the very same goroutine, cancelled or not as it was, where
-- the configured target hashes equal to the running one; else a probe of the configured target with a
-- goroutine of its own under an unused number, not cancelled, while that of the old probe has returned.
pub reload-Reloaded :
    {V : Type 0} (ops : VecOps V) (hash : Hash) (cfg : Config) (s : Scheduler V) (n : String)
    → Distinct (entry_targets s.probes)
    → IsNumbered s
    → Distinct cfg.targets
    → Reloaded hash cfg.agent.initial_probe_jitter s n
        (find_entry n s.probes)
        (find_name n cfg.targets)
        (reload ops hash cfg s).probes
        (reload ops hash cfg s).goroutines
unfolding old_of new_of
reload-Reloaded ops hash cfg s n running numbered valid =
    outcome ops hash cfg s n running numbered valid (find_entry n s.probes)
      (find_name n cfg.targets) refl refl
