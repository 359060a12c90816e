-- ===== src/Scheduler/State/Entries.antt =====
-- The map of probes under the operations of Start, Stop and Reload.
use netsonar.Base.{
  ℕ, ◌≤◌, ◌≡◌, refl, ◌∙◌, subst, String, str_eq, str_eq_iff, List, [], ◌∷◌, map, Option, none, some,
  if◌then◌else◌, is_some, arith, Bool-cases, Option-cases, inl, inr,
}
use netsonar.Base.Int.{ℤ}
use netsonar.Config.Types.{TargetConfig}
use netsonar.Metrics.Vec.{VecOps}
use netsonar.Scheduler.Diff.Named.{find_name, Distinct}
use netsonar.Scheduler.State.{
  ProbeEntry, Scheduler, find_entry, put_entry, delete_entry, start_target, start_targets,
  stop_target, stop_targets,
}

-- The targets of the running probes.
abbrev pub entry_targets : List ProbeEntry → List TargetConfig
entry_targets = map λ e. e.target

find_entry-put_entry :
    (n : String) (x : ProbeEntry) (es : List ProbeEntry)
    → find_entry n (put_entry x es) ≡ (if str_eq x.target.name n then some x else find_entry n es)
unfolding find_entry put_entry
find_entry-put_entry n x [] = refl
find_entry-put_entry n x (e ∷ es) = ground (
  arith,
  find_entry-put_entry n x es,
  str_eq_iff e.target.name x.target.name,
  str_eq_iff e.target.name n,
  str_eq_iff x.target.name n,
)

pub find_entry-delete_entry :
    (m n : String) (es : List ProbeEntry)
    → find_entry n (delete_entry m es) ≡ (if str_eq m n then none else find_entry n es)
unfolding find_entry delete_entry
find_entry-delete_entry m n [] = ground arith
find_entry-delete_entry m n (e ∷ es) = ground (
  arith,
  find_entry-delete_entry m n es,
  str_eq_iff e.target.name m,
  str_eq_iff e.target.name n,
  str_eq_iff m n,
)

abbrev pub target_of : Option ProbeEntry → Option TargetConfig
target_of none = none
target_of (some e) = some e.target

pub find_name-entry_targets :
    (n : String) (es : List ProbeEntry)
    → find_name n (entry_targets es) ≡ target_of (find_entry n es)
unfolding find_name find_entry
find_name-entry_targets n [] = refl
find_name-entry_targets n (e ∷ es) = ground (arith, find_name-entry_targets n es)

module _ {V : Type 0} (ops : VecOps V) (n : String) where
  pub stop_target-find :
      (t : TargetConfig) (sd : Scheduler V × List ℕ)
      → find_entry n (stop_target ops t sd).0.probes
        ≡ (if str_eq t.name n then none else find_entry n sd.0.probes)
  unfolding stop_target
  stop_target-find t (s, done) = elim (Option-cases (find_entry t.name s.probes)) [
    | inl e ↦
        rw (e, stop_target)
          (elim (Bool-cases (str_eq t.name n)) [
            | inl q ↦ rw q (subst (λ k. find_entry k s.probes ≡ none) ((str_eq_iff t.name n).0 q) e)
            | inr q ↦ rw q
          ])
    | inr (x, e) ↦ rw (e, stop_target) (find_entry-delete_entry t.name n s.probes)
  ]

  stop_target-next_id :
      (t : TargetConfig) (sd : Scheduler V × List ℕ)
      → (stop_target ops t sd).0.next_id ≡ sd.0.next_id
  unfolding stop_target
  stop_target-next_id t (s, done) = ground arith

  pub stop_targets-find :
      (ts : List TargetConfig) (sd : Scheduler V × List ℕ)
      → find_entry n (stop_targets ops ts sd).0.probes
        ≡ (if is_some (find_name n ts) then none else find_entry n sd.0.probes)
  unfolding stop_targets find_name
  stop_targets-find [] sd = refl
  stop_targets-find (t ∷ ts) sd =
      stop_targets-find ts (stop_target ops t sd) ∙ rw (stop_target-find t sd) (ground arith)

  pub stop_targets-next_id :
      (ts : List TargetConfig) (sd : Scheduler V × List ℕ)
      → (stop_targets ops ts sd).0.next_id ≡ sd.0.next_id
  unfolding stop_targets
  stop_targets-next_id [] sd = refl
  stop_targets-next_id (t ∷ ts) sd =
      stop_targets-next_id ts (stop_target ops t sd) ∙ stop_target-next_id t sd

  pub start_target-find :
      (t : TargetConfig) (jitter : ℤ) (s : Scheduler V)
      → find_entry n (start_target ops t jitter s).probes ≡ (
          if str_eq t.name n
          then some (record { target = t; id = s.next_id })
          else find_entry n s.probes)
  unfolding start_target
  start_target-find t jitter s = find_entry-put_entry n _ s.probes

  -- A name that is not started keeps its entry.
  pub start_targets-other :
      (ts : List TargetConfig) (jitter : ℤ) (s : Scheduler V)
      → find_name n ts ≡ none
      → find_entry n (start_targets ops ts jitter s).probes ≡ find_entry n s.probes
  unfolding start_targets find_name
  start_targets-other [] jitter s h = refl
  start_targets-other (t ∷ ts) jitter s h =
      start_targets-other ts jitter (start_target ops t jitter s) (ground arith)
      ∙ start_target-find t jitter s
      ∙ ground arith

  -- A name that is started has a new goroutine of that target.
  pub start_targets-new :
      (ts : List TargetConfig) (jitter : ℤ) (s : Scheduler V) (u : TargetConfig)
      → Distinct ts
      → find_name n ts ≡ some u
      → (id : ℕ) × (s.next_id ≤ id)
        × (find_entry n (start_targets ops ts jitter s).probes
            ≡ some (record { target = u; id = id }))
  unfolding start_targets find_name start_target
  start_targets-new [] jitter s u d h = absurd (cc h)
  start_targets-new (t ∷ ts) jitter s u d h = elim (Bool-cases (str_eq t.name n)) [
    | inl e ↦
        let gone : find_name n ts ≡ none =
          subst (λ k. find_name k ts ≡ none) ((str_eq_iff t.name n).0 e) d.0 in
        let same : t ≡ u = ground arith in
        (
          s.next_id,
          omega arith,
          start_targets-other ts jitter (start_target ops t jitter s) gone
              ∙ start_target-find t jitter s
              ∙ rw (e, same),
        )
    | inr e ↦
        let (id, low, found) =
          start_targets-new ts jitter (start_target ops t jitter s) u d.1 (ground arith) in
        (id, omega arith, found)
  ]
