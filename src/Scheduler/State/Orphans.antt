-- ===== src/Scheduler/State/Orphans.antt =====
-- No goroutine of internal/scheduler/scheduler.go is lost: each that is not cancelled is in the map of
-- probes. Methods has what follows for Stop, Reload and Start.
pub mod Methods
use netsonar.Base.{
  ℕ, ◌≡◌, refl, sym, ◌∙◌, ap, subst, ◌⊎◌, inl, inr, Bool, true, false, ◌||◌, String, str_eq,
  str_eq_iff, str_eq_refl, ◌≢◌, List, [], ◌∷◌, Option, none, some, is_some, ◌==◌, arith, All,
  All-mono, All-append, Bool-cases, Option-cases,
}
use netsonar.Base.Int.{ℤ}
use netsonar.Config.Types.{TargetConfig, Config}
use netsonar.Metrics.Vec.{VecOps}
use netsonar.Metrics.Exporter.{MetricsExporter}
use netsonar.Scheduler.Diff.{Hash, diff_targets}
use netsonar.Scheduler.Diff.Named.{find_name, Distinct}
use netsonar.Scheduler.Diff.Exact.{stop_of, start_of, diff_targets-exact}
use netsonar.Scheduler.Diff.Starts.{diff_targets-Distinct}
use netsonar.Scheduler.State.{
  ProbeEntry, Goroutine, Scheduler, find_entry, put_entry, delete_entry, cancel, await, wait, new,
  start_target, start_targets, start, cancel_all, stop, stop_target, stop_targets, reload,
  await_all,
}
use netsonar.Scheduler.State.Entries.{
  entry_targets, find_entry-delete_entry, stop_targets-find, start_target-find, target_of,
  find_name-entry_targets,
}

abbrev has_id : ℕ → List ProbeEntry → Bool
has_id id [] = false
has_id id (e ∷ es) = e.id == id || has_id id es

abbrev IsHeld : List ProbeEntry → Goroutine → Type 0
IsHeld es g = (g.cancelled ≡ true) ⊎ (has_id g.id es ≡ true)

-- Every goroutine is cancelled, or in the map.
abbrev pub NoOrphans : List ProbeEntry → List Goroutine → Type 0
NoOrphans es gs = All (IsHeld es) gs

cancel-NoOrphans :
    (e : ProbeEntry) (es : List ProbeEntry) (gs : List Goroutine)
    → NoOrphans (e ∷ es) gs
    → NoOrphans es (cancel e.id gs)
unfolding cancel
cancel-NoOrphans e es [] h = tt
cancel-NoOrphans e es (g ∷ gs) h = (ground arith, cancel-NoOrphans e es gs h.1)

pub wait-cancel_all :
    (es : List ProbeEntry) (gs : List Goroutine)
    → NoOrphans es gs
    → wait (cancel_all es gs) ≡ some []
unfolding wait cancel_all
wait-cancel_all [] [] h = refl
wait-cancel_all [] (g ∷ gs) h = ground (arith, wait-cancel_all [] gs h.1)
wait-cancel_all (e ∷ es) gs h = wait-cancel_all es (cancel e.id gs) (cancel-NoOrphans e es gs h)

-- An entry for a name that the map does not have yet.
has_id-put_entry :
    (x : ProbeEntry) (id : ℕ) (es : List ProbeEntry)
    → find_entry x.target.name es ≡ none
    → has_id id (put_entry x es) ≡ (has_id id es || x.id == id)
unfolding put_entry find_entry
has_id-put_entry x id [] h = ground arith
has_id-put_entry x id (e ∷ es) h = ground (arith, has_id-put_entry x id es)

start_target-NoOrphans :
    {V : Type 0} (ops : VecOps V) (t : TargetConfig) (jitter : ℤ) (s : Scheduler V)
    → find_entry t.name s.probes ≡ none
    → NoOrphans s.probes s.goroutines
    → let s' = start_target ops t jitter s in NoOrphans s'.probes s'.goroutines
unfolding start_target
start_target-NoOrphans ops t jitter s n h =
    All-append _ s.goroutines _
      (All-mono _ _ s.goroutines (λ g k. ground (arith, has_id-put_entry x g.id s.probes n)) h)
      (inr (has_id-put_entry x s.next_id s.probes n ∙ ground (arith)), tt)
  where
    x : ProbeEntry
    x = record { target = t; id = s.next_id }

-- The names still to be started are not in the map.
abbrev Absent : List TargetConfig → List ProbeEntry → Type 0
Absent ts es = (n : String) → find_name n ts ≢ none → find_entry n es ≡ none

pub start_targets-NoOrphans :
    {V : Type 0} (ops : VecOps V) (ts : List TargetConfig) (jitter : ℤ) (s : Scheduler V)
    → Distinct ts
    → Absent ts s.probes
    → NoOrphans s.probes s.goroutines
    → let s' = start_targets ops ts jitter s in NoOrphans s'.probes s'.goroutines
unfolding start_targets find_name
start_targets-NoOrphans ops [] jitter s d a h = h
start_targets-NoOrphans ops (t ∷ ts) jitter s d a h =
    start_targets-NoOrphans ops ts jitter (start_target ops t jitter s) d.1
      (λ n m. start_target-find ops n t jitter s ∙ elim (Bool-cases (str_eq t.name n)) [
        | inl e ↦ absurd (m (subst (λ k. find_name k ts ≡ none) ((str_eq_iff t.name n).0 e) d.0))
        | inr e ↦ rw e (a n (λ f. m (ground (arith))))
      ])
      (start_target-NoOrphans ops t jitter s (a t.name (λ f. cc (str_eq_refl t.name, f))) h)

cancel-keeps :
    (id : ℕ) (es : List ProbeEntry) (gs : List Goroutine)
    → NoOrphans es gs
    → NoOrphans es (cancel id gs)
unfolding cancel
cancel-keeps id es [] h = tt
cancel-keeps id es (g ∷ gs) h = (ground arith, cancel-keeps id es gs h.1)

await-NoOrphans :
    (id : ℕ) (es : List ProbeEntry) (gs : List Goroutine)
    → NoOrphans es gs
    → NoOrphans es (await id gs)
unfolding await
await-NoOrphans id es [] h = tt
await-NoOrphans id es (g ∷ gs) h = ground (arith, await-NoOrphans id es gs h.1)

pub await_all-NoOrphans :
    (ids : List ℕ) (es : List ProbeEntry) (gs : List Goroutine)
    → NoOrphans es gs
    → NoOrphans es (await_all ids gs)
unfolding await_all
await_all-NoOrphans [] es gs h = h
await_all-NoOrphans (id ∷ ids) es gs h =
    await_all-NoOrphans ids es (await id gs) (await-NoOrphans id es gs h)

delete_entry-absent :
    (n : String) (es : List ProbeEntry) → find_entry n es ≡ none → delete_entry n es ≡ es
unfolding find_entry delete_entry
delete_entry-absent n [] f = refl
delete_entry-absent n (x ∷ es) f = ground (arith, delete_entry-absent n es)

pub target_of-none : (o : Option ProbeEntry) → target_of o ≡ none → o ≡ none
target_of-none none h = refl
target_of-none (some e) h = cc

-- Deleting the only entry of a name loses no id but that entry's.
pub has_id-delete_entry :
    (n : String) (id : ℕ) (es : List ProbeEntry) (e : ProbeEntry)
    → Distinct (entry_targets es)
    → find_entry n es ≡ some e
    → has_id id es ≡ true
    → (e.id == id) ≡ false
    → has_id id (delete_entry n es) ≡ true
unfolding find_entry delete_entry
has_id-delete_entry n id [] e d f h k = cc
has_id-delete_entry n id (x ∷ es) e d f h k = elim (Bool-cases (str_eq x.target.name n)) [
  | inl q ↦
      let gone : find_entry n es ≡ none = target_of-none _ (
        sym (find_name-entry_targets n es)
        ∙ subst (λ m. find_name m (entry_targets es) ≡ none) ((str_eq_iff x.target.name n).0 q)
            d.0) in
      rw q (rw (delete_entry-absent n es gone) (ground arith))
  | inr q ↦ ground (arith, has_id-delete_entry n id es e d.1)
]
