-- ===== src/Scheduler/State/Goroutines.antt =====
-- The goroutines of internal/scheduler/scheduler.go under the two halves of Reload: which are stopped, which
-- are left alone and which are started.
use netsonar.Base.{
  ℕ, ◌≤◌, ◌<◌, ◌≡◌, refl, sym, ◌∙◌, subst, Bool, true, false, ◌||◌, String, str_eq, str_eq_iff,
  List, [], ◌∷◌, ◌++◌, Option, none, some, if◌then◌else◌, is_some, ◌==◌, arith, All, Bool-cases,
  Option-cases, inl, inr,
}
use netsonar.Base.Int.{ℤ}
use netsonar.Config.Types.{TargetConfig}
use netsonar.Metrics.Vec.{VecOps}
use netsonar.Scheduler.Diff.Named.{find_name, Distinct}
use netsonar.Scheduler.State.{
  ProbeEntry, Goroutine, Scheduler, find_entry, delete_entry, cancel, await, await_all,
  start_target, start_targets, stop_target, stop_targets,
}
use netsonar.Scheduler.State.Entries.{stop_target-find, start_targets-other, start_target-find}

abbrev pub find_goroutine : ℕ → List Goroutine → Option Goroutine
find_goroutine id [] = none
find_goroutine id (g ∷ gs) = if g.id == id then some g else find_goroutine id gs

abbrev pub mem_id : ℕ → List ℕ → Bool
mem_id id [] = false
mem_id id (c ∷ cs) = c == id || mem_id id cs

mem_id-++ : (id c : ℕ) (cs : List ℕ) → mem_id id (cs ++ c ∷ []) ≡ (mem_id id cs || c == id)
mem_id-++ id c [] = ground arith
mem_id-++ id c (d ∷ cs) = ground (arith, mem_id-++ id c cs)

find_goroutine-cancel :
    (c id : ℕ) (gs : List Goroutine)
    → (c == id) ≡ false
    → find_goroutine id (cancel c gs) ≡ find_goroutine id gs
unfolding cancel
find_goroutine-cancel c id [] h = refl
find_goroutine-cancel c id (g ∷ gs) h = ground (arith, find_goroutine-cancel c id gs h)

pub cancel-none :
    (c id : ℕ) (gs : List Goroutine)
    → find_goroutine id gs ≡ none
    → find_goroutine id (cancel c gs) ≡ none
unfolding cancel
cancel-none c id [] h = refl
cancel-none c id (g ∷ gs) h = ground (arith, cancel-none c id gs)

find_goroutine-await :
    (c id : ℕ) (gs : List Goroutine)
    → find_goroutine id (await c gs) ≡ (if c == id then none else find_goroutine id gs)
unfolding await
find_goroutine-await c id [] = ground arith
find_goroutine-await c id (g ∷ gs) = ground (arith, find_goroutine-await c id gs)

pub find_goroutine-await_all :
    (id : ℕ) (cs : List ℕ) (gs : List Goroutine)
    → find_goroutine id (await_all cs gs) ≡ (if mem_id id cs then none else find_goroutine id gs)
unfolding await_all
find_goroutine-await_all id [] gs = refl
find_goroutine-await_all id (c ∷ cs) gs =
    find_goroutine-await_all id cs (await c gs) ∙ ground (arith, find_goroutine-await c id gs)

pub find_goroutine-++ :
    (id : ℕ) (gs : List Goroutine) (g : Goroutine)
    → find_goroutine id (gs ++ g ∷ []) ≡ (
        if is_some (find_goroutine id gs)
        then find_goroutine id gs
        else if g.id == id
        then some g
        else none)
find_goroutine-++ id [] g = ground arith
find_goroutine-++ id (x ∷ gs) g = ground (arith, find_goroutine-++ id gs g)

-- No two entries have one number.
abbrev pub DistinctIds : List ProbeEntry → Type 0
DistinctIds [] = Unit
DistinctIds (e ∷ es) = All (λ f. (e.id == f.id) ≡ false) es × DistinctIds es

pub found_all :
    (P : ProbeEntry → Type 0) (n : String) (es : List ProbeEntry) (e : ProbeEntry)
    → All P es
    → find_entry n es ≡ some e
    → P e
unfolding find_entry
found_all P n [] e a h = absurd (cc)
found_all P n (x ∷ es) e a h = elim (Bool-cases (str_eq x.target.name n)) [
  | inl q ↦ let same : x ≡ e = ground arith in subst P same a.0
  | inr q ↦ found_all P n es e a.1 (ground arith)
]

ids_differ :
    (m n : String) (es : List ProbeEntry) (x e : ProbeEntry)
    → DistinctIds es
    → find_entry m es ≡ some x
    → find_entry n es ≡ some e
    → str_eq m n ≡ false
    → (x.id == e.id) ≡ false
unfolding find_entry
ids_differ m n [] x e d f g h = absurd (cc)
ids_differ m n (y ∷ es) x e d f g h = elim (Bool-cases (str_eq y.target.name m)) [
  | inl q ↦
      let same : y ≡ x = ground arith in
      let other : str_eq y.target.name n ≡ false =
        subst (λ k. str_eq k n ≡ false) (sym ((str_eq_iff y.target.name m).0 q)) h in
      subst (λ z. (z.id == e.id) ≡ false) same
        (found_all (λ k. (y.id == k.id) ≡ false) n es e d.0 (ground arith))
  | inr q ↦ elim (Bool-cases (str_eq y.target.name n)) [
    | inl r ↦
        let same : y ≡ e = ground arith in
        let apart : (y.id == x.id) ≡ false =
          found_all (λ k. (y.id == k.id) ≡ false) m es x d.0 (ground arith) in
        subst (λ z. (x.id == z.id) ≡ false) same (ground arith)
    | inr r ↦ ids_differ m n es x e d.1 (ground arith) (ground arith) h
  ]
]

pub All-delete_entry :
    (P : ProbeEntry → Type 0) (n : String) (es : List ProbeEntry)
    → All P es
    → All P (delete_entry n es)
unfolding delete_entry
All-delete_entry P n [] a = tt
All-delete_entry P n (x ∷ es) a = elim (Bool-cases (str_eq x.target.name n)) [
  | inl q ↦ rw q (All-delete_entry P n es a.1)
  | inr q ↦ rw q (a.0, All-delete_entry P n es a.1)
]

pub delete_entry-DistinctIds :
    (n : String) (es : List ProbeEntry) → DistinctIds es → DistinctIds (delete_entry n es)
unfolding delete_entry
delete_entry-DistinctIds n [] d = tt
delete_entry-DistinctIds n (x ∷ es) d = elim (Bool-cases (str_eq x.target.name n)) [
  | inl q ↦ rw q (delete_entry-DistinctIds n es d.1)
  | inr q ↦ rw q (All-delete_entry _ n es d.0, delete_entry-DistinctIds n es d.1)
]

module _ {V : Type 0} (ops : VecOps V) where
  -- One target that is stopped, of another name than an entry.
  stop_target-spared :
      (n : String) (e : ProbeEntry) (t : TargetConfig) (sd : Scheduler V × List ℕ)
      → str_eq t.name n ≡ false
      → find_entry n sd.0.probes ≡ some e
      → DistinctIds sd.0.probes
      → mem_id e.id sd.1 ≡ false
      → let (s', done') = stop_target ops t sd in
        DistinctIds s'.probes
        × (find_goroutine e.id s'.goroutines ≡ find_goroutine e.id sd.0.goroutines)
        × (mem_id e.id done' ≡ false)
  unfolding stop_target
  stop_target-spared n e t (s, done) other f d k =
      elim (Option-cases (find_entry t.name s.probes)) [
        | inl q ↦ rw (q, stop_target) (d, refl, k)
        | inr (x, q) ↦
            let apart = ids_differ t.name n s.probes x e d q f other in
            rw (q, stop_target)
              (
                delete_entry-DistinctIds t.name s.probes d,
                find_goroutine-cancel x.id e.id s.goroutines apart,
                mem_id-++ e.id x.id done ∙ rw (k, apart) refl,
              )
      ]

  -- The entry of a name that is not stopped keeps its goroutine, which is not awaited.
  pub stop_targets-spared :
      (n : String) (e : ProbeEntry) (ts : List TargetConfig) (sd : Scheduler V × List ℕ)
      → find_name n ts ≡ none
      → find_entry n sd.0.probes ≡ some e
      → DistinctIds sd.0.probes
      → mem_id e.id sd.1 ≡ false
      → let (s', done') = stop_targets ops ts sd in
        (find_goroutine e.id s'.goroutines ≡ find_goroutine e.id sd.0.goroutines)
        × (mem_id e.id done' ≡ false)
  unfolding stop_targets find_name
  stop_targets-spared n e [] sd m f d k = (refl, k)
  stop_targets-spared n e (t ∷ ts) sd m f d k =
      let other : str_eq t.name n ≡ false = ground arith in
      let (d', same, out) = stop_target-spared n e t sd other f d k in
      let (rest, gone) =
        stop_targets-spared n e ts (stop_target ops t sd) (ground arith)
          (stop_target-find ops n t sd ∙ rw other f) d' out in
      (rest ∙ same, gone)

  -- What was to be awaited stays so.
  stop_targets-mem :
      (id : ℕ) (ts : List TargetConfig) (sd : Scheduler V × List ℕ)
      → mem_id id sd.1 ≡ true
      → mem_id id (stop_targets ops ts sd).1 ≡ true
  unfolding stop_targets stop_target
  stop_targets-mem id [] sd h = h
  stop_targets-mem id (t ∷ ts) (s, done) h =
      stop_targets-mem id ts (stop_target ops t (s, done))
        (elim (Option-cases (find_entry t.name s.probes)) [
          | inl q ↦ rw (q, stop_target) h
          | inr (x, q) ↦ rw (q, stop_target) (mem_id-++ id x.id done ∙ rw h refl)
        ])

  -- The goroutine of a name that is stopped is awaited.
  pub stop_targets-stopped :
      (n : String) (e : ProbeEntry) (ts : List TargetConfig) (sd : Scheduler V × List ℕ)
      → is_some (find_name n ts) ≡ true
      → find_entry n sd.0.probes ≡ some e
      → mem_id e.id (stop_targets ops ts sd).1 ≡ true
  unfolding stop_targets stop_target find_name
  stop_targets-stopped n e [] sd m f = absurd (cc)
  stop_targets-stopped n e (t ∷ ts) (s, done) m f = elim (Bool-cases (str_eq t.name n)) [
    | inl q ↦
        let found : find_entry t.name s.probes ≡ some e =
          subst (λ k. find_entry k s.probes ≡ some e) (sym ((str_eq_iff t.name n).0 q)) f in
        stop_targets-mem e.id ts (stop_target ops t (s, done))
          (rw (found, stop_target) (mem_id-++ e.id e.id done ∙ ground arith))
    | inr q ↦
        stop_targets-stopped n e ts (stop_target ops t (s, done)) (ground arith)
          (stop_target-find ops n t (s, done) ∙ rw q f)
  ]

  -- A number that no goroutine has gets none by the stops.
  pub stop_targets-unused :
      (id : ℕ) (ts : List TargetConfig) (sd : Scheduler V × List ℕ)
      → find_goroutine id sd.0.goroutines ≡ none
      → find_goroutine id (stop_targets ops ts sd).0.goroutines ≡ none
  unfolding stop_targets stop_target
  stop_targets-unused id [] sd h = h
  stop_targets-unused id (t ∷ ts) (s, done) h =
      stop_targets-unused id ts (stop_target ops t (s, done))
        (elim (Option-cases (find_entry t.name s.probes)) [
          | inl q ↦ rw (q, stop_target) h
          | inr (x, q) ↦ rw (q, stop_target) (cancel-none x.id id s.goroutines h)
        ])

  -- The starts leave the goroutines alone that are there.
  pub start_targets-kept :
      (id : ℕ) (ts : List TargetConfig) (jitter : ℤ) (s : Scheduler V)
      → id < s.next_id
      → find_goroutine id (start_targets ops ts jitter s).goroutines
        ≡ find_goroutine id s.goroutines
  unfolding start_targets start_target
  start_targets-kept id [] jitter s h = refl
  start_targets-kept id (t ∷ ts) jitter s h =
      start_targets-kept id ts jitter (start_target ops t jitter s) (omega arith)
      ∙ find_goroutine-++ id s.goroutines _
      ∙ elim (Option-cases (find_goroutine id s.goroutines)) [
        | inl q ↦ rw q (ground arith)
        | inr (x, q) ↦ rw q refl
      ]

  -- A name that is started has an entry and a goroutine of a new number, which is not cancelled.
  pub start_targets-launched :
      (n : String) (ts : List TargetConfig) (jitter : ℤ) (s : Scheduler V) (u : TargetConfig)
      → Distinct ts
      → ((k : ℕ) → s.next_id ≤ k → find_goroutine k s.goroutines ≡ none)
      → find_name n ts ≡ some u
      → (id : ℕ) × (s.next_id ≤ id)
        × (find_entry n (start_targets ops ts jitter s).probes
            ≡ some (record { target = u; id = id }))
        × (find_goroutine id (start_targets ops ts jitter s).goroutines
            ≡ some (record { id = id; target = u; jitter = jitter; cancelled = false }))
  unfolding start_targets find_name start_target
  start_targets-launched n [] jitter s u d b h = absurd (cc h)
  start_targets-launched n (t ∷ ts) jitter s u d b h = elim (Bool-cases (str_eq t.name n)) [
    | inl e ↦
        let gone : find_name n ts ≡ none =
          subst (λ k. find_name k ts ≡ none) ((str_eq_iff t.name n).0 e) d.0 in
        let same : t ≡ u = ground arith in
        (
          s.next_id,
          omega arith,
          start_targets-other ops n ts jitter (start_target ops t jitter s) gone
              ∙ start_target-find ops n t jitter s
              ∙ rw (e, same),
          start_targets-kept s.next_id ts jitter (start_target ops t jitter s) (omega arith)
              ∙ find_goroutine-++ s.next_id s.goroutines _
              ∙ rw (b s.next_id (omega arith), same) (ground arith),
        )
    | inr e ↦
        let (id, low, found, runs) =
          start_targets-launched n ts jitter (start_target ops t jitter s) u d.1
            (λ k l. find_goroutine-++ k s.goroutines _ ∙ rw (b k (omega arith)) (ground arith))
            (ground arith) in
        (id, omega arith, found, runs)
  ]
