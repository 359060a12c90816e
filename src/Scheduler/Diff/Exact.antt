-- ===== src/Scheduler/Diff/Exact.antt =====
-- What diffTargets (internal/scheduler/scheduler.go) does with each name.
use netsonar.Base.{
  ◌≡◌, refl, sym, ◌∙◌, ap, subst, Bool, false, String, str_eq, str_eq_iff, List, [], ◌∷◌, ◌++◌,
  Option, none, some, if◌then◌else◌, is_none, Bool-cases, inl, inr,
}
use netsonar.Config.Types.{TargetConfig}
use netsonar.Scheduler.Diff.Named.{
  find_name, put_name, keep, Distinct, find_name-put_name, put_name-Distinct, find_name-name,
  or_else, find_name-snoc, filtered, find_name-keep,
}
use netsonar.Scheduler.Diff.{Hash, equal, to_map, Diff, diff_one, diff_new, diff_targets}

-- What `find_name n` of the three lists must be, for the old and the new target of the name n.
abbrev pub stop_of : Hash → Option TargetConfig → Option TargetConfig → Option TargetConfig
stop_of hash none new = none
stop_of hash (some o) none = some o
stop_of hash (some o) (some t) = if equal hash o t then none else some o

abbrev pub start_of : Hash → Option TargetConfig → Option TargetConfig → Option TargetConfig
start_of hash old none = none
start_of hash none (some t) = some t
start_of hash (some o) (some t) = if equal hash o t then none else some t

abbrev pub unchanged_of : Hash → Option TargetConfig → Option TargetConfig → Option TargetConfig
unchanged_of hash old none = none
unchanged_of hash none (some t) = none
unchanged_of hash (some o) (some t) = if equal hash o t then some t else none

pub to_map-Distinct : (ts m : List TargetConfig) → Distinct m → Distinct (to_map ts m)
unfolding to_map
to_map-Distinct [] m h = h
to_map-Distinct (t ∷ ts) m h = to_map-Distinct ts (put_name t m) (put_name-Distinct t m h)

-- A list of distinct names is its own map, up to the order of visits.
pub find_name-to_map :
    (n : String) (ts m : List TargetConfig)
    → Distinct ts
    → find_name n (to_map ts m) ≡ or_else (find_name n ts) (find_name n m)
unfolding to_map find_name
find_name-to_map n [] m h = refl
find_name-to_map n (t ∷ ts) m h = elim (Bool-cases (str_eq t.name n)) [
  | inl e ↦
      let gone : find_name n ts ≡ none =
        subst (λ k. find_name k ts ≡ none) ((str_eq_iff t.name n).0 e) h.0 in
      find_name-to_map n ts (put_name t m) h.1 ∙ rw (gone, e) (find_name-put_name n t m ∙ rw e)
  | inr e ↦ find_name-to_map n ts (put_name t m) h.1 ∙ rw (find_name-put_name n t m, e)
]

-- What the loop over the new map adds under one name.
abbrev changed_of : Hash → Option TargetConfig → Option TargetConfig → Option TargetConfig
changed_of hash (some o) (some t) = if equal hash o t then none else some o
changed_of hash _ _ = none

abbrev Adds : Hash → String → List TargetConfig → Option TargetConfig → Diff → Diff → Type 0
Adds hash n old new d d' =
    (find_name n d'.to_stop
      ≡ or_else (find_name n d.to_stop) (changed_of hash (find_name n old) new))
    × (find_name n d'.to_start
        ≡ or_else (find_name n d.to_start) (start_of hash (find_name n old) new))
    × (find_name n d'.unchanged
        ≡ or_else (find_name n d.unchanged) (unchanged_of hash (find_name n old) new))

or_else-none : (a : Option TargetConfig) → or_else a none ≡ a
or_else-none none = refl
or_else-none (some a) = refl

changed_of-none : (hash : Hash) (o : Option TargetConfig) → changed_of hash o none ≡ none
changed_of-none hash none = refl
changed_of-none hash (some o) = refl

-- `append` of a target under the name n, and under another name.
snoc_same :
    (n : String) (xs : List TargetConfig) (t : TargetConfig)
    → t.name ≡ n
    → find_name n (xs ++ t ∷ []) ≡ or_else (find_name n xs) (some t)
snoc_same n xs t e = find_name-snoc n xs t ∙ rw ((str_eq_iff t.name n).1 e)

pub snoc_other :
    (n : String) (xs : List TargetConfig) (t : TargetConfig)
    → str_eq t.name n ≡ false
    → find_name n (xs ++ t ∷ []) ≡ find_name n xs
snoc_other n xs t e = find_name-snoc n xs t ∙ rw e (or_else-none (find_name n xs))

module _ (hash : Hash) (n : String) (old : List TargetConfig) where
  one_same :
      (t : TargetConfig) (d : Diff) (o : Option TargetConfig)
      → t.name ≡ n
      → find_name n old ≡ o
      → ((u : TargetConfig) → o ≡ some u → u.name ≡ n)
      → Adds hash n old (some t) d (diff_one hash t o d)
  unfolding diff_one
  one_same t d none e f k =
      rw f (sym (or_else-none _), snoc_same n d.to_start t e, sym (or_else-none _))
  one_same t d (some u) e f k = elim (Bool-cases (equal hash u t)) [
    | inl s ↦ rw (f, s) (sym (or_else-none _), sym (or_else-none _), snoc_same n d.unchanged t e)
    | inr s ↦
        rw (f, s)
          (snoc_same n d.to_stop u (k u refl), snoc_same n d.to_start t e, sym (or_else-none _))
  ]

  one_other :
      (t : TargetConfig) (d : Diff) (o : Option TargetConfig)
      → str_eq t.name n ≡ false
      → ((u : TargetConfig) → o ≡ some u → u.name ≡ t.name)
      → (find_name n (diff_one hash t o d).to_stop ≡ find_name n d.to_stop)
        × (find_name n (diff_one hash t o d).to_start ≡ find_name n d.to_start)
        × (find_name n (diff_one hash t o d).unchanged ≡ find_name n d.unchanged)
  unfolding diff_one
  one_other t d none e k = (refl, snoc_other n d.to_start t e, refl)
  one_other t d (some u) e k = elim (Bool-cases (equal hash u t)) [
    | inl s ↦ rw s (refl, refl, snoc_other n d.unchanged t e)
    | inr s ↦ rw s (
      snoc_other n d.to_stop u (subst (λ m. str_eq m n ≡ false) (sym (k u refl)) e),
      snoc_other n d.to_start t e,
      refl,
    )
  ]

  diff_new-Adds :
      (new : List TargetConfig) (d : Diff)
      → Distinct new
      → Adds hash n old (find_name n new) d (diff_new hash old new d)
  unfolding diff_new find_name
  diff_new-Adds [] d h = (
    rw (changed_of-none hash (find_name n old)) (sym (or_else-none _)),
    sym (or_else-none _),
    sym (or_else-none _),
  )
  diff_new-Adds (t ∷ new) d h = elim (Bool-cases (str_eq t.name n)) [
    | inl e ↦
        let e' = (str_eq_iff t.name n).0 e in
        let gone : find_name n new ≡ none = subst (λ k. find_name k new ≡ none) e' h.0 in
        let one =
          one_same t d o e' (ap (λ k. find_name k old) (sym e'))
            (λ u f. find_name-name t.name old u f ∙ e') in
        let (a, b, c) =
          subst (λ w. Adds hash n old w d1 (diff_new hash old new d1)) gone
            (diff_new-Adds new d1 h.1) in
        rw e (
          a ∙ rw (changed_of-none hash (find_name n old)) (or_else-none _ ∙ one.0),
          b ∙ or_else-none _ ∙ one.1,
          c ∙ or_else-none _ ∙ one.2,
        )
    | inr e ↦
        let one = one_other t d o e (λ u f. find_name-name t.name old u f) in
        let (a, b, c) = diff_new-Adds new d1 h.1 in rw e (a ∙ rw one.0, b ∙ rw one.1, c ∙ rw one.2)
  ]
    where
      o : Option TargetConfig
      o = find_name t.name old

      d1 : Diff
      d1 = diff_one hash t o d

stop_total :
    (hash : Hash) (p : TargetConfig → Bool) (o new : Option TargetConfig)
    → ((u : TargetConfig) → o ≡ some u → p u ≡ is_none new)
    → or_else (filtered p o) (changed_of hash o new) ≡ stop_of hash o new
stop_total hash p none new f = refl
stop_total hash p (some o) none f = rw (f o refl)
stop_total hash p (some o) (some t) f = rw (f o refl)

self_map :
    (n : String) (ts : List TargetConfig)
    → Distinct ts
    → find_name n (to_map ts []) ≡ find_name n ts
unfolding find_name
self_map n ts h = find_name-to_map n ts [] h ∙ or_else-none _

-- For target lists with distinct names, diffTargets stops, starts and leaves under each name just
-- what the old and the new target of that name ask for: a name that is only old is stopped, one that
-- is only new is started, one whose targets hash equal is left, and any other is stopped with its
-- old target and started with its new one.
pub diff_targets-exact :
    (hash : Hash) (n : String) (old new : List TargetConfig)
    → Distinct old
    → Distinct new
    → let d = diff_targets hash old new in
      (find_name n d.to_stop ≡ stop_of hash (find_name n old) (find_name n new))
      × (find_name n d.to_start ≡ start_of hash (find_name n old) (find_name n new))
      × (find_name n d.unchanged ≡ unchanged_of hash (find_name n old) (find_name n new))
unfolding diff_targets find_name
diff_targets-exact hash n old new h k = (
  a
      ∙ rw
          (
            find_name-keep n gone (to_map old []) (to_map-Distinct old [] tt),
            self_map n old h,
            self_map n new k,
          )
          (stop_total hash gone (find_name n old) (find_name n new)
            λ u e. rw (find_name-name n old u e, self_map n new k)),
  b ∙ rw (self_map n old h, self_map n new k),
  c ∙ rw (self_map n old h, self_map n new k),
)
  where
    gone : TargetConfig → Bool
    gone t = is_none (find_name t.name (to_map new []))

    d0 : Diff
    d0 = record { to_stop = keep gone (to_map old []); to_start = []; unchanged = [] }

    added :
        Adds hash n
          (to_map old [])
          (find_name n (to_map new []))
          d0
          (diff_new hash (to_map old []) (to_map new []) d0)
    added = diff_new-Adds hash n (to_map old []) (to_map new []) d0 (to_map-Distinct new [] tt)

    open added use {«0» as a, «1» as b, «2» as c}
