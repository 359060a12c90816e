-- ===== src/Scheduler/Diff/Starts.antt =====
-- The targets that diffTargets (internal/scheduler/scheduler.go) starts have distinct names.
use netsonar.Base.{
  ◌≡◌, refl, ◌∙◌, subst, false, String, str_eq, str_eq_iff, str_eq_refl, List, [], ◌∷◌, ◌++◌,
  Option, none, some, is_none, ◌⊎◌, arith, Bool-cases, inl, inr,
}
use netsonar.Config.Types.{TargetConfig}
use netsonar.Scheduler.Diff.Named.{find_name, Distinct}
use netsonar.Scheduler.Diff.{Hash, equal, to_map, Diff, diff_one, diff_new, diff_targets}
use netsonar.Scheduler.Diff.Exact.{to_map-Distinct, snoc_other}

snoc-Distinct :
    (xs : List TargetConfig) (t : TargetConfig)
    → Distinct xs
    → find_name t.name xs ≡ none
    → Distinct (xs ++ t ∷ [])
unfolding find_name
snoc-Distinct [] t h k = (refl, tt)
snoc-Distinct (x ∷ xs) t h k = elim (Bool-cases (str_eq x.name t.name)) [
  | inl e ↦ absurd (cc (k, e))
  | inr e ↦
      let other : str_eq t.name x.name ≡ false =
        ground (arith, str_eq_iff t.name x.name, str_eq_iff x.name t.name) in
      (snoc_other x.name xs t other ∙ h.0, snoc-Distinct xs t h.1 (ground arith))
]

-- The names still to be visited are not in the list yet.
abbrev Ahead : List TargetConfig → List TargetConfig → Type 0
Ahead new started = (n : String) → is_none (find_name n new) ≡ false → find_name n started ≡ none

diff_one-to_start :
    (hash : Hash) (t : TargetConfig) (o : Option TargetConfig) (d : Diff)
    → ((diff_one hash t o d).to_start ≡ d.to_start)
      ⊎ ((diff_one hash t o d).to_start ≡ d.to_start ++ t ∷ [])
unfolding diff_one
diff_one-to_start hash t none d = inr refl
diff_one-to_start hash t (some u) d = elim (Bool-cases (equal hash u t)) [
  | inl s ↦ rw s (inl refl)
  | inr s ↦ rw s (inr refl)
]

-- Adding the next target keeps the names apart.
Ahead-step :
    (t : TargetConfig) (new started started' : List TargetConfig)
    → Distinct (t ∷ new)
    → Distinct started
    → Ahead (t ∷ new) started
    → ((started' ≡ started) ⊎ (started' ≡ started ++ t ∷ []))
    → Distinct started' × Ahead new started'
unfolding find_name
Ahead-step t new started started' h k a (inl e) = rw e (k, λ n m. a n (ground arith))
Ahead-step t new started started' h k a (inr e) = rw e (
  snoc-Distinct started t k (a t.name (ground (arith, str_eq_refl t.name))),
  λ n m. elim (Bool-cases (str_eq t.name n)) [
    | inl q ↦
        let gone : find_name n new ≡ none =
          subst (λ i. find_name i new ≡ none) ((str_eq_iff t.name n).0 q) h.0 in
        absurd (ground arith)
    | inr q ↦ snoc_other n started t q ∙ a n (ground arith)
  ],
)

diff_new-Distinct :
    (hash : Hash) (old new : List TargetConfig) (d : Diff)
    → Distinct new
    → Distinct d.to_start
    → Ahead new d.to_start
    → Distinct (diff_new hash old new d).to_start
unfolding diff_new
diff_new-Distinct hash old [] d h k a = k
diff_new-Distinct hash old (t ∷ new) d h k a =
    let o = find_name t.name old in
    let (k', a') = Ahead-step t new d.to_start _ h k a (diff_one-to_start hash t o d) in
    diff_new-Distinct hash old new (diff_one hash t o d) h.1 k' a'

pub diff_targets-Distinct :
    (hash : Hash) (old new : List TargetConfig) → Distinct (diff_targets hash old new).to_start
unfolding diff_targets find_name
diff_targets-Distinct hash old new =
    diff_new-Distinct hash (to_map old []) (to_map new []) _ (to_map-Distinct new [] tt) tt
      (λ n h. refl)
