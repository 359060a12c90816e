-- ===== src/Probe/Dial/Families.antt =====
-- splitDialFamilies of internal/probe/prober.go.
use mathlib.Core.List.{Perm, perm_middle, append-nil, perm_append_comm}
use mathlib.Core.List.Perm
use netsonar.Base.{
  ◌≡◌, refl, sym, subst, ◌⊎◌, inl, inr, ap, Bool, true, false, not, ◌||◌, String, List, [], ◌∷◌,
  ◌++◌, if◌then◌else◌, is_empty, All, Bool-cases, arith,
}
use netsonar.Probe.Sockets.{Sockets}
use netsonar.Probe.Dial.{filter_by, is_ipv6_target, first_is_ipv6, split_dial_families}

module _ (p : String → Bool) where
  filter_by-perm : (ts : List String) → Perm (filter_by (λ t. not (p t)) ts ++ filter_by p ts) ts
  unfolding filter_by
  filter_by-perm [] = Perm.nil
  filter_by-perm (t ∷ ts) = elim (Bool-cases (p t)) [
    | inl e ↦ rw e (
        Perm.trans (perm_middle (filter_by (λ u. not (p u)) ts) (filter_by p ts))
          (Perm.cons t (filter_by-perm ts)))
    | inr e ↦ rw e (Perm.cons t (filter_by-perm ts))
  ]

  filter_by-All : (ts : List String) → All (λ t. p t ≡ true) (filter_by p ts)
  unfolding filter_by
  filter_by-All [] = tt
  filter_by-All (t ∷ ts) = ground (arith, filter_by-All ts)

filter_by-not :
    (p : String → Bool) (ts : List String) → All (λ t. p t ≡ false) (filter_by (λ t. not (p t)) ts)
unfolding filter_by
filter_by-not p [] = tt
filter_by-not p (t ∷ ts) = ground (arith, filter_by-not p ts)

-- The split of a list of targets: all of them go to the primary, or the primary has the family of the
-- first and the fallback the other.
abbrev pub IsSplit : {W : Type 0} → Sockets W → List String → List String × List String → Type 0
IsSplit net targets (primary, fallback) =
    Perm (primary ++ fallback) targets
    × ((targets ≡ primary) × (fallback ≡ [])
        ⊎ (All (λ t. is_ipv6_target net t ≡ first_is_ipv6 net targets) primary
            × All (λ t. is_ipv6_target net t ≡ not (first_is_ipv6 net targets)) fallback
            × (is_empty primary ≡ false)))

||_none : (a b : Bool) → (a || b) ≡ false → (a ≡ false) × (b ≡ false)
||_none true b h = absurd (cc)
||_none false b h = (refl, h)

-- The choice between the families once they are told apart, with `six` for the family of the first.
choice-IsSplit :
    {W : Type 0} (net : Sockets W) (targets v4 v6 : List String) (six : Bool)
    → first_is_ipv6 net targets ≡ six
    → Perm (v4 ++ v6) targets
    → All (λ t. is_ipv6_target net t ≡ false) v4
    → All (λ t. is_ipv6_target net t ≡ true) v6
    → (is_empty v4 || is_empty v6) ≡ false
    → IsSplit net targets (if six then (v6, v4) else (v4, v6))
choice-IsSplit net targets v4 v6 true e p a4 a6 h =
    (Perm.trans (perm_append_comm v6 v4) p, inr (rw e a6, rw e a4, (||_none _ _ h).1))
choice-IsSplit net targets v4 v6 false e p a4 a6 h = (p, inr (rw e a4, rw e a6, (||_none _ _ h).0))

-- The targets go to the two lists with none lost or doubled. Either all go to the primary, in their
-- order, or the primary is not empty and has the targets of the family of the first one, and the fallback
-- those of the other.
pub split_dial_families-IsSplit :
    {W : Type 0} (net : Sockets W) (targets : List String)
    → IsSplit net targets (split_dial_families net targets)
unfolding split_dial_families
split_dial_families-IsSplit net targets =
    let v4 = filter_by (λ t. not (is_ipv6_target net t)) targets in
    let v6 = filter_by (is_ipv6_target net) targets in
    elim (Bool-cases (is_empty v4 || is_empty v6)) [
      | inl e ↦ rw e (
        subst (λ ts. Perm ts targets) (sym (append-nil targets)) (Perm.refl targets),
        inl (refl, refl),
      )
      | inr e ↦ rw e (
          choice-IsSplit net targets v4 v6 _ refl (filter_by-perm (is_ipv6_target net) targets)
            (filter_by-not (is_ipv6_target net) targets)
            (filter_by-All (is_ipv6_target net) targets) e)
    ]

-- There is something to dial first.
pub split_dial_families-primary :
    {W : Type 0} (net : Sockets W) (t : String) (ts : List String)
    → is_empty (split_dial_families net (t ∷ ts)).0 ≡ false
split_dial_families-primary net t ts = elim (split_dial_families-IsSplit net (t ∷ ts)).1 [
  | inl (e, _) ↦ ap is_empty (sym e)
  | inr (_, _, h) ↦ h
]
