-- ===== src/Doctor/Parse/Unique.antt =====
-- uniqueInts of internal/doctor/doctor.go gives the values once each, ascending.
use mathlib.Core.Bool.{false≢true}
use netsonar.Base.{
  ◌≡◌, refl, sym, ap, ◌∙◌, Bool, true, false, ◌||◌, List, [], ◌∷◌, arith, All, All-mono, subst,
  Bool-cases, inl, inr,
}
use netsonar.Base.Int.{ℤ, pos, negsuc, eq_ℤ, leb_ℤ, ◌<ℤ◌}
use netsonar.Doctor.Parse.{int_mem, drop_seen, insert_int, sort_ints, unique_ints}

-- Strictly ascending.
abbrev pub IsAscending : List ℤ → Type 0
IsAscending [] = Unit
IsAscending (v ∷ vs) = All (λ w. v <ℤ w) vs × IsAscending vs

insert_int-mem : (x v : ℤ) (ws : List ℤ) → int_mem x (insert_int v ws) ≡ (eq_ℤ x v || int_mem x ws)
unfolding insert_int
insert_int-mem x v [] = refl
insert_int-mem x v (w ∷ ws) = ground (arith, insert_int-mem x v ws)

sort_ints-mem : (x : ℤ) (vs : List ℤ) → int_mem x (sort_ints vs) ≡ int_mem x vs
unfolding sort_ints
sort_ints-mem x [] = refl
sort_ints-mem x (v ∷ vs) =
    insert_int-mem x v (sort_ints vs) ∙ ap (λ b. eq_ℤ x v || b) (sort_ints-mem x vs)

pub eq_ℤ-eq : (x v : ℤ) → eq_ℤ x v ≡ true → x ≡ v
eq_ℤ-eq (pos x) (pos v) h = ground arith
eq_ℤ-eq (pos x) (negsuc v) h = absurd (ground arith)
eq_ℤ-eq (negsuc x) (pos v) h = absurd (ground arith)
eq_ℤ-eq (negsuc x) (negsuc v) h = ground arith

int_mem-of_eq :
    (x v : ℤ) (seen : List ℤ) → eq_ℤ x v ≡ true → int_mem v seen ≡ true → int_mem x seen ≡ true
int_mem-of_eq x v seen h k = rw (eq_ℤ-eq x v h) k

or_false : (b : Bool) → (b || false) ≡ b
or_false true = refl
or_false false = refl

or_true : (b : Bool) → (b || true) ≡ true
or_true true = refl
or_true false = refl

-- What holds of the rest with a head put aside holds with it.
or_moves : (e d v s : Bool) → (d || (e || s)) ≡ (v || (e || s)) → ((e || d) || s) ≡ ((e || v) || s)
or_moves true d v s h = refl
or_moves false d v s h = h

or_absorbs : (a b c : Bool) → (a ≡ true → c ≡ true) → (b || c) ≡ ((a || b) || c)
or_absorbs true b c h = rw (h refl) (or_true b)
or_absorbs false b c h = refl

drop_seen-mem :
    (x : ℤ) (seen vs : List ℤ)
    → (int_mem x (drop_seen seen vs) || int_mem x seen) ≡ (int_mem x vs || int_mem x seen)
unfolding drop_seen
drop_seen-mem x seen [] = refl
drop_seen-mem x seen (v ∷ vs) = elim (Bool-cases (int_mem v seen)) [
  | inl b ↦ rw b (
      drop_seen-mem x seen vs
      ∙ or_absorbs (eq_ℤ x v) (int_mem x vs) (int_mem x seen) (λ e. int_mem-of_eq x v seen e b))
  | inr b ↦ rw b (
      or_moves (eq_ℤ x v) (int_mem x (drop_seen (v ∷ seen) vs)) (int_mem x vs) (int_mem x seen)
        (drop_seen-mem x (v ∷ seen) vs))
]

-- No value stands twice.
abbrev IsDistinct : List ℤ → Type 0
IsDistinct [] = Unit
IsDistinct (v ∷ vs) = (int_mem v vs ≡ false) × IsDistinct vs

drop_seen-fresh :
    (x : ℤ) (seen vs : List ℤ) → int_mem x seen ≡ true → int_mem x (drop_seen seen vs) ≡ false
unfolding drop_seen
drop_seen-fresh x seen [] h = refl
drop_seen-fresh x seen (v ∷ vs) h = elim (Bool-cases (int_mem v seen)) [
  | inl b ↦ rw b (drop_seen-fresh x seen vs h)
  | inr b ↦ elim (Bool-cases (eq_ℤ x v)) [
    | inl e ↦ absurd (false≢true (sym b ∙ subst (λ y. int_mem y seen ≡ true) (eq_ℤ-eq x v e) h))
    | inr e ↦ rw b (rw e (drop_seen-fresh x (v ∷ seen) vs (rw e h)))
  ]
]

eq_ℤ_refl : (v : ℤ) → eq_ℤ v v ≡ true
eq_ℤ_refl v = ground arith

drop_seen-IsDistinct : (seen vs : List ℤ) → IsDistinct (drop_seen seen vs)
unfolding drop_seen
drop_seen-IsDistinct seen [] = tt
drop_seen-IsDistinct seen (v ∷ vs) = elim (Bool-cases (int_mem v seen)) [
  | inl b ↦ rw b (drop_seen-IsDistinct seen vs)
  | inr b ↦
      rw b (
        drop_seen-fresh v (v ∷ seen) vs (rw (eq_ℤ_refl v) refl),
        drop_seen-IsDistinct (v ∷ seen) vs,
      )
]

insert_int-All : (P : ℤ → Type 0) (v : ℤ) (ws : List ℤ) → P v → All P ws → All P (insert_int v ws)
unfolding insert_int
insert_int-All P v [] p h = (p, tt)
insert_int-All P v (w ∷ ws) p h = elim (Bool-cases (leb_ℤ v w)) [
  | inl b ↦ rw b (p, (h.0, h.1))
  | inr b ↦ rw b (h.0, insert_int-All P v ws p h.1)
]

insert_int-IsAscending :
    (v : ℤ) (ws : List ℤ) → int_mem v ws ≡ false → IsAscending ws → IsAscending (insert_int v ws)
unfolding insert_int
insert_int-IsAscending v [] n h = (tt, tt)
insert_int-IsAscending v (w ∷ ws) n h = elim (Bool-cases (leb_ℤ v w)) [
  | inl b ↦
      let lt : v <ℤ w = ground arith in
      rw b ((lt, All-mono (λ x. w <ℤ x) (λ x. v <ℤ x) ws (λ x q. omega arith) h.0), (h.0, h.1))
  | inr b ↦ rw b (
    insert_int-All (λ x. w <ℤ x) v ws (ground arith) h.0,
    insert_int-IsAscending v ws (ground arith) h.1,
  )
]

sort_ints-IsAscending : (vs : List ℤ) → IsDistinct vs → IsAscending (sort_ints vs)
unfolding sort_ints
sort_ints-IsAscending [] d = tt
sort_ints-IsAscending (v ∷ vs) d =
    insert_int-IsAscending v (sort_ints vs) (sort_ints-mem v vs ∙ d.0)
      (sort_ints-IsAscending vs d.1)

-- The values of a list once each, in strictly ascending order: none is lost and none is added.
pub unique_ints-IsAscending :
    (vs : List ℤ)
    → IsAscending (unique_ints vs) × ((x : ℤ) → int_mem x (unique_ints vs) ≡ int_mem x vs)
unfolding unique_ints
unique_ints-IsAscending vs = (
  sort_ints-IsAscending (drop_seen [] vs) (drop_seen-IsDistinct [] vs),
  λ x.
      sort_ints-mem x (drop_seen [] vs)
      ∙ (sym (or_false (int_mem x (drop_seen [] vs)))
          ∙ (drop_seen-mem x [] vs ∙ or_false (int_mem x vs))),
)
