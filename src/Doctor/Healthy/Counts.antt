-- ===== src/Doctor/Healthy/Counts.antt =====
-- The counts that internal/doctor/doctor.go makes, and whether there is anything to count.
use mathlib.Core.Bool.{false≢true}
use netsonar.Base.{
  ℕ, ◌≡◌, refl, sym, subst, ◌∙◌, Bool, true, false, ◌&&◌, ◌||◌, not, String, str_eq, str_eq_iff,
  is_blank, List, [], ◌∷◌, ltb, ◌==◌, any, arith, Bool-cases, inl, inr,
}
use netsonar.Base.Int.{ℤ, leb_ℤ, eq_ℤ}
use netsonar.Config.Types.{ProbeType, dns, probe_type_text, TargetConfig}
use netsonar.Doctor.Parse.{has_type, count_dns_targets, int_mem, any_gid_in_range, unique_ints}
use netsonar.Doctor.Parse.Unique.{unique_ints-IsAscending, eq_ℤ-eq}
use netsonar.Doctor.Parse.Range.{any_gid_in_range_iff}
use netsonar.Doctor.{count_of, count_targets, increment}

-- A test that one of two lists of the same values meets is met by the other.
any-witness :
    (p : ℤ → Bool) (xs : List ℤ) → any p xs ≡ true → (x : ℤ) × (int_mem x xs ≡ true) × (p x ≡ true)
any-witness p [] h = absurd (cc)
any-witness p (x ∷ xs) h = elim (Bool-cases (p x)) [
  | inl b ↦ (x, ground arith, b)
  | inr b ↦
      let (y, m, q) = any-witness p xs (ground arith) in
      (y, elim (Bool-cases (eq_ℤ y x)) [ inl e ↦ rw e refl | inr e ↦ rw e m ], q)
]

any-mem : (p : ℤ → Bool) (x : ℤ) (xs : List ℤ) → int_mem x xs ≡ true → p x ≡ true → any p xs ≡ true
any-mem p x [] m h = absurd (cc)
any-mem p x (y ∷ xs) m h = elim (Bool-cases (eq_ℤ x y)) [
  | inl e ↦ rw (subst (λ z. p z ≡ true) (eq_ℤ-eq x y e) h) refl
  | inr e ↦ rw (any-mem p x xs (ground arith) h) (or_true (p y))
]
  where
    or_true : (b : Bool) → (b || true) ≡ true
    or_true true = refl
    or_true false = refl

any-same :
    (p : ℤ → Bool) (xs ys : List ℤ) → ((x : ℤ) → int_mem x xs ≡ int_mem x ys) → any p xs ≡ any p ys
any-same p xs ys h = elim (Bool-cases (any p xs)) [
  | inl b ↦ let (x, m, q) = any-witness p xs b in b ∙ sym (any-mem p x ys (sym (h x) ∙ m) q)
  | inr b ↦ elim (Bool-cases (any p ys)) [
    | inr c ↦ b ∙ sym c
    | inl c ↦
        let (x, m, q) = any-witness p ys c in
        absurd (false≢true (sym b ∙ any-mem p x xs (h x ∙ m) q))
  ]
]

pub any_gid_unique :
    (gids : List ℤ) (start end : ℤ)
    → any_gid_in_range (unique_ints gids) start end ≡ any (λ g. leb_ℤ start g && leb_ℤ g end) gids
any_gid_unique gids start end =
    any_gid_in_range_iff (unique_ints gids) start end
    ∙ any-same (λ g. leb_ℤ start g && leb_ℤ g end) (unique_ints gids) gids
        ((unique_ints-IsAscending gids).1)

-- A type is counted at all exactly if a target has it.
count_of-increment :
    (j k : String) (m : List (String × ℕ))
    → (count_of k (increment j m) == 0) ≡ (not (str_eq j k) && (count_of k m == 0))
unfolding count_of increment
count_of-increment j k [] = ground arith
count_of-increment j k ((i, n) ∷ m) =
    ground (arith, str_eq_iff i j, str_eq_iff i k, str_eq_iff j k, count_of-increment j k m)

count_of-targets :
    (p : ProbeType) (targets : List TargetConfig) (m : List (String × ℕ))
    → (count_of (probe_type_text p) (count_targets targets m) == 0)
      ≡ (not (any (has_type p) targets) && (count_of (probe_type_text p) m == 0))
unfolding count_targets has_type
count_of-targets p [] m = refl
count_of-targets p (t ∷ targets) m = ground (
  arith,
  count_of-targets p targets (increment (probe_type_text t.probe_type) m),
  count_of-increment (probe_type_text t.probe_type) (probe_type_text p) m,
)

pub count_of-any :
    (p : ProbeType) (targets : List TargetConfig)
    → (count_of (probe_type_text p) (count_targets targets []) == 0)
      ≡ not (any (has_type p) targets)
unfolding count_of
count_of-any p targets = count_of-targets p targets [] ∙ and_true (not (any (has_type p) targets))
  where
    and_true : (b : Bool) → (b && true) ≡ b
    and_true true = refl
    and_true false = refl

-- There is a DNS target, and one without its own server.
pub count_dns-any :
    (targets : List TargetConfig)
    → (((count_dns_targets targets).0 == 0) ≡ not (any (has_type dns) targets))
      × (ltb 0 (count_dns_targets targets).1
          ≡ any (λ t. has_type dns t && is_blank t.probe_opts.dns_server) targets)
unfolding count_dns_targets
count_dns-any [] = (refl, refl)
count_dns-any (t ∷ targets) =
    let (z, w) = count_dns-any targets in
    elim (Bool-cases (has_type dns t)) [
      | inr n ↦ rw n (z, w)
      | inl y ↦ elim (Bool-cases (is_blank t.probe_opts.dns_server)) [
        | inl b ↦ rw y (rw b (ground arith, ground arith))
        | inr b ↦ rw y (rw b (ground arith, w))
      ]
    ]
