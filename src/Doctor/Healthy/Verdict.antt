-- ===== src/Doctor/Healthy/Verdict.antt =====
-- How the checks of internal/doctor/doctor.go bear on OK.
use netsonar.Base.{
  ◌≡◌, refl, sym, ap, ◌∙◌, Bool, true, false, ◌&&◌, ◌||◌, not, String, List, [], ◌∷◌, ◌++◌, any,
  arith, Bool-cases, inl, inr,
}
use netsonar.Config.Types.{ProbeType, TargetConfig}
use netsonar.Doctor.Parse.{has_type}
use netsonar.Doctor.{Check, Severity, Result, add, is_fail, all_ok}

-- One result after another, with a verdict on what lies between.
pub record Adds (r : Result) (b : Bool) (s : Result) : Type 0 where
  pub judged : all_ok s.checks ≡ (all_ok r.checks && b)
  pub counted : s.target_counts ≡ r.target_counts

pub all_ok-append : (cs ds : List Check) → all_ok (cs ++ ds) ≡ (all_ok cs && all_ok ds)
unfolding all_ok
all_ok-append [] ds = refl
all_ok-append (c ∷ cs) ds = ground (arith, all_ok-append cs ds)

pub all_ok_one : (c : Check) → all_ok (c ∷ []) ≡ not (is_fail c.severity)
unfolding all_ok
all_ok_one c = ground arith

pub and_assoc : (a b c : Bool) → ((a && b) && c) ≡ (a && (b && c))
and_assoc true b c = refl
and_assoc false b c = refl

pub and_true : (b : Bool) → (b && true) ≡ b
and_true true = refl
and_true false = refl

pub and_false : (b : Bool) → (b && false) ≡ false
and_false true = refl
and_false false = refl

pub or_true : (b : Bool) → (b || true) ≡ true
or_true true = refl
or_true false = refl

pub or_false : (b : Bool) → (b || false) ≡ b
or_false true = refl
or_false false = refl

-- No target of a type, so none of it with more.
pub no_part :
    (p : ProbeType) (f : TargetConfig → Bool) (targets : List TargetConfig)
    → not (any (has_type p) targets) ≡ true
    → any (λ t. has_type p t && f t) targets ≡ false
no_part p f [] h = refl
no_part p f (t ∷ targets) h = elim (Bool-cases (has_type p t)) [
  | inl b ↦ absurd (ground arith)
  | inr b ↦ rw b (no_part p f targets (ground arith))
]

pub add-Adds :
    (r : Result) (section name : String) (s : Severity) (detail hint : String)
    → Adds r (not (is_fail s)) (add r section name s detail hint)
unfolding add
add-Adds r section name s detail hint = record {
  judged = all_ok-append r.checks _ ∙ ap (λ b. all_ok r.checks && b) (all_ok_one _);
  counted = refl;
}

pub Adds-trans : {r s t : Result} {a b : Bool} → Adds r a s → Adds s b t → Adds r (a && b) t
Adds-trans {r} {s} {t} {a} {b} h k = record {
  judged = k.judged ∙ ap (λ c. c && b) h.judged ∙ and_assoc (all_ok r.checks) a b;
  counted = k.counted ∙ h.counted;
}

-- The same verdict in other words.
pub and_verdict : {r s : Result} {a b : Bool} → Adds r a s → a ≡ b → Adds r b s
and_verdict {r} h e = record {
  judged = h.judged ∙ ap (λ c. all_ok r.checks && c) e;
  counted = h.counted;
}

-- A result that nothing was said of.
pub Adds-none : (r : Result) → Adds r true r
Adds-none r = record { judged = sym (and_true (all_ok r.checks)); counted = refl }
