-- ===== src/Probe/TlsCert/Expiry.antt =====
-- The expiry that setTLSCertificateResult of internal/probe/tls_cert.go finds in a chain.
use netsonar.Base.{◌≡◌, refl, ◌∙◌, ◌⊎◌, inl, inr, true, List, [], ◌∷◌, All, arith, Bool-cases}
use netsonar.Base.Int.{ℤ, ltb_ℤ, ◌≤ℤ◌}
use netsonar.Probe.Result.{ProbeResult, Certificate}
use netsonar.Probe.TlsCert.{earlier, earliest_expiry, set_tls_certificate_result}

-- A certificate of the list expires then.
abbrev pub ExpiresAt : ℤ → List Certificate → Type 0
ExpiresAt t [] = ⊥
ExpiresAt t (c ∷ cs) = (t ≡ c.not_after) ⊎ ExpiresAt t cs

-- The first of the expiries.
abbrev pub IsEarliest : ℤ → List Certificate → Type 0
IsEarliest t cs = ExpiresAt t cs × All (λ c. t ≤ℤ c.not_after) cs

le_trans : (a b c : ℤ) → a ≤ℤ b → b ≤ℤ c → a ≤ℤ c
le_trans a b c h k = omega arith

earlier-le : (e t : ℤ) → (earlier e t ≤ℤ e) × (earlier e t ≤ℤ t)
earlier-le e t = (ground arith, ground arith)

earlier_cases : (e t : ℤ) → (earlier e t ≡ e) ⊎ (earlier e t ≡ t)
earlier_cases e t = elim (Bool-cases (ltb_ℤ t e)) [ inl h ↦ inr (rw h) | inr h ↦ inl (rw h) ]

earliest_expiry-le : (e : ℤ) (cs : List Certificate) → earliest_expiry e cs ≤ℤ e
unfolding earliest_expiry
earliest_expiry-le e [] = omega arith
earliest_expiry-le e (c ∷ cs) =
    le_trans (earliest_expiry e (c ∷ cs)) (earlier e c.not_after) e
      (earliest_expiry-le (earlier e c.not_after) cs) (earlier-le e c.not_after).0

earliest_expiry-All :
    (e : ℤ) (cs : List Certificate) → All (λ c. earliest_expiry e cs ≤ℤ c.not_after) cs
unfolding earliest_expiry
earliest_expiry-All e [] = tt
earliest_expiry-All e (c ∷ cs) =
    let m = earlier e c.not_after in
    (
      le_trans (earliest_expiry e (c ∷ cs)) m c.not_after (earliest_expiry-le m cs)
          (earlier-le e c.not_after).1,
      earliest_expiry-All m cs,
    )

earliest_expiry-ExpiresAt :
    (e : ℤ) (cs : List Certificate)
    → (earliest_expiry e cs ≡ e) ⊎ ExpiresAt (earliest_expiry e cs) cs
unfolding earliest_expiry
earliest_expiry-ExpiresAt e [] = inl refl
earliest_expiry-ExpiresAt e (c ∷ cs) = elim (earliest_expiry-ExpiresAt (earlier e c.not_after) cs) [
  | inl k ↦ elim (earlier_cases e c.not_after) [ inl q ↦ inl (k ∙ q) | inr q ↦ inr (inl (k ∙ q)) ]
  | inr k ↦ inr (inr k)
]

-- The expiry that is reported of a chain with a certificate is that of one of its certificates, and none
-- expires before.
pub set_tls_certificate_result-IsEarliest :
    (r : ProbeResult) (c : Certificate) (cs : List Certificate)
    → let r' = set_tls_certificate_result r (c ∷ cs) in
      (r'.cert_observed ≡ true) × IsEarliest r'.cert_expiry (c ∷ cs)
unfolding set_tls_certificate_result
set_tls_certificate_result-IsEarliest r c cs = (
  refl,
  (
    earliest_expiry-ExpiresAt c.not_after cs,
    (earliest_expiry-le c.not_after cs, earliest_expiry-All c.not_after cs),
  ),
)
