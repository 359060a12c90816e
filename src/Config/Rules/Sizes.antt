-- ===== src/Config/Rules/Sizes.antt =====
-- What validateICMPPayloadSizes (internal/config/config.go) guarantees.
use netsonar.Base.{◌≡◌, false, List, [], ◌∷◌, arith, All, any}
use netsonar.Base.Int.{ℤ, pos, add64, leb_ℤ, ◌≤ℤ◌, ◌<ℤ◌}
use netsonar.Config.Types.{TargetConfig}
use netsonar.Config.Checks.{ok, reject_if-ok}
use netsonar.Config.Rules.{not_descending, mtu_limits, sizes_checks, validate_icmp_payload_sizes}

abbrev pub Descending : List ℤ → Type 0
Descending [] = Unit
Descending (a ∷ []) = Unit
Descending (a ∷ (b ∷ rest)) = (b <ℤ a) × Descending (b ∷ rest)

not_descending-Descending : (sizes : List ℤ) → not_descending sizes ≡ false → Descending sizes
unfolding not_descending
not_descending-Descending [] h = tt
not_descending-Descending (a ∷ []) h = tt
not_descending-Descending (a ∷ (b ∷ rest)) h =
    (ground arith, not_descending-Descending (b ∷ rest) (ground arith))

positive : (sizes : List ℤ) → any (λ s. leb_ℤ s (pos 0)) sizes ≡ false → All (λ s. pos 0 <ℤ s) sizes
positive [] h = tt
positive (a ∷ sizes) h = (ground arith, positive sizes (ground arith))

-- The sizes can be stepped down through, and the expectation can be met.
abbrev pub IsProbable : TargetConfig → List ℤ → Type 0
IsProbable t [] = ⊥
IsProbable t (largest ∷ sizes) =
    Descending (largest ∷ sizes)
    × All (λ s. pos 0 <ℤ s) (largest ∷ sizes)
    × (pos 0 <ℤ t.probe_opts.expected_min_mtu)
    × (t.probe_opts.expected_min_mtu ≤ℤ add64 largest (pos 28))
    × (pos 1 ≤ℤ t.probe_opts.mtu_retries)
    × (pos 0 <ℤ t.probe_opts.mtu_per_attempt_timeout)
    × (t.probe_opts.mtu_per_attempt_timeout ≤ℤ t.timeout)

mtu_limits-ok :
    (t : TargetConfig) (largest : ℤ)
    → mtu_limits t largest ≡ ok tt
    → (pos 0 <ℤ t.probe_opts.expected_min_mtu)
      × (t.probe_opts.expected_min_mtu ≤ℤ add64 largest (pos 28))
      × (pos 1 ≤ℤ t.probe_opts.mtu_retries)
      × (pos 0 <ℤ t.probe_opts.mtu_per_attempt_timeout)
      × (t.probe_opts.mtu_per_attempt_timeout ≤ℤ t.timeout)
unfolding mtu_limits
mtu_limits-ok t largest h = ground arith

sizes_checks-ok :
    (t : TargetConfig) (sizes : List ℤ) → sizes_checks t sizes ≡ ok tt → IsProbable t sizes
unfolding sizes_checks
sizes_checks-ok t [] h = absurd (cc h)
sizes_checks-ok t (largest ∷ sizes) h =
    let (d, h1) = reject_if-ok (not_descending (largest ∷ sizes)) _ _ h in
    let (p, h2) = reject_if-ok (any (λ s. leb_ℤ s (pos 0)) (largest ∷ sizes)) _ _ h1 in
    let limits = mtu_limits-ok t largest h2 in
    (
      not_descending-Descending (largest ∷ sizes) d,
      positive (largest ∷ sizes) p,
      limits.0,
      limits.1,
      limits.2,
      limits.3,
      limits.4,
    )

-- An MTU target that passes has payload sizes that are positive and strictly descending, an expected
-- minimum that is positive and no larger than the largest size plus 28, at least one retry, and a
-- positive timeout for one attempt that is no longer than the target's.
pub validate_icmp_payload_sizes-ok :
    (t : TargetConfig)
    → validate_icmp_payload_sizes t ≡ ok tt
    → IsProbable t t.probe_opts.icmp_payload_sizes
unfolding validate_icmp_payload_sizes
validate_icmp_payload_sizes-ok t h = sizes_checks-ok t t.probe_opts.icmp_payload_sizes h
