-- ===== src/Probe/Mtu/Classify/Average.antt =====
-- avgRTT of internal/probe/mtu.go lies between the samples, as long as their sum fits 64 bits.
use netsonar.Base.{ℕ, ◌+◌, ◌*◌, ◌^◌, ◌≤◌, ◌<◌, ◌≡◌, refl, List, [], ◌∷◌, arith, All, length}
use netsonar.Base.Int.{ℤ, pos, negsuc, add64_pos, quot, ◌≤ℤ◌}
use netsonar.Probe.Mtu.Classify.{sum_rtt, avg_rtt}

-- A sample between two bounds.
abbrev pub Within : ℕ → ℕ → ℤ → Type 0
Within lo hi z = (pos lo ≤ℤ z) × (z ≤ℤ pos hi)

sum_rtt_bounds :
    (lo hi t : ℕ) (samples : List ℤ)
    → All (Within lo hi) samples
    → t + length samples * hi < 2 ^ 63
    → (n : ℕ) × (sum_rtt (pos t) samples ≡ pos n)
      × (t + length samples * lo ≤ n)
      × (n ≤ t + length samples * hi)
unfolding sum_rtt
sum_rtt_bounds lo hi t [] h f = (t, refl, omega arith, omega arith)
sum_rtt_bounds lo hi t (negsuc n ∷ samples) h f = absurd (omega arith)
sum_rtt_bounds lo hi t (pos s ∷ samples) h f =
    let (n, e, below, above) = sum_rtt_bounds lo hi (t + s) samples h.1 (omega arith) in
    (n, rw (add64_pos t s (omega arith)) e, omega arith, omega arith)

-- The average of samples between `lo` and `hi` lies between them, if the largest sum that they can
-- have stays below 2^63.
pub avg_rtt_bounds :
    (lo hi : ℕ) (s : ℤ) (samples : List ℤ)
    → All (Within lo hi) (s ∷ samples)
    → length (s ∷ samples) * hi < 2 ^ 63
    → Within lo hi (avg_rtt (s ∷ samples))
unfolding avg_rtt quot
avg_rtt_bounds lo hi s samples h f =
    let (n, e, below, above) = sum_rtt_bounds lo hi 0 (s ∷ samples) h (omega arith) in
    rw e (grind arith, grind arith)
