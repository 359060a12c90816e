-- ===== src/Tests/Probe.antt =====
-- The MTU probe over a path of 1400 bytes.
use netsonar.Base.{ℕ, ◌≡◌, refl, suc, List, [], ◌∷◌, none, some, if◌then◌else◌, arith}
use netsonar.Base.Int.{ℤ, pos, leb_ℤ, add64, ◌+ℤ◌, wrap64}
use netsonar.Probe.Resolve.{ipv4, Env}
use netsonar.Probe.Mtu.Classify.{
  MtuPayloadResult, MtuPayloadStatus, success, too_large, classify_payload_attempts, avg_rtt,
}
use netsonar.Probe.Mtu.Classify.Priority.{classify_payload_attempts-IsBest, IsBest}
use netsonar.Probe.Mtu.Classify.Average.{avg_rtt_bounds, Within}
use netsonar.Probe.Mtu.Run.{probe}
use netsonar.Probe.Mtu.Run.Attempts.{Backend}
use netsonar.Probe.Mtu.Run.Largest.{probe-first_success}
use netsonar.Probe.Mtu.Run.Steady.{Same}
use netsonar.Probe.Mtu.Run.Outcome.{probe-IsReported, IsReported}
use netsonar.Tests.Samples.{path}

-- The world counts the looks at the clock; every address is numeric.
abbrev pub env : Env ℕ
env = record {
  ctx_err = λ w. (none, w);
  now = λ w. (pos w, suc w);
  parse_ip = λ s. some (ipv4 s);
  lookup_ip4 = λ r s w. ((none, "no such host"), w);
}

abbrev reply : ℤ → MtuPayloadResult
reply size = record { status = success; payload_size = size; rtt = pos 900_000; err = none }

abbrev refusal : ℤ → MtuPayloadResult
refusal size = record { status = too_large; payload_size = size; rtt = pos 0; err = none }

abbrev narrow_path : Backend ℕ
narrow_path = record {
  probe_small_echo = λ d dst size seq w. (reply size, w);
  probe_payload_with_df =
      λ d dst size seq w. (if leb_ℤ size (pos 1372) then reply size else refusal size, w);
}

probe-IsReported_example : IsReported (pos 1400) (probe env narrow_path none path 0).0
probe-IsReported_example = probe-IsReported env narrow_path none path 0

-- Two attempts of one size.
abbrev attempts : List MtuPayloadResult
attempts = refusal (pos 1472) ∷ (reply (pos 1472) ∷ [])

classify_payload_attempts-IsBest_example : IsBest attempts (classify_payload_attempts attempts)
classify_payload_attempts-IsBest_example = classify_payload_attempts-IsBest attempts

avg_rtt_bounds_example : Within 2 9 (avg_rtt (pos 2 ∷ (pos 9 ∷ [])))
avg_rtt_bounds_example =
    avg_rtt_bounds 2 9 (pos 2) (pos 9 ∷ [])
      ((omega arith, omega arith), ((omega arith, omega arith), tt)) (omega arith)

-- Sizes up to 1372 get through.
abbrev narrow : ℤ → MtuPayloadStatus
narrow size = if leb_ℤ size (pos 1372) then success else too_large

narrow_path-Same :
    (t size : ℤ) (w : ℕ)
    → Same (narrow size) size (narrow_path.probe_payload_with_df t "10.0.0.9" size size w).0
narrow_path-Same t size w = ground arith

probe-first_success_example :
    (probe env narrow_path (some narrow_path) path 0).0.path_mtu ≡ pos 1400
unfolding add64 ◌+ℤ◌ wrap64
probe-first_success_example =
    probe-first_success env narrow_path narrow_path path "10.0.0.9" narrow refl (λ w. refl)
      (λ t w. (refl, refl)) narrow_path-Same 0
