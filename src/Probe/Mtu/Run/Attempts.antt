-- ===== src/Probe/Mtu/Run/Attempts.antt =====
-- mtuProbeBackend and the two retry loops of internal/probe/mtu.go.
use netsonar.Base.{ℕ, zero, suc, Bool, ◌||◌, String, List, [], ◌∷◌, if◌then◌else◌, is_some}
use netsonar.Base.Int.{ℤ, pos, pos_part}
use netsonar.Probe.Resolve.{Env}
use netsonar.Probe.Mtu.Classify.{
  MtuPayloadStatus, success, unreachable, error, MtuPayloadResult, status_eq,
  classify_payload_attempts,
}

-- A call takes the timeout of its attempt, the destination, the payload size and the sequence number.
pub record Backend (W : Type 0) : Type 0 where
  pub probe_small_echo : ℤ → String → ℤ → ℤ → W → MtuPayloadResult × W
  pub probe_payload_with_df : ℤ → String → ℤ → ℤ → W → MtuPayloadResult × W

-- The statuses that end the retries.
abbrev pub is_final : MtuPayloadStatus → Bool
is_final s = status_eq s success || (status_eq s unreachable || status_eq s error)

module _ {W : Type 0} (env : Env W) where
  -- The loop over the attempts; both methods have it, with another call.
  unfoldable pub attempt_loop : (W → MtuPayloadResult × W) → ℕ → W → List MtuPayloadResult × W
  attempt_loop send zero w = ([], w)
  attempt_loop send (suc n) w =
      let (r, w1) = send w in
      let (e, w2) = env.ctx_err w1 in
      let rest = attempt_loop send n w2 in
      if is_final r.status
      then (r ∷ [], w1)
      else if is_some e
      then (r ∷ [], w2)
      else (r ∷ rest.0, rest.1)

  unfoldable pub probe_small_icmp_echo_with_retries :
      Backend W → String → ℤ → ℤ → W → MtuPayloadResult × W
  unfolding attempt_loop classify_payload_attempts
  probe_small_icmp_echo_with_retries backend dst per_attempt_timeout retries w =
      let (attempts, w1) =
        attempt_loop (backend.probe_small_echo per_attempt_timeout dst (pos 64) (pos 0))
          (pos_part retries) w in
      (classify_payload_attempts attempts, w1)

  unfoldable pub probe_payload_with_df_retries :
      Backend W → String → ℤ → ℤ → ℤ → W → MtuPayloadResult × W
  unfolding attempt_loop classify_payload_attempts
  probe_payload_with_df_retries backend dst payload_size per_attempt_timeout retries w =
      let (attempts, w1) =
        attempt_loop
          (backend.probe_payload_with_df per_attempt_timeout dst payload_size payload_size)
          (pos_part retries) w in
      (classify_payload_attempts attempts, w1)
