-- ===== src/Probe/Mtu/Run.antt =====
-- MTUProber.Probe and its retry loops (internal/probe/mtu.go).
pub mod Attempts
pub mod Steady
pub mod Outcome
pub mod Largest
use netsonar.Base.{
  ℕ, zero, suc, ◌≡◌, Bool, true, false, ◌&&◌, String, ◌<>◌, List, [], ◌∷◌, ◌++◌, Option, none, some,
  if◌then◌else◌, is_some, is_empty, length,
}
use netsonar.Base.Int.{ℤ, pos, negsuc, ltb_ℤ, sub64, show_ℤ}
use netsonar.Config.Types.{TargetConfig}
use netsonar.Probe.Resolve.{Env, resolver_for, resolve_ipv4, dns_phases}
use netsonar.Probe.Result.{MtuState, MtuDetail, ProbeResult, zero_result}
use netsonar.Probe.Mtu.Classify.{
  MtuPayloadStatus, success, too_large, local_too_large, timeout, unreachable, error,
  MtuPayloadResult, status_eq, classify_mtu_result, avg_rtt, set_mtu_inconclusive,
  clear_observed_icmp_rtt, is_permission_error, err_text, mtu_permission_denied_error,
  effective_mtu_retries, effective_mtu_per_attempt_timeout,
}
use netsonar.Probe.Mtu.Sanity.{apply_sanity_failure}
use Attempts.{Backend, probe_small_icmp_echo_with_retries, probe_payload_with_df_retries}

-- `result.ICMPRepliesObserved = len(rttSamples); result.ICMPAvgRTT = avgRTT(rttSamples)`.
abbrev observed : ProbeResult → List ℤ → ProbeResult
observed r samples = record r {
  icmp_replies_observed = length samples;
  icmp_avg_rtt = avg_rtt samples;
}

-- The fields that a classification fills.
abbrev classified : ProbeResult → List MtuPayloadResult → List ℤ → ℤ → ProbeResult
classified r results samples expected =
    let c = classify_mtu_result results expected in
    record (observed r samples) {
      path_mtu = c.path_mtu;
      success = c.success;
      mtu_state = c.state;
      mtu_detail = c.detail;
    }

below_minimum : ProbeResult → ℤ → ProbeResult
below_minimum r expected = if r.success then r else record r {
  error = "path MTU " <> show_ℤ r.path_mtu <> " below expected minimum " <> show_ℤ expected;
}

-- The `switch` of the step-down loop: `none` is `continue`.
judge_status :
    MtuPayloadStatus
    → ProbeResult
    → MtuPayloadResult
    → List MtuPayloadResult
    → List ℤ
    → ℤ
    → Option ProbeResult
judge_status success r p results samples expected =
    some (below_minimum (classified r results samples expected) expected)
judge_status unreachable r p results samples expected = some (record (observed r samples) {
  error = "destination unreachable";
  mtu_state = MtuState.unreachable;
  mtu_detail = MtuDetail.destination_unreachable;
})
judge_status error r p results samples expected = some (
    if is_permission_error p.err
    then record (observed r samples) {
      error = mtu_permission_denied_error;
      mtu_state = MtuState.error;
      mtu_detail = MtuDetail.permission_denied;
    }
    else record (observed r samples) {
      error = "mtu probe error: " <> err_text p.err;
      mtu_state = MtuState.error;
      mtu_detail = MtuDetail.internal_error;
    })
judge_status _ r p results samples expected = none

all_sizes_failed : ProbeResult → List MtuPayloadResult → List ℤ → ℤ → ProbeResult
all_sizes_failed r results samples expected = record (classified r results samples expected) {
  error = "all MTU sizes failed — target unreachable or path MTU below minimum test size";
}

-- `if payloadResult.rtt > 0 { rttSamples = append(rttSamples, payloadResult.rtt) }`.
add_sample : List ℤ → MtuPayloadResult → List ℤ
add_sample samples p = if ltb_ℤ (pos 0) p.rtt then samples ++ p.rtt ∷ [] else samples

module _ {W : Type 0} (env : Env W) where
  -- `setMTUInconclusive(&result, samples, ctx.Err())`.
  inconclusive : ProbeResult → List ℤ → W → ProbeResult × W
  inconclusive r samples w = let (e, w1) = env.ctx_err w in (set_mtu_inconclusive r samples e, w1)

  -- `status == mtuPayloadTimeout && ctx.Err() != nil`: the context is asked only after a timeout.
  timed_out_and_done : MtuPayloadResult → W → Bool × W
  timed_out_and_done p w =
      let (e, w1) = env.ctx_err w in
      if status_eq p.status timeout then (is_some e, w1) else (false, w)

  module _ (backend : Backend W) (dst : String) (per_attempt_timeout retries expected : ℤ) where
    -- The loop over the sizes: the results and the samples so far, `result`, and the world.
    pub step_down : List ℤ → List MtuPayloadResult → List ℤ → ProbeResult → W → ProbeResult × W
    step_down [] results samples r w = (all_sizes_failed r results samples expected, w)
    step_down (size ∷ sizes) results samples r w =
        let (e, w1) = env.ctx_err w in
        let (p, w2) =
          probe_payload_with_df_retries env backend dst size per_attempt_timeout retries w1 in
        let results' = results ++ p ∷ [] in
        let samples' = add_sample samples p in
        let (done, w3) = timed_out_and_done p w2 in
        let continue = step_down sizes results' samples' r w3 in
        if is_some e
        then inconclusive r samples w1
        else if done
        then inconclusive r samples' w3
        else elim (judge_status p.status r p results' samples' expected) [
          | some stopped ↦ (stopped, w3)
          | none ↦ continue
        ]

    -- From the sanity check on.
    measure : List ℤ → ProbeResult → W → ProbeResult × W
    measure sizes r w =
        let (sanity, w1) =
          probe_small_icmp_echo_with_retries env backend dst per_attempt_timeout retries w in
        let (done, w2) = timed_out_and_done sanity w1 in
        if done then inconclusive r [] w2 else elim (apply_sanity_failure r sanity) [
          | some failed ↦ (failed, w2)
          | none ↦ step_down sizes [] (add_sample [] sanity) r w2
        ]

  -- The body of Probe up to the deferred duration.
  probe_body : Backend W → TargetConfig → W → ProbeResult × W
  probe_body backend target w =
      let opts = target.probe_opts in
      let r0 : ProbeResult = record zero_result { path_mtu = negsuc 0 } in
      let (resolved, w1) = resolve_ipv4 env (resolver_for target.dns_resolver) target.address w in
      let r1 : ProbeResult = record r0 { phases = dns_phases resolved.0 } in
      let (e, w2) = env.ctx_err w1 in
      if is_empty opts.icmp_payload_sizes
      then (
        record (clear_observed_icmp_rtt r0) {
          error = "no icmp_payload_sizes configured";
          mtu_state = MtuState.error;
          mtu_detail = MtuDetail.internal_error;
        },
        w,
      )
      else elim resolved.1 [
        | some text ↦ (
          record (clear_observed_icmp_rtt r1) {
            error = "resolve IPv4 address: " <> text;
            mtu_state = MtuState.error;
            mtu_detail = MtuDetail.resolve_error;
          },
          w1,
        )
        | none ↦
            if is_some e
            then inconclusive r1 [] w2
            else measure backend resolved.0.addr
                (effective_mtu_per_attempt_timeout opts.mtu_per_attempt_timeout)
                (effective_mtu_retries opts.mtu_retries) opts.expected_min_mtu
                opts.icmp_payload_sizes r1 w2
      ]

  -- `p.backend` nil stands for the default backend.
  pub probe : Backend W → Option (Backend W) → TargetConfig → W → ProbeResult × W
  probe default_backend own target w =
      let (start, w1) = env.now w in
      let backend : Backend W = elim own [ some b ↦ b | none ↦ default_backend ] in
      let (r, w2) = probe_body backend target w1 in
      let (end, w3) = env.now w2 in (record r { duration = sub64 end start }, w3)
