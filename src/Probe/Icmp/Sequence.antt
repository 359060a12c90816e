-- ===== src/Probe/Icmp/Sequence.antt =====
-- runICMPEchoSequence of internal/probe/icmp.go. float64 is a parameter, and so is the sender of an echo.
pub mod Tallied
use netsonar.Base.{
  ℕ, zero, suc, ◌-◌, ◌+◌, Bool, true, false, Option, none, some, if◌then◌else◌, is_some, not, ltb,
  ◌==◌,
}
use netsonar.Base.Int.{ℤ, pos, pos_part, add64, quot, sub_ℕ}
use netsonar.Probe.Result.{ProbeResult, zero_result}
use netsonar.Probe.Icmp.Echo.{EchoResult, IcmpOps}

-- What the code does with a float64; `seconds` is Duration.Seconds, `to_duration` the conversion back.
pub record Float (F : Type 0) : Type 0 where
  pub nought : F
  pub of_int : ℕ → F
  pub seconds : ℤ → F
  pub add : F → F → F
  pub sub : F → F → F
  pub mul : F → F → F
  pub div : F → F → F
  pub is_negative : F → Bool
  pub sqrt : F → F
  pub to_duration : F → ℤ

-- The variables of the loop.
pub record Tally (F : Type 0) : Type 0 where
  pub total_rtt : ℤ
  pub total_rtt_squared : F
  pub received : ℕ
  pub actual_sent : ℕ

-- waitForPingInterval, which the first ping skips.
unfoldable pub wait_for_ping : {W : Type 0} → IcmpOps W → ℤ → ℕ → W → Bool × W
wait_for_ping ops interval zero w = (true, w)
wait_for_ping ops interval (suc n) w = ops.timer interval w

module _ {F : Type 0} (float : Float F) where
  unfoldable pub count_reply : Tally F → EchoResult → Tally F
  count_reply t r = elim r.err [
    | some e ↦ t
    | none ↦ record t {
      received = suc t.received;
      total_rtt = add64 t.total_rtt r.rtt;
      total_rtt_squared =
          float.add t.total_rtt_squared (float.mul (float.seconds r.rtt) (float.seconds r.rtt));
    }
  ]

  unfoldable pub count_echo : Tally F → EchoResult → Tally F
  unfolding count_reply
  count_echo t r =
      count_reply (if r.sent then record t { actual_sent = suc t.actual_sent } else t) r

  -- The standard deviation, which needs two samples.
  unfoldable pub deviation : Tally F → ℤ → ℤ
  deviation t avg_rtt =
      let avg = float.seconds avg_rtt in
      let variance =
        float.sub (float.div t.total_rtt_squared (float.of_int t.received)) (float.mul avg avg) in
      let kept = if float.is_negative variance then float.nought else variance in
      float.to_duration (float.mul (float.sqrt kept) (float.of_int 1_000_000_000))

  -- From the end of the loop on.
  unfoldable pub summarize : Tally F → ProbeResult
  unfolding deviation
  summarize t =
      let failure : ProbeResult = record zero_result {
        packet_loss = record { num = pos 1; den = 1 };
        error = "all ICMP echo requests timed out or failed";
      } in
      let average = quot t.total_rtt t.received in
      let r : ProbeResult = record zero_result {
        packet_loss = record { num = sub_ℕ t.actual_sent t.received; den = t.actual_sent };
      } in
      if t.actual_sent == 0
      then failure
      else if t.received == 0
      then record r { error = "all ICMP echo requests timed out or failed" }
      else record r {
        icmp_replies_observed = t.received;
        success = true;
        icmp_avg_rtt = average;
        icmp_stddev_rtt = if ltb t.received 2 then pos 0 else deviation t average;
      }

module _ {W F : Type 0} (float : Float F) (ops : IcmpOps W) where
  module _ (interval : ℤ) (send : ℕ → W → EchoResult × W) where
    -- The loop: the pings that are left, and the number of the next.
    unfoldable pub echo_loop : ℕ → ℕ → Tally F → W → Tally F × W
    unfolding count_echo wait_for_ping
    echo_loop zero seq t w = (t, w)
    echo_loop (suc n) seq t w =
        let (e, w1) = ops.env.ctx_err w in
        let (go, w2) = wait_for_ping ops interval seq w1 in
        let (r, w3) = send seq w2 in
        let next = echo_loop n (suc seq) (count_echo float t r) w3 in
        if is_some e then (t, w1) else if not go then (t, w2) else next

  unfoldable pub run_icmp_echo_sequence : ℤ → ℤ → (ℕ → W → EchoResult × W) → W → ProbeResult × W
  unfolding echo_loop summarize
  run_icmp_echo_sequence ping_count interval send w =
      let none_yet : Tally F = record {
        total_rtt = pos 0;
        total_rtt_squared = float.nought;
        received = 0;
        actual_sent = 0;
      } in
      let (t, w1) = echo_loop interval send (pos_part ping_count) 0 none_yet w in
      (summarize float t, w1)
