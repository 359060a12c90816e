-- ===== src/Probe/Icmp.antt =====
-- ICMPProber of internal/probe/icmp.go: the sequence of echo requests and the probe. Echo holds sendEcho.
pub mod Echo
pub mod Sequence
pub mod Judged
use netsonar.Base.{
  ℕ, Bool, true, false, String, ◌<>◌, List, [], Option, none, some, if◌then◌else◌, ltb,
}
use netsonar.Base.Int.{ℤ, pos, pos_part, sub64, leb_ℤ}
use netsonar.Config.Types.{TargetConfig}
use netsonar.Probe.Result.{ProbeResult, zero_result}
use netsonar.Probe.Resolve.{resolver_for, resolve_ipv4, dns_phases}
use netsonar.Probe.Sockets.{Outcome, got, failed}
use Echo.{EchoResult, IcmpOps, send_echo}
use Sequence.{Float, run_icmp_echo_sequence}

-- `PingCount` and `PingIntervalSec` with their defaults.
unfoldable pub ping_count_of : ℤ → ℤ
ping_count_of n = if leb_ℤ n (pos 0) then pos 1 else n

unfoldable pub ping_interval_of : ℤ → ℤ
ping_interval_of d = if leb_ℤ d (pos 0) then pos 1_000_000_000 else d

-- A failure before any echo request.
abbrev pub lost : ProbeResult → String → ProbeResult
lost r e = record r { error = e; packet_loss = record { num = pos 1; den = 1 } }

-- What sendEcho returned; the other case is that of a read loop with too little fuel.
unfoldable pub returned_echo : {W : Type 0} → W → Option (EchoResult × W) → EchoResult × W
returned_echo w (some r) = r
returned_echo w none = (record { rtt = pos 0; sent = false; err = some "no fuel" }, w)

module _ {W F : Type 0} (float : Float F) (ops : IcmpOps W) where
  -- The echo sequence on an open socket, which is closed after it.
  unfoldable pub ping_on : TargetConfig → String → ProbeResult → ℕ → W → ProbeResult × W
  unfolding ping_count_of ping_interval_of
  ping_on target dst r c w =
      let (sequence, w1) =
        run_icmp_echo_sequence float ops (ping_count_of target.probe_opts.ping_count)
          (ping_interval_of target.probe_opts.ping_interval_sec)
          (λ seq v. returned_echo v (send_echo ops c dst seq v)) w in
      (record sequence { phases = r.phases }, ops.close c w1)

  unfoldable pub listened : TargetConfig → String → ProbeResult → Outcome ℕ × W → ProbeResult × W
  listened target dst r (failed e, w) =
      (lost r ("listen icmp: " <> (e <> " (check net.ipv4.ping_group_range)")), w)
  listened target dst r (got c, w) = ping_on target dst r c w

  -- Probe up to the deferred duration.
  unfoldable pub icmp_body : TargetConfig → W → ProbeResult × W
  unfolding listened
  icmp_body target w =
      let (resolved, w1) =
        resolve_ipv4 ops.env (resolver_for target.dns_resolver) target.address w in
      let r : ProbeResult = record zero_result { phases = dns_phases resolved.0 } in
      elim resolved.1 [
        | some e ↦ (lost r ("resolve IPv4 address: " <> e), w1)
        | none ↦ listened target resolved.0.addr r (ops.listen w1)
      ]

  unfoldable pub icmp_probe : TargetConfig → W → ProbeResult × W
  unfolding icmp_body
  icmp_probe target w =
      let (start, w1) = ops.env.now w in
      let (r, w2) = icmp_body target w1 in
      let (end, w3) = ops.env.now w2 in (record r { duration = sub64 end start }, w3)
