-- ===== src/Probe/Tcp.antt =====
-- TCPProber.Probe of internal/probe/tcp.go.
pub mod Closed
use netsonar.Base.{ℕ, Bool, true, false, String, List, Option, none, some}
use netsonar.Base.Int.{ℤ, sub64}
use netsonar.Config.Types.{TargetConfig}
use netsonar.Probe.Result.{ProbeResult, zero_result}
use netsonar.Probe.Resolve.{Resolver, resolver_for}
use netsonar.Probe.Sockets.{Sockets}
use netsonar.Probe.Dial.{
  Dialed, connected, refused, nothing, Worker, SplitDialResult, dial_phases,
  dial_tcp_with_split_phases,
}

-- What a probe ends with: its result, or a panic, and the worker of the dialing that is still pending.
pub data Ended : Type 0 where
  returned : ProbeResult → Ended
  panicked : Ended

module _ {W : Type 0} (net : Sockets W) where
  -- After the dial: a nil connection is closed through a nil pointer.
  unfoldable pub tcp_outcome : ProbeResult → Dialed → W → Ended × W
  tcp_outcome r (connected c) w = (returned (record r { success = true }), net.close c w)
  tcp_outcome r (refused e) w = (returned (record r { error = e }), w)
  tcp_outcome r nothing w = (panicked, w)

  unfoldable pub tcp_probe : List Bool → TargetConfig → W → (Ended × Option Worker) × W
  unfolding tcp_outcome dial_phases
  tcp_probe picks target w =
      let (start, w1) = net.env.now w in
      let (dialed, w2) =
        dial_tcp_with_split_phases net (resolver_for target.dns_resolver) picks target.address w1 in
      let (end, w3) = net.env.now w2 in
      let timed : ProbeResult = record zero_result {
        duration = sub64 end start;
        phases = dial_phases dialed.0;
      } in
      let (ended, w4) = tcp_outcome timed dialed.1 w3 in ((ended, dialed.0.pending), w4)
