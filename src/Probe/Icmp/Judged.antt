-- ===== src/Probe/Icmp/Judged.antt =====
-- What the ICMP probe of internal/probe/icmp.go reports, and that it closes its socket.
use netsonar.Base.{ℕ, ◌≡◌, String, List, [], All, Option, some, none}
use netsonar.Base.Int.{pos_part}
use netsonar.Config.Types.{TargetConfig}
use netsonar.Probe.Result.{ProbeResult}
use netsonar.Probe.Resolve.{resolver_for, resolve_ipv4}
use netsonar.Probe.Sockets.{Outcome, got, failed}
use netsonar.Probe.Icmp.Echo.{EchoResult, IcmpOps, send_echo}
use netsonar.Probe.Icmp.Echo.Returns.{IsEchoed}
use netsonar.Probe.Icmp.Sequence.{Float}
use netsonar.Probe.Icmp.{ping_count_of, ping_interval_of, returned_echo}
use netsonar.Probe.Icmp.Sequence.Tallied.{IsIcmpReported, echo_results}

module _ {W : Type 0} (ops : IcmpOps W) where
  -- What sendEcho may return of a request to a destination.
  abbrev pub EchoOf : String → EchoResult → Type 0
  EchoOf dst r = (c : ℕ) × (seq : ℕ) × IsEchoed ops c dst seq r

-- How many echo requests the options of a target ask for, one at least.
abbrev pub requests : TargetConfig → ℕ
requests target = pos_part (ping_count_of target.probe_opts.ping_count)

-- The address that a target resolves to.
abbrev pub destination : {W : Type 0} → IcmpOps W → TargetConfig → W → String
destination ops target w =
    (resolve_ipv4 ops.env (resolver_for target.dns_resolver) target.address w).0.0.addr

module _ {W : Type 0} (ops : IcmpOps W) (target : TargetConfig) where
  -- What sendEcho returned of each request on a socket.
  abbrev pub socket_results : String → ℕ → W → List EchoResult
  socket_results dst c w =
      echo_results ops (ping_interval_of target.probe_opts.ping_interval_sec)
        (λ seq v. returned_echo v (send_echo ops c dst seq v)) (requests target) 0 w

  abbrev pub listened_results : String → Outcome ℕ × W → List EchoResult
  listened_results dst (failed e, w) = []
  listened_results dst (got c, w) = socket_results dst c w

  abbrev pub resolved_results : Option String → String → W → List EchoResult
  resolved_results (some e) dst w = []
  resolved_results none dst w = listened_results dst (ops.listen w)

  -- And in a probe; none, where the address does not resolve or no socket is had.
  abbrev pub results_of : W → List EchoResult
  results_of w =
      let (resolved, w1) =
        resolve_ipv4 ops.env (resolver_for target.dns_resolver) target.address w in
      resolved_results resolved.1 resolved.0.addr w1

module _ {W F : Type 0} (float : Float F) (ops : IcmpOps W) (target : TargetConfig) where
  -- A report on results of requests to a destination, with the sockets open that were.
  abbrev Ends : String → List EchoResult → List ℕ → ProbeResult × W → Type 0
  Ends dst rs cs (r, w) =
      All (EchoOf ops dst) rs × IsIcmpReported (requests target) rs r × (ops.held w ≡ cs)
