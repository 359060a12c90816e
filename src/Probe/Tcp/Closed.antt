-- ===== src/Probe/Tcp/Closed.antt =====
-- TCPProber.Probe of internal/probe/tcp.go leaves nothing open.
use netsonar.Base.{ℕ, ◌≡◌, ◌≢◌, refl, ap, ◌∙◌, Bool, List, ◌∷◌, Option, arith}
use netsonar.Config.Types.{TargetConfig}
use netsonar.Probe.Result.{ProbeResult}
use netsonar.Probe.Resolve.{Resolver, resolver_for}
use netsonar.Probe.Sockets.{Sockets, remove}
use netsonar.Probe.Dial.{
  Dialed, connected, refused, nothing, Worker, dial_tcp_with_split_phases, settle,
}
use netsonar.Probe.Dial.Held.{after_dial, IsPending, dial-IsSplitDialed, settle-held}
use netsonar.Probe.Dial.Total.{dial_total}
use netsonar.Probe.Tcp.{Ended, panicked, tcp_outcome, tcp_probe}

-- A probe that returned, with the same connections open as before, both as it returns and once the
-- worker that it may have left behind has ended.
abbrev pub LeavesNothing :
    {W : Type 0} → Sockets W → Resolver → List ℕ → (Ended × Option Worker) × W → Type 0
LeavesNothing net resolver cs ((ended, pending), w) =
    (ended ≢ panicked) × (net.held w ≡ cs) × (net.held (settle net resolver pending w) ≡ cs)

module _ {W : Type 0} (net : Sockets W) where
  pub close-held :
      (c : ℕ) (cs : List ℕ) (w : W) → net.held w ≡ c ∷ cs → net.held (net.close c w) ≡ cs
  close-held c cs w h = net.held-close c w ∙ ap (remove c) h ∙ ground arith

  pub leaves_nothing :
      (resolver : Resolver) (ended : Ended) (pending : Option Worker) (w : W) (cs : List ℕ)
      → ended ≢ panicked
      → net.held w ≡ cs
      → IsPending net resolver pending
      → LeavesNothing net resolver cs ((ended, pending), w)
  leaves_nothing resolver ended pending w cs n h a =
      (n, h, settle-held net resolver pending w a ∙ h)

  tcp_outcome-held :
      (r : ProbeResult) (d : Dialed) (w : W) (cs : List ℕ)
      → d ≢ nothing
      → net.held w ≡ after_dial d cs
      → ((tcp_outcome net r d w).0 ≢ panicked) × (net.held (tcp_outcome net r d w).1 ≡ cs)
  unfolding tcp_outcome
  tcp_outcome-held r (connected c) w cs n h = (λ q. cc, close-held c cs w h)
  tcp_outcome-held r (refused e) w cs n h = (λ q. cc, h)
  tcp_outcome-held r nothing w cs n h = absurd (n refl)

-- A TCP probe never panics. When it returns it has closed the connection that it made, and a connection
-- that the losing family makes later is closed once its worker has ended.
pub tcp_probe-LeavesNothing :
    {W : Type 0} (net : Sockets W) (picks : List Bool) (target : TargetConfig) (w : W)
    → LeavesNothing net
        (resolver_for target.dns_resolver)
        (net.held w)
        (tcp_probe net picks target w)
unfolding tcp_probe
tcp_probe-LeavesNothing net picks target w =
    let resolver = resolver_for target.dns_resolver in
    let w1 = (net.env.now w).1 in
    let dialed = dial_tcp_with_split_phases net resolver picks target.address w1 in
    let (h, a) = dial-IsSplitDialed net resolver picks target.address w1 in
    let (n, k) =
      tcp_outcome-held net _ dialed.0.1 _ (net.held w)
        (dial_total net resolver picks target.address w1)
        (net.held-now dialed.1 ∙ h ∙ ap (after_dial dialed.0.1) (net.held-now w)) in
    leaves_nothing net resolver _ _ _ (net.held w) n k a
