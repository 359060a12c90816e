-- ===== src/Probe/TlsCert/Closed.antt =====
-- TLSCertProber of internal/probe/tls_cert.go leaves nothing open, and reports what it found.
use netsonar.Base.{
  ℕ, ◌≡◌, ◌≢◌, refl, sym, ap, ◌∙◌, ◌⊎◌, inl, inr, Bool, true, false, String, NonEmpty, NonEmpty-<>,
  List, [], ◌∷◌, Option, none, some, arith, subst, Option-cases,
}
use netsonar.Base.Int.{ℤ}
use netsonar.Config.Types.{TargetConfig, ResolvedProxyConfig}
use netsonar.Proxyurl.{Parts}
use netsonar.Probe.Result.{ProbeResult, zero_result, Certificate}
use netsonar.Probe.Resolve.{Resolver, resolver_for}
use netsonar.Probe.Sockets.{Outcome-cases, TlsConfig, Sockets}
use netsonar.Probe.Dial.{
  Dialed, connected, refused, nothing, Worker, dial_phases, dial_tcp_with_split_phases,
}
use netsonar.Probe.Dial.Held.{after_dial, IsPending, dial-IsSplitDialed}
use netsonar.Probe.Dial.Total.{dial_total}
use netsonar.Probe.Tcp.{Ended, returned, panicked}
use netsonar.Probe.Tcp.Closed.{LeavesNothing, close-held, leaves_nothing}
use netsonar.Probe.Tunnel.{ProxyTunnelResult, must_proxy_endpoint, dial_proxy_tunnel, TunnelRequest}
use netsonar.Probe.Tunnel.Held.{Leaves, dial_proxy_tunnel-IsTunnelled}
use netsonar.Probe.TlsCert.{
  judge_certificates, set_tls_certificate_result, ProxyOps, auth_header, tls_cert_host_port,
  tls_config, probe_handshake, direct_outcome, tls_probe_direct, tunnel_result, proxy_outcome,
  tls_probe_via_proxy, tls_cert_probe,
}

-- A success has seen a certificate; a failure says why, and claims no expiry.
abbrev pub IsJudged : ProbeResult → Type 0
IsJudged r =
    ((r.success ≡ true) × (r.cert_observed ≡ true) × (r.error ≡ ""))
    ⊎ ((r.success ≡ false) × (r.cert_observed ≡ false) × NonEmpty r.error)

-- A result before it is judged.
abbrev IsFresh : ProbeResult → Type 0
IsFresh r = (r.success ≡ false) × (r.cert_observed ≡ false) × (r.error ≡ "")

judge_certificates-IsJudged :
    (r : ProbeResult) (certs : List Certificate) → IsFresh r → IsJudged (judge_certificates r certs)
unfolding judge_certificates set_tls_certificate_result
judge_certificates-IsJudged r [] h = inr (h.0, h.1, refl)
judge_certificates-IsJudged r (c ∷ cs) h = inl (refl, refl, h.2)

-- The result of a probe that ended.
abbrev pub ReturnsJudged : Ended → Type 0
ReturnsJudged (returned r) = IsJudged r
ReturnsJudged panicked = ⊥

-- What is left of a probe that ended: it did not panic, its result is judged, and it holds what it held.
abbrev EndsWell : {W : Type 0} → Sockets W → List ℕ → Ended × W → Type 0
EndsWell net cs (returned r, w) = IsJudged r × (net.held w ≡ cs)
EndsWell net cs (panicked, w) = ⊥

module _ {W : Type 0} (net : Sockets W) (ops : ProxyOps) where
  probe_handshake-EndsWell :
      (tls : TlsConfig) (start : ℤ) (r : ProbeResult) (c : ℕ) (w : W) (cs : List ℕ)
      → IsFresh r
      → net.held w ≡ c ∷ cs
      → let (r', w') = probe_handshake net ops tls start r c w in IsJudged r' × (net.held w' ≡ cs)
  unfolding probe_handshake
  probe_handshake-EndsWell tls start r c w cs f h =
      let w1 = (net.env.now w).1 in
      let w2 = (net.handshake c tls w1).1 in
      let w3 = (net.env.now w2).1 in
      let w4 = (net.env.now w3).1 in
      let kept : net.held w4 ≡ c ∷ cs =
        net.held-now w3 ∙ net.held-now w2 ∙ net.held-handshake c tls w1 ∙ net.held-now w ∙ h in
      let closed = close-held net c cs w4 kept in
      elim (Outcome-cases (net.handshake c tls w1).0) [
        | inl (certs, e) ↦ rw (e, probe_handshake) (judge_certificates-IsJudged _ certs f, closed)
        | inr (m, e) ↦
            rw (e, probe_handshake) (inr (f.0, f.1, NonEmpty-<> "tls handshake: " m refl), closed)
      ]

  direct_outcome-EndsWell :
      (tls : TlsConfig) (start : ℤ) (r : ProbeResult) (d : Dialed) (w : W) (cs : List ℕ)
      → IsFresh r
      → d ≢ nothing
      → net.held w ≡ after_dial d cs
      → EndsWell net cs (direct_outcome net ops tls start r d w)
  unfolding direct_outcome
  direct_outcome-EndsWell tls start r (connected c) w cs f n h =
      probe_handshake-EndsWell tls start r c w cs f h
  direct_outcome-EndsWell tls start r (refused e) w cs f n h =
      (inr (f.0, f.1, NonEmpty-<> "tcp dial: " e refl), net.held-now w ∙ h)
  direct_outcome-EndsWell tls start r nothing w cs f n h = absurd (n refl)

  tunnel_result-IsFresh : (t : ProxyTunnelResult) → IsFresh (tunnel_result net ops t)
  unfolding tunnel_result
  tunnel_result-IsFresh t = ground arith

  proxy_outcome-EndsWell :
      (tls : TlsConfig) (start : ℤ) (r : ProbeResult) (conn : Option ℕ) (e : Option String)
      (t : ProxyTunnelResult) (w : W) (cs : List ℕ)
      → IsFresh r
      → Leaves cs conn e t (net.held w)
      → EndsWell net cs (proxy_outcome net ops tls start r conn e w)
  unfolding proxy_outcome
  proxy_outcome-EndsWell tls start r none (some e) t w cs f l =
      (inr (f.0, f.1, l.1), net.held-now w ∙ l.0)
  proxy_outcome-EndsWell tls start r (some c) none t w cs f l =
      probe_handshake-EndsWell tls start r c w cs f l.0
  proxy_outcome-EndsWell tls start r none none t w cs f l = l
  proxy_outcome-EndsWell tls start r (some c) (some e) t w cs f l = absurd l

  -- A probe that ended well, with its pending worker, leaves nothing.
  well_left :
      (resolver : Resolver) (ended : Ended) (pending : Option Worker) (w : W) (cs : List ℕ)
      → EndsWell net cs (ended, w)
      → IsPending net resolver pending
      → LeavesNothing net resolver cs ((ended, pending), w) × ReturnsJudged ended
  well_left resolver (returned r) pending w cs h a =
      (leaves_nothing net resolver (returned r) pending w cs (λ q. cc) h.1 a, h.0)
  well_left resolver panicked pending w cs h a = absurd h

  tls_probe_direct-LeavesNothing :
      (picks : List Bool) (addr : String) (tls : TlsConfig) (resolver : Resolver) (w : W)
      → let ended = tls_probe_direct net ops picks addr tls resolver w in
        LeavesNothing net resolver (net.held w) ended × ReturnsJudged ended.0.0
  unfolding tls_probe_direct
  tls_probe_direct-LeavesNothing picks addr tls resolver w =
      let w1 = (net.env.now w).1 in
      let dialed = dial_tcp_with_split_phases net resolver picks addr w1 in
      let (h, a) = dial-IsSplitDialed net resolver picks addr w1 in
      well_left resolver _ _ _ (net.held w)
        (direct_outcome-EndsWell tls _ (record zero_result { phases = dial_phases dialed.0.0 })
          dialed.0.1 dialed.1 (net.held w) (refl, refl, refl)
          (dial_total net resolver picks addr w1) (h ∙ ap (after_dial dialed.0.1) (net.held-now w)))
        a

  tls_probe_via_proxy-EndsWell :
      (proxy : ResolvedProxyConfig) (addr : String) (tls : TlsConfig) (resolver : Resolver) (w : W)
      → (u : Parts) → must_proxy_endpoint ops.url proxy.endpoint ≡ some u
      → EndsWell net (net.held w) (tls_probe_via_proxy net ops proxy addr tls resolver w)
  unfolding tls_probe_via_proxy
  tls_probe_via_proxy-EndsWell proxy addr tls resolver w u e =
      let w1 = (net.env.now w).1 in
      let q : TunnelRequest = record {
        proxy = u;
        dest = addr;
        tls_skip_verify = proxy.tls_skip_verify;
        auth_header = auth_header ops proxy;
        resolver = resolver;
      } in
      let tunnel = dial_proxy_tunnel net q w1 in
      let left = dial_proxy_tunnel-IsTunnelled net q w1 in
      rw (e, tls_probe_via_proxy)
        (proxy_outcome-EndsWell tls _ (tunnel_result net ops tunnel.0.0) tunnel.0.0.conn tunnel.0.1
          tunnel.0.0 tunnel.1 (net.held w) (tunnel_result-IsFresh tunnel.0.0)
          (rw (sym (net.held-now w)) left))

-- The endpoint of the target's proxy, if it has one, is a proxy URL, as validate makes sure.
abbrev pub EndpointParses : ProxyOps → Option ResolvedProxyConfig → Type 0
EndpointParses ops none = Unit
EndpointParses ops (some proxy) =
    (u : Parts) × (must_proxy_endpoint ops.url proxy.endpoint ≡ some u)

-- A certificate probe whose proxy, if it has one, has an endpoint that parses does not panic, and closes
-- every connection that it opens, directly or through the proxy, but for one that the losing family makes
-- later, which is closed once its worker has ended. It succeeds with an expiry and no error, or it fails
-- with an error and no expiry.
pub tls_cert_probe-LeavesNothing :
    {W : Type 0} (net : Sockets W) (ops : ProxyOps) (picks : List Bool) (target : TargetConfig)
    (w : W)
    → EndpointParses ops target.resolved_proxy
    → let ended = tls_cert_probe net ops picks target w in
      LeavesNothing net (resolver_for target.dns_resolver) (net.held w) ended
      × ReturnsJudged ended.0.0
unfolding tls_cert_probe
tls_cert_probe-LeavesNothing net ops picks target w parses =
    let addr = (tls_cert_host_port net ops target.address).1 in
    let resolver = resolver_for target.dns_resolver in
    elim (Option-cases target.resolved_proxy) [
      | inl e ↦
          rw (e, tls_cert_probe)
            (tls_probe_direct-LeavesNothing net ops picks addr (tls_config net ops target) resolver
              w)
      | inr (proxy, e) ↦
          let (u, p) : EndpointParses ops (some proxy) = subst (EndpointParses ops) e parses in
          let well =
            tls_probe_via_proxy-EndsWell net ops proxy addr (tls_config net ops target) resolver w u
              p in
          rw (e, tls_cert_probe) (well_left net ops resolver _ none _ (net.held w) well tt)
    ]
