-- ===== src/Probe/Proxy/Judged.antt =====
-- When ProxyProber of internal/probe/proxy.go succeeds, and what it leaves open.
use netsonar.Base.{
  ℕ, ◌≡◌, refl, sym, subst, ◌⊎◌, inl, inr, true, false, ◌&&◌, String, NonEmpty, NonEmpty-<>, List,
  [], ◌∷◌, Option, none, some, arith, Bool-cases, Option-cases,
}
use netsonar.Base.Int.{ℤ, sub64, pos, ◌≤ℤ◌, show_ℤ}
use netsonar.Config.Types.{TargetConfig, ResolvedProxyConfig}
use netsonar.Proxyurl.{Parts}
use netsonar.Probe.Result.{ProbeResult, zero_result}
use netsonar.Probe.Sockets.{Outcome-cases, Sockets}
use netsonar.Probe.Tcp.{Ended, returned, panicked}
use netsonar.Probe.Tcp.Closed.{close-held}
use netsonar.Probe.Tunnel.{ProxyTunnelResult, TunnelRequest, must_proxy_endpoint, dial_proxy_tunnel}
use netsonar.Probe.Tunnel.Held.{Leaves, dial_proxy_tunnel-IsTunnelled}
use netsonar.Probe.TlsCert.{ProxyOps}
use netsonar.Probe.TlsCert.Closed.{EndpointParses}
use netsonar.Probe.Proxy.{
  contains_code, with_tunnel, judge_tunnel, close_tunnel, probe_tunnel, parse_tunnel_destination,
  proxy_probe_via, proxy_probe,
}

-- The status of the CONNECT response that is shown is an expected one; or one of success, where none is
-- given.
abbrev pub IsExpected : List ℤ → ProbeResult → Type 0
IsExpected [] r =
    (pos 200 ≤ℤ r.proxy_connect_status_code) × (r.proxy_connect_status_code ≤ℤ pos 299)
IsExpected (c ∷ cs) r = contains_code (c ∷ cs) r.proxy_connect_status_code ≡ true

-- A success saw an expected response and has no error; a failure has one, and saw no expected response.
abbrev pub IsJudgedBy : List ℤ → ProbeResult → Type 0
IsJudgedBy expected r =
    ((r.success ≡ true)
      × (r.error ≡ "")
      × (r.proxy_connect_response_received ≡ true)
      × IsExpected expected r)
    ⊎ ((r.success ≡ false) × NonEmpty r.error)

abbrev IsFresh : ProbeResult → Type 0
IsFresh r = (r.success ≡ false) × (r.error ≡ "")

judge_tunnel-IsJudgedBy :
    (expected : List ℤ) (t : ProxyTunnelResult) (conn : Option ℕ) (err : Option String)
    (r : ProbeResult) (cs held : List ℕ)
    → IsFresh r
    → Leaves cs conn err t held
    → IsJudgedBy expected (judge_tunnel expected t err (with_tunnel r t))
unfolding judge_tunnel with_tunnel
judge_tunnel-IsJudgedBy [] t none (some e) r cs held f l = inr (ground arith, ground (arith, l.1))
judge_tunnel-IsJudgedBy (x ∷ xs) t none (some e) r cs held f l =
    elim (Bool-cases
      (t.connect_resp.observed && contains_code (x ∷ xs) t.connect_resp.status_code)) [
        | inl h ↦ inl (ground arith, ground arith, ground arith, ground arith)
        | inr h ↦ inr (ground arith, ground (arith, l.1))
      ]
judge_tunnel-IsJudgedBy [] t (some c) none r cs held f (h, seen, lo, hi) =
    inl (refl, ground arith, ground arith, (ground arith, ground arith))
judge_tunnel-IsJudgedBy (x ∷ xs) t (some c) none r cs held f (h, seen, lo, hi) =
    elim (Bool-cases (contains_code (x ∷ xs) t.connect_resp.status_code)) [
      | inl e ↦ inl (ground arith, ground arith, ground arith, ground arith)
      | inr e ↦ inr (
        ground arith,
        ground (
          arith,
          NonEmpty-<> "unexpected proxy CONNECT status " (show_ℤ t.connect_resp.status_code) refl,
        ),
      )
    ]
judge_tunnel-IsJudgedBy expected t none none r cs held f l = absurd l
judge_tunnel-IsJudgedBy expected t (some c) (some e) r cs held f l = absurd l

-- A probe that ended: it did not panic, its result is judged, and it holds what it held.
abbrev pub EndsJudged : {W : Type 0} → Sockets W → List ℤ → List ℕ → Ended × W → Type 0
EndsJudged net expected cs (returned r, w) = IsJudgedBy expected r × (net.held w ≡ cs)
EndsJudged net expected cs (panicked, w) = ⊥

module _ {W : Type 0} (net : Sockets W) (ops : ProxyOps) where
  close_tunnel-held :
      (conn : Option ℕ) (err : Option String) (t : ProxyTunnelResult) (w : W) (cs : List ℕ)
      → Leaves cs conn err t (net.held w)
      → net.held (close_tunnel net ops conn err w) ≡ cs
  unfolding close_tunnel
  close_tunnel-held (some c) none t w cs l = close-held net c cs w l.0
  close_tunnel-held none (some e) t w cs l = l.0
  close_tunnel-held none none t w cs l = absurd l
  close_tunnel-held (some c) (some e) t w cs l = absurd l

  probe_tunnel-EndsJudged :
      (q : TunnelRequest) (expected : List ℤ) (w : W)
      → EndsJudged net expected (net.held w) (probe_tunnel net ops q expected w)
  unfolding probe_tunnel
  probe_tunnel-EndsJudged q expected w =
      let w1 = (net.env.now w).1 in
      let tunnel = dial_proxy_tunnel net q w1 in
      let left = dial_proxy_tunnel-IsTunnelled net q w1 in
      let t = tunnel.0.0 in
      (
        judge_tunnel-IsJudgedBy expected t t.conn tunnel.0.1
            (record zero_result { duration = sub64 (net.env.now tunnel.1).0 (net.env.now w).0 }) _ _
            (refl, refl) left,
        close_tunnel-held t.conn tunnel.0.1 t _ (net.held w)
            (rw (net.held-now tunnel.1) (rw (sym (net.held-now w)) left)),
      )

  proxy_probe_via-EndsJudged :
      (proxy : ResolvedProxyConfig) (target : TargetConfig) (w : W) (u : Parts)
      → must_proxy_endpoint ops.url proxy.endpoint ≡ some u
      → EndsJudged net target.probe_opts.expected_proxy_connect_status_codes
          (net.held w)
          (proxy_probe_via net ops proxy target w)
  unfolding proxy_probe_via
  proxy_probe_via-EndsJudged proxy target w u e =
      elim (Outcome-cases (parse_tunnel_destination net ops target.address)) [
        | inl (dest, d) ↦ rw (e, d, proxy_probe_via) (probe_tunnel-EndsJudged _ _ w)
        | inr (m, d) ↦
            rw (e, d, proxy_probe_via)
              (inr (refl, NonEmpty-<> "invalid target address: " m refl), refl)
      ]

-- A proxy probe whose proxy has an endpoint that parses does not panic and closes every connection that it
-- opens. It succeeds, with no error, only if it saw a CONNECT response with an expected status, or with
-- one from 200 to 299 where none is configured; a failure has an error.
pub proxy_probe-EndsJudged :
    {W : Type 0} (net : Sockets W) (ops : ProxyOps) (target : TargetConfig) (w : W)
    → EndpointParses ops target.resolved_proxy
    → EndsJudged net target.probe_opts.expected_proxy_connect_status_codes
        (net.held w)
        (proxy_probe net ops target w)
unfolding proxy_probe
proxy_probe-EndsJudged net ops target w parses = elim (Option-cases target.resolved_proxy) [
  | inl e ↦ rw (e, proxy_probe) (inr (refl, refl), refl)
  | inr (proxy, e) ↦
      let (u, p) : EndpointParses ops (some proxy) = subst (EndpointParses ops) e parses in
      rw (e, proxy_probe) (proxy_probe_via-EndsJudged net ops proxy target w u p)
]
