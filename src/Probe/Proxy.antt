-- ===== src/Probe/Proxy.antt =====
-- ProxyProber of internal/probe/proxy.go.
pub mod Judged
use Prim.Native.Char.{code}
use netsonar.Base.{
  ℕ, Bool, true, false, ◌&&◌, ◌||◌, not, String, ◌<>◌, List, [], ◌∷◌, Option, none, some,
  if◌then◌else◌, any, ◌==◌, is_empty,
}
use netsonar.Base.Int.{ℤ, sub64, eq_ℤ, show_ℤ}
use netsonar.Config.Types.{TargetConfig, ResolvedProxyConfig}
use netsonar.Config.Checks.{codes}
use netsonar.Probe.Result.{ProbeResult, zero_result}
use netsonar.Probe.Resolve.{resolver_for}
use netsonar.Probe.Sockets.{Outcome, got, failed, Sockets}
use netsonar.Probe.Tcp.{Ended, returned, panicked}
use netsonar.Probe.Tunnel.{ProxyTunnelResult, TunnelRequest, must_proxy_endpoint, dial_proxy_tunnel}
use netsonar.Probe.TlsCert.{ProxyOps, auth_header}

-- strings.Contains(address, "://").
unfoldable pub has_url_syntax : List ℕ → Bool
has_url_syntax (c ∷ (d ∷ (e ∷ cs))) =
    (c == b':' && (d == b'/' && e == b'/')) || has_url_syntax (d ∷ (e ∷ cs))
has_url_syntax _ = false

-- slices.Contains.
abbrev pub contains_code : List ℤ → ℤ → Bool
contains_code codes status = any (λ c. eq_ℤ c status) codes

-- What is copied from a tunnel into the result.
unfoldable pub with_tunnel : ProbeResult → ProxyTunnelResult → ProbeResult
with_tunnel r t =
    if t.connect_resp.observed
    then (record r {
      phases = t.phases;
      proxy_connect_response_received = true;
      proxy_connect_status_code = t.connect_resp.status_code;
    })
    else (record r { phases = t.phases })

-- The result by the error of the tunnel and the expected codes.
unfoldable pub judge_tunnel : List ℤ → ProxyTunnelResult → Option String → ProbeResult → ProbeResult
judge_tunnel expected t (some e) r =
    if t.connect_resp.observed && contains_code expected t.connect_resp.status_code
    then record r { success = true }
    else record r { error = e }
judge_tunnel expected t none r =
    if is_empty expected
    then record r { success = true }
    else if contains_code expected t.connect_resp.status_code
    then record r { success = true }
    else record r {
      error = "unexpected proxy CONNECT status " <> show_ℤ t.connect_resp.status_code;
    }

module _ {W : Type 0} (net : Sockets W) (ops : ProxyOps) where
  unfoldable pub parse_tunnel_destination : String → Outcome String
  unfolding has_url_syntax
  parse_tunnel_destination address =
      if has_url_syntax (codes address)
      then failed (
          "address must be host:port (URL syntax not supported for proxy_connect), got " <> address)
      else elim (net.split_host_port address) [
        | got hp ↦ got address
        | failed e ↦ failed ("address must be host:port, got " <> address)
      ]

  -- The deferred close of the tunnel's connection.
  unfoldable pub close_tunnel : Option ℕ → Option String → W → W
  close_tunnel (some c) none w = net.close c w
  close_tunnel _ _ w = w

  unfoldable pub probe_tunnel : TunnelRequest → List ℤ → W → Ended × W
  unfolding judge_tunnel with_tunnel close_tunnel
  probe_tunnel q expected w =
      let (start, w1) = net.env.now w in
      let (tunnel, w2) = dial_proxy_tunnel net q w1 in
      let (end, w3) = net.env.now w2 in
      let seen = with_tunnel (record zero_result { duration = sub64 end start }) tunnel.0 in
      (
        returned (judge_tunnel expected tunnel.0 tunnel.1 seen),
        close_tunnel tunnel.0.conn tunnel.1 w3,
      )

  unfoldable pub proxy_probe_via : ResolvedProxyConfig → TargetConfig → W → Ended × W
  unfolding must_proxy_endpoint auth_header parse_tunnel_destination probe_tunnel
  proxy_probe_via proxy target w = elim (must_proxy_endpoint ops.url proxy.endpoint) [
    | none ↦ (panicked, w)
    | some u ↦ elim (parse_tunnel_destination target.address) [
      | failed e ↦ (returned (record zero_result { error = "invalid target address: " <> e }), w)
      | got dest ↦
          probe_tunnel
            (record {
              proxy = u;
              dest = dest;
              tls_skip_verify = proxy.tls_skip_verify;
              auth_header = auth_header ops proxy;
              resolver = resolver_for target.dns_resolver;
            })
            target.probe_opts.expected_proxy_connect_status_codes w
    ]
  ]

  unfoldable pub proxy_probe : TargetConfig → W → Ended × W
  unfolding proxy_probe_via
  proxy_probe target w = elim target.resolved_proxy [
    | none ↦ (returned (record zero_result { error = "missing resolved proxy" }), w)
    | some proxy ↦ proxy_probe_via proxy target w
  ]
