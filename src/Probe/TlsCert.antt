-- ===== src/Probe/TlsCert.antt =====
-- TLSCertProber of internal/probe/tls_cert.go.
pub mod Expiry
pub mod Closed
use netsonar.Base.{
  ℕ, Bool, true, false, String, ◌<>◌, List, [], ◌∷◌, ◌++◌, map, Option, none, some, if◌then◌else◌,
}
use netsonar.Base.Int.{ℤ, sub64, ltb_ℤ, pos}
use netsonar.Config.Types.{TargetConfig, ResolvedProxyConfig}
use netsonar.Config.TagKeys.{basic_auth_header}
use netsonar.Proxyurl.{UrlOps}
use netsonar.Probe.Result.{ProbeResult, zero_result, Phase, Certificate}
use netsonar.Probe.Resolve.{Resolver, resolver_for, add_observed_phase}
use netsonar.Probe.Sockets.{Outcome, got, failed, TlsConfig, Sockets}
use netsonar.Probe.Dial.{
  Dialed, connected, refused, nothing, Worker, SplitDialResult, dial_phases,
  dial_tcp_with_split_phases,
}
use netsonar.Probe.Tcp.{Ended, returned, panicked}
use netsonar.Probe.Tunnel.{ProxyTunnelResult, TunnelRequest, must_proxy_endpoint, dial_proxy_tunnel}

-- The body of the loop of setTLSCertificateResult.
abbrev pub earlier : ℤ → ℤ → ℤ
earlier earliest t = if ltb_ℤ t earliest then t else earliest

-- The loop over certs[1:]. A `Certificate` has its NotAfter in seconds.
unfoldable pub earliest_expiry : ℤ → List Certificate → ℤ
earliest_expiry earliest [] = earliest
earliest_expiry earliest (c ∷ cs) = earliest_expiry (earlier earliest c.not_after) cs

unfoldable pub set_tls_certificate_result : ProbeResult → List Certificate → ProbeResult
unfolding earliest_expiry
set_tls_certificate_result r [] = record r {
  tls_certificates = [];
  cert_observed = false;
  cert_expiry = pos 0;
}
set_tls_certificate_result r (c ∷ cs) = record r {
  tls_certificates = map some (c ∷ cs);
  cert_observed = true;
  cert_expiry = earliest_expiry c.not_after cs;
}

-- What the probe makes of the certificates of a handshake.
unfoldable pub judge_certificates : ProbeResult → List Certificate → ProbeResult
unfolding set_tls_certificate_result
judge_certificates r [] = record r { error = "tls handshake: no peer certificates presented" }
judge_certificates r (c ∷ cs) = set_tls_certificate_result (record r { success = true }) (c ∷ cs)

-- base64.StdEncoding.EncodeToString, and net/url.
pub record ProxyOps : Type 0 where
  pub base64 : String → String
  pub url : UrlOps

-- The value that is dropped is the flag: "" for no credentials.
unfoldable pub auth_header : ProxyOps → ResolvedProxyConfig → String
auth_header ops p = elim (basic_auth_header ops.base64 p.credentials) [ none ↦ "" | some h ↦ h ]

module _ {W : Type 0} (net : Sockets W) (ops : ProxyOps) where
  -- The host and the address to dial.
  unfoldable pub tls_cert_host_port : String → String × String
  tls_cert_host_port address = elim (net.split_host_port address) [
    | got (host, port) ↦ (host, address)
    | failed e ↦ (address, net.join_host_port address "443")
  ]

  unfoldable pub tls_config : TargetConfig → TlsConfig
  unfolding tls_cert_host_port
  tls_config target = record {
    server_name = (tls_cert_host_port target.address).0;
    insecure_skip_verify = target.probe_opts.tls_skip_verify;
  }

  -- The handshake on an open connection, which is closed in the end.
  unfoldable pub probe_handshake : TlsConfig → ℤ → ProbeResult → ℕ → W → ProbeResult × W
  unfolding judge_certificates
  probe_handshake tls start r c w =
      let (tls_start, w1) = net.env.now w in
      let (shaken, w2) = net.handshake c tls w1 in
      let (tls_end, w3) = net.env.now w2 in
      let (end, w4) = net.env.now w3 in
      let timed : ProbeResult = record r {
        duration = sub64 end start;
        phases = add_observed_phase r.phases Phase.tls_handshake (some tls_end) (some tls_start);
      } in
      elim shaken [
        | got certs ↦ (judge_certificates timed certs, net.close c w4)
        | failed e ↦ (record timed { error = "tls handshake: " <> e }, net.close c w4)
      ]

  unfoldable pub direct_outcome : TlsConfig → ℤ → ProbeResult → Dialed → W → Ended × W
  unfolding probe_handshake
  direct_outcome tls start r (connected c) w =
      let (r', w1) = probe_handshake tls start r c w in (returned r', w1)
  direct_outcome tls start r (refused e) w =
      let (end, w1) = net.env.now w in
      (returned (record r { duration = sub64 end start; error = "tcp dial: " <> e }), w1)
  direct_outcome tls start r nothing w = (panicked, w)

  unfoldable pub tls_probe_direct :
      List Bool → String → TlsConfig → Resolver → W → (Ended × Option Worker) × W
  unfolding direct_outcome
  tls_probe_direct picks addr tls resolver w =
      let (start, w1) = net.env.now w in
      let (dialed, w2) = dial_tcp_with_split_phases net resolver picks addr w1 in
      let (ended, w3) =
        direct_outcome tls start (record zero_result { phases = dial_phases dialed.0 }) dialed.1
          w2 in
      ((ended, dialed.0.pending), w3)

  -- What the probes copy from a tunnel into their result.
  unfoldable pub tunnel_result : ProxyTunnelResult → ProbeResult
  tunnel_result t =
      if t.connect_resp.observed
      then (record zero_result {
        phases = t.phases;
        proxy_connect_response_received = true;
        proxy_connect_status_code = t.connect_resp.status_code;
      })
      else (record zero_result { phases = t.phases })

  -- After the tunnel, by its connection and its error.
  unfoldable pub proxy_outcome :
      TlsConfig → ℤ → ProbeResult → Option ℕ → Option String → W → Ended × W
  unfolding probe_handshake
  proxy_outcome tls start r conn (some e) w =
      let (end, w1) = net.env.now w in
      (returned (record r { duration = sub64 end start; error = e }), w1)
  proxy_outcome tls start r (some c) none w =
      let (r', w1) = probe_handshake tls start r c w in (returned r', w1)
  proxy_outcome tls start r none none w = (panicked, w)

  unfoldable pub tls_probe_via_proxy :
      ResolvedProxyConfig → String → TlsConfig → Resolver → W → Ended × W
  unfolding tunnel_result proxy_outcome must_proxy_endpoint auth_header
  tls_probe_via_proxy proxy addr tls resolver w =
      elim (must_proxy_endpoint ops.url proxy.endpoint) [
        | none ↦ (panicked, w)
        | some u ↦
            let (start, w1) = net.env.now w in
            let (tunnel, w2) =
              dial_proxy_tunnel net
                (record {
                  proxy = u;
                  dest = addr;
                  tls_skip_verify = proxy.tls_skip_verify;
                  auth_header = auth_header ops proxy;
                  resolver = resolver;
                })
                w1 in
            proxy_outcome tls start (tunnel_result tunnel.0) tunnel.0.conn tunnel.1 w2
      ]

  unfoldable pub tls_cert_probe : List Bool → TargetConfig → W → (Ended × Option Worker) × W
  unfolding tls_probe_direct tls_probe_via_proxy tls_config tls_cert_host_port
  tls_cert_probe picks target w =
      let addr = (tls_cert_host_port target.address).1 in
      let resolver = resolver_for target.dns_resolver in
      elim target.resolved_proxy [
        | none ↦ tls_probe_direct picks addr (tls_config target) resolver w
        | some proxy ↦
            let (ended, w1) = tls_probe_via_proxy proxy addr (tls_config target) resolver w in
            ((ended, none), w1)
      ]
