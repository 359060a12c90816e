-- ===== src/Probe/Http/Exchange.antt =====
-- setupProxyHTTPConn and executeProxyHTTPExchange of internal/probe/http_proxy_path.go.
pub mod Held
pub mod Answered
use netsonar.Base.{
  ℕ, Bool, true, false, String, ◌<>◌, str_eq, List, [], Option, none, some, if◌then◌else◌,
}
use netsonar.Base.Int.{ℤ, pos}
use netsonar.Proxyurl.{Parts}
use netsonar.Probe.Result.{Phase, Certificate}
use netsonar.Probe.Resolve.{Resolver, add_observed_phase}
use netsonar.Probe.Sockets.{Outcome, got, failed, TlsConfig, Sockets}
use netsonar.Probe.Tunnel.{
  ProxyConnectResponse, ProxyTunnelResult, TunnelRequest, no_response, host_port_for_url,
  dial_proxy_tunnel,
}
use netsonar.Probe.Http.{Headers, Request, Response, HttpOps, put_observed_phase}

-- proxyPhaseTrace.
pub record ProxyPhaseTrace : Type 0 where
  pub phases : List (Phase × ℤ)
  pub setup_end : Option ℤ
  pub connect_resp : ProxyConnectResponse
  pub target_tls : Option (List Certificate)

-- The proxy, and what a target says of TLS and names.
pub record ProxyPath : Type 0 where
  pub proxy : Parts
  pub proxy_tls_skip_verify : Bool
  pub target_tls_skip_verify : Bool
  pub auth_header : String
  pub resolver : Resolver

pub record ProxyHttpExchange : Type 0 where
  pub resp : Option Response
  pub phases : List (Phase × ℤ)
  pub setup_end : Option ℤ
  pub wrote_request : Option ℤ
  pub got_first_byte : Option ℤ
  pub connect_resp : ProxyConnectResponse
  pub target_tls : Option (List Certificate)
  pub err : Option String

module _ {W : Type 0} {net : Sockets W} (http : HttpOps net) where
  -- A connection that is set up, or none with an error.
  abbrev pub Setup : Type 0
  Setup = (Option ℕ × ProxyPhaseTrace × Option String) × W

  abbrev pub no_trace : ProxyPhaseTrace
  no_trace = record { phases = []; setup_end = none; connect_resp = no_response; target_tls = none }

  abbrev pub host_or : String → Outcome (String × String) → String
  host_or d (got (host, port)) = host
  host_or d (failed e) = d

  -- The handshake with the target through the tunnel.
  unfoldable pub target_handshake : ProxyPath → Parts → ProxyPhaseTrace → ℕ → W → Setup
  target_handshake path target trace c w =
      let w0 = http.clear_deadline c w in
      let tls : TlsConfig = record {
        server_name = host_or target.hostname (net.split_host_port (host_port_for_url net target));
        insecure_skip_verify = path.target_tls_skip_verify;
      } in
      let (start, w1) = net.env.now w0 in
      let (shaken, w2) = net.handshake c tls w1 in
      let (end, w3) = net.env.now w2 in
      let traced : ProxyPhaseTrace = record trace {
        phases = put_observed_phase trace.phases Phase.tls_handshake (some end) (some start);
      } in
      elim shaken [
        | got certs ↦
            ((some c, record traced { setup_end = some end; target_tls = some certs }, none), w3)
        | failed e ↦ ((none, traced, some ("tls handshake: " <> e)), net.close c w3)
      ]

  -- After the tunnel, by its connection and its error.
  unfoldable pub tunnelled :
      ProxyPath → Parts → ProxyTunnelResult → Option ℕ → Option String → W → Setup
  unfolding target_handshake
  tunnelled path target t conn (some e) w =
      ((none, record no_trace { phases = t.phases; connect_resp = t.connect_resp }, some e), w)
  tunnelled path target t (some c) none w =
      target_handshake path target
        (record no_trace { phases = t.phases; connect_resp = t.connect_resp }) c w
  tunnelled path target t none none w = ((none, no_trace, none), w)

  unfoldable pub setup_proxy_tls_conn : ProxyPath → Parts → W → Setup
  unfolding tunnelled
  setup_proxy_tls_conn path target w =
      let (t, w1) =
        dial_proxy_tunnel net
          (record {
            proxy = path.proxy;
            dest = host_port_for_url net target;
            tls_skip_verify = path.proxy_tls_skip_verify;
            auth_header = path.auth_header;
            resolver = path.resolver;
          })
          w in
      tunnelled path target t.0 t.0.conn t.1 w1

  -- The handshake with the proxy itself.
  unfoldable pub plain_handshake : ProxyPath → ProxyPhaseTrace → ℕ → W → Setup
  plain_handshake path trace c w =
      let tls : TlsConfig = record {
        server_name =
            host_or path.proxy.hostname (net.split_host_port (host_port_for_url net path.proxy));
        insecure_skip_verify = path.proxy_tls_skip_verify;
      } in
      let (start, w1) = net.env.now w in
      let (shaken, w2) = net.handshake c tls w1 in
      let (end, w3) = net.env.now w2 in
      let traced : ProxyPhaseTrace = record trace {
        phases = put_observed_phase trace.phases Phase.proxy_tls (some end) (some start);
      } in
      elim shaken [
        | got certs ↦ ((some c, record traced { setup_end = some end }, none), w3)
        | failed e ↦ ((none, traced, some ("proxy tls handshake: " <> e)), net.close c w3)
      ]

  unfoldable pub plain_dialed : ProxyPath → ProxyPhaseTrace → ℤ → Outcome ℕ → W → Setup
  unfolding plain_handshake
  plain_dialed path trace end (failed e) w = ((none, trace, some ("proxy dial: " <> e)), w)
  plain_dialed path trace end (got c) w =
      let dialed : ProxyPhaseTrace = record trace { setup_end = some end } in
      if str_eq path.proxy.scheme "https"
      then plain_handshake path dialed c w
      else ((some c, dialed, none), w)

  unfoldable pub setup_proxy_plain_conn : ProxyPath → W → Setup
  unfolding plain_dialed
  setup_proxy_plain_conn path w =
      let (start, w1) = net.env.now w in
      let (dialed, w2) = net.dial path.resolver (host_port_for_url net path.proxy) w1 in
      let (end, w3) = net.env.now w2 in
      plain_dialed path
        (record no_trace {
          phases = put_observed_phase [] Phase.proxy_dial (some end) (some start);
        })
        end dialed w3

  unfoldable pub setup_proxy_http_conn : ProxyPath → Parts → W → Setup
  unfolding setup_proxy_tls_conn setup_proxy_plain_conn
  setup_proxy_http_conn path target w =
      if str_eq target.scheme "https"
      then setup_proxy_tls_conn path target w
      else if str_eq target.scheme "http"
      then setup_proxy_plain_conn path w
      else ((none, no_trace, some ("unsupported target URL scheme " <> target.scheme)), w)

  -- The result so far, from the trace of the set-up.
  abbrev pub traced_exchange : ProxyPhaseTrace → ProxyHttpExchange
  traced_exchange trace = record {
    resp = none;
    phases = trace.phases;
    setup_end = trace.setup_end;
    wrote_request = none;
    got_first_byte = none;
    connect_resp = trace.connect_resp;
    target_tls = trace.target_tls;
    err = none;
  }

  -- The times of the write and of the first byte, with their phases.
  abbrev pub with_write : ProxyHttpExchange → ℤ → ProxyHttpExchange
  with_write x end = record x {
    wrote_request = some end;
    phases = put_observed_phase x.phases Phase.request_write (some end) x.setup_end;
  }

  abbrev pub with_first_byte : ProxyHttpExchange → Option ℤ → ProxyHttpExchange
  with_first_byte x t = record x {
    got_first_byte = t;
    phases = put_observed_phase x.phases Phase.ttfb t x.wrote_request;
  }

  -- The return with an error, and the deferred close.
  unfoldable pub failed_exchange : ProxyHttpExchange → ℕ → String → W → ProxyHttpExchange × W
  failed_exchange x c e w = (record x { err = some e }, net.close c w)

  unfoldable pub read_exchange : ProxyHttpExchange → ℕ → W → ProxyHttpExchange × W
  unfolding failed_exchange
  read_exchange x c w =
      let (r, w1) = http.read_http c w in
      let seen = with_first_byte x r.1 in
      elim r.0 [
        | got sl ↦ (
          record seen { resp = some (record { status_code = sl.0; location = sl.1; conn = c }) },
          w1,
        )
        | failed e ↦ failed_exchange seen c ("reading response: " <> e) w1
      ]

  unfoldable pub write_exchange : ProxyHttpExchange → Request → ℕ → W → ProxyHttpExchange × W
  unfolding read_exchange failed_exchange
  write_exchange x q c w =
      let (written, w1) = http.write_request c q w in
      let (end, w2) = net.env.now w1 in
      let wrote = with_write x end in
      elim written [
        | got u ↦ read_exchange wrote c w2
        | failed e ↦ failed_exchange wrote c ("writing request: " <> e) w2
      ]

  -- After the set-up, by its connection and its error.
  unfoldable pub use_conn :
      ProxyHttpExchange → Request → Option ℕ → Option String → W → ProxyHttpExchange × W
  unfolding write_exchange failed_exchange
  use_conn x q conn (some e) w = (record x { err = some e }, w)
  use_conn x q (some c) none w =
      let w1 = (net.set_deadline c w).1 in
      elim (http.check_request q.method q.url) [
        | failed e ↦ failed_exchange x c ("creating request: " <> e) w1
        | got u ↦ write_exchange x q c w1
      ]
  use_conn x q none none w = (x, w)

  -- `plain` requests carry the authorization of the proxy.
  unfoldable pub execute_proxy_http_exchange :
      ProxyPath → Parts → String → Headers → ℤ → W → ProxyHttpExchange × W
  unfolding setup_proxy_http_conn use_conn
  execute_proxy_http_exchange path target method headers body_bytes w =
      let (s, w1) = setup_proxy_http_conn path target w in
      use_conn (traced_exchange s.1)
        (record {
          method = method;
          url = target;
          headers = headers;
          body_bytes = body_bytes;
          proxy_auth = if str_eq target.scheme "http" then some path.auth_header else none;
        })
        s.0 s.2 w1

  -- buildProxyPhases.
  unfoldable pub build_proxy_phases : ProxyHttpExchange → Option ℤ → List (Phase × ℤ)
  build_proxy_phases x transfer_end =
      put_observed_phase
        (put_observed_phase
          (put_observed_phase x.phases Phase.request_write x.wrote_request x.setup_end) Phase.ttfb
          x.got_first_byte x.wrote_request)
        Phase.transfer transfer_end x.got_first_byte
