-- ===== src/Probe/Tunnel.antt =====
-- dialProxyTunnel of internal/probe/proxy_tunnel.go. The bytes of the CONNECT exchange are the library's.
pub mod Held
use netsonar.Base.{
  ℕ, Bool, true, false, ◌||◌, String, ◌<>◌, str_eq, is_blank, List, [], ◌∷◌, Option, none, some,
  if◌then◌else◌,
}
use netsonar.Base.Int.{ℤ, pos, ltb_ℤ, show_ℤ}
use netsonar.Proxyurl.{Parts, UrlOps, ok, err, parse}
use netsonar.Probe.Result.{Phase}
use netsonar.Probe.Resolve.{Resolver, add_observed_phase}
use netsonar.Probe.Sockets.{Outcome, got, failed, TlsConfig, Sockets}

pub record ProxyConnectResponse : Type 0 where
  pub status_code : ℤ
  pub observed : Bool

pub record ProxyTunnelResult : Type 0 where
  pub conn : Option ℕ
  pub phases : List (Phase × ℤ)
  pub connect_resp : ProxyConnectResponse

abbrev pub no_response : ProxyConnectResponse
no_response = record { status_code = pos 0; observed = false }

-- A tunnel that failed before a response was read, with the phases so far.
abbrev failed_tunnel : List (Phase × ℤ) → ProxyTunnelResult
failed_tunnel phases = record { conn = none; phases = phases; connect_resp = no_response }

-- The arguments of a tunnel.
pub record TunnelRequest : Type 0 where
  pub proxy : Parts
  pub dest : String
  pub tls_skip_verify : Bool
  pub auth_header : String
  pub resolver : Resolver

-- mustProxyEndpoint of internal/probe/proxy_endpoint.go; `none` is its panic.
unfoldable pub must_proxy_endpoint : UrlOps → String → Option Parts
must_proxy_endpoint ops raw = elim (parse ops raw) [ ok u ↦ some u | err e ↦ none ]

module _ {W : Type 0} (net : Sockets W) where
  unfoldable pub host_port_for_url : Parts → String
  host_port_for_url u =
      net.join_host_port u.hostname
        (if is_blank u.port then (if str_eq u.scheme "https" then "443" else "80") else u.port)

  -- The host of an address, "" if it has none.
  abbrev pub host_of : Outcome (String × String) → String
  host_of (got (host, port)) = host
  host_of (failed e) = ""

  abbrev pub Tunnelled : Type 0
  Tunnelled = (ProxyTunnelResult × Option String) × W

  -- The deferred close on an error.
  unfoldable pub close_failed : ℕ → ProxyTunnelResult → String → W → Tunnelled
  close_failed c r e w = ((r, some e), net.close c w)

  unfoldable pub judge_response : ℕ → List (Phase × ℤ) → ℤ → W → Tunnelled
  unfolding close_failed
  judge_response c phases status w =
      let seen : ProxyConnectResponse = record { status_code = status; observed = true } in
      if ltb_ℤ status (pos 200) || ltb_ℤ (pos 299) status
      then close_failed c (record { conn = none; phases = phases; connect_resp = seen })
          ("proxy CONNECT returned status " <> show_ℤ status) w
      else ((record { conn = some c; phases = phases; connect_resp = seen }, none), w)

  unfoldable pub read_connect : ℕ → List (Phase × ℤ) → ℤ → W → Tunnelled
  unfolding judge_response close_failed
  read_connect c phases start w =
      let (resp, w1) = net.read_response c w in
      let (end, w2) = net.env.now w1 in
      let phases' = add_observed_phase phases Phase.proxy_connect (some end) (some start) in
      elim resp [
        | got status ↦ judge_response c phases' status w2
        | failed e ↦ close_failed c (failed_tunnel phases') ("reading CONNECT response: " <> e) w2
      ]

  unfoldable pub connect_through : TunnelRequest → ℕ → List (Phase × ℤ) → W → Tunnelled
  unfolding read_connect close_failed
  connect_through q c phases w =
      let (start, w1) = net.env.now w in
      let (written, w2) = net.write_connect c q.dest q.auth_header w1 in
      elim written [
        | got u ↦ read_connect c phases start w2
        | failed e ↦
            let (end, w3) = net.env.now w2 in
            close_failed c
              (failed_tunnel
                (add_observed_phase phases Phase.proxy_connect (some end) (some start)))
              ("writing CONNECT request: " <> e) w3
      ]

  unfoldable pub after_tls : TunnelRequest → ℕ → List (Phase × ℤ) → W → Tunnelled
  unfolding connect_through close_failed
  after_tls q c phases w =
      let (armed, w1) = net.set_deadline c w in
      elim armed [
        | got u ↦ connect_through q c phases w1
        | failed e ↦ close_failed c (failed_tunnel phases) ("set deadline: " <> e) w1
      ]

  unfoldable pub proxy_handshake : TunnelRequest → ℕ → List (Phase × ℤ) → W → Tunnelled
  unfolding after_tls close_failed host_port_for_url
  proxy_handshake q c phases w =
      let tls : TlsConfig = record {
        server_name = host_of (net.split_host_port (host_port_for_url q.proxy));
        insecure_skip_verify = q.tls_skip_verify;
      } in
      let (start, w1) = net.env.now w in
      let (shaken, w2) = net.handshake c tls w1 in
      let (end, w3) = net.env.now w2 in
      let phases' = add_observed_phase phases Phase.proxy_tls (some end) (some start) in
      elim shaken [
        | got certs ↦ after_tls q c phases' w3
        | failed e ↦ close_failed c (failed_tunnel phases') ("proxy tls handshake: " <> e) w3
      ]

  unfoldable pub dialed_proxy : TunnelRequest → List (Phase × ℤ) → Outcome ℕ → W → Tunnelled
  unfolding proxy_handshake after_tls
  dialed_proxy q phases (failed e) w = ((failed_tunnel phases, some ("proxy dial: " <> e)), w)
  dialed_proxy q phases (got c) w =
      if str_eq q.proxy.scheme "https" then proxy_handshake q c phases w else after_tls q c phases w

  unfoldable pub dial_proxy_tunnel : TunnelRequest → W → Tunnelled
  unfolding dialed_proxy host_port_for_url
  dial_proxy_tunnel q w =
      let (start, w1) = net.env.now w in
      let (dialed, w2) = net.dial q.resolver (host_port_for_url q.proxy) w1 in
      let (end, w3) = net.env.now w2 in
      dialed_proxy q (add_observed_phase [] Phase.proxy_dial (some end) (some start)) dialed w3
