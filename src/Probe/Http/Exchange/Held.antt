-- ===== src/Probe/Http/Exchange/Held.antt =====
-- The connection that an exchange of internal/probe/http_proxy_path.go holds, on every path.
use netsonar.Base.{
  ℕ, ◌≡◌, refl, ap, ◌∙◌, inl, inr, String, str_eq, NonEmpty, NonEmpty-<>, List, ◌∷◌, Option, none,
  some, Bool-cases,
}
use netsonar.Base.Int.{ℤ}
use netsonar.Proxyurl.{Parts}
use netsonar.Probe.Sockets.{Outcome, Outcome-cases, got, failed, opened, TlsConfig, Sockets}
use netsonar.Probe.Tcp.Closed.{close-held}
use netsonar.Probe.Tunnel.{ProxyTunnelResult, TunnelRequest, host_port_for_url, dial_proxy_tunnel}
use netsonar.Probe.Tunnel.Held.{Leaves, dial_proxy_tunnel-IsTunnelled}
use netsonar.Probe.Http.{Headers, Request, Response, HttpOps}
use netsonar.Probe.Http.Exchange.{
  ProxyPhaseTrace, ProxyPath, ProxyHttpExchange, host_or, target_handshake, tunnelled,
  setup_proxy_tls_conn, plain_handshake, plain_dialed, setup_proxy_plain_conn,
  setup_proxy_http_conn, traced_exchange, with_write, with_first_byte, failed_exchange,
  read_exchange, write_exchange, use_conn, execute_proxy_http_exchange,
}

-- One new connection and no error, or an error and none.
abbrev pub OneOrNone : List ℕ → Option ℕ → Option String → List ℕ → Type 0
OneOrNone cs (some c) none held = held ≡ c ∷ cs
OneOrNone cs none (some e) held = (held ≡ cs) × NonEmpty e
OneOrNone cs none none held = ⊥
OneOrNone cs (some c) (some e) held = ⊥

abbrev pub conn_of : Option Response → Option ℕ
conn_of none = none
conn_of (some r) = some r.conn

module _ {W : Type 0} {net : Sockets W} (http : HttpOps net) where
  abbrev IsSetUp : List ℕ → (Option ℕ × ProxyPhaseTrace × Option String) × W → Type 0
  IsSetUp cs ((conn, trace, err), w) = OneOrNone cs conn err (net.held w)

  abbrev pub IsExchanged : List ℕ → ProxyHttpExchange × W → Type 0
  IsExchanged cs (x, w) = OneOrNone cs (conn_of x.resp) x.err (net.held w)

  module _ (path : ProxyPath) (c : ℕ) (cs : List ℕ) where
    target_handshake-IsSetUp :
        (target : Parts) (trace : ProxyPhaseTrace) (w : W)
        → net.held w ≡ c ∷ cs
        → IsSetUp cs (target_handshake http path target trace c w)
    unfolding target_handshake
    target_handshake-IsSetUp target trace w h =
        let w0 = http.clear_deadline c w in
        let tls : TlsConfig = record {
          server_name =
              host_or http target.hostname (net.split_host_port (host_port_for_url net target));
          insecure_skip_verify = path.target_tls_skip_verify;
        } in
        let w1 = (net.env.now w0).1 in
        let w2 = (net.handshake c tls w1).1 in
        let kept : net.held (net.env.now w2).1 ≡ c ∷ cs =
          net.held-now w2
          ∙ net.held-handshake c tls w1
          ∙ net.held-now w0
          ∙ http.held-clear c w
          ∙ h in
        elim (Outcome-cases (net.handshake c tls w1).0) [
          | inl (certs, e) ↦ rw (e, target_handshake) kept
          | inr (m, e) ↦
              rw (e, target_handshake)
                (close-held net c cs _ kept, NonEmpty-<> "tls handshake: " m refl)
        ]

    plain_handshake-IsSetUp :
        (trace : ProxyPhaseTrace) (w : W)
        → net.held w ≡ c ∷ cs
        → IsSetUp cs (plain_handshake http path trace c w)
    unfolding plain_handshake
    plain_handshake-IsSetUp trace w h =
        let tls : TlsConfig = record {
          server_name =
              host_or http path.proxy.hostname
                (net.split_host_port (host_port_for_url net path.proxy));
          insecure_skip_verify = path.proxy_tls_skip_verify;
        } in
        let w1 = (net.env.now w).1 in
        let w2 = (net.handshake c tls w1).1 in
        let kept : net.held (net.env.now w2).1 ≡ c ∷ cs =
          net.held-now w2 ∙ net.held-handshake c tls w1 ∙ net.held-now w ∙ h in
        elim (Outcome-cases (net.handshake c tls w1).0) [
          | inl (certs, e) ↦ rw (e, plain_handshake) kept
          | inr (m, e) ↦
              rw (e, plain_handshake)
                (close-held net c cs _ kept, NonEmpty-<> "proxy tls handshake: " m refl)
        ]

  tunnelled-IsSetUp :
      (path : ProxyPath) (target : Parts) (t : ProxyTunnelResult) (conn : Option ℕ)
      (err : Option String) (w : W) (cs : List ℕ)
      → Leaves cs conn err t (net.held w)
      → IsSetUp cs (tunnelled http path target t conn err w)
  unfolding tunnelled
  tunnelled-IsSetUp path target t none (some e) w cs l = l
  tunnelled-IsSetUp path target t (some c) none w cs l =
      target_handshake-IsSetUp path c cs target _ w l.0
  tunnelled-IsSetUp path target t none none w cs l = l
  tunnelled-IsSetUp path target t (some c) (some e) w cs l = absurd l

  setup_proxy_tls_conn-IsSetUp :
      (path : ProxyPath) (target : Parts) (w : W)
      → IsSetUp (net.held w) (setup_proxy_tls_conn http path target w)
  unfolding setup_proxy_tls_conn
  setup_proxy_tls_conn-IsSetUp path target w =
      let q : TunnelRequest = record {
        proxy = path.proxy;
        dest = host_port_for_url net target;
        tls_skip_verify = path.proxy_tls_skip_verify;
        auth_header = path.auth_header;
        resolver = path.resolver;
      } in
      let t = dial_proxy_tunnel net q w in
      tunnelled-IsSetUp path target t.0.0 t.0.0.conn t.0.1 t.1 (net.held w)
        (dial_proxy_tunnel-IsTunnelled net q w)

  plain_dialed-IsSetUp :
      (path : ProxyPath) (trace : ProxyPhaseTrace) (end : ℤ) (r : Outcome ℕ) (w : W) (cs : List ℕ)
      → net.held w ≡ opened r cs
      → IsSetUp cs (plain_dialed http path trace end r w)
  unfolding plain_dialed
  plain_dialed-IsSetUp path trace end (failed e) w cs h = (h, NonEmpty-<> "proxy dial: " e refl)
  plain_dialed-IsSetUp path trace end (got c) w cs h =
      elim (Bool-cases (str_eq path.proxy.scheme "https")) [
        | inl e ↦ rw e (plain_handshake-IsSetUp path c cs _ w h)
        | inr e ↦ rw e h
      ]

  setup_proxy_plain_conn-IsSetUp :
      (path : ProxyPath) (w : W) → IsSetUp (net.held w) (setup_proxy_plain_conn http path w)
  unfolding setup_proxy_plain_conn
  setup_proxy_plain_conn-IsSetUp path w =
      let w1 = (net.env.now w).1 in
      let addr = host_port_for_url net path.proxy in
      plain_dialed-IsSetUp path _ _ _ _ _
        (net.held-now _ ∙ net.held-dial path.resolver addr w1 ∙ ap (opened _) (net.held-now w))

  setup_proxy_http_conn-IsSetUp :
      (path : ProxyPath) (target : Parts) (w : W)
      → IsSetUp (net.held w) (setup_proxy_http_conn http path target w)
  unfolding setup_proxy_http_conn
  setup_proxy_http_conn-IsSetUp path target w = elim (Bool-cases (str_eq target.scheme "https")) [
    | inl e ↦ rw e (setup_proxy_tls_conn-IsSetUp path target w)
    | inr e ↦ rw e (elim (Bool-cases (str_eq target.scheme "http")) [
      | inl f ↦ rw f (setup_proxy_plain_conn-IsSetUp path w)
      | inr f ↦ rw f (refl, NonEmpty-<> "unsupported target URL scheme " target.scheme refl)
    ])
  ]

  -- An exchange that goes on has no error and no response yet.
  abbrev IsOpen : ProxyHttpExchange → Type 0
  IsOpen x = (x.resp ≡ none) × (x.err ≡ none)

  failed_exchange-IsExchanged :
      (x : ProxyHttpExchange) (c : ℕ) (e : String) (w : W) (cs : List ℕ)
      → IsOpen x
      → NonEmpty e
      → net.held w ≡ c ∷ cs
      → IsExchanged cs (failed_exchange http x c e w)
  unfolding failed_exchange
  failed_exchange-IsExchanged x c e w cs o n h = rw o.0 (close-held net c cs w h, n)

  read_exchange-IsExchanged :
      (x : ProxyHttpExchange) (c : ℕ) (w : W) (cs : List ℕ)
      → IsOpen x
      → net.held w ≡ c ∷ cs
      → IsExchanged cs (read_exchange http x c w)
  unfolding read_exchange
  read_exchange-IsExchanged x c w cs o h =
      let kept = http.held-read_http c w ∙ h in
      elim (Outcome-cases (http.read_http c w).0.0) [
        | inl (sl, e) ↦ rw (e, read_exchange) (rw o.1 kept)
        | inr (m, e) ↦
            rw (e, read_exchange)
              (failed_exchange-IsExchanged (with_first_byte http x (http.read_http c w).0.1) c _ _
                cs o (NonEmpty-<> "reading response: " m refl) kept)
      ]

  write_exchange-IsExchanged :
      (x : ProxyHttpExchange) (q : Request) (c : ℕ) (w : W) (cs : List ℕ)
      → IsOpen x
      → net.held w ≡ c ∷ cs
      → IsExchanged cs (write_exchange http x q c w)
  unfolding write_exchange
  write_exchange-IsExchanged x q c w cs o h =
      let kept = net.held-now (http.write_request c q w).1 ∙ http.held-write_request c q w ∙ h in
      elim (Outcome-cases (http.write_request c q w).0) [
        | inl (u, e) ↦
            rw (e, write_exchange)
              (read_exchange-IsExchanged
                (with_write http x (net.env.now (http.write_request c q w).1).0) c _ cs o kept)
        | inr (m, e) ↦
            rw (e, write_exchange)
              (failed_exchange-IsExchanged
                (with_write http x (net.env.now (http.write_request c q w).1).0) c _ _ cs o
                (NonEmpty-<> "writing request: " m refl) kept)
      ]

  use_conn-IsExchanged :
      (x : ProxyHttpExchange) (q : Request) (conn : Option ℕ) (err : Option String) (w : W)
      (cs : List ℕ)
      → IsOpen x
      → OneOrNone cs conn err (net.held w)
      → IsExchanged cs (use_conn http x q conn err w)
  unfolding use_conn
  use_conn-IsExchanged x q none (some e) w cs o h = rw o.0 h
  use_conn-IsExchanged x q (some c) none w cs o h =
      let kept = net.held-deadline c w ∙ h in
      elim (Outcome-cases (http.check_request q.method q.url)) [
        | inl (u, e) ↦ rw (e, use_conn) (write_exchange-IsExchanged x q c _ cs o kept)
        | inr (m, e) ↦
            rw (e, use_conn)
              (failed_exchange-IsExchanged x c _ _ cs o (NonEmpty-<> "creating request: " m refl)
                kept)
      ]
  use_conn-IsExchanged x q none none w cs o h = absurd h
  use_conn-IsExchanged x q (some c) (some e) w cs o h = absurd h

  -- An exchange yields a response on one new connection, or an error with nothing left open.
  pub execute_proxy_http_exchange-IsExchanged :
      (path : ProxyPath) (target : Parts) (method : String) (headers : Headers) (body_bytes : ℤ)
      (w : W)
      → IsExchanged
          (net.held w)
          (execute_proxy_http_exchange http path target method headers body_bytes w)
  unfolding execute_proxy_http_exchange
  execute_proxy_http_exchange-IsExchanged path target method headers body_bytes w =
      let s = setup_proxy_http_conn http path target w in
      use_conn-IsExchanged (traced_exchange http s.0.1) _ s.0.0 s.0.2 s.1 (net.held w) (refl, refl)
        (setup_proxy_http_conn-IsSetUp path target w)
