-- ===== src/Probe/Tunnel/Held.antt =====
-- What dialProxyTunnel of internal/probe/proxy_tunnel.go leaves open, on every path.
use netsonar.Base.{
  ℕ, ◌≡◌, refl, ap, inl, inr, ◌∙◌, true, ◌||◌, String, str_eq, NonEmpty, NonEmpty-<>, List, ◌∷◌,
  Option, none, some, arith, Bool-cases,
}
use netsonar.Base.Int.{ℤ, pos, ltb_ℤ, ◌≤ℤ◌, show_ℤ}
use netsonar.Probe.Result.{Phase}
use netsonar.Probe.Sockets.{Outcome, Outcome-cases, got, failed, Sockets, remove, opened, TlsConfig}
use netsonar.Probe.Tunnel.{
  host_of, host_port_for_url, ProxyTunnelResult, TunnelRequest, close_failed, judge_response,
  read_connect, connect_through, after_tls, proxy_handshake, dialed_proxy, dial_proxy_tunnel,
}

-- With an error nothing is open that was not before; with none the one new connection is that of the
-- tunnel, and the proxy answered with a status of success.
abbrev pub Leaves : List ℕ → Option ℕ → Option String → ProxyTunnelResult → List ℕ → Type 0
Leaves cs (some c) none r held =
    (held ≡ c ∷ cs)
    × (r.connect_resp.observed ≡ true)
    × (pos 200 ≤ℤ r.connect_resp.status_code)
    × (r.connect_resp.status_code ≤ℤ pos 299)
Leaves cs none (some e) r held = (held ≡ cs) × NonEmpty e
Leaves cs none none r held = ⊥
Leaves cs (some c) (some e) r held = ⊥

remove_head : (c : ℕ) (cs : List ℕ) → remove c (c ∷ cs) ≡ cs
remove_head c cs = ground arith

module _ {W : Type 0} (net : Sockets W) where
  abbrev pub IsTunnelled : List ℕ → (ProxyTunnelResult × Option String) × W → Type 0
  IsTunnelled cs ((r, err), w) = Leaves cs r.conn err r (net.held w)

  module _ (c : ℕ) (cs : List ℕ) where
    closed : (w : W) → net.held w ≡ c ∷ cs → net.held (net.close c w) ≡ cs
    closed w h = net.held-close c w ∙ ap (remove c) h ∙ remove_head c cs

    judge_response-IsTunnelled :
        (phases : List (Phase × ℤ)) (status : ℤ) (w : W)
        → net.held w ≡ c ∷ cs
        → IsTunnelled cs (judge_response net c phases status w)
    unfolding judge_response close_failed
    judge_response-IsTunnelled phases status w h =
        elim (Bool-cases (ltb_ℤ status (pos 200) || ltb_ℤ (pos 299) status)) [
          | inl e ↦
              rw e (closed w h, NonEmpty-<> "proxy CONNECT returned status " (show_ℤ status) refl)
          | inr e ↦ rw e (h, refl, ground arith, ground arith)
        ]

    read_connect-IsTunnelled :
        (phases : List (Phase × ℤ)) (start : ℤ) (w : W)
        → net.held w ≡ c ∷ cs
        → IsTunnelled cs (read_connect net c phases start w)
    unfolding read_connect close_failed
    read_connect-IsTunnelled phases start w h =
        let w1 = (net.read_response c w).1 in
        let w2 = (net.env.now w1).1 in
        let kept : net.held w2 ≡ c ∷ cs = net.held-now w1 ∙ net.held-read c w ∙ h in
        elim (Outcome-cases (net.read_response c w).0) [
          | inl (status, e) ↦ rw (e, read_connect) (judge_response-IsTunnelled _ status w2 kept)
          | inr (m, e) ↦
              rw (e, read_connect) (closed w2 kept, NonEmpty-<> "reading CONNECT response: " m refl)
        ]

    connect_through-IsTunnelled :
        (q : TunnelRequest) (phases : List (Phase × ℤ)) (w : W)
        → net.held w ≡ c ∷ cs
        → IsTunnelled cs (connect_through net q c phases w)
    unfolding connect_through close_failed
    connect_through-IsTunnelled q phases w h =
        let w1 = (net.env.now w).1 in
        let w2 = (net.write_connect c q.dest q.auth_header w1).1 in
        let kept : net.held w2 ≡ c ∷ cs =
          net.held-write c q.dest q.auth_header w1 ∙ net.held-now w ∙ h in
        elim (Outcome-cases (net.write_connect c q.dest q.auth_header w1).0) [
          | inl (u, e) ↦ rw (e, connect_through) (read_connect-IsTunnelled phases _ w2 kept)
          | inr (m, e) ↦
              rw (e, connect_through)
                (closed _ (net.held-now w2 ∙ kept), NonEmpty-<> "writing CONNECT request: " m refl)
        ]

    after_tls-IsTunnelled :
        (q : TunnelRequest) (phases : List (Phase × ℤ)) (w : W)
        → net.held w ≡ c ∷ cs
        → IsTunnelled cs (after_tls net q c phases w)
    unfolding after_tls close_failed
    after_tls-IsTunnelled q phases w h =
        let w1 = (net.set_deadline c w).1 in
        let kept : net.held w1 ≡ c ∷ cs = net.held-deadline c w ∙ h in
        elim (Outcome-cases (net.set_deadline c w).0) [
          | inl (u, e) ↦ rw (e, after_tls) (connect_through-IsTunnelled q phases w1 kept)
          | inr (m, e) ↦ rw (e, after_tls) (closed w1 kept, NonEmpty-<> "set deadline: " m refl)
        ]

    proxy_handshake-IsTunnelled :
        (q : TunnelRequest) (phases : List (Phase × ℤ)) (w : W)
        → net.held w ≡ c ∷ cs
        → IsTunnelled cs (proxy_handshake net q c phases w)
    unfolding proxy_handshake close_failed
    proxy_handshake-IsTunnelled q phases w h =
        let tls : TlsConfig = record {
          server_name = host_of net (net.split_host_port (host_port_for_url net q.proxy));
          insecure_skip_verify = q.tls_skip_verify;
        } in
        let w1 = (net.env.now w).1 in
        let w2 = (net.handshake c tls w1).1 in
        let w3 = (net.env.now w2).1 in
        let kept : net.held w3 ≡ c ∷ cs =
          net.held-now w2 ∙ net.held-handshake c tls w1 ∙ net.held-now w ∙ h in
        elim (Outcome-cases (net.handshake c tls w1).0) [
          | inl (u, e) ↦ rw (e, proxy_handshake) (after_tls-IsTunnelled q _ w3 kept)
          | inr (m, e) ↦
              rw (e, proxy_handshake) (closed w3 kept, NonEmpty-<> "proxy tls handshake: " m refl)
        ]

  dialed_proxy-IsTunnelled :
      (q : TunnelRequest) (phases : List (Phase × ℤ)) (r : Outcome ℕ) (w : W) (cs : List ℕ)
      → net.held w ≡ opened r cs
      → IsTunnelled cs (dialed_proxy net q phases r w)
  unfolding dialed_proxy
  dialed_proxy-IsTunnelled q phases (failed e) w cs h = (h, NonEmpty-<> "proxy dial: " e refl)
  dialed_proxy-IsTunnelled q phases (got c) w cs h =
      elim (Bool-cases (str_eq q.proxy.scheme "https")) [
        | inl e ↦ rw e (proxy_handshake-IsTunnelled c cs q phases w h)
        | inr e ↦ rw e (after_tls-IsTunnelled c cs q phases w h)
      ]

  -- A tunnel fails with a text and everything closed that it opened, or it succeeds with one new
  -- connection and a status from 200 to 299.
  pub dial_proxy_tunnel-IsTunnelled :
      (q : TunnelRequest) (w : W) → IsTunnelled (net.held w) (dial_proxy_tunnel net q w)
  unfolding dial_proxy_tunnel
  dial_proxy_tunnel-IsTunnelled q w =
      let w1 = (net.env.now w).1 in
      let addr = host_port_for_url net q.proxy in
      dialed_proxy-IsTunnelled q _ _ _ _
        (net.held-now _ ∙ net.held-dial q.resolver addr w1 ∙ ap (opened _) (net.held-now w))
