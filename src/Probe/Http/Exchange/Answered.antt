-- ===== src/Probe/Http/Exchange/Answered.antt =====
-- Where the response of an exchange of internal/probe/http_proxy_path.go comes from.
use netsonar.Base.{ℕ, ◌≡◌, refl, String, Option, none, some, inl, inr}
use netsonar.Base.Int.{ℤ}
use netsonar.Proxyurl.{Parts}
use netsonar.Probe.Sockets.{Outcome-cases, got, Sockets}
use netsonar.Probe.Http.{Headers, Request, Response, HttpOps}
use netsonar.Probe.Http.Exchange.{
  ProxyPath, ProxyHttpExchange, setup_proxy_http_conn, traced_exchange, with_write, failed_exchange,
  read_exchange, write_exchange, use_conn, execute_proxy_http_exchange,
}

-- A response with a status was read on a connection.
abbrev pub ReadHttp : {W : Type 0} {net : Sockets W} → HttpOps net → ℤ → ℕ → Type 0
ReadHttp {W} http status c =
    (v : W) × (location : String) × ((http.read_http c v).0.0 ≡ got (status, location))

module _ {W : Type 0} {net : Sockets W} (http : HttpOps net) where
  -- The response, if there is one, was read on its connection.
  abbrev pub Answered : Option Response → Type 0
  Answered none = Unit
  Answered (some r) = ReadHttp http r.status_code r.conn

  read_exchange-Answered :
      (x : ProxyHttpExchange) (c : ℕ) (w : W)
      → x.resp ≡ none
      → Answered (read_exchange http x c w).0.resp
  unfolding read_exchange failed_exchange
  read_exchange-Answered x c w o = elim (Outcome-cases (http.read_http c w).0.0) [
    | inl (sl, e) ↦ rw (e, read_exchange) (w, sl.1, e)
    | inr (m, e) ↦ rw (e, read_exchange) (rw o tt)
  ]

  write_exchange-Answered :
      (x : ProxyHttpExchange) (q : Request) (c : ℕ) (w : W)
      → x.resp ≡ none
      → Answered (write_exchange http x q c w).0.resp
  unfolding write_exchange failed_exchange
  write_exchange-Answered x q c w o =
      let wrote = with_write http x (net.env.now (http.write_request c q w).1).0 in
      elim (Outcome-cases (http.write_request c q w).0) [
        | inl (u, e) ↦ rw (e, write_exchange) (read_exchange-Answered wrote c _ o)
        | inr (m, e) ↦ rw (e, write_exchange) (rw o tt)
      ]

  use_conn-Answered :
      (x : ProxyHttpExchange) (q : Request) (conn : Option ℕ) (err : Option String) (w : W)
      → x.resp ≡ none
      → Answered (use_conn http x q conn err w).0.resp
  unfolding use_conn failed_exchange
  use_conn-Answered x q conn (some e) w o = rw o tt
  use_conn-Answered x q (some c) none w o =
      elim (Outcome-cases (http.check_request q.method q.url)) [
        | inl (u, e) ↦ rw (e, use_conn) (write_exchange-Answered x q c _ o)
        | inr (m, e) ↦ rw (e, use_conn) (rw o tt)
      ]
  use_conn-Answered x q none none w o = rw o tt

  pub execute_proxy_http_exchange-Answered :
      (path : ProxyPath) (target : Parts) (method : String) (headers : Headers) (body_bytes : ℤ)
      (w : W)
      → Answered (execute_proxy_http_exchange http path target method headers body_bytes w).0.resp
  unfolding execute_proxy_http_exchange
  execute_proxy_http_exchange-Answered path target method headers body_bytes w =
      let s = setup_proxy_http_conn http path target w in
      use_conn-Answered (traced_exchange http s.0.1) _ s.0.0 s.0.2 s.1 refl
