-- ===== src/Probe/Http/Loop.antt =====
-- The redirect loop of probeViaProxy, in internal/probe/http.go and in http_body.go: fuel bounds the
-- recursion, and the test on the hops ends the loop.
pub mod Held
pub mod Answered
use netsonar.Base.{
  ℕ, zero, suc, ◌-◌, leb, Bool, true, false, ◌&&◌, ◌||◌, not, String, List, [], ◌∷◌, Option, none,
  some, if◌then◌else◌,
}
use netsonar.Base.Int.{ℤ}
use netsonar.Proxyurl.{Parts}
use netsonar.Probe.Sockets.{Sockets}
use netsonar.Probe.Tunnel.{ProxyConnectResponse}
use netsonar.Probe.Http.{Headers, Response, HttpOps}
use netsonar.Probe.Http.Redirect.{
  is_redirect, Redirect, stay, follow, bad, resolve_redirect, redirected_request,
}
use netsonar.Probe.Http.Exchange.{ProxyPath, ProxyHttpExchange, execute_proxy_http_exchange}

-- currentURL, currentMethod, currentHeaders and the length of currentBody.
pub record Turn : Type 0 where
  pub url : Parts
  pub method : String
  pub headers : Headers
  pub body_bytes : ℤ

-- How the loop ends; `crashed` is an exchange with neither a response nor an error,
-- `unfinished` that the fuel ran out.
pub data Followed : Type 0 where
  broke : ProxyHttpExchange → String → Followed
  bad_redirect : String → Followed
  too_many : ProxyHttpExchange → Followed
  answered : ProxyHttpExchange → Response → Followed
  crashed : Followed
  unfinished : Followed

-- The end, with the first CONNECT response that was observed, and the redirects that were followed.
pub record LoopEnd : Type 0 where
  pub connect_resp : ProxyConnectResponse
  pub hops : ℕ
  pub followed : Followed

-- What an exchange leads to: the end, or the next URL.
pub data Next : Type 0 where
  stop : Followed → Next
  again : ProxyHttpExchange → Response → Parts → Next

abbrev pub proxy_redirect_limit : ℕ
proxy_redirect_limit = 10

abbrev pub first_observed : ProxyConnectResponse → ProxyConnectResponse → ProxyConnectResponse
first_observed old new = if new.observed && not old.observed then new else old

-- What the loop is given: the path, whether to follow redirects, and the headers and the length of the
-- body of the first request.
pub record LoopConfig : Type 0 where
  pub path : ProxyPath
  pub follow_redirects : Bool
  pub headers : Headers
  pub body_bytes : ℤ

module _ {W : Type 0} {net : Sockets W} (http : HttpOps net) where
  -- The Location of a response is followed or not; its body is closed unless it is the last.
  unfoldable pub take_redirect : ProxyHttpExchange → Response → Redirect → W → Next × W
  take_redirect x r stay w = (stop (answered x r), w)
  take_redirect x r (bad e) w = (stop (bad_redirect e), net.close r.conn w)
  take_redirect x r (follow u) w = (again x r u, net.close r.conn w)

  unfoldable pub judge_exchange :
      Bool → Parts → ProxyHttpExchange → Option Response → Option String → W → Next × W
  unfolding take_redirect
  judge_exchange follows url x resp (some e) w = (stop (broke x e), w)
  judge_exchange follows url x none none w = (stop crashed, w)
  judge_exchange follows url x (some r) none w =
      if not follows || not (is_redirect r.status_code)
      then (stop (answered x r), w)
      else take_redirect x r (resolve_redirect http url r) w

  -- One exchange, and what comes of it.
  unfoldable pub one_round : LoopConfig → Turn → W → (ProxyHttpExchange × Next) × W
  unfolding judge_exchange
  one_round cfg t w =
      let (x, w1) =
        execute_proxy_http_exchange http cfg.path t.url t.method t.headers t.body_bytes w in
      let (n, w2) = judge_exchange cfg.follow_redirects t.url x x.resp x.err w1 in ((x, n), w2)

  -- The request after a redirect.
  unfoldable pub next_turn : LoopConfig → Turn → Response → Parts → Turn
  next_turn cfg t r u =
      let (m, b, hs) = redirected_request http t.method r.status_code cfg.headers cfg.body_bytes in
      record { url = u; method = m; headers = hs; body_bytes = b }

  unfoldable pub redirect_loop : ℕ → LoopConfig → ℕ → ProxyConnectResponse → Turn → W → LoopEnd × W
  unfolding one_round next_turn
  redirect_loop zero cfg hop connect t w =
      (record { connect_resp = connect; hops = hop; followed = unfinished }, w)
  redirect_loop (suc fuel) cfg hop connect t w =
      let (xn, w1) = one_round cfg t w in
      let seen = first_observed connect xn.0.connect_resp in
      elim xn.1 [
        | stop f ↦ (record { connect_resp = seen; hops = hop; followed = f }, w1)
        | again x r u ↦ elim (leb (proxy_redirect_limit - 1) hop) [
          | true ↦ (record { connect_resp = seen; hops = hop; followed = too_many x }, w1)
          | false ↦ redirect_loop fuel cfg (suc hop) seen (next_turn cfg t r u) w1
        ]
      ]
