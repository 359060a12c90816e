-- ===== src/Probe/Http/Loop/Answered.antt =====
-- The answer with which the redirect loop of the HTTP probes ends was read on its connection.
use netsonar.Base.{
  ℕ, zero, suc, ◌-◌, leb, subst, Bool, ◌||◌, not, String, Option, none, some, Bool-cases, inl, inr,
}
use netsonar.Proxyurl.{Parts}
use netsonar.Probe.Sockets.{Sockets}
use netsonar.Probe.Tunnel.{ProxyConnectResponse}
use netsonar.Probe.Http.{Response, HttpOps}
use netsonar.Probe.Http.Redirect.{is_redirect, Redirect, stay, follow, bad, resolve_redirect}
use netsonar.Probe.Http.Exchange.{ProxyHttpExchange, execute_proxy_http_exchange}
use netsonar.Probe.Http.Exchange.Answered.{ReadHttp, Answered, execute_proxy_http_exchange-Answered}
use netsonar.Probe.Http.Loop.{
  Turn, Followed, broke, bad_redirect, too_many, answered, crashed, unfinished, Next, stop, again,
  LoopConfig, take_redirect, judge_exchange, one_round, next_turn, redirect_loop, first_observed,
  proxy_redirect_limit,
}
use netsonar.Probe.Http.Loop.Held.{Next-cases}

module _ {W : Type 0} {net : Sockets W} (http : HttpOps net) where
  abbrev pub EndAnswered : Followed → Type 0
  EndAnswered (answered x r) = ReadHttp http r.status_code r.conn
  EndAnswered (broke x e) = Unit
  EndAnswered (bad_redirect e) = Unit
  EndAnswered (too_many x) = Unit
  EndAnswered crashed = Unit
  EndAnswered unfinished = Unit

  abbrev NextAnswered : Next → Type 0
  NextAnswered (stop f) = EndAnswered f
  NextAnswered (again x r u) = Unit

  take_redirect-NextAnswered :
      (x : ProxyHttpExchange) (r : Response) (d : Redirect) (w : W)
      → ReadHttp http r.status_code r.conn
      → NextAnswered (take_redirect http x r d w).0
  unfolding take_redirect
  take_redirect-NextAnswered x r stay w h = h
  take_redirect-NextAnswered x r (bad e) w h = tt
  take_redirect-NextAnswered x r (follow u) w h = tt

  judge_exchange-NextAnswered :
      (follows : Bool) (url : Parts) (x : ProxyHttpExchange) (resp : Option Response)
      (err : Option String) (w : W)
      → Answered http resp
      → NextAnswered (judge_exchange http follows url x resp err w).0
  unfolding judge_exchange
  judge_exchange-NextAnswered follows url x resp (some e) w h = tt
  judge_exchange-NextAnswered follows url x none none w h = tt
  judge_exchange-NextAnswered follows url x (some r) none w h =
      elim (Bool-cases (not follows || not (is_redirect r.status_code))) [
        | inl e ↦ rw e h
        | inr e ↦ rw e (take_redirect-NextAnswered x r (resolve_redirect http url r) w h)
      ]

  one_round-NextAnswered :
      (cfg : LoopConfig) (t : Turn) (w : W) → NextAnswered (one_round http cfg t w).0.1
  unfolding one_round
  one_round-NextAnswered cfg t w =
      let x = execute_proxy_http_exchange http cfg.path t.url t.method t.headers t.body_bytes w in
      judge_exchange-NextAnswered cfg.follow_redirects t.url x.0 x.0.resp x.0.err x.1
        (execute_proxy_http_exchange-Answered http cfg.path t.url t.method t.headers t.body_bytes w)

  pub redirect_loop-EndAnswered :
      (fuel : ℕ) (cfg : LoopConfig) (hop : ℕ) (connect : ProxyConnectResponse) (t : Turn) (w : W)
      → EndAnswered (redirect_loop http fuel cfg hop connect t w).0.followed
  unfolding redirect_loop
  redirect_loop-EndAnswered zero cfg hop connect t w = tt
  redirect_loop-EndAnswered (suc fuel) cfg hop connect t w =
      elim (Next-cases http (one_round http cfg t w).0.1) [
        | inl (f, e) ↦ rw (e, redirect_loop) (subst NextAnswered e (one_round-NextAnswered cfg t w))
        | inr (x, r, u, e) ↦ elim (Bool-cases (leb (proxy_redirect_limit - 1) hop)) [
          | inl q ↦ rw (e, redirect_loop) (rw q tt)
          | inr q ↦
              let rest =
                redirect_loop-EndAnswered fuel cfg (suc hop)
                  (first_observed connect (one_round http cfg t w).0.0.connect_resp)
                  (next_turn http cfg t r u) (one_round http cfg t w).1 in
              rw (e, redirect_loop) (rw q rest)
        ]
      ]
