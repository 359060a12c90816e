-- ===== src/Probe/Http/Loop/Held.antt =====
-- The redirect loop of the HTTP probes: the connections that it leaves, and how often it goes round.
use netsonar.Base.{
  ℕ, zero, suc, ◌+◌, ◌-◌, leb, ◌≤◌, ◌≡◌, refl, sym, subst, ◌⊎◌, inl, inr, Bool, ◌||◌, not, String,
  NonEmpty, List, ◌∷◌, Option, none, some, arith, Bool-cases,
}
use netsonar.Proxyurl.{Parts}
use netsonar.Probe.Sockets.{Sockets}
use netsonar.Probe.Tcp.Closed.{close-held}
use netsonar.Probe.Tunnel.{ProxyConnectResponse}
use netsonar.Probe.Http.{Response, HttpOps}
use netsonar.Probe.Http.Redirect.{is_redirect, Redirect, stay, follow, bad, resolve_redirect}
use netsonar.Probe.Http.Exchange.{ProxyHttpExchange, execute_proxy_http_exchange}
use netsonar.Probe.Http.Exchange.Held.{OneOrNone, conn_of, execute_proxy_http_exchange-IsExchanged}
use netsonar.Probe.Http.Loop.{
  Turn, Followed, broke, bad_redirect, too_many, answered, crashed, unfinished, LoopEnd, Next, stop,
  again, LoopConfig, take_redirect, judge_exchange, one_round, next_turn, redirect_loop,
  first_observed, proxy_redirect_limit,
}

-- What stays open at an end of the loop: the connection of the answer, else nothing.
abbrev pub EndHolds : List ℕ → Followed → List ℕ → Type 0
EndHolds cs (answered x r) held = held ≡ r.conn ∷ cs
EndHolds cs (broke x e) held = (held ≡ cs) × NonEmpty e
EndHolds cs (bad_redirect e) held = held ≡ cs
EndHolds cs (too_many x) held = held ≡ cs
EndHolds cs crashed held = ⊥
EndHolds cs unfinished held = ⊥

abbrev NextHolds : List ℕ → Next → List ℕ → Type 0
NextHolds cs (stop f) held = EndHolds cs f held
NextHolds cs (again x r u) held = held ≡ cs

module _ {W : Type 0} {net : Sockets W} (http : HttpOps net) where
  take_redirect-NextHolds :
      (x : ProxyHttpExchange) (r : Response) (d : Redirect) (w : W) (cs : List ℕ)
      → net.held w ≡ r.conn ∷ cs
      → let (n, w') = take_redirect http x r d w in NextHolds cs n (net.held w')
  unfolding take_redirect
  take_redirect-NextHolds x r stay w cs h = h
  take_redirect-NextHolds x r (bad e) w cs h = close-held net r.conn cs w h
  take_redirect-NextHolds x r (follow u) w cs h = close-held net r.conn cs w h

  judge_exchange-NextHolds :
      (follows : Bool) (url : Parts) (x : ProxyHttpExchange) (resp : Option Response)
      (err : Option String) (w : W) (cs : List ℕ)
      → OneOrNone cs (conn_of resp) err (net.held w)
      → let (n, w') = judge_exchange http follows url x resp err w in NextHolds cs n (net.held w')
  unfolding judge_exchange
  judge_exchange-NextHolds follows url x none (some e) w cs h = h
  judge_exchange-NextHolds follows url x (some r) (some e) w cs h = absurd h
  judge_exchange-NextHolds follows url x none none w cs h = h
  judge_exchange-NextHolds follows url x (some r) none w cs h =
      elim (Bool-cases (not follows || not (is_redirect r.status_code))) [
        | inl e ↦ rw e h
        | inr e ↦ rw e (take_redirect-NextHolds x r (resolve_redirect http url r) w cs h)
      ]

  one_round-NextHolds :
      (cfg : LoopConfig) (t : Turn) (w : W)
      → let (xn, w') = one_round http cfg t w in NextHolds (net.held w) xn.1 (net.held w')
  unfolding one_round
  one_round-NextHolds cfg t w =
      let x = execute_proxy_http_exchange http cfg.path t.url t.method t.headers t.body_bytes w in
      judge_exchange-NextHolds cfg.follow_redirects t.url x.0 x.0.resp x.0.err x.1 (net.held w) (
        execute_proxy_http_exchange-IsExchanged http cfg.path t.url t.method t.headers t.body_bytes
          w)

  pub Next-cases :
      (n : Next)
      → ((f : Followed) × (n ≡ stop f))
        ⊎ ((x : ProxyHttpExchange) × (r : Response) × (u : Parts) × (n ≡ again x r u))
  Next-cases (stop f) = inl (f, refl)
  Next-cases (again x r u) = inr (x, r, u, refl)

  -- The end of the loop, after at most nine hops.
  abbrev pub IsLooped : List ℕ → LoopEnd × W → Type 0
  IsLooped cs (e, w) = EndHolds cs e.followed (net.held w) × (e.hops + 1 ≤ proxy_redirect_limit)

  pub redirect_loop-IsLooped :
      (fuel : ℕ) (cfg : LoopConfig) (hop : ℕ) (connect : ProxyConnectResponse) (t : Turn) (w : W)
      → hop + 1 ≤ proxy_redirect_limit
      → proxy_redirect_limit ≤ hop + fuel
      → IsLooped (net.held w) (redirect_loop http fuel cfg hop connect t w)
  unfolding redirect_loop
  redirect_loop-IsLooped zero cfg hop connect t w l f = absurd (omega arith)
  redirect_loop-IsLooped (suc fuel) cfg hop connect t w l f =
      let round = one_round-NextHolds cfg t w in
      let w1 = (one_round http cfg t w).1 in
      elim (Next-cases (one_round http cfg t w).0.1) [
        | inl (f, e) ↦
            rw (e, redirect_loop) (subst (λ n. NextHolds (net.held w) n (net.held w1)) e round, l)
        | inr (x, r, u, e) ↦
            let kept = subst (λ n. NextHolds (net.held w) n (net.held w1)) e round in
            elim (Bool-cases (leb (proxy_redirect_limit - 1) hop)) [
              | inl q ↦ rw (e, redirect_loop) (rw q (kept, l))
              | inr q ↦
                  let rest =
                    redirect_loop-IsLooped fuel cfg (suc hop)
                      (first_observed connect (one_round http cfg t w).0.0.connect_resp)
                      (next_turn http cfg t r u) w1 (ground arith) (omega arith) in
                  rw (e, redirect_loop) (rw q (rw (sym kept) rest))
            ]
      ]

-- With fuel for ten exchanges or more, the loop ends, whatever the servers answer; from the first request it
-- follows at most nine redirects, so it makes at most ten exchanges. It ends with the connection of the
-- answer open, if there is one, and with no other that was not open before.
pub redirect_loop_bounded :
    {W : Type 0} {net : Sockets W} (http : HttpOps net) (fuel : ℕ) (cfg : LoopConfig)
    (connect : ProxyConnectResponse) (t : Turn) (w : W)
    → proxy_redirect_limit ≤ fuel
    → let (e, w') = redirect_loop http fuel cfg 0 connect t w in
      (e.hops + 1 ≤ proxy_redirect_limit) × EndHolds (net.held w) e.followed (net.held w')
redirect_loop_bounded http fuel cfg connect t w f =
    let (h, n) = redirect_loop-IsLooped http fuel cfg 0 connect t w (omega arith) (omega arith) in
    (n, h)
