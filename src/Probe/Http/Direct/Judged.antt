-- ===== src/Probe/Http/Direct/Judged.antt =====
-- What the HTTP probes of internal/probe/http.go and http_body.go report, with and without a proxy, and what
-- they leave open.
use netsonar.Base.{
  ℕ, ◌≡◌, refl, ap, ◌∙◌, inr, Bool, true, false, NonEmpty-<>, List, [], Option, none, some,
}
use netsonar.Base.Int.{ℤ, pos, add64, sub64, ltb_ℤ}
use netsonar.Config.Types.{TargetConfig, ProbeOptions, max_http_request_body_bytes}
use netsonar.Proxyurl.{Parts}
use netsonar.Probe.Result.{ProbeResult, zero_result}
use netsonar.Probe.Resolve.{resolver_for}
use netsonar.Probe.Sockets.{Outcome, got, failed, opened, Sockets}
use netsonar.Probe.Tcp.Closed.{close-held}
use netsonar.Probe.Http.{Request, HttpOps}
use netsonar.Probe.Http.Exchange.{ProxyPath}
use netsonar.Probe.Http.ViaProxy.{effective_limit, method_or_get, with_certificates}
use netsonar.Probe.Http.ViaProxy.Judged.{
  IsHttpJudged, EndsHttpJudged, SeenBy, judge_copied-IsHttpJudged, with_certificates-IsReceived,
  http_probe_via_proxy-EndsHttpJudged,
}
use netsonar.Probe.Http.Body.{BodyMatcher}
use netsonar.Probe.Http.Body.Judged.{
  IsBodyJudged, EndsBodyJudged, judge_read-IsBodyJudged, http_body_probe-EndsBodyJudged,
}
use netsonar.Probe.Http.Direct.{
  Client, new_client, DirectResponse, conn_of, Told, Transport, set_headers, direct_headers,
  direct_phases, direct_answered, direct_requested, http_probe_direct, http_probe, body_answered,
  body_requested, body_probe_direct, body_probe,
}

-- The client answered a request with the status, on the connection.
abbrev pub FromClient : {W : Type 0} {net : Sockets W} → Transport net → ℤ → ℕ → Type 0
FromClient {W} transport status c =
    (k : Client) × (q : Request) × (w : W) × (r : DirectResponse) × ((transport.client_do k q w).0
      ≡ got r)
    × (r.status_code ≡ status)
    × (r.conn ≡ c)

module _ {W : Type 0} {net : Sockets W} (http : HttpOps net) (transport : Transport net) where
  module _ (o : ProbeOptions) (cs : List ℕ) where
    direct_answered-IsHttpJudged :
        (start : ℤ) (answer : Outcome DirectResponse) (w : W)
        → Told answer
        → net.held w ≡ opened (conn_of answer) cs
        → ((r : DirectResponse) → answer ≡ got r → FromClient transport r.status_code r.conn)
        → let (r, w1) = direct_answered http transport o start answer w in
          IsHttpJudged http (FromClient transport) o r × (net.held w1 ≡ cs)
    unfolding direct_answered
    direct_answered-IsHttpJudged start (failed e) w t h y = (inr (refl, t), net.held-now w ∙ h)
    direct_answered-IsHttpJudged start (got r) w t h y =
        let limit = add64 (effective_limit o.response_body_limit_bytes) (pos 1) in
        let w1 = (http.copy_body limit r.conn w).1 in
        let seen : ProbeResult =
          with_certificates r.tls
            (record zero_result { http_response_received = true; status_code = r.status_code }) in
        let timed : ProbeResult = record seen { duration = sub64 (net.env.now w1).0 start } in
        (
          judge_copied-IsHttpJudged http (FromClient transport) o r.status_code _ timed r.conn w _
              refl (y r refl)
              (with_certificates-IsReceived r.tls r.status_code _ (refl, refl, refl, refl)),
          close-held net r.conn cs _ (net.held-now w1 ∙ http.held-copy_body limit r.conn w ∙ h),
        )

    body_answered-IsBodyJudged :
        (m : BodyMatcher) (answer : Outcome DirectResponse) (w : W)
        → net.held w ≡ opened (conn_of answer) cs
        → ((r : DirectResponse) → answer ≡ got r → FromClient transport r.status_code r.conn)
        → let (r, w1) = body_answered http transport m o answer w in
          IsBodyJudged http (FromClient transport) m o r × (net.held w1 ≡ cs)
    unfolding body_answered
    body_answered-IsBodyJudged m (failed e) w h y =
        (inr (refl, NonEmpty-<> "http request: " e refl), h)
    body_answered-IsBodyJudged m (got r) w h y =
        let limit = pos 1_048_577 in
        let read = (http.read_body limit r.conn w).0 in
        let (end, w2) = net.env.now (net.close r.conn (http.read_body limit r.conn w).1) in
        let kept = http.held-read_body limit r.conn w ∙ h in
        (
          judge_read-IsBodyJudged http (FromClient transport) m o r.conn w
              (direct_phases http transport (some end) w2)
              (record zero_result { http_response_received = true; status_code = r.status_code })
              read refl (y r refl) (refl, refl),
          net.held-now _ ∙ close-held net r.conn cs _ kept,
        )

  direct_requested-IsHttpJudged :
      (client : Client) (o : ProbeOptions) (url : Outcome Parts) (w : W)
      → client.disable_keep_alives ≡ true
      → Told url
      → let (r, w1) = direct_requested http transport client o url w in
        IsHttpJudged http (FromClient transport) o r × (net.held w1 ≡ net.held w)
  unfolding direct_requested
  direct_requested-IsHttpJudged client o (failed e) w k t = (inr (refl, t), refl)
  direct_requested-IsHttpJudged client o (got url) w k t =
      let w1 = (net.env.now w).1 in
      let q : Request = record {
        method = method_or_get o.method;
        url = url;
        headers = direct_headers http transport o;
        body_bytes = o.request_body_bytes;
        proxy_auth = none;
      } in
      direct_answered-IsHttpJudged o (net.held w) _ _ _ (transport.told-client_do client q w1)
        (transport.held-client_do client q w1 k ∙ ap (opened _) (net.held-now w))
        (λ r e. (client, q, w1, r, e, refl, refl))

  body_requested-IsBodyJudged :
      (m : BodyMatcher) (client : Client) (o : ProbeOptions) (url : Outcome Parts) (w : W)
      → client.disable_keep_alives ≡ true
      → let (r, w1) = body_requested http transport m client o url w in
        IsBodyJudged http (FromClient transport) m o r × (net.held w1 ≡ net.held w)
  unfolding body_requested
  body_requested-IsBodyJudged m client o (failed e) w k =
      (inr (refl, NonEmpty-<> "creating request: " e refl), refl)
  body_requested-IsBodyJudged m client o (got url) w k =
      let q : Request = record {
        method = method_or_get o.method;
        url = url;
        headers = set_headers http transport o.headers [];
        body_bytes = pos 0;
        proxy_auth = none;
      } in
      body_answered-IsBodyJudged o (net.held w) m _ _ (transport.held-client_do client q w k)
        (λ r e. (client, q, w, r, e, refl, refl))

  http_probe_direct-EndsHttpJudged :
      (tls_skip_verify follows : Bool) (target : TargetConfig) (w : W)
      → ltb_ℤ max_http_request_body_bytes target.probe_opts.request_body_bytes ≡ false
      → EndsHttpJudged http
          (FromClient transport)
          target.probe_opts
          (net.held w)
          (http_probe_direct http transport tls_skip_verify follows target w)
  unfolding http_probe_direct new_client
  http_probe_direct-EndsHttpJudged tls_skip_verify follows target w b =
      let m = method_or_get target.probe_opts.method in
      rw b (
        direct_requested-IsHttpJudged
          (new_client tls_skip_verify follows (resolver_for target.dns_resolver)) target.probe_opts
          _ w refl (transport.told-new_request m target.address))

  body_probe_direct-EndsBodyJudged :
      (m : BodyMatcher) (tls_skip_verify follows : Bool) (target : TargetConfig) (w : W)
      → EndsBodyJudged http
          (FromClient transport)
          m
          target.probe_opts
          (net.held w)
          (body_probe_direct http transport m tls_skip_verify follows target w)
  unfolding body_probe_direct new_client
  body_probe_direct-EndsBodyJudged m tls_skip_verify follows target w =
      body_requested-IsBodyJudged m
        (new_client tls_skip_verify follows (resolver_for target.dns_resolver)) target.probe_opts _
        w refl

-- An HTTP probe, through a proxy or not, of a target whose request body is no longer than a configuration
-- allows, does not panic, and closes every connection that it opens. It succeeds, with no error, only if a
-- response with the status that it reports was received, from the client of net/http or, through a proxy,
-- read on a connection, and its body was read there without an error, up to one byte more than the limit,
-- where the result says whether it is longer than the limit; and the status is an expected one, where any is
-- configured. A failure has an error.
pub http_probe-EndsHttpJudged :
    {W : Type 0} {net : Sockets W} (http : HttpOps net) (transport : Transport net)
    (path : Option ProxyPath) (tls_skip_verify follows : Bool) (target : TargetConfig) (w : W)
    → ltb_ℤ max_http_request_body_bytes target.probe_opts.request_body_bytes ≡ false
    → EndsHttpJudged http
        (SeenBy http (FromClient transport) path)
        target.probe_opts
        (net.held w)
        (http_probe http transport path tls_skip_verify follows target w)
unfolding http_probe
http_probe-EndsHttpJudged http transport (some path) tls_skip_verify follows target w b =
    http_probe_via_proxy-EndsHttpJudged http path follows target w
http_probe-EndsHttpJudged http transport none tls_skip_verify follows target w b =
    http_probe_direct-EndsHttpJudged http transport tls_skip_verify follows target w b

-- A body probe, through a proxy or not, does not panic and closes every connection that it opens. It
-- succeeds, with no error, only if a response with the status that it reports was received, from the client
-- of net/http or, through a proxy, read on a connection; its body was read there without an error, is no
-- longer than the limit, and is one that the pattern accepts or, without a pattern, that has the configured
-- text in it; and the status is an expected one, where any is configured. A failure has an error.
pub body_probe-EndsBodyJudged :
    {W : Type 0} {net : Sockets W} (http : HttpOps net) (transport : Transport net)
    (m : BodyMatcher) (path : Option ProxyPath) (tls_skip_verify follows : Bool)
    (target : TargetConfig) (w : W)
    → EndsBodyJudged http
        (SeenBy http (FromClient transport) path)
        m
        target.probe_opts
        (net.held w)
        (body_probe http transport m path tls_skip_verify follows target w)
unfolding body_probe
body_probe-EndsBodyJudged http transport m path tls_skip_verify follows target w =
    http_body_probe-EndsBodyJudged http (FromClient transport) m
      (body_probe_direct http transport m tls_skip_verify follows) path follows target w
      (body_probe_direct-EndsBodyJudged http transport m tls_skip_verify follows target)
