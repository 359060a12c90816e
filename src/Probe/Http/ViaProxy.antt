-- ===== src/Probe/Http/ViaProxy.antt =====
-- HTTPProber.probeViaProxy of internal/probe/http.go.
pub mod Judged
use netsonar.Base.{
  ℕ, ◌-◌, Bool, true, false, ◌&&◌, ◌||◌, not, String, ◌<>◌, str_eq, is_blank, List, [], ◌∷◌, Option,
  none, some, if◌then◌else◌, is_empty,
}
use netsonar.Base.Int.{ℤ, pos, sub64, add64, ltb_ℤ, leb_ℤ}
use netsonar.Config.Types.{TargetConfig, ProbeOptions}
use netsonar.Proxyurl.{Parts}
use netsonar.Probe.Result.{ProbeResult, Phase, zero_result, Certificate}
use netsonar.Probe.Resolve.{Resolver, resolver_for}
use netsonar.Probe.Sockets.{Outcome, got, failed, Sockets}
use netsonar.Probe.Tcp.{Ended, returned, panicked}
use netsonar.Probe.Tunnel.{ProxyConnectResponse, no_response}
use netsonar.Probe.TlsCert.{set_tls_certificate_result}
use netsonar.Probe.Proxy.{contains_code}
use netsonar.Probe.Http.{Headers, Response, HttpOps}
use netsonar.Probe.Http.Exchange.{ProxyPath, ProxyHttpExchange, build_proxy_phases}
use netsonar.Probe.Http.Loop.{
  Turn, Followed, broke, bad_redirect, too_many, answered, crashed, unfinished, LoopEnd, LoopConfig,
  proxy_redirect_limit, redirect_loop,
}

-- defaultResponseBodyLimit: 1 MiB.
abbrev pub default_response_body_limit : ℤ
default_response_body_limit = pos 1_048_576

abbrev pub effective_limit : ℤ → ℤ
effective_limit limit = if leb_ℤ limit (pos 0) then default_response_body_limit else limit

abbrev pub method_or_get : String → String
method_or_get m = if is_blank m then "GET" else m

-- `headers[key]`, and the copy with one more.
unfoldable pub header_value : String → Headers → String
header_value k [] = ""
header_value k ((j, v) ∷ hs) = if str_eq j k then v else header_value k hs

unfoldable pub put_header : String → String → Headers → Headers
put_header k v [] = (k, v) ∷ []
put_header k v ((j, u) ∷ hs) = if str_eq j k then (k, v) ∷ hs else (j, u) ∷ put_header k v hs

-- The headers of the first request: a body needs a Content-Type. requestBodyReader yields a body of any
-- length up to the most that a configuration may have.
unfoldable pub initial_headers : ProbeOptions → Headers
unfolding header_value put_header
initial_headers o =
    if ltb_ℤ (pos 0) o.request_body_bytes && is_blank (header_value "Content-Type" o.headers)
    then put_header "Content-Type" "application/octet-stream" o.headers
    else o.headers

-- The CONNECT response of the loop, in the result.
unfoldable pub with_connect : ProxyConnectResponse → ProbeResult → ProbeResult
with_connect c r =
    if c.observed
    then record r {
      proxy_connect_response_received = true;
      proxy_connect_status_code = c.status_code;
    }
    else r

-- `if resp.TLS != nil && len(resp.TLS.PeerCertificates) > 0`.
unfoldable pub with_certificates : Option (List Certificate) → ProbeResult → ProbeResult
with_certificates none r = r
with_certificates (some []) r = r
with_certificates (some (c ∷ cs)) r = set_tls_certificate_result r (c ∷ cs)

-- The comparison with the expected codes.
unfoldable pub judge_status_code : List ℤ → ℤ → ProbeResult → ProbeResult
judge_status_code expected status r =
    if is_empty expected || contains_code expected status
    then record r { success = true }
    else record r { error = "unexpected status code" }

-- The response in the result.
abbrev pub received : ProxyHttpExchange → Response → ProbeResult → ProbeResult
received x r res =
    with_certificates x.target_tls
      (record res { http_response_received = true; status_code = r.status_code })

-- The bytes of the body were counted; the phases are built at the end of the transfer, in either case.
unfoldable pub judge_copied :
    ProbeOptions → ℤ → List (Phase × ℤ) → ProbeResult → Outcome ℤ → ProbeResult
unfolding judge_status_code
judge_copied o status phases res (failed e) = record res {
  error = "reading response body: " <> e;
  phases = phases;
}
judge_copied o status phases res (got n) =
    judge_status_code o.expected_status_codes status (record res {
      http_truncation_evaluated = true;
      http_response_truncated = ltb_ℤ (effective_limit o.response_body_limit_bytes) n;
      phases = phases;
    })

module _ {W : Type 0} {net : Sockets W} (http : HttpOps net) where
  -- The answer is read, and its body closed in the end.
  unfoldable pub http_answered :
      ProbeOptions → ℤ → ProbeResult → ProxyHttpExchange → Response → W → ProbeResult × W
  unfolding with_certificates judge_copied
  http_answered o start res x r w =
      let (n, w1) =
        http.copy_body (add64 (effective_limit o.response_body_limit_bytes) (pos 1)) r.conn w in
      let (end, w2) = net.env.now w1 in
      (
        judge_copied o r.status_code (build_proxy_phases http x (some end))
            (record (received x r res) { duration = sub64 end start }) n,
        net.close r.conn w2,
      )

  -- What the probe makes of the end of the loop.
  unfoldable pub http_followed : ProbeOptions → ℤ → ProbeResult → Followed → W → Ended × W
  unfolding http_answered
  http_followed o start res (broke x e) w =
      let (end, w1) = net.env.now w in
      (
        returned (record res {
          duration = sub64 end start;
          error = e;
          phases = build_proxy_phases http x none;
        }),
        w1,
      )
  http_followed o start res (bad_redirect e) w =
      let (end, w1) = net.env.now w in
      (
        returned (record res { duration = sub64 end start; error = "following redirect: " <> e }),
        w1,
      )
  http_followed o start res (too_many x) w =
      let (end, w1) = net.env.now w in
      (
        returned (record res {
          duration = sub64 end start;
          error = "stopped after 10 redirects";
          phases = build_proxy_phases http x none;
        }),
        w1,
      )
  http_followed o start res (answered x r) w =
      let (res', w1) = http_answered o start res x r w in (returned res', w1)
  http_followed o start res crashed w = (panicked, w)
  http_followed o start res unfinished w = (panicked, w)

  -- The loop from the first request.
  unfoldable pub follow_from :
      ProxyPath → Bool → Headers → ProbeOptions → ℤ → Parts → W → LoopEnd × W
  follow_from path follows headers o body_bytes url w =
      redirect_loop http proxy_redirect_limit
        (record {
          path = path;
          follow_redirects = follows;
          headers = headers;
          body_bytes = body_bytes;
        })
        0 no_response
        (record {
          url = url;
          method = method_or_get o.method;
          headers = headers;
          body_bytes = body_bytes;
        })
        w

  unfoldable pub http_parsed : ProxyPath → Bool → ProbeOptions → ℤ → Outcome Parts → W → Ended × W
  unfolding http_followed follow_from with_connect initial_headers
  http_parsed path follows o start (failed e) w =
      let (end, w1) = net.env.now w in
      (
        returned
            (record zero_result { duration = sub64 end start; error = "parse target URL: " <> e }),
        w1,
      )
  http_parsed path follows o start (got url) w =
      let (e, w1) = follow_from path follows (initial_headers o) o o.request_body_bytes url w in
      http_followed o start (with_connect e.connect_resp zero_result) e.followed w1

  unfoldable pub http_probe_via_proxy : ProxyPath → Bool → TargetConfig → W → Ended × W
  unfolding http_parsed
  http_probe_via_proxy path follows target w =
      let (start, w1) = net.env.now w in
      http_parsed path follows target.probe_opts start (http.parse_url target.address) w1
