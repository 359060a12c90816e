-- ===== src/Probe/Http/ViaProxy/Judged.antt =====
-- What HTTPProber.probeViaProxy of internal/probe/http.go reports, and what it leaves open.
use netsonar.Base.{
  ℕ, subst, ◌≡◌, refl, sym, ◌∙◌, ◌⊎◌, inl, inr, Bool, true, false, ◌||◌, NonEmpty, NonEmpty-<>,
  List, [], ◌∷◌, Option, none, some, is_empty, arith, Bool-cases,
}
use netsonar.Base.Int.{ℤ, pos, add64, sub64, ltb_ℤ}
use netsonar.Config.Types.{TargetConfig, ProbeOptions}
use netsonar.Proxyurl.{Parts}
use netsonar.Probe.Result.{ProbeResult, Phase, zero_result, Certificate}
use netsonar.Probe.Sockets.{Outcome, got, failed, Sockets}
use netsonar.Probe.Tcp.{Ended, returned, panicked}
use netsonar.Probe.Tcp.Closed.{close-held}
use netsonar.Probe.Tunnel.{ProxyConnectResponse}
use netsonar.Probe.TlsCert.{set_tls_certificate_result}
use netsonar.Probe.Proxy.{contains_code}
use netsonar.Probe.Http.{Response, HttpOps}
use netsonar.Probe.Http.Exchange.{ProxyPath, ProxyHttpExchange}
use netsonar.Probe.Http.Loop.{
  Followed, broke, bad_redirect, too_many, answered, crashed, unfinished,
}
use netsonar.Probe.Http.Exchange.Answered.{ReadHttp}
use netsonar.Probe.Http.Loop.Answered.{EndAnswered, redirect_loop-EndAnswered}
use netsonar.Probe.Http.Loop.Held.{EndHolds, redirect_loop-IsLooped}
use netsonar.Probe.Http.ViaProxy.{
  effective_limit, initial_headers, with_connect, with_certificates, received, judge_status_code,
  judge_copied, http_followed, follow_from, http_parsed, http_probe_via_proxy,
}

-- A response with the status was received on a connection, as `Seen` says, and its body was read there, up
-- to the limit and one byte more; the result says whether it is longer than the limit.
abbrev pub BodyRead :
    {W : Type 0} {net : Sockets W}
    → HttpOps net
    → (ℤ → ℕ → Type 0)
    → ProbeOptions
    → ProbeResult
    → Type 0
BodyRead {W} http Seen o r =
    let limit = effective_limit o.response_body_limit_bytes in
    (c : ℕ) × (v : W) × (n : ℤ) × Seen r.status_code c
    × ((http.copy_body (add64 limit (pos 1)) c v).0 ≡ got n)
    × (r.http_response_truncated ≡ ltb_ℤ limit n)

-- A success received a response with an expected status (any, where none is configured), whose body was
-- read without an error, and has no error; a failure has one.
abbrev pub IsHttpJudged :
    {W : Type 0} {net : Sockets W}
    → HttpOps net
    → (ℤ → ℕ → Type 0)
    → ProbeOptions
    → ProbeResult
    → Type 0
IsHttpJudged http Seen o r =
    ((r.success ≡ true)
      × (r.error ≡ "")
      × (r.http_response_received ≡ true)
      × (r.http_truncation_evaluated ≡ true)
      × ((is_empty o.expected_status_codes || contains_code o.expected_status_codes r.status_code)
          ≡ true)
      × BodyRead http Seen o r)
    ⊎ ((r.success ≡ false) × NonEmpty r.error)

-- Where a response comes from: through a proxy it is read on the connection, else it is as the first says.
abbrev pub SeenBy :
    {W : Type 0} {net : Sockets W}
    → HttpOps net
    → (ℤ → ℕ → Type 0)
    → Option ProxyPath
    → ℤ
    → ℕ
    → Type 0
SeenBy http Direct none = Direct
SeenBy http Direct (some path) = ReadHttp http

-- Nothing was judged yet.
abbrev IsFresh : ProbeResult → Type 0
IsFresh r = (r.success ≡ false) × (r.error ≡ "")

-- A result with a response and its status, not judged yet.
abbrev pub IsReceived : ℤ → ProbeResult → Type 0
IsReceived status r =
    (r.success ≡ false)
    × (r.error ≡ "")
    × (r.http_response_received ≡ true)
    × (r.status_code ≡ status)

pub with_certificates-IsReceived :
    (tls : Option (List Certificate)) (status : ℤ) (r : ProbeResult)
    → IsReceived status r
    → IsReceived status (with_certificates tls r)
unfolding with_certificates set_tls_certificate_result
with_certificates-IsReceived none status r h = h
with_certificates-IsReceived (some []) status r h = h
with_certificates-IsReceived (some (c ∷ cs)) status r h = h

received-IsReceived :
    (x : ProxyHttpExchange) (r : Response) (res : ProbeResult)
    → IsFresh res
    → IsReceived r.status_code (received x r res)
received-IsReceived x r res f =
    with_certificates-IsReceived x.target_tls r.status_code
      (record res { http_response_received = true; status_code = r.status_code })
      (f.0, f.1, refl, refl)

with_connect-IsFresh : (c : ProxyConnectResponse) → IsFresh (with_connect c zero_result)
unfolding with_connect
with_connect-IsFresh c = ground arith

pub judge_copied-IsHttpJudged :
    {W : Type 0} {net : Sockets W} (http : HttpOps net) (Seen : ℤ → ℕ → Type 0) (o : ProbeOptions)
    (status : ℤ) (phases : List (Phase × ℤ)) (res : ProbeResult) (c : ℕ) (v : W) (n : Outcome ℤ)
    → (http.copy_body (add64 (effective_limit o.response_body_limit_bytes) (pos 1)) c v).0 ≡ n
    → Seen status c
    → IsReceived status res
    → IsHttpJudged http Seen o (judge_copied o status phases res n)
unfolding judge_copied judge_status_code
judge_copied-IsHttpJudged http Seen o status phases res c v (failed e) q seen h =
    inr (h.0, NonEmpty-<> "reading response body: " e refl)
judge_copied-IsHttpJudged http Seen o status phases res c v (got n) q seen h =
    elim (Bool-cases
      (is_empty o.expected_status_codes || contains_code o.expected_status_codes status)) [
        | inl e ↦
            let same = subst (λ k. Seen k c) (sym h.3) seen in
            rw e (inl (refl, h.1, h.2, refl, rw h.3 e, (c, v, n, same, q, refl)))
        | inr e ↦ rw e (inr (h.0, refl))
      ]

abbrev pub EndsHttpJudged :
    {W : Type 0} {net : Sockets W}
    → HttpOps net
    → (ℤ → ℕ → Type 0)
    → ProbeOptions
    → List ℕ
    → Ended × W
    → Type 0
EndsHttpJudged {net} http Seen o cs (returned r, w) = IsHttpJudged http Seen o r × (net.held w ≡ cs)
EndsHttpJudged http Seen o cs (panicked, w) = ⊥

module _ {W : Type 0} {net : Sockets W} (http : HttpOps net) where
  http_followed-EndsHttpJudged :
      (o : ProbeOptions) (start : ℤ) (res : ProbeResult) (f : Followed) (w : W) (cs : List ℕ)
      → IsFresh res
      → EndHolds cs f (net.held w)
      → EndAnswered http f
      → EndsHttpJudged http (ReadHttp http) o cs (http_followed http o start res f w)
  unfolding http_followed
  http_followed-EndsHttpJudged o start res (broke x e) w cs f h y =
      (inr (f.0, h.1), net.held-now w ∙ h.0)
  http_followed-EndsHttpJudged o start res (bad_redirect e) w cs f h y =
      (inr (f.0, NonEmpty-<> "following redirect: " e refl), net.held-now w ∙ h)
  http_followed-EndsHttpJudged o start res (too_many x) w cs f h y =
      (inr (f.0, refl), net.held-now w ∙ h)
  http_followed-EndsHttpJudged o start res (answered x r) w cs f h y =
      let limit = add64 (effective_limit o.response_body_limit_bytes) (pos 1) in
      let w1 = (http.copy_body limit r.conn w).1 in
      let kept = net.held-now w1 ∙ http.held-copy_body limit r.conn w ∙ h in
      let timed : ProbeResult = record (received x r res) {
        duration = sub64 (net.env.now w1).0 start;
      } in
      (
        judge_copied-IsHttpJudged http (ReadHttp http) o r.status_code _ timed r.conn w _ refl y
            (received-IsReceived x r res f),
        close-held net r.conn cs _ kept,
      )
  http_followed-EndsHttpJudged o start res crashed w cs f h y = absurd h
  http_followed-EndsHttpJudged o start res unfinished w cs f h y = absurd h

  http_parsed-EndsHttpJudged :
      (path : ProxyPath) (follows : Bool) (o : ProbeOptions) (start : ℤ) (url : Outcome Parts)
      (w : W)
      → EndsHttpJudged http
          (ReadHttp http)
          o
          (net.held w)
          (http_parsed http path follows o start url w)
  unfolding http_parsed follow_from
  http_parsed-EndsHttpJudged path follows o start (failed e) w =
      (inr (refl, NonEmpty-<> "parse target URL: " e refl), net.held-now w)
  http_parsed-EndsHttpJudged path follows o start (got url) w =
      let e = follow_from http path follows (initial_headers o) o o.request_body_bytes url w in
      http_followed-EndsHttpJudged o start (with_connect e.0.connect_resp zero_result) e.0.followed
        e.1 (net.held w) (with_connect-IsFresh e.0.connect_resp)
        (redirect_loop-IsLooped http 10 _ 0 _ _ w (omega arith) (omega arith)).0
        (redirect_loop-EndAnswered http 10 _ 0 _ _ w)

-- An HTTP probe through a proxy does not panic, whatever redirects it is sent, and closes every connection
-- that it opens. It succeeds, with no error, only if the answer that it reports was read on a
-- connection with its body, with an expected status where any is configured; a failure has an error.
pub http_probe_via_proxy-EndsHttpJudged :
    {W : Type 0} {net : Sockets W} (http : HttpOps net) (path : ProxyPath) (follows : Bool)
    (target : TargetConfig) (w : W)
    → EndsHttpJudged http
        (ReadHttp http)
        target.probe_opts
        (net.held w)
        (http_probe_via_proxy http path follows target w)
unfolding http_probe_via_proxy
http_probe_via_proxy-EndsHttpJudged {net} http path follows target w =
    rw (sym (net.held-now w)) (http_parsed-EndsHttpJudged http path follows target.probe_opts _ _ _)
