-- ===== src/Probe/Http/Body/Judged.antt =====
-- What HTTPBodyProber of internal/probe/http_body.go reports through a proxy, and what it leaves open.
use netsonar.Base.{
  ℕ, ◌≡◌, refl, sym, ◌∙◌, ◌⊎◌, inl, inr, Bool, true, false, ◌&&◌, String, NonEmpty, NonEmpty-<>,
  List, Option, arith, Bool-cases, Option-cases, &&_split,
}
use netsonar.Base.Int.{ℤ, pos, ltb_ℤ}
use netsonar.Config.Types.{TargetConfig, ProbeOptions}
use netsonar.Proxyurl.{Parts}
use netsonar.Probe.Result.{ProbeResult, Phase, zero_result}
use netsonar.Probe.Sockets.{Outcome, got, failed, Sockets}
use netsonar.Probe.Tcp.{Ended, returned, panicked}
use netsonar.Probe.Tcp.Closed.{close-held}
use netsonar.Probe.Tunnel.{ProxyConnectResponse}
use netsonar.Probe.Http.{HttpOps}
use netsonar.Probe.Http.Exchange.{ProxyPath}
use netsonar.Probe.Http.Loop.{
  Followed, broke, bad_redirect, too_many, answered, crashed, unfinished,
}
use netsonar.Probe.Http.Exchange.Answered.{ReadHttp}
use netsonar.Probe.Http.Loop.Answered.{EndAnswered, redirect_loop-EndAnswered}
use netsonar.Probe.Http.ViaProxy.Judged.{SeenBy}
use netsonar.Probe.Http.Loop.Held.{EndHolds, redirect_loop-IsLooped}
use netsonar.Probe.Http.ViaProxy.{with_connect, follow_from}
use netsonar.Probe.Http.Body.Matches.{Matches, match_body-Matches}
use netsonar.Probe.Http.Body.{
  BodyMatcher, match_body, max_http_body_bytes, status_match, mismatch_error, judge_match,
  judge_read, body_followed, body_parsed, body_probe_via_proxy, with_duration, choose_path,
  http_body_probe,
}

-- A response with the status was received on a connection, as `Seen` says, and its body was read there to its
-- end, is no longer than the limit, and matches.
abbrev pub MatchRead :
    {W : Type 0} {net : Sockets W}
    → HttpOps net
    → (ℤ → ℕ → Type 0)
    → BodyMatcher
    → ProbeOptions
    → ℤ
    → Type 0
MatchRead {W} http Seen m o status =
    (c : ℕ) × (v : W) × (body : String) × (length : ℤ) × Seen status c
    × ((http.read_body (pos 1_048_577) c v).0 ≡ got (body, length))
    × (ltb_ℤ max_http_body_bytes length ≡ false)
    × Matches m.regex o body

-- A success has read a body that matches and an expected status, and no error; a failure has an error.
abbrev pub IsBodyJudged :
    {W : Type 0} {net : Sockets W}
    → HttpOps net
    → (ℤ → ℕ → Type 0)
    → BodyMatcher
    → ProbeOptions
    → ProbeResult
    → Type 0
IsBodyJudged http Seen m o r =
    ((r.success ≡ true)
      × (r.error ≡ "")
      × (r.http_body_evaluated ≡ true)
      × (r.body_match ≡ true)
      × (status_match o.expected_status_codes r.status_code ≡ true)
      × MatchRead http Seen m o r.status_code)
    ⊎ ((r.success ≡ false) × NonEmpty r.error)

abbrev IsFresh : ProbeResult → Type 0
IsFresh r = (r.success ≡ false) × (r.error ≡ "")

abbrev pub EndsBodyJudged :
    {W : Type 0} {net : Sockets W}
    → HttpOps net
    → (ℤ → ℕ → Type 0)
    → BodyMatcher
    → ProbeOptions
    → List ℕ
    → Ended × W
    → Type 0
EndsBodyJudged {net} http Seen m o cs (returned r, w) =
    IsBodyJudged http Seen m o r × (net.held w ≡ cs)
EndsBodyJudged http Seen m o cs (panicked, w) = ⊥

with_connect-IsFresh : (c : ProxyConnectResponse) → IsFresh (with_connect c zero_result)
unfolding with_connect
with_connect-IsFresh c = ground arith

mismatch_error-NonEmpty :
    (body status : Bool) (code length : ℤ) → NonEmpty (mismatch_error body status code length)
unfolding mismatch_error
mismatch_error-NonEmpty false false code length =
    NonEmpty-<> "body match failed and unexpected status code " _ refl
mismatch_error-NonEmpty false true code length = NonEmpty-<> "body match failed (status " _ refl
mismatch_error-NonEmpty true status code length = NonEmpty-<> "unexpected status code " _ refl

judge_match-IsBodyJudged :
    {W : Type 0} {net : Sockets W} (http : HttpOps net) (Seen : ℤ → ℕ → Type 0) (m : BodyMatcher)
    (o : ProbeOptions) (body : Bool) (length : ℤ) (r : ProbeResult)
    → IsFresh r
    → (body ≡ true → MatchRead http Seen m o r.status_code)
    → IsBodyJudged http Seen m o
        (judge_match body (status_match o.expected_status_codes r.status_code) length r)
unfolding judge_match
judge_match-IsBodyJudged http Seen m o body length r f k =
    elim (Bool-cases (body && status_match o.expected_status_codes r.status_code)) [
      | inl e ↦ let (b, s) = &&_split _ _ e in rw e (inl (refl, f.1, refl, b, s, k b))
      | inr e ↦ rw e (inr (f.0, mismatch_error-NonEmpty body _ _ length))
    ]

pub judge_read-IsBodyJudged :
    {W : Type 0} {net : Sockets W} (http : HttpOps net) (Seen : ℤ → ℕ → Type 0) (m : BodyMatcher)
    (o : ProbeOptions) (c : ℕ) (v : W) (phases : List (Phase × ℤ)) (r : ProbeResult)
    (read : Outcome (String × ℤ))
    → (http.read_body (pos 1_048_577) c v).0 ≡ read
    → Seen r.status_code c
    → IsFresh r
    → IsBodyJudged http Seen m o (judge_read m o phases r read)
unfolding judge_read
judge_read-IsBodyJudged http Seen m o c v phases r (failed e) q seen f =
    inr (f.0, NonEmpty-<> "reading response body: " e refl)
judge_read-IsBodyJudged http Seen m o c v phases r (got (body, length)) q seen f =
    elim (Bool-cases (ltb_ℤ max_http_body_bytes length)) [
      | inl e ↦ rw e (inr (f.0, NonEmpty-<> "response body exceeds " _ refl))
      | inr e ↦ rw e (
          judge_match-IsBodyJudged http Seen m o (match_body body o m.regex) length
            (record r { phases = phases }) f
            (λ h. (c, v, body, length, seen, q, e, match_body-Matches body o m.regex h)))
    ]

module _ {W : Type 0} {net : Sockets W} (http : HttpOps net) where
  body_followed-EndsBodyJudged :
      (m : BodyMatcher) (o : ProbeOptions) (res : ProbeResult) (f : Followed) (w : W) (cs : List ℕ)
      → IsFresh res
      → EndHolds cs f (net.held w)
      → EndAnswered http f
      → EndsBodyJudged http (ReadHttp http) m o cs (body_followed http m o res f w)
  unfolding body_followed
  body_followed-EndsBodyJudged m o res (broke x e) w cs f h y =
      (inr (f.0, NonEmpty-<> "http request: " e refl), h.0)
  body_followed-EndsBodyJudged m o res (bad_redirect e) w cs f h y =
      (inr (f.0, NonEmpty-<> "following redirect: " e refl), h)
  body_followed-EndsBodyJudged m o res (too_many x) w cs f h y = (inr (f.0, refl), h)
  body_followed-EndsBodyJudged m o res (answered x r) w cs f h y =
      let limit = pos 1_048_577 in
      let w1 = (http.read_body limit r.conn w).1 in
      let kept = http.held-read_body limit r.conn w ∙ h in
      let seen : ProbeResult = record res {
        http_response_received = true;
        status_code = r.status_code;
      } in
      (
        judge_read-IsBodyJudged http (ReadHttp http) m o r.conn w _ seen
            (http.read_body limit r.conn w).0 refl y f,
        net.held-now _ ∙ close-held net r.conn cs w1 kept,
      )
  body_followed-EndsBodyJudged m o res crashed w cs f h y = absurd h
  body_followed-EndsBodyJudged m o res unfinished w cs f h y = absurd h

  body_parsed-EndsBodyJudged :
      (m : BodyMatcher) (path : ProxyPath) (follows : Bool) (o : ProbeOptions) (url : Outcome Parts)
      (w : W)
      → EndsBodyJudged http
          (ReadHttp http)
          m
          o
          (net.held w)
          (body_parsed http m path follows o url w)
  unfolding body_parsed follow_from
  body_parsed-EndsBodyJudged m path follows o (failed e) w =
      (inr (refl, NonEmpty-<> "parse target URL: " e refl), refl)
  body_parsed-EndsBodyJudged m path follows o (got url) w =
      let e = follow_from http path follows o.headers o (pos 0) url w in
      body_followed-EndsBodyJudged m o (with_connect e.0.connect_resp zero_result) e.0.followed e.1
        (net.held w) (with_connect-IsFresh e.0.connect_resp)
        (redirect_loop-IsLooped http 10 _ 0 _ _ w (omega arith) (omega arith)).0
        (redirect_loop-EndAnswered http 10 _ 0 _ _ w)

  with_duration-EndsBodyJudged :
      (Seen : ℤ → ℕ → Type 0) (start : ℤ) (ended : Ended) (w : W) (m : BodyMatcher)
      (o : ProbeOptions) (cs : List ℕ)
      → EndsBodyJudged http Seen m o cs (ended, w)
      → EndsBodyJudged http Seen m o cs (with_duration http start ended w)
  unfolding with_duration
  with_duration-EndsBodyJudged Seen start (returned r) w m o cs h = (h.0, net.held-now w ∙ h.1)
  with_duration-EndsBodyJudged Seen start panicked w m o cs h = h

  choose_path-EndsBodyJudged :
      (Direct : ℤ → ℕ → Type 0) (m : BodyMatcher) (direct : TargetConfig → W → Ended × W)
      (path : Option ProxyPath) (follows : Bool) (target : TargetConfig) (w : W)
      → EndsBodyJudged http Direct m target.probe_opts (net.held w) (direct target w)
      → EndsBodyJudged http
          (SeenBy http Direct path)
          m
          target.probe_opts
          (net.held w)
          (choose_path http m direct path follows target w)
  unfolding choose_path body_probe_via_proxy
  choose_path-EndsBodyJudged Direct m direct path follows target w d =
      elim (Option-cases m.compile_error) [
        | inl e ↦ elim (Option-cases path) [
          | inl e1 ↦ rw (e, e1, choose_path) d
          | inr (p, e1) ↦
              rw (e, e1, choose_path)
                (body_parsed-EndsBodyJudged m p follows target.probe_opts
                  (http.parse_url target.address) w)
        ]
        | inr (t, e) ↦
            rw (e, choose_path) (inr (refl, NonEmpty-<> "invalid body_match_regex: " t refl), refl)
      ]

  -- The probe, if its direct path, wherever it is entered, ends as it should.
  pub http_body_probe-EndsBodyJudged :
      (Direct : ℤ → ℕ → Type 0) (m : BodyMatcher) (direct : TargetConfig → W → Ended × W)
      (path : Option ProxyPath) (follows : Bool) (target : TargetConfig) (w : W)
      → ((v : W) → EndsBodyJudged http Direct m target.probe_opts (net.held v) (direct target v))
      → EndsBodyJudged http
          (SeenBy http Direct path)
          m
          target.probe_opts
          (net.held w)
          (http_body_probe http m direct path follows target w)
  unfolding http_body_probe
  http_body_probe-EndsBodyJudged Direct m direct path follows target w d =
      let w1 = (net.env.now w).1 in
      let e = choose_path http m direct path follows target w1 in
      with_duration-EndsBodyJudged (SeenBy http Direct path) _ e.0 e.1 m target.probe_opts
        (net.held w)
        (rw (sym (net.held-now w))
          (choose_path-EndsBodyJudged Direct m direct path follows target w1 (d w1)))
