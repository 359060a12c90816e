-- ===== src/Probe/Http/Body.antt =====
-- HTTPBodyProber of internal/probe/http_body.go, on its path through a proxy; the one without is an
-- argument of `http_body_probe`, which Direct gives.
pub mod Matches
pub mod Judged
use netsonar.Base.{
  ℕ, Bool, true, false, ◌&&◌, ◌||◌, not, String, ◌<>◌, is_blank, List, [], ◌∷◌, Option, none, some,
  if◌then◌else◌, is_empty, ◌==◌,
}
use netsonar.Base.Int.{ℤ, pos, sub64, ltb_ℤ, show_ℤ}
use netsonar.Config.Types.{TargetConfig, ProbeOptions}
use netsonar.Config.Checks.{codes}
use netsonar.Proxyurl.{Parts}
use netsonar.Probe.Result.{ProbeResult, Phase, zero_result}
use netsonar.Probe.Sockets.{Outcome, got, failed, Sockets}
use netsonar.Probe.Tcp.{Ended, returned, panicked}
use netsonar.Probe.Proxy.{contains_code}
use netsonar.Probe.Http.{Response, HttpOps}
use netsonar.Probe.Http.Exchange.{ProxyPath, ProxyHttpExchange, build_proxy_phases}
use netsonar.Probe.Http.Loop.{
  Followed, broke, bad_redirect, too_many, answered, crashed, unfinished,
}
use netsonar.Probe.Http.ViaProxy.{with_connect, follow_from}

-- regexp.Compile of body_match_regex, if that is not empty: its error, or its MatchString.
pub record BodyMatcher : Type 0 where
  pub compile_error : Option String
  pub regex : Option (String → Bool)

-- strings.Contains, on the code points.
unfoldable pub has_prefix : List ℕ → List ℕ → Bool
has_prefix [] cs = true
has_prefix (p ∷ ps) [] = false
has_prefix (p ∷ ps) (c ∷ cs) = p == c && has_prefix ps cs

unfoldable pub has_infix : List ℕ → List ℕ → Bool
unfolding has_prefix
has_infix ps [] = is_empty ps
has_infix ps (c ∷ cs) = has_prefix ps (c ∷ cs) || has_infix ps cs

unfoldable pub match_body : String → ProbeOptions → Option (String → Bool) → Bool
unfolding has_infix
match_body body o (some matches) = matches body
match_body body o none =
    if not (is_blank o.body_match_regex)
    then false
    else not (is_blank o.body_match_string) && has_infix (codes o.body_match_string) (codes body)

-- maxHTTPBodyBytes: 1 MiB.
abbrev pub max_http_body_bytes : ℤ
max_http_body_bytes = pos 1_048_576

abbrev pub status_match : List ℤ → ℤ → Bool
status_match expected status = is_empty expected || contains_code expected status

-- The error of a failure, by what did not match.
unfoldable pub mismatch_error : Bool → Bool → ℤ → ℤ → String
mismatch_error false false status length =
    "body match failed and unexpected status code "
    <> (show_ℤ status <> (" (body length " <> (show_ℤ length <> ")")))
mismatch_error false true status length =
    "body match failed (status " <> (show_ℤ status <> (", body length " <> (show_ℤ length <> ")")))
mismatch_error true matches status length = "unexpected status code " <> show_ℤ status

-- Success, or the reason against it.
unfoldable pub judge_match : Bool → Bool → ℤ → ProbeResult → ProbeResult
unfolding mismatch_error
judge_match body status length r =
    if body && status
    then record r { http_body_evaluated = true; body_match = body; success = true }
    else record r {
      http_body_evaluated = true;
      body_match = body;
      error = mismatch_error body status r.status_code length;
    }

-- The body was read, or not; the phases are built at the end of the transfer, in either case.
unfoldable pub judge_read :
    BodyMatcher → ProbeOptions → List (Phase × ℤ) → ProbeResult → Outcome (String × ℤ) → ProbeResult
unfolding judge_match match_body
judge_read m o phases r (failed e) = record r {
  error = "reading response body: " <> e;
  phases = phases;
}
judge_read m o phases r (got (body, length)) =
    let traced : ProbeResult = record r { phases = phases } in
    if ltb_ℤ max_http_body_bytes length
    then record traced {
      error = "response body exceeds " <> (show_ℤ max_http_body_bytes <> " byte limit");
    }
    else judge_match (match_body body o m.regex)
        (status_match o.expected_status_codes r.status_code) length traced

module _ {W : Type 0} {net : Sockets W} (http : HttpOps net) where
  unfoldable pub body_followed : BodyMatcher → ProbeOptions → ProbeResult → Followed → W → Ended × W
  unfolding judge_read
  body_followed m o res (broke x e) w = (
    returned
        (record res { error = "http request: " <> e; phases = build_proxy_phases http x none }),
    w,
  )
  body_followed m o res (bad_redirect e) w =
      (returned (record res { error = "following redirect: " <> e }), w)
  body_followed m o res (too_many x) w = (
    returned (record res {
      error = "stopped after 10 redirects";
      phases = build_proxy_phases http x none;
    }),
    w,
  )
  body_followed m o res (answered x r) w =
      let (read, w1) = http.read_body (pos 1_048_577) r.conn w in
      let (end, w2) = net.env.now (net.close r.conn w1) in
      let seen : ProbeResult = record res {
        http_response_received = true;
        status_code = r.status_code;
      } in
      (returned (judge_read m o (build_proxy_phases http x (some end)) seen read), w2)
  body_followed m o res crashed w = (panicked, w)
  body_followed m o res unfinished w = (panicked, w)

  unfoldable pub body_parsed :
      BodyMatcher → ProxyPath → Bool → ProbeOptions → Outcome Parts → W → Ended × W
  unfolding body_followed
  body_parsed m path follows o (failed e) w =
      (returned (record zero_result { error = "parse target URL: " <> e }), w)
  body_parsed m path follows o (got url) w =
      let (e, w1) = follow_from http path follows o.headers o (pos 0) url w in
      body_followed m o (with_connect e.connect_resp zero_result) e.followed w1

  unfoldable pub body_probe_via_proxy :
      BodyMatcher → ProxyPath → Bool → TargetConfig → W → Ended × W
  unfolding body_parsed
  body_probe_via_proxy m path follows target w =
      body_parsed m path follows target.probe_opts (http.parse_url target.address) w

  -- The deferred assignment of the duration.
  unfoldable pub with_duration : ℤ → Ended → W → Ended × W
  with_duration start (returned r) w =
      let (end, w1) = net.env.now w in (returned (record r { duration = sub64 end start }), w1)
  with_duration start panicked w = (panicked, w)

  -- Probe; the path is `none` where the target has no proxy.
  unfoldable pub choose_path :
      BodyMatcher
      → (TargetConfig → W → Ended × W)
      → Option ProxyPath
      → Bool
      → TargetConfig
      → W
      → Ended × W
  unfolding body_probe_via_proxy
  choose_path m direct path follows target w = elim m.compile_error [
    | some e ↦ (returned (record zero_result { error = "invalid body_match_regex: " <> e }), w)
    | none ↦ elim path [
      | none ↦ direct target w
      | some p ↦ body_probe_via_proxy m p follows target w
    ]
  ]

  unfoldable pub http_body_probe :
      BodyMatcher
      → (TargetConfig → W → Ended × W)
      → Option ProxyPath
      → Bool
      → TargetConfig
      → W
      → Ended × W
  unfolding choose_path with_duration
  http_body_probe m direct path follows target w =
      let (start, w1) = net.env.now w in
      let (ended, w2) = choose_path m direct path follows target w1 in with_duration start ended w2
