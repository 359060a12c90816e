-- ===== src/Tests/Http.antt =====
-- HTTP probes through a proxy, to a server that always redirects.
use netsonar.Base.{◌+◌, ◌≤◌, ◌≡◌, refl, true, false, [], ◌∷◌, none, some, arith}
use netsonar.Base.Int.{pos}
use netsonar.Probe.Resolve.{system}
use netsonar.Probe.Sockets.{got}
use netsonar.Probe.Tunnel.{no_response}
use netsonar.Probe.Http.{HttpOps}
use netsonar.Probe.Http.Redirect.{
  is_redirect, redirected_request, redirected_request-Bodiless, Bodiless,
}
use netsonar.Probe.Http.Exchange.{ProxyPath}
use netsonar.Probe.Http.Loop.{LoopConfig, Turn, proxy_redirect_limit, redirect_loop}
use netsonar.Probe.Http.Loop.Held.{EndHolds, redirect_loop_bounded}
use netsonar.Probe.Http.Phases.{Timeline, total}
use netsonar.Probe.Http.Trace.{
  on_connect_start, on_connect_done, snapshot, build_phases_from_snapshot, callbacks,
  build_phases_from_snapshot-within,
}
use netsonar.Probe.Http.ViaProxy.Judged.{EndsHttpJudged}
use netsonar.Probe.Http.Body.{BodyMatcher}
use netsonar.Probe.Http.Body.Judged.{EndsBodyJudged}
use netsonar.Probe.Http.Direct.{Transport, http_probe, body_probe}
use netsonar.Probe.Http.Exchange.Answered.{ReadHttp}
use netsonar.Probe.Http.Direct.Judged.{
  FromClient, http_probe-EndsHttpJudged, body_probe-EndsBodyJudged,
}
use netsonar.Tests.Samples.{web}
use netsonar.Tests.Dial.{sockets, proxy_parts}

abbrev http : HttpOps sockets
http = record {
  parse_url = λ s. got proxy_parts;
  resolve_reference = λ u s. got u;
  canonical_header_key = λ s. s;
  clear_deadline = λ c w. w;
  check_request = λ m u. got tt;
  write_request = λ c q w. (got tt, w);
  read_http = λ c w. ((got (pos 302, "/next"), some (pos 6)), w);
  copy_body = λ n c w. (got (pos 10), w);
  read_body = λ n c w. (got ("hello", pos 5), w);
  held-clear = λ c w. refl;
  held-write_request = λ c q w. refl;
  held-read_http = λ c w. refl;
  held-copy_body = λ n c w. refl;
  held-read_body = λ n c w. refl;
}

abbrev proxy_path : ProxyPath
proxy_path = record {
  proxy = proxy_parts;
  proxy_tls_skip_verify = false;
  target_tls_skip_verify = false;
  auth_header = "";
  resolver = system;
}

abbrev loop_config : LoopConfig
loop_config = record {
  path = proxy_path;
  follow_redirects = true;
  headers = [];
  body_bytes = pos 0;
}

abbrev first_turn : Turn
first_turn = record { url = proxy_parts; method = "GET"; headers = []; body_bytes = pos 0 }

abbrev matcher : BodyMatcher
matcher = record { compile_error = none; regex = some (λ s. true) }

redirect_loop_bounded_example :
    let (e, w) = redirect_loop http proxy_redirect_limit loop_config 0 no_response first_turn [] in
    (e.hops + 1 ≤ proxy_redirect_limit) × EndHolds [] e.followed w
redirect_loop_bounded_example =
    redirect_loop_bounded http 10 loop_config no_response first_turn [] (omega arith)

-- A client whose answer opens connection 7.
abbrev transport : Transport sockets
transport = record {
  new_request = λ m u. got proxy_parts;
  client_do = λ c q w. (got (record { status_code = pos 204; tls = none; conn = 7 }), 7 ∷ w);
  traced = λ w. (on_connect_start, pos 3) ∷ (on_connect_done, pos 5) ∷ [];
  held-client_do = λ c q w k. refl;
  told-new_request = λ m u. tt;
  told-client_do = λ c q w. tt;
}

http_probe-EndsHttpJudged_example :
    EndsHttpJudged http
      (FromClient transport)
      web.probe_opts
      []
      (http_probe http transport none false true web [])
http_probe-EndsHttpJudged_example =
    http_probe-EndsHttpJudged http transport none false true web [] refl

body_probe-EndsBodyJudged_example :
    EndsBodyJudged http
      (ReadHttp http)
      matcher
      web.probe_opts
      []
      (body_probe http transport matcher (some proxy_path) false true web [])
body_probe-EndsBodyJudged_example =
    body_probe-EndsBodyJudged http transport matcher (some proxy_path) false true web []

redirected_request-Bodiless_example :
    let r =
      redirected_request http "POST" (pos 302) (("Content-Type", "text/plain") ∷ []) (pos 4) in
    (r.1 ≡ pos 0) × Bodiless http r.2
unfolding is_redirect redirected_request
redirected_request-Bodiless_example =
    redirected_request-Bodiless http "POST" (pos 302) (("Content-Type", "text/plain") ∷ []) (pos 4)
      refl refl

-- A request over https by name, from 10 to 90.
abbrev timeline : Timeline
timeline = record {
  lookup = some (10, 20);
  connect = (20, 35);
  handshake = some (36, 50);
  wrote = 52;
  first_byte = 80;
  transfer_end = 90;
}

build_phases_from_snapshot-within_example :
    total (
        build_phases_from_snapshot
          (snapshot (callbacks timeline))
          (some (pos timeline.transfer_end)))
      + 10
    ≤ 90
build_phases_from_snapshot-within_example =
    build_phases_from_snapshot-within 10 timeline (omega arith)
