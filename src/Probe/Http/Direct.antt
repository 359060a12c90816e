-- ===== src/Probe/Http/Direct.antt =====
-- HTTPProber and HTTPBodyProber of internal/probe/http.go and http_body.go, on the path without a proxy and
-- as a whole. `Transport` has what they use of the client of net/http.
pub mod Judged
use netsonar.Base.{
  ℕ, ◌≡◌, NonEmpty, Bool, true, false, ◌&&◌, not, String, ◌<>◌, is_blank, List, [], ◌∷◌, Option,
  none, some, if◌then◌else◌,
}
use netsonar.Base.Int.{ℤ, pos, sub64, add64, ltb_ℤ}
use netsonar.Config.Types.{TargetConfig, ProbeOptions, max_http_request_body_bytes}
use netsonar.Proxyurl.{Parts}
use netsonar.Probe.Result.{ProbeResult, Phase, zero_result, Certificate}
use netsonar.Probe.Resolve.{Resolver, resolver_for}
use netsonar.Probe.Sockets.{Outcome, got, failed, opened, Sockets}
use netsonar.Probe.Tcp.{Ended, returned, panicked}
use netsonar.Probe.Http.{Headers, Request, HttpOps}
use netsonar.Probe.Http.Exchange.{ProxyPath}
use netsonar.Probe.Http.Trace.{TraceEvent, snapshot, build_phases_from_snapshot}
use netsonar.Probe.Http.ViaProxy.{
  effective_limit, method_or_get, header_value, put_header, with_certificates, judge_copied,
  http_probe_via_proxy,
}
use netsonar.Probe.Http.Body.{BodyMatcher, judge_read, http_body_probe}

-- The fields of http.Client and http.Transport that newClient sets, with `use_last_response` where
-- CheckRedirect is a function.
pub record Client : Type 0 where
  pub disable_keep_alives : Bool
  pub insecure_skip_verify : Bool
  pub resolver : Resolver
  pub use_last_response : Bool

unfoldable pub new_client : Bool → Bool → Resolver → Client
new_client tls_skip_verify follows resolver = record {
  disable_keep_alives = true;
  insecure_skip_verify = tls_skip_verify;
  resolver = resolver;
  use_last_response = not follows;
}

-- A response of the client; `tls` has the certificates of the peer over TLS.
pub record DirectResponse : Type 0 where
  pub status_code : ℤ
  pub tls : Option (List Certificate)
  pub conn : ℕ

abbrev pub conn_of : Outcome DirectResponse → Outcome ℕ
conn_of (got r) = got r.conn
conn_of (failed e) = failed e

-- The text of an error, if it is one, is not empty.
abbrev pub Told : {A : Type 0} → Outcome A → Type 0
Told (got a) = Unit {0}
Told (failed e) = NonEmpty e

pub record Transport {W : Type 0} (net : Sockets W) : Type 0 where
  -- NewRequestWithContext: the URL of the request.
  pub new_request : String → String → Outcome Parts
  -- Do, which follows the redirects of a client that does not use the last response.
  pub client_do : Client → Request → W → Outcome DirectResponse × W
  -- The callbacks of the trace that were called so far in this probe, with the times of the calls.
  pub traced : W → List (TraceEvent × ℤ)
  -- A client that keeps no connection alive leaves open the one of the body, and none after an error.
  pub held-client_do :
      (c : Client) (q : Request) (w : W)
      → c.disable_keep_alives ≡ true
      → net.held (client_do c q w).1 ≡ opened (conn_of (client_do c q w).0) (net.held w)
  -- Their errors have a text: a url.Error begins with its operation.
  pub told-new_request : (m address : String) → Told (new_request m address)
  pub told-client_do : (c : Client) (q : Request) (w : W) → Told (client_do c q w).0

module _ {W : Type 0} {net : Sockets W} (http : HttpOps net) (transport : Transport net) where
  -- `req.Header.Set(k, v)` for each of the headers.
  unfoldable pub set_headers : Headers → Headers → Headers
  unfolding put_header
  set_headers [] set = set
  set_headers ((k, v) ∷ hs) set = set_headers hs (put_header (http.canonical_header_key k) v set)

  unfoldable pub direct_headers : ProbeOptions → Headers
  unfolding set_headers header_value put_header
  direct_headers o =
      let set = set_headers o.headers [] in
      if ltb_ℤ (pos 0) o.request_body_bytes && is_blank (header_value "Content-Type" set)
      then put_header "Content-Type" "application/octet-stream" set
      else set

  abbrev pub direct_phases : Option ℤ → W → List (Phase × ℤ)
  direct_phases end w = build_phases_from_snapshot (snapshot (transport.traced w)) end

  -- The response of the client, or its error.
  unfoldable pub direct_answered : ProbeOptions → ℤ → Outcome DirectResponse → W → ProbeResult × W
  unfolding with_certificates judge_copied
  direct_answered o start (failed e) w =
      let (end, w1) = net.env.now w in
      (
        record zero_result {
          duration = sub64 end start;
          error = e;
          phases = direct_phases none w1;
        },
        w1,
      )
  direct_answered o start (got r) w =
      let (n, w1) =
        http.copy_body (add64 (effective_limit o.response_body_limit_bytes) (pos 1)) r.conn w in
      let (end, w2) = net.env.now w1 in
      let seen =
        with_certificates r.tls
          (record zero_result { http_response_received = true; status_code = r.status_code }) in
      (
        judge_copied o r.status_code (direct_phases (some end) w2)
            (record seen { duration = sub64 end start }) n,
        net.close r.conn w2,
      )

  unfoldable pub direct_requested : Client → ProbeOptions → Outcome Parts → W → ProbeResult × W
  unfolding direct_answered direct_headers
  direct_requested client o (failed e) w = (record zero_result { error = e }, w)
  direct_requested client o (got url) w =
      let (start, w1) = net.env.now w in
      let (answer, w2) =
        transport.client_do client
          (record {
            method = method_or_get o.method;
            url = url;
            headers = direct_headers o;
            body_bytes = o.request_body_bytes;
            proxy_auth = none;
          })
          w1 in
      direct_answered o start answer w2

  -- HTTPProber.probeDirect; requestBodyReader takes its bytes from an array of the largest size that a
  -- configuration may have.
  unfoldable pub http_probe_direct : Bool → Bool → TargetConfig → W → Ended × W
  unfolding direct_requested new_client resolver_for
  http_probe_direct tls_skip_verify follows target w =
      let o = target.probe_opts in
      if ltb_ℤ max_http_request_body_bytes o.request_body_bytes
      then (panicked, w)
      else (let (r, w1) =
            direct_requested (new_client tls_skip_verify follows (resolver_for target.dns_resolver))
              o (transport.new_request (method_or_get o.method) target.address) w in
          (returned r, w1))

  -- HTTPProber.Probe; the path is `none` where the target has no proxy.
  unfoldable pub http_probe : Option ProxyPath → Bool → Bool → TargetConfig → W → Ended × W
  unfolding http_probe_via_proxy http_probe_direct
  http_probe (some path) tls_skip_verify follows target w =
      http_probe_via_proxy http path follows target w
  http_probe none tls_skip_verify follows target w =
      http_probe_direct tls_skip_verify follows target w

  -- The response of the body probe's client, or its error.
  unfoldable pub body_answered :
      BodyMatcher → ProbeOptions → Outcome DirectResponse → W → ProbeResult × W
  unfolding judge_read
  body_answered m o (failed e) w =
      (record zero_result { error = "http request: " <> e; phases = direct_phases none w }, w)
  body_answered m o (got r) w =
      let (read, w1) = http.read_body (pos 1_048_577) r.conn w in
      let (end, w2) = net.env.now (net.close r.conn w1) in
      (
        judge_read m o (direct_phases (some end) w2)
            (record zero_result { http_response_received = true; status_code = r.status_code })
            read,
        w2,
      )

  unfoldable pub body_requested :
      BodyMatcher → Client → ProbeOptions → Outcome Parts → W → ProbeResult × W
  unfolding body_answered set_headers
  body_requested m client o (failed e) w =
      (record zero_result { error = "creating request: " <> e }, w)
  body_requested m client o (got url) w =
      let (answer, w1) =
        transport.client_do client
          (record {
            method = method_or_get o.method;
            url = url;
            headers = set_headers o.headers [];
            body_bytes = pos 0;
            proxy_auth = none;
          })
          w in
      body_answered m o answer w1

  -- HTTPBodyProber.probeDirect.
  unfoldable pub body_probe_direct : BodyMatcher → Bool → Bool → TargetConfig → W → Ended × W
  unfolding body_requested new_client resolver_for
  body_probe_direct m tls_skip_verify follows target w =
      let o = target.probe_opts in
      let (r, w1) =
        body_requested m (new_client tls_skip_verify follows (resolver_for target.dns_resolver)) o
          (transport.new_request (method_or_get o.method) target.address) w in
      (returned r, w1)

  -- HTTPBodyProber.Probe, with its own direct path.
  unfoldable pub body_probe :
      BodyMatcher → Option ProxyPath → Bool → Bool → TargetConfig → W → Ended × W
  unfolding http_body_probe body_probe_direct
  body_probe m path tls_skip_verify follows target w =
      http_body_probe http m (body_probe_direct m tls_skip_verify follows) path follows target w
