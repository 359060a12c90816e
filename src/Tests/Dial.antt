-- ===== src/Tests/Dial.antt =====
-- A network in which every address answers, its connections numbered from 0, for the probes that dial.
use netsonar.Base.{ℕ, ◌<◌, ◌≡◌, refl, true, false, String, List, [], ◌∷◌, none, some, length, arith}
use netsonar.Base.Int.{pos}
use netsonar.Config.Types.{TargetConfig, ResolvedProxyConfig}
use netsonar.Proxyurl.{Parts, UrlOps, parse, lowered, check_parts}
use netsonar.Probe.Result.{Certificate, zero_result}
use netsonar.Probe.Resolve.{system, resolver_for, Env}
use netsonar.Probe.Sockets.{got, Sockets, remove}
use netsonar.Probe.Dial.{split_dial_families}
use netsonar.Probe.Dial.Families.{IsSplit, split_dial_families-IsSplit}
use netsonar.Probe.Tcp.{tcp_probe}
use netsonar.Probe.Tcp.Closed.{LeavesNothing, tcp_probe-LeavesNothing}
use netsonar.Probe.Tunnel.{TunnelRequest, dial_proxy_tunnel, must_proxy_endpoint}
use netsonar.Probe.Tunnel.Held.{IsTunnelled, dial_proxy_tunnel-IsTunnelled}
use netsonar.Probe.TlsCert.{ProxyOps, tls_cert_probe, set_tls_certificate_result}
use netsonar.Probe.TlsCert.Expiry.{IsEarliest, set_tls_certificate_result-IsEarliest}
use netsonar.Probe.TlsCert.Closed.{tls_cert_probe-LeavesNothing, ReturnsJudged}
use netsonar.Probe.Proxy.{proxy_probe}
use netsonar.Probe.Proxy.Judged.{EndsJudged, proxy_probe-EndsJudged}
use netsonar.Tests.Samples.{web}

abbrev pub leaf : Certificate
leaf = record { raw_issuer = "ca"; raw_subject = "web"; not_after = pos 900 }

abbrev pub root : Certificate
root = record { raw_issuer = "ca"; raw_subject = "ca"; not_after = pos 800 }

-- The world is the list of open connections.
abbrev pub env : Env (List ℕ)
env = record {
  ctx_err = λ w. (none, w);
  now = λ w. (pos 5, w);
  parse_ip = λ s. none;
  lookup_ip4 = λ r s w. ((none, "no such host"), w);
}

abbrev pub sockets : Sockets (List ℕ)
sockets = record {
  env = env;
  split_host_port = λ s. got (s, "443");
  join_host_port = λ h p. h;
  lookup_ip_addr = λ r s w. (got ("10.0.0.1" ∷ "fd00::1" ∷ []), w);
  dial = λ r t w. (got (length w), length w ∷ w);
  fallback_timer = λ w. (true, w);
  close = remove;
  handshake = λ c t w. (got (leaf ∷ root ∷ []), w);
  set_deadline = λ c w. (got tt, w);
  write_connect = λ c d a w. (got tt, w);
  read_response = λ c w. (got (pos 200), w);
  held = λ w. w;
  held-now = λ w. refl;
  held-lookup = λ r h w. refl;
  held-dial = λ r t w. refl;
  held-timer = λ w. refl;
  held-close = λ c w. refl;
  held-handshake = λ c t w. refl;
  held-deadline = λ c w. refl;
  held-write = λ c d a w. refl;
  held-read = λ c w. refl;
}

abbrev pub proxy_parts : Parts
proxy_parts = record {
  opaque = "";
  scheme = "https";
  hostname = "proxy";
  port = "3128";
  user = false;
  path = "";
  raw_query = "";
  fragment = "";
}

bound_3128 : (s : String) (n : ℕ) → some 3128 ≡ some n → n < 65536
bound_3128 s n h = ground arith

abbrev url_ops : UrlOps
url_ops = record {
  parse_request_uri = λ s. some proxy_parts;
  to_lower = λ s. s;
  to_lower_idem = λ s. refl;
  to_lower-NonEmpty = λ s h. h;
  parse_uint16 = λ s. some 3128;
  parse_uint16_bound = bound_3128;
}

abbrev proxy_ops : ProxyOps
proxy_ops = record { base64 = λ s. s; url = url_ops }

abbrev proxy : ResolvedProxyConfig
proxy = record {
  endpoint = "https://proxy:3128";
  tls_skip_verify = false;
  username = "";
  username_env = "";
  username_file = "";
  password_env = "";
  password_file = "";
  credentials = record { username = "monitor"; password = "secret" };
}

abbrev proxied : TargetConfig
proxied = record web { proxy_name = "main"; resolved_proxy = some proxy }

abbrev tunnel_request : TunnelRequest
tunnel_request = record {
  proxy = proxy_parts;
  dest = "10.0.0.1:443";
  tls_skip_verify = false;
  auth_header = "";
  resolver = system;
}

endpoint-parses : must_proxy_endpoint url_ops proxy.endpoint ≡ some proxy_parts
unfolding must_proxy_endpoint parse check_parts lowered
endpoint-parses = refl

split_dial_families-IsSplit_example :
    IsSplit sockets
      ("10.0.0.1" ∷ "fd00::1" ∷ [])
      (split_dial_families sockets ("10.0.0.1" ∷ "fd00::1" ∷ []))
split_dial_families-IsSplit_example =
    split_dial_families-IsSplit sockets ("10.0.0.1" ∷ "fd00::1" ∷ [])

tcp_probe-LeavesNothing_example :
    LeavesNothing sockets
      (resolver_for web.dns_resolver)
      []
      (tcp_probe sockets (false ∷ false ∷ []) web [])
tcp_probe-LeavesNothing_example = tcp_probe-LeavesNothing sockets (false ∷ false ∷ []) web []

dial_proxy_tunnel-IsTunnelled_example :
    IsTunnelled sockets [] (dial_proxy_tunnel sockets tunnel_request [])
dial_proxy_tunnel-IsTunnelled_example = dial_proxy_tunnel-IsTunnelled sockets tunnel_request []

set_tls_certificate_result-IsEarliest_example :
    let r = set_tls_certificate_result zero_result (leaf ∷ (root ∷ [])) in
    (r.cert_observed ≡ true) × IsEarliest r.cert_expiry (leaf ∷ (root ∷ []))
set_tls_certificate_result-IsEarliest_example =
    set_tls_certificate_result-IsEarliest zero_result leaf (root ∷ [])

tls_cert_probe-LeavesNothing_example :
    let ended = tls_cert_probe sockets proxy_ops [] proxied [] in
    LeavesNothing sockets (resolver_for proxied.dns_resolver) [] ended × ReturnsJudged ended.0.0
tls_cert_probe-LeavesNothing_example =
    tls_cert_probe-LeavesNothing sockets proxy_ops [] proxied [] (proxy_parts, endpoint-parses)

proxy_probe-EndsJudged_example :
    EndsJudged sockets proxied.probe_opts.expected_proxy_connect_status_codes []
      (proxy_probe sockets proxy_ops proxied [])
proxy_probe-EndsJudged_example =
    proxy_probe-EndsJudged sockets proxy_ops proxied [] (proxy_parts, endpoint-parses)
