-- ===== src/Config/Options.antt =====
-- validateProbeOpts of internal/config/config.go.
use netsonar.Base.{
  Bool, true, false, ◌&&◌, ◌||◌, not, String, is_blank, List, if◌then◌else◌, is_empty,
}
use netsonar.Base.Int.{ℤ, pos, ltb_ℤ, eq_ℤ}
use netsonar.Config.Types.{
  ProbeType, tcp, http, icmp, mtu, dns, tls_cert, http_body, proxy_connect, unknown, ProbeOptions,
  TargetConfig, ProxyConfig, max_http_request_body_bytes,
}
use netsonar.Config.Checks.{Checked, ok, ◌>>=◌, ◌>>◌, reject_if, unsupported_option, invalid_option}
use netsonar.Config.Rules.{
  Net, validate_host_port, validate_ipv4_only_address, validate_dns_server,
  validate_body_match_regex, validate_proxy_name_unsupported, validate_http_method,
  validate_http_request_body, validate_expected_status_codes,
  validate_expected_proxy_connect_status_codes, validate_dns_query_type, resolve_target_proxy,
  validate_icmp_payload_sizes,
}

-- `t.ProbeType == ...`, for the tests below.
abbrev pub is_http : ProbeType → Bool
is_http http = true
is_http _ = false

abbrev pub is_http_body : ProbeType → Bool
is_http_body http_body = true
is_http_body _ = false

abbrev pub is_any_http : ProbeType → Bool
is_any_http ty = is_http ty || is_http_body ty

abbrev pub is_tls_cert : ProbeType → Bool
is_tls_cert tls_cert = true
is_tls_cert _ = false

abbrev pub is_proxy_connect : ProbeType → Bool
is_proxy_connect proxy_connect = true
is_proxy_connect _ = false

abbrev pub is_icmp : ProbeType → Bool
is_icmp icmp = true
is_icmp _ = false

abbrev pub is_mtu : ProbeType → Bool
is_mtu mtu = true
is_mtu _ = false

abbrev pub is_dns : ProbeType → Bool
is_dns dns = true
is_dns _ = false

abbrev pub nonzero : ℤ → Bool
nonzero n = not (eq_ℤ n (pos 0))

-- Whether an option is set, and whether the probe type has it: one row for each `if`.
abbrev pub sets_mtu : ProbeOptions → Bool
sets_mtu o =
    not (is_empty o.icmp_payload_sizes)
    || (nonzero o.expected_min_mtu || (nonzero o.mtu_retries || nonzero o.mtu_per_attempt_timeout))

abbrev pub sets_dns : ProbeOptions → Bool
sets_dns o =
    not (is_blank o.dns_query_name)
    || (not (is_blank o.dns_query_type)
        || (not (is_blank o.dns_server) || not (is_empty o.dns_expected_results)))

-- The checks before the `switch`.
unfoldable pub check_option_types : String → ProbeType → ProbeOptions → Checked (Unit {0})
check_option_types n ty o = do
  reject_if (ltb_ℤ o.response_body_limit_bytes (pos 0))
      (invalid_option n "response_body_limit_bytes")
  reject_if (ltb_ℤ o.request_body_bytes (pos 0)) (invalid_option n "request_body_bytes")
  reject_if (ltb_ℤ max_http_request_body_bytes o.request_body_bytes)
      (invalid_option n "request_body_bytes")
  reject_if (ltb_ℤ (pos 0) o.request_body_bytes && not (is_http ty))
      (unsupported_option n "request_body_bytes")
  reject_if (not (is_empty o.expected_proxy_connect_status_codes) && not (is_proxy_connect ty))
      (unsupported_option n "expected_proxy_connect_status_codes")
  reject_if (o.tls_emit_cert_metrics && not (is_http ty))
      (unsupported_option n "tls_emit_cert_metrics")
  reject_if (not (is_blank o.method) && not (is_any_http ty)) (unsupported_option n "method")
  reject_if (not (is_empty o.headers) && not (is_any_http ty)) (unsupported_option n "headers")
  reject_if (o.follow_redirects && not (is_any_http ty)) (unsupported_option n "follow_redirects")
  reject_if (o.tls_skip_verify && not (is_any_http ty || is_tls_cert ty))
      (unsupported_option n "tls_skip_verify")
  reject_if (not (is_empty o.expected_status_codes) && not (is_any_http ty || is_proxy_connect ty))
      (unsupported_option n "expected_status_codes")
  reject_if (ltb_ℤ (pos 0) o.response_body_limit_bytes && not (is_http ty))
      (unsupported_option n "response_body_limit_bytes")
  reject_if
      ((not (is_blank o.body_match_regex) || not (is_blank o.body_match_string))
        && not (is_http_body ty))
      (unsupported_option n "body_match")
  reject_if ((nonzero o.ping_count || nonzero o.ping_interval_sec) && not (is_icmp ty))
      (unsupported_option n "ping_count")
  reject_if (sets_mtu o && not (is_mtu ty)) (unsupported_option n "icmp_payload_sizes")
  reject_if (sets_dns o && not (is_dns ty)) (unsupported_option n "dns_query_name")

-- The cases of the `switch`; each returns the target, with its proxy where it has one.
module _ (net : Net) (proxies : List (String × ProxyConfig)) where
  check_http_body : TargetConfig → Checked (Unit {0})
  check_http_body t = do
    reject_if (is_blank t.probe_opts.body_match_regex && is_blank t.probe_opts.body_match_string)
        (invalid_option t.name "body_match")
    validate_body_match_regex net t

  unfoldable pub check_any_http : TargetConfig → Checked TargetConfig
  unfolding check_http_body
  check_any_http t = do
    t' ← resolve_target_proxy t proxies false
    validate_http_method t'
    validate_http_request_body t'
    if is_http_body t.probe_type then check_http_body t' else ok tt
    validate_expected_status_codes t'
    ok t'

  unfoldable pub check_proxy_connect : TargetConfig → Checked TargetConfig
  check_proxy_connect t = do
    t' ← resolve_target_proxy t proxies true
    validate_host_port net t'
    reject_if (not (is_empty t'.probe_opts.expected_status_codes))
        (invalid_option t'.name "expected_status_codes")
    validate_expected_proxy_connect_status_codes t'
    ok t'

  unfoldable pub check_probe_type : ProbeType → TargetConfig → Checked TargetConfig
  unfolding check_any_http check_proxy_connect
  check_probe_type tcp t = do validate_proxy_name_unsupported t; validate_host_port net t; ok t
  check_probe_type http t = check_any_http t
  check_probe_type http_body t = check_any_http t
  check_probe_type icmp t = do
    validate_proxy_name_unsupported t
    validate_ipv4_only_address net t
    ok t
  check_probe_type mtu t = do
    validate_proxy_name_unsupported t
    validate_ipv4_only_address net t
    validate_icmp_payload_sizes t
    ok t
  check_probe_type dns t = do
    validate_proxy_name_unsupported t
    validate_dns_query_type t
    validate_dns_server net t.probe_opts.dns_server
    ok t
  check_probe_type tls_cert t = resolve_target_proxy t proxies false
  check_probe_type proxy_connect t = check_proxy_connect t
  check_probe_type (unknown s) t = ok t

  unfoldable pub validate_probe_opts : TargetConfig → Checked TargetConfig
  validate_probe_opts t = do
    check_option_types t.name t.probe_type t.probe_opts
    check_probe_type t.probe_type t
