-- ===== src/Config/Rules.antt =====
-- The validators of internal/config/config.go for addresses, sizes, codes and the target's proxy. The
-- Go library's net, strconv and regexp functions are a parameter.
pub mod Sizes
use netsonar.Base.{
  ℕ, suc, ◌+◌, ◌≡◌, Bool, true, false, ◌&&◌, ◌||◌, not, String, str_eq, str_mem, is_blank, List, [],
  ◌∷◌, Option, none, some, if◌then◌else◌, is_none, is_some, is_empty, any,
}
use netsonar.Base.Int.{ℤ, pos, ltb_ℤ, leb_ℤ, eq_ℤ, add64}
use netsonar.Config.Types.{ProbeOptions, TargetConfig, ProxyConfig, ResolvedProxyConfig}
use netsonar.Config.Checks.{
  Checked, ok, err, ◌>>=◌, ◌>>◌, reject_if, is_proxy_name, invalid_dns_resolver, dns_resolver_port,
  invalid_dns_server, invalid_option, invalid_target_address, proxy_not_supported, missing_proxy,
  invalid_proxy_name, no_proxy_registry, unknown_proxy,
}

-- net.ParseIP's answer, as far as To4() tells.
pub data IpFamily : Type 0 where
  v4 v6 : IpFamily

-- net.SplitHostPort, net.JoinHostPort, net.ParseIP, strconv.Atoi, regexp.Compile, and
-- strings.Contains(s, "://") and the brackets of an address.
pub record Net : Type 0 where
  pub split_host_port : String → Option (String × String)
  pub join_host_port : String → String → String
  pub parse_ip : String → Option IpFamily
  pub atoi : String → Option ℤ
  pub compiles : String → Bool
  pub has_scheme : String → Bool
  pub in_brackets : String → Option String

abbrev out_of_port_range : Option ℤ → Bool
out_of_port_range none = true
out_of_port_range (some n) = ltb_ℤ n (pos 1) || ltb_ℤ (pos 65535) n

module _ (net : Net) where
  -- validateTCPAddress and validateProxyConnectAddress, which differ in their wording alone.
  unfoldable pub validate_host_port : TargetConfig → Checked (Unit {0})
  validate_host_port t = do
    reject_if (net.has_scheme t.address) (invalid_target_address t.name)
    elim (net.split_host_port t.address) [
      | none ↦ err (invalid_target_address t.name)
      | some (host, port) ↦ (do
        reject_if (is_blank host || is_blank port) (invalid_target_address t.name)
        reject_if (out_of_port_range (net.atoi port)) (invalid_target_address t.name))
    ]

  unfoldable pub validate_ipv4_only_address : TargetConfig → Checked (Unit {0})
  validate_ipv4_only_address t = do
    reject_if (is_some (net.split_host_port t.address)) (invalid_target_address t.name)
    reject_if (is_some (net.in_brackets t.address)) (invalid_target_address t.name)
    elim (net.parse_ip t.address) [
      | none ↦ ok tt
      | some v4 ↦ ok tt
      | some v6 ↦ err (invalid_target_address t.name)
    ]

  unfoldable pub validate_dns_resolver : String → Checked (Unit {0})
  validate_dns_resolver s = if is_blank s then ok tt else elim (net.split_host_port s) [
    | none ↦ err (invalid_dns_resolver s)
    | some (host, port) ↦ (do
      reject_if (is_none (net.parse_ip host)) (invalid_dns_resolver s)
      reject_if (out_of_port_range (net.atoi port)) (dns_resolver_port s))
  ]

  -- `host` after the retry with port 53.
  dns_server_host : String → Option String
  dns_server_host s = elim (net.split_host_port s) [
    | some (host, port) ↦ some host
    | none ↦ elim (net.split_host_port (net.join_host_port s "53")) [
      | some (host, port) ↦ some host
      | none ↦ none
    ]
  ]

  unfoldable pub validate_dns_server : String → Checked (Unit {0})
  unfolding dns_server_host
  validate_dns_server s = if is_blank s then ok tt else elim (dns_server_host s) [
    | none ↦ err (invalid_dns_server s)
    | some host ↦ reject_if (is_none (net.parse_ip host)) (invalid_dns_server s)
  ]

  unfoldable pub validate_body_match_regex : TargetConfig → Checked (Unit {0})
  validate_body_match_regex t =
      reject_if
        (not (is_blank t.probe_opts.body_match_regex)
          && not (net.compiles t.probe_opts.body_match_regex))
        (invalid_option t.name "body_match_regex")

unfoldable pub validate_proxy_name_unsupported : TargetConfig → Checked (Unit {0})
validate_proxy_name_unsupported t =
    reject_if (not (is_blank t.proxy_name)) (proxy_not_supported t.name)

unfoldable pub validate_http_method : TargetConfig → Checked (Unit {0})
validate_http_method t =
    if is_blank t.probe_opts.method
    then ok tt
    else reject_if (not (str_mem t.probe_opts.method ("GET" ∷ "HEAD" ∷ "POST" ∷ [])))
        (invalid_option t.name "method")

unfoldable pub validate_http_request_body : TargetConfig → Checked (Unit {0})
validate_http_request_body t =
    if eq_ℤ t.probe_opts.request_body_bytes (pos 0)
    then ok tt
    else reject_if (not (str_eq t.probe_opts.method "POST"))
        (invalid_option t.name "request_body_bytes")

abbrev pub bad_status_code : ℤ → Bool
bad_status_code code = ltb_ℤ code (pos 100) || ltb_ℤ (pos 599) code

unfoldable pub validate_expected_status_codes : TargetConfig → Checked (Unit {0})
validate_expected_status_codes t =
    reject_if (any bad_status_code t.probe_opts.expected_status_codes)
      (invalid_option t.name "expected_status_codes")

unfoldable pub validate_expected_proxy_connect_status_codes : TargetConfig → Checked (Unit {0})
validate_expected_proxy_connect_status_codes t =
    reject_if (any bad_status_code t.probe_opts.expected_proxy_connect_status_codes)
      (invalid_option t.name "expected_proxy_connect_status_codes")

unfoldable pub validate_dns_query_type : TargetConfig → Checked (Unit {0})
validate_dns_query_type t =
    reject_if
      (not (is_blank t.probe_opts.dns_query_type)
        && not (str_mem t.probe_opts.dns_query_type ("A" ∷ "AAAA" ∷ "CNAME" ∷ [])))
      (invalid_option t.name "dns_query_type")

-- `proxies[name]`.
pub find_proxy : String → List (String × ProxyConfig) → Option ProxyConfig
find_proxy n [] = none
find_proxy n ((k, p) ∷ ps) = if str_eq k n then some p else find_proxy n ps

-- It returns the target with its proxy filled in.
unfoldable pub resolve_target_proxy :
    TargetConfig → List (String × ProxyConfig) → Bool → Checked TargetConfig
unfolding find_proxy
resolve_target_proxy t proxies required =
    if is_blank t.proxy_name then (if required then err (missing_proxy t.name) else ok t) else (do
      reject_if (not (is_proxy_name t.proxy_name)) (invalid_proxy_name t.name)
      reject_if (is_empty proxies) (no_proxy_registry t.name)
      elim (find_proxy t.proxy_name proxies) [
        | none ↦ err (unknown_proxy t.name)
        | some p ↦ ok (record t {
          resolved_proxy = some (record {
            endpoint = p.endpoint;
            tls_skip_verify = p.tls_skip_verify;
            username = p.username;
            username_env = p.username_env;
            username_file = p.username_file;
            password_env = p.password_env;
            password_file = p.password_file;
            credentials = p.credentials;
          });
        })
      ])

-- The loop `for i := 1; ...`: `sizes[i] >= sizes[i-1]` for some i.
unfoldable pub not_descending : List ℤ → Bool
not_descending [] = false
not_descending (a ∷ []) = false
not_descending (a ∷ (b ∷ rest)) = leb_ℤ a b || not_descending (b ∷ rest)

-- The checks after those on the sizes.
unfoldable pub mtu_limits : TargetConfig → ℤ → Checked (Unit {0})
mtu_limits t largest = do
  reject_if (leb_ℤ t.probe_opts.expected_min_mtu (pos 0)) (invalid_option t.name "expected_min_mtu")
  reject_if (ltb_ℤ (add64 largest (pos 28)) t.probe_opts.expected_min_mtu)
      (invalid_option t.name "expected_min_mtu")
  reject_if (ltb_ℤ t.probe_opts.mtu_retries (pos 1)) (invalid_option t.name "mtu_retries")
  reject_if (leb_ℤ t.probe_opts.mtu_per_attempt_timeout (pos 0))
      (invalid_option t.name "mtu_per_attempt_timeout")
  reject_if (ltb_ℤ t.timeout t.probe_opts.mtu_per_attempt_timeout)
      (invalid_option t.name "mtu_per_attempt_timeout")

unfoldable pub sizes_checks : TargetConfig → List ℤ → Checked (Unit {0})
sizes_checks t [] = err (invalid_option t.name "icmp_payload_sizes")
sizes_checks t (largest ∷ sizes) = do
  reject_if (not_descending (largest ∷ sizes)) (invalid_option t.name "icmp_payload_sizes")
  reject_if (any (λ s. leb_ℤ s (pos 0)) (largest ∷ sizes))
      (invalid_option t.name "icmp_payload_sizes")
  mtu_limits t largest

unfoldable pub validate_icmp_payload_sizes : TargetConfig → Checked (Unit {0})
validate_icmp_payload_sizes t = sizes_checks t t.probe_opts.icmp_payload_sizes
